-- ===== src/Env.antt =====
-- project/driver/src/RetsENV.cpp and SQLFreeEnv.cpp: an environment with its connections, and the
-- calls that a client makes on them.
pub mod Asking
pub mod Answers
pub mod Handles
pub mod Kept
pub mod Reachable
pub mod Closing
pub mod Attributes
use ez_rets.Base.{
  ℕ, ◌+◌, ◌-◌, ◌%◌, ◌^◌, Bool, true, false, List, [], ◌∷◌, ◌++◌, Option, none, some, ◌==◌, ltb,
  if◌then◌else◌, Text, ℤ, pos, negsuc, codes, is_empty,
}
use ez_rets.DataSource.Ini.{Installer}
use ez_rets.DataSource.Strings.{Result, ok, thrown}
use ez_rets.Dbc.{
  Dbc, Server, new_dbc, Outcome, returned, crashed, Ended, sql_alloc_stmt, sql_free_stmt,
  can_be_freed, enter,
}
use ez_rets.Dbc.Login.{sql_connect, sql_driver_connect, sql_disconnect}
use ez_rets.Handle.{Error, add_error}
use ez_rets.Memory.{Memory, set_word}
use ez_rets.Odbc.{SqlReturn, success, error, invalid_handle}
use ez_rets.Platform.{Platform}

-- RetsENV and the connections it lists, by their addresses, with the client's memory
pub record Env : Type 0 where
  pub errors : List Error
  pub odbc_version : ℤ
  pub connections : List (ℕ × Dbc)
  pub memory : Memory

-- RetsENV::RetsENV
abbrev pub new_env : Memory → Env
new_env m = record { errors = []; odbc_version = pos 3; connections = []; memory = m }

abbrev clear_errors : Env → Env
clear_errors w = record w { errors = [] }

abbrev with_error : Env → Text → Text → Env
with_error w sqlstate message = record w { errors = add_error w.errors sqlstate message }

abbrev add_connection : Env → ℕ → Result ℕ → Env × SqlReturn
unfolding set_word
add_connection w handle_ptr (ok address) = (
  record w {
    connections = w.connections ++ ((address, new_dbc) ∷ []);
    memory = set_word w.memory handle_ptr (pos address);
  },
  success,
)
add_connection w handle_ptr (thrown e) = (
  record (with_error w (codes "HY013") e) { memory = set_word w.memory handle_ptr (pos 0) },
  error,
)

-- RetsENV::SQLAllocConnect; `allocated` is the address of the new connection, or bad_alloc's what()
unfoldable pub sql_alloc_connect : Env → ℕ → Result ℕ → Env × SqlReturn
unfolding add_connection
sql_alloc_connect w handle_ptr allocated =
    let w0 = clear_errors w in
    if handle_ptr == 0
    then (with_error w0 (codes "HY009") (codes "Invalid use of null pointer"), invalid_handle)
    else add_connection w0 handle_ptr allocated

unfoldable pub find_dbc : ℕ → List (ℕ × Dbc) → Option Dbc
find_dbc address [] = none
find_dbc address ((a, c) ∷ cs) =
    let rest = find_dbc address cs in if a == address then some c else rest

unfoldable pub store_dbc : ℕ → Dbc → List (ℕ × Dbc) → List (ℕ × Dbc)
store_dbc address d [] = []
store_dbc address d ((a, c) ∷ cs) =
    let rest = store_dbc address d cs in if a == address then (a, d) ∷ cs else (a, c) ∷ rest

-- list::remove of a connection
unfoldable pub remove_dbc : ℕ → List (ℕ × Dbc) → List (ℕ × Dbc)
remove_dbc address [] = []
remove_dbc address ((a, c) ∷ cs) =
    let rest = remove_dbc address cs in if a == address then rest else (a, c) ∷ rest

abbrev free_found : Env → ℕ → Option Dbc → Env × Outcome
unfolding can_be_freed remove_dbc
free_found w address none = (w, crashed)
free_found w address (some c) =
    if can_be_freed c
    then (record w { connections = remove_dbc address w.connections }, returned success)
    else (w, returned error)

-- RetsENV::SQLFreeConnect; a handle that stands for no connection of the environment is one the
-- driver would read freed memory for
unfoldable pub sql_free_connect : Env → ℕ → Env × Outcome
unfolding free_found find_dbc
sql_free_connect w address = free_found (clear_errors w) address (find_dbc address w.connections)

-- RetsENV::canBeFreed
unfoldable pub env_can_be_freed : Env → Bool
env_can_be_freed w = is_empty w.connections

-- odbcrets::rets_SQLFreeEnv; `none` where the environment is gone
unfoldable pub sql_free_env : Env → Option Env × SqlReturn
unfolding env_can_be_freed
sql_free_env w = if env_can_be_freed w then (none, success) else (some w, error)

-- (SQLINTEGER) (SQLLEN) Value
abbrev pub sqlinteger_of : ℤ → ℤ
sqlinteger_of z = low_part (low_bits z)
  where
    low_bits : ℤ → ℕ
    low_bits (pos n) = n % 2 ^ 32
    low_bits (negsuc n) = 2 ^ 32 - 1 - n % 2 ^ 32

    low_part : ℕ → ℤ
    low_part n = if ltb n (2 ^ 31) then pos n else negsuc (2 ^ 32 - 1 - n)

-- SQL_ATTR_ODBC_VERSION, SQL_ATTR_CONNECTION_POOLING and SQL_ATTR_OUTPUT_NTS
abbrev pub attr_odbc_version : ℕ
attr_odbc_version = 200

abbrev pub attr_connection_pooling : ℕ
attr_connection_pooling = 201

abbrev pub attr_output_nts : ℕ
attr_output_nts = 10001

abbrev write_value : Env → ℕ → ℤ → Env × SqlReturn
unfolding set_word
write_value w value_ptr z = (record w { memory = set_word w.memory value_ptr z }, success)

-- RetsENV::SQLGetEnvAttr
unfoldable pub sql_get_env_attr : Env → ℕ → ℕ → Env × SqlReturn
unfolding write_value
sql_get_env_attr w attribute value_ptr =
    let w0 = clear_errors w in
    if attribute == attr_connection_pooling
    then write_value w0 value_ptr (pos 0)
    else if attribute == attr_odbc_version
    then write_value w0 value_ptr w.odbc_version
    else if attribute == attr_output_nts
    then write_value w0 value_ptr (pos 1)
    else (w0, error)

abbrev is_one : ℤ → Bool
is_one (pos n) = n == 1
is_one (negsuc n) = false

-- RetsENV::SQLSetEnvAttr
unfoldable pub sql_set_env_attr : Env → ℕ → ℤ → Env × SqlReturn
sql_set_env_attr w attribute value =
    let w0 = clear_errors w in
    if attribute == attr_odbc_version
    then (record w0 { odbc_version = sqlinteger_of value }, success)
    else if attribute == attr_output_nts
    then (w0, if is_one (sqlinteger_of value) then success else error)
    else (w0, error)

-- The calls on a connection's handle that change it; the state of the ini files is what the call
-- finds, since the setup program may have changed it.
pub data Call (S : Type 0) : Type 0 where
  alloc_stmt : ℕ → Result ℕ → Call S
  free_stmt : ℕ → ℕ → Call S
  connect : S → Text → Option Text → Option Text → Call S
  driver_connect : S → Text → ℕ → ℤ → ℕ → Call S
  disconnect : Call S

module _ {S : Type 0} (server : Server) (installer : Installer S) (p : Platform) where
  unfoldable pub make : Call S → Dbc → Memory → Ended
  unfolding sql_alloc_stmt sql_free_stmt sql_connect sql_driver_connect sql_disconnect
  make (alloc_stmt handle_ptr allocated) c m = sql_alloc_stmt c handle_ptr allocated m
  make (free_stmt address option) c m = sql_free_stmt c address option m
  make (connect ini name user_name authentication) c m =
      sql_connect server installer ini p c name user_name authentication m
  make (driver_connect ini in_string out_ptr buffer_length length_ptr) c m =
      sql_driver_connect server installer ini p c in_string out_ptr buffer_length length_ptr m
  make disconnect c m = sql_disconnect server c m

  abbrev made : Env → ℕ → Call S → Option Dbc → Env × Outcome
  unfolding make enter store_dbc
  made w address call none = (w, crashed)
  made w address call (some c) =
      let e = enter (make call) c w.memory in
      (
        record w { connections = store_dbc address e.dbc w.connections; memory = e.memory },
        e.outcome,
      )

  -- A call on the connection at the address.
  unfoldable pub on_connection : Env → ℕ → Call S → Env × Outcome
  unfolding made find_dbc
  on_connection w address call = made w address call (find_dbc address w.connections)
