-- ===== src/Dbc.antt =====
-- project/driver/src/RetsDBC.cpp: a connection, with its session, its view of the metadata and its
-- statements.
pub mod Login
pub mod Info
pub mod InfoText
pub mod Diagnostics
pub mod Attributes
pub mod Tame
pub mod Soundness
pub mod Connecting
pub mod Output
pub mod Saved
use ez_rets.Base.{
  ℕ, Bool, true, false, not, List, [], ◌∷◌, ◌++◌, Option, none, some, ◌==◌, ltb, if◌then◌else◌,
  Text, pos, ℤ, codes, length, is_empty,
}
use ez_rets.DataSource.{DataSource, new_data_source, is_complete}
use ez_rets.DataSource.Connection.{get_connection_string, set_from_odbc_connection_string}
use ez_rets.DataSource.Ini.{Installer, merge_from_ini}
use ez_rets.DataSource.Session.{SessionCall, set_http_logger, create_rets_session, rets_login}
use ez_rets.DataSource.Strings.{Result, ok, thrown}
use ez_rets.Handle.{Error, add_error, set_string_length}
use ez_rets.Librets.{RetsMetadata}
use ez_rets.Memory.{Memory, set_word}
use ez_rets.MetadataView.{MetadataView, create}
use ez_rets.Odbc.{
  SqlReturn, success, success_with_info, no_data, error, invalid_handle, size_of_sqllen,
  smallint_of_size,
}
use ez_rets.Platform.{Platform}
use ez_rets.ResultSet.{ResultSet, unbind_columns}
use ez_rets.Stmt.{Stmt, new_stmt}
use ez_rets.Utils.{copy_string}

-- What RetsSession::Login ends with: its result, or the exception's what().
pub data LoginResult : Type 0 where
  accepted refused : LoginResult
  raised : Text → LoginResult

-- librets and the server behind it: how each call of a session ends, by the calls made before.
pub record Server : Type 0 where
  -- RetsSession::DEFAULT_USER_AGENT in the driver's own
  pub default_user_agent : Text
  -- the constructor and the setters: the exception's what(), if any
  pub create_session : List SessionCall → Option Text
  -- RetsSession::Login
  pub login : List SessionCall → LoginResult
  -- RetsSession::GetMetadata
  pub get_metadata : List SessionCall → Result RetsMetadata
  -- RetsSession::Logout: the exception's what(), if any
  pub logout : List SessionCall → Option Text

-- RetsDBC; a session is known by the calls that made it, a statement by its address
pub record Dbc : Type 0 where
  pub errors : List Error
  pub data_source : DataSource
  pub rets_session : Option (List SessionCall)
  pub metadata_view : Option MetadataView
  pub rets_log_file : Option Text
  pub statements : List (ℕ × Stmt)

-- RetsDBC::RetsDBC
abbrev pub new_dbc : Dbc
new_dbc = record {
  errors = [];
  data_source = new_data_source;
  rets_session = none;
  metadata_view = none;
  rets_log_file = none;
  statements = [];
}

-- How a call ends: it returns, an exception leaves it, or it goes through a null pointer.
pub data Outcome : Type 0 where
  returned : SqlReturn → Outcome
  escaped : Text → Outcome
  crashed : Outcome

pub record Ended : Type 0 where
  pub dbc : Dbc
  pub memory : Memory
  pub outcome : Outcome

abbrev pub ended : Dbc → Memory → Outcome → Ended
ended c m o = record { dbc = c; memory = m; outcome = o }

abbrev pub with_error : Dbc → Text → Text → Dbc
with_error c sqlstate message = record c { errors = add_error c.errors sqlstate message }

-- mErrors.clear()
abbrev pub clear_errors : Dbc → Dbc
clear_errors c = record c { errors = [] }

abbrev pub has {ℓ} : {A : Type ℓ} → Option A → Bool
has none = false
has (some a) = true

-- What a new handle is written to, unless there is no memory for it.
abbrev write_handle : ℕ → Result ℕ → Memory → Memory
unfolding set_word
write_handle handle_ptr (ok address) m = set_word m handle_ptr (pos address)
write_handle handle_ptr (thrown e) m = set_word m handle_ptr (pos 0)

abbrev add_stmt : Dbc → Result ℕ → Dbc × Outcome
add_stmt c (ok address) =
    (record c { statements = c.statements ++ ((address, new_stmt) ∷ []) }, returned success)
add_stmt c (thrown e) = (with_error c (codes "HY013") e, returned error)

-- RetsDBC::SQLAllocStmt; `allocated` is the address of the new statement, or bad_alloc's what()
unfoldable pub sql_alloc_stmt : Dbc → ℕ → Result ℕ → Memory → Ended
unfolding write_handle
sql_alloc_stmt c handle_ptr allocated m =
    let c0 = clear_errors c in
    if handle_ptr == 0
    then ended (with_error c0 (codes "HY009") (codes "Invalid use of null pointer")) m
        (returned invalid_handle)
    else let (c1, o) = add_stmt c0 allocated in ended c1 (write_handle handle_ptr allocated m) o

-- list::remove of a statement
unfoldable pub remove_stmt : ℕ → List (ℕ × Stmt) → List (ℕ × Stmt)
remove_stmt address [] = []
remove_stmt address ((a, s) ∷ ss) =
    let rest = remove_stmt address ss in if a == address then rest else (a, s) ∷ rest

-- RetsSTMT::unbindColumns; `none` where the query has no result set
unfoldable pub unbind_stmt : Stmt → Option Stmt
unfolding unbind_columns
unbind_stmt s = unbound s.result_set
  where
    unbound : Option ResultSet → Option Stmt
    unbound none = none
    unbound (some rs) = some (record s { result_set = some (unbind_columns rs) })

-- SQL_DROP and SQL_UNBIND
abbrev pub sql_drop : ℕ
sql_drop = 1

abbrev pub sql_unbind : ℕ
sql_unbind = 2

abbrev pub store_stmt : ℕ → Stmt → List (ℕ × Stmt) → List (ℕ × Stmt)
store_stmt address s [] = []
store_stmt address s ((a, t) ∷ ss) =
    let rest = store_stmt address s ss in if a == address then (a, s) ∷ rest else (a, t) ∷ rest

unfoldable pub find_stmt : ℕ → List (ℕ × Stmt) → Option Stmt
find_stmt address [] = none
find_stmt address ((a, s) ∷ ss) =
    let rest = find_stmt address ss in if a == address then some s else rest

abbrev after_unbind : Dbc → ℕ → Memory → Option Stmt → Ended
after_unbind c address m none = ended c m crashed
after_unbind c address m (some s) =
    ended (record c { statements = store_stmt address s c.statements }) m (returned success)

-- unbindColumns on the statement at the address; there is none where the handle does not stand for
-- one of the connection's statements.
abbrev unbind_at : Dbc → ℕ → Memory → Option Stmt → Ended
unfolding unbind_stmt
unbind_at c address m none = ended c m crashed
unbind_at c address m (some s) = after_unbind c address m (unbind_stmt s)

-- RetsDBC::SQLFreeStmt
unfoldable pub sql_free_stmt : Dbc → ℕ → ℕ → Memory → Ended
unfolding unbind_at find_stmt remove_stmt
sql_free_stmt c address option m =
    let c0 = clear_errors c in
    if option == sql_unbind
    then unbind_at c0 address m (find_stmt address c.statements)
    else if option == sql_drop
    then ended (record c0 { statements = remove_stmt address c.statements }) m (returned success)
    else ended c0 m (returned success)

-- RetsDBC::canBeFreed
unfoldable pub can_be_freed : Dbc → Bool
can_be_freed c = if has c.rets_session then false else is_empty c.statements

abbrev pub escaped_at : Ended → Outcome → Ended
escaped_at e (escaped t) = ended (with_error e.dbc (codes "HY000") t) e.memory (returned error)
escaped_at e _ = e

-- OdbcEntry::operator() with DbcOdbcEntry's handlers, on a handle that is not null
unfoldable pub enter : (Dbc → Memory → Ended) → Dbc → Memory → Ended
enter call c m = let e = call c m in escaped_at e e.outcome
