-- ===== src/Examples/Connections.antt =====
-- A connection that is made by the name of a data source in the ini files.
use ez_rets.Base.{
  ◌≡◌, ◌≢◌, ◌⊎◌, ℕ, refl, [], Option, none, some, codes, pos, if◌then◌else◌, ◌==◌, arith,
}
use ez_rets.DataSource.Connection.{get_connection_string}
use ez_rets.Dbc.{Dbc, new_dbc, returned, has}
use ez_rets.Dbc.Connecting.{answer, sql_connect-answers}
use ez_rets.Dbc.Login.{sql_connect, sql_driver_connect, login, put_string, told_source}
use ez_rets.Dbc.Output.{HoldsString, sql_driver_connect-HoldsString}
use ez_rets.Env.{
  Env, new_env, connect, alloc_stmt, find_dbc, on_connection, sql_alloc_connect, sql_free_connect,
  sql_free_env,
}
use ez_rets.Env.Closing.{sql_free_env-reachable}
use ez_rets.Env.Handles.{sql_free_connect-cases}
use ez_rets.Env.Reachable.{Step, Reach}
use ez_rets.Env.Asking.{columns, on_statement}
use ez_rets.Examples.Catalogues.{unsorted}
use ez_rets.Examples.Data.{plain, blank, split_on}
use ez_rets.Examples.Servers.{open_server}
use ez_rets.Examples.Sources.{files, saved, mls}
use ez_rets.Librets.{sql_error}
use ez_rets.Odbc.{success, error}
use ez_rets.Query.Create.{Compiler}
use ez_rets.Query.Execute.{RetsSession}
use ez_rets.Stmt.Loads.{Loads}
use ez_rets.DataSource.Strings.{ok, thrown}
use ez_rets.DataSource.{is_complete, string_to_bool}
use ez_rets.Utils.{copy_string}
use ez_rets.Memory.{set_word, write_bytes}

-- A connection with the settings of the tests.
abbrev mls_dbc : Dbc
mls_dbc = record new_dbc { data_source = mls }

abbrev allocated : Env
unfolding sql_alloc_connect
allocated = (sql_alloc_connect (new_env blank) 3000 (ok 7)).0

abbrev connected_env : Env
unfolding on_connection allocated saved files
connected_env =
    (on_connection open_server files plain allocated 7 (connect saved (codes "MLS") none none)).0

-- A server that answers no search, and a compiler that knows no table.
abbrev silent : RetsSession
silent = record { search = λ request. thrown []; get_object = λ request. thrown [] }

abbrev closed_compiler : Compiler
closed_compiler = record { sql_to_dmql = λ view text. (view, sql_error (codes "no table")) }

abbrev with_stmt : Env
unfolding on_connection
with_stmt = (on_connection open_server files plain connected_env 7 (alloc_stmt 3008 (ok 9))).0

-- After SQLColumns of everything, which loads all tables.
abbrev listed_env : Env
unfolding on_statement
listed_env =
    (on_statement plain closed_compiler silent unsorted with_stmt 7 9 (columns none none none)).0

abbrev found_or_new : Option Dbc → Dbc
found_or_new none = new_dbc
found_or_new (some c) = c

abbrev dbc_at : Env → Dbc
unfolding find_dbc
dbc_at w = found_or_new (find_dbc 7 w.connections)

sql_free_env-reachable_example :
    (v : Env) × (Reach (Step open_server files plain) connected_env v
      × (sql_free_env v ≡ (none, success)))
sql_free_env-reachable_example =
    sql_free_env-reachable open_server files plain (λ session. refl) connected_env

sql_connect-answers_example :
    (sql_connect open_server files saved plain new_dbc (codes "MLS") none none blank).outcome
    ≡ answer (
        has
          (sql_connect open_server files saved plain new_dbc
            (codes "MLS")
            none
            none
            blank).dbc.rets_session)
sql_connect-answers_example =
    sql_connect-answers open_server files plain saved new_dbc (codes "MLS") none none blank refl

sql_driver_connect-HoldsString_example :
    HoldsString open_server files saved plain
      (sql_driver_connect open_server files saved plain new_dbc
        (codes "LoginUrl=u;UID=a;PWD=b;")
        6000
        (pos 1000)
        5000
        blank)
      6000
unfolding sql_driver_connect login split_on put_string copy_string get_connection_string told_source
    is_complete set_word write_bytes string_to_bool
sql_driver_connect-HoldsString_example =
    sql_driver_connect-HoldsString open_server files saved plain 6000 (pos 1000) 5000 blank new_dbc
      (codes "LoginUrl=u;UID=a;PWD=b;") (λ q. ground arith) (λ q. ground arith) refl

sql_free_connect-cases_example :
    (((new_dbc.rets_session ≢ none) ⊎ (new_dbc.statements ≢ []))
      × (((sql_free_connect allocated 7).1 ≡ returned error)
          × ((sql_free_connect allocated 7).0.connections ≡ allocated.connections)))
    ⊎ (((new_dbc.rets_session ≡ none) × (new_dbc.statements ≡ []))
        × (((sql_free_connect allocated 7).1 ≡ returned success)
            × ((b : ℕ)
                → find_dbc b (sql_free_connect allocated 7).0.connections
                  ≡ (if 7 == b then none else find_dbc b allocated.connections))))
unfolding allocated find_dbc sql_alloc_connect
sql_free_connect-cases_example = sql_free_connect-cases allocated 7 new_dbc refl
