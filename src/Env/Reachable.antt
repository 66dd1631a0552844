-- ===== src/Env/Reachable.antt =====
-- project/driver/src/RetsENV.cpp and RetsDBC.cpp: the states that a client can bring an environment
-- to, and what holds in all of them.
use ez_rets.Base.{ℕ, ◌≡◌, List, some, ℤ}
use ez_rets.Catalogue.{Sorting}
use ez_rets.DataSource.Ini.{Installer}
use ez_rets.DataSource.Strings.{Result}
use ez_rets.Dbc.{Dbc, Server, find_stmt, store_stmt}
use ez_rets.Env.{
  Env, Call, find_dbc, store_dbc, sql_alloc_connect, sql_free_connect, sql_get_env_attr,
  sql_set_env_attr, on_connection,
}
use ez_rets.Env.Asking.{StmtCall, on_statement}
use ez_rets.Handle.{Error}
use ez_rets.Memory.{Memory}
use ez_rets.Platform.{Platform}
use ez_rets.Query.Create.{Compiler}
use ez_rets.Query.Execute.{RetsSession}
use ez_rets.Stmt.{Stmt}
use ez_rets.Stmt.Views.{LoadsOnly}

-- A sequence of steps.
pub data Reach (R : Env → Env → Type 0) (w : Env) : Env → Type 0 where
  here : Reach R w w
  next : {u v : Env} → Reach R w u → R u v → Reach R w v

pub Reach-trans : {R : Env → Env → Type 0} {u v w : Env} → Reach R u v → Reach R v w → Reach R u w
Reach-trans r here = r
Reach-trans r (next s t) = next (Reach-trans r s) t

module _ {S : Type 0} (server : Server) (installer : Installer S) (p : Platform) where
  -- The calls of a client; the ini files are whatever they are at that moment. `asks` are the calls
  -- of a statement that read the view of its connection, whatever the server answers, where librets'
  -- compiler does nothing to the view but load tables.
  pub data Step : Env → Env → Type 0 where
    allocates :
        (w : Env) (handle_ptr : ℕ) (allocated : Result ℕ)
        → Step w (sql_alloc_connect w handle_ptr allocated).0
    frees : (w : Env) (address : ℕ) → Step w (sql_free_connect w address).0
    gets_attr :
        (w : Env) (attribute value_ptr : ℕ) → Step w (sql_get_env_attr w attribute value_ptr).0
    sets_attr :
        (w : Env) (attribute : ℕ) (value : ℤ) → Step w (sql_set_env_attr w attribute value).0
    calls :
        (w : Env) (address : ℕ) (call : Call S)
        → Step w (on_connection server installer p w address call).0
    asks :
        (w : Env) (l : Compiler) (session : RetsSession) (sorting : Sorting) (address place : ℕ)
        (call : StmtCall)
        → LoadsOnly l
        → Step w (on_statement p l session sorting w address place call).0

  -- What a client may do to an environment: the calls above, and bounds on the others. `uses` stands
  -- for all other calls of a statement, such as SQLFetch and SQLGetData: they change no more than the
  -- statement, but for its query, and the client's memory. `reports` stands for the calls that change
  -- no more than the errors of a connection and the client's memory, such as SQLGetInfo and
  -- SQLGetConnectAttr, and `writes` for those that change the errors of the environment and the
  -- memory, and for what the client writes itself.
  pub data Change : Env → Env → Type 0 where
    does : {u v : Env} → Step u v → Change u v
    uses :
        (w : Env) (address place : ℕ) (c : Dbc) (s s' : Stmt) (m : Memory)
        → find_dbc address w.connections ≡ some c
        → find_stmt place c.statements ≡ some s
        → s'.query ≡ s.query
        → Change w (record w {
          connections =
              store_dbc address
                (record c { statements = store_stmt place s' c.statements })
                w.connections;
          memory = m;
        })
    reports :
        (w : Env) (address : ℕ) (c : Dbc) (errors : List Error) (m : Memory)
        → find_dbc address w.connections ≡ some c
        → Change w (record w {
          connections = store_dbc address (record c { errors = errors }) w.connections;
          memory = m;
        })
    writes :
        (w : Env) (errors : List Error) (m : Memory)
        → Change w (record w { errors = errors; memory = m })
