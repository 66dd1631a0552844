-- ===== src/Env/Asking.antt =====
-- project/driver/src/RetsSTMT.cpp with RetsDBC.cpp: the calls of a statement that read its
-- connection's view of the metadata, made through the handle of the statement.
use ez_rets.Base.{ℕ, List, [], ◌∷◌, Option, none, some, Text, ℤ}
use ez_rets.Catalogue.{Sorting, Source}
use ez_rets.DataSource.Session.{SessionCall, new_session}
use ez_rets.Dbc.{Dbc, find_stmt, store_stmt}
use ez_rets.Env.{Env, find_dbc, store_dbc}
use ez_rets.Memory.{Memory}
use ez_rets.MetadataView.{MetadataView}
use ez_rets.Platform.{Platform}
use ez_rets.Query.Create.{Compiler}
use ez_rets.Query.Execute.{RetsSession}
use ez_rets.Stmt.{Stmt, End, crashed, Done, handled}
use ez_rets.Stmt.Catalogues.{
  ClientText, stmt_tables, stmt_columns, stmt_get_type_info, stmt_special_columns, stmt_statistics,
  stmt_primary_keys,
}
use ez_rets.Stmt.Queries.{Asked, sql_prepare, sql_execute, sql_exec_direct}

-- The calls, with what the client gives them.
pub data StmtCall : Type 0 where
  prepare exec_direct : Option Text → StmtCall
  execute : StmtCall
  tables : Option Text → Option Text → Option Text → Option Text → StmtCall
  columns : Option ClientText → Option Text → Option Text → StmtCall
  get_type_info : ℤ → StmtCall
  special_columns : ℕ → Option ClientText → Text → ℕ → ℕ → StmtCall
  statistics : Option Text → Option Text → StmtCall
  primary_keys : Option ClientText → Text → StmtCall

-- RetsSession::GetLoginUrl: the URL of the constructor
abbrev pub login_url_of : List SessionCall → Text
login_url_of (new_session url ∷ calls) = url
login_url_of _ = []

-- What a statement reaches through its connection.
abbrev pub source_of : Dbc → MetadataView → List SessionCall → Source
source_of c v calls = record {
  data_source = c.data_source;
  view = v;
  session_login_url = login_url_of calls;
}

module _ (p : Platform) (l : Compiler) (session : RetsSession) (sorting : Sorting) where
  unfoldable pub answer : Source → Stmt → StmtCall → Asked
  unfolding sql_prepare sql_exec_direct sql_execute stmt_tables stmt_columns stmt_get_type_info
      stmt_special_columns stmt_statistics stmt_primary_keys
  answer src s (prepare text) = sql_prepare l src s text
  answer src s (exec_direct text) = sql_exec_direct p l session src s text
  answer src s execute = sql_execute p session src s
  answer src s (tables catalog schema table table_type) =
      stmt_tables p session sorting src s catalog schema table table_type
  answer src s (columns catalog table column) =
      stmt_columns p session sorting src s catalog table column
  answer src s (get_type_info data_type) = stmt_get_type_info p session sorting src s data_type
  answer src s (special_columns identifier_type catalog table scope nullable) =
      stmt_special_columns p session sorting src s identifier_type catalog table scope nullable
  answer src s (statistics catalog schema) = stmt_statistics p session sorting src s catalog schema
  answer src s (primary_keys catalog table) =
      stmt_primary_keys p session sorting src s catalog table

  -- StmtOdbcEntry's handlers
  abbrev pub entered : Asked → Memory → Done
  unfolding handled
  entered a m = handled p (record { stmt = a.stmt; memory = m; end = a.end }) a.end

  abbrev pub left_by : Dbc → ℕ → MetadataView → Stmt → Dbc
  left_by c place v s = record c {
    metadata_view = some v;
    statements = store_stmt place s c.statements;
  }

  unfoldable pub ask_found :
      Dbc → ℕ → StmtCall → Memory → MetadataView → List SessionCall → Option Stmt → Dbc × End
  unfolding answer entered
  ask_found c place call m v calls none = (c, crashed)
  ask_found c place call m v calls (some s) =
      let a = answer (source_of c v calls) s call in
      let d = entered a m in (left_by c place a.view d.stmt, d.end)

  -- Without a session and a view the calls are left out, also those that need none.
  unfoldable pub ask_at :
      Dbc → ℕ → StmtCall → Memory → Option MetadataView → Option (List SessionCall) → Dbc × End
  unfolding ask_found find_stmt
  ask_at c place call m (some v) (some calls) =
      ask_found c place call m v calls (find_stmt place c.statements)
  ask_at c place call m _ _ = (c, crashed)

  unfoldable pub asked_on : Env → ℕ → ℕ → StmtCall → Option Dbc → Env × End
  unfolding ask_at store_dbc
  asked_on w address place call none = (w, crashed)
  asked_on w address place call (some c) =
      let (c', e) = ask_at c place call w.memory c.metadata_view c.rets_session in
      (record w { connections = store_dbc address c' w.connections }, e)

  -- A call on the statement at the place, of the connection at the address.
  unfoldable pub on_statement : Env → ℕ → ℕ → StmtCall → Env × End
  unfolding asked_on find_dbc
  on_statement w address place call = asked_on w address place call (find_dbc address w.connections)
