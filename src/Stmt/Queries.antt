-- ===== src/Stmt/Queries.antt =====
-- project/driver/src/RetsSTMT.cpp: SQLPrepare, SQLExecute and SQLExecDirect. The client's statement is
-- the text that it holds, a null pointer is `none`.
use ez_rets.Base.{◌++◌, Option, none, some, Text, codes}
use ez_rets.Catalogue.{Source}
use ez_rets.MetadataView.{MetadataView}
use ez_rets.Odbc.{success, error}
use ez_rets.Platform.{Platform}
use ez_rets.Query.{Query, Prepared, prepare_result_set}
use ez_rets.Query.Create.{
  Compiler, Created, created, syntax_error, refused, broken, create_sql_query,
}
use ez_rets.Query.Execute.{
  RetsSession, Execution, Ending, sql_state, rets_error, other_error, execute,
}
use ez_rets.ResultSet.{ResultSet}
use ez_rets.Stmt.{Stmt, End, returned, escaped, crashed, clear_errors, with_error}
use ez_rets.Translation.{raised}

-- What a call leaves of the statement and of the connection's view of the metadata, and how it ends.
pub record Asked : Type 0 where
  pub stmt : Stmt
  pub view : MetadataView
  pub end : End

abbrev pub asked : Stmt → MetadataView → End → Asked
asked s v e = record { stmt = s; view = v; end = e }

abbrev pub prepared : Stmt → MetadataView × Created → Asked
prepared s (v, created q rs) =
    asked (record s { query = q; result_set = some rs }) v (returned success)
prepared s (v, syntax_error e) =
    asked (with_error s (codes "42000") (codes "SQL Syntax error: " ++ e)) v (returned error)
prepared s (v, refused sqlstate message) = asked (with_error s sqlstate message) v (returned error)
prepared s (v, broken e) = asked s v (escaped (raised e))
prepared s (v, Created.crashed) = asked s v crashed

-- RetsSTMT::SQLPrepare; a query that is refused leaves the statement's own in place
unfoldable pub sql_prepare : Compiler → Source → Stmt → Option Text → Asked
unfolding create_sql_query
sql_prepare l src s none =
    asked (with_error (clear_errors s) (codes "HY009") (codes "Statement cannot be NULL")) src.view
      (returned error)
sql_prepare l src s (some text) =
    prepared (clear_errors s) (create_sql_query l src src.data_source.use_compact_format text)

-- The handlers of SQLExecute
abbrev pub handled_ending : Stmt → Ending → Stmt × End
handled_ending s (Ending.returned r) = (s, returned r)
handled_ending s (sql_state state message) = (with_error s state message, returned error)
handled_ending s (rets_error e) = (with_error s (codes "42000") e, returned error)
handled_ending s (other_error e) = (s, escaped e)
handled_ending s Ending.crashed = (s, crashed)

-- What an execution leaves of the statement, before the handlers.
abbrev pub after_execution : Stmt → Execution → Stmt
after_execution s e = record s { result_set = some e.result_set; errors = s.errors ++ e.errors }

abbrev pub executed : Stmt → Execution → Asked
executed s e = let (s', end) = handled_ending (after_execution s e) e.ending in asked s' e.view end

unfoldable pub execute_on : Platform → RetsSession → Source → Stmt → Option ResultSet → Asked
unfolding execute
execute_on p session src s none = asked s src.view (returned success)
execute_on p session src s (some rs) = executed s (execute p session src s.query rs)

-- RetsSTMT::SQLExecute; only a NullQuery has no result set, and does nothing
unfoldable pub sql_execute : Platform → RetsSession → Source → Stmt → Asked
unfolding execute_on
sql_execute p session src s = execute_on p session src (clear_errors s) s.result_set

unfoldable pub then_execute : Platform → RetsSession → Source → Asked → End → Asked
unfolding sql_execute
then_execute p session src d (returned success) =
    sql_execute p session (record src { view = d.view }) d.stmt
then_execute p session src d e = record d { end = e }

-- RetsSTMT::SQLExecDirect
unfoldable pub sql_exec_direct :
    Platform → Compiler → RetsSession → Source → Stmt → Option Text → Asked
unfolding sql_prepare then_execute
sql_exec_direct p l session src s text =
    let d = sql_prepare l src (clear_errors s) text in then_execute p session src d d.end

unfoldable pub ask_prepared :
    Platform → RetsSession → Source → Stmt → MetadataView × Prepared → Asked
unfolding execute_on
ask_prepared p session src s (v, Prepared.prepared rs) =
    execute_on p session (record src { view = v }) (record s { result_set = some rs }) (some rs)
ask_prepared p session src s (v, Prepared.refused sqlstate message) =
    asked (with_error s sqlstate message) v (returned error)
ask_prepared p session src s (v, Prepared.crashed) = asked s v crashed

-- What the catalogue calls do with their query: it becomes the statement's, gets its result set and is
-- executed. Those queries throw no exception in the model.
unfoldable pub ask : Platform → RetsSession → Source → Stmt → Query → Asked
unfolding prepare_result_set ask_prepared
ask p session src s q =
    ask_prepared p session src (record s { query = q; result_set = none })
      (prepare_result_set src q)
