-- ===== src/Stmt/Selecting.antt =====
-- project/driver/src: SQLExecDirect of a SELECT, down to the rows that the client fetches.
use ez_rets.Base.{
  ℕ, ◌<◌, ◌≡◌, refl, ◌∙◌, Bool, true, false, List, [], ◌∷◌, map, none, some, if◌then◌else◌,
  is_empty, Text, codes, length,
}
use ez_rets.Catalogue.Keys.{column_name}
use ez_rets.Catalogue.{translator_of, Source}
use ez_rets.OnDemand.{search_next}
use ez_rets.Column.{ColumnKind, rets}
use ez_rets.DataSource.Strings.{ok}
use ez_rets.Librets.{RetsMetadata, MetadataClass, MetadataTable, SearchResultSet, DmqlQuery, dmql}
use ez_rets.Memory.{Memory}
use ez_rets.MetadataView.{MetadataView, get_class}
use ez_rets.Odbc.{success, success_with_info, no_data}
use ez_rets.Platform.{Platform}
use ez_rets.Query.{new_result_set, tables, selected, add_tables, prepare_result_set}
use ez_rets.Query.Create.{Compiler, create_sql_query, create_of}
use ez_rets.Query.Execute.{RetsSession, data_request, may_search, execute}
use ez_rets.ResultSet.{ResultSet, search, has_next, has_no_rows, add_column}
use ez_rets.Stmt.{Stmt, returned, sql_fetch}
use ez_rets.Stmt.Loop.{read_by}
use ez_rets.Stmt.Queries.{sql_execute, sql_exec_direct}
use ez_rets.Stmt.Streaming.{Has, current_values, rows_sent, end_sent, read_by-search}

rows-if :
    (b : Bool) (rs : ResultSet) (name : Text) (kind : ColumnKind)
    → (if b then rs else add_column rs name kind).rows ≡ rs.rows
unfolding add_column
rows-if true rs name kind = refl
rows-if false rs name kind = refl

rows-add_tables :
    (src : Source) (compact : Bool) (ts : List MetadataTable) (rs : ResultSet)
    → (add_tables src compact ts rs).rows ≡ rs.rows
unfolding add_tables
rows-add_tables src compact [] rs = refl
rows-add_tables src compact (t ∷ ts) rs =
    rows-add_tables src compact ts _
    ∙ rows-if (is_empty (column_name src t)) rs (column_name src t) (rets t compact)

module _ (p : Platform) (md : RetsMetadata) (l : Compiler) (session : RetsSession) (src : Source)
    (s : Stmt) (text : Text) (q : DmqlQuery) (v v' : MetadataView) (clazz : MetadataClass)
    (fields : List Text) (ts : List MetadataTable) (results : SearchResultSet)
    (compiles : l.sql_to_dmql src.view text ≡ (v, dmql q)) (wants_rows : q.count_only ≡ false)
    (has_fields : q.fields ≡ some fields)
    (known_class : get_class v q.resource q.class_name ≡ some clazz)
    (known_fields : selected clazz (some fields) v ≡ (v', tables ts))
    (allowed : may_search p session src q ≡ true)
    (answers : session.search (data_request p session src q fields) ≡ ok results) where
  executed-Has :
      ((sql_exec_direct p l session src s (some text)).end ≡ returned success)
      × Has (search (some results)) (sql_exec_direct p l session src s (some text)).stmt
  unfolding sql_exec_direct sql_execute execute create_sql_query create_of prepare_result_set
  executed-Has =
      rw (compiles, wants_rows, known_class, has_fields, known_fields, allowed, answers)
        (refl, record { translator = _; columns = _; is_set = refl })

  -- SQLExecDirect of a SELECT that librets compiles to a search of a class and some of its fields,
  -- all known to the metadata, and that the server answers, succeeds; a client that then fetches
  -- until SQLFetch gives no row stands on every row that the server sends, once and in order, and
  -- ends with SQL_NO_DATA, or with librets' exception where reading the reply fails. The query has a
  -- WHERE clause or the data source supports Query=*, and the client makes more calls than
  -- there are rows.
  pub read_by-sql_exec_direct :
      (m : Memory) (fuel : ℕ)
      → length (rows_sent results.pending) < fuel
      → let d = sql_exec_direct p l session src s (some text) in
        (d.end ≡ returned success)
        × (read_by p md current_values fuel d.stmt m
            ≡ (rows_sent results.pending, some (end_sent results.pending)))
  read_by-sql_exec_direct m fuel lt =
      let (ended, has) = executed-Has in (ended, read_by-search p md _ m results fuel has lt)

module _ (p : Platform) (md : RetsMetadata) (l : Compiler) (session : RetsSession) (src : Source)
    (s : Stmt) (text : Text) (q : DmqlQuery) (v v' : MetadataView) (clazz : MetadataClass)
    (ts : List MetadataTable) (compiles : l.sql_to_dmql src.view text ≡ (v, dmql q))
    (wants_rows : q.count_only ≡ false)
    (known_class : get_class v q.resource q.class_name ≡ some clazz)
    (known_fields : selected clazz q.fields v ≡ (v', tables ts))
    (refused : may_search p session src q ≡ false) where
  -- SQLExecDirect of a SELECT over a known class and known fields that has no WHERE clause, where
  -- the data source does not support Query=*, gives SQL_SUCCESS_WITH_INFO with the one error 01000
  -- and asks the server nothing: SQLFetch then gives SQL_NO_DATA at once.
  sql_exec_direct-no_where :
      (m : Memory)
      → let d = sql_exec_direct p l session src s (some text) in
        (d.end ≡ returned success_with_info)
        × (map (λ e. e.sqlstate) d.stmt.errors ≡ codes "01000" ∷ [])
        × ((sql_fetch p md d.stmt m).end ≡ returned no_data)
  unfolding sql_exec_direct sql_execute execute create_sql_query create_of prepare_result_set
      sql_fetch has_next has_no_rows search_next
  sql_exec_direct-no_where m =
      rw (compiles, wants_rows, known_class, known_fields, refused)
        (
          refl,
          refl,
          rw (
              rows-add_tables (record src { view = v }) src.data_source.use_compact_format ts
                (new_result_set (translator_of src.data_source) (search none))),
        )
