-- ===== src/Stmt/Views.antt =====
-- project/driver/src/RetsSTMT.cpp: proofs on the view of the metadata and the query that a call leaves.
use ez_rets.Base.{◌≡◌, refl, sym, subst, Bool, List, Option, none, some, Text}
use ez_rets.Catalogue.{Source}
use ez_rets.DataSource.Strings.{Result, ok, thrown}
use ez_rets.Librets.{
  MetadataClass, MetadataResource, SearchResultSet, ObjectDescriptor, DmqlQuery, LookupQuery,
  GetObjectQuery, Compiled, dmql, get_object, lookups, lookup_columns, other_query, sql_error,
  broken_compiler,
}
use ez_rets.MetadataView.{MetadataView, get_class, get_resource, get_tables_for_class}
use ez_rets.Odbc.{success, success_with_info, no_data, error, invalid_handle}
use ez_rets.Platform.{Platform}
use ez_rets.Query.{
  Query, null_query, data_query, count_query, object_query, lookup_query, lookup_columns_query,
  catalogue_query, Prepared, Selected, tables, missing, prepare_data, with_tables, selected,
  prepare_result_set,
}
use ez_rets.Query.Create.{Compiler, Created, created_of, prepare, create_of, create_sql_query}
use ez_rets.Query.Execute.{
  RetsSession, Execution, Ending, Wanted, wanted, invalid_key, bad_number, execute, found, run_data,
  counted, got_objects, run_objects, run_lookup, run_lookup_columns, wanted_objects, may_search,
  run_catalogue,
}
use ez_rets.ResultSet.{ResultSet}
use ez_rets.Stmt.{Stmt, End, returned, escaped, crashed, clear_errors}
use ez_rets.Stmt.Loads.{either, Loads, Loads-refl, Loads-trans, Loads-loaded, selected-Loads}
use ez_rets.Stmt.Queries.{
  Asked, prepared, sql_prepare, handled_ending, after_execution, execute_on, sql_execute,
  then_execute, sql_exec_direct, ask_prepared, ask,
}

-- Executing the query does nothing to the view but load tables.
unfoldable pub IsTame : Query → Type 0
IsTame (catalogue_query columns translator run) = (s : Source) → Loads s.view (run s).view
IsTame _ = Unit

-- librets' compiler does nothing to the view but load tables.
abbrev pub LoadsOnly : Compiler → Type 0
LoadsOnly l = (v : MetadataView) (t : Text) → Loads v (l.sql_to_dmql v t).0

-- What is left of the view and of the statement's query.
abbrev pub IsGood : MetadataView → Asked → Type 0
IsGood v a = Loads v a.view × IsTame a.stmt.query

with_tables-view :
    (s : Source) (compact : Bool) (r : MetadataView × Selected) → (with_tables s compact r).0 ≡ r.0
unfolding with_tables
with_tables-view s compact (v, tables ts) = refl
with_tables-view s compact (v, missing name) = refl

prepare_data-Loads :
    (s : Source) (compact : Bool) (q : DmqlQuery) (clazz : Option MetadataClass)
    → Loads s.view (prepare_data s compact q clazz).0
unfolding prepare_data
prepare_data-Loads s compact q none = Loads-refl s.view
prepare_data-Loads s compact q (some clazz) =
    subst (Loads s.view) (sym (with_tables-view s compact (selected clazz q.fields s.view)))
      (selected-Loads clazz q.fields s.view)

prepare_result_set-Loads : (s : Source) (q : Query) → Loads s.view (prepare_result_set s q).0
unfolding prepare_result_set
prepare_result_set-Loads s null_query = Loads-refl s.view
prepare_result_set-Loads s (data_query compact q) =
    prepare_data-Loads s compact q (get_class s.view q.resource q.class_name)
prepare_result_set-Loads s (count_query compact q) = Loads-refl s.view
prepare_result_set-Loads s (object_query q) = Loads-refl s.view
prepare_result_set-Loads s (lookup_query q) = Loads-refl s.view
prepare_result_set-Loads s (lookup_columns_query q) = Loads-refl s.view
prepare_result_set-Loads s (catalogue_query columns translator run) = Loads-refl s.view

-- A query that was made of a statement.
CreatesTame : Created → Type 0
unfolding IsTame
CreatesTame (Created.created q rs) = IsTame q
CreatesTame _ = Unit

created_of-Good :
    (q : Query) (v : MetadataView) (r : MetadataView × Prepared)
    → IsTame q
    → Loads v r.0
    → Loads v (created_of q r).0 × CreatesTame (created_of q r).1
unfolding CreatesTame
created_of-Good q v (w, Prepared.prepared rs) tame loads = (loads, tame)
created_of-Good q v (w, Prepared.refused sqlstate message) tame loads = (loads, tt)
created_of-Good q v (w, Prepared.crashed) tame loads = (loads, tt)

prepare-Good :
    (s : Source) (q : Query) → IsTame q → Loads s.view (prepare s q).0 × CreatesTame (prepare s q).1
unfolding prepare
prepare-Good s q tame =
    created_of-Good q s.view (prepare_result_set s q) tame (prepare_result_set-Loads s q)

create_of-Good :
    (s : Source) (compact : Bool) (c : Compiled)
    → Loads s.view (create_of s compact c).0 × CreatesTame (create_of s compact c).1
unfolding create_of CreatesTame IsTame
create_of-Good s compact (dmql q) =
    either (λ (r : MetadataView × Created). Loads s.view r.0 × CreatesTame r.1) q.count_only
      (prepare-Good s (count_query compact q) tt) (prepare-Good s (data_query compact q) tt)
create_of-Good s compact (get_object q) = prepare-Good s (object_query q) tt
create_of-Good s compact (lookups q) = prepare-Good s (lookup_query q) tt
create_of-Good s compact (lookup_columns q) = prepare-Good s (lookup_columns_query q) tt
create_of-Good s compact other_query = (Loads-refl s.view, tt)
create_of-Good s compact (sql_error e) = (Loads-refl s.view, tt)
create_of-Good s compact (broken_compiler e) = (Loads-refl s.view, tt)

prepared-Good :
    (s : Stmt) (v : MetadataView) (r : MetadataView × Created)
    → IsTame s.query
    → Loads v r.0 × CreatesTame r.1
    → IsGood v (prepared s r)
unfolding CreatesTame
prepared-Good s v (w, Created.created q rs) tame (loads, made) = (loads, made)
prepared-Good s v (w, Created.syntax_error e) tame (loads, made) = (loads, tame)
prepared-Good s v (w, Created.refused sqlstate message) tame (loads, made) = (loads, tame)
prepared-Good s v (w, Created.broken e) tame (loads, made) = (loads, tame)
prepared-Good s v (w, Created.crashed) tame (loads, made) = (loads, tame)

pub sql_prepare-Good :
    (l : Compiler) (src : Source) (s : Stmt) (text : Option Text)
    → LoadsOnly l
    → IsTame s.query
    → IsGood src.view (sql_prepare l src s text)
unfolding sql_prepare create_sql_query
sql_prepare-Good l src s none only tame = (Loads-refl src.view, tame)
sql_prepare-Good l src s (some text) only tame =
    let (v, compiled) = l.sql_to_dmql src.view text in
    let compact = src.data_source.use_compact_format in
    let (loads, made) = create_of-Good (record src { view = v }) compact compiled in
    prepared-Good (clear_errors s) src.view (create_sql_query l src compact text) tame
      (Loads-trans _ _ _ (only src.view text) loads, made)

module _ (p : Platform) (session : RetsSession) (s : Source) where
  found-view :
      (rs : ResultSet) (r : Result SearchResultSet) → (found p session s rs r).view ≡ s.view
  found-view rs (ok results) = refl
  found-view rs (thrown e) = refl

  run_data-view :
      (rs : ResultSet) (q : DmqlQuery) (fields : Option (List Text))
      → (run_data p session s rs q fields).view ≡ s.view
  run_data-view rs q none = refl
  run_data-view rs q (some fields) = found-view rs _

  counted-view :
      (rs : ResultSet) (r : Result SearchResultSet) → (counted p session s rs r).view ≡ s.view
  unfolding counted
  counted-view rs (ok results) = refl
  counted-view rs (thrown e) = refl

  got_objects-view :
      (rs : ResultSet) (r : Result (List ObjectDescriptor))
      → (got_objects p session s rs r).view ≡ s.view
  got_objects-view rs (ok response) = refl
  got_objects-view rs (thrown e) = refl

  run_objects-view :
      (rs : ResultSet) (q : GetObjectQuery) (w : Wanted)
      → (run_objects p session s rs q w).view ≡ s.view
  run_objects-view rs q (wanted keys) = got_objects-view rs _
  run_objects-view rs q invalid_key = refl
  run_objects-view rs q bad_number = refl

  run_lookup-view :
      (rs : ResultSet) (q : LookupQuery) (r : Option MetadataResource)
      → (run_lookup p session s rs q r).view ≡ s.view
  unfolding run_lookup
  run_lookup-view rs q none = refl
  run_lookup-view rs q (some res) = refl

  run_lookup_columns-Loads :
      (rs : ResultSet) (r : Option MetadataClass)
      → Loads s.view (run_lookup_columns p session s rs r).view
  unfolding run_lookup_columns get_tables_for_class
  run_lookup_columns-Loads rs none = Loads-refl s.view
  run_lookup_columns-Loads rs (some clazz) = Loads-loaded s.view clazz

  same : (v : MetadataView) → v ≡ s.view → Loads s.view v
  same v e = subst (Loads s.view) (sym e) (Loads-refl s.view)

  execute-Loads :
      (q : Query) (rs : ResultSet) → IsTame q → Loads s.view (execute p session s q rs).view
  unfolding execute IsTame run_catalogue
  execute-Loads null_query rs tame = Loads-refl s.view
  execute-Loads (data_query compact q) rs tame =
      either (λ (e : Execution). Loads s.view e.view) (may_search p session s q)
        (same _ (run_data-view rs q q.fields)) (Loads-refl s.view)
  execute-Loads (count_query compact q) rs tame =
      either (λ (e : Execution). Loads s.view e.view) (may_search p session s q)
        (same _ (counted-view rs _)) (Loads-refl s.view)
  execute-Loads (object_query q) rs tame =
      same _ (run_objects-view rs q (wanted_objects p q.object_keys))
  execute-Loads (lookup_query q) rs tame =
      same _ (run_lookup-view rs q (get_resource s.view q.resource))
  execute-Loads (lookup_columns_query q) rs tame =
      run_lookup_columns-Loads rs (get_class s.view q.resource q.class_name)
  execute-Loads (catalogue_query columns translator run) rs tame = tame s

  handled_ending-query : (st : Stmt) (e : Ending) → (handled_ending st e).0.query ≡ st.query
  handled_ending-query st (Ending.returned r) = refl
  handled_ending-query st (Ending.sql_state state message) = refl
  handled_ending-query st (Ending.rets_error e) = refl
  handled_ending-query st (Ending.other_error e) = refl
  handled_ending-query st Ending.crashed = refl

  execute_on-Good :
      (st : Stmt) (rs : Option ResultSet)
      → IsTame st.query
      → IsGood s.view (execute_on p session s st rs)
  unfolding execute_on
  execute_on-Good st none tame = (Loads-refl s.view, tame)
  execute_on-Good st (some rs) tame =
      let e = execute p session s st.query rs in
      (
        execute-Loads st.query rs tame,
        subst IsTame (sym (handled_ending-query (after_execution st e) e.ending)) tame,
      )

module _ (p : Platform) (session : RetsSession) where
  pub sql_execute-Good :
      (s : Source) (st : Stmt) → IsTame st.query → IsGood s.view (sql_execute p session s st)
  unfolding sql_execute
  sql_execute-Good s st tame = execute_on-Good p session s (clear_errors st) st.result_set tame

  then_execute-Good :
      (s : Source) (a : Asked) (e : End)
      → IsGood s.view a
      → IsGood s.view (then_execute p session s a e)
  unfolding then_execute
  then_execute-Good s a (returned success) (loads, tame) =
      let (more, kept) = sql_execute-Good (record s { view = a.view }) a.stmt tame in
      (Loads-trans _ _ _ loads more, kept)
  then_execute-Good s a (returned success_with_info) good = good
  then_execute-Good s a (returned no_data) good = good
  then_execute-Good s a (returned error) good = good
  then_execute-Good s a (returned invalid_handle) good = good
  then_execute-Good s a (escaped e) good = good
  then_execute-Good s a crashed good = good

  pub sql_exec_direct-Good :
      (l : Compiler) (s : Source) (st : Stmt) (text : Option Text)
      → LoadsOnly l
      → IsTame st.query
      → IsGood s.view (sql_exec_direct p l session s st text)
  unfolding sql_exec_direct
  sql_exec_direct-Good l s st text only tame =
      then_execute-Good s (sql_prepare l s (clear_errors st) text) _
        (sql_prepare-Good l s (clear_errors st) text only tame)

  ask_prepared-Good :
      (s : Source) (st : Stmt) (r : MetadataView × Prepared)
      → IsTame st.query
      → Loads s.view r.0
      → IsGood s.view (ask_prepared p session s st r)
  unfolding ask_prepared
  ask_prepared-Good s st (v, Prepared.prepared rs) tame loads =
      let (more, kept) =
        execute_on-Good p session (record s { view = v }) (record st { result_set = some rs })
          (some rs) tame in
      (Loads-trans _ _ _ loads more, kept)
  ask_prepared-Good s st (v, Prepared.refused sqlstate message) tame loads = (loads, tame)
  ask_prepared-Good s st (v, Prepared.crashed) tame loads = (loads, tame)

  pub ask-Good :
      (s : Source) (st : Stmt) (q : Query) → IsTame q → IsGood s.view (ask p session s st q)
  unfolding ask
  ask-Good s st q tame =
      ask_prepared-Good s (record st { query = q; result_set = none }) (prepare_result_set s q) tame
        (prepare_result_set-Loads s q)
