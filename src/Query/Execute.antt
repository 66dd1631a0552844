-- ===== src/Query/Execute.antt =====
-- project/driver/src: execute of each query (OnDemandDataQuery.cpp, DataCountQuery.cpp,
-- OnDemandObjectQuery.cpp, EzLookupQuery.cpp, EzLookupColumnsQuery.cpp, Query.cpp).
use ez_rets.Base.{
  Bool, true, false, ◌||◌, List, [], ◌∷◌, map, Option, none, some, if◌then◌else◌, Text, ℤ, codes,
}
use ez_rets.Catalogue.{Source, Executed}
use ez_rets.Catalogue.Keys.{column_name}
use ez_rets.DataSource.Strings.{Result, ok, thrown}
use ez_rets.Handle.{Error}
use ez_rets.Librets.{
  MetadataTable, MetadataClass, MetadataResource, MetadataLookupType, SearchResultSet,
  ObjectDescriptor, DmqlQuery, GetObjectQuery, LookupQuery, SearchRequest, GetObjectRequest,
}
use ez_rets.MetadataView.{
  MetadataView, get_class, get_resource, get_tables_for_class, is_lookup_column,
}
use ez_rets.Odbc.{SqlReturn, success, success_with_info}
use ez_rets.Platform.{Platform}
use ez_rets.Query.{
  Query, null_query, data_query, count_query, object_query, lookup_query, lookup_columns_query,
  catalogue_query,
}
use ez_rets.ResultSet.{ResultSet, search, objects, add_row, add_rows}
use ez_rets.Translation.{Exception, bad_lexical_cast}

-- librets::RetsSession, by what the server answers: the results, or a RetsException's what()
pub record RetsSession : Type 0 where
  pub search : SearchRequest → Result SearchResultSet
  pub get_object : GetObjectRequest → Result (List ObjectDescriptor)

-- How execute ends: it returns, throws a SqlStateException, a RetsException or another exception, or
-- goes through a null pointer.
pub data Ending : Type 0 where
  returned : SqlReturn → Ending
  sql_state : Text → Text → Ending
  rets_error : Text → Ending
  other_error : Exception → Ending
  crashed : Ending

-- What execute leaves, with the errors that it added to the statement.
pub record Execution : Type 0 where
  pub result_set : ResultSet
  pub view : MetadataView
  pub errors : List Error
  pub ending : Ending

abbrev pub ends : MetadataView → ResultSet → Ending → Execution
ends v rs e = record { result_set = rs; view = v; errors = []; ending = e }

-- The request of an object by its key and, with a colon, its number.
pub data Wanted : Type 0 where
  wanted : List (Text × Option ℤ) → Wanted
  invalid_key bad_number : Wanted

abbrev and_wanted : Text → Option ℤ → Wanted → Wanted
and_wanted key id (wanted rest) = wanted ((key, id) ∷ rest)
and_wanted key id w = w

abbrev key_pattern : Text
key_pattern = codes "([\\w-]+)(:(\\d+))?"

abbrev and_number : Text → Option ℤ → Wanted → Wanted
and_number key none rest = bad_number
and_number key (some id) rest = and_wanted key (some id) rest

-- One key, by the groups that its text matches; the loop ends with the first exception.
abbrev and_key : Platform → Option (List (Option Text)) → Wanted → Wanted
and_key p (some (some key ∷ colon ∷ some id ∷ [])) rest =
    and_number key (p.lexical_cast_signed 32 id) rest
and_key p (some (some key ∷ colon ∷ none ∷ [])) rest = and_wanted key none rest
and_key p _ rest = invalid_key

-- The loop of OnDemandObjectQuery::execute
unfoldable pub wanted_objects : Platform → List Text → Wanted
wanted_objects p [] = wanted []
wanted_objects p (key ∷ keys) = and_key p (p.regex_search key_pattern key) (wanted_objects p keys)

abbrev pub lookup_row : MetadataLookupType → List Text
lookup_row t = t.value ∷ t.short_value ∷ t.long_value ∷ []

-- The rows of EzLookupColumnsQuery::execute
unfoldable pub lookup_columns_rows : Source → List MetadataTable → List (List Text)
unfolding is_lookup_column
lookup_columns_rows s [] = []
lookup_columns_rows s (t ∷ ts) =
    let rest = lookup_columns_rows s ts in
    if is_lookup_column t then (column_name s t ∷ t.lookup_name ∷ []) ∷ rest else rest

abbrev pub catalogue_ending : Option SqlReturn → Ending
catalogue_ending none = crashed
catalogue_ending (some r) = returned r

abbrev is_given : Option Text → Bool
is_given none = false
is_given (some text) = true

abbrev criterion_text : Option Text → Text
criterion_text none = codes "*"
criterion_text (some text) = text

module _ (p : Platform) (session : RetsSession) (s : Source) where
  -- The request of OnDemandDataQuery::doRetsQuery
  abbrev pub data_request : DmqlQuery → List Text → SearchRequest
  data_request q fields = record {
    resource = q.resource;
    class_name = q.class_name;
    query = criterion_text q.criterion;
    select = some (p.join fields (codes ","));
    count_only = false;
    limit = some q.limit;
    offset = some q.offset;
    standard_names = s.data_source.standard_names;
  }

  -- The request of DataCountQuery::doRetsQuery
  abbrev pub count_request : DmqlQuery → SearchRequest
  count_request q = record {
    resource = q.resource;
    class_name = q.class_name;
    query = criterion_text q.criterion;
    select = none;
    count_only = true;
    limit = none;
    offset = none;
    standard_names = s.data_source.standard_names;
  }

  abbrev pub found : ResultSet → Result SearchResultSet → Execution
  found rs (ok results) =
      ends s.view (record rs { rows = search (some results) }) (returned success)
  found rs (thrown e) = ends s.view rs (rets_error e)

  abbrev pub run_data : ResultSet → DmqlQuery → Option (List Text) → Execution
  run_data rs q none = ends s.view rs crashed
  run_data rs q (some fields) = found rs (session.search (data_request q fields))

  unfoldable pub counted : ResultSet → Result SearchResultSet → Execution
  unfolding add_row
  counted rs (ok results) =
      ends s.view (record rs { rows = add_row rs.rows (p.print_int results.count ∷ []) })
        (returned success)
  counted rs (thrown e) = ends s.view rs (rets_error e)

  -- The test of a query that has no WHERE clause.
  abbrev pub may_search : DmqlQuery → Bool
  may_search q = is_given q.criterion || s.data_source.supports_query_star

  abbrev pub no_where : ResultSet → Execution
  no_where rs = record (ends s.view rs (returned success_with_info)) {
    errors =
        record {
          sqlstate = codes "01000";
          message = codes "RETS queries require a WHERE clause.  Returning empty result set.";
        }
        ∷ [];
  }

  abbrev pub got_objects : ResultSet → Result (List ObjectDescriptor) → Execution
  got_objects rs (ok response) =
      ends s.view (record rs { rows = objects (some response) [] }) (returned success)
  got_objects rs (thrown e) = ends s.view rs (rets_error e)

  abbrev object_request : GetObjectQuery → List (Text × Option ℤ) → GetObjectRequest
  object_request q keys = record {
    resource = q.resource;
    object_type = q.object_type;
    location = q.use_location;
    wanted = keys;
  }

  abbrev pub run_objects : ResultSet → GetObjectQuery → Wanted → Execution
  run_objects rs q (wanted keys) = got_objects rs (session.get_object (object_request q keys))
  run_objects rs q invalid_key =
      ends s.view rs
        (sql_state (codes "42S02") (codes "Miscellaneous Search Error: Invalid object_key"))
  run_objects rs q bad_number = ends s.view rs (other_error bad_lexical_cast)

  unfoldable pub run_lookup_columns : ResultSet → Option MetadataClass → Execution
  unfolding add_rows lookup_columns_rows get_tables_for_class
  run_lookup_columns rs none = ends s.view rs crashed
  run_lookup_columns rs (some clazz) =
      let (v, tables) = get_tables_for_class s.view clazz in
      ends v (add_rows rs (lookup_columns_rows s tables)) (returned success)

  unfoldable pub run_lookup : ResultSet → LookupQuery → Option MetadataResource → Execution
  unfolding add_rows
  run_lookup rs q none = ends s.view rs crashed
  run_lookup rs q (some res) =
      ends s.view
        (add_rows rs
          (map lookup_row (s.view.metadata.get_all_lookup_types res.resource_id q.lookup)))
        (returned success)

  unfoldable pub run_catalogue : ResultSet → Executed → Execution
  unfolding add_rows
  run_catalogue rs e = record {
    result_set = add_rows rs e.rows;
    view = e.view;
    errors = e.errors;
    ending = catalogue_ending e.result;
  }

  -- execute of each query
  unfoldable pub execute : Query → ResultSet → Execution
  unfolding counted run_lookup run_lookup_columns run_catalogue wanted_objects get_class
      get_resource
  execute null_query rs = ends s.view rs (returned success)
  execute (data_query compact q) rs = if may_search q then run_data rs q q.fields else no_where rs
  execute (count_query compact q) rs =
      if may_search q then counted rs (session.search (count_request q)) else no_where rs
  execute (object_query q) rs = run_objects rs q (wanted_objects p q.object_keys)
  execute (lookup_query q) rs = run_lookup rs q (get_resource s.view q.resource)
  execute (lookup_columns_query q) rs =
      run_lookup_columns rs (get_class s.view q.resource q.class_name)
  execute (catalogue_query columns translator run) rs = run_catalogue rs (run s)
