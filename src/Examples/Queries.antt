-- ===== src/Examples/Queries.antt =====
-- Queries: a search with two rows, a response with an object that is not there and one that is
-- refused, a lookup that is executed twice.
use ez_rets.Base.{
  ℕ, ◌≡◌, refl, ◌<◌, ◌≤◌, ◌⊎◌, false, true, List, [], ◌∷◌, Option, none, some, arith, Text, pos,
  codes,
}
use ez_rets.Catalogue.{Source}
use ez_rets.Column.{moved_pointer}
use ez_rets.Column.Moved.{moved_pointer-set_desc_field}
use ez_rets.DataSource.Strings.{ok, thrown}
use ez_rets.Descriptors.{new_ard, set_desc_field, data_ptr}
use ez_rets.Examples.Catalogues.{source}
use ez_rets.Examples.Data.{
  plain, blank, houses, property, residential, street, two_columns, stmt_of,
}
use ez_rets.Librets.{
  SearchResultSet, row, broken, ObjectDescriptor, DmqlQuery, LookupQuery, dmql, sql_error,
  RetsMetadata,
}
use ez_rets.Map.{get}
use ez_rets.MetadataView.{
  MetadataView, create, loaded, get_class, get_resource, get_tables_for_class,
}
use ez_rets.Odbc.{success, no_data, size_of_sqllen}
use ez_rets.OnDemand.{is_refusal, response_map}
use ez_rets.Query.{lookup_query, selected}
use ez_rets.Query.Create.{Compiler, create_sql_query, create_of}
use ez_rets.Query.Execute.{RetsSession}
use ez_rets.ResultSet.{objects}
use ez_rets.Stmt.{new_stmt, returned, escaped, sql_fetch}
use ez_rets.Stmt.Bounds.{fetch_times, fetch_times-index}
use ez_rets.Stmt.Executing.{read_rows-sql_execute}
use ez_rets.Stmt.Fetching.{Stands, read_rows, filled}
use ez_rets.Stmt.Loop.{got_row, read_by}
use ez_rets.Stmt.Objects.{read_by-objects, current_object, there, before_refusal, refusal_in}
use ez_rets.Stmt.Queries.{sql_prepare, sql_execute, sql_exec_direct}
use ez_rets.Stmt.Refusing.{sql_prepare-keeps}
use ez_rets.Stmt.Selecting.{read_by-sql_exec_direct}
use ez_rets.Stmt.Streaming.{current_values}
use ez_rets.Translation.{raised}
use ez_rets.Translation.Translator.{native}

abbrev values : Text → Option Text
values name = some (codes "Elm")

abbrev sent : SearchResultSet
sent = record {
  pending = row values ∷ broken (codes "connection lost") ∷ [];
  current = λ name. none;
  after_end = λ name. none;
  count = pos 2;
}

abbrev session : RetsSession
session = record { search = λ request. ok sent; get_object = λ request. thrown [] }

abbrev select_all : DmqlQuery
select_all = record {
  resource = codes "Property";
  class_name = codes "ResidentialProperty";
  fields = some [];
  criterion = some (codes "(LP=1+)");
  limit = pos 0;
  offset = pos 0;
  count_only = false;
}

abbrev compiler : Compiler
compiler = record { sql_to_dmql = λ view text. (view, dmql select_all) }

abbrev loaded_view : MetadataView
unfolding create loaded
loaded_view = loaded source.view residential

read_by-sql_exec_direct_example :
    let d = sql_exec_direct plain compiler session source new_stmt (some (codes "SELECT")) in
    (d.end ≡ returned success)
    × (read_by plain houses current_values 2 d.stmt blank
        ≡ (some values ∷ [], some (escaped (raised (codes "connection lost")))))
unfolding selected get_tables_for_class get_class get_resource create loaded get
read_by-sql_exec_direct_example =
    read_by-sql_exec_direct plain houses compiler session source new_stmt (codes "SELECT")
      select_all source.view loaded_view residential [] (street ∷ []) sent refl refl refl refl refl
      refl refl blank 2 (omega arith)

abbrev photo : ℕ → Text → ObjectDescriptor
photo code key = record {
  reply_code = code;
  reply_text = codes "Not authorized";
  object_key = key;
  object_id = pos 1;
  content_type = codes "image/jpeg";
  description = [];
  location_url = [];
  data_stream = codes "jpeg";
}

-- The third object is not there, and the fourth is refused.
abbrev photos : List ObjectDescriptor
photos =
    photo 0 (codes "A")
    ∷ photo 20403 (codes "B")
    ∷ photo 0 (codes "C")
    ∷ photo 20400 (codes "D")
    ∷ []

read_by-objects_example :
    read_by plain houses current_object 3
      (stmt_of (record {
        translator = native false;
        columns = two_columns;
        rows = objects (some photos) [];
      }))
      blank
    ≡ (
      some (response_map plain (photo 0 (codes "A")))
          ∷ some (response_map plain (photo 0 (codes "C")))
          ∷ [],
      some (escaped (raised (codes "Not authorized"))),
    )
unfolding there before_refusal refusal_in is_refusal
read_by-objects_example =
    read_by-objects plain houses _ blank photos [] 3
      (record { translator = native false; columns = two_columns; is_set = refl }) (omega arith)

abbrev statuses : RetsMetadata
statuses = record houses {
  get_all_lookup_types = λ resource name.
      record { value = codes "A"; short_value = codes "Act"; long_value = codes "Active" } ∷ [];
}

abbrev with_lookups : Source
unfolding create
with_lookups = record source { view = create true statuses }

abbrev status_query : LookupQuery
status_query = record { resource = codes "Property"; lookup = codes "Status" }

abbrev active : List Text
active = codes "A" ∷ codes "Act" ∷ codes "Active" ∷ []

-- The second execution.
read_rows-sql_execute_example :
    let s = record new_stmt {
      query = lookup_query status_query;
      result_set = some (filled (native false) two_columns (active ∷ []));
    } in
    ((sql_execute plain session with_lookups s).end ≡ returned success)
    × (read_rows plain houses 3 (sql_execute plain session with_lookups s).stmt blank
        ≡ (some active ∷ some active ∷ [], some (returned no_data)))
unfolding get_resource create get
read_rows-sql_execute_example =
    read_rows-sql_execute plain houses session with_lookups
      (record new_stmt {
        query = lookup_query status_query;
        result_set = some (filled (native false) two_columns (active ∷ []));
      })
      blank status_query property (native false) two_columns (active ∷ []) 3 refl refl refl
      (omega arith)

abbrev failing : Compiler
failing = record { sql_to_dmql = λ view text. (view, sql_error (codes "line 1")) }

sql_prepare-keeps_example :
    let d =
      sql_prepare failing source
        (record new_stmt { query = lookup_query status_query })
        (some (codes "SELEC")) in
    (d.stmt.query ≡ lookup_query status_query) × (d.stmt.result_set ≡ none)
unfolding sql_prepare create_sql_query create_of
sql_prepare-keeps_example =
    sql_prepare-keeps failing source (record new_stmt { query = lookup_query status_query })
      (some (codes "SELEC")) (λ e. cc)

fetch_times-index_example :
    let (s', m') =
      fetch_times plain houses 7
        (stmt_of (filled (native false) two_columns (active ∷ [])))
        blank in
    Stands s' (active ∷ []) 1
    × (((7 < 1) × (got_row (sql_fetch plain houses s' m').end ≡ true))
        ⊎ ((1 ≤ 7) × ((sql_fetch plain houses s' m').end ≡ returned no_data)))
fetch_times-index_example =
    fetch_times-index plain houses (active ∷ []) 7
      (stmt_of (filled (native false) two_columns (active ∷ []))) blank (native false) two_columns
      refl

-- A data pointer for the second record moves the pointer of the second column.
moved_pointer-set_desc_field_example :
    moved_pointer
      (set_desc_field new_ard (pos 2) data_ptr 500).0
      1
      none
      (record blank { words = λ a. pos 8 })
      100
    ≡ 108
unfolding size_of_sqllen
moved_pointer-set_desc_field_example =
    moved_pointer-set_desc_field new_ard 1 500 (omega arith) refl 1 none
      (record blank { words = λ a. pos 8 }) 100
