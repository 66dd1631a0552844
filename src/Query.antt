-- ===== src/Query.antt =====
-- project/driver/src/Query.cpp: the queries of a statement and how they get their result sets
-- (OnDemandDataQuery, DataCountQuery, OnDemandObjectQuery, EzLookupQuery, EzLookupColumnsQuery and
-- the catalogue queries). A lookup that is loaded ahead is one that the metadata gives anyway.
pub mod Execute
pub mod Create
use ez_rets.Base.{
  ℕ, Bool, true, false, ◌||◌, List, [], ◌∷◌, ◌++◌, map, Option, none, some, if◌then◌else◌, Text, ℤ,
  pos, codes, is_empty,
}
use ez_rets.Catalogue.{Source, Executed, Columns, translator_of}
use ez_rets.Catalogue.Keys.{column_name}
use ez_rets.Column.{ColumnKind, faux, rets}
use ez_rets.Librets.{
  MetadataTable, MetadataClass, MetadataResource, DmqlQuery, GetObjectQuery, LookupQuery,
  LookupColumnsQuery,
}
use ez_rets.MetadataView.{MetadataView, get_class, get_resource, get_table, get_tables_for_class}
use ez_rets.Odbc.{sql_varchar, sql_integer, sql_longvarbinary}
use ez_rets.OnDemand.{object_key, object_id, mime_type, object_description, location_url, raw_data}
use ez_rets.ResultSet.{ResultSet, Rows, search, objects, new_bulk, add_column}
use ez_rets.Translation.Translator.{DataTranslator, factory}

-- Query and its subclasses; the Boolean is mUseCompactFormat. A catalogue query is its columns, the
-- translator that it takes and what execute finds.
pub data Query : Type 0 where
  null_query : Query
  data_query count_query : Bool → DmqlQuery → Query
  object_query : GetObjectQuery → Query
  lookup_query : LookupQuery → Query
  lookup_columns_query : LookupColumnsQuery → Query
  catalogue_query : Columns → (Source → DataTranslator) → (Source → Executed) → Query

-- What prepareResultSet leaves: the result set, a SqlStateException, or a call through a null pointer.
pub data Prepared : Type 0 where
  prepared : ResultSet → Prepared
  refused : Text → Text → Prepared
  crashed : Prepared

-- DataTranslator::factory()
abbrev pub plain_translator : DataTranslator
unfolding factory
plain_translator = factory none

-- Query::newResultSet of the kinds that a query asks for
abbrev pub new_result_set : DataTranslator → Rows → ResultSet
new_result_set t rows = record { translator = t; columns = []; rows = rows }

-- addColumn of each column of the driver's own
unfoldable pub add_faux : Columns → ResultSet → ResultSet
unfolding add_column
add_faux [] rs = rs
add_faux ((name, type) ∷ rest) rs = add_faux rest (add_column rs name (faux type 256))

-- What a loop over the fields finds: the tables, or the field that is none.
pub data Selected : Type 0 where
  tables : List MetadataTable → Selected
  missing : Text → Selected

abbrev pub and_table : MetadataTable → MetadataView × Selected → MetadataView × Selected
and_table t (v, tables ts) = (v, tables (t ∷ ts))
and_table t (v, missing name) = (v, missing name)

-- The loop of OnDemandDataQuery::prepareResultSet over the fields
unfoldable pub named_tables : MetadataClass → List Text → MetadataView → MetadataView × Selected
unfolding get_table
named_tables clazz [] v = (v, tables [])
named_tables clazz (name ∷ rest) v =
    let (v', found) = get_table v clazz name in
    elim found [ none ↦ (v', missing name) | some t ↦ and_table t (named_tables clazz rest v') ]

abbrev every_table : MetadataView × List MetadataTable → MetadataView × Selected
every_table (v, ts) = (v, tables ts)

unfoldable pub selected :
    MetadataClass → Option (List Text) → MetadataView → MetadataView × Selected
unfolding named_tables get_tables_for_class
selected clazz none v = every_table (get_tables_for_class v clazz)
selected clazz (some []) v = every_table (get_tables_for_class v clazz)
selected clazz (some (name ∷ rest)) v = named_tables clazz (name ∷ rest) v

-- The loop over the tables: a table with no name under the setting is left out.
unfoldable pub add_tables : Source → Bool → List MetadataTable → ResultSet → ResultSet
unfolding add_column
add_tables s compact [] rs = rs
add_tables s compact (t ∷ ts) rs =
    add_tables s compact ts
      (if is_empty (column_name s t) then rs else add_column rs (column_name s t) (rets t compact))

abbrev invalid_class : Prepared
invalid_class =
    refused (codes "42S02") (codes "Miscellaneous Search Error: Invalid Resource or Class name")

unfoldable pub with_tables : Source → Bool → MetadataView × Selected → MetadataView × Prepared
unfolding add_tables
with_tables s compact (v, tables ts) = (
  v,
  prepared (add_tables s compact ts (new_result_set (translator_of s.data_source) (search none))),
)
with_tables s compact (v, missing name) =
    (v, refused (codes "42S22") (codes "Column " ++ (name ++ codes " does not exist.")))

unfoldable pub prepare_data :
    Source → Bool → DmqlQuery → Option MetadataClass → MetadataView × Prepared
unfolding selected with_tables
prepare_data s compact q none = (s.view, invalid_class)
prepare_data s compact q (some clazz) = with_tables s compact (selected clazz q.fields s.view)

abbrev bulk_with : DataTranslator → Columns → Prepared
unfolding add_faux
bulk_with t columns = prepared (add_faux columns (new_bulk t))

abbrev if_class : Option MetadataClass → Prepared → Prepared
if_class none r = invalid_class
if_class (some clazz) r = r

abbrev pub object_columns : Columns
object_columns =
    (object_key, sql_varchar)
    ∷ (object_id, sql_integer)
    ∷ (mime_type, sql_varchar)
    ∷ (object_description, sql_varchar)
    ∷ (location_url, sql_varchar)
    ∷ []

abbrev pub lookup_columns : Columns
lookup_columns =
    (codes "value", sql_varchar)
    ∷ (codes "short_value", sql_varchar)
    ∷ (codes "long_value", sql_varchar)
    ∷ []

-- EzLookupQuery::prepareResultSet, where MetadataView::getLookup reads the id of a resource that may
-- be null
abbrev prepare_lookup : Source → LookupQuery → Option MetadataResource → Prepared
unfolding add_faux
prepare_lookup s q none = crashed
prepare_lookup s q (some res) =
    if s.view.metadata.has_lookup res.resource_id q.lookup
    then bulk_with plain_translator lookup_columns
    else refused (codes "42S02")
        (codes "Miscellaneous Search Error: Invalid Resource or Lookup name")

-- prepareResultSet of each query
unfoldable pub prepare_result_set : Source → Query → MetadataView × Prepared
unfolding prepare_data bulk_with prepare_lookup get_class get_resource add_faux add_column
prepare_result_set s null_query = (s.view, prepared (new_bulk plain_translator))
prepare_result_set s (data_query compact q) =
    prepare_data s compact q (get_class s.view q.resource q.class_name)
prepare_result_set s (count_query compact q) = (
  s.view,
  if_class (get_class s.view q.resource q.class_name)
      (bulk_with plain_translator ((codes "count(*)", sql_integer) ∷ [])),
)
prepare_result_set s (object_query q) = (
  s.view,
  prepared (
      add_column (add_faux object_columns (new_result_set plain_translator (objects none [])))
        raw_data (faux sql_longvarbinary 20971520)),
)
prepare_result_set s (lookup_query q) =
    (s.view, prepare_lookup s q (get_resource s.view q.resource))
prepare_result_set s (lookup_columns_query q) = (
  s.view,
  if_class (get_class s.view q.resource q.class_name) (
      bulk_with plain_translator
        ((codes "column", sql_varchar) ∷ (codes "lookup", sql_varchar) ∷ [])),
)
prepare_result_set s (catalogue_query columns translator run) =
    (s.view, bulk_with (translator s) columns)
