-- ===== src/Catalogue/Tables.antt =====
-- project/driver/src/TableMetadataQuery.cpp: SQLTables.
use ez_rets.Base.{
  Bool, ◌&&◌, ◌||◌, not, List, [], ◌∷◌, ◌++◌, map, Option, none, some, if◌then◌else◌, Text, ℤ,
  codes, text_eq, is_empty, has, take,
}
use ez_rets.Catalogue.{Sorting, Source, Executed, answered, failed}
use ez_rets.MetadataView.Names.{
  TableMetadata, get_sql_data_table_metadata, object_tables, get_sql_data_table,
  get_sql_object_table,
}
use ez_rets.Odbc.{sql_varchar}
use ez_rets.Platform.{Platform}

-- TableMetadataQuery::prepareResultSet
abbrev pub table_columns : List (Text × ℤ)
table_columns =
    (codes "TABLE_CAT", sql_varchar)
    ∷ (codes "TABLE_SCHEM", sql_varchar)
    ∷ (codes "TABLE_NAME", sql_varchar)
    ∷ (codes "TABLE_TYPE", sql_varchar)
    ∷ (codes "REMARKS", sql_varchar)
    ∷ []

-- A row of execute.
abbrev pub table_row : TableMetadata → List Text
table_row (name, description) = [] ∷ [] ∷ name ∷ codes "TABLE" ∷ description ∷ []

-- The tables that are listed where the client names none.
unfoldable pub all_tables : Source → List TableMetadata
unfolding get_sql_data_table_metadata object_tables
all_tables s =
    if s.data_source.disable_get_object_metadata
    then get_sql_data_table_metadata s.view
    else get_sql_data_table_metadata s.view ++ object_tables s.view.metadata.get_all_resources

-- The tables of a name.
unfoldable pub tables_named : Platform → Source → Text → Option (List TableMetadata)
unfolding text_eq get_sql_data_table get_sql_object_table
tables_named p s table =
    if text_eq (take 5 table) (codes "data:")
    then some (get_sql_data_table p s.view table)
    else get_sql_object_table p s.view table

abbrev pub listed : Source → Option (List TableMetadata) → Executed
listed s none = record { rows = []; errors = []; view = s.view; result = none }
listed s (some tables) = answered s (map table_row tables)

-- The constructor's test: all tables are asked for.
unfoldable pub unless_all : Text → Text
unfolding text_eq
unless_all t = if text_eq t (codes "%") then [] else t

-- The request is for the catalogs, or for the schemas.
abbrev pub asks_for_catalogs : Text → Text → Text → Bool
unfolding text_eq
asks_for_catalogs catalog schema table =
    (text_eq catalog (codes "%") && (is_empty schema && is_empty table))
    || (is_empty catalog && (text_eq schema (codes "%") && is_empty table))

-- The request is for the table types.
abbrev pub asks_for_types : Text → Text → Text → Text → Bool
unfolding text_eq
asks_for_types catalog schema table table_type =
    is_empty catalog && (is_empty schema && (is_empty table && text_eq table_type (codes "%")))

-- What the request rules out: another type, another catalog, a schema.
abbrev pub rules_out : Sorting → Source → Text → Text → Text → Bool
unfolding text_eq
rules_out l s catalog schema table_type =
    (not (is_empty table_type) && not (l.icontains table_type (codes "TABLE")))
    || ((not (is_empty catalog) && not (text_eq catalog s.session_login_url))
        || not (is_empty schema))

-- TableMetadataQuery::execute, for the table that the constructor keeps
unfoldable pub list_tables : Platform → Sorting → Source → Text → Text → Text → Text → Executed
unfolding all_tables tables_named asks_for_catalogs asks_for_types rules_out has
list_tables p l s catalog schema table table_type =
    if asks_for_catalogs catalog schema table
    then answered s (([] ∷ [] ∷ [] ∷ [] ∷ [] ∷ []) ∷ [])
    else if asks_for_types catalog schema table table_type
    then answered s (([] ∷ [] ∷ [] ∷ codes "TABLE" ∷ [] ∷ []) ∷ [])
    else if rules_out l s catalog schema table_type
    then answered s []
    else if has b'%' table
    then failed s (codes "HYC00") (codes "Search patterns for table names not (yet) supported")
    else if is_empty table
    then listed s (some (all_tables s))
    else listed s (tables_named p s table)

-- TableMetadataQuery
unfoldable pub sql_tables : Platform → Sorting → Source → Text → Text → Text → Text → Executed
unfolding list_tables unless_all
sql_tables p l s catalog schema table table_type =
    list_tables p l s catalog schema (unless_all table) table_type
