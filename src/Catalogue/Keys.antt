-- ===== src/Catalogue/Keys.antt =====
-- project/driver/src: SQLPrimaryKeys (PrimaryKeysMetadataQuery.cpp), SQLSpecialColumns
-- (SpecialColumnsMetadataQuery.cpp) and SQLStatistics (StatisticsMetadataQuery.cpp).
use ez_rets.Base.{
  ℕ, ◌||◌, List, [], ◌∷◌, Option, none, some, ◌==◌, ltb, if◌then◌else◌, Text, ℤ, pos, codes, eqb_ℤ,
}
use ez_rets.Catalogue.{Source, Executed, answered, translator_of}
use ez_rets.Librets.{MetadataTable}
use ez_rets.MetadataView.{MetadataView, get_key_field_table}
use ez_rets.MetadataView.Names.{ResourceClassPair, get_pair_by_sql_table}
use ez_rets.Odbc.{
  sql_varchar, sql_char, sql_smallint, sql_integer, sql_decimal, sql_double, sql_type_timestamp,
  success,
}
use ez_rets.Platform.{Platform}
use ez_rets.Translation.Translator.{
  get_prefered_odbc_type, translator_type_name, translator_type_length,
}

-- PrimaryKeysMetadataQuery::prepareResultSet
abbrev pub key_columns : List (Text × ℤ)
key_columns =
    (codes "TABLE_CAT", sql_varchar)
    ∷ (codes "TABLE_SCHEM", sql_varchar)
    ∷ (codes "TABLE_NAME", sql_varchar)
    ∷ (codes "COLUMN_NAME", sql_varchar)
    ∷ (codes "KEY_SEQ", sql_smallint)
    ∷ (codes "PK_NAME", sql_varchar)
    ∷ []

-- The name of a column under the setting of the data source.
abbrev pub column_name : Source → MetadataTable → Text
column_name s t = if s.data_source.standard_names then t.standard_name else t.system_name

abbrev pub key_row : Source → Text → MetadataTable → List Text
key_row s table t = [] ∷ [] ∷ table ∷ column_name s t ∷ codes "1" ∷ [] ∷ []

abbrev one_row : MetadataView → List Text → Executed
one_row v row = record { rows = row ∷ []; errors = []; view = v; result = some success }

abbrev no_rows : MetadataView → Executed
no_rows v = record { rows = []; errors = []; view = v; result = some success }

-- The row of the key field, if the class has it; the view loads the class's tables for that.
abbrev pub key_answer : (MetadataTable → List Text) → MetadataView × Option MetadataTable → Executed
key_answer row (v, none) = no_rows v
key_answer row (v, some t) = one_row v (row t)

unfoldable pub key_of_pair :
    Source → (MetadataTable → List Text) → Option ResourceClassPair → Executed
unfolding get_key_field_table
key_of_pair s row none = no_rows s.view
key_of_pair s row (some (res, clazz)) =
    key_answer row (get_key_field_table s.view clazz res.key_field)

-- PrimaryKeysMetadataQuery::execute
unfoldable pub primary_keys : Platform → Source → Text → Executed
unfolding key_of_pair get_pair_by_sql_table
primary_keys p s table = key_of_pair s (key_row s table) (get_pair_by_sql_table p s.view table)

-- SpecialColumnsMetadataQuery::prepareResultSet
abbrev pub special_columns_columns : List (Text × ℤ)
special_columns_columns =
    (codes "SCOPE", sql_smallint)
    ∷ (codes "COLUMN_NAME", sql_varchar)
    ∷ (codes "DATA_TYPE", sql_smallint)
    ∷ (codes "TYPE_NAME", sql_varchar)
    ∷ (codes "COLUMN_SIZE", sql_integer)
    ∷ (codes "BUFFER_LENGTH", sql_integer)
    ∷ (codes "DECIMAL_DIGITS", sql_smallint)
    ∷ (codes "PSEUDO_COLUMN", sql_smallint)
    ∷ []

module _ (p : Platform) (s : Source) where
  abbrev buffer_text : ℤ → MetadataTable → Text
  unfolding translator_type_length
  buffer_text type t =
      if eqb_ℤ type sql_varchar || eqb_ℤ type sql_char
      then p.print_int (pos t.maximum_length)
      else p.print_int (translator_type_length (translator_of s.data_source) type)

  abbrev digits_text : ℤ → MetadataTable → Text
  digits_text type t =
      if eqb_ℤ type sql_decimal || eqb_ℤ type sql_double
      then p.print_int (pos t.precision)
      else if eqb_ℤ type sql_type_timestamp
      then codes "3"
      else []

  -- A row: SQL_SCOPE_CURROW and SQL_PC_UNKNOWN are 0.
  unfoldable pub special_row : MetadataTable → List Text
  unfolding buffer_text get_prefered_odbc_type translator_type_name translator_of
  special_row t =
      let type : ℤ = get_prefered_odbc_type (translator_of s.data_source) t.data_type in
      p.print_int (pos 0)
      ∷ column_name s t
      ∷ p.print_int type
      ∷ translator_type_name (translator_of s.data_source) type
      ∷ p.print_int (pos t.maximum_length)
      ∷ buffer_text type t
      ∷ digits_text type t
      ∷ p.print_int (pos 0)
      ∷ []

  -- SpecialColumnsMetadataQuery::execute; SQL_NO_NULLS and SQL_SCOPE_CURROW are 0, SQL_ROWVER is 2
  unfoldable pub special_columns : ℕ → Text → ℕ → ℕ → Executed
  unfolding special_row key_of_pair get_pair_by_sql_table
  special_columns identifier_type table scope nullable =
      if nullable == 0 || (ltb 0 scope || identifier_type == 2)
      then answered s []
      else key_of_pair s special_row (get_pair_by_sql_table p s.view table)

-- StatisticsMetadataQuery::prepareResultSet
abbrev pub statistics_columns : List (Text × ℤ)
statistics_columns =
    (codes "TABLE_CAT", sql_varchar)
    ∷ (codes "TABLE_SCHEM", sql_varchar)
    ∷ (codes "TABLE_NAME", sql_varchar)
    ∷ (codes "NON_UNIQUE", sql_smallint)
    ∷ (codes "INDEX_QUALIFIER", sql_varchar)
    ∷ (codes "INDEX_NAME", sql_varchar)
    ∷ (codes "TYPE", sql_smallint)
    ∷ (codes "ORDINAL_POSITION", sql_smallint)
    ∷ (codes "COLUMN_NAME", sql_varchar)
    ∷ (codes "ASC_OR_DESC", sql_char)
    ∷ (codes "CARDINALITY", sql_integer)
    ∷ (codes "PAGES", sql_integer)
    ∷ (codes "FILTER_CONDITION", sql_varchar)
    ∷ []

-- StatisticsMetadataQuery::execute
unfoldable pub statistics : Source → Executed
statistics s = answered s []
