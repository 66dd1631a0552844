-- ===== src/Stmt/Catalogues.antt =====
-- project/driver/src/RetsSTMT.cpp: the catalogue calls. The client's strings are the texts that they
-- hold, a null pointer is `none`; where the source reads a table's name without a test, it is given.
use ez_rets.Base.{
  ℕ, Bool, false, ◌&&◌, not, Option, none, some, ◌==◌, if◌then◌else◌, Text, ℤ, codes, text_eq,
  is_empty,
}
use ez_rets.Catalogue.{Sorting, Source, translator_of}
use ez_rets.Catalogue.Columns.{column_columns, sql_columns}
use ez_rets.Catalogue.Keys.{
  key_columns, primary_keys, special_columns_columns, special_columns, statistics_columns,
  statistics,
}
use ez_rets.Catalogue.Tables.{table_columns, sql_tables}
use ez_rets.Catalogue.Types.{type_columns, type_info}
use ez_rets.Odbc.{error, success}
use ez_rets.OnDemand.{or_empty}
use ez_rets.Platform.{Platform}
use ez_rets.Query.{catalogue_query, plain_translator}
use ez_rets.Query.Execute.{RetsSession}
use ez_rets.Stmt.{Stmt, returned, clear_errors, with_error}
use ez_rets.Stmt.Queries.{Asked, asked, ask}

-- A string of the client: its first byte, and what SqlCharToString makes of it.
pub record ClientText : Type 0 where
  pub first : ℕ
  pub text : Text

-- CatalogName != NULL && *CatalogName != '\0'
abbrev pub is_named : Option ClientText → Bool
is_named none = false
is_named (some c) = not (c.first == 0)

-- The tests of SQLStatistics: a name that is neither empty nor a percent sign.
abbrev pub names_some : Option Text → Bool
unfolding text_eq
names_some none = false
names_some (some t) = not (text_eq t (codes "%")) && not (is_empty t)

abbrev no_catalogs : Source → Stmt → Asked
no_catalogs src s =
    asked (with_error s (codes "HYC00") (codes "catalogs not supported in this driver")) src.view
      (returned error)

abbrev no_schemas : Source → Stmt → Asked
no_schemas src s =
    asked (with_error s (codes "HYC00") (codes "schemas not supported in this driver")) src.view
      (returned error)

-- RetsSTMT::SQLCancel
abbrev pub sql_cancel : Source → Stmt → Asked
sql_cancel src s = asked s src.view (returned success)

module _ (p : Platform) (session : RetsSession) (l : Sorting) (src : Source) where
  -- RetsSTMT::SQLTables
  unfoldable pub stmt_tables : Stmt → Option Text → Option Text → Option Text → Option Text → Asked
  unfolding ask sql_tables
  stmt_tables s catalog schema table table_type = ask p session src (clear_errors s) (
      catalogue_query table_columns (λ x. plain_translator)
        (λ x.
          sql_tables p l x (or_empty catalog) (or_empty schema) (or_empty table)
            (or_empty table_type)))

  -- RetsSTMT::SQLColumns
  unfoldable pub stmt_columns : Stmt → Option ClientText → Option Text → Option Text → Asked
  unfolding ask sql_columns
  stmt_columns s catalog table column =
      if is_named catalog
      then no_catalogs src (clear_errors s)
      else ask p session src (clear_errors s) (
          catalogue_query column_columns (λ x. translator_of x.data_source)
            (λ x. sql_columns p l x (or_empty table) (or_empty column)))

  -- RetsSTMT::SQLGetTypeInfo
  unfoldable pub stmt_get_type_info : Stmt → ℤ → Asked
  unfolding ask type_info
  stmt_get_type_info s data_type =
      ask p session src (clear_errors s)
        (catalogue_query type_columns (λ x. plain_translator) (λ x. type_info p x data_type))

  -- RetsSTMT::SQLSpecialColumns
  unfoldable pub stmt_special_columns : Stmt → ℕ → Option ClientText → Text → ℕ → ℕ → Asked
  unfolding ask special_columns
  stmt_special_columns s identifier_type catalog table scope nullable =
      if is_named catalog
      then no_catalogs src (clear_errors s)
      else ask p session src (clear_errors s) (
          catalogue_query special_columns_columns (λ x. plain_translator)
            (λ x. special_columns p x identifier_type table scope nullable))

  -- RetsSTMT::SQLStatistics
  unfoldable pub stmt_statistics : Stmt → Option Text → Option Text → Asked
  unfolding ask statistics text_eq
  stmt_statistics s catalog schema =
      if names_some catalog
      then no_catalogs src (clear_errors s)
      else if names_some schema
      then no_schemas src (clear_errors s)
      else ask p session src (clear_errors s)
          (catalogue_query statistics_columns (λ x. plain_translator) statistics)

  -- RetsSTMT::SQLPrimaryKeys
  unfoldable pub stmt_primary_keys : Stmt → Option ClientText → Text → Asked
  unfolding ask primary_keys
  stmt_primary_keys s catalog table =
      if is_named catalog
      then no_catalogs src (clear_errors s)
      else ask p session src (clear_errors s)
          (catalogue_query key_columns (λ x. plain_translator) (λ x. primary_keys p x table))
