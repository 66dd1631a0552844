-- ===== src/Catalogue.antt =====
-- project/driver/src: the queries that answer the catalogue functions from the view of the metadata
-- (TableMetadataQuery, ColumnMetadataQuery, PrimaryKeysMetadataQuery, SpecialColumnsMetadataQuery,
-- StatisticsMetadataQuery, TypeInfoMetadataQuery).
pub mod Tables
pub mod Columns
pub mod Keys
pub mod Types
pub mod Widths
pub mod Unknown
use ez_rets.Base.{Bool, List, [], ◌∷◌, map, Option, none, some, if◌then◌else◌, Text, ℤ, ℕ}
use ez_rets.Column.{faux}
use ez_rets.DataSource.{DataSource}
use ez_rets.Handle.{Error}
use ez_rets.Librets.{MetadataTable}
use ez_rets.MetadataView.{MetadataView}
use ez_rets.Odbc.{SqlReturn, success, error}
use ez_rets.Platform.{Platform}
use ez_rets.ResultSet.{ResultSet, Rows, add_column, add_row}
use ez_rets.Translation.Translator.{DataTranslator, factory}

-- What the catalogue queries take from the libraries beside Platform: boost::icontains,
-- boost::to_upper_copy and std::sort by a comparison.
pub record Sorting : Type 0 where
  pub icontains : Text → Text → Bool
  pub to_upper : Text → Text
  pub sort : (MetadataTable → MetadataTable → Bool) → List MetadataTable → List MetadataTable

-- What a query reaches through its statement and connection; RetsSession::GetLoginUrl is the URL
-- that the session was made with.
pub record Source : Type 0 where
  pub data_source : DataSource
  pub view : MetadataView
  pub session_login_url : Text

-- What execute leaves: the rows in the order in which they were added, the errors that it added, and
-- what it returned; `none` where it went through a null pointer.
pub record Executed : Type 0 where
  pub rows : List (List Text)
  pub errors : List Error
  pub view : MetadataView
  pub result : Option SqlReturn

abbrev pub answered : Source → List (List Text) → Executed
answered s rows = record { rows = rows; errors = []; view = s.view; result = some success }

abbrev pub failed : Source → Text → Text → Executed
failed s sqlstate message = record {
  rows = [];
  errors = record { sqlstate = sqlstate; message = message } ∷ [];
  view = s.view;
  result = some error;
}

-- DataTranslator::factory(stmt)
abbrev pub translator_of : DataSource → DataTranslator
unfolding factory
translator_of d = factory (some (d.ignore_metadata_type, d.treat_decimal_as_string))

-- The names and types of the columns that prepareResultSet adds.
abbrev pub Columns : Type 0
Columns = List (Text × ℤ)
