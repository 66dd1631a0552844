-- ===== src/Catalogue/Types.antt =====
-- project/driver/src/TypeInfoMetadataQuery.cpp: SQLGetTypeInfo.
use ez_rets.Base.{
  Bool, ◌||◌, List, [], ◌∷◌, none, some, if◌then◌else◌, Text, ℤ, pos, codes, eqb_ℤ, is_empty,
}
use ez_rets.Catalogue.{Source, Executed, answered}
use ez_rets.Odbc.{
  sql_varchar, sql_char, sql_smallint, sql_integer, sql_decimal, sql_double, sql_type_date,
  sql_type_time, sql_type_timestamp, sql_bit, sql_tinyint, sql_bigint, success_with_info,
}
use ez_rets.Platform.{Platform}
use ez_rets.Translation.Translator.{factory, translator_type_name, translator_type_length}

-- TypeInfoMetadataQuery::prepareResultSet
abbrev pub type_columns : List (Text × ℤ)
type_columns =
    (codes "TYPE_NAME", sql_varchar)
    ∷ (codes "DATA_TYPE", sql_smallint)
    ∷ (codes "COLUMN_SIZE", sql_integer)
    ∷ (codes "LITERAL_PREFIX", sql_varchar)
    ∷ (codes "LITERAL_SUFFIX", sql_varchar)
    ∷ (codes "CREATE_PARAMS", sql_varchar)
    ∷ (codes "NULLABLE", sql_smallint)
    ∷ (codes "CASE_SENSITIVE", sql_smallint)
    ∷ (codes "SEARCHABLE", sql_smallint)
    ∷ (codes "UNSIGNED_ATTRIBUTE", sql_smallint)
    ∷ (codes "FIXED_PREC_SCALE", sql_smallint)
    ∷ (codes "AUTO_UNIQUE_VALUE", sql_smallint)
    ∷ (codes "LOCAL_TYPE_NAME", sql_varchar)
    ∷ (codes "MINIMUM_SCALE", sql_smallint)
    ∷ (codes "MAXIMUM_SCALE", sql_smallint)
    ∷ (codes "SQL_DATA_TYPE", sql_smallint)
    ∷ (codes "SQL_DATETIME_SUB", sql_smallint)
    ∷ (codes "NUM_PREC_RADIX", sql_integer)
    ∷ (codes "INTERVAL_PRECISION", sql_smallint)
    ∷ []

-- The arguments of getSQLGetTypeInfoRow.
pub record TypeInfo : Type 0 where
  pub dtype : ℤ
  pub perc_radix : Text
  pub unsigned_att : Text
  pub litprefix : Text
  pub litsuffix : Text

abbrev plain_type : ℤ → TypeInfo
plain_type type = record {
  dtype = type;
  perc_radix = codes "2";
  unsigned_att = [];
  litprefix = [];
  litsuffix = [];
}

abbrev text_type : ℤ → TypeInfo
text_type type = record {
  dtype = type;
  perc_radix = codes "10";
  unsigned_att = [];
  litprefix = codes "'";
  litsuffix = codes "'";
}

module _ (p : Platform) where
  -- b::lexical_cast<string>(SQL_FALSE)
  abbrev false_text : Text
  false_text = p.print_int (pos 0)

  abbrev signed_type : ℤ → TypeInfo
  signed_type type = record (plain_type type) { unsigned_att = false_text }

  -- The types in the order in which execute comes to them.
  abbrev pub supported_types : List TypeInfo
  supported_types =
      plain_type sql_bit
      ∷ signed_type sql_tinyint
      ∷ signed_type sql_bigint
      ∷ text_type sql_char
      ∷ signed_type sql_decimal
      ∷ signed_type sql_integer
      ∷ signed_type sql_smallint
      ∷ signed_type sql_double
      ∷ text_type sql_varchar
      ∷ plain_type sql_type_date
      ∷ plain_type sql_type_time
      ∷ plain_type sql_type_timestamp
      ∷ []

  abbrev is_datetime : ℤ → Bool
  is_datetime type =
      eqb_ℤ type sql_type_date || (eqb_ℤ type sql_type_time || eqb_ℤ type sql_type_timestamp)

  -- TypeInfoMetadataQuery::getSQLGetTypeInfoRow; SQL_NULLABLE is 1, SQL_SEARCHABLE 3, SQL_DATETIME 9
  unfoldable pub type_row : TypeInfo → List Text
  unfolding factory translator_type_name translator_type_length
  type_row i =
      translator_type_name (factory none) i.dtype
      ∷ p.print_int i.dtype
      ∷ (if eqb_ℤ i.dtype sql_char || eqb_ℤ i.dtype sql_varchar
          then codes "16384"
          else p.print_int (translator_type_length (factory none) i.dtype))
      ∷ i.litprefix
      ∷ i.litsuffix
      ∷ []
      ∷ p.print_int (pos 1)
      ∷ false_text
      ∷ p.print_int (pos 3)
      ∷ i.unsigned_att
      ∷ false_text
      ∷ []
      ∷ []
      ∷ []
      ∷ []
      ∷ (if is_datetime i.dtype then p.print_int (pos 9) else p.print_int i.dtype)
      ∷ (if is_datetime i.dtype then p.print_int i.dtype else [])
      ∷ i.perc_radix
      ∷ []
      ∷ []

  -- The tests of execute; SQL_ALL_TYPES is 0.
  abbrev pub wanted : ℤ → TypeInfo → Bool
  wanted data_type i = eqb_ℤ data_type (pos 0) || eqb_ℤ data_type i.dtype

  unfoldable pub type_rows : ℤ → List TypeInfo → List (List Text)
  unfolding type_row
  type_rows data_type [] = []
  type_rows data_type (i ∷ is) =
      let rest = type_rows data_type is in if wanted data_type i then type_row i ∷ rest else rest

  -- TypeInfoMetadataQuery::execute
  unfoldable pub type_info : Source → ℤ → Executed
  unfolding type_rows
  type_info s data_type =
      let rows = type_rows data_type supported_types in
      if is_empty rows
      then record {
        rows = rows;
        errors =
            record {
              sqlstate = codes "01000";
              message = codes "ezRETS does not support this SQL data type.";
            }
            ∷ [];
        view = s.view;
        result = some success_with_info;
      }
      else answered s rows
