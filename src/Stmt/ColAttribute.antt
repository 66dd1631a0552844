-- ===== src/Stmt/ColAttribute.antt =====
-- project/driver/src/RetsSTMT.cpp: SQLColAttribute, and ColAttributeHelper.cpp.
use ez_rets.Base.{
  ℕ, suc, ◌^◌, ◌<◌, ◌≡◌, ◌≢◌, refl, sym, ◌∙◌, ◌||◌, [], Option, none, some, ltb, ◌==◌,
  if◌then◌else◌, Text, ℤ, pos, eqb_ℤ, codes, length, get_elem?,
}
use ez_rets.Column.{Column, get_data_type, get_maximum_length, get_precision, is_searchable}
use ez_rets.Memory.{Memory, set_word, words-set_word}
use ez_rets.Odbc.{
  success, success_with_info, error, smallint_of_size, size_of_sqllen, sqllen_of_size, sql_char,
  sql_varchar, sql_longvarbinary, sql_decimal, sql_double, sql_type_date, sql_type_time,
  sql_type_timestamp, sql_timestamp_len,
}
use ez_rets.ResultSet.{ResultSet, column_count, column_at}
use ez_rets.Stmt.{Stmt, Done, returned, escaped, finish, clear_errors, with_error, refuses_column}
use ez_rets.Stmt.Binding.{refuses_column-never}
use ez_rets.Stmt.Shape.{sql_describe_col}
use ez_rets.Stmt.Shape.Answers.{sql_describe_col-data_type}
use ez_rets.Translation.{out_of_range}
use ez_rets.Translation.Translator.{DataTranslator, translator_type_length, translator_type_name}
use ez_rets.Utils.{copy_string}

-- The case labels of SQLColAttribute; `other_field` is every other number.
pub data ColField : Type 0 where
  auto_unique_value case_sensitive fixed_prec_scale : ColField
  column_name base_column_name desc_label desc_name : ColField
  base_table_name catalog_name literal_prefix literal_suffix : ColField
  local_type_name schema_name table_name concise_type : ColField
  column_count_field desc_count display_size column_length desc_length : ColField
  column_nullable desc_nullable num_prec_radix octet_length : ColField
  column_precision desc_precision column_scale desc_scale : ColField
  searchable desc_type type_name unnamed unsigned updatable : ColField
  other_field : ColField

-- What a label does: a number or a text for the client, a text whose return code is dropped, or an
-- error.
pub data Answer : Type 0 where
  number : ℤ → Answer
  text dropped_text : Text → Answer
  unsupported : Answer

-- Of the two translators, `t` is the one that SQLColAttribute makes, the other that of the result
-- set.
module _ (t : DataTranslator) (rs : ResultSet) (c : Column) where
  abbrev type_of : ℤ
  unfolding get_data_type
  type_of = get_data_type rs.translator c.kind

  abbrev maximum_length : ℤ
  unfolding get_maximum_length
  maximum_length = sqllen_of_size (get_maximum_length rs.translator c.kind)

  abbrev length_of : ℤ
  unfolding type_of maximum_length translator_type_length
  length_of =
      if eqb_ℤ type_of sql_varchar || eqb_ℤ type_of sql_char || eqb_ℤ type_of sql_longvarbinary
      then maximum_length
      else translator_type_length t type_of

  abbrev radix_of : ℤ
  unfolding type_of
  radix_of = if eqb_ℤ type_of sql_decimal || eqb_ℤ type_of sql_double then pos 10 else pos 0

  abbrev octets_of : ℤ
  unfolding type_of maximum_length translator_type_length
  octets_of =
      if eqb_ℤ type_of sql_type_date
        || eqb_ℤ type_of sql_type_time
        || eqb_ℤ type_of (pos sql_timestamp_len)
      then translator_type_length t type_of
      else maximum_length

  abbrev precision_of : ℤ
  unfolding type_of get_precision
  precision_of =
      if eqb_ℤ type_of sql_decimal || eqb_ℤ type_of sql_double
      then sqllen_of_size (get_precision rs.translator c.kind)
      else if eqb_ℤ type_of sql_type_timestamp
      then pos 3
      else pos 0

  -- The switch; SQL_NULLABLE is 1, SQL_PRED_BASIC 2, SQL_PRED_NONE, SQL_NAMED and SQL_ATTR_READONLY 0
  unfoldable pub attribute : ColField → Answer
  unfolding type_of maximum_length length_of radix_of octets_of precision_of is_searchable
      translator_type_name
  attribute auto_unique_value = number (pos 0)
  attribute case_sensitive = number (pos 0)
  attribute fixed_prec_scale = number (pos 0)
  attribute column_name = text c.name
  attribute base_column_name = text c.name
  attribute desc_label = text c.name
  attribute desc_name = text c.name
  attribute base_table_name = text []
  attribute catalog_name = text []
  attribute literal_prefix = text []
  attribute literal_suffix = text []
  attribute local_type_name = text []
  attribute schema_name = text []
  attribute table_name = text []
  attribute concise_type = number type_of
  attribute column_count_field = number (sqllen_of_size (column_count rs))
  attribute desc_count = number (sqllen_of_size (column_count rs))
  attribute display_size = number maximum_length
  attribute column_length = number length_of
  attribute desc_length = number length_of
  attribute column_nullable = number (pos 1)
  attribute desc_nullable = number (pos 1)
  attribute num_prec_radix = number radix_of
  attribute octet_length = number octets_of
  attribute column_precision = number precision_of
  attribute desc_precision = number precision_of
  attribute column_scale = number (pos 0)
  attribute desc_scale = number (pos 0)
  attribute searchable = number (if is_searchable c.kind then pos 2 else pos 0)
  attribute desc_type = number type_of
  attribute type_name = dropped_text (translator_type_name t type_of)
  attribute unnamed = number (pos 0)
  attribute unsigned = number (pos 0)
  attribute updatable = number (pos 0)
  attribute other_field = unsupported

module _ (character_attribute : ℕ) (buffer_length : ℤ) (string_length numeric_attribute : ℕ) where
  abbrev store_length : ℕ → Memory → Memory
  unfolding set_word
  store_length n m = if string_length == 0 then m else set_word m string_length (smallint_of_size n)

  -- ColAttributeHelper::setString
  unfoldable pub set_attribute_string : Stmt → Text → Memory → Done
  unfolding copy_string store_length
  set_attribute_string s value m =
      let (m', size) = copy_string value character_attribute (size_of_sqllen buffer_length) m in
      if ltb size (length value)
      then finish
          (with_error s (codes "01004") (codes "Resultant value larger than buffer passed in."))
          (store_length (length value) m') success_with_info
      else finish s (store_length size m') success

  -- What the switch does with an answer; the first writes by ColAttributeHelper::setInt.
  unfoldable pub answered : Stmt → Answer → Memory → Done
  unfolding set_word set_attribute_string
  answered s (number n) m = finish s (set_word m numeric_attribute n) success
  answered s (text x) m = set_attribute_string s x m
  answered s (dropped_text x) m = record (set_attribute_string s x m) { end = returned success }
  answered s unsupported m =
      finish (with_error s (codes "HYC00") (codes "We don't support this.")) m error

  abbrev of_column : DataTranslator → Stmt → ResultSet → ColField → Memory → Option Column → Done
  unfolding answered attribute
  of_column t s rs f m none = record { stmt = s; memory = m; end = escaped out_of_range }
  of_column t s rs f m (some c) = answered s (attribute t rs c f) m

  abbrev of_result_set : DataTranslator → Stmt → ℕ → ColField → Memory → Option ResultSet → Done
  unfolding of_column
  of_result_set t s column_number f m none =
      finish (with_error s (codes "07005") (codes "Statement did not return a result set.")) m error
  of_result_set t s column_number f m (some rs) =
      if refuses_column column_number rs
      then finish (with_error s (codes "07009") (codes "Bad Column Number")) m error
      else of_column t s rs f m (column_at rs.columns column_number)

  -- RetsSTMT::SQLColAttribute
  unfoldable pub sql_col_attribute : DataTranslator → Stmt → ℕ → ColField → Memory → Done
  unfolding of_result_set
  sql_col_attribute t s column_number f m =
      of_result_set t (clear_errors s) column_number f m s.result_set

module _ (t : DataTranslator) (s : Stmt) (rs : ResultSet) (set_rs : s.result_set ≡ some rs) (i : ℕ)
    (c : Column) (found : get_elem? rs.columns i ≡ some c) (attr : ℕ) (len : ℤ)
    (str_len numeric : ℕ) (numeric_set : numeric ≢ 0) where
  -- For a column of the statement's result set, SQLColAttribute succeeds with both fields of the
  -- type and leaves the column's type in the client's cell.
  sql_col_attribute-type :
      (m : Memory)
      → let d = sql_col_attribute attr len str_len numeric t s (suc i) concise_type m in
        let e = sql_col_attribute attr len str_len numeric t s (suc i) desc_type m in
        ((d.end ≡ returned success) × (d.memory.words numeric ≡ get_data_type rs.translator c.kind))
        × ((e.end ≡ returned success)
            × (e.memory.words numeric ≡ get_data_type rs.translator c.kind))
  unfolding sql_col_attribute attribute answered
  sql_col_attribute-type m =
      rw (set_rs, refuses_column-never (suc i) rs, found)
        (
          (refl, words-set_word m numeric _ numeric_set),
          (refl, words-set_word m numeric _ numeric_set),
        )

  -- SQLColAttribute with SQL_DESC_CONCISE_TYPE and SQLDescribeCol tell a client the same type of a
  -- column of the statement's result set. The cell of the first is not null; the name buffer of
  -- the second is not null or empty and shorter than 2^15 bytes, and its type cell is not null and
  -- no other cell than the scale and the nullability. The two calls may find different memory, and
  -- the first may make any of the two translators.
  pub sql_col_attribute-sql_describe_col :
      (name_ptr n name_length data_type column_size decimal_digits nullable : ℕ)
      → name_ptr ≢ 0
      → n ≢ 0
      → n < 2 ^ 15
      → data_type ≢ 0
      → data_type ≢ decimal_digits
      → data_type ≢ nullable
      → (m m' : Memory)
      → let d =
          sql_describe_col name_ptr
            (pos n)
            name_length
            data_type
            column_size
            decimal_digits
            nullable
            s
            (suc i)
            m in
        let e = sql_col_attribute attr len str_len numeric t s (suc i) concise_type m' in
        e.memory.words numeric ≡ d.memory.words data_type
  sql_col_attribute-sql_describe_col name_ptr n name_length data_type column_size decimal_digits
        nullable name_set n_set n_short type_set ne1 ne2 m m' =
      (sql_col_attribute-type m').0.1
      ∙ sym (
          sql_describe_col-data_type s rs set_rs i c found name_ptr n name_length data_type
            column_size decimal_digits nullable name_set n_set n_short m type_set ne1 ne2)

module _ (t : DataTranslator) (s : Stmt) (rs : ResultSet) (set_rs : s.result_set ≡ some rs) (i : ℕ)
    (c : Column) (found : get_elem? rs.columns i ≡ some c) (attr : ℕ) (len : ℤ)
    (str_len numeric : ℕ) where
  -- SQLColAttribute of the type's name succeeds also where the name is cut and an error is recorded.
  sql_col_attribute-type_name :
      (m : Memory)
      → (sql_col_attribute attr len str_len numeric t s (suc i) type_name m).end ≡ returned success
  unfolding sql_col_attribute attribute answered
  sql_col_attribute-type_name m = rw (set_rs, refuses_column-never (suc i) rs, found) refl
