-- ===== src/Column.antt =====
-- project/driver/src/Column.cpp: a column of a result set, where the client has bound it, its type
-- and sizes, and how a value is prepared for the translator.
pub mod Moved
use ez_rets.Base.{
  ℕ, ◌+◌, ◌%◌, ◌-◌, ◌^◌, Bool, true, false, ◌&&◌, ◌||◌, not, List, [], ◌∷◌, ◌++◌, map, Option, none,
  some, ◌==◌, ltb, if◌then◌else◌, Text, ℤ, pos, negsuc, eqb_ℤ,
}
use ez_rets.Descriptors.{AppRowDesc, adjust_desc_pointer, get_data_ptr}
use ez_rets.Librets.{MetadataTable, RetsMetadata, Interpretation, lookup, lookup_multi, other}
use ez_rets.Memory.{Memory}
use ez_rets.MetadataView.{is_lookup_column}
use ez_rets.MetadataView.Names.{get_lookup_type_long_value}
use ez_rets.Odbc.{
  sql_c_default, sql_varchar, sql_decimal, sql_double, sql_type_date, sql_type_time,
  sql_type_timestamp, sql_date_len, sql_timestamp_len, size_of_sqllen,
}
use ez_rets.Odbc.{smallint_of_size}
use ez_rets.Platform.{Platform}
use ez_rets.Stream.{DataStreamInfo}
use ez_rets.Translation.{Outcome}
use ez_rets.Translation.Translator.{
  DataTranslator, DataType, rets_boolean, rets_character, rets_date, rets_date_time, rets_time,
  rets_tiny, rets_small, rets_int, rets_long, rets_decimal, get_prefered_odbc_type, translate,
}

-- FauxColumn and RetsColumn
pub data ColumnKind : Type 0 where
  faux : ℤ → ℕ → ColumnKind
  rets : MetadataTable → Bool → ColumnKind

pub record Column : Type 0 where
  pub name : Text
  pub kind : ColumnKind
  pub target_type : ℤ
  pub target_value : ℕ
  pub buffer_length : ℤ
  pub str_len_or_ind : ℕ
  pub bound : Bool

-- Column::Column; the pointers are not set, and not read before `bind`
abbrev pub new_column : Text → ColumnKind → Column
new_column name kind = record {
  name = name;
  kind = kind;
  target_type = negsuc 0;
  target_value = 0;
  buffer_length = pos 0;
  str_len_or_ind = 0;
  bound = false;
}

-- Column::bind
unfoldable pub bind : Column → ℤ → ℕ → ℤ → ℕ → Column
bind c target_type target_value buffer_length str_len_or_ind = record c {
  target_type = target_type;
  target_value = target_value;
  buffer_length = buffer_length;
  str_len_or_ind = str_len_or_ind;
  bound = true;
}

-- Column::unbind
unfoldable pub unbind : Column → Column
unbind c = record c {
  target_type = pos 0;
  target_value = 0;
  buffer_length = pos 0;
  str_len_or_ind = 0;
  bound = false;
}

-- Column::columnSizeHelper
unfoldable pub column_size_helper : ℤ → ℕ → ℕ
column_size_helper type length =
    if eqb_ℤ type sql_type_timestamp
    then sql_timestamp_len
    else if eqb_ℤ type sql_type_date
    then sql_date_len
    else if eqb_ℤ type sql_type_time
    then 92
    else length

-- RetsColumn::lookupSizeHelper
unfoldable pub lookup_size_helper : MetadataTable → ℕ
lookup_size_helper table = elim table.interpretation [
  | lookup ↦ 129
  | lookup_multi ↦ 2561
  | other ↦ 2561
]

-- The sizes that RetsColumn::getMaximumLength assumes where the metadata has none.
abbrev default_length : DataType → ℕ
default_length rets_character = 640
default_length rets_tiny = 32
default_length rets_small = 32
default_length rets_int = 32
default_length rets_long = 32
default_length rets_decimal = 32
default_length _ = 0

abbrev fixed_length : DataType → ℕ → ℕ
fixed_length rets_boolean length = 5
fixed_length rets_date length = 10
fixed_length rets_date_time length = 19
fixed_length rets_time length = 12
fixed_length type length = if length == 0 then default_length type else length

module _ (t : DataTranslator) where
  -- getDataType
  unfoldable pub get_data_type : ColumnKind → ℤ
  unfolding get_prefered_odbc_type is_lookup_column
  get_data_type (faux default_type max_length) = default_type
  get_data_type (rets table compact) =
      if is_lookup_column table then sql_varchar else get_prefered_odbc_type t table.data_type

  -- getMaximumLength
  unfoldable pub get_maximum_length : ColumnKind → ℕ
  unfolding lookup_size_helper is_lookup_column
  get_maximum_length (faux default_type max_length) = max_length
  get_maximum_length (rets table compact) =
      if not compact && is_lookup_column table
      then lookup_size_helper table
      else fixed_length table.data_type table.maximum_length

  -- getColumnSize
  unfoldable pub get_column_size : ColumnKind → ℕ
  unfolding column_size_helper lookup_size_helper is_lookup_column get_prefered_odbc_type
  get_column_size (faux default_type max_length) = column_size_helper default_type max_length
  get_column_size (rets table compact) =
      if not compact && is_lookup_column table
      then lookup_size_helper table
      else column_size_helper (get_prefered_odbc_type t table.data_type) table.maximum_length

  -- getDecimalDigits
  unfoldable pub get_decimal_digits : ColumnKind → ℤ
  get_decimal_digits (faux default_type max_length) = pos 0
  get_decimal_digits (rets table compact) = smallint_of_size table.precision

  -- getPrecision
  unfoldable pub get_precision : ColumnKind → ℕ
  unfolding get_prefered_odbc_type
  get_precision (faux default_type max_length) = 0
  get_precision (rets table compact) =
      let type = get_prefered_odbc_type t table.data_type in
      if eqb_ℤ type sql_decimal || eqb_ℤ type sql_double
      then table.precision
      else if eqb_ℤ type sql_type_timestamp
      then 3
      else 0

  -- getBestSqlType
  unfoldable pub get_best_sql_type : ColumnKind → ℤ → ℤ
  unfolding get_prefered_odbc_type
  get_best_sql_type (faux default_type max_length) target_type =
      if eqb_ℤ target_type (negsuc 0) || eqb_ℤ target_type sql_c_default
      then default_type
      else target_type
  get_best_sql_type (rets table compact) target_type =
      if eqb_ℤ target_type (negsuc 0) || eqb_ℤ target_type sql_c_default
      then get_prefered_odbc_type t table.data_type
      else target_type

-- isSearchable
unfoldable pub is_searchable : ColumnKind → Bool
is_searchable (faux default_type max_length) = false
is_searchable (rets table compact) = table.searchable

-- RetsColumn::lookupDecoder
unfoldable pub lookup_decoder : Platform → RetsMetadata → MetadataTable → Text → Text
unfolding get_lookup_type_long_value
lookup_decoder p md table text = elim table.interpretation [
  | lookup ↦ get_lookup_type_long_value p md table text
  | lookup_multi ↦
      p.join (map (get_lookup_type_long_value p md table) (p.split text b',')) (b',' ∷ [])
  | other ↦ p.join (map (get_lookup_type_long_value p md table) (p.split text b',')) (b',' ∷ [])
]

-- modifyData
unfoldable pub modify_data : Platform → RetsMetadata → ColumnKind → Text → Text
unfolding lookup_decoder is_lookup_column
modify_data p md (faux default_type max_length) text = text
modify_data p md (rets table compact) text =
    let decoded =
      if not compact && is_lookup_column table then lookup_decoder p md table text else text in
    if table.use_separator then p.erase_all decoded b',' else decoded

-- SQLLEN to SQLINTEGER
abbrev pub int_of_sqllen : ℤ → ℤ
int_of_sqllen z =
    let low = size_of_sqllen z % 2 ^ 32 in
    if ltb low (2 ^ 31) then pos low else negsuc (2 ^ 32 - 1 - low)

-- What a column reaches through its result set.
pub record Context : Type 0 where
  pub platform : Platform
  pub metadata : RetsMetadata
  pub translator : DataTranslator
  pub ard : AppRowDesc

-- Where Column::setData moves a pointer of the client: by the bind offset, unless the call comes
-- from SQLGetData, and by the data pointer of the descriptor.
unfoldable pub moved_pointer : AppRowDesc → ℕ → Option DataStreamInfo → Memory → ℕ → ℕ
unfolding adjust_desc_pointer get_data_ptr
moved_pointer ard col_no stream m ptr =
    let offset : ℕ = elim stream [
      | none ↦ adjust_desc_pointer m ard.bind_offset_ptr ptr
      | some s ↦ ptr
    ] in
    adjust_desc_pointer m (get_data_ptr ard (pos col_no)) offset

-- Column::setData with all its arguments; `col_no` counts from 0
unfoldable pub set_data :
    Context → Column → ℕ → Text → ℤ → ℕ → ℤ → ℕ → Option DataStreamInfo → Memory → Outcome
unfolding get_best_sql_type modify_data moved_pointer translate
set_data c col col_no text target_type target_value buffer_length str_len_or_ind stream m =
    translate c.platform (modify_data c.platform c.metadata col.kind text)
      (get_best_sql_type c.translator col.kind target_type)
      (moved_pointer c.ard col_no stream m target_value) (int_of_sqllen buffer_length)
      (moved_pointer c.ard col_no stream m str_len_or_ind) stream m c.translator

-- Column::setData for a bound column
unfoldable pub set_bound_data : Context → Column → ℕ → Text → Memory → Outcome
unfolding set_data
set_bound_data c col col_no text m =
    set_data c col col_no text col.target_type col.target_value col.buffer_length col.str_len_or_ind
      none m
