-- ===== src/Catalogue/Columns.antt =====
-- project/driver/src/ColumnMetadataQuery.cpp: SQLColumns.
use ez_rets.Base.{
  Bool, true, false, ◌||◌, List, [], ◌∷◌, ◌++◌, Option, none, some, ltb, ◌==◌, if◌then◌else◌, Text,
  ℤ, pos, codes, eqb_ℤ, is_empty, has, text_eq, take,
}
use ez_rets.Catalogue.{Sorting, Source, Executed, failed, translator_of}
use ez_rets.Catalogue.Keys.{column_name}
use ez_rets.Catalogue.Tables.{unless_all}
use ez_rets.Column.{
  ColumnKind, rets, get_data_type, get_maximum_length, get_precision, int_of_sqllen,
}
use ez_rets.Librets.{MetadataTable}
use ez_rets.MetadataView.{MetadataView, get_table, get_tables_for_class}
use ez_rets.MetadataView.Names.{
  ResourceClassPair, get_resource_class_pairs, get_pair_by_sql_table, make_sql_data_table_name,
}
use ez_rets.Odbc.{
  sql_varchar, sql_char, sql_smallint, sql_integer, sql_decimal, sql_double, sql_type_date,
  sql_type_time, success,
}
use ez_rets.Platform.{Platform}
use ez_rets.Translation.Translator.{translator_type_name, translator_type_length}

-- ColumnMetadataQuery::prepareResultSet
abbrev pub column_columns : List (Text × ℤ)
column_columns =
    (codes "TABLE_CAT", sql_varchar)
    ∷ (codes "TABLE_SCHEM", sql_varchar)
    ∷ (codes "TABLE_NAME", sql_varchar)
    ∷ (codes "COLUMN_NAME", sql_varchar)
    ∷ (codes "DATA_TYPE", sql_smallint)
    ∷ (codes "TYPE_NAME", sql_varchar)
    ∷ (codes "COLUMN_SIZE", sql_integer)
    ∷ (codes "BUFFER_LENGTH", sql_integer)
    ∷ (codes "DECIMAL_DIGITS", sql_smallint)
    ∷ (codes "NUM_PREC_RADIX", sql_smallint)
    ∷ (codes "NULLABLE", sql_smallint)
    ∷ (codes "REMARKS", sql_varchar)
    ∷ (codes "COLUMN_DEF", sql_varchar)
    ∷ (codes "SQL_DATA_TYPE", sql_smallint)
    ∷ (codes "SQL_DATETIME_SUB", sql_smallint)
    ∷ (codes "CHAR_OCTET_LENGTH", sql_integer)
    ∷ (codes "ORDINAL_POSITION", sql_integer)
    ∷ (codes "IS_NULLABLE", sql_varchar)
    ∷ []

-- operator<(string, string)
abbrev pub text_less : Text → Text → Bool
text_less s [] = false
text_less [] (y ∷ ys) = true
text_less (x ∷ xs) (y ∷ ys) =
    let rest = text_less xs ys in if ltb x y then true else if x == y then rest else false

-- TableNameSorter::operator()
abbrev pub name_less : Sorting → Source → MetadataTable → MetadataTable → Bool
name_less l s left right =
    text_less (l.to_upper (column_name s left)) (l.to_upper (column_name s right))

-- What a query has at a time: the view, and the rows, `none` once it went through a null pointer.
abbrev pub Progress : Type 0
Progress = MetadataView × Option (List (List Text))

module _ (p : Platform) (l : Sorting) (s : Source) where
  abbrev kind_of : MetadataTable → ColumnKind
  kind_of t = rets t s.data_source.use_compact_format

  abbrev length_text : MetadataTable → Text
  unfolding get_maximum_length
  length_text t =
      p.print_int
        (int_of_sqllen (pos (get_maximum_length (translator_of s.data_source) (kind_of t))))

  abbrev size_text : ℤ → MetadataTable → Text
  unfolding length_text translator_type_length
  size_text type t =
      if eqb_ℤ type sql_varchar || eqb_ℤ type sql_char
      then length_text t
      else p.print_int (translator_type_length (translator_of s.data_source) type)

  -- SQL_DATETIME is 9; the third type that the source compares with is SQL_TIMESTAMP_LEN, 19.
  abbrev data_type_text : ℤ → Text
  data_type_text type =
      if eqb_ℤ type sql_type_date || (eqb_ℤ type sql_type_time || eqb_ℤ type (pos 19))
      then p.print_int (pos 9)
      else p.print_int type

  -- The row that processColumn adds; SQL_NULLABLE is 1.
  unfoldable pub column_row : Text → MetadataTable → List Text
  unfolding length_text size_text get_data_type get_precision translator_type_name translator_of
  column_row sql_table_name t =
      let type : ℤ = get_data_type (translator_of s.data_source) (kind_of t) in
      []
      ∷ []
      ∷ sql_table_name
      ∷ column_name s t
      ∷ p.print_int type
      ∷ translator_type_name (translator_of s.data_source) type
      ∷ length_text t
      ∷ size_text type t
      ∷ p.print_int (pos (get_precision (translator_of s.data_source) (kind_of t)))
      ∷ (if eqb_ℤ type sql_decimal || eqb_ℤ type sql_double then codes "10" else [])
      ∷ p.print_int (pos 1)
      ∷ t.long_name
      ∷ []
      ∷ data_type_text type
      ∷ []
      ∷ (if eqb_ℤ type sql_char then length_text t else [])
      ∷ codes "1"
      ∷ codes "YES"
      ∷ []

  -- The part of processColumn after the name of the table.
  unfoldable pub named_row :
      Text → Option MetadataTable → List (List Text) → Option (List (List Text))
  unfolding column_row
  named_row name none rows = none
  named_row name (some t) rows =
      if s.data_source.standard_names
      then if is_empty t.standard_name then some rows else some (rows ++ (column_row name t ∷ []))
      else some (rows ++ (column_row name t ∷ []))

  unfoldable pub add_rows :
      Text → Option MetadataTable → Option (List (List Text)) → Option (List (List Text))
  unfolding named_row
  add_rows name t none = none
  add_rows name t (some rows) = named_row name t rows

  -- ColumnMetadataQuery::processColumn
  unfoldable pub process_column : ResourceClassPair → Option MetadataTable → Progress → Progress
  unfolding add_rows make_sql_data_table_name
  process_column (res, clazz) t (v, rows) =
      let name = make_sql_data_table_name v res clazz in
      if is_empty name then (v, rows) else (v, add_rows name t rows)

  unfoldable pub process_columns : ResourceClassPair → List MetadataTable → Progress → Progress
  unfolding process_column
  process_columns pair [] pr = pr
  process_columns pair (t ∷ ts) pr = process_columns pair ts (process_column pair (some t) pr)

  -- The body of the loop over the pairs.
  unfoldable pub process_pair : Text → ResourceClassPair → Progress → Progress
  unfolding process_columns process_column get_tables_for_class get_table
  process_pair column pair (v, rows) =
      if is_empty column
      then (let (v', tables) = get_tables_for_class v pair.1 in
          process_columns pair (l.sort (name_less l s) tables) (v', rows))
      else let (v', t) = get_table v pair.1 column in process_column pair t (v', rows)

  unfoldable pub process_pairs : Text → List ResourceClassPair → Progress → Progress
  unfolding process_pair
  process_pairs column [] pr = pr
  process_pairs column (pair ∷ pairs) pr = process_pairs column pairs (process_pair column pair pr)

  abbrev pair_list : Option ResourceClassPair → List ResourceClassPair
  pair_list none = []
  pair_list (some pair) = pair ∷ []

  -- The classes that the query is about.
  unfoldable pub pairs_of : Text → List ResourceClassPair
  unfolding text_eq get_pair_by_sql_table get_resource_class_pairs
  pairs_of table =
      if is_empty table
      then get_resource_class_pairs s.view
      else if text_eq (take 5 table) (codes "data:")
      then pair_list (get_pair_by_sql_table p s.view table)
      else []

  abbrev pub processed : Progress → Executed
  processed (v, none) = record { rows = []; errors = []; view = v; result = none }
  processed (v, some rows) = record { rows = rows; errors = []; view = v; result = some success }

  -- ColumnMetadataQuery::execute
  unfoldable pub list_columns : Text → Text → Executed
  unfolding process_pairs pairs_of has
  list_columns table column =
      if has b'%' table
      then failed s (codes "HYC00") (codes "Search pattern for table names not (yet) supported")
      else if has b'%' column
      then failed s (codes "HYC00") (codes "Search pattern for column names not (yet) supported")
      else processed (process_pairs column (pairs_of table) (s.view, some []))

  -- ColumnMetadataQuery
  unfoldable pub sql_columns : Text → Text → Executed
  unfolding list_columns unless_all
  sql_columns table column = list_columns (unless_all table) (unless_all column)
