-- ===== src/Catalogue/Widths.antt =====
-- project/driver/src: that the rows of the catalogue queries fit the columns of their result sets.
use ez_rets.Base.{
  ℕ, ◌≡◌, refl, Bool, true, false, ◌||◌, List, [], ◌∷◌, ◌++◌, map, Option, none, some, ◌==◌, ltb,
  if◌then◌else◌, Bool-cases, inl, inr, Text, ℤ, All, All-append, length, is_empty, has,
}
use ez_rets.Catalogue.{Sorting, Source, Executed}
use ez_rets.Catalogue.Columns.{
  column_columns, column_row, named_row, add_rows, process_column, process_columns, process_pair,
  process_pairs, pairs_of, processed, list_columns, sql_columns, Progress, name_less,
}
use ez_rets.Catalogue.Keys.{
  key_columns, key_row, key_answer, key_of_pair, primary_keys, special_columns_columns, special_row,
  special_columns, statistics, statistics_columns,
}
use ez_rets.Catalogue.Tables.{
  table_columns, table_row, listed, list_tables, sql_tables, all_tables, tables_named,
  asks_for_catalogs, asks_for_types, rules_out, unless_all,
}
use ez_rets.Catalogue.Types.{type_columns, type_rows, type_info, TypeInfo, wanted, supported_types}
use ez_rets.Librets.{MetadataTable}
use ez_rets.MetadataView.{MetadataView, get_key_field_table, get_table, get_tables_for_class}
use ez_rets.MetadataView.Names.{
  ResourceClassPair, TableMetadata, get_pair_by_sql_table, make_sql_data_table_name,
}
use ez_rets.Platform.{Platform}

-- Every row has as many fields as the result set has columns.
abbrev pub Fit : List (Text × ℤ) → List (List Text) → Type 0
Fit columns rows = All (λ row. length row ≡ length columns) rows

Fit-tables : (ts : List TableMetadata) → Fit table_columns (map table_row ts)
Fit-tables [] = tt
Fit-tables ((name, description) ∷ ts) = (refl, Fit-tables ts)

listed-Fit : (s : Source) (r : Option (List TableMetadata)) → Fit table_columns (listed s r).rows
listed-Fit s none = tt
listed-Fit s (some ts) = Fit-tables ts

if-Fit :
    (columns : List (Text × ℤ)) (b : Bool) (x y : Executed)
    → Fit columns x.rows
    → Fit columns y.rows
    → Fit columns (if b then x else y).rows
if-Fit columns true x y h k = h
if-Fit columns false x y h k = k

-- The rows so far, where the query did not go through a null pointer.
FitSoFar : Progress → Type 0
FitSoFar (v, none) = Unit
FitSoFar (v, some rows) = Fit column_columns rows

if-FitSoFar :
    (v : MetadataView) (b : Bool) (x y : Option (List (List Text)))
    → FitSoFar (v, x)
    → FitSoFar (v, y)
    → FitSoFar (v, if b then x else y)
if-FitSoFar v true x y h k = h
if-FitSoFar v false x y h k = k

module _ (p : Platform) (l : Sorting) (s : Source) where
  list_tables-Fit :
      (catalog schema table table_type : Text)
      → Fit table_columns (list_tables p l s catalog schema table table_type).rows
  unfolding list_tables
  list_tables-Fit catalog schema table table_type =
      if-Fit table_columns (asks_for_catalogs catalog schema table) _ _ (refl, tt)
        (if-Fit table_columns (asks_for_types catalog schema table table_type) _ _ (refl, tt)
          (if-Fit table_columns (rules_out l s catalog schema table_type) _ _ tt (
            if-Fit table_columns (has b'%' table) _ _ tt (
              if-Fit table_columns (is_empty table) _ _ (Fit-tables (all_tables s))
                (listed-Fit s (tables_named p s table))))))

  key_answer-Fit :
      (columns : List (Text × ℤ)) (row : MetadataTable → List Text)
      (r : MetadataView × Option MetadataTable)
      → ((t : MetadataTable) → length (row t) ≡ length columns)
      → Fit columns (key_answer row r).rows
  key_answer-Fit columns row (v, none) h = tt
  key_answer-Fit columns row (v, some t) h = (h t, tt)

  key_of_pair-Fit :
      (columns : List (Text × ℤ)) (row : MetadataTable → List Text) (r : Option ResourceClassPair)
      → ((t : MetadataTable) → length (row t) ≡ length columns)
      → Fit columns (key_of_pair s row r).rows
  unfolding key_of_pair
  key_of_pair-Fit columns row none h = tt
  key_of_pair-Fit columns row (some (res, clazz)) h =
      key_answer-Fit columns row (get_key_field_table s.view clazz res.key_field) h

  special_columns-Fit :
      (identifier_type : ℕ) (table : Text) (scope nullable : ℕ)
      → Fit special_columns_columns (special_columns p s identifier_type table scope nullable).rows
  unfolding special_columns special_row
  special_columns-Fit identifier_type table scope nullable =
      if-Fit special_columns_columns (nullable == 0 || (ltb 0 scope || identifier_type == 2)) _ _ tt
        (key_of_pair-Fit special_columns_columns (special_row p s)
          (get_pair_by_sql_table p s.view table) (λ t. refl))

  primary_keys-Fit : (table : Text) → Fit key_columns (primary_keys p s table).rows
  unfolding primary_keys
  primary_keys-Fit table =
      key_of_pair-Fit key_columns (key_row s table) (get_pair_by_sql_table p s.view table)
        (λ t. refl)

  type_rows-Fit : (data_type : ℤ) (is : List TypeInfo) → Fit type_columns (type_rows p data_type is)
  unfolding type_rows
  type_rows-Fit data_type [] = tt
  type_rows-Fit data_type (i ∷ is) = elim (Bool-cases (wanted p data_type i)) [
    | inl e ↦ rw (e) (refl, type_rows-Fit data_type is)
    | inr e ↦ rw (e) (type_rows-Fit data_type is)
  ]

  type_info-Fit : (data_type : ℤ) → Fit type_columns (type_info p s data_type).rows
  unfolding type_info
  type_info-Fit data_type =
      let fit = type_rows-Fit data_type (supported_types p) in
      if-Fit type_columns (is_empty (type_rows p data_type (supported_types p))) _ _ fit fit

  named_row-FitSoFar :
      (v : MetadataView) (name : Text) (t : Option MetadataTable) (rows : List (List Text))
      → Fit column_columns rows
      → FitSoFar (v, named_row p l s name t rows)
  unfolding named_row FitSoFar column_row
  named_row-FitSoFar v name none rows h = tt
  named_row-FitSoFar v name (some t) rows h =
      let more : Fit column_columns (rows ++ (column_row p l s name t ∷ [])) =
        All-append (λ row. length row ≡ length column_columns) rows (column_row p l s name t ∷ []) h
          (refl, tt) in
      if-FitSoFar v s.data_source.standard_names _ _
        (if-FitSoFar v (is_empty t.standard_name) _ _ h more) more

  add_rows-FitSoFar :
      (v : MetadataView) (name : Text) (t : Option MetadataTable) (rows : Option (List (List Text)))
      → FitSoFar (v, rows)
      → FitSoFar (v, add_rows p l s name t rows)
  unfolding add_rows FitSoFar
  add_rows-FitSoFar v name t none h = h
  add_rows-FitSoFar v name t (some rows) h = named_row-FitSoFar v name t rows h

  -- A change of the view leaves the rows.
  FitSoFar-view :
      (v w : MetadataView) (rows : Option (List (List Text)))
      → FitSoFar (v, rows)
      → FitSoFar (w, rows)
  unfolding FitSoFar
  FitSoFar-view v w none h = tt
  FitSoFar-view v w (some rows) h = h

  if-progress :
      (b : Bool) (x y : Progress) → FitSoFar x → FitSoFar y → FitSoFar (if b then x else y)
  if-progress true x y h k = h
  if-progress false x y h k = k

  process_column-FitSoFar :
      (pair : ResourceClassPair) (t : Option MetadataTable) (pr : Progress)
      → FitSoFar pr
      → FitSoFar (process_column p l s pair t pr)
  unfolding process_column
  process_column-FitSoFar (res, clazz) t (v, rows) h =
      let name = make_sql_data_table_name v res clazz in
      if-progress (is_empty name) (v, rows) (v, add_rows p l s name t rows) h
        (add_rows-FitSoFar v name t rows h)

  process_columns-FitSoFar :
      (pair : ResourceClassPair) (ts : List MetadataTable) (pr : Progress)
      → FitSoFar pr
      → FitSoFar (process_columns p l s pair ts pr)
  unfolding process_columns
  process_columns-FitSoFar pair [] pr h = h
  process_columns-FitSoFar pair (t ∷ ts) pr h =
      process_columns-FitSoFar pair ts (process_column p l s pair (some t) pr)
        (process_column-FitSoFar pair (some t) pr h)

  process_pair-FitSoFar :
      (column : Text) (pair : ResourceClassPair) (pr : Progress)
      → FitSoFar pr
      → FitSoFar (process_pair p l s column pair pr)
  unfolding process_pair
  process_pair-FitSoFar column pair (v, rows) h =
      let (w, tables) = get_tables_for_class v pair.1 in
      let (u, t) = get_table v pair.1 column in
      if-progress (is_empty column)
        (process_columns p l s pair (l.sort (name_less l s) tables) (w, rows))
        (process_column p l s pair t (u, rows))
        (process_columns-FitSoFar pair (l.sort (name_less l s) tables) (w, rows)
          (FitSoFar-view v w rows h))
        (process_column-FitSoFar pair t (u, rows) (FitSoFar-view v u rows h))

  process_pairs-FitSoFar :
      (column : Text) (pairs : List ResourceClassPair) (pr : Progress)
      → FitSoFar pr
      → FitSoFar (process_pairs p l s column pairs pr)
  unfolding process_pairs
  process_pairs-FitSoFar column [] pr h = h
  process_pairs-FitSoFar column (pair ∷ pairs) pr h =
      process_pairs-FitSoFar column pairs (process_pair p l s column pair pr)
        (process_pair-FitSoFar column pair pr h)

  processed-Fit : (pr : Progress) → FitSoFar pr → Fit column_columns (processed p l s pr).rows
  unfolding FitSoFar
  processed-Fit (v, none) h = tt
  processed-Fit (v, some rows) h = h

  list_columns-Fit :
      (table column : Text) → Fit column_columns (list_columns p l s table column).rows
  unfolding list_columns FitSoFar
  list_columns-Fit table column = if-Fit column_columns (has b'%' table) _ _ tt (
      if-Fit column_columns (has b'%' column) _ _ tt (
        processed-Fit (process_pairs p l s column (pairs_of p l s table) (s.view, some []))
          (process_pairs-FitSoFar column (pairs_of p l s table) (s.view, some []) tt)))

  -- Whatever the metadata, the data source and the arguments: every row of SQLTables, SQLColumns,
  -- SQLPrimaryKeys, SQLSpecialColumns, SQLStatistics and SQLGetTypeInfo has as many fields as the
  -- result set of the query has columns.
  pub sql_tables-Fit :
      (catalog schema table table_type column : Text) (data_type : ℤ)
      (identifier_type scope nullable : ℕ)
      → Fit table_columns (sql_tables p l s catalog schema table table_type).rows
        × (Fit column_columns (sql_columns p l s table column).rows
            × (Fit key_columns (primary_keys p s table).rows
                × (Fit special_columns_columns
                      (special_columns p s identifier_type table scope nullable).rows
                    × (Fit statistics_columns (statistics s).rows
                        × Fit type_columns (type_info p s data_type).rows))))
  unfolding sql_tables sql_columns statistics
  sql_tables-Fit catalog schema table table_type column data_type identifier_type scope nullable = (
    list_tables-Fit catalog schema (unless_all table) table_type,
    (
      list_columns-Fit (unless_all table) (unless_all column),
      (
        primary_keys-Fit table,
        (special_columns-Fit identifier_type table scope nullable, (tt, type_info-Fit data_type)),
      ),
    ),
  )
