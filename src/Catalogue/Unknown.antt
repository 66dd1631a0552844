-- ===== src/Catalogue/Unknown.antt =====
-- project/driver/src/ColumnMetadataQuery.cpp: SQLColumns of a column that the table does not have.
use ez_rets.Base.{
  ◌≡◌, inl, inr, ap, ◌∙◌, Bool-cases, text_eq_iff, true, false, List, [], ◌∷◌, none, some, Text,
  codes, is_empty, has, take, text_eq,
}
use ez_rets.Catalogue.{Sorting, Source}
use ez_rets.Catalogue.Columns.{
  sql_columns, list_columns, pairs_of, process_pairs, process_pair, process_column, add_rows,
  named_row, processed,
}
use ez_rets.Catalogue.Tables.{unless_all}
use ez_rets.Librets.{MetadataClass, MetadataResource}
use ez_rets.MetadataView.{MetadataView, get_table}
use ez_rets.MetadataView.Names.{get_pair_by_sql_table, make_sql_data_table_name}
use ez_rets.Platform.{Platform}

unless_all-not_percent : (t : Text) → has b'%' t ≡ false → unless_all t ≡ t
unfolding unless_all has
unless_all-not_percent t h = elim (Bool-cases (text_eq t (codes "%"))) [
  | inl e ↦ let same = (text_eq_iff t (codes "%")).0 e in absurd (holds_one (rw (same) at h))
  | inr e ↦ rw (e)
]
  where
    holds_one : ¬ (true ≡ false)
    holds_one q = cc

module _ (p : Platform) (l : Sorting) (s : Source) (res : MetadataResource) (clazz : MetadataClass)
    (w : MetadataView) where
  pairs_of-data :
      (table : Text)
      → is_empty table ≡ false
      → text_eq (take 5 table) (codes "data:") ≡ true
      → get_pair_by_sql_table p s.view table ≡ some (res, clazz)
      → pairs_of p l s table ≡ (res, clazz) ∷ []
  unfolding pairs_of
  pairs_of-data table te td pair = rw (te, td, pair)

  process_column-absent :
      (rows : List (List Text))
      → is_empty (make_sql_data_table_name w res clazz) ≡ false
      → process_column p l s (res, clazz) none (w, some rows) ≡ (w, none)
  unfolding process_column add_rows named_row
  process_column-absent rows named = rw (named)

  process_pair-absent :
      (column : Text) (rows : List (List Text))
      → is_empty column ≡ false
      → get_table s.view clazz column ≡ (w, none)
      → is_empty (make_sql_data_table_name w res clazz) ≡ false
      → process_pair p l s column (res, clazz) (s.view, some rows) ≡ (w, none)
  unfolding process_pair
  process_pair-absent column rows ce absent named = rw (ce) (
      ap (λ r. process_column p l s (res, clazz) r.1 (r.0, some rows)) absent
      ∙ process_column-absent rows named)

  -- SQLColumns, asked for one column of the table of a class, goes through a null pointer where the
  -- class has no such column. The table and the column are named without a percent sign; the class
  -- has a name of its own.
  pub sql_columns-unknown :
      (table column : Text)
      → is_empty table ≡ false
      → is_empty column ≡ false
      → has b'%' table ≡ false
      → has b'%' column ≡ false
      → text_eq (take 5 table) (codes "data:") ≡ true
      → get_pair_by_sql_table p s.view table ≡ some (res, clazz)
      → get_table s.view clazz column ≡ (w, none)
      → is_empty (make_sql_data_table_name w res clazz) ≡ false
      → (sql_columns p l s table column).result ≡ none
  unfolding sql_columns list_columns process_pairs
  sql_columns-unknown table column te ce tp cp td pair absent named =
      rw (unless_all-not_percent table tp, unless_all-not_percent column cp, tp, cp)
        (rw (pairs_of-data table te td pair)
          (ap (λ pr. (processed p l s pr).result) (process_pair-absent column [] ce absent named)))
