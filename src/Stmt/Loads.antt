-- ===== src/Stmt/Loads.antt =====
-- project/driver/src/RetsSTMT.cpp and MetadataView.cpp: proofs on what the calls of a statement make
-- of the view of the metadata.
use ez_rets.Base.{
  ◌≡◌, refl, sym, subst, ap, ◌∙◌, Bool, true, false, List, [], ◌∷◌, ◌++◌, Option, none, some,
  if◌then◌else◌, Text, has, is_empty, ℤ, ℕ, ◌==◌, ◌||◌, ltb, Bool-cases, inl, inr,
}
use ez_rets.Catalogue.{Sorting, Source, Executed}
use ez_rets.Catalogue.Columns.{
  Progress, process_column, process_columns, process_pair, process_pairs, list_columns, sql_columns,
  processed, pairs_of, name_less,
}
use ez_rets.Catalogue.Keys.{
  key_answer, key_of_pair, primary_keys, special_columns, special_row, key_row,
}
use ez_rets.Catalogue.Tables.{
  listed, list_tables, sql_tables, unless_all, asks_for_catalogs, asks_for_types, rules_out,
  all_tables, tables_named,
}
use ez_rets.Catalogue.Types.{type_info, type_rows, supported_types}
use ez_rets.Librets.{MetadataTable, MetadataClass}
use ez_rets.Map.{get}
use ez_rets.MetadataView.{
  MetadataView, key_eq, loaded, get_table_in, get_table, get_key_field_table, get_tables_for_class,
}
use ez_rets.MetadataView.Loading.{after_loads}
use ez_rets.MetadataView.Names.{ResourceClassPair, get_pair_by_sql_table, make_sql_data_table_name}
use ez_rets.Platform.{Platform}
use ez_rets.Query.{Selected, tables, missing, and_table, named_tables, selected}

-- The second view is the first after the tables of some classes have been asked for.
unfoldable pub Loads : MetadataView → MetadataView → Type 0
unfolding after_loads
Loads v w = (cs : List MetadataClass) × (w ≡ after_loads v cs)

pub Loads-refl : (v : MetadataView) → Loads v v
unfolding Loads after_loads
Loads-refl v = ([], refl)

pub after_loads-append :
    (v : MetadataView) (cs ds : List MetadataClass)
    → after_loads v (cs ++ ds) ≡ after_loads (after_loads v cs) ds
unfolding after_loads
after_loads-append v [] ds = refl
after_loads-append v (c ∷ cs) ds = after_loads-append (get_tables_for_class v c).0 cs ds

pub Loads-trans : (u v w : MetadataView) → Loads u v → Loads v w → Loads u w
unfolding Loads
Loads-trans u v w (cs, h) (ds, k) =
    (cs ++ ds, k ∙ (ap (λ x. after_loads x ds) h ∙ sym (after_loads-append u cs ds)))

pub Loads-loaded : (v : MetadataView) (c : MetadataClass) → Loads v (loaded v c)
unfolding Loads after_loads get_tables_for_class
Loads-loaded v c = (c ∷ [], refl)

pub either : {A : Type 0} (P : A → Type 0) (b : Bool) {x y : A} → P x → P y → P (if b then x else y)
either P true px py = px
either P false px py = py

and_table-view : (t : MetadataTable) (r : MetadataView × Selected) → (and_table t r).0 ≡ r.0
and_table-view t (v, tables ts) = refl
and_table-view t (v, missing name) = refl

pub named_tables-Loads :
    (clazz : MetadataClass) (names : List Text) (v : MetadataView)
    → Loads v (named_tables clazz names v).0
unfolding named_tables get_table get_table_in
named_tables-Loads clazz [] v = Loads-refl v
named_tables-Loads clazz (name ∷ rest) v =
    go
      (get key_eq (clazz.address, name)
        (if v.standard_names
          then (loaded v clazz).table_std_map
          else (loaded v clazz).table_sys_map))
      (named_tables-Loads clazz rest (loaded v clazz))
  where
    go :
        (found : Option MetadataTable)
        → Loads (loaded v clazz) (named_tables clazz rest (loaded v clazz)).0
        → Loads v
            (elim found as (λ x. MetadataView × Selected) [
              | none ↦ (loaded v clazz, missing name)
              | some t ↦ and_table t (named_tables clazz rest (loaded v clazz))
            ]).0
    go none later = Loads-loaded v clazz
    go (some t) later =
        subst (Loads v) (sym (and_table-view t (named_tables clazz rest (loaded v clazz))))
          (Loads-trans _ _ _ (Loads-loaded v clazz) later)

pub selected-Loads :
    (clazz : MetadataClass) (fields : Option (List Text)) (v : MetadataView)
    → Loads v (selected clazz fields v).0
unfolding selected get_tables_for_class
selected-Loads clazz none v = Loads-loaded v clazz
selected-Loads clazz (some []) v = Loads-loaded v clazz
selected-Loads clazz (some (name ∷ rest)) v = named_tables-Loads clazz (name ∷ rest) v

-- What execute of a query leaves of the view.
KeepsView : MetadataView → Executed → Type 0
KeepsView v e = e.view ≡ v

listed-KeepsView : (s : Source) (r : Option (List (Text × Text))) → KeepsView s.view (listed s r)
unfolding KeepsView
listed-KeepsView s none = refl
listed-KeepsView s (some ts) = refl

module _ (p : Platform) where
  pub sql_tables-view :
      (l : Sorting) (s : Source) (catalog schema table table_type : Text)
      → (sql_tables p l s catalog schema table table_type).view ≡ s.view
  unfolding sql_tables list_tables KeepsView
  sql_tables-view l s catalog schema table table_type =
      let t = unless_all table in
      either (KeepsView s.view) (asks_for_catalogs catalog schema t) refl (
        either (KeepsView s.view) (asks_for_types catalog schema t table_type) refl (
          either (KeepsView s.view) (rules_out l s catalog schema table_type) refl (
            either (KeepsView s.view) (has b'%' t) refl (
              either (KeepsView s.view) (is_empty t) (listed-KeepsView s (some (all_tables s)))
                (listed-KeepsView s (tables_named p s t))))))

  pub type_info-view : (s : Source) (data_type : ℤ) → (type_info p s data_type).view ≡ s.view
  unfolding type_info KeepsView
  type_info-view s data_type =
      either (KeepsView s.view) (is_empty (type_rows p data_type (supported_types p))) refl refl

  key_of_pair-Loads :
      (s : Source) (row : MetadataTable → List Text) (pair : Option ResourceClassPair)
      → Loads s.view (key_of_pair s row pair).view
  unfolding key_of_pair get_key_field_table get_table_in
  key_of_pair-Loads s row none = Loads-refl s.view
  key_of_pair-Loads s row (some (res, clazz)) =
      go (get key_eq (clazz.address, res.key_field) (loaded s.view clazz).table_sys_map)
    where
      go : (t : Option MetadataTable) → Loads s.view (key_answer row (loaded s.view clazz, t)).view
      go none = Loads-loaded s.view clazz
      go (some t) = Loads-loaded s.view clazz

  pub primary_keys-Loads : (s : Source) (table : Text) → Loads s.view (primary_keys p s table).view
  unfolding primary_keys
  primary_keys-Loads s table =
      key_of_pair-Loads s (key_row s table) (get_pair_by_sql_table p s.view table)

  pub special_columns-Loads :
      (s : Source) (identifier_type : ℕ) (table : Text) (scope nullable : ℕ)
      → Loads s.view (special_columns p s identifier_type table scope nullable).view
  unfolding special_columns
  special_columns-Loads s identifier_type table scope nullable =
      either (λ (e : Executed). Loads s.view e.view)
        (nullable == 0 || (ltb 0 scope || identifier_type == 2)) (Loads-refl s.view)
        (key_of_pair-Loads s (special_row p s) (get_pair_by_sql_table p s.view table))

  module _ (l : Sorting) (s : Source) where
    process_column-view :
        (pair : ResourceClassPair) (t : Option MetadataTable) (pr : Progress)
        → (process_column p l s pair t pr).0 ≡ pr.0
    unfolding process_column
    process_column-view (res, clazz) t (v, rows) =
        either (λ (r : Progress). r.0 ≡ v) (is_empty (make_sql_data_table_name v res clazz)) refl
          refl

    process_columns-view :
        (pair : ResourceClassPair) (ts : List MetadataTable) (pr : Progress)
        → (process_columns p l s pair ts pr).0 ≡ pr.0
    unfolding process_columns
    process_columns-view pair [] pr = refl
    process_columns-view pair (t ∷ ts) pr =
        process_columns-view pair ts (process_column p l s pair (some t) pr)
        ∙ process_column-view pair (some t) pr

    process_pair-Loads :
        (column : Text) (pair : ResourceClassPair) (pr : Progress)
        → Loads pr.0 (process_pair p l s column pair pr).0
    unfolding process_pair get_tables_for_class get_table get_table_in
    process_pair-Loads column pair (v, rows) = elim (Bool-cases (is_empty column)) [
      | inl e ↦ rw (e) (
          subst (Loads v)
            (sym (
              process_columns-view pair (l.sort (name_less l s) (get_tables_for_class v pair.1).1)
                (loaded v pair.1, rows)))
            (Loads-loaded v pair.1))
      | inr e ↦ rw (e) (
          subst (Loads v)
            (sym (process_column-view pair (get_table v pair.1 column).1 (loaded v pair.1, rows)))
            (Loads-loaded v pair.1))
    ]

    process_pairs-Loads :
        (column : Text) (pairs : List ResourceClassPair) (pr : Progress)
        → Loads pr.0 (process_pairs p l s column pairs pr).0
    unfolding process_pairs
    process_pairs-Loads column [] pr = Loads-refl pr.0
    process_pairs-Loads column (pair ∷ pairs) pr =
        Loads-trans _ _ _ (process_pair-Loads column pair pr)
          (process_pairs-Loads column pairs (process_pair p l s column pair pr))

    processed-view : (pr : Progress) → (processed p l s pr).view ≡ pr.0
    processed-view (v, none) = refl
    processed-view (v, some rows) = refl

    pub sql_columns-Loads :
        (table column : Text) → Loads s.view (sql_columns p l s table column).view
    unfolding sql_columns list_columns
    sql_columns-Loads table column =
        let t = unless_all table in
        let c = unless_all column in
        either (λ (e : Executed). Loads s.view e.view) (has b'%' t) (Loads-refl s.view)
          (either (λ (e : Executed). Loads s.view e.view) (has b'%' c) (Loads-refl s.view)
            (subst (Loads s.view)
              (sym (processed-view (process_pairs p l s c (pairs_of p l s t) (s.view, some []))))
              (process_pairs-Loads c (pairs_of p l s t) (s.view, some []))))
