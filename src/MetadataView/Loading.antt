-- ===== src/MetadataView/Loading.antt =====
-- project/driver/src/MetadataView.cpp: that the tables of a class, loaded when they are first asked
-- for, are those of the server's metadata ever after.
use ez_rets.Base.{
  ◌≡◌, refl, ap, ◌∙◌, ◌⊎◌, inl, inr, Bool, true, false, List, [], ◌∷◌, some, ◌==◌, ==_iff, ==-refl,
  if◌then◌else◌, Bool-cases,
}
use ez_rets.Librets.{MetadataTable, MetadataClass, MetadataResource, RetsMetadata}
use ez_rets.Map.{get, get-put}
use ez_rets.MetadataView.{
  MetadataView, create, init_resources, init_classes_of, init_classes, are_tables_for_class_inited,
  init_tables, init_tables_for_class, loaded, or_false, or_nil, get_tables_for_class,
}

-- The parts of a view that loading goes by.
record SameCache (v w : MetadataView) : Type 0 where
  pub metadata : v.metadata ≡ w.metadata
  pub inited : v.tables_init_map ≡ w.tables_init_map
  pub lists : v.table_list_by_class ≡ w.table_list_by_class

init_tables-SameCache :
    (c : MetadataClass) (ts : List MetadataTable) (v : MetadataView)
    → SameCache (init_tables c ts v) v
unfolding init_tables
init_tables-SameCache c [] v = record { metadata = refl; inited = refl; lists = refl }
init_tables-SameCache c (t ∷ ts) v =
    let ih = init_tables-SameCache c ts _ in
    record { metadata = ih.metadata; inited = ih.inited; lists = ih.lists }

init_resources-SameCache :
    (rs : List MetadataResource) (v : MetadataView) → SameCache (init_resources rs v) v
unfolding init_resources
init_resources-SameCache [] v = record { metadata = refl; inited = refl; lists = refl }
init_resources-SameCache (r ∷ rs) v =
    let ih = init_resources-SameCache rs _ in
    record { metadata = ih.metadata; inited = ih.inited; lists = ih.lists }

init_classes_of-SameCache :
    (r : MetadataResource) (cs : List MetadataClass) (v : MetadataView)
    → SameCache (init_classes_of r cs v) v
unfolding init_classes_of
init_classes_of-SameCache r [] v = record { metadata = refl; inited = refl; lists = refl }
init_classes_of-SameCache r (c ∷ cs) v =
    let ih = init_classes_of-SameCache r cs _ in
    record { metadata = ih.metadata; inited = ih.inited; lists = ih.lists }

init_classes-SameCache :
    (rs : List MetadataResource) (v : MetadataView) → SameCache (init_classes rs v) v
unfolding init_classes
init_classes-SameCache [] v = record { metadata = refl; inited = refl; lists = refl }
init_classes-SameCache (r ∷ rs) v =
    let ih =
      init_classes-SameCache rs (init_classes_of r (v.metadata.get_all_classes r.resource_id) v) in
    let one = init_classes_of-SameCache r (v.metadata.get_all_classes r.resource_id) v in
    record {
      metadata = ih.metadata ∙ one.metadata;
      inited = ih.inited ∙ one.inited;
      lists = ih.lists ∙ one.lists;
    }

-- Each class that counts as loaded has its list of tables.
record IsCached (md : RetsMetadata) (v : MetadataView) : Type 0 where
  pub metadata : v.metadata ≡ md
  pub lists :
      (c : MetadataClass)
      → (are_tables_for_class_inited v c ≡ false)
        ⊎ (get ◌==◌ c.address v.table_list_by_class ≡ some (md.get_all_tables c))

-- The view after the tables of each of these classes have been asked for.
unfoldable pub after_loads : MetadataView → List MetadataClass → MetadataView
unfolding get_tables_for_class
after_loads v [] = v
after_loads v (c ∷ cs) = after_loads (get_tables_for_class v c).0 cs

module _ (md : RetsMetadata)
    (by_address : (c d : MetadataClass)
      → c.address ≡ d.address
      → md.get_all_tables c ≡ md.get_all_tables d) where
  create-IsCached : (std : Bool) → IsCached md (create std md)
  unfolding create are_tables_for_class_inited get
  create-IsCached std =
      let fresh : MetadataView = record {
        standard_names = std;
        metadata = md;
        resource_by_sys_name = [];
        resource_by_std_name = [];
        class_sys_map = [];
        class_std_map = [];
        table_sys_map = [];
        table_std_map = [];
        tables_init_map = [];
        table_list_by_class = [];
      } in
      let resources = init_resources-SameCache md.get_all_resources fresh in
      let classes =
        init_classes-SameCache md.get_all_resources (init_resources md.get_all_resources fresh) in
      record {
        metadata = classes.metadata ∙ resources.metadata;
        lists = λ c.
            inl (ap (λ l. or_false (get ◌==◌ c.address l)) (classes.inited ∙ resources.inited));
      }

  inited-init :
      (v : MetadataView) (c d : MetadataClass)
      → get ◌==◌ d.address (init_tables_for_class v c).tables_init_map
        ≡ (if c.address == d.address then some true else get ◌==◌ d.address v.tables_init_map)
  unfolding init_tables_for_class
  inited-init v c d =
      get-put ◌==◌ ==_iff c.address d.address true _
      ∙ ap (λ l. if c.address == d.address then some true else get ◌==◌ d.address l)
          (init_tables-SameCache c (v.metadata.get_all_tables c) v).inited

  lists-init :
      (v : MetadataView) (c d : MetadataClass)
      → get ◌==◌ d.address (init_tables_for_class v c).table_list_by_class ≡ (
          if c.address == d.address
          then some (v.metadata.get_all_tables c)
          else get ◌==◌ d.address v.table_list_by_class)
  unfolding init_tables_for_class
  lists-init v c d =
      get-put ◌==◌ ==_iff c.address d.address (v.metadata.get_all_tables c) _
      ∙ ap
          (λ l.
            if c.address == d.address
            then some (v.metadata.get_all_tables c)
            else get ◌==◌ d.address l)
          (init_tables-SameCache c (v.metadata.get_all_tables c) v).lists

  metadata-init :
      (v : MetadataView) (c : MetadataClass) → (init_tables_for_class v c).metadata ≡ v.metadata
  unfolding init_tables_for_class
  metadata-init v c = (init_tables-SameCache c (v.metadata.get_all_tables c) v).metadata

  init-IsCached :
      (v : MetadataView) (c : MetadataClass)
      → IsCached md v
      → IsCached md (init_tables_for_class v c)
  unfolding are_tables_for_class_inited
  init-IsCached v c ok = record {
    metadata = metadata-init v c ∙ ok.metadata;
    lists = λ d. elim (Bool-cases (c.address == d.address)) [
      | inl same ↦ inr (
          lists-init v c d
          ∙ rw (same, ok.metadata) (ap some (by_address c d ((==_iff _ _).0 same))))
      | inr other ↦ elim (ok.lists d) [
        | inl no_list ↦ inl (rw (inited-init v c d, other) no_list)
        | inr list ↦ inr (lists-init v c d ∙ rw other list)
      ]
    ];
  }

  loaded-IsCached :
      (v : MetadataView) (c : MetadataClass) → IsCached md v → IsCached md (loaded v c)
  unfolding loaded
  loaded-IsCached v c ok = elim (Bool-cases (are_tables_for_class_inited v c)) [
    | inl e ↦ rw e ok
    | inr e ↦ rw e (init-IsCached v c ok)
  ]

  list-loaded :
      (v : MetadataView) (c : MetadataClass)
      → IsCached md v
      → get ◌==◌ c.address (loaded v c).table_list_by_class ≡ some (md.get_all_tables c)
  unfolding loaded
  list-loaded v c ok = elim (Bool-cases (are_tables_for_class_inited v c)) [
    | inl e ↦ rw e (elim (ok.lists c) [ inl n ↦ absurd (cc) | inr list ↦ list ])
    | inr e ↦ rw e (lists-init v c c ∙ rw (==-refl c.address, ok.metadata))
  ]

  after_loads-IsCached :
      (v : MetadataView) (cs : List MetadataClass) → IsCached md v → IsCached md (after_loads v cs)
  unfolding after_loads get_tables_for_class
  after_loads-IsCached v [] ok = ok
  after_loads-IsCached v (c ∷ cs) ok = after_loads-IsCached (loaded v c) cs (loaded-IsCached v c ok)

  -- A new view gives all tables of a class that the server's metadata lists, whatever classes it
  -- was asked for before, this one included, and in whatever order: loading on demand is not seen.
  -- Classes that the driver takes for one, by their address, have the same tables.
  pub get_tables_for_class-all :
      (std : Bool) (before : List MetadataClass) (c : MetadataClass)
      → (get_tables_for_class (after_loads (create std md) before) c).1 ≡ md.get_all_tables c
  unfolding get_tables_for_class
  get_tables_for_class-all std before c =
      ap or_nil (list-loaded _ c (after_loads-IsCached _ before (create-IsCached std)))
