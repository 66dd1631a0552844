-- ===== src/MetadataView.antt =====
-- project/driver/src/MetadataView.cpp: the metadata by name, with the tables of a class loaded when
-- they are first asked for.
pub mod Names
pub mod Loading
use ez_rets.Base.{
  ℕ, Bool, true, false, ◌&&◌, ◌||◌, not, List, [], ◌∷◌, ◌++◌, Option, none, some, ◌==◌,
  if◌then◌else◌, Text, codes, text_eq, is_empty,
}
use ez_rets.Librets.{
  MetadataTable, MetadataClass, MetadataResource, RetsMetadata, Interpretation, lookup,
  lookup_multi, other,
}
use ez_rets.Map.{put, get}

-- ClassMapKey and TableMapKey: an object and a name
abbrev pub Key : Type 0
Key = ℕ × Text

abbrev pub key_eq : Key → Key → Bool
unfolding text_eq
key_eq (a, s) (b, t) = a == b && text_eq s t

pub record MetadataView : Type 0 where
  pub standard_names : Bool
  pub metadata : RetsMetadata
  pub resource_by_sys_name : List (Text × MetadataResource)
  pub resource_by_std_name : List (Text × MetadataResource)
  pub class_sys_map : List (Key × MetadataClass)
  pub class_std_map : List (Key × MetadataClass)
  pub table_sys_map : List (Key × MetadataTable)
  pub table_std_map : List (Key × MetadataTable)
  pub tables_init_map : List (ℕ × Bool)
  pub table_list_by_class : List (ℕ × List MetadataTable)

-- An entry for a name, unless the name is empty.
abbrev put_named {ℓ} : {V : Type ℓ} → Text → V → List (Text × V) → List (Text × V)
unfolding put text_eq
put_named name v m = if is_empty name then m else put text_eq name v m

abbrev put_keyed {ℓ} : {V : Type ℓ} → ℕ → Text → V → List (Key × V) → List (Key × V)
unfolding put text_eq
put_keyed owner name v m = if is_empty name then m else put key_eq (owner, name) v m

-- MetadataView::initResources
unfoldable pub init_resources : List MetadataResource → MetadataView → MetadataView
unfolding put text_eq
init_resources [] v = v
init_resources (res ∷ rest) v = init_resources rest (record v {
  resource_by_sys_name = put_named res.resource_id res v.resource_by_sys_name;
  resource_by_std_name = put_named res.standard_name res v.resource_by_std_name;
})

-- The inner loop of MetadataView::initClasses
unfoldable pub init_classes_of : MetadataResource → List MetadataClass → MetadataView → MetadataView
unfolding put text_eq
init_classes_of res [] v = v
init_classes_of res (clazz ∷ rest) v = init_classes_of res rest (record v {
  class_std_map = put_keyed res.address clazz.standard_name clazz v.class_std_map;
  class_sys_map = put_keyed res.address clazz.class_name clazz v.class_sys_map;
})

-- MetadataView::initClasses
unfoldable pub init_classes : List MetadataResource → MetadataView → MetadataView
unfolding init_classes_of
init_classes [] v = v
init_classes (res ∷ rest) v =
    init_classes rest (init_classes_of res (v.metadata.get_all_classes res.resource_id) v)

-- MetadataView::MetadataView
unfoldable pub create : Bool → RetsMetadata → MetadataView
unfolding init_resources init_classes
create standard_names metadata = init_classes metadata.get_all_resources (
    init_resources metadata.get_all_resources (record {
      standard_names = standard_names;
      metadata = metadata;
      resource_by_sys_name = [];
      resource_by_std_name = [];
      class_sys_map = [];
      class_std_map = [];
      table_sys_map = [];
      table_std_map = [];
      tables_init_map = [];
      table_list_by_class = [];
    }))

-- MetadataView::getResource
unfoldable pub get_resource : MetadataView → Text → Option MetadataResource
unfolding get text_eq
get_resource v name =
    if v.standard_names
    then get text_eq name v.resource_by_std_name
    else get text_eq name v.resource_by_sys_name

-- MetadataView::getClass
unfoldable pub get_class : MetadataView → Text → Text → Option MetadataClass
unfolding get_resource get text_eq
get_class v res_name class_name = elim (get_resource v res_name) [
  | none ↦ none
  | some res ↦
      if v.standard_names
      then get key_eq (res.address, class_name) v.class_std_map
      else get key_eq (res.address, class_name) v.class_sys_map
]

abbrev pub or_false : Option Bool → Bool
or_false none = false
or_false (some b) = b

abbrev pub or_nil : Option (List MetadataTable) → List MetadataTable
or_nil none = []
or_nil (some tables) = tables

-- MetadataView::areTablesForClassInited
unfoldable pub are_tables_for_class_inited : MetadataView → MetadataClass → Bool
unfolding get
are_tables_for_class_inited v clazz = or_false (get ◌==◌ clazz.address v.tables_init_map)

-- The loop of MetadataView::initTablesForClass
unfoldable pub init_tables : MetadataClass → List MetadataTable → MetadataView → MetadataView
unfolding put text_eq
init_tables clazz [] v = v
init_tables clazz (table ∷ rest) v = init_tables clazz rest (record v {
  table_std_map = put_keyed clazz.address table.standard_name table v.table_std_map;
  table_sys_map = put_keyed clazz.address table.system_name table v.table_sys_map;
})

-- MetadataView::initTablesForClass
unfoldable pub init_tables_for_class : MetadataView → MetadataClass → MetadataView
unfolding init_tables put
init_tables_for_class v clazz =
    let tables = v.metadata.get_all_tables clazz in
    let v' = init_tables clazz tables v in
    record v' {
      table_list_by_class = put ◌==◌ clazz.address tables v'.table_list_by_class;
      tables_init_map = put ◌==◌ clazz.address true v'.tables_init_map;
    }

unfoldable pub loaded : MetadataView → MetadataClass → MetadataView
unfolding are_tables_for_class_inited init_tables_for_class
loaded v clazz = if are_tables_for_class_inited v clazz then v else init_tables_for_class v clazz

-- MetadataView::getTable of a class that is there
unfoldable pub get_table_in :
    MetadataView → MetadataClass → Text → Bool → MetadataView × Option MetadataTable
unfolding loaded get
get_table_in v clazz name std_names =
    let v' = loaded v clazz in
    (
      v',
      get key_eq (clazz.address, name) (if std_names then v'.table_std_map else v'.table_sys_map),
    )

-- MetadataView::getTable(class, name)
unfoldable pub get_table : MetadataView → MetadataClass → Text → MetadataView × Option MetadataTable
unfolding get_table_in
get_table v clazz name = get_table_in v clazz name v.standard_names

-- MetadataView::getKeyFieldTable
unfoldable pub get_key_field_table :
    MetadataView → MetadataClass → Text → MetadataView × Option MetadataTable
unfolding get_table_in
get_key_field_table v clazz key_field = get_table_in v clazz key_field false

-- MetadataView::getTablesForClass
unfoldable pub get_tables_for_class :
    MetadataView → MetadataClass → MetadataView × List MetadataTable
unfolding loaded get
get_tables_for_class v clazz =
    let v' = loaded v clazz in (v', or_nil (get ◌==◌ clazz.address v'.table_list_by_class))

-- MetadataView::IsLookupColumn(table)
unfoldable pub is_lookup_column : MetadataTable → Bool
is_lookup_column table = elim table.interpretation [
  | lookup ↦ true
  | lookup_multi ↦ true
  | other ↦ false
]
