-- ===== src/MetadataView/Names.antt =====
-- project/driver/src/MetadataView.cpp: the names under which SQL clients see resources and classes,
-- and the values of lookups.
pub mod RoundTrip
use ez_rets.Base.{
  ℕ, Bool, true, false, ◌||◌, not, List, [], ◌∷◌, ◌++◌, map, Option, none, some, if◌then◌else◌,
  Text, codes, text_eq, is_empty, get_elem?,
}
use ez_rets.Librets.{MetadataTable, MetadataClass, MetadataResource, RetsMetadata}
use ez_rets.MetadataView.{MetadataView, get_resource, get_class, get_table_in, is_lookup_column}
use ez_rets.Platform.{Platform}

abbrev pub ResourceClassPair : Type 0
ResourceClassPair = MetadataResource × MetadataClass

-- A table as SQLTables lists it: its name and its description.
abbrev pub TableMetadata : Type 0
TableMetadata = Text × Text

-- MetadataView::getResourceClassPairs
unfoldable pub resource_class_pairs : RetsMetadata → List MetadataResource → List ResourceClassPair
resource_class_pairs md [] = []
resource_class_pairs md (res ∷ rest) =
    map (λ clazz. (res, clazz)) (md.get_all_classes res.resource_id) ++ resource_class_pairs md rest

unfoldable pub get_resource_class_pairs : MetadataView → List ResourceClassPair
unfolding resource_class_pairs
get_resource_class_pairs v = resource_class_pairs v.metadata v.metadata.get_all_resources

-- `parts.at(i)`, with the text left empty if it throws
abbrev pub at_or_empty : List Text → ℕ → Text
at_or_empty parts i = elim (get_elem? parts i) [ none ↦ [] | some t ↦ t ]

abbrev both : Option MetadataResource → Option MetadataClass → Option ResourceClassPair
both (some res) (some clazz) = some (res, clazz)
both _ _ = none

-- MetadataView::getResourceClassPairBySQLTable
unfoldable pub get_pair_by_sql_table : Platform → MetadataView → Text → Option ResourceClassPair
unfolding get_resource get_class
get_pair_by_sql_table p v table_name =
    let parts = p.split table_name b':' in
    let res_name = at_or_empty parts 1 in
    let class_name = at_or_empty parts 2 in
    if not (is_empty res_name) || not (is_empty class_name)
    then both (get_resource v res_name) (get_class v res_name class_name)
    else none

-- MetadataView::makeSQLDataTableName
unfoldable pub make_sql_data_table_name : MetadataView → MetadataResource → MetadataClass → Text
make_sql_data_table_name v res clazz =
    let res_name = if v.standard_names then res.standard_name else res.resource_id in
    let class_name = if v.standard_names then clazz.standard_name else clazz.class_name in
    if not (is_empty res_name || is_empty class_name)
    then codes "data:" ++ (res_name ++ (codes ":" ++ class_name))
    else []

-- MetadataView::ObjectTableType
pub data ObjectTableType : Type 0 where
  location binary : ObjectTableType

abbrev type_word : ObjectTableType → Text
type_word location = codes "location"
type_word binary = codes "binary"

-- MetadataView::makeSQLObjectTableName
unfoldable pub make_sql_object_table_name : MetadataResource → ObjectTableType → Text
make_sql_object_table_name res type =
    if not (is_empty res.resource_id)
    then codes "object:" ++ (type_word type ++ (codes ":" ++ res.resource_id))
    else []

-- The loop of MetadataView::getSQLDataTableMetadata()
unfoldable pub data_tables : MetadataView → List ResourceClassPair → List TableMetadata
unfolding make_sql_data_table_name
data_tables v [] = []
data_tables v ((res, clazz) ∷ rest) =
    let name = make_sql_data_table_name v res clazz in
    let listed = data_tables v rest in
    if is_empty name then listed else (name, clazz.description) ∷ listed

unfoldable pub get_sql_data_table_metadata : MetadataView → List TableMetadata
unfolding data_tables get_resource_class_pairs
get_sql_data_table_metadata v = data_tables v (get_resource_class_pairs v)

-- MetadataView::getSQLDataTableMetadata(name)
unfoldable pub get_sql_data_table : Platform → MetadataView → Text → List TableMetadata
unfolding get_pair_by_sql_table
get_sql_data_table p v name = elim (get_pair_by_sql_table p v name) [
  | none ↦ []
  | some (res, clazz) ↦ (name, clazz.description) ∷ []
]

abbrev object_description : MetadataResource → Text
object_description res =
    let start : Text = codes "GetObject table for Resource " ++ res.resource_id in
    if is_empty res.standard_name then start else start ++ (codes "/" ++ res.standard_name)

-- MetadataView::getSQLObjectTableMetadata()
unfoldable pub object_tables : List MetadataResource → List TableMetadata
unfolding make_sql_object_table_name
object_tables [] = []
object_tables (res ∷ rest) =
    (make_sql_object_table_name res location, object_description res)
    ∷ (make_sql_object_table_name res binary, object_description res)
    ∷ object_tables rest

abbrev object_listed : Text → Option MetadataResource → Option (List TableMetadata)
object_listed name none = none
object_listed name (some res) = some ((name, object_description res) ∷ [])

-- MetadataView::getSQLObjectTableMetadata(name); `none` is a call through a null resource pointer
unfoldable pub get_sql_object_table : Platform → MetadataView → Text → Option (List TableMetadata)
get_sql_object_table p v name =
    let res_name = at_or_empty (p.split name b':') 2 in
    if is_empty res_name then some [] else object_listed name (get_resource v res_name)

-- MetadataView::IsLookupColumn(table, column)
unfoldable pub is_lookup_column_by_name :
    Platform → MetadataView → Text → Text → MetadataView × Bool
unfolding get_pair_by_sql_table get_table_in is_lookup_column
is_lookup_column_by_name p v table_name column_name = elim (get_pair_by_sql_table p v table_name) [
  | none ↦ (v, false)
  | some (res, clazz) ↦
      let (v', table) = get_table_in v clazz column_name v.standard_names in
      (v', elim table [ none ↦ false | some t ↦ is_lookup_column t ])
]

-- MetadataView::getLookupTypeLongValue
unfoldable pub get_lookup_type_long_value : Platform → RetsMetadata → MetadataTable → Text → Text
unfolding is_lookup_column
get_lookup_type_long_value p md table value =
    if not (is_lookup_column table) || is_empty table.lookup_name
    then value
    else elim (md.get_lookup_type (at_or_empty (p.split table.level b':') 0) table.lookup_name
        value) [ none ↦ value | some long_value ↦ long_value ]
