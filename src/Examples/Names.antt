-- ===== src/Examples/Names.antt =====
-- The names of tables.
use ez_rets.Base.{◌≡◌, refl, true, [], ◌∷◌, none, some, Text, codes, has, text_eq}
use ez_rets.Examples.Data.{plain, houses, property, residential, split_on-three}
use ez_rets.Librets.{MetadataResource}
use ez_rets.Map.{put, get}
use ez_rets.MetadataView.{create, get_resource, get_class}
use ez_rets.MetadataView.Names.{
  get_pair_by_sql_table, make_sql_data_table_name, make_sql_object_table_name, get_sql_object_table,
  location,
}
use ez_rets.MetadataView.Names.RoundTrip.{get_pair_by_sql_table-make, get_sql_object_table-make}

get_pair_by_sql_table-make_example :
    get_pair_by_sql_table plain
      (create true houses)
      (make_sql_data_table_name (create true houses) property residential)
    ≡ some (property, residential)
unfolding create get_resource get_class has get put text_eq
get_pair_by_sql_table-make_example =
    get_pair_by_sql_table-make plain (split_on-three b':') (create true houses) property residential
      (codes "Property") (codes "ResidentialProperty") refl refl refl refl refl refl refl refl

get_sql_object_table-make_example :
    ((get_resource (create true houses) property.resource_id ≡ none)
      → get_sql_object_table plain
          (create true houses)
          (make_sql_object_table_name property location)
        ≡ none)
    × ((found : MetadataResource)
        → get_resource (create true houses) property.resource_id ≡ some found
        → (description : Text) × (get_sql_object_table plain
              (create true houses)
              (make_sql_object_table_name property location)
            ≡ some ((make_sql_object_table_name property location, description) ∷ [])))
unfolding has
get_sql_object_table-make_example =
    get_sql_object_table-make plain (split_on-three b':') (create true houses) property location
      refl refl
