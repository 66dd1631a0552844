-- ===== src/MetadataView/Names/RoundTrip.antt =====
-- project/driver/src/MetadataView.cpp: that the name of an SQL table leads back to what it names.
use ez_rets.Base.{
  ◌≡◌, refl, false, [], ◌∷◌, ◌++◌, none, some, if◌then◌else◌, Text, codes, has, is_empty,
}
use ez_rets.Librets.{MetadataClass, MetadataResource}
use ez_rets.MetadataView.{MetadataView, get_resource, get_class}
use ez_rets.MetadataView.Names.{
  get_pair_by_sql_table, make_sql_data_table_name, make_sql_object_table_name, get_sql_object_table,
  ObjectTableType, location, binary, type_word,
}
use ez_rets.Platform.{Platform}

-- boost::split of a text with two separators and three parts that hold none.
abbrev pub SplitsThree : Platform → Type 0
SplitsThree p =
    (a b c : Text)
    → has b':' a ≡ false
    → has b':' b ≡ false
    → has b':' c ≡ false
    → p.split (a ++ b':' ∷ (b ++ b':' ∷ c)) b':' ≡ a ∷ b ∷ c ∷ []

module _ (p : Platform) (splits : SplitsThree p) (v : MetadataView) (res : MetadataResource) where
  -- The name of a class's table, as the driver lists it, leads back to the resource and the class,
  -- with standard names and with system names. Both are known under their names, which are not
  -- empty and hold no colon; the library's split is at each colon.
  pub get_pair_by_sql_table-make :
      (clazz : MetadataClass) (res_text class_text : Text)
      → res_text ≡ (if v.standard_names then res.standard_name else res.resource_id)
      → class_text ≡ (if v.standard_names then clazz.standard_name else clazz.class_name)
      → is_empty res_text ≡ false
      → is_empty class_text ≡ false
      → has b':' res_text ≡ false
      → has b':' class_text ≡ false
      → get_resource v res_text ≡ some res
      → get_class v res_text class_text ≡ some clazz
      → get_pair_by_sql_table p v (make_sql_data_table_name v res clazz) ≡ some (res, clazz)
  unfolding get_pair_by_sql_table make_sql_data_table_name has
  get_pair_by_sql_table-make clazz rt ct re ce rn cn rf cf gr gc =
      rw (← re, ← ce, rn, cn, splits (codes "data") rt ct refl rf cf) (rw (rn, gr, gc))

  split_name :
      (type : ObjectTableType)
      → has b':' res.resource_id ≡ false
      → p.split (codes "object:" ++ (type_word type ++ (codes ":" ++ res.resource_id))) b':'
        ≡ codes "object" ∷ type_word type ∷ res.resource_id ∷ []
  unfolding has
  split_name location free =
      splits (codes "object") (codes "location") res.resource_id refl refl free
  split_name binary free = splits (codes "object") (codes "binary") res.resource_id refl refl free

  -- The name of a resource's object table is looked up by the resource's system name also where
  -- the view knows resources by their standard names: the lookup goes through a null pointer
  -- exactly when the view knows no resource by that name.
  pub get_sql_object_table-make :
      (type : ObjectTableType)
      → is_empty res.resource_id ≡ false
      → has b':' res.resource_id ≡ false
      → ((get_resource v res.resource_id ≡ none)
          → get_sql_object_table p v (make_sql_object_table_name res type) ≡ none)
        × ((found : MetadataResource)
            → get_resource v res.resource_id ≡ some found
            → (description : Text) × (get_sql_object_table p v (make_sql_object_table_name res type)
                ≡ some ((make_sql_object_table_name res type, description) ∷ [])))
  unfolding get_sql_object_table make_sql_object_table_name has
  get_sql_object_table-make type ne free = (lost, listed)
    where
      lost :
          get_resource v res.resource_id ≡ none
          → get_sql_object_table p v (make_sql_object_table_name res type) ≡ none
      lost h = rw (ne) (rw (split_name type free) (rw (ne, h)))

      listed :
          (found : MetadataResource)
          → get_resource v res.resource_id ≡ some found
          → (description : Text) × (get_sql_object_table p v (make_sql_object_table_name res type)
              ≡ some ((make_sql_object_table_name res type, description) ∷ []))
      listed found h = rw (ne) (rw (split_name type free) (rw (ne, h) (_, refl)))
