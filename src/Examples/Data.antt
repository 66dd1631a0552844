-- ===== src/Examples/Data.antt =====
-- Data for the tests: a platform whose functions are simple ones of the same kind, an empty memory,
-- some metadata and a statement.
use ez_rets.Base.{
  ℕ, ◌+◌, ◌*◌, ◌-◌, ◌≡◌, refl, true, false, List, [], ◌∷◌, ◌++◌, none, some, arith, ◌==◌,
  if◌then◌else◌, Text, pos, codes, drop, has,
}
use ez_rets.Column.{Column, new_column, faux, rets}
use ez_rets.Librets.{MetadataTable, MetadataClass, MetadataResource, RetsMetadata, other}
use ez_rets.Memory.{Memory}
use ez_rets.Odbc.{sql_varchar}
use ez_rets.Platform.{Platform}
use ez_rets.ResultSet.{ResultSet}
use ez_rets.Stmt.{Stmt, new_stmt}
use ez_rets.Translation.Translator.{rets_character}

abbrev prepend : ℕ → List Text → List Text
prepend x [] = (x ∷ []) ∷ []
prepend x (t ∷ ts) = (x ∷ t) ∷ ts

unfoldable pub split_on : Text → ℕ → List Text
split_on [] c = [] ∷ []
split_on (x ∷ xs) c = let rest = split_on xs c in if x == c then [] ∷ rest else prepend x rest

split_on-last : (c : ℕ) (a : Text) → has c a ≡ false → split_on a c ≡ a ∷ []
unfolding split_on has
split_on-last c [] h = refl
split_on-last c (x ∷ a) h =
    let other : (x == c) ≡ false = ground arith in rw (split_on-last c a (ground arith), other)

pub split_on-append :
    (c : ℕ) (a rest : Text) → has c a ≡ false → split_on (a ++ c ∷ rest) c ≡ a ∷ split_on rest c
unfolding split_on has
split_on-append c [] rest h = ground arith
split_on-append c (x ∷ a) rest h =
    let other : (x == c) ≡ false = ground arith in
    rw (split_on-append c a rest (ground arith), other)

pub split_on-three :
    (c : ℕ) (x y z : Text)
    → has c x ≡ false
    → has c y ≡ false
    → has c z ≡ false
    → split_on (x ++ c ∷ (y ++ c ∷ z)) c ≡ x ∷ y ∷ z ∷ []
split_on-three c x y z hx hy hz =
    rw (split_on-append c x (y ++ c ∷ z) hx, split_on-append c y z hy, split_on-last c z hz)

-- The value of a text of decimal digits.
abbrev pub decimal_value : ℕ → Text → ℕ
decimal_value acc [] = acc
decimal_value acc (d ∷ ds) = decimal_value (acc * 10 + (d - b'0')) ds

abbrev without : Text → ℕ → Text
without [] c = []
without (x ∷ xs) c = let rest = without xs c in if x == c then rest else x ∷ rest

abbrev join_by : List Text → Text → Text
join_by [] sep = []
join_by (t ∷ []) sep = t
join_by (t ∷ ts) sep = t ++ (sep ++ join_by ts sep)

abbrev pub plain : Platform
plain = record {
  trim_copy = λ t. t;
  erase_head = λ t n. drop n t;
  erase_all = without;
  split = split_on;
  join = join_by;
  to_lower = λ t. t;
  lexical_cast_signed = λ bits t. some (pos (decimal_value 0 t));
  lexical_cast_unsigned = λ bits t. some (decimal_value 0 t);
  lexical_cast_double = λ t. none;
  lexical_cast_decimal = λ t. none;
  print_int = λ z. [];
  regex_search = λ r t. none;
  bad_lexical_cast_what = codes "bad lexical cast";
  bad_numeric_cast_what = codes "bad numeric cast";
  out_of_range_what = codes "vector";
}

abbrev pub blank : Memory
blank = record { bytes = λ a. 0; words = λ a. pos 0; fault = false }

abbrev pub residential : MetadataClass
residential = record {
  address = 2;
  class_name = codes "RES";
  standard_name = codes "ResidentialProperty";
  description = codes "Houses";
}

abbrev pub property : MetadataResource
property = record {
  address = 1;
  resource_id = codes "Property";
  standard_name = codes "Property";
  key_field = codes "LN";
}

abbrev pub street : MetadataTable
street = record {
  address = 3;
  system_name = codes "STR";
  standard_name = codes "StreetName";
  long_name = codes "Street";
  data_type = rets_character;
  interpretation = other;
  maximum_length = 20;
  precision = 0;
  searchable = true;
  use_separator = false;
  lookup_name = [];
  level = codes "Property:RES";
}

abbrev pub houses : RetsMetadata
houses = record {
  get_all_resources = property ∷ [];
  get_all_classes = λ id. residential ∷ [];
  get_all_tables = λ c. street ∷ [];
  get_lookup_type = λ resource name value. none;
  has_lookup = λ resource name. true;
  get_all_lookup_types = λ resource name. [];
}

-- Two columns, one of the program's and one of the server's.
abbrev pub two_columns : List Column
two_columns =
    new_column (codes "CAT") (faux sql_varchar 20)
    ∷ new_column (codes "STR") (rets street false)
    ∷ []

abbrev pub stmt_of : ResultSet → Stmt
stmt_of rs = record new_stmt { result_set = some rs }
