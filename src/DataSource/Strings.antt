-- ===== src/DataSource/Strings.antt =====
-- project/common/src/DataSource.cpp: the texts that stand for librets' enumerations.
use ez_rets.Base.{◌≡◌, ◌≢◌, refl, ℤ, Text, codes, ◌++◌, text_eq, if◌then◌else◌}
use ez_rets.DataSource.{DataSource}
use ez_rets.Platform.{Platform}

-- The enumerations of librets, with the values the driver has no name for.
pub data RetsVersion : Type 0 where
  rets_1_0 rets_1_5 rets_1_7 rets_1_7_2 : RetsVersion
  other_version : ℤ → RetsVersion

pub data EncodingType : Type 0 where
  rets_xml_default_encoding rets_xml_iso_encoding rets_xml_utf8_encoding : EncodingType
  other_encoding : ℤ → EncodingType

pub data UserAgentAuthType : Type 0 where
  user_agent_auth_rets_1_7 user_agent_auth_interealty : UserAgentAuthType
  other_auth : ℤ → UserAgentAuthType

-- What a function returns, or the message of the EzRetsException that it throws.
pub data Result (A : Type 0) : Type 0 where
  ok : A → Result A
  thrown : Text → Result A

abbrev pub map_ok : {A B : Type 0} → (A → B) → Result A → Result B
map_ok f (ok a) = ok (f a)
map_ok f (thrown t) = thrown t

-- odbcrets::RetsVersionToString
unfoldable pub rets_version_to_string : Platform → RetsVersion → Result Text
rets_version_to_string p rets_1_0 = ok (codes "1.0")
rets_version_to_string p rets_1_5 = ok (codes "1.5")
rets_version_to_string p rets_1_7 = ok (codes "1.7")
rets_version_to_string p rets_1_7_2 = ok (codes "1.7.2")
rets_version_to_string p (other_version z) = thrown (codes "Invalid RetsVersion: " ++ p.print_int z)

-- odbcrets::StringToRetsVersion
unfoldable pub string_to_rets_version : Text → RetsVersion → RetsVersion
unfolding text_eq
string_to_rets_version t default_version =
    if text_eq t (codes "1.0")
    then rets_1_0
    else if text_eq t (codes "1.5")
    then rets_1_5
    else if text_eq t (codes "1.7")
    then rets_1_7
    else if text_eq t (codes "1.7.2")
    then rets_1_7_2
    else default_version

-- odbcrets::EncodingTypeToString
unfoldable pub encoding_type_to_string : Platform → EncodingType → Result Text
encoding_type_to_string p rets_xml_default_encoding = ok (codes "Default (US-ASCII) Encoding")
encoding_type_to_string p rets_xml_iso_encoding = ok (codes "Extended (iso-8859-1) Encoding")
encoding_type_to_string p rets_xml_utf8_encoding = ok (codes "UTF-8 Encoding")
encoding_type_to_string p (other_encoding z) =
    thrown (codes "Invalid Encoding Type: " ++ p.print_int z)

-- odbcrets::StringToEncodingType
unfoldable pub string_to_encoding_type : Text → EncodingType → EncodingType
unfolding text_eq
string_to_encoding_type t default_encoding =
    if text_eq t (codes "Default (US-ASCII) Encoding")
    then rets_xml_default_encoding
    else if text_eq t (codes "Extended (iso-8859-1) Encoding")
    then rets_xml_iso_encoding
    else if text_eq t (codes "UTF-8 Encoding")
    then rets_xml_utf8_encoding
    else default_encoding

-- odbcrets::UserAgentAuthTypeToString
unfoldable pub user_agent_auth_type_to_string : Platform → UserAgentAuthType → Result Text
user_agent_auth_type_to_string p user_agent_auth_rets_1_7 = ok (codes "RETS 1.7")
user_agent_auth_type_to_string p user_agent_auth_interealty = ok (codes "NON-STANDARD INTEREALTY")
user_agent_auth_type_to_string p (other_auth z) =
    thrown (codes "Invalid User Agent Auth Type: " ++ p.print_int z)

-- odbcrets::StringToUserAgentAuthType
unfoldable pub string_to_user_agent_auth_type : Text → UserAgentAuthType → UserAgentAuthType
unfolding text_eq
string_to_user_agent_auth_type t default_type =
    if text_eq t (codes "RETS 1.7")
    then user_agent_auth_rets_1_7
    else if text_eq t (codes "NON-STANDARD INTEREALTY")
    then user_agent_auth_interealty
    else default_type

-- DataSource::GetRetsVersion
unfoldable pub get_rets_version : DataSource → RetsVersion
unfolding string_to_rets_version
get_rets_version d = string_to_rets_version d.rets_version_string rets_1_5

-- DataSource::SetRetsVersion
unfoldable pub set_rets_version : Platform → RetsVersion → DataSource → Result DataSource
unfolding rets_version_to_string
set_rets_version p v d =
    map_ok (λ t. record d { rets_version_string = t }) (rets_version_to_string p v)

-- DataSource::GetUserAgentAuthType
unfoldable pub get_user_agent_auth_type : DataSource → UserAgentAuthType
unfolding string_to_user_agent_auth_type
get_user_agent_auth_type d =
    string_to_user_agent_auth_type d.user_agent_auth_type_string user_agent_auth_interealty

-- DataSource::SetUserAgentAuthType
unfoldable pub set_user_agent_auth_type :
    Platform → UserAgentAuthType → DataSource → Result DataSource
unfolding user_agent_auth_type_to_string
set_user_agent_auth_type p v d =
    map_ok (λ t. record d { user_agent_auth_type_string = t }) (user_agent_auth_type_to_string p v)

-- DataSource::GetEncodingType
unfoldable pub get_encoding_type : DataSource → EncodingType
unfolding string_to_encoding_type
get_encoding_type d = string_to_encoding_type d.encoding_type_string rets_xml_default_encoding

-- DataSource::SetEncodingType
unfoldable pub set_encoding_type : Platform → EncodingType → DataSource → Result DataSource
unfolding encoding_type_to_string
set_encoding_type p v d =
    map_ok (λ t. record d { encoding_type_string = t }) (encoding_type_to_string p v)

module _ (p : Platform) (d : DataSource) where
  get_rets_version-set :
      (v : RetsVersion)
      → ((z : ℤ) → v ≢ other_version z)
      → map_ok get_rets_version (set_rets_version p v d) ≡ ok v
  unfolding get_rets_version set_rets_version
  get_rets_version-set rets_1_0 h = refl
  get_rets_version-set rets_1_5 h = refl
  get_rets_version-set rets_1_7 h = refl
  get_rets_version-set rets_1_7_2 h = refl
  get_rets_version-set (other_version z) h = absurd (h z refl)

  get_encoding_type-set :
      (v : EncodingType)
      → ((z : ℤ) → v ≢ other_encoding z)
      → map_ok get_encoding_type (set_encoding_type p v d) ≡ ok v
  unfolding get_encoding_type set_encoding_type
  get_encoding_type-set rets_xml_default_encoding h = refl
  get_encoding_type-set rets_xml_iso_encoding h = refl
  get_encoding_type-set rets_xml_utf8_encoding h = refl
  get_encoding_type-set (other_encoding z) h = absurd (h z refl)

  get_user_agent_auth_type-set :
      (v : UserAgentAuthType)
      → ((z : ℤ) → v ≢ other_auth z)
      → map_ok get_user_agent_auth_type (set_user_agent_auth_type p v d) ≡ ok v
  unfolding get_user_agent_auth_type set_user_agent_auth_type
  get_user_agent_auth_type-set user_agent_auth_rets_1_7 h = refl
  get_user_agent_auth_type-set user_agent_auth_interealty h = refl
  get_user_agent_auth_type-set (other_auth z) h = absurd (h z refl)

  -- The version, the encoding and the User-Agent authorization that are set are those that are
  -- read back, where the value is one that the driver has a name for.
  pub get_settings-set :
      (v : RetsVersion) (e : EncodingType) (a : UserAgentAuthType)
      → ((z : ℤ) → v ≢ other_version z)
      → ((z : ℤ) → e ≢ other_encoding z)
      → ((z : ℤ) → a ≢ other_auth z)
      → (map_ok get_rets_version (set_rets_version p v d) ≡ ok v)
        × ((map_ok get_encoding_type (set_encoding_type p e d) ≡ ok e)
            × (map_ok get_user_agent_auth_type (set_user_agent_auth_type p a d) ≡ ok a))
  get_settings-set v e a hv he ha =
      (get_rets_version-set v hv, (get_encoding_type-set e he, get_user_agent_auth_type-set a ha))
