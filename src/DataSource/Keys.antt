-- ===== src/DataSource/Keys.antt =====
-- project/common/src/DataSource.cpp: the names of the settings, and the settings under their names.
use ez_rets.Base.{
  ◌≡◌, refl, Bool, false, List, [], ◌∷◌, Option, none, some, if◌then◌else◌, Text, codes, text_eq,
  has,
}
use ez_rets.DataSource.{DataSource, string_to_bool, bool_to_string}
use ez_rets.Platform.{Platform}

-- The settings that are texts, and those that are flags.
pub data TextKey : Type 0 where
  ini_driver ini_dsn ini_login_url ini_username ini_password ini_user_agent ini_http_log_file
        ini_debug_log_file ini_rets_version ini_user_agent_password ini_user_agent_auth_type
        ini_encoding_type ini_proxy_url ini_proxy_password :
      TextKey

pub data FlagKey : Type 0 where
  ini_standard_names ini_use_http_get ini_use_http_logging ini_use_debug_logging
        ini_use_bulk_metadata ini_ignore_metadata_type ini_use_compact_format
        ini_disable_get_object_metadata ini_enable_user_agent_auth ini_treat_decimal_as_string
        ini_use_proxy ini_supports_query_star ini_http_log_everything :
      FlagKey

pub data Key : Type 0 where
  text_key : TextKey → Key
  flag_key : FlagKey → Key

abbrev text_key_text : TextKey → Text
text_key_text ini_driver = codes "DRIVER"
text_key_text ini_dsn = codes "DSN"
text_key_text ini_login_url = codes "LoginUrl"
text_key_text ini_username = codes "UID"
text_key_text ini_password = codes "PWD"
text_key_text ini_user_agent = codes "UserAgent"
text_key_text ini_http_log_file = codes "HttpLogFile"
text_key_text ini_debug_log_file = codes "DebugLogFile"
text_key_text ini_rets_version = codes "RetsVersion"
text_key_text ini_user_agent_password = codes "UserAgentPassword"
text_key_text ini_user_agent_auth_type = codes "UserAgentAuthType"
text_key_text ini_encoding_type = codes "EncodingType"
text_key_text ini_proxy_url = codes "ProxyUrl"
text_key_text ini_proxy_password = codes "ProxyPassword"

abbrev flag_key_text : FlagKey → Text
flag_key_text ini_standard_names = codes "StandardNames"
flag_key_text ini_use_http_get = codes "UseHttpGet"
flag_key_text ini_use_http_logging = codes "UseHttpLogging"
flag_key_text ini_use_debug_logging = codes "UseDebugLogging"
flag_key_text ini_use_bulk_metadata = codes "UseBulkMetadata"
flag_key_text ini_ignore_metadata_type = codes "IgnoreMetadataType"
flag_key_text ini_use_compact_format = codes "UseCompactFormat"
flag_key_text ini_disable_get_object_metadata = codes "DisableGetObjectMetadata"
flag_key_text ini_enable_user_agent_auth = codes "EnableUserAgentAuth"
flag_key_text ini_treat_decimal_as_string = codes "TreatDecimalAsString"
flag_key_text ini_use_proxy = codes "UseProxy"
flag_key_text ini_supports_query_star = codes "SupportsQueryStar"
flag_key_text ini_http_log_everything = codes "HttpLogEverything"

-- The name of a setting.
abbrev pub key_text : Key → Text
key_text (text_key k) = text_key_text k
key_text (flag_key k) = flag_key_text k

unfoldable pub text_of : TextKey → DataSource → Text
text_of ini_driver d = d.driver
text_of ini_dsn d = d.name
text_of ini_login_url d = d.login_url
text_of ini_username d = d.username
text_of ini_password d = d.password
text_of ini_user_agent d = d.custom_user_agent
text_of ini_http_log_file d = d.http_log_file
text_of ini_debug_log_file d = d.debug_log_file
text_of ini_rets_version d = d.rets_version_string
text_of ini_user_agent_password d = d.user_agent_password
text_of ini_user_agent_auth_type d = d.user_agent_auth_type_string
text_of ini_encoding_type d = d.encoding_type_string
text_of ini_proxy_url d = d.proxy_url
text_of ini_proxy_password d = d.proxy_password

unfoldable pub flag_of : FlagKey → DataSource → Bool
flag_of ini_standard_names d = d.standard_names
flag_of ini_use_http_get d = d.use_http_get
flag_of ini_use_http_logging d = d.use_http_logging
flag_of ini_use_debug_logging d = d.use_debug_logging
flag_of ini_use_bulk_metadata d = d.use_bulk_metadata
flag_of ini_ignore_metadata_type d = d.ignore_metadata_type
flag_of ini_use_compact_format d = d.use_compact_format
flag_of ini_disable_get_object_metadata d = d.disable_get_object_metadata
flag_of ini_enable_user_agent_auth d = d.enable_user_agent_auth
flag_of ini_treat_decimal_as_string d = d.treat_decimal_as_string
flag_of ini_use_proxy d = d.use_proxy
flag_of ini_supports_query_star d = d.supports_query_star
flag_of ini_http_log_everything d = d.http_log_everything

unfoldable pub set_text : TextKey → Text → DataSource → DataSource
set_text ini_driver t d = record d { driver = t }
set_text ini_dsn t d = record d { name = t }
set_text ini_login_url t d = record d { login_url = t }
set_text ini_username t d = record d { username = t }
set_text ini_password t d = record d { password = t }
set_text ini_user_agent t d = record d { custom_user_agent = t }
set_text ini_http_log_file t d = record d { http_log_file = t }
set_text ini_debug_log_file t d = record d { debug_log_file = t }
set_text ini_rets_version t d = record d { rets_version_string = t }
set_text ini_user_agent_password t d = record d { user_agent_password = t }
set_text ini_user_agent_auth_type t d = record d { user_agent_auth_type_string = t }
set_text ini_encoding_type t d = record d { encoding_type_string = t }
set_text ini_proxy_url t d = record d { proxy_url = t }
set_text ini_proxy_password t d = record d { proxy_password = t }

unfoldable pub set_flag : FlagKey → Bool → DataSource → DataSource
set_flag ini_standard_names b d = record d { standard_names = b }
set_flag ini_use_http_get b d = record d { use_http_get = b }
set_flag ini_use_http_logging b d = record d { use_http_logging = b }
set_flag ini_use_debug_logging b d = record d { use_debug_logging = b }
set_flag ini_use_bulk_metadata b d = record d { use_bulk_metadata = b }
set_flag ini_ignore_metadata_type b d = record d { ignore_metadata_type = b }
set_flag ini_use_compact_format b d = record d { use_compact_format = b }
set_flag ini_disable_get_object_metadata b d = record d { disable_get_object_metadata = b }
set_flag ini_enable_user_agent_auth b d = record d { enable_user_agent_auth = b }
set_flag ini_treat_decimal_as_string b d = record d { treat_decimal_as_string = b }
set_flag ini_use_proxy b d = record d { use_proxy = b }
set_flag ini_supports_query_star b d = record d { supports_query_star = b }
set_flag ini_http_log_everything b d = record d { http_log_everything = b }

-- The text that stands for a setting.
unfoldable pub value_of : Key → DataSource → Text
unfolding text_of flag_of
value_of (text_key k) d = text_of k d
value_of (flag_key k) d = bool_to_string (flag_of k d)

-- A setting from a text.
unfoldable pub assign : Platform → Key → Text → DataSource → DataSource
unfolding set_text set_flag string_to_bool
assign p (text_key k) v d = set_text k v d
assign p (flag_key k) v d = set_flag k (string_to_bool p v) d

-- The names in the order in which SetFromOdbcConnectionString tries them.
abbrev all_keys : List Key
all_keys =
    text_key ini_dsn
    ∷ text_key ini_username
    ∷ text_key ini_password
    ∷ text_key ini_login_url
    ∷ flag_key ini_standard_names
    ∷ text_key ini_user_agent
    ∷ flag_key ini_use_http_get
    ∷ flag_key ini_use_http_logging
    ∷ text_key ini_http_log_file
    ∷ flag_key ini_use_debug_logging
    ∷ text_key ini_debug_log_file
    ∷ text_key ini_rets_version
    ∷ flag_key ini_use_bulk_metadata
    ∷ flag_key ini_ignore_metadata_type
    ∷ flag_key ini_use_compact_format
    ∷ flag_key ini_disable_get_object_metadata
    ∷ flag_key ini_enable_user_agent_auth
    ∷ text_key ini_user_agent_password
    ∷ text_key ini_user_agent_auth_type
    ∷ text_key ini_driver
    ∷ flag_key ini_treat_decimal_as_string
    ∷ text_key ini_encoding_type
    ∷ flag_key ini_use_proxy
    ∷ text_key ini_proxy_url
    ∷ text_key ini_proxy_password
    ∷ flag_key ini_supports_query_star
    ∷ flag_key ini_http_log_everything
    ∷ []

unfoldable pub find_key : Text → List Key → Option Key
unfolding text_eq
find_key t [] = none
find_key t (k ∷ ks) = let rest = find_key t ks in if text_eq t (key_text k) then some k else rest

unfoldable pub key_of : Text → Option Key
unfolding find_key
key_of t = find_key t all_keys

-- Each name is found, and no two settings share one.
pub key_of-key_text : (k : Key) → key_of (key_text k) ≡ some k
unfolding key_of
key_of-key_text (text_key ini_driver) = refl
key_of-key_text (text_key ini_dsn) = refl
key_of-key_text (text_key ini_login_url) = refl
key_of-key_text (text_key ini_username) = refl
key_of-key_text (text_key ini_password) = refl
key_of-key_text (text_key ini_user_agent) = refl
key_of-key_text (text_key ini_http_log_file) = refl
key_of-key_text (text_key ini_debug_log_file) = refl
key_of-key_text (text_key ini_rets_version) = refl
key_of-key_text (text_key ini_user_agent_password) = refl
key_of-key_text (text_key ini_user_agent_auth_type) = refl
key_of-key_text (text_key ini_encoding_type) = refl
key_of-key_text (text_key ini_proxy_url) = refl
key_of-key_text (text_key ini_proxy_password) = refl
key_of-key_text (flag_key ini_standard_names) = refl
key_of-key_text (flag_key ini_use_http_get) = refl
key_of-key_text (flag_key ini_use_http_logging) = refl
key_of-key_text (flag_key ini_use_debug_logging) = refl
key_of-key_text (flag_key ini_use_bulk_metadata) = refl
key_of-key_text (flag_key ini_ignore_metadata_type) = refl
key_of-key_text (flag_key ini_use_compact_format) = refl
key_of-key_text (flag_key ini_disable_get_object_metadata) = refl
key_of-key_text (flag_key ini_enable_user_agent_auth) = refl
key_of-key_text (flag_key ini_treat_decimal_as_string) = refl
key_of-key_text (flag_key ini_use_proxy) = refl
key_of-key_text (flag_key ini_supports_query_star) = refl
key_of-key_text (flag_key ini_http_log_everything) = refl

pub set_text-same : (k : TextKey) (d : DataSource) → set_text k (text_of k d) d ≡ d
unfolding set_text text_of
set_text-same ini_driver d = refl
set_text-same ini_dsn d = refl
set_text-same ini_login_url d = refl
set_text-same ini_username d = refl
set_text-same ini_password d = refl
set_text-same ini_user_agent d = refl
set_text-same ini_http_log_file d = refl
set_text-same ini_debug_log_file d = refl
set_text-same ini_rets_version d = refl
set_text-same ini_user_agent_password d = refl
set_text-same ini_user_agent_auth_type d = refl
set_text-same ini_encoding_type d = refl
set_text-same ini_proxy_url d = refl
set_text-same ini_proxy_password d = refl

pub set_flag-same : (k : FlagKey) (d : DataSource) → set_flag k (flag_of k d) d ≡ d
unfolding set_flag flag_of
set_flag-same ini_standard_names d = refl
set_flag-same ini_use_http_get d = refl
set_flag-same ini_use_http_logging d = refl
set_flag-same ini_use_debug_logging d = refl
set_flag-same ini_use_bulk_metadata d = refl
set_flag-same ini_ignore_metadata_type d = refl
set_flag-same ini_use_compact_format d = refl
set_flag-same ini_disable_get_object_metadata d = refl
set_flag-same ini_enable_user_agent_auth d = refl
set_flag-same ini_treat_decimal_as_string d = refl
set_flag-same ini_use_proxy d = refl
set_flag-same ini_supports_query_star d = refl
set_flag-same ini_http_log_everything d = refl

-- No name holds a separator.
pub has-key_text : (k : Key) → has b';' (key_text k) ≡ false
unfolding has
has-key_text (text_key ini_driver) = refl
has-key_text (text_key ini_dsn) = refl
has-key_text (text_key ini_login_url) = refl
has-key_text (text_key ini_username) = refl
has-key_text (text_key ini_password) = refl
has-key_text (text_key ini_user_agent) = refl
has-key_text (text_key ini_http_log_file) = refl
has-key_text (text_key ini_debug_log_file) = refl
has-key_text (text_key ini_rets_version) = refl
has-key_text (text_key ini_user_agent_password) = refl
has-key_text (text_key ini_user_agent_auth_type) = refl
has-key_text (text_key ini_encoding_type) = refl
has-key_text (text_key ini_proxy_url) = refl
has-key_text (text_key ini_proxy_password) = refl
has-key_text (flag_key ini_standard_names) = refl
has-key_text (flag_key ini_use_http_get) = refl
has-key_text (flag_key ini_use_http_logging) = refl
has-key_text (flag_key ini_use_debug_logging) = refl
has-key_text (flag_key ini_use_bulk_metadata) = refl
has-key_text (flag_key ini_ignore_metadata_type) = refl
has-key_text (flag_key ini_use_compact_format) = refl
has-key_text (flag_key ini_disable_get_object_metadata) = refl
has-key_text (flag_key ini_enable_user_agent_auth) = refl
has-key_text (flag_key ini_treat_decimal_as_string) = refl
has-key_text (flag_key ini_use_proxy) = refl
has-key_text (flag_key ini_supports_query_star) = refl
has-key_text (flag_key ini_http_log_everything) = refl

pub has_equals-key_text : (k : Key) → has b'=' (key_text k) ≡ false
unfolding has
has_equals-key_text (text_key ini_driver) = refl
has_equals-key_text (text_key ini_dsn) = refl
has_equals-key_text (text_key ini_login_url) = refl
has_equals-key_text (text_key ini_username) = refl
has_equals-key_text (text_key ini_password) = refl
has_equals-key_text (text_key ini_user_agent) = refl
has_equals-key_text (text_key ini_http_log_file) = refl
has_equals-key_text (text_key ini_debug_log_file) = refl
has_equals-key_text (text_key ini_rets_version) = refl
has_equals-key_text (text_key ini_user_agent_password) = refl
has_equals-key_text (text_key ini_user_agent_auth_type) = refl
has_equals-key_text (text_key ini_encoding_type) = refl
has_equals-key_text (text_key ini_proxy_url) = refl
has_equals-key_text (text_key ini_proxy_password) = refl
has_equals-key_text (flag_key ini_standard_names) = refl
has_equals-key_text (flag_key ini_use_http_get) = refl
has_equals-key_text (flag_key ini_use_http_logging) = refl
has_equals-key_text (flag_key ini_use_debug_logging) = refl
has_equals-key_text (flag_key ini_use_bulk_metadata) = refl
has_equals-key_text (flag_key ini_ignore_metadata_type) = refl
has_equals-key_text (flag_key ini_use_compact_format) = refl
has_equals-key_text (flag_key ini_disable_get_object_metadata) = refl
has_equals-key_text (flag_key ini_enable_user_agent_auth) = refl
has_equals-key_text (flag_key ini_treat_decimal_as_string) = refl
has_equals-key_text (flag_key ini_use_proxy) = refl
has_equals-key_text (flag_key ini_supports_query_star) = refl
has_equals-key_text (flag_key ini_http_log_everything) = refl
