-- ===== src/DataSource/Connection.antt =====
-- project/common/src/DataSource.cpp: the connection string, written and read.
pub mod RoundTrip
use ez_rets.Base.{
  Bool, true, false, not, List, [], ◌∷◌, ◌++◌, Option, none, some, ◌==◌, if◌then◌else◌, Text, codes,
  is_empty,
}
use ez_rets.DataSource.{DataSource}
use ez_rets.DataSource.Keys.{
  TextKey, FlagKey, Key, text_key, flag_key, ini_driver, ini_dsn, ini_login_url, ini_username,
  ini_password, ini_user_agent, ini_http_log_file, ini_debug_log_file, ini_rets_version,
  ini_user_agent_password, ini_user_agent_auth_type, ini_encoding_type, ini_proxy_url,
  ini_proxy_password, ini_standard_names, ini_use_http_get, ini_use_http_logging,
  ini_use_debug_logging, ini_use_bulk_metadata, ini_ignore_metadata_type, ini_use_compact_format,
  ini_disable_get_object_metadata, ini_enable_user_agent_auth, ini_treat_decimal_as_string,
  ini_use_proxy, ini_supports_query_star, ini_http_log_everything, key_text, text_of, flag_of,
  set_text, set_flag, value_of, assign, key_of, key_of-key_text, set_text-same, set_flag-same,
  has-key_text, has_equals-key_text,
}
use ez_rets.Platform.{Platform}

-- DataSource::AppendToConnectionString
unfoldable pub append_to_connection_string : Text → Text → Text → Text
append_to_connection_string connection_string name value =
    if is_empty value
    then connection_string
    else connection_string ++ (name ++ (b'=' ∷ (value ++ (b';' ∷ []))))

-- The conditions under which GetConnectionString appends a setting.
unfoldable pub is_told : DataSource → Key → Bool
is_told d (text_key ini_driver) = not (is_empty d.driver)
is_told d (text_key ini_user_agent_password) = d.enable_user_agent_auth
is_told d (text_key ini_user_agent_auth_type) = d.enable_user_agent_auth
is_told d (text_key ini_proxy_url) = d.use_proxy
is_told d (text_key ini_proxy_password) = d.use_proxy
is_told d (text_key ini_dsn) = true
is_told d (text_key ini_login_url) = true
is_told d (text_key ini_username) = true
is_told d (text_key ini_password) = true
is_told d (text_key ini_user_agent) = true
is_told d (text_key ini_http_log_file) = true
is_told d (text_key ini_debug_log_file) = true
is_told d (text_key ini_rets_version) = true
is_told d (text_key ini_encoding_type) = true
is_told d (flag_key ini_standard_names) = true
is_told d (flag_key ini_use_http_get) = d.use_http_get
is_told d (flag_key ini_use_http_logging) = d.use_http_logging
is_told d (flag_key ini_use_debug_logging) = d.use_debug_logging
is_told d (flag_key ini_use_bulk_metadata) = d.use_bulk_metadata
is_told d (flag_key ini_ignore_metadata_type) = d.ignore_metadata_type
is_told d (flag_key ini_use_compact_format) = d.use_compact_format
is_told d (flag_key ini_disable_get_object_metadata) = not d.disable_get_object_metadata
is_told d (flag_key ini_enable_user_agent_auth) = d.enable_user_agent_auth
is_told d (flag_key ini_treat_decimal_as_string) = d.treat_decimal_as_string
is_told d (flag_key ini_use_proxy) = d.use_proxy
is_told d (flag_key ini_supports_query_star) = d.supports_query_star
is_told d (flag_key ini_http_log_everything) = d.http_log_everything

-- The settings in the order in which GetConnectionString appends them.
abbrev pub connection_keys : List Key
connection_keys =
    text_key ini_driver
    ∷ text_key ini_dsn
    ∷ text_key ini_login_url
    ∷ text_key ini_username
    ∷ text_key ini_password
    ∷ flag_key ini_standard_names
    ∷ text_key ini_user_agent
    ∷ flag_key ini_use_http_get
    ∷ flag_key ini_use_http_logging
    ∷ text_key ini_http_log_file
    ∷ flag_key ini_use_debug_logging
    ∷ text_key ini_debug_log_file
    ∷ flag_key ini_use_bulk_metadata
    ∷ text_key ini_rets_version
    ∷ flag_key ini_ignore_metadata_type
    ∷ flag_key ini_use_compact_format
    ∷ flag_key ini_disable_get_object_metadata
    ∷ flag_key ini_enable_user_agent_auth
    ∷ text_key ini_user_agent_password
    ∷ text_key ini_user_agent_auth_type
    ∷ flag_key ini_treat_decimal_as_string
    ∷ text_key ini_encoding_type
    ∷ flag_key ini_use_proxy
    ∷ text_key ini_proxy_url
    ∷ text_key ini_proxy_password
    ∷ flag_key ini_supports_query_star
    ∷ flag_key ini_http_log_everything
    ∷ []

abbrev pub append_told : DataSource → Key → Text → Text
unfolding append_to_connection_string is_told value_of
append_told d k connection_string =
    if is_told d k
    then append_to_connection_string connection_string (key_text k) (value_of k d)
    else connection_string

abbrev pub append_all : DataSource → List Key → Text → Text
unfolding append_to_connection_string is_told value_of
append_all d [] connection_string = connection_string
append_all d (k ∷ ks) connection_string = append_all d ks (append_told d k connection_string)

-- DataSource::GetConnectionString
unfoldable pub get_connection_string : DataSource → Text
unfolding append_all
get_connection_string d = append_all d connection_keys []

-- The token before and after its first '='; the whole token, twice, where it has none, since find
-- gives npos, which is -1 as an int.
abbrev key_part : Text → Text
key_part [] = []
key_part (x ∷ xs) = let rest = key_part xs in if x == b'=' then [] else x ∷ rest

abbrev pub value_part : Text → Option Text
value_part [] = none
value_part (x ∷ xs) = let rest = value_part xs in if x == b'=' then some xs else rest

abbrev value_or : Text → Option Text → Text
value_or tok none = tok
value_or tok (some value) = value

unfoldable pub token_value : Text → Text
token_value tok = value_or tok (value_part tok)

unfoldable pub token_key : Text → Text
token_key tok = key_part tok

abbrev assign_known : Platform → DataSource → Text → Option Key → DataSource
unfolding assign
assign_known p d value none = d
assign_known p d value (some k) = assign p k value d

-- The body of the loop over the tokens.
unfoldable pub set_token : Platform → Text → DataSource → DataSource
unfolding assign_known key_of token_key token_value
set_token p tok d = assign_known p d (token_value tok) (key_of (token_key tok))

unfoldable pub set_tokens : Platform → List Text → DataSource → DataSource
unfolding set_token
set_tokens p [] d = d
set_tokens p (tok ∷ toks) d = set_tokens p toks (set_token p tok d)

-- DataSource::SetFromOdbcConnectionString
unfoldable pub set_from_odbc_connection_string : Platform → Text → DataSource → DataSource
unfolding set_tokens
set_from_odbc_connection_string p connection_string d =
    set_tokens p (p.split connection_string b';') d
