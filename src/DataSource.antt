-- ===== src/DataSource.antt =====
-- project/common/src/DataSource.cpp: the settings of a data source, and the tests on them.
pub mod Keys
pub mod Strings
pub mod Connection
pub mod Ini
pub mod Session
use ez_rets.Base.{Bool, true, false, ◌&&◌, not, [], if◌then◌else◌, Text, codes, text_eq, is_empty}
use ez_rets.Platform.{Platform}

pub record DataSource : Type 0 where
  pub name : Text
  pub login_url : Text
  pub username : Text
  pub password : Text
  pub standard_names : Bool
  pub custom_user_agent : Text
  pub use_http_get : Bool
  pub use_http_logging : Bool
  pub http_log_file : Text
  pub use_debug_logging : Bool
  pub debug_log_file : Text
  pub rets_version_string : Text
  pub use_bulk_metadata : Bool
  pub driver : Text
  pub ignore_metadata_type : Bool
  pub use_compact_format : Bool
  pub disable_get_object_metadata : Bool
  pub enable_user_agent_auth : Bool
  pub user_agent_password : Text
  pub user_agent_auth_type_string : Text
  pub treat_decimal_as_string : Bool
  pub encoding_type_string : Text
  pub use_proxy : Bool
  pub proxy_url : Text
  pub proxy_password : Text
  pub supports_query_star : Bool
  pub http_log_everything : Bool

-- DataSource::DataSource and DataSource::init
abbrev pub new_data_source : DataSource
new_data_source = record {
  name = [];
  login_url = [];
  username = [];
  password = [];
  standard_names = false;
  custom_user_agent = [];
  use_http_get = false;
  use_http_logging = false;
  http_log_file = [];
  use_debug_logging = false;
  debug_log_file = [];
  rets_version_string = [];
  use_bulk_metadata = false;
  driver = [];
  ignore_metadata_type = false;
  use_compact_format = false;
  disable_get_object_metadata = true;
  enable_user_agent_auth = false;
  user_agent_password = [];
  user_agent_auth_type_string = [];
  treat_decimal_as_string = false;
  encoding_type_string = [];
  use_proxy = false;
  proxy_url = [];
  proxy_password = [];
  supports_query_star = false;
  http_log_everything = false;
}

-- DataSource::DataSource(string)
abbrev pub named : Text → DataSource
named name = record new_data_source { name = name }

-- DataSource::stringToBool
unfoldable pub string_to_bool : Platform → Text → Bool
unfolding text_eq
string_to_bool p t = text_eq (p.to_lower t) (codes "true")

-- DataSource::boolToString
abbrev pub bool_to_string : Bool → Text
bool_to_string b = if b then codes "true" else codes "false"

-- DataSource::IsComplete
unfoldable pub is_complete : DataSource → Bool
is_complete d =
    not (is_empty d.login_url) && (not (is_empty d.username) && not (is_empty d.password))

-- DataSource::GetUserAgent; the default agent holds the version of librets
unfoldable pub get_user_agent : Text → DataSource → Text
get_user_agent default_user_agent d =
    if is_empty d.custom_user_agent then default_user_agent else d.custom_user_agent
