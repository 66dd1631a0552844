-- ===== src/Setup.antt =====
-- project/setup/src/DataSourceValidator.cpp with the controls of project/setup/src/SetupDialog.cpp: a
-- data source shown in a window and taken from it.
pub mod Dialog
pub mod Config
pub mod Shown
pub mod Opening
pub mod Reopened
pub mod Attributes
use ez_rets.Base.{
  Bool, true, false, not, List, [], ◌∷◌, ◌++◌, Option, none, some, if◌then◌else◌, Text, codes,
  text_eq, is_empty,
}
use ez_rets.DataSource.{DataSource}
use ez_rets.DataSource.Keys.{
  TextKey, FlagKey, ini_dsn, ini_login_url, ini_username, ini_password, ini_user_agent,
  ini_http_log_file, ini_debug_log_file, ini_user_agent_password, ini_proxy_url, ini_proxy_password,
  ini_standard_names, ini_use_http_get, ini_use_http_logging, ini_use_debug_logging,
  ini_use_bulk_metadata, ini_ignore_metadata_type, ini_use_compact_format,
  ini_enable_user_agent_auth, ini_treat_decimal_as_string, ini_use_proxy, ini_supports_query_star,
  ini_http_log_everything, text_of, flag_of, set_text, set_flag,
}
use ez_rets.DataSource.Strings.{
  Result, ok, thrown, map_ok, rets_1_5, rets_xml_default_encoding, user_agent_auth_interealty,
  rets_version_to_string, string_to_rets_version, encoding_type_to_string, string_to_encoding_type,
  user_agent_auth_type_to_string, string_to_user_agent_auth_type, get_rets_version,
  set_rets_version, get_user_agent_auth_type, set_user_agent_auth_type, get_encoding_type,
  set_encoding_type,
}
use ez_rets.Platform.{Platform}

-- What the setup program takes from wxWidgets and from the installer.
pub record Toolkit : Type 0 where
  -- wxChoice::SetStringSelection: the choices, the one that is selected and the one asked for
  pub set_string_selection : List Text → Text → Text → Text
  -- SQLValidDSN
  pub valid_dsn : Text → Bool

-- DataSourceValidator::Field
pub data Field : Type 0 where
  name_field login_url_field username_field password_field standard_names_field
        custom_user_agent_field use_http_get_field use_http_logging_field http_log_everything_field
        http_log_file_field use_debug_logging_field debug_log_file_field rets_version_field
        use_bulk_metadata_field ignore_metadata_type_field decode_lookup_values_field
        enable_user_agent_auth_field user_agent_password_field user_agent_auth_type_field
        treat_decimal_as_string_field encoding_type_field use_proxy_field proxy_url_field
        proxy_password_field supports_querystar_field :
      Field

-- The pairs of methods: a text or a check box of one setting, or one of the five others.
pub data Control : Type 0 where
  text_ctrl : TextKey → Control
  check_box : FlagKey → Control
  decode_lookup_values_box use_http_get_choice rets_version_choice user_agent_auth_type_choice
        encoding_choice :
      Control

-- What a control holds: its text, whether it is checked, or the choice that is selected.
abbrev pub Value : Control → Type 0
Value (check_box k) = Bool
Value decode_lookup_values_box = Bool
Value _ = Text

-- DataSourceValidator::methods: the methods of a field
abbrev pub control : Field → Control
control name_field = text_ctrl ini_dsn
control login_url_field = text_ctrl ini_login_url
control username_field = text_ctrl ini_username
control password_field = text_ctrl ini_password
control standard_names_field = check_box ini_standard_names
control custom_user_agent_field = text_ctrl ini_user_agent
control use_http_get_field = use_http_get_choice
control use_http_logging_field = check_box ini_use_http_logging
control http_log_everything_field = check_box ini_http_log_everything
control http_log_file_field = text_ctrl ini_http_log_file
control use_debug_logging_field = check_box ini_use_debug_logging
control debug_log_file_field = text_ctrl ini_debug_log_file
control rets_version_field = rets_version_choice
control use_bulk_metadata_field = check_box ini_use_bulk_metadata
control ignore_metadata_type_field = check_box ini_ignore_metadata_type
control decode_lookup_values_field = decode_lookup_values_box
control enable_user_agent_auth_field = check_box ini_enable_user_agent_auth
control user_agent_password_field = text_ctrl ini_user_agent_password
control user_agent_auth_type_field = user_agent_auth_type_choice
control treat_decimal_as_string_field = check_box ini_treat_decimal_as_string
control encoding_type_field = encoding_choice
control use_proxy_field = check_box ini_use_proxy
control proxy_url_field = text_ctrl ini_proxy_url
control proxy_password_field = text_ctrl ini_proxy_password
control supports_querystar_field = check_box ini_supports_query_star

-- The controls of the dialog: each holds what its validator's field asks for.
abbrev pub Window : Type 0
Window = (f : Field) → Value (control f)

-- The choices that the panels of the dialog offer.
abbrev pub choices : Control → List Text
choices use_http_get_choice = codes "GET" ∷ codes "POST" ∷ []
choices rets_version_choice = codes "1.7.2" ∷ codes "1.7" ∷ codes "1.5" ∷ codes "1.0" ∷ []
choices user_agent_auth_type_choice = codes "RETS 1.7" ∷ codes "NON-STANDARD INTEREALTY" ∷ []
choices encoding_choice =
    codes "Default (US-ASCII) Encoding"
    ∷ codes "Extended (iso-8859-1) Encoding"
    ∷ codes "UTF-8 Encoding"
    ∷ []
choices _ = []

-- DataSourceValidator::TransferToWindow: the ToWindow method of each control
unfoldable pub to_window :
    Platform → Toolkit → (c : Control) → DataSource → Value c → Result (Value c)
unfolding text_of flag_of get_rets_version get_user_agent_auth_type get_encoding_type
    rets_version_to_string user_agent_auth_type_to_string encoding_type_to_string
to_window p toolkit (text_ctrl k) d v = ok (text_of k d)
to_window p toolkit (check_box k) d v = ok (flag_of k d)
to_window p toolkit decode_lookup_values_box d v = ok (not d.use_compact_format)
to_window p toolkit use_http_get_choice d v = ok (
    if d.use_http_get
    then toolkit.set_string_selection (choices use_http_get_choice) v (codes "GET")
    else toolkit.set_string_selection (choices use_http_get_choice) v (codes "POST"))
to_window p toolkit rets_version_choice d v =
    map_ok (toolkit.set_string_selection (choices rets_version_choice) v)
      (rets_version_to_string p (get_rets_version d))
to_window p toolkit user_agent_auth_type_choice d v =
    map_ok (toolkit.set_string_selection (choices user_agent_auth_type_choice) v)
      (user_agent_auth_type_to_string p (get_user_agent_auth_type d))
to_window p toolkit encoding_choice d v =
    map_ok (toolkit.set_string_selection (choices encoding_choice) v)
      (encoding_type_to_string p (get_encoding_type d))

-- DataSourceValidator::TransferFromWindow: the FromWindow method of each control
unfoldable pub from_window : Platform → (c : Control) → Value c → DataSource → Result DataSource
unfolding set_text set_flag text_eq set_rets_version set_user_agent_auth_type set_encoding_type
    string_to_rets_version string_to_user_agent_auth_type string_to_encoding_type
from_window p (text_ctrl k) v d = ok (set_text k v d)
from_window p (check_box k) v d = ok (set_flag k v d)
from_window p decode_lookup_values_box v d = ok (set_flag ini_use_compact_format (not v) d)
from_window p use_http_get_choice v d = ok (set_flag ini_use_http_get (text_eq v (codes "GET")) d)
from_window p rets_version_choice v d = set_rets_version p (string_to_rets_version v rets_1_5) d
from_window p user_agent_auth_type_choice v d =
    set_user_agent_auth_type p (string_to_user_agent_auth_type v user_agent_auth_interealty) d
from_window p encoding_choice v d =
    set_encoding_type p (string_to_encoding_type v rets_xml_default_encoding) d

-- DataSourceValidator::NonEmpty: the message that it shows
abbrev non_empty : Text → Text → Option Text
non_empty field_name v =
    if is_empty v then some (field_name ++ codes " must not be empty.") else none

-- DataSourceValidator::Validate: the message of the validating method that refuses a field
unfoldable pub validate : Toolkit → (f : Field) → Value (control f) → Option Text
validate toolkit name_field v =
    if toolkit.valid_dsn v then none else some (codes "The data source name is invalid.\n")
validate toolkit login_url_field v = non_empty (codes "Login URL") v
validate toolkit username_field v = non_empty (codes "Username") v
validate toolkit password_field v = non_empty (codes "Password") v
validate toolkit _ v = none
