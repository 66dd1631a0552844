-- ===== src/Examples/Dialogs.antt =====
-- The setup program: a data source that is entered, refused, changed and removed.
use ez_rets.Base.{
  ◌<◌, ◌≡◌, refl, true, false, not, List, [], ◌∷◌, ◌++◌, none, some, if◌then◌else◌, Text, codes,
  length, is_empty, has, arith,
}
use ez_rets.DataSource.{DataSource, new_data_source, named}
use ez_rets.DataSource.Ini.{profile_size, merge_from_ini, create_in_ini}
use ez_rets.DataSource.Keys.{
  Key, text_key, flag_key, ini_driver, ini_dsn, ini_login_url, ini_username, ini_password,
  ini_user_agent, ini_http_log_file, ini_debug_log_file, ini_rets_version, ini_user_agent_password,
  ini_user_agent_auth_type, ini_encoding_type, ini_proxy_url, ini_proxy_password,
  ini_standard_names, ini_use_http_get, ini_use_http_logging, ini_use_debug_logging,
  ini_use_bulk_metadata, ini_ignore_metadata_type, ini_use_compact_format,
  ini_disable_get_object_metadata, ini_enable_user_agent_auth, ini_treat_decimal_as_string,
  ini_use_proxy, ini_supports_query_star, ini_http_log_everything, value_of,
}
use ez_rets.DataSource.Strings.{ok}
use ez_rets.Examples.Data.{plain}
use ez_rets.Examples.Sources.{
  IniFiles, no_files, files, files-get-write, files-get-write_other, files-get-write_dsn,
}
use ez_rets.Setup.{
  Toolkit, Field, name_field, login_url_field, username_field, password_field, standard_names_field,
  custom_user_agent_field, use_http_get_field, use_http_logging_field, http_log_everything_field,
  http_log_file_field, use_debug_logging_field, debug_log_file_field, rets_version_field,
  use_bulk_metadata_field, ignore_metadata_type_field, decode_lookup_values_field,
  enable_user_agent_auth_field, user_agent_password_field, user_agent_auth_type_field,
  treat_decimal_as_string_field, encoding_type_field, use_proxy_field, proxy_url_field,
  proxy_password_field, supports_querystar_field, Value, control, Window, to_window,
}
use ez_rets.Setup.Attributes.{written_attributes, assigned, att2map-written_attributes}
use ez_rets.Setup.Config.{
  att2map, other_request, odbc_error_invalid_request_type, add_dsn, sql_config_dsn,
}
use ez_rets.Setup.Dialog.{
  dialog_validate, Action, edited, tested, confirmed, cancelled, accepted, show_dialog,
}
use ez_rets.Setup.Reopened.{
  HasChoices, IsEntered, left_window, show_dialog-accepted, to_window-add_dsn,
}
use ez_rets.Setup.Shown.{is_offered, IsChoice}

unfoldable toolkit : Toolkit
unfolding is_offered
toolkit = record {
  set_string_selection = λ xs v t. if is_offered xs t then t else v;
  valid_dsn = λ t. not (is_empty t);
}

select-offered :
    (xs : List Text) (v t : Text) → is_offered xs t ≡ true → toolkit.set_string_selection xs v t ≡ t
unfolding toolkit
select-offered xs v t h = rw (h)

-- A window filled in for a server with a User-Agent password.
abbrev filled : Window
filled name_field = codes "MLS"
filled login_url_field = codes "http://mls.example/login"
filled username_field = codes "agent"
filled password_field = codes "secret"
filled standard_names_field = true
filled custom_user_agent_field = []
filled use_http_get_field = codes "GET"
filled use_http_logging_field = false
filled http_log_everything_field = false
filled http_log_file_field = []
filled use_debug_logging_field = true
filled debug_log_file_field = codes "debug.log"
filled rets_version_field = codes "1.7.2"
filled use_bulk_metadata_field = false
filled ignore_metadata_type_field = false
filled decode_lookup_values_field = false
filled enable_user_agent_auth_field = true
filled user_agent_password_field = codes "ua"
filled user_agent_auth_type_field = codes "RETS 1.7"
filled treat_decimal_as_string_field = false
filled encoding_type_field = codes "UTF-8 Encoding"
filled use_proxy_field = false
filled proxy_url_field = []
filled proxy_password_field = []
filled supports_querystar_field = false

filled-HasChoices : HasChoices filled
unfolding IsChoice
filled-HasChoices name_field = tt
filled-HasChoices login_url_field = tt
filled-HasChoices username_field = tt
filled-HasChoices password_field = tt
filled-HasChoices standard_names_field = tt
filled-HasChoices custom_user_agent_field = tt
filled-HasChoices use_http_get_field = refl
filled-HasChoices use_http_logging_field = tt
filled-HasChoices http_log_everything_field = tt
filled-HasChoices http_log_file_field = tt
filled-HasChoices use_debug_logging_field = tt
filled-HasChoices debug_log_file_field = tt
filled-HasChoices rets_version_field = refl
filled-HasChoices use_bulk_metadata_field = tt
filled-HasChoices ignore_metadata_type_field = tt
filled-HasChoices decode_lookup_values_field = tt
filled-HasChoices enable_user_agent_auth_field = tt
filled-HasChoices user_agent_password_field = tt
filled-HasChoices user_agent_auth_type_field = refl
filled-HasChoices treat_decimal_as_string_field = tt
filled-HasChoices encoding_type_field = refl
filled-HasChoices use_proxy_field = tt
filled-HasChoices proxy_url_field = tt
filled-HasChoices proxy_password_field = tt
filled-HasChoices supports_querystar_field = tt

-- The data source that is entered.
abbrev entered : DataSource
entered = record new_data_source {
  name = codes "MLS";
  login_url = codes "http://mls.example/login";
  username = codes "agent";
  password = codes "secret";
  standard_names = true;
  use_http_get = true;
  use_debug_logging = true;
  debug_log_file = codes "debug.log";
  rets_version_string = codes "1.7.2";
  use_compact_format = true;
  enable_user_agent_auth = true;
  user_agent_password = codes "ua";
  user_agent_auth_type_string = codes "RETS 1.7";
  encoding_type_string = codes "UTF-8 Encoding";
}

fits : (k : Key) → length (value_of k entered) < profile_size
unfolding value_of
fits (text_key ini_driver) = omega arith
fits (text_key ini_dsn) = omega arith
fits (text_key ini_login_url) = omega arith
fits (text_key ini_username) = omega arith
fits (text_key ini_password) = omega arith
fits (text_key ini_user_agent) = omega arith
fits (text_key ini_http_log_file) = omega arith
fits (text_key ini_debug_log_file) = omega arith
fits (text_key ini_rets_version) = omega arith
fits (text_key ini_user_agent_password) = omega arith
fits (text_key ini_user_agent_auth_type) = omega arith
fits (text_key ini_encoding_type) = omega arith
fits (text_key ini_proxy_url) = omega arith
fits (text_key ini_proxy_password) = omega arith
fits (flag_key ini_standard_names) = omega arith
fits (flag_key ini_use_http_get) = omega arith
fits (flag_key ini_use_http_logging) = omega arith
fits (flag_key ini_use_debug_logging) = omega arith
fits (flag_key ini_use_bulk_metadata) = omega arith
fits (flag_key ini_ignore_metadata_type) = omega arith
fits (flag_key ini_use_compact_format) = omega arith
fits (flag_key ini_disable_get_object_metadata) = omega arith
fits (flag_key ini_enable_user_agent_auth) = omega arith
fits (flag_key ini_treat_decimal_as_string) = omega arith
fits (flag_key ini_use_proxy) = omega arith
fits (flag_key ini_supports_query_star) = omega arith
fits (flag_key ini_http_log_everything) = omega arith

-- Entered without a name first, which is refused, and then tested and accepted.
abbrev steps : List Action
steps = confirmed ∷ edited filled ∷ tested ∷ confirmed ∷ cancelled ∷ []

show_dialog-steps : show_dialog plain toolkit steps new_data_source ≡ accepted entered
unfolding show_dialog toolkit
show_dialog-steps = refl

show_dialog-accepted_example : IsEntered plain toolkit entered
show_dialog-accepted_example =
    show_dialog-accepted plain toolkit select-offered steps new_data_source entered
      (filled-HasChoices, tt) show_dialog-steps

-- The ini files once the data source is added.
unfoldable added_files : IniFiles
unfolding add_dsn files toolkit
added_files = (add_dsn files plain toolkit (codes "ezRETS") steps no_files).0

add_dsn-steps : add_dsn files plain toolkit (codes "ezRETS") steps no_files ≡ (added_files, none)
unfolding add_dsn files toolkit added_files show_dialog create_in_ini
add_dsn-steps = refl

to_window-add_dsn_example :
    (dialog_validate toolkit filled ≡ none)
    × ((f : Field) (before : Value (control f))
        → to_window plain toolkit
            (control f)
            (merge_from_ini files plain added_files (named (codes "MLS")))
            before
          ≡ ok (filled f))
unfolding left_window toolkit dialog_validate merge_from_ini to_window
to_window-add_dsn_example =
    to_window-add_dsn plain toolkit select-offered files files-get-write files-get-write_other
      files-get-write_dsn refl refl steps (codes "ezRETS") entered no_files added_files
      (filled-HasChoices, tt) show_dialog-steps fits add_dsn-steps

-- A data source with HTTP logging and no log file is refused, and nothing is written.
abbrev unlogged : Window
unlogged use_http_logging_field = true
unlogged f = filled f

dialog_validate-unlogged :
    dialog_validate toolkit unlogged ≡ some (codes "The HTTP log file must not be empty.\n")
unfolding dialog_validate
dialog_validate-unlogged = refl

add_dsn-unlogged :
    add_dsn files plain toolkit (codes "ezRETS") (edited unlogged ∷ confirmed ∷ []) no_files
    ≡ (no_files, none)
unfolding add_dsn show_dialog dialog_validate
add_dsn-unlogged = refl

-- A name without a value is its own value.
att2map-bare :
    att2map [] [] (codes "DSN=MLS" ++ (0 ∷ (codes "quiet" ++ (0 ∷ 0 ∷ []))))
    ≡ some ((codes "DSN", codes "MLS") ∷ (codes "quiet", codes "quiet") ∷ [])
unfolding att2map
att2map-bare = refl

sql_config_dsn_other :
    sql_config_dsn files plain toolkit
      (other_request 9)
      (some (codes "ezRETS"))
      (0 ∷ [])
      steps
      no_files
    ≡ some (no_files, some (odbc_error_invalid_request_type, codes "Unknown config request: "))
unfolding sql_config_dsn
sql_config_dsn_other = refl

abbrev attributes : List (Text × Text)
attributes = (codes "DSN", codes "MLS") ∷ (codes "UID", codes "agent") ∷ []

att2map-written_attributes_example :
    att2map [] [] (written_attributes attributes) ≡ some (assigned attributes [])
unfolding has
att2map-written_attributes_example =
    att2map-written_attributes attributes [] (refl, (refl, (refl, (refl, (refl, (refl, tt))))))
