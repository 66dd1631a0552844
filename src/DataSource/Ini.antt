-- ===== src/DataSource/Ini.antt =====
-- project/common/src/DataSource.cpp: a data source in the ini files of the ODBC installer, as the
-- driver is built without iODBC.
pub mod RoundTrip
use ez_rets.Base.{
  ℕ, Bool, true, false, List, [], ◌∷◌, ◌++◌, Option, none, some, if◌then◌else◌, Text, codes,
  is_empty,
}
use ez_rets.DataSource.{DataSource, string_to_bool, bool_to_string}
use ez_rets.DataSource.Keys.{
  TextKey, FlagKey, Key, text_key, flag_key, ini_driver, ini_dsn, ini_login_url, ini_username,
  ini_password, ini_user_agent, ini_http_log_file, ini_debug_log_file, ini_rets_version,
  ini_user_agent_password, ini_user_agent_auth_type, ini_encoding_type, ini_proxy_url,
  ini_proxy_password, ini_standard_names, ini_use_http_get, ini_use_http_logging,
  ini_use_debug_logging, ini_use_bulk_metadata, ini_ignore_metadata_type, ini_use_compact_format,
  ini_disable_get_object_metadata, ini_enable_user_agent_auth, ini_treat_decimal_as_string,
  ini_use_proxy, ini_supports_query_star, ini_http_log_everything, key_text, text_of, flag_of,
  set_text, set_flag, value_of, find_key, key_of, key_of-key_text, set_text-same, set_flag-same,
}
use ez_rets.Platform.{Platform}

-- The installer's functions on its ini files, by the data source's name; a file of the installer
-- that is written may refuse it.
pub record Installer (S : Type 0) : Type 0 where
  -- SQLGetPrivateProfileString: name, entry, default and size of the buffer
  pub get_private_profile_string : S → Text → Text → Text → ℕ → Text
  -- SQLWritePrivateProfileString: name, entry and value
  pub write_private_profile_string : S → Text → Text → Text → S × Bool
  -- SQLWriteDSNToIni: name and driver
  pub write_dsn_to_ini : S → Text → Text → S × Bool
  -- SQLRemoveDSNFromIni
  pub remove_dsn_from_ini : S → Text → S × Bool
  -- SQLInstallerError, where it succeeds
  pub installer_error : S → Option Text

-- DataSource::AssertNameNotEmpty: the exception's message
abbrev pub assert_name_not_empty : Text → DataSource → Option Text
assert_name_not_empty message d =
    if is_empty d.name then some (message ++ codes ": name is empty") else none

-- sizeof(profileCstr) in GetProfileString
abbrev pub profile_size : ℕ
profile_size = 1001

-- The entries in the order in which WriteToIni writes them.
abbrev pub written_keys : List Key
written_keys =
    text_key ini_login_url
    ∷ text_key ini_username
    ∷ text_key ini_password
    ∷ flag_key ini_standard_names
    ∷ text_key ini_user_agent
    ∷ flag_key ini_use_http_get
    ∷ flag_key ini_use_http_logging
    ∷ text_key ini_http_log_file
    ∷ flag_key ini_use_debug_logging
    ∷ text_key ini_debug_log_file
    ∷ text_key ini_rets_version
    ∷ flag_key ini_use_bulk_metadata
    ∷ flag_key ini_ignore_metadata_type
    ∷ flag_key ini_use_compact_format
    ∷ flag_key ini_disable_get_object_metadata
    ∷ flag_key ini_enable_user_agent_auth
    ∷ text_key ini_user_agent_password
    ∷ text_key ini_user_agent_auth_type
    ∷ flag_key ini_treat_decimal_as_string
    ∷ text_key ini_encoding_type
    ∷ flag_key ini_use_proxy
    ∷ text_key ini_proxy_url
    ∷ text_key ini_proxy_password
    ∷ flag_key ini_supports_query_star
    ∷ flag_key ini_http_log_everything
    ∷ []

-- The entries in the order in which MergeFromIni reads them.
abbrev pub merged_keys : List Key
merged_keys =
    text_key ini_login_url
    ∷ text_key ini_username
    ∷ text_key ini_password
    ∷ flag_key ini_standard_names
    ∷ text_key ini_user_agent
    ∷ flag_key ini_use_http_get
    ∷ flag_key ini_use_http_logging
    ∷ text_key ini_http_log_file
    ∷ flag_key ini_use_debug_logging
    ∷ text_key ini_debug_log_file
    ∷ text_key ini_rets_version
    ∷ flag_key ini_use_bulk_metadata
    ∷ flag_key ini_ignore_metadata_type
    ∷ flag_key ini_use_compact_format
    ∷ flag_key ini_disable_get_object_metadata
    ∷ flag_key ini_enable_user_agent_auth
    ∷ text_key ini_user_agent_password
    ∷ text_key ini_user_agent_auth_type
    ∷ flag_key ini_treat_decimal_as_string
    ∷ flag_key ini_use_proxy
    ∷ text_key ini_proxy_url
    ∷ text_key ini_proxy_password
    ∷ text_key ini_encoding_type
    ∷ flag_key ini_supports_query_star
    ∷ flag_key ini_http_log_everything
    ∷ []

-- The defaults that MergeFromIni gives to GetProfileBool.
abbrev pub default_flag : FlagKey → Bool
default_flag ini_disable_get_object_metadata = true
default_flag _ = false

abbrev pub write_message : Text → Text → Text
write_message entry value =
    codes "entry: " ++ (entry ++ (codes ", value: <" ++ (value ++ codes ">")))

module _ {S : Type 0} (installer : Installer S) where
  -- DataSource::GetSqlInstallerError
  abbrev error_text : Option Text → Text
  error_text none = codes "No error"
  error_text (some t) = t

  abbrev get_sql_installer_error : S → Text
  get_sql_installer_error st = error_text (installer.installer_error st)

  -- DataSource::AssertSqlSuccess: the message that it throws repeats its beginning
  abbrev pub assert_sql_success : DataSource → Text → S × Bool → S × Option Text
  assert_sql_success d message (st, true) = (st, none)
  assert_sql_success d message (st, false) =
      let begun = message ++ (codes "dsn: " ++ (d.name ++ codes ", ")) in
      (
        st,
        some (
            begun
            ++ (begun ++ (codes ", " ++ (codes "SQL error: " ++ get_sql_installer_error st)))),
      )

  -- What follows a call that may have thrown.
  abbrev pub and_then : S × Option Text → (S → S × Option Text) → S × Option Text
  and_then (st, none) next = next st
  and_then (st, some e) next = (st, some e)

  -- DataSource::WriteProfileString
  unfoldable pub write_profile_string : DataSource → Text → Text → S → S × Option Text
  write_profile_string d entry value st =
      if is_empty value
      then (st, none)
      else assert_sql_success d (write_message entry value)
          (installer.write_private_profile_string st d.name entry value)

  unfoldable pub write_entries : DataSource → List Key → S → S × Option Text
  unfolding write_profile_string value_of
  write_entries d [] st = (st, none)
  write_entries d (k ∷ ks) st =
      and_then (write_profile_string d (key_text k) (value_of k d) st) (write_entries d ks)

  abbrev unless_thrown : S → Option Text → (S → S × Option Text) → S × Option Text
  unless_thrown st none next = next st
  unless_thrown st (some e) next = (st, some e)

  -- DataSource::WriteToIni
  unfoldable pub write_to_ini : DataSource → S → S × Option Text
  unfolding write_entries
  write_to_ini d st =
      unless_thrown st (assert_name_not_empty (codes "Cannot write to INI") d)
        (write_entries d written_keys)

  -- DataSource::WriteDSNToIni
  abbrev write_dsn : DataSource → Text → S → S × Option Text
  write_dsn d driver st =
      assert_sql_success d (codes "driver: " ++ driver)
        (installer.write_dsn_to_ini st d.name driver)

  -- DataSource::CreateInIni
  unfoldable pub create_in_ini : DataSource → Text → S → S × Option Text
  unfolding write_to_ini
  create_in_ini d driver st =
      unless_thrown st (assert_name_not_empty (codes "Cannot create INI") d)
        (λ st'. and_then (write_dsn d driver st') (write_to_ini d))

  -- DataSource::RemoveFromIni and RemoveDSNFromIni
  unfoldable pub remove_from_ini : DataSource → S → S × Option Text
  remove_from_ini d st =
      unless_thrown st (assert_name_not_empty (codes "Cannot create INI") d)
        (λ st'. assert_sql_success d [] (installer.remove_dsn_from_ini st' d.name))

  -- DataSource::GetProfileString
  abbrev pub get_profile_string : S → DataSource → Text → Text → Text
  get_profile_string st d entry default_value =
      installer.get_private_profile_string st d.name entry default_value profile_size

  -- DataSource::GetProfileBool
  unfoldable pub get_profile_bool : Platform → S → DataSource → Text → Bool → Bool
  unfolding string_to_bool
  get_profile_bool p st d entry default_value =
      string_to_bool p (get_profile_string st d entry (bool_to_string default_value))

  -- DataSource::MergeFromProfileString, and the assignments of MergeFromIni
  unfoldable pub merge_entry : Platform → S → Key → DataSource → DataSource
  unfolding text_of set_text set_flag get_profile_bool
  merge_entry p st (text_key k) d =
      if is_empty (text_of k d)
      then set_text k (get_profile_string st d (key_text (text_key k)) []) d
      else d
  merge_entry p st (flag_key k) d =
      set_flag k (get_profile_bool p st d (key_text (flag_key k)) (default_flag k)) d

  unfoldable pub merge_entries : Platform → S → List Key → DataSource → DataSource
  unfolding merge_entry
  merge_entries p st [] d = d
  merge_entries p st (k ∷ ks) d = merge_entries p st ks (merge_entry p st k d)

  -- DataSource::MergeFromIni
  unfoldable pub merge_from_ini : Platform → S → DataSource → DataSource
  unfolding merge_entries
  merge_from_ini p st d = if is_empty d.name then d else merge_entries p st merged_keys d
