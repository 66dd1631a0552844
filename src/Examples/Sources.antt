-- ===== src/Examples/Sources.antt =====
-- A data source, its connection string and the ini files.
use ez_rets.Base.{
  ℕ, ◌<◌, ◌≡◌, refl, sym, ap, subst, Bool-cases, inl, inr, true, false, ◌&&◌, [], Option, none,
  some, if◌then◌else◌, Text, codes, has, take, take-all, pred, length, text_eq, text_eq_iff,
  text_eq_refl, is_empty, arith,
}
use ez_rets.DataSource.{DataSource, new_data_source, named}
use ez_rets.DataSource.Connection.{get_connection_string, set_from_odbc_connection_string}
use ez_rets.DataSource.Connection.RoundTrip.{told_part, set_from_odbc_connection_string-get}
use ez_rets.DataSource.Ini.{Installer, profile_size, written_keys, write_to_ini, merge_from_ini}
use ez_rets.DataSource.Ini.RoundTrip.{IsWritten, merge_from_ini-write}
use ez_rets.DataSource.Keys.{
  TextKey, Key, text_key, flag_key, ini_driver, ini_dsn, ini_login_url, ini_username, ini_password,
  ini_user_agent, ini_http_log_file, ini_debug_log_file, ini_rets_version, ini_user_agent_password,
  ini_user_agent_auth_type, ini_encoding_type, ini_proxy_url, ini_proxy_password,
  ini_standard_names, ini_use_http_get, ini_use_http_logging, ini_use_debug_logging,
  ini_use_bulk_metadata, ini_ignore_metadata_type, ini_use_compact_format,
  ini_disable_get_object_metadata, ini_enable_user_agent_auth, ini_treat_decimal_as_string,
  ini_use_proxy, ini_supports_query_star, ini_http_log_everything, text_of, key_text, value_of,
  find_key,
}
use ez_rets.DataSource.Session.{session_calls, session_calls-connection_string}
use ez_rets.Dbc.Saved.{sql_connect-write_to_ini}
use ez_rets.Dbc.{new_dbc}
use ez_rets.Dbc.Login.{login, connected, sql_connect}
use ez_rets.Examples.Data.{plain, split_on, split_on-append, blank}
use ez_rets.Examples.Servers.{open_server}

-- A data source with a proxy that is not in use.
abbrev pub mls : DataSource
mls = record new_data_source {
  name = codes "MLS";
  driver = codes "ezRETS";
  login_url = codes "http://mls.example/login";
  username = codes "agent";
  password = codes "secret";
  standard_names = true;
  use_http_get = true;
  disable_get_object_metadata = false;
  enable_user_agent_auth = true;
  user_agent_password = codes "ua";
  proxy_url = codes "http://proxy.example";
}

clean : (k : TextKey) → has b';' (text_of k mls) ≡ false
unfolding has text_of
clean ini_driver = refl
clean ini_dsn = refl
clean ini_login_url = refl
clean ini_username = refl
clean ini_password = refl
clean ini_user_agent = refl
clean ini_http_log_file = refl
clean ini_debug_log_file = refl
clean ini_rets_version = refl
clean ini_user_agent_password = refl
clean ini_user_agent_auth_type = refl
clean ini_encoding_type = refl
clean ini_proxy_url = refl
clean ini_proxy_password = refl

fits : (k : Key) → length (value_of k mls) < profile_size
unfolding value_of
fits (text_key ini_driver) = omega arith
fits (text_key ini_dsn) = omega arith
fits (text_key ini_login_url) = omega arith
fits (text_key ini_username) = omega arith
fits (text_key ini_password) = omega arith
fits (text_key ini_user_agent) = omega arith
fits (text_key ini_http_log_file) = omega arith
fits (text_key ini_debug_log_file) = omega arith
fits (text_key ini_rets_version) = omega arith
fits (text_key ini_user_agent_password) = omega arith
fits (text_key ini_user_agent_auth_type) = omega arith
fits (text_key ini_encoding_type) = omega arith
fits (text_key ini_proxy_url) = omega arith
fits (text_key ini_proxy_password) = omega arith
fits (flag_key ini_standard_names) = omega arith
fits (flag_key ini_use_http_get) = omega arith
fits (flag_key ini_use_http_logging) = omega arith
fits (flag_key ini_use_debug_logging) = omega arith
fits (flag_key ini_use_bulk_metadata) = omega arith
fits (flag_key ini_ignore_metadata_type) = omega arith
fits (flag_key ini_use_compact_format) = omega arith
fits (flag_key ini_disable_get_object_metadata) = omega arith
fits (flag_key ini_enable_user_agent_auth) = omega arith
fits (flag_key ini_treat_decimal_as_string) = omega arith
fits (flag_key ini_use_proxy) = omega arith
fits (flag_key ini_supports_query_star) = omega arith
fits (flag_key ini_http_log_everything) = omega arith

set_from_odbc_connection_string-get_example :
    set_from_odbc_connection_string plain (get_connection_string mls) new_data_source
    ≡ told_part mls
unfolding told_part split_on
set_from_odbc_connection_string-get_example =
    set_from_odbc_connection_string-get plain (split_on-append b';') refl refl refl mls clean

session_calls-connection_string_example :
    session_calls
      (codes "ezRETS")
      (set_from_odbc_connection_string plain (get_connection_string mls) new_data_source)
    ≡ session_calls (codes "ezRETS") mls
unfolding split_on
session_calls-connection_string_example =
    session_calls-connection_string plain (split_on-append b';') refl refl refl mls clean
      (codes "ezRETS")

-- Ini files as a function of the name and the entry.
abbrev pub IniFiles : Type 0
IniFiles = Text → Text → Option Text

abbrev pub no_files : IniFiles
no_files n e = none

abbrev value_or : Text → ℕ → Option Text → Text
value_or default_value size none = default_value
value_or default_value size (some v) = take (pred size) v

unfoldable pub written : IniFiles → Text → Text → Text → IniFiles
unfolding text_eq
written st n e v n' e' = if text_eq n n' && text_eq e e' then some v else st n' e'

-- The section of a data source is removed, and made anew with its driver alone.
unfoldable pub removed : IniFiles → Text → IniFiles
unfolding text_eq
removed st n n' e' = if text_eq n n' then none else st n' e'

unfoldable pub files : Installer IniFiles
unfolding written removed
files = record {
  get_private_profile_string = λ st n e default_value size. value_or default_value size (st n e);
  write_private_profile_string = λ st n e v. (written st n e v, true);
  write_dsn_to_ini = λ st n d. (written (removed st n) n (codes "DRIVER") d, true);
  remove_dsn_from_ini = λ st n. (removed st n, true);
  installer_error = λ st. none;
}

pub files-get-write :
    (st st' : IniFiles) (n e v default_value : Text)
    → files.write_private_profile_string st n e v ≡ (st', true)
    → is_empty v ≡ false
    → length v < profile_size
    → files.get_private_profile_string st' n e default_value profile_size ≡ v
unfolding files written
files-get-write st st' n e v t h full short =
    subst (λ u. value_or t profile_size (u n e) ≡ v) (ap (λ q. q.0) h)
      (rw (text_eq_refl n, text_eq_refl e) (take-all 1000 v (omega arith)))

pub files-get-write_other :
    (st st' : IniFiles) (n e e' v default_value : Text)
    → files.write_private_profile_string st n e v ≡ (st', true)
    → text_eq e e' ≡ false
    → files.get_private_profile_string st' n e' default_value profile_size
      ≡ files.get_private_profile_string st n e' default_value profile_size
unfolding files written
files-get-write_other st st' n e e' v t h other =
    subst (λ u. value_or t profile_size (u n e') ≡ value_or t profile_size (st n e'))
      (ap (λ q. q.0) h) (rw (text_eq_refl n, other))

pub files-get-write_dsn :
    (st st' : IniFiles) (n driver default_value : Text) (k : Key)
    → files.write_dsn_to_ini st n driver ≡ (st', true)
    → IsWritten k
    → files.get_private_profile_string st' n (key_text k) default_value profile_size ≡ default_value
unfolding files written removed find_key
files-get-write_dsn st st' n driver t k h is_written =
    subst (λ u. value_or t profile_size (u n (key_text k)) ≡ t) (ap (λ q. q.0) h)
      (elim (Bool-cases (text_eq (codes "DRIVER") (key_text k))) [
        | inl e ↦
            let same = (text_eq_iff (codes "DRIVER") (key_text k)).0 e in
            let not_written : none ≡ some k =
              subst (λ x. find_key x written_keys ≡ some k) (sym same) is_written in
            absurd cc
        | inr e ↦ rw (text_eq_refl n, e)
      ])

-- The ini files once the data source is written.
unfoldable pub saved : IniFiles
unfolding files write_to_ini
saved = (write_to_ini files mls no_files).0

merge_from_ini-write_example :
    merge_from_ini files plain saved (named (codes "MLS")) ≡ record mls { driver = [] }
unfolding saved files write_to_ini
merge_from_ini-write_example =
    merge_from_ini-write files files-get-write files-get-write_other mls fits plain refl refl
      no_files saved (λ k t h. refl) refl

sql_connect-write_to_ini_example :
    sql_connect open_server files saved plain new_dbc (codes "MLS") none none blank
    ≡ connected open_server
        (login open_server (record new_dbc { data_source = record mls { driver = [] } }))
        blank
unfolding saved files write_to_ini
sql_connect-write_to_ini_example =
    sql_connect-write_to_ini open_server files plain files-get-write files-get-write_other refl refl
      mls no_files saved blank fits (λ k t h. refl) refl
