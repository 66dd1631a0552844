-- ===== src/DataSource/Session.antt =====
-- project/common/src/DataSource.cpp: the session that a data source asks librets for.
use ez_rets.Base.{
  ◌≡◌, refl, Bool, true, false, not, List, [], ◌∷◌, ◌++◌, Text, codes, has, if◌then◌else◌,
}
use ez_rets.DataSource.{DataSource, new_data_source, get_user_agent}
use ez_rets.DataSource.Connection.{get_connection_string, set_from_odbc_connection_string}
use ez_rets.DataSource.Connection.RoundTrip.{told_part, set_from_odbc_connection_string-get}
use ez_rets.DataSource.Keys.{TextKey, text_of}
use ez_rets.DataSource.Strings.{
  RetsVersion, EncodingType, UserAgentAuthType, get_rets_version, get_encoding_type,
  get_user_agent_auth_type,
}
use ez_rets.Platform.{Platform}

-- The calls on librets::RetsSession, whose constructor takes the login URL.
pub data SessionCall : Type 0 where
  new_session set_user_agent set_user_agent_password set_http_logger : Text → SessionCall
  use_http_get set_incremental_metadata set_log_everything : Bool → SessionCall
  set_rets_version : RetsVersion → SessionCall
  set_default_encoding : EncodingType → SessionCall
  set_user_agent_auth_type : UserAgentAuthType → SessionCall
  set_proxy : Text → Text → SessionCall
  set_mode_no_ssl_verify : SessionCall
  login : Text → Text → SessionCall

-- DataSource::CreateRetsSession: the calls that make the session, in their order
unfoldable pub create_rets_session : Text → DataSource → List SessionCall
unfolding get_user_agent get_rets_version get_encoding_type get_user_agent_auth_type
create_rets_session default_user_agent d =
    new_session d.login_url
    ∷ use_http_get d.use_http_get
    ∷ set_user_agent (get_user_agent default_user_agent d)
    ∷ set_rets_version (get_rets_version d)
    ∷ set_incremental_metadata (not d.use_bulk_metadata)
    ∷ set_default_encoding (get_encoding_type d)
    ∷ set_log_everything d.http_log_everything
    ∷ ((if d.enable_user_agent_auth
          then set_user_agent_auth_type (get_user_agent_auth_type d)
            ∷ set_user_agent_password d.user_agent_password
            ∷ []
          else [])
        ++ ((if d.use_proxy then set_proxy d.proxy_url d.proxy_password ∷ [] else [])
            ++ (set_mode_no_ssl_verify ∷ [])))

-- DataSource::RetsLogin
unfoldable pub rets_login : DataSource → SessionCall
rets_login d = login d.username d.password

-- What a data source makes of librets: the session's calls up to the login.
abbrev pub session_calls : Text → DataSource → List SessionCall
unfolding create_rets_session rets_login
session_calls default_user_agent d = create_rets_session default_user_agent d ++ (rets_login d ∷ [])

create_rets_session-told_part :
    (a : Text) (d : DataSource) (auth proxy : Bool)
    → d.enable_user_agent_auth ≡ auth
    → d.use_proxy ≡ proxy
    → session_calls a (told_part d) ≡ session_calls a d
unfolding create_rets_session told_part get_user_agent get_rets_version get_encoding_type
    get_user_agent_auth_type rets_login
create_rets_session-told_part a d true true h k = rw (h, k)
create_rets_session-told_part a d true false h k = rw (h, k)
create_rets_session-told_part a d false true h k = rw (h, k)
create_rets_session-told_part a d false false h k = rw (h, k)

module _ (p : Platform) where
  -- A new data source that takes its settings from the connection string of another one, and from
  -- nothing else, makes the same session and login as the other. No text of the settings
  -- holds a semicolon; the library's split is at each semicolon, and its to_lower leaves the words
  -- "true" and "false".
  pub session_calls-connection_string :
      (split-next : (t rest : Text)
        → has b';' t ≡ false
        → p.split (t ++ b';' ∷ rest) b';' ≡ t ∷ p.split rest b';')
      (split-nil : p.split [] b';' ≡ [] ∷ [])
      (lower-true : p.to_lower (codes "true") ≡ codes "true")
      (lower-false : p.to_lower (codes "false") ≡ codes "false") (d : DataSource)
      (clean : (k : TextKey) → has b';' (text_of k d) ≡ false) (default_user_agent : Text)
      → session_calls default_user_agent
          (set_from_odbc_connection_string p (get_connection_string d) new_data_source)
        ≡ session_calls default_user_agent d
  unfolding create_rets_session rets_login
  session_calls-connection_string next last lt lf d clean a =
      rw (set_from_odbc_connection_string-get p next last lt lf d clean)
        (create_rets_session-told_part a d d.enable_user_agent_auth d.use_proxy refl refl)
