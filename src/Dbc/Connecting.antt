-- ===== src/Dbc/Connecting.antt =====
-- project/driver/src/RetsDBC.cpp: what a connecting call leaves and answers.
use ez_rets.Base.{
  ◌≡◌, refl, ap, ◌∙◌, inl, inr, Bool, true, false, List, [], ◌∷◌, Option, none, some, if◌then◌else◌,
  Bool-cases, is_empty, Text,
}
use ez_rets.DataSource.{DataSource}
use ez_rets.DataSource.Ini.{Installer, merge_from_ini, merge_entry, merge_entries, merged_keys}
use ez_rets.DataSource.Keys.{
  TextKey, FlagKey, Key, text_key, flag_key, ini_driver, ini_dsn, ini_login_url, ini_username,
  ini_password, ini_user_agent, ini_http_log_file, ini_debug_log_file, ini_rets_version,
  ini_user_agent_password, ini_user_agent_auth_type, ini_encoding_type, ini_proxy_url,
  ini_proxy_password, ini_standard_names, ini_use_http_get, ini_use_http_logging,
  ini_use_debug_logging, ini_use_bulk_metadata, ini_ignore_metadata_type, ini_use_compact_format,
  ini_disable_get_object_metadata, ini_enable_user_agent_auth, ini_treat_decimal_as_string,
  ini_use_proxy, ini_supports_query_star, ini_http_log_everything, text_of, set_text, set_flag,
}
use ez_rets.DataSource.Session.{SessionCall, create_rets_session}
use ez_rets.DataSource.Strings.{Result, ok, thrown}
use ez_rets.Dbc.{Dbc, LoginResult, accepted, refused, raised, Server, Outcome, returned, has}
use ez_rets.Dbc.Login.{
  login, with_session, after_login, logged_in, connected, sql_connect, merged_source,
}
use ez_rets.Librets.{RetsMetadata}
use ez_rets.Memory.{Memory}
use ez_rets.Odbc.{success, error}
use ez_rets.Platform.{Platform}

login_url-set_text :
    (k : TextKey) (v : Text) (d : DataSource)
    → is_empty (text_of k d) ≡ true
    → is_empty d.login_url ≡ false
    → (set_text k v d).login_url ≡ d.login_url
unfolding set_text text_of
login_url-set_text ini_driver v d e h = refl
login_url-set_text ini_dsn v d e h = refl
login_url-set_text ini_login_url v d e h = absurd cc
login_url-set_text ini_username v d e h = refl
login_url-set_text ini_password v d e h = refl
login_url-set_text ini_user_agent v d e h = refl
login_url-set_text ini_http_log_file v d e h = refl
login_url-set_text ini_debug_log_file v d e h = refl
login_url-set_text ini_rets_version v d e h = refl
login_url-set_text ini_user_agent_password v d e h = refl
login_url-set_text ini_user_agent_auth_type v d e h = refl
login_url-set_text ini_encoding_type v d e h = refl
login_url-set_text ini_proxy_url v d e h = refl
login_url-set_text ini_proxy_password v d e h = refl

login_url-set_flag :
    (k : FlagKey) (b : Bool) (d : DataSource) → (set_flag k b d).login_url ≡ d.login_url
unfolding set_flag
login_url-set_flag ini_standard_names b d = refl
login_url-set_flag ini_use_http_get b d = refl
login_url-set_flag ini_use_http_logging b d = refl
login_url-set_flag ini_use_debug_logging b d = refl
login_url-set_flag ini_use_bulk_metadata b d = refl
login_url-set_flag ini_ignore_metadata_type b d = refl
login_url-set_flag ini_use_compact_format b d = refl
login_url-set_flag ini_disable_get_object_metadata b d = refl
login_url-set_flag ini_enable_user_agent_auth b d = refl
login_url-set_flag ini_treat_decimal_as_string b d = refl
login_url-set_flag ini_use_proxy b d = refl
login_url-set_flag ini_supports_query_star b d = refl
login_url-set_flag ini_http_log_everything b d = refl

-- SQLConnect's answer, by whether there is a session.
abbrev pub answer : Bool → Outcome
answer is_open = returned (if is_open then success else error)

module _ (server : Server) where
  -- The answer of a login tells whether the connection has a session.
  logged_in-tells :
      (c : Dbc) (calls : List SessionCall) (r : Result RetsMetadata)
      → has (logged_in server c calls r).0.rets_session ≡ (logged_in server c calls r).1
  unfolding logged_in
  logged_in-tells c calls (thrown e) = refl
  logged_in-tells c calls (ok metadata) = refl

  after_login-tells :
      (c : Dbc) (calls : List SessionCall) (r : LoginResult)
      → c.rets_session ≡ none
      → has (after_login server c calls r).0.rets_session ≡ (after_login server c calls r).1
  unfolding after_login
  after_login-tells c calls accepted h = logged_in-tells c calls (server.get_metadata calls)
  after_login-tells c calls refused h = rw (h)
  after_login-tells c calls (raised e) h = refl

  with_session-tells :
      (c : Dbc) (session : List SessionCall) (r : Option Text)
      → c.rets_session ≡ none
      → has (with_session server c session r).0.rets_session ≡ (with_session server c session r).1
  unfolding with_session
  with_session-tells c session (some e) h = refl
  with_session-tells c session none h = after_login-tells _ _ _ h

  login-tells :
      (c : Dbc) → c.rets_session ≡ none → has (login server c).0.rets_session ≡ (login server c).1
  unfolding login
  login-tells c h =
      let session = create_rets_session server.default_user_agent c.data_source in
      with_session-tells c session (server.create_session session) h

  connected-answers :
      (r : Dbc × Bool) (m : Memory)
      → has r.0.rets_session ≡ r.1
      → (connected server r m).outcome ≡ answer (has (connected server r m).dbc.rets_session)
  connected-answers (c, true) m h = rw (h)
  connected-answers (c, false) m h = rw (h)

  module _ {S : Type 0} (installer : Installer S) (p : Platform) where
    -- SQLConnect on a connection without a session answers SQL_SUCCESS exactly when it leaves the
    -- connection with one, and else SQL_ERROR, whatever librets and the server do.
    pub sql_connect-answers :
        (ini : S) (c : Dbc) (name : Text) (user_name authentication : Option Text) (m : Memory)
        → c.rets_session ≡ none
        → (sql_connect server installer ini p c name user_name authentication m).outcome
          ≡ answer (
              has
                (sql_connect server installer ini p c name user_name authentication
                  m).dbc.rets_session)
    unfolding sql_connect
    sql_connect-answers ini c name u a m h =
        let c1 = record c {
          errors = [];
          data_source = merged_source server installer ini p c.data_source name u a;
        } in
        let closed : has c.rets_session ≡ false = ap has h in
        rw (closed) (connected-answers (login server c1) m (login-tells c1 h))

    login_url-merge_entry :
        (ini : S) (k : Key) (d : DataSource)
        → is_empty d.login_url ≡ false
        → (merge_entry installer p ini k d).login_url ≡ d.login_url
    unfolding merge_entry
    login_url-merge_entry ini (text_key k) d h = elim (Bool-cases (is_empty (text_of k d))) [
      | inl e ↦ rw (e) (login_url-set_text k _ d e h)
      | inr e ↦ rw (e)
    ]
    login_url-merge_entry ini (flag_key k) d h = login_url-set_flag k _ d

    login_url-merge_entries :
        (ini : S) (ks : List Key) (d : DataSource)
        → is_empty d.login_url ≡ false
        → (merge_entries installer p ini ks d).login_url ≡ d.login_url
    unfolding merge_entries
    login_url-merge_entries ini [] d h = refl
    login_url-merge_entries ini (k ∷ ks) d h =
        let kept = login_url-merge_entry ini k d h in
        login_url-merge_entries ini ks (merge_entry installer p ini k d) (rw (kept) h) ∙ kept

    login_url-merge_from_ini :
        (ini : S) (d : DataSource)
        → is_empty d.login_url ≡ false
        → (merge_from_ini installer p ini d).login_url ≡ d.login_url
    unfolding merge_from_ini
    login_url-merge_from_ini ini d h = elim (Bool-cases (is_empty d.name)) [
      | inl e ↦ rw (e)
      | inr e ↦ rw (e) (login_url-merge_entries ini merged_keys d h)
    ]

    -- A connection that has had a login URL keeps it when it connects to a data source by another
    -- name, whatever the ini files say of that name.
    login_url-sql_connect :
        (ini : S) (d : DataSource) (name : Text) (user_name authentication : Option Text)
        → is_empty d.login_url ≡ false
        → (merged_source server installer ini p d name user_name authentication).login_url
          ≡ d.login_url
    unfolding merged_source
    login_url-sql_connect ini d name none none h =
        login_url-merge_from_ini ini (record d { name = name }) h
    login_url-sql_connect ini d name none (some t) h =
        login_url-merge_from_ini ini (record d { name = name }) h
    login_url-sql_connect ini d name (some u) none h =
        login_url-merge_from_ini ini (record d { name = name }) h
    login_url-sql_connect ini d name (some u) (some t) h =
        login_url-merge_from_ini ini (record d { name = name }) h
