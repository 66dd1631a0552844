-- ===== src/DataSource/Connection/RoundTrip.antt =====
-- project/common/src/DataSource.cpp: that a connection string, once read, gives back the settings it
-- was written from.
use ez_rets.Base.{
  ◌≡◌, refl, sym, ap, subst, ◌∙◌, Bool, true, false, not, List, [], ◌∷◌, ◌++◌, append_assoc,
  append-nil, some, ◌==◌, if◌then◌else◌, arith, Text, codes, is_empty, has, has-append,
}
use ez_rets.DataSource.{DataSource, new_data_source, string_to_bool, bool_to_string}
use ez_rets.DataSource.Connection.{
  append_to_connection_string, is_told, connection_keys, append_told, append_all,
  get_connection_string, value_part, token_value, token_key, set_token, set_tokens,
  set_from_odbc_connection_string,
}
use ez_rets.DataSource.Keys.{
  TextKey, FlagKey, Key, text_key, flag_key, ini_standard_names, ini_use_http_get,
  ini_use_http_logging, ini_use_debug_logging, ini_use_bulk_metadata, ini_ignore_metadata_type,
  ini_use_compact_format, ini_disable_get_object_metadata, ini_enable_user_agent_auth,
  ini_treat_decimal_as_string, ini_use_proxy, ini_supports_query_star, ini_http_log_everything,
  key_text, text_of, flag_of, set_text, set_flag, value_of, assign, key_of-key_text, set_text-same,
  set_flag-same, has-key_text, has_equals-key_text,
}
use ez_rets.Platform.{Platform}

-- The part of a data source that its connection string tells: the settings of the User-Agent
-- authorization and of the proxy only where these are enabled.
unfoldable pub told_part : DataSource → DataSource
told_part d = record d {
  user_agent_password = if d.enable_user_agent_auth then d.user_agent_password else [];
  user_agent_auth_type_string =
      if d.enable_user_agent_auth then d.user_agent_auth_type_string else [];
  proxy_url = if d.use_proxy then d.proxy_url else [];
  proxy_password = if d.use_proxy then d.proxy_password else [];
}

-- The two parts of a token with an '=' after a name without one.
token_key-append :
    (name value : Text) → has b'=' name ≡ false → token_key (name ++ b'=' ∷ value) ≡ name
unfolding token_key has
token_key-append [] value h = refl
token_key-append (x ∷ name) value h =
    let other : (x == b'=') ≡ false = ground arith in
    rw (other, token_key-append name value (ground arith))

value_part-append :
    (name value : Text) → has b'=' name ≡ false → value_part (name ++ b'=' ∷ value) ≡ some value
unfolding has
value_part-append [] value h = refl
value_part-append (x ∷ name) value h =
    let other : (x == b'=') ≡ false = ground arith in
    rw (other, value_part-append name value (ground arith))

-- What a setting becomes when the string written from a data source is read.
abbrev keep_setting : DataSource → Key → DataSource → DataSource
unfolding is_told text_of flag_of set_text set_flag
keep_setting src (text_key k) d =
    set_text k (if is_told src (text_key k) then text_of k src else []) d
keep_setting src (flag_key k) d = set_flag k (flag_of k src) d

abbrev keep_settings : DataSource → List Key → DataSource → DataSource
unfolding is_told text_of flag_of set_text set_flag
keep_settings src [] d = d
keep_settings src (k ∷ ks) d = keep_settings src ks (keep_setting src k d)

-- The setting has the value of a new data source.
IsUnset : Key → DataSource → Type 0
unfolding text_of flag_of
IsUnset (text_key k) d = text_of k d ≡ []
IsUnset (flag_key k) d = flag_of k d ≡ flag_of k new_data_source

-- Each setting is unset when its turn comes.
AreUnset : DataSource → List Key → DataSource → Type 0
unfolding IsUnset keep_setting is_told text_of flag_of set_text set_flag
AreUnset src [] d = Unit
AreUnset src (k ∷ ks) d = IsUnset k d × AreUnset src ks (keep_setting src k d)

-- A flag that is not told has the value of a new data source.
flag_of-not_told :
    (k : FlagKey) (src : DataSource)
    → is_told src (flag_key k) ≡ false
    → flag_of k src ≡ flag_of k new_data_source
unfolding is_told flag_of
flag_of-not_told ini_standard_names src h = ground arith
flag_of-not_told ini_use_http_get src h = ground arith
flag_of-not_told ini_use_http_logging src h = ground arith
flag_of-not_told ini_use_debug_logging src h = ground arith
flag_of-not_told ini_use_bulk_metadata src h = ground arith
flag_of-not_told ini_ignore_metadata_type src h = ground arith
flag_of-not_told ini_use_compact_format src h = ground arith
flag_of-not_told ini_disable_get_object_metadata src h = ground arith
flag_of-not_told ini_enable_user_agent_auth src h = ground arith
flag_of-not_told ini_treat_decimal_as_string src h = ground arith
flag_of-not_told ini_use_proxy src h = ground arith
flag_of-not_told ini_supports_query_star src h = ground arith
flag_of-not_told ini_http_log_everything src h = ground arith

module _ (p : Platform)
    (split-next : (t rest : Text)
      → has b';' t ≡ false
      → p.split (t ++ b';' ∷ rest) b';' ≡ t ∷ p.split rest b';')
    (split-nil : p.split [] b';' ≡ [] ∷ []) (lower-true : p.to_lower (codes "true") ≡ codes "true")
    (lower-false : p.to_lower (codes "false") ≡ codes "false") where
  -- Reading the text turns the one data source into the other, whatever text follows.
  Turns : DataSource → Text → DataSource → Type 0
  unfolding set_tokens
  Turns d0 s d =
      (rest : Text)
      → set_tokens p (p.split (s ++ rest) b';') d0 ≡ set_tokens p (p.split rest b';') d

  set_token-assign :
      (k : Key) (v : Text) (d : DataSource)
      → set_token p (key_text k ++ b'=' ∷ v) d ≡ assign p k v d
  unfolding set_token token_value token_key
  set_token-assign k v d = rw (
    token_key-append (key_text k) v (has_equals-key_text k),
    value_part-append (key_text k) v (has_equals-key_text k),
    key_of-key_text k,
  )

  has-token : (k : Key) (v : Text) → has b';' v ≡ false → has b';' (key_text k ++ b'=' ∷ v) ≡ false
  unfolding has
  has-token k v h = rw (has-append b';' (key_text k) (b'=' ∷ v), has-key_text k, h)

  regroup :
      (name v rest : Text)
      → (name ++ b'=' ∷ (v ++ b';' ∷ [])) ++ rest ≡ (name ++ b'=' ∷ v) ++ b';' ∷ rest
  regroup [] v rest = ap (◌∷◌ b'=') (append_assoc v (b';' ∷ []) rest)
  regroup (x ∷ name) v rest = ap (◌∷◌ x) (regroup name v rest)

  Turns-append :
      (k : Key) (v s : Text) (d0 d : DataSource)
      → has b';' v ≡ false
      → Turns d0 s d
      → Turns d0 (s ++ (key_text k ++ b'=' ∷ (v ++ b';' ∷ []))) (assign p k v d)
  unfolding Turns set_tokens
  Turns-append k v s d0 d clean h = λ rest. rw (
    append_assoc s (key_text k ++ b'=' ∷ (v ++ b';' ∷ [])) rest,
    h,
    regroup (key_text k) v rest,
    split-next (key_text k ++ b'=' ∷ v) rest (has-token k v clean),
    ← set_token-assign k v d,
  )

  string_to_bool-bool_to_string : (b : Bool) → string_to_bool p (bool_to_string b) ≡ b
  unfolding string_to_bool
  string_to_bool-bool_to_string true = rw (lower-true, string_to_bool)
  string_to_bool-bool_to_string false = rw (lower-false, string_to_bool)

  set_text-unset : (k : TextKey) (d : DataSource) → text_of k d ≡ [] → set_text k [] d ≡ d
  set_text-unset k d h = ap (λ t. set_text k t d) (sym h) ∙ set_text-same k d

  set_flag-unset : (k : FlagKey) (b : Bool) (d : DataSource) → flag_of k d ≡ b → set_flag k b d ≡ d
  set_flag-unset k b d h = ap (λ t. set_flag k t d) (sym h) ∙ set_flag-same k d

  Turns-value :
      (k : TextKey) (v s : Text) (d0 d : DataSource)
      → has b';' v ≡ false
      → text_of k d ≡ []
      → Turns d0 s d
      → Turns d0 (append_to_connection_string s (key_text (text_key k)) v) (set_text k v d)
  unfolding append_to_connection_string assign
  Turns-value k [] s d0 d clean unset h = rw (set_text-unset k d unset) h
  Turns-value k (x ∷ v) s d0 d clean unset h = Turns-append (text_key k) (x ∷ v) s d0 d clean h

  Turns-flag :
      (k : FlagKey) (b : Bool) (s : Text) (d0 d : DataSource)
      → Turns d0 s d
      → Turns d0
          (append_to_connection_string s (key_text (flag_key k)) (bool_to_string b))
          (set_flag k b d)
  unfolding append_to_connection_string assign has
  Turns-flag k true s d0 d h =
      subst
        (λ b.
          Turns d0 (s ++ (key_text (flag_key k) ++ b'=' ∷ (codes "true" ++ b';' ∷ [])))
            (set_flag k b d))
        (string_to_bool-bool_to_string true)
        (Turns-append (flag_key k) (codes "true") s d0 d refl h)
  Turns-flag k false s d0 d h =
      subst
        (λ b.
          Turns d0 (s ++ (key_text (flag_key k) ++ b'=' ∷ (codes "false" ++ b';' ∷ [])))
            (set_flag k b d))
        (string_to_bool-bool_to_string false)
        (Turns-append (flag_key k) (codes "false") s d0 d refl h)

  module _ (src : DataSource) (clean : (k : TextKey) → has b';' (text_of k src) ≡ false) where
    Turns-told :
        (k : Key) (s : Text) (d0 d : DataSource) (told : Bool)
        → is_told src k ≡ told
        → IsUnset k d
        → Turns d0 s d
        → Turns d0 (append_told src k s) (keep_setting src k d)
    unfolding append_told IsUnset keep_setting is_told append_to_connection_string value_of
    Turns-told (text_key k) s d0 d true e unset h =
        rw (e) (Turns-value k (text_of k src) s d0 d (clean k) unset h)
    Turns-told (text_key k) s d0 d false e unset h = rw (e) (rw (set_text-unset k d unset) h)
    Turns-told (flag_key k) s d0 d true e unset h = rw (e) (Turns-flag k (flag_of k src) s d0 d h)
    Turns-told (flag_key k) s d0 d false e unset h =
        rw (e) (rw (set_flag-unset k (flag_of k src) d (unset ∙ sym (flag_of-not_told k src e))) h)

    Turns-all :
        (ks : List Key) (s : Text) (d0 d : DataSource)
        → AreUnset src ks d
        → Turns d0 s d
        → Turns d0 (append_all src ks s) (keep_settings src ks d)
    unfolding AreUnset append_all keep_settings
    Turns-all [] s d0 d unset h = h
    Turns-all (k ∷ ks) s d0 d unset h =
        Turns-all ks (append_told src k s) d0 (keep_setting src k d) unset.1
          (Turns-told k s d0 d (is_told src k) refl unset.0 h)

    all_unset : AreUnset src connection_keys new_data_source
    unfolding AreUnset
    all_unset = search

    keep_settings-connection_keys :
        keep_settings src connection_keys new_data_source ≡ told_part src
    unfolding keep_settings told_part
    keep_settings-connection_keys =
        ap (λ t. record (told_part src) { driver = t }) (driver_or src.driver)
      where
        driver_or : (t : Text) → (if not (is_empty t) then t else []) ≡ t
        driver_or [] = refl
        driver_or (x ∷ t) = refl

    -- A new data source that reads the connection string of a data source becomes that data
    -- source, but for the settings that the string does not tell. No text of the settings holds a
    -- semicolon; the library's split is at each semicolon, and its to_lower leaves the two words.
    pub set_from_odbc_connection_string-get :
        set_from_odbc_connection_string p (get_connection_string src) new_data_source
        ≡ told_part src
    unfolding set_from_odbc_connection_string get_connection_string Turns set_token
    set_from_odbc_connection_string-get =
        let h =
          Turns-all connection_keys [] new_data_source new_data_source all_unset (λ rest. refl)
            [] in
        rw (
          ← append-nil (append_all src connection_keys []),
          h,
          split-nil,
          keep_settings-connection_keys,
        )
