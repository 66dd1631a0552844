-- ===== src/Setup/Shown.antt =====
-- project/setup/src/DataSourceValidator.cpp: proofs on the transfer between window and settings.
use ez_rets.Base.{
  ◌≡◌, refl, ap, sym, subst, inl, inr, Bool, true, false, not, List, [], ◌∷◌, if◌then◌else◌,
  Bool-cases, Text, text_eq, text_eq_iff, codes,
}
use ez_rets.DataSource.{DataSource}
use ez_rets.DataSource.Keys.{
  ini_use_http_get, ini_use_compact_format, ini_rets_version, ini_user_agent_auth_type,
  ini_encoding_type, text_of, flag_of, set_text, set_flag,
}
use ez_rets.DataSource.Strings.{
  ok, rets_1_5, rets_xml_default_encoding, user_agent_auth_interealty, rets_version_to_string,
  string_to_rets_version, encoding_type_to_string, string_to_encoding_type,
  user_agent_auth_type_to_string, string_to_user_agent_auth_type, get_rets_version,
  set_rets_version, get_user_agent_auth_type, set_user_agent_auth_type, get_encoding_type,
  set_encoding_type,
}
use ez_rets.Platform.{Platform}
use ez_rets.Setup.{
  Toolkit, Field, name_field, login_url_field, username_field, password_field, standard_names_field,
  custom_user_agent_field, use_http_get_field, use_http_logging_field, http_log_everything_field,
  http_log_file_field, use_debug_logging_field, debug_log_file_field, rets_version_field,
  use_bulk_metadata_field, ignore_metadata_type_field, decode_lookup_values_field,
  enable_user_agent_auth_field, user_agent_password_field, user_agent_auth_type_field,
  treat_decimal_as_string_field, encoding_type_field, use_proxy_field, proxy_url_field,
  proxy_password_field, supports_querystar_field, Control, text_ctrl, check_box,
  decode_lookup_values_box, use_http_get_choice, rets_version_choice, user_agent_auth_type_choice,
  encoding_choice, Value, control, Window, choices, to_window, from_window,
}
use ez_rets.Setup.Dialog.{all_fields, from_fields, transfer_data_from_window}

unfoldable pub is_offered : List Text → Text → Bool
unfolding text_eq
is_offered [] t = false
is_offered (x ∷ xs) t = let rest = is_offered xs t in if text_eq t x then true else rest

AllOf : (Text → Type 0) → List Text → Type 0
AllOf P [] = Unit
AllOf P (x ∷ xs) = P x × AllOf P xs

-- What holds of each choice holds of the one that is selected.
all_offered :
    (P : Text → Type 0) (xs : List Text) → AllOf P xs → (t : Text) → is_offered xs t ≡ true → P t
unfolding is_offered AllOf
all_offered P [] holds t h = absurd cc
all_offered P (x ∷ xs) (now, later) t h = elim (Bool-cases (text_eq t x)) [
  | inl e ↦ subst P (sym ((text_eq_iff t x).0 e)) now
  | inr e ↦ all_offered P xs later t (rw (e) at h)
]

-- The value is a choice that the control offers, if it has any.
unfoldable pub IsChoice : (c : Control) → Value c → Type 0
unfolding is_offered
IsChoice (text_ctrl k) v = Unit
IsChoice (check_box k) v = Unit
IsChoice decode_lookup_values_box v = Unit
IsChoice use_http_get_choice v = is_offered (choices use_http_get_choice) v ≡ true
IsChoice rets_version_choice v = is_offered (choices rets_version_choice) v ≡ true
IsChoice user_agent_auth_type_choice v = is_offered (choices user_agent_auth_type_choice) v ≡ true
IsChoice encoding_choice v = is_offered (choices encoding_choice) v ≡ true

-- The setting of a control, for a value that it offers.
store : (c : Control) → Value c → DataSource → DataSource
unfolding set_text set_flag text_eq
store (text_ctrl k) v d = set_text k v d
store (check_box k) v d = set_flag k v d
store decode_lookup_values_box v d = set_flag ini_use_compact_format (not v) d
store use_http_get_choice v d = set_flag ini_use_http_get (text_eq v (codes "GET")) d
store rets_version_choice v d = set_text ini_rets_version v d
store user_agent_auth_type_choice v d = set_text ini_user_agent_auth_type v d
store encoding_choice v d = set_text ini_encoding_type v d

-- The data source has the value of a control.
Stores : (c : Control) → Value c → DataSource → Type 0
unfolding text_of flag_of text_eq
Stores (text_ctrl k) v d = text_of k d ≡ v
Stores (check_box k) v d = flag_of k d ≡ v
Stores decode_lookup_values_box v d = d.use_compact_format ≡ not v
Stores use_http_get_choice v d = d.use_http_get ≡ text_eq v (codes "GET")
Stores rets_version_choice v d = d.rets_version_string ≡ v
Stores user_agent_auth_type_choice v d = d.user_agent_auth_type_string ≡ v
Stores encoding_choice v d = d.encoding_type_string ≡ v

not-not : (b : Bool) → not (not b) ≡ b
not-not true = refl
not-not false = refl

module _ (p : Platform) where
  -- A choice of the dialog is the text of the value that it stands for.
  named_version :
      (t : Text)
      → is_offered (choices rets_version_choice) t ≡ true
      → rets_version_to_string p (string_to_rets_version t rets_1_5) ≡ ok t
  unfolding rets_version_to_string string_to_rets_version AllOf
  named_version =
      all_offered (λ t. rets_version_to_string p (string_to_rets_version t rets_1_5) ≡ ok t)
        (choices rets_version_choice) (refl, (refl, (refl, (refl, tt))))

  named_auth_type :
      (t : Text)
      → is_offered (choices user_agent_auth_type_choice) t ≡ true
      → user_agent_auth_type_to_string p
          (string_to_user_agent_auth_type t user_agent_auth_interealty)
        ≡ ok t
  unfolding user_agent_auth_type_to_string string_to_user_agent_auth_type AllOf
  named_auth_type =
      all_offered
        (λ t.
          user_agent_auth_type_to_string p
            (string_to_user_agent_auth_type t user_agent_auth_interealty)
          ≡ ok t)
        (choices user_agent_auth_type_choice) (refl, (refl, tt))

  named_encoding :
      (t : Text)
      → is_offered (choices encoding_choice) t ≡ true
      → encoding_type_to_string p (string_to_encoding_type t rets_xml_default_encoding) ≡ ok t
  unfolding encoding_type_to_string string_to_encoding_type AllOf
  named_encoding =
      all_offered
        (λ t.
          encoding_type_to_string p (string_to_encoding_type t rets_xml_default_encoding) ≡ ok t)
        (choices encoding_choice) (refl, (refl, (refl, tt)))

  from_window-store :
      (c : Control) (v : Value c) (d : DataSource)
      → IsChoice c v
      → from_window p c v d ≡ ok (store c v d)
  unfolding from_window store set_text set_flag set_rets_version set_user_agent_auth_type
      set_encoding_type IsChoice
  from_window-store (text_ctrl k) v d h = refl
  from_window-store (check_box k) v d h = refl
  from_window-store decode_lookup_values_box v d h = refl
  from_window-store use_http_get_choice v d h = refl
  from_window-store rets_version_choice v d h = rw (named_version v h)
  from_window-store user_agent_auth_type_choice v d h = rw (named_auth_type v h)
  from_window-store encoding_choice v d h = rw (named_encoding v h)

  store_all : List Field → Window → DataSource → DataSource
  unfolding store
  store_all [] w d = d
  store_all (f ∷ fs) w d = store_all fs w (store (control f) (w f) d)

  from_fields-store_all :
      (fs : List Field) (w : Window) (d : DataSource)
      → ((f : Field) → IsChoice (control f) (w f))
      → from_fields p fs w d ≡ ok (store_all fs w d)
  unfolding from_fields store_all
  from_fields-store_all [] w d h = refl
  from_fields-store_all (f ∷ fs) w d h =
      rw (from_window-store (control f) (w f) d (h f))
        (from_fields-store_all fs w (store (control f) (w f) d) h)

  -- After every control is stored, the data source has the value of each, whatever its driver.
  Stores-all :
      (w : Window) (d : DataSource) (driver : Text) (f : Field)
      → Stores (control f) (w f) (record (store_all all_fields w d) { driver = driver })
  unfolding Stores store_all store set_text set_flag text_of flag_of
  Stores-all w d driver name_field = refl
  Stores-all w d driver login_url_field = refl
  Stores-all w d driver username_field = refl
  Stores-all w d driver password_field = refl
  Stores-all w d driver standard_names_field = refl
  Stores-all w d driver custom_user_agent_field = refl
  Stores-all w d driver use_http_get_field = refl
  Stores-all w d driver use_http_logging_field = refl
  Stores-all w d driver http_log_everything_field = refl
  Stores-all w d driver http_log_file_field = refl
  Stores-all w d driver use_debug_logging_field = refl
  Stores-all w d driver debug_log_file_field = refl
  Stores-all w d driver rets_version_field = refl
  Stores-all w d driver use_bulk_metadata_field = refl
  Stores-all w d driver ignore_metadata_type_field = refl
  Stores-all w d driver decode_lookup_values_field = refl
  Stores-all w d driver enable_user_agent_auth_field = refl
  Stores-all w d driver user_agent_password_field = refl
  Stores-all w d driver user_agent_auth_type_field = refl
  Stores-all w d driver treat_decimal_as_string_field = refl
  Stores-all w d driver encoding_type_field = refl
  Stores-all w d driver use_proxy_field = refl
  Stores-all w d driver proxy_url_field = refl
  Stores-all w d driver proxy_password_field = refl
  Stores-all w d driver supports_querystar_field = refl

  module _ (toolkit : Toolkit)
      (select-offered : (xs : List Text) (v t : Text)
        → is_offered xs t ≡ true
        → toolkit.set_string_selection xs v t ≡ t) where
    method-selected :
        (t v : Text)
        → is_offered (choices use_http_get_choice) t ≡ true
        → (if text_eq t (codes "GET")
            then toolkit.set_string_selection (choices use_http_get_choice) v (codes "GET")
            else toolkit.set_string_selection (choices use_http_get_choice) v (codes "POST"))
          ≡ t
    unfolding text_eq AllOf is_offered
    method-selected t v =
        all_offered
          (λ t.
            (if text_eq t (codes "GET")
              then toolkit.set_string_selection (choices use_http_get_choice) v (codes "GET")
              else toolkit.set_string_selection (choices use_http_get_choice) v (codes "POST"))
            ≡ t)
          (choices use_http_get_choice)
          (
            select-offered (choices use_http_get_choice) v (codes "GET") refl,
            (select-offered (choices use_http_get_choice) v (codes "POST") refl, tt),
          )
          t

    to_window-Stores :
        (c : Control) (v before : Value c) (d : DataSource)
        → IsChoice c v
        → Stores c v d
        → to_window p toolkit c d before ≡ ok v
    unfolding to_window Stores IsChoice get_rets_version get_user_agent_auth_type get_encoding_type
    to_window-Stores (text_ctrl k) v before d h stored = ap ok stored
    to_window-Stores (check_box k) v before d h stored = ap ok stored
    to_window-Stores decode_lookup_values_box v before d h stored = rw (stored, not-not v)
    to_window-Stores use_http_get_choice v before d h stored =
        rw (stored) (ap ok (method-selected v before h))
    to_window-Stores rets_version_choice v before d h stored =
        rw (stored, named_version v h, select-offered (choices rets_version_choice) before v h)
    to_window-Stores user_agent_auth_type_choice v before d h stored = rw (
      stored,
      named_auth_type v h,
      select-offered (choices user_agent_auth_type_choice) before v h,
    )
    to_window-Stores encoding_choice v before d h stored =
        rw (stored, named_encoding v h, select-offered (choices encoding_choice) before v h)

    -- A window whose choices are among those that it offers is taken into the data source without an
    -- exception, and shows again in every control as it was, whatever the controls hold before and
    -- whatever the driver is set to. A choice that is offered can be selected.
    pub to_window-transfer_data_from_window :
        (w : Window) (d : DataSource)
        → ((f : Field) → IsChoice (control f) (w f))
        → (d' : DataSource) × ((transfer_data_from_window p w d ≡ ok d')
            × ((driver : Text) (f : Field) (before : Value (control f))
                → to_window p toolkit (control f) (record d' { driver = driver }) before
                  ≡ ok (w f)))
    to_window-transfer_data_from_window w d h = (
      store_all all_fields w d,
      (
        from_fields-store_all all_fields w d h,
        λ driver f before.
            to_window-Stores (control f) (w f) before
              (record (store_all all_fields w d) { driver = driver }) (h f)
              (Stores-all w d driver f),
      ),
    )
