-- ===== src/Setup/Opening.antt =====
-- project/setup/src/DataSourceValidator.cpp: proofs on the opening of the dialog.
use ez_rets.Base.{
  ◌≡◌, refl, ap, Bool, true, false, List, [], ◌∷◌, if◌then◌else◌, Text, text_eq, codes,
}
use ez_rets.DataSource.{DataSource}
use ez_rets.DataSource.Strings.{
  RetsVersion, UserAgentAuthType, EncodingType, Result, ok, map_ok, rets_1_5,
  rets_xml_default_encoding, user_agent_auth_interealty, rets_version_to_string,
  string_to_rets_version, encoding_type_to_string, string_to_encoding_type,
  user_agent_auth_type_to_string, string_to_user_agent_auth_type, get_rets_version,
  get_user_agent_auth_type, get_encoding_type,
}
use ez_rets.Platform.{Platform}
use ez_rets.Setup.{
  Toolkit, Field, Control, text_ctrl, check_box, decode_lookup_values_box, use_http_get_choice,
  rets_version_choice, user_agent_auth_type_choice, encoding_choice, Value, control, Window,
  choices, to_window,
}
use ez_rets.Setup.Dialog.{all_fields, result_or, shown_window, to_fields, transfer_data_to_window}
use ez_rets.Setup.Shown.{is_offered, IsChoice}

module _ (p : Platform) (toolkit : Toolkit)
    (select-offered : (xs : List Text) (v t : Text)
      → is_offered xs t ≡ true
      → toolkit.set_string_selection xs v t ≡ t) where
  -- A control can be shown, and a choice is then one that is offered.
  unfoldable pub Showable : (c : Control) → DataSource → Value c → Type 0
  unfolding to_window IsChoice
  Showable c d before = (v : Value c) × ((to_window p toolkit c d before ≡ ok v) × IsChoice c v)

  -- A value whose text is offered can be selected.
  HasName : (xs : List Text) → Result Text → Type 0
  HasName xs r = (t : Text) × ((r ≡ ok t) × (is_offered xs t ≡ true))

  either : {A : Type 0} (P : A → Type 0) (b : Bool) {x y : A} → P x → P y → P (if b then x else y)
  either P true px py = px
  either P false px py = py

  selected :
      (xs : List Text) (before : Text) (r : Result Text)
      → HasName xs r
      → (v : Text) × ((map_ok (toolkit.set_string_selection xs before) r ≡ ok v)
          × (is_offered xs v ≡ true))
  unfolding HasName
  selected xs before r (t, (e, offered)) =
      (t, (rw (e) (ap ok (select-offered xs before t offered)), offered))

  named_by :
      (xs : List Text) (r : Result Text) (t : Text)
      → r ≡ ok t
      → is_offered xs t ≡ true
      → HasName xs r
  unfolding HasName
  named_by xs r t e offered = (t, (e, offered))

  HasName-version :
      (t : Text)
      → HasName
          (choices rets_version_choice)
          (rets_version_to_string p (string_to_rets_version t rets_1_5))
  unfolding HasName string_to_rets_version rets_version_to_string is_offered text_eq
  HasName-version t =
      let P : RetsVersion → Type 0 =
        λ v. HasName (choices rets_version_choice) (rets_version_to_string p v) in
      either P (text_eq t (codes "1.0")) (codes "1.0", (refl, refl))
        (either P (text_eq t (codes "1.5")) (codes "1.5", (refl, refl))
          (either P (text_eq t (codes "1.7")) (codes "1.7", (refl, refl))
            (either P (text_eq t (codes "1.7.2")) (codes "1.7.2", (refl, refl))
              (codes "1.5", (refl, refl)))))

  HasName-auth_type :
      (t : Text)
      → HasName (choices user_agent_auth_type_choice) (
          user_agent_auth_type_to_string p
            (string_to_user_agent_auth_type t user_agent_auth_interealty))
  unfolding HasName string_to_user_agent_auth_type user_agent_auth_type_to_string is_offered text_eq
  HasName-auth_type t =
      let P : UserAgentAuthType → Type 0 =
        λ v. HasName (choices user_agent_auth_type_choice) (user_agent_auth_type_to_string p v) in
      either P (text_eq t (codes "RETS 1.7")) (codes "RETS 1.7", (refl, refl))
        (either P (text_eq t (codes "NON-STANDARD INTEREALTY"))
          (codes "NON-STANDARD INTEREALTY", (refl, refl))
          (codes "NON-STANDARD INTEREALTY", (refl, refl)))

  HasName-encoding :
      (t : Text)
      → HasName
          (choices encoding_choice)
          (encoding_type_to_string p (string_to_encoding_type t rets_xml_default_encoding))
  unfolding HasName string_to_encoding_type encoding_type_to_string is_offered text_eq
  HasName-encoding t =
      let P : EncodingType → Type 0 =
        λ v. HasName (choices encoding_choice) (encoding_type_to_string p v) in
      either P (text_eq t (codes "Default (US-ASCII) Encoding"))
        (codes "Default (US-ASCII) Encoding", (refl, refl))
        (either P (text_eq t (codes "Extended (iso-8859-1) Encoding"))
          (codes "Extended (iso-8859-1) Encoding", (refl, refl))
          (either P (text_eq t (codes "UTF-8 Encoding")) (codes "UTF-8 Encoding", (refl, refl))
            (codes "Default (US-ASCII) Encoding", (refl, refl))))

  method_shown :
      (b : Bool) (before : Text)
      → (v : Text) × ((ok (
              if b
              then toolkit.set_string_selection (choices use_http_get_choice) before (codes "GET")
              else toolkit.set_string_selection (choices use_http_get_choice) before (codes "POST"))
            ≡ ok v)
          × (is_offered (choices use_http_get_choice) v ≡ true))
  unfolding is_offered
  method_shown true before =
      let e = select-offered (choices use_http_get_choice) before (codes "GET") refl in
      (codes "GET", (ap ok e, refl))
  method_shown false before =
      let e = select-offered (choices use_http_get_choice) before (codes "POST") refl in
      (codes "POST", (ap ok e, refl))

  pub to_window-Showable : (c : Control) (d : DataSource) (before : Value c) → Showable c d before
  unfolding Showable to_window IsChoice get_rets_version get_user_agent_auth_type get_encoding_type
  to_window-Showable (text_ctrl k) d before = (_, (refl, tt))
  to_window-Showable (check_box k) d before = (_, (refl, tt))
  to_window-Showable decode_lookup_values_box d before = (_, (refl, tt))
  to_window-Showable use_http_get_choice d before = method_shown d.use_http_get before
  to_window-Showable rets_version_choice d before =
      selected (choices rets_version_choice) before _ (HasName-version d.rets_version_string)
  to_window-Showable user_agent_auth_type_choice d before =
      selected (choices user_agent_auth_type_choice) before _
        (HasName-auth_type d.user_agent_auth_type_string)
  to_window-Showable encoding_choice d before =
      selected (choices encoding_choice) before _ (HasName-encoding d.encoding_type_string)

  shown-IsChoice :
      (c : Control) (d : DataSource) (before : Value c)
      → IsChoice c (result_or before (to_window p toolkit c d before))
  unfolding Showable
  shown-IsChoice c d before =
      let (v, (e, offered)) = to_window-Showable c d before in rw (e) offered

  to_fields-shown :
      (fs : List Field) (d : DataSource) (w : Window)
      → to_fields p toolkit fs d w ≡ ok (shown_window p toolkit d w)
  unfolding to_fields Showable
  to_fields-shown [] d w = refl
  to_fields-shown (f ∷ fs) d w =
      let (v, (e, offered)) = to_window-Showable (control f) d (w f) in
      rw (e) (to_fields-shown fs d w)

  -- The dialog opens without an exception, on a window whose choices are among those offered.
  pub transfer_data_to_window-opens :
      (d : DataSource) (w : Window)
      → (transfer_data_to_window p toolkit d w ≡ ok (shown_window p toolkit d w))
        × ((f : Field) → IsChoice (control f) (shown_window p toolkit d w f))
  transfer_data_to_window-opens d w =
      (to_fields-shown all_fields d w, λ f. shown-IsChoice (control f) d (w f))
