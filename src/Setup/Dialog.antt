-- ===== src/Setup/Dialog.antt =====
-- project/setup/src/SetupDialog.cpp: the dialog, from when it is shown until it is closed.
use ez_rets.Base.{
  Bool, false, ◌&&◌, List, [], ◌∷◌, Option, none, some, if◌then◌else◌, Text, codes, is_empty,
}
use ez_rets.DataSource.{DataSource}
use ez_rets.DataSource.Strings.{Result, ok, thrown}
use ez_rets.Platform.{Platform}
use ez_rets.Setup.{
  Toolkit, Field, name_field, login_url_field, username_field, password_field, standard_names_field,
  custom_user_agent_field, use_http_get_field, use_http_logging_field, http_log_everything_field,
  http_log_file_field, use_debug_logging_field, debug_log_file_field, rets_version_field,
  use_bulk_metadata_field, ignore_metadata_type_field, decode_lookup_values_field,
  enable_user_agent_auth_field, user_agent_password_field, user_agent_auth_type_field,
  treat_decimal_as_string_field, encoding_type_field, use_proxy_field, proxy_url_field,
  proxy_password_field, supports_querystar_field, Control, text_ctrl, check_box,
  decode_lookup_values_box, use_http_get_choice, rets_version_choice, user_agent_auth_type_choice,
  encoding_choice, Value, control, Window, to_window, from_window, validate,
}

-- The controls as the panels make them, one panel after the other.
abbrev pub all_fields : List Field
all_fields =
    name_field ∷ login_url_field ∷ username_field ∷ password_field ∷ custom_user_agent_field
    ∷ enable_user_agent_auth_field ∷ user_agent_auth_type_field ∷ user_agent_password_field
    ∷ use_http_get_field ∷ rets_version_field ∷ encoding_type_field ∷ standard_names_field
    ∷ use_bulk_metadata_field ∷ decode_lookup_values_field ∷ ignore_metadata_type_field
    ∷ treat_decimal_as_string_field ∷ supports_querystar_field ∷ use_http_logging_field
    ∷ http_log_file_field ∷ http_log_everything_field ∷ use_debug_logging_field
    ∷ debug_log_file_field ∷ use_proxy_field ∷ proxy_url_field ∷ proxy_password_field ∷ []

abbrev pub ok_and : {A B : Type 0} → Result A → (A → Result B) → Result B
ok_and (ok a) next = next a
ok_and (thrown t) next = thrown t

-- TransferDataFromWindow: the validators of the controls, one after the other
unfoldable pub from_fields : Platform → List Field → Window → DataSource → Result DataSource
unfolding from_window
from_fields p [] w d = ok d
from_fields p (f ∷ fs) w d = ok_and (from_window p (control f) (w f) d) (from_fields p fs w)

abbrev pub transfer_data_from_window : Platform → Window → DataSource → Result DataSource
transfer_data_from_window p = from_fields p all_fields

abbrev pub result_or : {A : Type 0} → A → Result A → A
result_or a (ok b) = b
result_or a (thrown t) = a

-- The window that shows a data source.
abbrev pub shown_window : Platform → Toolkit → DataSource → Window → Window
shown_window p toolkit d w f = result_or (w f) (to_window p toolkit (control f) d (w f))

-- What the validators make of the controls, or the exception of the first that throws.
unfoldable pub to_fields : Platform → Toolkit → List Field → DataSource → Window → Result Window
unfolding to_window
to_fields p toolkit [] d w = ok (shown_window p toolkit d w)
to_fields p toolkit (f ∷ fs) d w =
    ok_and (to_window p toolkit (control f) d (w f)) (λ v. to_fields p toolkit fs d w)

-- SetupDialog::TransferDataToWindow
abbrev pub transfer_data_to_window : Platform → Toolkit → DataSource → Window → Result Window
transfer_data_to_window p toolkit = to_fields p toolkit all_fields

abbrev pub or_else : Option Text → Option Text → Option Text
or_else none next = next
or_else (some t) next = some t

unfoldable pub first_refused : Toolkit → List Field → Window → Option Text
unfolding validate
first_refused toolkit [] w = none
first_refused toolkit (f ∷ fs) w = or_else (validate toolkit f (w f)) (first_refused toolkit fs w)

abbrev pub needs : Bool → Text → Text → Option Text
needs on v message = if on && is_empty v then some message else none

-- SetupDialog::Validate: the message that it shows, or that of a validator
unfoldable pub dialog_validate : Toolkit → Window → Option Text
unfolding first_refused
dialog_validate toolkit w =
    or_else
      (needs (w use_http_logging_field) (w http_log_file_field)
        (codes "The HTTP log file must not be empty.\n"))
      (or_else
        (needs (w use_debug_logging_field) (w debug_log_file_field)
          (codes "The debug log file must not be empty.\n"))
        (or_else
          (needs (w enable_user_agent_auth_field) (w user_agent_password_field)
            (codes "The User-Agent Password must not be empty.\n"))
          (or_else
            (needs (w use_proxy_field) (w proxy_url_field)
              (codes "If HTTP Proxy is turned on, the Proxy URL must not be empty.\n"))
            (first_refused toolkit all_fields w))))

-- What the user does: change the controls, or press Test, OK or Cancel.
pub data Action : Type 0 where
  edited : Window → Action
  tested confirmed cancelled : Action

-- How the dialog ends, with the data source as it then is; an exception ends it too.
pub data Ending : Type 0 where
  accepted rejected : DataSource → Ending
  failed : Text → Ending

abbrev pub after_transfer : Result DataSource → (DataSource → Ending) → Ending
after_transfer (ok d) next = next d
after_transfer (thrown t) next = failed t

abbrev pub if_valid : Option Text → Ending → Ending → Ending
if_valid none valid refused = valid
if_valid (some t) valid refused = refused

-- SetupDialog's buttons: OnTest, and wxDialog's OK and Cancel. A dialog that the user leaves open
-- counts as rejected.
unfoldable pub act : Platform → Toolkit → List Action → Window → DataSource → Ending
unfolding from_fields dialog_validate
act p toolkit [] w d = rejected d
act p toolkit (edited w' ∷ steps) w d = act p toolkit steps w' d
act p toolkit (tested ∷ steps) w d =
    if_valid (dialog_validate toolkit w)
      (after_transfer (transfer_data_from_window p w d) (act p toolkit steps w))
      (act p toolkit steps w d)
act p toolkit (confirmed ∷ steps) w d =
    if_valid (dialog_validate toolkit w) (after_transfer (transfer_data_from_window p w d) accepted)
      (act p toolkit steps w d)
act p toolkit (cancelled ∷ steps) w d = rejected d

-- The controls as the panels make them: empty, unchecked, and with no choice selected.
unfoldable pub blank_value : (c : Control) → Value c
blank_value (text_ctrl k) = []
blank_value (check_box k) = false
blank_value decode_lookup_values_box = false
blank_value use_http_get_choice = []
blank_value rets_version_choice = []
blank_value user_agent_auth_type_choice = []
blank_value encoding_choice = []

abbrev pub opened : Platform → Toolkit → List Action → DataSource → Result Window → Ending
unfolding act
opened p toolkit steps d (ok w) = act p toolkit steps w d
opened p toolkit steps d (thrown t) = failed t

-- Setup::ShowDialog: what is shown first, and then what the user does
unfoldable pub show_dialog : Platform → Toolkit → List Action → DataSource → Ending
unfolding act to_fields blank_value
show_dialog p toolkit steps d =
    opened p toolkit steps d (transfer_data_to_window p toolkit d (λ f. blank_value (control f)))
