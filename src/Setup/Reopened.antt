-- ===== src/Setup/Reopened.antt =====
-- project/setup/src/Setup.cpp and SetupDialog.cpp: proofs on the dialog and what it saves.
use ez_rets.Base.{
  ◌<◌, ◌≡◌, ◌⊎◌, inl, inr, refl, sym, ap, subst, Bool, true, false, List, [], ◌∷◌, ◌++◌, Option,
  none, some, length, Text, text_eq, codes, is_empty, Bool-cases,
}
use ez_rets.DataSource.{DataSource, new_data_source, named}
use ez_rets.DataSource.Ini.{
  Installer, profile_size, and_then, assert_sql_success, write_to_ini, create_in_ini,
  merge_from_ini,
}
use ez_rets.DataSource.Ini.RoundTrip.{IsWritten, merge_from_ini-write}
use ez_rets.DataSource.Keys.{Key, key_text, value_of}
use ez_rets.DataSource.Strings.{ok}
use ez_rets.Platform.{Platform}
use ez_rets.Setup.{Toolkit, Field, Value, control, Window, to_window}
use ez_rets.Setup.Config.{add_dsn}
use ez_rets.Setup.Dialog.{
  dialog_validate, Action, edited, tested, confirmed, cancelled, Ending, accepted, if_valid,
  shown_window, act, blank_value, show_dialog,
}
use ez_rets.Setup.Opening.{transfer_data_to_window-opens}
use ez_rets.Setup.Shown.{is_offered, IsChoice, to_window-transfer_data_from_window}

-- Each choice of the window is one that its control offers.
abbrev pub HasChoices : Window → Type 0
HasChoices w = (f : Field) → IsChoice (control f) (w f)

-- The user selects only what the controls offer.
abbrev pub AreChoices : List Action → Type 0
AreChoices [] = Unit
AreChoices (edited w ∷ steps) = HasChoices w × AreChoices steps
AreChoices (tested ∷ steps) = AreChoices steps
AreChoices (confirmed ∷ steps) = AreChoices steps
AreChoices (cancelled ∷ steps) = AreChoices steps

abbrev unless_refused : Option Text → Window → Window → Window
unless_refused none w later = w
unless_refused (some t) w later = later

-- The window as the user leaves it: what the controls hold when OK is pressed and the dialog's tests
-- let them pass.
unfoldable pub left_window : Toolkit → List Action → Window → Window
unfolding dialog_validate
left_window toolkit [] w = w
left_window toolkit (edited w' ∷ steps) w = left_window toolkit steps w'
left_window toolkit (tested ∷ steps) w = left_window toolkit steps w
left_window toolkit (confirmed ∷ steps) w =
    unless_refused (dialog_validate toolkit w) w (left_window toolkit steps w)
left_window toolkit (cancelled ∷ steps) w = w

module _ (p : Platform) (toolkit : Toolkit) where
  -- The window shows the data source, whatever its driver.
  abbrev pub Shows : DataSource → Window → Type 0
  Shows d w =
      (driver : Text) (f : Field) (before : Value (control f))
      → to_window p toolkit (control f) (record d { driver = driver }) before ≡ ok (w f)

  -- The window passes the dialog's tests and shows the data source.
  abbrev pub IsShownBy : DataSource → Window → Type 0
  IsShownBy d w = (dialog_validate toolkit w ≡ none) × Shows d w

  -- A window that the dialog lets pass shows the data source.
  abbrev pub IsEntered : DataSource → Type 0
  IsEntered d = (w : Window) × IsShownBy d w

module _ (p : Platform) (toolkit : Toolkit)
    (select-offered : (xs : List Text) (v t : Text)
      → is_offered xs t ≡ true
      → toolkit.set_string_selection xs v t ≡ t) where
  passes :
      (next refused : Ending) (d' : DataSource) (message : Option Text)
      → if_valid message next refused ≡ accepted d'
      → ((message ≡ none) × (next ≡ accepted d'))
        ⊎ (((t : Text) × (message ≡ some t)) × (refused ≡ accepted d'))
  passes next refused d' none h = inl (refl, h)
  passes next refused d' (some t) h = inr ((t, refl), h)

  accepted-injective : (d d' : DataSource) → ◌≡◌ {A = Ending} (accepted d) (accepted d') → d ≡ d'
  accepted-injective d d' h = cc

  act-accepted :
      (steps : List Action) (w : Window) (d d' : DataSource)
      → HasChoices w
      → AreChoices steps
      → act p toolkit steps w d ≡ accepted d'
      → IsShownBy p toolkit d' (left_window toolkit steps w)
  unfolding act left_window
  act-accepted [] w d d' offered steps_offered h = absurd cc
  act-accepted (edited w' ∷ steps) w d d' offered (now, later) h =
      act-accepted steps w' d d' now later h
  act-accepted (tested ∷ steps) w d d' offered later h =
      let (d1, (e, shown)) =
        to_window-transfer_data_from_window p toolkit select-offered w d offered in
      elim (passes _ _ d' (dialog_validate toolkit w) h) [
        | inl (valid, next) ↦ act-accepted steps w d1 d' offered later (rw (e) at next)
        | inr (refused, next) ↦ act-accepted steps w d d' offered later next
      ]
  act-accepted (confirmed ∷ steps) w d d' offered later h =
      let (d1, (e, shown)) =
        to_window-transfer_data_from_window p toolkit select-offered w d offered in
      elim (passes _ _ d' (dialog_validate toolkit w) h) [
        | inl (valid, next) ↦ rw (valid) (
            subst (λ x. IsShownBy p toolkit x w) (accepted-injective d1 d' (rw (e) at next))
              (valid, shown))
        | inr ((t, refused), next) ↦ rw (refused) (act-accepted steps w d d' offered later next)
      ]
  act-accepted (cancelled ∷ steps) w d d' offered later h = absurd cc

  show_dialog-left :
      (steps : List Action) (d d' : DataSource)
      → AreChoices steps
      → show_dialog p toolkit steps d ≡ accepted d'
      → IsShownBy p toolkit d'
          (left_window toolkit steps (shown_window p toolkit d (λ f. blank_value (control f))))
  unfolding show_dialog
  show_dialog-left steps d d' offered h =
      let blank : Window = λ f. blank_value (control f) in
      let (e, has_choices) = transfer_data_to_window-opens p toolkit select-offered d blank in
      act-accepted steps (shown_window p toolkit d blank) d d' has_choices offered (rw (e) at h)

  -- What the user accepts was entered: whatever is done in the dialog, shown for whatever data
  -- source, the one that is accepted is shown by a window that the dialog's tests let pass. The
  -- user selects only what the controls offer, and a choice that is offered can be selected.
  pub show_dialog-accepted :
      (steps : List Action) (d d' : DataSource)
      → AreChoices steps
      → show_dialog p toolkit steps d ≡ accepted d'
      → IsEntered p toolkit d'
  show_dialog-accepted steps d d' offered h = (_, show_dialog-left steps d d' offered h)

  module _ {S : Type 0} (installer : Installer S)
      (get-write : (st st' : S) (n e v default_value : Text)
        → installer.write_private_profile_string st n e v ≡ (st', true)
        → is_empty v ≡ false
        → length v < profile_size
        → installer.get_private_profile_string st' n e default_value profile_size ≡ v)
      (get-write_other : (st st' : S) (n e e' v default_value : Text)
        → installer.write_private_profile_string st n e v ≡ (st', true)
        → text_eq e e' ≡ false
        → installer.get_private_profile_string st' n e' default_value profile_size
          ≡ installer.get_private_profile_string st n e' default_value profile_size)
      (get-write_dsn : (st st' : S) (n driver default_value : Text) (k : Key)
        → installer.write_dsn_to_ini st n driver ≡ (st', true)
        → IsWritten k
        → installer.get_private_profile_string st' n (key_text k) default_value profile_size
          ≡ default_value)
      (lower-true : p.to_lower (codes "true") ≡ codes "true")
      (lower-false : p.to_lower (codes "false") ≡ codes "false") where
    dsn_written :
        (d : DataSource) (driver : Text) (st' : S) (r : S × Bool)
        → and_then installer
            (assert_sql_success installer d (codes "driver: " ++ driver) r)
            (write_to_ini installer d)
          ≡ (st', none)
        → (s1 : S) × ((r ≡ (s1, true)) × (write_to_ini installer d s1 ≡ (st', none)))
    dsn_written d driver st' (s1, true) h = (s1, (refl, h))
    dsn_written d driver st' (s1, false) h = let thrown = ap (λ q. q.1) h in absurd cc

    created :
        (d : DataSource) (driver : Text) (st st' : S)
        → create_in_ini installer d driver st ≡ (st', none)
        → (s1 : S) × ((installer.write_dsn_to_ini st d.name driver ≡ (s1, true))
            × (write_to_ini installer d s1 ≡ (st', none)))
    unfolding create_in_ini
    created d driver st st' h = elim (Bool-cases (is_empty d.name)) [
      | inl e ↦ let refused = ap (λ q. q.1) (rw (e) at h) in absurd cc
      | inr e ↦ dsn_written d driver st' (installer.write_dsn_to_ini st d.name driver) (rw (e) at h)
    ]

    merge_from_ini-create :
        (d : DataSource) (driver : Text) (st st' : S)
        → ((k : Key) → length (value_of k d) < profile_size)
        → create_in_ini installer d driver st ≡ (st', none)
        → merge_from_ini installer p st' (named d.name) ≡ record d { driver = [] }
    merge_from_ini-create d driver st st' fits h =
        let (s1, (dsn, entries)) = created d driver st st' h in
        merge_from_ini-write installer get-write get-write_other d fits p lower-true lower-false s1
          st' (λ k t written. get-write_dsn st s1 d.name driver t k dsn written) entries

    -- What the user enters for a new data source is what the dialog shows of it the next time: the
    -- data source that is read back from its name is shown, in every control, as the user left it
    -- when the dialog was accepted, and the dialog's tests let that window pass. The user selects only what the controls offer and accepts the
    -- dialog, and nothing is thrown; each value fits the buffer of GetProfileString; a choice that is
    -- offered can be selected; SQLWriteDSNToIni leaves no setting under the name, a get gives what
    -- was last written, and a write leaves the other entries; to_lower leaves the words "true" and
    -- "false".
    pub to_window-add_dsn :
        (steps : List Action) (driver : Text) (d : DataSource) (st st' : S)
        → AreChoices steps
        → show_dialog p toolkit steps new_data_source ≡ accepted d
        → ((k : Key) → length (value_of k d) < profile_size)
        → add_dsn installer p toolkit driver steps st ≡ (st', none)
        → let w =
            left_window toolkit steps
              (shown_window p toolkit new_data_source (λ f. blank_value (control f))) in
          (dialog_validate toolkit w ≡ none)
          × ((f : Field) (before : Value (control f))
              → to_window p toolkit
                  (control f)
                  (merge_from_ini installer p st' (named d.name))
                  before
                ≡ ok (w f))
    unfolding add_dsn
    to_window-add_dsn steps driver d st st' offered shown fits h =
        let w =
          left_window toolkit steps
            (shown_window p toolkit new_data_source (λ f. blank_value (control f))) in
        let (valid, shows) = show_dialog-left steps new_data_source d offered shown in
        let merged = merge_from_ini-create d driver st st' fits (rw (shown) at h) in
        (
          valid,
          λ f before.
              subst (λ e. to_window p toolkit (control f) e before ≡ ok (w f)) (sym merged)
                (shows [] f before),
        )
