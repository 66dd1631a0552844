-- ===== src/DataSource/Ini/RoundTrip.antt =====
-- project/common/src/DataSource.cpp: that what is written to the ini files is read from them.
use ez_rets.Base.{
  ℕ, ◌<◌, ◌≡◌, ◌⊎◌, inl, inr, refl, sym, ap, subst, ◌∙◌, Bool, true, false, List, [], ◌∷◌, Option,
  none, some, if◌then◌else◌, Bool-cases, length, Text, text_eq, text_eq_iff, codes, is_empty,
}
use ez_rets.DataSource.{DataSource, named, string_to_bool, bool_to_string}
use ez_rets.DataSource.Ini.{
  Installer, profile_size, written_keys, merged_keys, default_flag, assert_sql_success,
  write_message, and_then, write_profile_string, write_entries, write_to_ini, get_profile_bool,
  merge_entry, merge_entries, merge_from_ini,
}
use ez_rets.DataSource.Keys.{
  Key, text_key, flag_key, key_text, text_of, flag_of, set_text, set_flag, value_of, find_key,
  key_of, key_of-key_text,
}
use ez_rets.Platform.{Platform}

-- The text that a get gives: the value, or the default where nothing was written.
abbrev pub text_or : Text → Text → Text
text_or v default_value = if is_empty v then default_value else v

text_or-nil : (v : Text) → text_or v [] ≡ v
text_or-nil [] = refl
text_or-nil (x ∷ v) = refl

-- WriteToIni writes an entry for the setting: it writes none for the name and the driver.
abbrev pub IsWritten : Key → Type 0
IsWritten k = find_key (key_text k) written_keys ≡ some k

key_text-injective : (j k : Key) → text_eq (key_text j) (key_text k) ≡ true → j ≡ k
key_text-injective j k h =
    let same = (text_eq_iff (key_text j) (key_text k)).0 h in
    let found = sym (key_of-key_text j) ∙ (ap key_of same ∙ key_of-key_text k) in cc

module _ {S : Type 0} (installer : Installer S)
    (get-write : (st st' : S) (n e v default_value : Text)
      → installer.write_private_profile_string st n e v ≡ (st', true)
      → is_empty v ≡ false
      → length v < profile_size
      → installer.get_private_profile_string st' n e default_value profile_size ≡ v)
    (get-write_other : (st st' : S) (n e e' v default_value : Text)
      → installer.write_private_profile_string st n e v ≡ (st', true)
      → text_eq e e' ≡ false
      → installer.get_private_profile_string st' n e' default_value profile_size
        ≡ installer.get_private_profile_string st n e' default_value profile_size)
    (d : DataSource) (fits : (k : Key) → length (value_of k d) < profile_size) where
  -- The entry gives the setting.
  Holds : S → Key → Type 0
  Holds st k =
      (default_value : Text)
      → installer.get_private_profile_string st d.name (key_text k) default_value profile_size
        ≡ text_or (value_of k d) default_value

  asserted :
      (message : Text) (st' : S) (r : S × Bool)
      → assert_sql_success installer d message r ≡ (st', none)
      → r ≡ (st', true)
  asserted message st' (s1, true) h = ap (λ q. (q.0, true)) h
  asserted message st' (s1, false) h = let thrown = ap (λ q. q.1) h in absurd cc

  continued :
      (st' : S) (r : S × Option Text) (next : S → S × Option Text)
      → and_then installer r next ≡ (st', none)
      → (s1 : S) × ((r ≡ (s1, none)) × (next s1 ≡ (st', none)))
  continued st' (s1, none) next h = (s1, (refl, h))
  continued st' (s1, some e) next h = let thrown = ap (λ q. q.1) h in absurd cc

  wrote :
      (e : Text) (x : ℕ) (v : Text) (st st' : S)
      → write_profile_string installer d e (x ∷ v) st ≡ (st', none)
      → installer.write_private_profile_string st d.name e (x ∷ v) ≡ (st', true)
  unfolding write_profile_string
  wrote e x v st st' h =
      asserted (write_message e (x ∷ v)) st'
        (installer.write_private_profile_string st d.name e (x ∷ v)) h

  -- A write that threw nothing leaves the entry with its value, if it wrote one or the entry had it.
  Holds-value :
      (k : Key) (st st' : S) (v : Text)
      → value_of k d ≡ v
      → write_profile_string installer d (key_text k) v st ≡ (st', none)
      → (is_empty v ≡ false) ⊎ Holds st k
      → Holds st' k
  unfolding write_profile_string Holds
  Holds-value k st st' [] e h (inl full) = absurd cc
  Holds-value k st st' [] e h (inr before) = subst (λ s. Holds s k) (ap (λ q. q.0) h) before
  Holds-value k st st' (x ∷ v) e h before = λ default_value. rw (e) (
      get-write st st' d.name (key_text k) (x ∷ v) default_value (wrote (key_text k) x v st st' h)
        refl (subst (λ t. length t < profile_size) e (fits k)))

  -- A write of another entry leaves it with its value.
  Holds-other :
      (j k : Key) (st st' : S) (v : Text)
      → write_profile_string installer d (key_text j) v st ≡ (st', none)
      → text_eq (key_text j) (key_text k) ≡ false
      → Holds st k
      → Holds st' k
  unfolding write_profile_string Holds
  Holds-other j k st st' [] h other before = subst (λ s. Holds s k) (ap (λ q. q.0) h) before
  Holds-other j k st st' (x ∷ v) h other before = λ default_value.
      get-write_other st st' d.name (key_text j) (key_text k) (x ∷ v) default_value
        (wrote (key_text j) x v st st' h) other
      ∙ before default_value

  Holds-write :
      (j k : Key) (st st' : S) (same : Bool)
      → text_eq (key_text j) (key_text k) ≡ same
      → write_profile_string installer d (key_text j) (value_of j d) st ≡ (st', none)
      → Holds st k
      → Holds st' k
  Holds-write j k st st' true e h before =
      let eq = key_text-injective j k e in
      subst (λ i. Holds st' i) eq
        (Holds-value j st st' (value_of j d) refl h (inr (subst (λ i. Holds st i) (sym eq) before)))
  Holds-write j k st st' false e h before = Holds-other j k st st' (value_of j d) h e before

  Holds-entries :
      (ks : List Key) (k : Key) (st st' : S)
      → write_entries installer d ks st ≡ (st', none)
      → Holds st k
      → Holds st' k
  unfolding write_entries
  Holds-entries [] k st st' h before = subst (λ s. Holds s k) (ap (λ q. q.0) h) before
  Holds-entries (j ∷ ks) k st st' h before =
      let (s1, (first, rest)) =
        continued st' (write_profile_string installer d (key_text j) (value_of j d) st)
          (write_entries installer d ks) h in
      Holds-entries ks k s1 st' rest
        (Holds-write j k st s1 (text_eq (key_text j) (key_text k)) refl first before)

  some-injective : (j k : Key) → ◌≡◌ {A = Option Key} (some j) (some k) → j ≡ k
  some-injective j k h = cc

  -- Once all entries are written, each of them that has a value holds it.
  Holds-written :
      (ks : List Key) (k : Key) (st st' : S)
      → find_key (key_text k) ks ≡ some k
      → write_entries installer d ks st ≡ (st', none)
      → is_empty (value_of k d) ≡ false
      → Holds st' k
  unfolding write_entries find_key
  Holds-written [] k st st' found h full = absurd cc
  Holds-written (j ∷ ks) k st st' found h full =
      let (s1, (first, rest)) =
        continued st' (write_profile_string installer d (key_text j) (value_of j d) st)
          (write_entries installer d ks) h in
      elim (Bool-cases (text_eq (key_text k) (key_text j))) [
        | inl e ↦
            let same = some-injective j k (rw (e) at found) in
            Holds-entries ks k s1 st' rest (
              Holds-value k st s1 (value_of k d) refl
                (subst
                  (λ i.
                    write_profile_string installer d (key_text i) (value_of i d) st ≡ (s1, none))
                  same first)
                (inl full))
        | inr e ↦ Holds-written ks k s1 st' (rw (e) at found) rest full
      ]

  -- No setting is in the ini files under the name of the data source.
  IsFresh : S → Type 0
  IsFresh st =
      (k : Key) (default_value : Text)
      → IsWritten k
      → installer.get_private_profile_string st d.name (key_text k) default_value profile_size
        ≡ default_value

  Holds-all :
      (k : Key) (st st' : S)
      → find_key (key_text k) written_keys ≡ some k
      → IsFresh st
      → write_entries installer d written_keys st ≡ (st', none)
      → Holds st' k
  unfolding Holds IsFresh
  Holds-all k st st' found fresh h = elim (Bool-cases (is_empty (value_of k d))) [
    | inl e ↦
        Holds-entries written_keys k st st' h
          (λ t. fresh k t found ∙ sym (ap (λ b. if b then t else value_of k d) e))
    | inr e ↦ Holds-written written_keys k st st' found h e
  ]

  restore : Key → DataSource → DataSource
  unfolding set_text set_flag text_of flag_of
  restore (text_key k) e = set_text k (text_of k d) e
  restore (flag_key k) e = set_flag k (flag_of k d) e

  restore_all : List Key → DataSource → DataSource
  unfolding restore
  restore_all [] e = e
  restore_all (k ∷ ks) e = restore_all ks (restore k e)

  -- The data source under construction has the name, and no value for the setting.
  IsUnset : Key → DataSource → Type 0
  unfolding text_of
  IsUnset (text_key k) e = text_of k e ≡ []
  IsUnset (flag_key k) e = Unit

  -- What the merging of the entries asks for: each is written, and unset when its turn comes.
  AreReady : List Key → DataSource → Type 0
  unfolding IsUnset restore_all find_key
  AreReady [] e = Unit
  AreReady (k ∷ ks) e =
      (find_key (key_text k) written_keys ≡ some k)
      × ((e.name ≡ d.name) × (IsUnset k e × AreReady ks (restore k e)))

  module _ (p : Platform) (lower-true : p.to_lower (codes "true") ≡ codes "true")
      (lower-false : p.to_lower (codes "false") ≡ codes "false") where
    string_to_bool-bool_to_string : (b : Bool) → string_to_bool p (bool_to_string b) ≡ b
    unfolding string_to_bool
    string_to_bool-bool_to_string true = rw (lower-true, string_to_bool)
    string_to_bool-bool_to_string false = rw (lower-false, string_to_bool)

    bool_text-full : (b : Bool) (t : Text) → text_or (bool_to_string b) t ≡ bool_to_string b
    bool_text-full true t = refl
    bool_text-full false t = refl

    merge_entry-Holds :
        (k : Key) (st : S) (e : DataSource)
        → e.name ≡ d.name
        → IsUnset k e
        → Holds st k
        → merge_entry installer p st k e ≡ restore k e
    unfolding merge_entry restore IsUnset Holds get_profile_bool value_of
    merge_entry-Holds (text_key k) st e n unset h = rw (unset, n, h [], text_or-nil (text_of k d))
    merge_entry-Holds (flag_key k) st e n unset h = rw (
      n,
      h (bool_to_string (default_flag k)),
      bool_text-full (flag_of k d) (bool_to_string (default_flag k)),
      string_to_bool-bool_to_string (flag_of k d),
    )

    merge_entries-Holds :
        (ks : List Key) (st : S) (e : DataSource)
        → ((k : Key) → find_key (key_text k) written_keys ≡ some k → Holds st k)
        → AreReady ks e
        → merge_entries installer p st ks e ≡ restore_all ks e
    unfolding merge_entries restore_all AreReady
    merge_entries-Holds [] st e h ready = refl
    merge_entries-Holds (k ∷ ks) st e h (found, (n, (unset, ready))) =
        rw (merge_entry-Holds k st e n unset (h k found))
          (merge_entries-Holds ks st (restore k e) h ready)

    all_ready : AreReady merged_keys (named d.name)
    unfolding AreReady
    all_ready = search

    -- A data source that is written to ini files with no setting under its name, without an
    -- exception, is read back from its name as it was, but for the driver, which is not written. Each value
    -- fits the buffer of GetProfileString; a get gives what was last written, and a write leaves the
    -- other entries; to_lower leaves the words "true" and "false".
    pub merge_from_ini-write :
        (st st' : S)
        → ((k : Key) (default_value : Text)
            → IsWritten k
            → installer.get_private_profile_string st d.name (key_text k) default_value profile_size
              ≡ default_value)
        → write_to_ini installer d st ≡ (st', none)
        → merge_from_ini installer p st' (named d.name) ≡ record d { driver = [] }
    unfolding write_to_ini merge_from_ini restore_all IsFresh
    merge_from_ini-write st st' fresh h = elim (Bool-cases (is_empty d.name)) [
      | inl e ↦ let refused = ap (λ q. q.1) (rw (e) at h) in absurd cc
      | inr e ↦ rw (e) (
          merge_entries-Holds merged_keys st' (named d.name)
            (λ k found. Holds-all k st st' found fresh (rw (e) at h)) all_ready)
    ]
