-- ===== src/Dbc/Attributes.antt =====
-- project/driver/src/RetsDBC.cpp and GetConnectAttrHelper.cpp: the attributes of a connection.
use ez_rets.Base.{
  ℕ, ◌≡◌, ◌≢◌, refl, sym, ap, ◌∙◌, Bool, true, false, List, [], ◌∷◌, Option, none, some,
  if◌then◌else◌, ◌==◌, ltb, length, Text, ℤ, pos, codes,
}
use ez_rets.DataSource.Ini.{Installer}
use ez_rets.Dbc.{Dbc, Server, Ended, ended, Outcome, returned, with_error, clear_errors, has}
use ez_rets.Dbc.Connecting.{answer, sql_connect-answers}
use ez_rets.Dbc.Login.{sql_connect}
use ez_rets.Map.{get}
use ez_rets.Memory.{Memory, set_word, words-set_word, words-set_word_other}
use ez_rets.Odbc.{success, error, size_of_sqllen, smallint_of_size}
use ez_rets.Platform.{Platform}
use ez_rets.Utils.{copy_string}

-- The case labels of SQLGetConnectAttr.
pub data ConnectAttr : Type 0 where
  access_mode auto_ipd autocommit connection_dead connection_timeout : ConnectAttr
  current_catalog login_timeout odbc_cursors async_enable metadata_id : ConnectAttr
  txn_isolation unknown : ConnectAttr

-- The labels by their numbers.
abbrev attr_numbers : List (ℕ × ConnectAttr)
attr_numbers =
    (101, access_mode)
    ∷ (10001, auto_ipd)
    ∷ (102, autocommit)
    ∷ (1209, connection_dead)
    ∷ (113, connection_timeout)
    ∷ (109, current_catalog)
    ∷ (103, login_timeout)
    ∷ (110, odbc_cursors)
    ∷ (4, async_enable)
    ∷ (10014, metadata_id)
    ∷ (108, txn_isolation)
    ∷ []

abbrev or_unknown : Option ConnectAttr → ConnectAttr
or_unknown none = unknown
or_unknown (some a) = a

unfoldable pub connect_attr : ℕ → ConnectAttr
unfolding get
connect_attr number = or_unknown (get ◌==◌ number attr_numbers)

module _ (info_value : ℕ) (buffer_length : ℤ) (string_length : ℕ) where
  -- GetConnectAttrHelper::setInt
  unfoldable pub set_int : Dbc → ℤ → Memory → Dbc × Memory
  unfolding set_word
  set_int c value m = (c, set_word (set_word m info_value value) string_length (pos 4))

  abbrev store_size : ℕ → Memory → Memory
  unfolding set_word
  store_size n m = if string_length == 0 then m else set_word m string_length (smallint_of_size n)

  -- GetConnectAttrHelper::setString; copyString copies nothing to a null pointer
  unfoldable pub set_string : Dbc → Text → Memory → Dbc × Memory
  unfolding copy_string store_size
  set_string c value m =
      let (m1, size) = copy_string value info_value (size_of_sqllen buffer_length) m in
      if ltb size (length value)
      then (
        with_error c (codes "01004") (codes "Resultant value larger than buffer passed in."),
        store_size (length value) m1,
      )
      else (c, store_size size m1)

  abbrev finished : Dbc × Memory → Ended
  finished (c, m) = ended c m (returned success)

  unfoldable pub get_attr : Dbc → ConnectAttr → Memory → Ended
  unfolding set_int set_string
  get_attr c access_mode m = finished (set_int c (pos 1) m)
  get_attr c auto_ipd m = finished (set_int c (pos 0) m)
  get_attr c autocommit m = finished (set_int c (pos 1) m)
  get_attr c connection_dead m =
      finished (set_int c (if has c.rets_session then pos 0 else pos 1) m)
  get_attr c connection_timeout m = finished (set_int c (pos 0) m)
  get_attr c current_catalog m = finished (set_string c [] m)
  get_attr c login_timeout m = finished (set_int c (pos 0) m)
  get_attr c odbc_cursors m = finished (set_int c (pos 1) m)
  get_attr c async_enable m = finished (set_int c (pos 0) m)
  get_attr c metadata_id m = finished (set_int c (pos 0) m)
  get_attr c txn_isolation m = finished (set_int c (pos 1) m)
  get_attr c unknown m =
      ended (with_error c (codes "HY092") (codes "Invalid attribute/option identifier")) m
        (returned error)

  -- RetsDBC::SQLGetConnectAttr
  unfoldable pub sql_get_connect_attr : Dbc → ℕ → Memory → Ended
  unfolding get_attr connect_attr
  sql_get_connect_attr c attribute m = get_attr (clear_errors c) (connect_attr attribute) m

-- SQL_ATTR_CONNECTION_DEAD, and its values SQL_CD_TRUE and SQL_CD_FALSE
abbrev pub attr_connection_dead : ℕ
attr_connection_dead = 1209

abbrev pub dead_value : Outcome → ℤ
dead_value (returned success) = pos 0
dead_value _ = pos 1

dead_value-answer : (b : Bool) → (if b then pos 0 else pos 1) ≡ dead_value (answer b)
dead_value-answer true = refl
dead_value-answer false = refl

module _ {S : Type 0} (server : Server) (installer : Installer S) (ini : S) (p : Platform) where
  -- After SQLConnect on a connection without a session, the attribute SQL_ATTR_CONNECTION_DEAD says
  -- SQL_CD_FALSE where SQLConnect answered SQL_SUCCESS, and SQL_CD_TRUE where it did not. The
  -- client's two pointers are neither null nor the same.
  pub sql_get_connect_attr-connect :
      (c : Dbc) (name : Text) (user_name authentication : Option Text) (m m' : Memory)
      (info_value : ℕ) (buffer_length : ℤ) (string_length : ℕ)
      → c.rets_session ≡ none
      → info_value ≢ 0
      → info_value ≢ string_length
      → (sql_get_connect_attr info_value buffer_length string_length
            (sql_connect server installer ini p c name user_name authentication m).dbc
            attr_connection_dead
            m').memory.words
          info_value
        ≡ dead_value (sql_connect server installer ini p c name user_name authentication m).outcome
  unfolding sql_get_connect_attr get_attr set_int connect_attr get
  sql_get_connect_attr-connect c name u a m m' q len l closed hq hl =
      let e = sql_connect server installer ini p c name u a m in
      words-set_word_other (set_word m' q _) q l (pos 4) hl
      ∙ (words-set_word m' q _ hq
          ∙ (dead_value-answer (has e.dbc.rets_session)
              ∙ ap dead_value
                  (sym (sql_connect-answers server installer p ini c name u a m closed))))
