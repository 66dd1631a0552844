-- ===== src/Handle/Fields.antt =====
-- project/driver/src/AbstractHandle.cpp: SQLGetDiagField.
use ez_rets.Base.{
  ℕ, zero, suc, ◌≤◌, ◌<◌, ◌≡◌, ◌⊎◌, inl, inr, refl, Bool, true, false, Bool-cases, List, [], ◌∷◌,
  Option, none, some, ltb, if◌then◌else◌, Text, ℤ, pos, negsuc, codes, length, take, get_elem?,
  arith,
}
use ez_rets.Handle.{Error, set_string_length}
use ez_rets.Memory.{Memory, write_bytes, set_word}
use ez_rets.Odbc.{SqlReturn, success, no_data, error, size_of_sqllen}
use ez_rets.Utils.{copy_string}

-- The case labels of SQLGetDiagField.
pub data DiagField : Type 0 where
  cursor_row_count dynamic_function dynamic_function_code number row_count : DiagField
  class_origin subclass_origin column_number connection_name message_text : DiagField
  native row_number server_name sqlstate unknown : DiagField

-- Whether the label's number is positive: those of the cursor and of the position are not.
abbrev pub is_positive : DiagField → Bool
is_positive cursor_row_count = false
is_positive row_number = false
is_positive column_number = false
is_positive _ = true

-- How a call ends: it returns, numeric_cast throws, or it goes through a null pointer.
pub data FieldEnd : Type 0 where
  returned : SqlReturn → FieldEnd
  escaped crashed : FieldEnd

-- The virtual functions of the handle: each writes to the client and returns.
pub record DiagMethods : Type 0 where
  pub diag_cursor_row_count : ℕ → Memory → Memory × FieldEnd
  pub diag_dynamic_function : ℕ → ℤ → ℕ → Memory → Memory × FieldEnd
  pub diag_dynamic_function_code : ℕ → Memory → Memory × FieldEnd
  pub diag_row_count : ℕ → Memory → Memory × FieldEnd
  pub diag_connection_name : ℕ → ℤ → ℕ → Memory → Memory × FieldEnd
  pub diag_row_number : ℕ → Memory → Memory × FieldEnd
  pub diag_server_name : ℕ → ℤ → ℕ → Memory → Memory × FieldEnd

-- An empty text for the client, as diagConnectionName and diagServerName give it.
abbrev empty_text : ℕ → ℤ → ℕ → Memory → Memory × FieldEnd
unfolding write_bytes set_word
empty_text info_ptr buffer_length length_ptr m =
    (set_word (write_bytes m info_ptr (0 ∷ [])) length_ptr (pos 0), returned success)

-- The functions of AbstractHandle itself; SQL_NO_ROW_NUMBER is -1
unfoldable pub base_methods : DiagMethods
unfolding empty_text set_word
base_methods = record {
  diag_cursor_row_count = λ info_ptr m. (m, returned error);
  diag_dynamic_function = λ info_ptr buffer_length length_ptr m. (m, returned error);
  diag_dynamic_function_code = λ info_ptr m. (m, returned error);
  diag_row_count = λ info_ptr m. (m, returned error);
  diag_connection_name = empty_text;
  diag_row_number = λ info_ptr m. (set_word m info_ptr (negsuc 0), returned success);
  diag_server_name = empty_text;
}

-- copyString and the length that goes with it; numeric_cast throws on one past SQLSMALLINT.
unfoldable pub put_field : ℕ → ℤ → ℕ → Text → Memory → Memory × FieldEnd
unfolding copy_string set_word
put_field info_ptr buffer_length length_ptr t m =
    let (m', size) = copy_string t info_ptr (size_of_sqllen buffer_length) m in
    if ltb size 32768 then (set_word m' length_ptr (pos size), returned success) else (m', escaped)

-- The same with SetStringLength.
unfoldable pub put_text : ℕ → ℤ → ℕ → Text → Memory → Memory × FieldEnd
unfolding copy_string set_string_length
put_text info_ptr buffer_length length_ptr t m =
    let (m', size) = copy_string t info_ptr (size_of_sqllen buffer_length) m in
    if ltb size 32768
    then (set_string_length length_ptr (pos size) m', returned success)
    else (m', escaped)

module _ (h : DiagMethods) (info_ptr : ℕ) (buffer_length : ℤ) (length_ptr : ℕ) where
  abbrev of_error : Option Error → (Error → Memory × FieldEnd) → Memory → Memory × FieldEnd
  of_error none f m = (m, crashed)
  of_error (some e) f m = f e

  -- The switch; SQL_COLUMN_NUMBER_UNKNOWN is -2
  unfoldable pub diag_field : List Error → Option Error → DiagField → Memory → Memory × FieldEnd
  unfolding put_field set_word write_bytes
  diag_field errors e cursor_row_count m = h.diag_cursor_row_count info_ptr m
  diag_field errors e dynamic_function m =
      h.diag_dynamic_function info_ptr buffer_length length_ptr m
  diag_field errors e dynamic_function_code m = h.diag_dynamic_function_code info_ptr m
  diag_field errors e number m = (set_word m info_ptr (pos (length errors)), returned success)
  diag_field errors e row_count m = h.diag_row_count info_ptr m
  diag_field errors e class_origin m =
      put_field info_ptr buffer_length length_ptr (codes "ISO 9075") m
  diag_field errors e subclass_origin m =
      put_field info_ptr buffer_length length_ptr (codes "ISO 9075") m
  diag_field errors e column_number m = (set_word m info_ptr (negsuc 1), returned success)
  diag_field errors e connection_name m = h.diag_connection_name info_ptr buffer_length length_ptr m
  diag_field errors e message_text m =
      of_error e (λ x. put_field info_ptr buffer_length length_ptr x.message m) m
  diag_field errors e native m = (set_word m info_ptr (pos 0), returned success)
  diag_field errors e row_number m = h.diag_row_number info_ptr m
  diag_field errors e server_name m = h.diag_server_name info_ptr buffer_length length_ptr m
  diag_field errors e sqlstate m =
      of_error e (λ x. (write_bytes m info_ptr (take 5 x.sqlstate), returned success)) m
  diag_field errors e unknown m = (m, returned success)

  -- The part after the test of the number against the list.
  abbrev field_of : List Error → ℕ → DiagField → Memory → Memory × FieldEnd
  unfolding diag_field
  field_of errors zero f m =
      if is_positive f then (m, returned error) else diag_field errors none f m
  field_of errors (suc i) f m = diag_field errors (get_elem? errors i) f m

  -- AbstractHandle::SQLGetDiagField; the number of an unknown label is taken for a positive one
  unfoldable pub get_diag_field : List Error → ℤ → DiagField → Memory → Memory × FieldEnd
  unfolding field_of
  get_diag_field errors (negsuc n) f m = (m, escaped)
  get_diag_field errors (pos n) f m =
      if ltb (length errors) n then (m, returned no_data) else field_of errors n f m

  -- The number of the records can be had only by the number of one of them: the answer is
  -- SQL_SUCCESS exactly for the record numbers from 1 to the number of records, and is then that
  -- number, written to the client.
  pub get_diag_field-number :
      (errors : List Error) (n : ℕ) (m : Memory)
      → (((1 ≤ n) × (n ≤ length errors))
          × (get_diag_field errors (pos n) number m
              ≡ (set_word m info_ptr (pos (length errors)), returned success)))
        ⊎ (((n ≡ 0) ⊎ (length errors < n))
            × ((get_diag_field errors (pos n) number m ≡ (m, returned error))
                ⊎ (get_diag_field errors (pos n) number m ≡ (m, returned no_data))))
  unfolding get_diag_field diag_field
  get_diag_field-number errors zero m =
      let listed : ltb (length errors) 0 ≡ false = ground arith in inr (inl refl, inl (rw (listed)))
  get_diag_field-number errors (suc i) m = elim (Bool-cases (ltb (length errors) (suc i))) [
    | inl e ↦ inr (inr (ground arith), inr (rw (e)))
    | inr e ↦ inl ((omega arith, ground arith), rw (e))
  ]
