-- ===== src/Handle.antt =====
-- project/driver/src/AbstractHandle.cpp and Error.cpp: the errors that a handle keeps for its
-- client, and the functions that hand them out.
pub mod Records
pub mod Lengths
pub mod Fields
use ez_rets.Base.{
  ℕ, zero, suc, ◌+◌, ◌-◌, ◌^◌, Bool, true, false, ◌&&◌, ◌||◌, not, List, [], ◌∷◌, ◌++◌, Option,
  none, some, ◌==◌, ltb, leb, if◌then◌else◌, Text, ℤ, pos, negsuc, codes, length, take, get_elem?,
  is_empty,
}
use ez_rets.Memory.{Memory, write_bytes, set_word}
use ez_rets.Odbc.{SqlReturn, success, success_with_info, no_data, error, smallint_of_size}
use ez_rets.Utils.{copy_string}

pub record Error : Type 0 where
  pub sqlstate : Text
  pub message : Text

-- AbstractHandle::addError
abbrev pub add_error : List Error → Text → Text → List Error
add_error errors sqlstate message = errors ++ record { sqlstate = sqlstate; message = message } ∷ []

-- AbstractHandle::SetStringLength
unfoldable pub set_string_length : ℕ → ℤ → Memory → Memory
unfolding set_word
set_string_length p n m = if p == 0 then m else set_word m p n

-- A record number counts from 1; `none` where SQLGetDiagRec refuses it.
abbrev pub record_index : ℤ → Option ℕ
record_index (pos zero) = none
record_index (pos (suc i)) = some i
record_index (negsuc n) = none

-- A buffer length, unless it is negative.
abbrev pub buffer_size : ℤ → Option ℕ
buffer_size (pos n) = some n
buffer_size (negsuc n) = none

module _ (sqlstate_ptr native_error message_text text_length : ℕ) (m : Memory) where
  abbrev write_native : Memory → Memory
  unfolding set_word
  write_native m' = if native_error == 0 then m' else set_word m' native_error (pos 42)

  -- What is written for one error, and the result, `none` where a null state or length is written to.
  unfoldable pub write_record : Error → ℕ → Memory × Option SqlReturn
  unfolding write_bytes set_word copy_string
  write_record e len =
      let m1 = write_bytes m sqlstate_ptr (take 5 e.sqlstate) in
      let m2 = write_bytes m1 (sqlstate_ptr + 5) (0 ∷ []) in
      let (m3, size) =
        if not (message_text == 0) && ltb 0 len
        then copy_string e.message message_text len m2
        else (m2, length e.message) in
      let m4 = set_word m3 text_length (smallint_of_size size) in
      (
        write_native m4,
        if sqlstate_ptr == 0 || text_length == 0
            then none
            else some (if ltb len (length e.message) then success_with_info else success),
      )

  abbrev diag_found : ℕ → Option Error → Memory × Option SqlReturn
  diag_found len none = (m, some no_data)
  diag_found len (some e) = write_record e len

  abbrev diag_at : List Error → Option ℕ → Option ℕ → Memory × Option SqlReturn
  diag_at errors none size = (m, some error)
  diag_at errors (some i) none = (m, some error)
  diag_at errors (some i) (some len) = diag_found len (get_elem? errors i)

  -- AbstractHandle::SQLGetDiagRec
  unfoldable pub get_diag_rec : List Error → ℤ → ℤ → Memory × Option SqlReturn
  get_diag_rec errors rec_number buffer_length =
      diag_at errors (record_index rec_number) (buffer_size buffer_length)

  abbrev keep_on_error : List Error → Option SqlReturn → List Error
  keep_on_error errors none = errors
  keep_on_error errors (some error) = errors
  keep_on_error errors (some _) = []

  -- AbstractHandle::SQLError
  unfoldable pub sql_error : List Error → ℤ → List Error × Memory × Option SqlReturn
  unfolding get_diag_rec
  sql_error errors buffer_length =
      let (m', result) = get_diag_rec errors (pos 1) buffer_length in
      (keep_on_error errors result, m', result)
