-- ===== src/Handle/Records.antt =====
-- project/driver/src/AbstractHandle.cpp: what a client reads of a handle's errors.
use ez_rets.Base.{
  ℕ, zero, suc, ◌+◌, ◌-◌, ◌≤◌, ◌<◌, ◌≡◌, refl, ap, ◌∙◌, ◌≢◌, ◌↔◌, true, not, ◌&&◌, List, [], ◌∷◌,
  ◌++◌, ◌||◌, false, ◌%◌, ◌^◌, none, some, arith, ◌==◌, ltb, if◌then◌else◌, pos, length, take,
  get_elem?, min, Bool-cases, Option-cases, inl, inr,
}
use ez_rets.Handle.{Error, write_record, get_diag_rec, sql_error}
use ez_rets.Memory.{
  bytes-set_word, words-set_word, words-set_word_other, Memory, write_bytes, set_word, read_bytes,
}
use ez_rets.Odbc.{success, success_with_info, no_data, smallint_of_size}
use ez_rets.Utils.{copy_string}
use ez_rets.Utils.Copy.{copy_string-reads}

get_elem?-none {ℓ} : {A : Type ℓ} (xs : List A) (i : ℕ) → get_elem? xs i ≡ none → length xs ≤ i
get_elem?-none [] i h = omega arith
get_elem?-none (x ∷ xs) zero h = absurd (ground arith)
get_elem?-none (x ∷ xs) (suc i) h = omega (arith, get_elem?-none xs i h)

get_elem?-some {ℓ} :
    {A : Type ℓ} (xs : List A) (i : ℕ) (x : A) → get_elem? xs i ≡ some x → i < length xs
get_elem?-some [] i x h = absurd (ground arith)
get_elem?-some (y ∷ xs) zero x h = omega arith
get_elem?-some (y ∷ xs) (suc i) x h = omega (arith, get_elem?-some xs i x h)

module _ (sqlstate_ptr native_error message_text text_length : ℕ) (m : Memory) where
  module _ (errors : List Error) (i : ℕ) (e : Error) (found : get_elem? errors i ≡ some e) (len : ℕ)
      (message_set : message_text ≢ 0) (len_set : len ≢ 0) (length_set : text_length ≢ 0)
      (apart : text_length ≢ native_error) (state_set : sqlstate_ptr ≢ 0)
      (len_short : len < 2 ^ 15) where
    m2 : Memory
    m2 = write_bytes (write_bytes m sqlstate_ptr (take 5 e.sqlstate)) (sqlstate_ptr + 5) (0 ∷ [])

    record_written : write_record sqlstate_ptr native_error message_text text_length m e len ≡ (
      (if native_error == 0
          then set_word
              (copy_string e.message message_text len m2).0
              text_length
              (smallint_of_size (copy_string e.message message_text len m2).1)
          else set_word
              (set_word
                (copy_string e.message message_text len m2).0
                text_length
                (smallint_of_size (copy_string e.message message_text len m2).1))
              native_error
              (pos 42)),
      some (if ltb len (length e.message) then success_with_info else success),
    )
    unfolding write_record m2
    record_written =
        let usable : (not (message_text == 0) && ltb 0 len) ≡ true = ground arith in
        let given : (sqlstate_ptr == 0 || text_length == 0) ≡ false = ground arith in
        rw (usable, given)

    sized :
        {n : ℕ}
        → n ≡ min (len - 1) (length e.message)
        → smallint_of_size n ≡ pos (min (len - 1) (length e.message))
    sized {n} h =
        let short : n < 2 ^ 15 = omega arith in
        let low : (n % 2 ^ 16) ≡ n = omega arith in
        let positive : ltb n (2 ^ 15) ≡ true = ground arith in rw (low, positive) (ap pos h)

    -- SQLGetDiagRec of a record that exists: the message buffer holds as much of the error's
    -- message as leaves room for a terminator, and the terminator; the length cell holds the
    -- number of these characters; and the call gives SQL_SUCCESS_WITH_INFO if the message is
    -- longer than the buffer, else SQL_SUCCESS. The buffer, the length cell and the buffer of the
    -- state are not null, the message buffer is not empty and shorter than 2^15 bytes, and the cell
    -- is not that of the native error.
    pub get_diag_rec-reads :
        let r =
          get_diag_rec sqlstate_ptr native_error message_text text_length m errors
            (pos (suc i))
            (pos len) in
        (read_bytes r.0 message_text (min (len - 1) (length e.message) + 1)
          ≡ take (len - 1) e.message ++ 0 ∷ [])
        × (r.0.words text_length ≡ pos (min (len - 1) (length e.message)))
        × (r.1 ≡ some (if ltb len (length e.message) then success_with_info else success))
    unfolding get_diag_rec read_bytes m2
    get_diag_rec-reads =
        let c = copy_string-reads e.message message_text len m2 message_set len_set in
        elim (Bool-cases (native_error == 0)) [
          | inl z ↦ rw (found) (
              rw (record_written, z)
                (rw (bytes-set_word) (c.1, words-set_word _ _ _ length_set ∙ sized c.0, refl)))
          | inr z ↦ rw (found) (
              rw (record_written, z)
                (rw (bytes-set_word, bytes-set_word)
                  (
                    c.1,
                    words-set_word_other _ _ _ _ apart
                        ∙ words-set_word _ _ _ length_set
                        ∙ sized c.0,
                    refl,
                  )))
        ]

  write_record-ne :
      (e : Error) (len : ℕ)
      → (write_record sqlstate_ptr native_error message_text text_length m e len).1 ≢ some no_data
  unfolding write_record
  write_record-ne e len = elim (Bool-cases (sqlstate_ptr == 0 || text_length == 0)) [
    | inl z ↦ rw z (λ q. cc)
    | inr z ↦ elim (Bool-cases (ltb len (length e.message))) [
      | inl h ↦ rw (z, h) (λ q. cc)
      | inr h ↦ rw (z, h) (λ q. cc)
    ]
  ]

  -- For a record number from 1 on and a buffer length that is not negative, SQLGetDiagRec gives
  -- SQL_NO_DATA exactly if the number is after the last error.
  get_diag_rec-ends :
      (errors : List Error) (i len : ℕ)
      → ((get_diag_rec sqlstate_ptr native_error message_text text_length m errors
            (pos (suc i))
            (pos len)).1
          ≡ some no_data)
        ↔ (length errors ≤ i)
  unfolding get_diag_rec
  get_diag_rec-ends errors i len = elim (Option-cases (get_elem? errors i)) [
    | inl missing ↦ rw missing ((λ _. get_elem?-none errors i missing), λ _. refl)
    | inr (e, found) ↦ rw found (
      (λ h. absurd (write_record-ne e len h)),
      λ h. absurd (omega (arith, get_elem?-some errors i e found)),
    )
  ]

  -- SQLError of a handle that has errors, with a buffer length that is not negative and with places
  -- for the state and the length, empties their list, so that the next call gives
  -- SQL_NO_DATA however many there were.
  sql_error-clears :
      (e : Error) (errors : List Error) (len len' : ℕ)
      → (sqlstate_ptr == 0 || text_length == 0) ≡ false
      → ((sql_error sqlstate_ptr native_error message_text text_length m (e ∷ errors) (pos len)).0
          ≡ [])
        × ((sql_error sqlstate_ptr native_error message_text text_length m
              (sql_error sqlstate_ptr native_error message_text text_length m
                (e ∷ errors)
                (pos len)).0
              (pos len')).2
            ≡ some no_data)
  unfolding sql_error get_diag_rec write_record
  sql_error-clears e errors len len' given = elim (Bool-cases (ltb len (length e.message))) [
    | inl h ↦ rw (given, h) (refl, refl)
    | inr h ↦ rw (given, h) (refl, refl)
  ]
