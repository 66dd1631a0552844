-- ===== src/Dbc/InfoText.antt =====
-- project/driver/src/GetInfoHelper.cpp: a text of SQLGetInfo, asked for first by its length.
use ez_rets.Base.{
  ℕ, ◌+◌, ◌-◌, ◌<◌, ◌≡◌, ◌≢◌, refl, ap, ◌∙◌, true, false, Bool-cases, inl, inr, [], ◌∷◌, ◌++◌, ◌==◌,
  ltb, length, is_empty, Text, ℤ, pos, arith, take, take-all,
}
use ez_rets.Dbc.{Dbc, returned, clear_errors}
use ez_rets.Dbc.Info.{InfoType, string, info_answer, sql_get_info, give, set_info_string, put_word}
use ez_rets.Memory.{Memory, read_bytes}
use ez_rets.Odbc.{success, success_with_info, size_of_sqllen, smallint_of_size}
use ez_rets.Utils.{copy_string}
use ez_rets.Utils.Copy.{copy_string-reads, copied_size}

bytes-put_word : (q : ℕ) (z : ℤ) (m : Memory) → (put_word q z m).bytes ≡ m.bytes
unfolding put_word
bytes-put_word q z m = elim (Bool-cases (q == 0)) [ inl e ↦ rw (e) | inr e ↦ rw (e) ]

words-put_word : (q : ℕ) (z : ℤ) (m : Memory) → q ≢ 0 → (put_word q z m).words q ≡ z
unfolding put_word
words-put_word q z m h = ground arith

smallint_of_size-small : (n : ℕ) → n < 32768 → smallint_of_size n ≡ pos n
smallint_of_size-small n h = ground arith

module _ (t : Text) (string_length : ℕ) (c : Dbc) (m : Memory) where
  -- The call without a buffer.
  set_info_string-length :
      (buffer_length : ℤ)
      → is_empty t ≡ false
      → length t < 32768
      → string_length ≢ 0
      → ((set_info_string 0 buffer_length string_length c t m).outcome ≡ returned success_with_info)
        × ((set_info_string 0 buffer_length string_length c t m).memory.words string_length
            ≡ pos (length t))
  unfolding set_info_string copy_string
  set_info_string-length buffer_length full short here =
      let longer : ltb 0 (length t) ≡ true = longer_than_nothing t full in
      rw (longer) (
        refl,
        words-put_word string_length (smallint_of_size (length t)) m here
            ∙ smallint_of_size-small (length t) short,
      )
    where
      longer_than_nothing : (u : Text) → is_empty u ≡ false → ltb 0 (length u) ≡ true
      longer_than_nothing [] h = absurd cc
      longer_than_nothing (x ∷ u) h = ground arith

  -- The call with a buffer that has room for the terminator.
  set_info_string-whole :
      (info_value size : ℕ)
      → info_value ≢ 0
      → size_of_sqllen (pos size) ≡ length t + 1
      → ((set_info_string info_value (pos size) string_length c t m).outcome ≡ returned success)
        × (read_bytes
              (set_info_string info_value (pos size) string_length c t m).memory
              info_value
              (length t + 1)
            ≡ t ++ 0 ∷ [])
  unfolding set_info_string read_bytes
  set_info_string-whole info_value size here room =
      let len = size_of_sqllen (pos size) in
      let usable : len ≢ 0 = ground arith in
      let (copied, reads) = copy_string-reads t info_value len m here usable in
      let all : copied_size t info_value len m ≡ length t = omega arith in
      let whole : ltb (copy_string t info_value len m).1 (length t) ≡ false = ground arith in
      let text : take (len - 1) t ≡ t = take-all (len - 1) t (omega arith) in
      rw (whole) (
        refl,
        rw (bytes-put_word string_length _ (copy_string t info_value len m).0, ← all)
            (reads ∙ ap (λ u. u ++ 0 ∷ []) text),
      )

size_of_sqllen-small : (n : ℕ) → n < 32769 → size_of_sqllen (pos n) ≡ n
size_of_sqllen-small n h = omega arith

-- A client that asks for a text of SQLGetInfo without a buffer is told its length, with
-- SQL_SUCCESS_WITH_INFO; asking again, with a buffer of that length and one byte more, it has the
-- text whole and terminated, with SQL_SUCCESS. The text is not empty and its length fits the
-- client's SQLSMALLINT, whose pointer and that of the buffer are not null.
sql_get_info-twice :
    (version t : Text) (c : Dbc) (info_type : InfoType) (m m' : Memory) (buffer_length : ℤ)
    (info_value string_length : ℕ)
    → info_answer version (clear_errors c) info_type ≡ string t
    → is_empty t ≡ false
    → length t < 32768
    → info_value ≢ 0
    → string_length ≢ 0
    → ((sql_get_info 0 buffer_length string_length version c info_type m).outcome
        ≡ returned success_with_info)
      × (((sql_get_info 0 buffer_length string_length version c info_type m).memory.words
              string_length
            ≡ pos (length t))
          × (((sql_get_info info_value
                  (pos (length t + 1))
                  string_length
                  version
                  c
                  info_type
                  m').outcome
                ≡ returned success)
              × (read_bytes
                    (sql_get_info info_value
                      (pos (length t + 1))
                      string_length
                      version
                      c
                      info_type
                      m').memory
                    info_value
                    (length t + 1)
                  ≡ t ++ 0 ∷ [])))
unfolding sql_get_info give
sql_get_info-twice version t c info_type m m' buffer_length info_value string_length e full short hv
      hl =
    let (first, told) =
      set_info_string-length t string_length (clear_errors c) m buffer_length full short hl in
    let room = size_of_sqllen-small (length t + 1) (omega arith) in
    let (second, whole) =
      set_info_string-whole t string_length (clear_errors c) m' info_value (length t + 1) hv room in
    rw (e) (first, (told, (second, whole)))
