-- ===== src/Stmt/Attributes/RoundTrip.antt =====
-- project/driver/src/RetsSTMT.cpp: that an attribute reads back as it was set.
use ez_rets.Base.{
  ℕ, ◌%◌, ◌^◌, ◌≡◌, refl, ap, ◌∙◌, sym, ◌≢◌, Bool, true, false, arith, ◌==◌, ==_iff, ℤ, pos,
}
use ez_rets.Handle.{set_string_length}
use ez_rets.Handle.Lengths.{words-set_string_length_other}
use ez_rets.Memory.{Memory, set_word, words-set_word}
use ez_rets.Odbc.{success, success_with_info}
use ez_rets.Stmt.{Stmt, returned, clear_errors, finish}
use ez_rets.Stmt.Attributes.{
  StmtAttr, query_timeout, row_array_size, max_length, cursor_type, retrieve_data, concurrency,
  stmt_attr, DescAddresses, get_attr, set_attr, expect, uint_of, sql_get_stmt_attr,
  sql_set_stmt_attr,
}

-- The attributes that the driver both gives and takes.
abbrev pub IsKept : StmtAttr → Type 0
IsKept query_timeout = Unit {0}
IsKept row_array_size = Unit {0}
IsKept max_length = Unit {0}
IsKept cursor_type = Unit {0}
IsKept retrieve_data = Unit {0}
IsKept concurrency = Unit {0}
IsKept a = ⊥

expect-success :
    (s : Stmt) (m : Memory) (b : Bool)
    → (expect s m b).end ≡ returned success
    → (b ≡ true) × (expect s m b ≡ finish s m success)
expect-success s m true h = (refl, refl)
expect-success s m false h = absurd (cc)

module _ (at : DescAddresses) (value_ptr string_length : ℕ) (value_set : value_ptr ≢ 0)
    (apart : value_ptr ≢ string_length) where
  words-given :
      (n : ℕ) (kind : ℤ) (m : Memory)
      → (set_string_length string_length kind (set_word m value_ptr (pos n))).words value_ptr
        ≡ pos n
  words-given n kind m =
      words-set_string_length_other _ value_ptr string_length kind apart
      ∙ words-set_word m value_ptr (pos n) value_set

  kept :
      (a : StmtAttr) (s : Stmt) (value : ℕ) (m : Memory)
      → IsKept a
      → (set_attr s value m a).end ≡ returned success
      → ((get_attr at value_ptr string_length (clear_errors (set_attr s value m a).stmt) m a).end
          ≡ returned success)
        × ((get_attr at value_ptr string_length
                (clear_errors (set_attr s value m a).stmt)
                m
                a).memory.words
              value_ptr
            ≡ pos (uint_of value))
  kept query_timeout s value m k h =
      let e = expect-success s m (uint_of value == 0) h in
      (refl, words-given 0 _ m ∙ ap pos (sym ((==_iff _ _).0 e.0)))
  kept row_array_size s value m k h =
      let e = expect-success s m (uint_of value == s.ard.array_size) h in
      (refl, rw (e.1) (words-given s.ard.array_size _ m ∙ ap pos (sym ((==_iff _ _).0 e.0))))
  kept max_length s value m k h =
      let e = expect-success s m (uint_of value == 0) h in
      (refl, words-given 0 _ m ∙ ap pos (sym ((==_iff _ _).0 e.0)))
  kept cursor_type s value m k h =
      let e = expect-success s m (uint_of value == 0) h in
      (refl, words-given 0 _ m ∙ ap pos (sym ((==_iff _ _).0 e.0)))
  kept retrieve_data s value m k h =
      let e = expect-success s m (uint_of value == 1) h in
      (refl, words-given 1 _ m ∙ ap pos (sym ((==_iff _ _).0 e.0)))
  kept concurrency s value m k h =
      let e = expect-success s m (uint_of value == 1) h in
      (refl, words-given 1 _ m ∙ ap pos (sym ((==_iff _ _).0 e.0)))
  kept a s value m k h = absurd k

  -- An attribute that SQLGetStmtAttr gives as a number reads back as the low 32 bits of the value
  -- that SQLSetStmtAttr took with SQL_SUCCESS. The client's value pointer is not null and not that
  -- of the length.
  pub sql_get_stmt_attr-set :
      (s : Stmt) (attribute value : ℕ) (m : Memory)
      → IsKept (stmt_attr attribute)
      → (sql_set_stmt_attr s attribute value m).end ≡ returned success
      → let d =
          sql_get_stmt_attr at value_ptr string_length
            (sql_set_stmt_attr s attribute value m).stmt
            attribute
            m in
        (d.end ≡ returned success) × (d.memory.words value_ptr ≡ pos (value % 2 ^ 32))
  unfolding sql_get_stmt_attr sql_set_stmt_attr
  sql_get_stmt_attr-set s attribute value m k h =
      kept (stmt_attr attribute) (clear_errors s) value m k h

  -- Setting the number of parameter sets changes the number of rows in a row set: it reads back as
  -- SQL_ATTR_ROW_ARRAY_SIZE, and asking for the one row that SQLFetch fetches then no longer gives
  -- SQL_SUCCESS unless the number was one. The client's value pointer is not null and not that
  -- of the length.
  sql_set_stmt_attr-paramset :
      (s : Stmt) (sets : ℕ) (m : Memory)
      → let s' = (sql_set_stmt_attr s 22 sets m).stmt in
        ((sql_get_stmt_attr at value_ptr string_length s' 27 m).memory.words value_ptr
          ≡ pos (sets % 2 ^ 32))
        × (sets % 2 ^ 32 ≢ 1 → (sql_set_stmt_attr s' 27 1 m).end ≡ returned success_with_info)
  unfolding sql_get_stmt_attr sql_set_stmt_attr stmt_attr
  sql_set_stmt_attr-paramset s sets m = (
    words-given (sets % 2 ^ 32) _ m,
    λ h. let other : (1 == sets % 2 ^ 32) ≡ false = ground arith in rw other,
  )
