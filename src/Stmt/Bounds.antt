-- ===== src/Stmt/Bounds.antt =====
-- project/driver/src/ResultSet.cpp: that the iterator of a result set stays within its rows, however
-- often SQLFetch is called.
use ez_rets.Base.{
  ℕ, zero, suc, ◌≤◌, ◌<◌, ◌≡◌, refl, Bool-cases, inl, inr, ◌⊎◌, subst, List, arith, ltb, ltb→lt,
  Text, length, min, true, some,
}
use ez_rets.Column.{Column}
use ez_rets.Librets.{RetsMetadata}
use ez_rets.Memory.{Memory}
use ez_rets.Odbc.{no_data}
use ez_rets.Platform.{Platform}
use ez_rets.Stmt.{Stmt, returned, sql_fetch}
use ez_rets.Stmt.Fetching.{Stands, step, stop, stopped, filled, filled-Stands}
use ez_rets.Stmt.Loop.{got_row}
use ez_rets.Translation.Translator.{DataTranslator}

-- The statement and the memory after so many calls of SQLFetch.
unfoldable pub fetch_times : Platform → RetsMetadata → ℕ → Stmt → Memory → Stmt × Memory
unfolding sql_fetch
fetch_times p md zero s m = (s, m)
fetch_times p md (suc n) s m =
    let (s', m') = fetch_times p md n s m in let d = sql_fetch p md s' m' in (d.stmt, d.memory)

module _ (p : Platform) (md : RetsMetadata) (rows : List (List Text)) where
  fetch_times-Stands :
      (n : ℕ) (s : Stmt) (m : Memory)
      → Stands s rows 0
      → Stands (fetch_times p md n s m).0 rows (min n (length rows))
  unfolding fetch_times
  fetch_times-Stands zero s m st = let e : min 0 (length rows) ≡ 0 = omega arith in rw e st
  fetch_times-Stands (suc n) s m st =
      let (s', m') = fetch_times p md n s m in
      let ih = fetch_times-Stands n s m st in
      elim (Bool-cases (ltb n (length rows))) [
        | inl more ↦
            let lt = ltb→lt n (length rows) more in
            let e : min n (length rows) ≡ n = omega arith in
            let e' : min (suc n) (length rows) ≡ suc n = omega arith in
            let at : Stands (fetch_times p md n s m).0 rows n =
              subst (λ k. Stands (fetch_times p md n s m).0 rows k) e ih in
            rw e' (step p md _ _ rows n at lt).0
        | inr over ↦
            let le : length rows ≤ n = ground arith in
            let e : min n (length rows) ≡ length rows = omega arith in
            let e' : min (suc n) (length rows) ≡ length rows = omega arith in
            let at : Stands (fetch_times p md n s m).0 rows (length rows) =
              subst (λ k. Stands (fetch_times p md n s m).0 rows k) e ih in
            rw e' (stopped p md _ _ rows (length rows) at refl)
      ]

  next_call :
      (n : ℕ) (s : Stmt) (m : Memory)
      → Stands s rows (min n (length rows))
      → ((n < length rows) × (got_row (sql_fetch p md s m).end ≡ true))
        ⊎ ((length rows ≤ n) × ((sql_fetch p md s m).end ≡ returned no_data))
  next_call n s m st = elim (Bool-cases (ltb n (length rows))) [
    | inl more ↦
        let lt = ltb→lt n (length rows) more in
        inl (lt, (step p md s m rows (min n (length rows)) st (omega arith)).1)
    | inr over ↦
        let le : length rows ≤ n = ground arith in
        inr (le, stop p md s m rows (min n (length rows)) st (omega arith))
  ]

  -- However often a client has called SQLFetch on a statement whose query has filled its result
  -- set, the iterator stands on the row of the last call that gave one: after n calls that is row
  -- number n, or the last row if there are fewer, and no later one. The next call gives a row if
  -- n is less than the number of rows, and SQL_NO_DATA if not, again and again; so it never
  -- goes through an iterator past the end.
  pub fetch_times-index :
      (n : ℕ) (s : Stmt) (m : Memory) (t : DataTranslator) (cols : List Column)
      → s.result_set ≡ some (filled t cols rows)
      → let (s', m') = fetch_times p md n s m in
        Stands s' rows (min n (length rows))
        × (((n < length rows) × (got_row (sql_fetch p md s' m').end ≡ true))
            ⊎ ((length rows ≤ n) × ((sql_fetch p md s' m').end ≡ returned no_data)))
  fetch_times-index n s m t cols set =
      let stands = fetch_times-Stands n s m (filled-Stands p md s t cols rows set) in
      (stands, next_call n _ _ stands)
