-- ===== src/Stmt/Loop.antt =====
-- project/driver/src/RetsSTMT.cpp: a client that calls SQLFetch until it gives no row.
use ez_rets.Base.{
  ℕ, zero, suc, ◌<◌, ◌≡◌, Bool, true, false, List, [], ◌∷◌, Option, none, some, arith, length,
}
use ez_rets.Librets.{RetsMetadata}
use ez_rets.Memory.{Memory}
use ez_rets.Odbc.{no_data}
use ez_rets.Platform.{Platform}
use ez_rets.Stmt.{Stmt, End, returned, sql_fetch}

abbrev pub got_row : End → Bool
got_row (returned no_data) = false
got_row (returned r) = true
got_row e = false

module _ {A : Type 0} (p : Platform) (md : RetsMetadata) (observe : Stmt → A) where
  -- What the client observes after each row, and how the call ended that gave none; the fuel is
  -- the number of calls.
  unfoldable pub read_by : ℕ → Stmt → Memory → List A × Option End
  read_by zero s m = ([], none)
  read_by (suc fuel) s m =
      let d = sql_fetch p md s m in
      elim (got_row d.end) [
        | true ↦ let rest = read_by fuel d.stmt d.memory in (observe d.stmt ∷ rest.0, rest.1)
        | false ↦ ([], some d.end)
      ]

  -- A statement that is ready for these observations and this end, by any relation that a call of
  -- SQLFetch keeps, is read to the end.
  module _ (Ready : Stmt → List A → End → Type 0)
      (stop : (s : Stmt) (m : Memory) (e : End) → Ready s [] e → (sql_fetch p md s m).end ≡ e)
      (step : (s : Stmt) (m : Memory) (x : A) (xs : List A) (e : End)
        → Ready s (x ∷ xs) e
        → Ready (sql_fetch p md s m).stmt xs e
          × (observe (sql_fetch p md s m).stmt ≡ x)
          × (got_row (sql_fetch p md s m).end ≡ true)) where
    pub read_by-Ready :
        (xs : List A) (fuel : ℕ) (s : Stmt) (m : Memory) (e : End)
        → got_row e ≡ false
        → Ready s xs e
        → length xs < fuel
        → read_by fuel s m ≡ (xs, some e)
    unfolding read_by
    read_by-Ready xs zero s m e ends r lt = absurd (omega arith)
    read_by-Ready [] (suc fuel) s m e ends r lt =
        rw (stop s m e r, ends, read_by) (rw (stop s m e r))
    read_by-Ready (x ∷ xs) (suc fuel) s m e ends r lt =
        let (r', seen, got) = step s m x xs e r in
        rw (got, read_by)
          (rw (read_by-Ready xs fuel _ (sql_fetch p md s m).memory e ends r' (omega arith), seen))
