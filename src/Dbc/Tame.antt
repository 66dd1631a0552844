-- ===== src/Dbc/Tame.antt =====
-- project/driver/src/RetsDBC.cpp: proofs on the queries of a connection's statements.
use ez_rets.Base.{ℕ, ◌≡◌, subst, inl, inr, List, [], ◌∷◌, Option, some, Bool-cases, ◌==◌, All}
use ez_rets.Dbc.{find_stmt, store_stmt, remove_stmt}
use ez_rets.Stmt.{Stmt}
use ez_rets.Stmt.Views.{IsTame}

-- The query of every statement does nothing to the view but load tables.
abbrev pub AllTame : List (ℕ × Stmt) → Type 0
AllTame ss = All (λ e. IsTame e.1.query) ss

pub store_stmt-AllTame :
    (place : ℕ) (s : Stmt) (ss : List (ℕ × Stmt))
    → IsTame s.query
    → AllTame ss
    → AllTame (store_stmt place s ss)
store_stmt-AllTame place s [] t ts = tt
store_stmt-AllTame place s ((a, x) ∷ ss) t (u, us) = elim (Bool-cases (a == place)) [
  | inl e ↦ rw (e) (t, store_stmt-AllTame place s ss t us)
  | inr e ↦ rw (e) (u, store_stmt-AllTame place s ss t us)
]

pub remove_stmt-AllTame :
    (place : ℕ) (ss : List (ℕ × Stmt)) → AllTame ss → AllTame (remove_stmt place ss)
unfolding remove_stmt
remove_stmt-AllTame place [] ts = tt
remove_stmt-AllTame place ((a, x) ∷ ss) (u, us) = elim (Bool-cases (a == place)) [
  | inl e ↦ rw (e) (remove_stmt-AllTame place ss us)
  | inr e ↦ rw (e) (u, remove_stmt-AllTame place ss us)
]

pub find_stmt-IsTame :
    (place : ℕ) (ss : List (ℕ × Stmt)) (s : Stmt)
    → find_stmt place ss ≡ some s
    → AllTame ss
    → IsTame s.query
unfolding find_stmt
find_stmt-IsTame place [] s h ts = absurd cc
find_stmt-IsTame place ((a, x) ∷ ss) s h (t, ts) = elim (Bool-cases (a == place)) [
  | inl e ↦ subst (λ y. IsTame y.query) (some-injective x s (rw (e) at h)) t
  | inr e ↦ find_stmt-IsTame place ss s (rw (e) at h) ts
]
  where
    some-injective : (x s : Stmt) → ◌≡◌ {A = Option Stmt} (some x) (some s) → x ≡ s
    some-injective x s q = cc
