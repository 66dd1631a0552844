-- ===== src/Env/Handles.antt =====
-- project/driver/src/RetsENV.cpp: what freeing a connection does.
use ez_rets.Base.{
  ℕ, ◌≡◌, ◌≢◌, refl, ◌⊎◌, inl, inr, true, false, List, [], ◌∷◌, Option, none, some, ◌==◌,
  if◌then◌else◌, Bool-cases, is_empty, arith,
}
use ez_rets.DataSource.Session.{SessionCall}
use ez_rets.Dbc.{Dbc, returned, can_be_freed, has}
use ez_rets.Env.{Env, find_dbc, remove_dbc, sql_free_connect, free_found}
use ez_rets.Odbc.{success, error}
use ez_rets.Stmt.{Stmt}

-- After the removal of an address no connection is found there, and the others are found as before.
find_dbc-remove :
    (a b : ℕ) (cs : List (ℕ × Dbc))
    → find_dbc b (remove_dbc a cs) ≡ (if a == b then none else find_dbc b cs)
unfolding find_dbc remove_dbc
find_dbc-remove a b [] = ground arith
find_dbc-remove a b ((x, c) ∷ cs) = ground (arith, find_dbc-remove a b cs)

-- SQLFreeConnect on a connection of the environment: with a session or a statement it answers
-- SQL_ERROR and the connections are as before; without, it answers SQL_SUCCESS, the connection is
-- gone, and every other one is found as before.
pub sql_free_connect-cases :
    (w : Env) (address : ℕ) (c : Dbc)
    → find_dbc address w.connections ≡ some c
    → (((c.rets_session ≢ none) ⊎ (c.statements ≢ []))
        × (((sql_free_connect w address).1 ≡ returned error)
            × ((sql_free_connect w address).0.connections ≡ w.connections)))
      ⊎ (((c.rets_session ≡ none) × (c.statements ≡ []))
          × (((sql_free_connect w address).1 ≡ returned success)
              × ((b : ℕ)
                  → find_dbc b (sql_free_connect w address).0.connections
                    ≡ (if address == b then none else find_dbc b w.connections))))
unfolding sql_free_connect free_found can_be_freed
sql_free_connect-cases w address c h = elim (Bool-cases (can_be_freed c)) [
  | inl e ↦ inr (idle c e, rw (h, e) (refl, λ b. find_dbc-remove address b w.connections))
  | inr e ↦ inl (busy c e, rw (h, e) (refl, refl))
]
  where
    nothing :
        (s : Option (List SessionCall)) (ss : List (ℕ × Stmt))
        → (if has s then false else is_empty ss) ≡ true
        → (s ≡ none) × (ss ≡ [])
    nothing none [] e = (refl, refl)
    nothing none (x ∷ ss) e = absurd cc
    nothing (some s) ss e = absurd cc

    something :
        (s : Option (List SessionCall)) (ss : List (ℕ × Stmt))
        → (if has s then false else is_empty ss) ≡ false
        → (s ≢ none) ⊎ (ss ≢ [])
    something none [] e = absurd cc
    something none (x ∷ ss) e = inr (λ q. cc)
    something (some s) ss e = inl (λ q. cc)

    busy : (d : Dbc) → can_be_freed d ≡ false → (d.rets_session ≢ none) ⊎ (d.statements ≢ [])
    busy d e = something d.rets_session d.statements e

    idle : (d : Dbc) → can_be_freed d ≡ true → (d.rets_session ≡ none) × (d.statements ≡ [])
    idle d e = nothing d.rets_session d.statements e
