-- ===== src/Env/Kept.antt =====
-- project/driver/src/RetsENV.cpp, RetsDBC.cpp and RetsSTMT.cpp: proofs on what each call of a client
-- leaves of the connections.
use ez_rets.Base.{
  ℕ, ◌≡◌, refl, sym, subst, inl, inr, List, [], ◌∷◌, ◌++◌, ap, ◌∙◌, Option, none, some, ◌==◌,
  Bool-cases, All, All-append, ℤ, arith,
}
use ez_rets.Catalogue.{Sorting}
use ez_rets.DataSource.Ini.{Installer}
use ez_rets.DataSource.Session.{SessionCall}
use ez_rets.DataSource.Strings.{Result, ok, thrown}
use ez_rets.Dbc.{Dbc, Server, find_stmt, store_stmt}
use ez_rets.Dbc.Tame.{store_stmt-AllTame, find_stmt-IsTame}
use ez_rets.Dbc.Soundness.{
  SessionMatches, IsSound, enter-IsSound, sql_alloc_stmt-IsSound, sql_free_stmt-IsSound,
  sql_connect-IsSound, sql_driver_connect-IsSound, sql_disconnect-IsSound,
}
use ez_rets.Env.{
  Env, Call, alloc_stmt, free_stmt, connect, driver_connect, disconnect, find_dbc, store_dbc,
  remove_dbc, sql_alloc_connect, sql_free_connect, sql_get_env_attr, sql_set_env_attr, make,
  on_connection, free_found, made, can_be_freed,
}
use ez_rets.Env.Answers.{answered}
use ez_rets.Env.Asking.{
  StmtCall, answer, entered, source_of, ask_found, ask_at, asked_on, on_statement,
}
use ez_rets.Handle.{Error}
use ez_rets.Memory.{Memory}
use ez_rets.MetadataView.{MetadataView, create}
use ez_rets.MetadataView.Loading.{after_loads}
use ez_rets.Platform.{Platform}
use ez_rets.Query.Create.{Compiler}
use ez_rets.Query.Execute.{RetsSession}
use ez_rets.Stmt.{Stmt}
use ez_rets.Stmt.Loads.{Loads, after_loads-append}
use ez_rets.Stmt.Views.{IsTame, LoadsOnly}

module _ {S : Type 0} (server : Server) (installer : Installer S) (p : Platform) where
  -- Every connection is sound.
  abbrev pub AllSound : List (ℕ × Dbc) → Type 0
  AllSound cs = All (λ e. IsSound server e.1) cs

  pub find_dbc-IsSound :
      (address : ℕ) (cs : List (ℕ × Dbc)) (c : Dbc)
      → find_dbc address cs ≡ some c
      → AllSound cs
      → IsSound server c
  unfolding find_dbc
  find_dbc-IsSound address [] c h s = absurd cc
  find_dbc-IsSound address ((a, d) ∷ cs) c h (s, ss) = elim (Bool-cases (a == address)) [
    | inl e ↦ subst (IsSound server) (some-injective d c (rw (e) at h)) s
    | inr e ↦ find_dbc-IsSound address cs c (rw (e) at h) ss
  ]
    where
      some-injective : (d c : Dbc) → ◌≡◌ {A = Option Dbc} (some d) (some c) → d ≡ c
      some-injective d c q = cc

  store_dbc-AllSound :
      (address : ℕ) (d : Dbc) (cs : List (ℕ × Dbc))
      → IsSound server d
      → AllSound cs
      → AllSound (store_dbc address d cs)
  unfolding store_dbc
  store_dbc-AllSound address d [] s ss = tt
  store_dbc-AllSound address d ((a, c) ∷ cs) s (t, ts) = elim (Bool-cases (a == address)) [
    | inl e ↦ rw (e) (s, ts)
    | inr e ↦ rw (e) (t, store_dbc-AllSound address d cs s ts)
  ]

  remove_dbc-AllSound :
      (address : ℕ) (cs : List (ℕ × Dbc)) → AllSound cs → AllSound (remove_dbc address cs)
  unfolding remove_dbc
  remove_dbc-AllSound address [] ss = tt
  remove_dbc-AllSound address ((a, c) ∷ cs) (t, ts) = elim (Bool-cases (a == address)) [
    | inl e ↦ rw (e) (remove_dbc-AllSound address cs ts)
    | inr e ↦ rw (e) (t, remove_dbc-AllSound address cs ts)
  ]

  make-IsSound :
      (call : Call S) (c : Dbc) (m : Memory)
      → IsSound server c
      → IsSound server (make server installer p call c m).dbc
  unfolding make
  make-IsSound (alloc_stmt handle_ptr r) c m s = sql_alloc_stmt-IsSound server c handle_ptr r m s
  make-IsSound (free_stmt a option) c m s = sql_free_stmt-IsSound server c a option m s
  make-IsSound (connect ini n u a) c m s = sql_connect-IsSound server installer ini p c n u a m s
  make-IsSound (driver_connect ini t o b l) c m s =
      sql_driver_connect-IsSound server installer ini p c t o b l m s
  make-IsSound disconnect c m s = sql_disconnect-IsSound server c m s

  made-AllSound :
      (w : Env) (address : ℕ) (call : Call S) (r : Option Dbc)
      → find_dbc address w.connections ≡ r
      → AllSound w.connections
      → AllSound (made server installer p w address call r).0.connections
  unfolding made
  made-AllSound w address call none h ss = ss
  made-AllSound w address call (some c) h ss =
      store_dbc-AllSound address _ w.connections
        (enter-IsSound server (make server installer p call) c w.memory
          (make-IsSound call c w.memory (find_dbc-IsSound address w.connections c h ss)))
        ss

  free_found-AllSound :
      (w : Env) (address : ℕ) (r : Option Dbc)
      → AllSound w.connections
      → AllSound (free_found w address r).0.connections
  unfolding free_found
  free_found-AllSound w address none ss = ss
  free_found-AllSound w address (some c) ss = elim (Bool-cases (can_be_freed c)) [
    | inl e ↦ rw (e) (remove_dbc-AllSound address w.connections ss)
    | inr e ↦ rw (e) ss
  ]

  pub sql_alloc_connect-AllSound :
      (w : Env) (handle_ptr : ℕ) (r : Result ℕ)
      → AllSound w.connections
      → AllSound (sql_alloc_connect w handle_ptr r).0.connections
  unfolding sql_alloc_connect IsSound
  sql_alloc_connect-AllSound w handle_ptr (ok a) ss = elim (Bool-cases (handle_ptr == 0)) [
    | inl e ↦ rw (e) ss
    | inr e ↦ rw (e) (All-append _ w.connections _ ss ((tt, tt), tt))
  ]
  sql_alloc_connect-AllSound w handle_ptr (thrown t) ss = elim (Bool-cases (handle_ptr == 0)) [
    | inl e ↦ rw (e) ss
    | inr e ↦ rw (e) ss
  ]

  pub write_value-connections :
      (w : Env) (attribute value_ptr : ℕ)
      → (sql_get_env_attr w attribute value_ptr).0.connections ≡ w.connections
  unfolding sql_get_env_attr
  write_value-connections w attribute value_ptr = ground arith

  pub set_attr-connections :
      (w : Env) (attribute : ℕ) (value : ℤ)
      → (sql_set_env_attr w attribute value).0.connections ≡ w.connections
  unfolding sql_set_env_attr
  set_attr-connections w attribute value = ground arith

  -- Loading more tables leaves the view that of the session.
  SessionMatches-Loads :
      (log_in : List SessionCall) (v v' : MetadataView)
      → SessionMatches server (some log_in) (some v)
      → Loads v v'
      → SessionMatches server (some log_in) (some v')
  unfolding Loads SessionMatches
  SessionMatches-Loads log_in v v' (h, (md, (k, (d, (login_made, (classes, e)))))) (more, f) = (
    h,
    (
      md,
      (
        k,
        (
          d,
          (
            login_made,
            (
              classes ++ more,
              f
                  ∙ ap (λ x. after_loads x more) e
                  ∙ sym (after_loads-append (create d.standard_names md) classes more),
            ),
          ),
        ),
      ),
    ),
  )

  module _ (l : Compiler) (only : LoadsOnly l) (session : RetsSession) (sorting : Sorting) where
    ask_found-IsSound :
        (c : Dbc) (place : ℕ) (call : StmtCall) (m : Memory) (v : MetadataView)
        (log_in : List SessionCall) (r : Option Stmt)
        → c.rets_session ≡ some log_in
        → c.metadata_view ≡ some v
        → find_stmt place c.statements ≡ r
        → IsSound server c
        → IsSound server (ask_found p l session sorting c place call m v log_in r).0
    unfolding ask_found IsSound
    ask_found-IsSound c place call m v log_in none h k found s = s
    ask_found-IsSound c place call m v log_in (some st) h k found (matches, tame) =
        let src = source_of c v log_in in
        let a = answer p l session sorting src st call in
        let (loads, kept) =
          answered p l only session sorting src st call m
            (find_stmt-IsTame place c.statements st found tame) in
        (
          rw (h) (SessionMatches-Loads log_in v a.view (rw (h, k) at matches) loads),
          store_stmt-AllTame place (entered p l session sorting a m).stmt c.statements kept tame,
        )

    ask_at-IsSound :
        (c : Dbc) (place : ℕ) (call : StmtCall) (m : Memory) (view : Option MetadataView)
        (s : Option (List SessionCall))
        → c.rets_session ≡ s
        → c.metadata_view ≡ view
        → IsSound server c
        → IsSound server (ask_at p l session sorting c place call m view s).0
    unfolding ask_at
    ask_at-IsSound c place call m (some v) (some log_in) h k sound =
        ask_found-IsSound c place call m v log_in (find_stmt place c.statements) h k refl sound
    ask_at-IsSound c place call m (some v) none h k sound = sound
    ask_at-IsSound c place call m none s h k sound = sound

    asked_on-AllSound :
        (w : Env) (address place : ℕ) (call : StmtCall) (r : Option Dbc)
        → find_dbc address w.connections ≡ r
        → AllSound w.connections
        → AllSound (asked_on p l session sorting w address place call r).0.connections
    unfolding asked_on
    asked_on-AllSound w address place call none h ss = ss
    asked_on-AllSound w address place call (some c) h ss =
        store_dbc-AllSound address _ w.connections
          (ask_at-IsSound c place call w.memory c.metadata_view c.rets_session refl refl
            (find_dbc-IsSound address w.connections c h ss))
          ss

  pub on_statement-AllSound :
      (l : Compiler) (only : LoadsOnly l) (session : RetsSession) (sorting : Sorting) (w : Env)
      (address place : ℕ) (call : StmtCall)
      → AllSound w.connections
      → AllSound (on_statement p l session sorting w address place call).0.connections
  unfolding on_statement
  on_statement-AllSound l only session sorting w address place call =
      asked_on-AllSound l only session sorting w address place call (find_dbc address w.connections)
        refl

  uses-IsSound :
      (c : Dbc) (place : ℕ) (s s' : Stmt)
      → find_stmt place c.statements ≡ some s
      → s'.query ≡ s.query
      → IsSound server c
      → IsSound server (record c { statements = store_stmt place s' c.statements })
  unfolding IsSound
  uses-IsSound c place s s' found same (matches, tame) = (
    matches,
    store_stmt-AllTame place s' c.statements
        (subst IsTame (sym same) (find_stmt-IsTame place c.statements s found tame)) tame,
  )

  pub on_connection-AllSound :
      (w : Env) (address : ℕ) (call : Call S)
      → AllSound w.connections
      → AllSound (on_connection server installer p w address call).0.connections
  unfolding on_connection
  on_connection-AllSound w address call =
      made-AllSound w address call (find_dbc address w.connections) refl

  pub sql_free_connect-AllSound :
      (w : Env) (address : ℕ)
      → AllSound w.connections
      → AllSound (sql_free_connect w address).0.connections
  unfolding sql_free_connect
  sql_free_connect-AllSound w address =
      free_found-AllSound (record w { errors = [] }) address (find_dbc address w.connections)

  -- A call of a statement that changes no more than the statement, but for its query.
  pub store_stmt-AllSound :
      (w : Env) (address place : ℕ) (c : Dbc) (s s' : Stmt)
      → find_dbc address w.connections ≡ some c
      → find_stmt place c.statements ≡ some s
      → s'.query ≡ s.query
      → AllSound w.connections
      → AllSound (
          store_dbc address
            (record c { statements = store_stmt place s' c.statements })
            w.connections)
  store_stmt-AllSound w address place c s s' found found' same ss =
      store_dbc-AllSound address (record c { statements = store_stmt place s' c.statements })
        w.connections
        (uses-IsSound c place s s' found' same (find_dbc-IsSound address w.connections c found ss))
        ss

  pub store_errors-AllSound :
      (w : Env) (address : ℕ) (c : Dbc) (errors : List Error)
      → find_dbc address w.connections ≡ some c
      → AllSound w.connections
      → AllSound (store_dbc address (record c { errors = errors }) w.connections)
  unfolding IsSound
  store_errors-AllSound w address c errors found ss =
      store_dbc-AllSound address (record c { errors = errors }) w.connections
        (find_dbc-IsSound address w.connections c found ss) ss
