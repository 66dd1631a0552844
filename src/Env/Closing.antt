-- ===== src/Env/Closing.antt =====
-- project/driver/src/RetsENV.cpp and RetsDBC.cpp: that a client can always close what it opened.
use ez_rets.Base.{
  ℕ, zero, suc, ◌≤◌, ◌≡◌, refl, ap, ◌∙◌, List, [], ◌∷◌, Option, none, some, ==-refl, length, arith,
}
use ez_rets.DataSource.Ini.{Installer}
use ez_rets.DataSource.Session.{SessionCall}
use ez_rets.Dbc.{
  Dbc, Server, Ended, Outcome, returned, escaped, crashed, escaped_at, enter, remove_stmt,
  sql_free_stmt, can_be_freed,
}
use ez_rets.Dbc.Login.{sql_disconnect, disconnect_from}
use ez_rets.Env.{
  Env, Call, free_stmt, disconnect, find_dbc, store_dbc, remove_dbc, sql_free_connect, make,
  on_connection, made, free_found, sql_free_env, env_can_be_freed,
}
use ez_rets.Env.Reachable.{Step, Reach, here, next, Reach-trans, frees, calls}
use ez_rets.Memory.{Memory}
use ez_rets.Odbc.{success}
use ez_rets.Platform.{Platform}
use ez_rets.Stmt.{Stmt}

length-remove_stmt : (a : ℕ) (ss : List (ℕ × Stmt)) → length (remove_stmt a ss) ≤ length ss
unfolding remove_stmt
length-remove_stmt a [] = omega arith
length-remove_stmt a ((b, s) ∷ ss) = ground (arith, length-remove_stmt a ss)

length-remove_dbc : (a : ℕ) (cs : List (ℕ × Dbc)) → length (remove_dbc a cs) ≤ length cs
unfolding remove_dbc
length-remove_dbc a [] = omega arith
length-remove_dbc a ((b, c) ∷ cs) = ground (arith, length-remove_dbc a cs)

module _ {S : Type 0} (server : Server) (installer : Installer S) (p : Platform) where
  -- A call on the first connection changes that one alone.
  connections-on_first :
      (w : Env) (h : ℕ) (c : Dbc) (cs : List (ℕ × Dbc)) (call : Call S)
      → w.connections ≡ (h, c) ∷ cs
      → (on_connection server installer p w h call).0.connections
        ≡ (h, (enter (make server installer p call) c w.memory).dbc) ∷ cs
  unfolding on_connection made find_dbc store_dbc
  connections-on_first w h c cs call e = rw (e, ==-refl h) (rw (==-refl h))

  -- What SQL_DROP does to a connection.
  statements-drop :
      (a : ℕ) (c : Dbc) (m : Memory)
      → (enter (make server installer p (free_stmt a 1)) c m).dbc
        ≡ record c { errors = []; statements = remove_stmt a c.statements }
  unfolding enter make sql_free_stmt
  statements-drop a c m = refl

  freed_when_closed :
      (w : Env) (h : ℕ) (c : Dbc) (cs : List (ℕ × Dbc))
      → w.connections ≡ (h, c) ∷ cs
      → c.rets_session ≡ none
      → c.statements ≡ []
      → (sql_free_connect w h).0.connections ≡ remove_dbc h cs
  unfolding sql_free_connect free_found find_dbc can_be_freed remove_dbc
  freed_when_closed w h c cs e s t = rw (e, ==-refl h, s, t, ==-refl h)

  -- The connection at the head of the list has no statements, and the others are as before.
  HeadIsIdle : Env → ℕ → List (ℕ × Dbc) → Type 0
  HeadIsIdle v h cs = (d : Dbc) × ((v.connections ≡ (h, d) ∷ cs) × (d.statements ≡ []))

  drop_one :
      (w : Env) (h a : ℕ) (c : Dbc) (cs : List (ℕ × Dbc))
      → w.connections ≡ (h, c) ∷ cs
      → (on_connection server installer p w h (free_stmt a 1)).0.connections
        ≡ (h, record c { errors = []; statements = remove_stmt a c.statements }) ∷ cs
  drop_one w h a c cs e =
      connections-on_first w h c cs (free_stmt a 1) e
      ∙ ap (λ d. (h, d) ∷ cs) (statements-drop a c w.memory)

  -- All statements of the first connection can be dropped.
  drop_statements :
      (n : ℕ) (w : Env) (h : ℕ) (c : Dbc) (cs : List (ℕ × Dbc)) (ss : List (ℕ × Stmt))
      → w.connections ≡ (h, c) ∷ cs
      → c.statements ≡ ss
      → length ss ≤ n
      → (v : Env) × (Reach (Step server installer p) w v × HeadIsIdle v h cs)
  unfolding HeadIsIdle remove_stmt
  drop_statements n w h c cs [] e q bound = (w, (here, (c, (e, q))))
  drop_statements zero w h c cs ((a, s) ∷ ss) e q bound = absurd (omega arith)
  drop_statements (suc n) w h c cs ((a, s) ∷ ss) e q bound =
      let u = (on_connection server installer p w h (free_stmt a 1)).0 in
      let (v, (r, idle)) =
        drop_statements n u h (record c { errors = []; statements = remove_stmt a c.statements }) cs
          (remove_stmt a ss) (drop_one w h a c cs e) (rw (q, ==-refl a))
          (omega (arith, length-remove_stmt a ss)) in
      (v, (Reach-trans (next here (calls w h (free_stmt a 1))) r, idle))

  -- The connection has neither a session nor a statement.
  IsClosed : Dbc → Type 0
  IsClosed d = (d.rets_session ≡ none) × (d.statements ≡ [])

  escaped_at-IsClosed : (e : Ended) (o : Outcome) → IsClosed e.dbc → IsClosed (escaped_at e o).dbc
  unfolding IsClosed
  escaped_at-IsClosed e (returned r) h = h
  escaped_at-IsClosed e (escaped t) h = h
  escaped_at-IsClosed e crashed h = h

  module _ (logs_out : (session : List SessionCall) → server.logout session ≡ none) where
    disconnect_from-IsClosed :
        (c : Dbc) (m : Memory) (r : Option (List SessionCall))
        → c.rets_session ≡ r
        → c.statements ≡ []
        → IsClosed (disconnect_from server c m r).dbc
    unfolding IsClosed
    disconnect_from-IsClosed c m none e q = (e, q)
    disconnect_from-IsClosed c m (some session) e q = rw (q, logs_out session) (refl, refl)

    disconnect-IsClosed :
        (c : Dbc) (m : Memory)
        → c.statements ≡ []
        → IsClosed (enter (make server installer p disconnect) c m).dbc
    unfolding make sql_disconnect enter
    disconnect-IsClosed c m q =
        escaped_at-IsClosed (sql_disconnect server c m) (sql_disconnect server c m).outcome
          (disconnect_from-IsClosed (record c { errors = [] }) m c.rets_session refl q)

    -- The first connection can be closed and freed.
    free_first :
        (w : Env) (h : ℕ) (c : Dbc) (cs : List (ℕ × Dbc))
        → w.connections ≡ (h, c) ∷ cs
        → (v : Env) × (Reach (Step server installer p) w v × (v.connections ≡ remove_dbc h cs))
    unfolding HeadIsIdle IsClosed
    free_first w h c cs e =
        let (u, (r, (d, (f, idle)))) =
          drop_statements (length c.statements) w h c cs c.statements e refl (omega arith) in
        let x = (on_connection server installer p u h disconnect).0 in
        let closed = disconnect-IsClosed d u.memory idle in
        (
          (sql_free_connect x h).0,
          (
            next (next r (calls u h disconnect)) (frees x h),
            freed_when_closed x h (enter (make server installer p disconnect) d u.memory).dbc cs
                (connections-on_first u h d cs disconnect f) closed.0 closed.1,
          ),
        )

    close_all :
        (n : ℕ) (w : Env) (cs : List (ℕ × Dbc))
        → w.connections ≡ cs
        → length cs ≤ n
        → (v : Env) × (Reach (Step server installer p) w v × (v.connections ≡ []))
    close_all n w [] e bound = (w, (here, e))
    close_all zero w ((h, c) ∷ cs) e bound = absurd (omega arith)
    close_all (suc n) w ((h, c) ∷ cs) e bound =
        let (u, (r, f)) = free_first w h c cs e in
        let (v, (t, done)) =
          close_all n u (remove_dbc h cs) f (omega (arith, length-remove_dbc h cs)) in
        (v, (Reach-trans r t, done))

    -- From every state of an environment a client can go on to one in which the environment can be
    -- freed, where the server's Logout throws nothing.
    pub sql_free_env-reachable :
        (w : Env)
        → (v : Env) × (Reach (Step server installer p) w v × (sql_free_env v ≡ (none, success)))
    unfolding sql_free_env env_can_be_freed
    sql_free_env-reachable w =
        let (v, (r, done)) = close_all (length w.connections) w w.connections refl (omega arith) in
        (v, (r, rw (done)))
