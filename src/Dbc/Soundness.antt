-- ===== src/Dbc/Soundness.antt =====
-- project/driver/src/RetsDBC.cpp: that a connection's view of the metadata is always that of its
-- session.
use ez_rets.Base.{
  ℕ, ◌≡◌, refl, subst, Bool, true, false, List, [], ◌∷◌, ◌++◌, All-append, Option, none, some, ◌==◌,
  Text, ℤ, ltb, length, Bool-cases, inl, inr, is_empty,
}
use ez_rets.DataSource.{DataSource, is_complete}
use ez_rets.DataSource.Connection.{get_connection_string}
use ez_rets.DataSource.Ini.{Installer}
use ez_rets.DataSource.Session.{SessionCall, create_rets_session, rets_login}
use ez_rets.DataSource.Strings.{Result, ok, thrown}
use ez_rets.Dbc.{
  Dbc, LoginResult, accepted, refused, raised, Server, Ended, Outcome, returned, escaped, crashed,
  sql_alloc_stmt, sql_free_stmt, enter, unbind_at, after_unbind, unbind_stmt, find_stmt, escaped_at,
  has,
}
use ez_rets.Dbc.Tame.{AllTame, store_stmt-AllTame, remove_stmt-AllTame, find_stmt-IsTame}
use ez_rets.Dbc.Login.{
  login, with_session, after_login, logged_in, connected, sql_connect, sql_disconnect, put_string,
  driver_connected, sql_driver_connect, disconnect_from, logged_out, open_http_log, logger_calls,
  merged_source, told_source,
}
use ez_rets.Librets.{RetsMetadata, MetadataClass}
use ez_rets.Memory.{Memory}
use ez_rets.MetadataView.{MetadataView, create}
use ez_rets.MetadataView.Loading.{after_loads}
use ez_rets.Odbc.{size_of_sqllen}
use ez_rets.Platform.{Platform}
use ez_rets.ResultSet.{ResultSet}
use ez_rets.Stmt.{Stmt}
use ez_rets.Stmt.Views.{IsTame}
use ez_rets.Utils.{copy_string}

module _ (server : Server) where
  -- The calls make a session with the settings of the data source and log it in.
  abbrev pub IsLogin : DataSource → List SessionCall → Type 0
  unfolding create_rets_session rets_login
  IsLogin d calls =
      (logger : List SessionCall) × (calls
        ≡ create_rets_session server.default_user_agent d ++ (logger ++ (rets_login d ∷ [])))

  -- A session was made and logged in with the settings of a data source and let in by the server; its
  -- view is a new one of the metadata that the server gives it, by the names that the data source
  -- says, in which the tables of some classes have been loaded. Without a session there is no view.
  unfoldable pub SessionMatches : Option (List SessionCall) → Option MetadataView → Type 0
  SessionMatches none none = Unit
  SessionMatches none (some v) = ⊥
  SessionMatches (some calls) none = ⊥
  SessionMatches (some calls) (some v) =
      (server.login calls ≡ accepted)
      × ((metadata : RetsMetadata) × ((server.get_metadata calls ≡ ok metadata)
            × ((d : DataSource) × (IsLogin d calls
                  × ((classes : List MetadataClass) × (v
                        ≡ after_loads (create d.standard_names metadata) classes))))))

  unfoldable pub IsSound : Dbc → Type 0
  unfolding SessionMatches
  IsSound c = SessionMatches c.rets_session c.metadata_view × AllTame c.statements

  logged_in-IsSound :
      (c : Dbc) (calls : List SessionCall) (r : Result RetsMetadata)
      → server.login calls ≡ accepted
      → server.get_metadata calls ≡ r
      → IsLogin c.data_source calls
      → AllTame c.statements
      → IsSound (logged_in server c calls r).0
  unfolding IsSound logged_in after_loads
  logged_in-IsSound c calls (thrown e) h k made t = (tt, t)
  logged_in-IsSound c calls (ok metadata) h k made t =
      ((h, (metadata, (k, (c.data_source, (made, ([], refl)))))), t)

  after_login-IsSound :
      (c : Dbc) (calls : List SessionCall) (r : LoginResult)
      → server.login calls ≡ r
      → IsLogin c.data_source calls
      → IsSound c
      → IsSound (after_login server c calls r).0
  unfolding IsSound after_login
  after_login-IsSound c calls accepted h made s =
      logged_in-IsSound c calls (server.get_metadata calls) h refl made s.1
  after_login-IsSound c calls refused h made s = s
  after_login-IsSound c calls (raised e) h made s = (tt, s.1)

  with_session-IsSound :
      (c : Dbc) (r : Option Text)
      → IsSound c
      → IsSound
          (with_session server c (create_rets_session server.default_user_agent c.data_source) r).0
  unfolding with_session IsSound IsLogin
  with_session-IsSound c (some e) s = (tt, s.1)
  with_session-IsSound c none s =
      let c1 = open_http_log c in
      let session = create_rets_session server.default_user_agent c.data_source in
      let calls = session ++ (logger_calls c1 ++ (rets_login c1.data_source ∷ [])) in
      after_login-IsSound c1 calls (server.login calls) refl (logger_calls c1, refl) s

  login-IsSound : (c : Dbc) → IsSound c → IsSound (login server c).0
  unfolding login
  login-IsSound c s =
      let session = create_rets_session server.default_user_agent c.data_source in
      with_session-IsSound c (server.create_session session) s

  connected-IsSound :
      (r : Dbc × Bool) (m : Memory) → IsSound r.0 → IsSound (connected server r m).dbc
  unfolding IsSound
  connected-IsSound (c, true) m s = s
  connected-IsSound (c, false) m s = s

  logged_out-IsSound :
      (c : Dbc) (m : Memory) (r : Option Text) → IsSound c → IsSound (logged_out server c m r).dbc
  unfolding IsSound
  logged_out-IsSound c m (some e) s = s
  logged_out-IsSound c m none s = (tt, s.1)

  disconnect_from-IsSound :
      (c : Dbc) (m : Memory) (r : Option (List SessionCall))
      → IsSound c
      → IsSound (disconnect_from server c m r).dbc
  unfolding IsSound
  disconnect_from-IsSound c m none s = s
  disconnect_from-IsSound c m (some calls) s = elim (Bool-cases (is_empty c.statements)) [
    | inl e ↦ rw (e) (logged_out-IsSound c m (server.logout calls) s)
    | inr e ↦ rw (e) s
  ]

  pub sql_disconnect-IsSound :
      (c : Dbc) (m : Memory) → IsSound c → IsSound (sql_disconnect server c m).dbc
  unfolding sql_disconnect IsSound
  sql_disconnect-IsSound c m s = disconnect_from-IsSound _ m c.rets_session s

  pub sql_alloc_stmt-IsSound :
      (c : Dbc) (handle_ptr : ℕ) (r : Result ℕ) (m : Memory)
      → IsSound c
      → IsSound (sql_alloc_stmt c handle_ptr r m).dbc
  unfolding sql_alloc_stmt IsSound IsTame
  sql_alloc_stmt-IsSound c handle_ptr (ok a) m s = elim (Bool-cases (handle_ptr == 0)) [
    | inl e ↦ rw (e) s
    | inr e ↦ rw (e) (s.0, All-append _ c.statements _ s.1 (tt, tt))
  ]
  sql_alloc_stmt-IsSound c handle_ptr (thrown t) m s = elim (Bool-cases (handle_ptr == 0)) [
    | inl e ↦ rw (e) s
    | inr e ↦ rw (e) s
  ]

  after_unbind-IsSound :
      (c : Dbc) (address : ℕ) (m : Memory) (r : Option Stmt)
      → IsSound c
      → ((x : Stmt) → r ≡ some x → IsTame x.query)
      → IsSound (after_unbind c address m r).dbc
  unfolding IsSound
  after_unbind-IsSound c address m none s t = s
  after_unbind-IsSound c address m (some x) s t =
      (s.0, store_stmt-AllTame address x c.statements (t x refl) s.1)

  unbind_stmt-IsTame :
      (s : Stmt) (r : Option ResultSet)
      → IsTame s.query
      → (x : Stmt) → unbind_stmt (record s { result_set = r }) ≡ some x
      → IsTame x.query
  unfolding unbind_stmt
  unbind_stmt-IsTame s none t x h = absurd cc
  unbind_stmt-IsTame s (some rs) t x h = subst (λ y. IsTame y.query) (some-injective _ x h) t
    where
      some-injective : (y z : Stmt) → ◌≡◌ {A = Option Stmt} (some y) (some z) → y ≡ z
      some-injective y z q = cc

  unbind_at-IsSound :
      (c : Dbc) (address : ℕ) (m : Memory) (r : Option Stmt)
      → find_stmt address c.statements ≡ r
      → IsSound c
      → IsSound (unbind_at c address m r).dbc
  unfolding IsSound unbind_at
  unbind_at-IsSound c address m none h s = s
  unbind_at-IsSound c address m (some x) h s =
      after_unbind-IsSound c address m (unbind_stmt x) s
        (unbind_stmt-IsTame x x.result_set (find_stmt-IsTame address c.statements x h s.1))

  pub sql_free_stmt-IsSound :
      (c : Dbc) (address option : ℕ) (m : Memory)
      → IsSound c
      → IsSound (sql_free_stmt c address option m).dbc
  unfolding sql_free_stmt IsSound
  sql_free_stmt-IsSound c address option m s = elim (Bool-cases (option == 2)) [
    | inl e ↦ rw (e) (unbind_at-IsSound _ address m (find_stmt address c.statements) refl s)
    | inr e ↦ rw (e) elim (Bool-cases (option == 1)) [
      | inl f ↦ rw (f) (s.0, remove_stmt-AllTame address c.statements s.1)
      | inr f ↦ rw (f) s
    ]
  ]

  escaped_at-IsSound : (e : Ended) (o : Outcome) → IsSound e.dbc → IsSound (escaped_at e o).dbc
  unfolding IsSound
  escaped_at-IsSound e (returned r) s = s
  escaped_at-IsSound e (escaped t) s = s
  escaped_at-IsSound e crashed s = s

  pub enter-IsSound :
      (call : Dbc → Memory → Ended) (c : Dbc) (m : Memory)
      → IsSound (call c m).dbc
      → IsSound (enter call c m).dbc
  unfolding enter
  enter-IsSound call c m s = escaped_at-IsSound (call c m) (call c m).outcome s

  module _ {S : Type 0} (installer : Installer S) (ini : S) (p : Platform) where
    pub sql_connect-IsSound :
        (c : Dbc) (name : Text) (user_name authentication : Option Text) (m : Memory)
        → IsSound c
        → IsSound (sql_connect server installer ini p c name user_name authentication m).dbc
    unfolding sql_connect IsSound
    sql_connect-IsSound c name u a m s =
        let c1 = record c {
          errors = [];
          data_source = merged_source server installer ini p c.data_source name u a;
        } in
        elim (Bool-cases (has c.rets_session)) [
          | inl e ↦ rw (e) s
          | inr e ↦ rw (e) (connected-IsSound (login server c1) m (login-IsSound c1 s))
        ]

    put_string-IsSound :
        (c : Dbc) (t : Text) (out_ptr : ℕ) (buffer_length : ℤ) (length_ptr : ℕ) (m : Memory)
        → IsSound c
        → IsSound (put_string server installer ini p c t out_ptr buffer_length length_ptr m).dbc
    unfolding put_string IsSound
    put_string-IsSound c t out_ptr buffer_length length_ptr m s =
        elim (Bool-cases
          (ltb (copy_string t out_ptr (size_of_sqllen buffer_length) m).1 (length t))) [
            | inl e ↦
                rw (e)
                  elim (Bool-cases (ltb (length t) 32768)) [ inl f ↦ rw (f) s | inr f ↦ rw (f) s ]
            | inr e ↦ rw (e) s
          ]

    driver_connected-IsSound :
        (out_ptr : ℕ) (buffer_length : ℤ) (length_ptr : ℕ) (m : Memory) (r : Dbc × Bool)
        → IsSound r.0
        → IsSound (driver_connected server installer ini p out_ptr buffer_length length_ptr m r).dbc
    unfolding driver_connected IsSound
    driver_connected-IsSound out_ptr buffer_length length_ptr m (c, true) s =
        put_string-IsSound c (get_connection_string c.data_source) out_ptr buffer_length length_ptr
          m s
    driver_connected-IsSound out_ptr buffer_length length_ptr m (c, false) s = s

    pub sql_driver_connect-IsSound :
        (c : Dbc) (in_string : Text) (out_ptr : ℕ) (buffer_length : ℤ) (length_ptr : ℕ) (m : Memory)
        → IsSound c
        → IsSound
            (sql_driver_connect server installer ini p c in_string out_ptr buffer_length length_ptr
              m).dbc
    unfolding sql_driver_connect IsSound
    sql_driver_connect-IsSound c in_string out_ptr buffer_length length_ptr m s =
        let d = told_source server installer ini p c.data_source in_string in
        let c1 = record c { errors = []; data_source = d } in
        elim (Bool-cases (is_complete d)) [
          | inl e ↦ rw (e) (
              driver_connected-IsSound out_ptr buffer_length length_ptr m (login server c1)
                (login-IsSound c1 s))
          | inr e ↦ rw (e) s
        ]
