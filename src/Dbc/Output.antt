-- ===== src/Dbc/Output.antt =====
-- project/driver/src/RetsDBC.cpp: what SQLDriverConnect leaves in the client's buffer.
use ez_rets.Base.{
  ℕ, ◌+◌, ◌-◌, ◌≤◌, ◌≡◌, ◌≢◌, ap, ◌∙◌, inl, inr, Bool, true, false, [], ◌∷◌, ◌++◌, Bool-cases,
  length, Text, ltb, take-all, arith, ℤ, ◌==◌,
}
use ez_rets.DataSource.{is_complete}
use ez_rets.DataSource.Connection.{get_connection_string}
use ez_rets.DataSource.Ini.{Installer}
use ez_rets.Dbc.{Dbc, Server, Ended, Outcome, returned}
use ez_rets.Dbc.Login.{login, put_string, driver_connected, sql_driver_connect, told_source}
use ez_rets.Handle.{set_string_length}
use ez_rets.Memory.{Memory, read_bytes}
use ez_rets.Odbc.{success, no_data, size_of_sqllen, smallint_of_size}
use ez_rets.Platform.{Platform}
use ez_rets.Utils.{copy_string}
use ez_rets.Utils.Copy.{copy_string-reads, copied_size}

bytes-set_string_length : (q : ℕ) (n : ℤ) (m : Memory) → (set_string_length q n m).bytes ≡ m.bytes
unfolding set_string_length
bytes-set_string_length q n m = elim (Bool-cases (q == 0)) [ inl e ↦ rw (e) | inr e ↦ rw (e) ]

module _ {S : Type 0} (server : Server) (installer : Installer S) (ini : S) (p : Platform) where
  module _ (c : Dbc) (t : Text) (out_ptr : ℕ) (buffer_length : ℤ) (length_ptr : ℕ)
      (m : Memory) where
    -- The bytes after the string was put out whole are those that copyString left.
    put_string-whole :
        ltb (copy_string t out_ptr (size_of_sqllen buffer_length) m).1 (length t) ≡ false
        → (put_string server installer ini p c t out_ptr buffer_length length_ptr m).memory.bytes
          ≡ (copy_string t out_ptr (size_of_sqllen buffer_length) m).0.bytes
    unfolding put_string
    put_string-whole e =
        let (m1, size) = copy_string t out_ptr (size_of_sqllen buffer_length) m in
        rw (e) (bytes-set_string_length length_ptr (smallint_of_size size) m1)

    put_string-not_whole :
        ltb (copy_string t out_ptr (size_of_sqllen buffer_length) m).1 (length t) ≡ true
        → (put_string server installer ini p c t out_ptr buffer_length length_ptr m).outcome
          ≢ returned success
    unfolding put_string
    put_string-not_whole e = elim (Bool-cases (ltb (length t) 32768)) [
      | inl f ↦ rw (e) (rw (f) (λ q. cc))
      | inr f ↦ rw (e) (rw (f) (λ q. cc))
    ]

    put_string-reads :
        out_ptr ≢ 0
        → size_of_sqllen buffer_length ≢ 0
        → (put_string server installer ini p c t out_ptr buffer_length length_ptr m).outcome
          ≡ returned success
        → read_bytes
            (put_string server installer ini p c t out_ptr buffer_length length_ptr m).memory
            out_ptr
            (length t + 1)
          ≡ t ++ 0 ∷ []
    unfolding read_bytes
    put_string-reads ho hb h =
        let size = size_of_sqllen buffer_length in
        let (copied, reads) = copy_string-reads t out_ptr size m ho hb in
        elim (Bool-cases (ltb (copy_string t out_ptr size m).1 (length t))) [
          | inl e ↦ absurd (put_string-not_whole e h)
          | inr e ↦
              let whole : length t ≤ size - 1 = ground arith in
              let all : copied_size t out_ptr size m ≡ length t = omega arith in
              rw (put_string-whole e, ← all)
                (reads ∙ ap (λ u. u ++ 0 ∷ []) (take-all (size - 1) t whole))
        ]

    data_source-put_string :
        (put_string server installer ini p c t out_ptr buffer_length length_ptr m).dbc.data_source
        ≡ c.data_source
    unfolding put_string
    data_source-put_string =
        elim (Bool-cases
          (ltb (copy_string t out_ptr (size_of_sqllen buffer_length) m).1 (length t))) [
            | inl e ↦
                rw (e) elim (Bool-cases (ltb (length t) 32768)) [ inl f ↦ rw (f) | inr f ↦ rw (f) ]
            | inr e ↦ rw (e)
          ]

  -- The client's buffer holds the connection string of the connection's data source, whole, and
  -- after it the terminator.
  unfoldable pub HoldsString : Ended → ℕ → Type 0
  HoldsString e out_ptr =
      read_bytes e.memory out_ptr (length (get_connection_string e.dbc.data_source) + 1)
      ≡ get_connection_string e.dbc.data_source ++ 0 ∷ []

  module _ (out_ptr : ℕ) (buffer_length : ℤ) (length_ptr : ℕ) (m : Memory) where
    driver_connected-HoldsString :
        (r : Dbc × Bool)
        → out_ptr ≢ 0
        → size_of_sqllen buffer_length ≢ 0
        → (driver_connected server installer ini p out_ptr buffer_length length_ptr m r).outcome
          ≡ returned success
        → HoldsString
            (driver_connected server installer ini p out_ptr buffer_length length_ptr m r)
            out_ptr
    unfolding driver_connected HoldsString
    driver_connected-HoldsString (c, true) ho hb h =
        let t = get_connection_string c.data_source in
        rw (data_source-put_string c t out_ptr buffer_length length_ptr m)
          (put_string-reads c t out_ptr buffer_length length_ptr m ho hb h)
    driver_connected-HoldsString (c, false) ho hb h = absurd cc

    -- Where SQLDriverConnect answers SQL_SUCCESS, the client's buffer holds the connection string of
    -- the data source that it connected to, whole and terminated. The buffer is not null and has
    -- a length.
    pub sql_driver_connect-HoldsString :
        (c : Dbc) (in_string : Text)
        → out_ptr ≢ 0
        → size_of_sqllen buffer_length ≢ 0
        → (sql_driver_connect server installer ini p c in_string out_ptr buffer_length length_ptr
            m).outcome
          ≡ returned success
        → HoldsString
            (sql_driver_connect server installer ini p c in_string out_ptr buffer_length length_ptr
              m)
            out_ptr
    unfolding sql_driver_connect HoldsString
    sql_driver_connect-HoldsString c in_string ho hb h =
        let d = told_source server installer ini p c.data_source in_string in
        elim (Bool-cases (is_complete d)) [
          | inl e ↦ rw (e) (
              driver_connected-HoldsString
                (login server (record c { errors = []; data_source = d })) ho hb (rw (e) at h))
          | inr e ↦ absurd (not_connected (rw (e) at h))
        ]
      where
        not_connected : ◌≢◌ {A = Outcome} (returned no_data) (returned success)
        not_connected q = cc
