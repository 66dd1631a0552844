-- ===== src/Dbc/Login.antt =====
-- project/driver/src/RetsDBC.cpp: connecting and disconnecting. The client's strings are the texts
-- that they hold, a null pointer is `none`; the driver's own log, and the error handler of the session
-- that only writes to it, are left out.
use ez_rets.Base.{
  ℕ, Bool, true, false, not, List, [], ◌∷◌, ◌++◌, Option, none, some, ltb, if◌then◌else◌, Text, pos,
  ℤ, codes, length, is_empty,
}
use ez_rets.DataSource.{DataSource, is_complete}
use ez_rets.DataSource.Connection.{get_connection_string, set_from_odbc_connection_string}
use ez_rets.DataSource.Ini.{Installer, merge_from_ini}
use ez_rets.DataSource.Session.{SessionCall, set_http_logger, create_rets_session, rets_login}
use ez_rets.DataSource.Strings.{Result, ok, thrown}
use ez_rets.Dbc.{
  Dbc, LoginResult, accepted, refused, raised, Server, Ended, ended, returned, escaped, with_error,
  clear_errors, has,
}
use ez_rets.Handle.{set_string_length}
use ez_rets.Librets.{RetsMetadata}
use ez_rets.Memory.{Memory}
use ez_rets.MetadataView.{create}
use ez_rets.Odbc.{success, success_with_info, no_data, error, size_of_sqllen, smallint_of_size}
use ez_rets.Platform.{Platform}
use ez_rets.Utils.{copy_string}

-- The handler of RetsDBC::login.
abbrev login_failed : Dbc → Text → Dbc × Bool
login_failed c e = (
  record (with_error c (codes "08001") (codes "Unable to connect: " ++ e)) {
    rets_session = none;
    metadata_view = none;
  },
  false,
)

-- The log of the HTTP traffic is opened once, for good.
abbrev pub open_log : Bool → Text → Option Text → Option Text
open_log true file none = some file
open_log true file (some f) = some f
open_log false file log = log

abbrev pub open_http_log : Dbc → Dbc
open_http_log c = record c {
  rets_log_file =
      open_log c.data_source.use_http_logging c.data_source.http_log_file c.rets_log_file;
}

abbrev pub logger_of : Option Text → List SessionCall
logger_of none = []
logger_of (some file) = set_http_logger file ∷ []

abbrev pub logger_calls : Dbc → List SessionCall
logger_calls c = if c.data_source.use_http_logging then logger_of c.rets_log_file else []

abbrev set_string : ℕ → ℤ → Memory → Memory
unfolding set_string_length
set_string p n m = set_string_length p n m

module _ (server : Server) where
  unfoldable pub logged_in : Dbc → List SessionCall → Result RetsMetadata → Dbc × Bool
  unfolding create
  logged_in c calls (thrown e) = login_failed c e
  logged_in c calls (ok metadata) = (
    record c {
      rets_session = some calls;
      metadata_view = some (create c.data_source.standard_names metadata);
    },
    true,
  )

  unfoldable pub after_login : Dbc → List SessionCall → LoginResult → Dbc × Bool
  unfolding logged_in
  after_login c calls accepted = logged_in c calls (server.get_metadata calls)
  after_login c calls refused = (c, false)
  after_login c calls (raised e) = login_failed c e

  unfoldable pub with_session : Dbc → List SessionCall → Option Text → Dbc × Bool
  unfolding after_login rets_login
  with_session c session (some e) = login_failed c e
  with_session c session none =
      let c1 = open_http_log c in
      let calls = session ++ (logger_calls c1 ++ (rets_login c1.data_source ∷ [])) in
      after_login c1 calls (server.login calls)

  -- RetsDBC::login
  unfoldable pub login : Dbc → Dbc × Bool
  unfolding with_session create_rets_session
  login c =
      let session = create_rets_session server.default_user_agent c.data_source in
      with_session c session (server.create_session session)

  -- The result of SQLConnect by that of the login.
  abbrev pub connected : Dbc × Bool → Memory → Ended
  connected (c, true) m = ended c m (returned success)
  connected (c, false) m =
      ended (with_error c (codes "08001") (codes "Could not log into server.")) m (returned error)

  -- A user name and a password from the client replace those of the data source.
  abbrev pub set_username : Option Text → DataSource → DataSource
  set_username none d = d
  set_username (some t) d = record d { username = t }

  abbrev pub set_password : Option Text → DataSource → DataSource
  set_password none d = d
  set_password (some t) d = record d { password = t }

  -- RetsDBC::SQLDisconnect
  abbrev pub logged_out : Dbc → Memory → Option Text → Ended
  logged_out c m (some e) = ended c m (escaped e)
  logged_out c m none =
      ended (record c { rets_session = none; metadata_view = none }) m (returned success)

  abbrev pub disconnect_from : Dbc → Memory → Option (List SessionCall) → Ended
  disconnect_from c m none = ended c m (returned success)
  disconnect_from c m (some calls) =
      if not (is_empty c.statements)
      then ended (with_error c (codes "HY000") (codes "STMTs still open")) m (returned error)
      else logged_out c m (server.logout calls)

  unfoldable pub sql_disconnect : Dbc → Memory → Ended
  sql_disconnect c m = disconnect_from (clear_errors c) m c.rets_session

  module _ {S : Type 0} (installer : Installer S) (ini : S) (p : Platform) where
    -- What SQLConnect makes of the connection's data source.
    unfoldable pub merged_source : DataSource → Text → Option Text → Option Text → DataSource
    unfolding merge_from_ini
    merged_source d name user_name authentication =
        set_password authentication
          (set_username user_name (merge_from_ini installer p ini (record d { name = name })))

    -- RetsDBC::SQLConnect
    unfoldable pub sql_connect : Dbc → Text → Option Text → Option Text → Memory → Ended
    unfolding login merged_source
    sql_connect c name user_name authentication m =
        let c0 = clear_errors c in
        if has c.rets_session
        then ended (with_error c0 (codes "08002") (codes "Connection already open")) m
            (returned error)
        else connected
            (login (record c0 {
              data_source = merged_source c.data_source name user_name authentication;
            }))
            m

    -- The end of SQLDriverConnect: the connection string goes to the client, whose buffer's length
    -- is a SQLSMALLINT.
    unfoldable pub put_string : Dbc → Text → ℕ → ℤ → ℕ → Memory → Ended
    unfolding copy_string set_string
    put_string c con_string out_ptr buffer_length length_ptr m =
        let (m1, size) = copy_string con_string out_ptr (size_of_sqllen buffer_length) m in
        let m2 = set_string length_ptr (smallint_of_size size) m1 in
        let c' = with_error c (codes "01004") (codes "Connection string longer than buffer") in
        if ltb size (length con_string)
        then if ltb (length con_string) 32768
          then ended c' (set_string length_ptr (pos (length con_string)) m2)
              (returned success_with_info)
          else ended c' m2 (escaped p.bad_numeric_cast_what)
        else ended c m2 (returned success)

    unfoldable pub driver_connected : ℕ → ℤ → ℕ → Memory → Dbc × Bool → Ended
    unfolding put_string get_connection_string
    driver_connected out_ptr buffer_length length_ptr m (c, true) =
        put_string c (get_connection_string c.data_source) out_ptr buffer_length length_ptr m
    driver_connected out_ptr buffer_length length_ptr m (c, false) =
        ended (with_error c (codes "08001") (codes "Could not log into server.")) m (returned error)

    -- What SQLDriverConnect makes of the connection's data source.
    unfoldable pub told_source : DataSource → Text → DataSource
    unfolding merge_from_ini set_from_odbc_connection_string
    told_source d in_string =
        merge_from_ini installer p ini (set_from_odbc_connection_string p in_string d)

    -- RetsDBC::SQLDriverConnect; no dialog is ever shown, whatever DriverCompletion says
    unfoldable pub sql_driver_connect : Dbc → Text → ℕ → ℤ → ℕ → Memory → Ended
    unfolding driver_connected login told_source is_complete
    sql_driver_connect c in_string out_ptr buffer_length length_ptr m =
        let c1 = record (clear_errors c) { data_source = told_source c.data_source in_string } in
        if is_complete c1.data_source
        then driver_connected out_ptr buffer_length length_ptr m (login c1)
        else ended c1 m (returned no_data)
