-- ===== src/Dbc/Diagnostics.antt =====
-- project/driver/src/RetsDBC.cpp and RetsSTMT.cpp: what a connection and a statement say of themselves in
-- SQLGetDiagField.
use ez_rets.Base.{ℕ, [], Option, none, some, pos, negsuc}
use ez_rets.Dbc.{Dbc}
use ez_rets.Handle.Fields.{DiagMethods, FieldEnd, returned, crashed, base_methods, put_text}
use ez_rets.Memory.{Memory, set_word}
use ez_rets.Odbc.{success, error}
use ez_rets.ResultSet.{ResultSet, row_count}
use ez_rets.Stmt.{Stmt}

-- RetsDBC::diagConnectionName and RetsDBC::diagServerName, which test the pointer of the length
unfoldable pub dbc_methods : Dbc → DiagMethods
unfolding base_methods put_text
dbc_methods c = record base_methods {
  diag_connection_name = λ info_ptr buffer_length length_ptr m.
      put_text info_ptr buffer_length length_ptr c.data_source.name m;
  diag_server_name = λ info_ptr buffer_length length_ptr m.
      put_text info_ptr buffer_length length_ptr c.data_source.login_url m;
}

abbrev cursor_rows : Option ResultSet → ℕ → Memory → Memory × FieldEnd
unfolding set_word row_count
cursor_rows none info_ptr m = (m, crashed)
cursor_rows (some rs) info_ptr m = (set_word m info_ptr (pos (row_count rs.rows)), returned success)

-- The functions that RetsSTMT overrides; SQL_DIAG_UNKNOWN_STATEMENT is 0, SQL_ROW_NUMBER_UNKNOWN is -2
unfoldable pub stmt_methods : Dbc → Stmt → DiagMethods
unfolding dbc_methods cursor_rows put_text set_word
stmt_methods c s = record (dbc_methods c) {
  diag_cursor_row_count = cursor_rows s.result_set;
  diag_dynamic_function =
      λ info_ptr buffer_length length_ptr m. put_text info_ptr buffer_length length_ptr [] m;
  diag_dynamic_function_code = λ info_ptr m. (set_word m info_ptr (pos 0), returned success);
  diag_row_count = λ info_ptr m. (set_word m info_ptr (pos 0), returned error);
  diag_row_number = λ info_ptr m. (set_word m info_ptr (negsuc 1), returned success);
}
