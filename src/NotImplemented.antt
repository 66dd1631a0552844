-- ===== src/NotImplemented.antt =====
-- project/driver/src/NotImplemented.cpp: the calls that the driver does not have. A handle is the
-- list of its errors; a null one is `none`.
use ez_rets.Base.{List, Option, none, some, Text, codes}
use ez_rets.Handle.{Error, add_error}
use ez_rets.Odbc.{SqlReturn, success, error}

abbrev pub Handle : Type 0
Handle = Option (List Error)

-- The body that most of them share.
abbrev not_implemented : Text → Handle → Handle × SqlReturn
not_implemented message none = (none, error)
not_implemented message (some errors) = (some (add_error errors (codes "HY000") message), error)

abbrev pub sql_bind_parameter : Handle → Handle × SqlReturn
sql_bind_parameter = not_implemented (codes "SQLBindParameter not implemented.")

abbrev pub sql_bulk_operations : Handle → Handle × SqlReturn
sql_bulk_operations = not_implemented (codes "SQLBulkOperations not implemented.")

abbrev pub sql_close_cursor : Handle → Handle × SqlReturn
sql_close_cursor = not_implemented (codes "SQLCloseCursor not implemented.")

abbrev pub sql_column_privileges : Handle → Handle × SqlReturn
sql_column_privileges = not_implemented (codes "SQLCancel not implemented.")

abbrev pub sql_copy_desc : Handle → Handle × SqlReturn
sql_copy_desc = not_implemented (codes "SQLCopyDesc not implemented")

abbrev pub sql_describe_param : Handle → Handle × SqlReturn
sql_describe_param = not_implemented (codes "SQLDescribeParam not implemented.")

abbrev pub sql_end_tran : Handle → Handle × SqlReturn
sql_end_tran = not_implemented (codes "SQLEndTran not implemented.")

abbrev pub sql_foreign_keys : Handle → Handle × SqlReturn
sql_foreign_keys = not_implemented (codes "SQLForeignKeys not implemented.")

abbrev pub sql_get_connect_option : Handle → Handle × SqlReturn
sql_get_connect_option = not_implemented (codes "SQLGetConnectOption not implemented")

abbrev pub sql_get_cursor_name : Handle → Handle × SqlReturn
sql_get_cursor_name = not_implemented (codes "SQLGetCursorName not implemented")

abbrev pub sql_native_sql : Handle → Handle × SqlReturn
sql_native_sql = not_implemented (codes "SQLNativeSql not implemented")

abbrev pub sql_param_data : Handle → Handle × SqlReturn
sql_param_data = not_implemented (codes "SQLParamData not implemented")

abbrev pub sql_procedure_columns : Handle → Handle × SqlReturn
sql_procedure_columns = not_implemented (codes "SQLProcedureColumns not implemented")

abbrev pub sql_procedures : Handle → Handle × SqlReturn
sql_procedures = not_implemented (codes "SQLProcedures not implemented")

abbrev pub sql_put_data : Handle → Handle × SqlReturn
sql_put_data = not_implemented (codes "SQLPutData not implemented")

-- SQLSetConnectAttr, which takes anything
abbrev pub sql_set_connect_attr : Handle → Handle × SqlReturn
sql_set_connect_attr h = (h, success)

-- SQLSetConnectOption, which takes anything
abbrev pub sql_set_connect_option : Handle → Handle × SqlReturn
sql_set_connect_option h = (h, success)

abbrev pub sql_set_cursor_name : Handle → Handle × SqlReturn
sql_set_cursor_name = not_implemented (codes "SQLSetCursorname not implemented")

abbrev pub sql_set_desc_rec : Handle → Handle × SqlReturn
sql_set_desc_rec = not_implemented (codes "SQLSetDescRec not implemented")

abbrev pub sql_set_param : Handle → Handle × SqlReturn
sql_set_param = not_implemented (codes "SQLSetParam not implemented")

abbrev pub sql_set_pos : Handle → Handle × SqlReturn
sql_set_pos = not_implemented (codes "SQLSetPos not implemented")

abbrev pub sql_set_scroll_options : Handle → Handle × SqlReturn
sql_set_scroll_options = not_implemented (codes "SQLSetScrollOption not implemented")

abbrev pub sql_table_privileges : Handle → Handle × SqlReturn
sql_table_privileges = not_implemented (codes "SQLTablePriviledges not implemented")

abbrev pub sql_transact : Handle → Handle × SqlReturn
sql_transact = not_implemented (codes "SQLTransact not implemented")
