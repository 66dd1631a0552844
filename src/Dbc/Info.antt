-- ===== src/Dbc/Info.antt =====
-- project/driver/src/RetsDBC.cpp and GetInfoHelper.cpp: SQLGetInfo. The kinds of information are
-- those of the case labels, under their names.
use ez_rets.Base.{ℕ, [], if◌then◌else◌, ◌==◌, ltb, length, Text, ℤ, pos, codes}
use ez_rets.Dbc.{Dbc, Ended, ended, returned, with_error, clear_errors}
use ez_rets.Memory.{Memory, set_word}
use ez_rets.Odbc.{success, success_with_info, error, size_of_sqllen, smallint_of_size}
use ez_rets.Utils.{copy_string}

-- The labels that are answered by a short 0, and by a 0.
pub data ShortZero : Type 0 where
  info_active_environments info_catalog_location info_max_columns_in_group_by
        info_max_columns_in_order_by :
      ShortZero
  info_max_columns_in_select info_max_columns_in_table info_max_concurrent_activities
        info_max_procedure_name_len :
      ShortZero
  info_max_schema_name_len info_group_by info_max_catalog_name_len info_max_column_name_len :
      ShortZero
  info_max_identifier_len info_max_table_name_len info_max_columns_in_index
        info_max_cursor_name_len :
      ShortZero
  info_max_index_size info_max_statement_len info_max_user_name_len : ShortZero

pub data Zero : Type 0 where
  info_aggregate_functions info_alter_domain info_alter_table info_batch_row_count : Zero
  info_batch_support info_bookmark_persistence info_catalog_usage info_convert_bigint : Zero
  info_convert_bit info_convert_char info_convert_date info_convert_decimal : Zero
  info_convert_double info_convert_float info_convert_integer info_convert_longvarchar : Zero
  info_convert_numeric info_convert_real info_convert_smallint info_convert_time : Zero
  info_convert_timestamp info_convert_tinyint info_convert_varchar info_convert_binary : Zero
  info_convert_varbinary info_convert_longvarbinary info_convert_interval_day_time
        info_convert_interval_year_month :
      Zero
  info_convert_functions info_convert_wchar info_convert_wvarchar info_convert_wlongvarchar : Zero
  info_create_assertion info_create_character_set info_create_collation info_create_domain : Zero
  info_create_schema info_create_translation info_create_view info_drop_assertion : Zero
  info_drop_character_set info_drop_collation info_drop_domain info_drop_schema : Zero
  info_drop_translation info_drop_view info_keyset_cursor_attributes1
        info_keyset_cursor_attributes2 :
      Zero
  info_info_schema_views info_schema_usage info_sql92_foreign_key_delete_rule
        info_sql92_foreign_key_update_rule :
      Zero
  info_sql92_numeric_value_functions info_sql92_predicates info_sql92_value_expressions
        info_subqueries :
      Zero
  info_timedate_add_intervals info_timedate_diff_intervals info_union info_lock_types : Zero
  info_max_async_concurrent_statements info_max_binary_literal_len info_max_char_literal_len
        info_max_driver_connections :
      Zero
  info_max_row_size info_create_table info_datetime_literals info_ddl_index : Zero
  info_drop_table info_insert_statement info_numeric_functions info_oj_capabilities : Zero
  info_pos_operations info_positioned_statements info_string_functions info_timedate_functions :
      Zero
  info_sql92_datetime_functions info_sql92_grant info_sql92_relational_join_operators
        info_sql92_revoke :
      Zero
  info_sql92_string_functions info_system_functions info_static_sensitivity
        info_txn_isolation_option :
      Zero

-- The other labels.
pub data OwnInfo : Type 0 where
  info_default_txn_isolation info_async_mode info_accessible_tables info_accessible_procedures :
      OwnInfo
  info_data_source_read_only info_like_escape_clause info_catalog_name info_column_alias : OwnInfo
  info_expressions_in_orderby info_max_row_size_includes_long info_mult_result_sets
        info_multiple_active_txn :
      OwnInfo
  info_outer_joins info_order_by_columns_in_select info_describe_parameter info_integrity : OwnInfo
  info_need_long_data_len info_procedures info_row_updates info_catalog_name_separator : OwnInfo
  info_collation_seq info_keywords info_procedure_term info_schema_term : OwnInfo
  info_search_pattern_escape info_special_characters info_catalog_term info_concat_null_behavior :
      OwnInfo
  info_correlation_name info_cursor_commit_behavior info_cursor_rollback_behavior
        info_data_source_name :
      OwnInfo
  info_database_name info_dbms_name info_dbms_ver info_driver_ver : OwnInfo
  info_driver_name info_driver_odbc_ver info_static_cursor_attributes1
        info_static_cursor_attributes2 :
      OwnInfo
  info_forward_only_cursor_attributes1 info_forward_only_cursor_attributes2
        info_dynamic_cursor_attributes1 info_dynamic_cursor_attributes2 :
      OwnInfo
  info_file_usage info_getdata_extensions info_identifier_case info_identifier_quote_char : OwnInfo
  info_index_keywords info_max_tables_in_select info_non_nullable_columns info_null_collation :
      OwnInfo
  info_odbc_api_conformance info_odbc_sql_conformance info_odbc_interface_conformance
        info_param_array_row_counts :
      OwnInfo
  info_param_array_selects info_quoted_identifier_case info_scroll_options info_scroll_concurrency :
      OwnInfo
  info_server_name info_sql_conformance info_sql92_row_value_constructor
        info_standard_cli_conformance :
      OwnInfo
  info_table_term info_txn_capable info_user_name info_xopen_cli_year : OwnInfo
  info_fetch_direction info_odbc_sag_cli_conformance : OwnInfo

pub data InfoType : Type 0 where
  short_zero : ShortZero → InfoType
  zero_info : Zero → InfoType
  own_info : OwnInfo → InfoType
  unknown_info : InfoType

-- What GetInfoHelper is asked to set.
pub data Answer : Type 0 where
  small_int int : ℕ → Answer
  string : Text → Answer
  no_answer : Answer

-- The answers of the other labels; `version` is formatVersionLong of the version of the build.
unfoldable pub own_answer : Text → Dbc → OwnInfo → Answer
own_answer version c info_default_txn_isolation = int 1
own_answer version c info_async_mode = int 0
own_answer version c info_accessible_tables = string (codes "Y")
own_answer version c info_accessible_procedures = string (codes "Y")
own_answer version c info_data_source_read_only = string (codes "Y")
own_answer version c info_like_escape_clause = string (codes "N")
own_answer version c info_catalog_name = string (codes "N")
own_answer version c info_column_alias = string (codes "N")
own_answer version c info_expressions_in_orderby = string (codes "N")
own_answer version c info_max_row_size_includes_long = string (codes "N")
own_answer version c info_mult_result_sets = string (codes "N")
own_answer version c info_multiple_active_txn = string (codes "N")
own_answer version c info_outer_joins = string (codes "N")
own_answer version c info_order_by_columns_in_select = string (codes "N")
own_answer version c info_describe_parameter = string (codes "N")
own_answer version c info_integrity = string (codes "N")
own_answer version c info_need_long_data_len = string (codes "N")
own_answer version c info_procedures = string (codes "N")
own_answer version c info_row_updates = string (codes "N")
own_answer version c info_catalog_name_separator = string []
own_answer version c info_collation_seq = string []
own_answer version c info_keywords = string []
own_answer version c info_procedure_term = string []
own_answer version c info_schema_term = string []
own_answer version c info_search_pattern_escape = string []
own_answer version c info_special_characters = string []
own_answer version c info_catalog_term = string (codes "catalog")
own_answer version c info_concat_null_behavior = small_int 0
own_answer version c info_correlation_name = small_int 2
own_answer version c info_cursor_commit_behavior = small_int 0
own_answer version c info_cursor_rollback_behavior = small_int 0
own_answer version c info_data_source_name = string c.data_source.name
own_answer version c info_database_name = string c.data_source.login_url
own_answer version c info_dbms_name = string (codes "RETS")
own_answer version c info_dbms_ver = string version
own_answer version c info_driver_ver = string version
own_answer version c info_driver_name = string (codes "ezRETS ODBC Driver")
own_answer version c info_driver_odbc_ver = string (codes "03.51")
own_answer version c info_static_cursor_attributes1 = int 0
own_answer version c info_static_cursor_attributes2 = int 0
own_answer version c info_forward_only_cursor_attributes1 = int 0
own_answer version c info_forward_only_cursor_attributes2 = int 0
own_answer version c info_dynamic_cursor_attributes1 = int 0
own_answer version c info_dynamic_cursor_attributes2 = int 0
own_answer version c info_file_usage = small_int 0
own_answer version c info_getdata_extensions = int 11
own_answer version c info_identifier_case = small_int 3
own_answer version c info_identifier_quote_char = string (codes "\"")
own_answer version c info_index_keywords = int 0
own_answer version c info_max_tables_in_select = small_int 1
own_answer version c info_non_nullable_columns = small_int 0
own_answer version c info_null_collation = small_int 1
own_answer version c info_odbc_api_conformance = small_int 1
own_answer version c info_odbc_sql_conformance = small_int 1
own_answer version c info_odbc_interface_conformance = int 1
own_answer version c info_param_array_row_counts = int 2
own_answer version c info_param_array_selects = int 3
own_answer version c info_quoted_identifier_case = small_int 3
own_answer version c info_scroll_options = int 17
own_answer version c info_scroll_concurrency = int 1
own_answer version c info_server_name = string c.data_source.login_url
own_answer version c info_sql_conformance = int 1
own_answer version c info_sql92_row_value_constructor = int 6
own_answer version c info_standard_cli_conformance = int 1
own_answer version c info_table_term = string (codes "table")
own_answer version c info_txn_capable = small_int 0
own_answer version c info_user_name = string c.data_source.username
own_answer version c info_xopen_cli_year = string (codes "1992")
own_answer version c info_fetch_direction = int 1
own_answer version c info_odbc_sag_cli_conformance = small_int 1

unfoldable pub info_answer : Text → Dbc → InfoType → Answer
unfolding own_answer
info_answer version c (short_zero l) = small_int 0
info_answer version c (zero_info l) = int 0
info_answer version c (own_info l) = own_answer version c l
info_answer version c unknown_info = no_answer

-- A number that is written unless the pointer is null.
unfoldable pub put_word : ℕ → ℤ → Memory → Memory
unfolding set_word
put_word q z m = if q == 0 then m else set_word m q z

module _ (info_value : ℕ) (buffer_length : ℤ) (string_length : ℕ) where
  -- GetInfoHelper::setSmallInt, GetInfoHelper::setInt
  unfoldable pub set_number : ℕ → ℕ → Memory → Memory
  unfolding put_word
  set_number size value m = put_word string_length (pos size) (put_word info_value (pos value) m)

  -- GetInfoHelper::setString; copyString copies nothing to a null pointer
  unfoldable pub set_info_string : Dbc → Text → Memory → Ended
  unfolding copy_string put_word
  set_info_string c value m =
      let (m1, size) = copy_string value info_value (size_of_sqllen buffer_length) m in
      if ltb size (length value)
      then ended
          (with_error c (codes "01004") (codes "Resultant value larger than buffer passed in."))
          (put_word string_length (smallint_of_size (length value)) m1) (returned success_with_info)
      else ended c (put_word string_length (smallint_of_size size) m1) (returned success)

  unfoldable pub give : Dbc → Answer → Memory → Ended
  unfolding set_number set_info_string
  give c (small_int n) m = ended c (set_number 2 n m) (returned success)
  give c (int n) m = ended c (set_number 4 n m) (returned success)
  give c (string t) m = set_info_string c t m
  give c no_answer m = ended c m (returned error)

  -- RetsDBC::SQLGetInfo
  unfoldable pub sql_get_info : Text → Dbc → InfoType → Memory → Ended
  unfolding give info_answer
  sql_get_info version c info_type m =
      give (clear_errors c) (info_answer version (clear_errors c) info_type) m
