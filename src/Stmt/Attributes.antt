-- ===== src/Stmt/Attributes.antt =====
-- project/driver/src/RetsSTMT.cpp: the attributes of a statement.
pub mod RoundTrip
use ez_rets.Base.{
  ℕ, ◌%◌, ◌^◌, Bool, true, false, List, [], ◌∷◌, Option, none, some, ◌==◌, if◌then◌else◌, ℤ, pos,
  negsuc, codes,
}
use ez_rets.Handle.{set_string_length}
use ez_rets.Map.{get}
use ez_rets.Memory.{Memory, set_word}
use ez_rets.Odbc.{SqlReturn, success, success_with_info, error}
use ez_rets.Stmt.{Stmt, Done, finish, clear_errors, with_error}

-- The case labels of SQLGetStmtAttr and SQLSetStmtAttr that do something of their own.
pub data StmtAttr : Type 0 where
  app_row_desc app_param_desc imp_row_desc imp_param_desc query_timeout row_array_size max_length
        cursor_type retrieve_data concurrency ms_extension row_bind_type paramset_size
        params_processed_ptr param_bind_type row_bind_offset_ptr async_enable param_bind_offset_ptr
        rows_fetched_ptr row_status_ptr unknown :
      StmtAttr

-- The labels by their numbers; SQL_ROWSET_SIZE is 9.
abbrev attr_numbers : List (ℕ × StmtAttr)
attr_numbers =
    (10010, app_row_desc)
    ∷ (10011, app_param_desc)
    ∷ (10012, imp_row_desc)
    ∷ (10013, imp_param_desc)
    ∷ (0, query_timeout)
    ∷ (27, row_array_size)
    ∷ (9, row_array_size)
    ∷ (3, max_length)
    ∷ (6, cursor_type)
    ∷ (11, retrieve_data)
    ∷ (7, concurrency)
    ∷ (1226, ms_extension)
    ∷ (1227, ms_extension)
    ∷ (1228, ms_extension)
    ∷ (5, row_bind_type)
    ∷ (22, paramset_size)
    ∷ (21, params_processed_ptr)
    ∷ (18, param_bind_type)
    ∷ (23, row_bind_offset_ptr)
    ∷ (4, async_enable)
    ∷ (17, param_bind_offset_ptr)
    ∷ (26, rows_fetched_ptr)
    ∷ (25, row_status_ptr)
    ∷ []

abbrev or_unknown : Option StmtAttr → StmtAttr
or_unknown none = unknown
or_unknown (some a) = a

unfoldable pub stmt_attr : ℕ → StmtAttr
unfolding get
stmt_attr number = or_unknown (get ◌==◌ number attr_numbers)

-- Where the descriptors of a statement lie.
pub record DescAddresses : Type 0 where
  pub ard_at : ℕ
  pub apd_at : ℕ
  pub ird_at : ℕ
  pub ipd_at : ℕ

module _ (at : DescAddresses) (value string_length : ℕ) where
  -- An attribute's value is written, and then the kind of the value as its length.
  abbrev pub give : Stmt → Memory → ℕ → ℤ → Done
  give s m n kind =
      finish s (set_string_length string_length kind (set_word m value (pos n))) success

  -- SQL_IS_POINTER and SQL_IS_UINTEGER
  abbrev pub give_pointer : Stmt → Memory → ℕ → Done
  give_pointer s m n = give s m n (negsuc 3)

  abbrev pub give_number : Stmt → Memory → ℕ → Done
  give_number s m n = give s m n (negsuc 4)

  abbrev pub get_attr : Stmt → Memory → StmtAttr → Done
  get_attr s m app_row_desc = give_pointer s m at.ard_at
  get_attr s m app_param_desc = give_pointer s m at.apd_at
  get_attr s m imp_row_desc = give_pointer s m at.ird_at
  get_attr s m imp_param_desc = give_pointer s m at.ipd_at
  get_attr s m query_timeout = give_number s m 0
  get_attr s m row_array_size = give_number s m s.ard.array_size
  get_attr s m max_length = give_number s m 0
  get_attr s m cursor_type = give_number s m 0
  get_attr s m retrieve_data = give_number s m 1
  get_attr s m concurrency = give_number s m 1
  get_attr s m a =
      finish (with_error s (codes "HYC00") (codes "Optional feature not implemented")) m error

  -- RetsSTMT::SQLGetStmtAttr
  unfoldable pub sql_get_stmt_attr : Stmt → ℕ → Memory → Done
  sql_get_stmt_attr s attribute m = get_attr (clear_errors s) m (stmt_attr attribute)

abbrev pub expect : Stmt → Memory → Bool → Done
expect s m true = finish s m success
expect s m false =
    finish (with_error s (codes "01S02") (codes "Option Value Changed")) m success_with_info

-- A value as SQLUINTEGER.
abbrev pub uint_of : ℕ → ℕ
uint_of value = value % 2 ^ 32

abbrev pub set_attr : Stmt → ℕ → Memory → StmtAttr → Done
set_attr s value m query_timeout = expect s m (uint_of value == 0)
set_attr s value m ms_extension = finish s m success
set_attr s value m row_array_size = expect s m (uint_of value == s.ard.array_size)
set_attr s value m row_bind_type =
    finish (record s { ard = record s.ard { bind_type = uint_of value } }) m success
set_attr s value m paramset_size =
    finish (record s { ard = record s.ard { array_size = uint_of value } }) m success
set_attr s value m params_processed_ptr =
    finish (record s { ipd = record s.ipd { row_processed_ptr = value } }) m success
set_attr s value m max_length = expect s m (uint_of value == 0)
set_attr s value m param_bind_type =
    finish (record s { apd = record s.apd { bind_type = uint_of value } }) m success
set_attr s value m row_bind_offset_ptr =
    finish (record s { ard = record s.ard { bind_offset_ptr = value } }) m success
set_attr s value m async_enable =
    finish (with_error s (codes "HYC00") (codes "Optional feature not implemented.")) m error
set_attr s value m cursor_type = expect s m (uint_of value == 0)
set_attr s value m retrieve_data = expect s m (uint_of value == 1)
set_attr s value m param_bind_offset_ptr =
    finish (record s { apd = record s.apd { bind_offset_ptr = value } }) m success
set_attr s value m concurrency = expect s m (uint_of value == 1)
set_attr s value m rows_fetched_ptr =
    finish (record s { ird = record s.ird { rows_processed_ptr = value } }) m success
set_attr s value m row_status_ptr =
    finish (record s { ird = record s.ird { array_status_ptr = value } }) m success
set_attr s value m a =
    finish (with_error s (codes "HY092") (codes "Invalid attribute/option identifier.")) m error

-- RetsSTMT::SQLSetStmtAttr
unfoldable pub sql_set_stmt_attr : Stmt → ℕ → ℕ → Memory → Done
sql_set_stmt_attr s attribute value m = set_attr (clear_errors s) value m (stmt_attr attribute)
