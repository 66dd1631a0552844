-- ===== src/Stmt/Shape.antt =====
-- project/driver/src/RetsSTMT.cpp: what a statement says of its result set, and the other two calls
-- that fetch.
pub mod Answers
use ez_rets.Base.{
  ℕ, ◌+◌, ◌^◌, Bool, true, false, List, [], ◌∷◌, Option, none, some, ◌==◌, ltb, leb, if◌then◌else◌,
  ℤ, pos, eqb_ℤ, codes,
}
use ez_rets.Column.{Column, get_column_size, get_data_type, get_decimal_digits}
use ez_rets.Handle.{set_string_length}
use ez_rets.Librets.{RetsMetadata}
use ez_rets.Memory.{Memory, set_word}
use ez_rets.Odbc.{SqlReturn, success, error, smallint_of_size, size_of_sqllen, return_code}
use ez_rets.Platform.{Platform}
use ez_rets.ResultSet.{ResultSet, column_count, column_at, row_count}
use ez_rets.Stmt.{
  Stmt, Done, End, returned, escaped, crashed, finish, crash, clear_errors, with_error,
  refuses_column, sql_fetch,
}
use ez_rets.Translation.{Exception, out_of_range, bad_numeric_cast}
use ez_rets.Translation.Translator.{DataTranslator}
use ez_rets.Utils.{copy_string}

abbrev count_of : Stmt → Memory → ℕ → Option ResultSet → Done
unfolding set_word
count_of s m column_count_ptr none = crash s m
count_of s m column_count_ptr (some rs) =
    if ltb (column_count rs) (2 ^ 15)
    then finish s (set_word m column_count_ptr (pos (column_count rs))) success
    else record { stmt = s; memory = m; end = escaped bad_numeric_cast }

-- RetsSTMT::SQLNumResultCols
unfoldable pub sql_num_result_cols : Stmt → ℕ → Memory → Done
unfolding count_of
sql_num_result_cols s column_count_ptr m = count_of (clear_errors s) m column_count_ptr s.result_set

-- RetsSTMT::SQLNumParams
unfoldable pub sql_num_params : Stmt → ℕ → Memory → Done
unfolding set_word
sql_num_params s pcpar m = finish (clear_errors s) (set_word m pcpar (pos 0)) success

abbrev rows_of : Stmt → Memory → ℕ → Option ResultSet → Done
unfolding set_word row_count
rows_of s m row_count_ptr none = crash s m
rows_of s m row_count_ptr (some rs) =
    finish s (set_word m row_count_ptr (pos (row_count rs.rows))) success

-- RetsSTMT::SQLRowCount, of fewer rows than an int counts
unfoldable pub sql_row_count : Stmt → ℕ → Memory → Done
unfolding rows_of
sql_row_count s row_count_ptr m = rows_of (clear_errors s) m row_count_ptr s.result_set

module _ (column_name : ℕ) (buffer_length : ℤ)
    (name_length data_type column_size decimal_digits nullable : ℕ) where
  -- What is written for a column; a null name length, size, type or scale is left out.
  unfoldable pub describe : DataTranslator → Column → Memory → Memory
  describe t c m =
      let (m1, size) = copy_string c.name column_name (size_of_sqllen buffer_length) m in
      let m2 = set_string_length name_length (smallint_of_size size) m1 in
      let m3 = set_string_length column_size (pos (get_column_size t c.kind)) m2 in
      let m4 = set_string_length data_type (get_data_type t c.kind) m3 in
      let m5 = set_string_length decimal_digits (get_decimal_digits t c.kind) m4 in
      set_word m5 nullable (pos 1)

  abbrev pub describe_column : Stmt → Memory → DataTranslator → Option Column → Done
  describe_column s m t none = record { stmt = s; memory = m; end = escaped out_of_range }
  describe_column s m t (some c) = record {
    stmt = s;
    memory = describe t c m;
    end = if nullable == 0 then crashed else returned success;
  }

  abbrev pub describe_in : Stmt → ℕ → Memory → Option ResultSet → Done
  describe_in s column_number m none = crash s m
  describe_in s column_number m (some rs) =
      if refuses_column column_number rs
      then finish (with_error s (codes "07009") (codes "Bad Column Number")) m error
      else describe_column s m rs.translator (column_at rs.columns column_number)

  -- RetsSTMT::SQLDescribeCol
  unfoldable pub sql_describe_col : Stmt → ℕ → Memory → Done
  sql_describe_col s column_number m = describe_in (clear_errors s) column_number m s.result_set

-- RetsSTMT::SQLFetchScroll; SQL_FETCH_NEXT is 1
unfoldable pub sql_fetch_scroll : Platform → RetsMetadata → Stmt → ℤ → Memory → Done
sql_fetch_scroll p md s fetch_orientation m =
    if eqb_ℤ fetch_orientation (pos 1)
    then sql_fetch p md (clear_errors s) m
    else finish (with_error (clear_errors s) (codes "HY106") (codes "Fetch type out of range")) m
        error

abbrev pub rows_reported : SqlReturn → ℤ
rows_reported error = pos 0
rows_reported r = pos 1

abbrev pub extended : ℕ → ℕ → Done → End → Done
extended pcrow row_status d (returned r) = record d {
  memory = set_word (set_word d.memory pcrow (rows_reported r)) row_status (return_code r);
}
extended pcrow row_status d e = d

-- RetsSTMT::SQLExtendedFetch
unfoldable pub sql_extended_fetch : Platform → RetsMetadata → Stmt → ℕ → ℕ → Memory → Done
sql_extended_fetch p md s pcrow row_status m =
    let d = sql_fetch p md (clear_errors s) m in extended pcrow row_status d d.end
