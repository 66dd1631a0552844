-- ===== src/Stmt.antt =====
-- project/driver/src/RetsSTMT.cpp: a statement, its calls on the current result set, and the frame
-- of every entry point (project/driver/src/OdbcEntry.cpp).
pub mod Loop
pub mod Fetching
pub mod Bounds
pub mod Streaming
pub mod Objects
pub mod Attributes
pub mod Shape
pub mod ColAttribute
pub mod Queries
pub mod Executing
pub mod Selecting
pub mod Refusing
pub mod Catalogues
pub mod Texts
pub mod Binding
pub mod Reading
pub mod Entry
pub mod Loads
pub mod Views
use ez_rets.Base.{
  ℕ, zero, suc, ◌+◌, Bool, true, false, ◌&&◌, ◌||◌, not, List, [], ◌∷◌, ◌++◌, Option, none, some,
  ◌==◌, ltb, if◌then◌else◌, Text, ℤ, pos, codes,
}
use ez_rets.Column.{Column, Context, get_data_type, get_column_size, get_decimal_digits}
use ez_rets.Descriptors.{
  AppRowDesc, ImpRowDesc, new_ard, AppParamDesc, ImpParamDesc, new_apd, new_ipd,
}
use ez_rets.Handle.{Error, add_error}
use ez_rets.Librets.{RetsMetadata}
use ez_rets.Memory.{Memory, set_word, write_bytes}
use ez_rets.Odbc.{SqlReturn, success, success_with_info, no_data, error, invalid_handle}
use ez_rets.OnDemand.{Next, found, ended, raises}
use ez_rets.Platform.{Platform}
use ez_rets.Query.{Query, null_query}
use ez_rets.ResultSet.{
  ResultSet, Rows, column_count, column_at, bind_column, unbind_columns, row_count, has_no_rows,
  has_next, process_next_row, get_data,
}
use ez_rets.Stream.{
  DataStreamInfo, FileStatus, no_data_retrieved, has_more_data, no_more_data, reset,
}
use ez_rets.Translation.{
  Exception, missing_translator, date_time_format, data_translation, bad_lexical_cast,
  bad_numeric_cast, out_of_range, Outcome, what,
}
use ez_rets.Utils.{copy_string}

-- RetsSTMT; its query stands beside the query's result set, which a fresh statement's NullQuery has
-- not
pub record Stmt : Type 0 where
  pub errors : List Error
  pub ard : AppRowDesc
  pub ird : ImpRowDesc
  pub apd : AppParamDesc
  pub ipd : ImpParamDesc
  pub query : Query
  pub result_set : Option ResultSet
  pub data_stream_info : DataStreamInfo

-- RetsSTMT::RetsSTMT
abbrev pub new_stmt : Stmt
new_stmt = record {
  errors = [];
  ard = new_ard;
  ird = record { array_status_ptr = 0; rows_processed_ptr = 0 };
  apd = new_apd;
  ipd = new_ipd;
  query = null_query;
  result_set = none;
  data_stream_info = reset;
}

-- How a call ends: it returns, an exception leaves it, or it goes through a null or invalid pointer.
pub data End : Type 0 where
  returned : SqlReturn → End
  escaped : Exception → End
  crashed : End

pub record Done : Type 0 where
  pub stmt : Stmt
  pub memory : Memory
  pub end : End

abbrev pub finish : Stmt → Memory → SqlReturn → Done
finish s m r = record { stmt = s; memory = m; end = returned r }

abbrev pub crash : Stmt → Memory → Done
crash s m = record { stmt = s; memory = m; end = crashed }

-- mErrors.clear(), with which every call begins
abbrev pub clear_errors : Stmt → Stmt
clear_errors s = record s { errors = [] }

abbrev pub with_error : Stmt → Text → Text → Stmt
with_error s sqlstate message = record s { errors = add_error s.errors sqlstate message }

-- The test by which the calls on a column refuse its number.
abbrev pub refuses_column : ℕ → ResultSet → Bool
refuses_column column_number rs = ltb column_number 1 && ltb (column_count rs) column_number

abbrev store_bound : Stmt → Memory → ResultSet → Option ResultSet → Done
store_bound s m rs none = record { stmt = s; memory = m; end = escaped out_of_range }
store_bound s m rs (some rs') = finish (record s { result_set = some rs' }) m success

abbrev bind_in : Stmt → Memory → ℕ → ℤ → ℕ → ℤ → ℕ → Option ResultSet → Done
bind_in s m column_number target_type target_value buffer_length ind none =
    if target_value == 0 && not (column_number == 0) then finish s m error else crash s m
bind_in s m column_number target_type target_value buffer_length ind (some rs) =
    if refuses_column column_number rs
    then finish
        (with_error s (codes "07009") (
          codes
            "The value specified for the arguement ColumnNumber exceeded the maximum number of columns in the result set."))
        m error
    else if target_value == 0
    then finish s m error
    else store_bound s m rs
        (bind_column rs column_number target_type target_value buffer_length ind)

-- RetsSTMT::SQLBindCol
unfoldable pub sql_bind_col : Stmt → ℕ → ℤ → ℕ → ℤ → ℕ → Memory → Done
sql_bind_col s column_number target_type target_value buffer_length ind m =
    bind_in (clear_errors s) m column_number target_type target_value buffer_length ind s.result_set

-- SQL_ROW_SUCCESS and SQL_ROW_ERROR
abbrev row_success : ℤ
row_success = pos 0

abbrev row_error : ℤ
row_error = pos 5

abbrev set_status : Stmt → ℤ → Memory → Memory
unfolding set_word
set_status s status m =
    if s.ird.array_status_ptr == 0 then m else set_word m s.ird.array_status_ptr status

abbrev set_processed : Stmt → Memory → Memory
unfolding set_word
set_processed s m =
    if s.ird.rows_processed_ptr == 0 then m else set_word m s.ird.rows_processed_ptr (pos 1)

-- The handlers of SQLFetch
abbrev fetch_error : Platform → Stmt → Exception → Stmt
unfolding what
fetch_error p s (missing_translator t) =
    with_error s (codes "HY000") (codes "Translator issue: " ++ t)
fetch_error p s (date_time_format t) = with_error s (codes "22007") t
fetch_error p s e = with_error s (codes "01S01") (codes "Error retrieving data: " ++ what p e)

abbrev pub context : Platform → RetsMetadata → Stmt → ResultSet → Context
context p md s rs = record { platform = p; metadata = md; translator = rs.translator; ard = s.ard }

abbrev pub fetched :
    Platform → Stmt → Memory → Option (ResultSet × Memory × Option Exception) → Done
unfolding what set_word
fetched p s m none = crash s m
fetched p s m (some (rs', m', none)) =
    finish (record s { result_set = some rs' }) (set_status s row_success (set_processed s m'))
      success
fetched p s m (some (rs', m', some e)) =
    finish (fetch_error p (record s { result_set = some rs' }) e) (set_status s row_error m') error

-- After hasNext, whose exceptions leave SQLFetch.
abbrev pub fetch_next : Platform → RetsMetadata → Stmt → Memory → ResultSet → Next → Done
unfolding what set_word
fetch_next p md s m rs found =
    let s' = record s { data_stream_info = reset } in
    fetched p s' m (process_next_row (context p md s' rs) rs m)
fetch_next p md s m rs ended = finish s m no_data
fetch_next p md s m rs (raises e) = record { stmt = s; memory = m; end = escaped e }

abbrev pub with_rows : ResultSet → Rows → ResultSet
with_rows rs rows = record rs { rows = rows }

abbrev fetch_from : Platform → RetsMetadata → Stmt → Memory → Option ResultSet → Done
unfolding what set_word
fetch_from p md s m none = crash s m
fetch_from p md s m (some rs) =
    if has_no_rows rs.rows
    then finish s m no_data
    else let (rows, next) = has_next p rs.rows in
      fetch_next p md (record s { result_set = some (with_rows rs rows) }) m (with_rows rs rows)
        next

-- RetsSTMT::SQLFetch
unfoldable pub sql_fetch : Platform → RetsMetadata → Stmt → Memory → Done
unfolding what set_word
sql_fetch p md s m = fetch_from p md (clear_errors s) m s.result_set

-- The part of SQLGetData that makes the stream follow the column.
unfoldable pub follow_column : ℕ → DataStreamInfo → DataStreamInfo
follow_column column_number d =
    if d.column == column_number then d else record reset { column = column_number }

-- The handlers of SQLGetData
abbrev get_data_error : Platform → Stmt → Exception → Stmt × SqlReturn
unfolding what
get_data_error p s (missing_translator t) =
    (with_error s (codes "01000") (codes "Translator issue:" ++ t), success_with_info)
get_data_error p s (date_time_format t) = (with_error s (codes "22007") t, error)
get_data_error p s e =
    (with_error s (codes "HY000") (codes "Error getting data: " ++ what p e), error)

abbrev stream_or : DataStreamInfo → Option DataStreamInfo → DataStreamInfo
stream_or d none = d
stream_or d (some d') = d'

-- The return code after a piece, by the status of the stream.
abbrev after_piece : Stmt → Memory → FileStatus → Done
after_piece s m has_more_data =
    finish (with_error s (codes "01004") (codes "Data truncated")) m success_with_info
after_piece s m no_data_retrieved = finish s m success
after_piece s m no_more_data = finish s m success

abbrev got_data : Platform → Stmt → Memory → Option Outcome → Done
unfolding what
got_data p s m none = crash s m
got_data p s m (some r) =
    let d = stream_or s.data_stream_info r.stream in
    let s' = record s { data_stream_info = d } in
    elim r.thrown [
      | none ↦ after_piece s' r.memory d.status
      | some e ↦ let (s'', code) = get_data_error p s' e in finish s'' r.memory code
    ]

abbrev get_piece :
    Platform → RetsMetadata → Stmt → ℕ → ℤ → ℕ → ℤ → ℕ → Memory → Option ResultSet → Done
unfolding get_data what
get_piece p md s column_number target_type target_value buffer_length ind m none = crash s m
get_piece p md s column_number target_type target_value buffer_length ind m (some rs) =
    got_data p s m (
      get_data (context p md s rs) rs column_number target_type target_value buffer_length ind
        s.data_stream_info m)

abbrev get_by_status :
    Platform → RetsMetadata → Stmt → ℕ → ℤ → ℕ → ℤ → ℕ → Memory → FileStatus → Done
unfolding get_data what
get_by_status p md s column_number target_type target_value buffer_length ind m no_more_data =
    finish s m no_data
get_by_status p md s column_number target_type target_value buffer_length ind m has_more_data =
    get_piece p md s column_number target_type target_value buffer_length ind m s.result_set
get_by_status p md s column_number target_type target_value buffer_length ind m no_data_retrieved =
    get_piece p md s column_number target_type target_value buffer_length ind m s.result_set

-- The guard of SQLGetData; for column 0 it asks the result set.
abbrev pub guard_refuses : ℕ → Option ResultSet → Bool
guard_refuses column_number none = false
guard_refuses column_number (some rs) = refuses_column column_number rs

abbrev pub guard_crashes : ℕ → Option ResultSet → Bool
guard_crashes column_number none = ltb column_number 1
guard_crashes column_number (some rs) = false

-- RetsSTMT::SQLGetData
unfoldable pub sql_get_data : Platform → RetsMetadata → Stmt → ℕ → ℤ → ℕ → ℤ → ℕ → Memory → Done
unfolding get_data what follow_column
sql_get_data p md s column_number target_type target_value buffer_length ind m =
    let s0 = clear_errors s in
    if guard_crashes column_number s.result_set
    then crash s0 m
    else if guard_refuses column_number s.result_set
    then finish (with_error s0 (codes "07009") (codes "Bad Column Number")) m error
    else let s1 = record s0 { data_stream_info = follow_column column_number s.data_stream_info } in
      get_by_status p md s1 column_number target_type target_value buffer_length ind m
        s1.data_stream_info.status

unfoldable pub handled : Platform → Done → End → Done
unfolding what
handled p d (returned r) = d
handled p d (escaped e) = finish (with_error d.stmt (codes "HY000") (what p e)) d.memory error
handled p d crashed = d

-- OdbcEntry::operator() with StmtOdbcEntry's precondition and handlers: the call of a handle that
-- may be null.
unfoldable pub enter : Platform → Bool → Stmt → Memory → (Stmt → Memory → Done) → Done
unfolding handled
enter p handle_is_null s m call =
    if handle_is_null then finish s m invalid_handle else let d = call s m in handled p d d.end
