-- ===== src/Stmt/Reading.antt =====
-- project/driver/src/RetsSTMT.cpp: how SQLGetData follows the column that the client reads.
use ez_rets.Base.{ℕ, ◌≡◌, refl, ◌≢◌, true, false, some, arith, ◌==◌, ℤ}
use ez_rets.Librets.{RetsMetadata}
use ez_rets.Memory.{Memory}
use ez_rets.Odbc.{no_data}
use ez_rets.Platform.{Platform}
use ez_rets.ResultSet.{ResultSet}
use ez_rets.Stmt.{Stmt, returned, sql_get_data, follow_column}
use ez_rets.Stmt.Binding.{refuses_column-never}
use ez_rets.Stream.{no_data_retrieved, no_more_data}

module _ (p : Platform) (md : RetsMetadata) (s : Stmt) (rs : ResultSet)
    (set_rs : s.result_set ≡ some rs) (column_number : ℕ) (target_type : ℤ) (target_value : ℕ)
    (buffer_length : ℤ) (ind : ℕ) (m : Memory) where
  -- Once the column that the stream follows is used up, SQLGetData of this column, for a statement
  -- that has a result set, gives
  -- SQL_NO_DATA with any buffer, and changes neither the client's memory nor the stream.
  pub sql_get_data-finished :
      s.data_stream_info.column ≡ column_number
      → s.data_stream_info.status ≡ no_more_data
      → let d = sql_get_data p md s column_number target_type target_value buffer_length ind m in
        (d.end ≡ returned no_data) × (d.memory ≡ m) × (d.stmt.data_stream_info ≡ s.data_stream_info)
  unfolding sql_get_data follow_column
  sql_get_data-finished same done =
      let follows : (s.data_stream_info.column == column_number) ≡ true = ground arith in
      rw (set_rs, refuses_column-never column_number rs, follows) (rw done (refl, refl, refl))

  -- SQLGetData of another column than the stream follows forgets how far the client had come: it
  -- does what it does for a statement whose stream stands at the start of the new column. The
  -- statement has a result set.
  sql_get_data-restarts :
      s.data_stream_info.column ≢ column_number
      → sql_get_data p md s column_number target_type target_value buffer_length ind m
        ≡ sql_get_data p md
            (record s {
              data_stream_info = record {
                column = column_number;
                status = no_data_retrieved;
                offset = 0;
              };
            })
            column_number
            target_type
            target_value
            buffer_length
            ind
            m
  unfolding sql_get_data follow_column
  sql_get_data-restarts other =
      let follows : (s.data_stream_info.column == column_number) ≡ false = ground arith in
      let same : (column_number == column_number) ≡ true = ground arith in
      rw (set_rs, refuses_column-never column_number rs, follows, same)
