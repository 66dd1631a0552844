-- ===== src/Examples/Texts.antt =====
-- SQLGetData in the middle of a text.
use ez_rets.Base.{◌≡◌, refl, true, false, [], ◌∷◌, arith, pos, codes}
use ez_rets.Column.{Column, new_column, faux}
use ez_rets.Examples.Data.{plain, blank, houses, stmt_of}
use ez_rets.Memory.{read_bytes}
use ez_rets.Odbc.{success_with_info, sql_char, sql_varchar}
use ez_rets.ResultSet.{Bulk, bulk}
use ez_rets.Stmt.{Stmt, returned, sql_get_data}
use ez_rets.Stmt.Texts.{sql_get_data-text}
use ez_rets.Stream.{has_more_data}
use ez_rets.Translation.Translator.{native}

abbrev remark_column : Column
remark_column = new_column (codes "REMARKS") (faux sql_varchar 80)

abbrev remark_row : Bulk
remark_row = record {
  results = (codes "Close to schools." ∷ []) ∷ [];
  position = 0;
  got_first = true;
}

-- Six bytes of the remark have been fetched.
abbrev reading : Stmt
reading =
    record (stmt_of (record {
      translator = native false;
      columns = remark_column ∷ [];
      rows = bulk remark_row;
    })) { data_stream_info = record { column = 1; status = has_more_data; offset = 6 } }

sql_get_data-text_example :
    let d = sql_get_data plain houses reading 1 sql_char 1000 (pos 4) 2000 blank in
    (d.stmt.data_stream_info ≡ record { column = 1; status = has_more_data; offset = 9 })
    × (d.end ≡ returned success_with_info)
    × (read_bytes d.memory 1000 3 ≡ codes "to ")
    × (d.memory.words 2000 ≡ pos 11)
sql_get_data-text_example =
    sql_get_data-text plain houses false (remark_column ∷ []) remark_row 0 remark_column sql_varchar
      80 (codes "Close to schools." ∷ []) (codes "Close to schools.") refl refl refl refl reading
      refl refl 4 1000 2000 blank refl (λ h. cc) (omega arith) refl (omega arith) (omega arith)
      (omega arith) (omega arith) (omega arith)
