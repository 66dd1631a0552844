-- ===== src/Examples/Calls.antt =====
-- The calls of a client.
use ez_rets.Base.{
  ℕ, ◌≡◌, refl, true, false, List, [], ◌∷◌, ◌++◌, some, arith, pos, codes, ◌==◌, if◌then◌else◌,
  get_elem?,
}
use ez_rets.Column.{bind, new_column, faux}
use ez_rets.Odbc.{sql_varchar}
use ez_rets.Descriptors.{AppRowDesc, new_ard}
use ez_rets.Examples.Data.{blank, houses, two_columns, stmt_of, residential, street}
use ez_rets.Handle.{Error, get_diag_rec}
use ez_rets.Handle.Records.{get_diag_rec-reads}
use ez_rets.Memory.{Memory, read_bytes}
use ez_rets.MetadataView.{create, get_tables_for_class}
use ez_rets.MetadataView.Loading.{after_loads, get_tables_for_class-all}
use ez_rets.Odbc.{success, success_with_info}
use ez_rets.ResultSet.{ResultSet, new_bulk}
use ez_rets.Stmt.{Stmt, returned, sql_bind_col}
use ez_rets.Stmt.Binding.{sql_bind_col-binds}
use ez_rets.Stream.{no_more_data}
use ez_rets.Translation.Translator.{native}

abbrev two_errors : List Error
two_errors =
    record { sqlstate = codes "01004"; message = codes "Data truncated" }
    ∷ record { sqlstate = codes "HY000"; message = codes "second" }
    ∷ []

get_diag_rec-reads_example :
    (read_bytes (get_diag_rec 100 200 300 400 blank two_errors (pos 2) (pos 4)).0 300 4
      ≡ codes "sec" ++ 0 ∷ [])
    × ((get_diag_rec 100 200 300 400 blank two_errors (pos 2) (pos 4)).0.words 400 ≡ pos 3)
    × ((get_diag_rec 100 200 300 400 blank two_errors (pos 2) (pos 4)).1 ≡ some success_with_info)
get_diag_rec-reads_example =
    get_diag_rec-reads 100 200 300 400 blank two_errors 1
      (record { sqlstate = codes "HY000"; message = codes "second" }) refl 4 (omega arith)
      (omega arith) (omega arith) (omega arith) (omega arith) (omega arith)

abbrev two_column_set : ResultSet
two_column_set = record (new_bulk (native false)) { columns = two_columns }

sql_bind_col-binds_example :
    (after : ResultSet) × ((sql_bind_col
        (stmt_of two_column_set)
        1
        (pos 1)
        1000
        (pos 20)
        2000
        blank).end
      ≡ returned success)
    × ((sql_bind_col (stmt_of two_column_set) 1 (pos 1) 1000 (pos 20) 2000 blank).memory ≡ blank)
    × ((sql_bind_col (stmt_of two_column_set) 1 (pos 1) 1000 (pos 20) 2000 blank).stmt.result_set
        ≡ some after)
    × (after.rows ≡ two_column_set.rows)
    × ((j : ℕ)
        → get_elem? after.columns j ≡ (
            if 0 == j
            then some
                (bind (new_column (codes "CAT") (faux sql_varchar 20)) (pos 1) 1000 (pos 20) 2000)
            else get_elem? two_columns j))
sql_bind_col-binds_example =
    sql_bind_col-binds (stmt_of two_column_set) two_column_set refl (pos 1) 1000 (pos 20) 2000
      (omega arith) blank 0 (new_column (codes "CAT") (faux sql_varchar 20)) refl (omega arith)

-- The second column has been read to its end.
abbrev read_up : Stmt
read_up = record (stmt_of two_column_set) {
  data_stream_info = record { column = 2; status = no_more_data; offset = 3 };
}

abbrev offset_ard : AppRowDesc
offset_ard = record new_ard { bind_offset_ptr = 8 }

abbrev offset_memory : Memory
offset_memory = record blank { words = λ a. pos 64 }

get_tables_for_class-all_example :
    (get_tables_for_class (after_loads (create true houses) (residential ∷ [])) residential).1
    ≡ street ∷ []
get_tables_for_class-all_example =
    get_tables_for_class-all houses (λ c d same. refl) true (residential ∷ []) residential
