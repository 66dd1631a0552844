-- ===== src/Examples/Attributes.antt =====
-- Attributes, descriptions and fetching by the other calls.
use ez_rets.Base.{◌≡◌, refl, false, [], ◌∷◌, ◌++◌, arith, pos, codes}
use ez_rets.Column.{new_column, faux, get_data_type}
use ez_rets.Examples.Data.{blank, two_columns, stmt_of}
use ez_rets.Map.{get}
use ez_rets.Memory.{read_bytes}
use ez_rets.Odbc.{success, sql_varchar}
use ez_rets.ResultSet.{ResultSet, new_bulk}
use ez_rets.Stmt.{Stmt, returned, new_stmt}
use ez_rets.Stmt.Attributes.{DescAddresses, stmt_attr, sql_get_stmt_attr, sql_set_stmt_attr}
use ez_rets.Stmt.Attributes.RoundTrip.{sql_get_stmt_attr-set}
use ez_rets.Stmt.ColAttribute.{sql_col_attribute, concise_type, sql_col_attribute-sql_describe_col}
use ez_rets.Stmt.Fetching.{standing_set}
use ez_rets.Stmt.Shape.{sql_describe_col}
use ez_rets.Stmt.Shape.Answers.{sql_describe_col-reads}
use ez_rets.Translation.Translator.{native, char_only}

abbrev places : DescAddresses
places = record { ard_at = 10; apd_at = 20; ird_at = 30; ipd_at = 40 }

sql_get_stmt_attr-set_example :
    let d =
      sql_get_stmt_attr places 1000 2000 (sql_set_stmt_attr new_stmt 27 1 blank).stmt 27 blank in
    (d.end ≡ returned success) × (d.memory.words 1000 ≡ pos 1)
unfolding stmt_attr get sql_set_stmt_attr
sql_get_stmt_attr-set_example =
    sql_get_stmt_attr-set places 1000 2000 (omega arith) (omega arith) new_stmt 27 1 blank tt refl

abbrev described : ResultSet
described = record (new_bulk (native false)) { columns = two_columns }

sql_describe_col-reads_example :
    let d = sql_describe_col 1000 (pos 3) 2000 2100 2200 2300 2400 (stmt_of described) 1 blank in
    (d.end ≡ returned success)
    × (read_bytes d.memory 1000 3 ≡ codes "CA" ++ 0 ∷ [])
    × (d.memory.words 2100 ≡ get_data_type (native false) (faux sql_varchar 20))
sql_describe_col-reads_example =
    sql_describe_col-reads (stmt_of described) described refl 0
      (new_column (codes "CAT") (faux sql_varchar 20)) refl 1000 3 2000 2100 2200 2300 2400
      (omega arith) (omega arith) (omega arith) blank (omega arith) (omega arith) (omega arith)
      (omega arith)

sql_col_attribute-sql_describe_col_example :
    (sql_col_attribute 0
        (pos 0)
        0
        1500
        char_only
        (stmt_of described)
        1
        concise_type
        blank).memory.words
      1500
    ≡ (sql_describe_col 1000
          (pos 3)
          2000
          2100
          2200
          2300
          2400
          (stmt_of described)
          1
          blank).memory.words
        2100
sql_col_attribute-sql_describe_col_example =
    sql_col_attribute-sql_describe_col char_only (stmt_of described) described refl 0
      (new_column (codes "CAT") (faux sql_varchar 20)) refl 0 (pos 0) 0 1500 (omega arith) 1000 3
      2000 2100 2200 2300 2400 (omega arith) (omega arith) (omega arith) (omega arith) (omega arith)
      (omega arith) blank blank

-- The one row has been fetched.
abbrev at_end : Stmt
at_end = stmt_of (standing_set (native false) two_columns ((codes "a" ∷ codes "Elm" ∷ []) ∷ []) 1)
