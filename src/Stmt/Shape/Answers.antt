-- ===== src/Stmt/Shape/Answers.antt =====
-- project/driver/src/RetsSTMT.cpp: what a client learns of a result set.
use ez_rets.Base.{
  ℕ, suc, ◌+◌, ◌-◌, ◌%◌, ◌^◌, ◌<◌, ◌≡◌, refl, ap, ◌∙◌, ◌≢◌, List, [], ◌∷◌, ◌++◌, some, ◌==◌, false,
  arith, Text, pos, length, get_elem?, take, min,
}
use ez_rets.Column.{Column, get_data_type}
use ez_rets.Handle.Lengths.{
  bytes-set_string_length, words-set_string_length_other, words-set_string_length,
}
use ez_rets.Librets.{RetsMetadata}
use ez_rets.Memory.{Memory, read_bytes, peek, bytes-set_word, words-set_word, words-set_word_other}
use ez_rets.Odbc.{success, no_data}
use ez_rets.Platform.{Platform}
use ez_rets.ResultSet.{ResultSet}
use ez_rets.Stmt.{Stmt, returned, clear_errors}
use ez_rets.Stmt.Binding.{refuses_column-never}
use ez_rets.Stmt.Fetching.{Stands, stop}
use ez_rets.Stmt.Shape.{sql_describe_col, describe, sql_extended_fetch}
use ez_rets.Utils.Copy.{copy_string-reads}

module _ (s : Stmt) (rs : ResultSet) (set_rs : s.result_set ≡ some rs) (i : ℕ) (c : Column)
    (found : get_elem? rs.columns i ≡ some c)
    (column_name n name_length data_type column_size decimal_digits nullable : ℕ)
    (name_set : column_name ≢ 0) (n_set : n ≢ 0) (n_short : n < 2 ^ 15) (m : Memory) where
  -- The type cell of SQLDescribeCol.
  pub sql_describe_col-data_type :
      data_type ≢ 0
      → data_type ≢ decimal_digits
      → data_type ≢ nullable
      → (sql_describe_col column_name
            (pos n)
            name_length
            data_type
            column_size
            decimal_digits
            nullable
            s
            (suc i)
            m).memory.words
          data_type
        ≡ get_data_type rs.translator c.kind
  unfolding sql_describe_col describe
  sql_describe_col-data_type type_set ne1 ne2 =
      rw (set_rs, refuses_column-never (suc i) rs, found)
        (words-set_word_other _ data_type nullable _ ne2
          ∙ words-set_string_length_other _ data_type decimal_digits _ ne1
          ∙ words-set_string_length _ data_type _ type_set)

  -- SQLDescribeCol of a column of the statement's result set, with a name buffer that is not null
  -- or empty and shorter than 2^15 bytes, and with a nullability cell that is not null, succeeds; the buffer holds the longest prefix of the column's name that leaves room
  -- for a terminator, and the terminator, and the type cell, if it is not null and no other cell
  -- than the scale and the nullability, holds the column's type.
  pub sql_describe_col-reads :
      nullable ≢ 0
      → data_type ≢ 0
      → data_type ≢ decimal_digits
      → data_type ≢ nullable
      → let d =
          sql_describe_col column_name
            (pos n)
            name_length
            data_type
            column_size
            decimal_digits
            nullable
            s
            (suc i)
            m in
        (d.end ≡ returned success)
        × (read_bytes d.memory column_name (min (n - 1) (length c.name) + 1)
            ≡ take (n - 1) c.name ++ 0 ∷ [])
        × (d.memory.words data_type ≡ get_data_type rs.translator c.kind)
  unfolding sql_describe_col describe read_bytes
  sql_describe_col-reads nullable_set type_set ne1 ne2 =
      let fits : (n % 2 ^ 64) ≡ n = omega arith in
      let written : (nullable == 0) ≡ false = ground arith in
      rw (set_rs, refuses_column-never (suc i) rs, found, fits, written)
        (
          refl,
          ap (λ f. peek f column_name (min (n - 1) (length c.name) + 1))
                (bytes-set_word _ nullable _
                  ∙ bytes-set_string_length _ decimal_digits _
                  ∙ bytes-set_string_length _ data_type _
                  ∙ bytes-set_string_length _ column_size _
                  ∙ bytes-set_string_length _ name_length _)
              ∙ (copy_string-reads c.name column_name n m name_set n_set).1,
          words-set_word_other _ data_type nullable _ ne2
              ∙ words-set_string_length_other _ data_type decimal_digits _ ne1
              ∙ words-set_string_length _ data_type _ type_set,
        )

-- SQLExtendedFetch after the last row gives SQL_NO_DATA, and reports one row fetched. The two cells
-- are different and not null.
sql_extended_fetch-no_data :
    (p : Platform) (md : RetsMetadata) (s : Stmt) (rows : List (List Text)) (pcrow row_status : ℕ)
    (m : Memory)
    → Stands s rows (length rows)
    → pcrow ≢ 0
    → pcrow ≢ row_status
    → ((sql_extended_fetch p md s pcrow row_status m).end ≡ returned no_data)
      × ((sql_extended_fetch p md s pcrow row_status m).memory.words pcrow ≡ pos 1)
unfolding sql_extended_fetch
sql_extended_fetch-no_data p md s rows pcrow row_status m st set apart =
    let again : Stands (clear_errors s) rows (length rows) = record {
      translator = st.translator;
      columns = st.columns;
      is_set = st.is_set;
    } in
    rw (stop p md (clear_errors s) m rows (length rows) again refl)
      (refl, words-set_word_other _ pcrow row_status _ apart ∙ words-set_word _ pcrow (pos 1) set)
