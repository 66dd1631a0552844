-- ===== src/Stmt/Binding.antt =====
-- project/driver/src/RetsSTMT.cpp: what SQLBindCol does for each column number.
use ez_rets.Base.{
  ℕ, zero, suc, ◌+◌, ◌<◌, ◌≡◌, refl, ◌≢◌, false, List, [], ◌∷◌, none, some, arith, ◌==◌,
  if◌then◌else◌, ℤ, length, get_elem?, set, codes,
}
use ez_rets.Column.{Column, bind}
use ez_rets.Memory.{Memory}
use ez_rets.Odbc.{success, error}
use ez_rets.Platform.{Platform}
use ez_rets.ResultSet.{ResultSet, bind_column}
use ez_rets.Stmt.{Stmt, returned, sql_bind_col, enter, refuses_column}
use ez_rets.Translation.{what, out_of_range}

get_elem?-set {ℓ} :
    {A : Type ℓ} (xs : List A) (i j : ℕ) (v : A)
    → i < length xs
    → get_elem? (set xs i v) j ≡ (if i == j then some v else get_elem? xs j)
get_elem?-set [] i j v h = absurd (omega arith)
get_elem?-set (x ∷ xs) zero zero v h = refl
get_elem?-set (x ∷ xs) zero (suc j) v h = ground arith
get_elem?-set (x ∷ xs) (suc i) zero v h = ground arith
get_elem?-set (x ∷ xs) (suc i) (suc j) v h = ground (arith, get_elem?-set xs i j v (omega arith))

get_elem?-beyond {ℓ} :
    {A : Type ℓ} (xs : List A) (i : ℕ) → length xs < i + 1 → get_elem? xs i ≡ none
get_elem?-beyond [] i h = refl
get_elem?-beyond (x ∷ xs) zero h = absurd (omega arith)
get_elem?-beyond (x ∷ xs) (suc i) h = get_elem?-beyond xs i (omega arith)

bind_column-in :
    (rs : ResultSet) (i : ℕ) (c : Column) (target_type : ℤ) (target_value : ℕ) (buffer_length : ℤ)
    (ind : ℕ)
    → get_elem? rs.columns i ≡ some c
    → bind_column rs (suc i) target_type target_value buffer_length ind
      ≡ some (record rs {
        columns = set rs.columns i (bind c target_type target_value buffer_length ind);
      })
unfolding bind_column
bind_column-in rs i c target_type target_value buffer_length ind found = rw (found, bind_column)

bind_column-beyond :
    (rs : ResultSet) (i : ℕ) (target_type : ℤ) (target_value : ℕ) (buffer_length : ℤ) (ind : ℕ)
    → get_elem? rs.columns i ≡ none
    → bind_column rs (suc i) target_type target_value buffer_length ind ≡ none
unfolding bind_column
bind_column-beyond rs i target_type target_value buffer_length ind missing =
    rw (missing, bind_column)

pub refuses_column-never : (n : ℕ) (rs : ResultSet) → refuses_column n rs ≡ false
refuses_column-never zero rs = ground arith
refuses_column-never (suc n) rs = ground arith

module _ (s : Stmt) (rs : ResultSet) (set_rs : s.result_set ≡ some rs) (target_type : ℤ)
    (target_value : ℕ) (buffer_length : ℤ) (ind : ℕ) (target_set : target_value ≢ 0)
    (m : Memory) where
  -- SQLBindCol of a column that exists in the statement's result set, with a buffer that is not null, succeeds; the column with
  -- this number is bound as the call says, every other column stays as it was, and so do the
  -- client's memory and the rows.
  pub sql_bind_col-binds :
      (i : ℕ) (c : Column)
      → get_elem? rs.columns i ≡ some c
      → i < length rs.columns
      → (after : ResultSet) × ((sql_bind_col s
            (suc i)
            target_type
            target_value
            buffer_length
            ind
            m).end
          ≡ returned success)
        × ((sql_bind_col s (suc i) target_type target_value buffer_length ind m).memory ≡ m)
        × ((sql_bind_col s (suc i) target_type target_value buffer_length ind m).stmt.result_set
            ≡ some after)
        × (after.rows ≡ rs.rows)
        × ((j : ℕ)
            → get_elem? after.columns j ≡ (
                if i == j
                then some (bind c target_type target_value buffer_length ind)
                else get_elem? rs.columns j))
  unfolding sql_bind_col
  sql_bind_col-binds i c found lt =
      let usable : (target_value == 0) ≡ false = ground arith in
      let after : ResultSet = record rs {
        columns = set rs.columns i (bind c target_type target_value buffer_length ind);
      } in
      rw
        (
          set_rs,
          refuses_column-never (suc i) rs,
          usable,
          bind_column-in rs i c target_type target_value buffer_length ind found,
        )
        (after, refl, refl, refl, refl, λ j. get_elem?-set rs.columns i j _ lt)

  -- SQLBindCol of a number after the last column, with a buffer that is not null: the guard does
  -- not refuse it, and the exception of the list of columns becomes the error HY000 of the entry
  -- point, with SQL_ERROR; the result set and the client's memory stay as they were.
  enter-sql_bind_col_beyond :
      (p : Platform) (i : ℕ)
      → length rs.columns < i + 1
      → let d =
          enter p false s m
            (λ s' m'. sql_bind_col s' (suc i) target_type target_value buffer_length ind m') in
        (d.end ≡ returned error)
        × (d.stmt.errors ≡ record { sqlstate = codes "HY000"; message = what p out_of_range } ∷ [])
        × (d.stmt.result_set ≡ some rs)
        × (d.memory ≡ m)
  unfolding enter sql_bind_col what
  enter-sql_bind_col_beyond p i lt =
      let usable : (target_value == 0) ≡ false = ground arith in
      rw
        (
          set_rs,
          refuses_column-never (suc i) rs,
          usable,
          bind_column-beyond rs i target_type target_value buffer_length ind
              (get_elem?-beyond rs.columns i lt),
        )
        (refl, refl, refl, refl)
