-- ===== src/Stmt/Fetching.antt =====
-- SQLFetch over a result set that holds its rows: what a client sees that fetches until SQL_NO_DATA.
use ez_rets.Base.{
  ℕ, zero, suc, ◌+◌, ◌≤◌, ◌<◌, ◌≡◌, refl, sym, ap, ◌∙◌, inl, inr, true, append-nil, append_assoc,
  map, false, not, List, [], ◌∷◌, ◌++◌, Option, none, some, arith, ◌==◌, if◌then◌else◌, Text,
  length, drop, get_elem?, Bool-cases,
}
use ez_rets.Column.{Context, Column}
use ez_rets.Translation.Translator.{DataTranslator}
use ez_rets.Translation.{Exception, missing_translator, date_time_format, data_translation}
use ez_rets.Librets.{RetsMetadata}
use ez_rets.Memory.{Memory}
use ez_rets.Odbc.{no_data}
use ez_rets.OnDemand.{next_of}
use ez_rets.Platform.{Platform}
use ez_rets.ResultSet.{
  ResultSet, Rows, dummy, bulk, search, objects, Bulk, process_next_row, next_row, add_row,
  add_rows, new_bulk, process_fields, has_next, has_no_rows,
}
use ez_rets.Stream.{reset}
use ez_rets.Stmt.Loop.{got_row, read_by, read_by-Ready}
use ez_rets.Stmt.{Stmt, sql_fetch, fetched, context, clear_errors, End, returned}

-- Where a result set of these rows stands after `k` calls of SQLFetch.
abbrev pub standing : List (List Text) → ℕ → Bulk
standing rows zero = record { results = rows; position = 0; got_first = false }
standing rows (suc k) = record { results = rows; position = k; got_first = true }

-- The result set of these columns, there.
abbrev pub standing_set : DataTranslator → List Column → List (List Text) → ℕ → ResultSet
standing_set t cols rows k = record {
  translator = t;
  columns = cols;
  rows = bulk (standing rows k);
}

-- The statement's result set stands there.
pub record Stands (s : Stmt) (rows : List (List Text)) (k : ℕ) : Type 0 where
  pub translator : DataTranslator
  pub columns : List Column
  pub is_set : s.result_set ≡ some (standing_set translator columns rows k)

-- The row that the statement stands on.
abbrev pub row_of : Rows → Option (List Text)
row_of dummy = none
row_of (bulk b) = if b.got_first then get_elem? b.results b.position else none
row_of (search results) = none
row_of (objects response map) = none

abbrev pub row_in : Option ResultSet → Option (List Text)
row_in none = none
row_in (some rs) = row_of rs.rows

abbrev pub current_row : Stmt → Option (List Text)
current_row s = row_in s.result_set

get_elem?-in {ℓ} :
    {A : Type ℓ} (xs : List A) (k : ℕ) → k < length xs → (x : A) × (get_elem? xs k ≡ some x)
get_elem?-in [] k h = absurd (omega arith)
get_elem?-in (x ∷ xs) zero h = (x, refl)
get_elem?-in (x ∷ xs) (suc k) h = get_elem?-in xs k (omega arith)

add_one : (n : ℕ) → n + 1 ≡ suc n
add_one n = omega arith

map-drop-nil :
    (rows : List (List Text)) (k : ℕ)
    → map {B = Option (List Text)} some (drop k rows) ≡ []
    → length rows ≤ k
map-drop-nil [] k h = omega arith
map-drop-nil (row ∷ rows) zero h = cc
map-drop-nil (row ∷ rows) (suc k) h = omega (arith, map-drop-nil rows k h)

map-drop-cons :
    (rows : List (List Text)) (k : ℕ) (x : Option (List Text)) (xs : List (Option (List Text)))
    → map some (drop k rows) ≡ x ∷ xs
    → (row : List Text) × (get_elem? rows k ≡ some row)
      × (some row ≡ x)
      × (k < length rows)
      × (map some (drop (suc k) rows) ≡ xs)
map-drop-cons [] zero x xs h = absurd (ground arith)
map-drop-cons [] (suc k) x xs h = absurd (ground arith)
map-drop-cons (row ∷ rows) zero x xs h = (row, refl, cc, omega arith, cc)
map-drop-cons (row ∷ rows) (suc k) x xs h =
    let (row', at, same, inside, rest) = map-drop-cons rows k x xs h in
    (row', at, same, omega arith, rest)

length-map :
    (rows : List (List Text)) → length (map {B = Option (List Text)} some rows) ≡ length rows
length-map [] = refl
length-map (row ∷ rows) = rw (length-map rows)

current-Stands :
    (s : Stmt) (rows : List (List Text)) (k : ℕ)
    → Stands s rows (suc k)
    → current_row s ≡ get_elem? rows k
current-Stands s rows k st = rw st.is_set

has_next-standing :
    (p : Platform) (rows : List (List Text)) (k : ℕ)
    → has_next p (bulk (standing rows k))
      ≡ (bulk (standing rows k), next_of (not (k == length rows)))
unfolding has_next
has_next-standing p rows zero = refl
has_next-standing p rows (suc k) = rw add_one

has_no_rows-lt :
    (rows : List (List Text)) (k : ℕ)
    → k < length rows
    → has_no_rows (bulk (standing rows k)) ≡ false
unfolding has_no_rows
has_no_rows-lt [] k h = absurd (omega arith)
has_no_rows-lt (r ∷ rows) zero h = refl
has_no_rows-lt (r ∷ rows) (suc k) h = refl

next_row-standing :
    (rows : List (List Text)) (k : ℕ) → next_row (standing rows k) ≡ standing rows (suc k)
unfolding next_row
next_row-standing rows zero = refl
next_row-standing rows (suc k) = rw add_one

process-standing :
    (c : Context) (t : DataTranslator) (cols : List Column) (m : Memory) (rows : List (List Text))
    (k : ℕ) (row : List Text)
    → get_elem? rows k ≡ some row
    → process_next_row c (standing_set t cols rows k) m
      ≡ some (
        standing_set t cols rows (suc k),
        (process_fields c cols row 0 m).0,
        (process_fields c cols row 0 m).1,
      )
unfolding process_next_row next_row
process-standing c t cols m rows zero row found = rw (found, process_next_row)
process-standing c t cols m rows (suc k) row found =
    rw (add_one k, process_next_row) (rw (found, process_next_row) (rw (add_one k)))

-- What a query leaves: a new result set with its columns, and each row added to it.
abbrev pub filled : DataTranslator → List Column → List (List Text) → ResultSet
unfolding add_rows
filled t cols rows = add_rows (record (new_bulk t) { columns = cols }) rows

add_rows_lem :
    (t : DataTranslator) (cols : List Column) (before rows : List (List Text))
    → add_rows (standing_set t cols before 0) rows ≡ standing_set t cols (before ++ rows) 0
unfolding add_rows add_row
add_rows_lem t cols before [] = simp (append-nil)
add_rows_lem t cols before (row ∷ rows) =
    add_rows_lem t cols (before ++ row ∷ []) rows ∙ simp (append_assoc)

module _ (p : Platform) (md : RetsMetadata) where
  -- What SQLFetch leaves of a processed row.
  step_done :
      (s : Stmt) (m : Memory) (t : DataTranslator) (cols : List Column) (rows : List (List Text))
      (k : ℕ) (m' : Memory) (e : Option Exception)
      → let d = fetched p s m (some (standing_set t cols rows (suc k), m', e)) in
        Stands d.stmt rows (suc k) × (got_row d.end ≡ true)
  unfolding fetched
  step_done s m t cols rows k m' none =
      (record { translator = t; columns = cols; is_set = refl }, refl)
  step_done s m t cols rows k m' (some (missing_translator x)) =
      (record { translator = t; columns = cols; is_set = refl }, refl)
  step_done s m t cols rows k m' (some (date_time_format x)) =
      (record { translator = t; columns = cols; is_set = refl }, refl)
  step_done s m t cols rows k m' (some (data_translation x)) =
      (record { translator = t; columns = cols; is_set = refl }, refl)
  step_done s m t cols rows k m' (some e) =
      (record { translator = t; columns = cols; is_set = refl }, refl)

  -- One SQLFetch while rows are left.
  pub step :
      (s : Stmt) (m : Memory) (rows : List (List Text)) (k : ℕ)
      → Stands s rows k
      → k < length rows
      → Stands (sql_fetch p md s m).stmt rows (suc k) × (got_row (sql_fetch p md s m).end ≡ true)
  unfolding sql_fetch
  step s m rows k st lt =
      let (row, found) = get_elem?-in rows k lt in
      let not_at_end : (k == length rows) ≡ false = ground arith in
      rw
        (
          st.is_set,
          has_no_rows-lt rows k lt,
          has_next-standing p rows k,
          not_at_end,
          process-standing
              (context p md (record (clear_errors s) { data_stream_info = reset })
                (standing_set st.translator st.columns rows k))
              st.translator st.columns m rows k row found,
        )
        (step_done
          (record s {
            errors = [];
            result_set = some (standing_set st.translator st.columns rows k);
            data_stream_info = reset;
          })
          m st.translator st.columns rows k _ _)

  pub stop :
      (s : Stmt) (m : Memory) (rows : List (List Text)) (k : ℕ)
      → Stands s rows k
      → length rows ≡ k
      → (sql_fetch p md s m).end ≡ returned no_data
  unfolding sql_fetch
  stop s m rows k st e =
      let at_end : (k == length rows) ≡ true = ground arith in
      elim (Bool-cases (has_no_rows (bulk (standing rows k)))) [
        | inl e ↦ rw (st.is_set, e)
        | inr more ↦ rw (st.is_set, more, has_next-standing p rows k, at_end)
      ]

  -- SQLFetch at the end leaves the result set where it is.
  pub stopped :
      (s : Stmt) (m : Memory) (rows : List (List Text)) (k : ℕ)
      → Stands s rows k
      → length rows ≡ k
      → Stands (sql_fetch p md s m).stmt rows k
  unfolding sql_fetch
  stopped s m rows k st e =
      let at_end : (k == length rows) ≡ true = ground arith in
      elim (Bool-cases (has_no_rows (bulk (standing rows k)))) [
        | inl none_there ↦
            rw (st.is_set, none_there)
              (record { translator = st.translator; columns = st.columns; is_set = refl })
        | inr more ↦
            rw (st.is_set, more, has_next-standing p rows k, at_end)
              (record { translator = st.translator; columns = st.columns; is_set = refl })
      ]

  -- A client that fetches until SQLFetch gives no row, with what each row was and how it ended.
  abbrev pub read_rows : ℕ → Stmt → Memory → List (Option (List Text)) × Option End
  unfolding read_by
  read_rows = read_by p md current_row

  -- The statement has these rows to come, the last ones of its result set.
  record Comes (rows : List (List Text)) (s : Stmt) (xs : List (Option (List Text))) (e : End)
      : Type 0 where
    index : ℕ
    stands : Stands s rows index
    inside : index ≤ length rows
    rest : map some (drop index rows) ≡ xs
    end : e ≡ returned no_data

  Comes-stop :
      (rows : List (List Text)) (s : Stmt) (m : Memory) (e : End)
      → Comes rows s [] e
      → (sql_fetch p md s m).end ≡ e
  Comes-stop rows s m e c =
      let last = map-drop-nil rows c.index c.rest in
      stop s m rows c.index c.stands (omega (arith, c.inside)) ∙ sym c.end

  Comes-step :
      (rows : List (List Text)) (s : Stmt) (m : Memory) (x : Option (List Text))
      (xs : List (Option (List Text))) (e : End)
      → Comes rows s (x ∷ xs) e
      → Comes rows (sql_fetch p md s m).stmt xs e
        × (current_row (sql_fetch p md s m).stmt ≡ x)
        × (got_row (sql_fetch p md s m).end ≡ true)
  Comes-step rows s m x xs e c =
      let (row, at, same, inside, rest) = map-drop-cons rows c.index x xs c.rest in
      let (st', got) = step s m rows c.index c.stands inside in
      (
        record {
          index = suc c.index;
          stands = st';
          inside = omega arith;
          rest = rest;
          end = c.end;
        },
        current-Stands _ rows c.index st' ∙ at ∙ same,
        got,
      )

  pub filled-Stands :
      (s : Stmt) (t : DataTranslator) (cols : List Column) (rows : List (List Text))
      → s.result_set ≡ some (filled t cols rows)
      → Stands s rows 0
  unfolding filled
  filled-Stands s t cols rows set = record {
    translator = t;
    columns = cols;
    is_set = set ∙ ap some (add_rows_lem t cols [] rows);
  }

  -- A statement whose query has filled its result set, fetched from until SQLFetch gives no row,
  -- stands on each row of the query once and in their order, and the last call gives SQL_NO_DATA;
  -- this is so for any binding of the columns and any errors in the conversions, if the
  -- client makes more calls than there are rows.
  pub read_rows-filled :
      (s : Stmt) (m : Memory) (t : DataTranslator) (cols : List Column) (rows : List (List Text))
      (fuel : ℕ)
      → s.result_set ≡ some (filled t cols rows)
      → length rows < fuel
      → read_rows fuel s m ≡ (map some rows, some (returned no_data))
  unfolding filled read_rows read_by
  read_rows-filled s m t cols rows fuel set lt =
      read_by-Ready p md current_row (Comes rows) (Comes-stop rows) (Comes-step rows)
        (map some rows) fuel s m (returned no_data) refl
        (record {
          index = 0;
          stands = filled-Stands s t cols rows set;
          inside = omega arith;
          rest = refl;
          end = refl;
        })
        (rw (length-map rows) lt)
