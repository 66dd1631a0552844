-- ===== src/ResultSet.antt =====
-- project/driver/src/ResultSet.cpp, OnDemandResultSet.cpp and OnDemandObjectResultSet.cpp: the columns
-- of a result set and its rows, which it holds (BulkResultSet), asks for or has none of.
use ez_rets.Base.{
  ℕ, zero, suc, ◌+◌, ◌-◌, Bool, true, false, not, List, [], ◌∷◌, ◌++◌, map, Option, none, some,
  ◌==◌, if◌then◌else◌, Text, ℤ, length, get_elem?, set, is_empty,
}
use ez_rets.Column.{Column, ColumnKind, new_column, bind, unbind, Context, set_data, set_bound_data}
use ez_rets.Librets.{SearchResultSet, ObjectDescriptor}
use ez_rets.Memory.{Memory}
use ez_rets.OnDemand.{
  Next, ended, next_of, or_empty, search_next, next_object, Objects, response_value,
}
use ez_rets.Platform.{Platform}
use ez_rets.Stream.{DataStreamInfo}
use ez_rets.Translation.{Exception, Outcome, out_of_range}
use ez_rets.Translation.Translator.{DataTranslator}

-- BulkResultSet; the iterator is an index into the rows
pub record Bulk : Type 0 where
  pub results : List (List Text)
  pub position : ℕ
  pub got_first : Bool

-- The rows of each kind of result set: DummyResultSet, BulkResultSet, OnDemandResultSet with its
-- results, OnDemandObjectResultSet with the objects that are left and the map of the last one.
pub data Rows : Type 0 where
  dummy : Rows
  bulk : Bulk → Rows
  search : Option SearchResultSet → Rows
  objects : Option (List ObjectDescriptor) → List (Text × Text) → Rows

pub record ResultSet : Type 0 where
  pub translator : DataTranslator
  pub columns : List Column
  pub rows : Rows

-- BulkResultSet::BulkResultSet
abbrev pub new_bulk : DataTranslator → ResultSet
new_bulk t = record {
  translator = t;
  columns = [];
  rows = bulk (record { results = []; position = 0; got_first = false });
}

-- ResultSet::columnCount
abbrev pub column_count : ResultSet → ℕ
column_count rs = length rs.columns

-- ResultSet::addColumn of both kinds
unfoldable pub add_column : ResultSet → Text → ColumnKind → ResultSet
add_column rs name kind = record rs { columns = rs.columns ++ new_column name kind ∷ [] }

-- mColumns->at(col - 1)
abbrev pub column_at : List Column → ℕ → Option Column
column_at cols zero = none
column_at cols (suc i) = get_elem? cols i

abbrev replace_column : List Column → ℕ → Column → List Column
replace_column cols zero c = cols
replace_column cols (suc i) c = set cols i c

-- ResultSet::bindColumn; `none` where `at` throws
unfoldable pub bind_column : ResultSet → ℕ → ℤ → ℕ → ℤ → ℕ → Option ResultSet
unfolding bind
bind_column rs col target_type target_value buffer_length str_len_or_ind =
    elim (column_at rs.columns col) [
      | none ↦ none
      | some c ↦ some (record rs {
        columns =
            replace_column rs.columns col
              (bind c target_type target_value buffer_length str_len_or_ind);
      })
    ]

-- ResultSet::unbindColumns
unfoldable pub unbind_columns : ResultSet → ResultSet
unfolding unbind
unbind_columns rs = record rs { columns = map unbind rs.columns }

-- rowCount, isEmpty, hasNext
unfoldable pub row_count : Rows → ℕ
row_count dummy = 0
row_count (bulk b) = length b.results
row_count (search results) = 1
row_count (objects response map) = 1

unfoldable pub has_no_rows : Rows → Bool
has_no_rows dummy = true
has_no_rows (bulk b) = is_empty b.results
has_no_rows (search results) = false
has_no_rows (objects response map) = false

abbrev still_searching : Option SearchResultSet × Next → Rows × Next
still_searching (results, next) = (search results, next)

abbrev still_objects : Objects × Next → Rows × Next
still_objects ((rest, map), next) = (objects (some rest) map, next)

unfoldable pub has_next : Platform → Rows → Rows × Next
unfolding search_next next_object
has_next p dummy = (dummy, ended)
has_next p (bulk b) = (
  bulk b,
  next_of (
      if b.got_first
      then not (b.position + 1 == length b.results)
      else not (b.position == length b.results)),
)
has_next p (search results) = still_searching (search_next results)
has_next p (objects none map) = (objects none map, ended)
has_next p (objects (some response) map) = still_objects (next_object p response map)

-- BulkResultSet::addRow
unfoldable pub add_row : Rows → List Text → Rows
add_row dummy row = dummy
add_row (search results) row = search results
add_row (objects response map) row = objects response map
add_row (bulk b) row = bulk (record b { results = b.results ++ row ∷ []; position = 0 })

-- Each row added to a result set.
unfoldable pub add_rows : ResultSet → List (List Text) → ResultSet
unfolding add_row
add_rows rs [] = rs
add_rows rs (row ∷ rows) = add_rows (record rs { rows = add_row rs.rows row }) rows

abbrev set_if_bound : Context → Column → ℕ → Text → Memory → Outcome
unfolding set_bound_data
set_if_bound c col count text m =
    if col.bound
    then set_bound_data c col count text m
    else record { memory = m; stream = none; thrown = none }

-- The loop of BulkResultSet::processNextRow, which ends with the first exception.
unfoldable pub process_fields :
    Context → List Column → List Text → ℕ → Memory → Memory × Option Exception
unfolding set_bound_data
process_fields c cols [] count m = (m, none)
process_fields c cols (text ∷ rest) count m = elim (get_elem? cols count) [
  | none ↦ (m, some out_of_range)
  | some col ↦
      let r = set_if_bound c col count text m in
      elim r.thrown [
        | none ↦ process_fields c cols rest (count + 1) r.memory
        | some e ↦ (r.memory, some e)
      ]
]

-- The loop of processNextRow where each column's text is asked for by its name.
unfoldable pub process_values :
    Context → List Column → (Text → Text) → ℕ → Memory → Memory × Option Exception
unfolding set_bound_data
process_values c [] text count m = (m, none)
process_values c (col ∷ cols) text count m =
    let r = set_if_bound c col count (text col.name) m in
    elim r.thrown [
      | none ↦ process_values c cols text (count + 1) r.memory
      | some e ↦ (r.memory, some e)
    ]

-- What OnDemandResultSet and OnDemandObjectResultSet give for a column's name.
abbrev pub search_text : SearchResultSet → Text → Text
search_text r name = or_empty (r.current name)

-- The iterator's step at the start of BulkResultSet::processNextRow
unfoldable pub next_row : Bulk → Bulk
next_row b =
    if b.got_first then record b { position = b.position + 1 } else record b { got_first = true }

-- processNextRow, for the context of this result set; `none` where the iterator is at the end, or
-- there are no results
unfoldable pub process_next_row :
    Context → ResultSet → Memory → Option (ResultSet × Memory × Option Exception)
unfolding next_row process_fields process_values response_value
process_next_row c rs m = elim rs.rows [
  | dummy ↦ some (rs, m, none)
  | search none ↦ none
  | search (some r) ↦
      let (m', e) = process_values c rs.columns (search_text r) 0 m in some (rs, m', e)
  | objects response map ↦
      let (m', e) = process_values c rs.columns (response_value map) 0 m in some (rs, m', e)
  | bulk b ↦
      let b' = next_row b in
      elim (get_elem? b'.results b'.position) [
        | none ↦ none
        | some row ↦
            let (m', e) = process_fields c rs.columns row 0 m in
            some (record rs { rows = bulk b' }, m', e)
      ]
]

abbrev field_at : List Text → ℕ → Option Text
field_at row zero = none
field_at row (suc i) = get_elem? row i

abbrev get_field :
    Context → Option Column → Option Text → ℕ → ℤ → ℕ → ℤ → ℕ → DataStreamInfo → Memory → Outcome
unfolding set_data
get_field c (some col) (some text) col_no target_type target_value buffer_length ind s m =
    set_data c col col_no text target_type target_value buffer_length ind (some s) m
get_field c _ _ col_no target_type target_value buffer_length ind s m = record {
  memory = m;
  stream = some s;
  thrown = some out_of_range;
}

abbrev get_named :
    Context → (Text → Text) → Column → ℕ → ℤ → ℕ → ℤ → ℕ → DataStreamInfo → Memory → Option Outcome
unfolding set_data
get_named c text col col_no target_type target_value buffer_length ind s m =
    some
      (set_data c col col_no (text col.name) target_type target_value buffer_length ind (some s) m)

-- getData; `none` where the iterator is at the end, or there are no results
unfoldable pub get_data :
    Context → ResultSet → ℕ → ℤ → ℕ → ℤ → ℕ → DataStreamInfo → Memory → Option Outcome
unfolding set_data response_value
get_data c rs colno target_type target_value buffer_length ind s m = elim rs.rows [
  | dummy ↦ some (record { memory = m; stream = some s; thrown = none })
  | search results ↦ elim (column_at rs.columns colno) [
    | none ↦ some (record { memory = m; stream = some s; thrown = some out_of_range })
    | some col ↦ elim results [
      | none ↦ none
      | some r ↦
          get_named c (search_text r) col (colno - 1) target_type target_value buffer_length ind s m
    ]
  ]
  | objects response map ↦ elim (column_at rs.columns colno) [
    | none ↦ some (record { memory = m; stream = some s; thrown = some out_of_range })
    | some col ↦
        get_named c (response_value map) col (colno - 1) target_type target_value buffer_length ind
          s m
  ]
  | bulk b ↦ elim (column_at rs.columns colno) [
    | none ↦ some (record { memory = m; stream = some s; thrown = some out_of_range })
    | some col ↦ elim (get_elem? b.results b.position) [
      | none ↦ none
      | some row ↦ some (
          get_field c (some col) (field_at row colno) (colno - 1) target_type target_value
            buffer_length ind s m)
    ]
  ]
]
