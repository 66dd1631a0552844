-- ===== src/Stmt/Streaming.antt =====
-- project/driver/src: SQLFetch over the result sets that ask the server for each row
-- (OnDemandResultSet.cpp, OnDemandObjectResultSet.cpp).
use ez_rets.Base.{
  ℕ, ◌<◌, ◌≡◌, refl, ap, ◌∙◌, true, false, List, [], ◌∷◌, Option, none, some, arith, Text, ℤ,
  length,
}
use ez_rets.Column.{Column}
use ez_rets.Librets.{RetsMetadata, SearchResultSet, Reply, row, broken}
use ez_rets.Memory.{Memory}
use ez_rets.Odbc.{no_data}
use ez_rets.OnDemand.{Next, found, ended, raises, search_next}
use ez_rets.Platform.{Platform}
use ez_rets.ResultSet.{ResultSet, Rows, search, has_next, has_no_rows, process_next_row}
use ez_rets.Stmt.{Stmt, End, returned, escaped, sql_fetch, fetch_next, fetched}
use ez_rets.Stmt.Loop.{got_row, read_by, read_by-Ready}
use ez_rets.Stream.{reset}
use ez_rets.Translation.{Exception, missing_translator, date_time_format, raised}
use ez_rets.Translation.Translator.{DataTranslator}

-- The statement's result set is one of these columns and rows.
pub record Has (rows : Rows) (s : Stmt) : Type 0 where
  pub translator : DataTranslator
  pub columns : List Column
  pub is_set :
      s.result_set ≡ some (record { translator = translator; columns = columns; rows = rows })

module _ (p : Platform) (md : RetsMetadata) where
  -- What SQLFetch leaves of a processed row.
  pub fetched-Has :
      (s : Stmt) (m : Memory) (t : DataTranslator) (cols : List Column) (rows : Rows) (m' : Memory)
      (e : Option Exception)
      → let d =
          fetched p s m (some (record { translator = t; columns = cols; rows = rows }, m', e)) in
        Has rows d.stmt × (got_row d.end ≡ true)
  unfolding fetched
  fetched-Has s m t cols rows m' none =
      (record { translator = t; columns = cols; is_set = refl }, refl)
  fetched-Has s m t cols rows m' (some (missing_translator x)) =
      (record { translator = t; columns = cols; is_set = refl }, refl)
  fetched-Has s m t cols rows m' (some (date_time_format x)) =
      (record { translator = t; columns = cols; is_set = refl }, refl)
  fetched-Has s m t cols rows m' (some e) =
      (record { translator = t; columns = cols; is_set = refl }, refl)

-- The values that GetString gives on the row that the statement stands on.
abbrev values_in : Rows → Option (Text → Option Text)
values_in (search (some r)) = some r.current
values_in _ = none

abbrev values_of : Option ResultSet → Option (Text → Option Text)
values_of none = none
values_of (some rs) = values_in rs.rows

abbrev pub current_values : Stmt → Option (Text → Option Text)
current_values s = values_of s.result_set

-- The rows of a server's reply up to its end or its first fault, and what SQLFetch ends with there.
abbrev pub rows_sent : List Reply → List (Option (Text → Option Text))
rows_sent [] = []
rows_sent (row f ∷ rest) = some f ∷ rows_sent rest
rows_sent (broken e ∷ rest) = []

abbrev pub end_sent : List Reply → End
end_sent [] = returned no_data
end_sent (row f ∷ rest) = end_sent rest
end_sent (broken e ∷ rest) = escaped (raised e)

end_sent-ends : (rs : List Reply) → got_row (end_sent rs) ≡ false
end_sent-ends [] = refl
end_sent-ends (row f ∷ rest) = end_sent-ends rest
end_sent-ends (broken e ∷ rest) = refl

abbrev results_of : List Reply → (Text → Option Text) → (Text → Option Text) → ℤ → SearchResultSet
results_of pending current after_end count = record {
  pending = pending;
  current = current;
  after_end = after_end;
  count = count;
}

-- The statement's result set has results that are still to give these rows and this end.
record Searches (s : Stmt) (xs : List (Option (Text → Option Text))) (e : End) : Type 0 where
  pending : List Reply
  current : Text → Option Text
  after_end : Text → Option Text
  count : ℤ
  has_results : Has (search (some (results_of pending current after_end count))) s
  sent : rows_sent pending ≡ xs
  end : end_sent pending ≡ e

module _ (p : Platform) (md : RetsMetadata) where
  -- SQLFetch after hasNext.
  pub sql_fetch_lem :
      (s : Stmt) (m : Memory) (rows rows' : Rows) (next : Next) (h : Has rows s)
      → has_no_rows rows ≡ false
      → has_next p rows ≡ (rows', next)
      → let rs : ResultSet = record {
        translator = h.translator;
        columns = h.columns;
        rows = rows';
      } in
        sql_fetch p md s m
        ≡ fetch_next p md (record s { errors = []; result_set = some rs }) m rs next
  unfolding sql_fetch
  sql_fetch_lem s m rows rows' next h some_rows e = rw (h.is_set, some_rows, e)

  module _ (s : Stmt) (m : Memory) (current after_end : Text → Option Text) (count : ℤ) where
    search_ends :
        Has (search (some (results_of [] current after_end count))) s
        → (sql_fetch p md s m).end ≡ returned no_data
    unfolding has_next search_next has_no_rows fetch_next
    search_ends h = rw (sql_fetch_lem s m _ _ ended h refl refl)

    search_breaks :
        (e : Text) (rest : List Reply)
        → Has (search (some (results_of (broken e ∷ rest) current after_end count))) s
        → (sql_fetch p md s m).end ≡ escaped (raised e)
    unfolding has_next search_next has_no_rows fetch_next
    search_breaks e rest h = rw (sql_fetch_lem s m _ _ (raises (raised e)) h refl refl)

    search_finds :
        (f : Text → Option Text) (rest : List Reply)
        → Has (search (some (results_of (row f ∷ rest) current after_end count))) s
        → Has (search (some (results_of rest f after_end count))) (sql_fetch p md s m).stmt
          × (got_row (sql_fetch p md s m).end ≡ true)
    unfolding has_next search_next has_no_rows fetch_next process_next_row
    search_finds f rest h = rw (sql_fetch_lem s m _ _ found h refl refl) (
        fetched-Has p md
          (record s {
            errors = [];
            result_set = some (record {
              translator = h.translator;
              columns = h.columns;
              rows = search (some (results_of rest f after_end count));
            });
            data_stream_info = reset;
          })
          m h.translator h.columns (search (some (results_of rest f after_end count))) _ _)

  search_stop :
      (s : Stmt) (m : Memory) (e : End) (pending : List Reply)
      (current after_end : Text → Option Text) (count : ℤ)
      → Has (search (some (results_of pending current after_end count))) s
      → rows_sent pending ≡ []
      → end_sent pending ≡ e
      → (sql_fetch p md s m).end ≡ e
  search_stop s m e [] current after_end count h none_sent end =
      search_ends s m current after_end count h ∙ end
  search_stop s m e (row f ∷ rest) current after_end count h none_sent end = absurd (ground arith)
  search_stop s m e (broken x ∷ rest) current after_end count h none_sent end =
      search_breaks s m current after_end count x rest h ∙ end

  search_step :
      (s : Stmt) (m : Memory) (x : Option (Text → Option Text))
      (xs : List (Option (Text → Option Text))) (e : End) (pending : List Reply)
      (current after_end : Text → Option Text) (count : ℤ)
      → Has (search (some (results_of pending current after_end count))) s
      → rows_sent pending ≡ x ∷ xs
      → end_sent pending ≡ e
      → Searches (sql_fetch p md s m).stmt xs e
        × (current_values (sql_fetch p md s m).stmt ≡ x)
        × (got_row (sql_fetch p md s m).end ≡ true)
  search_step s m x xs e [] current after_end count h sent end = absurd (ground arith)
  search_step s m x xs e (broken y ∷ rest) current after_end count h sent end =
      absurd (ground arith)
  search_step s m x xs e (row f ∷ rest) current after_end count h sent end =
      let (h', got) = search_finds s m current after_end count f rest h in
      (
        record {
          pending = rest;
          current = f;
          after_end = after_end;
          count = count;
          has_results = h';
          sent = cc;
          end = end;
        },
        ap values_of h'.is_set ∙ cc,
        got,
      )

  -- A statement whose query has been executed, fetched from until SQLFetch gives no row, stands on
  -- each row that the server sends once and in their order. The last call gives SQL_NO_DATA if the
  -- reply ends, and lets the exception of librets out if reading the reply fails. This is so for
  -- any binding of the columns and any errors in the conversions, if the client makes more calls
  -- than there are rows.
  pub read_by-search :
      (s : Stmt) (m : Memory) (results : SearchResultSet) (fuel : ℕ)
      → Has (search (some results)) s
      → length (rows_sent results.pending) < fuel
      → read_by p md current_values fuel s m
        ≡ (rows_sent results.pending, some (end_sent results.pending))
  read_by-search s m results fuel h lt =
      read_by-Ready p md current_values Searches
        (λ s m e r.
          search_stop s m e r.pending r.current r.after_end r.count r.has_results r.sent r.end)
        (λ s m x xs e r.
          search_step s m x xs e r.pending r.current r.after_end r.count r.has_results r.sent r.end)
        (rows_sent results.pending) fuel s m (end_sent results.pending)
        (end_sent-ends results.pending)
        (record {
          pending = results.pending;
          current = results.current;
          after_end = results.after_end;
          count = results.count;
          has_results = h;
          sent = refl;
          end = refl;
        })
        lt
