-- ===== src/Stmt/Executing.antt =====
-- project/driver/src: SQLExecute of a lookup query and SQLTables, down to the rows that the client
-- fetches.
use ez_rets.Base.{ℕ, ◌<◌, ◌≡◌, refl, ap, List, [], ◌∷◌, ◌++◌, map, some, Text, length}
use ez_rets.Catalogue.{Source}
use ez_rets.Column.{Column}
use ez_rets.Librets.{RetsMetadata, LookupQuery, MetadataResource}
use ez_rets.Memory.{Memory}
use ez_rets.MetadataView.{get_resource}
use ez_rets.Odbc.{success, no_data}
use ez_rets.Platform.{Platform}
use ez_rets.Query.{lookup_query}
use ez_rets.Query.Execute.{RetsSession, execute, lookup_row}
use ez_rets.ResultSet.{ResultSet, new_bulk, add_row, add_rows}
use ez_rets.Stmt.{Stmt, returned}
use ez_rets.Stmt.Fetching.{filled, read_rows, read_rows-filled}
use ez_rets.Stmt.Queries.{sql_execute}
use ez_rets.Translation.Translator.{DataTranslator}

-- A query fills its result set in addition to what is there.
add_rows-append :
    (rs : ResultSet) (xs ys : List (List Text))
    → add_rows (add_rows rs xs) ys ≡ add_rows rs (xs ++ ys)
unfolding add_rows
add_rows-append rs [] ys = refl
add_rows-append rs (x ∷ xs) ys = add_rows-append (record rs { rows = add_row rs.rows x }) xs ys

add_rows-filled :
    (t : DataTranslator) (cols : List Column) (xs ys : List (List Text))
    → add_rows (filled t cols xs) ys ≡ filled t cols (xs ++ ys)
unfolding add_rows
add_rows-filled t cols xs ys = add_rows-append (record (new_bulk t) { columns = cols }) xs ys

module _ (p : Platform) (md : RetsMetadata) (session : RetsSession) (src : Source) where
  -- SQLExecute of a lookup query adds the values of the lookup, in the metadata's order, to the
  -- rows that the result set holds: a client that has fetched nothing and fetches until SQLFetch
  -- gives no row sees the rows that were there and then these. After SQLPrepare there are none;
  -- a second SQLExecute gives every value twice. The resource of the query exists, and the client
  -- makes more calls than there are rows.
  pub read_rows-sql_execute :
      (s : Stmt) (m : Memory) (q : LookupQuery) (res : MetadataResource) (t : DataTranslator)
      (cols : List Column) (rows : List (List Text)) (fuel : ℕ)
      → s.query ≡ lookup_query q
      → s.result_set ≡ some (filled t cols rows)
      → get_resource src.view q.resource ≡ some res
      → let all =
          rows
          ++ map lookup_row (src.view.metadata.get_all_lookup_types res.resource_id q.lookup) in
        length all < fuel
        → ((sql_execute p session src s).end ≡ returned success)
          × (read_rows p md fuel (sql_execute p session src s).stmt m
              ≡ (map some all, some (returned no_data)))
  unfolding sql_execute execute
  read_rows-sql_execute s m q res t cols rows fuel is_lookup set found lt =
      rw (is_lookup, set, found)
        (refl, read_rows-filled p md _ m t cols _ fuel (ap some (add_rows-filled t cols rows _)) lt)
