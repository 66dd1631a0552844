-- ===== src/Stmt/Objects.antt =====
-- project/driver/src/OnDemandObjectResultSet.cpp: SQLFetch over the objects of a GetObject query.
use ez_rets.Base.{
  ℕ, ◌<◌, ◌≡◌, refl, sym, ap, ◌∙◌, ◌⊎◌, true, false, List, [], ◌∷◌, map, Option, none, some, arith,
  ◌==◌, if◌then◌else◌, Text, length, Bool-cases, inl, inr,
}
use ez_rets.Librets.{RetsMetadata, ObjectDescriptor}
use ez_rets.Memory.{Memory}
use ez_rets.Odbc.{no_data}
use ez_rets.OnDemand.{Next, found, ended, raises, next_object, is_refusal, response_map}
use ez_rets.Platform.{Platform}
use ez_rets.ResultSet.{ResultSet, Rows, objects, has_next, has_no_rows, process_next_row}
use ez_rets.Stmt.{Stmt, End, returned, escaped, sql_fetch, fetch_next}
use ez_rets.Stmt.Loop.{got_row, read_by, read_by-Ready}
use ez_rets.Stream.{reset}
use ez_rets.Translation.{raised}
use ez_rets.Stmt.Streaming.{Has, fetched-Has, sql_fetch_lem}

-- What GetObject's objects come to: the values of those that are there, up to the first refusal.
unfoldable pub before_refusal : List ObjectDescriptor → List ObjectDescriptor
before_refusal [] = []
before_refusal (o ∷ os) =
    let rest = before_refusal os in if is_refusal o.reply_code then [] else o ∷ rest

unfoldable pub there : List ObjectDescriptor → List ObjectDescriptor
there [] = []
there (o ∷ os) = if o.reply_code == 20403 then there os else o ∷ there os

-- The first refusal, if any.
unfoldable pub refusal_in : List ObjectDescriptor → Option Text
refusal_in [] = none
refusal_in (o ∷ os) =
    let rest = refusal_in os in if is_refusal o.reply_code then some o.reply_text else rest

abbrev pub end_of : Option Text → End
end_of none = returned no_data
end_of (some text) = escaped (raised text)

abbrev map_in : Rows → Option (List (Text × Text))
map_in (objects response map) = some map
map_in _ = none

abbrev map_of : Option ResultSet → Option (List (Text × Text))
map_of none = none
map_of (some rs) = map_in rs.rows

-- The values of the object that the statement stands on.
abbrev pub current_object : Stmt → Option (List (Text × Text))
current_object s = map_of s.result_set

abbrev pub delivered : Platform → List ObjectDescriptor → List (Option (List (Text × Text)))
unfolding there before_refusal
delivered p os = map (λ o. some (response_map p o)) (there (before_refusal os))

abbrev next_at_end : Option Text → Next
next_at_end none = ended
next_at_end (some text) = raises (raised text)

-- What hasNext finds among the objects: none is left to deliver, or the first of those.
object_cases :
    (p : Platform) (os : List ObjectDescriptor) (response : List (Text × Text))
    → ((delivered p os ≡ [])
        × ((rest : List ObjectDescriptor) × (next_object p os response
              ≡ ((rest, response), next_at_end (refusal_in os)))))
      ⊎ ((o : ObjectDescriptor) × (rest : List ObjectDescriptor) × (next_object p os response
            ≡ ((rest, response_map p o), found))
          × (delivered p os ≡ some (response_map p o) ∷ delivered p rest)
          × (refusal_in os ≡ refusal_in rest))
unfolding delivered there before_refusal refusal_in next_object
object_cases p [] response = inl (refl, ([], refl))
object_cases p (o ∷ os) response = elim (Bool-cases (is_refusal o.reply_code)) [
  | inl refused ↦ inl (rw (refused), (os, rw (refused)))
  | inr kept ↦ elim (Bool-cases (o.reply_code == 20403)) [
    | inl absent ↦ rw (kept, absent) (object_cases p os response)
    | inr present ↦ inr (o, os, rw (kept, present), rw (kept, present), rw (kept))
  ]
]

end_of-ends : (r : Option Text) → got_row (end_of r) ≡ false
end_of-ends none = refl
end_of-ends (some text) = refl

-- The statement's result set is still to deliver this.
record Delivers (p : Platform) (s : Stmt) (xs : List (Option (List (Text × Text)))) (e : End)
    : Type 0 where
  response : List ObjectDescriptor
  map : List (Text × Text)
  has_objects : Has (objects (some response) map) s
  left : delivered p response ≡ xs
  end : end_of (refusal_in response) ≡ e

module _ (p : Platform) (md : RetsMetadata) where
  at_end :
      (s : Stmt) (m : Memory) (rs : ResultSet) (r : Option Text)
      → (fetch_next p md s m rs (next_at_end r)).end ≡ end_of r
  unfolding fetch_next
  at_end s m rs none = refl
  at_end s m rs (some text) = refl

  module _ (s : Stmt) (m : Memory) (response : List ObjectDescriptor) (map : List (Text × Text))
      (h : Has (objects (some response) map) s) where
    objects_end :
        (rest : List ObjectDescriptor)
        → next_object p response map ≡ ((rest, map), next_at_end (refusal_in response))
        → (sql_fetch p md s m).end ≡ end_of (refusal_in response)
    unfolding has_next has_no_rows
    objects_end rest e =
        rw
          (sql_fetch_lem p md s m _ (objects (some rest) map) (next_at_end (refusal_in response)) h
            refl (rw e))
          (at_end _ m _ (refusal_in response))

    object_found :
        (o : ObjectDescriptor) (rest : List ObjectDescriptor)
        → next_object p response map ≡ ((rest, response_map p o), found)
        → Has (objects (some rest) (response_map p o)) (sql_fetch p md s m).stmt
          × (got_row (sql_fetch p md s m).end ≡ true)
    unfolding has_next has_no_rows fetch_next process_next_row
    object_found o rest e =
        rw (sql_fetch_lem p md s m _ (objects (some rest) (response_map p o)) found h refl (rw e)) (
          fetched-Has p md
            (record s {
              errors = [];
              result_set = some (record {
                translator = h.translator;
                columns = h.columns;
                rows = objects (some rest) (response_map p o);
              });
              data_stream_info = reset;
            })
            m h.translator h.columns (objects (some rest) (response_map p o)) _ _)

  Delivers-stop :
      (s : Stmt) (m : Memory) (e : End) → Delivers p s [] e → (sql_fetch p md s m).end ≡ e
  Delivers-stop s m e d = elim (object_cases p d.response d.map) [
    | inl (none_left, (rest, next)) ↦
        objects_end s m d.response d.map d.has_objects rest next ∙ d.end
    | inr (o, rest, next, more, same) ↦ absurd (ground (arith, more, d.left))
  ]

  Delivers-step :
      (s : Stmt) (m : Memory) (x : Option (List (Text × Text)))
      (xs : List (Option (List (Text × Text)))) (e : End)
      → Delivers p s (x ∷ xs) e
      → Delivers p (sql_fetch p md s m).stmt xs e
        × (current_object (sql_fetch p md s m).stmt ≡ x)
        × (got_row (sql_fetch p md s m).end ≡ true)
  Delivers-step s m x xs e d = elim (object_cases p d.response d.map) [
    | inl (none_left, next) ↦ absurd (ground (arith, none_left, d.left))
    | inr (o, rest, next, more, same) ↦
        let (h', got) = object_found s m d.response d.map d.has_objects o rest next in
        let both : some (response_map p o) ∷ delivered p rest ≡ x ∷ xs = sym more ∙ d.left in
        (
          record {
            response = rest;
            map = response_map p o;
            has_objects = h';
            left = cc;
            end = ap end_of (sym same) ∙ d.end;
          },
          ap map_of h'.is_set ∙ cc,
          got,
        )
  ]

  -- A statement whose GetObject query has been executed, fetched from until SQLFetch gives no row,
  -- stands on the objects of the response in their order, those with reply code 20403 (no object
  -- found) left out, and stops before the first that the server refuses. The last call lets the
  -- refusal's text out as an exception if there is one, and gives SQL_NO_DATA if there is none. This
  -- is so for any binding of the columns and any errors in the conversions, if the client makes
  -- more calls than there are objects to deliver.
  pub read_by-objects :
      (s : Stmt) (m : Memory) (response : List ObjectDescriptor) (map : List (Text × Text))
      (fuel : ℕ)
      → Has (objects (some response) map) s
      → length (delivered p response) < fuel
      → read_by p md current_object fuel s m
        ≡ (delivered p response, some (end_of (refusal_in response)))
  read_by-objects s m response map fuel h lt =
      read_by-Ready p md current_object (Delivers p) Delivers-stop Delivers-step
        (delivered p response) fuel s m (end_of (refusal_in response))
        (end_of-ends (refusal_in response))
        (record { response = response; map = map; has_objects = h; left = refl; end = refl }) lt
