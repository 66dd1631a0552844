-- ===== src/OnDemand.antt =====
-- project/driver/src: what OnDemandResultSet and OnDemandObjectResultSet ask of librets when the next
-- row is wanted.
use ez_rets.Base.{
  ℕ, Bool, true, false, ◌&&◌, ◌||◌, List, [], ◌∷◌, Option, none, some, ◌==◌, leb, if◌then◌else◌,
  Text, codes, text_eq,
}
use ez_rets.Librets.{SearchResultSet, Reply, row, broken, ObjectDescriptor}
use ez_rets.Map.{get}
use ez_rets.Platform.{Platform}
use ez_rets.Translation.{Exception, raised}

-- What hasNext ends with.
pub data Next : Type 0 where
  found ended : Next
  raises : Exception → Next

abbrev pub next_of : Bool → Next
next_of true = found
next_of false = ended

abbrev read_reply : SearchResultSet → List Reply → SearchResultSet × Next
read_reply r [] = (record r { current = r.after_end }, ended)
read_reply r (row f ∷ rest) = (record r { pending = rest; current = f }, found)
read_reply r (broken e ∷ rest) = (record r { pending = rest }, raises (raised e))

-- OnDemandResultSet::hasNext; the results are NULL until the query has been executed
unfoldable pub search_next : Option SearchResultSet → Option SearchResultSet × Next
search_next none = (none, ended)
search_next (some r) = let (r', next) = read_reply r r.pending in (some r', next)

abbrev pub or_empty : Option Text → Text
or_empty none = []
or_empty (some t) = t

-- The columns of OnDemandObjectQuery.
abbrev pub object_key : Text
object_key = codes "object_key"

abbrev pub object_id : Text
object_id = codes "object_id"

abbrev pub mime_type : Text
mime_type = codes "mime_type"

abbrev pub object_description : Text
object_description = codes "description"

abbrev pub location_url : Text
location_url = codes "location_url"

abbrev pub raw_data : Text
raw_data = codes "raw_data"

-- The reply codes by which OnDemandObjectResultSet::hasNext ends with an exception.
unfoldable pub is_refusal : ℕ → Bool
is_refusal c = c == 20400 || (c == 20401 || (c == 20402 || (leb 20406 c && leb c 20414)))

-- mObjectResponseMap of an object
abbrev pub response_map : Platform → ObjectDescriptor → List (Text × Text)
response_map p o =
    (object_key, o.object_key)
    ∷ (object_id, p.print_int o.object_id)
    ∷ (mime_type, o.content_type)
    ∷ (object_description, o.description)
    ∷ (location_url, o.location_url)
    ∷ (raw_data, o.data_stream)
    ∷ []

-- mObjectResponseMap[name]; the empty entry that it adds for an unknown name is left out
unfoldable pub response_value : List (Text × Text) → Text → Text
unfolding get text_eq
response_value response name = or_empty (get text_eq name response)

-- The objects that are left, the map, and what hasNext ends with.
abbrev pub Objects : Type 0
Objects = List ObjectDescriptor × List (Text × Text)

-- OnDemandObjectResultSet::hasNext over the objects that NextObject has left
unfoldable pub next_object : Platform → List ObjectDescriptor → List (Text × Text) → Objects × Next
unfolding is_refusal
next_object p [] response = (([], response), ended)
next_object p (o ∷ rest) response =
    let skipped = next_object p rest response in
    if is_refusal o.reply_code
    then ((rest, response), raises (raised o.reply_text))
    else if o.reply_code == 20403
    then skipped
    else ((rest, response_map p o), found)
