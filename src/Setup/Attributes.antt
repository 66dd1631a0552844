-- ===== src/Setup/Attributes.antt =====
-- project/setup/src/Setup.cpp: proofs on the attributes of a request.
use ez_rets.Base.{
  ℕ, suc, ◌==◌, ◌≡◌, refl, sym, ap, ◌∙◌, inl, inr, Bool-cases, false, List, [], ◌∷◌, ◌++◌,
  append-nil, append_assoc, some, drop, take-append_self, length, Text, text_eq, is_empty, has,
  has-append, arith,
}
use ez_rets.Map.{put}
use ez_rets.Setup.Config.{find, name_value, att2map}

-- "foo=bar\0baz=lar\0\0", as the comment on att2map has it.
unfoldable pub written_attributes : List (Text × Text) → Text
written_attributes [] = 0 ∷ []
written_attributes ((name, value) ∷ m) = name ++ (b'=' ∷ (value ++ (0 ∷ written_attributes m)))

-- The assignments of the attributes, in their order.
unfoldable pub assigned : List (Text × Text) → List (Text × Text) → List (Text × Text)
unfolding put text_eq
assigned [] m = m
assigned ((name, value) ∷ rest) m = assigned rest (put text_eq name value m)

-- A name is without an equals sign, and neither it nor its value holds a terminator.
abbrev pub AreWritable : List (Text × Text) → Type 0
AreWritable [] = Unit
AreWritable ((name, value) ∷ m) =
    (has b'=' name ≡ false) × ((has 0 name ≡ false) × ((has 0 value ≡ false) × AreWritable m))

find-append :
    (name value : Text)
    → has b'=' name ≡ false
    → find b'=' (name ++ (b'=' ∷ value)) ≡ some (length name)
unfolding find has
find-append [] value h = refl
find-append (x ∷ name) value h = ground (arith, find-append name value)

drop-name : (name value : Text) (c : ℕ) → drop (suc (length name)) (name ++ (c ∷ value)) ≡ value
drop-name [] value c = refl
drop-name (x ∷ name) value c = drop-name name value c

name_value-append :
    (name value : Text)
    → has b'=' name ≡ false
    → name_value (name ++ (b'=' ∷ value)) (find b'=' (name ++ (b'=' ∷ value))) ≡ (name, value)
name_value-append name value h =
    rw (find-append name value h, take-append_self name (b'=' ∷ value), drop-name name value b'=')

att2map-next :
    (c : ℕ) (pair : Text) (m : List (Text × Text)) (rest : Text)
    → (c == 0) ≡ false
    → att2map pair m (c ∷ rest) ≡ att2map (pair ++ (c ∷ [])) m rest
unfolding att2map
att2map-next c pair m rest h = rw (h)

att2map-zero :
    (pair : Text) (m : List (Text × Text)) (rest name value : Text)
    → is_empty pair ≡ false
    → name_value pair (find b'=' pair) ≡ (name, value)
    → att2map pair m (0 ∷ rest) ≡ att2map [] (put text_eq name value m) rest
unfolding att2map
att2map-zero pair m rest name value full h = rw (full, h)

has-head : (c : ℕ) (u : Text) → has 0 (c ∷ u) ≡ false → ((c == 0) ≡ false) × (has 0 u ≡ false)
unfolding has
has-head c u h = elim (Bool-cases (c == 0)) [
  | inl e ↦ let bad = rw (e) at h in absurd cc
  | inr e ↦ (e, rw (e) at h)
]

-- Up to a terminator the characters are those of the pair.
att2map-pair :
    (u pair : Text) (m : List (Text × Text)) (rest : Text)
    → has 0 u ≡ false
    → att2map pair m (u ++ (0 ∷ rest)) ≡ att2map (pair ++ u) m (0 ∷ rest)
att2map-pair [] pair m rest h = rw (append-nil pair)
att2map-pair (c ∷ u) pair m rest h =
    let (here, later) = has-head c u h in
    att2map-next c pair m (u ++ (0 ∷ rest)) here
    ∙ (att2map-pair u (pair ++ (c ∷ [])) m rest later
        ∙ ap (λ t. att2map t m (0 ∷ rest)) (append_assoc pair (c ∷ []) u))

has-pair :
    (name value : Text)
    → has 0 name ≡ false
    → has 0 value ≡ false
    → has 0 (name ++ (b'=' ∷ value)) ≡ false
unfolding has
has-pair name value hn hv = rw (has-append 0 name (b'=' ∷ value), hn, hv)

pair-full : (name value : Text) → is_empty (name ++ (b'=' ∷ value)) ≡ false
pair-full [] value = refl
pair-full (x ∷ name) value = refl

att2map-attribute :
    (name value : Text) (m : List (Text × Text)) (rest : Text)
    → has b'=' name ≡ false
    → has 0 name ≡ false
    → has 0 value ≡ false
    → att2map [] m (name ++ (b'=' ∷ (value ++ (0 ∷ rest))))
      ≡ att2map [] (put text_eq name value m) rest
att2map-attribute name value m rest h hn hv =
    ap (att2map [] m) (sym (append_assoc name (b'=' ∷ value) (0 ∷ rest)))
    ∙ (att2map-pair (name ++ (b'=' ∷ value)) [] m rest (has-pair name value hn hv)
        ∙ att2map-zero (name ++ (b'=' ∷ value)) m rest name value (pair-full name value)
            (name_value-append name value h))

att2map-end : (m : List (Text × Text)) → att2map [] m (0 ∷ []) ≡ some m
unfolding att2map
att2map-end m = refl

-- The attributes that are written one after the other, each with its terminator and with one more
-- at the end, are read to the end of the text as the assignments of their values, in their order,
-- where no name has an equals sign and no name and no value has a terminator.
pub att2map-written_attributes :
    (l m : List (Text × Text))
    → AreWritable l
    → att2map [] m (written_attributes l) ≡ some (assigned l m)
unfolding written_attributes assigned
att2map-written_attributes [] m h = att2map-end m
att2map-written_attributes ((name, value) ∷ l) m (h, (hn, (hv, rest))) =
    att2map-attribute name value m (written_attributes l) h hn hv
    ∙ att2map-written_attributes l (put text_eq name value m) rest
