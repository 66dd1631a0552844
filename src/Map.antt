-- ===== src/Map.antt =====
-- std::map, as its entries: at most one for a key. The key's equality is a parameter.
use ez_rets.Base.{
  ◌≡◌, refl, Bool, true, List, [], ◌∷◌, Option, none, some, arith, if◌then◌else◌, ◌↔◌,
}

module _ {ℓ κ} {K : Type ℓ} {V : Type κ} (eq : K → K → Bool) where
  -- map[key] = value
  unfoldable pub put : K → V → List (K × V) → List (K × V)
  put k v [] = (k, v) ∷ []
  put k v ((j, w) ∷ m) = if eq j k then (j, v) ∷ m else (j, w) ∷ put k v m

  -- map.find(key)
  unfoldable pub get : K → List (K × V) → Option V
  get k [] = none
  get k ((j, w) ∷ m) = if eq j k then some w else get k m

module _ {ℓ κ} {K : Type ℓ} {V : Type κ} (eq : K → K → Bool)
    (eq_iff : (j k : K) → (eq j k ≡ true) ↔ (j ≡ k)) where
  pub get-put :
      (k j : K) (v : V) (m : List (K × V))
      → get eq j (put eq k v m) ≡ (if eq k j then some v else get eq j m)
  unfolding get put
  get-put k j v [] = refl
  get-put k j v ((i, w) ∷ m) = ground (arith, get-put k j v m, eq_iff i k, eq_iff i j, eq_iff k j)
