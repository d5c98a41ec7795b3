-- ===== src/Shared/MapOf.antt =====
-- `std::map` as a list of entries, sorted by an `operator<` on the keys.
use photesthesis.Shared.{
  ◌≡◌, refl, Bool, true, List, [], ◌∷◌, Option, none, some, arith, if◌then◌else◌, All, All-imp,
}
use photesthesis.Shared.Order.{IsWeakOrder, lt_trans}
use photesthesis.Shared.SetOf.{equiv}

module _ {ℓ κ} {K : Type ℓ} {V : Type κ} where
  -- The keys increase.
  abbrev pub HasSortedKeys : (K → K → Bool) → List (K × V) → Type (ℓ ⊔ κ)
  HasSortedKeys lt [] = Unit
  HasSortedKeys lt (e ∷ m) = All (λ d. lt e.0 d.0 ≡ true) m × HasSortedKeys lt m

  -- `find(k)`.
  unfoldable pub map_find : (K → K → Bool) → K → List (K × V) → Option V
  map_find lt k [] = none
  map_find lt k ((j, v) ∷ m) = if lt j k then map_find lt k m else if lt k j then none else some v

  -- `m[k] = v`.
  unfoldable pub map_set : (K → K → Bool) → K → V → List (K × V) → List (K × V)
  map_set lt k v [] = (k, v) ∷ []
  map_set lt k v ((j, w) ∷ m) =
      if lt j k
      then (j, w) ∷ map_set lt k v m
      else if lt k j
      then (k, v) ∷ (j, w) ∷ m
      else (j, v) ∷ m

  -- `emplace(k, v)`: a key at hand keeps its value.
  unfoldable pub map_emplace : (K → K → Bool) → K → V → List (K × V) → List (K × V)
  map_emplace lt k v [] = (k, v) ∷ []
  map_emplace lt k v ((j, w) ∷ m) =
      if lt j k
      then (j, w) ∷ map_emplace lt k v m
      else if lt k j
      then (k, v) ∷ (j, w) ∷ m
      else (j, w) ∷ m

  module _ {lt : K → K → Bool} (o : IsWeakOrder lt) where
    All-map_set :
        (P : K → Type 0) (k : K) (v : V) (m : List (K × V))
        → P k
        → All (λ e. P e.0) m
        → All (λ e. P e.0) (map_set lt k v m)
    unfolding map_set
    All-map_set P k v [] p h = (p, tt)
    All-map_set P k v ((j, w) ∷ m) p h = ground (arith, All-map_set P k v m p)

    above_key :
        (k j : K) (m : List (K × V))
        → lt k j ≡ true
        → All (λ d. lt j d.0 ≡ true) m
        → All (λ d. lt k d.0 ≡ true) m
    above_key k j m h all = All-imp (λ d q. lt_trans o k j d.0 h q) m all

    pub map_set-HasSortedKeys :
        (k : K) (v : V) (m : List (K × V))
        → HasSortedKeys lt m
        → HasSortedKeys lt (map_set lt k v m)
    unfolding map_set
    map_set-HasSortedKeys k v [] s = (tt, tt)
    map_set-HasSortedKeys k v ((j, w) ∷ m) s = ground (
      arith,
      map_set-HasSortedKeys k v m s.1,
      All-map_set (λ i. lt j i ≡ true) k v m,
      above_key k j m,
    )

    -- A key reads what was last stored under an equivalent one.
    pub map_find-map_set :
        (k j : K) (v : V) (m : List (K × V))
        → map_find lt j (map_set lt k v m) ≡ (if equiv lt k j then some v else map_find lt j m)
    unfolding map_find map_set
    map_find-map_set k j v [] = ground arith
    map_find-map_set k j v ((i, w) ∷ m) = ground (
      arith,
      map_find-map_set k j v m,
      o.asym k i,
      o.asym k j,
      o.asym j i,
      o.cotrans k j i,
      o.cotrans k i j,
      o.cotrans j k i,
      o.cotrans j i k,
      o.cotrans i k j,
      o.cotrans i j k,
    )

  -- `emplace` of a key that is not at hand stores it.
  pub map_emplace-map_set :
      (lt : K → K → Bool) (k : K) (v : V) (m : List (K × V))
      → map_find lt k m ≡ none
      → map_emplace lt k v m ≡ map_set lt k v m
  unfolding map_find map_set map_emplace
  map_emplace-map_set lt k v [] h = refl
  map_emplace-map_set lt k v ((j, w) ∷ m) h = ground (arith, map_emplace-map_set lt k v m)

  -- `emplace` of a key at hand changes nothing.
  pub map_emplace-same :
      (lt : K → K → Bool) (k : K) (v w : V) (m : List (K × V))
      → map_find lt k m ≡ some w
      → map_emplace lt k v m ≡ m
  unfolding map_find map_emplace
  map_emplace-same lt k v w [] h = absurd (cc h)
  map_emplace-same lt k v w ((j, x) ∷ m) h = ground (arith, map_emplace-same lt k v w m)
