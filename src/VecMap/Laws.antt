-- ===== src/VecMap/Laws.antt =====
-- What the three functions on a vector of pairs promise one another.
use photesthesis.Shared.{
  ◌≡◌, refl, ◌↔◌, ◌⊎◌, true, false, List, [], ◌∷◌, ◌++◌, none, some, arith, if◌then◌else◌,
  Bool-cases, inl, inr,
}
use photesthesis.Symbol.{Symbol, symbol_eq}
use photesthesis.Value.Equality.{symbol_eq_iff}
use photesthesis.VecMap.{vec_map_has, vec_map_get, vec_map_add}

module _ {ℓ} {V : Type ℓ} where
  -- A key is there exactly when it can be read.
  pub vec_map_has-get :
      (m : List (Symbol × V)) (k : Symbol) → (vec_map_has m k ≡ false) ↔ (vec_map_get m k ≡ none)
  unfolding vec_map_has vec_map_get
  vec_map_has-get [] k = ground arith
  vec_map_has-get (p ∷ m) k = ground (arith, vec_map_has-get m k)

  pub vec_map_get-append :
      (m : List (Symbol × V)) (k j : Symbol) (v : V)
      → vec_map_has m k ≡ false
      → vec_map_get (m ++ ((k, v) ∷ [])) j ≡ (if symbol_eq k j then some v else vec_map_get m j)
  unfolding vec_map_has vec_map_get
  vec_map_get-append [] k j v h = refl
  vec_map_get-append (p ∷ m) k j v h = ground (
    arith,
    vec_map_get-append m k j v,
    symbol_eq_iff p.0 k,
    symbol_eq_iff p.0 j,
    symbol_eq_iff k j,
  )

  -- An addition is refused exactly for a key at hand; else the new key reads its value and every other
  -- key what it read before.
  pub vec_map_get-add :
      (m : List (Symbol × V)) (k : Symbol) (v : V)
      → ((vec_map_add m k v ≡ none) × (vec_map_has m k ≡ true))
        ⊎ ((m' : List (Symbol × V)) × (vec_map_add m k v ≡ some m')
            × (vec_map_has m k ≡ false)
            × ((j : Symbol)
                → vec_map_get m' j ≡ (if symbol_eq k j then some v else vec_map_get m j)))
  unfolding vec_map_add
  vec_map_get-add m k v = elim (Bool-cases (vec_map_has m k)) [
    | inl old ↦ inl (rw old, old)
    | inr new ↦ inr (m ++ ((k, v) ∷ []), rw new, new, λ j. vec_map_get-append m k j v new)
  ]
