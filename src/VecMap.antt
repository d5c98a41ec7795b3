-- ===== src/VecMap.antt =====
-- `vecMapHas`, `vecMapGet` and `vecMapAdd` of include/photesthesis/util.h: a vector of pairs with
-- symbols for keys, in the order of insertion.
pub mod Laws
pub mod Examples
use photesthesis.Shared.{Bool, true, false, List, [], ◌∷◌, ◌++◌, Option, none, some, if◌then◌else◌}
use photesthesis.Symbol.{Symbol, symbol_eq}

module _ {ℓ} {V : Type ℓ} where
  unfoldable pub vec_map_has : List (Symbol × V) → Symbol → Bool
  vec_map_has [] k = false
  vec_map_has (p ∷ m) k = if symbol_eq p.0 k then true else vec_map_has m k

  -- `none` is the exception for an unknown key.
  unfoldable pub vec_map_get : List (Symbol × V) → Symbol → Option V
  vec_map_get [] k = none
  vec_map_get (p ∷ m) k = if symbol_eq p.0 k then some p.1 else vec_map_get m k

  -- `none` is the failed assertion on a key at hand.
  unfoldable pub vec_map_add : List (Symbol × V) → Symbol → V → Option (List (Symbol × V))
  unfolding vec_map_has
  vec_map_add m k v = if vec_map_has m k then none else some (m ++ ((k, v) ∷ []))
