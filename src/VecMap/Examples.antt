-- ===== src/VecMap/Examples.antt =====
-- The theorem on vectors of pairs at a concrete input.
use photesthesis.Shared.{◌≡◌, ◌⊎◌, true, false, ℕ, List, [], ◌∷◌, none, some, if◌then◌else◌, codes}
use photesthesis.Symbol.{Symbol, symbol_eq}
use photesthesis.VecMap.{vec_map_has, vec_map_get, vec_map_add}
use photesthesis.VecMap.Laws.{vec_map_get-add}

abbrev one_entry : List (Symbol × ℕ)
one_entry = (codes "a", 1) ∷ []

vec_map_get-add_example :
    ((vec_map_add one_entry (codes "b") 2 ≡ none) × (vec_map_has one_entry (codes "b") ≡ true))
    ⊎ ((m : List (Symbol × ℕ)) × (vec_map_add one_entry (codes "b") 2 ≡ some m)
        × (vec_map_has one_entry (codes "b") ≡ false)
        × ((j : Symbol)
            → vec_map_get m j
              ≡ (if symbol_eq (codes "b") j then some 2 else vec_map_get one_entry j)))
vec_map_get-add_example = vec_map_get-add one_entry (codes "b") 2
