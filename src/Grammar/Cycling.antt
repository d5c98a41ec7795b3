-- ===== src/Grammar/Cycling.antt =====
-- The two functions `extendByCycling` of src/grammar.cpp: two sets are walked side by side, each from
-- its start again when it ends, until both have ended once. Both have the same loop.
pub mod Rounds
pub mod Laws
use photesthesis.Shared.{
  ℕ, zero, suc, ◌+◌, Bool, true, false, ◌&&◌, ◌||◌, List, [], ◌∷◌, ◌++◌, Option, none, some,
  if◌then◌else◌, length,
}
use photesthesis.Shared.Order.{lex}
use photesthesis.Shared.SetOf.{set_insert}
use photesthesis.Symbol.{Symbol}
use photesthesis.Value.{Value, value_lt}
use photesthesis.Plan.{Params, param_lt}

abbrev pub is_empty : {C : Type 0} → List C → Bool
is_empty [] = true
is_empty (x ∷ xs) = false

-- An iterator at its end goes back to the start.
abbrev pub restart : {C : Type 0} → List C → List C → List C
restart all [] = all
restart all (x ∷ xs) = x ∷ xs

module _ {A B : Type 0} (lt : A → A → Bool) (combine : A → B → A) (vecs : List A)
    (ext : List B) where
  -- The loop on fuel, from two iterators. `none` is fuel that ran out, or an iterator at an end.
  unfoldable pub cycle : ℕ → List A → List B → Bool → Bool → List A → Option (List A)
  cycle zero i j cycled_i cycled_j res = none
  cycle (suc n) (a ∷ i) (b ∷ j) cycled_i cycled_j res =
      let rest =
        cycle n (restart vecs i) (restart ext j) (cycled_i || is_empty i) (cycled_j || is_empty j)
          (set_insert lt (combine a b) res) in
      if cycled_i && cycled_j then some res else rest
  cycle (suc n) _ _ cycled_i cycled_j res = none

  -- With the assertions that neither set is empty, which `none` is too.
  unfoldable pub extend : Option (List A)
  unfolding cycle
  extend =
      if is_empty vecs
      then none
      else if is_empty ext
      then none
      else cycle (suc (length vecs + length ext)) vecs ext false false []

unfoldable pub extend_by_cycling : List (List Value) → List Value → Option (List (List Value))
unfolding extend
extend_by_cycling vecs ext = extend (lex value_lt) (λ vec v. vec ++ (v ∷ [])) vecs ext

unfoldable pub extend_params_by_cycling : List Params → Symbol → List Value → Option (List Params)
unfolding extend
extend_params_by_cycling params param ext =
    extend (lex param_lt) (λ ps v. ps ++ ((param, v) ∷ [])) params ext
