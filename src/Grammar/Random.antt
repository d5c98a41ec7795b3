-- ===== src/Grammar/Random.antt =====
-- `pickUniform` of util.h on a vector, and `randomValueFromRule` and `randomlyPopulatePlan` of
-- src/grammar.cpp, over the generator and the distribution of the standard library.
use photesthesis.Shared.{ℕ, zero, suc, Bool, true, false, ◌&&◌, List, [], ◌∷◌, ◌++◌, length}
use photesthesis.Symbol.{Symbol}
use photesthesis.Value.{Value, pair, sym, of_list}
use photesthesis.Value.Match.{any, is_sym, match_value}
use photesthesis.Plan.{Plan, ParamSpecs, new_plan, add_param}
use photesthesis.Grammar.{
  Production, Atom, lit, ref, Context, Grammar, Result, ok, error, empty_pick, out_of_range,
  depth_reached_zero, assertion, undefined, ◌>>=◌, ◌>>◌, assert, or_error, new_context, push_all,
  pop, get_active_productions,
}

-- `at`, which throws behind the last element.
unfoldable pub at : {A : Type 0} → ℕ → List A → Result A
at n [] = error out_of_range
at zero (x ∷ xs) = ok x
at (suc n) (x ∷ xs) = at n xs

abbrev pub is_pair : Value → Bool
is_pair (pair _ _) = true
is_pair _ = false

-- The two assertions on the value of a reference.
unfoldable pub begins_with : Symbol → Value → Bool
begins_with rule v = is_pair v && (match_value (is_sym rule ∷ any ∷ []) v).1

-- `uniform n` draws a number from 0 to `n`.
module _ {Gen : Type 0} (uniform : ℕ → Gen → ℕ × Gen) where
  unfoldable pub pick_uniform : {A : Type 0} → Gen → List A → Result (A × Gen)
  unfolding at
  pick_uniform gen [] = error empty_pick
  pick_uniform gen (x ∷ xs) =
      let drawn = uniform (length xs) gen in do picked ← at drawn.0 (x ∷ xs); ok (picked, drawn.1)

  -- The loop over the atoms, where `value` expands a reference.
  unfoldable pub expand_atoms :
      (Symbol → Gen → Context → Result (Value × (Gen × Context)))
      → List Atom
      → Gen
      → Context
      → List Value
      → Result (List Value × (Gen × Context))
  unfolding begins_with push_all pop
  expand_atoms value [] gen c vals = ok (vals, (gen, c))
  expand_atoms value (lit _ v ∷ atoms) gen c vals =
      expand_atoms value atoms gen c (vals ++ (v ∷ []))
  expand_atoms value (ref r ∷ atoms) gen c vals = do
    made ← value r.rule_name gen (push_all r.ctx_ext c)
    assert (begins_with r.rule_name made.0)
    popped ← or_error undefined (pop (length r.ctx_ext) made.1.1)
    expand_atoms value atoms made.1.0 popped (vals ++ (made.0 ∷ []))

  -- The elements of the value, the name of the rule first; without productions it stands alone.
  unfoldable pub expand_one :
      (Symbol → Gen → Context → Result (Value × (Gen × Context)))
      → Symbol
      → List Production
      → Gen
      → Context
      → Result (List Value × (Gen × Context))
  unfolding pick_uniform expand_atoms
  expand_one value rule [] gen c = ok (sym rule ∷ [], (gen, c))
  expand_one value rule (p ∷ ps) gen c = do
    picked ← pick_uniform gen (p ∷ ps)
    expand_atoms value picked.0.atoms picked.1 c (sym rule ∷ [])

  unfoldable pub random_value_from_rule :
      Grammar → ℕ → Symbol → Gen → Context → Result (Value × (Gen × Context))
  unfolding expand_one
  random_value_from_rule g zero rule gen c = error depth_reached_zero
  random_value_from_rule g (suc d) rule gen c = do
    prods ← get_active_productions g rule (suc d) c
    vals ← expand_one (random_value_from_rule g d) rule prods gen c
    ok (of_list vals.0, vals.1)

  -- The loop of `randomlyPopulatePlan`: each parameter has a context of its own.
  unfoldable pub populate_params :
      Grammar → ℕ → ParamSpecs → ParamSpecs → Gen → Plan → Result (Plan × Gen)
  unfolding random_value_from_rule add_param
  populate_params g depth_lim specs [] gen p = ok (p, gen)
  populate_params g depth_lim specs (spec ∷ rest) gen p = do
    made ← random_value_from_rule g depth_lim spec.1 gen (new_context specs)
    added ← or_error assertion (add_param p spec.0 made.0)
    populate_params g depth_lim specs rest made.1.0 added

  unfoldable pub randomly_populate_plan :
      Grammar → Symbol → ParamSpecs → Gen → ℕ → Result (Plan × Gen)
  unfolding populate_params
  randomly_populate_plan g name specs gen depth_lim =
      populate_params g depth_lim specs specs gen (new_plan name false)
