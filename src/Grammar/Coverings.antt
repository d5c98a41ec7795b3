-- ===== src/Grammar/Coverings.antt =====
-- `kPathCovering`, `kPathCoverings` and `populatePlansFromKPathCoverings` of src/grammar.cpp: values
-- that cover all the k-paths of a rule, and plans made of them.
use photesthesis.Shared.{ℕ, zero, suc, ◌+◌, List, [], ◌∷◌, map, if◌then◌else◌}
use photesthesis.Shared.Order.{lex}
use photesthesis.Shared.SetOf.{set_insert, set_insert_all}
use photesthesis.Symbol.{Symbol}
use photesthesis.Value.{Value, value_lt}
use photesthesis.Plan.{Params, ParamSpecs, Plan, param_lt, plan_lt, plan_of_params}
use photesthesis.Grammar.{
  Ref, Context, Grammar, Result, ok, error, assertion, out_of_fuel, ◌>>=◌, or_error, new_context,
  get_root_ref,
}
use photesthesis.Grammar.Cycling.{is_empty, extend_params_by_cycling}
use photesthesis.Grammar.Covering.{KPath, k_path_covering_or_minimal_expansion}
use photesthesis.Grammar.Paths.{generate_k_path_set}

-- The loop of `kPathCovering`, until no path is left. Where a round covers none the limit grows. A
-- round costs a unit of fuel.
unfoldable pub cover_paths :
    Grammar → ℕ → Ref → ℕ → ℕ → Context → List KPath → List Value → Result (List Value)
unfolding k_path_covering_or_minimal_expansion
cover_paths g zero root k depth_limit c paths res = error out_of_fuel
cover_paths g (suc n) root k depth_limit c paths res =
    let round =
      k_path_covering_or_minimal_expansion g depth_limit k (root ∷ []) c paths >>= λ found.
      let deeper = cover_paths g n root k (depth_limit + 1) found.1.0 found.1.1 res in
      let more =
        cover_paths g n root k depth_limit found.1.0 found.1.1
          (set_insert_all value_lt found.0.0 res) in
      if is_empty found.0.0 then deeper else more in
    if is_empty paths then ok res else round

unfoldable pub k_path_covering : Grammar → ℕ → Symbol → ℕ → ParamSpecs → Result (List Value)
unfolding cover_paths generate_k_path_set
k_path_covering g fuel rule k specs = do
  paths ← generate_k_path_set g fuel k rule specs
  root ← get_root_ref g rule
  cover_paths g fuel root k k (new_context specs) paths []

-- The first parameter's sets, one for each value.
unfoldable pub start_params : Symbol → List Value → List Params → List Params
start_params name [] res = res
start_params name (v ∷ vals) res =
    start_params name vals (set_insert (lex param_lt) ((name, v) ∷ []) res)

abbrev pub cover_param : Symbol → List Value → List Params → Result (List Params)
cover_param name vals [] = ok (start_params name vals [])
cover_param name vals (ps ∷ res) =
    or_error assertion (extend_params_by_cycling (ps ∷ res) name vals)

-- The loop of `kPathCoverings`.
unfoldable pub cover_specs :
    Grammar → ℕ → ℕ → ParamSpecs → ParamSpecs → List Params → Result (List Params)
unfolding k_path_covering start_params extend_params_by_cycling
cover_specs g fuel k specs [] res = ok res
cover_specs g fuel k specs (spec ∷ rest) res = do
  vals ← k_path_covering g fuel spec.1 k specs
  longer ← cover_param spec.0 vals res
  cover_specs g fuel k specs rest longer

unfoldable pub k_path_coverings : Grammar → ℕ → ℕ → ParamSpecs → Result (List Params)
unfolding cover_specs
k_path_coverings g fuel k specs = cover_specs g fuel k specs specs []

unfoldable pub populate_plans_from_k_path_coverings :
    Grammar → ℕ → Symbol → ParamSpecs → ℕ → Result (List Plan)
unfolding k_path_coverings
populate_plans_from_k_path_coverings g fuel name specs k = do
  sets ← k_path_coverings g fuel k specs
  ok (set_insert_all plan_lt (map (plan_of_params name) sets) [])
