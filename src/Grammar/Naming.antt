-- ===== src/Grammar/Naming.antt =====
-- The names of the plans that `randomlyPopulatePlan` and `populatePlansFromKPathCoverings` make.
use photesthesis.Shared.{ℕ, ◌≡◌, refl, subst, false, List, [], ◌∷◌, Option, none, some, map, All}
use photesthesis.Shared.SetOf.{All-set_insert_all}
use photesthesis.Symbol.{Symbol}
use photesthesis.VecMap.{vec_map_add}
use photesthesis.Value.{Value}
use photesthesis.Plan.{Plan, Params, ParamSpecs, plan_lt, plan_of_params, add_param, new_plan}
use photesthesis.Grammar.{Grammar, Result, ok, error, or_error, assertion, ◌>>=◌, new_context}
use photesthesis.Grammar.Random.{populate_params, randomly_populate_plan, random_value_from_rule}
use photesthesis.Grammar.Coverings.{k_path_coverings, populate_plans_from_k_path_coverings}

-- What holds of a result that is no error.
abbrev pub IfOk : {A : Type 0} → (A → Type 0) → Result A → Type 0
IfOk P (ok a) = P a
IfOk P (error e) = Unit

pub then-IfOk :
    {A B : Type 0} (Q : B → Type 0) (r : Result A) (f : A → Result B)
    → ((a : A) → r ≡ ok a → IfOk Q (f a))
    → IfOk Q (r >>= f)
then-IfOk Q (ok a) f h = h a refl
then-IfOk Q (error e) f h = tt

abbrev pub HasName : Symbol → Plan → Type 0
HasName name p = p.test_name ≡ name

add_param-HasName :
    (p : Plan) (k : Symbol) (v : Value) (added : Plan)
    → or_error assertion (add_param p k v) ≡ ok added
    → HasName p.test_name added
unfolding add_param
add_param-HasName p k v added = go (vec_map_add p.params k v)
  where
    go :
        (ps : Option Params)
        → or_error assertion (elim ps as (λ _. Option Plan) [
          | none ↦ none
          | some qs ↦ some (record p { params = qs })
        ])
          ≡ ok added
        → HasName p.test_name added
    go none h = absurd (cc h)
    go (some qs) h = subst (λ r. IfOk (HasName p.test_name) r) h refl

populate_params-HasName :
    {Gen : Type 0} (uniform : ℕ → Gen → ℕ × Gen) (g : Grammar) (d : ℕ) (specs rest : ParamSpecs)
    (gen : Gen) (p : Plan)
    → IfOk (λ made. HasName p.test_name made.0) (populate_params uniform g d specs rest gen p)
unfolding populate_params
populate_params-HasName uniform g d specs [] gen p = refl
populate_params-HasName uniform g d specs (spec ∷ rest) gen p =
    then-IfOk _ (random_value_from_rule uniform g d spec.1 gen (new_context specs)) _ λ made e.
      then-IfOk _ (or_error assertion (add_param p spec.0 made.0)) _ λ added e'.
        subst
          (λ n. IfOk (λ q. HasName n q.0) (populate_params uniform g d specs rest made.1.0 added))
          (add_param-HasName p spec.0 made.0 added e')
          (populate_params-HasName uniform g d specs rest made.1.0 added)

pub randomly_populate_plan-HasName :
    {Gen : Type 0} (uniform : ℕ → Gen → ℕ × Gen) (g : Grammar) (name : Symbol) (specs : ParamSpecs)
    (gen : Gen) (d : ℕ)
    → IfOk (λ made. HasName name made.0) (randomly_populate_plan uniform g name specs gen d)
unfolding randomly_populate_plan
randomly_populate_plan-HasName uniform g name specs gen d =
    populate_params-HasName uniform g d specs specs gen (new_plan name false)

named_plans :
    (name : Symbol) (sets : List Params) → All (HasName name) (map (plan_of_params name) sets)
named_plans name [] = tt
named_plans name (ps ∷ sets) = (refl, named_plans name sets)

pub populate_plans-HaveName :
    (g : Grammar) (fuel : ℕ) (name : Symbol) (specs : ParamSpecs) (k : ℕ)
    → IfOk (All (HasName name)) (populate_plans_from_k_path_coverings g fuel name specs k)
unfolding populate_plans_from_k_path_coverings
populate_plans-HaveName g fuel name specs k =
    then-IfOk _ (k_path_coverings g fuel k specs) _ λ sets e.
      All-set_insert_all plan_lt (HasName name) (map (plan_of_params name) sets) []
        (named_plans name sets) tt
