-- ===== src/Grammar/Examples.antt =====
-- The theorems on the grammar at concrete inputs.
use photesthesis.Shared.{
  ℕ, zero, suc, ◌≡◌, ◌⊎◌, ◌↔◌, refl, Bool, true, false, List, [], ◌∷◌, ◌++◌, none, some, In, here,
  there, arith, codes, subst, sym as path_sym, ap, any_of, ◌≤◌, if◌then◌else◌,
}
use photesthesis.Shared.Ints.{pos}
use photesthesis.Shared.Order.{lex}
use photesthesis.Shared.MapOf.{map_find}
use photesthesis.Symbol.{Symbol, symbol_lt}
use photesthesis.Value.{Value, int64}
use photesthesis.Plan.{Params}
use photesthesis.Grammar.{
  is_ref, Atom, Ref, Production, Grammar, Context, error, rule_not_found, no_productions, lit, ref,
  new_context, push_all, pop, get_active_productions, has,
}
use photesthesis.Grammar.Scope.{InScope, has_iff, pop-push_all}
use photesthesis.Grammar.Active.{Selects, get_active_productions_lem}
use photesthesis.Grammar.Random.{random_value_from_rule}
use photesthesis.Grammar.Language.{Derives, Yields, random_value_from_rule-Derives}
use photesthesis.Grammar.Complete.{HasRule, IsComplete, some-injective, true-is_not-false}
use photesthesis.Grammar.Progress.{Succeeds, random_value_from_rule-Succeeds}
use photesthesis.Grammar.Cycling.{extend_by_cycling, extend_params_by_cycling}
use photesthesis.Grammar.Cycling.Laws.{
  AreExtensions, extend_by_cycling_lem, extend_params_by_cycling_lem,
}
use photesthesis.Grammar.Covering.{KPath}
use photesthesis.Plan.{ParamSpecs}
use photesthesis.Grammar.{ok}
use photesthesis.Grammar.Random.{randomly_populate_plan}
use photesthesis.Grammar.Populate.{ArePopulated, randomly_populate_plan-ArePopulated}

-- A number is 0, or the successor of a number.
abbrev number : Symbol
number = codes "n"

abbrev again : Ref
again = record { address = 2; tag = 1; rule_name = number; ctx_ext = codes "c" ∷ [] }

abbrev finish : Production
finish = record {
  ctx_req = [];
  ctx_req_not = [];
  atoms = lit 1 (int64 (pos 0)) ∷ [];
  has_refs = false;
}

abbrev continue : Production
continue = record { ctx_req = []; ctx_req_not = []; atoms = ref again ∷ []; has_refs = true }

abbrev numbers : Grammar
numbers = record {
  rules = (number, continue ∷ finish ∷ []) ∷ [];
  root_refs = (number, record { address = 3; tag = 2; rule_name = number; ctx_ext = [] }) ∷ [];
}

abbrev no_context : Context
no_context = new_context []

-- A generator that counts.
abbrev counter : ℕ → ℕ → ℕ × ℕ
counter zero gen = (0, suc gen)
counter (suc n) gen = (suc n, suc gen)

pop-push_all_example : pop 1 (push_all (number ∷ []) no_context) ≡ some no_context
pop-push_all_example = pop-push_all (number ∷ []) no_context

has_iff_example : (has no_context number ≡ true) ↔ InScope no_context number
has_iff_example = has_iff no_context number

get_active_productions_lem_example :
    ((map_find symbol_lt number numbers.rules ≡ none)
      × (get_active_productions numbers number 1 no_context ≡ error rule_not_found))
    ⊎ ((map_find symbol_lt number numbers.rules ≡ some [])
        × (get_active_productions numbers number 1 no_context ≡ error no_productions))
    ⊎ ((prods : List Production) × (map_find symbol_lt number numbers.rules ≡ some prods)
        × Selects 1 no_context prods (get_active_productions numbers number 1 no_context))
get_active_productions_lem_example = get_active_productions_lem numbers number 1 no_context

random_value_from_rule-Derives_example :
    Yields
      (λ (made : Value × (ℕ × Context)).
        (made.1.1 ≡ no_context) × Derives numbers no_context number 3 made.0)
      (random_value_from_rule counter numbers 3 number 0 no_context)
random_value_from_rule-Derives_example =
    random_value_from_rule-Derives counter numbers 3 number 0 no_context

abbrev two_productions : List Production
two_productions = continue ∷ finish ∷ []

only_rule :
    (rule : Symbol) (prods : List Production)
    → map_find symbol_lt rule numbers.rules ≡ some prods
    → prods ≡ two_productions
unfolding map_find
only_rule rule prods h = pick (symbol_lt number rule) (symbol_lt rule number) h
  where
    pick :
        (a b : Bool)
        → (if a then none else if b then none else some two_productions) ≡ some prods
        → prods ≡ two_productions
    pick true b q = cc
    pick false true q = cc
    pick false false q = path_sym (some-injective q)

rule_of : Atom → Symbol
rule_of (lit _ _) = []
rule_of (ref r) = r.rule_name

number_found : map_find symbol_lt number numbers.rules ≡ some two_productions
unfolding map_find symbol_lt lex
number_found = refl

refers : (r : Ref) → In (ref r) (ref again ∷ []) → HasRule numbers r.rule_name
unfolding rule_of
refers r (here e) = (
  two_productions,
  subst (λ s. map_find symbol_lt s numbers.rules ≡ some two_productions) (path_sym (ap rule_of e))
      number_found,
)
refers r (there m) = elim m [ ]

no_refs : (r : Ref) → In (ref r) (lit 1 (int64 (pos 0)) ∷ []) → HasRule numbers r.rule_name
no_refs r (here e) = elim (true-is_not-false (ap is_ref e)) [ ]
no_refs r (there m) = elim m [ ]

IsFit : Production → Type 0
IsFit p =
    ((a : Atom) × (rest : List Atom) × (p.atoms ≡ a ∷ rest))
    × (p.has_refs ≡ any_of is_ref p.atoms)
    × ((r : Ref) → In (ref r) p.atoms → HasRule numbers r.rule_name)

fit : (p : Production) → In p two_productions → IsFit p
unfolding IsFit
fit p (here e) = subst IsFit (path_sym e) ((ref again, [], refl), refl, refers)
fit p (there (here e)) = subst IsFit (path_sym e) ((lit 1 (int64 (pos 0)), [], refl), refl, no_refs)
fit p (there (there m)) = elim m [ ]

numbers-IsComplete : IsComplete numbers
unfolding IsFit
numbers-IsComplete = record {
  finishing = λ rule prods h. (
    finish,
    subst (In finish) (path_sym (only_rule rule prods h)) (there (here refl)),
    refl,
    refl,
    refl,
  );
  productions = λ rule prods p h m. fit p (subst (In p) (only_rule rule prods h) m);
}

counter-IsUniform : (n : ℕ) (gen : ℕ) → (counter n gen).0 ≤ n
counter-IsUniform zero gen = omega arith
counter-IsUniform (suc n) gen = omega arith

random_value_from_rule-Succeeds_example : Succeeds counter numbers 3 number 0 no_context
random_value_from_rule-Succeeds_example =
    random_value_from_rule-Succeeds counter counter-IsUniform numbers numbers-IsComplete 2 number
      (two_productions, number_found) 0 no_context

extend_by_cycling_lem_example :
    (out : List (List Value)) × (extend_by_cycling ([] ∷ []) (int64 (pos 0) ∷ int64 (pos 1) ∷ [])
      ≡ some out)
    × AreExtensions
        (λ (vec : List Value) w. vec ++ (w ∷ []))
        ([] ∷ [])
        (int64 (pos 0) ∷ int64 (pos 1) ∷ [])
        out
extend_by_cycling_lem_example = extend_by_cycling_lem [] [] (int64 (pos 0)) (int64 (pos 1) ∷ [])

extend_params_by_cycling_lem_example :
    (out : List Params) × (extend_params_by_cycling
        ([] ∷ [])
        number
        (int64 (pos 0) ∷ int64 (pos 1) ∷ [])
      ≡ some out)
    × AreExtensions
        (λ (ps : Params) w. ps ++ ((number, w) ∷ []))
        ([] ∷ [])
        (int64 (pos 0) ∷ int64 (pos 1) ∷ [])
        out
extend_params_by_cycling_lem_example =
    extend_params_by_cycling_lem number [] [] (int64 (pos 0)) (int64 (pos 1) ∷ [])

abbrev one_path : List KPath
one_path = (ref again ∷ ref again ∷ []) ∷ []

abbrev one_spec : ParamSpecs
one_spec = (codes "p", number) ∷ []

randomly_populate_plan-ArePopulated_example :
    (made : Params) × (gen' : ℕ) × (randomly_populate_plan counter numbers number one_spec 0 3
      ≡ ok (record { test_name = number; is_manual = false; comments = []; params = made }, gen'))
    × ArePopulated numbers (new_context one_spec) 3 one_spec made
randomly_populate_plan-ArePopulated_example =
    randomly_populate_plan-ArePopulated counter counter-IsUniform numbers numbers-IsComplete 2
      number one_spec ((two_productions, number_found), tt) (tt, tt) 0
