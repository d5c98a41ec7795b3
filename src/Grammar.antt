-- ===== src/Grammar.antt =====
-- The data of include/photesthesis/grammar.h and src/grammar.cpp: atoms, productions, contexts, rules,
-- and which productions of a rule are active. An exception, a failed assertion and a call that C++
-- leaves undefined are results of their own.
pub mod Scope
pub mod Active
pub mod Cycling
pub mod Covering
pub mod Paths
pub mod Coverings
pub mod Naming
pub mod Random
pub mod Language
pub mod Complete
pub mod Progress
pub mod Populate
pub mod Examples
use photesthesis.Shared.{
  ℕ, zero, suc, Bool, true, false, not, ◌&&◌, ◌||◌, List, [], ◌∷◌, ◌++◌, Option, none, some,
  if◌then◌else◌, ◌==◌, any_of,
}
use mathlib.Core.List.{reverse}
use photesthesis.Shared.SetOf.{set_insert, set_insert_all}
use photesthesis.Shared.MapOf.{map_find, map_emplace}
use photesthesis.Symbol.{Symbol, symbol_eq, symbol_lt}
use photesthesis.Value.{Value}
use photesthesis.Plan.{ParamSpecs}
use photesthesis.VecMap.{vec_map_has}

-- A `Ref` on the heap, with the address that tells one from another.
pub record Ref : Type 0 where
  pub address : ℕ
  pub tag : ℕ
  pub rule_name : Symbol
  pub ctx_ext : List Symbol

pub data Atom : Type 0 where
  lit : ℕ → Value → Atom
  ref : Ref → Atom

-- The constructor takes the next tag; the address is the allocator's.
unfoldable pub make_ref : ℕ → ℕ → Symbol → Ref × ℕ
make_ref address s_tag rule =
    (record { address = address; tag = s_tag; rule_name = rule; ctx_ext = [] }, suc s_tag)

-- `addContext`.
unfoldable pub add_context : ℕ → ℕ → Symbol → Ref → Ref × ℕ
unfolding make_ref
add_context address s_tag ctx r =
    let made = make_ref address s_tag r.rule_name in
    (
      record (made.0) {
        ctx_ext = set_insert symbol_lt ctx (set_insert_all symbol_lt r.ctx_ext made.0.ctx_ext);
      },
      made.1,
    )

abbrev pub is_ref : Atom → Bool
is_ref (lit _ _) = false
is_ref (ref _) = true

pub record Production : Type 0 where
  pub ctx_req : List Symbol
  pub ctx_req_not : List Symbol
  pub atoms : List Atom
  pub has_refs : Bool

unfoldable pub new_production : List Atom → Production
new_production atoms = record {
  ctx_req = [];
  ctx_req_not = [];
  atoms = atoms;
  has_refs = any_of is_ref atoms;
}

-- `inContext` and `notInContext`.
unfoldable pub in_context : Symbol → Production → Production
in_context ctx prod = record prod { ctx_req = set_insert symbol_lt ctx prod.ctx_req }

unfoldable pub not_in_context : Symbol → Production → Production
not_in_context ctx prod = record prod { ctx_req_not = set_insert symbol_lt ctx prod.ctx_req_not }

pub record Context : Type 0 where
  pub global_specs : ParamSpecs
  pub local_names : List Symbol

abbrev pub new_context : ParamSpecs → Context
new_context specs = record { global_specs = specs; local_names = [] }

unfoldable pub push : Symbol → Context → Context
push s c = record c { local_names = c.local_names ++ (s ∷ []) }

unfoldable pub push_all : List Symbol → Context → Context
unfolding push
push_all [] c = c
push_all (s ∷ ss) c = push_all ss (push s c)

-- `pop_back`, which is not defined on an empty vector.
unfoldable pub pop_back {ℓ} : {A : Type ℓ} → List A → Option (List A)
pop_back [] = none
pop_back (x ∷ xs) = elim (pop_back xs) [ none ↦ some [] | some ys ↦ some (x ∷ ys) ]

abbrev pub with_names : Context → Option (List Symbol) → Option Context
with_names c none = none
with_names c (some names) = some (record c { local_names = names })

abbrev pub then_pop : (Context → Option Context) → Option Context → Option Context
then_pop f none = none
then_pop f (some c) = f c

unfoldable pub pop : ℕ → Context → Option Context
unfolding pop_back
pop zero c = some c
pop (suc n) c = then_pop (pop n) (with_names c (pop_back c.local_names))

unfoldable pub has : Context → Symbol → Bool
unfolding vec_map_has
has c s =
    if vec_map_has c.global_specs s
    then true
    else any_of (λ i. symbol_eq i s) (reverse c.local_names)

unfoldable pub has_all : Context → List Symbol → Bool
unfolding has
has_all c [] = true
has_all c (s ∷ ss) = if not (has c s) then false else has_all c ss

unfoldable pub has_none : Context → List Symbol → Bool
unfolding has
has_none c [] = true
has_none c (s ∷ ss) = if has c s then false else has_none c ss

pub record Grammar : Type 0 where
  pub rules : List (Symbol × List Production)
  pub root_refs : List (Symbol × Ref)

-- What is thrown or asserted, and the call that is not defined.
pub data GrammarError : Type 0 where
  duplicate_rule rule_not_found no_productions needs_nonterminal no_active : GrammarError
  unknown_rule depth_reached_zero empty_pick out_of_range assertion undefined out_of_fuel :
      GrammarError

pub data Result (A : Type 0) : Type 0 where
  ok : A → Result A
  error : GrammarError → Result A

infixl 5 ◌>>=◌ ◌>>◌
abbrev pub ◌>>=◌ : {A B : Type 0} → Result A → (A → Result B) → Result B
ok a >>= f = f a
error e >>= f = error e

abbrev pub ◌>>◌ : {B : Type 0} → Result (Unit {0}) → Result B → Result B
m >> k = m >>= λ _. k

abbrev pub assert : Bool → Result (Unit {0})
assert true = ok tt
assert false = error assertion

abbrev pub or_error : {A : Type 0} → GrammarError → Option A → Result A
or_error e none = error e
or_error e (some a) = ok a

-- `addRule`, with the address and the tag that its root reference takes.
unfoldable pub add_rule : ℕ → ℕ → Symbol → List Production → Grammar → Result (Grammar × ℕ)
unfolding make_ref
add_rule address s_tag name prods g = elim (map_find symbol_lt name g.rules) [
  | some _ ↦ error duplicate_rule
  | none ↦
      let made = make_ref address s_tag name in
      ok (
        record {
          rules = map_emplace symbol_lt name prods g.rules;
          root_refs = map_emplace symbol_lt name made.0 g.root_refs;
        },
        made.1,
      )
]

unfoldable pub get_root_ref : Grammar → Symbol → Result Ref
get_root_ref g rule = or_error unknown_rule (map_find symbol_lt rule g.root_refs)

abbrev pub not_empty : Option (List Production) → Result (List Production)
not_empty none = error rule_not_found
not_empty (some []) = error no_productions
not_empty (some (p ∷ ps)) = ok (p ∷ ps)

unfoldable pub get_productions : Grammar → Symbol → Result (List Production)
get_productions g rule = not_empty (map_find symbol_lt rule g.rules)

-- A production with a reference is passed over at the depth limit.
abbrev pub is_skipped : ℕ → Production → Bool
is_skipped depth_limit prod = (depth_limit == 1) && prod.has_refs

-- The loop of `getActiveProductions`.
unfoldable pub active_in : ℕ → Context → List Production → List Production
unfolding has_all has_none
active_in depth_limit c [] = []
active_in depth_limit c (prod ∷ prods) =
    if is_skipped depth_limit prod
    then active_in depth_limit c prods
    else if has_all c prod.ctx_req && has_none c prod.ctx_req_not
    then prod ∷ active_in depth_limit c prods
    else active_in depth_limit c prods

-- What follows the loop; the flag says that a production was skipped.
abbrev pub some_active : Bool → List Production → Result (List Production)
some_active true [] = error needs_nonterminal
some_active false [] = error no_active
some_active _ (p ∷ ps) = ok (p ∷ ps)

unfoldable pub get_active_productions : Grammar → Symbol → ℕ → Context → Result (List Production)
unfolding get_productions active_in
get_active_productions g rule depth_limit c = do
  prods ← get_productions g rule
  some_active (any_of (is_skipped depth_limit) prods) (active_in depth_limit c prods)
