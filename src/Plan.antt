-- ===== src/Plan.antt =====
-- `Plan` of include/photesthesis/corpus.h and src/corpus.cpp: a named assignment of values to
-- parameters, with its order and the bytes that its hash is taken of.
pub mod Order
use photesthesis.Shared.{
  ℕ, Bool, true, false, ◌&&◌, List, [], ◌∷◌, ◌++◌, Option, none, some, length, ltb, ◌==◌, bool_eq,
  bool_lt, list_eq, if◌then◌else◌, codes, map,
}
use photesthesis.Shared.Order.{lex, pair_lt}
use photesthesis.Symbol.{Bytes, Symbol, symbol_eq, symbol_lt, string_lt}
use photesthesis.Value.{Value, bool, get_size, value_eq, value_lt}
use photesthesis.Value.Match.{head_symbol}
use photesthesis.VecMap.{vec_map_has, vec_map_get, vec_map_add}
use photesthesis.Text.Printer.{print_value}

abbrev pub Params : Type 0
Params = List (Symbol × Value)

abbrev pub ParamSpecs : Type 0
ParamSpecs = List (Symbol × Symbol)

pub record Plan : Type 0 where
  pub test_name : Symbol
  pub is_manual : Bool
  pub comments : List Bytes
  pub params : Params

-- The two constructors.
abbrev pub new_plan : Symbol → Bool → Plan
new_plan name manual = record { test_name = name; is_manual = manual; comments = []; params = [] }

abbrev pub plan_of_params : Symbol → Params → Plan
plan_of_params name ps = record { test_name = name; is_manual = false; comments = []; params = ps }

-- A hasher is the bytes that were added to it: the functions of util.h add texts, and a value is
-- printed on a stream of its own.
abbrev pub Hasher : Type 0
Hasher = Bytes

abbrev pub add_string_to_hash : Hasher → Bytes → Hasher
add_string_to_hash h s = h ++ s

unfoldable pub add_value_to_hash : Hasher → Value → Hasher
add_value_to_hash h v = add_string_to_hash h (print_value false v).0

unfoldable pub add_symbol_to_hash : Hasher → Symbol → Hasher
add_symbol_to_hash h s = add_string_to_hash h s

unfoldable pub add_key_value_to_hash : Hasher → Symbol → Value → Hasher
unfolding add_value_to_hash add_symbol_to_hash
add_key_value_to_hash h k v =
    add_value_to_hash (add_string_to_hash (add_symbol_to_hash h k) (codes "=")) v

unfoldable pub add_params_to_hash : Hasher → Params → Hasher
unfolding add_key_value_to_hash
add_params_to_hash h [] = h
add_params_to_hash h (p ∷ ps) = add_params_to_hash (add_key_value_to_hash h p.0 p.1) ps

-- `addToHash`. The comments do not take part.
unfoldable pub add_to_hash : Hasher → Plan → Hasher
unfolding add_params_to_hash
add_to_hash h p =
    add_params_to_hash
      (add_string_to_hash (add_value_to_hash (add_symbol_to_hash h p.test_name) (bool p.is_manual))
        (codes ":"))
      p.params

-- `getHashCode`, over the hash of the bundled library.
unfoldable pub get_hash_code : (Bytes → ℕ) → Plan → ℕ
unfolding add_to_hash
get_hash_code hash p = hash (add_to_hash [] p)

-- `getParamSpecs`: `none` is the exception of `headSymbol`.
unfoldable pub specs_of : Params → Option ParamSpecs
unfolding head_symbol
specs_of [] = some []
specs_of (p ∷ ps) = elim (head_symbol p.1) [
  | none ↦ none
  | some s ↦ (elim (specs_of ps) [ none ↦ none | some rest ↦ some ((p.0, s) ∷ rest) ])
]

unfoldable pub get_param_specs : Plan → Option ParamSpecs
unfolding specs_of
get_param_specs p = specs_of p.params

unfoldable pub add_param : Plan → Symbol → Value → Option Plan
unfolding vec_map_add
add_param p k v = elim (vec_map_add p.params k v) [
  | none ↦ none
  | some ps ↦ some (record p { params = ps })
]

unfoldable pub get_param : Plan → Symbol → Option Value
unfolding vec_map_get
get_param p k = vec_map_get p.params k

unfoldable pub has_param : Plan → Symbol → Bool
unfolding vec_map_has
has_param p k = vec_map_has p.params k

unfoldable pub add_comment : Plan → Bytes → Plan
add_comment p c = record p { comments = p.comments ++ (c ∷ []) }

-- The loop of `operator<` over two vectors of one length: `some` is an early return.
unfoldable pub compare_params : Params → Params → Option Bool
compare_params (p ∷ ps) (q ∷ qs) =
    if symbol_lt p.0 q.0
    then some true
    else if symbol_lt q.0 p.0
    then some false
    else if ltb (get_size p.1) (get_size q.1)
    then some true
    else if ltb (get_size q.1) (get_size p.1)
    then some false
    else compare_params ps qs
compare_params _ _ = none

-- `operator<` of the tied parameters and comments.
abbrev pub param_lt : Symbol × Value → Symbol × Value → Bool
param_lt = pair_lt symbol_lt value_lt

abbrev pub tie_lt : Plan → Plan → Bool
tie_lt a b = pair_lt (lex param_lt) (lex string_lt) (a.params, a.comments) (b.params, b.comments)

abbrev pub or_else : Option Bool → Bool → Bool
or_else none b = b
or_else (some a) b = a

unfoldable pub plan_lt : Plan → Plan → Bool
plan_lt a b =
    if symbol_lt a.test_name b.test_name
    then true
    else if symbol_lt b.test_name a.test_name
    then false
    else if bool_lt a.is_manual b.is_manual
    then true
    else if bool_lt b.is_manual a.is_manual
    then false
    else if ltb (length a.params) (length b.params)
    then true
    else if ltb (length b.params) (length a.params)
    then false
    else or_else (compare_params a.params b.params) (tie_lt a b)

-- `operator==`, of the tied members.
abbrev pub param_eq : Symbol × Value → Symbol × Value → Bool
param_eq p q = symbol_eq p.0 q.0 && value_eq p.1 q.1

abbrev pub string_eq : Bytes → Bytes → Bool
string_eq = list_eq (λ a b. a == b)

unfoldable pub plan_eq : Plan → Plan → Bool
plan_eq a b =
    symbol_eq a.test_name b.test_name
    && (bool_eq a.is_manual b.is_manual
        && (list_eq param_eq a.params b.params && list_eq string_eq a.comments b.comments))
