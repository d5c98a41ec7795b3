-- ===== src/Plan/Order.antt =====
-- `operator<` of plans is a strict total order, and `operator==` decides equality.
use photesthesis.Shared.{
  ◌≡◌, refl, subst, sym as path_sym, ◌↔◌, ap, Bool, true, false, List, [], ◌∷◌, Option, none, some,
  arith, length, ltb, bool_lt, if◌then◌else◌, list_eq_iff, bool_eq_iff, ==_iff,
}
use mathlib.Core.Path.{fun_ext}
use photesthesis.Shared.Order.{
  IsWeakOrder, IsConnected, IsTotalOrder, lex, lex-IsWeakOrder, ltb-IsTotalOrder,
  bool_lt-IsTotalOrder, pair_lt-IsWeakOrder, pair_lt-IsConnected, lex-IsConnected,
}
use photesthesis.Shared.Compose.{
  by, by-IsWeakOrder, then_by, then_by-IsWeakOrder, then_by_unordered,
}
use photesthesis.Symbol.{Bytes, Symbol, symbol_lt}
use photesthesis.Value.{Value, get_size}
use photesthesis.Value.Equality.{symbol_eq_iff, value_eq_iff}
use photesthesis.Value.Order.{symbol_lt-IsTotalOrder, string_lt-IsTotalOrder, value_lt-IsTotalOrder}
use photesthesis.Plan.{
  Params, Plan, compare_params, param_lt, tie_lt, or_else, plan_lt, param_eq, plan_eq, string_eq,
}

-- One pair of the loop: the names, then the sizes.
abbrev size_lt : Symbol × Value → Symbol × Value → Bool
size_lt = then_by {A = Symbol × Value} (by (λ p. p.0) symbol_lt) (by (λ p. get_size p.1) ltb)

size_lt-IsWeakOrder : IsWeakOrder size_lt
size_lt-IsWeakOrder =
    then_by-IsWeakOrder {A = Symbol × Value} _ _
      (by-IsWeakOrder (λ p. p.0) symbol_lt-IsTotalOrder.weak)
      (by-IsWeakOrder (λ p. get_size p.1) ltb-IsTotalOrder.weak)

abbrev decide_by {ℓ} : {A : Type ℓ} → (A → A → Bool) → A → A → Option Bool
decide_by lt a b = if lt a b then some true else if lt b a then some false else none

-- Over vectors of one length the loop decides as a lexicographic order does.
compare_params-lex :
    (ps qs : Params) → length ps ≡ length qs → compare_params ps qs ≡ decide_by (lex size_lt) ps qs
unfolding compare_params lex
compare_params-lex [] [] h = refl
compare_params-lex [] (q ∷ qs) h = absurd (omega arith)
compare_params-lex (p ∷ ps) [] h = absurd (omega arith)
compare_params-lex (p ∷ ps) (q ∷ qs) h = ground (
  arith,
  compare_params-lex ps qs,
  size_lt-IsWeakOrder.asym p q,
  symbol_lt-IsTotalOrder.asym p.0 q.0,
)

param_lt-IsWeakOrder : IsWeakOrder {A = Symbol × Value} param_lt
param_lt-IsWeakOrder = pair_lt-IsWeakOrder symbol_lt-IsTotalOrder.weak value_lt-IsTotalOrder.weak

tie_lt-IsWeakOrder : IsWeakOrder tie_lt
tie_lt-IsWeakOrder =
    by-IsWeakOrder {B = Params × List Bytes} (λ p. (p.params, p.comments))
      (pair_lt-IsWeakOrder (lex-IsWeakOrder param_lt-IsWeakOrder)
        (lex-IsWeakOrder string_lt-IsTotalOrder.weak))

-- The comparisons that the early returns make, and the order in which they ask.
abbrev by_name : Plan → Plan → Bool
by_name = by (λ p. p.test_name) symbol_lt

abbrev by_manual : Plan → Plan → Bool
by_manual = by (λ p. p.is_manual) bool_lt

abbrev by_count : Plan → Plan → Bool
by_count = by (λ p. length p.params) ltb

abbrev by_sizes : Plan → Plan → Bool
by_sizes = by (λ p. p.params) (lex size_lt)

abbrev from_sizes : Plan → Plan → Bool
from_sizes = then_by by_sizes tie_lt

abbrev from_count : Plan → Plan → Bool
from_count = then_by by_count from_sizes

abbrev from_manual : Plan → Plan → Bool
from_manual = then_by by_manual from_count

abbrev in_turn : Plan → Plan → Bool
in_turn = then_by by_name from_manual

in_turn-IsWeakOrder : IsWeakOrder in_turn
in_turn-IsWeakOrder =
    then_by-IsWeakOrder _ _ (by-IsWeakOrder (λ p. p.test_name) symbol_lt-IsTotalOrder.weak) (
      then_by-IsWeakOrder _ _ (by-IsWeakOrder (λ p. p.is_manual) bool_lt-IsTotalOrder.weak) (
        then_by-IsWeakOrder _ _ (by-IsWeakOrder (λ p. length p.params) ltb-IsTotalOrder.weak) (
          then_by-IsWeakOrder _ _
            (by-IsWeakOrder (λ p. p.params) (lex-IsWeakOrder size_lt-IsWeakOrder))
            tie_lt-IsWeakOrder)))

or_else-decide :
    (p q r : Bool)
    → or_else (if p then some true else if q then some false else none) r
      ≡ (if p then true else if q then false else r)
or_else-decide true q r = refl
or_else-decide false true r = refl
or_else-decide false false r = refl

loop_in_turn :
    (a b : Plan)
    → length a.params ≡ length b.params
    → or_else (compare_params a.params b.params) (tie_lt a b) ≡ from_sizes a b
loop_in_turn a b h =
    rw (compare_params-lex a.params b.params h)
      (or_else-decide (lex size_lt a.params b.params) (lex size_lt b.params a.params) (tie_lt a b))

plan_lt-in_turn : (a b : Plan) → plan_lt a b ≡ in_turn a b
unfolding plan_lt
plan_lt-in_turn a b = ground (arith, loop_in_turn a b)

eq_of_members :
    (a b : Plan)
    → a.test_name ≡ b.test_name
    → a.is_manual ≡ b.is_manual
    → a.params ≡ b.params
    → a.comments ≡ b.comments
    → a ≡ b
eq_of_members a b n m p c =
    λ i. record { test_name = n i; is_manual = m i; comments = c i; params = p i }

param_lt-IsConnected : IsConnected {A = Symbol × Value} param_lt
param_lt-IsConnected =
    pair_lt-IsConnected symbol_lt-IsTotalOrder.connected value_lt-IsTotalOrder.connected

pub param_lt-IsTotalOrder : IsTotalOrder {A = Symbol × Value} param_lt
param_lt-IsTotalOrder = record { weak = param_lt-IsWeakOrder; connected = param_lt-IsConnected }

tie_lt-members :
    (a b : Plan)
    → tie_lt a b ≡ false
    → tie_lt b a ≡ false
    → (a.params ≡ b.params) × (a.comments ≡ b.comments)
tie_lt-members a b p q =
    let e =
      pair_lt-IsConnected (lex-IsConnected param_lt-IsConnected)
        (lex-IsConnected string_lt-IsTotalOrder.connected) (a.params, a.comments)
        (b.params, b.comments) p q in
    (ap (λ (m : Params × List Bytes). m.0) e, ap (λ (m : Params × List Bytes). m.1) e)

in_turn-IsConnected : IsConnected in_turn
in_turn-IsConnected a b p q =
    let (n, n', p₁, q₁) = then_by_unordered by_name from_manual a b p q in
    let (m, m', p₂, q₂) = then_by_unordered by_manual from_count a b p₁ q₁ in
    let (_, _, p₃, q₃) = then_by_unordered by_count from_sizes a b p₂ q₂ in
    let (_, _, p₄, q₄) = then_by_unordered by_sizes tie_lt a b p₃ q₃ in
    let (ps, cs) = tie_lt-members a b p₄ q₄ in
    eq_of_members a b (symbol_lt-IsTotalOrder.connected _ _ n n')
      (bool_lt-IsTotalOrder.connected _ _ m m') ps cs

in_turn-IsTotalOrder : IsTotalOrder in_turn
in_turn-IsTotalOrder = record { weak = in_turn-IsWeakOrder; connected = in_turn-IsConnected }

-- `operator<` on plans is a strict total order: at most one of `a < b` and `b < a` holds, neither holds
-- only of equal plans, and what lies between two ordered plans is on one side.
pub plan_lt-IsTotalOrder : IsTotalOrder plan_lt
plan_lt-IsTotalOrder =
    subst IsTotalOrder (fun_ext λ a. fun_ext λ b. path_sym (plan_lt-in_turn a b))
      in_turn-IsTotalOrder

param_eq_iff : (p q : Symbol × Value) → (param_eq p q ≡ true) ↔ (p ≡ q)
param_eq_iff p q = ground (arith, symbol_eq_iff p.0 q.0, value_eq_iff p.1 q.1)

-- `operator==` answers true exactly on equal plans.
pub plan_eq_iff : (a b : Plan) → (plan_eq a b ≡ true) ↔ (a ≡ b)
unfolding plan_eq
plan_eq_iff a b = ground (
  arith,
  symbol_eq_iff a.test_name b.test_name,
  bool_eq_iff a.is_manual b.is_manual,
  list_eq_iff param_eq param_eq_iff a.params b.params,
  list_eq_iff string_eq (list_eq_iff _ ==_iff) a.comments b.comments,
)
