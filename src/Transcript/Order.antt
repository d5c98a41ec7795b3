-- ===== src/Transcript/Order.antt =====
-- `operator<` of transcripts is a strict total order, and `operator==` decides equality.
use photesthesis.Shared.{◌≡◌, ◌↔◌, ap, true, List, arith, list_eq_iff, bool_eq_iff}
use photesthesis.Shared.Order.{
  IsTotalOrder, pair_lt-IsWeakOrder, pair_lt-IsConnected, lex-IsTotalOrder, bool_lt-IsTotalOrder,
}
use photesthesis.Shared.Compose.{by-IsWeakOrder}
use photesthesis.Value.Equality.{symbol_eq_iff, value_eq_iff}
use photesthesis.Value.Order.{symbol_lt-IsTotalOrder, value_lt-IsTotalOrder}
use photesthesis.Plan.{Plan}
use photesthesis.Plan.Order.{plan_lt-IsTotalOrder, plan_eq_iff}
use photesthesis.Transcript.{Var, Transcript, var_lt, transcript_lt, var_eq, transcript_eq}

var_lt-IsTotalOrder : IsTotalOrder {A = Var} var_lt
var_lt-IsTotalOrder = record {
  weak =
      pair_lt-IsWeakOrder symbol_lt-IsTotalOrder.weak
        (pair_lt-IsWeakOrder value_lt-IsTotalOrder.weak bool_lt-IsTotalOrder.weak);
  connected =
      pair_lt-IsConnected symbol_lt-IsTotalOrder.connected
        (pair_lt-IsConnected value_lt-IsTotalOrder.connected bool_lt-IsTotalOrder.connected);
}

-- `operator<` on transcripts is a strict total order: at most one of `a < b` and `b < a` holds, neither
-- holds only of equal transcripts, and what lies between two ordered ones is on one side.
pub transcript_lt-IsTotalOrder : IsTotalOrder transcript_lt
unfolding transcript_lt
transcript_lt-IsTotalOrder =
    let vars = lex-IsTotalOrder var_lt-IsTotalOrder in
    record {
      weak =
          by-IsWeakOrder {A = Transcript} {B = Plan × List Var} (λ t. (t.plan, t.vars))
            (pair_lt-IsWeakOrder plan_lt-IsTotalOrder.weak vars.weak);
      connected = λ a b p q.
          let e =
            pair_lt-IsConnected plan_lt-IsTotalOrder.connected vars.connected (a.plan, a.vars)
              (b.plan, b.vars) p q in
          ap (λ (m : Plan × List Var). record { plan = m.0; vars = m.1 }) e;
    }

var_eq_iff : (a b : Var) → (var_eq a b ≡ true) ↔ (a ≡ b)
var_eq_iff a b =
    ground (arith, symbol_eq_iff a.0 b.0, value_eq_iff a.1.0 b.1.0, bool_eq_iff a.1.1 b.1.1)

-- `operator==` answers true exactly on equal transcripts.
pub transcript_eq_iff : (a b : Transcript) → (transcript_eq a b ≡ true) ↔ (a ≡ b)
unfolding transcript_eq
transcript_eq_iff a b =
    ground (arith, plan_eq_iff a.plan b.plan, list_eq_iff var_eq var_eq_iff a.vars b.vars)
