-- ===== src/Transcript.antt =====
-- `Transcript` of include/photesthesis/corpus.h and src/corpus.cpp: a plan with the variables that its
-- run checked or tracked.
pub mod Order
use photesthesis.Shared.{Bool, true, false, ◌&&◌, List, [], ◌∷◌, ◌++◌, bool_eq, bool_lt, list_eq}
use photesthesis.Shared.Order.{lex, pair_lt}
use photesthesis.Symbol.{Symbol, symbol_eq, symbol_lt}
use photesthesis.Value.{Value, value_eq, value_lt}
use photesthesis.Plan.{Plan, new_plan, plan_lt, plan_eq}

-- The name, the value, and whether the variable is tracked.
abbrev pub Var : Type 0
Var = Symbol × (Value × Bool)

pub record Transcript : Type 0 where
  pub plan : Plan
  pub vars : List Var

-- The constructors.
abbrev pub new_transcript : Plan → Transcript
new_transcript p = record { plan = p; vars = [] }

abbrev pub named_transcript : Symbol → Transcript
named_transcript name = new_transcript (new_plan name false)

-- `Transcript::getTestName`.
abbrev pub name_of : Transcript → Symbol
name_of t = t.plan.test_name

unfoldable pub add_tracked_var : Transcript → Symbol → Value → Transcript
add_tracked_var t k v = record t { vars = t.vars ++ ((k, (v, true)) ∷ []) }

unfoldable pub add_checked_var : Transcript → Symbol → Value → Transcript
add_checked_var t k v = record t { vars = t.vars ++ ((k, (v, false)) ∷ []) }

unfoldable pub clear_vars : Transcript → Transcript
clear_vars t = record t { vars = [] }

-- `operator<` of the tied plan and variables.
abbrev pub var_lt : Var → Var → Bool
var_lt = pair_lt {B = Value × Bool} symbol_lt (pair_lt value_lt bool_lt)

unfoldable pub transcript_lt : Transcript → Transcript → Bool
transcript_lt a b = pair_lt plan_lt (lex var_lt) (a.plan, a.vars) (b.plan, b.vars)

-- `operator==`, likewise.
abbrev pub var_eq : Var → Var → Bool
var_eq a b = symbol_eq a.0 b.0 && (value_eq a.1.0 b.1.0 && bool_eq a.1.1 b.1.1)

unfoldable pub transcript_eq : Transcript → Transcript → Bool
transcript_eq a b = plan_eq a.plan b.plan && list_eq var_eq a.vars b.vars
