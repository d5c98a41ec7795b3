-- ===== src/Value/Match.antt =====
-- The `match` functions of include/photesthesis/value.h, and `headSymbol` of util.h: patterns are
-- taken off the front of a list, and the arguments that a pattern captures are assigned in order.
pub mod Laws
use photesthesis.Shared.{
  ◌≡◌, refl, ◌↔◌, Bool, true, false, ◌&&◌, List, [], ◌∷◌, ◌++◌, Option, none, some, bool_eq,
  list_eq, ◌==◌, if◌then◌else◌, arith, map, ap, Bool-cases, inl, inr,
}
use photesthesis.Shared.Ints.{ℤ, int_eq}
use photesthesis.Symbol.{Bytes, Symbol, symbol_eq}
use photesthesis.Value.{
  Value, Cells, nil, pair, sym, bool, int64, blob, string, null, cell, value_eq, of_list,
}

-- One argument of `match`: a reference that takes a value of its type, or a constant.
pub data Pattern : Type 0 where
  any get_sym get_bool get_int64 get_blob get_string : Pattern
  is_value : Value → Pattern
  is_sym : Symbol → Pattern

-- What was assigned, and the answer. A failure leaves what was assigned before it.
abbrev pub Matched : Type 0
Matched = List Value × Bool

-- `matchOne`: `TypedValue<T>::match` assigns at its own type, and `ValueImpl::match` refuses at any
-- other; a constant is matched into a temporary and compared.
unfoldable pub match_one : Pattern → Value → Matched
match_one any v = (v ∷ [], true)
match_one get_sym (sym s) = (sym s ∷ [], true)
match_one get_bool (bool b) = (bool b ∷ [], true)
match_one get_int64 (int64 i) = (int64 i ∷ [], true)
match_one get_blob (blob b) = (blob b ∷ [], true)
match_one get_string (string s) = (string s ∷ [], true)
match_one (is_value w) v = ([], value_eq v w)
match_one (is_sym s) (sym s') = ([], symbol_eq s' s)
match_one _ _ = ([], false)

-- `PairValue::match` of a pack of one or more: the last pattern looks at one element only, whether or
-- not others follow.
unfoldable pub match_cells : List Pattern → Value → Cells → Matched
match_cells [] h t = ([], true)
match_cells (p ∷ []) h t = match_one p h
match_cells (p ∷ q ∷ ps) h null = ((match_one p h).0, false)
match_cells (p ∷ q ∷ ps) h (cell h' t') =
    let first = match_one p h in
    let rest = match_cells (q ∷ ps) h' t' in if first.1 then (first.0 ++ rest.0, rest.1) else first

-- `Value::match` of a pack: none, one, or more, where the value must be a list.
unfoldable pub match_value : List Pattern → Value → Matched
unfolding match_one match_cells
match_value [] v = ([], true)
match_value (p ∷ []) v = match_one p v
match_value (p ∷ q ∷ ps) (pair h t) = match_cells (p ∷ q ∷ ps) h t
match_value (p ∷ q ∷ ps) _ = ([], false)

abbrev symbol_of : Matched → Option Symbol
symbol_of (sym s ∷ rest, true) = some s
symbol_of _ = none

-- `headSymbol`; `none` is its exception.
unfoldable pub head_symbol : Value → Option Symbol
unfolding match_value
head_symbol v = symbol_of (match_value (get_sym ∷ any ∷ []) v)
