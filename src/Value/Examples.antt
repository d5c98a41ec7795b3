-- ===== src/Value/Examples.antt =====
-- The theorems on values at concrete inputs.
use photesthesis.Shared.{◌≡◌, ◌↔◌, true, some, [], ◌∷◌, codes, leb, length, take, replicate, List}
use photesthesis.Shared.Ints.{pos}
use photesthesis.Value.{Value, sym, bool, int64, string, value_eq, value_lt, of_list}
use photesthesis.Value.Equality.{value_eq_iff}
use photesthesis.Shared.Order.{lex}
use photesthesis.Value.Order.{by_length}
use photesthesis.Value.Shortlex.{value_lt-of_list}
use photesthesis.Value.Lists.{to_list, to_list-of_list}
use photesthesis.Value.Match.{any, match_value, head_symbol}
use photesthesis.Value.Match.Laws.{match_value-any, head_symbol_iff}

-- (add 0 1)
abbrev elements : List Value
elements = sym (codes "add") ∷ int64 (pos 0) ∷ int64 (pos 1) ∷ []

abbrev a_string : Value
a_string = string (codes "a")

abbrev a_symbol : Value
a_symbol = sym (codes "a")

value_eq_iff_example : (value_eq a_string a_symbol ≡ true) ↔ (a_string ≡ a_symbol)
value_eq_iff_example = value_eq_iff a_string a_symbol

abbrev one_element : List Value
one_element = bool true ∷ []

value_lt-of_list_example :
    value_lt (of_list elements) (of_list one_element)
    ≡ by_length (length elements) (length one_element) (lex value_lt elements one_element)
value_lt-of_list_example = value_lt-of_list elements one_element

to_list-of_list_example : to_list (of_list elements) ≡ elements
to_list-of_list_example = to_list-of_list elements

match_value-any_example :
    match_value (replicate 2 any) (of_list elements) ≡ (take 2 elements, leb 2 (length elements))
match_value-any_example = match_value-any 0 elements

head_symbol_iff_example :
    (head_symbol (of_list elements) ≡ some (codes "add"))
    ↔ ((x : Value) × (xs : List Value) × (of_list elements ≡ of_list (sym (codes "add") ∷ x ∷ xs)))
head_symbol_iff_example = head_symbol_iff (of_list elements) (codes "add")
