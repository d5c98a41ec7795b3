-- ===== src/Symbol/Examples.antt =====
-- The theorems on interned symbols at concrete inputs.
use photesthesis.Shared.{◌≡◌, ◌↔◌, refl, codes, true, [], ◌∷◌}
use photesthesis.Shared.Order.{lex}
use photesthesis.Shared.SetOf.{set_emplace}
use photesthesis.Symbol.{
  StringPtr, InternTable, intern, place, ptr_eq, is_symbol_char, is_alnum, is_digit, string_lt,
}
use photesthesis.Symbol.Interning.{done, step, ptr_eq-intern, empty_table, empty_table-IsValid}

abbrev x_ptr : StringPtr
x_ptr = record { address = 0; text = codes "x" }

abbrev n_ptr : StringPtr
n_ptr = record { address = 1; text = codes "n" }

abbrev table_x : InternTable
table_x = record { entries = x_ptr ∷ []; next_address = 1 }

abbrev table_xn : InternTable
table_xn = record { entries = n_ptr ∷ x_ptr ∷ []; next_address = 2 }

abbrev table_xnx : InternTable
table_xnx = record { entries = n_ptr ∷ x_ptr ∷ []; next_address = 3 }

-- `x` again, after `n`: the first pointer is returned.
ptr_eq-intern_example : (ptr_eq x_ptr x_ptr ≡ true) ↔ (codes "x" ≡ codes "x")
unfolding intern place set_emplace is_symbol_char is_alnum is_digit string_lt lex
ptr_eq-intern_example =
    ptr_eq-intern (codes "x") (codes "x") empty_table table_x table_xn table_xnx x_ptr x_ptr
      empty_table-IsValid refl (step (codes "n") n_ptr refl (done refl)) refl
