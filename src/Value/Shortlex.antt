-- ===== src/Value/Shortlex.antt =====
-- `operator<` of src/value.cpp on two lists, against the shortlex order on sequences.
use photesthesis.Shared.{
  ◌≡◌, refl, ◌∙◌, ap, Bool, true, false, List, [], ◌∷◌, length, ℕ, suc, arith,
}
use photesthesis.Shared.Order.{lex}
use photesthesis.Value.{
  Value, Cells, nil, pair, of_list, of_cells, cells_lt, cells_length, value_lt, lt_within, depth,
  get_type,
}
use photesthesis.Value.Lists.{cells_of, of_list-cells}
use photesthesis.Value.Order.{value_lt-pair, value_lt-within, by_length}

cells_length-of : (xs : List Value) → cells_length (cells_of xs) ≡ length xs
unfolding cells_length cells_of
cells_length-of [] = refl
cells_length-of (x ∷ xs) = rw (cells_length-of xs) (ground arith)

cells_lt-of :
    (lt : Value → Value → Bool) (xs ys : List Value)
    → cells_lt lt (cells_of xs) (cells_of ys) ≡ lex lt xs ys
unfolding cells_lt cells_of lex
cells_lt-of lt [] [] = refl
cells_lt-of lt [] (y ∷ ys) = refl
cells_lt-of lt (x ∷ xs) [] = refl
cells_lt-of lt (x ∷ xs) (y ∷ ys) = rw (cells_lt-of lt xs ys)

nil_first : (h : Value) (t : Cells) → value_lt nil (pair h t) ≡ true
unfolding lt_within depth get_type
nil_first h t = value_lt-within (suc (depth (pair h t))) nil (pair h t) (omega arith) (omega arith)

nil_last : (h : Value) (t : Cells) → value_lt (pair h t) nil ≡ false
unfolding lt_within depth get_type
nil_last h t = value_lt-within (suc (depth (pair h t))) (pair h t) nil (omega arith) (omega arith)

shorter : (n : ℕ) → true ≡ by_length 0 (suc n) true
shorter n = ground arith

longer : (n : ℕ) → false ≡ by_length (suc n) 0 false
longer n = ground arith

nil_same : value_lt nil nil ≡ false
unfolding value_lt lt_within depth
nil_same = refl

-- On two values made of vectors `operator<` is the shortlex order of the vectors: the shorter one is
-- less, and of two that are as long the one that `std::lexicographical_compare` by `operator<` itself
-- puts first.
pub value_lt-of_list :
    (xs ys : List Value)
    → value_lt (of_list xs) (of_list ys) ≡ by_length (length xs) (length ys) (lex value_lt xs ys)
unfolding of_cells cells_of lex
value_lt-of_list [] [] = rw of_list-cells nil_same
value_lt-of_list [] (y ∷ ys) =
    ap (λ v. value_lt v (of_list (y ∷ ys))) (of_list-cells [])
    ∙ ap (value_lt nil) (of_list-cells (y ∷ ys))
    ∙ nil_first y (cells_of ys)
    ∙ shorter (length ys)
value_lt-of_list (x ∷ xs) [] =
    ap (λ v. value_lt v (of_list [])) (of_list-cells (x ∷ xs))
    ∙ ap (value_lt (pair x (cells_of xs))) (of_list-cells [])
    ∙ nil_last x (cells_of xs)
    ∙ longer (length xs)
value_lt-of_list (x ∷ xs) (y ∷ ys) =
    ap (λ v. value_lt v (of_list (y ∷ ys))) (of_list-cells (x ∷ xs))
    ∙ ap (value_lt (pair x (cells_of xs))) (of_list-cells (y ∷ ys))
    ∙ value_lt-pair x y (cells_of xs) (cells_of ys)
    ∙ ap
        (λ n.
          by_length n (cells_length (cells_of (y ∷ ys)))
            (cells_lt value_lt (cells_of (x ∷ xs)) (cells_of (y ∷ ys))))
        (cells_length-of (x ∷ xs))
    ∙ ap
        (λ n.
          by_length (length (x ∷ xs)) n (cells_lt value_lt (cells_of (x ∷ xs)) (cells_of (y ∷ ys))))
        (cells_length-of (y ∷ ys))
    ∙ ap (by_length (length (x ∷ xs)) (length (y ∷ ys))) (cells_lt-of value_lt (x ∷ xs) (y ∷ ys))
