-- ===== src/Value/Match/Laws.antt =====
-- What `match` finds on a list, and which values have a head symbol.
use photesthesis.Shared.{
  ℕ, zero, suc, ◌≡◌, refl, ◌↔◌, ◌∙◌, List, [], ◌∷◌, some, arith, leb, length, take, replicate,
  sym as path_sym,
}
use photesthesis.Symbol.{Symbol}
use photesthesis.Value.{
  Value, Cells, nil, pair, sym, bool, int64, blob, string, null, cell, of_list, of_cells,
}
use photesthesis.Value.Lists.{cells_of, cells_list, of_list-cells, of_list-cell}
use photesthesis.Value.Match.{any, match_one, match_cells, match_value, head_symbol}

match_cells-any :
    (n : ℕ) (h : Value) (vs : List Value)
    → match_cells (replicate (suc n) any) h (cells_of vs)
      ≡ (h ∷ take n vs, leb (suc n) (suc (length vs)))
unfolding match_cells match_one cells_of
match_cells-any zero h vs = ground arith
match_cells-any (suc n) h [] = ground arith
match_cells-any (suc n) h (v ∷ vs) = rw (match_cells-any n v vs) (ground arith)

-- Matching a list against two or more references to values, which take an element of any type, assigns
-- its first elements in order, and succeeds exactly when the list has as many; what follows them does
-- not matter.
pub match_value-any :
    (n : ℕ) (vs : List Value)
    → match_value (replicate (suc (suc n)) any) (of_list vs)
      ≡ (take (suc (suc n)) vs, leb (suc (suc n)) (length vs))
unfolding match_value of_cells cells_of
match_value-any n [] = rw of_list-cells (ground arith)
match_value-any n (v ∷ vs) = rw of_list-cells (match_cells-any (suc n) v vs)

head_symbol_found :
    (v : Value) (s : Symbol)
    → head_symbol v ≡ some s
    → (x : Value) × (t : Cells) × (v ≡ pair (sym s) (cell x t))
unfolding head_symbol match_value match_cells match_one
head_symbol_found (pair (sym s') (cell x t)) s h = (x, t, ground arith)
head_symbol_found (pair (sym s') null) s h = cc
head_symbol_found (pair nil (cell x t)) s h = cc
head_symbol_found (pair (pair a b) (cell x t)) s h = cc
head_symbol_found (pair (bool b) (cell x t)) s h = cc
head_symbol_found (pair (int64 i) (cell x t)) s h = cc
head_symbol_found (pair (blob b) (cell x t)) s h = cc
head_symbol_found (pair (string b) (cell x t)) s h = cc
head_symbol_found (pair _ null) s h = ground arith
head_symbol_found nil s h = cc
head_symbol_found (sym a) s h = cc
head_symbol_found (bool a) s h = cc
head_symbol_found (int64 a) s h = cc
head_symbol_found (blob a) s h = cc
head_symbol_found (string a) s h = cc

-- A value has a head symbol exactly when it is a list of two elements or more that begins with it: a
-- symbol that stands alone in its list is refused.
pub head_symbol_iff :
    (v : Value) (s : Symbol)
    → (head_symbol v ≡ some s) ↔ ((x : Value) × (xs : List Value) × (v ≡ of_list (sym s ∷ x ∷ xs)))
unfolding head_symbol match_value match_cells match_one of_cells cells_of cells_list
head_symbol_iff v s = (
  λ h.
      let (x, t, e) = head_symbol_found v s h in
      (x, cells_list t, e ∙ path_sym (of_list-cell (sym s) (cell x t))),
  λ (x, xs, e). rw (e, of_list-cells) (refl),
)
