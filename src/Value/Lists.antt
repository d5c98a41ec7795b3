-- ===== src/Value/Lists.antt =====
-- Values made of a vector of values, and read back as one.
use photesthesis.Shared.{◌≡◌, refl, List, [], ◌∷◌, ◌++◌, ap, ◌∙◌}
use photesthesis.Value.{Value, Cells, pair, null, cell, of_cells, build_cells, of_list}
use mathlib.Core.List.{reverse, reverse-cons}

-- The elements of a list of cells.
unfoldable pub cells_list : Cells → List Value
cells_list null = []
cells_list (cell h t) = h ∷ cells_list t

-- The elements of a value that is a list; nil is the empty list.
unfoldable pub to_list : Value → List Value
unfolding cells_list
to_list (pair h t) = h ∷ cells_list t
to_list v = []

-- Cells from front to back.
unfoldable pub cells_of : List Value → Cells
cells_of [] = null
cells_of (v ∷ vs) = cell v (cells_of vs)

build_cells-append :
    (xs ys : List Value) (tmp : Cells)
    → build_cells (xs ++ ys) tmp ≡ build_cells ys (build_cells xs tmp)
unfolding build_cells
build_cells-append [] ys tmp = refl
build_cells-append (x ∷ xs) ys tmp = build_cells-append xs ys (cell x tmp)

-- The loop from the back makes the cells in the vector's order.
pub build_cells-reverse : (vs : List Value) → build_cells (reverse vs) null ≡ cells_of vs
unfolding build_cells cells_of
build_cells-reverse [] = refl
build_cells-reverse (v ∷ vs) =
    rw (reverse-cons, build_cells-append) (ap (cell v) (build_cells-reverse vs))

pub of_list-cells : (vs : List Value) → of_list vs ≡ of_cells (cells_of vs)
unfolding of_list
of_list-cells vs = ap of_cells (build_cells-reverse vs)

cells_list-of : (vs : List Value) → cells_list (cells_of vs) ≡ vs
unfolding cells_list cells_of
cells_list-of [] = refl
cells_list-of (v ∷ vs) = ap (λ r. v ∷ r) (cells_list-of vs)

-- A value made of a vector reads back as that vector.
pub to_list-of_list : (vs : List Value) → to_list (of_list vs) ≡ vs
unfolding to_list of_cells cells_of
to_list-of_list [] = rw of_list-cells
to_list-of_list (v ∷ vs) = rw of_list-cells (ap (λ r. v ∷ r) (cells_list-of vs))

pub cells_of-list : (t : Cells) → cells_of (cells_list t) ≡ t
unfolding cells_list cells_of
cells_of-list null = refl
cells_of-list (cell h t) = ap (cell h) (cells_of-list t)

-- A list is the value that its elements make.
pub of_list-cell : (h : Value) (t : Cells) → of_list (h ∷ cells_list t) ≡ pair h t
unfolding of_cells cells_of
of_list-cell h t = of_list-cells (h ∷ cells_list t) ∙ ap (pair h) (cells_of-list t)
