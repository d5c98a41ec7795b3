-- ===== src/Value.antt =====
-- include/photesthesis/value.h and src/value.cpp: the dynamically typed values, their
-- constructors, sizes and comparisons.
pub mod Equality
pub mod Order
pub mod Shortlex
pub mod Lists
pub mod Match
mod Examples
use photesthesis.Shared.{
  ℕ, zero, suc, ◌+◌, Bool, true, false, not, List, [], ◌∷◌, ltb, ◌==◌, bool_eq, bool_lt, list_eq,
  if◌then◌else◌, map,
}
use photesthesis.Shared.Ints.{ℤ, int_eq, int_lt}
use photesthesis.Shared.Order.{lex}
use photesthesis.Symbol.{Bytes, Symbol, symbol_eq, symbol_lt, string_lt}
use Prim.Native.Nat.{max}
use mathlib.Core.List.{reverse}

-- `enum class Type`.
pub data ValueType : Type 0 where
  nil pair sym bool int64 blob string : ValueType

-- The numbers of the enumerators.
abbrev pub type_index : ValueType → ℕ
type_index nil = 0
type_index pair = 1
type_index sym = 2
type_index bool = 3
type_index int64 = 4
type_index blob = 5
type_index string = 6

-- A `Value` is a pointer to a `ValueImpl`, with a constructor for the null pointer and one for each
-- subclass. A `Cells` is a `shared_ptr<const PairValue>`: null, or a head and the next pointer.
mutual
  pub data Value : Type 0 where
    nil : Value
    pair : Value → Cells → Value
    sym : Symbol → Value
    bool : Bool → Value
    int64 : ℤ → Value
    blob : List ℕ → Value
    string : Bytes → Value

  pub data Cells : Type 0 where
    null : Cells
    cell : Value → Cells → Cells

unfoldable pub get_type : Value → ValueType
get_type nil = ValueType.nil
get_type (pair h t) = ValueType.pair
get_type (sym s) = ValueType.sym
get_type (bool b) = ValueType.bool
get_type (int64 i) = ValueType.int64
get_type (blob b) = ValueType.blob
get_type (string s) = ValueType.string

-- `getSize`: the number of atoms; nil counts for nothing.
unfoldable mutual
  pub get_size : Value → ℕ
  get_size nil = 0
  get_size (pair h t) = get_size h + cells_size t
  get_size (sym s) = 1
  get_size (bool b) = 1
  get_size (int64 i) = 1
  get_size (blob b) = 1
  get_size (string s) = 1

  pub cells_size : Cells → ℕ
  cells_size null = 0
  cells_size (cell h t) = get_size h + cells_size t

-- `PairValue::mLength` of the cell that holds this head and tail, and 0 for null.
unfoldable pub cells_length : Cells → ℕ
cells_length null = 0
cells_length (cell h t) = 1 + cells_length t

-- The pointer that `Value(head, tail)` and `Value(vector)` wrap.
unfoldable pub of_cells : Cells → Value
of_cells null = nil
of_cells (cell h t) = pair h t

-- `Value(std::vector<Value>)`: cells are made from the back of the vector.
unfoldable pub build_cells : List Value → Cells → Cells
build_cells [] tmp = tmp
build_cells (v ∷ rest) tmp = build_cells rest (cell v tmp)

unfoldable pub of_list : List Value → Value
unfolding of_cells build_cells
of_list vals = of_cells (build_cells (reverse vals) null)

-- `Value(std::set<Value>)`, of the elements in order, and `Value(std::map<Value, Value>)`.
unfoldable pub of_set : List Value → Value
unfolding of_list
of_set vals = of_list vals

unfoldable pub of_map : List (Value × Value) → Value
unfolding of_list
of_map pairs = of_list (map (λ (k, v). of_list (k ∷ v ∷ [])) pairs)

-- `operator==`: the types are compared first, then two lists cell by cell.
unfoldable mutual
  pub value_eq : Value → Value → Bool
  value_eq nil nil = true
  value_eq (pair h t) (pair h' t') = if not (value_eq h h') then false else cells_eq t t'
  value_eq (sym a) (sym b) = symbol_eq a b
  value_eq (bool a) (bool b) = bool_eq a b
  value_eq (int64 a) (int64 b) = int_eq a b
  value_eq (blob a) (blob b) = list_eq (λ x y. x == y) a b
  value_eq (string a) (string b) = list_eq (λ x y. x == y) a b
  value_eq _ _ = false

  pub cells_eq : Cells → Cells → Bool
  cells_eq null null = true
  cells_eq (cell h t) (cell h' t') = if not (value_eq h h') then false else cells_eq t t'
  cells_eq _ _ = false

-- The loop of `operator<` over two lists, with the comparison of their elements.
unfoldable pub cells_lt : (Value → Value → Bool) → Cells → Cells → Bool
cells_lt lt (cell h t) (cell h' t') =
    if lt h h' then true else if lt h' h then false else cells_lt lt t t'
cells_lt lt null (cell h t) = true
cells_lt lt _ null = false

-- `operator<` with fuel for the nesting of lists.
unfoldable pub lt_within : ℕ → Value → Value → Bool
unfolding cells_lt cells_length get_type
lt_within zero a b = false
lt_within (suc f) nil nil = false
lt_within (suc f) (pair h t) (pair h' t') =
    if ltb (cells_length (cell h t)) (cells_length (cell h' t'))
    then true
    else if ltb (cells_length (cell h' t')) (cells_length (cell h t))
    then false
    else cells_lt (lt_within f) (cell h t) (cell h' t')
lt_within (suc f) (sym a) (sym b) = symbol_lt a b
lt_within (suc f) (bool a) (bool b) = bool_lt a b
lt_within (suc f) (int64 a) (int64 b) = int_lt a b
lt_within (suc f) (blob a) (blob b) = lex ltb a b
lt_within (suc f) (string a) (string b) = string_lt a b
lt_within (suc f) a b = ltb (type_index (get_type a)) (type_index (get_type b))

-- How deep lists are nested.
unfoldable mutual
  pub depth : Value → ℕ
  depth nil = 1
  depth (pair h t) = suc (max (depth h) (cells_depth t))
  depth (sym s) = 1
  depth (bool b) = 1
  depth (int64 i) = 1
  depth (blob b) = 1
  depth (string s) = 1

  pub cells_depth : Cells → ℕ
  cells_depth null = 0
  cells_depth (cell h t) = max (depth h) (cells_depth t)

-- `operator<`: the nesting of the two values is fuel enough.
unfoldable pub value_lt : Value → Value → Bool
unfolding lt_within depth
value_lt a b = lt_within (max (depth a) (depth b)) a b
