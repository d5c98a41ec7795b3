-- ===== src/Text/Printer.antt =====
-- `operator<<` of src/value.cpp. The stream's number base is the one state that a print may change:
-- `std::hex` stays set after a blob.
use photesthesis.Shared.{
  ℕ, suc, ◌-◌, ◌^◌, Bool, true, false, ◌||◌, List, [], ◌∷◌, ◌++◌, ◌==◌, if◌then◌else◌, codes,
}
use photesthesis.Shared.Ints.{ℤ, pos, negsuc}
use photesthesis.Symbol.{Bytes}
use photesthesis.Value.{
  Value, Cells, nil, pair, sym, bool, int64, blob, string, null, cell, ValueType,
}
use photesthesis.Text.Digits.{digits}

-- The names that `operator<<` writes for the enumerators of `Type`.
unfoldable pub type_name : ValueType → Bytes
type_name ValueType.nil = codes "Nil"
type_name ValueType.pair = codes "Pair"
type_name ValueType.sym = codes "Sym"
type_name ValueType.bool = codes "Bool"
type_name ValueType.int64 = codes "Int64"
type_name ValueType.blob = codes "Blob"
type_name ValueType.string = codes "String"

-- An `int64_t` on a stream: decimal with a sign, or the two's complement in hexadecimal.
unfoldable pub print_int : Bool → ℤ → Bytes
print_int false (pos n) = digits 10 (suc n) n
print_int false (negsuc n) = b'-' ∷ digits 10 (suc (suc n)) (suc n)
print_int true (pos n) = digits 16 (suc n) n
print_int true (negsuc n) = let m = 2 ^ 64 - suc n in digits 16 (suc m) m

-- The characters of a string, `"` and `\` behind a `\`.
unfoldable pub escape : Bytes → Bytes
escape [] = []
escape (c ∷ r) =
    let more = escape r in if c == b'"' || c == b'\\' then b'\\' ∷ c ∷ more else c ∷ more

-- The bytes of a blob: a `uint8_t` is written as a character.
unfoldable pub print_blob : Bool → List ℕ → Bytes
print_blob first [] = []
print_blob first (c ∷ r) =
    (if first then [] else codes " ") ++ (codes "0x" ++ (c ∷ print_blob false r))

-- What is written, and whether the base is hexadecimal afterwards.
unfoldable mutual
  pub print_value : Bool → Value → Bytes × Bool
  print_value hex (string s) = (b'"' ∷ (escape s ++ (b'"' ∷ [])), hex)
  print_value hex (blob []) = (codes "[]", hex)
  print_value hex (blob (c ∷ r)) = (b'[' ∷ (print_blob true (c ∷ r) ++ (b']' ∷ [])), true)
  print_value hex (bool true) = (codes "#t", hex)
  print_value hex (bool false) = (codes "#f", hex)
  print_value hex (int64 i) = (print_int hex i, hex)
  print_value hex (sym s) = (s, hex)
  print_value hex (pair h t) =
      let first = print_value hex h in
      let others = print_cells first.1 t in
      (b'(' ∷ (first.0 ++ (others.0 ++ (b')' ∷ []))), others.1)
  print_value hex nil = (codes "#nil", hex)

  pub print_cells : Bool → Cells → Bytes × Bool
  print_cells hex null = ([], hex)
  print_cells hex (cell h t) =
      let next = print_value hex h in
      let others = print_cells next.1 t in (b' ' ∷ (next.0 ++ others.0), others.1)
