-- ===== src/Text/Parser.antt =====
-- `operator>>` of src/value.cpp.
use photesthesis.Shared.{
  ℕ, zero, suc, ◌-◌, ◌^◌, Bool, true, false, not, ◌&&◌, ◌||◌, List, [], ◌∷◌, ◌++◌, Option, none,
  some, ◌==◌, ltb, if◌then◌else◌, codes, list_eq,
}
use photesthesis.Shared.Ints.{ℤ, pos, negsuc}
use photesthesis.Symbol.{Bytes, is_digit, is_alnum, is_symbol_char}
use photesthesis.Value.{Value, nil, sym, bool, int64, blob, string, of_list}
use photesthesis.Text.Stream.{Stream, good, peek, scan_whitespace, is_space, take_run, is_end}
use photesthesis.Text.Digits.{read_digits}

-- The exceptions of the parser, by their messages.
pub data ParseError : Type 0 where
  incomplete_list incomplete_blob incomplete_string incomplete_escape : ParseError
  unknown_special : Bytes → ParseError

-- An outcome: a value with the stream, an exception, or a loop that the fuel did not see end.
pub data Parsed {ℓ} (A : Type ℓ) : Type ℓ where
  ok : A → Stream → Parsed A
  thrown : ParseError → Parsed A
  out_of_fuel : Parsed A

infixl 5 ◌>>=◌
abbrev pub ◌>>=◌ {ℓ κ} : {A : Type ℓ} {B : Type κ} → Parsed A → (A → Stream → Parsed B) → Parsed B
ok a s >>= f = f a s
thrown e >>= f = thrown e
out_of_fuel >>= f = out_of_fuel

-- A magnitude with its sign as an `int64_t`, and whether it fits; if not, the nearest value.
unfoldable pub fit_int64 : Bool → ℕ → ℤ × Bool
fit_int64 false m = if ltb m (2 ^ 63) then (pos m, true) else (pos (2 ^ 63 - 1), false)
fit_int64 true zero = (pos 0, true)
fit_int64 true (suc m) = if ltb m (2 ^ 63) then (negsuc m, true) else (negsuc (2 ^ 63 - 1), false)

-- The base's prefix, which may stand before hexadecimal digits.
unfoldable pub skip_prefix : Bool → Bytes → Bytes
skip_prefix true (z ∷ x ∷ r) = if z == b'0' && (x == b'x' || x == b'X') then r else z ∷ x ∷ r
skip_prefix _ s = s

unfoldable pub take_sign : Bytes → Bool × Bytes
take_sign [] = (false, [])
take_sign (c ∷ r) =
    if c == b'-' then (true, r) else if c == b'+' then (false, r) else (false, c ∷ r)

-- `is >> tmp` for an `int64_t`, on a stream that is good and has no space in front: no digits give 0
-- and set failbit, and so does a number out of range, which gives the nearest.
unfoldable pub read_int64 : Stream → ℤ × Stream
read_int64 s =
    let signed = take_sign s.rest in
    let base = if s.hex then 16 else 10 in
    let run = read_digits base 0 0 (skip_prefix s.hex signed.1) in
    let fitted = fit_int64 signed.0 run.value in
    let after : Stream = record s { rest = run.left; eof = is_end run.left } in
    if run.count == 0
    then (pos 0, record after { fail = true })
    else (fitted.0, record after { fail = not fitted.1 })

-- The `default` case, which the `#` case falls through to as well. At EOF it looks more than once.
unfoldable pub parse_default : Value → Stream → Value × Stream
parse_default val s = elim (peek s).0 [
  | none ↦ (val, (peek (peek s).1).1)
  | some c ↦
      if c == b'-' || is_digit c
      then (int64 (read_int64 s).0, (read_int64 s).1)
      else if c == b'_' || is_alnum c
      then (let run = take_run is_symbol_char s.rest in
          (sym run.0, record s { rest = run.1; eof = is_end run.1 }))
      else (val, s)
]

-- The `#` case, up to where it falls through.
unfoldable pub special : Bytes → Option Value
special tmp =
    if list_eq (λ a b. a == b) tmp (codes "#t")
    then some (bool true)
    else if list_eq (λ a b. a == b) tmp (codes "#f")
    then some (bool false)
    else if list_eq (λ a b. a == b) tmp (codes "#nil")
    then some nil
    else none

unfoldable pub finish_special : Bytes → Option Value → Stream → Parsed Value
finish_special name none s = thrown (unknown_special name)
finish_special name (some v) s = ok (parse_default v s).0 (parse_default v s).1

-- The `#` stands before `r`.
unfoldable pub parse_special : Bytes → Stream → Parsed Value
parse_special r s =
    let run = take_run is_alnum r in
    finish_special (b'#' ∷ run.0) (special (b'#' ∷ run.0))
      (record s { rest = run.1; eof = is_end run.1 })

-- The loop of the `"` case; `last` is the character that `c` holds when the input ends.
unfoldable pub read_string : ℕ → Bytes → Bytes → Stream → Parsed Value
read_string last acc [] s =
    if last == b'\\' then thrown incomplete_escape else thrown incomplete_string
read_string last acc (c ∷ []) s =
    if c == b'"' then ok (string acc) (record s { rest = [] }) else thrown incomplete_string
read_string last acc (c ∷ d ∷ r) s =
    let escaped = read_string d (acc ++ (d ∷ [])) r s in
    let plain = read_string c (acc ++ (c ∷ [])) (d ∷ r) s in
    if c == b'"'
    then ok (string acc) (record s { rest = d ∷ r })
    else if c == b'\\'
    then escaped
    else plain

-- The loop of the `[` case. After a space the next character that is none is taken for a byte, also
-- if it is the bracket. The manipulator leaves the base hexadecimal once a byte was read.
unfoldable pub read_blob : Bool → List ℕ → Bytes → Stream → Parsed Value
read_blob spaced acc [] s = thrown incomplete_blob
read_blob spaced acc (c ∷ r) s =
    let skip = read_blob true acc r s in
    let byte = read_blob false (acc ++ (c ∷ [])) r s in
    if c == b']' && not spaced
    then ok (blob acc) (record s { rest = r; hex = s.hex || not (is_end acc) })
    else if is_space c
    then skip
    else byte

-- The end of the `(` case.
unfoldable pub close_list : List Value → Stream → Parsed Value
close_list vals s = elim s.rest [
  | [] ↦ thrown incomplete_list
  | c ∷ r ↦
      if good s && c == b')'
      then ok (of_list vals) (record s { rest = r })
      else thrown incomplete_list
]

-- `operator>>` into a variable that holds `val`, and the loop of its `(` case. A call and a round of
-- the loop each cost a unit of fuel.
unfoldable mutual
  pub parse_value : ℕ → Value → Stream → Parsed Value
  parse_value zero val s = out_of_fuel
  parse_value (suc f) val s =
      let t = scan_whitespace s in
      let items = λ (u : Stream). parse_items f [] u >>= close_list in
      if good t
      then (elim t.rest [
        | [] ↦ ok val (record t { eof = true })
        | c ∷ r ↦
            if c == b'('
            then items (record t { rest = r })
            else if c == b'['
            then read_blob false [] r t
            else if c == b'"'
            then read_string c [] r t
            else if c == b'#'
            then parse_special r t
            else ok (parse_default val t).0 (parse_default val t).1
      ])
      else ok val t

  pub parse_items : ℕ → List Value → Stream → Parsed (List Value)
  parse_items zero acc s = out_of_fuel
  parse_items (suc f) acc s =
      let more = parse_value f nil s >>= λ v u. parse_items f (acc ++ (v ∷ [])) u in
      let at_end =
        parse_value f nil (record s { eof = true }) >>= λ v u. parse_items f (acc ++ (v ∷ [])) u in
      if good s
      then (elim s.rest [ [] ↦ at_end | c ∷ r ↦ if c == b')' then ok acc s else more ])
      else ok acc s
