-- ===== src/Save/Tokens.antt =====
-- What the operators of src/corpus.cpp take from a stream: words, symbols, lines and numbers, with the
-- expectations of util.h.
use photesthesis.Shared.{
  ℕ, suc, ◌+◌, ◌-◌, ◌^◌, ◌%◌, Bool, false, not, ◌&&◌, ◌||◌, [], ◌∷◌, length, none, some, ◌==◌, leb,
  if◌then◌else◌, all_of, list_eq,
}
use photesthesis.Symbol.{Bytes, Symbol, is_symbol_char}
use photesthesis.Value.{Value, nil}
use photesthesis.Text.Stream.{
  Stream, good, peek, scan_whitespace, skip_spaces, is_space, take_run, is_end,
}
use photesthesis.Text.Digits.{read_digits}
use photesthesis.Text.Parser.{parse_value, take_sign, skip_prefix}
use photesthesis.Save.{Loaded, loaded, failed, from_parsed, ◌>>=◌}

-- `is >> str`: spaces are passed over, and a word goes up to the next space or the end. An empty word
-- sets failbit, as does a stream that is not good.
unfoldable pub read_word : Stream → Loaded Bytes
read_word s =
    let run = take_run (λ c. not (is_space c)) (skip_spaces s.rest).0 in
    if good s && not (is_end run.0)
    then loaded run.0 (record s { rest = run.1; eof = is_end run.1 })
    else failed

-- `operator>>` of a symbol; the constructor throws for another character.
unfoldable pub read_symbol : Stream → Loaded Symbol
unfolding read_word
read_symbol s =
    read_word s >>= λ name t. if all_of is_symbol_char name then loaded name t else failed

-- `operator>>` of a value into a fresh one: an opening bracket costs two units of fuel, and the end of
-- the text one.
unfoldable pub read_value : Stream → Loaded Value
unfolding parse_value
read_value s = from_parsed (parse_value (suc (length s.rest + length s.rest)) nil s)

-- `is >> std::ws`.
unfoldable pub read_ws : Stream → Loaded (Unit {0})
unfolding scan_whitespace
read_ws s = if good s then loaded tt (scan_whitespace s) else failed

-- The line up to the next newline, which is dropped, or the end.
unfoldable pub read_line : Stream → Loaded Bytes
read_line s =
    let run = take_run (λ c. not (c == 10)) s.rest in
    if good s && not (is_end s.rest)
    then loaded run.0 (record s { rest = drop_first run.1; eof = is_end run.1 })
    else failed
  where
    drop_first : Bytes → Bytes
    drop_first [] = []
    drop_first (c ∷ r) = r

-- `is.good() && is.peek() == c` for one of the characters, which looks at the stream.
unfoldable pub looks_at : (ℕ → Bool) → Stream → Bool × Stream
unfolding peek
looks_at p s =
    if good s then ((elim (peek s).0 [ none ↦ false | some c ↦ p c ]), (peek s).1) else (false, s)

-- `get` of a character that was looked at.
unfoldable pub drop_char : Stream → Stream
drop_char s = elim s.rest [ [] ↦ s | c ∷ r ↦ record s { rest = r } ]

-- `expectStr`.
unfoldable pub expect_str : Bytes → Bytes → Stream → Loaded (Unit {0})
expect_str expected got s = if list_eq (λ a b. a == b) expected got then loaded tt s else failed

-- `expectNonemptyStr`.
unfoldable pub expect_nonempty : Bytes → Stream → Loaded (Unit {0})
expect_nonempty name s = if is_end name then failed else loaded tt s

-- The base that `strtoull` finds in front of a number: `0x` for 16, `0` for 8, else 10.
unfoldable pub base_of : Bytes → ℕ
base_of (z ∷ x ∷ r) = if z == b'0' then if x == b'x' || x == b'X' then 16 else 8 else 10
base_of _ = 10

unfoldable is_octal : ℕ → Bool
is_octal c = leb b'0' c && leb c b'7'

-- `std::strtoull(s, nullptr, 0)` on a word: a number out of range gives the greatest, and one with a
-- minus its negative modulo 2^64.
unfoldable pub strtoull : Bytes → ℕ
unfolding read_digits take_sign skip_prefix is_octal
strtoull s =
    let signed = take_sign s in
    let base = base_of signed.1 in
    let text = skip_prefix (base == 16) signed.1 in
    let run = if base == 8 then (take_run is_octal text).0 else text in
    let n = (read_digits base 0 0 run).value in
    if leb (2 ^ 64) n then 2 ^ 64 - 1 else if signed.0 then (2 ^ 64 - n) % 2 ^ 64 else n
