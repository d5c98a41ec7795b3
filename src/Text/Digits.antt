-- ===== src/Text/Digits.antt =====
-- Numbers written in a base, as the streams of the standard library write and read them.
use photesthesis.Shared.{
  ℕ, zero, suc, ◌+◌, ◌-◌, ◌*◌, ◌/◌, ◌%◌, ◌&&◌, [], ◌∷◌, ◌++◌, Option, none, some, leb, ltb,
  if◌then◌else◌,
}
use photesthesis.Symbol.{Bytes}

-- The digit of a number below 16, in lower case.
unfoldable pub digit_char : ℕ → ℕ
digit_char d = if ltb d 10 then b'0' + d else b'a' + (d - 10)

-- The value of a digit of the base.
unfoldable pub digit_value : ℕ → ℕ → Option ℕ
digit_value base c =
    if leb b'0' c && leb c b'9'
    then some (c - b'0')
    else if ltb 10 base && (leb b'a' c && leb c b'f')
    then some (c - b'a' + 10)
    else if ltb 10 base && (leb b'A' c && leb c b'F')
    then some (c - b'A' + 10)
    else none

-- A number in a base, the leading digit first; `fuel` above the number is enough.
unfoldable pub digits : ℕ → ℕ → ℕ → Bytes
digits base zero n = []
digits base (suc f) n =
    let front = digits base f (n / base) in
    if ltb n base then digit_char n ∷ [] else front ++ digit_char (n % base) ∷ []

-- The run of digits at the front of a text: the value after `acc`, how many were read, and the rest.
pub record DigitRun : Type 0 where
  pub value : ℕ
  pub count : ℕ
  pub left : Bytes

unfoldable pub read_digits : ℕ → ℕ → ℕ → Bytes → DigitRun
unfolding digit_value
read_digits base acc k [] = record { value = acc; count = k; left = [] }
read_digits base acc k (c ∷ r) = elim (digit_value base c) [
  | none ↦ record { value = acc; count = k; left = c ∷ r }
  | some d ↦ read_digits base (acc * base + d) (k + 1) r
]
