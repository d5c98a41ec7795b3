-- ===== src/Text/Numbers.antt =====
-- Numbers read back as they were written.
use photesthesis.Shared.{
  ℕ, zero, suc, ◌+◌, ◌*◌, ◌/◌, ◌%◌, ◌≤◌, ◌<◌, ◌≡◌, refl, Bool, true, false, [], ◌∷◌, ◌++◌,
  append_assoc, none, some, ltb, arith, Bool-cases, inl, inr, length, length-append, ◌∙◌,
}
use photesthesis.Shared.Ints.{ℤ, pos, negsuc, IsInt64}
use photesthesis.Symbol.{Bytes, is_digit}
use photesthesis.Text.Stream.{open_text, is_end}
use photesthesis.Text.Digits.{digit_char, digit_value, digits, read_digits}
use photesthesis.Text.Printer.{print_int}
use photesthesis.Text.Parser.{read_int64, take_sign, skip_prefix, fit_int64}
use native.Mathlib.Nat.{div-add-mod', mod-lt}
use mathlib.Core.Path.{ap, ap₂}

digit_value-char :
    (base d : ℕ) → 10 ≤ base → base ≤ 16 → d < base → digit_value base (digit_char d) ≡ some d
unfolding digit_value digit_char
digit_value-char base d p q h = ground arith

read_digits-cons :
    (base acc k d : ℕ) (r : Bytes)
    → 10 ≤ base
    → base ≤ 16
    → d < base
    → read_digits base acc k (digit_char d ∷ r) ≡ read_digits base (acc * base + d) (k + 1) r
unfolding read_digits
read_digits-cons base acc k d r p q h = rw (digit_value-char base d p q h, read_digits)

quotient_less : (base f n : ℕ) → 10 ≤ base → n < suc f → ltb n base ≡ false → n / base < f
quotient_less base f n p h large =
    let e = div-add-mod' n base in let big : base ≤ n = ground arith in grind arith

-- Reading what `digits` wrote gives the number, and goes on behind it.
pub read_digits-digits :
    (base f n k : ℕ) (r : Bytes)
    → 10 ≤ base
    → base ≤ 16
    → n < f
    → read_digits base 0 k (digits base f n ++ r)
      ≡ read_digits base n (k + length (digits base f n)) r
unfolding digits
read_digits-digits base zero n k r p q h = elim h [ ]
read_digits-digits base (suc f) n k r p q h = elim (Bool-cases (ltb n base)) [
  | inl small ↦ rw small (
      read_digits-cons base 0 k n r p q (ground arith)
      ∙ ap (λ m. read_digits base m (k + 1) r) (omega arith))
  | inr large ↦
      rw (large, append_assoc)
        (read_digits-digits base f (n / base) k (digit_char (n % base) ∷ r) p q
            (quotient_less base f n p h large)
          ∙ read_digits-cons base (n / base) _ (n % base) r p q (mod-lt n (omega arith))
          ∙ ap₂ (λ m j. read_digits base m j r) (div-add-mod' n base)
              (omega
                (arith, length-append (digits base f (n / base)) (digit_char (n % base) ∷ []))))
]

unfoldable pub starts_digit : Bytes → Bool
starts_digit [] = false
starts_digit (c ∷ r) = is_digit c

is_digit-char : (d : ℕ) → d < 10 → is_digit (digit_char d) ≡ true
unfolding is_digit digit_char
is_digit-char d h = ground arith

-- The digit below the last, whatever stands in front of it.
starts_digit-last :
    (f n : ℕ) (r : Bytes)
    → starts_digit (digits 10 f (n / 10) ++ digit_char (n % 10) ∷ r) ≡ true
    → starts_digit (digits 10 (suc f) n ++ r) ≡ true
unfolding digits starts_digit
starts_digit-last f n r h = elim (Bool-cases (ltb n 10)) [
  | inl small ↦ rw small (is_digit-char n (ground arith))
  | inr large ↦ rw (large, append_assoc) h
]

pub starts_digit-digits : (f n : ℕ) (r : Bytes) → starts_digit (digits 10 (suc f) n ++ r) ≡ true
unfolding digits starts_digit
starts_digit-digits zero n r =
    starts_digit-last zero n r (is_digit-char (n % 10) (mod-lt n (omega arith)))
starts_digit-digits (suc f) n r =
    starts_digit-last (suc f) n r (starts_digit-digits f (n / 10) (digit_char (n % 10) ∷ r))

-- The character ends a decimal number.
abbrev pub EndsNumber : ℕ → Type 0
EndsNumber c = digit_value 10 c ≡ none

read_digits_stop :
    (acc k c : ℕ) (r : Bytes)
    → EndsNumber c
    → read_digits 10 acc k (c ∷ r) ≡ record { value = acc; count = k; left = c ∷ r }
unfolding read_digits
read_digits_stop acc k c r h = rw (h, read_digits)

take_sign-digits : (s : Bytes) → starts_digit s ≡ true → take_sign s ≡ (false, s)
unfolding take_sign starts_digit is_digit
take_sign-digits [] h = cc
take_sign-digits (c ∷ r) h = ground arith

length-digits_pos : (base f n : ℕ) → 0 < length (digits base (suc f) n)
unfolding digits
length-digits_pos base f n = elim (Bool-cases (ltb n base)) [
  | inl small ↦ rw small (omega arith)
  | inr large ↦
      rw large
        (omega (arith, length-append (digits base f (n / base)) (digit_char (n % base) ∷ [])))
]

-- A decimal number read off the front of a text.
pub read_decimal :
    (n c : ℕ) (r : Bytes)
    → EndsNumber c
    → read_digits 10 0 0 (digits 10 (suc n) n ++ c ∷ r)
      ≡ record { value = n; count = length (digits 10 (suc n) n); left = c ∷ r }
read_decimal n c r h =
    read_digits-digits 10 (suc n) n 0 (c ∷ r) (omega arith) (omega arith) (omega arith)
    ∙ read_digits_stop n _ c r h
    ∙ ap (λ k. record { value = n; count = k; left = c ∷ r }) (omega arith)

read_int64_lem :
    (text left : Bytes) (neg : Bool) (n k : ℕ) (i : ℤ) (s : Bytes)
    → take_sign s ≡ (neg, text)
    → read_digits 10 0 0 text ≡ record { value = n; count = k; left = left }
    → 0 < k
    → fit_int64 neg n ≡ (i, true)
    → read_int64 (open_text s) ≡ (i, record (open_text left) { eof = is_end left })
unfolding read_int64 skip_prefix
read_int64_lem text left neg n k i s sign run some_digit fits = rw (sign, run, fits) (ground arith)

-- An integer of the program, written in decimal, reads back, and the stream stands behind it.
pub read_int64-print_int :
    (i : ℤ) (c : ℕ) (r : Bytes)
    → IsInt64 i
    → EndsNumber c
    → read_int64 (open_text (print_int false i ++ c ∷ r)) ≡ (i, open_text (c ∷ r))
unfolding print_int
read_int64-print_int (pos n) c r h e =
    read_int64_lem (digits 10 (suc n) n ++ c ∷ r) (c ∷ r) false n _ (pos n) _
      (take_sign-digits _ (starts_digit-digits n n (c ∷ r))) (read_decimal n c r e)
      (length-digits_pos 10 n n) (unfold fit_int64 in ground arith)
read_int64-print_int (negsuc n) c r h e =
    read_int64_lem (digits 10 (suc (suc n)) (suc n) ++ c ∷ r) (c ∷ r) true (suc n) _ (negsuc n) _
      (unfold take_sign in refl) (read_decimal (suc n) c r e) (length-digits_pos 10 (suc n) (suc n))
      (unfold fit_int64 in ground arith)
