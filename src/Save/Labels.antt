-- ===== src/Save/Labels.antt =====
-- The label of a transcript: `(manual)`, or the hash of its plan.
use photesthesis.Shared.{
  ℕ, zero, suc, ◌-◌, ◌/◌, ◌%◌, ◌^◌, ◌<◌, ◌≡◌, ◌⊎◌, refl, ◌∙◌, ap, sym as path_sym, Bool, true,
  false, [], ◌∷◌, ◌++◌, append-nil, arith, if◌then◌else◌, all_of, codes, list_eq, ◌==◌, ==_iff, leb,
  ltb, Bool-cases, inl, inr,
}
use photesthesis.Symbol.{Bytes}
use photesthesis.Plan.{Plan, get_hash_code}
use photesthesis.Text.Stream.{Stream, is_space}
use photesthesis.Text.Digits.{digits, digit_char, DigitRun, read_digits}
use photesthesis.Text.Parser.{take_sign, skip_prefix}
use photesthesis.Text.Numbers.{read_digits-digits}
use photesthesis.Save.{loaded}
use photesthesis.Save.Tokens.{strtoull, base_of}
use photesthesis.Save.Transcripts.{print_label, read_label, expect_hash}
use photesthesis.Save.Reading.{is_black, IsWord}

all_of-append :
    (p : ℕ → Bool) (s t : Bytes) → all_of p s ≡ true → all_of p t ≡ true → all_of p (s ++ t) ≡ true
all_of-append p [] t h k = k
all_of-append p (c ∷ s) t h k = ground (arith, h, k, all_of-append p s t)

digit_black : (d : ℕ) → d < 16 → is_black (digit_char d) ≡ true
unfolding digit_char is_space
digit_black d h = ground (arith, h)

digits_black : (f n : ℕ) → all_of is_black (digits 16 f n) ≡ true
unfolding digits
digits_black zero n = refl
digits_black (suc f) n = elim (Bool-cases (ltb n 16)) [
  | inl small ↦ rw (small, digit_black n (ground (arith, small)))
  | inr large ↦ rw large (
      all_of-append is_black (digits 16 f (n / 16)) (digit_char (n % 16) ∷ [])
        (digits_black f (n / 16)) (rw (digit_black (n % 16) (omega arith))))
]

read_hex : (n : ℕ) → (read_digits 16 0 0 (digits 16 (suc n) n)).value ≡ n
unfolding read_digits
read_hex n =
    ap (λ s. (read_digits 16 0 0 s).value) (path_sym (append-nil (digits 16 (suc n) n)))
    ∙ ap (λ (r : DigitRun). r.value)
        (read_digits-digits 16 (suc n) n 0 [] (omega arith) (omega arith) (omega arith))

-- The hash reads back.
strtoull-digits : (n : ℕ) → n < 2 ^ 64 → strtoull (codes "0x" ++ digits 16 (suc n) n) ≡ n
unfolding strtoull base_of take_sign skip_prefix
strtoull-digits n h = let fits : leb (2 ^ 64) n ≡ false = ground (arith, h) in rw (read_hex n, fits)

-- The label behind the space, of a plan that is manual or has this hash.
abbrev pub label_word : Bool → ℕ → Bytes
label_word true code = codes "(manual)"
label_word false code = codes "0x" ++ digits 16 (suc code) code

pub print_label-word :
    (hash : Bytes → ℕ) (plan : Plan)
    → print_label hash plan ≡ 32 ∷ label_word plan.is_manual (get_hash_code hash plan)
unfolding print_label
print_label-word hash plan = pick plan.is_manual (get_hash_code hash plan)
  where
    pick :
        (b : Bool) (code : ℕ)
        → (if b then codes " (manual)" else codes " 0x" ++ digits 16 (suc code) code)
          ≡ 32 ∷ label_word b code
    pick true code = refl
    pick false code = refl

-- A hash that `operator>>` takes: neither 0 nor the greatest.
abbrev pub IsHash : ℕ → Type 0
IsHash code = (code == 0 ≡ false) × (code < 2 ^ 64 - 1)

pub label_word-IsWord : (b : Bool) (code : ℕ) → IsWord (label_word b code)
unfolding is_space
label_word-IsWord true code = record { black = refl; some_left = refl }
label_word-IsWord false code = record { black = digits_black (suc code) code; some_left = refl }

-- What is read of a label.
abbrev pub label_of : Bool → ℕ → Bool × ℕ
label_of true code = (true, 0)
label_of false code = (false, code)

pub read_label-word :
    (b : Bool) (code : ℕ) (s : Stream)
    → (b ≡ true) ⊎ IsHash code
    → read_label (label_word b code) s ≡ loaded (label_of b code) s
unfolding read_label list_eq
read_label-word true code s h = refl
read_label-word false code s (inl e) = absurd (ground (arith, e))
read_label-word false code s (inr h) =
    let least : (code == 2 ^ 64 - 1) ≡ false = ground (arith, h.1) in
    rw (strtoull-digits code (omega (arith, h.1)), h.0, least)

pub label_of-first : (b : Bool) (code : ℕ) → (label_of b code).0 ≡ b
label_of-first true code = refl
label_of-first false code = refl

pub expect_hash-label :
    (hash : Bytes → ℕ) (b : Bool) (plan : Plan) (s : Stream)
    → expect_hash hash (label_of b (get_hash_code hash plan)) plan s ≡ loaded tt s
unfolding expect_hash
expect_hash-label hash true plan s = refl
expect_hash-label hash false plan s =
    rw ((==_iff (get_hash_code hash plan) (get_hash_code hash plan)).1 refl)
