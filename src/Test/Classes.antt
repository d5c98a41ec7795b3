-- ===== src/Test/Classes.antt =====
-- `CounterClasses` against the buckets that it stands for.
use photesthesis.Shared.{
  ℕ, zero, suc, ◌≤◌, ◌<◌, ◌≡◌, refl, Bool, true, ◌&&◌, arith, ltb, ◌==◌, ==_iff, if◌then◌else◌,
}
use photesthesis.Test.Counters.{class_of}

-- 0, 1 and 2 stand for themselves; 3, and the ranges from 4, 8, 16, 32 and 128 on, for a bit each.
abbrev pub bucket : ℕ → ℕ
bucket n =
    if ltb n 3
    then n
    else if ltb n 4
    then 4
    else if ltb n 8
    then 8
    else if ltb n 16
    then 16
    else if ltb n 32
    then 32
    else if ltb n 128
    then 64
    else 128

all_below : ℕ → (ℕ → Bool) → Bool
all_below zero p = true
all_below (suc n) p = p n && all_below n p

all_below-lt : (n : ℕ) (p : ℕ → Bool) (x : ℕ) → all_below n p ≡ true → x < n → p x ≡ true
unfolding all_below
all_below-lt zero p x h l = absurd (omega (arith, l))
all_below-lt (suc n) p x h l = ground (arith, all_below-lt n p x)

all_classes : all_below 256 (λ n. class_of n == bucket n) ≡ true
unfolding all_below class_of
all_classes = refl

-- The class of a counter of one byte is its bucket.
pub class_of-bucket : (n : ℕ) → n < 256 → class_of n ≡ bucket n
class_of-bucket n h =
    (==_iff (class_of n) (bucket n)).0
      (all_below-lt 256 (λ m. class_of m == bucket m) n all_classes h)

bucket-le : (m n : ℕ) → m ≤ n → bucket m ≤ bucket n
bucket-le m n h = ground arith

-- Of two counters of one byte, the one that counted more has no lower class.
pub class_of-le : (m n : ℕ) → m ≤ n → n < 256 → class_of m ≤ class_of n
class_of-le m n h l =
    rw (class_of-bucket m (omega (arith, h, l)), class_of-bucket n l) (bucket-le m n h)
