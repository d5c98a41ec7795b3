-- ===== src/Shared/Ints.antt =====
-- Signed integers over the native numbers (`int64_t` values), and their comparison.
use photesthesis.Shared.{ℕ, ◌≡◌, ◌↔◌, Bool, true, false, arith, ltb, ◌==◌, ◌<◌, ◌^◌}
use photesthesis.Shared.Order.{IsTotalOrder}

-- `negsuc n` is -(n + 1).
pub data ℤ : Type 0 where
  pos : ℕ → ℤ
  negsuc : ℕ → ℤ

abbrev pub int_eq : ℤ → ℤ → Bool
int_eq (pos a) (pos b) = a == b
int_eq (negsuc a) (negsuc b) = a == b
int_eq _ _ = false

abbrev pub int_lt : ℤ → ℤ → Bool
int_lt (pos a) (pos b) = ltb a b
int_lt (negsuc a) (negsuc b) = ltb b a
int_lt (negsuc a) (pos b) = true
int_lt (pos a) (negsuc b) = false

-- The values of an `int64_t`.
abbrev pub IsInt64 : ℤ → Type 0
IsInt64 (pos n) = n < 2 ^ 63
IsInt64 (negsuc n) = n < 2 ^ 63

pub int_eq_iff : (a b : ℤ) → (int_eq a b ≡ true) ↔ (a ≡ b)
int_eq_iff (pos a) (pos b) = ground arith
int_eq_iff (negsuc a) (negsuc b) = ground arith
int_eq_iff (pos a) (negsuc b) = ground arith
int_eq_iff (negsuc a) (pos b) = ground arith

pub int_lt-IsTotalOrder : IsTotalOrder int_lt
int_lt-IsTotalOrder = record {
  weak = record { asym = λ a b h. ground arith; cotrans = λ a b c p q. ground arith };
  connected = λ a b p q. ground arith;
}
