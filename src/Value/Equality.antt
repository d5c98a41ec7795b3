-- ===== src/Value/Equality.antt =====
-- `operator==` of src/value.cpp decides equality.
use photesthesis.Shared.{
  ◌≡◌, refl, ◌↔◌, Bool, true, false, not, arith, ==_iff, bool_eq_iff, list_eq_iff, ap,
  if◌then◌else◌,
}
use mathlib.Core.Path.{ap₂}
use photesthesis.Shared.Ints.{int_eq_iff}
use photesthesis.Symbol.{symbol_eq, Symbol}
use photesthesis.Value.{
  Value, Cells, nil, pair, sym, bool, int64, blob, string, null, cell, value_eq, cells_eq,
}

pub symbol_eq_iff : (a b : Symbol) → (symbol_eq a b ≡ true) ↔ (a ≡ b)
unfolding symbol_eq
symbol_eq_iff a b = list_eq_iff _ ==_iff a b

-- Past an early return of false.
past_return : (b r : Bool) → (if not b then false else r) ≡ true → (b ≡ true) × (r ≡ true)
past_return b r h = ground arith

mutual
  unfolding value_eq

  value_eq_sound : (a b : Value) → value_eq a b ≡ true → a ≡ b
  value_eq_sound nil nil h = refl
  value_eq_sound (pair x t) (pair y u) h =
      let both = past_return (value_eq x y) _ h in
      ap₂ pair (value_eq_sound x y both.0) (cells_eq_sound t u both.1)
  value_eq_sound (sym a) (sym b) h = ap sym ((symbol_eq_iff a b).0 h)
  value_eq_sound (bool a) (bool b) h = ap bool ((bool_eq_iff a b).0 h)
  value_eq_sound (int64 a) (int64 b) h = ap int64 ((int_eq_iff a b).0 h)
  value_eq_sound (blob a) (blob b) h = ap blob ((list_eq_iff _ ==_iff a b).0 h)
  value_eq_sound (string a) (string b) h = ap string ((list_eq_iff _ ==_iff a b).0 h)
  value_eq_sound _ _ h = cc

  cells_eq_sound : (t u : Cells) → cells_eq t u ≡ true → t ≡ u
  cells_eq_sound null null h = refl
  cells_eq_sound (cell x t) (cell y u) h =
      let both = past_return (value_eq x y) _ h in
      ap₂ cell (value_eq_sound x y both.0) (cells_eq_sound t u both.1)
  cells_eq_sound _ _ h = cc

mutual
  unfolding value_eq

  value_eq_refl : (a : Value) → value_eq a a ≡ true
  value_eq_refl nil = refl
  value_eq_refl (pair x t) = rw (value_eq_refl x) (cells_eq_refl t)
  value_eq_refl (sym a) = (symbol_eq_iff a a).1 refl
  value_eq_refl (bool a) = (bool_eq_iff a a).1 refl
  value_eq_refl (int64 a) = (int_eq_iff a a).1 refl
  value_eq_refl (blob a) = (list_eq_iff _ ==_iff a a).1 refl
  value_eq_refl (string a) = (list_eq_iff _ ==_iff a a).1 refl

  cells_eq_refl : (t : Cells) → cells_eq t t ≡ true
  cells_eq_refl null = refl
  cells_eq_refl (cell x t) = rw (value_eq_refl x) (cells_eq_refl t)

-- Two values compare equal exactly when they are the same value.
pub value_eq_iff : (a b : Value) → (value_eq a b ≡ true) ↔ (a ≡ b)
value_eq_iff a b = (value_eq_sound a b, λ e. rw e (value_eq_refl b))
