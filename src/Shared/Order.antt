-- ===== src/Shared/Order.antt =====
-- Comparison functions in the sense of C++: the laws that `std::set` and `std::map` ask of
-- `operator<`, and the lexicographic comparisons of `std::pair`, `std::tie` and `std::vector`.
use photesthesis.Shared.{
  ◌≡◌, refl, Bool, true, false, not, ◌&&◌, ◌||◌, List, [], ◌∷◌, arith, ltb, bool_lt, if◌then◌else◌,
}

-- A strict weak order: `cotrans` says that an element between two others is on one side.
pub record IsWeakOrder {ℓ} {A : Type ℓ} (lt : A → A → Bool) : Type ℓ where
  pub asym : (a b : A) → lt a b ≡ true → lt b a ≡ false
  pub cotrans : (a b c : A) → lt a c ≡ true → lt a b ≡ false → lt b c ≡ true

-- Elements of which neither is less are equal.
abbrev pub IsConnected {ℓ} : {A : Type ℓ} → (A → A → Bool) → Type ℓ
IsConnected {A = A} lt = (a b : A) → lt a b ≡ false → lt b a ≡ false → a ≡ b

-- A strict total order.
pub record IsTotalOrder {ℓ} {A : Type ℓ} (lt : A → A → Bool) : Type ℓ where
  pub weak : IsWeakOrder lt
  pub open weak use *
  pub connected : IsConnected lt

module _ {ℓ} {A : Type ℓ} {lt : A → A → Bool} (o : IsWeakOrder lt) where
  pub lt_irrefl : (a : A) → lt a a ≡ false
  lt_irrefl a = ground (arith, o.asym a a)

  pub lt_trans : (a b c : A) → lt a b ≡ true → lt b c ≡ true → lt a c ≡ true
  lt_trans a b c p q = ground (arith, o.asym b c q, o.cotrans a c b p)

pub ltb-IsTotalOrder : IsTotalOrder ltb
ltb-IsTotalOrder = record {
  weak = record { asym = λ a b h. ground arith; cotrans = λ a b c p q. ground arith };
  connected = λ a b p q. ground arith;
}

pub bool_lt-IsTotalOrder : IsTotalOrder bool_lt
bool_lt-IsTotalOrder = record {
  weak = record { asym = λ a b h. ground arith; cotrans = λ a b c p q. ground arith };
  connected = λ a b p q. ground arith;
}

-- `operator<` of `std::pair`, and of a `std::tie` of two.
module _ {ℓ κ} {A : Type ℓ} {B : Type κ} where
  abbrev pub pair_lt : (A → A → Bool) → (B → B → Bool) → A × B → A × B → Bool
  pair_lt lt_a lt_b x y = lt_a x.0 y.0 || (not (lt_a y.0 x.0) && lt_b x.1 y.1)

  pub pair_lt-IsWeakOrder :
      {lt_a : A → A → Bool} {lt_b : B → B → Bool}
      → IsWeakOrder lt_a
      → IsWeakOrder lt_b
      → IsWeakOrder {A = A × B} (pair_lt lt_a lt_b)
  pair_lt-IsWeakOrder a b = record {
    asym = λ x y h. ground (arith, a.asym x.0 y.0, b.asym x.1 y.1);
    cotrans = λ x y z p q. ground (
      arith,
      a.asym x.0 y.0,
      a.asym y.0 z.0,
      a.asym x.0 z.0,
      a.cotrans x.0 y.0 z.0,
      a.cotrans z.0 y.0 x.0,
      a.cotrans y.0 x.0 z.0,
      a.cotrans y.0 z.0 x.0,
      a.cotrans z.0 x.0 y.0,
      b.cotrans x.1 y.1 z.1,
    );
  }

  pub pair_lt-IsConnected :
      {lt_a : A → A → Bool} {lt_b : B → B → Bool}
      → IsConnected lt_a
      → IsConnected lt_b
      → IsConnected {A = A × B} (pair_lt lt_a lt_b)
  pair_lt-IsConnected a b x y p q = ground (arith, a x.0 y.0, b x.1 y.1)

-- `std::lexicographical_compare`, the `operator<` of `std::vector` and of `std::string`.
module _ {ℓ} {A : Type ℓ} where
  unfoldable pub lex : (A → A → Bool) → List A → List A → Bool
  lex lt [] [] = false
  lex lt [] (y ∷ ys) = true
  lex lt (x ∷ xs) [] = false
  lex lt (x ∷ xs) (y ∷ ys) = if lt x y then true else if lt y x then false else lex lt xs ys

  module _ {lt : A → A → Bool} (o : IsWeakOrder lt) where
    lex_asym : (xs ys : List A) → lex lt xs ys ≡ true → lex lt ys xs ≡ false
    unfolding lex
    lex_asym [] [] h = refl
    lex_asym [] (y ∷ ys) h = refl
    lex_asym (x ∷ xs) [] h = ground arith
    lex_asym (x ∷ xs) (y ∷ ys) h = ground (arith, o.asym x y, lex_asym xs ys)

    lex_cotrans :
        (xs ys zs : List A) → lex lt xs zs ≡ true → lex lt xs ys ≡ false → lex lt ys zs ≡ true
    unfolding lex
    lex_cotrans [] [] zs p q = p
    lex_cotrans [] (y ∷ ys) zs p q = ground arith
    lex_cotrans (x ∷ xs) ys [] p q = ground arith
    lex_cotrans (x ∷ xs) [] (z ∷ zs) p q = refl
    lex_cotrans (x ∷ xs) (y ∷ ys) (z ∷ zs) p q = ground (
      arith,
      o.asym x y,
      o.asym y z,
      o.asym x z,
      o.cotrans x y z,
      o.cotrans z y x,
      o.cotrans y x z,
      o.cotrans y z x,
      o.cotrans z x y,
      lex_cotrans xs ys zs,
    )

    pub lex-IsWeakOrder : IsWeakOrder (lex lt)
    lex-IsWeakOrder = record { asym = lex_asym; cotrans = lex_cotrans }

  pub lex-IsConnected : {lt : A → A → Bool} → IsConnected lt → IsConnected (lex lt)
  unfolding lex
  lex-IsConnected o [] [] p q = refl
  lex-IsConnected o [] (y ∷ ys) p q = ground arith
  lex-IsConnected o (x ∷ xs) [] p q = ground arith
  lex-IsConnected o (x ∷ xs) (y ∷ ys) p q = ground (arith, o x y, lex-IsConnected o xs ys)

  pub lex-IsTotalOrder : {lt : A → A → Bool} → IsTotalOrder lt → IsTotalOrder (lex lt)
  lex-IsTotalOrder o = record {
    weak = lex-IsWeakOrder o.weak;
    connected = lex-IsConnected o.connected;
  }
