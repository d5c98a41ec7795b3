-- ===== src/Shared/Compose.antt =====
-- Orders made of orders: through a function, and one after another.
use photesthesis.Shared.{◌≡◌, Bool, true, false, arith, if◌then◌else◌}
use photesthesis.Shared.Order.{IsWeakOrder}

module _ {ℓ κ} {A : Type ℓ} {B : Type κ} where
  -- Elements are compared by what a function makes of them.
  abbrev pub by : (A → B) → (B → B → Bool) → A → A → Bool
  by f lt a b = lt (f a) (f b)

  pub by-IsWeakOrder : (f : A → B) {lt : B → B → Bool} → IsWeakOrder lt → IsWeakOrder (by f lt)
  by-IsWeakOrder f o = record {
    asym = λ a b. o.asym (f a) (f b);
    cotrans = λ a b c. o.cotrans (f a) (f b) (f c);
  }

module _ {ℓ} {A : Type ℓ} where
  -- `if (a < b) return true; if (b < a) return false;`, and then another comparison.
  abbrev pub then_by : (A → A → Bool) → (A → A → Bool) → A → A → Bool
  then_by lt next a b = if lt a b then true else if lt b a then false else next a b

  pub then_by-IsWeakOrder :
      (lt next : A → A → Bool) → IsWeakOrder lt → IsWeakOrder next → IsWeakOrder (then_by lt next)
  then_by-IsWeakOrder lt next p q = record {
    asym = λ a b. ground (arith, p.asym a b, q.asym a b);
    cotrans = λ a b c. ground (
      arith,
      p.asym a b,
      p.asym b c,
      p.asym a c,
      p.cotrans a b c,
      p.cotrans c b a,
      p.cotrans b a c,
      p.cotrans b c a,
      p.cotrans c a b,
      q.cotrans a b c,
    );
  }

  -- Of two elements that such an order leaves unordered, both its parts do.
  pub then_by_unordered :
      (lt next : A → A → Bool) (a b : A)
      → then_by lt next a b ≡ false
      → then_by lt next b a ≡ false
      → (lt a b ≡ false) × (lt b a ≡ false) × (next a b ≡ false) × (next b a ≡ false)
  then_by_unordered lt next a b p q = ground arith
