-- ===== src/Grammar/Cycling/Rounds.antt =====
-- One round of an iterator of `extendByCycling`: what it came by, and the steps that it has left.
use photesthesis.Shared.{
  ℕ, suc, ◌+◌, ◌<◌, ◌≡◌, refl, ◌⊎◌, inl, inr, sym as path_sym, subst, Bool, true, false, ◌&&◌, ◌||◌,
  List, [], ◌∷◌, if◌then◌else◌, length, In, here, there, arith,
}
use photesthesis.Grammar.Complete.{true-is_not-false}
use photesthesis.Grammar.Cycling.{is_empty, restart}

-- Every element has what is asked, or is left to the iterator in its first round.
abbrev pub Seen : {C : Type 0} → (C → Type 0) → List C → List C → Bool → Type 0
Seen {C} P all left cycled = (x : C) → In x all → P x ⊎ ((cycled ≡ false) × In x left)

pub advance :
    {C : Type 0} (P Q : C → Type 0) (all : List C) (x : C) (left : List C) (cycled : Bool)
    → Seen P all (x ∷ left) cycled
    → Q x
    → ((y : C) → P y → Q y)
    → Seen Q all (restart all left) (cycled || is_empty left)
advance {C = C} P Q all x left cycled s q keep y m = elim (s y m) [
  | inl p ↦ inl (keep y p)
  | inr (_, here e) ↦ inl (subst Q (path_sym e) q)
  | inr (c, there n) ↦ inr (moved left n c)
]
  where
    moved :
        (l : List C)
        → In y l
        → cycled ≡ false
        → (cycled || is_empty l ≡ false) × In y (restart all l)
    moved [] n c = elim n [ ]
    moved (z ∷ zs) n c = (ground (arith, c), n)

-- The steps that an iterator has left of its first round.
abbrev pub remaining : {C : Type 0} → Bool → List C → ℕ
remaining true xs = 0
remaining false xs = length xs

pub remaining-restart :
    {C : Type 0} (all : List C) (x : C) (left : List C) (cycled : Bool)
    → remaining (cycled || is_empty left) (restart all left) + (if cycled then 0 else 1)
      ≡ remaining cycled (x ∷ left)
remaining-restart all x left true = refl
remaining-restart all x [] false = refl
remaining-restart all x (y ∷ ys) false = omega arith

pub restart-In :
    {C : Type 0} (all left : List C) (x y : C)
    → ((z : C) → In z (x ∷ left) → In z all)
    → In y (restart all left)
    → In y all
restart-In all [] x y h m = m
restart-In all (z ∷ zs) x y h m = h y (there m)

pub restart-nonempty :
    {C : Type 0} (c : C) (cs left : List C)
    → (x : C) × (xs : List C) × (restart (c ∷ cs) left ≡ x ∷ xs)
restart-nonempty c cs [] = (c, cs, refl)
restart-nonempty c cs (x ∷ xs) = (x, xs, refl)

pub fewer :
    (ci cj : Bool) (n r₁ r₂ R₁ R₂ : ℕ)
    → ci && cj ≡ false
    → r₁ + (if ci then 0 else 1) ≡ R₁
    → r₂ + (if cj then 0 else 1) ≡ R₂
    → R₁ + R₂ < suc n
    → r₁ + r₂ < n
fewer true true n r₁ r₂ R₁ R₂ b p q l = elim (true-is_not-false b) [ ]
fewer true false n r₁ r₂ R₁ R₂ b p q l = omega (arith, p, q, l)
fewer false true n r₁ r₂ R₁ R₂ b p q l = omega (arith, p, q, l)
fewer false false n r₁ r₂ R₁ R₂ b p q l = omega (arith, p, q, l)
