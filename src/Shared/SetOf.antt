-- ===== src/Shared/SetOf.antt =====
-- `std::set` and `std::map` as sorted lists over an `operator<`.
pub mod Members
use photesthesis.Shared.{
  suc, ◌≡◌, refl, Bool, true, false, not, ◌&&◌, ◌||◌, List, [], ◌∷◌, arith, if◌then◌else◌, All,
  length, All-imp, In, here, there,
}
use photesthesis.Shared.Order.{IsWeakOrder, lt_trans}

module _ {ℓ} {A : Type ℓ} where
  -- The elements increase.
  abbrev pub IsSorted : (A → A → Bool) → List A → Type ℓ
  IsSorted lt [] = Unit
  IsSorted lt (x ∷ xs) = All (λ y. lt x y ≡ true) xs × IsSorted lt xs

  -- `find(x) != end()`.
  unfoldable pub set_has : (A → A → Bool) → A → List A → Bool
  set_has lt x [] = false
  set_has lt x (y ∷ ys) = if lt y x then set_has lt x ys else not (lt x y)

  -- `emplace(x)`: an element that is equivalent to one at hand is not inserted.
  unfoldable pub set_insert : (A → A → Bool) → A → List A → List A
  set_insert lt x [] = x ∷ []
  set_insert lt x (y ∷ ys) =
      if lt y x then y ∷ set_insert lt x ys else if lt x y then x ∷ y ∷ ys else y ∷ ys

  -- `emplace(x)` with the element that its iterator points to: the new one, or the one at hand.
  unfoldable pub set_emplace : (A → A → Bool) → A → List A → A × List A
  set_emplace lt x [] = (x, x ∷ [])
  set_emplace lt x (y ∷ ys) =
      let rest = set_emplace lt x ys in
      if lt y x then (rest.0, y ∷ rest.1) else if lt x y then (x, x ∷ y ∷ ys) else (y, y ∷ ys)

  -- `insert(first, last)`.
  unfoldable pub set_insert_all : (A → A → Bool) → List A → List A → List A
  set_insert_all lt [] s = s
  set_insert_all lt (x ∷ xs) s = set_insert_all lt xs (set_insert lt x s)

  -- `erase(x)`.
  unfoldable pub set_erase : (A → A → Bool) → A → List A → List A
  set_erase lt x [] = []
  set_erase lt x (y ∷ ys) = if lt y x then y ∷ set_erase lt x ys else if lt x y then y ∷ ys else ys

  -- Neither is less: what the containers take for equal.
  abbrev pub equiv : (A → A → Bool) → A → A → Bool
  equiv lt x y = not (lt x y) && not (lt y x)

  pub All-set_insert {κ} :
      (lt : A → A → Bool) (P : A → Type κ) (x : A) (xs : List A)
      → P x
      → All P xs
      → All P (set_insert lt x xs)
  unfolding set_insert
  All-set_insert lt P x [] p h = (p, tt)
  All-set_insert lt P x (y ∷ ys) p h = ground (arith, All-set_insert lt P x ys p)

  pub All-set_insert_all {κ} :
      (lt : A → A → Bool) (P : A → Type κ) (xs ys : List A)
      → All P xs
      → All P ys
      → All P (set_insert_all lt xs ys)
  unfolding set_insert_all
  All-set_insert_all lt P [] ys h k = k
  All-set_insert_all lt P (x ∷ xs) ys h k =
      All-set_insert_all lt P xs (set_insert lt x ys) h.1 (All-set_insert lt P x ys h.0 k)

  pub set_emplace-insert :
      (lt : A → A → Bool) (x : A) (xs : List A) → (set_emplace lt x xs).1 ≡ set_insert lt x xs
  unfolding set_emplace set_insert
  set_emplace-insert lt x [] = refl
  set_emplace-insert lt x (y ∷ ys) = ground (arith, set_emplace-insert lt x ys)

  In-if : {a : A} {xs ys : List A} (b : Bool) → In a xs → In a ys → In a (if b then xs else ys)
  In-if true m n = m
  In-if false m n = n

  -- An insertion keeps what the set held.
  pub In-set_insert :
      (lt : A → A → Bool) (x a : A) (xs : List A) → In a xs → In a (set_insert lt x xs)
  unfolding set_insert
  In-set_insert lt x a [] m = there m
  In-set_insert lt x a (y ∷ ys) (here e) =
      In-if (lt y x) (here e) (In-if (lt x y) (there (here e)) (here e))
  In-set_insert lt x a (y ∷ ys) (there m) =
      In-if (lt y x) (there (In-set_insert lt x a ys m))
        (In-if (lt x y) (there (there m)) (there m))

  -- The element that `emplace` points to stands in the set.
  pub set_emplace-In :
      (lt : A → A → Bool) (x : A) (xs : List A) → In (set_emplace lt x xs).0 (set_emplace lt x xs).1
  unfolding set_emplace
  set_emplace-In lt x [] = here refl
  set_emplace-In lt x (y ∷ ys) = pick (lt y x) (lt x y) (set_emplace-In lt x ys)
    where
      pick :
          (b c : Bool) {a : A} {zs : List A}
          → In a zs
          → let r : A × List A =
              if b then (a, y ∷ zs) else if c then (x, x ∷ y ∷ ys) else (y, y ∷ ys) in
            In r.0 r.1
      pick true c m = there m
      pick false true m = here refl
      pick false false m = here refl

  module _ {lt : A → A → Bool} (o : IsWeakOrder lt) where
    pub All-set_erase :
        (P : A → Type 0) (x : A) (xs : List A) → All P xs → All P (set_erase lt x xs)
    unfolding set_erase
    All-set_erase P x [] h = tt
    All-set_erase P x (y ∷ ys) h = ground (arith, All-set_erase P x ys)

    pub above :
        (x y : A) (ys : List A)
        → lt x y ≡ true
        → All (λ z. lt y z ≡ true) ys
        → All (λ z. lt x z ≡ true) ys
    above x y ys h all = All-imp (λ z q. lt_trans o x y z h q) ys all

    above_of_not :
        (x y : A) (ys : List A)
        → lt x y ≡ false
        → All (λ z. lt x z ≡ true) ys
        → All (λ z. lt y z ≡ true) ys
    above_of_not x y ys h all = All-imp (λ z q. o.cotrans x y z q h) ys all

    -- What a walk does not meet among greater elements is not there.
    pub has_above : (x : A) (ys : List A) → All (λ z. lt x z ≡ true) ys → set_has lt x ys ≡ false
    unfolding set_has
    has_above x [] h = refl
    has_above x (y ∷ ys) h = ground (arith, o.asym x y)

    -- Insertion keeps the elements increasing.
    pub set_insert-IsSorted :
        (x : A) (xs : List A) → IsSorted lt xs → IsSorted lt (set_insert lt x xs)
    unfolding set_insert
    set_insert-IsSorted x [] s = (tt, tt)
    set_insert-IsSorted x (y ∷ ys) s = ground (
      arith,
      set_insert-IsSorted x ys s.1,
      All-set_insert lt (λ z. lt y z ≡ true) x ys,
      above x y ys,
    )

    pub set_erase-IsSorted :
        (x : A) (xs : List A) → IsSorted lt xs → IsSorted lt (set_erase lt x xs)
    unfolding set_erase
    set_erase-IsSorted x [] s = tt
    set_erase-IsSorted x (y ∷ ys) s =
        ground (arith, set_erase-IsSorted x ys s.1, All-set_erase (λ z. lt y z ≡ true) x ys s.0)

    pub set_insert_all-IsSorted :
        (xs ys : List A) → IsSorted lt ys → IsSorted lt (set_insert_all lt xs ys)
    unfolding set_insert_all
    set_insert_all-IsSorted [] ys s = s
    set_insert_all-IsSorted (x ∷ xs) ys s =
        set_insert_all-IsSorted xs (set_insert lt x ys) (set_insert-IsSorted x ys s)

    -- The element that `emplace` points to is equivalent to the one given.
    pub set_emplace-equiv : (x : A) (xs : List A) → equiv lt (set_emplace lt x xs).0 x ≡ true
    unfolding set_emplace
    set_emplace-equiv x [] = ground (arith, o.asym x x)
    set_emplace-equiv x (y ∷ ys) = ground (arith, set_emplace-equiv x ys, o.asym x x)

    -- After an insertion the set holds the old elements and the new one.
    pub set_has-set_insert :
        (x y : A) (xs : List A)
        → IsSorted lt xs
        → set_has lt y (set_insert lt x xs) ≡ (equiv lt x y || set_has lt y xs)
    unfolding set_has set_insert
    set_has-set_insert x y [] s = ground arith
    set_has-set_insert x y (z ∷ zs) s = ground (
      arith,
      set_has-set_insert x y zs s.1,
      o.asym x z,
      o.asym x y,
      o.asym y z,
      o.cotrans x y z,
      o.cotrans x z y,
      o.cotrans y x z,
      o.cotrans y z x,
      o.cotrans z x y,
      o.cotrans z y x,
    )

    -- After an erasure the set holds the old elements without the one erased.
    pub set_has-set_erase :
        (x y : A) (xs : List A)
        → IsSorted lt xs
        → set_has lt y (set_erase lt x xs) ≡ (not (equiv lt x y) && set_has lt y xs)
    unfolding set_has set_erase
    set_has-set_erase x y [] s = ground arith
    set_has-set_erase x y (z ∷ zs) s = ground (
      arith,
      set_has-set_erase x y zs s.1,
      has_above y zs,
      above_of_not z y zs,
      o.asym x z,
      o.asym x y,
      o.asym y z,
      o.cotrans x y z,
      o.cotrans x z y,
      o.cotrans y x z,
      o.cotrans y z x,
      o.cotrans z x y,
      o.cotrans z y x,
    )

    pub length-set_insert :
        (x : A) (xs : List A)
        → length (set_insert lt x xs) ≡ (if set_has lt x xs then length xs else suc (length xs))
    unfolding set_has set_insert
    length-set_insert x [] = refl
    length-set_insert x (y ∷ ys) = ground (arith, length-set_insert x ys)
