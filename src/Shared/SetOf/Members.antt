-- ===== src/Shared/SetOf/Members.antt =====
-- What a sorted set finds are the elements of its list.
use photesthesis.Shared.{
  refl, ◌⊎◌, ◌≡◌, subst, Bool, true, false, not, List, [], ◌∷◌, arith, if◌then◌else◌, Bool-cases,
  inl, inr, All-In, In, here, there,
}
use photesthesis.Shared.Order.{IsWeakOrder, IsTotalOrder, lt_irrefl}
use photesthesis.Shared.SetOf.{IsSorted, set_has, set_insert, set_erase}

module _ {A : Type 0} {lt : A → A → Bool} where
  -- An element of the list is found.
  pub In-set_has :
      IsWeakOrder lt → (a : A) (xs : List A) → IsSorted lt xs → In a xs → set_has lt a xs ≡ true
  unfolding set_has
  In-set_has o a [] s m = elim m [ ]
  In-set_has o a (x ∷ xs) s (here e) =
      subst (λ y. (if lt y a then set_has lt a xs else not (lt a y)) ≡ true) e (rw (lt_irrefl o a))
  In-set_has o a (x ∷ xs) s (there m) =
      rw (All-In (λ y. lt x y ≡ true) s.0 m) (In-set_has o a xs s.1 m)

  -- In a total order, what is found is an element of the list.
  pub set_has-In : IsTotalOrder lt → (a : A) (xs : List A) → set_has lt a xs ≡ true → In a xs
  unfolding set_has
  set_has-In o a [] h = ground (arith, h)
  set_has-In o a (x ∷ xs) h = elim (Bool-cases (lt x a)) [
    | inl less ↦ there (set_has-In o a xs (found less h))
    | inr p ↦ here (o.connected a x (met p h) p)
  ]
    where
      found :
          lt x a ≡ true
          → (if lt x a then set_has lt a xs else not (lt a x)) ≡ true
          → set_has lt a xs ≡ true
      found less q = ground (arith, less, q)

      met :
          lt x a ≡ false
          → (if lt x a then set_has lt a xs else not (lt a x)) ≡ true
          → lt a x ≡ false
      met p q = ground (arith, p, q)

  -- The erasure of the first element leaves the rest.
  pub set_erase-first : IsWeakOrder lt → (x : A) (xs : List A) → set_erase lt x (x ∷ xs) ≡ xs
  unfolding set_erase
  set_erase-first o x xs = rw (lt_irrefl o x)

pub set_erase-later :
    {A : Type 0} (lt : A → A → Bool) (a x : A) (xs : List A)
    → IsSorted lt (x ∷ xs)
    → In a xs
    → set_erase lt a (x ∷ xs) ≡ x ∷ set_erase lt a xs
unfolding set_erase
set_erase-later lt a x xs s m = rw (All-In (λ y. lt x y ≡ true) s.0 m)

-- What was inserted stands in the set, if the order is total.
pub new-In :
    {A : Type 0} {lt : A → A → Bool}
    → IsTotalOrder lt
    → (x : A) (xs : List A) → In x (set_insert lt x xs)
unfolding set_insert
new-In o x [] = here refl
new-In {lt = lt} o x (y ∷ ys) = elim (Bool-cases (lt y x)) [
  | inl less ↦ rw less (there (new-In o x ys))
  | inr p ↦ elim (Bool-cases (lt x y)) [
    | inl greater ↦ rw (p, greater) (here refl)
    | inr q ↦ rw (p, q) (here (o.connected x y q p))
  ]
]

-- An element of the set after an insertion is the new one or an old one.
pub In-insert_inv :
    {A : Type 0} (lt : A → A → Bool) (x a : A) (xs : List A)
    → In a (set_insert lt x xs)
    → (a ≡ x) ⊎ In a xs
unfolding set_insert
In-insert_inv lt x a [] (here e) = inl e
In-insert_inv lt x a [] (there m) = elim m [ ]
In-insert_inv lt x a (y ∷ ys) m = pick (lt y x) (lt x y) (In-insert_inv lt x a ys) m
  where
    pick :
        (b c : Bool)
        → (In a (set_insert lt x ys) → (a ≡ x) ⊎ In a ys)
        → In a (if b then y ∷ set_insert lt x ys else if c then x ∷ y ∷ ys else y ∷ ys)
        → (a ≡ x) ⊎ In a (y ∷ ys)
    pick true c f (here e) = inr (here e)
    pick true c f (there n) = elim (f n) [ inl e ↦ inl e | inr k ↦ inr (there k) ]
    pick false true f (here e) = inl e
    pick false true f (there n) = inr n
    pick false false f n = inr n
