-- ===== src/Grammar/Scope.antt =====
-- What a context holds, and that taking off as many names as were put on restores it.
use photesthesis.Shared.{
  ℕ, zero, suc, ◌≡◌, refl, ◌↔◌, ◌⊎◌, inl, inr, ◌∙◌, ap, sym as path_sym, Bool, true, ◌||◌, List, [],
  ◌∷◌, ◌++◌, Option, none, some, arith, any_of, length, All, In, here, there, map, Bool-cases,
}
use mathlib.Core.List.{reverse_aux}
use photesthesis.Symbol.{Symbol, symbol_eq}
use photesthesis.Value.Equality.{symbol_eq_iff}
use photesthesis.VecMap.{vec_map_has}
use photesthesis.Plan.{ParamSpecs}
use photesthesis.Grammar.{
  Context, push, push_all, pop, pop_back, with_names, then_pop, has, has_all, has_none,
}

pop_back-append : {A : Type 0} (xs : List A) (x : A) → pop_back (xs ++ (x ∷ [])) ≡ some xs
unfolding pop_back
pop_back-append [] x = refl
pop_back-append (y ∷ ys) x = rw (pop_back-append ys x)

-- One name off the end, and then the rest, is the rest and then one.
pop-suc : (n : ℕ) (c : Context) → pop (suc n) c ≡ then_pop (pop 1) (pop n c)
unfolding pop
pop-suc zero c = refl
pop-suc (suc n) c = next (λ c'. pop-suc n c') (with_names c (pop_back c.local_names))
  where
    next :
        ((c' : Context) → pop (suc n) c' ≡ then_pop (pop 1) (pop n c'))
        → (o : Option Context) → then_pop (pop (suc n)) o ≡ then_pop (pop 1) (then_pop (pop n) o)
    next h none = refl
    next h (some c') = h c'

-- What was put on is taken off.
pub pop-push_all : (ss : List Symbol) (c : Context) → pop (length ss) (push_all ss c) ≡ some c
unfolding pop push_all push
pop-push_all [] c = refl
pop-push_all (s ∷ ss) c =
    pop-suc (length ss) (push_all ss (push s c))
    ∙ ap (then_pop (pop 1)) (pop-push_all ss (push s c))
    ∙ rw (pop_back-append c.local_names s)

-- A name is in scope as a parameter of the plan or by an extension on the way.
abbrev pub InScope : Context → Symbol → Type 0
InScope c s = In s (map (λ p. p.0) c.global_specs) ⊎ In s c.local_names

any_of-reverse_aux :
    (p : Symbol → Bool) (xs acc : List Symbol)
    → any_of p (reverse_aux xs acc) ≡ (any_of p xs || any_of p acc)
any_of-reverse_aux p [] acc = refl
any_of-reverse_aux p (x ∷ xs) acc = ground (arith, any_of-reverse_aux p xs (x ∷ acc))

In-any_of : (s : Symbol) (xs : List Symbol) → In s xs → any_of (λ i. symbol_eq i s) xs ≡ true
In-any_of s [] m = elim m [ ]
In-any_of s (x ∷ xs) (here e) = rw ((symbol_eq_iff x s).1 (path_sym e))
In-any_of s (x ∷ xs) (there m) = ground (arith, In-any_of s xs m)

any_of-In : (s : Symbol) (xs : List Symbol) → any_of (λ i. symbol_eq i s) xs ≡ true → In s xs
any_of-In s [] h = ground (arith, h)
any_of-In s (x ∷ xs) h = elim (Bool-cases (symbol_eq x s)) [
  | inl e ↦ here (path_sym ((symbol_eq_iff x s).0 e))
  | inr e ↦ there (any_of-In s xs (ground (arith, e, h)))
]

-- A parameter's name is found in the specifications.
vec_map_has-any_of :
    (m : ParamSpecs) (s : Symbol) → vec_map_has m s ≡ any_of (λ i. symbol_eq i s) (map (λ p. p.0) m)
unfolding vec_map_has
vec_map_has-any_of [] s = refl
vec_map_has-any_of (p ∷ m) s = ground (arith, vec_map_has-any_of m s)

-- `has` as one test.
has-tests :
    (c : Context) (s : Symbol)
    → has c s ≡ (
        any_of (λ i. symbol_eq i s) (map (λ p. p.0) c.global_specs)
        || any_of (λ i. symbol_eq i s) c.local_names)
unfolding has
has-tests c s = ground (
  arith,
  vec_map_has-any_of c.global_specs s,
  any_of-reverse_aux (λ i. symbol_eq i s) c.local_names [],
)

-- `has` answers true exactly on the names in scope.
pub has_iff : (c : Context) (s : Symbol) → (has c s ≡ true) ↔ InScope c s
has_iff c s =
    let p = any_of (λ i. symbol_eq i s) (map (λ q. q.0) c.global_specs) in
    let q = any_of (λ i. symbol_eq i s) c.local_names in
    rw (has-tests c s) (
      λ h. elim (Bool-cases p) [
        | inl e ↦ inl (any_of-In s _ e)
        | inr e ↦ inr (any_of-In s _ (ground (arith, e, h)))
      ],
      λ h. elim h [
        | inl m ↦ ground (arith, In-any_of s _ m)
        | inr m ↦ ground (arith, In-any_of s _ m)
      ],
    )

-- Every name is in scope, and none is.
pub has_all_iff : (c : Context) (ss : List Symbol) → (has_all c ss ≡ true) ↔ All (InScope c) ss
unfolding has_all
has_all_iff c [] = (λ h. tt, λ h. refl)
has_all_iff c (s ∷ ss) = elim (Bool-cases (has c s)) [
  | inl e ↦ rw e (λ h. ((has_iff c s).0 e, (has_all_iff c ss).0 h), λ h. (has_all_iff c ss).1 h.1)
  | inr e ↦ rw e (λ h. ground (arith, h), λ h. ground (arith, e, (has_iff c s).1 h.0))
]

pub has_none_iff :
    (c : Context) (ss : List Symbol) → (has_none c ss ≡ true) ↔ All (λ s. ¬ InScope c s) ss
unfolding has_none
has_none_iff c [] = (λ h. tt, λ h. refl)
has_none_iff c (s ∷ ss) = elim (Bool-cases (has c s)) [
  | inr e ↦ rw e (
    λ h. (λ m. ground (arith, e, (has_iff c s).1 m), (has_none_iff c ss).0 h),
    λ h. (has_none_iff c ss).1 h.1,
  )
  | inl e ↦ rw e (λ h. ground (arith, h), λ h. elim (h.0 ((has_iff c s).0 e)) [ ])
]
