-- ===== src/Grammar/Language.antt =====
-- The values of a grammar, described without its algorithms, and that what `randomValueFromRule` and
-- `randomlyPopulatePlan` return is among them.
use photesthesis.Shared.{
  ℕ, zero, suc, ◌≡◌, refl, inl, inr, ◌∙◌, sym as path_sym, subst, Bool, true, false, List, [], ◌∷◌,
  ◌++◌, append_assoc, append-nil, some, length, In, here, there,
}
use photesthesis.Shared.MapOf.{map_find}
use photesthesis.Symbol.{Symbol, symbol_lt}
use photesthesis.Value.{Value, sym, of_list}
use photesthesis.Grammar.{
  Context, Production, Atom, Ref, lit, ref, Grammar, Result, ok, error, ◌>>=◌, ◌>>◌, assert,
  push_all, get_active_productions,
}
use photesthesis.Grammar.Scope.{pop-push_all}
use photesthesis.Grammar.Active.{IsEnabled, IsActive, get_active_productions_lem}
use photesthesis.Grammar.Random.{
  at, begins_with, pick_uniform, expand_atoms, expand_one, random_value_from_rule,
}

-- The rule derives the value within the depth, where the context is at hand: the elements of the value
-- are the name of the rule and what the atoms of an enabled production derive. A reference extends the
-- context and takes one off the depth.
mutual
  pub data Derives (g : Grammar) : Context → Symbol → ℕ → Value → Type 0 where
    production :
        {c : Context} {rule : Symbol} {d : ℕ} {prods : List Production} (p : Production)
        {vals : List Value}
        → map_find symbol_lt rule g.rules ≡ some prods
        → In p prods
        → IsEnabled c p
        → DeriveAll g c d p.atoms vals
        → Derives g c rule (suc d) (of_list (sym rule ∷ vals))

  pub data DeriveAll (g : Grammar) : Context → ℕ → List Atom → List Value → Type 0 where
    none_left : {c : Context} {d : ℕ} → DeriveAll g c d [] []
    literal :
        {c : Context} {d : ℕ} {a : ℕ} {v : Value} {atoms : List Atom} {vals : List Value}
        → DeriveAll g c d atoms vals
        → DeriveAll g c d (lit a v ∷ atoms) (v ∷ vals)
    reference :
        {c : Context} {d : ℕ} {r : Ref} {v : Value} {atoms : List Atom} {vals : List Value}
        → Derives g (push_all r.ctx_ext c) r.rule_name d v
        → DeriveAll g c d atoms vals
        → DeriveAll g c d (ref r ∷ atoms) (v ∷ vals)

-- The result, if there is one, is as the predicate says.
abbrev pub Yields : {A : Type 0} → (A → Type 0) → Result A → Type 0
Yields P (ok a) = P a
Yields P (error e) = Unit

pub Yields->>= :
    {A B : Type 0} (P : A → Type 0) (Q : B → Type 0) (m : Result A) (f : A → Result B)
    → Yields P m
    → ((a : A) → P a → Yields Q (f a))
    → Yields Q (m >>= f)
Yields->>= P Q (ok a) f h k = k a h
Yields->>= P Q (error e) f h k = tt

pub Yields-imp :
    {A : Type 0} {P Q : A → Type 0} (m : Result A) → Yields P m → ((a : A) → P a → Q a) → Yields Q m
Yields-imp (ok a) h k = k a h
Yields-imp (error e) h k = tt

pub Yields-assert :
    {A : Type 0} (P : A → Type 0) (b : Bool) (m : Result A) → Yields P m → Yields P (assert b >> m)
Yields-assert P true m h = h
Yields-assert P false m h = tt

at-In : {A : Type 0} (n : ℕ) (xs : List A) → Yields (λ x. In x xs) (at n xs)
unfolding at
at-In n [] = tt
at-In zero (x ∷ xs) = here refl
at-In (suc n) (x ∷ xs) = Yields-imp (at n xs) (at-In n xs) (λ y m. there m)

-- There is an active production, and each is one of the rule's and enabled.
pub get_active_productions-IsActive :
    (g : Grammar) (rule : Symbol) (d : ℕ) (c : Context)
    → Yields
        (λ (ps : List Production).
          (first : Production) × (rest : List Production) × (prods : List Production) × (ps
            ≡ first ∷ rest)
          × (map_find symbol_lt rule g.rules ≡ some prods)
          × ((p : Production) → In p ps → In p prods × IsActive d c p))
        (get_active_productions g rule d c)
get_active_productions-IsActive g rule d c = elim (get_active_productions_lem g rule d c) [
  | inl (_, e) ↦ rw e tt
  | inr (inl (_, e)) ↦ rw e tt
  | inr (inr (prods, found, inl (e, _, _))) ↦ rw e tt
  | inr (inr (prods, found, inr (inl (e, _, _)))) ↦ rw e tt
  | inr (inr (prods, found, inr (inr (first, rest, e, h)))) ↦
      rw e (first, rest, prods, refl, found, λ p. (h p).0)
]

module _ {Gen : Type 0} (uniform : ℕ → Gen → ℕ × Gen) where
  pick_uniform-In :
      {A : Type 0} (gen : Gen) (xs : List A)
      → Yields (λ (picked : A × Gen). In picked.0 xs) (pick_uniform uniform gen xs)
  unfolding pick_uniform
  pick_uniform-In gen [] = tt
  pick_uniform-In gen (x ∷ xs) =
      Yields->>= _ _ (at (uniform (length xs) gen).0 (x ∷ xs)) _
        (at-In (uniform (length xs) gen).0 (x ∷ xs)) (λ a m. m)

  -- What the expansion of one reference must give.
  abbrev pub Expands :
      Grammar → ℕ → (Symbol → Gen → Context → Result (Value × (Gen × Context))) → Type 0
  Expands g d value =
      (rule : Symbol) (gen : Gen) (c : Context)
      → Yields (λ (made : Value × (Gen × Context)). (made.1.1 ≡ c) × Derives g c rule d made.0)
          (value rule gen c)

  -- The context is as it was, and the values have those at its end that the atoms derive.
  abbrev pub Appends :
      Grammar → ℕ → Context → List Atom → List Value → List Value × (Gen × Context) → Type 0
  Appends g d c atoms vals made =
      (made.1.1 ≡ c) × ((new : List Value) × (made.0 ≡ vals ++ new) × DeriveAll g c d atoms new)

  appended :
      (g : Grammar) (d : ℕ) (c : Context) (a : Atom) (atoms : List Atom) (vals : List Value)
      (v : Value)
      → ((new : List Value) → DeriveAll g c d atoms new → DeriveAll g c d (a ∷ atoms) (v ∷ new))
      → (made : List Value × (Gen × Context)) → Appends g d c atoms (vals ++ (v ∷ [])) made
      → Appends g d c (a ∷ atoms) vals made
  appended g d c a atoms vals v f made (e, (new, q, h)) =
      (e, (v ∷ new, q ∙ append_assoc vals (v ∷ []) new, f new h))

  -- The loop appends what the atoms derive, and leaves the context as it was.
  pub expand_atoms-DeriveAll :
      (g : Grammar) (d : ℕ) (value : Symbol → Gen → Context → Result (Value × (Gen × Context)))
      → Expands g d value
      → (atoms : List Atom) (gen : Gen) (c : Context) (vals : List Value)
      → Yields (Appends g d c atoms vals) (expand_atoms uniform value atoms gen c vals)
  unfolding expand_atoms
  expand_atoms-DeriveAll g d value h [] gen c vals =
      (refl, ([], path_sym (append-nil vals), none_left))
  expand_atoms-DeriveAll g d value h (lit a v ∷ atoms) gen c vals =
      Yields-imp (expand_atoms uniform value atoms gen c (vals ++ (v ∷ [])))
        (expand_atoms-DeriveAll g d value h atoms gen c (vals ++ (v ∷ [])))
        (appended g d c (lit a v) atoms vals v (λ new all. literal all))
  expand_atoms-DeriveAll g d value h (ref r ∷ atoms) gen c vals =
      Yields->>= _ _ (value r.rule_name gen (push_all r.ctx_ext c)) _
        (h r.rule_name gen (push_all r.ctx_ext c))
        (λ made (e, derived). Yields-assert _ (begins_with r.rule_name made.0) _ (
          rw (e, pop-push_all r.ctx_ext c)
            (Yields-imp (expand_atoms uniform value atoms made.1.0 c (vals ++ (made.0 ∷ [])))
              (expand_atoms-DeriveAll g d value h atoms made.1.0 c (vals ++ (made.0 ∷ [])))
              (appended g d c (ref r) atoms vals made.0 (λ new all. reference derived all)))))

  -- One of the productions is expanded.
  expand_one-Appends :
      (g : Grammar) (d : ℕ) (value : Symbol → Gen → Context → Result (Value × (Gen × Context)))
      → Expands g d value
      → (rule : Symbol) (first : Production) (rest : List Production) (gen : Gen) (c : Context)
      → Yields
          (λ (made : List Value × (Gen × Context)).
            (p : Production) × In p (first ∷ rest) × Appends g d c p.atoms (sym rule ∷ []) made)
          (expand_one uniform value rule (first ∷ rest) gen c)
  unfolding expand_one
  expand_one-Appends g d value h rule first rest gen c =
      Yields->>= _ _ (pick_uniform uniform gen (first ∷ rest)) _
        (pick_uniform-In gen (first ∷ rest))
        (λ picked m.
          Yields-imp (expand_atoms uniform value picked.0.atoms picked.1 c (sym rule ∷ []))
            (expand_atoms-DeriveAll g d value h picked.0.atoms picked.1 c (sym rule ∷ []))
            (λ made a. (picked.0, m, a)))

  -- `randomValueFromRule` returns only values that the rule derives within the depth limit, in the
  -- context given, and leaves the context as it was.
  pub random_value_from_rule-Derives :
      (g : Grammar) (d : ℕ) (rule : Symbol) (gen : Gen) (c : Context)
      → Yields
          (λ (made : Value × (Gen × Context)). (made.1.1 ≡ c) × Derives g c rule d made.0)
          (random_value_from_rule uniform g d rule gen c)
  unfolding random_value_from_rule
  random_value_from_rule-Derives g zero rule gen c = tt
  random_value_from_rule-Derives g (suc d) rule gen c =
      Yields->>= _ _ (get_active_productions g rule (suc d) c) _
        (get_active_productions-IsActive g rule (suc d) c)
        (λ ps (first, rest, prods, e, found, active). rw e (
          Yields->>= _ _
            (expand_one uniform (random_value_from_rule uniform g d) rule (first ∷ rest) gen c) _
            (expand_one-Appends g d (random_value_from_rule uniform g d)
              (random_value_from_rule-Derives g d) rule first rest gen c)
            (λ made (p, m, (same, (new, q, all))).
              let (there_in, enabled) = active p (subst (In p) (path_sym e) m) in
              (
                same,
                subst (λ vals. Derives g c rule (suc d) (of_list vals)) (path_sym q)
                    (production p found there_in enabled.0 all),
              ))))
