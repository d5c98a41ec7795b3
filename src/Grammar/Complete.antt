-- ===== src/Grammar/Complete.antt =====
-- Grammars whose rules can all be finished at any depth: an active production is always found.
use photesthesis.Shared.{
  ℕ, zero, suc, ◌≤◌, ◌≡◌, refl, inl, inr, ◌∙◌, ap, sym as path_sym, subst, Bool, true, false, List,
  [], ◌∷◌, Option, none, some, arith, length, In, here, there, any_of,
}
use photesthesis.Shared.MapOf.{map_find}
use photesthesis.Symbol.{Symbol, symbol_lt}
use photesthesis.Value.{Value, sym, of_list, of_cells}
use photesthesis.Value.Equality.{symbol_eq_iff}
use photesthesis.Value.Lists.{cells_of, of_list-cells}
use photesthesis.Value.Match.{match_value, match_cells, match_one}
use photesthesis.Grammar.{
  Context, Production, Atom, Ref, lit, ref, is_ref, Grammar, ok, get_active_productions,
}
use photesthesis.Grammar.Active.{IsActive, get_active_productions_lem}
use photesthesis.Grammar.Random.{at, begins_with}
use photesthesis.Grammar.Language.{DeriveAll, literal, reference}

abbrev pub HasRule : Grammar → Symbol → Type 0
HasRule g rule = (prods : List Production) × (map_find symbol_lt rule g.rules ≡ some prods)

-- Each rule has a production that is always enabled and has no references; each production has an
-- atom, knows whether it has references, and refers only to rules of the grammar.
pub record IsComplete (g : Grammar) : Type 0 where
  pub finishing :
      (rule : Symbol) (prods : List Production)
      → map_find symbol_lt rule g.rules ≡ some prods
      → (p : Production) × In p prods
        × (p.has_refs ≡ false)
        × (p.ctx_req ≡ [])
        × (p.ctx_req_not ≡ [])
  pub productions :
      (rule : Symbol) (prods : List Production) (p : Production)
      → map_find symbol_lt rule g.rules ≡ some prods
      → In p prods
      → ((a : Atom) × (rest : List Atom) × (p.atoms ≡ a ∷ rest))
        × (p.has_refs ≡ any_of is_ref p.atoms)
        × ((r : Ref)
            → In (ref r) p.atoms
            → (prods' : List Production) × (map_find symbol_lt r.rule_name g.rules ≡ some prods'))

pub begins_with-of_list :
    (rule : Symbol) (x : Value) (xs : List Value)
    → begins_with rule (of_list (sym rule ∷ x ∷ xs)) ≡ true
unfolding begins_with match_value match_cells match_one of_cells cells_of
begins_with-of_list rule x xs = rw of_list-cells (rw ((symbol_eq_iff rule rule).1 refl))

pub DeriveAll-first :
    (g : Grammar) (c : Context) (d : ℕ) (a : Atom) (atoms : List Atom) (new : List Value)
    → DeriveAll g c d (a ∷ atoms) new
    → (x : Value) × (xs : List Value) × (new ≡ x ∷ xs)
DeriveAll-first g c d (lit _ v) atoms [] h = elim h [ ]
DeriveAll-first g c d (ref r) atoms [] h = elim h [ ]
DeriveAll-first g c d (lit _ v) atoms (_ ∷ vals) (literal h) = (v, vals, refl)
DeriveAll-first g c d (ref r) atoms (v ∷ vals) (reference h k) = (v, vals, refl)

pub some-injective : {A : Type 0} {a b : A} → some a ≡ some b → a ≡ b
some-injective {a = a} h = ap (λ o. or_else a o) h
  where
    or_else : {A : Type 0} → A → Option A → A
    or_else d none = d
    or_else d (some x) = x

-- A production that asks for nothing and has no references is active.
always-IsActive :
    (d : ℕ) (c : Context) (p : Production)
    → p.has_refs ≡ false
    → p.ctx_req ≡ []
    → p.ctx_req_not ≡ []
    → IsActive d c p
always-IsActive d c p h r n = (record { required = rw r tt; excluded = rw n tt }, ground (arith, h))

-- A production is active where it is always enabled and has no references.
pub get_active_productions-finds :
    (g : Grammar) (rule : Symbol) (prods : List Production) (d : ℕ) (c : Context)
    → IsComplete g
    → map_find symbol_lt rule g.rules ≡ some prods
    → (first : Production) × (rest : List Production) × (get_active_productions g rule d c
        ≡ ok (first ∷ rest))
      × ((p : Production) → In p (first ∷ rest) → In p prods × IsActive d c p)
get_active_productions-finds g rule prods d c w found =
    let (p, m, refs, req, req_not) = w.finishing rule prods found in
    let active = always-IsActive d c p refs req req_not in
    elim (get_active_productions_lem g rule d c) [
      | inl (missing, _) ↦ cc (found, missing)
      | inr (inl (empty, _)) ↦ elim (subst (In p) (some-injective (path_sym found ∙ empty)) m) [ ]
      | inr (inr (same, found', sel)) ↦
          let e : prods ≡ same = some-injective (path_sym found ∙ found') in
          elim sel [
            | inl (_, inactive, _) ↦ elim (inactive p (subst (In p) e m) active) [ ]
            | inr (inl (_, inactive, _)) ↦ elim (inactive p (subst (In p) e m) active) [ ]
            | inr (inr (first, rest, q, h)) ↦ (
              first,
              rest,
              q,
              λ p' n. let (m', a) = (h p').0 n in (subst (In p') (path_sym e) m', a),
            )
          ]
    ]

pub at-succeeds :
    {A : Type 0} (n : ℕ) (x : A) (xs : List A)
    → n ≤ length xs
    → (y : A) × (at n (x ∷ xs) ≡ ok y) × In y (x ∷ xs)
unfolding at
at-succeeds zero x xs h = (x, refl, here refl)
at-succeeds (suc n) x [] h = elim (absurd h) [ ]
  where
    absurd : suc n ≤ 0 → ⊥
    absurd k = omega (arith, k)
at-succeeds (suc n) x (y ∷ ys) h =
    let (z, e, m) = at-succeeds n y ys (omega (arith, h)) in (z, e, there m)

pub any_of-In :
    (p : Atom → Bool) (a : Atom) (bs : List Atom) → In a bs → p a ≡ true → any_of p bs ≡ true
any_of-In p a [] m h = elim m [ ]
any_of-In p a (b ∷ bs) (here e) h = rw (subst (λ q. p q ≡ true) e h)
any_of-In p a (b ∷ bs) (there m) h = ground (arith, any_of-In p a bs m h)

pub true-is_not-false : true ≡ false → ⊥
true-is_not-false e = ground (arith, e)
