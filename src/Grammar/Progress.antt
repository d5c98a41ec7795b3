-- ===== src/Grammar/Progress.antt =====
-- `randomValueFromRule` never throws on a grammar whose rules can all be finished at any depth.
use photesthesis.Shared.{
  ℕ, zero, suc, ◌≤◌, ◌≡◌, refl, ◌∙◌, ap, sym as path_sym, subst, true, List, [], ◌∷◌, ◌++◌, some,
  length, In, here, there, any_of,
}
use photesthesis.Shared.MapOf.{map_find}
use photesthesis.Symbol.{Symbol, symbol_lt}
use photesthesis.Value.{Value, sym, of_list}
use photesthesis.Grammar.{
  Context, Production, Atom, Ref, lit, ref, is_ref, Grammar, Result, ok, push_all,
}
use photesthesis.Grammar.Scope.{pop-push_all}
use photesthesis.Grammar.Active.{IsEnabled, IsActive}
use photesthesis.Grammar.Random.{
  begins_with, pick_uniform, expand_atoms, expand_one, random_value_from_rule,
}
use photesthesis.Grammar.Language.{
  Derives, production, DeriveAll, Yields, Expands, Appends, expand_atoms-DeriveAll,
  random_value_from_rule-Derives,
}
use photesthesis.Grammar.Complete.{
  HasRule, IsComplete, begins_with-of_list, DeriveAll-first, get_active_productions-finds,
  at-succeeds, any_of-In, true-is_not-false,
}

module _ {Gen : Type 0} (uniform : ℕ → Gen → ℕ × Gen) where
  -- The loop succeeds where every reference in it does.
  expand_atoms-succeeds :
      (g : Grammar) (d : ℕ) (value : Symbol → Gen → Context → Result (Value × (Gen × Context)))
      → Expands uniform g d value
      → (atoms : List Atom) (c : Context)
      → ((r : Ref) (gen : Gen)
          → In (ref r) atoms
          → (made : Value × (Gen × Context)) × (value r.rule_name gen (push_all r.ctx_ext c)
              ≡ ok made)
            × (begins_with r.rule_name made.0 ≡ true))
      → (gen : Gen) (vals : List Value)
      → (made : List Value × (Gen × Context)) × (expand_atoms uniform value atoms gen c vals
          ≡ ok made)
  unfolding expand_atoms
  expand_atoms-succeeds g d value sound [] c h gen vals = ((vals, (gen, c)), refl)
  expand_atoms-succeeds g d value sound (lit a v ∷ atoms) c h gen vals =
      expand_atoms-succeeds g d value sound atoms c (λ r gen' m. h r gen' (there m)) gen
        (vals ++ (v ∷ []))
  expand_atoms-succeeds g d value sound (ref r ∷ atoms) c h gen vals =
      let (made, e, begins) = h r gen (here refl) in
      let restored = subst (Yields _) e (sound r.rule_name gen (push_all r.ctx_ext c)) in
      let (all, q) =
        expand_atoms-succeeds g d value sound atoms c (λ s gen' m. h s gen' (there m)) made.1.0
          (vals ++ (made.0 ∷ [])) in
      (all, rw (e, begins, restored.0, pop-push_all r.ctx_ext c) q)

  -- A number up to `n` is drawn.
  abbrev pub IsUniform : Type 0
  IsUniform = (n : ℕ) (gen : Gen) → (uniform n gen).0 ≤ n

  pick_uniform-succeeds :
      {A : Type 0}
      → IsUniform
      → (gen : Gen) (x : A) (xs : List A)
      → (y : A) × (gen' : Gen) × (pick_uniform uniform gen (x ∷ xs) ≡ ok (y, gen')) × In y (x ∷ xs)
  unfolding pick_uniform
  pick_uniform-succeeds u gen x xs =
      let (y, e, m) = at-succeeds (uniform (length xs) gen).0 x xs (u (length xs) gen) in
      (y, (uniform (length xs) gen).1, rw e, m)

  -- What a call gives: a value that the rule derives and that passes the assertions, and the context
  -- as it was.
  abbrev pub Succeeds : Grammar → ℕ → Symbol → Gen → Context → Type 0
  Succeeds g d rule gen c =
      (v : Value) × (gen' : Gen) × (random_value_from_rule uniform g d rule gen c
        ≡ ok (v, (gen', c)))
      × Derives g c rule d v
      × (begins_with rule v ≡ true)

  produced :
      (g : Grammar) (d : ℕ) (rule : Symbol) (prods : List Production) (p : Production) (c : Context)
      → map_find symbol_lt rule g.rules ≡ some prods
      → In p prods
      → IsEnabled c p
      → ((a : Atom) × (rest : List Atom) × (p.atoms ≡ a ∷ rest))
      → (made : List Value × (Gen × Context)) → Appends uniform g d c p.atoms (sym rule ∷ []) made
      → Derives g c rule (suc d) (of_list made.0) × (begins_with rule (of_list made.0) ≡ true)
  produced g d rule prods p c found m enabled (a, rest, e) made (_, (new, q, all)) =
      let (x, xs, e') =
        DeriveAll-first g c d a rest new (subst (λ t. DeriveAll g c d t new) e all) in
      rw q (production p found m enabled all, rw e' (begins_with-of_list rule x xs))

  -- A call returns where the calls for the references of the active productions do.
  step-Succeeds :
      IsUniform
      → (g : Grammar) → IsComplete g
      → (d : ℕ) (rule : Symbol) (prods : List Production) (gen : Gen) (c : Context)
      → map_find symbol_lt rule g.rules ≡ some prods
      → ((p : Production) (r : Ref) (gen' : Gen)
          → In p prods
          → IsActive (suc d) c p
          → In (ref r) p.atoms
          → Succeeds g d r.rule_name gen' (push_all r.ctx_ext c))
      → Succeeds g (suc d) rule gen c
  unfolding random_value_from_rule expand_one
  step-Succeeds u g w d rule prods gen c found calls =
      let (first, rest, e, active) = get_active_productions-finds g rule prods (suc d) c w found in
      let (p, gen₁, q, m) = pick_uniform-succeeds u gen first rest in
      let (m', enabled) = active p m in
      let value = random_value_from_rule uniform g d in
      let sound = random_value_from_rule-Derives uniform g d in
      let (made, done) =
        expand_atoms-succeeds g d value sound p.atoms c
          (λ r gen' n.
            let (v, gen₂, f, _, begins) = calls p r gen' m' enabled n in
            ((v, (gen₂, push_all r.ctx_ext c)), f, begins))
          gen₁ (sym rule ∷ []) in
      let appends =
        subst (Yields (Appends uniform g d c p.atoms (sym rule ∷ []))) done
          (expand_atoms-DeriveAll uniform g d value sound p.atoms gen₁ c (sym rule ∷ [])) in
      let facts =
        produced g d rule prods p c found m' enabled.0 (w.productions rule prods p found m').0 made
          appends in
      (
        of_list made.0,
        made.1.0,
        rw (e, q, done) (ap (λ (c' : Context). ok (of_list made.0, (made.1.0, c'))) appends.0),
        facts.0,
        facts.1,
      )

  -- Where each rule of the grammar has a production that is always enabled and has no references, each
  -- production has an atom, a right flag for references and refers only to rules of the grammar, and
  -- the generator draws in range: `randomValueFromRule` returns for every rule of it and every depth
  -- limit but 0 a value that the rule derives within the limit and that passes the assertions, with
  -- the context as it was.
  pub random_value_from_rule-Succeeds :
      IsUniform
      → (g : Grammar) → IsComplete g
      → (d : ℕ) (rule : Symbol) → HasRule g rule
      → (gen : Gen) (c : Context) → Succeeds g (suc d) rule gen c
  random_value_from_rule-Succeeds u g w zero rule (prods, found) gen c =
      step-Succeeds u g w zero rule prods gen c found (λ p r gen' m active n.
        let flag = (w.productions rule prods p found m).1 in
        let has : any_of is_ref p.atoms ≡ true = any_of-In is_ref (ref r) p.atoms n refl in
        elim (true-is_not-false (path_sym has ∙ path_sym flag ∙ active.1)) [ ])
  random_value_from_rule-Succeeds u g w (suc d) rule (prods, found) gen c =
      step-Succeeds u g w (suc d) rule prods gen c found (λ p r gen' m active n.
        random_value_from_rule-Succeeds u g w d r.rule_name
          ((w.productions rule prods p found m).2 r n) gen' (push_all r.ctx_ext c))
