-- ===== src/Grammar/Active.antt =====
-- Which productions of a rule `getActiveProductions` gives, and when it throws.
use photesthesis.Shared.{
  ℕ, ◌≡◌, refl, ◌↔◌, ◌⊎◌, inl, inr, sym as path_sym, subst, Bool, true, false, ◌&&◌, List, [], ◌∷◌,
  Option, none, some, arith, any_of, All, In, here, there, if◌then◌else◌,
}
use photesthesis.Shared.MapOf.{map_find}
use photesthesis.Symbol.{Symbol, symbol_lt}
use photesthesis.Grammar.{
  Context, Production, Grammar, Result, ok, error, rule_not_found, no_productions,
  needs_nonterminal, no_active, has_all, has_none, is_skipped, active_in, some_active,
  get_productions, get_active_productions,
}
use photesthesis.Grammar.Scope.{InScope, has_all_iff, has_none_iff}

-- The names that the production asks for are in scope, and those that it excludes are not.
pub record IsEnabled (c : Context) (p : Production) : Type 0 where
  pub required : All (InScope c) p.ctx_req
  pub excluded : All (λ s. ¬ InScope c s) p.ctx_req_not

-- Enabled, and without references where the depth is 1.
abbrev pub IsActive : ℕ → Context → Production → Type 0
IsActive depth_limit c p = IsEnabled c p × (is_skipped depth_limit p ≡ false)

has_all-IsEnabled :
    (c : Context) (p : Production)
    → (has_all c p.ctx_req && has_none c p.ctx_req_not ≡ true) ↔ IsEnabled c p
has_all-IsEnabled c p = (
  λ h. record {
    required = (has_all_iff c p.ctx_req).0 (ground (arith, h));
    excluded = (has_none_iff c p.ctx_req_not).0 (ground (arith, h));
  },
  λ e. rw ((has_all_iff c p.ctx_req).1 e.required, (has_none_iff c p.ctx_req_not).1 e.excluded),
)

-- The step of the loop, by its two tests.
In-step :
    (b e : Bool) {p q : Production} {ps : List Production}
    → In p (if b then ps else if e then q ∷ ps else ps)
    → In p ps ⊎ ((p ≡ q) × (b ≡ false) × (e ≡ true))
In-step true e m = inl m
In-step false true (here h) = inr (h, refl, refl)
In-step false true (there m) = inl m
In-step false false m = inl m

step-In :
    (b e : Bool) {p q : Production} {ps : List Production}
    → In p ps ⊎ ((p ≡ q) × (b ≡ false) × (e ≡ true))
    → In p (if b then ps else if e then q ∷ ps else ps)
step-In true e (inl m) = m
step-In true e (inr (h, f, _)) = ground (arith, f)
step-In false true (inl m) = there m
step-In false true (inr (h, _, _)) = here h
step-In false false (inl m) = m
step-In false false (inr (h, _, f)) = ground (arith, f)

active_in-IsActive :
    (d : ℕ) (c : Context) (p : Production) (prods : List Production)
    → In p (active_in d c prods)
    → In p prods × IsActive d c p
unfolding active_in
active_in-IsActive d c p [] m = elim m [ ]
active_in-IsActive d c p (q ∷ prods) m =
    elim (In-step (is_skipped d q) (has_all c q.ctx_req && has_none c q.ctx_req_not) m) [
      | inl n ↦ let found = active_in-IsActive d c p prods n in (there found.0, found.1)
      | inr (e, skipped, enabled) ↦
          (here e, subst (IsActive d c) (path_sym e) ((has_all-IsEnabled c q).0 enabled, skipped))
    ]

IsActive-active_in :
    (d : ℕ) (c : Context) (p : Production) (prods : List Production)
    → In p prods
    → IsActive d c p
    → In p (active_in d c prods)
unfolding active_in
IsActive-active_in d c p [] m a = elim m [ ]
IsActive-active_in d c p (q ∷ prods) (here e) a =
    let b = subst (IsActive d c) e a in
    step-In (is_skipped d q) (has_all c q.ctx_req && has_none c q.ctx_req_not)
      (inr (e, b.1, (has_all-IsEnabled c q).1 b.0))
IsActive-active_in d c p (q ∷ prods) (there m) a =
    step-In (is_skipped d q) (has_all c q.ctx_req && has_none c q.ctx_req_not)
      (inl (IsActive-active_in d c p prods m a))

-- What the productions of a rule give: the active ones, if there is one, or an error.
abbrev pub Selects : ℕ → Context → List Production → Result (List Production) → Type 0
Selects d c prods result =
    ((result ≡ error needs_nonterminal)
      × ((p : Production) → In p prods → ¬ IsActive d c p)
      × (any_of (is_skipped d) prods ≡ true))
    ⊎ ((result ≡ error no_active)
        × ((p : Production) → In p prods → ¬ IsActive d c p)
        × (any_of (is_skipped d) prods ≡ false))
    ⊎ ((first : Production) × (rest : List Production) × (result ≡ ok (first ∷ rest))
        × ((p : Production) → In p (first ∷ rest) ↔ (In p prods × IsActive d c p)))

selects :
    (d : ℕ) (c : Context) (prods : List Production)
    → Selects d c prods (some_active (any_of (is_skipped d) prods) (active_in d c prods))
selects d c prods =
    go (any_of (is_skipped d) prods) (active_in d c prods) refl
      (λ p. active_in-IsActive d c p prods) (λ p m a. IsActive-active_in d c p prods m a)
  where
    go :
        (b : Bool) (act : List Production)
        → any_of (is_skipped d) prods ≡ b
        → ((p : Production) → In p act → In p prods × IsActive d c p)
        → ((p : Production) → In p prods → IsActive d c p → In p act)
        → Selects d c prods (some_active b act)
    go true [] e f g = inl (refl, (λ p m a. elim (g p m a) [ ]), e)
    go false [] e f g = inr (inl (refl, (λ p m a. elim (g p m a) [ ]), e))
    go true (q ∷ act) e f g = inr (inr (q, act, refl, λ p. (f p, λ h. g p h.0 h.1)))
    go false (q ∷ act) e f g = inr (inr (q, act, refl, λ p. (f p, λ h. g p h.0 h.1)))

-- `getActiveProductions` throws for a rule that is unknown or has no productions; else it gives the
-- productions of the rule that are active, or throws if none is, by one error if some was skipped for
-- its references and by another if not.
pub get_active_productions_lem :
    (g : Grammar) (rule : Symbol) (d : ℕ) (c : Context)
    → ((map_find symbol_lt rule g.rules ≡ none)
        × (get_active_productions g rule d c ≡ error rule_not_found))
      ⊎ ((map_find symbol_lt rule g.rules ≡ some [])
          × (get_active_productions g rule d c ≡ error no_productions))
      ⊎ ((prods : List Production) × (map_find symbol_lt rule g.rules ≡ some prods)
          × Selects d c prods (get_active_productions g rule d c))
unfolding get_active_productions get_productions
get_active_productions_lem g rule d c = go (map_find symbol_lt rule g.rules) refl
  where
    go :
        (o : Option (List Production))
        → map_find symbol_lt rule g.rules ≡ o
        → ((map_find symbol_lt rule g.rules ≡ none)
            × (get_active_productions g rule d c ≡ error rule_not_found))
          ⊎ ((map_find symbol_lt rule g.rules ≡ some [])
              × (get_active_productions g rule d c ≡ error no_productions))
          ⊎ ((prods : List Production) × (map_find symbol_lt rule g.rules ≡ some prods)
              × Selects d c prods (get_active_productions g rule d c))
    go none e = inl (e, rw e)
    go (some []) e = inr (inl (e, rw e))
    go (some (p ∷ ps)) e = inr (inr (p ∷ ps, e, rw e (selects d c (p ∷ ps))))
