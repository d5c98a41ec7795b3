-- ===== src/Grammar/Covering/Laws.antt =====
-- What `kPathCoveringOrMinimalExpansion` returns is in the language of the grammar.
use photesthesis.Shared.{
  ℕ, zero, suc, ◌≡◌, refl, ◌⊎◌, inl, inr, ◌∙◌, ap, sym as path_sym, subst, Bool, true, false, not,
  List, [], ◌∷◌, ◌++◌, some, In, here, there, ◌==◌,
}
use photesthesis.Shared.MapOf.{map_find}
use photesthesis.Shared.SetOf.{set_insert}
use photesthesis.Shared.SetOf.Members.{In-insert_inv}
use photesthesis.Symbol.{Symbol, symbol_lt}
use photesthesis.Value.{Value, sym, of_list, value_lt}
use photesthesis.Grammar.{
  Context, Production, Ref, Grammar, Result, ok, error, get_active_productions,
}
use photesthesis.Grammar.Active.{IsEnabled}
use photesthesis.Grammar.Language.{
  Derives, production, none_left, Yields, Yields->>=, Yields-assert,
  get_active_productions-IsActive,
}
use photesthesis.Grammar.Covering.{
  KPath, Expansions, ExpandRef, last_ref, expand_production, insert_lists, add_expansions,
  expand_productions, least, k_path_covering_or_minimal_expansion,
}
use photesthesis.Grammar.Covering.Atoms.{
  AreExpanded, AreDerived, Sound, expand_production-AreExpanded,
}

-- The lists become values of the set.
pub insert_lists-In :
    (lists : List (List Value)) (vals : List Value) (v : Value)
    → In v (insert_lists lists vals)
    → ((l : List Value) × In l lists × (v ≡ of_list l)) ⊎ In v vals
unfolding insert_lists
insert_lists-In [] vals v m = inr m
insert_lists-In (l ∷ lists) vals v m =
    elim (insert_lists-In lists (set_insert value_lt (of_list l) vals) v m) [
      | inl (k, n, e) ↦ inl (k, there n, e)
      | inr n ↦ elim (In-insert_inv value_lt (of_list l) v vals n) [
        | inl e ↦ inl (l, here refl, e)
        | inr n' ↦ inr n'
      ]
    ]

inserted :
    (g : Grammar) (c : Context) (d : ℕ) (rule : Symbol) (p : Production) (prods : List Production)
    (lists : List (List Value)) (vals : List Value)
    → map_find symbol_lt rule g.rules ≡ some prods
    → In p prods
    → IsEnabled c p
    → AreExpanded g c d rule p.atoms lists
    → ((v : Value) → In v vals → Derives g c rule (suc d) v)
    → (v : Value) → In v (insert_lists lists vals)
    → Derives g c rule (suc d) v
inserted g c d rule p prods lists vals found m enabled h k v n =
    elim (insert_lists-In lists vals v n) [
      | inr old ↦ k v old
      | inl (l, n', e) ↦
          let (start, q, derived) = h l n' in
          subst (Derives g c rule (suc d)) (path_sym (e ∙ ap of_list q))
            (production p found m enabled derived)
    ]

pub start-AreExpanded :
    (g : Grammar) (d : ℕ) (rule : Symbol) (c : Context)
    → AreExpanded g c d rule [] ((sym rule ∷ []) ∷ [])
start-AreExpanded g d rule c l (here e) = ([], e, none_left)
start-AreExpanded g d rule c l (there m) = elim m [ ]

-- The loop over the productions keeps to values of the rule.
expand_productions-AreDerived :
    (g : Grammar) (d : ℕ) (value : ExpandRef)
    → Sound g d value
    → (path : List Ref) (kpath : KPath) (rule : Symbol) (all : List Production) (c : Context)
    → map_find symbol_lt rule g.rules ≡ some all
    → (prods : List Production) → ((p : Production) → In p prods → In p all × IsEnabled c p)
    → (found : Expansions) (c' : Context) (paths : List KPath) → c' ≡ c
    → AreDerived g c rule (suc d) found
    → Yields
        (λ (made : Expansions × (Context × List KPath)).
          (made.1.0 ≡ c) × AreDerived g c rule (suc d) made.0)
        (expand_productions value path kpath rule prods found c' paths)
unfolding expand_productions
expand_productions-AreDerived g d value s path kpath rule all c h [] active found c' paths e k =
    (e, k)
expand_productions-AreDerived g d value s path kpath rule all c h (p ∷ prods) active found c' paths
      e k =
    Yields->>= _ _ (expand_production value path p.atoms _) _
      (expand_production-AreExpanded g d value s path rule c [] p.atoms _ e
        (start-AreExpanded g d rule c))
      (λ w (same, expanded).
        expand_productions-AreDerived g d value s path kpath rule all c h prods
          (λ q m. active q (there m)) (add_expansions w.covers w.prefixes found) w.context w.paths
          same (added w.covers w.prefixes expanded))
  where
    added :
        (b : Bool) (lists : List (List Value))
        → AreExpanded g c d rule p.atoms lists
        → AreDerived g c rule (suc d) (add_expansions b lists found)
    added true lists x = (
      inserted g c d rule p all lists found.0 h (active p (here refl)).0 (active p (here refl)).1 x
          k.0,
      k.1,
    )
    added false lists x = (
      k.0,
      inserted g c d rule p all lists found.1 h (active p (here refl)).0 (active p (here refl)).1 x
          k.1,
    )

-- Values in the first list and none in the second, or none in the first and one in the second.
abbrev pub IsCoveringOrLeast : Expansions → Type 0
IsCoveringOrLeast found =
    ((v : Value) × (vs : List Value) × (found.0 ≡ v ∷ vs) × (found.1 ≡ []))
    ⊎ ((found.0 ≡ []) × ((v : Value) × (found.1 ≡ v ∷ [])))

pub least-AreDerived :
    (g : Grammar) (c : Context) (rule : Symbol) (d : ℕ) (found : Expansions)
    → AreDerived g c rule d found
    → Yields
        (λ (both : Expansions). AreDerived g c rule d both × IsCoveringOrLeast both)
        (least found)
unfolding least
least-AreDerived g c rule d ([], []) h = tt
least-AreDerived g c rule d ([], v ∷ vs) h = ((λ u m. h.0 u m, only), inr (refl, (v, refl)))
  where
    only : (u : Value) → In u (v ∷ []) → Derives g c rule d u
    only u (here e) = h.1 u (here e)
    only u (there m) = elim m [ ]
least-AreDerived g c rule d (v ∷ vs, others) h = ((h.0, none_there), inl (v, vs, refl, refl))
  where
    none_there : (u : Value) → In u [] → Derives g c rule d u
    none_there u m = elim m [ ]

pub last_ref-append : (path : List Ref) (r : Ref) → last_ref (path ++ (r ∷ [])) ≡ ok r
unfolding last_ref
last_ref-append [] r = refl
last_ref-append (s ∷ []) r = refl
last_ref-append (s ∷ t ∷ path) r = last_ref-append (t ∷ path) r

pub forget :
    (g : Grammar) (c : Context) (rule : Symbol) (d : ℕ)
    (m : Result (Expansions × (Context × List KPath)))
    → Yields
        (λ (made : Expansions × (Context × List KPath)).
          (made.1.0 ≡ c) × (AreDerived g c rule d made.0 × IsCoveringOrLeast made.0))
        m
    → Yields
        (λ (made : Expansions × (Context × List KPath)).
          (made.1.0 ≡ c) × AreDerived g c rule d made.0)
        m
forget g c rule d (ok made) h = (h.0, h.1.0)
forget g c rule d (error e) h = tt

-- `kPathCoveringOrMinimalExpansion` of a path, if it returns, returns values that the rule of the
-- last reference derives within the depth limit in the context given: one or more in the first list and
-- none in the second, or none and exactly one; and the context is as it was.
pub k_path_covering_or_minimal_expansion-AreDerived :
    (g : Grammar) (d k : ℕ) (path : List Ref) (r : Ref) (c : Context) (paths : List KPath)
    → Yields
        (λ (made : Expansions × (Context × List KPath)).
          (made.1.0 ≡ c) × (AreDerived g c r.rule_name d made.0 × IsCoveringOrLeast made.0))
        (k_path_covering_or_minimal_expansion g d k (path ++ (r ∷ [])) c paths)
unfolding k_path_covering_or_minimal_expansion
k_path_covering_or_minimal_expansion-AreDerived g zero k path r c paths = tt
k_path_covering_or_minimal_expansion-AreDerived g (suc d) k path r c paths =
    rw (last_ref-append path r) (
      Yields-assert _ (not (k == 0)) _ (
        Yields->>= _ _ (get_active_productions g r.rule_name (suc d) c) _
          (get_active_productions-IsActive g r.rule_name (suc d) c)
          (λ prods (_, _, all, _, found, active).
            Yields->>= _ _
              (expand_productions (k_path_covering_or_minimal_expansion g d k) _ _ r.rule_name prods
                ([], []) c paths)
              _
              (expand_productions-AreDerived g d (k_path_covering_or_minimal_expansion g d k)
                (λ path' r' c' paths'.
                  forget g c' r'.rule_name d _
                    (k_path_covering_or_minimal_expansion-AreDerived g d k path' r' c' paths'))
                _ _ r.rule_name all c found prods (λ p m. ((active p m).0, (active p m).1.0))
                ([], []) c paths refl ((λ v m. elim m [ ]), (λ v m. elim m [ ])))
              (λ made (same, derived).
                Yields->>= _ _ (least made.0) _
                  (least-AreDerived g c r.rule_name (suc d) made.0 derived)
                  (λ both h. (same, h))))))
