-- ===== src/Grammar/Covering/Progress.antt =====
-- `kPathCoveringOrMinimalExpansion` never throws on a grammar whose rules can all be finished at any
-- depth.
use photesthesis.Shared.{
  ℕ, zero, suc, ◌≡◌, refl, ◌⊎◌, inl, inr, ◌∙◌, sym as path_sym, subst, Bool, true, false, List, [],
  ◌∷◌, ◌++◌, some, arith, In, here, there, ◌==◌, any_of,
}
use photesthesis.Shared.MapOf.{map_find}
use photesthesis.Symbol.{Symbol, symbol_lt}
use photesthesis.Value.{Value, sym}
use photesthesis.Grammar.{Context, Production, Ref, ref, is_ref, Grammar, ok}
use photesthesis.Grammar.Active.{IsActive}
use photesthesis.Grammar.Language.{Yields}
use photesthesis.Grammar.Complete.{
  HasRule, IsComplete, get_active_productions-finds, any_of-In, true-is_not-false,
}
use photesthesis.Grammar.Covering.{
  KPath, Expansions, ExpandRef, suffix, add_expansions, cover_first, expand_productions, least,
  k_path_covering_or_minimal_expansion,
}
use photesthesis.Grammar.Covering.Atoms.{AreDerived}
use photesthesis.Grammar.Covering.Laws.{
  IsCoveringOrLeast, last_ref-append, k_path_covering_or_minimal_expansion-AreDerived,
}
use photesthesis.Grammar.Covering.Steps.{
  IsNonempty, Returns, insert_lists-IsNonempty, expand_production-finds,
}

abbrev HasSome : Expansions → Type 0
HasSome found = IsNonempty found.0 ⊎ IsNonempty found.1

add_expansions-HasSome :
    (b : Bool) (lists : List (List Value)) (found : Expansions)
    → IsNonempty lists
    → HasSome (add_expansions b lists found)
add_expansions-HasSome true lists found n = inl (insert_lists-IsNonempty lists found.0 n)
add_expansions-HasSome false lists found n = inr (insert_lists-IsNonempty lists found.1 n)

expand_productions-finds :
    (value : ExpandRef) (path : List Ref) (kpath : KPath) (rule : Symbol) (prods : List Production)
    (found : Expansions) (c : Context) (paths : List KPath)
    → ((p : Production) (r : Ref) → In p prods → In (ref r) p.atoms → Returns value r)
    → IsNonempty prods ⊎ HasSome found
    → (made : Expansions × (Context × List KPath)) × (expand_productions value path kpath rule prods
          found c paths
        ≡ ok made)
      × HasSome made.0
unfolding expand_productions
expand_productions-finds value path kpath rule [] found c paths h (inr some_found) =
    ((found, (c, paths)), refl, some_found)
expand_productions-finds value path kpath rule [] found c paths h (inl (x, xs, e)) = cc
expand_productions-finds value path kpath rule (p ∷ prods) found c paths h n =
    let marked = cover_first kpath p.atoms paths in
    let (w, e, l) =
      expand_production-finds value path p.atoms
        record { covers = marked.0; prefixes = (sym rule ∷ []) ∷ []; context = c; paths = marked.1 }
        (λ r m. h p r (here refl) m) (sym rule ∷ [], [], refl) in
    let (made, q, some_made) =
      expand_productions-finds value path kpath rule prods
        (add_expansions w.covers w.prefixes found) w.context w.paths (λ p' r m. h p' r (there m))
        (inr (add_expansions-HasSome w.covers w.prefixes found l)) in
    (made, rw e q, some_made)

least-finds : (found : Expansions) → HasSome found → (both : Expansions) × (least found ≡ ok both)
unfolding least
least-finds (c ∷ cs, others) h = ((c ∷ cs, []), refl)
least-finds ([], v ∷ vs) h = (([], v ∷ []), refl)
least-finds ([], []) (inl (x, xs, e)) = cc
least-finds ([], []) (inr (x, xs, e)) = cc

-- What a call gives: the context as it was, values that the rule derives, and one at least.
abbrev pub Covers : Grammar → ℕ → ℕ → List Ref → Ref → Context → List KPath → Type 0
Covers g d k path r c paths =
    (made : Expansions × (Context × List KPath)) × (k_path_covering_or_minimal_expansion g d k
        (path ++ (r ∷ [])) c paths
      ≡ ok made)
    × (made.1.0 ≡ c)
    × AreDerived g c r.rule_name d made.0
    × IsCoveringOrLeast made.0

suc-==-zero : (k : ℕ) → (suc k == 0) ≡ false
suc-==-zero k = ground arith

step-Covers :
    (g : Grammar)
    → IsComplete g
    → (d k : ℕ) (path : List Ref) (r : Ref) (c : Context) (paths : List KPath)
      (prods : List Production)
    → map_find symbol_lt r.rule_name g.rules ≡ some prods
    → ((p : Production) (s : Ref)
        → In p prods
        → IsActive (suc d) c p
        → In (ref s) p.atoms
        → Returns (k_path_covering_or_minimal_expansion g d (suc k)) s)
    → Covers g (suc d) (suc k) path r c paths
step-Covers g w d k path r c paths prods found calls =
    let (first, rest, e, active) =
      get_active_productions-finds g r.rule_name prods (suc d) c w found in
    let (made, q, some_made) =
      expand_productions-finds (k_path_covering_or_minimal_expansion g d (suc k)) (path ++ (r ∷ []))
        (suffix (suc k) (path ++ (r ∷ []))) r.rule_name (first ∷ rest) ([], []) c paths
        (λ p s m n. calls p s (active p m).0 (active p m).1 n) (inl (first, rest, refl)) in
    let (both, l) = least-finds made.0 some_made in
    let returned : k_path_covering_or_minimal_expansion g (suc d) (suc k) (path ++ (r ∷ [])) c paths
        ≡ ok (both, made.1) =
      unfold k_path_covering_or_minimal_expansion in
      rw (last_ref-append path r, suc-==-zero k, e, q, l) in
    let h =
      subst (Yields _) returned
        (k_path_covering_or_minimal_expansion-AreDerived g (suc d) (suc k) path r c paths) in
    ((both, made.1), returned, h.0, h.1.0, h.1.1)

-- Where each rule of the grammar has a production that is always enabled and has no references, and
-- each production has an atom, a right flag for references and refers only to rules of the grammar:
-- `kPathCoveringOrMinimalExpansion` of a path that ends in a reference to a rule of it returns, for
-- every depth limit and `k` but 0, values that the rule derives within the limit, one or more in
-- the first list and none in the second, or none and exactly one; and the context is as it was.
pub k_path_covering_or_minimal_expansion-Covers :
    (g : Grammar)
    → IsComplete g
    → (d k : ℕ) (path : List Ref) (r : Ref) (c : Context) (paths : List KPath)
    → HasRule g r.rule_name
    → Covers g (suc d) (suc k) path r c paths
k_path_covering_or_minimal_expansion-Covers g w zero k path r c paths (prods, found) =
    step-Covers g w zero k path r c paths prods found (λ p s m active n.
      let flag = (w.productions r.rule_name prods p found m).1 in
      let has : any_of is_ref p.atoms ≡ true = any_of-In is_ref (ref s) p.atoms n refl in
      elim (true-is_not-false (path_sym has ∙ path_sym flag ∙ active.1)) [ ])
k_path_covering_or_minimal_expansion-Covers g w (suc d) k path r c paths (prods, found) =
    step-Covers g w (suc d) k path r c paths prods found (λ p s m active n path' c' paths'.
      let (made, e, same, _, covers) =
        k_path_covering_or_minimal_expansion-Covers g w d k path' s c' paths'
          ((w.productions r.rule_name prods p found m).2 s n) in
      (made, e, same, covers))
