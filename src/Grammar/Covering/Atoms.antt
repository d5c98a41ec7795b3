-- ===== src/Grammar/Covering/Atoms.antt =====
-- What one production expands to in `kPathCoveringOrMinimalExpansion`: lists of what its atoms derive.
use photesthesis.Shared.{
  ℕ, ◌≡◌, refl, ◌⊎◌, inl, inr, ◌∙◌, ap, sym as path_sym, subst, Bool, List, [], ◌∷◌, ◌++◌,
  append_assoc, append-nil, In, here, there, ◌==◌, length,
}
use photesthesis.Symbol.{Symbol}
use photesthesis.Value.{Value, sym}
use photesthesis.Grammar.{Context, Atom, Ref, lit, ref, Grammar, ok, or_error, assertion, push_all}
use photesthesis.Grammar.Scope.{pop-push_all}
use photesthesis.Grammar.Language.{
  Derives, DeriveAll, none_left, literal, reference, Yields, Yields->>=, Yields-assert,
}
use photesthesis.Grammar.Cycling.{extend, extend_by_cycling}
use photesthesis.Grammar.Cycling.Laws.{AreExtensions, extend_by_cycling_lem}
use photesthesis.Grammar.Covering.{
  KPath, Expansions, ExpandRef, Work, choose, expand_atom, expand_production,
}

DeriveAll-append :
    (g : Grammar) (c : Context) (d : ℕ) (xs ys : List Atom) (vs ws : List Value)
    → DeriveAll g c d xs vs
    → DeriveAll g c d ys ws
    → DeriveAll g c d (xs ++ ys) (vs ++ ws)
DeriveAll-append g c d [] ys [] ws none_left k = k
DeriveAll-append g c d [] ys (v ∷ vs) ws h k = elim h [ ]
DeriveAll-append g c d (lit _ _ ∷ xs) ys [] ws h k = elim h [ ]
DeriveAll-append g c d (ref _ ∷ xs) ys [] ws h k = elim h [ ]
DeriveAll-append g c d (lit _ _ ∷ xs) ys (v ∷ vs) ws (literal h) k =
    literal (DeriveAll-append g c d xs ys vs ws h k)
DeriveAll-append g c d (ref _ ∷ xs) ys (v ∷ vs) ws (reference e h) k =
    reference e (DeriveAll-append g c d xs ys vs ws h k)

-- Each list is the name of the rule and what the atoms derive.
abbrev pub AreExpanded : Grammar → Context → ℕ → Symbol → List Atom → List (List Value) → Type 0
AreExpanded g c d rule atoms lists =
    (l : List Value)
    → In l lists
    → (vals : List Value) × (l ≡ sym rule ∷ vals) × DeriveAll g c d atoms vals

pub extend_by_cycling-AreExtensions :
    (vecs : List (List Value)) (ext : List Value)
    → Yields
        (AreExtensions (λ (l : List Value) v. l ++ (v ∷ [])) vecs ext)
        (or_error assertion (extend_by_cycling vecs ext))
unfolding extend_by_cycling extend
extend_by_cycling-AreExtensions [] ext = tt
extend_by_cycling-AreExtensions (v ∷ vs) [] = tt
extend_by_cycling-AreExtensions (v ∷ vs) (e ∷ es) =
    let (out, q, h) = extend_by_cycling_lem v vs e es in
    subst
      (λ o.
        Yields (AreExtensions (λ (l : List Value) w. l ++ (w ∷ [])) (v ∷ vs) (e ∷ es))
          (or_error assertion o))
      (path_sym q) h

-- The expansions of a rule are values that it derives, and the context is as it was.
abbrev pub AreDerived : Grammar → Context → Symbol → ℕ → Expansions → Type 0
AreDerived g c rule d found =
    ((v : Value) → In v found.0 → Derives g c rule d v)
    × ((v : Value) → In v found.1 → Derives g c rule d v)

abbrev pub Sound : Grammar → ℕ → ExpandRef → Type 0
Sound g d value =
    (path : List Ref) (r : Ref) (c : Context) (paths : List KPath)
    → Yields
        (λ (made : Expansions × (Context × List KPath)).
          (made.1.0 ≡ c) × AreDerived g c r.rule_name d made.0)
        (value (path ++ (r ∷ [])) c paths)

choose-In :
    (covers : Bool) (found : Expansions)
    → Yields
        (λ (chosen : List Value × Bool). (v : Value) → In v chosen.0 → In v found.0 ⊎ In v found.1)
        (choose covers found)
unfolding choose
choose-In covers (c ∷ cs, others) = λ v m. inl m
choose-In covers ([], others) =
    Yields-assert _ (length others == 1) (ok (others, covers)) (λ v m. inr m)

-- One atom expands to values that it derives.
expand_atom-DeriveAll :
    (g : Grammar) (d : ℕ) (value : ExpandRef)
    → Sound g d value
    → (path : List Ref) (atom : Atom) (w : Work)
    → Yields
        (λ (one : List Value × (Bool × (Context × List KPath))).
          (one.1.1.0 ≡ w.context)
          × ((v : Value) → In v one.0 → DeriveAll g w.context d (atom ∷ []) (v ∷ [])))
        (expand_atom value path atom w)
unfolding expand_atom
expand_atom-DeriveAll g d value s path (lit a v) w = (refl, only)
  where
    only : (u : Value) → In u (v ∷ []) → DeriveAll g w.context d (lit a v ∷ []) (u ∷ [])
    only u (here e) =
        subst (λ x. DeriveAll g w.context d (lit a v ∷ []) (x ∷ [])) (path_sym e)
          (literal none_left)
    only u (there m) = elim m [ ]
expand_atom-DeriveAll g d value s path (ref r) w =
    Yields->>= _ _ (value (path ++ (r ∷ [])) (push_all r.ctx_ext w.context) w.paths) _
      (s path r (push_all r.ctx_ext w.context) w.paths)
      (λ sub (e, derived).
        rw (e, pop-push_all r.ctx_ext w.context)
          (Yields->>= _ _ (choose w.covers sub.0) _ (choose-In w.covers sub.0) (λ chosen inside. (
            refl,
            λ v m. elim (inside v m) [
              | inl n ↦ reference (derived.0 v n) none_left
              | inr n ↦ reference (derived.1 v n) none_left
            ],
          ))))

longer-AreExpanded :
    (g : Grammar) (d : ℕ) (rule : Symbol) (c : Context) (before : List Atom) (atom : Atom)
    (lists : List (List Value)) (vals : List Value) (longer : List (List Value))
    → AreExpanded g c d rule before lists
    → ((v : Value) → In v vals → DeriveAll g c d (atom ∷ []) (v ∷ []))
    → AreExtensions (λ (l : List Value) v. l ++ (v ∷ [])) lists vals longer
    → AreExpanded g c d rule (before ++ (atom ∷ [])) longer
longer-AreExpanded g d rule c before atom lists vals longer h each extensions l m =
    let (a, v, in_lists, in_vals, e) = extensions.2 l m in
    let (start, q, derived) = h a in_lists in
    (
      start ++ (v ∷ []),
      e ∙ ap (λ k. k ++ (v ∷ [])) q,
      DeriveAll-append g c d before (atom ∷ []) start (v ∷ []) derived (each v in_vals),
    )

pub expand_production-AreExpanded :
    (g : Grammar) (d : ℕ) (value : ExpandRef)
    → Sound g d value
    → (path : List Ref) (rule : Symbol) (c : Context) (before atoms : List Atom) (w : Work)
    → w.context ≡ c
    → AreExpanded g c d rule before w.prefixes
    → Yields
        (λ (done : Work).
          (done.context ≡ c) × AreExpanded g c d rule (before ++ atoms) done.prefixes)
        (expand_production value path atoms w)
unfolding expand_production
expand_production-AreExpanded g d value s path rule c before [] w e h =
    (e, rw (append-nil before) h)
expand_production-AreExpanded g d value s path rule c before (atom ∷ atoms) w e h =
    Yields->>= _ _ (expand_atom value path atom w) _ (expand_atom-DeriveAll g d value s path atom w)
      (λ one (same, each).
        Yields->>= _ _ (or_error assertion (extend_by_cycling w.prefixes one.0)) _
          (extend_by_cycling-AreExtensions w.prefixes one.0)
          (λ longer extensions.
            subst
              (λ all.
                Yields
                  (λ (done : Work). (done.context ≡ c) × AreExpanded g c d rule all done.prefixes)
                  (expand_production value path atoms record {
                    covers = one.1.0;
                    prefixes = longer;
                    context = one.1.1.0;
                    paths = one.1.1.1;
                  }))
              (append_assoc before (atom ∷ []) atoms)
              (expand_production-AreExpanded g d value s path rule c (before ++ (atom ∷ [])) atoms _
                (same ∙ e)
                (longer-AreExpanded g d rule c before atom w.prefixes one.0 longer h
                  (λ v m. subst (λ k. DeriveAll g k d (atom ∷ []) (v ∷ [])) e (each v m))
                  extensions))))
