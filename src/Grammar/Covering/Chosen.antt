-- ===== src/Grammar/Covering/Chosen.antt =====
-- What one atom of a production, in `kPathCoveringOrMinimalExpansion`, does with the set of k-paths.
use photesthesis.Shared.{
  ℕ, ◌≡◌, refl, ◌⊎◌, inl, inr, subst, Bool, true, false, List, [], ◌∷◌, ◌++◌, In, here, there, ◌==◌,
  length,
}
use photesthesis.Shared.SetOf.{IsSorted}
use photesthesis.Value.{Value}
use photesthesis.Grammar.{Context, Atom, Ref, lit, ref, Grammar, ok, push_all}
use photesthesis.Grammar.Scope.{pop-push_all}
use photesthesis.Grammar.Language.{Yields, Yields->>=, Yields-assert}
use photesthesis.Grammar.Covering.{
  KPath, Expansions, ExpandRef, Work, kpath_lt, choose, expand_atom,
}
use photesthesis.Grammar.Covering.Passing.{
  Has, Passes, NoneAhead, Took, Took-same, Took-imp, IsCovering,
}

-- What a reference at the end of a path is passed by, and what is not ahead of it.
abbrev pub PassesAt : Grammar → ℕ → ℕ → List Ref → Context → Ref → KPath → Value → Type 0
PassesAt g k d path c r q v = Passes g k q (path ++ (r ∷ [])) c r.rule_name d v

abbrev pub NoneAt : Grammar → ℕ → ℕ → List Ref → Context → Ref → List KPath → Type 0
NoneAt g k d path c r paths = NoneAhead g k paths (path ++ (r ∷ [])) c r.rule_name d

-- What the expansion of a reference must give.
abbrev pub CoversPaths : Grammar → ℕ → ℕ → ExpandRef → Type 0
CoversPaths g k d value =
    (path : List Ref) (r : Ref) (c : Context) (paths : List KPath)
    → IsSorted kpath_lt paths
    → Yields
        (λ (made : Expansions × (Context × List KPath)).
          (made.1.0 ≡ c) × IsCovering (PassesAt g k d path c r) (NoneAt g k d path c r) paths made)
        (value (path ++ (r ∷ [])) c paths)

module _ (g : Grammar) (k d : ℕ) (value : ExpandRef) (s : CoversPaths g k d value) (path : List Ref)
    (c : Context) where
  -- The element that the atom makes, if it is a reference, passes the k-path.
  abbrev pub IsPassed : Atom → KPath → Value → Type 0
  IsPassed atom q u = (r : Ref) × (atom ≡ ref r) × PassesAt g k d path (push_all r.ctx_ext c) r q u

  abbrev pub NoneBelow : List Atom → List KPath → Type 0
  NoneBelow atoms paths =
      (r : Ref) → In (ref r) atoms → NoneAt g k d path (push_all r.ctx_ext c) r paths

  -- What the expansion of one atom does to it.
  pub record IsStep (atom : Atom) (w : Work) (one : List Value × (Bool × (Context × List KPath)))
      : Type 0 where
    pub same : one.1.1.0 ≡ w.context
    pub keeps : w.covers ≡ true → one.1.0 ≡ true
    pub fresh :
        one.1.0 ≡ true
        → (w.covers ≡ true)
          ⊎ ((u : Value) → In u one.0 → (q : KPath) × Has w.paths q × IsPassed atom q u)
    pub took :
        Took
          (λ q. (one.1.0 ≡ true) × ((u : Value) × In u one.0 × IsPassed atom q u))
          w.paths
          one.1.1.1
    pub none : one.1.0 ≡ false → NoneBelow (atom ∷ []) w.paths

  chosen-IsStep :
      (r : Ref) (w : Work)
      → w.context ≡ c
      → (sub : Expansions × (Context × List KPath))
      → IsCovering
          (PassesAt g k d path (push_all r.ctx_ext c) r)
          (NoneAt g k d path (push_all r.ctx_ext c) r)
          w.paths
          sub
      → Yields
          (λ (chosen : List Value × Bool).
            IsStep (ref r) w (chosen.0, (chosen.1, (w.context, sub.1.1))))
          (choose w.covers sub.0)
  unfolding choose
  chosen-IsStep r w e ((v ∷ vs, others), after) h = record {
    same = refl;
    keeps = λ b. refl;
    fresh = λ b. inr (λ u i. let (q, has, p) = h.each u i in (q, has, (r, refl, p)));
    took = Took-imp _ _ _ _ h.took (λ q (u, i, p). (refl, (u, i, (r, refl, p))));
    none = λ b. cc;
  }
  chosen-IsStep r w e (([], others), after) h =
      Yields-assert _ (length others == 1) (ok (others, w.covers)) (record {
        same = refl;
        keeps = λ b. b;
        fresh = λ b. inl b;
        took = Took-imp _ _ _ _ h.took (λ q (u, i, p). elim i [ ]);
        none = λ b r' i. only r' i;
      })
    where
      only :
          (r' : Ref)
          → In (ref r') (ref r ∷ [])
          → NoneAt g k d path (push_all r'.ctx_ext c) r' w.paths
      only r' (here q) =
          subst (λ x. NoneAt g k d path (push_all x.ctx_ext c) x w.paths) (cc q) (h.none refl)
      only r' (there i) = elim i [ ]

  pub expand_atom-IsStep :
      (atom : Atom) (w : Work)
      → w.context ≡ c
      → IsSorted kpath_lt w.paths
      → Yields (IsStep atom w) (expand_atom value path atom w)
  unfolding expand_atom
  expand_atom-IsStep (lit a v) w e sorted = record {
    same = refl;
    keeps = λ b. b;
    fresh = λ b. inl b;
    took = Took-same _ w.paths sorted;
    none = λ b r i. no_ref r i;
  }
    where
      no_ref :
          (r : Ref) → In (ref r) (lit a v ∷ []) → NoneAt g k d path (push_all r.ctx_ext c) r w.paths
      no_ref r (here q) = cc
      no_ref r (there i) = elim i [ ]
  expand_atom-IsStep (ref r) w e sorted =
      Yields->>= _ _ (value (path ++ (r ∷ [])) (push_all r.ctx_ext w.context) w.paths) _
        (s path r (push_all r.ctx_ext w.context) w.paths sorted)
        (λ sub (same, h).
          rw (same, pop-push_all r.ctx_ext w.context)
            (Yields->>= _ _ (choose w.covers sub.0) _
              (chosen-IsStep r w e sub (
                subst
                  (λ x.
                    IsCovering (PassesAt g k d path (push_all r.ctx_ext x) r)
                      (NoneAt g k d path (push_all r.ctx_ext x) r) w.paths sub)
                  e h))
              (λ chosen h'. h')))
