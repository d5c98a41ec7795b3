-- ===== src/Grammar/Covering/Elements.antt =====
-- What the loop over the atoms of a production, in `kPathCoveringOrMinimalExpansion`, does with the set
-- of k-paths.
use photesthesis.Shared.{
  ℕ, ◌≡◌, refl, ◌⊎◌, inl, inr, ◌∙◌, sym as path_sym, subst, ap, append-nil, append_assoc,
  length-append, arith, Bool, true, false, List, [], ◌∷◌, ◌++◌, In, here, there, length,
}
use photesthesis.Symbol.{Symbol}
use photesthesis.Value.{Value, sym}
use photesthesis.Grammar.{Context, Atom, Ref, ref, Grammar, or_error, assertion, push_all}
use photesthesis.Grammar.Language.{Yields, Yields->>=, Yields-imp}
use photesthesis.Grammar.Cycling.{extend_by_cycling}
use photesthesis.Grammar.Cycling.Laws.{AreExtensions}
use photesthesis.Grammar.Covering.{KPath, ExpandRef, Work, expand_atom, expand_production}
use photesthesis.Grammar.Covering.Atoms.{extend_by_cycling-AreExtensions}
use photesthesis.Grammar.Covering.Passing.{Has, Completes, pairs, NoneAhead-fewer, Took, Took-join}
use photesthesis.Grammar.Covering.Chosen.{
  CoversPaths, PassesAt, IsPassed, NoneBelow, IsStep, expand_atom-IsStep,
}

In-pairs :
    (x : Atom × Value) (atoms atoms' : List Atom) (vals vals' : List Value)
    → In x (pairs atoms vals)
    → In x (pairs (atoms ++ atoms') (vals ++ vals'))
In-pairs x [] atoms' vals vals' m = elim m [ ]
In-pairs x (a ∷ atoms) atoms' [] vals' m = elim m [ ]
In-pairs x (a ∷ atoms) atoms' (v ∷ vals) vals' (here e) = here e
In-pairs x (a ∷ atoms) atoms' (v ∷ vals) vals' (there m) =
    there (In-pairs x atoms atoms' vals vals' m)

In-last :
    (a : Atom) (v : Value) (atoms : List Atom) (vals : List Value)
    → length vals ≡ length atoms
    → In (a, v) (pairs (atoms ++ (a ∷ [])) (vals ++ (v ∷ [])))
In-last a v [] [] e = here refl
In-last a v [] (w ∷ vals) e = absurd (omega (arith, e))
In-last a v (b ∷ atoms) [] e = absurd (omega (arith, e))
In-last a v (b ∷ atoms) (w ∷ vals) e = there (In-last a v atoms vals (omega (arith, e)))

module _ (g : Grammar) (k d : ℕ) (value : ExpandRef) (s : CoversPaths g k d value) (path : List Ref)
    (c : Context) (rule : Symbol) (kpath : KPath) (all : List Atom) where
  -- The list is the name of the rule and an element for each atom.
  abbrev pub IsMade : List Atom → List Value → Type 0
  IsMade atoms l = (vals : List Value) × (l ≡ sym rule ∷ vals) × (length vals ≡ length atoms)

  -- The k-path is completed in the production, or passed by an element that was made.
  abbrev pub Meets : List Atom → KPath → List Value → Type 0
  Meets atoms q l =
      Completes kpath q all
      ⊎ ((vals : List Value) × (r : Ref) × (u : Value) × (l ≡ sym rule ∷ vals)
          × In (ref r, u) (pairs atoms vals)
          × PassesAt g k d path (push_all r.ctx_ext c) r q u)

  Meets-append :
      (atoms : List Atom) (a : Atom) (q : KPath) (l : List Value) (v : Value)
      → Meets atoms q l
      → Meets (atoms ++ (a ∷ [])) q (l ++ (v ∷ []))
  Meets-append atoms a q l v (inl h) = inl h
  Meets-append atoms a q l v (inr (vals, r, u, e, m, h)) = inr (
    vals ++ (v ∷ []),
    r,
    u,
    ap (λ x. x ++ (v ∷ [])) e,
    In-pairs (ref r, u) atoms (a ∷ []) vals (v ∷ []) m,
    h,
  )

  Meets-last :
      (atoms : List Atom) (a : Atom) (q : KPath) (l : List Value) (v : Value)
      → IsMade atoms l
      → IsPassed g k d value s path c a q v
      → Meets (atoms ++ (a ∷ [])) q (l ++ (v ∷ []))
  Meets-last atoms a q l v (vals, e, n) (r, is_r, h) = inr (
    vals ++ (v ∷ []),
    r,
    v,
    ap (λ x. x ++ (v ∷ [])) e,
    subst (λ b. In (b, v) (pairs (atoms ++ (a ∷ [])) (vals ++ (v ∷ [])))) is_r
        (In-last a v atoms vals n),
    h,
  )

  IsMade-append :
      (atoms : List Atom) (a : Atom) (l : List Value) (v : Value)
      → IsMade atoms l
      → IsMade (atoms ++ (a ∷ [])) (l ++ (v ∷ []))
  IsMade-append atoms a l v (vals, e, n) = (
    vals ++ (v ∷ []),
    ap (λ x. x ++ (v ∷ [])) e,
    omega (arith, length-append vals (v ∷ []), length-append atoms (a ∷ []), n),
  )

  -- The work on a production that began with a set of paths, behind these atoms.
  pub record IsWork (atoms : List Atom) (before : List KPath) (w : Work) : Type 0 where
    pub same : w.context ≡ c
    pub made : (l : List Value) → In l w.prefixes → IsMade atoms l
    pub some_list : (l : List Value) × In l w.prefixes
    pub each :
        w.covers ≡ true
        → (l : List Value) → In l w.prefixes
        → (q : KPath) × Has before q × Meets atoms q l
    pub took :
        Took
          (λ q. (w.covers ≡ true) × ((l : List Value) × In l w.prefixes × Meets atoms q l))
          before
          w.paths

  longer-IsWork :
      (atoms : List Atom) (before : List KPath) (atom : Atom) (w : Work)
      (one : List Value × (Bool × (Context × List KPath))) (longer : List (List Value))
      → IsWork atoms before w
      → IsStep g k d value s path c atom w one
      → AreExtensions (λ (l : List Value) v. l ++ (v ∷ [])) w.prefixes one.0 longer
      → IsWork
          (atoms ++ (atom ∷ []))
          before
          (record { covers = one.1.0; prefixes = longer; context = one.1.1.0; paths = one.1.1.1 })
  longer-IsWork atoms before atom w one longer i t x = record {
    same = t.same ∙ i.same;
    made = λ l m.
        let (a, v, in_lists, in_vals, e) = x.2 l m in
        subst (IsMade (atoms ++ (atom ∷ []))) (path_sym e)
          (IsMade-append atoms atom a v (i.made a in_lists));
    some_list = let (l, m) = i.some_list in let (b, _, n) = x.0 l m in (l ++ (b ∷ []), n);
    each = λ b l m.
        let (a, v, in_lists, in_vals, e) = x.2 l m in
        subst (λ y. (q : KPath) × Has before q × Meets (atoms ++ (atom ∷ [])) q y) (path_sym e)
          (elim (t.fresh b) [
            | inl old ↦
                let (q, has, p) = i.each old a in_lists in (q, has, Meets-append atoms atom q a v p)
            | inr new ↦
                let (q, has, p) = new v in_vals in
                (q, i.took.left q has, Meets-last atoms atom q a v (i.made a in_lists) p)
          ]);
    took =
        Took-join _ _ _ _ _ _ i.took t.took
          (λ q (b, (l, m, p)).
            let (v, _, n) = x.0 l m in
            (t.keeps b, (l ++ (v ∷ []), n, Meets-append atoms atom q l v p)))
          (λ q (b, (u, m, p)).
            let (a, m', n) = x.1 u m in
            (b, (a ++ (u ∷ []), n, Meets-last atoms atom q a u (i.made a m') p)));
  }

  -- The work is done, and where it covers nothing, it began so and nothing is ahead.
  abbrev pub IsDone : List Atom → List KPath → List Atom → Work → Work → Type 0
  IsDone made before atoms w done =
      IsWork made before done
      × (done.covers ≡ false → (w.covers ≡ false) × NoneBelow g k d value s path c atoms before)

  was_false : (b b' : Bool) → (b ≡ true → b' ≡ true) → b' ≡ false → b ≡ false
  was_false true b' h e = cc (h refl, e)
  was_false false b' h e = refl

  NoneBelow-step :
      (made : List Atom) (before : List KPath) (atom : Atom) (atoms : List Atom) (w : Work)
      → IsWork made before w
      → w.covers ≡ false
      → NoneBelow g k d value s path c (atom ∷ []) w.paths
      → NoneBelow g k d value s path c atoms before
      → NoneBelow g k d value s path c (atom ∷ atoms) before
  NoneBelow-step made before atom atoms w i e n rest r (there m) = rest r m
  NoneBelow-step made before atom atoms w i e n rest r (here q) =
      NoneAhead-fewer g k before w.paths (path ++ (r ∷ [])) (push_all r.ctx_ext c) r.rule_name d
        (λ p h. elim (i.took.taken p h) [ inl l ↦ l | inr (b, _) ↦ cc (b, e) ]) (n r (here q))

  pub expand_production-IsDone :
      (made : List Atom) (before : List KPath) (atoms : List Atom) (w : Work)
      → IsWork made before w
      → Yields (IsDone (made ++ atoms) before atoms w) (expand_production value path atoms w)
  unfolding expand_production
  expand_production-IsDone made before [] w i =
      (subst (λ x. IsWork x before w) (path_sym (append-nil made)) i, λ e. (e, λ r m. elim m [ ]))
  expand_production-IsDone made before (atom ∷ atoms) w i =
      Yields->>= _ _ (expand_atom value path atom w) _
        (expand_atom-IsStep g k d value s path c atom w i.same i.took.sorted)
        (λ one t.
          Yields->>= _ _ (or_error assertion (extend_by_cycling w.prefixes one.0)) _
            (extend_by_cycling-AreExtensions w.prefixes one.0)
            (λ longer x.
              Yields-imp (expand_production value path atoms _)
                (expand_production-IsDone (made ++ (atom ∷ [])) before atoms _
                  (longer-IsWork made before atom w one longer i t x))
                (λ done (work, none). (
                  subst (λ y. IsWork y before done) (append_assoc made (atom ∷ []) atoms) work,
                  λ e.
                      let (off, rest) = none e in
                      let was = was_false w.covers one.1.0 t.keeps off in
                      (was, NoneBelow-step made before atom atoms w i was (t.none off) rest),
                ))))
