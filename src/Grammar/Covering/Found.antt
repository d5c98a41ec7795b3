-- ===== src/Grammar/Covering/Found.antt =====
-- What the loop over the productions, in `kPathCoveringOrMinimalExpansion`, does with the set of
-- k-paths.
use photesthesis.Shared.{
  ◌∙◌, length, ℕ, suc, ◌≡◌, refl, inl, inr, ap, sym as path_sym, subst, Bool, true, false, List, [],
  ◌∷◌, ◌++◌, some, In, here, there,
}
use photesthesis.Shared.MapOf.{map_find}
use photesthesis.Shared.SetOf.{IsSorted, set_has, set_insert, In-set_insert}
use photesthesis.Shared.SetOf.Members.{new-In}
use photesthesis.Symbol.{Symbol, symbol_lt}
use photesthesis.Value.{Value, sym, of_list, value_lt}
use photesthesis.Value.Order.{value_lt-IsTotalOrder}
use photesthesis.Grammar.{Context, Production, Atom, Ref, ref, Grammar, Result, ok, error, push_all}
use photesthesis.Grammar.Active.{IsEnabled}
use photesthesis.Grammar.Language.{Yields, Yields->>=, Yields-imp}
use photesthesis.Grammar.Covering.{
  KPath, Expansions, ExpandRef, Work, kpath_lt, suffix, cover_first, expand_production,
  insert_lists, add_expansions, expand_productions,
}
use photesthesis.Grammar.Covering.Atoms.{AreExpanded, Sound, expand_production-AreExpanded}
use photesthesis.Grammar.Covering.Laws.{insert_lists-In, start-AreExpanded}
use photesthesis.Grammar.Covering.Passing.{
  pairs, Has, Passes, NoneAhead-fewer, fewer, Took, Took-join, Took-imp, cover_first-IsMarked,
}
use photesthesis.Grammar.Covering.Chosen.{NoneAt, CoversPaths, NoneBelow}
use photesthesis.Grammar.Covering.Elements.{Meets, IsWork, expand_production-IsDone}

In-insert_lists :
    (lists : List (List Value)) (vals : List Value) (v : Value)
    → In v vals
    → In v (insert_lists lists vals)
unfolding insert_lists
In-insert_lists [] vals v m = m
In-insert_lists (l ∷ lists) vals v m =
    In-insert_lists lists (set_insert value_lt (of_list l) vals) v
      (In-set_insert value_lt (of_list l) v vals m)

list-In :
    (lists : List (List Value)) (vals : List Value) (l : List Value)
    → In l lists
    → In (of_list l) (insert_lists lists vals)
unfolding insert_lists
list-In [] vals l m = elim m [ ]
list-In (l' ∷ lists) vals l (here e) =
    In-insert_lists lists (set_insert value_lt (of_list l') vals) (of_list l) (
      subst (λ x. In (of_list x) (set_insert value_lt (of_list l') vals)) (path_sym e)
        (new-In value_lt-IsTotalOrder (of_list l') vals))
list-In (l' ∷ lists) vals l (there m) = list-In lists (set_insert value_lt (of_list l') vals) l m

none-In : {A : Type 0} (v : A) (xs : List A) → xs ≡ [] → In v xs → ⊥
none-In v [] e m = elim m [ ]
none-In v (x ∷ xs) e m = cc e

pub both :
    {A : Type 0} (P Q : A → Type 0) (m : Result A)
    → Yields P m
    → Yields Q m
    → Yields (λ a. P a × Q a) m
both P Q (ok a) p q = (p, q)
both P Q (error e) p q = tt

tail_same : (rule : Symbol) (xs ys : List Value) → (sym rule ∷ xs) ≡ (sym rule ∷ ys) → xs ≡ ys
tail_same rule xs ys e = cc

-- Nothing is ahead of the production.
abbrev pub NoneIn : Grammar → ℕ → ℕ → List Ref → Context → List KPath → Production → Type 0
NoneIn g k d path c paths p =
    ((a : Atom) → In a p.atoms → set_has kpath_lt (suffix k path ++ (a ∷ [])) paths ≡ false)
    × ((r : Ref) → In (ref r) p.atoms → NoneAt g k d path (push_all r.ctx_ext c) r paths)

module _ (g : Grammar) (k d : ℕ) (value : ExpandRef) (sound : Sound g d value)
    (s : CoversPaths g k d value) (path : List Ref) (c : Context) (rule : Symbol)
    (prods : List Production) (found_rule : map_find symbol_lt rule g.rules ≡ some prods) where
  abbrev pub IsPassedBy : KPath → Value → Type 0
  IsPassedBy q v = Passes g k q path c rule (suc d) v

  -- The expansions that were found since the call began with a set of paths.
  abbrev pub AreFound : List KPath → Expansions → List KPath → Type 0
  AreFound before found paths =
      ((v : Value) → In v found.0 → (q : KPath) × Has before q × IsPassedBy q v)
      × Took (λ q. (v : Value) × In v found.0 × IsPassedBy q v) before paths

  made_list :
      (p : Production)
      → In p prods
      → IsEnabled c p
      → (lists : List (List Value)) → AreExpanded g c d rule p.atoms lists
      → (q : KPath) (l : List Value) → In l lists
      → Meets g k d value s path c rule (suffix k path) p.atoms p.atoms q l
      → IsPassedBy q (of_list l)
  made_list p m enabled lists x q l n (inl h) =
      let (vals, e, derived) = x l n in
      (p, prods, vals, found_rule, m, enabled, derived, ap of_list e, inl h)
  made_list p m enabled lists x q l n (inr (vals', r, u, f, j, h)) =
      let (vals, e, derived) = x l n in
      let same : vals' ≡ vals = tail_same rule vals' vals (path_sym f ∙ e) in
      (
        p,
        prods,
        vals,
        found_rule,
        m,
        enabled,
        derived,
        ap of_list e,
        inr (r, u, subst (λ y. In (ref r, u) (pairs p.atoms y)) same j, h),
      )

  added :
      (p : Production)
      → In p prods
      → IsEnabled c p
      → (before paths : List KPath) (found : Expansions) (w : Work) → AreFound before found paths
      → IsWork g k d value s path c rule (suffix k path) p.atoms p.atoms paths w
      → AreExpanded g c d rule p.atoms w.prefixes
      → (b : Bool) → w.covers ≡ b
      → AreFound before (add_expansions b w.prefixes found) w.paths
  added p m enabled before paths found w (each, took) i x false e =
      (each, Took-join _ _ _ _ _ _ took i.took (λ q h. h) (λ q (t, _). cc (t, e)))
  added p m enabled before paths found w (each, took) i x true e = (
    λ v n. elim (insert_lists-In w.prefixes found.0 v n) [
      | inr old ↦ each v old
      | inl (l, n', f) ↦
          let (q, has, h) = i.each e l n' in
          (
            q,
            took.left q has,
            subst (IsPassedBy q) (path_sym f) (made_list p m enabled w.prefixes x q l n' h),
          )
    ],
    Took-join _ _ _ _ _ _ took i.took
        (λ q (v, n, h). (v, In-insert_lists w.prefixes found.0 v n, h))
        (λ q (t, (l, n, h)).
          (of_list l, list-In w.prefixes found.0 l n, made_list p m enabled w.prefixes x q l n h)),
  )

  nothing_added :
      (paths : List KPath) (p : Production) (found : Expansions) (w : Work)
      → IsWork g k d value s path c rule (suffix k path) p.atoms p.atoms paths w
      → (b : Bool) → w.covers ≡ b
      → (add_expansions b w.prefixes found).0 ≡ []
      → (found.0 ≡ []) × (w.covers ≡ false)
  nothing_added paths p found w i false e h = (h, e)
  nothing_added paths p found w i true e h =
      let (l, m) = i.some_list in
      elim (none-In (of_list l) (insert_lists w.prefixes found.0) h
        (list-In w.prefixes found.0 l m)) [ ]

  start-IsMade :
      (l : List Value)
      → In l ((sym rule ∷ []) ∷ [])
      → (vals : List Value) × (l ≡ sym rule ∷ vals) × (length vals ≡ length {A = Atom} [])
  start-IsMade l (here e) = ([], e, refl)
  start-IsMade l (there m) = elim m [ ]

  start-IsWork :
      (p : Production) (c' : Context) (paths : List KPath)
      → c' ≡ c
      → IsSorted kpath_lt paths
      → let marked = cover_first (suffix k path) p.atoms paths in
        IsWork g k d value s path c rule (suffix k path) p.atoms [] paths record {
          covers = marked.0;
          prefixes = (sym rule ∷ []) ∷ [];
          context = c';
          paths = marked.1;
        }
  start-IsWork p c' paths e sorted =
      let m = cover_first-IsMarked (suffix k path) p.atoms paths sorted in
      record {
        same = e;
        made = start-IsMade;
        some_list = (sym rule ∷ [], here refl);
        each = λ b l i. let (q, has, h) = m.some_path b in (q, has, inl h);
        took = Took-imp _ _ _ _ m.took (λ q (b, h). (b, (sym rule ∷ [], here refl, inl h)));
      }

  fewer-NoneIn :
      (before paths : List KPath) (p : Production)
      → ((q : KPath) → Has before q → Has paths q)
      → NoneIn g k d path c paths p
      → NoneIn g k d path c before p
  fewer-NoneIn before paths p h (atoms, refs) = (
    λ a m. fewer before paths h (suffix k path ++ (a ∷ [])) (atoms a m),
    λ r m.
        NoneAhead-fewer g k before paths (path ++ (r ∷ [])) (push_all r.ctx_ext c) r.rule_name d h
          (refs r m),
  )

  pub expand_productions-AreFound :
      (before : List KPath) (ps : List Production)
      → ((p : Production) → In p ps → In p prods × IsEnabled c p)
      → (found : Expansions) (c' : Context) (paths : List KPath) → c' ≡ c
      → AreFound before found paths
      → Yields
          (λ (made : Expansions × (Context × List KPath)).
            (made.1.0 ≡ c)
            × AreFound before made.0 made.1.1
            × (made.0.0 ≡ []
                → (found.0 ≡ []) × ((p : Production) → In p ps → NoneIn g k d path c before p)))
          (expand_productions value path (suffix k path) rule ps found c' paths)
  unfolding expand_productions
  expand_productions-AreFound before [] active found c' paths e h =
      (e, h, λ q. (q, λ p m. elim m [ ]))
  expand_productions-AreFound before (p ∷ ps) active found c' paths e h =
      let (m, enabled) = active p (here refl) in
      Yields->>= _ _ (expand_production value path p.atoms _) _
        (both _ _ (expand_production value path p.atoms _)
          (expand_production-AreExpanded g d value sound path rule c [] p.atoms _ e
            (start-AreExpanded g d rule c))
          (expand_production-IsDone g k d value s path c rule (suffix k path) p.atoms [] paths
            p.atoms _ (start-IsWork p c' paths e h.1.sorted)))
        (λ w ((same, x), (i, none)).
          Yields-imp (expand_productions value path (suffix k path) rule ps _ w.context w.paths)
            (expand_productions-AreFound before ps (λ p' n. active p' (there n))
              (add_expansions w.covers w.prefixes found) w.context w.paths same
              (added p m enabled before paths found w h i x w.covers refl))
            (λ made (same', h', rest). (
              same',
              h',
              λ q.
                  let (nothing, others) = rest q in
                  let (start, off) = nothing_added paths p found w i w.covers refl nothing in
                  (start, λ p' n. here_none w none start off others p' n),
            )))
    where
      kept : found.0 ≡ [] → (q : KPath) → Has before q → Has paths q
      kept start q has = elim (h.1.taken q has) [
        | inl l ↦ l
        | inr (v, n, _) ↦ elim (none-In v found.0 start n) [ ]
      ]

      here_none :
          (w : Work)
          → (w.covers ≡ false
              → ((cover_first (suffix k path) p.atoms paths).0 ≡ false)
                × NoneBelow g k d value s path c p.atoms paths)
          → found.0 ≡ []
          → w.covers ≡ false
          → ((p' : Production) → In p' ps → NoneIn g k d path c before p')
          → (p' : Production) → In p' (p ∷ ps)
          → NoneIn g k d path c before p'
      here_none w none start off others p' (there n) = others p' n
      here_none w none start off others p' (here q) =
          let (unmarked, below) = none off in
          let marked = cover_first-IsMarked (suffix k path) p.atoms paths h.1.sorted in
          subst (NoneIn g k d path c before) (path_sym q)
            (fewer-NoneIn before paths p (kept start) (marked.none unmarked, below))
