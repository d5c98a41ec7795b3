-- ===== src/Grammar/Covering/Steps.antt =====
-- The steps of `kPathCoveringOrMinimalExpansion` succeed where every reference in them does.
use photesthesis.Shared.{
  ◌≡◌, refl, inl, inr, sym as path_sym, Bool, true, List, [], ◌∷◌, ◌++◌, some, In, here, there,
  Bool-cases,
}
use photesthesis.Shared.SetOf.{set_insert}
use photesthesis.Value.{Value, of_list, value_lt}
use photesthesis.Grammar.{Context, Atom, Ref, lit, ref, ok, push_all}
use photesthesis.Grammar.Scope.{pop-push_all}
use photesthesis.Grammar.Cycling.{extend_by_cycling}
use photesthesis.Grammar.Cycling.Laws.{extend_by_cycling_lem}
use photesthesis.Grammar.Covering.{
  KPath, Expansions, ExpandRef, Work, choose, expand_atom, expand_production, insert_lists,
}
use photesthesis.Grammar.Covering.Laws.{IsCoveringOrLeast}

abbrev pub IsNonempty : {A : Type 0} → List A → Type 0
IsNonempty {A} xs = (x : A) × (rest : List A) × (xs ≡ x ∷ rest)

In-IsNonempty : {A : Type 0} (a : A) (xs : List A) → In a xs → IsNonempty xs
In-IsNonempty a [] m = elim m [ ]
In-IsNonempty a (x ∷ xs) m = (x, xs, refl)

set_insert-IsNonempty :
    {A : Type 0} (lt : A → A → Bool) (x : A) (xs : List A) → IsNonempty (set_insert lt x xs)
unfolding set_insert
set_insert-IsNonempty lt x [] = (x, [], refl)
set_insert-IsNonempty lt x (y ∷ ys) = elim (Bool-cases (lt y x)) [
  | inl e ↦ (y, set_insert lt x ys, rw e)
  | inr e ↦ elim (Bool-cases (lt x y)) [
    | inl q ↦ (x, y ∷ ys, rw (e, q))
    | inr q ↦ (y, ys, rw (e, q))
  ]
]

insert_lists-keeps :
    (lists : List (List Value)) (vals : List Value)
    → IsNonempty vals
    → IsNonempty (insert_lists lists vals)
unfolding insert_lists
insert_lists-keeps [] vals h = h
insert_lists-keeps (l ∷ lists) vals h =
    insert_lists-keeps lists (set_insert value_lt (of_list l) vals)
      (set_insert-IsNonempty value_lt (of_list l) vals)

pub insert_lists-IsNonempty :
    (lists : List (List Value)) (vals : List Value)
    → IsNonempty lists
    → IsNonempty (insert_lists lists vals)
unfolding insert_lists
insert_lists-IsNonempty lists vals (l, rest, e) = rw e (
    insert_lists-keeps rest (set_insert value_lt (of_list l) vals)
      (set_insert-IsNonempty value_lt (of_list l) vals))

-- What the expansion of a reference must give, in every context.
abbrev pub Returns : ExpandRef → Ref → Type 0
Returns value r =
    (path : List Ref) (c : Context) (paths : List KPath)
    → (made : Expansions × (Context × List KPath)) × (value (path ++ (r ∷ [])) c paths ≡ ok made)
      × (made.1.0 ≡ c)
      × IsCoveringOrLeast made.0

choose-finds :
    (covers : Bool) (found : Expansions)
    → IsCoveringOrLeast found
    → (chosen : List Value × Bool) × (choose covers found ≡ ok chosen) × IsNonempty chosen.0
unfolding choose
choose-finds covers (c ∷ cs, others) h = ((c ∷ cs, true), refl, (c, cs, refl))
choose-finds covers ([], others) (inr (_, (v, e))) = ((others, covers), rw e, (v, [], e))
choose-finds covers ([], others) (inl (v, vs, e, _)) = cc

expand_atom-finds :
    (value : ExpandRef) (path : List Ref) (atom : Atom) (w : Work)
    → ((r : Ref) → atom ≡ ref r → Returns value r)
    → (one : List Value × (Bool × (Context × List KPath))) × (expand_atom value path atom w
        ≡ ok one)
      × IsNonempty one.0
unfolding expand_atom
expand_atom-finds value path (lit a v) w h = ((v ∷ [], _), refl, (v, [], refl))
expand_atom-finds value path (ref r) w h =
    let (sub, e, same, some_found) = h r refl path (push_all r.ctx_ext w.context) w.paths in
    let (chosen, q, some_chosen) = choose-finds w.covers sub.0 some_found in
    (
      (chosen.0, (chosen.1, (w.context, sub.1.1))),
      rw (e, same, pop-push_all r.ctx_ext w.context, q),
      some_chosen,
    )

extend_by_cycling-finds :
    (vecs : List (List Value)) (ext : List Value)
    → IsNonempty vecs
    → IsNonempty ext
    → (out : List (List Value)) × (extend_by_cycling vecs ext ≡ some out) × IsNonempty out
extend_by_cycling-finds vecs ext (v, vs, e) (x, xs, q) =
    let (out, r, h) = extend_by_cycling_lem v vs x xs in
    let (b, _, m) = h.0 v (here refl) in (out, rw (e, q) r, In-IsNonempty _ out m)

pub expand_production-finds :
    (value : ExpandRef) (path : List Ref) (atoms : List Atom) (w : Work)
    → ((r : Ref) → In (ref r) atoms → Returns value r)
    → IsNonempty w.prefixes
    → (done : Work) × (expand_production value path atoms w ≡ ok done) × IsNonempty done.prefixes
unfolding expand_production
expand_production-finds value path [] w h n = (w, refl, n)
expand_production-finds value path (atom ∷ atoms) w h n =
    let (one, e, m) = expand_atom-finds value path atom w (λ r q. h r (here (path_sym q))) in
    let (out, q, l) = extend_by_cycling-finds w.prefixes one.0 n m in
    let (done, f, p) =
      expand_production-finds value path atoms
        record { covers = one.1.0; prefixes = out; context = one.1.1.0; paths = one.1.1.1 }
        (λ r i. h r (there i)) l in
    (done, rw (e, q) f, p)
