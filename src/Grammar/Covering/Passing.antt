-- ===== src/Grammar/Covering/Passing.antt =====
-- What `kPathCoveringOrMinimalExpansion` covers: the k-paths that a value passes, and those that no
-- value within a depth passes. Sets of k-paths compare by addresses, so one is in a set if one of the
-- same addresses is.
use photesthesis.Shared.{
  ℕ, zero, suc, ◌≡◌, refl, ◌⊎◌, inl, inr, Bool, true, false, List, [], ◌∷◌, ◌++◌, some, arith, In,
  here, there, Bool-cases,
}
use photesthesis.Shared.MapOf.{map_find}
use photesthesis.Shared.Order.{IsWeakOrder, lt_irrefl, ltb-IsTotalOrder, lex-IsWeakOrder}
use photesthesis.Shared.Compose.{by-IsWeakOrder}
use photesthesis.Shared.SetOf.{
  IsSorted, equiv, set_has, set_erase, set_erase-IsSorted, set_has-set_erase,
}
use photesthesis.Symbol.{Symbol, symbol_lt}
use photesthesis.Value.{Value, sym, of_list}
use photesthesis.Grammar.{Context, Production, Atom, Ref, ref, Grammar, push_all}
use photesthesis.Grammar.Active.{IsEnabled, IsActive}
use photesthesis.Grammar.Language.{DeriveAll}
use photesthesis.Grammar.Covering.{KPath, Expansions, address_of, kpath_lt, suffix, cover_first}

abbrev pub Has : List KPath → KPath → Type 0
Has paths q = set_has kpath_lt q paths ≡ true

-- An atom of the list completes the path to the k-path.
abbrev pub Completes : KPath → KPath → List Atom → Type 0
Completes kpath q atoms = (a : Atom) × In a atoms × (equiv kpath_lt (kpath ++ (a ∷ [])) q ≡ true)

-- Each atom with the element that it makes.
abbrev pub pairs : List Atom → List Value → List (Atom × Value)
pairs [] vals = []
pairs (a ∷ atoms) [] = []
pairs (a ∷ atoms) (v ∷ vals) = (a, v) ∷ pairs atoms vals

-- The value is one that the rule derives by a production of which an atom completes the k-path, or of
-- which a reference makes an element of the value that passes the k-path there.
abbrev pub Passes : Grammar → ℕ → KPath → List Ref → Context → Symbol → ℕ → Value → Type 0
Passes g k q path c rule zero v = ⊥
Passes g k q path c rule (suc d) v =
    (p : Production) × (prods : List Production) × (vals : List Value) × (map_find symbol_lt rule
        g.rules
      ≡ some prods)
    × In p prods
    × IsEnabled c p
    × DeriveAll g c d p.atoms vals
    × (v ≡ of_list (sym rule ∷ vals))
    × (Completes (suffix k path) q p.atoms
        ⊎ ((r : Ref) × (u : Value) × In (ref r, u) (pairs p.atoms vals)
            × Passes g k q (path ++ (r ∷ [])) (push_all r.ctx_ext c) r.rule_name d u))

-- No active production has an atom that completes a path of the set, and none has a reference with one
-- ahead.
abbrev pub NoneAhead : Grammar → ℕ → List KPath → List Ref → Context → Symbol → ℕ → Type 0
NoneAhead g k paths path c rule zero = Unit
NoneAhead g k paths path c rule (suc d) =
    (prods : List Production) (p : Production)
    → map_find symbol_lt rule g.rules ≡ some prods
    → In p prods
    → IsActive (suc d) c p
    → ((a : Atom) → In a p.atoms → set_has kpath_lt (suffix k path ++ (a ∷ [])) paths ≡ false)
      × ((r : Ref)
          → In (ref r) p.atoms
          → NoneAhead g k paths (path ++ (r ∷ [])) (push_all r.ctx_ext c) r.rule_name d)

pub fewer :
    (p p' : List KPath)
    → ((q : KPath) → Has p q → Has p' q)
    → (q : KPath) → set_has kpath_lt q p' ≡ false
    → set_has kpath_lt q p ≡ false
fewer p p' h q e = elim (Bool-cases (set_has kpath_lt q p)) [
  | inl has ↦ absurd (ground (arith, h q has, e))
  | inr none ↦ none
]

-- What is not ahead in a set is not in a smaller one.
pub NoneAhead-fewer :
    (g : Grammar) (k : ℕ) (p p' : List KPath) (path : List Ref) (c : Context) (rule : Symbol)
    (d : ℕ)
    → ((q : KPath) → Has p q → Has p' q)
    → NoneAhead g k p' path c rule d
    → NoneAhead g k p path c rule d
NoneAhead-fewer g k p p' path c rule zero h n = tt
NoneAhead-fewer g k p p' path c rule (suc d) h n = λ prods prod found m active. (
  λ a i. fewer p p' h (suffix k path ++ (a ∷ [])) ((n prods prod found m active).0 a i),
  λ r i.
      NoneAhead-fewer g k p p' (path ++ (r ∷ [])) (push_all r.ctx_ext c) r.rule_name d h
        ((n prods prod found m active).1 r i),
)

-- A set after some of its paths were taken off, each of which is as the predicate says.
pub record Took (C : KPath → Type 0) (before after : List KPath) : Type 0 where
  pub sorted : IsSorted kpath_lt after
  pub left : (q : KPath) → Has after q → Has before q
  pub taken : (q : KPath) → Has before q → Has after q ⊎ C q

pub Took-same :
    (C : KPath → Type 0) (paths : List KPath) → IsSorted kpath_lt paths → Took C paths paths
Took-same C paths s = record { sorted = s; left = λ q h. h; taken = λ q h. inl h }

pub Took-join :
    (C D E : KPath → Type 0) (a b c : List KPath)
    → Took C a b
    → Took D b c
    → ((q : KPath) → C q → E q)
    → ((q : KPath) → D q → E q)
    → Took E a c
Took-join C D E a b c s t f h = record {
  sorted = t.sorted;
  left = λ q m. s.left q (t.left q m);
  taken = λ q m. elim (s.taken q m) [
    | inl n ↦ elim (t.taken q n) [ inl l ↦ inl l | inr x ↦ inr (h q x) ]
    | inr x ↦ inr (f q x)
  ];
}

pub Took-imp :
    (C E : KPath → Type 0) (a b : List KPath) → Took C a b → ((q : KPath) → C q → E q) → Took E a b
Took-imp C E a b s f = record {
  sorted = s.sorted;
  left = s.left;
  taken = λ q m. elim (s.taken q m) [ inl l ↦ inl l | inr x ↦ inr (f q x) ];
}

kpath_lt-IsWeakOrder : IsWeakOrder kpath_lt
kpath_lt-IsWeakOrder = lex-IsWeakOrder (by-IsWeakOrder address_of ltb-IsTotalOrder.weak)

equiv_same : (q : KPath) → equiv kpath_lt q q ≡ true
equiv_same q = rw (lt_irrefl kpath_lt-IsWeakOrder q)

-- What the first loop over the atoms of a production leaves.
pub record IsMarked (kpath : KPath) (atoms : List Atom) (paths : List KPath) (m : Bool × List KPath)
    : Type 0 where
  pub took : Took (λ q. (m.0 ≡ true) × Completes kpath q atoms) paths m.1
  pub some_path : m.0 ≡ true → (q : KPath) × Has paths q × Completes kpath q atoms
  pub none :
      m.0 ≡ false → (a : Atom) → In a atoms → set_has kpath_lt (kpath ++ (a ∷ [])) paths ≡ false

pub cover_first-IsMarked :
    (kpath : KPath) (atoms : List Atom) (paths : List KPath)
    → IsSorted kpath_lt paths
    → IsMarked kpath atoms paths (cover_first kpath atoms paths)
unfolding cover_first
cover_first-IsMarked kpath [] paths s = record {
  took = Took-same _ paths s;
  some_path = λ h. cc;
  none = λ h a m. elim m [ ];
}
cover_first-IsMarked kpath (atom ∷ atoms) paths s =
    elim (Bool-cases (set_has kpath_lt (kpath ++ (atom ∷ [])) paths)) [
      | inl e ↦ rw e (record {
        took = record {
          sorted = set_erase-IsSorted kpath_lt-IsWeakOrder (kpath ++ (atom ∷ [])) paths s;
          left = λ q h.
              ground
                (arith, h, set_has-set_erase kpath_lt-IsWeakOrder (kpath ++ (atom ∷ [])) q paths s);
          taken = λ q h. erased q h;
        };
        some_path = λ h. (kpath ++ (atom ∷ []), e, (atom, here refl, equiv_same _));
        none = λ h. cc;
      })
      | inr e ↦ rw e (
          let rest = cover_first-IsMarked kpath atoms paths s in
          record {
            took = Took-imp _ _ _ _ rest.took (λ q (b, (a, i, h)). (b, (a, there i, h)));
            some_path =
                λ h. let (q, has, (a, i, f)) = rest.some_path h in (q, has, (a, there i, f));
            none = λ h a i. absent e (rest.none h) a i;
          })
    ]
  where
    erased :
        (q : KPath)
        → Has paths q
        → Has (set_erase kpath_lt (kpath ++ (atom ∷ [])) paths) q
          ⊎ ((true ≡ true) × Completes kpath q (atom ∷ atoms))
    erased q h = elim (Bool-cases (equiv kpath_lt (kpath ++ (atom ∷ [])) q)) [
      | inl e ↦ inr (refl, (atom, here refl, e))
      | inr e ↦
          inl (rw (set_has-set_erase kpath_lt-IsWeakOrder (kpath ++ (atom ∷ [])) q paths s, e) h)
    ]

    absent :
        set_has kpath_lt (kpath ++ (atom ∷ [])) paths ≡ false
        → ((a : Atom) → In a atoms → set_has kpath_lt (kpath ++ (a ∷ [])) paths ≡ false)
        → (a : Atom) → In a (atom ∷ atoms)
        → set_has kpath_lt (kpath ++ (a ∷ [])) paths ≡ false
    absent e f a (here q) = rw q e
    absent e f a (there i) = f a i

-- What a call does with the set of paths: each value of the first list passes one of them, each that
-- was taken off is passed by such a value, and if there is no such value, none is ahead.
pub record IsCovering (P : KPath → Value → Type 0) (A : List KPath → Type 0) (before : List KPath)
    (made : Expansions × (Context × List KPath)) : Type 0 where
  pub each : (v : Value) → In v made.0.0 → (q : KPath) × Has before q × P q v
  pub took : Took (λ q. (v : Value) × In v made.0.0 × P q v) before made.1.1
  pub none : made.0.0 ≡ [] → A before
