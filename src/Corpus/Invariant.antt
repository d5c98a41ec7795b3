-- ===== src/Corpus/Invariant.antt =====
-- The invariant of a corpus, and what its map of sets holds after a set was stored.
use photesthesis.Shared.{
  ◌≡◌, refl, ◌↔◌, sym as path_sym, subst, Bool, true, false, List, [], ◌∷◌, some, arith, All,
  if◌then◌else◌, Bool-cases, inl, inr,
}
use photesthesis.Shared.Order.{IsTotalOrder, lt_irrefl}
use photesthesis.Shared.SetOf.{IsSorted, equiv}
use photesthesis.Shared.MapOf.{
  HasSortedKeys, map_find, map_set, map_set-HasSortedKeys, map_find-map_set,
}
use photesthesis.Symbol.{Symbol, symbol_eq, symbol_lt}
use photesthesis.Value.Equality.{symbol_eq_iff}
use photesthesis.Value.Order.{symbol_lt-IsTotalOrder}
use photesthesis.Transcript.{Transcript, name_of, transcript_lt, transcript_eq}
use photesthesis.Transcript.Order.{transcript_lt-IsTotalOrder, transcript_eq_iff}
use photesthesis.Corpus.{Corpus, or_empty, transcripts_of, put_transcripts, mark_dirty}

-- In a total order the elements that a container takes for equal are the equal ones.
equiv-eq :
    {A : Type 0} {lt : A → A → Bool} (o : IsTotalOrder lt) (eq : A → A → Bool)
    → ((a b : A) → (eq a b ≡ true) ↔ (a ≡ b))
    → (a b : A) → equiv lt a b ≡ eq a b
equiv-eq {lt} o eq h a b = elim (Bool-cases (eq a b)) [
  | inl e ↦ rw e (subst (λ c. equiv lt a c ≡ true) ((h a b).0 e) (rw (lt_irrefl o.weak a)))
  | inr e ↦ ground (arith, h a b, o.connected a b)
]

pub equiv-symbol : (a b : Symbol) → equiv symbol_lt a b ≡ symbol_eq a b
equiv-symbol = equiv-eq symbol_lt-IsTotalOrder symbol_eq symbol_eq_iff

pub equiv-transcript : (a b : Transcript) → equiv transcript_lt a b ≡ transcript_eq a b
equiv-transcript = equiv-eq transcript_lt-IsTotalOrder transcript_eq transcript_eq_iff

-- A set filed under a name: its transcripts increase and bear the name.
abbrev pub IsFiled : Symbol → List Transcript → Type 0
IsFiled name ts = IsSorted transcript_lt ts × All (λ t. name_of t ≡ name) ts

-- The names increase, and each set is filed under its own.
pub record IsValid (c : Corpus) : Type 0 where
  pub keys : HasSortedKeys symbol_lt c.transcripts
  pub sets : All (λ e. IsFiled e.0 e.1) c.transcripts

refile :
    (j name : Symbol) (ts : List Transcript)
    → symbol_lt j name ≡ false
    → symbol_lt name j ≡ false
    → (IsFiled j ts → IsFiled name ts) × (IsFiled name ts → IsFiled j ts)
refile j name ts p q =
    let e = symbol_lt-IsTotalOrder.connected j name p q in
    (subst (λ k. IsFiled k ts) e, subst (λ k. IsFiled k ts) (path_sym e))

find-IsFiled :
    (name : Symbol) (m : List (Symbol × List Transcript))
    → All (λ e. IsFiled e.0 e.1) m
    → IsFiled name (or_empty (map_find symbol_lt name m))
unfolding map_find
find-IsFiled name [] h = (tt, tt)
find-IsFiled name ((j, ts) ∷ m) h = elim (Bool-cases (symbol_lt j name)) [
  | inl less ↦ rw less (find-IsFiled name m h.1)
  | inr p ↦ elim (Bool-cases (symbol_lt name j)) [
    | inl greater ↦ rw (p, greater) (tt, tt)
    | inr q ↦ rw (p, q) ((refile j name ts p q).0 h.0)
  ]
]

set-AreFiled :
    (name : Symbol) (ts : List Transcript) (m : List (Symbol × List Transcript))
    → IsFiled name ts
    → All (λ e. IsFiled e.0 e.1) m
    → All (λ e. IsFiled e.0 e.1) (map_set symbol_lt name ts m)
unfolding map_set
set-AreFiled name ts [] f h = (f, tt)
set-AreFiled name ts ((j, us) ∷ m) f h = elim (Bool-cases (symbol_lt j name)) [
  | inl less ↦ rw less (h.0, set-AreFiled name ts m f h.1)
  | inr p ↦ elim (Bool-cases (symbol_lt name j)) [
    | inl greater ↦ rw (p, greater) (f, h)
    | inr q ↦ rw (p, q) ((refile j name ts p q).1 f, h.1)
  ]
]

pub transcripts_of-IsFiled :
    (c : Corpus) (name : Symbol) → IsValid c → IsFiled name (transcripts_of c name)
unfolding transcripts_of
transcripts_of-IsFiled c name v = find-IsFiled name c.transcripts v.sets

pub put_transcripts-IsValid :
    (c : Corpus) (name : Symbol) (ts : List Transcript)
    → IsValid c
    → IsFiled name ts
    → IsValid (put_transcripts c name ts)
unfolding put_transcripts
put_transcripts-IsValid c name ts v f = record {
  keys = map_set-HasSortedKeys symbol_lt-IsTotalOrder.weak name ts c.transcripts v.keys;
  sets = set-AreFiled name ts c.transcripts f v.sets;
}

-- A stored set is read back under its name, and every other name keeps its set.
pub transcripts_of-put :
    (c : Corpus) (name j : Symbol) (ts : List Transcript)
    → transcripts_of (put_transcripts c name ts) j
      ≡ (if symbol_eq name j then ts else transcripts_of c j)
unfolding transcripts_of put_transcripts
transcripts_of-put c name j ts =
    rw (map_find-map_set symbol_lt-IsTotalOrder.weak name j ts c.transcripts, equiv-symbol name j)
      (pick (symbol_eq name j))
  where
    pick :
        (b : Bool)
        → or_empty (if b then some ts else map_find symbol_lt j c.transcripts)
          ≡ (if b then ts else or_empty (map_find symbol_lt j c.transcripts))
    pick true = refl
    pick false = refl

pub transcripts_of-mark_dirty :
    (c : Corpus) (name : Symbol) → transcripts_of (mark_dirty c) name ≡ transcripts_of c name
unfolding transcripts_of mark_dirty
transcripts_of-mark_dirty c name = refl

pub mark_dirty-IsValid : (c : Corpus) → IsValid c → IsValid (mark_dirty c)
unfolding mark_dirty
mark_dirty-IsValid c v = record { keys = v.keys; sets = v.sets }
