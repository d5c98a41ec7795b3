-- ===== src/Save/Flatten.antt =====
-- The transcripts of a corpus in the order in which `save`, in src/corpus.cpp, writes them.
use photesthesis.Shared.{
  ◌≡◌, refl, ◌∙◌, sym as path_sym, subst, Bool, true, false, ◌||◌, List, [], ◌∷◌, ◌++◌, arith,
  Bool-cases, inl, inr, All, All-imp, any_of,
}
use photesthesis.Shared.Order.{lt_trans}
use photesthesis.Shared.SetOf.{IsSorted, set_has, above, has_above}
use photesthesis.Shared.MapOf.{HasSortedKeys, map_find}
use photesthesis.Symbol.{Symbol, symbol_lt}
use photesthesis.Value.Order.{symbol_lt-IsTotalOrder}
use photesthesis.Transcript.{Transcript, name_of, transcript_lt, transcript_eq}
use photesthesis.Transcript.Order.{transcript_lt-IsTotalOrder}
use photesthesis.Corpus.{or_empty}
use photesthesis.Corpus.Invariant.{IsFiled, equiv-symbol, equiv-transcript}
use photesthesis.Corpus.Store.{transcript_eq_other}

-- No two are equal.
abbrev pub AreDistinct : List Transcript → Type 0
AreDistinct [] = Unit
AreDistinct (t ∷ ts) = All (λ u. transcript_eq t u ≡ false) ts × AreDistinct ts

-- The sets of the map, one behind another.
abbrev pub all_transcripts : List (Symbol × List Transcript) → List Transcript
all_transcripts [] = []
all_transcripts (e ∷ m) = e.1 ++ all_transcripts m

less_differ : (a b : Transcript) → transcript_lt a b ≡ true → transcript_eq a b ≡ false
less_differ a b h = ground (arith, equiv-transcript a b)

names_differ :
    (a b : Transcript) → symbol_lt (name_of a) (name_of b) ≡ true → transcript_eq a b ≡ false
names_differ a b h =
    transcript_eq_other a b (ground (arith, h, equiv-symbol (name_of a) (name_of b)))

names_differ_back :
    (a b : Transcript) → symbol_lt (name_of a) (name_of b) ≡ true → transcript_eq b a ≡ false
names_differ_back a b h =
    transcript_eq_other b a (ground (arith, h, equiv-symbol (name_of b) (name_of a)))

All-append : {A : Type 0} (P : A → Type 0) (xs ys : List A) → All P xs → All P ys → All P (xs ++ ys)
All-append P [] ys p q = q
All-append P (x ∷ xs) ys p q = (p.0, All-append P xs ys p.1 q)

any_of-append :
    {A : Type 0} (p : A → Bool) (xs ys : List A)
    → any_of p (xs ++ ys) ≡ (any_of p xs || any_of p ys)
any_of-append p [] ys = refl
any_of-append p (x ∷ xs) ys = ground (arith, any_of-append p xs ys)

any_of-none :
    {A : Type 0} (p : A → Bool) (xs : List A) → All (λ x. p x ≡ false) xs → any_of p xs ≡ false
any_of-none p [] h = refl
any_of-none p (x ∷ xs) h = rw (h.0, any_of-none p xs h.1)

or_end : (a : Bool) → (a || false) ≡ a
or_end true = refl
or_end false = refl

-- Every transcript has a name behind the one given.
abbrev AreBehind : Symbol → List Transcript → Type 0
AreBehind name ts = All (λ t. symbol_lt name (name_of t) ≡ true) ts

all_transcripts-AreBehind :
    (j : Symbol) (m : List (Symbol × List Transcript))
    → All (λ e. symbol_lt j e.0 ≡ true) m
    → All (λ e. IsFiled e.0 e.1) m
    → AreBehind j (all_transcripts m)
all_transcripts-AreBehind j [] h s = tt
all_transcripts-AreBehind j (e ∷ m) h s =
    All-append (λ t. symbol_lt j (name_of t) ≡ true) e.1 (all_transcripts m)
      (All-imp (λ t n. subst (λ k. symbol_lt j k ≡ true) (path_sym n) h.0) e.1 s.0.1)
      (all_transcripts-AreBehind j m h.1 s.1)

sorted-AreDistinct : (ts : List Transcript) → IsSorted transcript_lt ts → AreDistinct ts
sorted-AreDistinct [] s = tt
sorted-AreDistinct (t ∷ ts) s = (All-imp (λ u. less_differ t u) ts s.0, sorted-AreDistinct ts s.1)

append-AreDistinct :
    (j : Symbol) (xs ys : List Transcript)
    → All (λ t. name_of t ≡ j) xs
    → AreBehind j ys
    → AreDistinct xs
    → AreDistinct ys
    → AreDistinct (xs ++ ys)
append-AreDistinct j [] ys n b d e = e
append-AreDistinct j (x ∷ xs) ys n b d e = (
  All-append (λ u. transcript_eq x u ≡ false) xs ys d.0
      (All-imp
        (λ u h. names_differ x u (subst (λ k. symbol_lt k (name_of u) ≡ true) (path_sym n.0) h)) ys
        b),
  append-AreDistinct j xs ys n.1 b d.1 e,
)

-- No two transcripts of the map are equal.
pub all_transcripts-AreDistinct :
    (m : List (Symbol × List Transcript))
    → HasSortedKeys symbol_lt m
    → All (λ e. IsFiled e.0 e.1) m
    → AreDistinct (all_transcripts m)
all_transcripts-AreDistinct [] k s = tt
all_transcripts-AreDistinct (e ∷ m) k s =
    append-AreDistinct e.0 e.1 (all_transcripts m) s.0.1 (all_transcripts-AreBehind e.0 m k.0 s.1)
      (sorted-AreDistinct e.1 s.0.0) (all_transcripts-AreDistinct m k.1 s.1)

-- A search in a set finds what its list has.
any_of-set_has :
    (u : Transcript) (ts : List Transcript)
    → IsSorted transcript_lt ts
    → any_of (λ t. transcript_eq t u) ts ≡ set_has transcript_lt u ts
unfolding set_has
any_of-set_has u [] s = refl
any_of-set_has u (t ∷ ts) s = ground (arith, any_of-set_has u ts s.1, equiv-transcript t u, absent)
  where
    absent : transcript_lt u t ≡ true → set_has transcript_lt u ts ≡ false
    absent h =
        has_above transcript_lt-IsTotalOrder.weak u ts
          (above transcript_lt-IsTotalOrder.weak u t ts h s.0)

behind-none :
    (u : Transcript) (ts : List Transcript)
    → AreBehind (name_of u) ts
    → any_of (λ t. transcript_eq t u) ts ≡ false
behind-none u ts b =
    any_of-none (λ t. transcript_eq t u) ts (All-imp (λ t. names_differ_back u t) ts b)

-- What the map of sets holds is what its list has.
pub any_of-all_transcripts :
    (u : Transcript) (m : List (Symbol × List Transcript))
    → HasSortedKeys symbol_lt m
    → All (λ e. IsFiled e.0 e.1) m
    → any_of (λ t. transcript_eq t u) (all_transcripts m)
      ≡ set_has transcript_lt u (or_empty (map_find symbol_lt (name_of u) m))
unfolding map_find set_has
any_of-all_transcripts u [] k s = refl
any_of-all_transcripts u ((j, ts) ∷ m) k s =
    any_of-append (λ t. transcript_eq t u) ts (all_transcripts m)
    ∙ elim (Bool-cases (symbol_lt j (name_of u))) [
      | inl less ↦ rw (less, ts_before less, any_of-all_transcripts u m k.1 s.1)
      | inr p ↦ elim (Bool-cases (symbol_lt (name_of u) j)) [
        | inl greater ↦ rw (p, greater, ts_behind greater, m_behind greater)
        | inr q ↦
            rw (p, q, any_of-set_has u ts s.0.0, m_at p q) (or_end (set_has transcript_lt u ts))
      ]
    ]
  where
    ts_before : symbol_lt j (name_of u) ≡ true → any_of (λ t. transcript_eq t u) ts ≡ false
    ts_before h =
        any_of-none (λ t. transcript_eq t u) ts
          (All-imp
            (λ t n. names_differ t u (subst (λ i. symbol_lt i (name_of u) ≡ true) (path_sym n) h))
            ts s.0.1)

    ts_behind : symbol_lt (name_of u) j ≡ true → any_of (λ t. transcript_eq t u) ts ≡ false
    ts_behind h =
        behind-none u ts
          (All-imp (λ t n. subst (λ i. symbol_lt (name_of u) i ≡ true) (path_sym n) h) ts s.0.1)

    m_behind :
        symbol_lt (name_of u) j ≡ true → any_of (λ t. transcript_eq t u) (all_transcripts m) ≡ false
    m_behind h = behind-none u (all_transcripts m) (
        All-imp (λ t q. lt_trans symbol_lt-IsTotalOrder.weak (name_of u) j (name_of t) h q)
          (all_transcripts m) (all_transcripts-AreBehind j m k.0 s.1))

    m_at :
        symbol_lt j (name_of u) ≡ false
        → symbol_lt (name_of u) j ≡ false
        → any_of (λ t. transcript_eq t u) (all_transcripts m) ≡ false
    m_at p q = behind-none u (all_transcripts m) (
        subst (λ i. AreBehind i (all_transcripts m))
          (symbol_lt-IsTotalOrder.connected j (name_of u) p q)
          (all_transcripts-AreBehind j m k.0 s.1))
