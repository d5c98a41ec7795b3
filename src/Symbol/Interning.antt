-- ===== src/Symbol/Interning.antt =====
-- The intern table of src/symbol.cpp: equal texts share a pointer, so comparing pointers compares
-- texts.
use photesthesis.Shared.{
  ◌+◌, ◌<◌, ◌≡◌, refl, subst, ◌∙◌, ◌≢◌, ◌↔◌, true, false, List, [], ◌∷◌, none, some, arith, All,
  All-imp, All-In, In, here, there, all_of, ==_iff, ap,
}
use mathlib.Core.Path.{sym as path_sym}
use photesthesis.Shared.Order.{
  IsTotalOrder, IsWeakOrder, lex-IsTotalOrder, ltb-IsTotalOrder, lt_irrefl,
}
use photesthesis.Shared.SetOf.{
  IsSorted, set_emplace, set_insert, set_emplace-insert, set_insert-IsSorted, All-set_insert,
  set_emplace-In, In-set_insert, set_emplace-equiv,
}
use photesthesis.Symbol.{
  Bytes, StringPtr, InternTable, string_lt, deref_less, place, intern, ptr_eq, is_symbol_char,
}

string_order : IsTotalOrder string_lt
unfolding string_lt
string_order = lex-IsTotalOrder ltb-IsTotalOrder

deref_order : IsWeakOrder deref_less
deref_order = record {
  asym = λ a b. string_order.asym a.text b.text;
  cotrans = λ a b c. string_order.cotrans a.text b.text c.text;
}

-- No two entries share an address.
abbrev pub HasDistinctAddresses : List StringPtr → Type 0
HasDistinctAddresses [] = Unit
HasDistinctAddresses (p ∷ ps) = All (λ q. p.address ≢ q.address) ps × HasDistinctAddresses ps

-- The table increases in the texts, and its addresses are distinct and taken.
pub record IsValid (table : InternTable) : Type 0 where
  pub sorted : IsSorted deref_less table.entries
  pub distinct : HasDistinctAddresses table.entries
  pub taken : All (λ p. p.address < table.next_address) table.entries

-- A pointer with an address of its own keeps the addresses distinct.
set_insert-HasDistinctAddresses :
    (p : StringPtr) (xs : List StringPtr)
    → All (λ q. q.address < p.address) xs
    → HasDistinctAddresses xs
    → HasDistinctAddresses (set_insert deref_less p xs)
unfolding set_insert
set_insert-HasDistinctAddresses p [] h d = (tt, tt)
set_insert-HasDistinctAddresses p (x ∷ xs) h d = ground (
  arith,
  set_insert-HasDistinctAddresses p xs h.1 d.1,
  All-set_insert deref_less (λ q. x.address ≢ q.address) p xs,
  All-imp {P = λ q. q.address < p.address} {Q = λ q. p.address ≢ q.address} (λ q k. omega arith) xs
      h.1,
)

place-IsValid :
    (p : StringPtr) (t : InternTable)
    → p.address ≡ t.next_address
    → IsValid t
    → IsValid (place p t).1
unfolding place
place-IsValid p t e v =
    let below : All (λ q. q.address < p.address) t.entries =
      All-imp (λ q h. omega arith) t.entries v.taken in
    rw (set_emplace-insert deref_less) (record {
      sorted = set_insert-IsSorted deref_order p t.entries v.sorted;
      distinct = set_insert-HasDistinctAddresses p t.entries below v.distinct;
      taken =
          All-set_insert deref_less (λ q. q.address < t.next_address + 1) p t.entries (omega arith)
            (All-imp (λ q h. omega arith) t.entries v.taken);
    })

place-In : (p : StringPtr) (t : InternTable) → In (place p t).0 (place p t).1.entries
unfolding place
place-In p t = set_emplace-In deref_less p t.entries

place_keeps :
    (p : StringPtr) (t : InternTable) (q : StringPtr) → In q t.entries → In q (place p t).1.entries
unfolding place
place_keeps p t q m = rw (set_emplace-insert deref_less) (In-set_insert deref_less p q t.entries m)

place-text : (p : StringPtr) (t : InternTable) → (place p t).0.text ≡ p.text
unfolding place
place-text p t =
    let r = (set_emplace deref_less p t.entries).0 in
    string_order.connected r.text p.text (ground (arith, set_emplace-equiv deref_order p t.entries))
      (ground (arith, set_emplace-equiv deref_order p t.entries))

-- Two entries with one address, or with one text, are one entry.
eq_of_address :
    {p q : StringPtr} (xs : List StringPtr)
    → HasDistinctAddresses xs
    → In p xs
    → In q xs
    → p.address ≡ q.address
    → p ≡ q
eq_of_address [] d m n e = elim m [ ]
eq_of_address (x ∷ xs) d (here a) (here b) e = a ∙ path_sym b
eq_of_address (x ∷ xs) d (here a) (there n) e =
    absurd (All-In (λ q. x.address ≢ q.address) d.0 n (rw (← a) e))
eq_of_address (x ∷ xs) d (there m) (here b) e =
    absurd (All-In (λ q. x.address ≢ q.address) d.0 m (rw (← b) (path_sym e)))
eq_of_address (x ∷ xs) d (there m) (there n) e = eq_of_address xs d.1 m n e

ne_of_less : (x q : StringPtr) → deref_less x q ≡ true → x.text ≢ q.text
ne_of_less x q h e = cc (lt_irrefl string_order.weak q.text, rw e at h)

eq_of_text :
    {p q : StringPtr} (xs : List StringPtr)
    → IsSorted deref_less xs
    → In p xs
    → In q xs
    → p.text ≡ q.text
    → p ≡ q
eq_of_text [] s m n e = elim m [ ]
eq_of_text (x ∷ xs) s (here a) (here b) e = a ∙ path_sym b
eq_of_text {p} {q} (x ∷ xs) s (here a) (there n) e =
    absurd (ne_of_less x q (All-In (λ q. deref_less x q ≡ true) s.0 n) (rw (← a) e))
eq_of_text {p} {q} (x ∷ xs) s (there m) (here b) e =
    absurd (ne_of_less x p (All-In (λ q. deref_less x q ≡ true) s.0 m) (rw (← b) (path_sym e)))
eq_of_text (x ∷ xs) s (there m) (there n) e = eq_of_text xs s.1 m n e

-- In a valid table two entries have one address exactly when they have one text.
ptr_eq_iff :
    (t : InternTable) (p q : StringPtr)
    → IsValid t
    → In p t.entries
    → In q t.entries
    → (ptr_eq p q ≡ true) ↔ (p.text ≡ q.text)
unfolding ptr_eq
ptr_eq_iff t p q v m n = (
  λ h. ap (λ (r : StringPtr). r.text) (eq_of_address t.entries v.distinct m n ((==_iff _ _).0 h)),
  λ e. (==_iff _ _).1 (ap (λ (r : StringPtr). r.address) (eq_of_text t.entries v.sorted m n e)),
)

intern_inv :
    (s : Bytes) (t : InternTable) {r : StringPtr × InternTable}
    → intern s t ≡ some r
    → place (record { address = t.next_address; text = s }) t ≡ r
unfolding intern
intern_inv s t h = ground arith

-- What a successful `intern` gives: the pointer stands in the table with the text that was asked
-- for, the table stays valid, and every pointer handed out before stays in it.
pub intern_lem :
    (s : Bytes) (t t' : InternTable) (p : StringPtr)
    → IsValid t
    → intern s t ≡ some (p, t')
    → IsValid t'
      × In p t'.entries
      × (p.text ≡ s)
      × ((q : StringPtr) → In q t.entries → In q t'.entries)
intern_lem s t t' p v h =
    let made : StringPtr = record { address = t.next_address; text = s } in
    let e = intern_inv s t h in
    subst
      (λ (r : StringPtr × InternTable).
        IsValid r.1
        × In r.0 r.1.entries
        × (r.0.text ≡ s)
        × ((q : StringPtr) → In q t.entries → In q r.1.entries))
      e (place-IsValid made t refl v, place-In made t, place-text made t, place_keeps made t)

-- Calls of `intern` one after another.
pub data Interns : InternTable → InternTable → Type 0 where
  done : {t u : InternTable} → t ≡ u → Interns t u
  step :
      {t u w : InternTable} (s : Bytes) (p : StringPtr)
      → intern s t ≡ some (p, u)
      → Interns u w
      → Interns t w

Interns-keeps :
    {t u : InternTable}
    → Interns t u
    → IsValid t
    → IsValid u × ((q : StringPtr) → In q t.entries → In q u.entries)
Interns-keeps (done e) v = (subst IsValid e v, λ q m. rw e at m)
Interns-keeps (step {t} {u} s p h rest) v =
    let (valid, _, _, keeps) = intern_lem s t u p v h in
    let (valid', keeps') = Interns-keeps rest valid in (valid', λ q m. keeps' q (keeps q m))

-- Two symbols interned at any times compare equal, by their pointers, exactly when their texts are
-- equal: from a valid table, with any calls of `intern` between the two.
pub ptr_eq-intern :
    (s s' : Bytes) (t u w x : InternTable) (p q : StringPtr)
    → IsValid t
    → intern s t ≡ some (p, u)
    → Interns u w
    → intern s' w ≡ some (q, x)
    → (ptr_eq p q ≡ true) ↔ (s ≡ s')
ptr_eq-intern s s' t u w x p q v h calls h' =
    let (valid, held, text, _) = intern_lem s t u p v h in
    let (valid', keeps) = Interns-keeps calls valid in
    let (valid'', held', text', keeps') = intern_lem s' w x q valid' h' in
    let same = ptr_eq_iff x p q valid'' (keeps' p (keeps p held)) held' in
    (λ e. path_sym text ∙ same.0 e ∙ text', λ e. same.1 (text ∙ e ∙ path_sym text'))

-- `intern` refuses exactly the texts with a character that is neither alphanumeric nor `_`.
pub intern_refuses :
    (s : Bytes) (t : InternTable) → (intern s t ≡ none) ↔ (all_of is_symbol_char s ≡ false)
unfolding intern
intern_refuses s t = ground arith

-- The table that the program starts with.
abbrev pub empty_table : InternTable
empty_table = record { entries = []; next_address = 0 }

pub empty_table-IsValid : IsValid empty_table
empty_table-IsValid = record { sorted = tt; distinct = tt; taken = tt }
