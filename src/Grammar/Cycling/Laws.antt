-- ===== src/Grammar/Cycling/Laws.antt =====
-- The loop of `extendByCycling` ends, and each element of either set takes part.
use photesthesis.Shared.{
  ℕ, zero, suc, ◌+◌, ◌<◌, ◌≡◌, refl, inl, inr, subst, Bool, true, false, ◌&&◌, ◌||◌, List, [], ◌∷◌,
  ◌++◌, some, length, In, here, arith, Bool-cases,
}
use photesthesis.Shared.Order.{IsTotalOrder, lex-IsTotalOrder}
use photesthesis.Shared.SetOf.{set_insert, In-set_insert}
use photesthesis.Shared.SetOf.Members.{new-In, In-insert_inv}
use photesthesis.Symbol.{Symbol}
use photesthesis.Value.{Value}
use photesthesis.Value.Order.{value_lt-IsTotalOrder}
use photesthesis.Plan.{Params}
use photesthesis.Plan.Order.{param_lt-IsTotalOrder}
use photesthesis.Grammar.Complete.{true-is_not-false}
use photesthesis.Grammar.Cycling.{
  is_empty, restart, cycle, extend, extend_by_cycling, extend_params_by_cycling,
}
use photesthesis.Grammar.Cycling.Rounds.{
  Seen, advance, remaining, remaining-restart, restart-In, restart-nonempty, fewer,
}

-- Each vector is extended by some element, each element extends some vector, and nothing else is
-- there.
abbrev pub AreExtensions : {A B : Type 0} → (A → B → A) → List A → List B → List A → Type 0
AreExtensions {A} {B} combine vecs ext res =
    ((a : A) → In a vecs → (b : B) × In b ext × In (combine a b) res)
    × ((b : B) → In b ext → (a : A) × In a vecs × In (combine a b) res)
    × ((x : A) → In x res → (a : A) × (b : B) × In a vecs × In b ext × (x ≡ combine a b))

module _ {A B : Type 0} {lt : A → A → Bool} (o : IsTotalOrder lt) (combine : A → B → A) (v : A)
    (vs : List A) (e : B) (es : List B) where
  abbrev vecs : List A
  vecs = v ∷ vs

  abbrev ext : List B
  ext = e ∷ es

  abbrev UsesVec : List A → A → Type 0
  UsesVec res a = (b : B) × In b ext × In (combine a b) res

  abbrev UsesExt : List A → B → Type 0
  UsesExt res b = (a : A) × In a vecs × In (combine a b) res

  abbrev AreCombined : List A → Type 0
  AreCombined res =
      (x : A) → In x res → (a : A) × (b : B) × In a vecs × In b ext × (x ≡ combine a b)

  record Inv (i : List A) (j : List B) (ci cj : Bool) (res : List A) : Type 0 where
    from_vecs : (a : A) → In a i → In a vecs
    from_ext : (b : B) → In b j → In b ext
    seen_vecs : Seen (UsesVec res) vecs i ci
    seen_ext : Seen (UsesExt res) ext j cj
    combined : AreCombined res

  Inv-step :
      (a : A) (i : List A) (b : B) (j : List B) (ci cj : Bool) (res : List A)
      → Inv (a ∷ i) (b ∷ j) ci cj res
      → Inv
          (restart vecs i)
          (restart ext j)
          (ci || is_empty i)
          (cj || is_empty j)
          (set_insert lt (combine a b) res)
  Inv-step a i b j ci cj res h =
      let new = new-In o (combine a b) res in
      let keep : (x : A) → In x res → In x (set_insert lt (combine a b) res) =
        λ x m. In-set_insert lt (combine a b) x res m in
      let in_vecs = h.from_vecs a (here refl) in
      let in_ext = h.from_ext b (here refl) in
      record {
        from_vecs = λ x m. restart-In vecs i a x h.from_vecs m;
        from_ext = λ x m. restart-In ext j b x h.from_ext m;
        seen_vecs =
            advance _ _ vecs a i ci h.seen_vecs (b, in_ext, new) (λ x (y, m, n). (y, m, keep _ n));
        seen_ext =
            advance _ _ ext b j cj h.seen_ext (a, in_vecs, new) (λ x (y, m, n). (y, m, keep _ n));
        combined = λ x m. elim (In-insert_inv lt (combine a b) x res m) [
          | inl q ↦ (a, b, in_vecs, in_ext, q)
          | inr n ↦ h.combined x n
        ];
      }

  done :
      {C : Type 0} (P : C → Type 0) (all left : List C)
      → Seen P all left true
      → (x : C) → In x all
      → P x
  done P all left s x m = elim (s x m) [ inl p ↦ p | inr (q, _) ↦ elim (true-is_not-false q) [ ] ]

  cycle_lem :
      (n : ℕ) (a : A) (i : List A) (b : B) (j : List B) (ci cj : Bool) (res : List A)
      → remaining ci (a ∷ i) + remaining cj (b ∷ j) < n
      → Inv (a ∷ i) (b ∷ j) ci cj res
      → (out : List A) × (cycle lt combine vecs ext n (a ∷ i) (b ∷ j) ci cj res ≡ some out)
        × AreExtensions combine vecs ext out
  unfolding cycle
  cycle_lem zero a i b j ci cj res l h = elim (absurd l) [ ]
    where
      absurd : remaining ci (a ∷ i) + remaining cj (b ∷ j) < 0 → ⊥
      absurd k = omega (arith, k)
  cycle_lem (suc n) a i b j ci cj res l h = elim (Bool-cases (ci && cj)) [
    | inl both ↦ (
      res,
      rw both,
      (
        done (UsesVec res) vecs (a ∷ i)
            (subst (Seen (UsesVec res) vecs (a ∷ i)) (ground (arith, both)) h.seen_vecs),
        done (UsesExt res) ext (b ∷ j)
            (subst (Seen (UsesExt res) ext (b ∷ j)) (ground (arith, both)) h.seen_ext),
        h.combined,
      ),
    )
    | inr more ↦
        let (x, xs, p) = restart-nonempty v vs i in
        let (y, ys, q) = restart-nonempty e es j in
        let less =
          fewer ci cj n _ _ _ _ more (remaining-restart vecs a i ci) (remaining-restart ext b j cj)
            l in
        let next =
          subst
            (λ k.
              Inv (x ∷ xs) k (ci || is_empty i) (cj || is_empty j)
                (set_insert lt (combine a b) res))
            q
            (subst
              (λ k.
                Inv k (restart ext j) (ci || is_empty i) (cj || is_empty j)
                  (set_insert lt (combine a b) res))
              p (Inv-step a i b j ci cj res h)) in
        rw (more, p, q)
          (cycle_lem n x xs y ys (ci || is_empty i) (cj || is_empty j)
            (set_insert lt (combine a b) res)
            (subst (λ k. remaining (ci || is_empty i) k + remaining (cj || is_empty j) (y ∷ ys) < n)
              p
              (subst
                (λ k.
                  remaining (ci || is_empty i) (restart vecs i) + remaining (cj || is_empty j) k
                  < n)
                q less))
            next)
  ]

  -- The walk over two sets that are not empty ends, and the fuel is enough.
  pub extend_lem :
      (out : List A) × (extend lt combine vecs ext ≡ some out) × AreExtensions combine vecs ext out
  unfolding extend
  extend_lem =
      cycle_lem (suc (length vecs + length ext)) v vs e es false false [] (omega arith) record {
        from_vecs = λ a m. m;
        from_ext = λ b m. m;
        seen_vecs = λ a m. inr (refl, m);
        seen_ext = λ b m. inr (refl, m);
        combined = λ x m. elim m [ ];
      }

-- `extendByCycling` of a set of vectors and a set of values, neither empty, ends: each vector is
-- extended by some value, each value extends some vector, and the result holds nothing else.
pub extend_by_cycling_lem :
    (v : List Value) (vs : List (List Value)) (e : Value) (es : List Value)
    → (out : List (List Value)) × (extend_by_cycling (v ∷ vs) (e ∷ es) ≡ some out)
      × AreExtensions (λ (vec : List Value) w. vec ++ (w ∷ [])) (v ∷ vs) (e ∷ es) out
unfolding extend_by_cycling
extend_by_cycling_lem =
    extend_lem (lex-IsTotalOrder value_lt-IsTotalOrder) (λ vec w. vec ++ (w ∷ []))

-- `extendByCycling` of a set of parameters, likewise: each value is added under the name given.
pub extend_params_by_cycling_lem :
    (param : Symbol) (v : Params) (vs : List Params) (e : Value) (es : List Value)
    → (out : List Params) × (extend_params_by_cycling (v ∷ vs) param (e ∷ es) ≡ some out)
      × AreExtensions (λ (ps : Params) w. ps ++ ((param, w) ∷ [])) (v ∷ vs) (e ∷ es) out
unfolding extend_params_by_cycling
extend_params_by_cycling_lem param =
    extend_lem (lex-IsTotalOrder param_lt-IsTotalOrder) (λ (ps : Params) w. ps ++ ((param, w) ∷ []))
