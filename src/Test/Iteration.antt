-- ===== src/Test/Iteration.antt =====
-- Steps of the loop of `checkCorpus`: the update of a transcript, the note of a trajectory, and the move
-- of the iterator.
use photesthesis.Shared.{
  ℕ, ◌≡◌, refl, ◌⊎◌, ◌∙◌, sym as path_sym, subst, true, false, not, ◌&&◌, List, [], ◌∷◌, ◌++◌,
  Option, none, some, arith, Bool-cases, inl, inr, ltb, All, In, here, there, All-In,
}
use photesthesis.Shared.SetOf.{IsSorted}
use photesthesis.Shared.MapOf.{map_find, map_emplace, map_emplace-map_set, map_emplace-same}
use photesthesis.Shared.Order.{lt_irrefl}
use photesthesis.Symbol.{Symbol}
use photesthesis.Plan.Order.{plan_eq_iff}
use photesthesis.Transcript.{Transcript, name_of, transcript_lt, transcript_eq}
use photesthesis.Transcript.Order.{transcript_lt-IsTotalOrder, transcript_eq_iff}
use photesthesis.Corpus.{Corpus, update_transcript}
use photesthesis.Corpus.Invariant.{IsValid}
use photesthesis.Corpus.Store.{holds, Ends}
use photesthesis.Corpus.Operations.{update_transcript_lem}
use photesthesis.Test.Expand.{Trajectories}
use photesthesis.Test.Administer.{next_of, first_of}
use photesthesis.Test.Tracking.{kept, kept-set_inv, Tracks, Tracks-set}
use photesthesis.Test.Placing.{smaller-neq}

-- Transcripts held with the same plan are the same.
abbrev pub HasOnePerPlan : Corpus → Type 0
HasOnePerPlan c = (a b : Transcript) → holds c a ≡ true → holds c b ≡ true → a.plan ≡ b.plan → a ≡ b

-- `updateTranscript` where the plan's only transcript differs: it loses its place.
pub update_lem :
    (c : Corpus) (ts new : Transcript)
    → IsValid c
    → HasOnePerPlan c
    → holds c ts ≡ true
    → new.plan ≡ ts.plan
    → transcript_eq ts new ≡ false
    → (c' : Corpus) × (update_transcript c new ≡ some c') × IsValid c' × (holds c' ts ≡ false)
update_lem c ts new valid one held plan differs = elim (update_transcript_lem c new valid) [
  | inl (e, no_plan) ↦
      let none_there = no_plan ts held in
      let same = (plan_eq_iff ts.plan new.plan).1 (path_sym plan) in absurd (ground arith)
  | inr (old, same_plan, old_held, ends) ↦
      let same = one old ts old_held held ((plan_eq_iff old.plan new.plan).0 same_plan ∙ plan) in
      stored (
        subst
          (λ o.
            Ends (update_transcript c new) new (not (transcript_eq o new) && holds c new)
              (λ u. not (transcript_eq o u) && holds c u))
          same ends)
]
  where
    other : ¬ (new ≡ ts)
    other e = let same = (transcript_eq_iff ts new).1 (path_sym e) in absurd (ground arith)

    stored :
        Ends
          (update_transcript c new)
          new
          (not (transcript_eq ts new) && holds c new)
          (λ u. not (transcript_eq ts u) && holds c u)
        → (c' : Corpus) × (update_transcript c new ≡ some c') × IsValid c' × (holds c' ts ≡ false)
    stored (inl (e, b)) = absurd (other (one new ts (ground (arith, b)) held plan))
    stored (inr (c', e, b, valid', dirty, hold)) =
        let itself = (transcript_eq_iff ts ts).1 refl in
        let differs' = (transcript_eq_iff new ts).0 in
        (
          c',
          e,
          valid',
          hold ts ∙ elim (Bool-cases (transcript_eq new ts)) [
            | inl q ↦ absurd (other (differs' q))
            | inr q ↦ rw (q, itself) refl
          ],
        )

-- Emplacing a transcript above all that is kept.
abbrev pub AreBelow : Trajectories → List Transcript → Type 0
AreBelow trajs rest =
    (k : ℕ) (v : Transcript) → kept k trajs ≡ some v → All (λ u. transcript_lt v u ≡ true) rest

pub nil-AreBelow : (rest : List Transcript) → AreBelow [] rest
unfolding map_find
nil-AreBelow rest k v h = absurd (cc h)

Option-cases : {A : Type 0} (x : Option A) → (x ≡ none) ⊎ ((a : A) × (x ≡ some a))
Option-cases none = inl refl
Option-cases (some a) = inr (a, refl)

-- Emplacing a transcript of the corpus that is above all that is kept.
pub emplaced :
    (name : Symbol) (c : Corpus) (trajs : Trajectories) (k : ℕ) (ts : Transcript)
    (rest : List Transcript)
    → Tracks name c trajs
    → AreBelow trajs (ts ∷ rest)
    → holds c ts ≡ true
    → name_of ts ≡ name
    → All (λ x. transcript_lt ts x ≡ true) rest
    → let after = map_emplace ltb k ts trajs in Tracks name c after × AreBelow after rest
emplaced name c trajs k ts rest tracks below held named above = elim (Option-cases (kept k trajs)) [
  | inr (w, e) ↦ rw (map_emplace-same ltb k ts w trajs e) (tracks, λ j v h. (below j v h).1)
  | inl e ↦ rw (map_emplace-map_set ltb k ts trajs e) (
    Tracks-set name c c trajs k ts tracks tracks.valid named held
        λ j v q d. (tracks.held j v q, smaller-neq v ts (below j v q).0),
    λ j v h. elim (kept-set_inv k j ts v trajs h) [
      | inl (d, q) ↦ subst (λ u. All (λ x. transcript_lt u x ≡ true) rest) q above
      | inr (d, q) ↦ (below j v q).1
    ],
  )
]

-- The element of a list behind those of another.
pub In-append : {A : Type 0} (pre : List A) (x : A) (rest : List A) → In x (pre ++ x ∷ rest)
In-append [] x rest = here refl
In-append (p ∷ pre) x rest = there (In-append pre x rest)

pub sorted_rest :
    (pre : List Transcript) (ts : Transcript) (rest : List Transcript)
    → IsSorted transcript_lt (pre ++ ts ∷ rest)
    → All (λ x. transcript_lt ts x ≡ true) rest
sorted_rest [] ts rest s = s.0
sorted_rest (p ∷ pre) ts rest s = sorted_rest pre ts rest s.1

-- The iterator moves to the next transcript of a set that has not changed.
pub next_of-append :
    (pre : List Transcript) (ts : Transcript) (rest : List Transcript)
    → IsSorted transcript_lt (pre ++ ts ∷ rest)
    → next_of ts (pre ++ ts ∷ rest) ≡ first_of rest
unfolding next_of first_of
next_of-append [] ts [] s = rw (lt_irrefl transcript_lt-IsTotalOrder.weak ts)
next_of-append [] ts (u ∷ us) s = rw (lt_irrefl transcript_lt-IsTotalOrder.weak ts, s.0.0)
next_of-append (p ∷ pre) ts rest s =
    let less = All-In (λ x. transcript_lt p x ≡ true) s.0 (In-append pre ts rest) in
    rw (transcript_lt-IsTotalOrder.weak.asym p ts less) (next_of-append pre ts rest s.1)
