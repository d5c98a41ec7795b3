-- ===== src/Test/Tracking.antt =====
-- The transcripts kept for each trajectory, and the corpus that holds them.
use photesthesis.Shared.{
  ℕ, ◌≡◌, refl, ◌⊎◌, ◌∙◌, sym as path_sym, subst, Bool, true, false, [], Option, some,
  some-injective, arith, Bool-cases, inl, inr, if◌then◌else◌, ltb, ◌==◌, ==_iff,
}
use photesthesis.Shared.Order.{ltb-IsTotalOrder, lt_trans}
use photesthesis.Shared.SetOf.{equiv}
use photesthesis.Shared.MapOf.{map_find, map_set, map_find-map_set}
use photesthesis.Symbol.{Symbol}
use photesthesis.Transcript.{Transcript, name_of, transcript_lt, transcript_eq}
use photesthesis.Transcript.Order.{transcript_eq_iff, transcript_lt-IsTotalOrder}
use photesthesis.Corpus.{Corpus, get_transcripts}
use photesthesis.Corpus.Invariant.{IsValid}
use photesthesis.Corpus.Store.{holds, holds-got, got-IsValid}
use photesthesis.Test.Expand.{Trajectories}

equiv-ltb : (a b : ℕ) → equiv ltb a b ≡ (a == b)
equiv-ltb a b = ground arith

-- The transcript kept for a trajectory.
abbrev pub kept : ℕ → Trajectories → Option Transcript
kept k trajs = map_find ltb k trajs

pub kept-set :
    (k j : ℕ) (t : Transcript) (trajs : Trajectories)
    → kept j (map_set ltb k t trajs) ≡ (if k == j then some t else kept j trajs)
kept-set k j t trajs = map_find-map_set ltb-IsTotalOrder.weak k j t trajs ∙ rw (equiv-ltb k j)

pub kept-set_same :
    (k : ℕ) (t : Transcript) (trajs : Trajectories) → kept k (map_set ltb k t trajs) ≡ some t
kept-set_same k t trajs = kept-set k k t trajs ∙ rw ((==_iff k k).1 refl) refl

pub kept-set_inv :
    (k j : ℕ) (t v : Transcript) (trajs : Trajectories)
    → kept j (map_set ltb k t trajs) ≡ some v
    → ((k ≡ j) × (t ≡ v)) ⊎ (((k == j) ≡ false) × (kept j trajs ≡ some v))
kept-set_inv k j t v trajs h = elim (Bool-cases (k == j)) [
  | inl e ↦ inl ((==_iff k j).0 e, some-injective t v (read true e))
  | inr e ↦ inr (e, read false e)
]
  where
    read : (b : Bool) → (k == j) ≡ b → (if b then some t else kept j trajs) ≡ some v
    read b e =
        subst (λ b. (if b then some t else kept j trajs) ≡ some v) e
          (path_sym (kept-set k j t trajs) ∙ h)

-- The corpus is valid and holds what is kept, which is of the test `name` and another transcript for
-- each trajectory.
pub record Tracks (name : Symbol) (c : Corpus) (trajs : Trajectories) : Type 0 where
  pub valid : IsValid c
  pub held : (k : ℕ) (v : Transcript) → kept k trajs ≡ some v → holds c v ≡ true
  pub named : (k : ℕ) (v : Transcript) → kept k trajs ≡ some v → name_of v ≡ name
  pub apart : (k j : ℕ) (v : Transcript) → kept k trajs ≡ some v → kept j trajs ≡ some v → k ≡ j

-- What is kept is kept, or it was not manual and a smaller one took its place.
abbrev pub Improves : Trajectories → Trajectories → Type 0
Improves trajs trajs' =
    (k : ℕ) (v : Transcript)
    → kept k trajs ≡ some v
    → (w : Transcript) × (kept k trajs' ≡ some w)
      × ((w ≡ v) ⊎ ((v.plan.is_manual ≡ false) × (transcript_lt w v ≡ true)))

pub Improves-refl : (trajs : Trajectories) → Improves trajs trajs
Improves-refl trajs k v h = (v, h, inl refl)

-- A transcript new to the corpus takes the place of what is kept for a trajectory.
pub Tracks-set :
    (name : Symbol) (c c' : Corpus) (trajs : Trajectories) (k : ℕ) (t : Transcript)
    → Tracks name c trajs
    → IsValid c'
    → name_of t ≡ name
    → holds c' t ≡ true
    → ((j : ℕ) (v : Transcript)
        → kept j trajs ≡ some v
        → (k == j) ≡ false
        → (holds c' v ≡ true) × (transcript_eq t v ≡ false))
    → Tracks name c' (map_set ltb k t trajs)
Tracks-set name c c' trajs k t tracks valid is_named is_held others = record {
  valid = valid;
  held = λ j v h. elim (kept-set_inv k j t v trajs h) [
    | inl (e, q) ↦ subst (λ u. holds c' u ≡ true) q is_held
    | inr (e, q) ↦ (others j v q e).0
  ];
  named = λ j v h. elim (kept-set_inv k j t v trajs h) [
    | inl (e, q) ↦ subst (λ u. name_of u ≡ name) q is_named
    | inr (e, q) ↦ tracks.named j v q
  ];
  apart = λ i j v h h'. elim (kept-set_inv k i t v trajs h) [
    | inl (e, q) ↦ elim (kept-set_inv k j t v trajs h') [
      | inl (e', q') ↦ path_sym e ∙ e'
      | inr (e', q') ↦ absurd (differ j v q' e' q)
    ]
    | inr (e, q) ↦ elim (kept-set_inv k j t v trajs h') [
      | inl (e', q') ↦ absurd (differ i v q e q')
      | inr (e', q') ↦ tracks.apart i j v q q'
    ]
  ];
}
  where
    differ : (j : ℕ) (v : Transcript) → kept j trajs ≡ some v → (k == j) ≡ false → ¬ (t ≡ v)
    differ j v q e same =
        let equal = (transcript_eq_iff t v).1 same in let other = (others j v q e).1 in ground arith

-- Improving what a trajectory keeps.
pub Improves-set :
    (trajs : Trajectories) (k : ℕ) (t : Transcript)
    → ((v : Transcript)
        → kept k trajs ≡ some v
        → (v.plan.is_manual ≡ false) × (transcript_lt t v ≡ true))
    → Improves trajs (map_set ltb k t trajs)
Improves-set trajs k t h j v q = elim (Bool-cases (k == j)) [
  | inl e ↦
      let old = subst (λ i. kept i trajs ≡ some v) (path_sym ((==_iff k j).0 e)) q in
      (t, kept-set k j t trajs ∙ rw e refl, inr (h v old))
  | inr e ↦ (v, kept-set k j t trajs ∙ rw e q, inl refl)
]

-- `getTranscripts` changes nothing of it.
pub Tracks-got :
    (name : Symbol) (c : Corpus) (trajs : Trajectories)
    → Tracks name c trajs
    → Tracks name (get_transcripts c name).1 trajs
Tracks-got name c trajs tracks = record {
  valid = got-IsValid c name tracks.valid;
  held = λ k v h. holds-got c name v ∙ tracks.held k v h;
  named = tracks.named;
  apart = tracks.apart;
}

-- Nothing is kept at first.
pub Tracks-nil : (name : Symbol) (c : Corpus) → IsValid c → Tracks name c []
unfolding map_find
Tracks-nil name c valid = record {
  valid = valid;
  held = λ k v h. absurd (cc h);
  named = λ k v h. absurd (cc h);
  apart = λ k j v h q. absurd (cc h);
}

pub Improves-trans : (a b c : Trajectories) → Improves a b → Improves b c → Improves a c
Improves-trans a b c ab bc k v h =
    let (w, in_b, step) = ab k v h in
    let (x, in_c, step') = bc k w in_b in
    (
      x,
      in_c,
      elim step' [
        | inl same' ↦ elim step [
          | inl same ↦ inl (same' ∙ same)
          | inr (auto, less) ↦
              inr (auto, subst (λ u. transcript_lt u v ≡ true) (path_sym same') less)
        ]
        | inr (auto', less') ↦ elim step [
          | inl same ↦ inr (
              subst (λ u. (u.plan.is_manual ≡ false) × (transcript_lt x u ≡ true)) same
                (auto', less'))
          | inr (auto, less) ↦ inr (auto, lt_trans transcript_lt-IsTotalOrder.weak x w v less' less)
        ]
      ],
    )
