-- ===== src/Test/Placing.antt =====
-- What `runPlanAndMaybeExpandCorpus` does to the corpus and to the transcripts of the trajectories.
use photesthesis.Shared.{
  ℕ, ◌≡◌, refl, ◌⊎◌, ◌↔◌, ◌∙◌, ap, sym as path_sym, subst, Bool, true, false, not, ◌&&◌, Option,
  none, some, some-injective, arith, Bool-cases, inl, inr, ltb, ◌==◌,
}
use photesthesis.Shared.Order.{lt_irrefl}
use photesthesis.Shared.MapOf.{map_set, map_emplace-map_set}
use photesthesis.Shared.SetOf.{set_has}
use photesthesis.Symbol.{Symbol}
use photesthesis.Value.Equality.{symbol_eq_iff}
use photesthesis.Transcript.{Transcript, name_of, transcript_lt, transcript_eq}
use photesthesis.Transcript.Order.{transcript_lt-IsTotalOrder, transcript_eq_iff}
use photesthesis.Corpus.{transcripts_of, get_transcripts, replace_transcript}
use photesthesis.Corpus.Store.{holds, holds-got}
use photesthesis.Corpus.Operations.{add_transcript_lem, replace_transcript_lem}
use photesthesis.Test.{Test, done, pure, TestError, assertion, ◌>>◌}
use photesthesis.Test.Expand.{Trajectories, set_corpus, place_transcript, maybe_expand}
use photesthesis.Test.Outcomes.{Post, Never, is_done, is_raised}
use photesthesis.Test.Tracking.{
  kept, kept-set_same, Tracks, Tracks-got, Tracks-set, Improves, Improves-refl, Improves-set,
}

self_eq : (t : Transcript) → transcript_eq t t ≡ true
self_eq t = (transcript_eq_iff t t).1 refl

-- A transcript is not one that a test tells from it.
told_apart :
    (p : Transcript → Bool) (t v : Transcript)
    → p t ≡ false
    → p v ≡ true
    → transcript_eq t v ≡ false
told_apart p t v h q = elim (Bool-cases (transcript_eq t v)) [
  | inr e ↦ e
  | inl e ↦ let same = ap p ((transcript_eq_iff t v).0 e) in ground arith
]

pub smaller-neq : (t old : Transcript) → transcript_lt t old ≡ true → transcript_eq old t ≡ false
smaller-neq t old less =
    told_apart (λ u. transcript_lt u old) old t (lt_irrefl transcript_lt-IsTotalOrder.weak old) less

is_not_smaller :
    (old t : Transcript)
    → (not old.plan.is_manual && transcript_lt t old) ≡ false
    → (old.plan.is_manual ≡ true) ⊎ (transcript_lt t old ≡ false)
is_not_smaller old t h = ground (arith, h)

module _ {W Gen : Type 0} (name : Symbol) (trajs : Trajectories) where
  -- The outcome: whether the trajectory and the transcript are new, and what is kept then.
  abbrev pub Placed : Test W Gen → Bool → Bool × Trajectories → Test W Gen → Type 0
  Placed t is_held out u =
      (u.stability_mask ≡ t.stability_mask)
      × Tracks name u.corp out.1
      × Improves trajs out.1
      × ((out.0 ≡ true) ↔ ((kept t.trajectory trajs ≡ none) × (is_held ≡ false)))
      × (out.0 ≡ true → kept t.trajectory out.1 ≡ some t.transcript)
      × ((w : Transcript)
          → kept t.trajectory out.1 ≡ some w
          → (w.plan.is_manual ≡ true) ⊎ (transcript_lt t.transcript w ≡ false))

  -- Why the assertion of `replaceTranscript` fails: the corpus holds the smaller transcript already.
  abbrev pub Blocks : Test W Gen → Bool → TestError → Test W Gen → Type 0
  Blocks t is_held e u =
      (u.stability_mask ≡ t.stability_mask)
      × (e ≡ assertion)
      × Tracks name u.corp trajs
      × (is_held ≡ true)
      × ((old : Transcript) × (kept t.trajectory trajs ≡ some old)
          × (old.plan.is_manual ≡ false)
          × (transcript_lt t.transcript old ≡ true))

  -- The transcript that was stored is the one of its trajectory.
  stored_least :
      (t : Test W Gen) (w : Transcript)
      → kept t.trajectory (map_set ltb t.trajectory t.transcript trajs) ≡ some w
      → (w.plan.is_manual ≡ true) ⊎ (transcript_lt t.transcript w ≡ false)
  stored_least t w q =
      let same =
        some-injective t.transcript w
          (path_sym (kept-set_same t.trajectory t.transcript trajs) ∙ q) in
      inr (
        subst (λ v. transcript_lt t.transcript v ≡ false) same
          (lt_irrefl transcript_lt-IsTotalOrder.weak t.transcript))

  other_trajectory :
      (old : Transcript) (t : Test W Gen)
      → Tracks name t.corp trajs
      → kept t.trajectory trajs ≡ some old
      → (j : ℕ) (v : Transcript) → kept j trajs ≡ some v
      → (t.trajectory == j) ≡ false
      → transcript_eq old v ≡ false
  other_trajectory old t tracks k j v q e = elim (Bool-cases (transcript_eq old v)) [
    | inr d ↦ d
    | inl same ↦
        let old_there = q ∙ ap some (path_sym ((transcript_eq_iff old v).0 same)) in
        let equal = tracks.apart t.trajectory j old k old_there in absurd (ground arith)
  ]

  replaced-Post :
      (old : Transcript) (is_held : Bool) (t : Test W Gen)
      → Tracks name t.corp trajs
      → name_of t.transcript ≡ name
      → kept t.trajectory trajs ≡ some old
      → old.plan.is_manual ≡ false
      → transcript_lt t.transcript old ≡ true
      → holds t.corp t.transcript ≡ is_held
      → Post (Placed t is_held) Never (Blocks t is_held) (
          (set_corpus (replace_transcript t.corp old t.transcript)
              >> pure (false, map_set ltb t.trajectory t.transcript trajs))
            t)
  unfolding set_corpus
  replaced-Post old is_held t tracks named k auto less h =
      let same_name =
        (symbol_eq_iff (name_of old) (name_of t.transcript)).1
          (tracks.named t.trajectory old k ∙ path_sym named) in
      let differs = smaller-neq t.transcript old less in
      let old_held = tracks.held t.trajectory old k in
      elim (replace_transcript_lem t.corp old t.transcript tracks.valid) [
        | inl (e, b) ↦ rw e (
            is_raised
              (refl, refl, tracks, ground (arith, b, same_name, old_held, h), (old, k, auto, less)))
        | inr (c', e, b, valid, dirty, hold) ↦ rw e (
            is_done (
              refl,
              Tracks-set name t.corp c' trajs t.trajectory t.transcript tracks valid named
                  (ground (arith, hold t.transcript, self_eq t.transcript))
                  (λ j v q e.
                    let held_v = tracks.held j v q in
                    (
                      ground (arith, hold v, held_v, other_trajectory old t tracks k j v q e),
                      told_apart (holds t.corp) t.transcript v (ground (arith, b, differs)) held_v,
                    )),
              Improves-set trajs t.trajectory t.transcript (λ v q.
                  let same = some-injective old v (path_sym k ∙ q) in
                  subst (λ u. (u.plan.is_manual ≡ false) × (transcript_lt t.transcript u ≡ true))
                    same (auto, less)),
              (λ e. absurd (ground arith), λ h. absurd (cc (h.0, k))),
              (λ e. absurd (ground arith)),
              stored_least t,
            ))
      ]

  place-Post :
      (old : Option Transcript) (is_held : Bool) (t : Test W Gen)
      → Tracks name t.corp trajs
      → name_of t.transcript ≡ name
      → kept t.trajectory trajs ≡ old
      → holds t.corp t.transcript ≡ is_held
      → Post (Placed t is_held) Never (Blocks t is_held) (place_transcript old is_held trajs t)
  unfolding place_transcript set_corpus
  place-Post none true t tracks named k h = is_done (
    refl,
    tracks,
    Improves-refl trajs,
    ground arith,
    (λ e. absurd (ground arith)),
    λ w q. absurd (cc (k, q)),
  )
  place-Post none false t tracks named k h =
      elim (add_transcript_lem t.corp t.transcript tracks.valid) [
        | inl (e, b) ↦ absurd (ground (arith, b, h))
        | inr (c', e, b, valid, dirty, hold) ↦
            rw (e, map_emplace-map_set ltb t.trajectory t.transcript trajs k)
              (is_done (
                refl,
                Tracks-set name t.corp c' trajs t.trajectory t.transcript tracks valid named
                    (ground (arith, hold t.transcript, self_eq t.transcript))
                    (λ j v q e.
                      let held_v = tracks.held j v q in
                      (
                        ground (arith, hold v, held_v),
                        told_apart (holds t.corp) t.transcript v h held_v,
                      )),
                Improves-set trajs t.trajectory t.transcript (λ v q. absurd (cc (k, q))),
                (λ e. (k, refl), λ e. refl),
                (λ e. kept-set_same t.trajectory t.transcript trajs),
                stored_least t,
              ))
      ]
  place-Post (some old) is_held t tracks named k h =
      elim (Bool-cases (not old.plan.is_manual && transcript_lt t.transcript old)) [
        | inl smaller ↦ rw smaller (
            replaced-Post old is_held t tracks named k (ground (arith, smaller))
              (ground (arith, smaller)) h)
        | inr not_smaller ↦ rw not_smaller (unchanged (is_not_smaller old t.transcript not_smaller))
      ]
    where
      unchanged :
          (old.plan.is_manual ≡ true) ⊎ (transcript_lt t.transcript old ≡ false)
          → Post (Placed t is_held) Never (Blocks t is_held) (done (false, trajs), t)
      unchanged least = is_done (
        refl,
        tracks,
        Improves-refl trajs,
        (λ e. absurd (ground arith), λ h. absurd (cc (h.0, k))),
        (λ e. absurd (ground arith)),
        λ w q.
            subst (λ v. (v.plan.is_manual ≡ true) ⊎ (transcript_lt t.transcript v ≡ false))
              (some-injective old w (path_sym k ∙ q)) least,
      )

  -- From an object whose corpus and trajectories agree, with a transcript of the test, what
  -- `runPlanAndMaybeExpandCorpus` does behind a run leaves them in agreement; it answers true
  -- exactly if the trajectory and the transcript are new, and then keeps the transcript for the
  -- trajectory; no kept transcript is lost but to a smaller one, and none that is manual; the one
  -- kept for the trajectory is manual or not greater than the transcript. Only an assertion can
  -- fail, where the corpus holds the smaller transcript already.
  pub maybe_expand-Post :
      (t : Test W Gen)
      → Tracks name t.corp trajs
      → name_of t.transcript ≡ name
      → let is_held = holds t.corp t.transcript in
        Post (Placed t is_held) Never (Blocks t is_held) (maybe_expand name trajs t)
  unfolding maybe_expand
  maybe_expand-Post t tracks named =
      let got = get_transcripts t.corp name in
      let is_held = holds t.corp t.transcript in
      subst
        (λ b.
          Post (Placed t is_held) Never (Blocks t is_held)
            (place_transcript (kept t.trajectory trajs) b trajs (record t { corp = got.1 })))
        (ap (λ n. set_has transcript_lt t.transcript (transcripts_of t.corp n)) named)
        (place-Post (kept t.trajectory trajs) is_held (record t { corp = got.1 })
          (Tracks-got name t.corp trajs tracks) named refl (holds-got t.corp name t.transcript))
