-- ===== src/Test/Driver.antt =====
-- `checkCorpus` and `administer`, from an object whose corpus is valid.
use photesthesis.Shared.{
  ℕ, ◌≡◌, refl, ◌⊎◌, ◌∙◌, ap, sym as path_sym, subst, true, [], ◌∷◌, Option, none, some, ◌<◌,
  Bool-cases, inl, inr, if◌then◌else◌, length, codes,
}
use photesthesis.Symbol.{Symbol}
use photesthesis.Transcript.{Transcript, name_of}
use photesthesis.Corpus.{Corpus, transcripts_of, get_transcripts}
use photesthesis.Corpus.Invariant.{IsValid}
use photesthesis.Corpus.Store.{holds, got-IsValid, holds-got, transcripts_of-got}
use photesthesis.Grammar.Cycling.{is_empty}
use photesthesis.Grammar.Progress.{IsUniform}
use photesthesis.Test.{Outside, Test, Ended, TestError, undefined, continue, ◌>>=◌, pure}
use photesthesis.Test.Expand.{
  Trajectories, Failures, randomly_expand_corpus, initialize_corpus_from_k_paths,
}
use photesthesis.Test.Administer.{
  first_of, check_from, check_corpus, seed_with_value, seed_from_env, expand_checked, administer,
}
use photesthesis.Test.Outcomes.{Post, Never, is_done, continue-Post, Post-imp, Post-raised}
use photesthesis.Test.Observations.{FitsMask}
use photesthesis.Test.Tracking.{Tracks, Tracks-nil}
use photesthesis.Test.Expansion.{IsReady}
use photesthesis.Test.Loops.{
  is_expected, run_error_expected, Found, Stopped, random_steps-Post, try_specs-Post,
}
use photesthesis.Test.Iteration.{HasOnePerPlan, nil-AreBelow}
use photesthesis.Test.Checking.{Checked, Broken, check_all-Post}

got-HasOnePerPlan :
    (c : Corpus) (name : Symbol) → HasOnePerPlan c → HasOnePerPlan (get_transcripts c name).1
got-HasOnePerPlan c name one a b h k =
    one a b (path_sym (holds-got c name a) ∙ h) (path_sym (holds-got c name b) ∙ k)

module _ {W Gen : Type 0} (o : Outside W Gen) where
  -- The object is sound: its mask fits, its corpus is valid, and has one transcript for each plan.
  pub record IsSound (t : Test W Gen) : Type 0 where
    pub fits : FitsMask o t
    pub valid : IsValid t.corp
    pub one : HasOnePerPlan t.corp

  -- The corpus holds what it held, and the trajectories agree with it.
  abbrev pub Verified : Test W Gen → Failures × Trajectories → Test W Gen → Type 0
  Verified t out u =
      IsReady o (name_of t.transcript) out.1 u
      × (name_of u.transcript ≡ name_of t.transcript)
      × ((v : Transcript) → holds u.corp v ≡ holds t.corp v)

  -- From a sound object, and on more fuel than there are transcripts of the test, `checkCorpus`
  -- ends. If it returns, the corpus holds what it held and agrees with the trajectories found; if
  -- it throws, it is an exception of the run or the step of an invalid iterator, and the corpus
  -- is valid.
  pub check_corpus-Post :
      (fuel : ℕ) (t : Test W Gen)
      → IsSound t
      → length (transcripts_of t.corp (name_of t.transcript)) < fuel
      → Post (Verified t) Never Broken (check_corpus o fuel [] t)
  unfolding check_corpus
  check_corpus-Post fuel t sound h = elim (Bool-cases (is_empty (transcripts_of t.corp name))) [
    | inl none_there ↦ rw none_there (
        is_done {t = start} (
          verified ([], []) start
            (sound.fits, refl, refl, Tracks-nil name c valid, nil-AreBelow [])))
    | inr some_there ↦ rw some_there (
        Post-imp
          (subst
            (λ xs.
              Post (Checked o c name []) Never Broken
                (check_from o fuel specific name (first_of xs) ([], []) start))
            same
            (check_all-Post o c name valid (got-HasOnePerPlan t.corp name sound.one) specific fuel
              start (subst (λ xs. length xs < fuel) (path_sym same) h) sound.fits refl refl))
          λ out u checked. verified out u checked)
  ]
    where
      name : Symbol
      name = name_of t.transcript

      specific : Option ℕ
      specific = o.env (codes "PHOTESTHESIS_TEST_HASH")

      c : Corpus
      c = (get_transcripts t.corp name).1

      start : Test W Gen
      start = record t { corp = c }

      valid : IsValid c
      valid = got-IsValid t.corp name sound.valid

      same : transcripts_of c name ≡ transcripts_of t.corp name
      same = transcripts_of-got t.corp name name

      verified :
          (out : Failures × Trajectories) (u : Test W Gen)
          → Checked o c name [] out u
          → Verified t out u
      verified out u (fits, e, named, tracks, below) = (
        (fits, subst (λ d. Tracks name d out.1) (path_sym e) tracks),
        named,
        λ v. ap (λ d. holds d v) e ∙ holds-got t.corp name v,
      )

  -- What `administer` leaves.
  abbrev pub Administered : Failures → Test W Gen → Type 0
  Administered failures u = FitsMask o u × IsValid u.corp

  abbrev pub Interrupted : TestError → Test W Gen → Type 0
  Interrupted e u = ((is_expected e ≡ true) ⊎ (e ≡ undefined)) × IsValid u.corp

  seed_from_env-IsSound :
      (seed : Option ℕ) (t : Test W Gen)
      → IsSound t
      → let u = seed_from_env o seed t in
        IsSound u × (u.corp ≡ t.corp) × (u.transcript ≡ t.transcript)
  unfolding seed_with_value
  seed_from_env-IsSound none t sound = (sound, refl, refl)
  seed_from_env-IsSound (some seed) t sound =
      (record { fits = sound.fits; valid = sound.valid; one = sound.one }, refl, refl)

  closed :
      (name : Symbol) (trajs : Trajectories) {x : Ended (Failures × Trajectories) × Test W Gen}
      → Post (Found o name trajs) Never (Stopped o name) x
      → Post Administered Never Interrupted (continue x (λ found. pure found.0))
  closed name trajs p =
      continue-Post (Post-raised p λ e u (q, valid). (inl q, valid))
        λ found u (ready, better). is_done (ready.0, ready.1.valid)

  initialized-Post :
      (fuel k_path_length : ℕ) (t : Test W Gen)
      → FitsMask o t
      → IsValid t.corp
      → Post Administered Never Interrupted (initialize_corpus_from_k_paths o fuel k_path_length t)
  unfolding initialize_corpus_from_k_paths
  initialized-Post fuel k_path_length t fits valid =
      let name = name_of t.transcript in
      closed name [] (
        try_specs-Post o name k_path_length fuel t.seed_specs ([], []) t
          (fits, Tracks-nil name t.corp valid))

  grown-Post :
      IsUniform o.uniform
      → (found : Failures × Trajectories) (steps depth : ℕ) (t : Test W Gen)
      → IsReady o (name_of t.transcript) found.1 t
      → Post Administered Never Interrupted (expand_checked o found steps depth t)
  unfolding randomly_expand_corpus
  grown-Post u (f ∷ failures, trajs) steps depth t ready = is_done (ready.0, ready.1.valid)
  grown-Post u ([], trajs) steps depth t ready =
      closed (name_of t.transcript) trajs
        (random_steps-Post o (name_of t.transcript) u steps depth ([], trajs) t ready)

  checked-Post :
      IsUniform o.uniform
      → (fuel steps depth : ℕ) (t : Test W Gen) → IsSound t
      → length (transcripts_of t.corp (name_of t.transcript)) < fuel
      → Post Administered Never Interrupted
          (continue (check_corpus o fuel [] t) (λ found. expand_checked o found steps depth))
  checked-Post u fuel steps depth t sound h =
      continue-Post
        (Post-raised (check_corpus-Post fuel t sound h) λ e v (q, valid).
          (elim q [ inl run ↦ inl (run_error_expected e run) | inr step ↦ inr step ], valid))
        λ found v (ready, named, same).
          grown-Post u found steps depth v
            (subst (λ n. IsReady o n found.1 v) (path_sym named) ready)

  got-IsSound :
      (t : Test W Gen)
      → IsSound t
      → IsSound (record t { corp = (get_transcripts t.corp (name_of t.transcript)).1 })
  got-IsSound t sound = record {
    fits = sound.fits;
    valid = got-IsValid t.corp (name_of t.transcript) sound.valid;
    one = got-HasOnePerPlan t.corp (name_of t.transcript) sound.one;
  }

  -- What follows the seeding.
  seeded-Post :
      IsUniform o.uniform
      → (fuel steps k_path_length depth : ℕ) (t : Test W Gen) → IsSound t
      → length (transcripts_of t.corp (name_of t.transcript)) < fuel
      → let got = get_transcripts t.corp (name_of t.transcript) in
        Post Administered Never Interrupted (
          (if is_empty got.0
              then initialize_corpus_from_k_paths o fuel k_path_length
              else (check_corpus o fuel [] >>= λ found. expand_checked o found steps depth))
            (record t { corp = got.1 }))
  seeded-Post u fuel steps k_path_length depth t sound h =
      let name = name_of t.transcript in
      let got = get_transcripts t.corp name in
      let start : Test W Gen = record t { corp = got.1 } in
      let sound' = got-IsSound t sound in
      elim (Bool-cases (is_empty got.0)) [
        | inl none_there ↦
            rw none_there (initialized-Post fuel k_path_length start sound'.fits sound'.valid)
        | inr some_there ↦ rw some_there (
            checked-Post u fuel steps depth start sound'
              (subst (λ xs. length xs < fuel) (path_sym (transcripts_of-got t.corp name name)) h))
      ]

  -- Where the generator draws in range, `administer` on a sound object, and on more fuel than
  -- there are transcripts of the test, leaves a valid corpus and a mask that fits. If it throws,
  -- the corpus is valid, and the exception is one of the code or the step of an invalid iterator.
  pub administer-Post :
      IsUniform o.uniform
      → (fuel expansion_steps k_path_length random_depth : ℕ) (t : Test W Gen) → IsSound t
      → length (transcripts_of t.corp (name_of t.transcript)) < fuel
      → Post Administered Never Interrupted
          (administer o fuel expansion_steps k_path_length random_depth t)
  unfolding administer
  administer-Post u fuel steps k depth t sound h =
      let seed = o.env (codes "PHOTESTHESIS_RANDOM_SEED") in
      let (sound', corp, transcript) = seed_from_env-IsSound seed t sound in
      seeded-Post u fuel _ _ _ (seed_from_env o seed t) sound' (
        subst (λ c. length (transcripts_of c (name_of (seed_from_env o seed t).transcript)) < fuel)
          (path_sym corp)
          (subst (λ s. length (transcripts_of t.corp (name_of s)) < fuel) (path_sym transcript) h))
