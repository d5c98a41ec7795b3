-- ===== src/Test/Expand.antt =====
-- `runPlanAndMaybeExpandCorpus` of src/test.cpp, and the loops that call it: over random plans and
-- over the plans of the k-path coverings.
use photesthesis.Shared.{
  ℕ, zero, suc, ◌+◌, ◌-◌, Bool, true, false, not, ◌&&◌, List, [], ◌∷◌, ◌++◌, Option, none, some,
  if◌then◌else◌, length, ltb,
}
use photesthesis.Shared.SetOf.{set_has}
use photesthesis.Shared.MapOf.{map_find, map_set, map_emplace}
use photesthesis.Symbol.{Symbol}
use photesthesis.Plan.{Plan, ParamSpecs, get_hash_code, get_param_specs}
use photesthesis.Transcript.{Transcript, name_of, transcript_lt}
use photesthesis.Corpus.{Corpus, get_transcripts, add_transcript, replace_transcript}
use photesthesis.Grammar.{Result, ok, error}
use photesthesis.Grammar.Random.{pick_uniform, randomly_populate_plan}
use photesthesis.Grammar.Coverings.{populate_plans_from_k_path_coverings}
use photesthesis.Test.{
  Trajectory, Outside, Test, Ended, done, rejected, raised, TestError, no_head_symbol, empty_pick,
  assertion, undefined, grammar_error, M, ◌>>=◌, ◌>>◌, pure, raise, get, modify,
}
use photesthesis.Test.Stabilize.{run_plan_and_stabilize}

-- `std::map<Trajectory, Transcript>`, and the hashes of the plans that failed.
abbrev pub Trajectories : Type 0
Trajectories = List (Trajectory × Transcript)

abbrev pub Failures : Type 0
Failures = List ℕ

-- `std::advance` from the start of a map; it is not defined past the end.
unfoldable pub advance : {A : Type 0} → ℕ → List A → Option A
advance n [] = none
advance zero (x ∷ xs) = some x
advance (suc n) (x ∷ xs) = advance n xs

module _ {W Gen : Type 0} where
  -- The outcome of a function of another class, by the exception that stands for none.
  abbrev pub or_raise : {A : Type 0} → TestError → Option A → M W Gen A
  or_raise e none = raise e
  or_raise e (some a) = pure a

  abbrev pub lift : {A : Type 0} → Result A → M W Gen A
  lift (ok a) = pure a
  lift (error e) = raise (grammar_error e)

  unfoldable pub set_corpus : Option Corpus → M W Gen (Unit {0})
  set_corpus none = raise assertion
  set_corpus (some c) = modify (λ t. record t { corp = c })

  -- The two branches on whether the trajectory is known; `held` says whether the transcript is.
  unfoldable pub place_transcript :
      Option Transcript → Bool → Trajectories → M W Gen (Bool × Trajectories)
  unfolding set_corpus add_transcript replace_transcript
  place_transcript none true trajs = pure (false, trajs)
  place_transcript none false trajs = do
    t ← get
    set_corpus (add_transcript t.corp t.transcript)
    pure (true, map_emplace ltb t.trajectory t.transcript trajs)
  place_transcript (some old) held trajs = do
    t ← get
    let smaller = not old.plan.is_manual && transcript_lt t.transcript old
    let replaced = map_set ltb t.trajectory t.transcript trajs
    if smaller
        then (set_corpus (replace_transcript t.corp old t.transcript) >> pure (false, replaced))
        else pure (false, trajs)

  -- What follows the run: whether the trajectory is new, and the least transcript of each.
  unfoldable pub maybe_expand : Symbol → Trajectories → M W Gen (Bool × Trajectories)
  unfolding get_transcripts place_transcript
  maybe_expand name trajs t =
      let got = get_transcripts t.corp name in
      place_transcript (map_find ltb t.trajectory trajs) (set_has transcript_lt t.transcript got.0)
        trajs (record t { corp = got.1 })

  -- The handler of `RejectPlan`.
  abbrev pub catch_reject :
      {A B : Type 0} → Ended A × Test W Gen → M W Gen B → (A → M W Gen B) → Ended B × Test W Gen
  catch_reject (done a, t) handler f = f a t
  catch_reject (rejected, t) handler f = handler t
  catch_reject (raised e, t) handler f = (raised e, t)

  module _ (o : Outside W Gen) where
    unfoldable pub run_plan_and_maybe_expand_corpus :
        Plan → Trajectories → M W Gen (Bool × Trajectories)
    unfolding run_plan_and_stabilize maybe_expand
    run_plan_and_maybe_expand_corpus plan trajs t =
        catch_reject (run_plan_and_stabilize o plan t) (pure (false, trajs))
          (λ _. maybe_expand plan.test_name trajs)

    -- A plan's run in a loop, with the failures so far.
    unfoldable pub try_plan : Plan → Failures × Trajectories → M W Gen (Failures × Trajectories)
    unfolding run_plan_and_maybe_expand_corpus get_hash_code
    try_plan plan (failures, trajs) = do
      out ← run_plan_and_maybe_expand_corpus plan trajs
      t ← get
      let failed = failures ++ get_hash_code o.hash plan ∷ []
      pure (if t.failed then failed else failures, out.1)

    -- `pickUniform` on a map.
    unfoldable pub pick_uniform_entry : Trajectories → M W Gen (Trajectory × Transcript)
    unfolding advance
    pick_uniform_entry [] = raise empty_pick
    pick_uniform_entry (e ∷ es) = do
      t ← get
      let drawn = o.uniform (length es) t.gen
      modify (λ u. record u { gen = drawn.1 })
      or_raise undefined (advance drawn.0 (e ∷ es))

    -- The specifications of the next random plan.
    unfoldable pub choose_spec : Trajectories → M W Gen ParamSpecs
    unfolding pick_uniform_entry pick_uniform get_param_specs
    choose_spec [] = do
      t ← get
      picked ← lift (pick_uniform o.uniform t.gen t.seed_specs)
      modify (λ u. record u { gen = picked.1 })
      pure picked.0
    choose_spec (e ∷ es) = do
      picked ← pick_uniform_entry (e ∷ es)
      or_raise no_head_symbol (get_param_specs picked.1.plan)

    unfoldable pub random_plan : Symbol → ℕ → ParamSpecs → M W Gen Plan
    unfolding randomly_populate_plan
    random_plan name depth spec = do
      t ← get
      made ← lift (randomly_populate_plan o.uniform t.gram name spec t.gen depth)
      modify (λ u. record u { gen = made.1 })
      pure made.0

    -- The loop of `randomlyExpandCorpus`.
    unfoldable pub random_steps :
        ℕ → Symbol → ℕ → Failures × Trajectories → M W Gen (Failures × Trajectories)
    unfolding choose_spec random_plan try_plan
    random_steps zero name depth found = pure found
    random_steps (suc n) name depth found = do
      spec ← choose_spec found.1
      plan ← random_plan name depth spec
      next ← try_plan plan found
      random_steps n name depth next

    unfoldable pub randomly_expand_corpus : Trajectories → ℕ → ℕ → M W Gen Failures
    unfolding random_steps
    randomly_expand_corpus trajs steps depth = do
      t ← get
      found ← random_steps steps (name_of t.transcript) depth ([], trajs)
      pure found.0

    -- The loops of `initializeCorpusFromKPaths`: over plans, over `k` from 2, and over specifications.
    unfoldable pub try_plans :
        List Plan → Failures × Trajectories → M W Gen (Failures × Trajectories)
    unfolding get_param_specs try_plan
    try_plans [] found = pure found
    try_plans (plan ∷ plans) found = do
      specs ← or_raise no_head_symbol (get_param_specs plan)
      next ← try_plan plan found
      try_plans plans next

    unfoldable pub try_lengths :
        ℕ
        → ℕ
        → ℕ
        → Symbol
        → ParamSpecs
        → Failures × Trajectories
        → M W Gen (Failures × Trajectories)
    unfolding populate_plans_from_k_path_coverings try_plans
    try_lengths zero k fuel name spec found = pure found
    try_lengths (suc n) k fuel name spec found = do
      t ← get
      plans ← lift (populate_plans_from_k_path_coverings t.gram fuel name spec k)
      next ← try_plans plans found
      try_lengths n (k + 1) fuel name spec next

    unfoldable pub try_specs :
        ℕ
        → ℕ
        → Symbol
        → List ParamSpecs
        → Failures × Trajectories
        → M W Gen (Failures × Trajectories)
    unfolding try_lengths
    try_specs k_path_length fuel name [] found = pure found
    try_specs k_path_length fuel name (spec ∷ specs) found = do
      next ← try_lengths (k_path_length - 2) 2 fuel name spec found
      try_specs k_path_length fuel name specs next

    unfoldable pub initialize_corpus_from_k_paths : ℕ → ℕ → M W Gen Failures
    unfolding try_specs
    initialize_corpus_from_k_paths fuel k_path_length = do
      t ← get
      found ← try_specs k_path_length fuel (name_of t.transcript) t.seed_specs ([], [])
      pure found.0
