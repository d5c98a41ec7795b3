-- ===== src/Test/Administer.antt =====
-- `checkTranscript`, `checkCorpus` and `administer` of src/test.cpp.
use photesthesis.Shared.{
  ℕ, zero, suc, Bool, false, not, List, [], ◌∷◌, ◌++◌, Option, none, some, if◌then◌else◌, ltb, ◌==◌,
  codes,
}
use photesthesis.Shared.SetOf.{set_has}
use photesthesis.Shared.MapOf.{map_emplace}
use photesthesis.Symbol.{Symbol}
use photesthesis.Plan.{get_hash_code}
use photesthesis.Transcript.{Transcript, name_of, transcript_lt, transcript_eq}
use photesthesis.Corpus.{transcripts_of, get_transcripts, update_transcript}
use photesthesis.Grammar.Cycling.{is_empty}
use photesthesis.Test.{
  Outside, Test, done, undefined, out_of_fuel, M, ◌>>=◌, ◌>>◌, pure, raise, get, modify,
}
use photesthesis.Test.Stabilize.{env_or, run_plan_and_stabilize}
use photesthesis.Test.Expand.{
  Trajectories, Failures, set_corpus, catch_reject, randomly_expand_corpus,
  initialize_corpus_from_k_paths,
}

-- The next element of a set behind one that it holds, to which an iterator moves.
unfoldable pub next_of : Transcript → List Transcript → Option Transcript
next_of ts [] = none
next_of ts (u ∷ us) = if transcript_lt ts u then some u else next_of ts us

unfoldable pub first_of : List Transcript → Option Transcript
first_of [] = none
first_of (u ∷ us) = some u

-- With `PHOTESTHESIS_TEST_HASH` set, only the transcript with that hash is checked.
abbrev pub is_passed_over : Option ℕ → ℕ → Bool
is_passed_over none hash = false
is_passed_over (some specific) hash = not (hash == specific)

module _ {W Gen : Type 0} (o : Outside W Gen) where
  -- What follows the run in `checkTranscript`.
  unfoldable pub compare_transcript : Transcript → M W Gen (Unit {0})
  unfolding update_transcript set_corpus
  compare_transcript ts t =
      if not (transcript_eq ts t.transcript)
      then set_corpus (update_transcript t.corp t.transcript) t
      else (done tt, t)

  unfoldable pub check_transcript : Transcript → M W Gen (Unit {0})
  unfolding run_plan_and_stabilize compare_transcript
  check_transcript ts = do run_plan_and_stabilize o ts.plan; compare_transcript ts

  -- What the loop does behind a check. An update has erased an element of the set, and if that was
  -- `ts`, the iterator and the reference to it are invalid.
  unfoldable pub note_trajectory :
      Symbol → Transcript → Failures × Trajectories → M W Gen (Failures × Trajectories)
  unfolding get_hash_code
  note_trajectory name ts (failures, trajs) = do
    t ← get
    let failed = failures ++ get_hash_code o.hash ts.plan ∷ []
    let noted = map_emplace ltb t.trajectory t.transcript trajs
    if not (set_has transcript_lt ts (transcripts_of t.corp name))
        then raise undefined
        else pure (if t.failed then failed else failures, noted)

  -- The body of the loop. A rejected plan is passed over.
  unfoldable pub check_one :
      Option ℕ → Symbol → Transcript → Failures × Trajectories → M W Gen (Failures × Trajectories)
  unfolding get_hash_code check_transcript note_trajectory
  check_one specific name ts found t =
      if is_passed_over specific (get_hash_code o.hash ts.plan)
      then (done found, t)
      else catch_reject (check_transcript ts t) (pure found) (λ _. note_trajectory name ts found)

  -- The loop of `checkCorpus`, from an iterator. A step costs a unit of fuel.
  unfoldable pub check_from :
      ℕ
      → Option ℕ
      → Symbol
      → Option Transcript
      → Failures × Trajectories
      → M W Gen (Failures × Trajectories)
  unfolding check_one next_of
  check_from zero specific name at found = raise out_of_fuel
  check_from (suc n) specific name none found = pure found
  check_from (suc n) specific name (some ts) found = do
    next ← check_one specific name ts found
    t ← get
    check_from n specific name (next_of ts (transcripts_of t.corp name)) next

  unfoldable pub check_corpus : ℕ → Trajectories → M W Gen (Failures × Trajectories)
  unfolding get_transcripts check_from first_of
  check_corpus fuel trajs = do
    t ← get
    let got = get_transcripts t.corp (name_of t.transcript)
    modify (λ u. record u { corp = got.1 })
    if is_empty got.0
        then pure ([], trajs)
        else (check_from fuel (o.env (codes "PHOTESTHESIS_TEST_HASH")) (name_of t.transcript)
            (first_of got.0) ([], trajs))

  unfoldable pub seed_with_value : ℕ → Test W Gen → Test W Gen
  seed_with_value seed t = record t { last_seed = seed; gen = o.seeded seed }

  abbrev pub seed_from_env : Option ℕ → Test W Gen → Test W Gen
  seed_from_env none t = t
  seed_from_env (some seed) t = seed_with_value seed t

  -- Failures end the call, and else the corpus is expanded.
  abbrev pub expand_checked : Failures × Trajectories → ℕ → ℕ → M W Gen Failures
  expand_checked (f ∷ failures, trajs) steps depth = pure (f ∷ failures)
  expand_checked ([], trajs) steps depth = randomly_expand_corpus o trajs steps depth

  -- `administer`, with the fuel of its loops.
  unfoldable pub administer : ℕ → ℕ → ℕ → ℕ → M W Gen Failures
  unfolding seed_with_value get_transcripts check_corpus randomly_expand_corpus
      initialize_corpus_from_k_paths
  administer fuel expansion_steps k_path_length random_depth = do
    let steps = env_or o (codes "PHOTESTHESIS_EXPANSION_STEPS") expansion_steps
    let length = env_or o (codes "PHOTESTHESIS_KPATH_LENGTH") k_path_length
    let depth = env_or o (codes "PHOTESTHESIS_RANDOM_DEPTH") random_depth
    modify (seed_from_env (o.env (codes "PHOTESTHESIS_RANDOM_SEED")))
    t ← get
    let got = get_transcripts t.corp (name_of t.transcript)
    modify (λ u. record u { corp = got.1 })
    if is_empty got.0
        then initialize_corpus_from_k_paths o fuel length
        else (check_corpus fuel [] >>= λ found. expand_checked found steps depth)
