-- ===== src/Test/Checking.antt =====
-- `checkCorpus`: its loop over a corpus that has one transcript at most for each plan.
use photesthesis.Shared.{
  ℕ, zero, suc, ◌<◌, ◌≡◌, refl, ◌⊎◌, ◌∙◌, ap, sym as path_sym, subst, true, false, List, [], ◌∷◌,
  ◌++◌, append_assoc, Option, some, arith, Bool-cases, inl, inr, length, ltb, All, All-In,
}
use photesthesis.Shared.SetOf.{set_has}
use photesthesis.Shared.SetOf.Members.{In-set_has}
use photesthesis.Shared.MapOf.{map_emplace}
use photesthesis.Symbol.{Symbol}
use photesthesis.Plan.{get_hash_code}
use photesthesis.Transcript.{Transcript, name_of, transcript_lt, transcript_eq}
use photesthesis.Transcript.Order.{transcript_eq_iff, transcript_lt-IsTotalOrder}
use photesthesis.Corpus.{Corpus, transcripts_of, update_transcript}
use photesthesis.Corpus.Invariant.{IsValid, IsFiled, transcripts_of-IsFiled}
use photesthesis.Corpus.Store.{holds}
use photesthesis.Test.{Outside, Test, Ended, done, raised, pure, TestError, undefined, continue}
use photesthesis.Test.Stabilize.{run_plan_and_stabilize}
use photesthesis.Test.Expand.{Trajectories, Failures, set_corpus, catch_reject}
use photesthesis.Test.Administer.{
  next_of, first_of, is_passed_over, check_transcript, compare_transcript, note_trajectory,
  check_one, check_from,
}
use photesthesis.Test.Outcomes.{
  Post, Never, is_done, is_rejected, is_raised, continue-Post, Post-done,
}
use photesthesis.Test.Observations.{FitsMask}
use photesthesis.Test.Stability.{
  is_run_error, IsFit, IsPassed, IsStable, Fails, run_plan_and_stabilize-Post,
}
use photesthesis.Test.Tracking.{Tracks-nil, Tracks}
use photesthesis.Test.Iteration.{
  HasOnePerPlan, AreBelow, nil-AreBelow, update_lem, emplaced, In-append, sorted_rest,
  next_of-append,
}

-- A run's exception, or the step of an invalid iterator, which leave a valid corpus.
abbrev pub Broken : {W Gen : Type 0} → TestError → Test W Gen → Type 0
Broken e u = ((is_run_error e ≡ true) ⊎ (e ≡ undefined)) × IsValid u.corp

module _ {W Gen : Type 0} (o : Outside W Gen) (c : Corpus) (name : Symbol) where
  -- A step's outcome: nothing of the corpus has changed.
  abbrev pub Checked : List Transcript → Failures × Trajectories → Test W Gen → Type 0
  Checked rest out u =
      FitsMask o u
      × (u.corp ≡ c)
      × (name_of u.transcript ≡ name)
      × Tracks name c out.1
      × AreBelow out.1 rest

  module _ (valid : IsValid c) (one : HasOnePerPlan c) where
    note-Post :
        (ts : Transcript) (rest : List Transcript) (found : Failures × Trajectories)
        (u : Test W Gen)
        → holds c ts ≡ true
        → name_of ts ≡ name
        → All (λ x. transcript_lt ts x ≡ true) rest
        → u.transcript ≡ ts
        → Checked (ts ∷ rest) found u
        → Post (Checked rest) Never Broken (note_trajectory o name ts found u)
    unfolding note_trajectory
    note-Post ts rest (failures, trajs) u held named above same (fits, e, of_name, tracks, below) =
        rw held_there (is_done (fits, e, of_name, after.0, after.1))
      where
        held_there : set_has transcript_lt ts (transcripts_of u.corp name) ≡ true
        held_there =
            subst (λ d. set_has transcript_lt ts (transcripts_of d name) ≡ true) (path_sym e)
              (subst (λ n. set_has transcript_lt ts (transcripts_of c n) ≡ true) named held)

        after :
            let noted = map_emplace ltb u.trajectory u.transcript trajs in
            Tracks name c noted × AreBelow noted rest
        after =
            subst
              (λ w.
                let noted = map_emplace ltb u.trajectory w trajs in
                Tracks name c noted × AreBelow noted rest)
              (path_sym same)
              (emplaced name c trajs u.trajectory ts rest tracks below held named above)

    -- The run left another transcript.
    mismatch_lem :
        (ts : Transcript) (found : Failures × Trajectories) (u : Test W Gen)
        → holds c ts ≡ true
        → name_of ts ≡ name
        → u.corp ≡ c
        → u.transcript.plan ≡ ts.plan
        → transcript_eq ts u.transcript ≡ false
        → (v : Test W Gen) × (catch_reject
              (compare_transcript o ts u)
              (pure found)
              (λ _. note_trajectory o name ts found)
            ≡ (raised undefined, v))
          × IsValid v.corp
    unfolding compare_transcript note_trajectory set_corpus
    mismatch_lem ts found u held named same plan e =
        let (c', q, valid', gone) = update_lem c ts u.transcript valid one held plan e in
        let q' = subst (λ d. update_transcript d u.transcript ≡ some c') (path_sym same) q in
        let gone' =
          subst (λ n. set_has transcript_lt ts (transcripts_of c' n) ≡ false) named gone in
        (record u { corp = c' }, rw (e, q', gone') refl, valid')

    checked_lem :
        (ts : Transcript) (rest : List Transcript) (found : Failures × Trajectories)
        → holds c ts ≡ true
        → name_of ts ≡ name
        → All (λ x. transcript_lt ts x ≡ true) rest
        → {x : Ended (Unit {0}) × Test W Gen} → Tracks name c found.1
        → AreBelow found.1 (ts ∷ rest)
        → Post (λ _. IsStable o c ts.plan) (IsPassed o c ts.plan) (Fails o c) x
        → Post (Checked rest) Never Broken (
            catch_reject
              (continue x (λ _. compare_transcript o ts))
              (pure found)
              (λ _. note_trajectory o name ts found))
    unfolding compare_transcript
    checked_lem ts rest found held named above tracks below (is_done {t = u} p) =
        elim (Bool-cases (transcript_eq ts u.transcript)) [
          | inl e ↦ rw e (
              note-Post ts rest found u held named above
                (path_sym ((transcript_eq_iff ts u.transcript).0 e))
                (p.0.0.0, p.0.0.1, ap (λ q. q.test_name) p.0.1 ∙ named, tracks, below))
          | inr e ↦
              let (v, q, valid') = mismatch_lem ts found u held named p.0.0.1 p.0.1 e in
              rw q (is_raised (inr refl, valid'))
        ]
    checked_lem ts rest found held named above tracks below
          (is_rejected {t = u} ((fits, same), of_plan)) =
        is_done
          (fits, same, ap (λ p. p.test_name) of_plan ∙ named, tracks, λ k v h. (below k v h).1)
    checked_lem ts rest found held named above tracks below (is_raised {t = u} (e, (fits, same))) =
        is_raised (inl e, subst IsValid (path_sym same) valid)

    module _ (specific : Option ℕ) where
      -- The body of the loop.
      pub check_one-Post :
          (ts : Transcript) (rest : List Transcript) (found : Failures × Trajectories)
          (t : Test W Gen)
          → holds c ts ≡ true
          → name_of ts ≡ name
          → All (λ x. transcript_lt ts x ≡ true) rest
          → Checked (ts ∷ rest) found t
          → Post (Checked rest) Never Broken (check_one o specific name ts found t)
      unfolding check_one check_transcript
      check_one-Post ts rest found t held named above (fits, same, of_name, tracks, below) =
          elim (Bool-cases (is_passed_over specific (get_hash_code o.hash ts.plan))) [
            | inl skip ↦ rw skip (is_done (fits, same, of_name, tracks, λ k v h. (below k v h).1))
            | inr check ↦ rw check (
                checked_lem ts rest found held named above tracks below
                  (run_plan_and_stabilize-Post o c ts.plan t (fits, same)))
          ]

      -- The loop, from an iterator at `rest`.
      check_from-Post :
          (pre rest : List Transcript) (fuel : ℕ) (found : Failures × Trajectories) (t : Test W Gen)
          → transcripts_of c name ≡ pre ++ rest
          → length rest < fuel
          → Checked rest found t
          → Post (Checked []) Never Broken (check_from o fuel specific name (first_of rest) found t)
      unfolding check_from first_of
      check_from-Post pre rest zero found t e h checked = absurd (omega (arith, h))
      check_from-Post pre [] (suc fuel) found t e h checked = is_done checked
      check_from-Post pre (ts ∷ rest) (suc fuel) found t e h checked =
          continue-Post (check_one-Post ts rest found t (place.0) (place.1) place.2 checked)
            λ next u checked'.
              let at_rest = step checked'.1 in
              let behind = e ∙ path_sym (append_assoc pre (ts ∷ []) rest) in
              rw at_rest (
                check_from-Post (pre ++ ts ∷ []) rest fuel next u behind (omega (arith, h))
                  checked')
        where
          filed : IsFiled name (pre ++ ts ∷ rest)
          filed = subst (IsFiled name) e (transcripts_of-IsFiled c name valid)

          place :
              (holds c ts ≡ true) × (name_of ts ≡ name) × All (λ x. transcript_lt ts x ≡ true) rest
          place =
              let named = All-In (λ u. name_of u ≡ name) filed.1 (In-append pre ts rest) in
              (
                subst (λ n. set_has transcript_lt ts (transcripts_of c n) ≡ true) (path_sym named)
                    (subst (λ xs. set_has transcript_lt ts xs ≡ true) (path_sym e)
                      (In-set_has transcript_lt-IsTotalOrder.weak ts _ filed.0
                        (In-append pre ts rest))),
                named,
                sorted_rest pre ts rest filed.0,
              )

          step : {d : Corpus} → d ≡ c → next_of ts (transcripts_of d name) ≡ first_of rest
          step q =
              ap (λ d. next_of ts (transcripts_of d name)) q
              ∙ ap (next_of ts) e
              ∙ next_of-append pre ts rest filed.0

      -- The loop, from the start.
      pub check_all-Post :
          (fuel : ℕ) (t : Test W Gen)
          → length (transcripts_of c name) < fuel
          → FitsMask o t
          → t.corp ≡ c
          → name_of t.transcript ≡ name
          → Post
              (Checked [])
              Never
              Broken
              (check_from o fuel specific name (first_of (transcripts_of c name)) ([], []) t)
      check_all-Post fuel t h fits same named =
          check_from-Post [] (transcripts_of c name) fuel ([], []) t refl h
            (fits, same, named, Tracks-nil name c valid, nil-AreBelow (transcripts_of c name))

      -- In a valid corpus with one transcript at most for each plan, for a transcript of it that
      -- is not skipped, and an object whose mask fits: if the run of its plan returns with
      -- another transcript, the round of `checkCorpus` has an undefined outcome, for the update
      -- erases the element that the loop stands at.
      pub check_one-undefined :
          (ts : Transcript) (found : Failures × Trajectories) (t u : Test W Gen)
          → holds c ts ≡ true
          → name_of ts ≡ name
          → IsFit o c t
          → is_passed_over specific (get_hash_code o.hash ts.plan) ≡ false
          → run_plan_and_stabilize o ts.plan t ≡ (done tt, u)
          → transcript_eq ts u.transcript ≡ false
          → (check_one o specific name ts found t).0 ≡ raised undefined
      unfolding check_one check_transcript
      check_one-undefined ts found t u held named fit check runs differs =
          let stable = Post-done (
            subst (λ x. Post (λ _. IsStable o c ts.plan) (IsPassed o c ts.plan) (Fails o c) x) runs
              (run_plan_and_stabilize-Post o c ts.plan t fit)) in
          let (v, q, valid') = mismatch_lem ts found u held named stable.0.0.1 stable.0.1 differs in
          rw (check, runs, q)
