-- ===== src/Test/Expansion.antt =====
-- `runPlanAndMaybeExpandCorpus` on an object whose corpus and trajectories agree.
use photesthesis.Shared.{
  ◌≡◌, refl, ◌⊎◌, ap, sym as path_sym, subst, Bool, true, false, ◌||◌, length, ◌==◌, inl, inr,
}
use photesthesis.Symbol.{Symbol}
use photesthesis.Plan.{Plan}
use photesthesis.Corpus.{Corpus}
use photesthesis.Corpus.Store.{holds}
use photesthesis.Grammar.Cycling.{is_empty}
use photesthesis.Test.{Outside, Test, Ended, TestError, assertion, pure}
use photesthesis.Test.Expand.{
  Trajectories, maybe_expand, run_plan_and_maybe_expand_corpus, catch_reject,
}
use photesthesis.Test.Outcomes.{Post, Never, is_done, is_rejected, is_raised}
use photesthesis.Test.Observations.{FitsMask}
use photesthesis.Test.Stability.{
  is_run_error, IsPassed, IsStable, Fails, run_plan_and_stabilize-Post,
}
use photesthesis.Test.Tracking.{Tracks, Improves, Improves-refl}
use photesthesis.Test.Placing.{Placed, Blocks, maybe_expand-Post}

module _ {W Gen : Type 0} (o : Outside W Gen) (name : Symbol) where
  -- The mask fits, and the corpus and the trajectories agree.
  abbrev pub IsReady : Trajectories → Test W Gen → Type 0
  IsReady trajs t = FitsMask o t × Tracks name t.corp trajs

  -- The call returned: nothing that was kept is lost.
  abbrev pub Expanded : Trajectories → Bool × Trajectories → Test W Gen → Type 0
  Expanded trajs out u = IsReady out.1 u × Improves trajs out.1

  -- The call threw: an exception of the run, or the assertion of `replaceTranscript`.
  abbrev pub Halted : Trajectories → TestError → Test W Gen → Type 0
  Halted trajs e u = ((is_run_error e ≡ true) ⊎ (e ≡ assertion)) × IsReady trajs u

  same_mask : (t u : Test W Gen) → u.stability_mask ≡ t.stability_mask → FitsMask o t → FitsMask o u
  same_mask t u e fits = subst (λ m. is_empty m || (length m == o.cov_len) ≡ true) (path_sym e) fits

  placed_lem :
      (trajs : Trajectories) (t : Test W Gen) (is_held : Bool)
      {x : Ended (Bool × Trajectories) × Test W Gen}
      → FitsMask o t
      → Post (Placed name trajs t is_held) Never (Blocks name trajs t is_held) x
      → Post (Expanded trajs) Never (Halted trajs) x
  placed_lem trajs t is_held fits (is_done {t = u} (mask, tracks, better, _, _, _)) =
      is_done ((same_mask t u mask fits, tracks), better)
  placed_lem trajs t is_held fits (is_rejected p) = is_rejected p
  placed_lem trajs t is_held fits (is_raised {t = u} (mask, e, tracks, _, _)) =
      is_raised (inr e, (same_mask t u mask fits, tracks))

module _ {W Gen : Type 0} (o : Outside W Gen) where
  caught-Post :
      (plan : Plan) (trajs : Trajectories) (c : Corpus) {x : Ended (Unit {0}) × Test W Gen}
      → Tracks plan.test_name c trajs
      → Post (λ _. IsStable o c plan) (IsPassed o c plan) (Fails o c) x
      → Post
          (Expanded o plan.test_name trajs)
          Never
          (Halted o plan.test_name trajs)
          (catch_reject x (pure (false, trajs)) (λ _. maybe_expand plan.test_name trajs))
  caught-Post plan trajs c tracks (is_done {t = u} stable) =
      let fit = stable.0.0 in
      placed_lem o plan.test_name trajs u (holds u.corp u.transcript) fit.0 (
        maybe_expand-Post plan.test_name trajs u
          (subst (λ k. Tracks plan.test_name k trajs) (path_sym fit.1) tracks)
          (ap (λ p. p.test_name) stable.0.1))
  caught-Post plan trajs c tracks (is_rejected (fit, same_plan)) = is_done (
    (fit.0, subst (λ k. Tracks plan.test_name k trajs) (path_sym fit.1) tracks),
    Improves-refl trajs,
  )
  caught-Post plan trajs c tracks (is_raised (e, fit)) =
      is_raised (inl e, (fit.0, subst (λ k. Tracks plan.test_name k trajs) (path_sym fit.1) tracks))

  -- From an object whose mask fits and whose corpus and trajectories agree,
  -- `runPlanAndMaybeExpandCorpus` leaves it so, catches `RejectPlan`, and loses no kept
  -- transcript but one that is not manual, to a smaller one. If it throws, it is an exception of
  -- the run or the assertion of `replaceTranscript`, and the object is as described too.
  pub run_plan_and_maybe_expand_corpus-Post :
      (plan : Plan) (trajs : Trajectories) (t : Test W Gen)
      → IsReady o plan.test_name trajs t
      → Post
          (Expanded o plan.test_name trajs)
          Never
          (Halted o plan.test_name trajs)
          (run_plan_and_maybe_expand_corpus o plan trajs t)
  unfolding run_plan_and_maybe_expand_corpus
  run_plan_and_maybe_expand_corpus-Post plan trajs t ready =
      caught-Post plan trajs t.corp ready.1
        (run_plan_and_stabilize-Post o t.corp plan t (ready.0, refl))
