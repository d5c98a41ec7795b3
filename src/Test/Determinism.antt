-- ===== src/Test/Determinism.antt =====
-- `runPlanAndStabilize` where the user's `run` does the same for a plan every time.
use photesthesis.Shared.{ℕ, ◌≡◌, refl, ◌∙◌, ap, true, ◌==◌, ==_iff}
use photesthesis.Plan.{Plan}
use photesthesis.Test.{returns, Ran, Outside, Test, done}
use photesthesis.Test.Run.{run_plan}
use photesthesis.Test.Stabilize.{run_plan_and_stabilize}
use photesthesis.Test.Observations.{
  FitsMask, traced, path_of, finished_state, outcome, run_plan_lem,
}

same_number : (n : ℕ) → (n == n) ≡ true
same_number n = (==_iff n n).1 refl

module _ {W Gen : Type 0} (o : Outside W Gen) (plan : Plan) (ran : Ran) where
  -- Every run of the plan makes the same calls, returns, and leaves the same counters.
  abbrev pub IsSteady : Type 0
  IsSteady = (w : W) → ((o.run w plan).0 ≡ ran) × (ran.ending ≡ returns)

  -- The object after a run.
  abbrev pub steady_state : Test W Gen → Test W Gen
  steady_state t = finished_state o plan ran (o.run t.world plan).1 t

  steady_run :
      IsSteady → (t : Test W Gen) → FitsMask o t → run_plan o plan t ≡ (done tt, steady_state t)
  steady_run steady t fits =
      let w = (o.run t.world plan).1 in
      run_plan_lem o plan t fits
      ∙ ap (λ r. outcome o r.ending plan r w t) (steady t.world).0
      ∙ ap (λ e. outcome o e plan ran w t) (steady t.world).1

  -- Where the mask fits and every run of the plan makes the same calls, returns, and leaves the
  -- same counters, `runPlanAndStabilize` returns after two runs, without a change to the mask.
  pub run_plan_and_stabilize-Steady :
      (t : Test W Gen)
      → FitsMask o t
      → IsSteady
      → run_plan_and_stabilize o plan t ≡ (done tt, steady_state (steady_state t))
  unfolding run_plan_and_stabilize
  run_plan_and_stabilize-Steady t fits steady = rw (
    steady_run steady t fits,
    steady_run steady (steady_state t) fits,
    same_number (o.hash (traced ran.actions)),
    same_number (path_of o ran t),
  )
