-- ===== src/Test/Stabilize.antt =====
-- `runPlanAndStabilize` of src/test.cpp: the counters that differ from run to run are masked.
use photesthesis.Shared.{
  ℕ, zero, suc, Bool, true, false, not, List, ◌∷◌, none, some, if◌then◌else◌, replicate, ◌==◌,
  codes,
}
use photesthesis.Symbol.{Bytes}
use photesthesis.Plan.{Plan}
use photesthesis.Grammar.Cycling.{is_empty}
use photesthesis.Test.{
  Outside, Test, unstable_user, unable_to_stabilize, out_of_fuel, M, ◌>>=◌, ◌>>◌, pure, raise, get,
  modify, assert,
}
use photesthesis.Test.Run.{run_plan}

-- The loop over the counters: where two runs differ the mask becomes 0, and it is counted.
unfoldable pub mask_unstable : List ℕ → List ℕ → List ℕ → List ℕ × ℕ
mask_unstable (a ∷ saved) (b ∷ now) (m ∷ mask) =
    let rest = mask_unstable saved now mask in
    if m == 0
    then (m ∷ rest.0, rest.1)
    else if not (a == b)
    then (0 ∷ rest.0, suc rest.1)
    else (m ∷ rest.0, rest.1)
mask_unstable _ _ mask = (mask, 0)

-- `getEnvNum` on a number that has a default.
abbrev pub env_or : {W Gen : Type 0} → Outside W Gen → Bytes → ℕ → ℕ
env_or o name n = elim (o.env name) [ none ↦ n | some m ↦ m ]

module _ {W Gen : Type 0} (o : Outside W Gen) where
  -- A round of the inner loop, and how many counters it masked.
  unfoldable pub mask_round : Plan → M W Gen ℕ
  unfolding mask_unstable run_plan
  mask_round plan = do
    saved ← get
    run_plan o plan
    t ← get
    let masked = mask_unstable saved.counters t.counters t.stability_mask
    modify (λ u. record u { stability_mask = masked.0 })
    pure masked.1

  -- The inner loop, until a round masks nothing.
  unfoldable pub mask_loop : ℕ → Plan → M W Gen (Unit {0})
  unfolding mask_round
  mask_loop zero plan = raise out_of_fuel
  mask_loop (suc n) plan = mask_round plan >>= λ masked.
      let rest = mask_loop n plan in if masked == 0 then pure tt else rest

  -- The outer loop, on the attempts left.
  unfoldable pub attempt : ℕ → Plan → M W Gen (Unit {0})
  unfolding mask_loop
  attempt zero plan = raise unable_to_stabilize
  attempt (suc r) plan = mask_loop (suc o.cov_len) plan >>= λ _. get >>= λ saved.
      run_plan o plan >>= λ _. get >>= λ t.
      let rest = attempt r plan in
      if saved.path_trajectory == t.path_trajectory then pure tt else rest

  unfoldable pub start_mask : Test W Gen → Test W Gen
  start_mask t =
      if is_empty t.stability_mask then record t { stability_mask = replicate o.cov_len 255 } else t

  -- What follows the third run, which differed as well.
  unfoldable pub stabilize : Plan → M W Gen (Unit {0})
  unfolding start_mask attempt
  stabilize plan = do
    assert (not (o.cov_len == 0))
    modify start_mask
    attempt (env_or o (codes "PHOTESTHESIS_STABILITY_RETRIES") 0) plan

  -- What follows the second run, where the path trajectory is not as it was.
  unfoldable pub run_third : Plan → M W Gen (Unit {0})
  unfolding stabilize
  run_third plan = do
    saved ← get
    run_plan o plan
    t ← get
    if t.path_trajectory == saved.path_trajectory then pure tt else stabilize plan

  -- The two tests after the second run.
  abbrev pub compare_second : Bool → Bool → Plan → M W Gen (Unit {0})
  compare_second false path plan = raise unstable_user
  compare_second true true plan = pure tt
  compare_second true false plan = run_third plan

  unfoldable pub run_plan_and_stabilize : Plan → M W Gen (Unit {0})
  unfolding run_third
  run_plan_and_stabilize plan = do
    run_plan o plan
    saved ← get
    run_plan o plan
    t ← get
    compare_second (t.user_trajectory == saved.user_trajectory)
        (t.path_trajectory == saved.path_trajectory) plan
