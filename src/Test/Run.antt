-- ===== src/Test/Run.antt =====
-- `runPlan` of src/test.cpp with what it calls: the start and the end of a trajectory, and the
-- observations that a user's `run` makes.
use photesthesis.Shared.{
  ℕ, zero, suc, ◌/◌, ◌%◌, true, false, not, List, [], ◌∷◌, ◌++◌, ◌||◌, if◌then◌else◌, length,
  replicate, ◌==◌,
}
use photesthesis.Symbol.{Bytes}
use photesthesis.Value.{value_eq}
use photesthesis.Plan.{Plan, add_key_value_to_hash}
use photesthesis.Transcript.{new_transcript, add_checked_var, add_tracked_var}
use photesthesis.Grammar.Cycling.{is_empty}
use photesthesis.Test.{
  Action, invariant, trace, check, track, Ending, returns, rejects, raises, Ran, Outside, Test,
  done, rejected, raised, run_raised, assertion, M, ◌>>=◌, ◌>>◌, modify,
}
use photesthesis.Test.Counters.{simplify, simplify_masked}

-- The bytes of a `uint64_t` in memory, the low one first.
unfoldable pub bytes_of : ℕ → ℕ → Bytes
bytes_of zero n = []
bytes_of (suc k) n = n % 256 ∷ bytes_of k (n / 256)

module _ {W Gen : Type 0} where
  -- One call of `invariant`, `trace`, `check` or `track`.
  unfoldable pub act : Action → Test W Gen → Test W Gen
  unfolding add_key_value_to_hash add_checked_var add_tracked_var
  act (invariant vn expected got) t =
      if not (value_eq expected got) then record t { failed = true } else t
  act (trace vn seen) t = record t { user_hasher = add_key_value_to_hash t.user_hasher vn seen }
  act (check vn seen) t = record t { transcript = add_checked_var t.transcript vn seen }
  act (track vn seen) t = record t {
    user_hasher = add_key_value_to_hash t.user_hasher vn seen;
    transcript = add_tracked_var t.transcript vn seen;
  }

  unfoldable pub act_all : List Action → Test W Gen → Test W Gen
  unfolding act
  act_all [] t = t
  act_all (a ∷ as') t = act_all as' (act a t)

  module _ (o : Outside W Gen) where
    unfoldable pub init_path_trajectory : Test W Gen → Test W Gen
    init_path_trajectory t =
        if o.cov_len == 0
        then record t { path_trajectory = 0 }
        else record t { path_trajectory = 0; counters = replicate o.cov_len 0 }

    unfoldable pub init_user_trajectory : Test W Gen → Test W Gen
    init_user_trajectory t = record t { user_trajectory = 0; user_hasher = [] }

    unfoldable pub init_trajectory : Test W Gen → Test W Gen
    unfolding init_path_trajectory init_user_trajectory
    init_trajectory t = init_user_trajectory (init_path_trajectory t)

    -- The counters are copied, simplified, masked if there is a mask, and hashed. Without counters
    -- there is nothing to do but the assertion on the mask.
    unfoldable pub fini_path_trajectory : List ℕ → M W Gen (Unit {0})
    unfolding simplify simplify_masked
    fini_path_trajectory edges t =
        let simple =
          if is_empty t.stability_mask
          then simplify edges
          else simplify_masked edges t.stability_mask in
        if not (is_empty t.stability_mask || (length t.stability_mask == o.cov_len))
        then (raised assertion, t)
        else if o.cov_len == 0
        then (done tt, t)
        else if not (length t.counters == o.cov_len)
        then (raised assertion, t)
        else (done tt, record t { counters = simple; path_trajectory = o.hash simple })

    unfoldable pub fini_user_trajectory : Test W Gen → Test W Gen
    fini_user_trajectory t = record t { user_trajectory = o.hash t.user_hasher }

    unfoldable pub join_trajectories : Test W Gen → Test W Gen
    unfolding bytes_of
    join_trajectories t = record t {
      trajectory = o.hash (bytes_of 8 t.path_trajectory ++ bytes_of 8 t.user_trajectory);
    }

    unfoldable pub fini_trajectory : List ℕ → M W Gen (Unit {0})
    unfolding fini_path_trajectory fini_user_trajectory join_trajectories
    fini_trajectory edges = do
      fini_path_trajectory edges
      modify (λ t. join_trajectories (fini_user_trajectory t))

    abbrev pub finish_run : Ending → List ℕ → M W Gen (Unit {0})
    finish_run returns edges = fini_trajectory edges
    finish_run rejects edges = λ t. (rejected, t)
    finish_run raises edges = λ t. (raised run_raised, t)

    -- `run()` on the object.
    unfoldable pub run_user : Plan → M W Gen Ran
    unfolding act_all
    run_user plan t =
        let (ran, world) = o.run t.world plan in
        (done ran, act_all ran.actions (record t { world = world }))

    unfoldable pub run_plan : Plan → M W Gen (Unit {0})
    unfolding init_trajectory run_user fini_trajectory
    run_plan plan = do
      modify (λ t. init_trajectory (record t { failed = false; transcript = new_transcript plan }))
      ran ← run_user plan
      finish_run ran.ending ran.edge_counters
