-- ===== src/Test/Observations.antt =====
-- What `runPlan` leaves, in terms of the calls that the user's `run` made.
use photesthesis.Shared.{
  ℕ, ◌≡◌, refl, ◌∙◌, ap, sym as path_sym, Bool, true, false, not, ◌||◌, List, [], ◌∷◌, ◌++◌,
  append_assoc, append-nil, arith, Bool-cases, inl, inr, any_of, if◌then◌else◌, length, ◌==◌,
  ==_iff, length-replicate, replicate, codes,
}
use photesthesis.Symbol.{Bytes}
use photesthesis.Value.{Value, value_eq}
use photesthesis.Plan.{Plan, Hasher, add_key_value_to_hash}
use photesthesis.Transcript.{Var, new_transcript}
use photesthesis.Text.Printer.{print_value}
use photesthesis.Grammar.Cycling.{is_empty}
use photesthesis.Test.{
  Action, invariant, trace, check, track, Ending, returns, rejects, raises, Ran, Outside, Test,
  Ended, done, rejected, raised, run_raised, continue,
}
use photesthesis.Test.Counters.{simplify, simplify_masked}
use photesthesis.Test.Run.{
  act, act_all, bytes_of, finish_run, run_plan, run_user, init_trajectory, init_path_trajectory,
  init_user_trajectory, fini_trajectory, fini_path_trajectory, fini_user_trajectory,
  join_trajectories,
}

-- An invariant that does not hold.
abbrev pub is_broken : Action → Bool
is_broken (invariant vn expected got) = not (value_eq expected got)
is_broken _ = false

-- The variables that the calls record, in order.
abbrev pub observed : List Action → List Var
observed [] = []
observed (invariant _ _ _ ∷ rest) = observed rest
observed (trace _ _ ∷ rest) = observed rest
observed (check vn v ∷ rest) = (vn, (v, false)) ∷ observed rest
observed (track vn v ∷ rest) = (vn, (v, true)) ∷ observed rest

abbrev entry_text : Bytes → Value → Bytes
entry_text vn v = vn ++ (codes "=" ++ (print_value false v).0)

-- The text that the calls trace: `name=value` for each, without a separator.
abbrev pub traced : List Action → Bytes
traced [] = []
traced (invariant _ _ _ ∷ rest) = traced rest
traced (trace vn v ∷ rest) = entry_text vn v ++ traced rest
traced (check _ _ ∷ rest) = traced rest
traced (track vn v ∷ rest) = entry_text vn v ++ traced rest

add_key_value_to_hash_lem :
    (h : Hasher) (vn : Bytes) (v : Value) → add_key_value_to_hash h vn v ≡ h ++ entry_text vn v
unfolding add_key_value_to_hash
add_key_value_to_hash_lem h vn v =
    append_assoc (h ++ vn) (codes "=") (print_value false v).0
    ∙ append_assoc h vn (codes "=" ++ (print_value false v).0)

length-replicate-== : (n x : ℕ) → (length (replicate n x) == n) ≡ true
length-replicate-== n x = (==_iff (length (replicate n x)) n).1 (length-replicate n x)

module _ {W Gen : Type 0} where
  -- The object with what the calls change.
  abbrev observing : Bool → Hasher → List Var → Test W Gen → Test W Gen
  observing failed hasher vars t = record t {
    failed = failed;
    user_hasher = hasher;
    transcript = record { plan = t.transcript.plan; vars = vars };
  }

  observing-eq :
      (f f' : Bool) (h h' : Hasher) (v v' : List Var) (t : Test W Gen)
      → f ≡ f'
      → h ≡ h'
      → v ≡ v'
      → observing f h v t ≡ observing f' h' v' t
  observing-eq f f' h h' v v' t p q r = λ i. observing (p i) (q i) (r i) t

  abbrev pub with_actions : List Action → Test W Gen → Test W Gen
  with_actions actions t =
      observing (t.failed || any_of is_broken actions) (t.user_hasher ++ traced actions)
        (t.transcript.vars ++ observed actions) t

  traced_step :
      (t : Test W Gen) (vn : Bytes) (v : Value) (rest : List Action)
      → add_key_value_to_hash t.user_hasher vn v ++ traced rest
        ≡ t.user_hasher ++ (entry_text vn v ++ traced rest)
  traced_step t vn v rest =
      ap (λ h. h ++ traced rest) (add_key_value_to_hash_lem t.user_hasher vn v)
      ∙ append_assoc t.user_hasher (entry_text vn v) (traced rest)

  broken_step :
      (b : Bool) (rest : List Action) (t : Test W Gen)
      → with_actions rest (if not b then record t { failed = true } else t)
        ≡ observing
            (t.failed || (not b || any_of is_broken rest))
            (t.user_hasher ++ traced rest)
            (t.transcript.vars ++ observed rest)
            t
  broken_step true rest t = refl
  broken_step false rest t = observing-eq _ _ _ _ _ _ t (ground arith) refl refl

  act-with_actions :
      (a : Action) (rest : List Action) (t : Test W Gen)
      → with_actions rest (act a t) ≡ with_actions (a ∷ rest) t
  unfolding act
  act-with_actions (invariant vn x y) rest t = broken_step (value_eq x y) rest t
  act-with_actions (trace vn v) rest t =
      observing-eq _ _ _ _ _ _ t refl (traced_step t vn v rest) refl
  act-with_actions (check vn v) rest t =
      observing-eq _ _ _ _ _ _ t refl refl (append_assoc t.transcript.vars _ (observed rest))
  act-with_actions (track vn v) rest t =
      observing-eq _ _ _ _ _ _ t refl (traced_step t vn v rest)
        (append_assoc t.transcript.vars _ (observed rest))

  act_all-with_actions :
      (actions : List Action) (t : Test W Gen) → act_all actions t ≡ with_actions actions t
  unfolding act_all
  act_all-with_actions [] t =
      observing-eq _ _ _ _ _ _ t (ground arith) (path_sym (append-nil t.user_hasher))
        (path_sym (append-nil t.transcript.vars))
  act_all-with_actions (a ∷ rest) t =
      act_all-with_actions rest (act a t) ∙ act-with_actions a rest t

  module _ (o : Outside W Gen) where
    -- The object when `run` has ended.
    abbrev pub ran_state : Plan → Ran → W → Test W Gen → Test W Gen
    ran_state plan ran world t = record t {
      world = world;
      failed = any_of is_broken ran.actions;
      user_hasher = traced ran.actions;
      counters = if o.cov_len == 0 then t.counters else replicate o.cov_len 0;
      path_trajectory = 0;
      user_trajectory = 0;
      transcript = record { plan = plan; vars = observed ran.actions };
    }

    -- The counters as they are hashed.
    abbrev pub simple_counters : Ran → Test W Gen → List ℕ
    simple_counters ran t =
        if is_empty t.stability_mask
        then simplify ran.edge_counters
        else simplify_masked ran.edge_counters t.stability_mask

    abbrev pub path_of : Ran → Test W Gen → ℕ
    path_of ran t = if o.cov_len == 0 then 0 else o.hash (simple_counters ran t)

    -- The object when the run has returned.
    abbrev pub finished_state : Plan → Ran → W → Test W Gen → Test W Gen
    finished_state plan ran world t = record (ran_state plan ran world t) {
      counters = if o.cov_len == 0 then t.counters else simple_counters ran t;
      path_trajectory = path_of ran t;
      user_trajectory = o.hash (traced ran.actions);
      trajectory = o.hash (bytes_of 8 (path_of ran t) ++ bytes_of 8 (o.hash (traced ran.actions)));
    }

    -- The outcome, by how `run` ended.
    abbrev pub outcome : Ending → Plan → Ran → W → Test W Gen → Ended (Unit {0}) × Test W Gen
    outcome returns plan ran world t = (done tt, finished_state plan ran world t)
    outcome rejects plan ran world t = (rejected, ran_state plan ran world t)
    outcome raises plan ran world t = (raised run_raised, ran_state plan ran world t)

    -- The mask is as long as there are counters, if there is one.
    abbrev pub FitsMask : Test W Gen → Type 0
    FitsMask t = is_empty t.stability_mask || (length t.stability_mask == o.cov_len) ≡ true

    -- The object when `run` begins.
    abbrev started_state : Plan → Test W Gen → Test W Gen
    started_state plan t = record t {
      failed = false;
      user_hasher = [];
      counters = if o.cov_len == 0 then t.counters else replicate o.cov_len 0;
      path_trajectory = 0;
      user_trajectory = 0;
      transcript = record { plan = plan; vars = [] };
    }

    init_trajectory_lem :
        (plan : Plan) (t : Test W Gen)
        → init_trajectory o (record t { failed = false; transcript = new_transcript plan })
          ≡ started_state plan t
    unfolding init_trajectory init_path_trajectory init_user_trajectory
    init_trajectory_lem plan t = elim (Bool-cases (o.cov_len == 0)) [ inl z ↦ rw z | inr z ↦ rw z ]

    run_user_lem :
        (plan : Plan) (t : Test W Gen)
        → let ran = (o.run t.world plan).0 in
          run_user o plan (started_state plan t)
          ≡ (done ran, ran_state plan ran (o.run t.world plan).1 t)
    unfolding run_user
    run_user_lem plan t =
        let ran = (o.run t.world plan).0 in
        let start = record (started_state plan t) { world = (o.run t.world plan).1 } in
        ap (λ u. (done ran, u)) (act_all-with_actions ran.actions start)

    path_lem :
        (plan : Plan) (ran : Ran) (world : W) (t : Test W Gen)
        → FitsMask t
        → fini_path_trajectory o ran.edge_counters (ran_state plan ran world t) ≡ (
          done tt,
          record (ran_state plan ran world t) {
            counters = if o.cov_len == 0 then t.counters else simple_counters ran t;
            path_trajectory = path_of ran t;
          },
        )
    unfolding fini_path_trajectory
    path_lem plan ran world t fits = elim (Bool-cases (o.cov_len == 0)) [
      | inl z ↦ rw (fits, z)
      | inr z ↦ rw (fits, z, length-replicate-==)
    ]

    finish_lem :
        (ending : Ending) (plan : Plan) (ran : Ran) (world : W) (t : Test W Gen)
        → FitsMask t
        → finish_run o ending ran.edge_counters (ran_state plan ran world t)
          ≡ outcome ending plan ran world t
    unfolding fini_trajectory fini_user_trajectory join_trajectories
    finish_lem returns plan ran world t fits = rw (path_lem plan ran world t fits)
    finish_lem rejects plan ran world t fits = refl
    finish_lem raises plan ran world t fits = refl

    abbrev finish_ran : Ended Ran × Test W Gen → Ended (Unit {0}) × Test W Gen
    finish_ran out = continue out (λ r. finish_run o r.ending r.edge_counters)

    -- Where the mask is as long as there are counters, if there is one, `runPlan` does what its
    -- description says: it throws if `run` throws, and else returns; it has failed exactly if an
    -- invariant did not hold; the transcript has the plan and the variables checked and tracked,
    -- in order; the user trajectory is the hash of the texts traced and tracked; the path
    -- trajectory is the hash of the counters by class and mask, and 0 without counters; and the
    -- trajectory is the hash of both.
    pub run_plan_lem :
        (plan : Plan) (t : Test W Gen)
        → FitsMask t
        → let ran = (o.run t.world plan).0 in
          run_plan o plan t ≡ outcome ran.ending plan ran (o.run t.world plan).1 t
    unfolding run_plan
    run_plan_lem plan t fits =
        let ran = (o.run t.world plan).0 in
        ap (λ u. finish_ran (run_user o plan u)) (init_trajectory_lem plan t)
        ∙ ap finish_ran (run_user_lem plan t)
        ∙ finish_lem ran.ending plan ran (o.run t.world plan).1 t fits
