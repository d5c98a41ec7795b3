-- ===== src/Test/Loops.antt =====
-- The loops that expand a corpus: over random plans, and over the plans of the k-path coverings.
use photesthesis.Shared.{
  ℕ, zero, suc, ◌≤◌, arith, length, ◌+◌, ◌-◌, ◌≡◌, refl, sym as path_sym, subst, Bool, true, false,
  List, [], ◌∷◌, Option, none, some, All, inl, inr,
}
use photesthesis.Symbol.{Symbol}
use photesthesis.Plan.{Plan, ParamSpecs, get_param_specs}
use photesthesis.Corpus.Invariant.{IsValid}
use photesthesis.Grammar.{Result, ok, error}
use photesthesis.Grammar.Random.{pick_uniform}
use photesthesis.Grammar.Progress.{IsUniform}
use photesthesis.Grammar.Naming.{
  IfOk, HasName, randomly_populate_plan-HasName, populate_plans-HaveName,
}
use photesthesis.Test.{
  Outside, Test, Ended, TestError, run_raised, unstable_user, unable_to_stabilize, assertion,
  undefined, empty_pick, grammar_error, out_of_fuel, no_head_symbol,
}
use photesthesis.Test.Expand.{
  Trajectories, Failures, run_plan_and_maybe_expand_corpus, advance, lift, or_raise, try_plan,
  pick_uniform_entry, choose_spec, random_plan, random_steps, try_plans, try_lengths, try_specs,
}
use photesthesis.Test.Outcomes.{
  Post, Never, is_done, is_rejected, is_raised, continue-Post, Post-imp,
}
use photesthesis.Test.Stability.{is_run_error}
use photesthesis.Test.Tracking.{Improves, Improves-refl, Improves-trans}
use photesthesis.Test.Expansion.{IsReady, Expanded, Halted, run_plan_and_maybe_expand_corpus-Post}

-- The exceptions of the code: no step that is undefined, and fuel enough.
abbrev pub is_expected : TestError → Bool
is_expected undefined = false
is_expected empty_pick = false
is_expected out_of_fuel = false
is_expected _ = true

pub run_error_expected : (e : TestError) → is_run_error e ≡ true → is_expected e ≡ true
run_error_expected run_raised h = refl
run_error_expected unstable_user h = refl
run_error_expected unable_to_stabilize h = refl
run_error_expected assertion h = refl
run_error_expected undefined h = h
run_error_expected no_head_symbol h = refl
run_error_expected empty_pick h = h
run_error_expected (grammar_error e) h = refl
run_error_expected out_of_fuel h = h

advance-Some :
    {A : Type 0} (n : ℕ) (x : A) (xs : List A)
    → n ≤ length xs
    → (a : A) × (advance n (x ∷ xs) ≡ some a)
unfolding advance
advance-Some zero x xs h = (x, refl)
advance-Some (suc n) x [] h = absurd (omega (arith, h))
advance-Some (suc n) x (y ∷ xs) h = advance-Some n y xs (omega (arith, h))

module _ {W Gen : Type 0} (o : Outside W Gen) (name : Symbol) where
  -- What a loop leaves, having started with `trajs`.
  abbrev pub Found : Trajectories → Failures × Trajectories → Test W Gen → Type 0
  Found trajs out u = IsReady o name out.1 u × Improves trajs out.1

  -- An exception leaves a valid corpus.
  abbrev pub Stopped : TestError → Test W Gen → Type 0
  Stopped e u = (is_expected e ≡ true) × IsValid u.corp

  lift-Post :
      {A : Type 0} (P : A → Type 0) (trajs : Trajectories) (t : Test W Gen) (r : Result A)
      → IfOk P r
      → IsReady o name trajs t
      → Post (λ a u. P a × (u ≡ t)) Never Stopped (lift r t)
  lift-Post P trajs t (ok a) h ready = is_done (h, refl)
  lift-Post P trajs t (error e) h ready = is_raised (refl, ready.1.valid)

  or_raise-Post :
      {A : Type 0} (trajs : Trajectories) (t : Test W Gen) (e : TestError) (r : Option A)
      → is_expected e ≡ true
      → IsReady o name trajs t
      → Post (λ a u. u ≡ t) Never Stopped (or_raise e r t)
  or_raise-Post trajs t e (some a) h ready = is_done refl
  or_raise-Post trajs t e none h ready = is_raised (h, ready.1.valid)

  step-Post :
      (trajs : Trajectories) {x : Ended (Bool × Trajectories) × Test W Gen}
      → Post (Expanded o name trajs) Never (Halted o name trajs) x
      → Post (Expanded o name trajs) Never Stopped x
  step-Post trajs (is_done p) = is_done p
  step-Post trajs (is_rejected p) = is_rejected p
  step-Post trajs (is_raised {e = e} (inl q, ready)) =
      is_raised (run_error_expected e q, ready.1.valid)
  step-Post trajs (is_raised (inr q, ready)) =
      is_raised (subst (λ e. is_expected e ≡ true) (path_sym q) refl, ready.1.valid)

  try_plan-Post :
      (plan : Plan) (found : Failures × Trajectories) (t : Test W Gen)
      → HasName name plan
      → IsReady o name found.1 t
      → Post (Found found.1) Never Stopped (try_plan o plan found t)
  unfolding try_plan
  try_plan-Post plan (failures, trajs) t named ready =
      continue-Post
        (step-Post trajs (
          subst
            (λ n.
              Post (Expanded o n trajs) Never (Halted o n trajs)
                (run_plan_and_maybe_expand_corpus o plan trajs t))
            named
            (run_plan_and_maybe_expand_corpus-Post o plan trajs t
              (subst (λ n. IsReady o n trajs t) (path_sym named) ready))))
        λ out u p. is_done p

  random_plan-Post :
      (trajs : Trajectories) (depth : ℕ) (spec : ParamSpecs) (t : Test W Gen)
      → IsReady o name trajs t
      → Post
          (λ plan u. HasName name plan × IsReady o name trajs u)
          Never
          Stopped
          (random_plan o name depth spec t)
  unfolding random_plan
  random_plan-Post trajs depth spec t ready =
      continue-Post
        (lift-Post (λ made. HasName name made.0) trajs t _
          (randomly_populate_plan-HasName o.uniform t.gram name spec t.gen depth) ready)
        λ made u (named, same). is_done (named, subst (IsReady o name trajs) (path_sym same) ready)

  any-IfOk : {A : Type 0} (r : Result A) → IfOk (λ _. Unit) r
  any-IfOk (ok a) = tt
  any-IfOk (error e) = tt

  next-Post :
      (trajs next : Trajectories) {x : Ended (Failures × Trajectories) × Test W Gen}
      → Improves trajs next
      → Post (Found next) Never Stopped x
      → Post (Found trajs) Never Stopped x
  next-Post trajs next better p =
      Post-imp p λ out u (ready, further). (ready, Improves-trans trajs next out.1 better further)

  choose_spec-Post :
      IsUniform o.uniform
      → (trajs : Trajectories) (t : Test W Gen) → IsReady o name trajs t
      → Post (λ _ u. IsReady o name trajs u) Never Stopped (choose_spec o trajs t)
  unfolding choose_spec pick_uniform_entry
  choose_spec-Post u [] t ready =
      continue-Post
        (lift-Post (λ _. Unit) [] t (pick_uniform o.uniform t.gen t.seed_specs) (any-IfOk _) ready)
        λ picked v (_, same). is_done (subst (IsReady o name []) (path_sym same) ready)
  choose_spec-Post u (e ∷ es) t ready =
      let drawn = o.uniform (length es) t.gen in
      let (a, found) = advance-Some drawn.0 e es (u (length es) t.gen) in
      rw found (
        Post-imp
          (or_raise-Post (e ∷ es) (record t { gen = drawn.1 }) no_head_symbol
            (get_param_specs a.1.plan) refl ready)
          λ spec v same. subst (IsReady o name (e ∷ es)) (path_sym same) ready)

  -- Where the generator draws in range, any number of rounds of `randomlyExpandCorpus`, from an
  -- object whose mask fits and whose corpus and trajectories agree, leaves it so, and loses no
  -- kept transcript but one that is not manual, to a smaller one. If a round throws, no iterator
  -- went out of range, and the corpus is valid.
  pub random_steps-Post :
      IsUniform o.uniform
      → (n depth : ℕ) (found : Failures × Trajectories) (t : Test W Gen) → IsReady o name found.1 t
      → Post (Found found.1) Never Stopped (random_steps o n name depth found t)
  unfolding random_steps
  random_steps-Post u zero depth found t ready = is_done (ready, Improves-refl found.1)
  random_steps-Post u (suc n) depth found t ready =
      continue-Post (choose_spec-Post u found.1 t ready) λ spec t₁ ready₁.
        continue-Post (random_plan-Post found.1 depth spec t₁ ready₁) λ plan t₂ (named, ready₂).
          continue-Post (try_plan-Post plan found t₂ named ready₂) λ next t₃ (ready₃, better).
            next-Post found.1 next.1 better (random_steps-Post u n depth next t₃ ready₃)

  try_plans-Post :
      (plans : List Plan) (found : Failures × Trajectories) (t : Test W Gen)
      → All (HasName name) plans
      → IsReady o name found.1 t
      → Post (Found found.1) Never Stopped (try_plans o plans found t)
  unfolding try_plans
  try_plans-Post [] found t named ready = is_done (ready, Improves-refl found.1)
  try_plans-Post (plan ∷ plans) found t named ready =
      continue-Post (or_raise-Post found.1 t no_head_symbol (get_param_specs plan) refl ready)
        λ specs t₁ same.
          continue-Post
            (try_plan-Post plan found t₁ named.0
              (subst (IsReady o name found.1) (path_sym same) ready))
            λ next t₂ (ready₂, better).
              next-Post found.1 next.1 better (try_plans-Post plans next t₂ named.1 ready₂)

  try_lengths-Post :
      (n k fuel : ℕ) (spec : ParamSpecs) (found : Failures × Trajectories) (t : Test W Gen)
      → IsReady o name found.1 t
      → Post (Found found.1) Never Stopped (try_lengths o n k fuel name spec found t)
  unfolding try_lengths
  try_lengths-Post zero k fuel spec found t ready = is_done (ready, Improves-refl found.1)
  try_lengths-Post (suc n) k fuel spec found t ready =
      continue-Post
        (lift-Post (All (HasName name)) found.1 t _
          (populate_plans-HaveName t.gram fuel name spec k) ready)
        λ plans t₁ (named, same).
          continue-Post
            (try_plans-Post plans found t₁ named
              (subst (IsReady o name found.1) (path_sym same) ready))
            λ next t₂ (ready₂, better).
              next-Post found.1 next.1 better (try_lengths-Post n (k + 1) fuel spec next t₂ ready₂)

  -- The loops of `initializeCorpusFromKPaths`, from an object whose mask fits and whose corpus
  -- and trajectories agree, leave it so, and lose no kept transcript but one that is not manual,
  -- to a smaller one. If they throw, the corpus is valid.
  pub try_specs-Post :
      (k_path_length fuel : ℕ) (specs : List ParamSpecs) (found : Failures × Trajectories)
      (t : Test W Gen)
      → IsReady o name found.1 t
      → Post (Found found.1) Never Stopped (try_specs o k_path_length fuel name specs found t)
  unfolding try_specs
  try_specs-Post k_path_length fuel [] found t ready = is_done (ready, Improves-refl found.1)
  try_specs-Post k_path_length fuel (spec ∷ specs) found t ready =
      continue-Post (try_lengths-Post (k_path_length - 2) 2 fuel spec found t ready)
        λ next t₁ (ready₁, better).
          next-Post found.1 next.1 better (try_specs-Post k_path_length fuel specs next t₁ ready₁)
