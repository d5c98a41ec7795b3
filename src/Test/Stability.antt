-- ===== src/Test/Stability.antt =====
-- `runPlanAndStabilize` ends: every round of its inner loop but the last masks a counter more.
use photesthesis.Shared.{
  ℕ, zero, suc, ◌+◌, ◌≤◌, ◌<◌, ◌≡◌, refl, ◌∙◌, ap, sym as path_sym, subst, Bool, true, false, List,
  [], ◌∷◌, arith, Bool-cases, inl, inr, if◌then◌else◌, length, ◌==◌, ==_iff, length-replicate,
}
use photesthesis.Plan.{Plan}
use photesthesis.Corpus.{Corpus}
use photesthesis.Grammar.Cycling.{is_empty}
use photesthesis.Test.{
  Ending, returns, rejects, raises, Ran, Outside, Test, Ended, done, TestError, run_raised,
  unstable_user, unable_to_stabilize,
}
use photesthesis.Test.Run.{run_plan}
use photesthesis.Test.Observations.{FitsMask, outcome, run_plan_lem}
use photesthesis.Test.Stabilize.{
  mask_unstable, mask_round, mask_loop, attempt, start_mask, stabilize, run_third, compare_second,
  run_plan_and_stabilize,
}
use photesthesis.Test.Outcomes.{Post, is_done, is_rejected, is_raised, continue-Post, Post-imp}

-- The counters that are not masked.
abbrev live : List ℕ → ℕ
live [] = 0
live (m ∷ mask) = if m == 0 then live mask else suc (live mask)

live-le : (mask : List ℕ) → live mask ≤ length mask
live-le [] = omega arith
live-le (m ∷ mask) = ground (arith, live-le mask)

mask_unstable-live :
    (saved now mask : List ℕ)
    → live (mask_unstable saved now mask).0 + (mask_unstable saved now mask).1 ≡ live mask
unfolding mask_unstable
mask_unstable-live (a ∷ saved) (b ∷ now) (m ∷ mask) =
    ground (arith, mask_unstable-live saved now mask)
mask_unstable-live [] now mask = omega arith
mask_unstable-live (a ∷ saved) [] mask = omega arith
mask_unstable-live (a ∷ saved) (b ∷ now) [] = omega arith

mask_unstable-length :
    (saved now mask : List ℕ) → length (mask_unstable saved now mask).0 ≡ length mask
unfolding mask_unstable
mask_unstable-length (a ∷ saved) (b ∷ now) (m ∷ mask) =
    ground (arith, mask_unstable-length saved now mask)
mask_unstable-length [] now mask = refl
mask_unstable-length (a ∷ saved) [] mask = refl
mask_unstable-length (a ∷ saved) (b ∷ now) [] = refl

-- A round that masks nothing leaves the mask as it was.
mask_unstable-same :
    (saved now mask : List ℕ)
    → (mask_unstable saved now mask).1 ≡ 0
    → (mask_unstable saved now mask).0 ≡ mask
unfolding mask_unstable
mask_unstable-same (a ∷ saved) (b ∷ now) (m ∷ mask) h =
    ground (arith, mask_unstable-same saved now mask)
mask_unstable-same [] now mask h = refl
mask_unstable-same (a ∷ saved) [] mask h = refl
mask_unstable-same (a ∷ saved) (b ∷ now) [] h = refl

-- The exceptions that `runPlanAndStabilize` has.
abbrev pub is_run_error : TestError → Bool
is_run_error run_raised = true
is_run_error unstable_user = true
is_run_error unable_to_stabilize = true
is_run_error _ = false

module _ {W Gen : Type 0} (o : Outside W Gen) (c : Corpus) where
  -- The corpus is `c`, and the mask is as long as there are counters, if there is one.
  abbrev pub IsFit : Test W Gen → Type 0
  IsFit t = FitsMask o t × (t.corp ≡ c)

  abbrev pub Fails : TestError → Test W Gen → Type 0
  Fails e t = (is_run_error e ≡ true) × IsFit t

  abbrev IsMasked : Test W Gen → Type 0
  IsMasked t = (length t.stability_mask ≡ o.cov_len) × (t.corp ≡ c)

  masked-IsFit : (t : Test W Gen) → IsMasked t → IsFit t
  masked-IsFit t (l, q) = (rw ((==_iff (length t.stability_mask) o.cov_len).1 l) (ground arith), q)

  module _ (plan : Plan) where
    -- The object that a run of the plan has left.
    abbrev pub IsLeft : Test W Gen → Type 0
    IsLeft t =
        IsFit t
        × (t.transcript.plan ≡ plan)
        × ((o.cov_len == 0) ≡ true → t.path_trajectory ≡ 0)
        × ((s : Test W Gen) × (run_plan o plan s ≡ (done tt, t)))

    -- That run had the path trajectory of a run before it.
    abbrev pub IsStable : Test W Gen → Type 0
    IsStable t =
        IsLeft t
        × ((s : Test W Gen) × IsLeft s
            × (run_plan o plan s ≡ (done tt, t))
            × (s.path_trajectory ≡ t.path_trajectory))

    -- The object that a rejected run of the plan has left.
    abbrev pub IsPassed : Test W Gen → Type 0
    IsPassed t = IsFit t × (t.transcript.plan ≡ plan)

    abbrev Next : Test W Gen → Ended (Unit {0}) × Test W Gen → Unit {0} → Test W Gen → Type 0
    Next t x r u =
        (u.stability_mask ≡ t.stability_mask)
        × IsFit u
        × (u.transcript.plan ≡ plan)
        × ((o.cov_len == 0) ≡ true → u.path_trajectory ≡ 0)
        × (x ≡ (done tt, u))

    outcome-Post :
        (ending : Ending) (ran : Ran) (world : W) (t : Test W Gen)
        → IsFit t
        → Post
            (Next t (outcome o ending plan ran world t))
            IsPassed
            Fails
            (outcome o ending plan ran world t)
    outcome-Post returns ran world t fit = is_done (refl, fit, refl, λ z. rw z refl, refl)
    outcome-Post rejects ran world t fit = is_rejected (fit, refl)
    outcome-Post raises ran world t fit = is_raised (refl, fit)

    run_plan-Post :
        (t : Test W Gen)
        → IsFit t
        → Post (Next t (run_plan o plan t)) IsPassed Fails (run_plan o plan t)
    run_plan-Post t fit =
        let ran = (o.run t.world plan).0 in
        subst (λ x. Post (Next t x) IsPassed Fails x) (path_sym (run_plan_lem o plan t fit.0))
          (outcome-Post ran.ending ran (o.run t.world plan).1 t fit)

    mask_round-Post :
        (t : Test W Gen)
        → IsMasked t
        → Post
            (λ n u.
              IsMasked u × (live u.stability_mask + n ≡ live t.stability_mask) × (n ≡ 0 → IsLeft u))
            IsPassed
            Fails
            (mask_round o plan t)
    unfolding mask_round
    mask_round-Post t masked =
        continue-Post (run_plan-Post t (masked-IsFit t masked)) λ _ u (same, fit, q, zeroed, from).
          let lives = mask_unstable-live t.counters u.counters u.stability_mask in
          let lengths = mask_unstable-length t.counters u.counters u.stability_mask in
          let unmasked = mask_unstable-same t.counters u.counters u.stability_mask in
          is_done (
            (lengths ∙ ap length same ∙ masked.0, fit.1),
            lives ∙ ap live same,
            λ none_masked.
                subst (λ mask. IsLeft (record u { stability_mask = mask }))
                  (path_sym (unmasked none_masked)) (fit, q, zeroed, (t, from)),
          )

    -- Enough fuel: more than there are live counters.
    mask_loop-Post :
        (n : ℕ) (t : Test W Gen)
        → IsMasked t
        → live t.stability_mask < n
        → Post (λ _ u. IsMasked u × IsLeft u) IsPassed Fails (mask_loop o n plan t)
    unfolding mask_loop
    mask_loop-Post zero t masked h = absurd (omega (arith, h))
    mask_loop-Post (suc n) t masked h =
        continue-Post (mask_round-Post t masked) λ k u (masked', lives, last).
          elim (Bool-cases (k == 0)) [
            | inl z ↦ rw z (is_done (masked', last ((==_iff k 0).0 z)))
            | inr z ↦ rw z (mask_loop-Post n u masked' (ground (arith, lives, h, z)))
          ]

    run_again-Post :
        (t : Test W Gen)
        → IsLeft t
        → Post
            (λ _ u.
              IsLeft u × (u.stability_mask ≡ t.stability_mask) × (run_plan o plan t ≡ (done tt, u)))
            IsPassed
            Fails
            (run_plan o plan t)
    run_again-Post t left =
        Post-imp (run_plan-Post t left.0)
          λ _ u (same, fit, q, zeroed, from). ((fit, q, zeroed, (t, from)), same, from)

    attempt-Post :
        (r : ℕ) (t : Test W Gen)
        → IsMasked t
        → Post (λ _. IsStable) IsPassed Fails (attempt o r plan t)
    unfolding attempt
    attempt-Post zero t masked = is_raised (refl, masked-IsFit t masked)
    attempt-Post (suc r) t masked =
        continue-Post
          (mask_loop-Post (suc o.cov_len) t masked
            (ground (arith, live-le t.stability_mask, masked.0)))
          λ _ s (masked', left). continue-Post (run_again-Post s left) λ _ u (left', same, from).
            elim (Bool-cases (s.path_trajectory == u.path_trajectory)) [
              | inl e ↦ rw e (is_done (left', (s, left, from, (==_iff _ _).0 e)))
              | inr e ↦ rw e (attempt-Post r u (ap length same ∙ masked'.0, left'.0.1))
            ]

    stabilize-Post :
        (t : Test W Gen)
        → IsFit t
        → (o.cov_len == 0) ≡ false
        → Post (λ _. IsStable) IsPassed Fails (stabilize o plan t)
    unfolding stabilize start_mask
    stabilize-Post t fit z = rw z (elim (Bool-cases (is_empty t.stability_mask)) [
      | inl e ↦ rw e (attempt-Post _ _ (length-replicate o.cov_len 255, fit.1))
      | inr e ↦ rw e (attempt-Post _ t ((==_iff _ _).0 (ground (arith, fit.0, e)), fit.1))
    ])

    counted :
        (t u : Test W Gen)
        → IsLeft t
        → IsLeft u
        → (u.path_trajectory == t.path_trajectory) ≡ false
        → (o.cov_len == 0) ≡ false
    counted t u left left' h = elim (Bool-cases (o.cov_len == 0)) [
      | inr z ↦ z
      | inl z ↦ absurd (ground (arith, left.2 z, left'.2 z, h))
    ]

    run_third-Post :
        (t : Test W Gen) → IsLeft t → Post (λ _. IsStable) IsPassed Fails (run_third o plan t)
    unfolding run_third
    run_third-Post t left = continue-Post (run_again-Post t left) λ _ u (left', same, from).
        elim (Bool-cases (u.path_trajectory == t.path_trajectory)) [
          | inl e ↦ rw e (is_done (left', (t, left, from, path_sym ((==_iff _ _).0 e))))
          | inr e ↦ rw e (stabilize-Post u left'.0 (counted t u left left' e))
        ]

    compare_second-Post :
        (user path : Bool) (t u : Test W Gen)
        → IsLeft t
        → IsLeft u
        → run_plan o plan t ≡ (done tt, u)
        → (u.path_trajectory == t.path_trajectory) ≡ path
        → Post (λ _. IsStable) IsPassed Fails (compare_second o user path plan u)
    compare_second-Post false path t u left left' from e = is_raised (refl, left'.0)
    compare_second-Post true true t u left left' from e =
        is_done (left', (t, left, from, path_sym ((==_iff _ _).0 e)))
    compare_second-Post true false t u left left' from e = run_third-Post u left'

    -- From an object whose mask fits, `runPlanAndStabilize` ends, whatever `run` does: with the
    -- fuel of the model it is never out of fuel and no assertion fails. If it returns, the plan
    -- has run, and the run before it had the same path trajectory; if it throws, it is
    -- `RejectPlan`, what `run` threw, or one of the two exceptions on unstable trajectories. The
    -- mask fits and the corpus is as it was in every case.
    pub run_plan_and_stabilize-Post :
        (t : Test W Gen)
        → IsFit t
        → Post (λ _. IsStable) IsPassed Fails (run_plan_and_stabilize o plan t)
    unfolding run_plan_and_stabilize
    run_plan_and_stabilize-Post t fit =
        continue-Post (run_plan-Post t fit) λ _ s (same, fit', q, zeroed, from).
          let left : IsLeft s = (fit', q, zeroed, (t, from)) in
          continue-Post (run_again-Post s left)
            λ _ u (left', same', from'). compare_second-Post _ _ s u left left' from' refl
