-- ===== src/Test/Examples.antt =====
-- The theorems on the test driver at concrete inputs.
use photesthesis.Shared.{
  ℕ, ◌≡◌, ◌≤◌, ◌<◌, refl, true, false, [], ◌⊎◌, ◌∙◌, inl, inr, Bool-cases, subst, here, there,
  sym as path_sym, ◌∷◌, none, arith, length, codes, list_eq,
}
use photesthesis.Shared.Order.{lex}
use photesthesis.Shared.Ints.{pos}
use photesthesis.Shared.SetOf.{set_has}
use photesthesis.Shared.SetOf.Members.{set_has-In}
use photesthesis.Shared.MapOf.{map_find}
use photesthesis.Symbol.{Symbol, symbol_lt, symbol_eq}
use photesthesis.Transcript.Order.{transcript_lt-IsTotalOrder}
use photesthesis.Value.{int64}
use photesthesis.Plan.{Plan, new_plan, plan_lt, compare_params, plan_eq}
use photesthesis.Transcript.{Transcript, name_of, new_transcript, transcript_lt, transcript_eq}
use photesthesis.Corpus.{Corpus, transcripts_of}
use photesthesis.Corpus.Invariant.{IsValid}
use photesthesis.Corpus.Store.{holds}
use photesthesis.Test.{invariant, check, returns, Ran, Outside, Test, done, raised, undefined}
use photesthesis.Test.Counters.{class_of}
use photesthesis.Test.Classes.{bucket, class_of-bucket, class_of-le}
use photesthesis.Test.Run.{run_plan}
use photesthesis.Test.Stabilize.{run_plan_and_stabilize}
use photesthesis.Test.Expand.{
  maybe_expand, run_plan_and_maybe_expand_corpus, random_steps, try_specs,
}
use photesthesis.Test.Administer.{check_one, check_corpus, administer}
use photesthesis.Test.Outcomes.{Post, Never}
use photesthesis.Test.Observations.{outcome, run_plan_lem}
use photesthesis.Test.Stability.{IsPassed, IsStable, Fails, run_plan_and_stabilize-Post}
use photesthesis.Test.Determinism.{IsSteady, steady_state, run_plan_and_stabilize-Steady}
use photesthesis.Test.Tracking.{Tracks-nil}
use photesthesis.Test.Placing.{Placed, Blocks, maybe_expand-Post}
use photesthesis.Test.Expansion.{Expanded, Halted, run_plan_and_maybe_expand_corpus-Post}
use photesthesis.Test.Loops.{Found, Stopped, random_steps-Post, try_specs-Post}
use photesthesis.Test.Iteration.{HasOnePerPlan}
use photesthesis.Test.Checking.{Broken, check_one-undefined}
use photesthesis.Test.Driver.{
  IsSound, Verified, Administered, Interrupted, check_corpus-Post, administer-Post,
}

abbrev name : Symbol
name = codes "t"

-- A run that checks a variable, with an invariant that does not hold, and two counters.
abbrev plan : Plan
plan = new_plan name false

abbrev observed : Transcript
observed = record { plan = plan; vars = (codes "x", (int64 (pos 7), false)) ∷ [] }

abbrev ran : Ran
ran = record {
  actions =
      check (codes "x") (int64 (pos 7))
      ∷ invariant (codes "y") (int64 (pos 1)) (int64 (pos 2))
      ∷ [];
  ending = returns;
  edge_counters = 3 ∷ 0 ∷ [];
}

abbrev outside : Outside ℕ ℕ
outside = record {
  run = λ w p. (ran, w);
  hash = length;
  uniform = λ n gen. (0, gen);
  seeded = λ n. n;
  cov_len = 2;
  env = λ v. none;
}

abbrev start : Corpus → Test ℕ ℕ
start c = record {
  world = 0;
  gen = 0;
  gram = record { rules = []; root_refs = [] };
  corp = c;
  last_seed = 0;
  failed = false;
  stability_mask = [];
  counters = [];
  user_hasher = [];
  path_trajectory = 0;
  user_trajectory = 0;
  trajectory = 0;
  transcript = new_transcript (new_plan name true);
  seed_specs = [];
}

abbrev empty_corpus : Corpus
empty_corpus = record { path = codes "c"; save_on_destroy = true; dirty = false; transcripts = [] }

empty_corpus-IsValid : IsValid empty_corpus
empty_corpus-IsValid = record { keys = tt; sets = tt }

-- A corpus with a transcript that the run does not give again.
abbrev stale : Transcript
stale = new_transcript plan

abbrev stale_corpus : Corpus
stale_corpus = record {
  path = codes "c";
  save_on_destroy = true;
  dirty = false;
  transcripts = (name, stale ∷ []) ∷ [];
}

stale_corpus-IsValid : IsValid stale_corpus
stale_corpus-IsValid = record { keys = (tt, tt); sets = (((tt, tt), (refl, tt)), tt) }

class_of-bucket_example : class_of 40 ≡ bucket 40
class_of-bucket_example = class_of-bucket 40 (omega arith)

class_of-le_example : class_of 9 ≤ class_of 200
class_of-le_example = class_of-le 9 200 (omega arith) (omega arith)

run_plan_lem_example :
    run_plan outside plan (start empty_corpus)
    ≡ outcome outside returns plan ran 0 (start empty_corpus)
run_plan_lem_example = run_plan_lem outside plan (start empty_corpus) refl

run_plan_and_stabilize-Post_example :
    Post
      (λ _. IsStable outside empty_corpus plan)
      (IsPassed outside empty_corpus plan)
      (Fails outside empty_corpus)
      (run_plan_and_stabilize outside plan (start empty_corpus))
run_plan_and_stabilize-Post_example =
    run_plan_and_stabilize-Post outside empty_corpus plan (start empty_corpus) (refl, refl)

outside-IsSteady : IsSteady outside plan ran
outside-IsSteady w = (refl, refl)

run_plan_and_stabilize-Steady_example :
    run_plan_and_stabilize outside plan (start empty_corpus)
    ≡ (done tt, steady_state outside plan ran (steady_state outside plan ran (start empty_corpus)))
run_plan_and_stabilize-Steady_example =
    run_plan_and_stabilize-Steady outside plan ran (start empty_corpus) refl outside-IsSteady

maybe_expand-Post_example :
    Post
      (Placed name []
        (start empty_corpus)
        (holds empty_corpus (new_transcript (new_plan name true))))
      Never
      (Blocks name []
        (start empty_corpus)
        (holds empty_corpus (new_transcript (new_plan name true))))
      (maybe_expand name [] (start empty_corpus))
maybe_expand-Post_example =
    maybe_expand-Post name [] (start empty_corpus)
      (Tracks-nil name empty_corpus empty_corpus-IsValid) refl

run_plan_and_maybe_expand_corpus-Post_example :
    Post
      (Expanded outside name [])
      Never
      (Halted outside name [])
      (run_plan_and_maybe_expand_corpus outside plan [] (start empty_corpus))
run_plan_and_maybe_expand_corpus-Post_example =
    run_plan_and_maybe_expand_corpus-Post outside plan [] (start empty_corpus)
      (refl, Tracks-nil name empty_corpus empty_corpus-IsValid)

outside-IsUniform : (n gen : ℕ) → (outside.uniform n gen).0 ≤ n
outside-IsUniform n gen = omega arith

random_steps-Post_example :
    Post
      (Found outside name [])
      Never
      (Stopped outside name)
      (random_steps outside 2 name 3 ([], []) (start empty_corpus))
random_steps-Post_example =
    random_steps-Post outside name outside-IsUniform 2 3 ([], []) (start empty_corpus)
      (refl, Tracks-nil name empty_corpus empty_corpus-IsValid)

try_specs-Post_example :
    Post
      (Found outside name [])
      Never
      (Stopped outside name)
      (try_specs outside 3 20 name ([] ∷ []) ([], []) (start empty_corpus))
try_specs-Post_example =
    try_specs-Post outside name 3 20 ([] ∷ []) ([], []) (start empty_corpus)
      (refl, Tracks-nil name empty_corpus empty_corpus-IsValid)

stale_set :
    (n : Symbol)
    → (transcripts_of stale_corpus n ≡ []) ⊎ (transcripts_of stale_corpus n ≡ stale ∷ [])
unfolding transcripts_of map_find
stale_set n = elim (Bool-cases (symbol_lt name n)) [
  | inl p ↦ inl (rw p refl)
  | inr p ↦ elim (Bool-cases (symbol_lt n name)) [
    | inl q ↦ inl (rw (p, q) refl)
    | inr q ↦ inr (rw (p, q) refl)
  ]
]

only_stale : (a : Transcript) → holds stale_corpus a ≡ true → a ≡ stale
unfolding set_has
only_stale a h = elim (stale_set (name_of a)) [
  | inl e ↦ absurd (not_held (subst (λ xs. set_has transcript_lt a xs ≡ true) e h))
  | inr e ↦
      elim (set_has-In transcript_lt-IsTotalOrder a (stale ∷ [])
        (subst (λ xs. set_has transcript_lt a xs ≡ true) e h)) [ here q ↦ q | there m ↦ elim m [ ] ]
]
  where
    not_held : ¬ (set_has transcript_lt a [] ≡ true)
    not_held q = ground (arith, q)

stale_corpus-HasOnePerPlan : HasOnePerPlan stale_corpus
stale_corpus-HasOnePerPlan a b h k e = only_stale a h ∙ path_sym (only_stale b k)

stale_few : length (transcripts_of stale_corpus name) < 2
unfolding transcripts_of map_find symbol_lt lex
stale_few = omega arith

stale_held : holds stale_corpus stale ≡ true
unfolding set_has transcripts_of map_find symbol_lt lex transcript_lt plan_lt compare_params
stale_held = refl

stale_differs : transcript_eq stale observed ≡ false
unfolding transcript_eq plan_eq symbol_eq list_eq
stale_differs = refl

stale-IsSound : IsSound outside (start stale_corpus)
stale-IsSound = record {
  fits = refl;
  valid = stale_corpus-IsValid;
  one = stale_corpus-HasOnePerPlan;
}

check_corpus-Post_example :
    Post
      (Verified outside (start stale_corpus))
      Never
      Broken
      (check_corpus outside 2 [] (start stale_corpus))
check_corpus-Post_example = check_corpus-Post outside 2 (start stale_corpus) stale-IsSound stale_few

administer-Post_example :
    Post
      (Administered outside)
      Never
      (Interrupted outside)
      (administer outside 2 5 3 4 (start stale_corpus))
administer-Post_example =
    administer-Post outside outside-IsUniform 2 5 3 4 (start stale_corpus) stale-IsSound stale_few

check_one-undefined_example :
    (check_one outside none name stale ([], []) (start stale_corpus)).0 ≡ raised undefined
check_one-undefined_example =
    check_one-undefined outside stale_corpus name stale_corpus-IsValid stale_corpus-HasOnePerPlan
      none stale ([], []) (start stale_corpus) _ stale_held refl (refl, refl) refl
      (run_plan_and_stabilize-Steady outside plan ran (start stale_corpus) refl outside-IsSteady)
      stale_differs
