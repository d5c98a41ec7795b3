-- ===== src/Test.antt =====
-- The state of `Test` of include/photesthesis/test.h, what it takes from outside the repository, and
-- the outcomes of its functions.
pub mod Counters
pub mod Run
pub mod Stabilize
pub mod Expand
pub mod Administer
pub mod Classes
pub mod Observations
pub mod Outcomes
pub mod Stability
pub mod Determinism
pub mod Tracking
pub mod Placing
pub mod Expansion
pub mod Loops
pub mod Iteration
pub mod Checking
pub mod Driver
pub mod Examples
use photesthesis.Shared.{ℕ, Bool, true, false, List, Option}
use photesthesis.Symbol.{Bytes, Symbol}
use photesthesis.Value.{Value}
use photesthesis.Plan.{Plan, ParamSpecs, Hasher}
use photesthesis.Transcript.{Transcript}
use photesthesis.Corpus.{Corpus}
use photesthesis.Grammar.{Grammar, GrammarError}

abbrev pub Trajectory : Type 0
Trajectory = ℕ

-- What a user's `run` calls.
pub data Action : Type 0 where
  invariant : Symbol → Value → Value → Action
  trace : Symbol → Value → Action
  check : Symbol → Value → Action
  track : Symbol → Value → Action

-- How `run` ends: it returns, throws `RejectPlan`, or throws something else.
pub data Ending : Type 0 where
  returns rejects raises : Ending

-- A run: its calls in order, its end, and the instrumentation's counters after it, from zero.
pub record Ran : Type 0 where
  pub actions : List Action
  pub ending : Ending
  pub edge_counters : List ℕ

-- What lies outside: the user's `run`, in a world that it may change; XXHash64 of a sequence of bytes
-- with seed 0; the random engine's distribution and seeding; the number of edge counters; and what
-- `getenv` and `strtoull` give for a variable that is set.
pub record Outside (W Gen : Type 0) : Type 0 where
  pub run : W → Plan → Ran × W
  pub hash : Bytes → ℕ
  pub uniform : ℕ → Gen → ℕ × Gen
  pub seeded : ℕ → Gen
  pub cov_len : ℕ
  pub env : Bytes → Option ℕ

pub record Test (W Gen : Type 0) : Type 0 where
  pub world : W
  pub gen : Gen
  pub gram : Grammar
  pub corp : Corpus
  pub last_seed : ℕ
  pub failed : Bool
  pub stability_mask : List ℕ
  pub counters : List ℕ
  pub user_hasher : Hasher
  pub path_trajectory : Trajectory
  pub user_trajectory : Trajectory
  pub trajectory : Trajectory
  pub transcript : Transcript
  pub seed_specs : List ParamSpecs

-- Exceptions, failed assertions, and a step of an iterator that C++ leaves undefined.
pub data TestError : Type 0 where
  run_raised unstable_user unable_to_stabilize no_head_symbol empty_pick : TestError
  assertion undefined out_of_fuel : TestError
  grammar_error : GrammarError → TestError

pub data Ended (A : Type 0) : Type 0 where
  done : A → Ended A
  rejected : Ended A
  raised : TestError → Ended A

-- A member function: its outcome, with the object that it leaves.
abbrev pub M : Type 0 → Type 0 → Type 0 → Type 0
M W Gen A = Test W Gen → Ended A × Test W Gen

abbrev pub continue :
    {W Gen A B : Type 0} → Ended A × Test W Gen → (A → M W Gen B) → Ended B × Test W Gen
continue (done a, t) f = f a t
continue (rejected, t) f = (rejected, t)
continue (raised e, t) f = (raised e, t)

infixl 5 ◌>>=◌ ◌>>◌
abbrev pub ◌>>=◌ : {W Gen A B : Type 0} → M W Gen A → (A → M W Gen B) → M W Gen B
◌>>=◌ m f t = continue (m t) f

abbrev pub ◌>>◌ : {W Gen B : Type 0} → M W Gen (Unit {0}) → M W Gen B → M W Gen B
m >> k = m >>= λ _. k

abbrev pub pure : {W Gen A : Type 0} → A → M W Gen A
pure a t = (done a, t)

abbrev pub raise : {W Gen A : Type 0} → TestError → M W Gen A
raise e t = (raised e, t)

abbrev pub get : {W Gen : Type 0} → M W Gen (Test W Gen)
get t = (done t, t)

abbrev pub modify : {W Gen : Type 0} → (Test W Gen → Test W Gen) → M W Gen (Unit {0})
modify f t = (done tt, f t)

abbrev pub assert : {W Gen : Type 0} → Bool → M W Gen (Unit {0})
assert true = pure tt
assert false = raise assertion
