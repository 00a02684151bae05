-- ===== src/Measure/Rollout.antt =====
-- RolloutEvaluator of src/qorl/measure/rollout.py: the state of a rollout, and its initial timing of
-- the default plan. An operation gives its result or the exception it raises, and in either case the
-- state that it leaves.
pub mod Attempts
pub mod Steps
pub mod Pairing
pub mod Finish
pub mod Pairs
pub mod Chosen
pub mod Gathered
pub mod Paired
pub mod Measured
pub mod Support
pub mod Kinds
pub mod Ready
pub mod Supported
pub mod Concluding
pub mod Finished
pub mod Started
pub mod Explaining
pub mod Assembling
pub mod Starting
pub mod Samples
pub mod Triples
pub mod Retained
pub mod Numbered
pub mod Sound
pub mod Issued
pub mod Prepared
pub mod Probed
pub mod Attempted
pub mod Choices
pub mod Lifecycle
pub mod Spent
mod Examples
use qorl.Prelude.{
  ℕ, zero, suc, ◌+◌, ◌-◌, ◌*◌, ◌/◌, ◌%◌, ◌^◌, ◌≤◌, ◌<◌, String, ◌≡◌, refl, sym, ap, ◌∙◌, ◌≢◌, ◌↔◌,
  ◌⊎◌, inl, inr, Bool, true, false, not, ◌&&◌, ◌||◌, Option, none, some, List, [], ◌∷◌, ◌++◌, map,
  arith, ltb, leb, nat_beq, if◌then◌else◌, nat_beq_iff, ltb→lt, lt→ltb, leb→le, le→leb, Bool-cases,
  Option-cases, Eq, ◌==◌, nat_eq, string_eq, length, get_elem?, length-append, keep, length-keep_le,
  some_of, all_of, first_of?, contains, is_distinct, intersect, without, is_subset, same_set,
  beq_self, contains-append, contains-keep, is_subset_iff, same_set_iff, sorted, is_sorted,
  sorted-perm, length-sorted, some_of-sorted, sorted-is_sorted, sorted_of_is_sorted, codes, name_le,
  names_le, name_le_total, names_le_total, contains-sorted, is_distinct-sorted, Result, ok, err,
  raise_if, or_raise, >>=-eq-ok, >>-eq-ok, >>=-total, Dict, lookup, assign, lookup-assign,
  set_default, lookup-set_default, lookup_or, is_none, is_empty, decimal, two_digits, sorted_twice,
  is_subset-sorted, sorted-is_subset, without-sorted, is_empty-sorted,
}
use qorl.Numbers.{Number, int, is_finite, number_le, whole}
use qorl.Json.{Json, number, obj, Fields, get}
use qorl.Measure.Timeouts.{
  Floats, TimeoutError, median, seconds_to_ms, candidate_timeout_ms, is_positive,
}
use qorl.Measure.Schemas.{Measurement, Baseline, Candidate}
use qorl.Measure.Planner.{Failure, Planner, World, Explained, Reply, explained, timed_out, broken}
use qorl.Measure.Evidence.{
  RolloutMeasurementSettings, ExecutionCounts, PairedMeasurements, Outcome, EvidenceError,
}
use qorl.Measure.Validation
use qorl.Measure.Validation.{Evaluator, new_evaluator, timeout_text}

pub data RolloutError : Type 0 where
  -- of the evaluator
  raised : Failure → RolloutError
  -- of a call of the worker
  worker : String → RolloutError
  -- an entry of an executed document is missing, or is not what Measurement takes
  invalid_measurement : RolloutError
  invalid_timeout : TimeoutError → RolloutError
  plan_changed median_not_positive not_measured finalizing no_identity : RolloutError
  keep_default_selects : RolloutError
  hints_changed : List String → RolloutError
  invalid_action : String → RolloutError
  invalid_outcome : EvidenceError → RolloutError

pub record Rollout : Type 0 where
  pub evaluator : Evaluator
  pub measurement : RolloutMeasurementSettings
  pub default_timeout_ms : ℕ
  pub paired : PairedMeasurements
  pub final : Option Outcome
  pub operation : String
  pub finalization_started : Bool
  pub execution_counts : ExecutionCounts

-- What a rollout runs on. `is_close` is math.isclose; `candidate_first i` is whether the shuffle of
-- the `i`-th measured pair leaves the candidate first.
pub record Machine : Type 0 where
  pub planner : Planner
  pub world : World
  pub floats : Floats
  pub is_close : Number → Number → Bool
  pub candidate_first : ℕ → Bool

-- A method.
abbrev pub Run : Type 0 → Type 0
Run A = Rollout → Result RolloutError A × Rollout

abbrev pub after :
    {A B : Type 0} → Result RolloutError A × Rollout → (A → Run B) → Result RolloutError B × Rollout
after (ok a, s) next = next a s
after (err e, s) next = (err e, s)

infixl 5 ◌>>=◌ ◌>>◌
abbrev pub ◌>>=◌ : {A B : Type 0} → Run A → (A → Run B) → Run B
(m >>= next) s = after (m s) next

abbrev pub ◌>>◌ : {B : Type 0} → Run (Unit {0}) → Run B → Run B
m >> k = m >>= λ _. k

abbrev pub pure : {A : Type 0} → A → Run A
pure a s = (ok a, s)

abbrev pub gets : {A : Type 0} → (Rollout → A) → Run A
gets read s = (ok (read s), s)

abbrev pub modify : (Rollout → Rollout) → Run (Unit {0})
modify change s = (ok tt, change s)

abbrev pub lift : {A : Type 0} → Result RolloutError A → Run A
lift r s = (r, s)

abbrev pub require : Bool → RolloutError → Run (Unit {0})
require true e s = (ok tt, s)
require false e s = (err e, s)

abbrev pub raised_as : {E A : Type 0} → (E → RolloutError) → Result E A → Result RolloutError A
raised_as raise (ok a) = ok a
raised_as raise (err e) = err (raise e)

-- A method of the evaluator.
abbrev pub of_evaluator :
    Rollout → {A : Type 0} → Result Failure A × Evaluator → Result RolloutError A × Rollout
of_evaluator s (r, e) = (raised_as raised r, record s { evaluator = e })

abbrev pub on_evaluator : {A : Type 0} → (Evaluator → Result Failure A × Evaluator) → Run A
on_evaluator method s = of_evaluator s (method s.evaluator)

abbrev pub in_operation : String → Run (Unit {0})
in_operation operation = modify (λ s. record s { operation = operation })

abbrev pub new_with :
    RolloutMeasurementSettings → ℕ → Result Failure Evaluator → Result RolloutError Rollout
new_with settings timeout (err f) = err (raised f)
new_with settings timeout (ok e) = ok (record {
  evaluator = e;
  measurement = settings;
  default_timeout_ms = timeout;
  paired = record { warmups = []; measurements = [] };
  final = none;
  operation = "initial_default_explain";
  finalization_started = false;
  execution_counts = record { initial_default = 0; candidate_feedback = 0; final_paired = 0 };
})

abbrev pub new_after :
    RolloutMeasurementSettings → ℕ → Result TimeoutError ℕ → Result RolloutError Rollout
new_after settings max_candidates (err e) = err (invalid_timeout e)
new_after settings max_candidates (ok timeout) =
    new_with settings timeout (new_evaluator timeout max_candidates)

-- RolloutEvaluator(…)
unfoldable pub new_rollout : Floats → RolloutMeasurementSettings → ℕ → Result RolloutError Rollout
unfolding new_evaluator seconds_to_ms
new_rollout floats settings max_candidates =
    new_after settings max_candidates (seconds_to_ms floats settings.default_timeout_seconds)

abbrev pub as_number : Option Json → Option Number
as_number (some (number x)) = some x
as_number _ = none

abbrev pub entry_of : String → Json → Option Json
entry_of key (obj fields) = get key fields
entry_of key _ = none

-- A time of a Measurement, which is finite and not negative.
abbrev pub is_time : Number → Bool
is_time x = is_finite x && number_le (whole 0) x

abbrev pub checked_time : Option Number → Option Number
checked_time none = none
checked_time (some x) = if is_time x then some x else none

-- plan.get(key, 0); PostgreSQL's counts of blocks are not negative
abbrev pub block_count : Option Json → Option ℕ
block_count none = some 0
block_count (some (number (int false n))) = some n
block_count _ = none

abbrev or_invalid : {A : Type 0} → Option A → Result RolloutError A
or_invalid none = err invalid_measurement
or_invalid (some a) = ok a

-- What the worker's answer comes to, where no timeout is expected.
abbrev pub answer : Reply → Result RolloutError Explained
answer (explained result) = ok result
answer (timed_out limit) = err (worker (timeout_text limit))
answer (broken text) = err (worker text)

-- statistics.median, and the limit that follows from it
abbrev pub median_of : Floats → List Measurement → Result RolloutError Number
median_of floats ms = raised_as invalid_timeout (median floats (map (λ x. x.execution_time_ms) ms))

abbrev pub count_default : Rollout → Rollout
count_default s = record s {
  execution_counts = record s.execution_counts {
    initial_default = (s.execution_counts).initial_default + 1;
  };
}

abbrev pub keep_warmup : Measurement → Baseline → Baseline
keep_warmup x b = record b { warmups = b.warmups ++ x ∷ [] }

abbrev pub keep_measurement : Measurement → Baseline → Baseline
keep_measurement x b = record b { measurements = b.measurements ++ x ∷ [] }

abbrev pub default_measurements : Rollout → List Measurement
default_measurements s = elim (s.evaluator).default [ none ↦ [] | some b ↦ b.measurements ]

-- The state once the default's median is known.
abbrev pub timed_default : Number → ℕ → Rollout → Rollout
timed_default median_ms timeout_ms s = record s {
  evaluator = record s.evaluator {
    timeout_ms = timeout_ms;
    default = elim (s.evaluator).default [
      | none ↦ none
      | some b ↦ some (record b {
        median_execution_time_ms = some median_ms;
        candidate_timeout_ms = some timeout_ms;
      })
    ];
  };
  operation = "agent";
}

abbrev pub fresh_default : Baseline → Rollout → Rollout
fresh_default b s = record s {
  evaluator = record s.evaluator { default = some (record b { warmups = []; measurements = [] }) };
  operation = "initial_default_warmup";
}

module _ (m : Machine) where
  -- `measured`, once the entries of the document are read
  unfoldable pub measurement_of :
      Explained
      → Option Number
      → Option Number
      → Option ℕ
      → Option ℕ
      → Result RolloutError Measurement
  measurement_of result (some execution) (some planning) (some hits) (some reads) = ok (record {
    execution_time_ms = execution;
    planning_time_ms = planning;
    plan_sha256 = (m.planner).plan_sha256 result.plan;
    shared_hit_blocks = hits;
    shared_read_blocks = reads;
    analyzed_document = some result.document;
    hint_diagnostics = some result.hint_diagnostics;
  })
  measurement_of result _ _ _ _ = err invalid_measurement

  unfoldable pub measured : Explained → Result RolloutError Measurement
  unfolding measurement_of number_le get
  measured result =
      measurement_of result (checked_time (as_number (entry_of "Execution Time" result.document)))
        (checked_time (as_number (entry_of "Planning Time" result.document)))
        (block_count (get "Shared Hit Blocks" result.plan))
        (block_count (get "Shared Read Blocks" result.plan))

  unfoldable pub check_cancelled : Run (Unit {0})
  unfolding Validation.check_cancelled
  check_cancelled = on_evaluator (Validation.check_cancelled m.planner m.world)

  -- self.worker.explain(self.sql, timeout_ms, analyze=True, hint=hint)
  unfoldable pub execute : ℕ → String → Run Reply
  execute timeout_ms hint s = (
    ok ((m.world).explain (s.evaluator).calls (m.world).sql timeout_ms true hint),
    record s { evaluator = record s.evaluator { calls = (s.evaluator).calls + 1 } },
  )

  -- One execution of the default, whose measurement `keep` records before its plan is compared.
  unfoldable pub time_default : (Measurement → Baseline → Baseline) → String → Run (Unit {0})
  unfolding check_cancelled execute measured
  time_default keep_run plan_sha256 = do
    check_cancelled
    modify count_default
    timeout_ms ← gets (λ s. s.default_timeout_ms)
    reply ← execute timeout_ms ""
    result ← lift (answer reply)
    observation ← lift (measured result)
    modify (λ s. record s {
      evaluator = record s.evaluator {
        default = elim (s.evaluator).default [
          | none ↦ none
          | some b ↦ some (keep_run observation b)
        ];
      };
    })
    require (observation.plan_sha256 == plan_sha256) plan_changed

  unfoldable pub time_defaults : (Measurement → Baseline → Baseline) → String → ℕ → Run (Unit {0})
  unfolding time_default
  time_defaults keep_run plan_sha256 zero = pure tt
  time_defaults keep_run plan_sha256 (suc n) =
      time_default keep_run plan_sha256 >> time_defaults keep_run plan_sha256 n

  -- The end of `start`, from the median of the measurements on.
  unfoldable pub limit_candidates : RolloutMeasurementSettings → Run (Option Baseline)
  unfolding candidate_timeout_ms median number_le
  limit_candidates settings = do
    measurements ← gets default_measurements
    median_ms ← lift (median_of m.floats measurements)
    require (not (number_le median_ms (whole 0))) median_not_positive
    timeout_ms ← lift (
        raised_as invalid_timeout (
          candidate_timeout_ms m.floats median_ms settings.candidate_timeout_floor_seconds
            settings.candidate_timeout_multiplier))
    modify (timed_default median_ms timeout_ms)
    gets (λ s. (s.evaluator).default)

  unfoldable pub start : Run (Option Baseline)
  unfolding Validation.start time_defaults check_cancelled limit_candidates
  start = do
    baseline ← on_evaluator (Validation.start m.planner m.world)
    modify (fresh_default baseline)
    settings ← gets (λ s. s.measurement)
    time_defaults keep_warmup baseline.plan_sha256 settings.default_warmups
    in_operation "initial_default_measurement"
    time_defaults keep_measurement baseline.plan_sha256 settings.default_measurements
    check_cancelled
    limit_candidates settings
