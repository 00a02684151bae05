-- ===== src/Measure/Rollout/Finish.antt =====
-- The end of a rollout, of src/qorl/measure/rollout.py: the choice is resolved to one outcome, which
-- times the selected candidate against the default in pairs if it has to.
use qorl.Prelude.{
  ℕ, String, Bool, true, false, not, ◌&&◌, ◌||◌, Option, none, some, List, if◌then◌else◌, nat_eq,
  string_eq, Result, ok, err, is_none,
}
use qorl.Numbers.{Number, number_le, whole}
use qorl.Measure.Timeouts.{Floats, median}
use qorl.Measure.Schemas.{
  Measurement, Baseline, Candidate, MeasurementStatus, SelectionState, SelectionStatus, pending,
  rejected, accepted, failed,
}
use qorl.Measure.Schemas
use qorl.Measure.Evidence
use qorl.Measure.Evidence.{
  RolloutMeasurementSettings, ExecutionCounts, MeasuredPlan, default, candidate, MeasurementPair,
  PairedMeasurements, Outcome, MeasuredOutcome, TimedOutOutcome, RolloutRecord, RolloutFailure,
  same_option, times, completed_measurements,
}
use qorl.Measure.Validation.Selection.{is_default, fail_selection, select, accept_selection}
use qorl.Measure.Rollout.{
  RolloutError, finalizing, not_measured, no_identity, keep_default_selects, median_not_positive,
  invalid_timeout, invalid_outcome, Rollout, Machine, Run, ◌>>=◌, ◌>>◌, pure, gets, modify, lift,
  require, raised_as, on_evaluator, check_cancelled,
}
use qorl.Measure.Rollout.Attempts.{set_candidates, update_id, either}
use qorl.Measure.Rollout.Pairing.{shuffled, execute_pairs}

abbrev pub median_ms : Floats → MeasuredPlan → List MeasurementPair → Run Number
median_ms floats role pairs = lift (raised_as invalid_timeout (median floats (times role pairs)))

abbrev pub as_measured : Candidate → Candidate
as_measured c = record c { measurement_status = some Schemas.measured }

abbrev pub limit_of : Candidate → ℕ → ℕ
limit_of c limit =
    if c.execution_timed_out then elim c.timeout_ms [ none ↦ limit | some t ↦ t ] else limit

abbrev pub median_reference : Option Baseline → Option Number
median_reference none = none
median_reference (some b) = b.median_execution_time_ms

abbrev pub or_not_measured : {A : Type 0} → Option A → Result RolloutError A
or_not_measured none = err not_measured
or_not_measured (some a) = ok a

-- Whether the candidate's identity is known, and what follows from it.
abbrev pub identified :
    {A : Type 0} → Option String → Option String → (String → String → Run A) → Run A
identified (some plan_sha256) (some reuse_key) next = next plan_sha256 reuse_key
identified _ _ next = lift (err no_identity)

abbrev pub kept_outcome : Baseline → Option String → Run Outcome
kept_outcome b none = lift (err no_identity)
kept_outcome b (some reuse_key) = pure (Evidence.kept_default b.plan_sha256 reuse_key)

abbrev pub conclude : Outcome → Run Outcome
conclude final = modify (λ s. record s { final = some final }) >> pure final

abbrev pub begin_finalization : Run (Unit {0})
begin_finalization = modify (λ s. record s { finalization_started = true })

abbrev pub is_refused : SelectionStatus → Bool
is_refused rejected = true
is_refused failed = true
is_refused _ = false

unfoldable pub fail : Run Outcome
fail = do
  modify (λ s. record s { evaluator = fail_selection s.evaluator })
  begin_finalization
  conclude Evidence.selection_failed

abbrev pub or_selected : Option String → Rollout → Option String
or_selected none s = ((s.evaluator).selection).selected_candidate_id
or_selected (some id) s = some id

abbrev pub with_baseline : {A : Type 0} → Option Baseline → (Baseline → Run A) → Run A
with_baseline none next = lift (err not_measured)
with_baseline (some b) next =
    either (is_none b.median_execution_time_ms) (lift (err not_measured)) (next b)

module _ (m : Machine) where
  -- `timed_out`
  unfoldable pub timed_out_outcome : Candidate → Run Outcome
  timed_out_outcome c = do
    baseline ← gets (λ s. (s.evaluator).default)
    reference ← lift (or_not_measured (median_reference baseline))
    limit ← gets (λ s. (s.evaluator).timeout_ms)
    paired ← gets (λ s. s.paired)
    pure (
        Evidence.timed_out (record {
          selected_candidate_id = c.candidate_id;
          selected_plan_sha256 = c.plan_sha256;
          timing_reuse_key = c.timing_reuse_key;
          initial_default_median_execution_time_ms = reference;
          timeout_ms = limit_of c limit;
          paired = paired;
        }))

  -- The outcome of pairs that have all run, which MeasuredOutcome checks.
  unfoldable pub measured_outcome : Candidate → String → String → Run Outcome
  unfolding median number_le completed_measurements
  measured_outcome c plan_sha256 reuse_key = do
    paired ← gets (λ s. s.paired)
    default_median ← median_ms m.floats default paired.measurements
    candidate_median ← median_ms m.floats candidate paired.measurements
    require (not (number_le default_median (whole 0) || number_le candidate_median (whole 0)))
        median_not_positive
    modify (set_candidates (update_id c.candidate_id (λ _. as_measured c)))
    let o : MeasuredOutcome = record {
      selected_candidate_id = c.candidate_id;
      selected_plan_sha256 = plan_sha256;
      timing_reuse_key = reuse_key;
      paired = paired;
      default_median_execution_time_ms = default_median;
      candidate_median_execution_time_ms = candidate_median;
      speedup = (m.floats).quotient default_median candidate_median;
    }
    lift (raised_as invalid_outcome (completed_measurements m.floats m.is_close o))
    pure (Evidence.measured o)

  unfoldable pub measure_pairs : Candidate → String → String → Run Outcome
  unfolding execute_pairs timed_out_outcome measured_outcome
  measure_pairs c plan_sha256 reuse_key = do
    settings ← gets (λ s. s.measurement)
    warm ← execute_pairs m true c (λ _. (candidate, default)) 0 settings.paired_warmups
    timed ←
        either warm (execute_pairs m false c (shuffled m) 0 settings.paired_measurements)
          (pure false)
    either timed (measured_outcome c plan_sha256 reuse_key) (timed_out_outcome c)

  unfoldable pub measure_selected : Candidate → Run Outcome
  unfolding measure_pairs
  measure_selected c = identified c.plan_sha256 c.timing_reuse_key (measure_pairs c)

  -- The outcome of a selection, which none of the candidates may be.
  unfoldable pub outcome_of : Baseline → Option Candidate → Run Outcome
  unfolding timed_out_outcome measure_selected
  outcome_of b none = pure Evidence.no_valid_candidate
  outcome_of b (some c) = either c.execution_timed_out (timed_out_outcome c) (
      either (same_option c.timing_reuse_key b.timing_reuse_key)
        (identified c.plan_sha256 c.timing_reuse_key (λ plan_sha256 reuse_key.
          pure (Evidence.default_duplicate c.candidate_id plan_sha256 reuse_key)))
        (measure_selected c))

  -- The outcome for the selection in force, or for the candidate that is asked for.
  unfoldable pub choose : Baseline → Option String → Run Outcome
  unfolding select outcome_of
  choose b asked = do
    kept ← gets (λ s. (s.evaluator).kept_default)
    id ← gets (or_selected asked)
    selected ← either kept (pure none) (on_evaluator (λ e. (select id e, e)))
    begin_finalization
    final ← either kept (kept_outcome b b.timing_reuse_key) (outcome_of b selected)
    conclude final

  unfoldable pub finish_selection : Baseline → Option String → Run Outcome
  unfolding fail choose
  finish_selection b asked = do
    kept ← gets (λ s. (s.evaluator).kept_default)
    require (not (kept && not (is_none asked))) keep_default_selects
    status ← gets (λ s. ((s.evaluator).selection).status)
    either (is_refused status) fail (choose b asked)

  unfoldable pub finish_default : Baseline → Option String → Run Outcome
  unfolding accept_selection finish_selection
  finish_default b asked =
      either (is_default asked) (on_evaluator (accept_selection asked) >> finish_selection b none)
        (finish_selection b asked)

  unfoldable pub finish : Option String → Run Outcome
  unfolding check_cancelled finish_default
  finish asked = do
    check_cancelled m
    baseline ← gets (λ s. (s.evaluator).default)
    with_baseline baseline (λ b. do
      started ← gets (λ s. s.finalization_started)
      require (not started) finalizing
      finish_default b asked)

abbrev pub is_pending : SelectionStatus → Bool
is_pending pending = true
is_pending _ = false

-- RolloutEvaluator.record, where `error` is the text of an exception that ended the rollout
unfoldable pub rollout_record : String → String → Option String → Rollout → RolloutRecord
rollout_record task_id template_id error s = record {
  task_id = task_id;
  template_id = template_id;
  measurement = s.measurement;
  default = (s.evaluator).default;
  candidates = (s.evaluator).candidates;
  final = if is_none error then s.final else none;
  selection =
      if is_pending ((s.evaluator).selection).status then none else some (s.evaluator).selection;
  failure = elim error [
    | none ↦ none
    | some text ↦ some (record { operation = s.operation; error = text; paired = s.paired })
  ];
  execution_counts = s.execution_counts;
}
