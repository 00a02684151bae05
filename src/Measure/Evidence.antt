-- ===== src/Measure/Evidence.antt =====
-- The evidence that a rollout records, of src/qorl/measure/schemas.py, and the checks of it: the
-- settings, the paired measurements, the outcomes and the record of a finished rollout.
pub mod Matches
use qorl.Prelude.{
  ℕ, zero, suc, ◌+◌, ◌-◌, ◌*◌, ◌/◌, ◌%◌, ◌^◌, ◌≤◌, ◌<◌, String, ◌≡◌, refl, sym, ap, ◌∙◌, ◌≢◌, ◌↔◌,
  ◌⊎◌, inl, inr, Bool, true, false, not, ◌&&◌, ◌||◌, Option, none, some, List, [], ◌∷◌, ◌++◌, map,
  arith, ltb, leb, nat_beq, if◌then◌else◌, nat_beq_iff, ltb→lt, lt→ltb, leb→le, le→leb, Bool-cases,
  Option-cases, Eq, ◌==◌, nat_eq, string_eq, length, get_elem?, length-append, keep, length-keep_le,
  some_of, all_of, first_of?, contains, is_distinct, intersect, without, is_subset, same_set,
  beq_self, contains-append, contains-keep, is_subset_iff, same_set_iff, sorted, is_sorted,
  sorted-perm, length-sorted, some_of-sorted, sorted-is_sorted, sorted_of_is_sorted, codes, name_le,
  names_le, name_le_total, names_le_total, contains-sorted, is_distinct-sorted, Result, ok, err,
  ◌>>=◌, ◌>>◌, raise_if, or_raise, >>=-eq-ok, >>-eq-ok, >>=-total, Dict, lookup, assign,
  lookup-assign, set_default, lookup-set_default, lookup_or, is_none, is_empty, decimal, two_digits,
  sorted_twice, is_subset-sorted, sorted-is_subset, without-sorted, is_empty-sorted,
}
use qorl.Numbers.{Number, number_le, is_nan}
use qorl.Measure.Timeouts.{Floats, TimeoutError, median}
use qorl.Measure.Schemas.{
  Measurement, ExecutionFeedback, FeedbackStatus, collecting, completed, Baseline, Candidate,
  SelectionState, SelectionStatus, failed, selection_eligible,
}
use qorl.Measure.Schemas

pub record RolloutMeasurementSettings : Type 0 where
  pub default_warmups : ℕ
  pub default_measurements : ℕ
  pub candidate_feedback_warmups : ℕ
  pub candidate_feedback_measurements : ℕ
  pub paired_warmups : ℕ
  pub paired_measurements : ℕ
  pub default_timeout_seconds : Number
  pub candidate_timeout_floor_seconds : Number
  pub candidate_timeout_multiplier : Number

pub data EvidenceError : Type 0 where
  feedback_disabled copies_executions no_cutoff no_feedback_measurements : EvidenceError
  not_one_of_each out_of_order : EvidenceError
  no_pairs incomplete_pair medians_differ ratio_differs : EvidenceError
  outcome_and_failure repeated_id unmeasured_default default_runs_differ : EvidenceError
  default_median_differs unknown_selected identity_differs not_usable : EvidenceError
  reuse_differs discards_usable selection_not_failed reuses_default : EvidenceError
  pairs_missing pair_plans_differ cutoff_differs reference_differs : EvidenceError

-- RolloutMeasurementSettings.coherent_feedback
unfoldable pub coherent_feedback : RolloutMeasurementSettings → Result EvidenceError (Unit {0})
coherent_feedback s =
    raise_if
      (not (nat_beq s.candidate_feedback_warmups 0) && nat_beq s.candidate_feedback_measurements 0)
      feedback_disabled

abbrev pub is_timed_out : FeedbackStatus → Bool
is_timed_out Schemas.timed_out = true
is_timed_out _ = false

abbrev pub is_completed : FeedbackStatus → Bool
is_completed completed = true
is_completed _ = false

-- ExecutionFeedback.coherent_evidence
unfoldable pub coherent_evidence : ExecutionFeedback → Result EvidenceError (Unit {0})
coherent_evidence f = do
  raise_if (not (is_none f.source_id) && not (is_empty f.warmups && is_empty f.measurements))
      copies_executions
  raise_if (is_timed_out f.status && is_none f.timeout_ms) no_cutoff
  raise_if (is_completed f.status && is_none f.source_id && is_empty f.measurements)
      no_feedback_measurements

-- Timed statements that were attempted, whether they came to an end or not.
pub record ExecutionCounts : Type 0 where
  pub initial_default : ℕ
  pub candidate_feedback : ℕ
  pub final_paired : ℕ

pub data MeasuredPlan : Type 0 where
  default candidate : MeasuredPlan

pub record MeasurementPair : Type 0 where
  pub order : MeasuredPlan × MeasuredPlan
  pub default : Option Measurement
  pub candidate : Option Measurement

abbrev pub same_plan : MeasuredPlan → MeasuredPlan → Bool
same_plan default default = true
same_plan candidate candidate = true
same_plan _ _ = false

-- getattr(self, role)
abbrev pub half_of : MeasuredPlan → MeasurementPair → Option Measurement
half_of default p = p.default
half_of candidate p = p.candidate

-- MeasurementPair.one_of_each
unfoldable pub one_of_each : MeasurementPair → Result EvidenceError (Unit {0})
one_of_each p = do
  raise_if (same_plan (p.order).0 (p.order).1) not_one_of_each
  raise_if (not (is_none (half_of (p.order).1 p)) && is_none (half_of (p.order).0 p)) out_of_order

pub record PairedMeasurements : Type 0 where
  pub warmups : List MeasurementPair
  pub measurements : List MeasurementPair

pub record MeasuredOutcome : Type 0 where
  pub selected_candidate_id : String
  pub selected_plan_sha256 : String
  pub timing_reuse_key : String
  pub paired : PairedMeasurements
  pub default_median_execution_time_ms : Number
  pub candidate_median_execution_time_ms : Number
  pub speedup : Number

pub record TimedOutOutcome : Type 0 where
  pub selected_candidate_id : String
  pub selected_plan_sha256 : Option String
  pub timing_reuse_key : Option String
  pub initial_default_median_execution_time_ms : Number
  pub timeout_ms : ℕ
  pub paired : PairedMeasurements

-- The speedup of `kept_default` and `default_duplicate` is 1.0; the others that are not measured
-- have none.
pub data Outcome : Type 0 where
  kept_default : (selected_plan_sha256 timing_reuse_key : String) → Outcome
  default_duplicate :
      (selected_candidate_id selected_plan_sha256 timing_reuse_key : String) → Outcome
  measured : MeasuredOutcome → Outcome
  timed_out : TimedOutOutcome → Outcome
  no_valid_candidate selection_failed : Outcome

pub record RolloutFailure : Type 0 where
  pub operation : String
  pub error : String
  pub paired : PairedMeasurements

pub record RolloutRecord : Type 0 where
  pub task_id : String
  pub template_id : String
  pub measurement : RolloutMeasurementSettings
  pub default : Option Baseline
  pub candidates : List Candidate
  pub final : Option Outcome
  pub selection : Option SelectionState
  pub failure : Option RolloutFailure
  pub execution_counts : ExecutionCounts

-- x == y
abbrev pub number_eq : Number → Number → Bool
number_eq x y = number_le x y && number_le y x

abbrev pub same_option : Option String → Option String → Bool
same_option none none = true
same_option (some x) (some y) = x == y
same_option _ _ = false

-- [x for x in xs if x is not None]
abbrev pub present {ℓ} : {A : Type ℓ} → List (Option A) → List A
present [] = []
present (none ∷ xs) = present xs
present (some x ∷ xs) = x ∷ present xs

-- The execution times of one plan among the pairs that have it.
abbrev pub times : MeasuredPlan → List MeasurementPair → List Number
times role pairs = map (λ m. m.execution_time_ms) (present (map (half_of role) pairs))

abbrev pub is_complete : MeasurementPair → Bool
is_complete p = not (is_none p.default || is_none p.candidate)

-- Whether the result is this number.
abbrev pub is_result : Result TimeoutError Number → Number → Bool
is_result (err e) y = false
is_result (ok x) y = number_eq x y

-- MeasuredOutcome.completed_measurements. `is_close a b` is math.isclose.
unfoldable pub completed_measurements :
    Floats → (Number → Number → Bool) → MeasuredOutcome → Result EvidenceError (Unit {0})
unfolding number_le
completed_measurements floats is_close o = do
  raise_if (is_empty o.paired.measurements) no_pairs
  raise_if (not (all_of is_complete (o.paired.warmups ++ o.paired.measurements))) incomplete_pair
  raise_if
      (not (
          is_result (median floats (times default o.paired.measurements))
            o.default_median_execution_time_ms)
        || not (
            is_result (median floats (times candidate o.paired.measurements))
              o.candidate_median_execution_time_ms))
      medians_differ
  raise_if
      (not (
        is_close o.speedup (
          floats.quotient o.default_median_execution_time_ms o.candidate_median_execution_time_ms)))
      ratio_differs
