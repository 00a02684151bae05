-- ===== src/Measure/Rollout/Pairing.antt =====
-- The measured pairs of src/qorl/measure/rollout.py: `execute_pair`, and the loops of
-- `measure_selected` over it.
use qorl.Prelude.{
  ℕ, zero, suc, ◌+◌, String, Bool, true, false, Option, none, some, List, [], ◌∷◌, ◌++◌,
  if◌then◌else◌, nat_eq, string_eq,
}
use qorl.Measure.Schemas.{Measurement, Baseline, Candidate}
use qorl.Measure.Planner.{Explained, Reply, explained, timed_out}
use qorl.Measure.Evidence.{
  MeasuredPlan, default, candidate, MeasurementPair, PairedMeasurements, same_option,
}
use qorl.Measure.Rollout.{
  plan_changed, Rollout, Machine, Run, ◌>>=◌, ◌>>◌, pure, gets, modify, lift, require, in_operation,
  answer, measured, check_cancelled, execute,
}
use qorl.Measure.Rollout.Attempts.{mark_timeout, verify_execution, either}

abbrev pub set_paired : (PairedMeasurements → PairedMeasurements) → Rollout → Rollout
set_paired change s = record s { paired = change s.paired }

-- The list of pairs that a pair of this kind belongs to.
abbrev pub on_pairs :
    Bool → (List MeasurementPair → List MeasurementPair) → PairedMeasurements → PairedMeasurements
on_pairs true change p = record p { warmups = change p.warmups }
on_pairs false change p = record p { measurements = change p.measurements }

abbrev pub add_pair : MeasuredPlan × MeasuredPlan → List MeasurementPair → List MeasurementPair
add_pair order pairs = pairs ++ record { order = order; default = none; candidate = none } ∷ []

abbrev pub with_half : MeasuredPlan → Measurement → MeasurementPair → MeasurementPair
with_half default x p = record p { default = some x }
with_half candidate x p = record p { candidate = some x }

-- pairs[-1] = …
abbrev pub change_last :
    (MeasurementPair → MeasurementPair) → List MeasurementPair → List MeasurementPair
change_last change [] = []
change_last change (p ∷ []) = change p ∷ []
change_last change (p ∷ q ∷ ps) = p ∷ change_last change (q ∷ ps)

abbrev pub count_paired : Rollout → Rollout
count_paired s = record s {
  execution_counts = record s.execution_counts {
    final_paired = (s.execution_counts).final_paired + 1;
  };
}

abbrev pub pair_operation : Bool → MeasuredPlan → String
pair_operation true default = "paired_warmup_default"
pair_operation true candidate = "paired_warmup_candidate"
pair_operation false default = "paired_measurement_default"
pair_operation false candidate = "paired_measurement_candidate"

-- The plan that a half is expected to run.
abbrev pub expected_plan : MeasuredPlan → Option Baseline → Candidate → Option String
expected_plan default (some b) c = some b.plan_sha256
expected_plan _ _ c = c.plan_sha256

module _ (m : Machine) where
  -- if role == MeasuredPlan.CANDIDATE: self.verify_execution(…)
  unfoldable pub verify_role : MeasuredPlan → Candidate → Explained → Measurement → Run (Unit {0})
  unfolding verify_execution
  verify_role default c result x = pure tt
  verify_role candidate c result x = verify_execution m c result x

  -- One half of a pair, once it has run.
  unfoldable pub keep_half : Bool → Candidate → MeasuredPlan → Explained → Run Bool
  unfolding measured check_cancelled verify_role
  keep_half warmup c role result = do
    observation ← lift (measured m result)
    modify (set_paired (on_pairs warmup (change_last (with_half role observation))))
    check_cancelled m
    verify_role role c result observation
    baseline ← gets (λ s. (s.evaluator).default)
    require (same_option (some observation.plan_sha256) (expected_plan role baseline c))
        plan_changed
    pure true

  -- Only a candidate's timeout is a decision.
  unfoldable pub half_reply : Bool → Candidate → MeasuredPlan → Reply → Run Bool
  unfolding keep_half mark_timeout check_cancelled
  half_reply warmup c role (explained result) = keep_half warmup c role result
  half_reply warmup c candidate (timed_out limit) =
      mark_timeout c limit >> (check_cancelled m >> pure false)
  half_reply warmup c role reply = lift (answer reply) >>= λ _. pure false

  abbrev pub half_timeout : MeasuredPlan → Rollout → ℕ
  half_timeout default s = s.default_timeout_ms
  half_timeout candidate s = (s.evaluator).timeout_ms

  abbrev pub half_hint : MeasuredPlan → Candidate → String
  half_hint default c = ""
  half_hint candidate c = c.compiled_hint

  -- The body of the loop over the roles of a pair; false after a timeout of the candidate.
  unfoldable pub run_half : Bool → Candidate → MeasuredPlan → Run Bool
  unfolding check_cancelled execute half_reply
  run_half warmup c role = do
    check_cancelled m
    in_operation (pair_operation warmup role)
    modify count_paired
    timeout_ms ← gets (half_timeout role)
    reply ← execute m timeout_ms (half_hint role c)
    half_reply warmup c role reply

  unfoldable pub execute_pair : Bool → Candidate → MeasuredPlan × MeasuredPlan → Run Bool
  unfolding run_half
  execute_pair warmup c order = do
    modify (set_paired (on_pairs warmup (add_pair order)))
    went ← run_half warmup c order.0
    either went (run_half warmup c order.1) (pure false)

  -- rng.shuffle(order), for the `i`-th measured pair
  abbrev pub shuffled : ℕ → MeasuredPlan × MeasuredPlan
  shuffled i = if m.candidate_first i then (candidate, default) else (default, candidate)

  -- `n` pairs, from the `i`-th on; false after a timeout
  unfoldable pub execute_pairs :
      Bool → Candidate → (ℕ → MeasuredPlan × MeasuredPlan) → ℕ → ℕ → Run Bool
  unfolding execute_pair
  execute_pairs warmup c order i zero = pure true
  execute_pairs warmup c order i (suc n) = do
    went ← execute_pair warmup c (order i)
    either went (execute_pairs warmup c order (i + 1) n) (pure false)
