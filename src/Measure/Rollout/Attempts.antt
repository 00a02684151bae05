-- ===== src/Measure/Rollout/Attempts.antt =====
-- The attempts of a rollout, of src/qorl/measure/rollout.py: each is validated by the evaluator, and
-- probed where the settings ask for feedback.
use qorl.Prelude.{
  ℕ, zero, suc, ◌+◌, String, Bool, true, false, not, ◌&&◌, ◌||◌, Option, none, some, List, [], ◌∷◌,
  ◌++◌, nat_beq, if◌then◌else◌, ◌==◌, nat_eq, string_eq, first_of?, Result, ok, err, is_none,
  is_empty,
}
use qorl.Numbers.{number_le, whole}
use qorl.Json.{Json}
use qorl.Plans.Schemas.Action.{PlanAction}
use qorl.Measure.Schemas.{
  Measurement, Baseline, Candidate, ExecutionFeedback, FeedbackStatus, collecting, completed,
}
use qorl.Measure.Schemas
use qorl.Measure.Planner.{Explained, Reply, explained, timed_out, broken}
use qorl.Measure.Evidence.{same_option}
use qorl.Measure.Validation
use qorl.Measure.Validation.{Evaluator, timeout_text}
use qorl.Measure.Timeouts.{median}
use qorl.Measure.Rollout.{
  RolloutError, worker, finalizing, not_measured, hints_changed, invalid_action, plan_changed,
  median_not_positive, Rollout, Machine, Run, ◌>>=◌, ◌>>◌, pure, gets, modify, lift, require,
  on_evaluator, in_operation, median_of, measured, check_cancelled, execute,
}

-- self.candidates[-1] = candidate
abbrev pub replace_last : Candidate → List Candidate → List Candidate
replace_last c [] = []
replace_last c (x ∷ []) = c ∷ []
replace_last c (x ∷ y ∷ xs) = x ∷ replace_last c (y ∷ xs)

-- self.candidates[self.candidates.index(candidate)] = …, for the candidate with this identifier: the
-- identifiers of the candidates differ.
abbrev pub update_id : String → (Candidate → Candidate) → List Candidate → List Candidate
update_id id change [] = []
update_id id change (x ∷ xs) =
    let rest = update_id id change xs in if x.candidate_id == id then change x ∷ xs else x ∷ rest

-- xs[:-1]
abbrev pub all_but_last {ℓ} : {A : Type ℓ} → List A → List A
all_but_last [] = []
all_but_last (x ∷ []) = []
all_but_last (x ∷ y ∷ xs) = x ∷ all_but_last (y ∷ xs)

abbrev pub set_candidates : (List Candidate → List Candidate) → Rollout → Rollout
set_candidates change s = record s {
  evaluator = record s.evaluator { candidates = change (s.evaluator).candidates };
}

abbrev pub with_timeout : ℕ → Candidate → Candidate
with_timeout limit c = record c {
  execution_timed_out = true;
  timeout_ms = some limit;
  errors_or_diagnostics = c.errors_or_diagnostics ++ timeout_text limit ∷ [];
}

unfoldable pub mark_timeout : Candidate → ℕ → Run (Unit {0})
mark_timeout c limit =
    modify (set_candidates (update_id c.candidate_id (λ _. with_timeout limit c)))

abbrev pub is_measured : Option Baseline → Bool
is_measured none = false
is_measured (some b) = not (is_none b.median_execution_time_ms)

-- Whether feedback is "completed" or "timed_out".
abbrev pub is_over : Option ExecutionFeedback → Bool
is_over none = false
is_over (some f) = elim f.status [ collecting ↦ false | _ ↦ true ]

abbrev pub new_feedback : ExecutionFeedback
new_feedback = record {
  status = collecting;
  source_id = none;
  warmups = [];
  measurements = [];
  timeout_ms = none;
}

-- source_id or candidate_id
abbrev pub origin : ExecutionFeedback → Candidate → String
origin f c = elim f.source_id [
  | none ↦ c.candidate_id
  | some id ↦ if id == "" then c.candidate_id else id
]

-- What a candidate takes over from an earlier one with its timing-reuse key.
abbrev pub reuse : Candidate → ExecutionFeedback → Candidate → Candidate
reuse source f c = record c {
  execution_timed_out = source.execution_timed_out;
  timeout_ms = source.timeout_ms;
  execution_feedback = some (record new_feedback {
    status = f.status;
    source_id = some (origin f source);
    timeout_ms = f.timeout_ms;
  });
}

abbrev pub reuse_from : Option Candidate → Candidate → Candidate
reuse_from none c = record c { execution_feedback = some new_feedback }
reuse_from (some source) c = elim source.execution_feedback [
  | none ↦ record c { execution_feedback = some new_feedback }
  | some f ↦ reuse source f c
]

-- The candidate with its feedback, before any probe.
unfoldable pub with_feedback : Baseline → List Candidate → Candidate → Candidate
with_feedback b earlier c =
    if same_option c.timing_reuse_key b.timing_reuse_key
    then record c {
      execution_feedback =
          some (record new_feedback { status = completed; source_id = some "default" });
    }
    else reuse_from
        (first_of?
          (λ x. same_option x.timing_reuse_key c.timing_reuse_key && is_over x.execution_feedback)
          earlier)
        c

abbrev pub is_reused : Candidate → Bool
is_reused c = elim c.execution_feedback [ none ↦ false | some f ↦ not (is_none f.source_id) ]

abbrev pub map_feedback : (ExecutionFeedback → ExecutionFeedback) → Candidate → Candidate
map_feedback change c = record c {
  execution_feedback = elim c.execution_feedback [ none ↦ none | some f ↦ some (change f) ];
}

abbrev pub keep_probe_warmup : Measurement → ExecutionFeedback → ExecutionFeedback
keep_probe_warmup x f = record f { warmups = f.warmups ++ x ∷ [] }

abbrev pub keep_probe : Measurement → ExecutionFeedback → ExecutionFeedback
keep_probe x f = record f { measurements = f.measurements ++ x ∷ [] }

abbrev pub feedback_measurements : Candidate → List Measurement
feedback_measurements c = elim c.execution_feedback [ none ↦ [] | some f ↦ f.measurements ]

abbrev pub count_feedback : Rollout → Rollout
count_feedback s = record s {
  execution_counts = record s.execution_counts {
    candidate_feedback = (s.execution_counts).candidate_feedback + 1;
  };
}

abbrev pub or_invalid_action : Result String PlanAction → Result RolloutError PlanAction
or_invalid_action (ok action) = ok action
or_invalid_action (err text) = err (invalid_action text)

abbrev pub either : {A : Type 0} → Bool → Run A → Run A → Run A
either true first second = first
either false first second = second

module _ (m : Machine) where
  unfoldable pub verify_execution : Candidate → Explained → Measurement → Run (Unit {0})
  verify_execution c result observation = do
    action ← lift (or_invalid_action ((m.planner).from_raw c.action))
    let errors = (m.planner).verify_action action result.plan result.hint_diagnostics
    require (is_empty errors) (hints_changed errors)
    require (same_option (some observation.plan_sha256) c.plan_sha256) plan_changed

  -- The guards of `check_attempt` before those of the evaluator.
  unfoldable pub attempt_allowed : Run (Unit {0})
  attempt_allowed = do
    started ← gets (λ s. s.finalization_started)
    require (not started) finalizing
    default ← gets (λ s. (s.evaluator).default)
    require (is_measured default) not_measured

  unfoldable pub check_attempt : Run (Unit {0})
  unfolding attempt_allowed Validation.check_attempt
  check_attempt = attempt_allowed >> on_evaluator (Validation.check_attempt m.planner m.world)

  -- The evaluator's `reject_attempt`, which begins with this class's `check_attempt`.
  unfoldable pub reject_attempt : Json → List String → Run Candidate
  unfolding attempt_allowed Validation.reject_attempt
  reject_attempt arguments diagnostics =
      attempt_allowed
      >> on_evaluator (Validation.reject_attempt m.planner m.world arguments diagnostics)

  -- The end of a probe by a timeout.
  unfoldable pub probe_timed_out : Candidate → ℕ → Run (Unit {0})
  unfolding mark_timeout check_cancelled
  probe_timed_out c limit = do
    let cut = map_feedback (λ f. record f { status = Schemas.timed_out; timeout_ms = some limit }) c
    modify (set_candidates (replace_last cut))
    mark_timeout cut limit
    check_cancelled m
    in_operation "agent"

  -- One probe: the candidate with its measurement, or none after a timeout.
  unfoldable pub probe_reply :
      (Measurement → ExecutionFeedback → ExecutionFeedback)
      → Candidate
      → Reply
      → Run (Option Candidate)
  unfolding probe_timed_out check_cancelled measured verify_execution
  probe_reply keep_run c (broken text) = lift (err (worker text))
  probe_reply keep_run c (timed_out limit) = probe_timed_out c limit >> pure none
  probe_reply keep_run c (explained result) = do
    observation ← lift (measured m result)
    let seen = map_feedback (keep_run observation) c
    modify (set_candidates (replace_last seen))
    check_cancelled m
    verify_execution seen result observation
    pure (some seen)

  unfoldable pub probe :
      (Measurement → ExecutionFeedback → ExecutionFeedback) → Candidate → Run (Option Candidate)
  unfolding check_cancelled execute probe_reply
  probe keep_run c = do
    check_cancelled m
    modify count_feedback
    timeout_ms ← gets (λ s. (s.evaluator).timeout_ms)
    reply ← execute m timeout_ms c.compiled_hint
    probe_reply keep_run c reply

  -- Whether to go on with a candidate.
  abbrev pub go_on :
      (Candidate → Run (Option Candidate)) → Option Candidate → Run (Option Candidate)
  go_on next none = pure none
  go_on next (some c) = next c

  unfoldable pub probes :
      (Measurement → ExecutionFeedback → ExecutionFeedback) → ℕ → Candidate → Run (Option Candidate)
  unfolding probe
  probes keep_run zero c = pure (some c)
  probes keep_run (suc n) c = probe keep_run c >>= go_on (λ d. probes keep_run n d)

  -- self.candidates[-1]
  abbrev pub last_or : Candidate → List Candidate → Candidate
  last_or c [] = c
  last_or c (x ∷ xs) = last_or x xs

  -- The end of feedback: after a timeout the candidate is as it was recorded.
  unfoldable pub complete_feedback : Candidate → Option Candidate → Run Candidate
  unfolding median number_le
  complete_feedback c none = gets (λ s. last_or c (s.evaluator).candidates)
  complete_feedback _ (some c) = do
    median_ms ← lift (median_of m.floats (feedback_measurements c))
    require (not (number_le median_ms (whole 0))) median_not_positive
    let done = map_feedback (λ f. record f { status = completed }) c
    modify (set_candidates (replace_last done))
    in_operation "agent"
    pure done

  -- The warm-ups, then the measurements, unless a warm-up times out.
  unfoldable pub probe_all : Candidate → Run Candidate
  unfolding probes complete_feedback
  probe_all c = do
    settings ← gets (λ s. s.measurement)
    in_operation "candidate_feedback_warmup"
    warm ← probes keep_probe_warmup settings.candidate_feedback_warmups c
    measured_probes ←
        go_on
          (λ d.
            in_operation "candidate_feedback_measurement"
            >> probes keep_probe settings.candidate_feedback_measurements d)
          warm
    complete_feedback c measured_probes

  unfoldable pub give_feedback : Candidate → Option Baseline → Run Candidate
  unfolding with_feedback probe_all
  give_feedback c none = lift (err not_measured)
  give_feedback c (some b) = do
    earlier ← gets (λ s. all_but_last (s.evaluator).candidates)
    let d = with_feedback b earlier c
    modify (set_candidates (replace_last d))
    either (is_reused d) (pure d) (probe_all d)

  unfoldable pub evaluate : Json → Run Candidate
  unfolding attempt_allowed Validation.evaluate give_feedback
  evaluate raw_action = do
    attempt_allowed
    c ← on_evaluator (Validation.evaluate m.planner m.world raw_action)
    settings ← gets (λ s. s.measurement)
    baseline ← gets (λ s. (s.evaluator).default)
    either (not c.constraints_satisfied || nat_beq settings.candidate_feedback_measurements 0)
        (pure c) (give_feedback c baseline)
