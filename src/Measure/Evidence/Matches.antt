-- ===== src/Measure/Evidence/Matches.antt =====
-- RolloutRecord.evidence_matches_outcome of src/qorl/measure/schemas.py: whether the evidence of a
-- rollout supports its outcome.
use qorl.Prelude.{
  ℕ, String, Bool, true, false, not, ◌&&◌, ◌||◌, Option, none, some, List, ◌++◌, map, nat_beq, ◌==◌,
  nat_eq, string_eq, length, some_of, all_of, first_of?, is_distinct, Result, ok, err, ◌>>◌,
  raise_if, is_none,
}
use qorl.Numbers.{Number, number_le}
use qorl.Measure.Timeouts.{Floats, median}
use qorl.Measure.Schemas.{
  Measurement, Baseline, Candidate, SelectionState, failed, selection_eligible,
}
use qorl.Measure.Evidence.{
  Outcome, kept_default, default_duplicate, measured, timed_out, no_valid_candidate,
  selection_failed, RolloutRecord, RolloutMeasurementSettings, EvidenceError, outcome_and_failure,
  repeated_id, unmeasured_default, default_runs_differ, default_median_differs, unknown_selected,
  identity_differs, not_usable, reuse_differs, discards_usable, selection_not_failed,
  reuses_default, pairs_missing, pair_plans_differ, cutoff_differs, reference_differs,
  MeasurementPair, number_eq, same_option, is_result,
}

abbrev pub selected_candidate_id : Outcome → Option String
selected_candidate_id (default_duplicate id sha key) = some id
selected_candidate_id (measured o) = some o.selected_candidate_id
selected_candidate_id (timed_out o) = some o.selected_candidate_id
selected_candidate_id _ = none

abbrev pub selected_plan_sha256 : Outcome → Option String
selected_plan_sha256 (kept_default sha key) = some sha
selected_plan_sha256 (default_duplicate id sha key) = some sha
selected_plan_sha256 (measured o) = some o.selected_plan_sha256
selected_plan_sha256 (timed_out o) = o.selected_plan_sha256
selected_plan_sha256 _ = none

abbrev pub timing_reuse_key : Outcome → Option String
timing_reuse_key (kept_default sha key) = some key
timing_reuse_key (default_duplicate id sha key) = some key
timing_reuse_key (measured o) = some o.timing_reuse_key
timing_reuse_key (timed_out o) = o.timing_reuse_key
timing_reuse_key _ = none

abbrev pub times_of : List Measurement → List Number
times_of = map (λ m. m.execution_time_ms)

-- The checks of the initial default, whose median is `m`.
unfoldable pub check_default :
    Floats → RolloutMeasurementSettings → Baseline → Number → Result EvidenceError (Unit {0})
unfolding number_le
check_default floats settings b m = do
  raise_if
      (not (nat_beq (length b.warmups) settings.default_warmups)
        || not (nat_beq (length b.measurements) settings.default_measurements))
      default_runs_differ
  raise_if (not (is_result (median floats (times_of b.measurements)) m)) default_median_differs

abbrev pub has_id : Option String → Candidate → Bool
has_id none c = false
has_id (some id) c = c.candidate_id == id

-- The recorded attempt that the outcome selects has its plan's identity.
unfoldable pub check_identity : Outcome → Option Candidate → Result EvidenceError (Unit {0})
check_identity final none = raise_if (not (is_none (selected_candidate_id final))) unknown_selected
check_identity final (some c) =
    raise_if
      (not (
        same_option c.plan_sha256 (selected_plan_sha256 final)
        && same_option c.timing_reuse_key (timing_reuse_key final)))
      identity_differs

-- The selected attempt is there, satisfies its constraints, and has not timed out.
abbrev pub is_usable : Option Candidate → Bool
is_usable none = false
is_usable (some c) = c.action_valid && c.constraints_satisfied && not c.execution_timed_out

abbrev pub reuses : Baseline → Outcome → Bool
reuses b final =
    same_option (selected_plan_sha256 final) (some b.plan_sha256)
    && same_option (timing_reuse_key final) b.timing_reuse_key

abbrev pub ran_plan : String → Option Measurement → Bool
ran_plan sha none = false
ran_plan sha (some m) = m.plan_sha256 == sha

abbrev pub ran_plans : Baseline → String → MeasurementPair → Bool
ran_plans b sha p = ran_plan b.plan_sha256 p.default && ran_plan sha p.candidate

abbrev pub has_failed : Option SelectionState → Bool
has_failed none = false
has_failed (some s) = elim s.status [ failed ↦ true | _ ↦ false ]

abbrev pub was_cut_off : ℕ → Option Candidate → Bool
was_cut_off limit none = false
was_cut_off limit (some c) =
    c.execution_timed_out && elim c.timeout_ms [ none ↦ false | some t ↦ nat_beq t limit ]

-- The checks of each kind of outcome.
unfoldable pub check_kind :
    RolloutRecord → Baseline → Number → Option Candidate → Outcome → Result EvidenceError (Unit {0})
unfolding number_le
check_kind r b m selected (kept_default sha key) =
    raise_if (not (reuses b (kept_default sha key))) reuse_differs
check_kind r b m selected (default_duplicate id sha key) = do
  raise_if (not (is_usable selected)) not_usable
  raise_if (not (reuses b (default_duplicate id sha key))) reuse_differs
check_kind r b m selected no_valid_candidate =
    raise_if (some_of selection_eligible r.candidates) discards_usable
check_kind r b m selected selection_failed =
    raise_if (not (has_failed r.selection)) selection_not_failed
check_kind r b m selected (measured o) = do
  raise_if (not (is_usable selected)) not_usable
  raise_if (same_option (some o.timing_reuse_key) b.timing_reuse_key) reuses_default
  raise_if
      (not (nat_beq (length o.paired.warmups) r.measurement.paired_warmups)
        || not (nat_beq (length o.paired.measurements) r.measurement.paired_measurements))
      pairs_missing
  raise_if
      (not
        (all_of (ran_plans b o.selected_plan_sha256) (o.paired.warmups ++ o.paired.measurements)))
      pair_plans_differ
check_kind r b m selected (timed_out o) = do
  raise_if (not (was_cut_off o.timeout_ms selected)) cutoff_differs
  raise_if (not (number_eq o.initial_default_median_execution_time_ms m)) reference_differs

unfoldable pub check_outcome :
    Floats → RolloutRecord → Baseline → Number → Outcome → Result EvidenceError (Unit {0})
unfolding check_default check_identity check_kind
check_outcome floats r b m final = do
  let selected = first_of? (has_id (selected_candidate_id final)) r.candidates
  check_default floats r.measurement b m
  check_identity final selected
  check_kind r b m selected final

unfoldable pub check_reference :
    Floats → RolloutRecord → Baseline → Option Number → Outcome → Result EvidenceError (Unit {0})
unfolding check_outcome
check_reference floats r b none final = err unmeasured_default
check_reference floats r b (some m) final = check_outcome floats r b m final

-- if baseline is None or baseline.median_execution_time_ms is None
unfoldable pub check_measured :
    Floats → RolloutRecord → Option Baseline → Outcome → Result EvidenceError (Unit {0})
unfolding check_reference
check_measured floats r none final = err unmeasured_default
check_measured floats r (some b) final = check_reference floats r b b.median_execution_time_ms final

unfoldable pub check_final :
    Floats → RolloutRecord → Option Outcome → Result EvidenceError (Unit {0})
unfolding check_measured
check_final floats r none = ok tt
check_final floats r (some final) = check_measured floats r r.default final

abbrev pub same_bool : Bool → Bool → Bool
same_bool true b = b
same_bool false b = not b

unfoldable pub evidence_matches_outcome : Floats → RolloutRecord → Result EvidenceError (Unit {0})
unfolding check_final
evidence_matches_outcome floats r = do
  raise_if (same_bool (is_none r.final) (is_none r.failure)) outcome_and_failure
  raise_if (not (is_distinct (map (λ c. c.candidate_id) r.candidates))) repeated_id
  check_final floats r r.final
