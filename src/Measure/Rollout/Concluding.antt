-- ===== src/Measure/Rollout/Concluding.antt =====
-- The steps of `finish`, of src/qorl/measure/rollout.py, around the outcome, and the record that stands on
-- a settled outcome.
use qorl.Prelude.{
  String, ◌≡◌, refl, sym, ap, ◌∙◌, inl, inr, true, false, Option, none, some, arith, Bool-cases,
  nat_eq, string_eq, all_of, is_distinct, Result, ok, err, is_none, is_empty,
}
use mathlib.Core.Path.{subst}
use qorl.Numbers.{Number, is_nan}
use qorl.Measure.Timeouts.{Floats}
use qorl.Measure.Schemas.{Baseline}
use qorl.Measure.Planner.{Failure}
use qorl.Measure.Evidence
use qorl.Measure.Evidence.{
  Outcome, RolloutRecord, RolloutMeasurementSettings, same_option, EvidenceError,
}
use qorl.Measure.Evidence.Matches.{check_default, evidence_matches_outcome}
use qorl.Measure.Validation.{Evaluator}
use qorl.Measure.Validation.Selection.{accept_selection, accept_default, is_default, fail_selection}
use qorl.Measure.Rollout.{Rollout, raised_as, raised, on_evaluator}
use qorl.Measure.Rollout.Finish.{kept_outcome, conclude, rollout_record}
use qorl.Measure.Rollout.Steps.{ok-inj}
use qorl.Measure.Rollout.Chosen.{ids}
use qorl.Measure.Rollout.Support.{is_timed, check_default-ok, evidence-ok}
use qorl.Measure.Rollout.Kinds.{kept_default-Checks, nothing_selected}
use qorl.Measure.Rollout.Ready.{
  IsReady, Settled, has_cutoff, shares_plan, default_timed, timed_reference,
}
use qorl.Measure.Rollout.Supported.{no_outcome, same-Settled}

pub record SameEvidence (s t : Rollout) : Type 0 where
  pub same_default : (t.evaluator).default ≡ (s.evaluator).default
  pub same_candidates : (t.evaluator).candidates ≡ (s.evaluator).candidates
  pub same_settings : t.measurement ≡ s.measurement
  pub same_paired : t.paired ≡ s.paired

pub SameEvidence-IsReady :
    (floats : Floats) (s t : Rollout) → SameEvidence s t → IsReady floats s → IsReady floats t
SameEvidence-IsReady floats s t e r = record {
  distinct = ap (λ cs. is_distinct (ids cs)) e.same_candidates ∙ r.distinct;
  unpaired = e.same_paired ∙ r.unpaired;
  cutoffs = ap (all_of has_cutoff) e.same_candidates ∙ r.cutoffs;
  shared =
      ap (λ d. all_of (shares_plan d) (t.evaluator).candidates) e.same_default
      ∙ (ap (all_of (shares_plan (s.evaluator).default)) e.same_candidates ∙ r.shared);
  timed =
      ap (λ d. default_timed floats t.measurement d) e.same_default
      ∙ (ap (λ y. default_timed floats y (s.evaluator).default) e.same_settings ∙ r.timed);
}

SameEvidence-trans : (s t u : Rollout) → SameEvidence s t → SameEvidence t u → SameEvidence s u
SameEvidence-trans s t u h k = record {
  same_default = k.same_default ∙ h.same_default;
  same_candidates = k.same_candidates ∙ h.same_candidates;
  same_settings = k.same_settings ∙ h.same_settings;
  same_paired = k.same_paired ∙ h.same_paired;
}

pub timed_reference-parts :
    (floats : Floats) (settings : RolloutMeasurementSettings) (d : Option Baseline) (b : Baseline)
    (x : Number)
    → d ≡ some b
    → b.median_execution_time_ms ≡ some x
    → default_timed floats settings d ≡ true
    → is_timed floats settings b x ≡ true
timed_reference-parts floats settings d b x has_default has_median h =
    ap (timed_reference floats settings b) (sym has_median)
    ∙ (ap (default_timed floats settings) (sym has_default) ∙ h)

pub is_timed-number :
    (floats : Floats) (settings : RolloutMeasurementSettings) (b : Baseline) (x : Number)
    → is_timed floats settings b x ≡ true
    → is_nan x ≡ false
is_timed-number floats settings b x h = ground arith

-- The record of a state whose outcome is settled.
Settled-evidence :
    (floats : Floats) (task template : String) (b : Baseline) (x : Number) (s t : Rollout)
    (final : Outcome)
    → IsReady floats s
    → (s.evaluator).default ≡ some b
    → b.median_execution_time_ms ≡ some x
    → Settled b x s t final
    → evidence_matches_outcome floats
        (rollout_record task template none (record t { final = some final }))
      ≡ ok tt
unfolding rollout_record
Settled-evidence floats task template b x s t final ready has_default has_median settled =
    let ended : Rollout = record t { final = some final } in
    let r = rollout_record task template none ended in
    let checks = settled.settled_checks r refl settled.settled_settings in
    evidence-ok floats r b x final refl refl (ap is_distinct settled.settled_ids ∙ ready.distinct)
      (settled.settled_default ∙ has_default) has_median
      (ap (λ y. check_default floats y b x) settled.settled_settings
        ∙ check_default-ok floats s.measurement b x
            (timed_reference-parts floats s.measurement _ b x has_default has_median ready.timed))
      checks.identity checks.kind

abbrev pub IsSupported : Floats → String → String → Rollout → Type 0
IsSupported floats task template s =
    evidence_matches_outcome floats (rollout_record task template none s) ≡ ok tt

pub raised_as-ok :
    {A : Type 0} (r : Result Failure A) (a : A) → raised_as raised r ≡ ok a → r ≡ ok a
raised_as-ok (ok b) a h = ap ok (ok-inj b a h)
raised_as-ok (err f) a h = cc

kept_outcome-ok :
    (b : Baseline) (o : Option String) (final : Outcome) (s s' : Rollout)
    → kept_outcome b o s ≡ (ok final, s')
    → (key : String) × (o ≡ some key) × (Evidence.kept_default b.plan_sha256 key ≡ final) × (s ≡ s')
kept_outcome-ok b none final s s' h = absurd (no_outcome _ final s s' h)
kept_outcome-ok b (some key) final s s' h =
    (key, refl, ok-inj _ _ (ap (λ y. y.0) h), ap (λ y. y.1) h)

-- The outcome of a kept default.
pub kept-Settled :
    (b : Baseline) (x : Number) (final : Outcome) (s s' : Rollout)
    → kept_outcome b b.timing_reuse_key s ≡ (ok final, s')
    → Settled b x s s' final
kept-Settled b x final s s' h =
    let (key, keyed, is_final, same) = kept_outcome-ok b b.timing_reuse_key final s s' h in
    subst (Settled b x s s') is_final (
      same-Settled b x s s' (Evidence.kept_default b.plan_sha256 key) same (λ r candidates settings.
        kept_default-Checks r b x key _ (nothing_selected (s.evaluator).candidates) keyed))

abbrev pub begun : Rollout → Rollout
begun s = record s { finalization_started = true }

pub begun-same : (s : Rollout) → SameEvidence s (begun s)
begun-same s = record {
  same_default = refl;
  same_candidates = refl;
  same_settings = refl;
  same_paired = refl;
}

abbrev pub failed_state : Rollout → Rollout
failed_state s = record s {
  evaluator = fail_selection s.evaluator;
  finalization_started = true;
  final = some Evidence.selection_failed;
}

accept_default-same :
    (e : Evaluator)
    → ((accept_default e).1).candidates ≡ e.candidates
      × (((accept_default e).1).default ≡ e.default)
unfolding accept_default
accept_default-same e = elim (Bool-cases (is_empty e.candidates)) [
  | inl without_attempt ↦ rw (accept_default, without_attempt) (refl, refl)
  | inr attempted ↦ elim (Bool-cases (is_none e.default)) [
    | inl unstarted ↦ rw (accept_default, attempted, unstarted) (refl, refl)
    | inr started ↦ rw (accept_default, attempted, started) (refl, refl)
  ]
]

accept_selection-same :
    (asked : Option String) (e : Evaluator)
    → is_default asked ≡ true
    → ((accept_selection asked e).1).candidates ≡ e.candidates
      × (((accept_selection asked e).1).default ≡ e.default)
unfolding accept_selection
accept_selection-same asked e h = rw (accept_selection, h) (accept_default-same e)

pub accepted-same :
    (asked : Option String) (s t : Rollout)
    → is_default asked ≡ true
    → on_evaluator (accept_selection asked) s ≡ (ok tt, t)
    → SameEvidence s t
accepted-same asked s t is_asked h =
    let (candidates, default) = accept_selection-same asked s.evaluator is_asked in
    subst (SameEvidence s) (ap (λ y. y.1) h) (record {
      same_default = default;
      same_candidates = candidates;
      same_settings = refl;
      same_paired = refl;
    })

-- The evidence once an outcome is settled and recorded.
pub conclude-IsSupported :
    (floats : Floats) (task template : String) (b : Baseline) (x : Number) (s t s' : Rollout)
    (given final : Outcome)
    → IsReady floats s
    → (s.evaluator).default ≡ some b
    → b.median_execution_time_ms ≡ some x
    → Settled b x s t given
    → conclude given t ≡ (ok final, s')
    → IsSupported floats task template s'
conclude-IsSupported floats task template b x s t s' given final ready has_default has_median
      settled h =
    subst (IsSupported floats task template) (ap (λ y. y.1) h)
      (Settled-evidence floats task template b x s t given ready has_default has_median settled)
