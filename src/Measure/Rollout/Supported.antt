-- ===== src/Measure/Rollout/Supported.antt =====
-- Outcomes of src/qorl/measure/rollout.py and the evidence recorded for them.
use qorl.Prelude.{
  String, ◌≡◌, refl, sym, ap, ◌≢◌, inl, inr, true, false, Option, none, some, arith, nat_eq,
  string_eq, all_of, Result, ok, err,
}
use mathlib.Core.Path.{subst}
use qorl.Numbers.{Number, is_nan}
use qorl.Measure.Schemas.{Baseline, Candidate}
use qorl.Measure.Evidence
use qorl.Measure.Evidence.{Outcome, RolloutRecord, same_option}
use qorl.Measure.Evidence.Matches.{has_id}
use qorl.Measure.Rollout.{Rollout, RolloutError, Machine, Run, pure}
use qorl.Measure.Rollout.Finish.{outcome_of, measure_selected, measure_pairs, identified}
use qorl.Measure.Rollout.Steps.{ok-inj}
use qorl.Measure.Rollout.Paired.{either-true}
use qorl.Measure.Rollout.Gathered.{ReportsLimit}
use qorl.Measure.Rollout.Measured.{measure_pairs-ends}
use qorl.Measure.Rollout.Support.{selected_of}
use qorl.Measure.Rollout.Kinds.{Checks, default_duplicate-Checks}
use qorl.Measure.Rollout.Ready.{
  IsReady, IsChosen, Settled, has_cutoff, shares_plan, first_of?-all_of, usable, late-Settled,
  Cut-Settled, measured-Settled,
}

pub no_outcome :
    (e : RolloutError) (final : Outcome) (s s' : Rollout)
    → ◌≢◌ {A = Result RolloutError Outcome × Rollout} (err e, s) (ok final, s')
no_outcome e final s s' h = cc (ap (λ y. y.0) h)

identified-ok :
    (plan key : Option String) (next : String → String → Run Outcome) (final : Outcome)
    (s s' : Rollout)
    → identified plan key next s ≡ (ok final, s')
    → (p k : String) × (plan ≡ some p) × (key ≡ some k) × (next p k s ≡ (ok final, s'))
identified-ok (some p) (some k) next final s s' h = (p, k, refl, refl, h)
identified-ok none none next final s s' h = absurd (no_outcome _ final s s' h)
identified-ok none (some k) next final s s' h = absurd (no_outcome _ final s s' h)
identified-ok (some p) none next final s s' h = absurd (no_outcome _ final s s' h)

shared_plan :
    (b : Baseline) (c : Candidate)
    → shares_plan (some b) c ≡ true
    → same_option c.timing_reuse_key b.timing_reuse_key ≡ true
    → same_option c.plan_sha256 (some b.plan_sha256) ≡ true
shared_plan b c h k = ground arith

-- What is recorded, where an outcome leaves the state alone.
pub same-Settled :
    (b : Baseline) (x : Number) (s s' : Rollout) (final : Outcome)
    → s ≡ s'
    → ((r : RolloutRecord)
        → r.candidates ≡ (s.evaluator).candidates
        → r.measurement ≡ s.measurement
        → Checks r b x (selected_of final (s.evaluator).candidates) final)
    → Settled b x s s' final
same-Settled b x s s' final e checks =
    subst (λ t. Settled b x s t final) e
      (record {
        settled_default = refl;
        settled_settings = refl;
        settled_ids = refl;
        settled_checks = checks;
      })

-- A measured default is ready to be compared with.
pub record IsReference (b : Baseline) (x : Number) (s : Rollout) : Type 0 where
  pub has_default : (s.evaluator).default ≡ some b
  pub has_median : b.median_execution_time_ms ≡ some x
  pub number : is_nan x ≡ false

module _ (m : Machine) (reports : ReportsLimit m.world) where
  measure_selected-Settled :
      (b : Baseline) (x : Number) (c : Candidate) (final : Outcome) (s s' : Rollout)
      → IsReady m.floats s
      → IsReference b x s
      → IsChosen c s
      → c.execution_timed_out ≡ false
      → same_option c.timing_reuse_key b.timing_reuse_key ≡ false
      → measure_selected m c s ≡ (ok final, s')
      → Settled b x s s' final
  unfolding measure_selected
  measure_selected-Settled b x c final s s' ready reference chosen in_time own h =
      let (plan, key, has_plan, has_key, h₁) =
        identified-ok c.plan_sha256 c.timing_reuse_key (measure_pairs m c) final s s' h in
      elim (measure_pairs-ends m c plan key final s s' reports h₁) [
        | inl all ↦
            measured-Settled m b x c plan key final s s' reference.has_default chosen
              (usable c chosen.is_eligible in_time) own has_plan has_key ready.unpaired all
        | inr (k, out) ↦
            Cut-Settled b x c final s s' (s.evaluator).timeout_ms reference.has_default
              reference.has_median reference.number chosen in_time k out
      ]

  duplicate-Settled :
      (b : Baseline) (x : Number) (c : Candidate) (final : Outcome) (s s' : Rollout)
      → IsReady m.floats s
      → IsReference b x s
      → IsChosen c s
      → c.execution_timed_out ≡ false
      → same_option c.timing_reuse_key b.timing_reuse_key ≡ true
      → identified c.plan_sha256 c.timing_reuse_key
          (λ plan key. pure (Evidence.default_duplicate c.candidate_id plan key))
          s
        ≡ (ok final, s')
      → Settled b x s s' final
  duplicate-Settled b x c final s s' ready reference chosen in_time same_key h =
      let (plan, key, has_plan, has_key, h₁) =
        identified-ok c.plan_sha256 c.timing_reuse_key _ final s s' h in
      let is_final : Evidence.default_duplicate c.candidate_id plan key ≡ final =
        ok-inj _ _ (ap (λ y. y.0) h₁) in
      let all_share =
        subst (λ d. all_of (shares_plan d) (s.evaluator).candidates ≡ true) reference.has_default
          ready.shared in
      let shares =
        first_of?-all_of (shares_plan (some b)) (has_id (some c.candidate_id))
          (s.evaluator).candidates c chosen.recorded all_share in
      subst (Settled b x s s') is_final (
        same-Settled b x s s' (Evidence.default_duplicate c.candidate_id plan key)
          (ap (λ y. y.1) h₁)
          (λ r candidates settings.
            subst (λ y. Checks r b x y (Evidence.default_duplicate c.candidate_id plan key))
              (sym chosen.recorded)
              (default_duplicate-Checks r b x c plan key has_plan has_key
                (usable c chosen.is_eligible in_time) same_key (shared_plan b c shares same_key))))

  pub chosen-Settled :
      (b : Baseline) (x : Number) (c : Candidate) (final : Outcome) (s s' : Rollout)
      → IsReady m.floats s
      → IsReference b x s
      → IsChosen c s
      → outcome_of m b (some c) s ≡ (ok final, s')
      → Settled b x s s' final
  unfolding outcome_of
  chosen-Settled b x c final s s' ready reference chosen h =
      elim (either-true m c.execution_timed_out _ _ s _ h) [
        | inl (late, h₁) ↦
            late-Settled m b x c final s s' reference.has_default reference.has_median
              reference.number chosen
              (first_of?-all_of has_cutoff (has_id (some c.candidate_id)) (s.evaluator).candidates c
                chosen.recorded ready.cutoffs)
              late h₁
        | inr (in_time, h₁) ↦
            elim (either-true m (same_option c.timing_reuse_key b.timing_reuse_key) _ _ s _ h₁) [
              | inl (same_key, h₂) ↦
                  duplicate-Settled b x c final s s' ready reference chosen in_time same_key h₂
              | inr (own, h₂) ↦
                  measure_selected-Settled b x c final s s' ready reference chosen in_time own h₂
            ]
      ]
