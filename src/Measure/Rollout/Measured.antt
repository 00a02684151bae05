-- ===== src/Measure/Rollout/Measured.antt =====
-- The outcome of the pairs: what `measure_selected` returns, and what it has recorded for it.
use qorl.Prelude.{
  ℕ, String, ◌≡◌, refl, sym, ap, ◌∙◌, ◌⊎◌, inl, inr, Bool, true, false, not, ◌||◌, Option, none,
  some, List, ◌++◌, Bool-cases, nat_eq, string_eq, length, all_of, ok,
}
use mathlib.Core.Path.{subst}
use qorl.Numbers.{number_le, whole}
use qorl.Measure.Schemas.{Baseline, Candidate}
use qorl.Measure.Evidence
use qorl.Measure.Evidence.{
  MeasuredPlan, default, candidate, MeasurementPair, PairedMeasurements, Outcome, MeasuredOutcome,
  TimedOutOutcome, same_plan, completed_measurements,
}
use qorl.Measure.Rollout.{
  Rollout, Machine, ◌>>=◌, pure, require, lift, raised_as, invalid_outcome, median_not_positive,
}
use qorl.Measure.Rollout.Attempts.{either, update_id, set_candidates}
use qorl.Measure.Rollout.Finish.{
  measured_outcome, timed_out_outcome, measure_pairs, as_measured, median_ms, median_reference,
  or_not_measured, limit_of,
}
use qorl.Measure.Rollout.Pairing.{on_pairs, expected_plan, execute_pairs, shuffled}
use qorl.Measure.Rollout.Steps.{after-ok, require-ok, ok-inj, SameFacts, SameFacts-trans}
use qorl.Measure.Rollout.Pairs.{Cut, Cut-after}
use qorl.Measure.Rollout.Paired.{either-true, execute_pairs-AllRan, execute_pairs-Cut}
use qorl.Measure.Rollout.Gathered.{ReportsLimit, AllRan, pair_ran}

-- The candidate is recorded as measured, and nothing else has changed.
pub record MarkedMeasured (c : Candidate) (s s' : Rollout) : Type 0 where
  pub marked :
      (s'.evaluator).candidates
      ≡ update_id c.candidate_id (λ _. as_measured c) (s.evaluator).candidates
  pub marked_default : (s'.evaluator).default ≡ (s.evaluator).default
  pub marked_selection : (s'.evaluator).selection ≡ (s.evaluator).selection
  pub marked_settings : s'.measurement ≡ s.measurement

-- The outcome of a candidate whose pairs have all run.
pub record IsMeasuredOutcome (c : Candidate) (plan_sha256 reuse_key : String)
    (paired : PairedMeasurements) (final : Outcome) : Type 0 where
  pub outcome : MeasuredOutcome
  pub is_measured_outcome : final ≡ Evidence.measured outcome
  pub of_candidate : outcome.selected_candidate_id ≡ c.candidate_id
  pub of_plan : outcome.selected_plan_sha256 ≡ plan_sha256
  pub of_key : outcome.timing_reuse_key ≡ reuse_key
  pub of_pairs : outcome.paired ≡ paired

-- The outcome of a candidate that has timed out.
pub record IsTimedOut (c : Candidate) (d : Option Baseline) (limit : ℕ) (final : Outcome)
    : Type 0 where
  pub cutoff : TimedOutOutcome
  pub is_timed_out_outcome : final ≡ Evidence.timed_out cutoff
  pub cut_candidate : cutoff.selected_candidate_id ≡ c.candidate_id
  pub cut_plan : cutoff.selected_plan_sha256 ≡ c.plan_sha256
  pub cut_key : cutoff.timing_reuse_key ≡ c.timing_reuse_key
  pub cut_reference : median_reference d ≡ some cutoff.initial_default_median_execution_time_ms
  pub cut_at : cutoff.timeout_ms ≡ limit_of c limit

set_candidates-Marked :
    (c : Candidate) (s s' : Rollout)
    → set_candidates (update_id c.candidate_id (λ _. as_measured c)) s ≡ s'
    → MarkedMeasured c s s'
set_candidates-Marked c s s' e = record {
  marked = ap (λ y. (y.evaluator).candidates) (sym e);
  marked_default = ap (λ y. (y.evaluator).default) (sym e);
  marked_selection = ap (λ y. (y.evaluator).selection) (sym e);
  marked_settings = ap (λ y. y.measurement) (sym e);
}

or_not_measured-ok : {A : Type 0} (o : Option A) (a : A) → or_not_measured o ≡ ok a → o ≡ some a
or_not_measured-ok none a h = cc
or_not_measured-ok (some b) a h = cc

module _ (m : Machine) where
  measured_outcome-ok :
      (c : Candidate) (plan_sha256 reuse_key : String) (final : Outcome) (s s' : Rollout)
      → measured_outcome m c plan_sha256 reuse_key s ≡ (ok final, s')
      → IsMeasuredOutcome c plan_sha256 reuse_key s.paired final × MarkedMeasured c s s'
  unfolding measured_outcome
  measured_outcome-ok c plan_sha256 reuse_key final s s' h =
      let (a, s₁, first, h₁) =
        after-ok (median_ms m.floats default (s.paired).measurements s) _ final s' h in
      let (b, s₂, second, h₂) =
        after-ok (median_ms m.floats candidate (s.paired).measurements s₁) _ final s' h₁ in
      let (_, s₃, positive, h₃) =
        after-ok
          (require (not (number_le a (whole 0) || number_le b (whole 0))) median_not_positive s₂) _
          final s' h₂ in
      let kept₁ : s ≡ s₁ = ap (λ y. y.1) first in
      let kept₂ : s₁ ≡ s₂ = ap (λ y. y.1) second in
      let (_, kept₃) = require-ok _ _ s₂ s₃ positive in
      let o : MeasuredOutcome = record {
        selected_candidate_id = c.candidate_id;
        selected_plan_sha256 = plan_sha256;
        timing_reuse_key = reuse_key;
        paired = s.paired;
        default_median_execution_time_ms = a;
        candidate_median_execution_time_ms = b;
        speedup = (m.floats).quotient a b;
      } in
      let marked = set_candidates (update_id c.candidate_id (λ _. as_measured c)) s₃ in
      let (_, s₄, checked, h₄) =
        after-ok
          (lift (raised_as invalid_outcome (completed_measurements m.floats m.is_close o)) marked) _
          final s' h₃ in
      let same : set_candidates (update_id c.candidate_id (λ _. as_measured c)) s ≡ s' =
        ap (set_candidates (update_id c.candidate_id (λ _. as_measured c))) (kept₁ ∙ kept₂ ∙ kept₃)
        ∙ (ap (λ y. y.1) checked ∙ ap (λ y. y.1) h₄) in
      (
        record {
          outcome = o;
          is_measured_outcome = sym (ok-inj _ _ (ap (λ y. y.0) h₄));
          of_candidate = refl;
          of_plan = refl;
          of_key = refl;
          of_pairs = refl;
        },
        set_candidates-Marked c s s' same,
      )

  pub timed_out_outcome-ok :
      (c : Candidate) (final : Outcome) (s s' : Rollout)
      → timed_out_outcome m c s ≡ (ok final, s')
      → IsTimedOut c (s.evaluator).default (s.evaluator).timeout_ms final × (s ≡ s')
  unfolding timed_out_outcome
  timed_out_outcome-ok c final s s' h =
      let (reference, s₁, found, h₁) =
        after-ok (lift (or_not_measured (median_reference (s.evaluator).default)) s) _ final s' h in
      let kept : s ≡ s₁ = ap (λ y. y.1) found in
      let is_final = ok-inj _ _ (ap (λ y. y.0) h₁) in
      let o : TimedOutOutcome = record {
        selected_candidate_id = c.candidate_id;
        selected_plan_sha256 = c.plan_sha256;
        timing_reuse_key = c.timing_reuse_key;
        initial_default_median_execution_time_ms = reference;
        timeout_ms = limit_of c (s₁.evaluator).timeout_ms;
        paired = s₁.paired;
      } in
      (
        record {
          cutoff = o;
          is_timed_out_outcome = sym is_final;
          cut_candidate = refl;
          cut_plan = refl;
          cut_key = refl;
          cut_reference = or_not_measured-ok _ reference (ap (λ y. y.0) found);
          cut_at = ap (λ y. limit_of c (y.evaluator).timeout_ms) (sym kept);
        },
        kept ∙ ap (λ y. y.1) h₁,
      )

  shuffled-differ : (i : ℕ) → same_plan (shuffled m i).0 (shuffled m i).1 ≡ false
  shuffled-differ i = elim (Bool-cases (m.candidate_first i)) [
    | inl first ↦ rw first refl
    | inr second ↦ rw second refl
  ]

  -- The pairs have all run, and are those of the outcome.
  pub record AllMeasured (c : Candidate) (plan_sha256 reuse_key : String) (s s' : Rollout)
      (final : Outcome) : Type 0 where
    pub warmed : List MeasurementPair
    pub timed : List MeasurementPair
    pub warmed_many : length warmed ≡ (s.measurement).paired_warmups
    pub timed_many : length timed ≡ (s.measurement).paired_measurements
    pub warmed_ran :
        all_of (pair_ran (expected_plan default (s.evaluator).default c) c.plan_sha256) warmed
        ≡ true
    pub timed_ran :
        all_of (pair_ran (expected_plan default (s.evaluator).default c) c.plan_sha256) timed ≡ true
    pub of_all :
        IsMeasuredOutcome c plan_sha256 reuse_key
          (record {
            warmups = (s.paired).warmups ++ warmed;
            measurements = (s.paired).measurements ++ timed;
          })
          final
    pub all_marked : MarkedMeasured c s s'

  abbrev pub IsCut : Candidate → Rollout → Rollout → Outcome → Type 0
  IsCut c s s' final =
      Cut c (s.evaluator).timeout_ms s s'
      × IsTimedOut c (s.evaluator).default (s.evaluator).timeout_ms final

  Marked-after :
      (c : Candidate) (s t s' : Rollout)
      → SameFacts s t
      → MarkedMeasured c t s'
      → MarkedMeasured c s s'
  Marked-after c s t s' same k = record {
    marked = k.marked ∙ ap (update_id c.candidate_id (λ _. as_measured c)) same.same_candidates;
    marked_default = k.marked_default ∙ same.same_default;
    marked_selection = k.marked_selection ∙ same.same_selection;
    marked_settings = k.marked_settings ∙ same.same_settings;
  }

  Cut-IsCut :
      (c : Candidate) (final : Outcome) (s t s' : Rollout)
      → Cut c (s.evaluator).timeout_ms s t
      → timed_out_outcome m c t ≡ (ok final, s')
      → IsCut c s s' final
  Cut-IsCut c final s t s' k h =
      let (is_out, end) = timed_out_outcome-ok c final t s' h in
      (
        subst (Cut c (s.evaluator).timeout_ms s) end k,
        subst (λ d. IsTimedOut c d (s.evaluator).timeout_ms final) k.cut_default
            (subst (λ l. IsTimedOut c (t.evaluator).default l final) k.cut_limit is_out),
      )

  AllRan-AllMeasured :
      (c : Candidate) (plan_sha256 reuse_key : String) (s t u s' : Rollout) (final : Outcome)
      → AllRan true c (s.measurement).paired_warmups s t
      → AllRan false c (s.measurement).paired_measurements t u
      → IsMeasuredOutcome c plan_sha256 reuse_key u.paired final × MarkedMeasured c u s'
      → AllMeasured c plan_sha256 reuse_key s s' final
  AllRan-AllMeasured c plan_sha256 reuse_key s t u s' final a b (measured, marked) = record {
    warmed = a.pairs;
    timed = b.pairs;
    warmed_many = a.many;
    timed_many = b.many;
    warmed_ran = a.all_ran;
    timed_ran =
        sym (
          ap (λ d. all_of (pair_ran (expected_plan default d c) c.plan_sha256) b.pairs)
            (a.all_same).same_default)
        ∙ b.all_ran;
    of_all =
        subst (λ p. IsMeasuredOutcome c plan_sha256 reuse_key p final)
          (b.all_recorded ∙ ap (on_pairs false (λ ps. ps ++ b.pairs)) a.all_recorded) measured;
    all_marked = Marked-after c s u s' (SameFacts-trans s t u a.all_same b.all_same) marked;
  }

  timed_measured-ends :
      (c : Candidate) (plan_sha256 reuse_key : String) (final : Outcome) (s t s' : Rollout)
      → ReportsLimit m.world
      → AllRan true c (s.measurement).paired_warmups s t
      → (execute_pairs m false c (shuffled m) 0 (s.measurement).paired_measurements >>= λ timed.
            either timed (measured_outcome m c plan_sha256 reuse_key) (timed_out_outcome m c))
          t
        ≡ (ok final, s')
      → AllMeasured c plan_sha256 reuse_key s s' final ⊎ IsCut c s s' final
  timed_measured-ends c plan_sha256 reuse_key final s t s' reports a h =
      let (timed, u, ran, h₁) =
        after-ok (execute_pairs m false c (shuffled m) 0 (s.measurement).paired_measurements t) _
          final s' h in
      elim (either-true m timed _ _ u _ h₁) [
        | inl (all, h₂) ↦ inl (
            AllRan-AllMeasured c plan_sha256 reuse_key s t u s' final a
              (execute_pairs-AllRan m false c (shuffled m) 0 (s.measurement).paired_measurements t u
                shuffled-differ (ran ∙ ap (λ b. (ok b, u)) all))
              (measured_outcome-ok c plan_sha256 reuse_key final u s' h₂))
        | inr (stopped, h₂) ↦
            let k =
              execute_pairs-Cut m false c (shuffled m) 0 (s.measurement).paired_measurements t u
                reports shuffled-differ (ran ∙ ap (λ b. (ok b, u)) stopped) in
            inr (
              Cut-IsCut c final s u s'
                (Cut-after c (s.evaluator).timeout_ms s t u a.all_same
                  (subst (λ l. Cut c l t u) (a.all_same).same_limit k))
                h₂)
      ]

  after_warmups-ends :
      (c : Candidate) (plan_sha256 reuse_key : String) (final : Outcome) (s t s' : Rollout)
      (warm : Bool)
      → ReportsLimit m.world
      → execute_pairs m true c (λ _. (candidate, default)) 0 (s.measurement).paired_warmups s
        ≡ (ok warm, t)
      → (either warm
              (execute_pairs m false c (shuffled m) 0 (s.measurement).paired_measurements)
              (pure false)
            >>= λ timed.
                either timed (measured_outcome m c plan_sha256 reuse_key) (timed_out_outcome m c))
          t
        ≡ (ok final, s')
      → AllMeasured c plan_sha256 reuse_key s s' final ⊎ IsCut c s s' final
  after_warmups-ends c plan_sha256 reuse_key final s t s' true reports ran h =
      timed_measured-ends c plan_sha256 reuse_key final s t s' reports
        (execute_pairs-AllRan m true c (λ _. (candidate, default)) 0 (s.measurement).paired_warmups
          s t (λ i. refl) ran)
        h
  after_warmups-ends c plan_sha256 reuse_key final s t s' false reports ran h = inr (
      Cut-IsCut c final s t s'
        (execute_pairs-Cut m true c (λ _. (candidate, default)) 0 (s.measurement).paired_warmups s t
          reports (λ i. refl) ran)
        h)

  -- The pairs end with all of them, or with a timeout of the candidate.
  pub measure_pairs-ends :
      (c : Candidate) (plan_sha256 reuse_key : String) (final : Outcome) (s s' : Rollout)
      → ReportsLimit m.world
      → measure_pairs m c plan_sha256 reuse_key s ≡ (ok final, s')
      → AllMeasured c plan_sha256 reuse_key s s' final ⊎ IsCut c s s' final
  unfolding measure_pairs
  measure_pairs-ends c plan_sha256 reuse_key final s s' reports h =
      let (warm, t, ran, h₁) =
        after-ok
          (execute_pairs m true c (λ _. (candidate, default)) 0 (s.measurement).paired_warmups s) _
          final s' h in
      after_warmups-ends c plan_sha256 reuse_key final s t s' warm reports ran h₁
