-- ===== src/Measure/Rollout/Starting.antt =====
-- What `start` of src/qorl/measure/rollout.py leaves, once it has returned.
use qorl.Prelude.{ℕ, ◌≡◌, refl, sym, ap, ◌∙◌, true, not, Option, some, [], nat_eq, string_eq, ok}
use qorl.Numbers.{Number, whole, number_le}
use qorl.Measure.Timeouts.{median, candidate_timeout_ms}
use qorl.Measure.Schemas.{Baseline}
use qorl.Measure.Evidence.{RolloutMeasurementSettings}
use qorl.Measure.Evidence.Matches.{times_of}
use qorl.Measure.Validation
use qorl.Measure.Validation.{Evaluator, reply_default, ◌▷◌}
use qorl.Measure.Rollout
use qorl.Measure.Rollout.{
  Rollout, RolloutError, Machine, Run, after, ◌>>=◌, ◌>>◌, pure, require, lift, check_cancelled,
  time_defaults, keep_warmup, keep_measurement, timed_default, fresh_default, default_measurements,
  limit_candidates, start, median_of, raised_as, invalid_timeout, on_evaluator, of_evaluator,
  modify, gets, in_operation,
}
use qorl.Measure.Rollout.Steps.{after-ok, ok-inj, require-ok, check_cancelled-Quiet}
use qorl.Measure.Rollout.Started.{time_defaults-Timed}
use qorl.Measure.Rollout.Sound.{is_keyed}
use qorl.Measure.Rollout.Explaining.{start-candidates, IsKeyed, start-Gives, given-start}
use qorl.Measure.Rollout.Assembling.{IsStarted, raised_as-ok, with_runs, measuring, assemble}

module _ (m : Machine) where
  limit_candidates-ok :
      (settings : RolloutMeasurementSettings) (d : Option Baseline) (s s' : Rollout)
      → limit_candidates m settings s ≡ (ok d, s')
      → (x : Number) × (limit : ℕ) × (median m.floats (times_of (default_measurements s)) ≡ ok x)
        × (candidate_timeout_ms m.floats x settings.candidate_timeout_floor_seconds
              settings.candidate_timeout_multiplier
            ≡ ok limit)
        × (d ≡ (s'.evaluator).default)
        × (timed_default x limit s ≡ s')
  unfolding limit_candidates
  limit_candidates-ok settings d s s' h =
      let (x, t, found, h₁) =
        after-ok (lift (median_of m.floats (default_measurements s)) s) _ d s' h in
      let (_, u, positive, h₂) =
        after-ok (require (not (number_le x (whole 0))) Rollout.median_not_positive t) _ d s' h₁ in
      let (_, same) = require-ok _ _ t u positive in
      let cutoff =
        candidate_timeout_ms m.floats x settings.candidate_timeout_floor_seconds
          settings.candidate_timeout_multiplier in
      let (limit, v, limited, h₃) =
        after-ok (lift (raised_as invalid_timeout cutoff) u) _ d s' h₂ in
      let unchanged : s ≡ v = ap (λ y. y.1) found ∙ same ∙ ap (λ y. y.1) limited in
      let end : timed_default x limit v ≡ s' = ap (λ y. y.1) h₃ in
      (
        x,
        limit,
        raised_as-ok _ x (ap (λ y. y.0) found),
        raised_as-ok cutoff limit (ap (λ y. y.0) limited),
        sym (ok-inj _ _ (ap (λ y. y.0) h₃)) ∙ ap (λ y. (y.evaluator).default) end,
        ap (timed_default x limit) unchanged ∙ end,
      )

  started-keyed :
      (s s₁ : Rollout) (b : Baseline)
      → on_evaluator (Validation.start m.planner m.world) s ≡ (ok b, s₁)
      → is_keyed m.planner (some b) ≡ true
  started-keyed s s₁ b h =
      given-start (IsKeyed m.planner) (Validation.start m.planner m.world s.evaluator) s s₁ b h
        (start-Gives m.planner m.world s.evaluator)

  began-candidates :
      (s s₁ : Rollout) (b : Baseline)
      → on_evaluator (Validation.start m.planner m.world) s ≡ (ok b, s₁)
      → (s₁.evaluator).candidates ≡ (s.evaluator).candidates
  began-candidates s s₁ b h =
      ap (λ y. ((y.1).evaluator).candidates) (sym h)
      ∙ start-candidates m.planner m.world (s.evaluator).candidates s.evaluator refl

  -- Where `start` returns, the default has been run as often as the settings ask for, each time with
  -- the plan that was explained; its key is that of its plan, its median is that of the measurements
  -- and sets the limit of the candidates; and each execution is counted.
  pub start-IsStarted :
      (s s' : Rollout) (d : Option Baseline)
      → start m s ≡ (ok d, s')
      → (b : Baseline) × (x : Number) × (d ≡ some b) × IsStarted m s s' b x
  unfolding start
  start-IsStarted s s' d h =
      let (baseline, s₁, explained_default, h₁) =
        after-ok (on_evaluator (Validation.start m.planner m.world) s) _ d s' h in
      let settings = s₁.measurement in
      let s₂ = fresh_default baseline s₁ in
      let (_, s₃, warmed, h₂) =
        after-ok (time_defaults m keep_warmup baseline.plan_sha256 settings.default_warmups s₂) _ d
          s' h₁ in
      let (_, s₅, measured_default, h₃) =
        after-ok
          (time_defaults m keep_measurement baseline.plan_sha256 settings.default_measurements
            (measuring s₃))
          _ d s' h₂ in
      let (_, s₆, unset, h₄) = after-ok (check_cancelled m s₅) _ d s' h₃ in
      let (x, limit, found, cutoff, is_d, end) = limit_candidates-ok settings d s₆ s' h₄ in
      let (b, k) =
        assemble m baseline x limit s s₁ s₃ s₅ s₆ s' (started-keyed s s₁ baseline explained_default)
          (began-candidates s s₁ baseline explained_default)
          (ap (λ y. (y.1).measurement) (sym explained_default))
          (ap (λ y. (y.1).execution_counts) (sym explained_default))
          (ap (λ y. (y.1).paired) (sym explained_default))
          (time_defaults-Timed m keep_warmup baseline.plan_sha256 settings.default_warmups
            (with_runs baseline [] []) s₂ s₃ refl warmed)
          (λ c has.
            time_defaults-Timed m keep_measurement baseline.plan_sha256
              settings.default_measurements c (measuring s₃) s₅ has measured_default)
          (check_cancelled-Quiet m (ok tt) s₅ s₆ unset) found cutoff end in
      (b, x, is_d ∙ k.is_default, k)
