-- ===== src/Measure/Rollout/Assembling.antt =====
-- What `start`, of src/qorl/measure/rollout.py, leaves, from what its parts leave.
use qorl.Prelude.{
  ℕ, ◌+◌, ◌≡◌, refl, sym, ap, ◌∙◌, Bool, true, false, not, ◌&&◌, Option, none, some, List, [], ◌++◌,
  arith, nat_beq_iff, ◌==◌, nat_eq, string_eq, length, all_of, Result, ok, err, raise_if, >>-eq-ok,
}
use mathlib.Core.Path.{subst}
use qorl.Numbers.{Number, is_nan, nan}
use qorl.Measure.Timeouts.{
  Floats, TimeoutError, median, median_not_positive, candidate_timeout_ms, is_positive,
}
use qorl.Measure.Schemas.{Measurement, Baseline}
use qorl.Measure.Evidence.{RolloutMeasurementSettings, is_result}
use qorl.Measure.Evidence.Matches.{times_of}
use qorl.Measure.Rollout.{
  Rollout, Machine, keep_warmup, keep_measurement, timed_default, fresh_default,
  default_measurements, raised_as, invalid_timeout,
}
use qorl.Measure.Rollout.Steps.{ok-inj, Quiet}
use qorl.Measure.Rollout.Support.{is_timed, number_eq_self}
use qorl.Measure.Rollout.Started.{
  all_of-append, Timed, keep_all, keep_all-warmups, keep_all-measurements,
}
use qorl.Measure.Rollout.Sound.{is_keyed}

-- What `start` leaves, and gives back.
pub record IsStarted (m : Machine) (s s' : Rollout) (b : Baseline) (x : Number) : Type 0 where
  pub is_default : (s'.evaluator).default ≡ some b
  pub is_median : b.median_execution_time_ms ≡ some x
  pub is_enough : is_timed m.floats s.measurement b x ≡ true
  pub one_plan : all_of (λ y. y.plan_sha256 == b.plan_sha256) (b.warmups ++ b.measurements) ≡ true
  pub is_counted :
      (s'.execution_counts).initial_default
      ≡ (s.execution_counts).initial_default
        + (s.measurement).default_warmups
        + (s.measurement).default_measurements
  pub is_limit :
      candidate_timeout_ms m.floats x
        (s.measurement).candidate_timeout_floor_seconds
        (s.measurement).candidate_timeout_multiplier
      ≡ ok (s'.evaluator).timeout_ms
  pub has_key : is_keyed m.planner (some b) ≡ true
  pub same_candidates : (s'.evaluator).candidates ≡ (s.evaluator).candidates
  pub same_settings : s'.measurement ≡ s.measurement
  pub same_paired : s'.paired ≡ s.paired

is_positive-number : (x : Number) → is_positive x ≡ true → is_nan x ≡ false
is_positive-number nan h = cc
is_positive-number x h = refl

allowed : (b : Bool) (e : TimeoutError) → raise_if (not b) e ≡ ok tt → b ≡ true
allowed true e h = refl
allowed false e h = cc

pub raised_as-ok :
    {A : Type 0} (r : Result TimeoutError A) (a : A) → raised_as invalid_timeout r ≡ ok a → r ≡ ok a
raised_as-ok (ok b) a h = ap ok (ok-inj b a h)
raised_as-ok (err f) a h = cc

candidate_timeout_ms-positive :
    (floats : Floats) (x floor multiplier : Number) (limit : ℕ)
    → candidate_timeout_ms floats x floor multiplier ≡ ok limit
    → is_nan x ≡ false
unfolding candidate_timeout_ms
candidate_timeout_ms-positive floats x floor multiplier limit h =
    let (passed, _) = >>-eq-ok (raise_if (not (is_positive x)) median_not_positive) _ h in
    is_positive-number x (allowed _ _ passed)

-- The default with these runs, before its median is known.
abbrev pub with_runs : Baseline → List Measurement → List Measurement → Baseline
with_runs b warmups measurements = record b { warmups = warmups; measurements = measurements }

abbrev with_median : Number → ℕ → Baseline → Baseline
with_median x limit b = record b {
  median_execution_time_ms = some x;
  candidate_timeout_ms = some limit;
}

all_kept :
    (b : Baseline) (xs ys : List Measurement)
    → keep_all keep_measurement (keep_all keep_warmup (with_runs b [] []) xs) ys ≡ with_runs b xs ys
all_kept b xs ys =
    ap (λ c. keep_all keep_measurement c ys) (keep_all-warmups (with_runs b [] []) xs)
    ∙ keep_all-measurements (with_runs b xs []) ys

four : (a b c d : Bool) → a ≡ true → b ≡ true → c ≡ true → d ≡ false → a && b && c && not d ≡ true
four a b c d h k l n = ground arith

enough :
    (floats : Floats) (settings : RolloutMeasurementSettings) (b : Baseline) (x : Number)
    → length b.warmups ≡ settings.default_warmups
    → length b.measurements ≡ settings.default_measurements
    → median floats (times_of b.measurements) ≡ ok x
    → is_nan x ≡ false
    → is_timed floats settings b x ≡ true
enough floats settings b x n k found number =
    four _ _ _ _ ((nat_beq_iff _ _).1 n) ((nat_beq_iff _ _).1 k)
      (ap (λ r. is_result r x) found ∙ number_eq_self x number) number

known_default :
    (x : Number) (limit : ℕ) (s : Rollout) (b : Baseline)
    → (s.evaluator).default ≡ some b
    → ((timed_default x limit s).evaluator).default ≡ some (with_median x limit b)
known_default x limit s b h =
    ap
      (λ (d : Option Baseline).
        let e : Option Baseline = elim d [ none ↦ none | some c ↦ some (with_median x limit c) ] in
        e)
      h

measurements_are :
    (s : Rollout) (b : Baseline)
    → (s.evaluator).default ≡ some b
    → default_measurements s ≡ b.measurements
measurements_are s b h =
    ap
      (λ (d : Option Baseline).
        let e : List Measurement = elim d [ none ↦ [] | some c ↦ c.measurements ] in e)
      h

abbrev pub measuring : Rollout → Rollout
measuring s = record s { operation = "initial_default_measurement" }

module _ (m : Machine) where
  -- The parts of `start`, put together.
  pub assemble :
      (b : Baseline) (x : Number) (limit : ℕ) (s s₁ s₃ s₅ s₆ s' : Rollout)
      → is_keyed m.planner (some b) ≡ true
      → (s₁.evaluator).candidates ≡ (s.evaluator).candidates
      → s₁.measurement ≡ s.measurement
      → s₁.execution_counts ≡ s.execution_counts
      → s₁.paired ≡ s.paired
      → Timed keep_warmup b.plan_sha256
          (s₁.measurement).default_warmups
          (with_runs b [] [])
          (fresh_default b s₁)
          s₃
      → ((c : Baseline)
          → (s₃.evaluator).default ≡ some c
          → Timed keep_measurement b.plan_sha256
              (s₁.measurement).default_measurements
              c
              (measuring s₃)
              s₅)
      → Quiet s₅ s₆
      → median m.floats (times_of (default_measurements s₆)) ≡ ok x
      → candidate_timeout_ms m.floats x
          (s₁.measurement).candidate_timeout_floor_seconds
          (s₁.measurement).candidate_timeout_multiplier
        ≡ ok limit
      → timed_default x limit s₆ ≡ s'
      → (d : Baseline) × IsStarted m s s' d x
  assemble b x limit s s₁ s₃ s₅ s₆ s' keyed candidates settings counts paired warm timing quiet
        found cutoff end =
      let time = timing (keep_all keep_warmup (with_runs b [] []) warm.runs) warm.kept in
      let ran = with_runs b warm.runs time.runs in
      let before : (s₆.evaluator).default ≡ some ran =
        (quiet.same_facts).same_default
        ∙ (time.kept ∙ ap (λ c. some c) (all_kept b warm.runs time.runs)) in
      let found' : median m.floats (times_of time.runs) ≡ ok x =
        sym (ap (λ ms. median m.floats (times_of ms)) (measurements_are s₆ ran before)) ∙ found in
      let number = candidate_timeout_ms-positive m.floats x _ _ limit cutoff in
      (
        with_median x limit ran,
        subst (λ y. IsStarted m s y (with_median x limit ran) x) end
            (record {
              is_default = known_default x limit s₆ ran before;
              is_median = refl;
              is_enough =
                  enough m.floats s.measurement (with_median x limit ran) x
                    (warm.many ∙ ap (λ y. y.default_warmups) settings)
                    (time.many ∙ ap (λ y. y.default_measurements) settings) found' number;
              one_plan = all_of-append _ warm.runs time.runs warm.ran time.ran;
              is_counted = omega (
                arith,
                ap (λ y. y.initial_default) quiet.same_counts,
                time.counted,
                warm.counted,
                ap (λ y. y.initial_default) counts,
                ap (λ y. y.default_warmups) settings,
                ap (λ y. y.default_measurements) settings,
              );
              is_limit =
                  ap
                    (λ y.
                      candidate_timeout_ms m.floats x y.candidate_timeout_floor_seconds
                        y.candidate_timeout_multiplier)
                    (sym settings)
                  ∙ cutoff;
              has_key = keyed;
              same_candidates =
                  (quiet.same_facts).same_candidates
                  ∙ (time.same_candidates ∙ (warm.same_candidates ∙ candidates));
              same_settings =
                  (quiet.same_facts).same_settings
                  ∙ (time.same_settings ∙ (warm.same_settings ∙ settings));
              same_paired = quiet.same_paired ∙ (time.same_paired ∙ (warm.same_paired ∙ paired));
            }),
      )
