-- ===== src/Measure/Rollout/Retained.antt =====
-- The executions of the default that a rollout keeps, where `start` returns and where it raises.
use qorl.Prelude.{
  ℕ, zero, suc, ◌+◌, ◌≤◌, String, ◌≡◌, refl, sym, ap, ◌∙◌, true, false, not, Option, none, some, [],
  ◌∷◌, arith, ◌==◌, nat_eq, string_eq, length, length-append, is_none,
}
use qorl.Numbers.{Number, number_le, whole}
use qorl.Measure.Schemas.{Measurement, Baseline}
use qorl.Measure.Planner.{Planner, World, Reply, explained, timed_out, broken}
use qorl.Measure.Timeouts.{candidate_timeout_ms}
use qorl.Measure.Evidence.{RolloutMeasurementSettings}
use qorl.Measure.Validation
use qorl.Measure.Validation.{Evaluator, reply_default}
use qorl.Measure.Validation.Invariant.{▷-keeps, if-keeps}
use qorl.Measure.Rollout.{
  on_evaluator, in_operation, Rollout, Machine, Run, modify, ◌>>=◌, ◌>>◌, require, lift, answer,
  measured, check_cancelled, execute, time_default, time_defaults, keep_warmup, keep_measurement,
  default_measurements, limit_candidates, start, median_of, median_not_positive, plan_changed,
  raised_as, invalid_timeout, count_default, fresh_default, timed_default,
}
use qorl.Measure.Rollout.Steps.{Quiet}
use qorl.Measure.Rollout.Started.{add_run}
use qorl.Measure.Rollout.Assembling.{measuring}
use qorl.Measure.Rollout.Triples.{
  Ends, after-Ends, weaken-Ends, require-Ends, of_evaluator-Ends, check_cancelled-then, lift-then,
}

abbrev pub runs_of : Baseline → ℕ
runs_of b = length b.warmups + length b.measurements

abbrev pub runs_kept : Option Baseline → ℕ
runs_kept none = 0
runs_kept (some b) = runs_of b

-- From a count of `c` on, the default has been executed as often as the state keeps measurements of
-- it, and `n` times more.
abbrev pub IsKept : ℕ → ℕ → Rollout → Type 0
IsKept n c s =
    (is_none (s.evaluator).default ≡ false)
    × ((s.execution_counts).initial_default ≡ runs_kept (s.evaluator).default + c + n)

-- At most one execution, the last, is not kept.
abbrev pub IsRetained : ℕ → Rollout → Type 0
IsRetained c s =
    (runs_kept (s.evaluator).default + c ≤ (s.execution_counts).initial_default)
    × ((s.execution_counts).initial_default ≤ runs_kept (s.evaluator).default + c + 1)

IsKept-still : (n c : ℕ) (s s' : Rollout) → Quiet s s' → IsKept n c s → IsKept n c s'
IsKept-still n c s s' q (started, count) = (
  ap is_none (q.same_facts).same_default ∙ started,
  ap (λ y. y.initial_default) q.same_counts
      ∙ (count ∙ ap (λ d. runs_kept d + c + n) (sym (q.same_facts).same_default)),
)

IsKept-IsRetained : (n c : ℕ) (s : Rollout) → n ≤ 1 → IsKept n c s → IsRetained c s
IsKept-IsRetained n c s h (started, count) = (omega (arith, count, h), omega (arith, count, h))

-- A step that keeps one more measurement.
abbrev KeepsOne : (Measurement → Baseline → Baseline) → Type 0
KeepsOne keep_run = (x : Measurement) (b : Baseline) → runs_of (keep_run x b) ≡ runs_of b + 1

keep_warmup-one : KeepsOne keep_warmup
keep_warmup-one x b = omega (arith, length-append b.warmups (x ∷ []))

keep_measurement-one : KeepsOne keep_measurement
keep_measurement-one x b = omega (arith, length-append b.measurements (x ∷ []))

keep_in : (Measurement → Baseline → Baseline) → Measurement → Option Baseline → Option Baseline
keep_in keep_run x d = elim d [ none ↦ none | some b ↦ some (keep_run x b) ]

keep_in-kept :
    (keep_run : Measurement → Baseline → Baseline) (c k : ℕ) (x : Measurement) (d : Option Baseline)
    → KeepsOne keep_run
    → is_none d ≡ false
    → k ≡ runs_kept d + c + 1
    → (is_none (keep_in keep_run x d) ≡ false) × (k ≡ runs_kept (keep_in keep_run x d) + c + 0)
unfolding keep_in
keep_in-kept keep_run c k x none one started count = cc
keep_in-kept keep_run c k x (some b) one started count = (refl, omega (arith, count, one x b))

add_run-IsKept :
    (keep_run : Measurement → Baseline → Baseline) (c : ℕ) (x : Measurement) (s : Rollout)
    → KeepsOne keep_run
    → IsKept 1 c s
    → IsKept 0 c (add_run keep_run x s)
unfolding keep_in
add_run-IsKept keep_run c x s one (started, count) =
    keep_in-kept keep_run c _ x (s.evaluator).default one started count

timed : Number → ℕ → Option Baseline → Option Baseline
timed x limit d = elim d [
  | none ↦ none
  | some b ↦
      some (record b { median_execution_time_ms = some x; candidate_timeout_ms = some limit })
]

timed-kept :
    (x : Number) (limit c k : ℕ) (d : Option Baseline)
    → is_none d ≡ false
    → k ≡ runs_kept d + c + 0
    → (is_none (timed x limit d) ≡ false) × (k ≡ runs_kept (timed x limit d) + c + 0)
unfolding timed
timed-kept x limit c k none started count = cc
timed-kept x limit c k (some b) started count = (refl, count)

timed_default-IsKept :
    (c : ℕ) (x : Number) (limit : ℕ) (s : Rollout)
    → IsKept 0 c s
    → IsKept 0 c (timed_default x limit s)
unfolding timed
timed_default-IsKept c x limit s (started, count) =
    timed-kept x limit c _ (s.evaluator).default started count

-- The end of one execution.
abbrev keep_checked : (Measurement → Baseline → Baseline) → String → Measurement → Run (Unit {0})
keep_checked keep_run plan_sha256 x =
    modify (add_run keep_run x) >> require (x.plan_sha256 == plan_sha256) plan_changed

module _ (m : Machine) (c : ℕ) where
  keep_checked-Ends :
      (keep_run : Measurement → Baseline → Baseline) (plan_sha256 : String) (x : Measurement)
      (s : Rollout)
      → KeepsOne keep_run
      → IsKept 1 c s
      → Ends (IsRetained c) (λ _. IsKept 0 c) (keep_checked keep_run plan_sha256 x s)
  keep_checked-Ends keep_run plan_sha256 x s one began =
      let done = add_run-IsKept keep_run c x s one began in
      require-Ends (IsRetained c) (IsKept 0 c) _ plan_changed (add_run keep_run x s) (λ _. done)
        (IsKept-IsRetained 0 c (add_run keep_run x s) (omega arith) done)

  time_default-Ends :
      (keep_run : Measurement → Baseline → Baseline) (plan_sha256 : String) (s : Rollout)
      → KeepsOne keep_run
      → IsKept 0 c s
      → Ends (IsRetained c) (λ _. IsKept 0 c) (time_default m keep_run plan_sha256 s)
  unfolding time_default
  time_default-Ends keep_run plan_sha256 s one kept =
      check_cancelled-then m (IsKept 0 c) (IsRetained c) (λ _. IsKept 0 c) s _ (IsKept-still 0 c)
        (λ t. IsKept-IsRetained 0 c t (omega arith)) kept
        (λ s₁ k₁.
          let began : IsKept 1 c (count_default s₁) = (k₁.0, omega (arith, k₁.1)) in
          let bad = IsKept-IsRetained 1 c (count_default s₁) (omega arith) began in
          let s₂ = (execute m s₁.default_timeout_ms "" (count_default s₁)).1 in
          let reply =
            (m.world).explain (s₁.evaluator).calls (m.world).sql s₁.default_timeout_ms true "" in
          lift-then (IsRetained c) (λ _. IsKept 0 c) (answer reply) s₂
            (λ result. lift (measured m result) >>= λ x. keep_checked keep_run plan_sha256 x) bad
            (λ result.
              lift-then (IsRetained c) (λ _. IsKept 0 c) (measured m result) s₂
                (keep_checked keep_run plan_sha256) bad
                (λ x. keep_checked-Ends keep_run plan_sha256 x s₂ one began)))

  time_defaults-Ends :
      (keep_run : Measurement → Baseline → Baseline) (plan_sha256 : String) (n : ℕ) (s : Rollout)
      → KeepsOne keep_run
      → IsKept 0 c s
      → Ends (IsRetained c) (λ _. IsKept 0 c) (time_defaults m keep_run plan_sha256 n s)
  unfolding time_defaults
  time_defaults-Ends keep_run plan_sha256 zero s one kept = kept
  time_defaults-Ends keep_run plan_sha256 (suc n) s one kept =
      after-Ends (IsRetained c) (λ _. IsKept 0 c) (λ _. IsKept 0 c)
        (time_default m keep_run plan_sha256 s) _
        (time_default-Ends keep_run plan_sha256 s one kept)
        (λ _ t k. time_defaults-Ends keep_run plan_sha256 n t one k)

  limit_candidates-Ends :
      (settings : RolloutMeasurementSettings) (s : Rollout)
      → IsKept 0 c s
      → Ends (IsRetained c) (λ _. IsKept 0 c) (limit_candidates m settings s)
  unfolding limit_candidates
  limit_candidates-Ends settings s kept =
      let bad = IsKept-IsRetained 0 c s (omega arith) kept in
      lift-then (IsRetained c) (λ _. IsKept 0 c) (median_of m.floats (default_measurements s)) s _
        bad
        (λ x.
          after-Ends (IsRetained c) (λ _. IsKept 0 c) (λ _. IsKept 0 c)
            (require (not (number_le x (whole 0))) median_not_positive s) _
            (require-Ends (IsRetained c) (IsKept 0 c) _ median_not_positive s (λ _. kept) bad)
            (λ _ t k.
              lift-then (IsRetained c) (λ _. IsKept 0 c)
                (raised_as invalid_timeout (
                  candidate_timeout_ms m.floats x settings.candidate_timeout_floor_seconds
                    settings.candidate_timeout_multiplier))
                t _ (IsKept-IsRetained 0 c t (omega arith) k)
                (λ limit. timed_default-IsKept c x limit t k)))

module _ (planner : Planner) (world : World) where
  reply_default-unrun :
      (reply : Reply) (e : Evaluator)
      → runs_kept e.default ≡ 0
      → runs_kept ((reply_default planner world reply e).1).default ≡ 0
  unfolding reply_default Validation.check_cancelled
  reply_default-unrun (broken text) e h = h
  reply_default-unrun (timed_out limit) e h = h
  reply_default-unrun (explained plain) e h =
      ▷-keeps (λ y. runs_kept y.default ≡ 0)
        (Validation.check_cancelled planner world (Validation.with_default planner world plain e)) _
        (λ f raised. refl) (λ a allowed. refl)

  start-unrun :
      (e : Evaluator)
      → e.default ≡ none
      → runs_kept ((Validation.start planner world e).1).default ≡ 0
  unfolding Validation.start Validation.explain_default Validation.check_cancelled
  start-unrun e h =
      let unrun : runs_kept e.default ≡ 0 = ap runs_kept h in
      if-keeps (λ y. runs_kept y.default ≡ 0) (is_none e.default) _ _
        (λ unstarted.
          ▷-keeps (λ y. runs_kept y.default ≡ 0) (Validation.check_cancelled planner world e) _
            (λ f raised. unrun) (λ a allowed. reply_default-unrun _ _ unrun))
        (λ started. unrun)

abbrev Unrun : ℕ → Rollout → Type 0
Unrun c s = (runs_kept (s.evaluator).default ≡ 0) × ((s.execution_counts).initial_default ≡ c)

Unrun-IsRetained : (c : ℕ) (s : Rollout) → Unrun c s → IsRetained c s
Unrun-IsRetained c s (unrun, count) = (omega (arith, unrun, count), omega (arith, unrun, count))

-- The timing of a default without measurements.
runs-Ends :
    (m : Machine) (c : ℕ) (plan_sha256 : String) (settings : RolloutMeasurementSettings)
    (s : Rollout)
    → IsKept 0 c s
    → Ends
        (IsRetained c)
        (λ _. IsKept 0 c)
        ((time_defaults m keep_warmup plan_sha256 settings.default_warmups
            >> (in_operation "initial_default_measurement"
                >> (time_defaults m keep_measurement plan_sha256 settings.default_measurements
                    >> (check_cancelled m >> limit_candidates m settings))))
          s)
runs-Ends m c plan_sha256 settings s kept =
    after-Ends (IsRetained c) (λ _. IsKept 0 c) _
      (time_defaults m keep_warmup plan_sha256 settings.default_warmups s) _
      (time_defaults-Ends m c keep_warmup plan_sha256 settings.default_warmups s keep_warmup-one
        kept)
      (λ _ t k.
        after-Ends (IsRetained c) (λ _. IsKept 0 c) _
          (time_defaults m keep_measurement plan_sha256 settings.default_measurements (measuring t))
          _
          (time_defaults-Ends m c keep_measurement plan_sha256 settings.default_measurements
            (measuring t) keep_measurement-one k)
          (λ _ u l.
            check_cancelled-then m (IsKept 0 c) (IsRetained c) _ u _ (IsKept-still 0 c)
              (λ v. IsKept-IsRetained 0 c v (omega arith)) l
              (λ v. limit_candidates-Ends m c settings v)))

-- Before the default is explained: where `start` returns, the state keeps a measurement of each
-- execution of the default, and where it raises, of each but at most the last.
pub start-Ends :
    (m : Machine) (s : Rollout)
    → (s.evaluator).default ≡ none
    → Ends
        (IsRetained (s.execution_counts).initial_default)
        (λ d. IsKept 0 (s.execution_counts).initial_default)
        (start m s)
unfolding start
start-Ends m s unstarted =
    let c = (s.execution_counts).initial_default in
    after-Ends (IsRetained c) (λ _. Unrun c) _ (on_evaluator (Validation.start m.planner m.world) s)
      _
      (weaken-Ends (Unrun c) _ _ _ (on_evaluator (Validation.start m.planner m.world) s)
        (Unrun-IsRetained c) (λ _ t k. k)
        (of_evaluator-Ends (Unrun c) s _
          (start-unrun m.planner m.world s.evaluator unstarted, refl)))
      (λ b s₁ k₁.
        runs-Ends m c b.plan_sha256 s₁.measurement (fresh_default b s₁) (refl, omega (arith, k₁.1)))
