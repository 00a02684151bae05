-- ===== src/Measure/Rollout/Explaining.antt =====
-- What the evaluator's `start`, of src/qorl/measure/validation.py, gives and leaves.
use qorl.Prelude.{
  ◌≡◌, ap, ◌≢◌, Bool, true, false, none, some, List, if◌then◌else◌, nat_eq, string_eq, Result, ok,
  err, is_none,
}
use mathlib.Core.Path.{subst}
use qorl.Measure.Schemas.{Baseline, Candidate}
use qorl.Measure.Planner.{Failure, Reply, World, Planner, explained, timed_out, broken}
use qorl.Measure.Validation
use qorl.Measure.Validation.{Evaluator, reply_default, ◌▷◌}
use qorl.Measure.Validation.Invariant.{▷-keeps, if-keeps}
use qorl.Measure.Rollout
use qorl.Measure.Rollout.{
  Rollout, RolloutError, Machine, Run, after, ◌>>=◌, ◌>>◌, pure, require, lift, check_cancelled,
  time_defaults, keep_warmup, keep_measurement, timed_default, fresh_default, default_measurements,
  limit_candidates, start, median_of, raised_as, invalid_timeout, on_evaluator, of_evaluator,
  modify, gets, in_operation,
}
use qorl.Measure.Rollout.Steps.{ok-inj}
use qorl.Measure.Rollout.Support.{same_option_self}
use qorl.Measure.Rollout.Sound.{is_keyed}

module _ (planner : Planner) (world : World) (cs : List Candidate) where
  reply_default-candidates :
      (reply : Reply) (e : Evaluator)
      → e.candidates ≡ cs
      → ((reply_default planner world reply e).1).candidates ≡ cs
  unfolding reply_default Validation.check_cancelled
  reply_default-candidates (broken text) e h = h
  reply_default-candidates (timed_out limit) e h = h
  reply_default-candidates (explained plain) e h =
      ▷-keeps (λ y. y.candidates ≡ cs)
        (Validation.check_cancelled planner world (Validation.with_default planner world plain e)) _
        (λ f raised. h) (λ a allowed. h)

  pub start-candidates :
      (e : Evaluator) → e.candidates ≡ cs → ((Validation.start planner world e).1).candidates ≡ cs
  unfolding Validation.start Validation.explain_default Validation.check_cancelled
  start-candidates e h =
      if-keeps (λ y. y.candidates ≡ cs) (is_none e.default) _ _
        (λ unstarted.
          ▷-keeps (λ y. y.candidates ≡ cs) (Validation.check_cancelled planner world e) _
            (λ f raised. h) (λ a allowed. reply_default-candidates _ _ h))
        (λ started. h)

-- What a result of the evaluator satisfies.
abbrev Gives : (Baseline → Type 0) → Validation.Outcome Baseline → Type 0
Gives P (ok b, e) = P b
Gives P (err f, e) = Unit {0}

▷-Gives :
    (P : Baseline → Type 0) (o : Validation.Outcome (Unit {0}))
    (next : Unit {0} → Evaluator → Validation.Outcome Baseline)
    → ((e : Evaluator) → Gives P (next tt e))
    → Gives P (o ▷ next)
▷-Gives P (ok a, e) next h = h e
▷-Gives P (err f, e) next h = tt

if-Gives :
    (P : Baseline → Type 0) (b : Bool) (x y : Validation.Outcome Baseline)
    → Gives P x
    → Gives P y
    → Gives P (if b then x else y)
if-Gives P true x y h k = h
if-Gives P false x y h k = k

abbrev pub IsKeyed : Planner → Baseline → Type 0
IsKeyed planner b = is_keyed planner (some b) ≡ true

reply_default-Gives :
    (planner : Planner) (world : World) (reply : Reply) (e : Evaluator)
    → Gives (IsKeyed planner) (reply_default planner world reply e)
unfolding reply_default
reply_default-Gives planner world (broken text) e = tt
reply_default-Gives planner world (timed_out limit) e = tt
reply_default-Gives planner world (explained plain) e =
    ▷-Gives (IsKeyed planner)
      (Validation.check_cancelled planner world (Validation.with_default planner world plain e)) _
      (λ t.
        same_option_self (some (planner.timing_reuse_key (planner.plan_sha256 plain.plan) none)))

pub start-Gives :
    (planner : Planner) (world : World) (e : Evaluator)
    → Gives (IsKeyed planner) (Validation.start planner world e)
unfolding Validation.start Validation.explain_default
start-Gives planner world e =
    if-Gives (IsKeyed planner) (is_none e.default) _ _
      (▷-Gives (IsKeyed planner) (Validation.check_cancelled planner world e) _
        (λ t. reply_default-Gives planner world _ _))
      tt

pub given-start :
    (P : Baseline → Type 0) (o : Validation.Outcome Baseline) (s s₁ : Rollout) (b : Baseline)
    → of_evaluator s o ≡ (ok b, s₁)
    → Gives P o
    → P b
given-start P (ok c, e) s s₁ b h g = subst P (ok-inj c b (ap (λ y. y.0) h)) g
given-start P (err f, e) s s₁ b h g = absurd (no_result (ap (λ y. y.0) h))
  where
    no_result :
        {f : Failure} {b : Baseline}
        → ◌≢◌ {A = Result RolloutError Baseline} (err (Rollout.raised f)) (ok b)
    no_result h = cc
