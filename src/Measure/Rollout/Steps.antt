-- ===== src/Measure/Rollout/Steps.antt =====
-- What a method that returns has done: its steps, in order, and what they leave alone.
use qorl.Prelude.{
  ℕ, ◌+◌, String, ◌≡◌, refl, sym, ap, ◌∙◌, Bool, true, false, nat_eq, string_eq, Result, ok, err,
}
use qorl.Measure.Planner.{Reply}
use qorl.Measure.Validation
use qorl.Measure.Validation.{Evaluator}
use qorl.Measure.Rollout.{
  RolloutError, Rollout, Machine, Run, after, require, lift, check_cancelled, execute,
}

pub after-ok :
    {A B : Type 0} (r : Result RolloutError A × Rollout) (next : A → Run B) (b : B) (s' : Rollout)
    → after r next ≡ (ok b, s')
    → (a : A) × (s : Rollout) × (r ≡ (ok a, s)) × (next a s ≡ (ok b, s'))
after-ok (ok a, s) next b s' h = (a, s, refl, h)
after-ok (err e, s) next b s' h = cc (ap (λ x. x.0) h)

pub require-ok :
    (b : Bool) (e : RolloutError) (s s' : Rollout)
    → require b e s ≡ (ok tt, s')
    → (b ≡ true) × (s ≡ s')
require-ok true e s s' h = (refl, ap (λ x. x.1) h)
require-ok false e s s' h = cc (ap (λ x. x.0) h)

pub ok-inj : {A : Type 0} (a b : A) → ◌≡◌ {A = Result RolloutError A} (ok a) (ok b) → a ≡ b
ok-inj a b h = cc

pub lift-ok :
    {A : Type 0} (r : Result RolloutError A) (a : A) (s s' : Rollout)
    → lift r s ≡ (ok a, s')
    → (r ≡ ok a) × (s ≡ s')
lift-ok r a s s' h = (ap (λ x. x.0) h, ap (λ x. x.1) h)

-- What the timed executions leave alone.
pub record SameFacts (s s' : Rollout) : Type 0 where
  pub same_default : (s'.evaluator).default ≡ (s.evaluator).default
  pub same_candidates : (s'.evaluator).candidates ≡ (s.evaluator).candidates
  pub same_limit : (s'.evaluator).timeout_ms ≡ (s.evaluator).timeout_ms
  pub same_selection : (s'.evaluator).selection ≡ (s.evaluator).selection
  pub same_settings : s'.measurement ≡ s.measurement

-- What neither the cancel event nor the worker changes.
pub record Quiet (s s' : Rollout) : Type 0 where
  pub same_facts : SameFacts s s'
  pub same_counts : s'.execution_counts ≡ s.execution_counts
  pub same_paired : s'.paired ≡ s.paired

pub SameFacts-trans : (s t u : Rollout) → SameFacts s t → SameFacts t u → SameFacts s u
SameFacts-trans s t u h k = record {
  same_default = k.same_default ∙ h.same_default;
  same_candidates = k.same_candidates ∙ h.same_candidates;
  same_limit = k.same_limit ∙ h.same_limit;
  same_selection = k.same_selection ∙ h.same_selection;
  same_settings = k.same_settings ∙ h.same_settings;
}

pub SameFacts-refl : (s : Rollout) → SameFacts s s
SameFacts-refl s = record {
  same_default = refl;
  same_candidates = refl;
  same_limit = refl;
  same_selection = refl;
  same_settings = refl;
}

pub Quiet-refl : (s : Rollout) → Quiet s s
Quiet-refl s = record { same_facts = SameFacts-refl s; same_counts = refl; same_paired = refl }

pub Quiet-trans : (s t u : Rollout) → Quiet s t → Quiet t u → Quiet s u
Quiet-trans s t u h k = record {
  same_facts = SameFacts-trans s t u h.same_facts k.same_facts;
  same_counts = k.same_counts ∙ h.same_counts;
  same_paired = k.same_paired ∙ h.same_paired;
}

abbrev calls_made : Evaluator → ℕ → ℕ → Evaluator
calls_made e calls readings = record e { calls = calls; readings = readings }

counted-Quiet :
    (s s' : Rollout) (calls readings : ℕ)
    → record s { evaluator = calls_made s.evaluator calls readings } ≡ s'
    → Quiet s s'
counted-Quiet s s' calls readings h = record {
  same_facts = record {
    same_default = sym (ap (λ x. (x.evaluator).default) h);
    same_candidates = sym (ap (λ x. (x.evaluator).candidates) h);
    same_limit = sym (ap (λ x. (x.evaluator).timeout_ms) h);
    same_selection = sym (ap (λ x. (x.evaluator).selection) h);
    same_settings = sym (ap (λ x. x.measurement) h);
  };
  same_counts = sym (ap (λ x. x.execution_counts) h);
  same_paired = sym (ap (λ x. x.paired) h);
}

pub check_cancelled-Quiet :
    (m : Machine) (r : Result RolloutError (Unit {0})) (s s' : Rollout)
    → check_cancelled m s ≡ (r, s')
    → Quiet s s'
unfolding check_cancelled Validation.check_cancelled
check_cancelled-Quiet m r s s' h =
    counted-Quiet s s' (s.evaluator).calls ((s.evaluator).readings + 1) (ap (λ x. x.1) h)

-- A call of the worker, and what it answers.
pub execute-Quiet :
    (m : Machine) (timeout_ms : ℕ) (hint : String) (reply : Reply) (s s' : Rollout)
    → execute m timeout_ms hint s ≡ (ok reply, s')
    → Quiet s s'
      × ((m.world).explain (s.evaluator).calls (m.world).sql timeout_ms true hint ≡ reply)
unfolding execute
execute-Quiet m timeout_ms hint reply s s' h = (
  counted-Quiet s s' ((s.evaluator).calls + 1) (s.evaluator).readings (ap (λ x. x.1) h),
  ok-inj _ _ (ap (λ x. x.0) h),
)
