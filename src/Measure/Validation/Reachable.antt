-- ===== src/Measure/Validation/Reachable.antt =====
-- The states that a rollout reaches are coherent.
use mathlib.Core.Path.{subst}
use qorl.Prelude.{
  ℕ, ◌≡◌, refl, ◌||◌, arith, ltb, nat_eq, string_eq, Result, ok, raise_if, >>-eq-ok, lookup,
}
use qorl.Measure.Planner.{Failure, Planner, World, limits_not_positive}
use qorl.Measure.Validation.{Evaluator, new_evaluator}
use qorl.Measure.Validation.Steps.{
  Step, starts, rejects_attempt, evaluates, accepts, rejects, resolves, keeps_default, Reached,
  created, next,
}
use qorl.Measure.Validation.Invariant.{IsCoherent, numbering}
use qorl.Measure.Validation.Issuing.{
  start-IsCoherent, reject_attempt-IsCoherent, evaluate-IsCoherent,
}
use qorl.Measure.Validation.Choosing.{
  accept_selection-IsCoherent, reject_selection-IsCoherent, resolve_selection-IsCoherent,
  keep_default-IsCoherent,
}

new_evaluator-IsCoherent :
    (timeout_ms most : ℕ) (e : Evaluator) → new_evaluator timeout_ms most ≡ ok e → IsCoherent e
unfolding new_evaluator numbering lookup
new_evaluator-IsCoherent timeout_ms most e h =
    let (_, made) = >>-eq-ok (raise_if (ltb timeout_ms 1 || ltb most 1) limits_not_positive) _ h in
    subst IsCoherent (ok-inj made) (record {
      bounded = omega arith;
      numbered = refl;
      started = refl;
      structures = λ k. refl;
      reuse_keys = λ k. refl;
      settled = refl;
      chosen = refl;
    })
  where
    ok-inj : {x y : Evaluator} → ◌≡◌ {A = Result Failure Evaluator} (ok x) (ok y) → x ≡ y
    ok-inj h = cc

module _ (planner : Planner) (world : World) where
  Step-IsCoherent : (e e' : Evaluator) → Step planner world e e' → IsCoherent e → IsCoherent e'
  Step-IsCoherent e e' (starts h) k = subst IsCoherent h (start-IsCoherent planner world e k)
  Step-IsCoherent e e' (rejects_attempt arguments diagnostics h) k =
      subst IsCoherent h (reject_attempt-IsCoherent planner world arguments diagnostics e k)
  Step-IsCoherent e e' (evaluates raw h) k =
      subst IsCoherent h (evaluate-IsCoherent planner world raw e k)
  Step-IsCoherent e e' (accepts o h) k = subst IsCoherent h (accept_selection-IsCoherent o e k)
  Step-IsCoherent e e' (rejects arguments diagnostics h) k =
      subst IsCoherent h (reject_selection-IsCoherent arguments diagnostics e k)
  Step-IsCoherent e e' (resolves h) k = subst IsCoherent h (resolve_selection-IsCoherent e k)
  Step-IsCoherent e e' (keeps_default h) k = subst IsCoherent h (keep_default-IsCoherent e k)

  -- In every state that a rollout reaches, whether its operations return or raise, the attempts are
  -- within the limit and numbered in the order of their issue, there are none before the default is
  -- explained, the two maps name the first plan of each structure and of each reuse key, a kept
  -- default is an accepted selection, and what is selected is an eligible attempt.
  pub Reached-IsCoherent : (e : Evaluator) → Reached planner world e → IsCoherent e
  Reached-IsCoherent e (created timeout_ms most made) =
      new_evaluator-IsCoherent timeout_ms most e made
  Reached-IsCoherent e (next {e = before} reached step) =
      Step-IsCoherent before e step (Reached-IsCoherent before reached)
