-- ===== src/Measure/Rollout/Choices.antt =====
-- The choice among the attempts, of src/qorl/measure/validation.py, and what it does to the attempts.
use qorl.Prelude.{
  String, refl, Bool, true, false, not, Option, none, some, List, if◌then◌else◌, nat_eq, string_eq,
  Result, ok, err, is_none, is_empty,
}
use qorl.Json.{Json}
use qorl.Measure.Schemas.{Candidate, SelectionStatus, pending, rejected, accepted, failed}
use qorl.Measure.Planner.{Failure}
use qorl.Measure.Validation
use qorl.Measure.Validation.{Evaluator, new_evaluator}
use qorl.Measure.Validation.Invariant.{if-keeps}
use qorl.Measure.Validation.Selection.{
  accept_selection, accept_default, accept_selected, select, is_default, reject_selection,
  resolve_selection, resolve_status, or_fail, keep_default,
}
use qorl.Measure.Rollout.Sound.{SameAttempts, SameAttempts-refl}

accept_default-same : (e : Evaluator) → SameAttempts e (accept_default e).1
unfolding accept_default
accept_default-same e =
    if-keeps (SameAttempts e) (is_empty e.candidates) _ _ (λ _. SameAttempts-refl e)
      (λ _.
        if-keeps (SameAttempts e) (is_none e.default) _ _ (λ _. SameAttempts-refl e)
          (λ _. record { same_candidates = refl; same_default = refl }))

accept_selected-same :
    (r : Result Failure (Option Candidate)) (e : Evaluator) → SameAttempts e (accept_selected r e).1
accept_selected-same (err f) e = SameAttempts-refl e
accept_selected-same (ok none) e = record { same_candidates = refl; same_default = refl }
accept_selected-same (ok (some c)) e = record { same_candidates = refl; same_default = refl }

pub accept_selection-same :
    (candidate_id : Option String) (e : Evaluator)
    → SameAttempts e (accept_selection candidate_id e).1
unfolding accept_selection
accept_selection-same candidate_id e =
    if-keeps (SameAttempts e) (is_default candidate_id) _ _ (λ _. accept_default-same e)
      (λ _. accept_selected-same (select candidate_id e) e)

or_fail-same :
    (e : Evaluator) (o : Validation.Outcome (Unit {0}))
    → SameAttempts e o.1
    → SameAttempts e (or_fail o)
or_fail-same e (ok a, e') h = h
or_fail-same e (err f, e') h = record {
  same_candidates = h.same_candidates;
  same_default = h.same_default;
}

choice :
    (b : Bool) (e x y : Evaluator)
    → SameAttempts e x
    → SameAttempts e y
    → SameAttempts e (if b then x else y)
choice true e x y h k = h
choice false e x y h k = k

resolve_status-same :
    (status : SelectionStatus) (e : Evaluator) → SameAttempts e (resolve_status status e)
unfolding resolve_status
resolve_status-same rejected e = record { same_candidates = refl; same_default = refl }
resolve_status-same pending e =
    choice e.kept_default e e _ (SameAttempts-refl e)
      (or_fail-same e (accept_selection none e) (accept_selection-same none e))
resolve_status-same accepted e = SameAttempts-refl e
resolve_status-same failed e = SameAttempts-refl e

pub resolve_selection-same : (e : Evaluator) → SameAttempts e (resolve_selection e)
unfolding resolve_selection
resolve_selection-same e = resolve_status-same e.selection.status e

pub reject_selection-same :
    (arguments : Json) (diagnostics : List String) (e : Evaluator)
    → SameAttempts e (reject_selection arguments diagnostics e)
unfolding reject_selection
reject_selection-same arguments diagnostics e = record {
  same_candidates = refl;
  same_default = refl;
}

pub keep_default-same : (e : Evaluator) → SameAttempts e (keep_default e).1
unfolding keep_default
keep_default-same e =
    if-keeps (SameAttempts e) (is_none e.default) _ _ (λ _. SameAttempts-refl e)
      (λ _.
        if-keeps (SameAttempts e) (not (is_empty e.candidates)) _ _ (λ _. SameAttempts-refl e)
          (λ _.
            if-keeps (SameAttempts e) e.kept_default _ _ (λ _. SameAttempts-refl e)
              (λ _. record { same_candidates = refl; same_default = refl })))
