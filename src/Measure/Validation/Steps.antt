-- ===== src/Measure/Validation/Steps.antt =====
-- The states that a rollout can reach by its operations, whether they return or raise.
use qorl.Prelude.{ℕ, String, ◌≡◌, Option, List, nat_eq, string_eq, ok}
use qorl.Json.{Json}
use qorl.Measure.Planner.{Planner, World}
use qorl.Measure.Validation.{Evaluator, new_evaluator, start, reject_attempt, evaluate}
use qorl.Measure.Validation.Selection.{
  accept_selection, reject_selection, resolve_selection, keep_default,
}

pub data Step (planner : Planner) (world : World) (e e' : Evaluator) : Type 0 where
  starts : (start planner world e).1 ≡ e' → Step planner world e e'
  rejects_attempt :
      (arguments : Json) (diagnostics : List String)
      → (reject_attempt planner world arguments diagnostics e).1 ≡ e'
      → Step planner world e e'
  evaluates :
      (raw_action : Json) → (evaluate planner world raw_action e).1 ≡ e' → Step planner world e e'
  accepts :
      (candidate_id : Option String)
      → (accept_selection candidate_id e).1 ≡ e'
      → Step planner world e e'
  rejects :
      (arguments : Json) (diagnostics : List String)
      → reject_selection arguments diagnostics e ≡ e'
      → Step planner world e e'
  resolves : resolve_selection e ≡ e' → Step planner world e e'
  keeps_default : (keep_default e).1 ≡ e' → Step planner world e e'

pub data Reached (planner : Planner) (world : World) : Evaluator → Type 0 where
  created :
      (default_timeout_ms max_candidates : ℕ) {e : Evaluator}
      → new_evaluator default_timeout_ms max_candidates ≡ ok e
      → Reached planner world e
  next :
      {e e' : Evaluator}
      → Reached planner world e
      → Step planner world e e'
      → Reached planner world e'
