-- ===== src/Measure/Planner.antt =====
-- What validation uses of the other parts: the plan actions, and the worker that runs queries.
use qorl.Prelude.{ℕ, String, Bool, Option, List, nat_eq, string_eq, Result, Dict}
use qorl.Json.{Json, Fields}
use qorl.Plans.Schemas.Action.{PlanAction}

-- The exceptions that validation and selection raise.
pub data Failure : Type 0 where
  cancelled : Failure
  already_started not_started already_kept budget_exhausted no_identity : Failure
  kept_too_late finish_without_attempt limits_not_positive : Failure
  -- ValueError, with the identifiers of the eligible candidates
  not_eligible selection_required : List String → Failure
  -- an error of the worker
  infrastructure : String → Failure

-- ExplainResult, with the entry "Plan" of its document.
pub record Explained : Type 0 where
  pub plan : Fields
  pub document : Json
  pub hint_diagnostics : String

-- What a call of `explain` comes to; `timed_out` is QueryTimeoutError.
pub data Reply : Type 0 where
  explained : Explained → Reply
  timed_out : ℕ → Reply
  broken : String → Reply

-- src/qorl/plans as validation calls it, for the catalog of one task.
pub record Planner : Type 0 where
  pub from_raw : Json → Result String PlanAction
  pub to_wire : PlanAction → Json
  pub compile : PlanAction → String
  pub verify_action : PlanAction → Fields → String → List String
  pub plan_sha256 : Fields → String
  pub structural_plan_sha256 : Fields → String
  pub timing_reuse_key : String → Option PlanAction → String
  pub compact_plan : Fields → Json
  pub hint_status : String → Option (Dict String)

-- The world that one evaluator runs in. A call is answered by its number among the calls of the
-- evaluator; `is_set` is the cancel event, which another thread may set at any time, by the number
-- of its reading. Where there is no event it is always false.
pub record World : Type 0 where
  -- explain(sql, timeout_ms, analyze=…, hint=…)
  pub explain : ℕ → String → ℕ → Bool → String → Reply
  pub is_set : ℕ → Bool
  pub sql : String
