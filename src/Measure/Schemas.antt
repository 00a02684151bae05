-- ===== src/Measure/Schemas.antt =====
-- The records of src/qorl/measure/schemas.py that a rollout keeps.
use qorl.Prelude.{ℕ, String, Bool, not, ◌&&◌, ◌||◌, Option, List, nat_eq, string_eq, Dict, is_none}
use qorl.Numbers.{Number}
use qorl.Json.{Json}

pub data MeasurementStatus : Type 0 where
  not_measured measured : MeasurementStatus

pub record Measurement : Type 0 where
  pub execution_time_ms : Number
  pub planning_time_ms : Number
  pub plan_sha256 : String
  pub shared_hit_blocks : ℕ
  pub shared_read_blocks : ℕ
  pub analyzed_document : Option Json
  pub hint_diagnostics : Option String

pub data FeedbackStatus : Type 0 where
  collecting completed timed_out : FeedbackStatus

pub record ExecutionFeedback : Type 0 where
  pub status : FeedbackStatus
  pub source_id : Option String
  pub warmups : List Measurement
  pub measurements : List Measurement
  pub timeout_ms : Option ℕ

pub record Baseline : Type 0 where
  pub plan_sha256 : String
  pub structural_plan_sha256 : Option String
  pub timing_reuse_key : Option String
  pub plan_fingerprint_version : Option ℕ
  pub plain_explain : Json
  pub median_execution_time_ms : Option Number
  pub warmups : List Measurement
  pub measurements : List Measurement
  pub candidate_timeout_ms : Option ℕ
  pub compact_plan : Json

pub record Candidate : Type 0 where
  pub candidate_id : String
  pub action : Json
  pub rejected_tool_arguments : Json
  pub action_valid : Bool
  pub constraints_satisfied : Bool
  pub compiled_hint : String
  pub duplicate_of : Option String
  pub plan_sha256 : Option String
  pub structural_plan_sha256 : Option String
  pub structural_duplicate_of : Option String
  pub timing_reuse_key : Option String
  pub plan_fingerprint_version : Option ℕ
  pub errors_or_diagnostics : List String
  pub pg_hint_plan : Option (Dict String)
  pub attempts_remaining : ℕ
  pub plain_explain : Option Json
  pub compact_plan : Option Json
  pub execution_timed_out : Bool
  pub timeout_ms : Option ℕ
  pub measurement_status : Option MeasurementStatus
  pub execution_feedback : Option ExecutionFeedback

abbrev pub selection_eligible : Candidate → Bool
selection_eligible c = c.action_valid && (c.constraints_satisfied || c.execution_timed_out)

abbrev pub structurally_novel : Candidate → Bool
structurally_novel c =
    c.action_valid
    && c.constraints_satisfied
    && not (is_none c.structural_plan_sha256)
    && is_none c.structural_duplicate_of

pub record RejectedSelection : Type 0 where
  pub arguments : Json
  pub diagnostics : List String

pub data SelectionStatus : Type 0 where
  pending rejected accepted failed : SelectionStatus

pub record SelectionState : Type 0 where
  pub status : SelectionStatus
  pub selected_candidate_id : Option String
  pub rejections : List RejectedSelection
