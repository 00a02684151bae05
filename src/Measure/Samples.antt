-- ===== src/Measure/Samples.antt =====
-- A rollout of one query, with a planner that accepts every action.
use qorl.Prelude.{
  ℕ, String, ◌≡◌, refl, true, false, none, some, List, [], ◌∷◌, nat_beq, if◌then◌else◌, nat_eq,
  string_eq, Result, ok, lookup, assign, set_default, is_none, two_digits,
}
use qorl.Json.{null, obj, str, Fields, end, field}
use qorl.Plans.Schemas.Action.{PlanAction}
use qorl.Numbers.{whole}
use qorl.Measure.Query.{QueryObservation, QueryRun, measure_query, buffers_stable}
use qorl.Measure.Planner.{Planner, World, explained}
use qorl.Measure.Validation.{next_id, Evaluator, new_evaluator, start, evaluate}
use qorl.Measure.Schemas.{pending, Candidate, not_measured}
use qorl.Measure.Validation.Steps.{Reached, created, next, starts, evaluates}

abbrev no_action : PlanAction
no_action = record {
  leading = none;
  joins = [];
  scans = [];
  disabled_indexes = [];
  row_corrections = [];
  parallel = [];
  settings = [];
}

abbrev seq_scan : Fields
seq_scan = field "Node Type" (str "Seq Scan") end

abbrev pub sample_planner : Planner
sample_planner = record {
  from_raw = λ raw. ok no_action;
  to_wire = λ action. null;
  compile = λ action. "";
  verify_action = λ action plan diagnostics. [];
  plan_sha256 = λ plan. "plan";
  structural_plan_sha256 = λ plan. "structure";
  timing_reuse_key = λ hash action. if is_none action then hash else "steered";
  compact_plan = λ plan. obj plan;
  hint_status = λ diagnostics. none;
}

abbrev pub sample_world : World
sample_world = record {
  explain = λ call sql timeout_ms analyze hint.
      explained (record { plan = seq_scan; document = obj seq_scan; hint_diagnostics = "" });
  is_set = λ reading. false;
  sql = "select 1";
}

abbrev pub fresh : Evaluator
fresh = record {
  timeout_ms = 1000;
  max_candidates = 3;
  default = none;
  candidates = [];
  kept_default = false;
  selection = record { status = pending; selected_candidate_id = none; rejections = [] };
  by_structure = [];
  by_reuse_key = [];
  calls = 0;
  readings = 0;
}

abbrev pub begun : Evaluator
begun = (start sample_planner sample_world fresh).1

abbrev pub attempted : Evaluator
attempted = (evaluate sample_planner sample_world null begun).1

fresh_new : new_evaluator 1000 3 ≡ ok fresh
unfolding new_evaluator
fresh_new = refl

pub begun-Reached : Reached sample_planner sample_world begun
begun-Reached = next (created 1000 3 fresh_new) (starts refl)

pub attempted-Reached : Reached sample_planner sample_world attempted
attempted-Reached = next begun-Reached (evaluates null refl)

-- The candidate that `evaluate` returns, which has the structure of the default.
abbrev pub first_candidate : Candidate
first_candidate = record {
  candidate_id = "candidate-01";
  action = null;
  rejected_tool_arguments = null;
  action_valid = true;
  constraints_satisfied = true;
  compiled_hint = "";
  duplicate_of = none;
  plan_sha256 = some "plan";
  structural_plan_sha256 = some "structure";
  structural_duplicate_of = some "default";
  timing_reuse_key = some "steered";
  plan_fingerprint_version = some 4;
  errors_or_diagnostics = [];
  pg_hint_plan = none;
  attempts_remaining = 2;
  plain_explain = some (obj seq_scan);
  compact_plan = some (obj seq_scan);
  execution_timed_out = false;
  timeout_ms = none;
  measurement_status = some not_measured;
  execution_feedback = none;
}

pub first_evaluated : (evaluate sample_planner sample_world null begun).0 ≡ ok first_candidate
unfolding evaluate start lookup set_default assign two_digits next_id
first_evaluated = refl

-- Executions that agree, but for the first.
abbrev pub sample_execution : ℕ → Result String QueryObservation
sample_execution call = ok (record {
  run = 0;
  execution_time_ms = whole 5;
  planning_time_ms = whole 1;
  shared_hit_blocks = if nat_beq call 0 then 0 else 100;
  shared_read_blocks = if nat_beq call 0 then 100 else 0;
  plan_sha256 = "plan";
})

abbrev cold : QueryObservation
cold = record {
  run = 1;
  execution_time_ms = whole 5;
  planning_time_ms = whole 1;
  shared_hit_blocks = 0;
  shared_read_blocks = 100;
  plan_sha256 = "plan";
}

abbrev warm : ℕ → QueryObservation
warm run = record {
  run = run;
  execution_time_ms = whole 5;
  planning_time_ms = whole 1;
  shared_hit_blocks = 100;
  shared_read_blocks = 0;
  plan_sha256 = "plan";
}

abbrev pub sample_runs : List QueryRun
sample_runs =
    record { is_warmup = true; observation = cold }
    ∷ record { is_warmup = true; observation = warm 2 }
    ∷ record { is_warmup = true; observation = warm 3 }
    ∷ record { is_warmup = false; observation = warm 1 }
    ∷ []

pub query_measured : measure_query sample_execution 10 1 ≡ ok sample_runs
unfolding measure_query buffers_stable
query_measured = refl
