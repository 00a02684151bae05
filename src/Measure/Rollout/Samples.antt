-- ===== src/Measure/Rollout/Samples.antt =====
-- A rollout with one attempt, whose candidate takes half the time of the default.
use qorl.Prelude.{
  ℕ, ◌*◌, String, true, false, none, some, [], ltb, if◌then◌else◌, ◌==◌, nat_eq, string_eq,
}
use qorl.Numbers.{Number, int, whole}
use qorl.Json.{Json, null, obj, str, number, Fields, end, field}
use qorl.Measure.Planner.{explained, broken}
use qorl.Measure.Samples.{sample_planner, fresh}
use qorl.Measure.Evidence.{RolloutMeasurementSettings}
use qorl.Measure.Rollout.{Rollout, Machine, start}
use qorl.Measure.Rollout.Attempts.{evaluate}
use qorl.Measure.Rollout.Finish.{finish}

abbrev sample_plan : Fields
sample_plan = field "Node Type" (str "Seq Scan") (field "Shared Hit Blocks" (number (whole 7)) end)

abbrev other_plan : Fields
other_plan = field "Node Type" (str "Index Scan") (field "Shared Hit Blocks" (number (whole 3)) end)

abbrev whole_product : Number → Number → Number
whole_product (int false a) (int false b) = whole (a * b)
whole_product x y = x

abbrev node_type : Fields → String
node_type (field name (str text) rest) = text
node_type _ = ""

abbrev executed : ℕ → Json
executed time = obj (
    field "Execution Time" (number (whole time))
      (field "Planning Time" (number (whole 1)) (field "Plan" (obj sample_plan) end)))

-- A hinted query takes 4 ms, and one without a hint 8 ms.
abbrev pub sample_machine : Machine
sample_machine = record {
  planner = record sample_planner {
    compile = λ action. "/*+ */";
    plan_sha256 = node_type;
    timing_reuse_key = λ hash action. hash;
  };
  world = record {
    explain = λ call sql timeout_ms analyze hint. explained (record {
      plan = if hint == "" then sample_plan else other_plan;
      document = executed (if hint == "" then 8 else 4);
      hint_diagnostics = "";
    });
    is_set = λ reading. false;
    sql = "select 1";
  };
  floats = record { product = whole_product; quotient = λ x y. whole 2; half_sum = λ x y. x };
  is_close = λ x y. true;
  candidate_first = λ i. false;
}

abbrev pub sample_settings : RolloutMeasurementSettings
sample_settings = record {
  default_warmups = 1;
  default_measurements = 2;
  candidate_feedback_warmups = 1;
  candidate_feedback_measurements = 1;
  paired_warmups = 1;
  paired_measurements = 1;
  default_timeout_seconds = whole 300;
  candidate_timeout_floor_seconds = whole 5;
  candidate_timeout_multiplier = whole 3;
}

abbrev pub unstarted : Rollout
unstarted = record {
  evaluator = record fresh { timeout_ms = 300000 };
  measurement = sample_settings;
  default_timeout_ms = 300000;
  paired = record { warmups = []; measurements = [] };
  final = none;
  operation = "initial_default_explain";
  finalization_started = false;
  execution_counts = record { initial_default = 0; candidate_feedback = 0; final_paired = 0 };
}

abbrev pub started : Rollout
started = (start sample_machine unstarted).1

abbrev pub attempted : Rollout
attempted = (evaluate sample_machine null started).1

abbrev pub finished : Rollout
finished = (finish sample_machine none attempted).1

-- The connection is lost in the third call of the worker.
abbrev pub failing_machine : Machine
failing_machine = record sample_machine {
  world = record sample_machine.world {
    explain = λ call sql timeout_ms analyze hint.
        if ltb call 2
        then sample_machine.world.explain call sql timeout_ms analyze hint
        else broken "lost";
  };
}

-- A rollout whose default is timed.
abbrev pub unprobed : Rollout
unprobed = record unstarted {
  evaluator = record unstarted.evaluator {
    default = some (record {
      plan_sha256 = "Seq Scan";
      structural_plan_sha256 = none;
      timing_reuse_key = some "Seq Scan";
      plan_fingerprint_version = some 4;
      plain_explain = null;
      median_execution_time_ms = some (whole 8);
      warmups = [];
      measurements = [];
      candidate_timeout_ms = some 5000;
      compact_plan = null;
    });
    calls = 1;
  };
}
