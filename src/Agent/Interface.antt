-- ===== src/Agent/Interface.antt =====
-- src/qorl/agent/interface.py: the limits of a rollout, and the tools offered in each turn.
use qorl.Prelude.{
  ℕ, ◌+◌, ◌-◌, ◌*◌, ◌≤◌, ◌<◌, ◌≡◌, ◌↔◌, Bool, true, false, not, ◌&&◌, List, [], ◌∷◌, arith, ltb,
  leb, nat_beq, if◌then◌else◌, Eq, ◌==◌, nat_eq, string_eq, keep, contains,
}

-- ToolName of src/qorl/agent/types.py
pub data ToolName : Type 0 where
  inspect_relation get_column_stats get_plan evaluate_candidate keep_default finish : ToolName

abbrev tool_beq : ToolName → ToolName → Bool
tool_beq inspect_relation inspect_relation = true
tool_beq get_column_stats get_column_stats = true
tool_beq get_plan get_plan = true
tool_beq evaluate_candidate evaluate_candidate = true
tool_beq keep_default keep_default = true
tool_beq finish finish = true
tool_beq _ _ = false

pub tool_beq_iff : (a b : ToolName) → (tool_beq a b ≡ true) ↔ (a ≡ b)
tool_beq_iff a b = ground arith

instance abbrev pub tool_eq : Eq ToolName
tool_eq = record { beq = tool_beq; beq_iff = tool_beq_iff }

-- The names of `agent_tools`, src/qorl/agent/tools.py, which are the tools of every interface.
abbrev pub agent_tools : List ToolName
agent_tools =
    inspect_relation ∷ get_column_stats ∷ get_plan ∷ evaluate_candidate ∷ keep_default ∷ finish ∷ []

-- The numbers of an AgentInterface; `candidate_attempts` and `reserved_decision_turns` are read from
-- its observation.
pub record AgentInterface : Type 0 where
  pub maximum_model_turns : ℕ
  pub inspection_turn_limit : ℕ
  pub candidate_attempts : ℕ
  pub reserved_decision_turns : ℕ

abbrev min : ℕ → ℕ → ℕ
min a b = if leb a b then a else b

-- The numbers of AgentInterface.from_evaluator, for a query with this many aliases and an evaluator
-- that accepts this many attempts and has explained its default. Subtraction stops at 0, as max(0, …) does.
unfoldable pub from_evaluator : ℕ → ℕ → ℕ → ℕ → AgentInterface
from_evaluator aliases max_candidates maximum_model_turns inspection_turns_per_alias =
    let reserved_decision_turns = max_candidates + 1 in
    record {
      maximum_model_turns = maximum_model_turns;
      inspection_turn_limit =
          min (aliases * inspection_turns_per_alias)
            (maximum_model_turns - reserved_decision_turns);
      candidate_attempts = max_candidates;
      reserved_decision_turns = reserved_decision_turns;
    }

-- names.remove(name)
abbrev pub remove : ToolName → List ToolName → List ToolName
remove name names = keep (λ n. not (n == name)) names

unfoldable pub available_tool_names : AgentInterface → ℕ → ℕ → List ToolName
available_tool_names i turn candidate_count =
    if nat_beq turn i.maximum_model_turns
    then (if ltb 0 candidate_count then finish ∷ [] else keep_default ∷ [])
    else if leb i.candidate_attempts candidate_count
    then finish ∷ []
    else if ltb i.inspection_turn_limit turn
    then (if ltb 0 candidate_count
        then evaluate_candidate ∷ finish ∷ []
        else evaluate_candidate ∷ keep_default ∷ [])
    else if ltb 0 candidate_count
    then remove keep_default agent_tools
    else remove finish agent_tools

pub record RemainingTurnBudget : Type 0 where
  pub current_turn : ℕ
  pub turns_remaining : ℕ
  pub unrestricted_turns_remaining : ℕ
  pub reserved_final_turns : ℕ

-- `turn` is at most the maximum, as the loop of the agent counts it.
unfoldable pub budget : AgentInterface → ℕ → RemainingTurnBudget
budget i turn = record {
  current_turn = turn;
  turns_remaining = i.maximum_model_turns - turn;
  unrestricted_turns_remaining = i.inspection_turn_limit - turn;
  reserved_final_turns = i.reserved_decision_turns;
}

-- In an interface that accepts attempts: `finish` is offered exactly once there is an attempt and
-- `keep_default` exactly before; `evaluate_candidate` exactly while there are attempts left, except
-- in the last turn; and the inspection tools exactly while there are, up to the inspection limit,
-- except in the last turn.
pub available_tool_names-contains :
    (i : AgentInterface) (turn candidate_count : ℕ) (tool : ToolName)
    → 0 < i.candidate_attempts
    → contains (available_tool_names i turn candidate_count) tool ≡ elim tool [
      | finish ↦ ltb 0 candidate_count
      | keep_default ↦ nat_beq candidate_count 0
      | evaluate_candidate ↦
          not (nat_beq turn i.maximum_model_turns) && ltb candidate_count i.candidate_attempts
      | _ ↦
          not (nat_beq turn i.maximum_model_turns)
          && ltb candidate_count i.candidate_attempts
          && leb turn i.inspection_turn_limit
    ]
unfolding available_tool_names
available_tool_names-contains i turn candidate_count tool h = ground arith

-- Where the turns allow for every attempt and a decision, the inspection turns leave them.
pub from_evaluator-reserves :
    (aliases max_candidates maximum_model_turns inspection_turns_per_alias : ℕ)
    → max_candidates + 1 ≤ maximum_model_turns
    → (from_evaluator aliases max_candidates maximum_model_turns
          inspection_turns_per_alias).inspection_turn_limit
        + (max_candidates + 1)
      ≤ maximum_model_turns
unfolding from_evaluator
from_evaluator-reserves aliases max_candidates maximum_model_turns inspection_turns_per_alias h =
    ground arith
