-- ===== src/Agent/Examples.antt =====
-- The theorems on the agent's tools at a small rollout.
use qorl.Prelude.{◌+◌, ◌≤◌, ◌≡◌, true, none, arith, ltb, nat_eq, string_eq, contains, ok}
use qorl.Json.{null}
use qorl.Agent.Interface.{
  from_evaluator, available_tool_names, finish, tool_eq, available_tool_names-contains,
  from_evaluator-reserves,
}
use qorl.Agent.ToolRuntime.{execute_finish, execute_keep_default, execute_evaluate}
use qorl.Agent.ToolRuntime.Terminal.{is_settled, execute-ends}
use qorl.Measure.Samples.{sample_planner, sample_world, attempted}

available_tool_names-contains_example :
    contains (available_tool_names (from_evaluator 4 3 20 3) 2 1) finish ≡ ltb 0 1
unfolding from_evaluator
available_tool_names-contains_example =
    available_tool_names-contains (from_evaluator 4 3 20 3) 2 1 finish (omega arith)

from_evaluator-reserves_example : (from_evaluator 4 3 10 3).inspection_turn_limit + (3 + 1) ≤ 10
from_evaluator-reserves_example = from_evaluator-reserves 4 3 10 3 (omega arith)

execute-ends_example :
    (is_settled (
        execute_finish
          (λ _. "")
          (λ _. ok none)
          (λ json. ok json)
          (λ _. ok tt)
          sample_planner
          sample_world
          null
          attempted)
      ≡ true)
    × (is_settled (
          execute_keep_default
            (λ _. "")
            (λ _. ok none)
            (λ json. ok json)
            (λ _. ok tt)
            sample_planner
            sample_world
            null
            attempted)
        ≡ true)
    × (is_settled (
          execute_evaluate
            (λ _. "")
            (λ _. ok none)
            (λ json. ok json)
            (λ _. ok tt)
            sample_planner
            sample_world
            null
            attempted)
        ≡ true)
execute-ends_example =
    execute-ends (λ _. "") (λ _. ok none) (λ json. ok json) (λ _. ok tt) sample_planner sample_world
      null attempted
