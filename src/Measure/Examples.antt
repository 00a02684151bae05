-- ===== src/Measure/Examples.antt =====
-- The theorems on validation at the rollout of `Samples`.
use qorl.Prelude.{
  ◌≤◌, ◌≡◌, true, false, none, some, List, [], ◌∷◌, ◌++◌, map, nat_eq, string_eq, length,
}
use qorl.Json.{null}
use qorl.Measure.Query.{QueryObservation}
use qorl.Measure.Query.WarmUp.{is_warm_up, numbers, measure_query-runs}
use qorl.Measure.Validation.Invariant.{structure_holder, reuse_holder, IsCoherent}
use qorl.Measure.Validation.Selection.{resolve_selection}
use qorl.Measure.Validation.Choosing.{is_final, resolve_selection-is_final}
use qorl.Measure.Validation.Reachable.{Reached-IsCoherent}
use qorl.Measure.Validation.Duplicates.{evaluate-duplicates}
use qorl.Measure.Samples.{
  sample_execution, sample_runs, query_measured, first_candidate, first_evaluated, begun,
  begun-Reached, sample_planner, sample_world, attempted, attempted-Reached,
}

Reached-IsCoherent_example : IsCoherent attempted
Reached-IsCoherent_example =
    Reached-IsCoherent sample_planner sample_world attempted attempted-Reached

resolve_selection-is_final_example : is_final (resolve_selection attempted).selection.status ≡ true
resolve_selection-is_final_example =
    resolve_selection-is_final attempted
      (Reached-IsCoherent sample_planner sample_world attempted attempted-Reached)

evaluate-duplicates_example :
    (attempted.candidates ≡ begun.candidates ++ first_candidate ∷ [])
    × (some "default" ≡ structure_holder begun "structure")
    × (none ≡ reuse_holder begun "steered")
evaluate-duplicates_example =
    evaluate-duplicates sample_planner sample_world null begun first_candidate
      (Reached-IsCoherent sample_planner sample_world begun begun-Reached) first_evaluated

measure_query-runs_example :
    (warm timed : List QueryObservation) × (sample_runs
      ≡ map (λ o. record { is_warmup = true; observation = o }) warm
        ++ map (λ o. record { is_warmup = false; observation = o }) timed)
    × (is_warm_up 10 none warm ≡ true)
    × (2 ≤ length warm)
    × (length warm ≤ 10)
    × (map (λ o. o.run) warm ≡ numbers 1 (length warm))
    × (map (λ o. o.run) timed ≡ numbers 1 1)
measure_query-runs_example = measure_query-runs sample_execution 10 1 sample_runs query_measured
