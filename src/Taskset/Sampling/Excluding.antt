-- ===== src/Taskset/Sampling/Excluding.antt =====
-- What `select_tasks` of src/qorl/taskset/selection.py selects, beside the excluded selections.
use qorl.Prelude.{
  ℕ, String, ◌≡◌, sym, ap, ◌∙◌, true, Option, some, List, [], nat_eq, string_eq, is_subset_iff,
  Result, ok, raise_if, >>=-eq-ok, >>-eq-ok, Dict, is_empty,
}
use qorl.Taskset.Schemas.{
  TaskRole, train, validation, test, role_eq, TaskSet, TaskSelection, TaskSetError, no_expression,
  SelectionExpression,
}
use qorl.Taskset.Selection.{validate_splits}
use qorl.Taskset.Selection.Claims.{split_topologies}
use qorl.Taskset.Selection.Disjoint.{disjoint, validate_splits_iff}
use qorl.Taskset.Sampling.Fresh.{IsChosen, available-IsFresh}
use qorl.Taskset.Sampling.{
  Excluded, exclude_all, available_of, selection_of, select_each, check_excluded, select_tasks,
}
use qorl.Taskset.Sampling.Drawing.{ids_of, IsDrawn, DrawsMembers, none_differs, select_each-IsDrawn}

IsDrawn-IsChosen :
    (task_sets : Dict TaskSet) (exclude : List TaskSelection) (excluded : Excluded)
    (s : TaskSelection)
    → exclude_all task_sets exclude ≡ ok excluded
    → IsDrawn task_sets excluded s
    → IsChosen task_sets exclude s
unfolding available_of
IsDrawn-IsChosen task_sets exclude excluded s made drawn = record {
  task_set = drawn.task_set;
  loaded = drawn.loaded;
  chosen = λ id held. available-IsFresh task_sets exclude excluded drawn.task_set.tasks id made (
      (is_subset_iff s.task_ids (ids_of (available_of excluded drawn.task_set))).0 drawn.chosen id
        held);
}

-- The query topologies of the splits, no two of which share one.
pub record IsApart (task_sets : Dict TaskSet) (selections : TaskRole → Option TaskSelection)
    : Type 0 where
  pub trained : List String
  pub validated : List String
  pub tested : List String
  pub of_train : split_topologies task_sets (selections train) ≡ ok trained
  pub of_validation : split_topologies task_sets (selections validation) ≡ ok validated
  pub of_test : split_topologies task_sets (selections test) ≡ ok tested
  pub train_validation : disjoint trained validated ≡ true
  pub train_test : disjoint trained tested ≡ true
  pub validation_test : disjoint validated tested ≡ true

validate_splits-IsApart :
    (task_sets : Dict TaskSet) (selections : TaskRole → Option TaskSelection)
    → validate_splits selections task_sets ≡ ok tt
    → IsApart task_sets selections
validate_splits-IsApart task_sets selections h =
    let (xs, ys, zs, trained, validated, tested, xy, xz, yz) =
      (validate_splits_iff selections task_sets).0 h in
    record {
      trained = xs;
      validated = ys;
      tested = zs;
      of_train = trained;
      of_validation = validated;
      of_test = tested;
      train_validation = xy;
      train_test = xz;
      validation_test = yz;
    }

-- Where a sample holds only members of what it is drawn from, each identifier that is selected for a
-- role is that of a task of the benchmark that has neither the identifier nor the SQL of a task of an
-- excluded selection, and no query topology is shared by two of the splits.
pub select_tasks-IsChosen :
    (parse : String → Result TaskSetError SelectionExpression)
    (draw : String → String → List String → ℕ → List String) (expressions : List String)
    (task_sets : Dict TaskSet) (exclude : List TaskSelection)
    (selections : List (TaskRole × TaskSelection))
    → DrawsMembers draw
    → select_tasks parse draw expressions task_sets exclude ≡ ok selections
    → (role : TaskRole) (selection : TaskSelection) → selection_of role selections ≡ some selection
    → IsChosen task_sets exclude selection × IsApart task_sets (λ r. selection_of r selections)
unfolding select_tasks selection_of
select_tasks-IsChosen parse draw expressions task_sets exclude selections fair h role selection
      held =
    let (_, h₁) = >>-eq-ok (raise_if (is_empty expressions) no_expression) _ h in
    let (excluded, found, h₂) = >>=-eq-ok (exclude_all task_sets exclude) _ h₁ in
    let (each, selected, h₃) =
      >>=-eq-ok (select_each parse draw task_sets excluded [] expressions) _ h₂ in
    let (_, h₄) = >>-eq-ok (check_excluded each exclude) _ h₃ in
    let (apart, made) = >>-eq-ok (validate_splits (λ r. selection_of r each) task_sets) _ h₄ in
    let same : each ≡ selections = cc in
    (
      IsDrawn-IsChosen task_sets exclude excluded selection found (
          select_each-IsDrawn draw fair parse task_sets excluded [] expressions selections
            (λ r s none_yet. absurd (none_differs none_yet)) (selected ∙ ap ok same) role selection
            held),
      validate_splits-IsApart task_sets (λ r. selection_of r selections)
          (ap (λ x. validate_splits (λ r. selection_of r x) task_sets) (sym same) ∙ apart),
    )
