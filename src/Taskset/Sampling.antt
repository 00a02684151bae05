-- ===== src/Taskset/Sampling.antt =====
-- `select_tasks` of src/qorl/taskset/selection.py: the tasks of each split, sampled from those that
-- an earlier selection does not hold.
pub mod Drawing
pub mod Excluding
pub mod Fresh
use qorl.Prelude.{
  ℕ, zero, suc, ◌+◌, ◌-◌, ◌*◌, ◌/◌, ◌%◌, ◌^◌, ◌≤◌, ◌<◌, String, ◌≡◌, refl, sym, ap, ◌∙◌, ◌≢◌, ◌↔◌,
  ◌⊎◌, inl, inr, Bool, true, false, not, ◌&&◌, ◌||◌, Option, none, some, List, [], ◌∷◌, ◌++◌, map,
  arith, ltb, leb, nat_beq, if◌then◌else◌, nat_beq_iff, ltb→lt, lt→ltb, leb→le, le→leb, Bool-cases,
  Option-cases, Eq, ◌==◌, nat_eq, string_eq, length, get_elem?, length-append, keep, length-keep_le,
  some_of, all_of, first_of?, contains, is_distinct, intersect, without, is_subset, same_set,
  beq_self, contains-append, contains-keep, is_subset_iff, same_set_iff, sorted, is_sorted,
  sorted-perm, length-sorted, some_of-sorted, sorted-is_sorted, sorted_of_is_sorted, codes, name_le,
  names_le, name_le_total, names_le_total, contains-sorted, is_distinct-sorted, Result, ok, err,
  ◌>>=◌, ◌>>◌, raise_if, or_raise, >>=-eq-ok, >>-eq-ok, >>=-total, Dict, lookup, assign,
  lookup-assign, set_default, lookup-set_default, lookup_or, is_none, is_empty, decimal, two_digits,
  sorted_twice, is_subset-sorted, sorted-is_subset, without-sorted, is_empty-sorted,
}
use qorl.Taskset.Schemas.{
  BenchmarkId, benchmark_value, TaskRole, role_eq, Task, TaskSet, TaskSelection, TemplateMetadata,
  TaskSetError, resolve, validate_task_ids, no_expression, duplicate_role, unknown_template,
  too_few, nothing_remains, excluded_not_selected, TemplateSample, SelectionExpression,
}
use qorl.Taskset.Selection.{benchmark, validate_splits}

-- `excluded_ids` and `excluded_sql`.
pub record Excluded : Type 0 where
  pub ids : List String
  pub sql : List String

unfoldable pub exclude_all : Dict TaskSet → List TaskSelection → Result TaskSetError Excluded
unfolding benchmark
exclude_all task_sets [] = ok (record { ids = []; sql = [] })
exclude_all task_sets (selection ∷ exclude) = do
  task_set ← benchmark task_sets selection.benchmark_id
  tasks ← resolve task_set selection
  rest ← exclude_all task_sets exclude
  ok (record {
    ids = map (λ t. t.task_id) tasks ++ rest.ids;
    sql = map (λ t. t.sql_sha256) tasks ++ rest.sql;
  })

abbrev pub is_available : Excluded → Task → Bool
is_available excluded t =
    not (contains excluded.ids t.task_id) && not (contains excluded.sql t.sql_sha256)

unfoldable pub available_of : Excluded → TaskSet → List Task
available_of excluded task_set = keep (is_available excluded) task_set.tasks

-- by_template[template_id]
unfoldable pub by_template : String → List Task → List String
by_template template_id tasks =
    map (λ t. t.task_id) (keep (λ t. t.template_id == template_id) tasks)

-- selections.get(role)
unfoldable pub selection_of : TaskRole → List (TaskRole × TaskSelection) → Option TaskSelection
selection_of role [] = none
selection_of role ((r, s) ∷ selections) = if r == role then some s else selection_of role selections

-- for selection in exclude: its benchmark is one of those selected
unfoldable pub check_excluded :
    List (TaskRole × TaskSelection) → List TaskSelection → Result TaskSetError (Unit {0})
check_excluded selections [] = ok tt
check_excluded selections (selection ∷ exclude) = do
  raise_if
      (not (
        some_of (λ s. benchmark_value (s.1).benchmark_id == benchmark_value selection.benchmark_id)
          selections))
      (excluded_not_selected selection.benchmark_id)
  check_excluded selections exclude

-- `parse` is `parse_selection`. `draw b t xs n` is random.Random(derive_seed(seed, purpose, b,
-- t)).sample(xs, n), for the seed of the call.
module _ (parse : String → Result TaskSetError SelectionExpression)
    (draw : String → String → List String → ℕ → List String) where
  -- for sample in parsed.templates
  unfoldable pub sample_templates :
      BenchmarkId
      → Dict TemplateMetadata
      → List Task
      → List TemplateSample
      → Result TaskSetError (List String)
  unfolding by_template
  sample_templates benchmark_id metadata available [] = ok []
  sample_templates benchmark_id metadata available (sample ∷ samples) = do
    let members = by_template sample.template_id available
    _ ← or_raise (lookup sample.template_id metadata) (unknown_template sample.template_id)
    raise_if (ltb (length members) sample.count)
        (too_few sample.template_id sample.count (length members))
    rest ← sample_templates benchmark_id metadata available samples
    ok (
        draw (benchmark_value benchmark_id) sample.template_id (sorted name_le members) sample.count
        ++ rest)

  -- if not parsed.templates: task_ids = [task.task_id for task in available]
  unfoldable pub choose_ids :
      BenchmarkId
      → Dict TemplateMetadata
      → List Task
      → List TemplateSample
      → Result TaskSetError (List String)
  unfolding sample_templates
  choose_ids benchmark_id metadata available [] = ok (map (λ t. t.task_id) available)
  choose_ids benchmark_id metadata available (sample ∷ samples) =
      sample_templates benchmark_id metadata available (sample ∷ samples)

  -- The body of the loop over the expressions, once the role is known to be new.
  unfoldable pub select_role :
      Dict TaskSet → Excluded → String → SelectionExpression → Result TaskSetError TaskSelection
  unfolding benchmark choose_ids available_of
  select_role task_sets excluded expression parsed = do
    task_set ← benchmark task_sets parsed.benchmark_id
    task_ids ←
        choose_ids parsed.benchmark_id task_set.tasks_metadata (available_of excluded task_set)
          parsed.templates
    raise_if (is_empty task_ids) (nothing_remains expression)
    validate_task_ids
        (record { benchmark_id = parsed.benchmark_id; task_ids = sorted name_le task_ids })

  -- for expression in expressions: `selections` holds those of the expressions before
  unfoldable pub select_each :
      Dict TaskSet
      → Excluded
      → List (TaskRole × TaskSelection)
      → List String
      → Result TaskSetError (List (TaskRole × TaskSelection))
  unfolding select_role selection_of
  select_each task_sets excluded selections [] = ok selections
  select_each task_sets excluded selections (expression ∷ expressions) = do
    parsed ← parse expression
    raise_if (not (is_none (selection_of parsed.role selections))) (duplicate_role parsed.role)
    selection ← select_role task_sets excluded expression parsed
    select_each task_sets excluded ((parsed.role, selection) ∷ selections) expressions

  unfoldable pub select_tasks :
      List String
      → Dict TaskSet
      → List TaskSelection
      → Result TaskSetError (List (TaskRole × TaskSelection))
  unfolding exclude_all select_each check_excluded
  select_tasks expressions task_sets exclude = do
    raise_if (is_empty expressions) no_expression
    excluded ← exclude_all task_sets exclude
    selections ← select_each task_sets excluded [] expressions
    check_excluded selections exclude
    validate_splits (λ role. selection_of role selections) task_sets
    ok selections
