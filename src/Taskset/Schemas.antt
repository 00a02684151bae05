-- ===== src/Taskset/Schemas.antt =====
-- The records of src/qorl/taskset/schemas.py with the checks that they pass, and `TaskSet` of
-- src/qorl/taskset/taskset.py.
use text.Mathlib.Text.{starts_with}
use qorl.Prelude.{
  ℕ, ◌+◌, String, ◌≡◌, ◌↔◌, Bool, true, false, not, ◌||◌, Option, none, some, List, [], ◌∷◌, map,
  arith, if◌then◌else◌, Eq, ◌==◌, nat_eq, string_eq, is_distinct, same_set, Result, ok, ◌>>=◌, ◌>>◌,
  raise_if, or_raise, Dict, lookup,
}
use qorl.Plans.Schemas.Leading.{◌<>◌}
use qorl.Plans.Catalog.{Relation}

pub data BenchmarkId : Type 0 where
  job ceb : BenchmarkId

abbrev pub benchmark_value : BenchmarkId → String
benchmark_value job = "job"
benchmark_value ceb = "ceb"

pub data TaskRole : Type 0 where
  train validation test : TaskRole

abbrev role_beq : TaskRole → TaskRole → Bool
role_beq train train = true
role_beq validation validation = true
role_beq test test = true
role_beq _ _ = false

pub role_beq_iff : (a b : TaskRole) → (role_beq a b ≡ true) ↔ (a ≡ b)
role_beq_iff a b = ground arith

instance abbrev pub role_eq : Eq TaskRole
role_eq = record { beq = role_beq; beq_iff = role_beq_iff }

pub record Task : Type 0 where
  pub task_id : String
  pub template_id : String
  pub sql_path : String
  pub sql_sha256 : String
  pub tables : List String
  pub relations : List Relation
  pub join_edges : List String
  pub table_count : ℕ
  pub relation_count : ℕ
  pub join_predicate_count : ℕ

pub record TemplateMetadata : Type 0 where
  pub query_count : ℕ
  pub topology_sha256 : String

pub data TaskSetError : Type 0 where
  duplicate_tasks metadata_differs : TaskSetError
  foreign_task count_differs : String → TaskSetError
  duplicate_selected other_benchmark : TaskSetError
  unknown_task : String → TaskSetError
  not_loaded : BenchmarkId → TaskSetError
  -- KeyError of tasks_metadata
  missing_template : String → TaskSetError
  no_expression : TaskSetError
  duplicate_role : TaskRole → TaskSetError
  unknown_template : String → TaskSetError
  too_few : String → ℕ → ℕ → TaskSetError
  nothing_remains : String → TaskSetError
  excluded_not_selected : BenchmarkId → TaskSetError
  -- the two roles, and the templates that share a topology
  topology_overlap : TaskRole → String → TaskRole → String → TaskSetError

-- The number of tasks of a template.
unfoldable pub count_of_template : String → List Task → ℕ
count_of_template template [] = 0
count_of_template template (t ∷ ts) =
    let rest = count_of_template template ts in if t.template_id == template then rest + 1 else rest

-- The first task that is not of the benchmark with this prefix.
unfoldable pub check_prefixes : String → List Task → Result TaskSetError (Unit {0})
check_prefixes prefix [] = ok tt
check_prefixes prefix (t ∷ ts) = do
  raise_if (not (starts_with t.task_id prefix) || not (starts_with t.template_id prefix))
      (foreign_task t.task_id)
  check_prefixes prefix ts

unfoldable pub check_counts :
    List Task → Dict TemplateMetadata → List String → Result TaskSetError (Unit {0})
unfolding count_of_template
check_counts tasks metadata [] = ok tt
check_counts tasks metadata (template ∷ templates) = do
  m ← or_raise (lookup template metadata) (missing_template template)
  raise_if (not (m.query_count == count_of_template template tasks)) (count_differs template)
  check_counts tasks metadata templates

-- BenchmarkCatalog.validate_inventory
unfoldable pub validate_inventory :
    BenchmarkId → Dict TemplateMetadata → List Task → Result TaskSetError (Unit {0})
unfolding check_prefixes check_counts
validate_inventory benchmark_id metadata tasks = do
  let templates = map (λ t. t.template_id) tasks
  raise_if (not (is_distinct (map (λ t. t.task_id) tasks))) duplicate_tasks
  raise_if (not (same_set templates (map (λ m. m.0) metadata))) metadata_differs
  check_prefixes (benchmark_value benchmark_id <> "-") tasks
  check_counts tasks metadata templates

pub record TaskSelection : Type 0 where
  pub benchmark_id : BenchmarkId
  pub task_ids : List String

-- TaskSelection.validate_task_ids
unfoldable pub validate_task_ids : TaskSelection → Result TaskSetError TaskSelection
validate_task_ids s = do raise_if (not (is_distinct s.task_ids)) duplicate_selected; ok s

pub record TaskSet : Type 0 where
  pub task_set_id : String
  pub fixture_id : String
  pub tasks : List Task
  pub tasks_metadata : Dict TemplateMetadata

-- tasks_by_id.get(task_id), where the last task with an identifier is the one that the dict holds
unfoldable pub task_by_id : String → List Task → Option Task
task_by_id task_id [] = none
task_by_id task_id (t ∷ ts) = elim (task_by_id task_id ts) [
  | some found ↦ some found
  | none ↦ if t.task_id == task_id then some t else none
]

unfoldable pub tasks_of : List Task → List String → Result TaskSetError (List Task)
unfolding task_by_id
tasks_of tasks [] = ok []
tasks_of tasks (task_id ∷ task_ids) = do
  task ← or_raise (task_by_id task_id tasks) (unknown_task task_id)
  rest ← tasks_of tasks task_ids
  ok (task ∷ rest)

unfoldable pub resolve : TaskSet → TaskSelection → Result TaskSetError (List Task)
unfolding tasks_of
resolve task_set selection = do
  raise_if (not (benchmark_value selection.benchmark_id == task_set.task_set_id)) other_benchmark
  tasks_of task_set.tasks selection.task_ids

pub record TemplateSample : Type 0 where
  pub template_id : String
  pub count : ℕ

pub record SelectionExpression : Type 0 where
  pub role : TaskRole
  pub benchmark_id : BenchmarkId
  pub templates : List TemplateSample
