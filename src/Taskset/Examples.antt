-- ===== src/Taskset/Examples.antt =====
-- The theorems on selections at two splits of one benchmark.
use qorl.Prelude.{
  ℕ, zero, suc, String, ◌≡◌, refl, ◌↔◌, true, Option, none, some, List, [], ◌∷◌, arith,
  if◌then◌else◌, ◌==◌, nat_eq, string_eq, contains, is_subset_iff, sorted, name_le, Result, ok,
  Dict, lookup, assign, set_default,
}
use qorl.Taskset.Schemas.{
  resolve, TaskRole, train, validation, test, Task, TaskSet, TaskSelection, job,
}
use qorl.Taskset.Schemas.{TaskSetError, SelectionExpression, validate_task_ids}
use qorl.Taskset.Sampling.{selection_of, select_tasks}
use qorl.Taskset.Sampling.Fresh.{IsChosen}
use qorl.Taskset.Sampling.Drawing.{DrawsMembers}
use qorl.Taskset.Sampling.Excluding.{IsApart, select_tasks-IsChosen}
use qorl.Taskset.Selection.{validate_splits}
use qorl.Taskset.Selection.Claims.{split_topologies}
use qorl.Taskset.Selection.Disjoint.{disjoint, validate_splits_iff}

abbrev task : String → String → Task
task task_id template_id = record {
  task_id = task_id;
  template_id = template_id;
  sql_path = "";
  sql_sha256 = task_id;
  tables = [];
  relations = [];
  join_edges = [];
  table_count = 0;
  relation_count = 0;
  join_predicate_count = 0;
}

abbrev catalogs : Dict TaskSet
catalogs =
    (
      "job",
      record {
        task_set_id = "job";
        fixture_id = "imdb";
        tasks = task "job-1a" "job-1" ∷ task "job-1b" "job-1" ∷ task "job-2a" "job-2" ∷ [];
        tasks_metadata =
            ("job-1", record { query_count = 2; topology_sha256 = "t1" })
            ∷ ("job-2", record { query_count = 1; topology_sha256 = "t2" })
            ∷ [];
      },
    )
    ∷ []

abbrev selections : TaskRole → Option TaskSelection
selections train = some (record { benchmark_id = job; task_ids = "job-1a" ∷ [] })
selections validation = none
selections test = some (record { benchmark_id = job; task_ids = "job-2a" ∷ [] })

validate_splits_iff_example : (validate_splits selections catalogs ≡ ok tt) ↔ (
    (xs ys zs : List String) × (split_topologies catalogs (selections train) ≡ ok xs)
    × (split_topologies catalogs (selections validation) ≡ ok ys)
    × (split_topologies catalogs (selections test) ≡ ok zs)
    × (disjoint xs ys ≡ true)
    × (disjoint xs zs ≡ true)
    × (disjoint ys zs ≡ true))
validate_splits_iff_example = validate_splits_iff selections catalogs

splits_accepted : validate_splits selections catalogs ≡ ok tt
unfolding validate_splits lookup set_default resolve sorted name_le assign
splits_accepted = refl

-- "train=job[1:1]", and "test=job[2:1]" for every other text.
abbrev parse_one : String → Result TaskSetError SelectionExpression
parse_one text =
    if text == "train=job[1:1]"
    then ok (record {
      role = train;
      benchmark_id = job;
      templates = record { template_id = "job-1"; count = 1 } ∷ [];
    })
    else ok (record {
      role = test;
      benchmark_id = job;
      templates = record { template_id = "job-2"; count = 1 } ∷ [];
    })

abbrev first_ones : List String → ℕ → List String
first_ones [] n = []
first_ones (x ∷ xs) zero = []
first_ones (x ∷ xs) (suc n) = x ∷ first_ones xs n

first_ones-contains :
    (xs : List String) (n : ℕ) (a : String)
    → contains (first_ones xs n) a ≡ true
    → contains xs a ≡ true
first_ones-contains [] n a h = h
first_ones-contains (x ∷ xs) zero a h = ground arith
first_ones-contains (x ∷ xs) (suc n) a h = ground (arith, first_ones-contains xs n a)

abbrev draw_first : String → String → List String → ℕ → List String
draw_first b t xs n = first_ones xs n

draw_first-members : DrawsMembers draw_first
draw_first-members b t xs n few =
    (is_subset_iff (first_ones xs n) xs).1 (λ a. first_ones-contains xs n a)

abbrev excluded_before : List TaskSelection
excluded_before = record { benchmark_id = job; task_ids = "job-1a" ∷ [] } ∷ []

abbrev sampled : List (TaskRole × TaskSelection)
sampled =
    (test, record { benchmark_id = job; task_ids = "job-2a" ∷ [] })
    ∷ (train, record { benchmark_id = job; task_ids = "job-1b" ∷ [] })
    ∷ []

sampled_made :
    select_tasks parse_one draw_first
      ("train=job[1:1]" ∷ "test=job[2:1]" ∷ [])
      catalogs
      excluded_before
    ≡ ok sampled
unfolding select_tasks validate_splits lookup set_default resolve sorted name_le assign
    validate_task_ids
sampled_made = refl

train_sampled :
    selection_of train sampled ≡ some (record { benchmark_id = job; task_ids = "job-1b" ∷ [] })
unfolding selection_of
train_sampled = refl

select_tasks-IsChosen_example :
    IsChosen catalogs excluded_before (record { benchmark_id = job; task_ids = "job-1b" ∷ [] })
    × IsApart catalogs (λ r. selection_of r sampled)
select_tasks-IsChosen_example =
    select_tasks-IsChosen parse_one draw_first ("train=job[1:1]" ∷ "test=job[2:1]" ∷ []) catalogs
      excluded_before sampled draw_first-members sampled_made train
      (record { benchmark_id = job; task_ids = "job-1b" ∷ [] }) train_sampled
