-- ===== src/Taskset/Sampling/Fresh.antt =====
-- The tasks that an earlier selection does not hold, which `select_tasks` of
-- src/qorl/taskset/selection.py selects from.
use qorl.Prelude.{
  String, ◌≡◌, refl, sym, ap, ◌∙◌, ◌≢◌, inl, inr, Bool, true, false, not, ◌||◌, some, List, [], ◌∷◌,
  ◌++◌, map, arith, Bool-cases, ◌==◌, nat_eq, string_eq, keep, contains, beq_self, contains-append,
  ok, raise_if, or_raise, >>=-eq-ok, >>-eq-ok, Dict,
}
use mathlib.Core.Path.{subst}
use mathlib.Core.List.{Memᴰ}
use mathlib.Core.List.Memᴰ.{head, tail, not-nil}
use qorl.Taskset.Schemas.{
  BenchmarkId, benchmark_value, Task, TaskSet, TaskSelection, task_by_id, tasks_of, resolve,
  other_benchmark, unknown_task,
}
use qorl.Taskset.Selection.{benchmark}
use qorl.Taskset.Sampling.{Excluded, exclude_all, is_available}

-- A task that is not the excluded task with this identifier of this benchmark, by identifier or SQL.
pub record Differs (task_sets : Dict TaskSet) (benchmark_id : BenchmarkId) (id : String) (u : Task)
    : Type 0 where
  pub task_set : TaskSet
  pub excluded : Task
  pub loaded : benchmark task_sets benchmark_id ≡ ok task_set
  pub found : task_by_id id task_set.tasks ≡ some excluded
  pub other_id : u.task_id ≢ id
  pub other_sql : u.sql_sha256 ≢ excluded.sql_sha256

-- A task that differs from every task of every excluded selection.
abbrev pub IsFresh : Dict TaskSet → List TaskSelection → Task → Type 0
IsFresh task_sets exclude u =
    (s : TaskSelection)
    → Memᴰ s exclude
    → (id : String) → contains s.task_ids id ≡ true
    → Differs task_sets s.benchmark_id id u

-- A task of a list with this identifier, of which the property holds.
abbrev pub Listed : List Task → (Task → Type 0) → String → Type 0
Listed tasks p id = (u : Task) × Memᴰ u tasks × (u.task_id ≡ id) × p u

-- The tasks of a selection are tasks of its benchmark that differ from those excluded.
pub record IsChosen (task_sets : Dict TaskSet) (exclude : List TaskSelection) (s : TaskSelection)
    : Type 0 where
  pub task_set : TaskSet
  pub loaded : benchmark task_sets s.benchmark_id ≡ ok task_set
  pub chosen :
      (id : String)
      → contains s.task_ids id ≡ true
      → Listed task_set.tasks (IsFresh task_sets exclude) id

further :
    {p : Task → Type 0} {t : Task} {tasks : List Task} {id : String}
    → Listed tasks p id
    → Listed (t ∷ tasks) p id
further (u, m, same, good) = (u, tail m, same, good)

nothing : false ≢ true
nothing k = cc

Listed-keep :
    (p : Task → Bool) (tasks : List Task) (id : String)
    → contains (map (λ t. t.task_id) (keep p tasks)) id ≡ true
    → Listed tasks (λ u. p u ≡ true) id
Listed-keep p [] id h = absurd (nothing h)
Listed-keep p (t ∷ tasks) id h = elim (Bool-cases (p t)) [
  | inl stays ↦ elim (Bool-cases (t.task_id == id)) [
    | inl here ↦ (t, head refl, (string_eq.beq_iff t.task_id id).0 here, stays)
    | inr other ↦ further (Listed-keep p tasks id (ground arith))
  ]
  | inr goes ↦ further (Listed-keep p tasks id (ground arith))
]

-- What a list of resolved tasks says of one of the identifiers.
record Resolved (tasks found : List Task) (id : String) : Type 0 where
  pub task : Task
  pub by_id : task_by_id id tasks ≡ some task
  pub same_id : task.task_id ≡ id
  pub has_id : contains (map (λ t. t.task_id) found) task.task_id ≡ true
  pub has_sql : contains (map (λ t. t.sql_sha256) found) task.sql_sha256 ≡ true

task_by_id-same :
    (id : String) (tasks : List Task) (t : Task) → task_by_id id tasks ≡ some t → t.task_id ≡ id
unfolding task_by_id
task_by_id-same id [] t h = cc
task_by_id-same id (u ∷ tasks) t h =
    ground (arith, task_by_id-same id tasks t, string_eq.beq_iff u.task_id id)

tasks_of-Resolved :
    (tasks : List Task) (ids : List String) (found : List Task) (id : String)
    → tasks_of tasks ids ≡ ok found
    → contains ids id ≡ true
    → Resolved tasks found id
unfolding tasks_of
tasks_of-Resolved tasks [] found id h held = absurd (nothing held)
tasks_of-Resolved tasks (i ∷ ids) found id h held =
    let (t, looked, h₁) = >>=-eq-ok (or_raise (task_by_id i tasks) (unknown_task i)) _ h in
    let (rest, later, made) = >>=-eq-ok (tasks_of tasks ids) _ h₁ in
    let by : task_by_id i tasks ≡ some t = ground arith in
    let same : t ∷ rest ≡ found = cc in
    subst (λ xs. Resolved tasks xs id) same
      (elim (Bool-cases (i == id)) [
        | inl here ↦
            subst (λ j. Resolved tasks (t ∷ rest) j) ((string_eq.beq_iff i id).0 here)
              (record {
                task = t;
                by_id = by;
                same_id = task_by_id-same i tasks t by;
                has_id = rw (beq_self t.task_id) refl;
                has_sql = rw (beq_self t.sql_sha256) refl;
              })
        | inr other ↦
            let r = tasks_of-Resolved tasks ids rest id later (ground arith) in
            record {
              task = r.task;
              by_id = r.by_id;
              same_id = r.same_id;
              has_id = or_true (t.task_id == r.task.task_id) _ r.has_id;
              has_sql = or_true (t.sql_sha256 == r.task.sql_sha256) _ r.has_sql;
            }
      ])
  where
    or_true : (a b : Bool) → b ≡ true → (a || b) ≡ true
    or_true a b k = ground arith

-- A task that is not among the identifiers and texts collected so far.
IsClear : Excluded → Task → Type 0
IsClear excluded u =
    (contains excluded.ids u.task_id ≡ false) × (contains excluded.sql u.sql_sha256 ≡ false)

is_available-IsClear :
    (excluded : Excluded) (u : Task) → is_available excluded u ≡ true → IsClear excluded u
unfolding IsClear
is_available-IsClear excluded u h = ground arith

left_clear :
    (xs ys : List String) (a : String)
    → contains (xs ++ ys) a ≡ false
    → (contains xs a ≡ false) × (contains ys a ≡ false)
left_clear xs ys a h = ground (arith, contains-append xs ys a)

apart : (xs : List String) (a b : String) → contains xs a ≡ false → contains xs b ≡ true → a ≢ b
apart xs a b missing there same = absurd (nothing (sym missing ∙ ap (contains xs) same ∙ there))

exclude_all-IsFresh :
    (task_sets : Dict TaskSet) (exclude : List TaskSelection) (excluded : Excluded) (u : Task)
    → exclude_all task_sets exclude ≡ ok excluded
    → IsClear excluded u
    → IsFresh task_sets exclude u
unfolding exclude_all resolve IsClear
exclude_all-IsFresh task_sets [] excluded u h clear s m id held = absurd (not-nil m)
exclude_all-IsFresh task_sets (x ∷ exclude) excluded u h clear s m id held =
    let (set, loaded, h₁) = >>=-eq-ok (benchmark task_sets x.benchmark_id) _ h in
    let (tasks, resolved, h₂) = >>=-eq-ok (resolve set x) _ h₁ in
    let (rest, later, made) = >>=-eq-ok (exclude_all task_sets exclude) _ h₂ in
    let same : record {
      ids = map (λ t. t.task_id) tasks ++ rest.ids;
      sql = map (λ t. t.sql_sha256) tasks ++ rest.sql;
    }
        ≡ excluded =
      cc in
    let (ids_clear, sql_clear) = subst (λ e. IsClear e u) (sym same) clear in
    let (no_id, rest_ids) = left_clear (map (λ t. t.task_id) tasks) rest.ids u.task_id ids_clear in
    let (no_sql, rest_sql) =
      left_clear (map (λ t. t.sql_sha256) tasks) rest.sql u.sql_sha256 sql_clear in
    let (_, listed) =
      >>-eq-ok (raise_if (not (benchmark_value x.benchmark_id == set.task_set_id)) other_benchmark)
        _ resolved in
    elim m [
      | head is_x ↦
          let r =
            tasks_of-Resolved set.tasks x.task_ids tasks id listed
              (sym (ap (λ y. contains y.task_ids id) is_x) ∙ held) in
          subst (λ y. Differs task_sets y.benchmark_id id u) (sym is_x)
            (record {
              task_set = set;
              excluded = r.task;
              loaded = loaded;
              found = r.by_id;
              other_id = λ e.
                  apart (map (λ t. t.task_id) tasks) u.task_id r.task.task_id no_id r.has_id
                    (e ∙ sym r.same_id);
              other_sql =
                  apart (map (λ t. t.sql_sha256) tasks) u.sql_sha256 r.task.sql_sha256 no_sql
                    r.has_sql;
            })
      | tail n ↦ exclude_all-IsFresh task_sets exclude rest u later (rest_ids, rest_sql) s n id held
    ]

-- What is available is fresh.
pub available-IsFresh :
    (task_sets : Dict TaskSet) (exclude : List TaskSelection) (excluded : Excluded)
    (tasks : List Task) (id : String)
    → exclude_all task_sets exclude ≡ ok excluded
    → contains (map (λ t. t.task_id) (keep (is_available excluded) tasks)) id ≡ true
    → Listed tasks (IsFresh task_sets exclude) id
available-IsFresh task_sets exclude excluded tasks id made held =
    let (u, m, same, good) = Listed-keep (is_available excluded) tasks id held in
    (
      u,
      m,
      same,
      exclude_all-IsFresh task_sets exclude excluded u made (is_available-IsClear excluded u good),
    )
