-- ===== src/Taskset/Selection.antt =====
-- `validate_splits` of src/qorl/taskset/selection.py: no query topology is shared by two splits.
pub mod Claims
pub mod Disjoint
use qorl.Prelude.{
  ℕ, zero, suc, ◌+◌, ◌-◌, ◌*◌, ◌/◌, ◌%◌, ◌^◌, ◌≤◌, ◌<◌, String, ◌≡◌, refl, sym, ap, ◌∙◌, ◌≢◌, ◌↔◌,
  ◌⊎◌, inl, inr, Bool, true, false, not, ◌&&◌, ◌||◌, Option, none, some, List, [], ◌∷◌, ◌++◌, map,
  arith, ltb, leb, nat_beq, if◌then◌else◌, nat_beq_iff, ltb→lt, lt→ltb, leb→le, le→leb, Bool-cases,
  Option-cases, Eq, ◌==◌, nat_eq, string_eq, length, get_elem?, length-append, keep, length-keep_le,
  some_of, all_of, first_of?, contains, is_distinct, intersect, without, is_subset, same_set,
  beq_self, contains-append, contains-keep, is_subset_iff, same_set_iff, sorted, is_sorted,
  sorted-perm, length-sorted, some_of-sorted, sorted-is_sorted, sorted_of_is_sorted, codes, name_le,
  names_le, name_le_total, names_le_total, contains-sorted, is_distinct-sorted, Result, ok, err,
  ◌>>=◌, ◌>>◌, raise_if, or_raise, >>=-eq-ok, >>-eq-ok, >>=-total, Dict, lookup, assign,
  lookup-assign, set_default, lookup-set_default, lookup_or, is_none, is_empty, decimal, two_digits,
  sorted_twice, is_subset-sorted, sorted-is_subset, without-sorted, is_empty-sorted,
}
use qorl.Taskset.Schemas.{
  BenchmarkId, benchmark_value, TaskRole, train, validation, test, role_eq, Task, TaskSet,
  TaskSelection, TemplateMetadata, TaskSetError, resolve, not_loaded, missing_template,
  topology_overlap,
}

pub record TopologyOwner : Type 0 where
  pub role : TaskRole
  pub template_id : String

-- `_benchmark`
unfoldable pub benchmark : Dict TaskSet → BenchmarkId → Result TaskSetError TaskSet
benchmark task_sets benchmark_id = do
  task_set ← or_raise (lookup (benchmark_value benchmark_id) task_sets) (not_loaded benchmark_id)
  raise_if (not (task_set.task_set_id == benchmark_value benchmark_id)) (not_loaded benchmark_id)
  ok task_set

-- The members of the list, each once.
unfoldable pub set_of : List String → List String
set_of [] = []
set_of (x ∷ xs) = let rest = set_of xs in if contains rest x then rest else x ∷ rest

-- Whether another role owns the topology.
abbrev pub is_foreign : TaskRole → Option TopologyOwner → Bool
is_foreign role none = false
is_foreign role (some owner) = not (owner.role == role)

abbrev pub overlap : TaskRole → String → Option TopologyOwner → TaskSetError
overlap role template_id none = topology_overlap role template_id role template_id
overlap role template_id (some owner) =
    topology_overlap owner.role owner.template_id role template_id

-- for template_id in templates: the owner of its topology
unfoldable pub claim_templates :
    TaskRole
    → Dict TemplateMetadata
    → Dict TopologyOwner
    → List String
    → Result TaskSetError (Dict TopologyOwner)
claim_templates role metadata owners [] = ok owners
claim_templates role metadata owners (template_id ∷ templates) = do
  m ← or_raise (lookup template_id metadata) (missing_template template_id)
  let previous = lookup m.topology_sha256 owners
  raise_if (is_foreign role previous) (overlap role template_id previous)
  claim_templates role metadata
      (set_default m.topology_sha256 (record { role = role; template_id = template_id }) owners)
      templates

-- sorted({task.template_id for task in task_set.resolve(selection)})
unfoldable pub templates_of : TaskSet → TaskSelection → Result TaskSetError (List String)
unfolding set_of
templates_of task_set selection = do
  tasks ← resolve task_set selection
  ok (sorted name_le (set_of (map (λ t. t.template_id) tasks)))

unfoldable pub claim_role :
    Dict TaskSet
    → Dict TopologyOwner
    → TaskRole
    → Option TaskSelection
    → Result TaskSetError (Dict TopologyOwner)
unfolding benchmark templates_of claim_templates
claim_role task_sets owners role none = ok owners
claim_role task_sets owners role (some selection) = do
  task_set ← benchmark task_sets selection.benchmark_id
  templates ← templates_of task_set selection
  claim_templates role task_set.tasks_metadata owners templates

unfoldable pub validate_splits :
    (TaskRole → Option TaskSelection) → Dict TaskSet → Result TaskSetError (Unit {0})
unfolding claim_role
validate_splits selections task_sets = do
  owners ← claim_role task_sets [] train (selections train)
  owners' ← claim_role task_sets owners validation (selections validation)
  _ ← claim_role task_sets owners' test (selections test)
  ok tt
