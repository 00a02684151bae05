-- ===== src/Plans/Schemas/Action.antt =====
-- `PlanAction` of src/qorl/plans/schemas.py: its checks across requests, and its order.
use qorl.Prelude.{
  ℕ, ◌+◌, String, Bool, true, false, not, ◌&&◌, Option, none, some, List, [], ◌∷◌, map,
  if◌then◌else◌, ◌==◌, nat_eq, string_eq, some_of, intersect, same_set, sorted, name_le, names_le,
  Result, ok, err, ◌>>=◌, ◌>>◌, raise_if, Dict, lookup, is_empty,
}
use qorl.Numbers.{Number}
use qorl.Plans.Errors.{
  Error, duplicate_target, not_a_subtree, forces_and_disables, forces_and_disables_memoize,
  forces_and_disables_index, disables_every_index,
}
use qorl.Plans.Methods.{
  JoinMethod, ScanMethod, hash, merge, nestloop, seq, index, index_only, bitmap, force, memoize_eq,
}
use qorl.Plans.Catalog.{TaskCatalog, indexes_of}
use qorl.Plans.Schemas.{
  JoinConstraint, ScanConstraint, DisabledIndexes, RowCorrection, ParallelRequest, join_allowed,
  scan_allowed, validate_join, validate_scan, validate_indexes, validate_correction,
  validate_relation, is_index_based,
}
use qorl.Plans.Schemas.Leading.{JoinTree, leading_subtrees}

-- The value of a planner setting.
pub data Setting : Type 0 where
  flag : Bool → Setting
  cost : Number → Setting
  pages : ℕ → Setting

-- `settings` holds the settings that are not None, by name.
pub record PlanAction : Type 0 where
  pub leading : Option JoinTree
  pub joins : List JoinConstraint
  pub scans : List ScanConstraint
  pub disabled_indexes : List DisabledIndexes
  pub row_corrections : List RowCorrection
  pub parallel : List ParallelRequest
  pub settings : Dict Setting

abbrev pub names_beq : List String → List String → Bool
names_beq [] [] = true
names_beq (x ∷ xs) (y ∷ ys) = x == y && names_beq xs ys
names_beq _ _ = false

-- `_reject_duplicate_targets` and `_reject_duplicate_relations`: `seen` maps each key to its index.
module _ {ℓ} {K : Type ℓ} (same : K → K → Bool) where
  unfoldable pub seen_at : K → List (K × ℕ) → Option ℕ
  seen_at k [] = none
  seen_at k ((j, i) ∷ seen) = if same j k then some i else seen_at k seen

  unfoldable pub reject_duplicates : String → List (K × ℕ) → ℕ → List K → Result Error (Unit {0})
  unfolding seen_at
  reject_duplicates family seen i [] = ok tt
  reject_duplicates family seen i (k ∷ ks) =
      let rest = reject_duplicates family ((k, i) ∷ seen) (i + 1) ks in
      elim (seen_at k seen) [ none ↦ rest | some first ↦ err (duplicate_target family i first) ]

-- for index, join in enumerate(self.joins): if frozenset(join.relations) not in subtrees
unfoldable pub require_subtrees :
    List (List String) → ℕ → List JoinConstraint → Result Error (Unit {0})
require_subtrees subtrees i [] = ok tt
require_subtrees subtrees i (join ∷ joins) =
    let rest = require_subtrees subtrees (i + 1) joins in
    if some_of (same_set join.relations) subtrees then rest else err (not_a_subtree i)

unfoldable pub require_targets : Option JoinTree → List JoinConstraint → Result Error (Unit {0})
unfolding require_subtrees leading_subtrees
require_targets none joins = ok tt
require_targets (some tree) joins = require_subtrees (leading_subtrees tree) 0 joins

-- settings.get(name) is False
abbrev pub is_off_value : Option Setting → Bool
is_off_value (some (flag false)) = true
is_off_value _ = false

abbrev pub is_off : Dict Setting → String → Bool
is_off settings name = is_off_value (lookup name settings)

abbrev pub join_setting : JoinMethod → String
join_setting hash = "enable_hashjoin"
join_setting merge = "enable_mergejoin"
join_setting nestloop = "enable_nestloop"

abbrev pub scan_setting : ScanMethod → String
scan_setting seq = "enable_seqscan"
scan_setting index = "enable_indexscan"
scan_setting index_only = "enable_indexonlyscan"
scan_setting bitmap = "enable_bitmapscan"

-- next(iter(allowed)) if len(allowed) == 1
abbrev pub only {ℓ} : {A : Type ℓ} → List A → Option A
only (x ∷ []) = some x
only _ = none

abbrev pub forces_off {ℓ} : {A : Type ℓ} → (A → String) → Dict Setting → Option A → Bool
forces_off setting settings none = false
forces_off setting settings (some m) = is_off settings (setting m)

abbrev pub setting_of {ℓ} : {A : Type ℓ} → (A → String) → Option A → String
setting_of setting none = ""
setting_of setting (some m) = setting m

unfoldable pub check_join_conflicts : Dict Setting → JoinConstraint → Result Error (Unit {0})
check_join_conflicts settings item = do
  let forced = only (join_allowed item)
  raise_if (forces_off join_setting settings forced)
      (forces_and_disables (setting_of join_setting forced))
  raise_if (item.memoize == force && is_off settings "enable_memoize") forces_and_disables_memoize

unfoldable pub disabled_of : List DisabledIndexes → String → List String
disabled_of [] relation = []
disabled_of (target ∷ targets) relation =
    if target.relation == relation then target.indexes else disabled_of targets relation

unfoldable pub check_scan_conflicts :
    TaskCatalog → Dict Setting → List DisabledIndexes → ScanConstraint → Result Error (Unit {0})
unfolding disabled_of
check_scan_conflicts catalog settings targets item = do
  let forced = only (scan_allowed item)
  let disabled = disabled_of targets item.relation
  raise_if (forces_off scan_setting settings forced)
      (forces_and_disables (setting_of scan_setting forced))
  raise_if (not (is_empty (intersect disabled item.indexes)))
      (forces_and_disables_index item.relation)
  raise_if
      (is_index_based forced
        && not (is_empty disabled)
        && same_set disabled (indexes_of catalog item.relation))
      (disables_every_index item.relation)

-- for item in items: check(item)
unfoldable pub check_each {ℓ} :
    {A : Type ℓ} → (A → Result Error (Unit {0})) → List A → Result Error (Unit {0})
check_each check [] = ok tt
check_each check (x ∷ xs) = check x >> check_each check xs

unfoldable pub validate_conflicts : TaskCatalog → PlanAction → Result Error (Unit {0})
unfolding check_each check_join_conflicts check_scan_conflicts
validate_conflicts catalog a = do
  check_each (check_join_conflicts a.settings) a.joins
  check_each (check_scan_conflicts catalog a.settings a.disabled_indexes) a.scans

-- The order of the requests in an action that has been checked.
abbrev pub ordered : PlanAction → PlanAction
ordered a = record {
  leading = a.leading;
  joins = sorted (λ x y. names_le x.relations y.relations) a.joins;
  scans = sorted (λ x y. name_le x.relation y.relation) a.scans;
  disabled_indexes = sorted (λ x y. name_le x.relation y.relation) a.disabled_indexes;
  row_corrections = sorted (λ x y. names_le x.relations y.relations) a.row_corrections;
  parallel = sorted (λ x y. name_le x.relation y.relation) a.parallel;
  settings = a.settings;
}

unfoldable pub validate_action : TaskCatalog → PlanAction → Result Error PlanAction
unfolding reject_duplicates require_targets validate_conflicts
validate_action catalog a = do
  reject_duplicates names_beq "joins" [] 0 (map (λ x. x.relations) a.joins)
  reject_duplicates names_beq "row_corrections" [] 0 (map (λ x. x.relations) a.row_corrections)
  reject_duplicates string_eq.beq "scans" [] 0 (map (λ x. x.relation) a.scans)
  reject_duplicates string_eq.beq "disabled_indexes" [] 0 (map (λ x. x.relation) a.disabled_indexes)
  reject_duplicates string_eq.beq "parallel" [] 0 (map (λ x. x.relation) a.parallel)
  require_targets a.leading a.joins
  validate_conflicts catalog a
  ok (ordered a)

-- [validate(x) for x in xs]
unfoldable pub validate_each {ℓ} :
    {A : Type ℓ} → (A → Result Error A) → List A → Result Error (List A)
validate_each validate [] = ok []
validate_each validate (x ∷ xs) = do y ← validate x; ys ← validate_each validate xs; ok (y ∷ ys)

-- The checks that run over an action whose fields pydantic has read: those of its requests, in the
-- order of the fields, then its own.
unfoldable pub validate_requests : TaskCatalog → PlanAction → Result Error PlanAction
unfolding validate_each
validate_requests catalog a = do
  joins ← validate_each (validate_join catalog) a.joins
  scans ← validate_each (validate_scan catalog) a.scans
  disabled_indexes ← validate_each (validate_indexes catalog) a.disabled_indexes
  row_corrections ← validate_each (validate_correction catalog) a.row_corrections
  parallel ← validate_each (validate_relation catalog) a.parallel
  ok (record {
    leading = a.leading;
    joins = joins;
    scans = scans;
    disabled_indexes = disabled_indexes;
    row_corrections = row_corrections;
    parallel = parallel;
    settings = a.settings;
  })

unfoldable pub validate : TaskCatalog → PlanAction → Result Error PlanAction
unfolding validate_requests validate_action
validate catalog a = do read ← validate_requests catalog a; validate_action catalog read
