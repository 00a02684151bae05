-- ===== src/Plans/Schemas/Consistent.antt =====
-- What `validate_action` accepts: an action whose requests do not contradict each other.
use qorl.Prelude.{String, ◌≡◌, refl, ◌↔◌, true, List, [], map, nat_eq, string_eq, ok, >>-eq-ok}
use qorl.Plans.Methods.{memoize_eq}
use qorl.Plans.Catalog.{TaskCatalog}
use qorl.Plans.Schemas.Compiled.{validate_action-eq}
use qorl.Plans.Schemas.Action.{
  PlanAction, names_beq, reject_duplicates, require_targets, check_join_conflicts,
  check_scan_conflicts, check_each, validate_conflicts, validate_action, ordered,
}
use qorl.Plans.Schemas.Distinct.{all_differ, reject_duplicates-start}
use qorl.Plans.Schemas.Agreeing.{
  JoinAgrees, Every, >>-ok-back, check_each-Every, check_join_conflicts-agrees,
}
use qorl.Plans.Schemas.Agreeing.Subtrees.{are_subtrees, require_targets-are_subtrees}
use qorl.Plans.Schemas.Agreeing.Scans.{ScanAgrees, check_scan_conflicts-agrees}

pub record IsConsistent (c : TaskCatalog) (a : PlanAction) : Type 0 where
  pub joins_differ : all_differ names_beq (map (λ x. x.relations) a.joins) ≡ true
  pub rows_differ : all_differ names_beq (map (λ x. x.relations) a.row_corrections) ≡ true
  pub scans_differ : all_differ string_eq.beq (map (λ x. x.relation) a.scans) ≡ true
  pub disabled_differ : all_differ string_eq.beq (map (λ x. x.relation) a.disabled_indexes) ≡ true
  pub parallel_differ : all_differ string_eq.beq (map (λ x. x.relation) a.parallel) ≡ true
  pub subtrees : are_subtrees a.leading a.joins ≡ true
  pub joins_agree : Every (JoinAgrees a.settings) a.joins
  pub scans_agree : Every (ScanAgrees c a.settings a.disabled_indexes) a.scans

join_targets_differ :
    (family : String) (joins : List (List String))
    → (reject_duplicates names_beq family [] 0 joins ≡ ok tt) ↔ (all_differ names_beq joins ≡ true)
join_targets_differ = reject_duplicates-start names_beq

relations_differ :
    (family : String) (relations : List String)
    → (reject_duplicates string_eq.beq family [] 0 relations ≡ ok tt)
      ↔ (all_differ string_eq.beq relations ≡ true)
relations_differ = reject_duplicates-start string_eq.beq

scans-agree :
    (c : TaskCatalog) (a : PlanAction)
    → all_differ string_eq.beq (map (λ x. x.relation) a.disabled_indexes) ≡ true
    → (check_each (check_scan_conflicts c a.settings a.disabled_indexes) a.scans ≡ ok tt)
      ↔ Every (ScanAgrees c a.settings a.disabled_indexes) a.scans
scans-agree c a differ =
    check_each-Every (check_scan_conflicts c a.settings a.disabled_indexes)
      (ScanAgrees c a.settings a.disabled_indexes)
      (λ s. check_scan_conflicts-agrees c a.settings a.disabled_indexes s differ) a.scans

validate_action-IsConsistent :
    (c : TaskCatalog) (a b : PlanAction) → validate_action c a ≡ ok b → IsConsistent c a
unfolding validate_action validate_conflicts
validate_action-IsConsistent c a b h =
    let joins = map (λ x. x.relations) a.joins in
    let rows = map (λ x. x.relations) a.row_corrections in
    let scans = map (λ x. x.relation) a.scans in
    let disabled = map (λ x. x.relation) a.disabled_indexes in
    let parallel = map (λ x. x.relation) a.parallel in
    let (j, h₁) = >>-eq-ok (reject_duplicates names_beq "joins" [] 0 joins) _ h in
    let (r, h₂) = >>-eq-ok (reject_duplicates names_beq "row_corrections" [] 0 rows) _ h₁ in
    let (s, h₃) = >>-eq-ok (reject_duplicates string_eq.beq "scans" [] 0 scans) _ h₂ in
    let (d, h₄) =
      >>-eq-ok (reject_duplicates string_eq.beq "disabled_indexes" [] 0 disabled) _ h₃ in
    let (p, h₅) = >>-eq-ok (reject_duplicates string_eq.beq "parallel" [] 0 parallel) _ h₄ in
    let (t, h₆) = >>-eq-ok (require_targets a.leading a.joins) _ h₅ in
    let (both_checked, _) = >>-eq-ok (validate_conflicts c a) _ h₆ in
    let (join_checked, scan_checked) =
      >>-eq-ok (check_each (check_join_conflicts a.settings) a.joins) _ both_checked in
    record {
      joins_differ = (join_targets_differ "joins" joins).0 j;
      rows_differ = (join_targets_differ "row_corrections" rows).0 r;
      scans_differ = (relations_differ "scans" scans).0 s;
      disabled_differ = (relations_differ "disabled_indexes" disabled).0 d;
      parallel_differ = (relations_differ "parallel" parallel).0 p;
      subtrees = (require_targets-are_subtrees a.leading a.joins).0 t;
      joins_agree =
          (check_each-Every (check_join_conflicts a.settings) (JoinAgrees a.settings)
              (check_join_conflicts-agrees a.settings) a.joins).0
            join_checked;
      scans_agree =
          (scans-agree c a ((relations_differ "disabled_indexes" disabled).0 d)).0 scan_checked;
    }

validate_conflicts-agree :
    (c : TaskCatalog) (a : PlanAction) → IsConsistent c a → validate_conflicts c a ≡ ok tt
unfolding validate_conflicts
validate_conflicts-agree c a good =
    >>-ok-back (check_each (check_join_conflicts a.settings) a.joins) _ tt
      ((check_each-Every (check_join_conflicts a.settings) (JoinAgrees a.settings)
          (check_join_conflicts-agrees a.settings) a.joins).1
        good.joins_agree)
      ((scans-agree c a good.disabled_differ).1 good.scans_agree)

IsConsistent-validate_action :
    (c : TaskCatalog) (a : PlanAction) → IsConsistent c a → validate_action c a ≡ ok (ordered a)
unfolding validate_action
IsConsistent-validate_action c a good =
    >>-ok-back _ _ _
      ((join_targets_differ "joins" (map (λ x. x.relations) a.joins)).1 good.joins_differ)
      (>>-ok-back _ _ _
        ((join_targets_differ "row_corrections" (map (λ x. x.relations) a.row_corrections)).1
          good.rows_differ)
        (>>-ok-back _ _ _
          ((relations_differ "scans" (map (λ x. x.relation) a.scans)).1 good.scans_differ)
          (>>-ok-back _ _ _
            ((relations_differ "disabled_indexes" (map (λ x. x.relation) a.disabled_indexes)).1
              good.disabled_differ)
            (>>-ok-back _ _ _
              ((relations_differ "parallel" (map (λ x. x.relation) a.parallel)).1
                good.parallel_differ)
              (>>-ok-back _ _ _ ((require_targets-are_subtrees a.leading a.joins).1 good.subtrees)
                (>>-ok-back _ _ _ (validate_conflicts-agree c a good) refl))))))

-- An action passes the checks across its requests exactly when it is consistent: no two requests of
-- one kind have the same target, each join's relations are a subtree of the join order if there is
-- one, and no join or scan contradicts a setting or the disabled indexes. It then comes back with
-- its requests in order.
pub validate_action_iff :
    (c : TaskCatalog) (a b : PlanAction)
    → (validate_action c a ≡ ok b) ↔ (IsConsistent c a × (b ≡ ordered a))
validate_action_iff c a b = (
  λ h. (validate_action-IsConsistent c a b h, validate_action-eq c a b h),
  λ (good, same). rw same (IsConsistent-validate_action c a good),
)
