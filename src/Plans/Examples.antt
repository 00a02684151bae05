-- ===== src/Plans/Examples.antt =====
-- The theorems on plan actions at the requests of `Samples`.
use qorl.Prelude.{
  String, ◌≡◌, refl, ◌↔◌, true, false, some, [], ◌∷◌, nat_eq, string_eq, sorted, name_le, ok,
  is_empty, ◌≢◌, err,
}
use qorl.Json.{obj}
use qorl.Plans.Methods.{join_method_hint, scan_method_hint}
use qorl.Plans.Catalog.{require_relations}
use qorl.Plans.Errors.{out_of_fuel}
use qorl.Plans.Catalog.Ends.{require_relations-ends}
use qorl.Plans.Catalog.Targets.{IsTarget, require_relations_iff}
use qorl.Plans.Catalog.Undirected.{IsGraph, require_relations_idem}
use qorl.Plans.Catalog.Building.{from_task-IsGraph}
use qorl.Plans.Schemas.{validate_join, validate_scan, join_allowed, scan_allowed}
use qorl.Plans.Schemas.Leading.{JoinTree, join_tree, validate_leading}
use qorl.Plans.Schemas.Leading.Order.{IsOrder, validate_leading_iff}
use qorl.Plans.Schemas.Hints.{join_permitted, Fits, validate_join-permitted, validate_scan-Fits}
use qorl.Plans.Schemas.Requests.{validate_join_idem, validate_scan_idem}
use qorl.Plans.Verify.{
  verify_action, hint_errors, leading_errors, errors_of, join_errors, scan_errors,
}
use qorl.Json.{get}
use qorl.Plans.Nodes.{matching_join, memoized_inner, matching_scan, index_names}
use qorl.Plans.Schemas.Action.{validate_action, ordered}
use qorl.Plans.Schemas.Consistent.{IsConsistent, validate_action_iff}
use qorl.Plans.Schemas.Compile.{compile}
use qorl.Plans.Schemas.Compiled.{validate-compile}
use qorl.Plans.Verify.Satisfied.{IsSatisfied}
use qorl.Plans.Verify.Exact.{verify_action_iff}
use qorl.Plans.Fingerprint.{canonical_plan, sort_keys, plan_sha256, structural_plan_sha256}
use qorl.Plans.Fingerprint.Same.{Same}
use qorl.Plans.Fingerprint.Identity.{plan_identity_iff, plan_sha256-Same}
use qorl.Plans.Fingerprint.Agreement.{canonical_plan-structural}
use qorl.Plans.Samples.{
  joined, read_action, asked_action, action_read, all_used, planned, executed, reordered,
  planned_fields, reordered-Same, target_read, chain, chain_relations, chain_edges, chain_indexes,
  chain_built, chain-IsGraph, chain_order, asked_join, read_join, join_read, asked_scan, read_scan,
  scan_read,
}

require_relations_iff_example :
    (require_relations chain ("c" ∷ "b" ∷ []) "relations" ≡ ok ("b" ∷ "c" ∷ []))
    ↔ (IsTarget chain ("c" ∷ "b" ∷ []) × ("b" ∷ "c" ∷ [] ≡ sorted name_le ("c" ∷ "b" ∷ [])))
require_relations_iff_example =
    require_relations_iff chain ("c" ∷ "b" ∷ []) "relations" ("b" ∷ "c" ∷ []) chain-IsGraph.keyed

require_relations-ends_example :
    require_relations chain ("c" ∷ "a" ∷ []) "relations" ≢ err out_of_fuel
require_relations-ends_example = require_relations-ends chain ("c" ∷ "a" ∷ []) "relations"

from_task-IsGraph_example : IsGraph chain
from_task-IsGraph_example =
    from_task-IsGraph chain_relations chain_edges chain_indexes chain chain_built

validate_leading_iff_example : (validate_leading chain (obj chain_order) ≡ ok (obj chain_order)) ↔ (
    (t : JoinTree) × (join_tree (obj chain_order) ≡ some t)
    × IsOrder chain t
    × (obj chain_order ≡ obj chain_order))
validate_leading_iff_example =
    validate_leading_iff chain chain_order (obj chain_order) chain-IsGraph.keyed

validate_join-permitted_example :
    (join_permitted (join_method_hint (join_allowed read_join)) ≡ join_allowed read_join)
    × (is_empty (join_allowed read_join) ≡ false)
validate_join-permitted_example = validate_join-permitted chain asked_join read_join join_read

validate_scan-Fits_example :
    (name : String) × (scan_method_hint (scan_allowed read_scan) ≡ some name)
    × Fits (scan_allowed read_scan) name
validate_scan-Fits_example = validate_scan-Fits chain asked_scan read_scan scan_read

require_relations_idem_example :
    require_relations chain ("b" ∷ "c" ∷ []) "relations" ≡ ok ("b" ∷ "c" ∷ [])
require_relations_idem_example =
    require_relations_idem chain ("c" ∷ "b" ∷ []) "relations" ("b" ∷ "c" ∷ []) chain-IsGraph
      target_read

validate_join_idem_example : validate_join chain read_join ≡ ok read_join
validate_join_idem_example = validate_join_idem chain asked_join read_join chain-IsGraph join_read

validate_scan_idem_example : validate_scan chain read_scan ≡ ok read_scan
validate_scan_idem_example = validate_scan_idem chain asked_scan read_scan scan_read

verify_action_iff_example :
    (verify_action read_action joined (some all_used) ≡ [])
    ↔ IsSatisfied read_action joined (some all_used)
verify_action_iff_example = verify_action_iff read_action joined (some all_used)

-- The joined plan does what the action asks for.
joined-satisfied : verify_action asked_action joined (some all_used) ≡ []
unfolding verify_action hint_errors leading_errors errors_of join_errors scan_errors matching_join
    get memoized_inner matching_scan index_names
joined-satisfied = refl

plan_identity_iff_example :
    (sort_keys (canonical_plan false (obj reordered))
      ≡ sort_keys (canonical_plan false (obj planned_fields)))
    ↔ Same false (obj reordered) (obj planned_fields)
plan_identity_iff_example = plan_identity_iff false (obj reordered) (obj planned_fields)

plan_sha256-Same_example :
    (plan_sha256 (λ _. "digest") reordered ≡ plan_sha256 (λ _. "digest") planned_fields)
    × (structural_plan_sha256 (λ _. "digest") reordered
        ≡ structural_plan_sha256 (λ _. "digest") planned_fields)
plan_sha256-Same_example = plan_sha256-Same (λ _. "digest") reordered planned_fields reordered-Same

executed_as_planned : canonical_plan false executed ≡ canonical_plan false planned
unfolding canonical_plan
executed_as_planned = refl

canonical_plan-structural_example : canonical_plan true executed ≡ canonical_plan true planned
canonical_plan-structural_example = canonical_plan-structural executed planned executed_as_planned

validate-compile_example : (text : String) × (compile (λ _. "0.001") read_action ≡ ok text)
validate-compile_example =
    validate-compile (λ _. "0.001") chain asked_action read_action action_read

validate_action_iff_example :
    (validate_action chain read_action ≡ ok read_action)
    ↔ (IsConsistent chain read_action × (read_action ≡ ordered read_action))
validate_action_iff_example = validate_action_iff chain read_action read_action
