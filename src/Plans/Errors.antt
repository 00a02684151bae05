-- ===== src/Plans/Errors.antt =====
-- src/qorl/plans/exceptions.py: the ways in which a plan action is refused. A constructor stands for
-- one message of the source, with the parts that the message is formatted from.
use qorl.Prelude.{ℕ, String, List}
use qorl.Plans.Methods.{JoinMethod, ScanMethod}

pub data Error : Type 0 where
  -- TaskCatalog
  not_a_relation too_few_relations duplicate_relations not_connected : String → Error
  unknown_relations : String → List String → Error
  invalid_index_name duplicate_indexes : String → Error
  unknown_indexes : String → List String → Error
  -- KeyError, and the unpacking of an edge with no `=`
  missing_key : String → Error
  malformed_edge : String → Error
  -- the bound of a loop of this model; no operation ever returns it
  out_of_fuel : Error
  -- the fields of a request
  not_a_member not_members duplicate_methods bad_workers bad_version : Error
  unknown_fields : String → List String → Error
  null_setting : String → Error
  -- one request
  forbids_every_method memoize_without_nestloop no_steering indexes_without_index_scan : Error
  forces_and_forbids_join : JoinMethod → Error
  forces_and_forbids_scan : ScanMethod → Error
  index_alone_not_expressible not_expressible no_index : Error
  not_finite out_of_range : Error
  -- the join order
  single_relation leading_duplicates leading_incomplete : Error
  not_a_join_object disconnected_subtrees : String → Error
  missing_side : String → String → Error
  -- the whole action
  duplicate_target : String → ℕ → ℕ → Error
  not_a_subtree : ℕ → Error
  forces_and_disables : String → Error
  forces_and_disables_memoize : Error
  forces_and_disables_index disables_every_index : String → Error
