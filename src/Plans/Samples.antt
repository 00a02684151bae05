-- ===== src/Plans/Samples.antt =====
-- A small query, `a` joined with `b` and `b` with `c`, and requests for it.
use qorl.Prelude.{
  String, ◌≡◌, refl, ◌≢◌, false, none, some, List, [], ◌∷◌, nat_eq, string_eq, sorted, name_le, ok,
  Dict, lookup, assign,
}
use qorl.Plans.Fingerprint.Observed.{actual}
use qorl.Plans.Fingerprint.Same.{Same, unchanged, entries, series, entry, swapped, dropped}
use qorl.Json.{Json, number, str, obj, Fields, end, field}
use qorl.Numbers.{whole}
use qorl.Plans.Nodes.{Plan, node, more, no_plans}
use qorl.Plans.Verify.{HintDiagnostics}
use qorl.Plans.Schemas.Action.{
  PlanAction, flag, validate, check_join_conflicts, check_scan_conflicts,
}
use qorl.Plans.Methods.{scan_method_hint, hash, merge, seq, index_only, bitmap, force}
use qorl.Plans.Catalog.{
  TaskCatalog, Relation, from_task, require_relations, require_relation, require_indexes,
}
use qorl.Plans.Catalog.Undirected.{IsGraph}
use qorl.Plans.Catalog.Building.{from_task-IsGraph}
use qorl.Plans.Schemas.{JoinConstraint, ScanConstraint, validate_join, validate_scan}

abbrev pub chain_relations : List Relation
chain_relations =
    record { alias = "a"; table = "ta" }
    ∷ record { alias = "b"; table = "tb" }
    ∷ record { alias = "c"; table = "tc" }
    ∷ []

abbrev pub chain_edges : List String
chain_edges = "a:x=b:y" ∷ "b:z=c:w" ∷ []

abbrev pub chain_indexes : Dict (List String)
chain_indexes = ("a", "a_pkey" ∷ "a_x" ∷ []) ∷ []

abbrev pub chain : TaskCatalog
chain = record {
  relations = "a" ∷ "b" ∷ "c" ∷ [];
  adjacency = ("c", "b" ∷ []) ∷ ("b", "c" ∷ "a" ∷ []) ∷ ("a", "b" ∷ []) ∷ [];
  indexes = chain_indexes;
}

pub chain_built : from_task chain_relations chain_edges chain_indexes ≡ ok chain
unfolding from_task assign lookup
chain_built = refl

pub chain-IsGraph : IsGraph chain
chain-IsGraph = from_task-IsGraph chain_relations chain_edges chain_indexes chain chain_built

-- (a b) c
abbrev pub chain_order : Fields
chain_order =
    field "left" (obj (field "left" (str "a") (field "right" (str "b") end)))
      (field "right" (str "c") end)

abbrev pub asked_join : JoinConstraint
asked_join = record {
  relations = "b" ∷ "a" ∷ [];
  force = none;
  forbid = merge ∷ hash ∷ [];
  memoize = force;
}

abbrev pub read_join : JoinConstraint
read_join = record {
  relations = "a" ∷ "b" ∷ [];
  force = none;
  forbid = hash ∷ merge ∷ [];
  memoize = force;
}

pub join_read : validate_join chain asked_join ≡ ok read_join
unfolding validate_join require_relations sorted name_le lookup
join_read = refl

abbrev pub asked_scan : ScanConstraint
asked_scan = record {
  relation = "a";
  force = some index_only;
  forbid = seq ∷ bitmap ∷ [];
  indexes = "a_x" ∷ "a_pkey" ∷ [];
}

abbrev pub read_scan : ScanConstraint
read_scan = record {
  relation = "a";
  force = some index_only;
  forbid = bitmap ∷ seq ∷ [];
  indexes = "a_pkey" ∷ "a_x" ∷ [];
}

pub scan_read : validate_scan chain asked_scan ≡ ok read_scan
unfolding validate_scan require_relation require_indexes sorted name_le lookup scan_method_hint
scan_read = refl

pub target_read : require_relations chain ("c" ∷ "b" ∷ []) "relations" ≡ ok ("b" ∷ "c" ∷ [])
unfolding require_relations sorted name_le lookup
target_read = refl

-- What EXPLAIN shows for the join of `a` and `b` that `read_join` asks for.
abbrev pub scan_a : Plan
scan_a =
    node
      (field "Node Type" (str "Index Only Scan")
        (field "Alias" (str "a") (field "Index Name" (str "a_x") end)))
      no_plans

abbrev pub scan_b : Plan
scan_b =
    node
      (field "Node Type" (str "Index Scan")
        (field "Alias" (str "b") (field "Index Name" (str "b_y") end)))
      no_plans

abbrev pub joined : Plan
joined = node (field "Node Type" (str "Nested Loop") end) (
    more scan_a
      (more (node (field "Node Type" (str "Memoize") end) (more scan_b no_plans)) no_plans))

abbrev pub asked_action : PlanAction
asked_action = record {
  leading = none;
  joins = asked_join ∷ [];
  scans = asked_scan ∷ [];
  disabled_indexes = [];
  row_corrections = [];
  parallel = [];
  settings = ("enable_sort", flag false) ∷ [];
}

abbrev pub read_action : PlanAction
read_action = record asked_action { joins = read_join ∷ []; scans = read_scan ∷ [] }

pub action_read : validate chain asked_action ≡ ok read_action
unfolding validate validate_join require_relations sorted name_le lookup validate_scan
    require_relation require_indexes scan_method_hint check_join_conflicts check_scan_conflicts
action_read = refl

abbrev pub all_used : HintDiagnostics
all_used = record {
  used = "NestLoop(a b) Memoize(a b)";
  not_used = "(none)";
  duplicate = "(none)";
  error = "(none)";
}

-- One node as it is planned, and as it is planned and executed.
abbrev pub planned : Json
planned = obj (field "Node Type" (str "Seq Scan") (field "Total Cost" (number (whole 5)) end))

abbrev pub executed : Json
executed = obj (
    field "Node Type" (str "Seq Scan")
      (field "Actual Rows" (number (whole 7)) (field "Total Cost" (number (whole 5)) end)))

-- The executed node with its entries in another order.
abbrev pub reordered : Fields
reordered =
    field "Total Cost" (number (whole 5))
      (field "Node Type" (str "Seq Scan") (field "Actual Rows" (number (whole 7)) end))

abbrev pub planned_fields : Fields
planned_fields = field "Node Type" (str "Seq Scan") (field "Total Cost" (number (whole 5)) end)

costs_elsewhere : ◌≢◌ {A = String} "Total Cost" "Node Type"
costs_elsewhere same = cc ((string_eq.beq_iff "Total Cost" "Node Type").1 same)

pub reordered-Same : Same false (obj reordered) (obj planned_fields)
reordered-Same = entries (
    series (swapped costs_elsewhere)
      (entry unchanged (entry unchanged (dropped (actual "Rows" refl)))))
