-- ===== src/Plans/Verify.antt =====
-- src/qorl/plans/verify.py: whether the plan that PostgreSQL chose is the plan that an action asks
-- for. The action is read as it is, in place of its wire form.
pub mod Satisfied
pub mod Requested
pub mod Exact
use qorl.Prelude.{
  ℕ, zero, suc, ◌+◌, ◌-◌, ◌*◌, ◌/◌, ◌%◌, ◌^◌, ◌≤◌, ◌<◌, String, ◌≡◌, refl, sym, ap, ◌∙◌, ◌≢◌, ◌↔◌,
  ◌⊎◌, inl, inr, Bool, true, false, not, ◌&&◌, ◌||◌, Option, none, some, List, [], ◌∷◌, ◌++◌, map,
  arith, ltb, leb, nat_beq, if◌then◌else◌, nat_beq_iff, ltb→lt, lt→ltb, leb→le, le→leb, Bool-cases,
  Option-cases, Eq, ◌==◌, nat_eq, string_eq, length, get_elem?, length-append, keep, length-keep_le,
  some_of, all_of, first_of?, contains, is_distinct, intersect, without, is_subset, same_set,
  beq_self, contains-append, contains-keep, is_subset_iff, same_set_iff, sorted, is_sorted,
  sorted-perm, length-sorted, some_of-sorted, sorted-is_sorted, sorted_of_is_sorted, codes, name_le,
  names_le, name_le_total, names_le_total, contains-sorted, is_distinct-sorted, Result, ok, err,
  ◌>>=◌, ◌>>◌, raise_if, or_raise, >>=-eq-ok, Dict, lookup, assign, lookup-assign, set_default,
  lookup-set_default, lookup_or, is_none, is_empty, decimal, two_digits, sorted_twice,
  is_subset-sorted, sorted-is_subset, without-sorted, is_empty-sorted,
}
use qorl.Numbers.{Number, int, float}
use qorl.Json.{Json, null, bool, number, str, arr, obj, Items, nil, cons, Fields, end, field, get}
use qorl.Plans.Methods.{
  JoinMethod, ScanMethod, MemoizeMode, ParallelMode, hash, merge, nestloop, seq, index, index_only,
  bitmap, auto, force, soft, hard, join_eq, scan_eq,
}
use qorl.Plans.Nodes.{
  Plan, Plans, entries, text_of, nodes, nodes_of, with_text, texts_at, relation_set, index_names,
  join_methods_get, scan_methods_get, node_type, join_method_of, scan_method_of, has_text,
  matching_join, matching_scan, Shape, is_something, single, scan_shape, join_shape, plan_join_tree,
  plan_join_trees, action_join_tree, shape_beq, memoized_inner, truthy, is_parallel, count_of,
  plans_workers, node, no_plans, more, nothing, alone, pair,
}
use qorl.Plans.Schemas.{JoinConstraint, ScanConstraint, DisabledIndexes, ParallelRequest}
use qorl.Plans.Schemas.Leading.{JoinTree, leaf, node as branch}
use qorl.Plans.Schemas.Action.{PlanAction}

pub record HintDiagnostics : Type 0 where
  pub used : String
  pub not_used : String
  pub duplicate : String
  pub error : String

-- The errors of a verification, with what their messages are formatted from.
pub data Mismatch : Type 0 where
  no_hint_dump : Mismatch
  -- pg_hint_plan reported hints that are not used, that are duplicates or that are errors
  unused_hints duplicate_hints error_hints : String → Mismatch
  leading_differs : Mismatch
  join_missing : List String → Mismatch
  join_unforced join_forbidden : List String → JoinMethod → Mismatch
  not_memoized memoized : List String → Mismatch
  scan_missing : String → Mismatch
  scan_unforced scan_forbidden : String → ScanMethod → Mismatch
  unexpected_indexes disabled_indexes_used : String → List String → Mismatch
  unexpectedly_parallel not_parallel : String → Mismatch
  wrong_workers : String → ℕ → Mismatch

-- if b: errors.append(e)
abbrev pub note : Bool → Mismatch → List Mismatch
note true e = e ∷ []
note false e = []

unfoldable pub join_errors : Plan → JoinConstraint → List Mismatch
join_errors plan item = elim (matching_join plan item.relations) [
  | none ↦ join_missing item.relations ∷ []
  | some join ↦ elim (join_method_of join) [
    | none ↦ []
    | some method ↦
        note (elim item.force [ none ↦ false | some forced ↦ not (method == forced) ])
          (join_unforced item.relations method)
        ++ note (contains item.forbid method) (join_forbidden item.relations method)
        ++ note (elim item.memoize [ force ↦ not (memoized_inner join) | _ ↦ false ])
            (not_memoized item.relations)
        ++ note (elim item.memoize [ MemoizeMode.forbid ↦ memoized_inner join | _ ↦ false ])
            (memoized item.relations)
  ]
]

unfoldable pub scan_errors : Plan → ScanConstraint → List Mismatch
scan_errors plan item = elim (matching_scan plan item.relation) [
  | none ↦ scan_missing item.relation ∷ []
  | some scan ↦ elim (scan_method_of scan) [
    | none ↦ []
    | some method ↦
        note (elim item.force [ none ↦ false | some forced ↦ not (method == forced) ])
          (scan_unforced item.relation method)
        ++ note (contains item.forbid method) (scan_forbidden item.relation method)
        ++ note
            (not (is_empty item.indexes)
              && (is_empty (index_names scan) || not (is_subset (index_names scan) item.indexes)))
            (unexpected_indexes item.relation (sorted name_le (index_names scan)))
  ]
]

unfoldable pub disabled_errors : Plan → DisabledIndexes → List Mismatch
disabled_errors plan item = elim (matching_scan plan item.relation) [
  | none ↦ scan_missing item.relation ∷ []
  | some scan ↦
      let forbidden = intersect (index_names scan) item.indexes in
      note (not (is_empty forbidden))
        (disabled_indexes_used item.relation (sorted name_le forbidden))
]

abbrev pub is_hard : ParallelMode → Bool
is_hard hard = true
is_hard soft = false

unfoldable pub parallel_errors : Plan → ParallelRequest → List Mismatch
parallel_errors plan item = elim (matching_scan plan item.relation) [
  | none ↦ scan_missing item.relation ∷ []
  | some scan ↦
      note (nat_beq item.workers 0 && is_parallel scan) (unexpectedly_parallel item.relation)
      ++ note (ltb 0 item.workers && is_hard item.mode && not (is_parallel scan))
          (not_parallel item.relation)
      ++ note
          (ltb 0 item.workers
            && is_hard item.mode
            && is_parallel scan
            && not (some_of (plans_workers item.relation item.workers) (nodes plan)))
          (wrong_workers item.relation item.workers)
]

-- len(action) > 1: the wire form has more than the version
abbrev pub asks_something : PlanAction → Bool
asks_something a =
    not (is_none a.leading)
    || not (is_empty a.joins)
    || not (is_empty a.scans)
    || not (is_empty a.disabled_indexes)
    || not (is_empty a.row_corrections)
    || not (is_empty a.parallel)
    || not (is_empty a.settings)

abbrev pub is_reported : String → Bool
is_reported value = not (value == "(none)")

unfoldable pub hint_errors : Bool → Option HintDiagnostics → List Mismatch
hint_errors asked none = note asked no_hint_dump
hint_errors asked (some d) =
    note (is_reported d.not_used) (unused_hints d.not_used)
    ++ note (is_reported d.duplicate) (duplicate_hints d.duplicate)
    ++ note (is_reported d.error) (error_hints d.error)

unfoldable pub leading_errors : Plan → Option JoinTree → List Mismatch
leading_errors plan none = []
leading_errors plan (some tree) =
    note (not (shape_beq (action_join_tree tree) (plan_join_tree plan))) leading_differs

-- for item in items: the errors of the item
unfoldable pub errors_of {ℓ} : {A : Type ℓ} → (A → List Mismatch) → List A → List Mismatch
errors_of check [] = []
errors_of check (x ∷ xs) = check x ++ errors_of check xs

-- The errors of `verify_action`, from the diagnostics that it parses out of `stderr`.
unfoldable pub verify_action : PlanAction → Plan → Option HintDiagnostics → List Mismatch
verify_action a plan diagnostics =
    hint_errors (asks_something a) diagnostics
    ++ leading_errors plan a.leading
    ++ errors_of (join_errors plan) a.joins
    ++ errors_of (scan_errors plan) a.scans
    ++ errors_of (disabled_errors plan) a.disabled_indexes
    ++ errors_of (parallel_errors plan) a.parallel
