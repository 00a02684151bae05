-- ===== src/Plans/Verify/Satisfied.antt =====
-- When a plan is the plan that an action asks for, said without the errors of a verification.
use qorl.Prelude.{
  String, ◌≡◌, Bool, true, false, not, ◌&&◌, ◌||◌, Option, none, some, List, [], ◌∷◌, nat_beq,
  if◌then◌else◌, nat_eq, string_eq, some_of, contains, intersect, is_subset, is_empty,
}
use qorl.Plans.Methods.{JoinMethod, ScanMethod, MemoizeMode, auto, force, join_eq, scan_eq}
use qorl.Plans.Schemas.{
  JoinConstraint, ScanConstraint, DisabledIndexes, ParallelRequest, join_allowed, scan_allowed,
}
use qorl.Plans.Schemas.Leading.{JoinTree}
use qorl.Plans.Schemas.Action.{PlanAction}
use qorl.Plans.Nodes.{
  Plan, nodes, index_names, matching_join, matching_scan, join_method_of, scan_method_of,
  plan_join_tree, action_join_tree, memoized_inner, is_parallel, plans_workers,
}
use qorl.Plans.Verify.{HintDiagnostics, asks_something, is_hard}

pub data Each {ℓ κ} {A : Type ℓ} (P : A → Type κ) : List A → Type (ℓ ⊔ κ) where
  nobody : Each P []
  both : {x : A} {xs : List A} → P x → Each P xs → Each P (x ∷ xs)

abbrev pub memoized_as : MemoizeMode → Bool → Bool
memoized_as auto memoized = true
memoized_as force memoized = memoized
memoized_as MemoizeMode.forbid memoized = not memoized

-- The first join of exactly these relations uses a method that the constraint allows, and memoizes
-- its inner side as the constraint says.
abbrev pub JoinMet : Plan → JoinConstraint → Type 0
JoinMet plan item =
    (join : Plan) × (method : JoinMethod) × (matching_join plan item.relations ≡ some join)
    × (join_method_of join ≡ some method)
    × (contains (join_allowed item) method ≡ true)
    × (memoized_as item.memoize (memoized_inner join) ≡ true)

abbrev pub uses_only : List String → List String → Bool
uses_only indexes used = is_empty indexes || (not (is_empty used) && is_subset used indexes)

-- The first scan of the relation uses a method that the constraint allows, and no index but those
-- that the constraint names, if it names any.
abbrev pub ScanMet : Plan → ScanConstraint → Type 0
ScanMet plan item =
    (scan : Plan) × (method : ScanMethod) × (matching_scan plan item.relation ≡ some scan)
    × (scan_method_of scan ≡ some method)
    × (contains (scan_allowed item) method ≡ true)
    × (uses_only item.indexes (index_names scan) ≡ true)

abbrev pub DisabledMet : Plan → DisabledIndexes → Type 0
DisabledMet plan item =
    (scan : Plan) × (matching_scan plan item.relation ≡ some scan)
    × (intersect (index_names scan) item.indexes ≡ [])

-- No workers is a scan that is not parallel; a hard request is a parallel scan below a Gather that
-- plans exactly the workers; a soft request is nothing.
abbrev pub runs_as : Plan → Plan → ParallelRequest → Bool
runs_as plan scan item =
    if nat_beq item.workers 0
    then not (is_parallel scan)
    else not (is_hard item.mode)
      || (is_parallel scan && some_of (plans_workers item.relation item.workers) (nodes plan))

abbrev pub ParallelMet : Plan → ParallelRequest → Type 0
ParallelMet plan item =
    (scan : Plan) × (matching_scan plan item.relation ≡ some scan) × (runs_as plan scan item ≡ true)

pub data OrderMet (plan : Plan) : Option JoinTree → Type 0 where
  any_order : OrderMet plan none
  ordered :
      {tree : JoinTree} → plan_join_tree plan ≡ action_join_tree tree → OrderMet plan (some tree)

-- pg_hint_plan used every hint; it may say nothing where there is none.
pub data HintsMet : Bool → Option HintDiagnostics → Type 0 where
  silent : HintsMet false none
  clean :
      {asked : Bool} {used : String}
      → HintsMet asked (
          some
            (record { used = used; not_used = "(none)"; duplicate = "(none)"; error = "(none)" }))

pub record IsSatisfied (a : PlanAction) (plan : Plan) (diagnostics : Option HintDiagnostics)
    : Type 0 where
  pub hints : HintsMet (asks_something a) diagnostics
  pub order : OrderMet plan a.leading
  pub joins : Each (JoinMet plan) a.joins
  pub scans : Each (ScanMet plan) a.scans
  pub disabled_indexes : Each (DisabledMet plan) a.disabled_indexes
  pub parallel : Each (ParallelMet plan) a.parallel
