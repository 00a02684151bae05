-- ===== src/Plans/Verify/Exact.antt =====
-- `verify_action` finds no error exactly where the plan is the plan that the action asks for.
use qorl.Prelude.{
  String, ◌≡◌, refl, sym, ◌↔◌, Bool, true, false, Option, none, some, [], arith, nat_eq, string_eq,
}
use qorl.Plans.Methods.{join_eq, scan_eq}
use qorl.Plans.Schemas.Leading.{JoinTree}
use qorl.Plans.Schemas.Action.{PlanAction}
use qorl.Plans.Nodes.{
  Plan, Shape, plan_join_tree, action_join_tree, shape_beq, nothing, alone, pair,
}
use mathlib.Core.Path.{subst}
use qorl.Plans.Verify.{
  duplicate_hints, error_hints, HintDiagnostics, note, join_errors, scan_errors, disabled_errors,
  parallel_errors, hint_errors, leading_errors, errors_of, verify_action, is_reported,
}
use qorl.Plans.Verify.Satisfied.{
  JoinMet, ScanMet, DisabledMet, ParallelMet, OrderMet, any_order, ordered, HintsMet, silent, clean,
  IsSatisfied,
}
use qorl.Plans.Verify.Requested.{
  append-empty, note-empty, errors_of-Each, Each-errors_of, join_errors_iff, scan_errors_iff,
  disabled_errors_iff, parallel_errors_iff,
}

shape_beq_iff : (s t : Shape) → (shape_beq s t ≡ true) ↔ (s ≡ t)
shape_beq_iff nothing nothing = ground arith
shape_beq_iff nothing (alone r) = ground arith
shape_beq_iff nothing (pair a b) = ground arith
shape_beq_iff (alone r) nothing = ground arith
shape_beq_iff (alone r) (alone q) = ground (arith, string_eq.beq_iff r q)
shape_beq_iff (alone r) (pair a b) = ground arith
shape_beq_iff (pair a b) nothing = ground arith
shape_beq_iff (pair a b) (alone r) = ground arith
shape_beq_iff (pair a b) (pair c d) = ground (arith, shape_beq_iff a c, shape_beq_iff b d)

order_met :
    (plan : Plan) (tree : JoinTree)
    → OrderMet plan (some tree)
    → leading_errors plan (some tree) ≡ []
unfolding leading_errors
order_met plan tree (ordered same) =
    ground (arith, shape_beq_iff (action_join_tree tree) (plan_join_tree plan))

leading_errors_iff :
    (plan : Plan) (leading : Option JoinTree)
    → (leading_errors plan leading ≡ []) ↔ OrderMet plan leading
unfolding leading_errors
leading_errors_iff plan none = (λ _. any_order, λ _. refl)
leading_errors_iff plan (some tree) = (
  λ h. ordered (ground (arith, shape_beq_iff (action_join_tree tree) (plan_join_tree plan))),
  λ met. order_met plan tree met,
)

unreported : (value : String) → is_reported value ≡ false → value ≡ "(none)"
unreported value h = ground (arith, string_eq.beq_iff value "(none)")

hint_errors-HintsMet :
    (asked : Bool) (d : Option HintDiagnostics) → hint_errors asked d ≡ [] → HintsMet asked d
unfolding hint_errors
hint_errors-HintsMet true none h = cc
hint_errors-HintsMet false none h = silent
hint_errors-HintsMet asked (some d) h =
    let (rest, third) = (append-empty _ (note (is_reported d.error) (error_hints d.error))).0 h in
    let (first, second) =
      (append-empty _ (note (is_reported d.duplicate) (duplicate_hints d.duplicate))).0 rest in
    let n = unreported d.not_used ((note-empty _ _).0 first) in
    let u = unreported d.duplicate ((note-empty _ _).0 second) in
    let e = unreported d.error ((note-empty _ _).0 third) in
    let same : d
        ≡ record { used = d.used; not_used = "(none)"; duplicate = "(none)"; error = "(none)" } =
      cc in
    subst (λ x. HintsMet asked (some x)) (sym same) clean

HintsMet-hint_errors :
    (asked : Bool) (d : Option HintDiagnostics) → HintsMet asked d → hint_errors asked d ≡ []
unfolding hint_errors
HintsMet-hint_errors asked d silent = refl
HintsMet-hint_errors asked d clean = refl

-- `verify_action` finds no error exactly if pg_hint_plan used every hint, the plan joins in the order
-- that the action leads with, each join and scan that the action names is in the plan with a method
-- that it allows and the memoization and indexes that it asks for, no disabled index is used, and
-- each relation runs with the workers that the action asks for.
pub verify_action_iff :
    (a : PlanAction) (plan : Plan) (d : Option HintDiagnostics)
    → (verify_action a plan d ≡ []) ↔ IsSatisfied a plan d
unfolding verify_action
verify_action_iff a plan d = (
  λ h.
      let (h₁, parallel) = (append-empty _ (errors_of (parallel_errors plan) a.parallel)).0 h in
      let (h₂, disabled) =
        (append-empty _ (errors_of (disabled_errors plan) a.disabled_indexes)).0 h₁ in
      let (h₃, scans) = (append-empty _ (errors_of (scan_errors plan) a.scans)).0 h₂ in
      let (h₄, joins) = (append-empty _ (errors_of (join_errors plan) a.joins)).0 h₃ in
      let (hints, order) = (append-empty _ (leading_errors plan a.leading)).0 h₄ in
      record {
        hints = hint_errors-HintsMet _ d hints;
        order = (leading_errors_iff plan a.leading).0 order;
        joins =
            errors_of-Each (join_errors plan) (JoinMet plan) (join_errors_iff plan) a.joins joins;
        scans =
            errors_of-Each (scan_errors plan) (ScanMet plan) (scan_errors_iff plan) a.scans scans;
        disabled_indexes =
            errors_of-Each (disabled_errors plan) (DisabledMet plan) (disabled_errors_iff plan)
              a.disabled_indexes disabled;
        parallel =
            errors_of-Each (parallel_errors plan) (ParallelMet plan) (parallel_errors_iff plan)
              a.parallel parallel;
      },
  λ met.
      rw
        (
          HintsMet-hint_errors _ d met.hints,
          (leading_errors_iff plan a.leading).1 met.order,
          Each-errors_of (join_errors plan) (JoinMet plan) (join_errors_iff plan) a.joins met.joins,
          Each-errors_of (scan_errors plan) (ScanMet plan) (scan_errors_iff plan) a.scans met.scans,
          Each-errors_of (disabled_errors plan) (DisabledMet plan) (disabled_errors_iff plan)
              a.disabled_indexes met.disabled_indexes,
          Each-errors_of (parallel_errors plan) (ParallelMet plan) (parallel_errors_iff plan)
              a.parallel met.parallel,
        )
        refl,
)
