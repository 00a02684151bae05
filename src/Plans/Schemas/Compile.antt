-- ===== src/Plans/Schemas/Compile.antt =====
-- `PlanAction.compile`: the hint comment that carries an action to pg_hint_plan.
use qorl.Prelude.{
  ℕ, String, true, false, Option, none, some, List, [], ◌∷◌, ◌++◌, map, if◌then◌else◌, nat_eq,
  string_eq, sorted, name_le, Result, ok, ◌>>=◌, or_raise, Dict, is_empty, decimal,
}
use qorl.Numbers.{Number, whole}
use qorl.Plans.Errors.{Error, missing_key}
use qorl.Plans.Methods.{
  MemoizeMode, RowMode, ParallelMode, auto, force, absolute, add, subtract, multiply, memoize_eq,
  join_method_hint, scan_method_hint, parallel_value,
}
use qorl.Plans.Schemas.{JoinConstraint, ScanConstraint, join_allowed, scan_allowed}
use qorl.Plans.Schemas.Leading.{JoinTree, render_leading, ◌<>◌}
use qorl.Plans.Schemas.Action.{PlanAction, Setting, flag, cost, pages}

-- One hint, before it is written as text.
pub data Hint : Type 0 where
  leading : JoinTree → Hint
  -- a hint with its name and its arguments
  named : String → List String → Hint
  rows : List String → RowMode → Number → Hint
  parallel : String → ℕ → ParallelMode → Hint
  set : String → Setting → Hint

abbrev method_hints : Option String → List String → List Hint
method_hints none relations = []
method_hints (some name) relations = named name relations ∷ []

abbrev memoize_hints : MemoizeMode → List String → List Hint
memoize_hints auto relations = []
memoize_hints force relations = named "Memoize" relations ∷ []
memoize_hints _ relations = named "NoMemoize" relations ∷ []

unfoldable pub join_hints : JoinConstraint → List Hint
unfolding join_method_hint
join_hints join =
    method_hints (join_method_hint (join_allowed join)) join.relations
    ++ memoize_hints join.memoize join.relations

-- SCAN_METHOD_HINTS[scan.allowed_methods] raises where the table has no entry.
unfoldable pub scan_hint : ScanConstraint → Result Error Hint
scan_hint scan = do
  name ← or_raise (scan_method_hint (scan_allowed scan)) (missing_key scan.relation)
  ok (named name (scan.relation ∷ scan.indexes))

unfoldable pub scan_hints : List ScanConstraint → Result Error (List Hint)
unfolding scan_hint
scan_hints [] = ok []
scan_hints (scan ∷ scans) = do hint ← scan_hint scan; hints ← scan_hints scans; ok (hint ∷ hints)

unfoldable pub all_join_hints : List JoinConstraint → List Hint
unfolding join_hints
all_join_hints [] = []
all_join_hints (join ∷ joins) = join_hints join ++ all_join_hints joins

abbrev leading_hints : Option JoinTree → List Hint
leading_hints none = []
leading_hints (some tree) = leading tree ∷ []

-- dict(sorted(settings.items()))
pub sorted_settings : Dict Setting → Dict Setting
sorted_settings = sorted (λ x y. name_le x.0 y.0)

unfoldable pub hints_of : PlanAction → Result Error (List Hint)
unfolding scan_hints all_join_hints sorted_settings
hints_of a = do
  scans ← scan_hints a.scans
  ok (
      leading_hints a.leading
      ++ all_join_hints a.joins
      ++ scans
      ++ map (λ d. named "DisableIndex" (d.relation ∷ d.indexes)) a.disabled_indexes
      ++ map (λ r. rows r.relations r.mode r.value) a.row_corrections
      ++ map (λ p. parallel p.relation p.workers p.mode) a.parallel
      ++ map (λ s. set s.0 s.1) (sorted_settings a.settings))

-- " ".join(texts)
pub spaced : List String → String
spaced [] = ""
spaced (t ∷ []) = t
spaced (t ∷ u ∷ ts) = t <> " " <> spaced (u ∷ ts)

abbrev correction_prefix : RowMode → String
correction_prefix absolute = "#"
correction_prefix add = "+"
correction_prefix subtract = "-"
correction_prefix multiply = "*"

-- `format_number` is Python's format(value, ".15g").
module _ (format_number : Number → String) where
  abbrev render_setting : Setting → String
  render_setting (flag true) = "on"
  render_setting (flag false) = "off"
  render_setting (cost value) = format_number value
  render_setting (pages n) = format_number (whole n)

  unfoldable pub render : Hint → String
  unfolding render_leading spaced
  render (leading tree) = "Leading(" <> render_leading tree <> ")"
  render (named name arguments) = name <> "(" <> spaced arguments <> ")"
  render (rows relations mode value) =
      "Rows(" <> spaced relations <> " " <> correction_prefix mode <> format_number value <> ")"
  render (parallel relation workers mode) =
      "Parallel(" <> relation <> " " <> decimal workers <> " " <> parallel_value mode <> ")"
  render (set name value) = "Set(" <> name <> " " <> render_setting value <> ")"

  unfoldable pub compile : PlanAction → Result Error String
  unfolding hints_of render spaced
  compile a = do
    hints ← hints_of a
    if is_empty hints then ok "" else ok ("/*+ " <> spaced (map render hints) <> " */")
