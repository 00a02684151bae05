-- ===== src/Plans/Schemas.antt =====
-- src/qorl/plans/schemas.py: the requests of a plan action. Each request has the checks that its
-- model runs once pydantic has read the fields; the fields' own validators are in `Fields`.
pub mod Fields
pub mod Requests
pub mod Hints
pub mod Leading
pub mod Action
pub mod Compile
pub mod Compiled
pub mod Distinct
pub mod Agreeing
pub mod Consistent
use qorl.Prelude.{
  ℕ, zero, suc, ◌+◌, ◌-◌, ◌*◌, ◌/◌, ◌%◌, ◌^◌, ◌≤◌, ◌<◌, String, ◌≡◌, refl, sym, ap, ◌∙◌, ◌≢◌, ◌↔◌,
  ◌⊎◌, inl, inr, Bool, true, false, not, ◌&&◌, ◌||◌, Option, none, some, List, [], ◌∷◌, ◌++◌, map,
  arith, ltb, leb, nat_beq, if◌then◌else◌, nat_beq_iff, ltb→lt, lt→ltb, leb→le, le→leb, Bool-cases,
  Option-cases, Eq, ◌==◌, nat_eq, string_eq, length, get_elem?, length-append, keep, length-keep_le,
  some_of, all_of, first_of?, contains, is_distinct, intersect, without, is_subset, same_set,
  beq_self, contains-append, contains-keep, is_subset_iff, same_set_iff, sorted, is_sorted,
  sorted-perm, length-sorted, some_of-sorted, sorted-is_sorted, sorted_of_is_sorted, codes, name_le,
  names_le, name_le_total, names_le_total, contains-sorted, is_distinct-sorted, Result, ok, err,
  ◌>>=◌, ◌>>◌, raise_if, or_raise, >>=-eq-ok, Dict, lookup, assign, lookup-assign, set_default,
  lookup-set_default, lookup_or, is_none, is_empty,
}
use qorl.Numbers.{Number, is_finite, number_le, whole, float}
use qorl.Plans.Errors.{
  Error, forbids_every_method, memoize_without_nestloop, no_steering, indexes_without_index_scan,
  forces_and_forbids_join, forces_and_forbids_scan, index_alone_not_expressible, not_expressible,
  no_index, not_finite, out_of_range,
}
use qorl.Plans.Methods.{
  JoinMethod, ScanMethod, MemoizeMode, RowMode, ParallelMode, hash, merge, nestloop, seq, index,
  index_only, bitmap, multiply, auto, force, join_methods, scan_methods, join_value, scan_value,
  join_eq, scan_eq, memoize_eq, allowed_methods, scan_method_hint,
}
use qorl.Plans.Catalog.{TaskCatalog, require_relation, require_relations, require_indexes}

pub record JoinConstraint : Type 0 where
  pub relations : List String
  pub force : Option JoinMethod
  pub forbid : List JoinMethod
  pub memoize : MemoizeMode

pub record ScanConstraint : Type 0 where
  pub relation : String
  pub force : Option ScanMethod
  pub forbid : List ScanMethod
  pub indexes : List String

pub record DisabledIndexes : Type 0 where
  pub relation : String
  pub indexes : List String

pub record RowCorrection : Type 0 where
  pub relations : List String
  pub mode : RowMode
  pub value : Number

pub record ParallelRequest : Type 0 where
  pub relation : String
  pub workers : ℕ
  pub mode : ParallelMode

abbrev pub max_parallel_workers : ℕ
max_parallel_workers = 2

-- 0.001, the double nearest to it
abbrev pub min_row_multiplier : Number
min_row_multiplier = float false 1152921504606847 60

abbrev pub max_row_multiplier : Number
max_row_multiplier = whole 1000

abbrev pub min_absolute_row_count : Number
min_absolute_row_count = whole 1

abbrev pub max_absolute_row_count : Number
max_absolute_row_count = whole 1_000_000_000_000

abbrev pub join_allowed : JoinConstraint → List JoinMethod
join_allowed c = allowed_methods join_methods c.force c.forbid

abbrev pub scan_allowed : ScanConstraint → List ScanMethod
scan_allowed c = allowed_methods scan_methods c.force c.forbid

-- sorted(methods, key=str)
abbrev pub by_value {ℓ} : {A : Type ℓ} → (A → String) → List A → List A
by_value value = sorted (λ a b. name_le (value a) (value b))

-- if self.force in forbidden: raise
pub refuse_forbidden {ℓ} :
    {A : Type ℓ} ⦃e : Eq A⦄ → (A → Error) → Option A → List A → Result Error (Unit {0})
refuse_forbidden raised none forbidden = ok tt
refuse_forbidden raised (some forced) forbidden =
    raise_if (contains forbidden forced) (raised forced)

-- The checks of a join constraint that do not read the catalog.
pub check_join : JoinConstraint → Result Error (Unit {0})
unfolding refuse_forbidden allowed_methods
check_join c = do
  raise_if (same_set c.forbid join_methods) forbids_every_method
  refuse_forbidden forces_and_forbids_join c.force c.forbid
  raise_if (c.memoize == force && not (contains (join_allowed c) nestloop)) memoize_without_nestloop
  raise_if (is_none c.force && is_empty c.forbid && c.memoize == auto) no_steering

unfoldable pub validate_join : TaskCatalog → JoinConstraint → Result Error JoinConstraint
unfolding check_join
validate_join catalog c = do
  relations ← require_relations catalog c.relations "relations"
  check_join c
  ok (record c { relations = relations; forbid = by_value join_value c.forbid })

abbrev pub is_index_based : Option ScanMethod → Bool
is_index_based (some index) = true
is_index_based (some index_only) = true
is_index_based (some bitmap) = true
is_index_based _ = false

-- The checks of a scan constraint that do not read the catalog.
pub check_scan : ScanConstraint → Result Error (Unit {0})
unfolding refuse_forbidden allowed_methods
check_scan c = do
  raise_if (same_set c.forbid scan_methods) forbids_every_method
  refuse_forbidden forces_and_forbids_scan c.force c.forbid
  raise_if (not (is_empty c.indexes) && not (is_index_based c.force)) indexes_without_index_scan
  raise_if (is_none c.force && is_empty c.forbid) no_steering
  raise_if (is_none (scan_method_hint (scan_allowed c)) && same_set c.forbid (index ∷ []))
      index_alone_not_expressible
  raise_if (is_none (scan_method_hint (scan_allowed c))) not_expressible

unfoldable pub validate_scan : TaskCatalog → ScanConstraint → Result Error ScanConstraint
unfolding check_scan
validate_scan catalog c = do
  relation ← require_relation catalog c.relation "relation"
  indexes ← require_indexes catalog c.indexes relation "indexes"
  check_scan (record c { indexes = indexes })
  ok (record c { relation = relation; forbid = by_value scan_value c.forbid; indexes = indexes })

unfoldable pub validate_indexes : TaskCatalog → DisabledIndexes → Result Error DisabledIndexes
validate_indexes catalog d = do
  relation ← require_relation catalog d.relation "relation"
  indexes ← require_indexes catalog d.indexes relation "indexes"
  raise_if (is_empty indexes) no_index
  ok (record { relation = relation; indexes = indexes })

abbrev pub row_bounds : RowMode → Number × Number
row_bounds multiply = (min_row_multiplier, max_row_multiplier)
row_bounds _ = (min_absolute_row_count, max_absolute_row_count)

unfoldable pub validate_correction : TaskCatalog → RowCorrection → Result Error RowCorrection
validate_correction catalog r = do
  relations ← require_relations catalog r.relations "relations"
  raise_if (not (is_finite r.value)) not_finite
  let (lower, upper) = row_bounds r.mode
  raise_if (not (number_le lower r.value && number_le r.value upper)) out_of_range
  ok (record r { relations = relations })

unfoldable pub validate_relation : TaskCatalog → ParallelRequest → Result Error ParallelRequest
validate_relation catalog p = do
  relation ← require_relation catalog p.relation "relation"
  ok (record p { relation = relation })
