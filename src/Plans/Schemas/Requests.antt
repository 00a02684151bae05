-- ===== src/Plans/Schemas/Requests.antt =====
-- What a request promises once its checks have passed.
use qorl.Prelude.{
  String, ◌≡◌, refl, ◌∙◌, not, ◌&&◌, Option, none, some, List, [], ◌∷◌, arith, Eq, nat_eq,
  string_eq, same_set, name_le, name_le_total, contains-sorted, ok, raise_if, >>=-eq-ok, is_empty,
  sorted_twice, is_subset-sorted, sorted-is_subset, without-sorted, is_empty-sorted,
}
use qorl.Numbers.{is_finite, number_le}
use qorl.Plans.Errors.{Error, no_index, not_finite, out_of_range}
use qorl.Plans.Methods.{join_value, scan_value, join_eq, scan_eq, memoize_eq, allowed_methods}
use qorl.Plans.Catalog.{TaskCatalog, require_relation, require_relations, require_indexes}
use qorl.Plans.Catalog.Undirected.{
  IsGraph, require_relations_idem, require_relation_idem, require_indexes_idem,
}
use qorl.Plans.Schemas.{
  JoinConstraint, ScanConstraint, by_value, refuse_forbidden, check_join, check_scan, validate_join,
  validate_scan, validate_indexes, validate_correction, validate_relation, row_bounds,
  DisabledIndexes, RowCorrection, ParallelRequest,
}

-- What the checks of a join constraint read of `forbid` does not depend on its order.
module _ {ℓ} {A : Type ℓ} ⦃e : Eq A⦄ (value : A → String) where
  pub by_value_idem : (xs : List A) → by_value value (by_value value xs) ≡ by_value value xs
  by_value_idem = sorted_twice _ (λ a b. name_le_total (value a) (value b))

  pub same_set-by_value : (xs ys : List A) → same_set (by_value value xs) ys ≡ same_set xs ys
  same_set-by_value xs ys = ground (
    arith,
    sorted-is_subset (λ a b. name_le (value a) (value b)) xs ys,
    is_subset-sorted (λ a b. name_le (value a) (value b)) ys xs,
  )

  pub allowed_methods-by_value :
      (members : List A) (forced : Option A) (xs : List A)
      → allowed_methods members forced (by_value value xs) ≡ allowed_methods members forced xs
  unfolding allowed_methods
  allowed_methods-by_value members none xs = without-sorted _ members xs
  allowed_methods-by_value members (some m) xs = without-sorted _ (m ∷ []) xs

  pub refuse_forbidden-by_value :
      (raised : A → Error) (forced : Option A) (xs : List A)
      → refuse_forbidden raised forced (by_value value xs) ≡ refuse_forbidden raised forced xs
  unfolding refuse_forbidden
  refuse_forbidden-by_value raised none xs = refl
  refuse_forbidden-by_value raised (some m) xs =
      ground (arith, contains-sorted (λ a b. name_le (value a) (value b)) xs m)

check_join-by_value :
    (x : JoinConstraint) (rs : List String)
    → check_join (record x { relations = rs; forbid = by_value join_value x.forbid }) ≡ check_join x
unfolding check_join
check_join-by_value x rs =
    rw (same_set-by_value, refuse_forbidden-by_value, allowed_methods-by_value, is_empty-sorted)

check_scan-by_value :
    (x : ScanConstraint) (r : String)
    → check_scan (record x { relation = r; forbid = by_value scan_value x.forbid }) ≡ check_scan x
unfolding check_scan
check_scan-by_value x r = rw (
  same_set-by_value, same_set-by_value, refuse_forbidden-by_value, allowed_methods-by_value,
  is_empty-sorted,
)

pub validate_join-eq :
    (c : TaskCatalog) (x y : JoinConstraint)
    → validate_join c x ≡ ok y
    → (rs : List String) × (require_relations c x.relations "relations" ≡ ok rs)
      × (check_join x ≡ ok tt)
      × (y ≡ record x { relations = rs; forbid = by_value join_value x.forbid })
unfolding validate_join
validate_join-eq c x y h =
    let (rs, e, h₁) = >>=-eq-ok (require_relations c x.relations "relations") _ h in
    let (_, f, h₂) = >>=-eq-ok (check_join x) _ h₁ in (rs, e, f, cc)

-- Checking a join constraint again changes nothing.
pub validate_join_idem :
    (c : TaskCatalog) (x y : JoinConstraint)
    → IsGraph c
    → validate_join c x ≡ ok y
    → validate_join c y ≡ ok y
unfolding validate_join
validate_join_idem c x y graph h =
    let (rs, e, checked, made) = validate_join-eq c x y h in
    let again = require_relations_idem c x.relations "relations" rs graph e in
    let rechecked = check_join-by_value x rs ∙ checked in
    rw made (rw (again, rechecked, by_value_idem, validate_join))

pub validate_scan-eq :
    (c : TaskCatalog) (x y : ScanConstraint)
    → validate_scan c x ≡ ok y
    → (r : String) × (is : List String) × (require_relation c x.relation "relation" ≡ ok r)
      × (require_indexes c x.indexes r "indexes" ≡ ok is)
      × (check_scan (record x { indexes = is }) ≡ ok tt)
      × (y ≡ record x { relation = r; forbid = by_value scan_value x.forbid; indexes = is })
unfolding validate_scan
validate_scan-eq c x y h =
    let (r, e, h₁) = >>=-eq-ok (require_relation c x.relation "relation") _ h in
    let (is, f, h₂) = >>=-eq-ok (require_indexes c x.indexes r "indexes") _ h₁ in
    let (_, g, h₃) = >>=-eq-ok (check_scan (record x { indexes = is })) _ h₂ in (r, is, e, f, g, cc)

-- Checking a scan constraint again changes nothing.
pub validate_scan_idem :
    (c : TaskCatalog) (x y : ScanConstraint) → validate_scan c x ≡ ok y → validate_scan c y ≡ ok y
unfolding validate_scan
validate_scan_idem c x y h =
    let (r, is, e, f, checked, made) = validate_scan-eq c x y h in
    let known = require_relation_idem c x.relation "relation" r e in
    let again = require_indexes_idem c x.indexes r "indexes" is f in
    let rechecked = check_scan-by_value (record x { indexes = is }) r ∙ checked in
    rw made (rw (known, again, rechecked, by_value_idem, validate_scan))

pub validate_indexes_idem :
    (c : TaskCatalog) (x y : DisabledIndexes)
    → validate_indexes c x ≡ ok y
    → validate_indexes c y ≡ ok y
unfolding validate_indexes
validate_indexes_idem c x y h =
    let (r, e, h₁) = >>=-eq-ok (require_relation c x.relation "relation") _ h in
    let (is, f, h₂) = >>=-eq-ok (require_indexes c x.indexes r "indexes") _ h₁ in
    let (_, g, h₃) = >>=-eq-ok (raise_if (is_empty is) no_index) _ h₂ in
    let made : y ≡ record { relation = r; indexes = is } = cc in
    let known = require_relation_idem c x.relation "relation" r e in
    let again = require_indexes_idem c x.indexes r "indexes" is f in rw made (rw (known, again, g))

pub validate_correction_idem :
    (c : TaskCatalog) (x y : RowCorrection)
    → IsGraph c
    → validate_correction c x ≡ ok y
    → validate_correction c y ≡ ok y
unfolding validate_correction
validate_correction_idem c x y graph h =
    let (rs, e, h₁) = >>=-eq-ok (require_relations c x.relations "relations") _ h in
    let (_, f, h₂) = >>=-eq-ok (raise_if (not (is_finite x.value)) not_finite) _ h₁ in
    let (_, g, h₃) =
      >>=-eq-ok
        (raise_if
          (not (number_le (row_bounds x.mode).0 x.value && number_le x.value (row_bounds x.mode).1))
          out_of_range)
        _ h₂ in
    let made : y ≡ record x { relations = rs } = cc in
    let again = require_relations_idem c x.relations "relations" rs graph e in
    rw made (rw (again, f, g))

pub validate_relation_idem :
    (c : TaskCatalog) (x y : ParallelRequest)
    → validate_relation c x ≡ ok y
    → validate_relation c y ≡ ok y
unfolding validate_relation
validate_relation_idem c x y h =
    let (r, e, h₁) = >>=-eq-ok (require_relation c x.relation "relation") _ h in
    let made : y ≡ record x { relation = r } = cc in
    rw made (rw (require_relation_idem c x.relation "relation" r e))
