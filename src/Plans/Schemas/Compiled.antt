-- ===== src/Plans/Schemas/Compiled.antt =====
-- An action whose checks have passed is compiled: the lookup of a scan's hint never raises.
use qorl.Prelude.{
  String, ◌≡◌, refl, sym, inl, inr, Bool, true, false, List, [], ◌∷◌, map, arith, if◌then◌else◌,
  Option-cases, nat_eq, string_eq, some_of, some_of-sorted, name_le, Result, ok, >>=-eq-ok,
  >>-eq-ok, >>=-total, is_none, is_empty,
}
use qorl.Numbers.{Number}
use qorl.Plans.Errors.{Error}
use qorl.Plans.Methods.{scan_method_hint}
use qorl.Plans.Catalog.{TaskCatalog}
use qorl.Plans.Schemas.{
  ScanConstraint, scan_allowed, validate_scan, validate_join, validate_indexes, validate_correction,
  validate_relation,
}
use qorl.Plans.Schemas.Hints.{validate_scan-Fits}
use qorl.Plans.Schemas.Action.{
  PlanAction, reject_duplicates, names_beq, require_targets, validate_conflicts, validate_action,
  validate_each, validate_requests, validate, ordered,
}
use qorl.Plans.Schemas.Compile.{Hint, named, scan_hint, scan_hints, hints_of, compile}

no_hint : ScanConstraint → Bool
no_hint s = is_none (scan_method_hint (scan_allowed s))

validate_each-some_of {ℓ} :
    {A : Type ℓ} (f : A → Result Error A) (p : A → Bool)
    → ((x y : A) → f x ≡ ok y → p y ≡ false)
    → (xs ys : List A) → validate_each f xs ≡ ok ys
    → some_of p ys ≡ false
unfolding validate_each
validate_each-some_of f p good [] ys h = ground arith
validate_each-some_of f p good (x ∷ xs) ys h =
    let (y, here, h₁) = >>=-eq-ok (f x) _ h in
    let (zs, later, made) = >>=-eq-ok (validate_each f xs) _ h₁ in
    ground (arith, good x y here, validate_each-some_of f p good xs zs later)

validate_scan-hinted :
    (c : TaskCatalog) (x y : ScanConstraint) → validate_scan c x ≡ ok y → no_hint y ≡ false
unfolding no_hint
validate_scan-hinted c x y h = let (name, found, _) = validate_scan-Fits c x y h in rw found refl

pub validate_action-eq :
    (c : TaskCatalog) (a b : PlanAction) → validate_action c a ≡ ok b → b ≡ ordered a
unfolding validate_action
validate_action-eq c a b h =
    let (_, h₁) =
      >>-eq-ok (reject_duplicates names_beq "joins" [] 0 (map (λ x. x.relations) a.joins)) _ h in
    let (_, h₂) =
      >>-eq-ok
        (reject_duplicates names_beq "row_corrections" [] 0
          (map (λ x. x.relations) a.row_corrections))
        _ h₁ in
    let (_, h₃) =
      >>-eq-ok (reject_duplicates string_eq.beq "scans" [] 0 (map (λ x. x.relation) a.scans)) _
        h₂ in
    let (_, h₄) =
      >>-eq-ok
        (reject_duplicates string_eq.beq "disabled_indexes" [] 0
          (map (λ x. x.relation) a.disabled_indexes))
        _ h₃ in
    let (_, h₅) =
      >>-eq-ok (reject_duplicates string_eq.beq "parallel" [] 0 (map (λ x. x.relation) a.parallel))
        _ h₄ in
    let (_, h₆) = >>-eq-ok (require_targets a.leading a.joins) _ h₅ in
    let (_, made) = >>-eq-ok (validate_conflicts c a) _ h₆ in cc

validate_requests-hinted :
    (c : TaskCatalog) (a b : PlanAction)
    → validate_requests c a ≡ ok b
    → some_of no_hint b.scans ≡ false
unfolding validate_requests
validate_requests-hinted c a b h =
    let (joins, _, h₁) = >>=-eq-ok (validate_each (validate_join c) a.joins) _ h in
    let (scans, each, h₂) = >>=-eq-ok (validate_each (validate_scan c) a.scans) _ h₁ in
    let (disabled, _, h₃) =
      >>=-eq-ok (validate_each (validate_indexes c) a.disabled_indexes) _ h₂ in
    let (rows, _, h₄) = >>=-eq-ok (validate_each (validate_correction c) a.row_corrections) _ h₃ in
    let (parallel, _, made) = >>=-eq-ok (validate_each (validate_relation c) a.parallel) _ h₄ in
    let same : scans ≡ b.scans = cc in
    rw (sym same)
      (validate_each-some_of (validate_scan c) no_hint (validate_scan-hinted c) a.scans scans each)

scan_hints-total :
    (scans : List ScanConstraint)
    → some_of no_hint scans ≡ false
    → (hints : List Hint) × (scan_hints scans ≡ ok hints)
unfolding scan_hints scan_hint no_hint
scan_hints-total [] h = ([], refl)
scan_hints-total (s ∷ scans) h = elim (Option-cases (scan_method_hint (scan_allowed s))) [
  | inl missing ↦ ground arith
  | inr (name, found) ↦
      let (hints, rest) = scan_hints-total scans (ground arith) in
      (named name (s.relation ∷ s.indexes) ∷ hints, rw (found, rest) refl)
]

ok_if : Bool → String → String → Result Error String
ok_if b x y = if b then ok x else ok y

ok_if-total : (b : Bool) (x y : String) → (z : String) × (ok_if b x y ≡ ok z)
unfolding ok_if
ok_if-total true x y = (x, refl)
ok_if-total false x y = (y, refl)

compile-total :
    (format_number : Number → String) (b : PlanAction)
    → some_of no_hint b.scans ≡ false
    → (text : String) × (compile format_number b ≡ ok text)
unfolding compile hints_of ok_if
compile-total format_number b hinted =
    let (scans, found) = scan_hints-total b.scans hinted in
    let (hints, listed) = >>=-total (scan_hints b.scans) _ scans found (_, refl) in
    >>=-total (hints_of b) _ hints listed (ok_if-total (is_empty hints) _ _)

-- An action that passes its checks is compiled to a hint comment.
pub validate-compile :
    (format_number : Number → String) (c : TaskCatalog) (a b : PlanAction)
    → validate c a ≡ ok b
    → (text : String) × (compile format_number b ≡ ok text)
unfolding validate
validate-compile format_number c a b h =
    let (read, first, second) = >>=-eq-ok (validate_requests c a) _ h in
    let made = validate_action-eq c read b second in
    let hinted : some_of no_hint b.scans ≡ false = rw made (
      rw
        (some_of-sorted (λ (x y : ScanConstraint). name_le x.relation y.relation) no_hint
          read.scans)
        (validate_requests-hinted c a read first)) in
    compile-total format_number b hinted
