-- ===== src/Plans/Schemas/Hints.antt =====
-- What the hint of a request lets PostgreSQL do, read from the documentation of pg_hint_plan.
use qorl.Prelude.{
  String, ◌≡◌, refl, sym, ap, ◌∙◌, ◌⊎◌, inl, inr, Bool, true, false, not, Option, none, some, List,
  [], ◌∷◌, arith, if◌then◌else◌, Option-cases, ◌==◌, nat_eq, string_eq, keep, contains, is_subset,
  same_set, ok, raise_if, >>=-eq-ok, is_empty,
}
use qorl.Plans.Methods.{
  JoinMethod, ScanMethod, hash, merge, nestloop, seq, index, index_only, bitmap, join_methods,
  scan_methods, join_value, scan_value, join_eq, scan_eq, memoize_eq, allowed_methods,
  scan_method_hint, join_method_hint,
}
use mathlib.Core.Path.{subst}
use qorl.Plans.Errors.{
  Error, forbids_every_method, forces_and_forbids_join, forces_and_forbids_scan,
}
use qorl.Plans.Catalog.{TaskCatalog}
use qorl.Plans.Schemas.{
  JoinConstraint, ScanConstraint, join_allowed, scan_allowed, check_join, check_scan,
  refuse_forbidden, validate_join, validate_scan,
}
use qorl.Plans.Schemas.Requests.{validate_join-eq, validate_scan-eq, allowed_methods-by_value}

-- The join methods that a hint leaves to the planner; with no hint it may take any.
abbrev pub join_permitted : Option String → List JoinMethod
join_permitted none = join_methods
join_permitted (some name) =
    if name == "HashJoin"
    then hash ∷ []
    else if name == "MergeJoin"
    then merge ∷ []
    else if name == "NestLoop"
    then nestloop ∷ []
    else if name == "NoHashJoin"
    then merge ∷ nestloop ∷ []
    else if name == "NoMergeJoin"
    then hash ∷ nestloop ∷ []
    else if name == "NoNestLoop"
    then hash ∷ merge ∷ []
    else []

-- The scan methods that a hint leaves to the planner. IndexOnlyScan falls back on an index scan, and
-- NoIndexScan rules out index-only scans too.
abbrev pub scan_permitted : String → List ScanMethod
scan_permitted name =
    if name == "SeqScan"
    then seq ∷ []
    else if name == "IndexScan"
    then index ∷ []
    else if name == "IndexOnlyScan"
    then index ∷ index_only ∷ []
    else if name == "BitmapScan"
    then bitmap ∷ []
    else if name == "NoIndexScan"
    then seq ∷ bitmap ∷ []
    else if name == "NoSeqScan"
    then index ∷ index_only ∷ bitmap ∷ []
    else if name == "NoIndexOnlyScan"
    then seq ∷ index ∷ bitmap ∷ []
    else if name == "NoBitmapScan"
    then seq ∷ index ∷ index_only ∷ []
    else []

pick : Bool → Bool → Bool → List JoinMethod
pick h m n = keep (λ x. elim x [ hash ↦ h | merge ↦ m | nestloop ↦ n ]) join_methods

-- Of the canonical lists all but the empty one have their methods back from their hint.
pick_permitted :
    (h m n : Bool)
    → is_empty (pick h m n) ≡ false
    → join_permitted (join_method_hint (pick h m n)) ≡ pick h m n
unfolding pick join_method_hint
pick_permitted true true true e = refl
pick_permitted true true false e = refl
pick_permitted true false true e = refl
pick_permitted true false false e = refl
pick_permitted false true true e = refl
pick_permitted false true false e = refl
pick_permitted false false true e = refl
pick_permitted false false false e = cc

allowed-pick :
    (forced : Option JoinMethod) (forbidden : List JoinMethod)
    → (h m n : Bool) × (allowed_methods join_methods forced forbidden ≡ pick h m n)
unfolding allowed_methods pick
allowed-pick none forbidden = (
  not (contains forbidden hash),
  not (contains forbidden merge),
  not (contains forbidden nestloop),
  refl,
)
allowed-pick (some hash) forbidden = (not (contains forbidden hash), false, false, refl)
allowed-pick (some merge) forbidden = (false, not (contains forbidden merge), false, refl)
allowed-pick (some nestloop) forbidden = (false, false, not (contains forbidden nestloop), refl)

is_subset-join_methods : (xs : List JoinMethod) → is_subset xs join_methods ≡ true
is_subset-join_methods [] = refl
is_subset-join_methods (x ∷ xs) = ground (arith, is_subset-join_methods xs)

-- A checked constraint leaves some method.
some_allowed :
    (raised : JoinMethod → Error) (forced : Option JoinMethod) (forbidden : List JoinMethod)
    → same_set forbidden join_methods ≡ false
    → refuse_forbidden raised forced forbidden ≡ ok tt
    → is_empty (allowed_methods join_methods forced forbidden) ≡ false
unfolding refuse_forbidden allowed_methods
some_allowed raised none forbidden h k = ground (arith, is_subset-join_methods forbidden)
some_allowed raised (some m) forbidden h k = ground arith

check_join-allows : (x : JoinConstraint) → check_join x ≡ ok tt → is_empty (join_allowed x) ≡ false
unfolding check_join
check_join-allows x h =
    let (_, e, h₁) =
      >>=-eq-ok (raise_if (same_set x.forbid join_methods) forbids_every_method) _ h in
    let (_, f, _) = >>=-eq-ok (refuse_forbidden forces_and_forbids_join x.force x.forbid) _ h₁ in
    some_allowed forces_and_forbids_join x.force x.forbid (ground arith) f

join_allowed-permitted :
    (x : JoinConstraint)
    → check_join x ≡ ok tt
    → join_permitted (join_method_hint (join_allowed x)) ≡ join_allowed x
join_allowed-permitted x h =
    let (a, b, c, e) = allowed-pick x.force x.forbid in
    rw e (pick_permitted a b c (ap is_empty (sym e) ∙ check_join-allows x h))

-- The hint of an accepted join constraint, or its absence, leaves the planner exactly the methods
-- that the constraint allows, and it allows at least one.
pub validate_join-permitted :
    (c : TaskCatalog) (x y : JoinConstraint)
    → validate_join c x ≡ ok y
    → (join_permitted (join_method_hint (join_allowed y)) ≡ join_allowed y)
      × (is_empty (join_allowed y) ≡ false)
validate_join-permitted c x y h =
    let (rs, _, checked, made) = validate_join-eq c x y h in
    let same : join_allowed y ≡ join_allowed x =
      rw made (allowed_methods-by_value join_value join_methods x.force x.forbid) in
    (rw same (join_allowed-permitted x checked), rw same (check_join-allows x checked))

-- A hint permits what is allowed, or falls back from index-only scans on index scans.
abbrev pub Fits : List ScanMethod → String → Type 0
Fits allowed name =
    (scan_permitted name ≡ allowed)
    ⊎ (allowed ≡ index_only ∷ []) × (scan_permitted name ≡ index ∷ index_only ∷ [])

scan_pick : Bool → Bool → Bool → Bool → List ScanMethod
scan_pick s i o b =
    keep (λ x. elim x [ seq ↦ s | index ↦ i | index_only ↦ o | bitmap ↦ b ]) scan_methods

abbrev FitsIfAny : List ScanMethod → Option String → Type 0
FitsIfAny allowed none = Unit
FitsIfAny allowed (some name) = Fits allowed name

scan_pick-Fits :
    (s i o b : Bool) → FitsIfAny (scan_pick s i o b) (scan_method_hint (scan_pick s i o b))
unfolding scan_pick scan_method_hint
scan_pick-Fits true true true true = tt
scan_pick-Fits true true true false = inl refl
scan_pick-Fits true true false true = inl refl
scan_pick-Fits true true false false = tt
scan_pick-Fits true false true true = tt
scan_pick-Fits true false true false = tt
scan_pick-Fits true false false true = inl refl
scan_pick-Fits true false false false = inl refl
scan_pick-Fits false true true true = inl refl
scan_pick-Fits false true true false = inl refl
scan_pick-Fits false true false true = tt
scan_pick-Fits false true false false = inl refl
scan_pick-Fits false false true true = tt
scan_pick-Fits false false true false = inr (refl, refl)
scan_pick-Fits false false false true = inl refl
scan_pick-Fits false false false false = tt

scan_allowed-pick :
    (forced : Option ScanMethod) (forbidden : List ScanMethod)
    → (s i o b : Bool) × (allowed_methods scan_methods forced forbidden ≡ scan_pick s i o b)
unfolding allowed_methods scan_pick
scan_allowed-pick none forbidden = (
  not (contains forbidden seq),
  not (contains forbidden index),
  not (contains forbidden index_only),
  not (contains forbidden bitmap),
  refl,
)
scan_allowed-pick (some seq) forbidden = (not (contains forbidden seq), false, false, false, refl)
scan_allowed-pick (some index) forbidden =
    (false, not (contains forbidden index), false, false, refl)
scan_allowed-pick (some index_only) forbidden =
    (false, false, not (contains forbidden index_only), false, refl)
scan_allowed-pick (some bitmap) forbidden =
    (false, false, false, not (contains forbidden bitmap), refl)

check_scan-hint :
    (x : ScanConstraint)
    → check_scan x ≡ ok tt
    → (name : String) × (scan_method_hint (scan_allowed x) ≡ some name)
unfolding check_scan
check_scan-hint x h =
    let (_, _, h₁) =
      >>=-eq-ok (raise_if (same_set x.forbid scan_methods) forbids_every_method) _ h in
    let (_, _, h₂) = >>=-eq-ok (refuse_forbidden forces_and_forbids_scan x.force x.forbid) _ h₁ in
    elim (Option-cases (scan_method_hint (scan_allowed x))) [
      | inl e ↦ absurd (ground arith)
      | inr found ↦ found
    ]

-- An accepted scan constraint has a hint, which leaves the planner exactly the methods that the
-- constraint allows; where only an index-only scan is allowed it leaves the index scan as well.
pub validate_scan-Fits :
    (c : TaskCatalog) (x y : ScanConstraint)
    → validate_scan c x ≡ ok y
    → (name : String) × (scan_method_hint (scan_allowed y) ≡ some name) × Fits (scan_allowed y) name
validate_scan-Fits c x y h =
    let (r, is, _, _, checked, made) = validate_scan-eq c x y h in
    let same : scan_allowed y ≡ scan_allowed x =
      rw made (allowed_methods-by_value scan_value scan_methods x.force x.forbid) in
    let (name, found) = check_scan-hint (record x { indexes = is }) checked in
    let (s, i, o, b, e) = scan_allowed-pick x.force x.forbid in
    (
      name,
      rw same found,
      rw same (
          rw e (
            subst (FitsIfAny (scan_pick s i o b)) (ap scan_method_hint (sym e) ∙ found)
              (scan_pick-Fits s i o b))),
    )
