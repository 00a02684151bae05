-- ===== src/Plans/Schemas/Agreeing/Scans.antt =====
-- What `_validate_cross_family_conflicts` of src/qorl/plans/schemas.py accepts of a scan.
use qorl.Prelude.{
  String, ◌≡◌, refl, sym, ap, ◌∙◌, ◌≢◌, ◌↔◌, inl, inr, Bool, true, false, not, ◌&&◌, ◌||◌, some,
  List, [], ◌∷◌, map, arith, Bool-cases, ◌==◌, nat_eq, string_eq, keep, some_of, contains,
  intersect, is_subset, same_set, ok, Dict, is_empty,
}
use qorl.Plans.Methods.{ScanMethod, seq, index, index_only, bitmap, memoize_eq}
use qorl.Plans.Catalog.{TaskCatalog, indexes_of}
use qorl.Plans.Schemas.{ScanConstraint, DisabledIndexes, scan_allowed, is_index_based}
use qorl.Plans.Schemas.Action.{
  Setting, scan_setting, only, forces_off, disabled_of, check_scan_conflicts,
}
use qorl.Plans.Schemas.Distinct.{all_differ}
use qorl.Plans.Schemas.Agreeing.{IsOff, Keeps, forces_off-Keeps, Keeps-forces_off, raise_three-ok}

-- Whether an entry of the disabled indexes leaves out what a scan asks for.
abbrev pub disables_asked : ScanConstraint → DisabledIndexes → Bool
disables_asked item target =
    target.relation == item.relation && some_of (contains item.indexes) target.indexes

-- Whether an entry disables just the indexes of the scanned relation, of which there are some.
abbrev pub disables_all : TaskCatalog → ScanConstraint → DisabledIndexes → Bool
disables_all catalog item target =
    target.relation == item.relation
    && (not (is_empty target.indexes)
        && (is_subset target.indexes (indexes_of catalog item.relation)
            && is_subset (indexes_of catalog item.relation) target.indexes))

-- A scan that leaves one method does not lose it to a setting, none of its indexes is disabled, and
-- one that leaves an index-based method has an index that is not disabled.
pub record ScanAgrees (catalog : TaskCatalog) (settings : Dict Setting)
    (targets : List DisabledIndexes) (item : ScanConstraint) : Type 0 where
  pub keeps_seq : scan_allowed item ≡ seq ∷ [] → ¬ (IsOff settings "enable_seqscan")
  pub keeps_index : scan_allowed item ≡ index ∷ [] → ¬ (IsOff settings "enable_indexscan")
  pub keeps_index_only :
      scan_allowed item ≡ index_only ∷ [] → ¬ (IsOff settings "enable_indexonlyscan")
  pub keeps_bitmap : scan_allowed item ≡ bitmap ∷ [] → ¬ (IsOff settings "enable_bitmapscan")
  pub none_disabled : some_of (disables_asked item) targets ≡ false
  pub some_index :
      scan_allowed item ≡ index ∷ [] → some_of (disables_all catalog item) targets ≡ false
  pub some_index_only :
      scan_allowed item ≡ index_only ∷ [] → some_of (disables_all catalog item) targets ≡ false
  pub some_bitmap :
      scan_allowed item ≡ bitmap ∷ [] → some_of (disables_all catalog item) targets ≡ false

not_empty-keep : (p : String → Bool) (xs : List String) → not (is_empty (keep p xs)) ≡ some_of p xs
not_empty-keep p [] = refl
not_empty-keep p (x ∷ xs) = ground (arith, not_empty-keep p xs)

-- Where no other entry is about the relation, what is asked of its indexes holds of no other.
none_about :
    (relation : String) (p : List String → Bool) (targets : List DisabledIndexes)
    → some_of (string_eq.beq relation) (map (λ t. t.relation) targets) ≡ false
    → some_of (λ t. t.relation == relation && p t.indexes) targets ≡ false
none_about relation p [] h = refl
none_about relation p (t ∷ targets) h = ground (
  arith,
  none_about relation p targets,
  string_eq.beq_iff relation t.relation,
  string_eq.beq_iff t.relation relation,
)

-- The indexes that are looked up are those of the one entry about the relation.
disabled_of-some_of :
    (relation : String) (p : List String → Bool) (targets : List DisabledIndexes)
    → p [] ≡ false
    → all_differ string_eq.beq (map (λ t. t.relation) targets) ≡ true
    → some_of (λ t. t.relation == relation && p t.indexes) targets
      ≡ p (disabled_of targets relation)
unfolding disabled_of
disabled_of-some_of relation p [] nothing h = sym nothing
disabled_of-some_of relation p (t ∷ targets) nothing h =
    elim (Bool-cases (t.relation == relation)) [
      | inl here ↦
          let others = none_about relation p targets (
            sym (
              ap (λ r. some_of (string_eq.beq r) (map (λ u. u.relation) targets))
                ((string_eq.beq_iff t.relation relation).0 here))
            ∙ first _ _ h) in
          rw (here, others) (or_none (p t.indexes))
      | inr other ↦ rw other (disabled_of-some_of relation p targets nothing (later _ _ h))
    ]
  where
    first : (a b : Bool) → not a && b ≡ true → a ≡ false
    first a b k = ground arith

    or_none : (a : Bool) → (true && a || false) ≡ a
    or_none a = ground arith

    later : (a b : Bool) → a && b ≡ true → b ≡ true
    later a b k = ground arith

-- The methods that are left to a scan, with what must not hold where they are one index-based method.
module _ (z : Bool) where
  Guarded : List ScanMethod → Type 0
  Guarded xs = (m : ScanMethod) → xs ≡ m ∷ [] → is_index_based (some m) ≡ true → z ≡ false

  only-Guarded : (xs : List ScanMethod) → (is_index_based (only xs) && z) ≡ false → Guarded xs
  unfolding Guarded
  only-Guarded xs h m one based =
      sym (ap (λ b. b && z) based) ∙ (sym (ap (λ ys. is_index_based (only ys) && z) one) ∙ h)

  Guarded-only : (xs : List ScanMethod) → Guarded xs → (is_index_based (only xs) && z) ≡ false
  unfolding Guarded
  Guarded-only [] good = refl
  Guarded-only (seq ∷ []) good = refl
  Guarded-only (index ∷ []) good = good index refl refl
  Guarded-only (index_only ∷ []) good = good index_only refl refl
  Guarded-only (bitmap ∷ []) good = good bitmap refl refl
  Guarded-only (m ∷ x ∷ xs) good = refl

three : (a b c d : Bool) → (b && c) ≡ d → (a && b && c) ≡ (a && d)
three a b c d h = ground arith

module _ (c : TaskCatalog) (settings : Dict Setting) (targets : List DisabledIndexes)
    (item : ScanConstraint) where
  ScanAgrees-Keeps :
      ScanAgrees c settings targets item → Keeps scan_setting settings (scan_allowed item)
  unfolding Keeps
  ScanAgrees-Keeps good seq = good.keeps_seq
  ScanAgrees-Keeps good index = good.keeps_index
  ScanAgrees-Keeps good index_only = good.keeps_index_only
  ScanAgrees-Keeps good bitmap = good.keeps_bitmap

  ScanAgrees-Guarded :
      ScanAgrees c settings targets item
      → Guarded (some_of (disables_all c item) targets) (scan_allowed item)
  unfolding Guarded
  ScanAgrees-Guarded good seq = λ one based. absurd (not_based based)
    where
      not_based : is_index_based (some seq) ≢ true
      not_based h = cc
  ScanAgrees-Guarded good index = λ one _. good.some_index one
  ScanAgrees-Guarded good index_only = λ one _. good.some_index_only one
  ScanAgrees-Guarded good bitmap = λ one _. good.some_bitmap one

  agreeing :
      (forces_off scan_setting settings (only (scan_allowed item)) ≡ false)
        × (some_of (disables_asked item) targets ≡ false)
        × ((is_index_based (only (scan_allowed item)) && some_of (disables_all c item) targets)
            ≡ false)
      → ScanAgrees c settings targets item
  unfolding Keeps Guarded
  agreeing (on, none_asked, guarded) =
      let keeps = forces_off-Keeps scan_setting settings (scan_allowed item) on in
      let some_left =
        only-Guarded (some_of (disables_all c item) targets) (scan_allowed item) guarded in
      record {
        keeps_seq = keeps seq;
        keeps_index = keeps index;
        keeps_index_only = keeps index_only;
        keeps_bitmap = keeps bitmap;
        none_disabled = none_asked;
        some_index = λ one. some_left index one refl;
        some_index_only = λ one. some_left index_only one refl;
        some_bitmap = λ one. some_left bitmap one refl;
      }

  pub check_scan_conflicts-agrees :
      all_differ string_eq.beq (map (λ t. t.relation) targets) ≡ true
      → (check_scan_conflicts c settings targets item ≡ ok tt) ↔ ScanAgrees c settings targets item
  unfolding check_scan_conflicts
  check_scan_conflicts-agrees differ =
      let allowed = scan_allowed item in
      let disabled = disabled_of targets item.relation in
      let known = indexes_of c item.relation in
      let asked =
        not_empty-keep (contains item.indexes) disabled
        ∙ sym (
            disabled_of-some_of item.relation (some_of (contains item.indexes)) targets refl
              differ) in
      let all : (not (is_empty disabled) && same_set disabled known)
          ≡ some_of (disables_all c item) targets =
        sym (
          disabled_of-some_of item.relation
            (λ xs. not (is_empty xs) && (is_subset xs known && is_subset known xs)) targets refl
            differ) in
      let (to, from) =
        raise_three-ok (forces_off scan_setting settings (only allowed))
          (not (is_empty (intersect disabled item.indexes)))
          (is_index_based (only allowed) && not (is_empty disabled) && same_set disabled known) _ _
          _ in
      (
        λ h.
            let (on, no_asked, not_all) = to h in
            agreeing (on, sym asked ∙ no_asked, sym (three _ _ _ _ all) ∙ not_all),
        λ good. from (
          Keeps-forces_off scan_setting settings allowed (ScanAgrees-Keeps good),
          asked ∙ good.none_disabled,
          three _ _ _ _ all ∙ Guarded-only _ allowed (ScanAgrees-Guarded good),
        ),
      )
