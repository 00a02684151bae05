-- ===== src/Plans/Schemas/Agreeing.antt =====
-- What `_validate_cross_family_conflicts` of src/qorl/plans/schemas.py accepts of a
-- join, and checks that are run over a list.
pub mod Scans
pub mod Subtrees
use qorl.Prelude.{
  ℕ, zero, suc, ◌+◌, ◌-◌, ◌*◌, ◌/◌, ◌%◌, ◌^◌, ◌≤◌, ◌<◌, String, ◌≡◌, refl, sym, ap, ◌∙◌, ◌≢◌, ◌↔◌,
  ◌⊎◌, inl, inr, Bool, true, false, not, ◌&&◌, ◌||◌, Option, none, some, List, [], ◌∷◌, ◌++◌, map,
  arith, ltb, leb, nat_beq, if◌then◌else◌, nat_beq_iff, ltb→lt, lt→ltb, leb→le, le→leb, Bool-cases,
  Option-cases, Eq, ◌==◌, nat_eq, string_eq, length, get_elem?, length-append, keep, length-keep_le,
  some_of, all_of, first_of?, contains, is_distinct, intersect, without, is_subset, same_set,
  beq_self, contains-append, contains-keep, is_subset_iff, same_set_iff, sorted, is_sorted,
  sorted-perm, length-sorted, some_of-sorted, sorted-is_sorted, sorted_of_is_sorted, codes, name_le,
  names_le, name_le_total, names_le_total, contains-sorted, is_distinct-sorted, Result, ok, err,
  raise_if, or_raise, >>=-eq-ok, >>-eq-ok, >>=-total, >>-ok, raise_if-false, Dict, lookup, assign,
  lookup-assign, set_default, lookup-set_default, lookup_or, is_none, is_empty, decimal, two_digits,
  sorted_twice, is_subset-sorted, sorted-is_subset, without-sorted, is_empty-sorted, ◌>>◌,
}
use qorl.Plans.Errors.{Error}
use qorl.Plans.Methods.{
  JoinMethod, ScanMethod, MemoizeMode, hash, merge, nestloop, seq, index, index_only, bitmap, auto,
  force, forbid, memoize_eq,
}
use qorl.Plans.Catalog.{TaskCatalog, indexes_of}
use qorl.Plans.Schemas.{
  JoinConstraint, ScanConstraint, DisabledIndexes, join_allowed, scan_allowed, is_index_based,
}
use qorl.Plans.Schemas.Action.{
  Setting, require_subtrees, require_targets, flag, cost, pages, is_off_value, is_off, join_setting,
  scan_setting, only, forces_off, check_join_conflicts, disabled_of, check_scan_conflicts,
  check_each,
}
use qorl.Plans.Schemas.Distinct.{err-ok, both, split}

-- A setting that turns off what it is named for.
abbrev pub IsOff : Dict Setting → String → Type 0
IsOff settings name = lookup name settings ≡ some (flag false)

-- A join that leaves one method does not lose it to a setting, nor one that forces memoization.
pub record JoinAgrees (settings : Dict Setting) (item : JoinConstraint) : Type 0 where
  pub keeps_hash : join_allowed item ≡ hash ∷ [] → ¬ (IsOff settings "enable_hashjoin")
  pub keeps_merge : join_allowed item ≡ merge ∷ [] → ¬ (IsOff settings "enable_mergejoin")
  pub keeps_nestloop : join_allowed item ≡ nestloop ∷ [] → ¬ (IsOff settings "enable_nestloop")
  pub keeps_memoize : item.memoize ≡ force → ¬ (IsOff settings "enable_memoize")

-- Every member has the property.
abbrev pub Every : {A : Type 0} → (A → Type 0) → List A → Type 0
Every p [] = Unit {0}
Every p (x ∷ xs) = p x × Every p xs

raise_if-ok : (b : Bool) (e : Error) → (raise_if b e ≡ ok tt) ↔ (b ≡ false)
raise_if-ok true e = (λ h. absurd (err-ok e h), λ h. ground arith)
raise_if-ok false e = (λ _. refl, λ _. refl)

pub >>-ok-back :
    {B : Type 0} (r : Result Error (Unit {0})) (next : Result Error B) (y : B)
    → r ≡ ok tt
    → next ≡ ok y
    → (r >> next) ≡ ok y
>>-ok-back (ok tt) next y h k = k
>>-ok-back (err e) next y h k = absurd (err-ok e h)

pub check_each-Every :
    {A : Type 0} (check : A → Result Error (Unit {0})) (p : A → Type 0)
    → ((x : A) → (check x ≡ ok tt) ↔ p x)
    → (xs : List A) → (check_each check xs ≡ ok tt) ↔ Every p xs
unfolding check_each
check_each-Every check p each [] = (λ _. tt, λ _. refl)
check_each-Every check p each (x ∷ xs) =
    let (to, from) = check_each-Every check p each xs in
    (
      λ h. let (here, later) = >>-eq-ok (check x) _ h in ((each x).0 here, to later),
      λ (here, later). >>-ok-back (check x) _ tt ((each x).1 here) (from later),
    )

pub true-false : true ≢ false
true-false h = cc

-- Checks in a row, of conditions that must not hold.
raise_two-ok :
    (a b : Bool) (d e : Error)
    → ((raise_if a d >> raise_if b e) ≡ ok tt) ↔ ((a ≡ false) × (b ≡ false))
raise_two-ok true b d e = (λ h. absurd (err-ok d h), λ (h, _). absurd (true-false h))
raise_two-ok false b d e = (λ h. (refl, (raise_if-ok b e).0 h), λ (_, h). (raise_if-ok b e).1 h)

pub raise_three-ok :
    (a b c : Bool) (d e f : Error)
    → ((raise_if a d >> (raise_if b e >> raise_if c f)) ≡ ok tt)
      ↔ ((a ≡ false) × (b ≡ false) × (c ≡ false))
raise_three-ok true b c d e f = (λ h. absurd (err-ok d h), λ (h, _, _). absurd (true-false h))
raise_three-ok false b c d e f =
    let (to, from) = raise_two-ok b c e f in
    (λ h. let (here, later) = to h in (refl, here, later), λ (_, here, later). from (here, later))

-- The flag of a setting, if it is one.
on_flag : Option Setting → Bool
on_flag (some (flag b)) = b
on_flag _ = false

off_value : (o : Option Setting) → (is_off_value o ≡ true) ↔ (o ≡ some (flag false))
unfolding on_flag
off_value none = (λ h. cc, λ h. cc)
off_value (some (flag false)) = (λ _. refl, λ _. refl)
off_value (some (flag true)) = (λ h. cc, λ h. absurd (true-false (ap on_flag h)))
off_value (some (cost n)) = (λ h. cc, λ h. cc)
off_value (some (pages n)) = (λ h. cc, λ h. cc)

IsOff-is_off :
    (settings : Dict Setting) (name : String) → IsOff settings name → is_off settings name ≡ true
IsOff-is_off settings name off = (off_value (lookup name settings)).1 off

pub not_off :
    (settings : Dict Setting) (name : String)
    → ¬ (IsOff settings name)
    → is_off settings name ≡ false
not_off settings name on = elim (Bool-cases (is_off settings name)) [
  | inl off ↦ absurd (on ((off_value (lookup name settings)).0 off))
  | inr h ↦ h
]

module _ {A : Type 0} (setting : A → String) (settings : Dict Setting) where
  -- The method that is left keeps its setting, whichever it is.
  pub Keeps : List A → Type 0
  Keeps xs = (m : A) → xs ≡ m ∷ [] → ¬ (IsOff settings (setting m))

  pub forces_off-Keeps : (xs : List A) → forces_off setting settings (only xs) ≡ false → Keeps xs
  unfolding Keeps
  forces_off-Keeps xs on m one off =
      let kept : is_off settings (setting m) ≡ false =
        sym (ap (λ ys. forces_off setting settings (only ys)) one) ∙ on in
      true-false (sym (IsOff-is_off settings (setting m) off) ∙ kept)

  pub Keeps-forces_off : (xs : List A) → Keeps xs → forces_off setting settings (only xs) ≡ false
  unfolding Keeps
  Keeps-forces_off [] keeps = refl
  Keeps-forces_off (m ∷ []) keeps = not_off settings (setting m) (keeps m refl)
  Keeps-forces_off (m ∷ x ∷ xs) keeps = refl

JoinAgrees-Keeps :
    (settings : Dict Setting) (item : JoinConstraint)
    → JoinAgrees settings item
    → Keeps join_setting settings (join_allowed item)
unfolding Keeps
JoinAgrees-Keeps settings item good hash = good.keeps_hash
JoinAgrees-Keeps settings item good merge = good.keeps_merge
JoinAgrees-Keeps settings item good nestloop = good.keeps_nestloop

forced_memoize :
    (mode : MemoizeMode) (off : Bool) → (mode == force && off) ≡ false → mode ≡ force → off ≡ false
forced_memoize auto off h same = ground arith
forced_memoize force off h same = h
forced_memoize forbid off h same = ground arith

kept_memoize :
    (mode : MemoizeMode) (off : Bool)
    → (mode ≡ force → off ≡ false)
    → (mode == force && off) ≡ false
kept_memoize auto off h = refl
kept_memoize force off h = h refl
kept_memoize forbid off h = refl

pub check_join_conflicts-agrees :
    (settings : Dict Setting) (item : JoinConstraint)
    → (check_join_conflicts settings item ≡ ok tt) ↔ JoinAgrees settings item
unfolding check_join_conflicts Keeps
check_join_conflicts-agrees settings item =
    let (to, from) =
      raise_two-ok (forces_off join_setting settings (only (join_allowed item)))
        (item.memoize == force && is_off settings "enable_memoize") _ _ in
    (
      λ h.
          let (on, memoized) = to h in
          let keeps = forces_off-Keeps join_setting settings (join_allowed item) on in
          record {
            keeps_hash = keeps hash;
            keeps_merge = keeps merge;
            keeps_nestloop = keeps nestloop;
            keeps_memoize = λ forced off. true-false (
                sym (IsOff-is_off settings "enable_memoize" off)
                ∙ forced_memoize item.memoize _ memoized forced);
          },
      λ good. from (
        Keeps-forces_off join_setting settings (join_allowed item)
            (JoinAgrees-Keeps settings item good),
        kept_memoize item.memoize _
            (λ forced. not_off settings "enable_memoize" (good.keeps_memoize forced)),
      ),
    )
