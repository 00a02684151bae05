-- ===== src/Plans/Fingerprint/Identity.antt =====
-- When two plans have the same identity in src/qorl/plans/fingerprint.py.
use qorl.Prelude.{
  String, ◌≡◌, refl, sym, ap, ◌∙◌, ◌≢◌, ◌↔◌, inl, inr, Bool, true, false, Bool-cases, nat_eq,
  string_eq, name_le,
}
use mathlib.Core.Path.{subst}
use qorl.Json.{Json, null, bool, number, str, arr, obj, Items, nil, cons, Fields, end, field}
use qorl.Plans.Fingerprint.{
  is_kept, canonical_plan, canonical_items, canonical_fields, insert_field, sort_keys, sort_items,
  sort_fields, sha256_json, plan_sha256, structural_plan_sha256,
}
use qorl.Plans.Fingerprint.Ordering.{insert_field-swap, later-differs}
use qorl.Plans.Fingerprint.Observed.{is_kept-IsObserved, IsObserved-is_kept}
use qorl.Plans.Fingerprint.Same.{
  Same, unchanged, back, onward, items, entries, SameItems, no_items, next, SameFields, alike, undo,
  series, entry, swapped, dropped, Same-structural,
}

encoded-swapped :
    (s : Bool) (j k : String) (v w : Json) (fs : Fields)
    → j ≢ k
    → sort_fields (canonical_fields s (field j v (field k w fs)))
      ≡ sort_fields (canonical_fields s (field k w (field j v fs)))
unfolding canonical_fields sort_fields
encoded-swapped s j k v w fs other = elim (Bool-cases (is_kept s j)) [
  | inl j_kept ↦ elim (Bool-cases (is_kept s k)) [
    | inl k_kept ↦
        rw (j_kept, k_kept)
          (insert_field-swap j k (sort_keys (canonical_plan s v)) (sort_keys (canonical_plan s w))
            (sort_fields (canonical_fields s fs)) other)
    | inr k_dropped ↦ rw (j_kept, k_dropped) refl
  ]
  | inr j_dropped ↦ rw j_dropped refl
]

encoded-entry :
    (s : Bool) (k : String) (v w : Json) (fs gs : Fields)
    → sort_keys (canonical_plan s v) ≡ sort_keys (canonical_plan s w)
    → sort_fields (canonical_fields s fs) ≡ sort_fields (canonical_fields s gs)
    → sort_fields (canonical_fields s (field k v fs))
      ≡ sort_fields (canonical_fields s (field k w gs))
unfolding canonical_fields sort_fields
encoded-entry s k v w fs gs h h' = elim (Bool-cases (is_kept s k)) [
  | inl is_in ↦ rw (is_in, h, h') refl
  | inr is_out ↦ rw is_out h'
]

encoded-dropped :
    (s : Bool) (k : String) (v : Json) (fs : Fields)
    → is_kept s k ≡ false
    → sort_fields (canonical_fields s (field k v fs)) ≡ sort_fields (canonical_fields s fs)
unfolding canonical_fields
encoded-dropped s k v fs h = rw h refl

mutual
  unfolding canonical_plan canonical_items sort_keys sort_items

  Same-encoded :
      (s : Bool) {v w : Json}
      → Same s v w
      → sort_keys (canonical_plan s v) ≡ sort_keys (canonical_plan s w)
  Same-encoded s unchanged = refl
  Same-encoded s (back h) = sym (Same-encoded s h)
  Same-encoded s (onward h k) = Same-encoded s h ∙ Same-encoded s k
  Same-encoded s (items h) = ap arr (SameItems-encoded s h)
  Same-encoded s (entries h) = ap obj (SameFields-encoded s h)

  SameItems-encoded :
      (s : Bool) {xs ys : Items}
      → SameItems s xs ys
      → sort_items (canonical_items s xs) ≡ sort_items (canonical_items s ys)
  SameItems-encoded s no_items = refl
  SameItems-encoded s (next h k) = rw (Same-encoded s h, SameItems-encoded s k) refl

  SameFields-encoded :
      (s : Bool) {fs gs : Fields}
      → SameFields s fs gs
      → sort_fields (canonical_fields s fs) ≡ sort_fields (canonical_fields s gs)
  SameFields-encoded s alike = refl
  SameFields-encoded s (undo h) = sym (SameFields-encoded s h)
  SameFields-encoded s (series h k) = SameFields-encoded s h ∙ SameFields-encoded s k
  SameFields-encoded s (entry {k} {v} {w} {fs} {gs} h h') =
      encoded-entry s k v w fs gs (Same-encoded s h) (SameFields-encoded s h')
  SameFields-encoded s (swapped {j} {k} {v} {w} {fs} other) = encoded-swapped s j k v w fs other
  SameFields-encoded s (dropped {k} {v} {fs} h) =
      encoded-dropped s k v fs (IsObserved-is_kept s k h)

insert_field-Same :
    (s : Bool) (k : String) (v : Json) (fs : Fields)
    → SameFields s (field k v fs) (insert_field k v fs)
unfolding insert_field
insert_field-Same s k v end = alike
insert_field-Same s k v (field i x fs) =
    let later = insert_field-Same s k v fs in
    elim (Bool-cases (name_le k i)) [
      | inl first ↦ rw first alike
      | inr after ↦ rw after (series (swapped (later-differs k i after)) (entry unchanged later))
    ]

mutual
  unfolding sort_keys sort_items sort_fields

  sort_keys-Same : (s : Bool) (v : Json) → Same s v (sort_keys v)
  sort_keys-Same s null = unchanged
  sort_keys-Same s (bool b) = unchanged
  sort_keys-Same s (number n) = unchanged
  sort_keys-Same s (str t) = unchanged
  sort_keys-Same s (arr xs) = items (sort_items-Same s xs)
  sort_keys-Same s (obj fs) = entries (sort_fields-Same s fs)

  sort_items-Same : (s : Bool) (xs : Items) → SameItems s xs (sort_items xs)
  sort_items-Same s nil = no_items
  sort_items-Same s (cons x xs) = next (sort_keys-Same s x) (sort_items-Same s xs)

  sort_fields-Same : (s : Bool) (fs : Fields) → SameFields s fs (sort_fields fs)
  sort_fields-Same s end = alike
  sort_fields-Same s (field k v fs) =
      series (entry (sort_keys-Same s v) (sort_fields-Same s fs))
        (insert_field-Same s k (sort_keys v) (sort_fields fs))

mutual
  unfolding canonical_plan canonical_items canonical_fields

  canonical_plan-Same : (s : Bool) (v : Json) → Same s v (canonical_plan s v)
  canonical_plan-Same s null = unchanged
  canonical_plan-Same s (bool b) = unchanged
  canonical_plan-Same s (number n) = unchanged
  canonical_plan-Same s (str t) = unchanged
  canonical_plan-Same s (arr xs) = items (canonical_items-Same s xs)
  canonical_plan-Same s (obj fs) = entries (canonical_fields-Same s fs)

  canonical_items-Same : (s : Bool) (xs : Items) → SameItems s xs (canonical_items s xs)
  canonical_items-Same s nil = no_items
  canonical_items-Same s (cons x xs) = next (canonical_plan-Same s x) (canonical_items-Same s xs)

  canonical_fields-Same : (s : Bool) (fs : Fields) → SameFields s fs (canonical_fields s fs)
  canonical_fields-Same s end = alike
  canonical_fields-Same s (field k v fs) =
      let here = canonical_plan-Same s v in
      let later = canonical_fields-Same s fs in
      elim (Bool-cases (is_kept s k)) [
        | inl stays ↦ rw stays (entry here later)
        | inr goes ↦ rw goes (series (dropped (is_kept-IsObserved s k goes)) later)
      ]

encoded-Same : (s : Bool) (v : Json) → Same s v (sort_keys (canonical_plan s v))
encoded-Same s v = onward (canonical_plan-Same s v) (sort_keys-Same s (canonical_plan s v))

-- The values that are encoded for the identities of two plans are equal exactly if the plans differ
-- at most in the order of entries with different keys and in entries that an execution observes or,
-- for the structural identity, that estimate.
pub plan_identity_iff :
    (structural : Bool) (v w : Json)
    → (sort_keys (canonical_plan structural v) ≡ sort_keys (canonical_plan structural w))
      ↔ Same structural v w
plan_identity_iff s v w = (
  λ same. onward (subst (Same s v) same (encoded-Same s v)) (back (encoded-Same s w)),
  Same-encoded s,
)

-- Plans that differ only in the order of entries with different keys and in entries that an execution
-- observes have the same plan identity and the same structural identity, whatever the digest.
pub plan_sha256-Same :
    (digest : Json → String) (fs gs : Fields)
    → Same false (obj fs) (obj gs)
    → (plan_sha256 digest fs ≡ plan_sha256 digest gs)
      × (structural_plan_sha256 digest fs ≡ structural_plan_sha256 digest gs)
unfolding plan_sha256 structural_plan_sha256 sha256_json
plan_sha256-Same digest fs gs h =
    (ap digest (Same-encoded false h), ap digest (Same-encoded true (Same-structural h)))
