-- ===== src/Plans/Fingerprint/Ordering.antt =====
-- Entries that are sorted by their keys, in `sha256_json` of src/qorl/util/hashing.py.
use qorl.Prelude.{
  String, ◌≡◌, refl, sym, ap, ◌∙◌, ◌≢◌, inl, inr, true, false, Bool-cases, nat_eq, string_eq,
  name_le, name_le_total, name_le_refl, name_le_trans, name_le_strict,
}
use qorl.Json.{Json, Fields, end, field}
use qorl.Plans.Fingerprint.{insert_field}

module _ (j k : String) (v w : Json) (ordered : name_le j k ≡ true)
    (strict : name_le k j ≡ false) where
  before : (i : String) → name_le k i ≡ true → name_le j i ≡ true
  before i h = name_le_trans j k i ordered h

  insert_ordered :
      (fs : Fields)
      → insert_field j v (insert_field k w fs) ≡ insert_field k w (insert_field j v fs)
  unfolding insert_field
  insert_ordered end = rw (ordered, strict) refl
  insert_ordered (field i x fs) = elim (Bool-cases (name_le k i)) [
    | inl k_first ↦ rw (k_first, before i k_first, ordered, strict, k_first) refl
    | inr k_later ↦ elim (Bool-cases (name_le j i)) [
      | inl j_first ↦ rw (k_later, j_first, strict, k_later) refl
      | inr j_later ↦ rw (k_later, j_later, k_later) (ap (field i x) (insert_ordered fs))
    ]
  ]

-- Entries with different keys are inserted in either order.
pub insert_field-swap :
    (j k : String) (v w : Json) (fs : Fields)
    → j ≢ k
    → insert_field j v (insert_field k w fs) ≡ insert_field k w (insert_field j v fs)
insert_field-swap j k v w fs other = elim (Bool-cases (name_le j k)) [
  | inl ordered ↦ insert_ordered j k v w ordered (name_le_strict j k other ordered) fs
  | inr reversed ↦ sym (insert_ordered k j w v (name_le_total j k reversed) reversed fs)
]

-- A key that is not in its place before another is not the same.
pub later-differs : (k i : String) → name_le k i ≡ false → k ≢ i
later-differs k i h same = differ (sym (name_le_refl k) ∙ (ap (name_le k) same ∙ h))
  where
    differ : true ≢ false
    differ e = cc
