-- ===== src/Plans/Fingerprint.antt =====
-- src/qorl/plans/fingerprint.py: a plan without what an execution observes, which is what plans are
-- identified by. The entries of an object are in the order in which Python's dict keeps them;
-- `sha256_json` of src/qorl/util/hashing.py sorts them by key before it encodes, so that the
-- identities do not depend on that order. `digest` is the SHA-256 digest of the encoded value.
pub mod Agreement
pub mod Identity
pub mod Observed
pub mod Ordering
pub mod Same
use text.Mathlib.Text.{starts_with}
use qorl.Prelude.{
  ℕ, zero, suc, ◌+◌, ◌-◌, ◌*◌, ◌/◌, ◌%◌, ◌^◌, ◌≤◌, ◌<◌, String, ◌≡◌, refl, sym, ap, ◌∙◌, ◌≢◌, ◌↔◌,
  ◌⊎◌, inl, inr, Bool, true, false, not, ◌&&◌, ◌||◌, Option, none, some, List, [], ◌∷◌, ◌++◌, map,
  arith, ltb, leb, nat_beq, if◌then◌else◌, nat_beq_iff, ltb→lt, lt→ltb, leb→le, le→leb, Bool-cases,
  Option-cases, Eq, ◌==◌, nat_eq, string_eq, length, get_elem?, length-append, keep, length-keep_le,
  some_of, all_of, first_of?, contains, is_distinct, intersect, without, is_subset, same_set,
  beq_self, contains-append, contains-keep, is_subset_iff, same_set_iff, sorted, is_sorted,
  sorted-perm, length-sorted, some_of-sorted, sorted-is_sorted, sorted_of_is_sorted, codes, name_le,
  names_le, name_le_total, names_le_total, contains-sorted, is_distinct-sorted, Result, ok, err,
  ◌>>=◌, ◌>>◌, raise_if, or_raise, >>=-eq-ok, Dict, lookup, assign, lookup-assign, set_default,
  lookup-set_default, lookup_or, is_none, is_empty, decimal, two_digits, sorted_twice,
  is_subset-sorted, sorted-is_subset, without-sorted, is_empty-sorted,
}
use qorl.Json.{Json, null, bool, number, str, arr, obj, Items, nil, cons, Fields, end, field}

abbrev pub estimate_plan_keys : List String
estimate_plan_keys = "Startup Cost" ∷ "Total Cost" ∷ "Plan Rows" ∷ "Plan Width" ∷ []

abbrev pub runtime_plan_keys : List String
runtime_plan_keys =
    "Cache Evictions" ∷ "Cache Hits" ∷ "Cache Misses" ∷ "Cache Overflows" ∷ "Conflicting Tuples"
    ∷ "Disk Usage" ∷ "Full-sort Groups" ∷ "Hash Batches" ∷ "HashAgg Batches" ∷ "Hash Buckets"
    ∷ "Heap Fetches" ∷ "I/O Read Time" ∷ "I/O Write Time" ∷ "Shared I/O Read Time"
    ∷ "Shared I/O Write Time" ∷ "Local I/O Read Time" ∷ "Local I/O Write Time"
    ∷ "Temp I/O Read Time" ∷ "Temp I/O Write Time" ∷ "Index Searches" ∷ "Maximum Storage"
    ∷ "Memory Usage" ∷ "Original Hash Batches" ∷ "Original Hash Buckets" ∷ "Peak Memory Usage"
    ∷ "Pre-sorted Groups" ∷ "Sort Method" ∷ "Sort Space Type" ∷ "Sort Space Used" ∷ "Storage"
    ∷ "Subplans Removed" ∷ "Tuples Deleted" ∷ "Tuples Inserted" ∷ "Tuples Updated" ∷ "Workers"
    ∷ "Workers Launched" ∷ []

abbrev pub runtime_plan_prefixes : List String
runtime_plan_prefixes = "Actual " ∷ "Rows Removed by " ∷ "WAL " ∷ []

-- s.endswith(t)
pub ends_with : String → String → Bool
ends_with String.[] t = String.[] == t
ends_with (String.◌∷◌ c s) t = String.◌∷◌ c s == t || ends_with s t

-- Whether the entry with this key stays in a canonical plan.
unfoldable pub is_kept : Bool → String → Bool
unfolding ends_with
is_kept structural key =
    not (contains runtime_plan_keys key)
    && not (some_of (λ prefix. starts_with key prefix) runtime_plan_prefixes)
    && not (ends_with key " Blocks")
    && not (structural && contains estimate_plan_keys key)

-- canonical_plan(value, structural=structural)
unfoldable mutual
  unfolding is_kept

  pub canonical_plan : Bool → Json → Json
  canonical_plan structural (arr items) = arr (canonical_items structural items)
  canonical_plan structural (obj fields) = obj (canonical_fields structural fields)
  canonical_plan structural value = value

  pub canonical_items : Bool → Items → Items
  canonical_items structural nil = nil
  canonical_items structural (cons item items) =
      cons (canonical_plan structural item) (canonical_items structural items)

  pub canonical_fields : Bool → Fields → Fields
  canonical_fields structural end = end
  canonical_fields structural (field key item fields) =
      let kept = canonical_plan structural item in
      let rest = canonical_fields structural fields in
      if is_kept structural key then field key kept rest else rest

-- An entry in its place among entries in the order of their keys.
unfoldable pub insert_field : String → Json → Fields → Fields
insert_field key item end = field key item end
insert_field key item (field k v fields) =
    let rest = insert_field key item fields in
    if name_le key k then field key item (field k v fields) else field k v rest

-- json.dumps(value, sort_keys=True), as the value that it writes
unfoldable mutual
  unfolding insert_field

  pub sort_keys : Json → Json
  sort_keys (arr items) = arr (sort_items items)
  sort_keys (obj fields) = obj (sort_fields fields)
  sort_keys value = value

  pub sort_items : Items → Items
  sort_items nil = nil
  sort_items (cons item items) = cons (sort_keys item) (sort_items items)

  pub sort_fields : Fields → Fields
  sort_fields end = end
  sort_fields (field key item fields) = insert_field key (sort_keys item) (sort_fields fields)

module _ (digest : Json → String) where
  unfoldable pub sha256_json : Json → String
  unfolding sort_keys
  sha256_json value = digest (sort_keys value)

  unfoldable pub plan_sha256 : Fields → String
  unfolding canonical_plan sha256_json
  plan_sha256 plan = sha256_json (canonical_plan false (obj plan))

  unfoldable pub structural_plan_sha256 : Fields → String
  unfolding canonical_plan sha256_json
  structural_plan_sha256 plan = sha256_json (canonical_plan true (obj plan))
