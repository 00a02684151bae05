-- ===== src/Plans/Catalog/Targets.antt =====
-- What `require_relations` accepts, and what catalogs `from_task` builds.
use qorl.Prelude.{
  ◌≤◌, ◌≡◌, ◌↔◌, refl, String, true, List, [], ◌∷◌, some, lookup, ok, string_eq, arith, length,
  contains, is_distinct, without, is_subset, same_set, same_set_iff, is_subset_iff, sorted, name_le,
  beq_self, Bool-cases, inl, inr,
}
use qorl.Plans.Catalog.{TaskCatalog, require_relations, explore, first, min_join_relations}
use qorl.Plans.Catalog.Connected.{Walk, explore_visits, Walk-inside}

-- `adjacency` has an entry for each relation.
abbrev pub IsKeyed : TaskCatalog → Type 0
IsKeyed c =
    (r : String)
    → contains c.relations r ≡ true
    → (near : List String) × (lookup r c.adjacency ≡ some near)

-- The sets of aliases that a join can produce: at least two relations of the query, each once, all
-- reached from the first by joins inside the set.
pub record IsTarget (c : TaskCatalog) (values : List String) : Type 0 where
  pub enough : min_join_relations ≤ length values
  pub distinct : is_distinct values ≡ true
  pub known : (r : String) → contains values r ≡ true → contains c.relations r ≡ true
  pub connected : (r : String) → contains values r ≡ true → Walk c.adjacency values (first values) r

pub no_unknown : (xs ys : List String) → length (without xs ys) ≤ 0 → is_subset xs ys ≡ true
no_unknown [] ys h = refl
no_unknown (x ∷ xs) ys h = ground (arith, no_unknown xs ys)

pub all_known : (xs ys : List String) → is_subset xs ys ≡ true → length (without xs ys) ≤ 0
all_known [] ys h = omega arith
all_known (x ∷ xs) ys h = ground (arith, all_known xs ys)

pub contains-first :
    (values : List String)
    → min_join_relations ≤ length values
    → contains values (first values) ≡ true
contains-first [] h = absurd (omega arith)
contains-first (x ∷ xs) h = ground (arith, beq_self x)

module _ (c : TaskCatalog) (values : List String) (label : String) where
  searched :
      IsKeyed c
      → min_join_relations ≤ length values
      → is_subset values c.relations ≡ true
      → (t : List String) × (explore c.adjacency values (length values) (first values ∷ []) []
          ≡ ok t)
        × ((v : String) → (contains t v ≡ true) ↔ Walk c.adjacency values (first values) v)
  searched keyed enough known =
      let inside = (is_subset_iff values c.relations).0 known in
      explore_visits c.adjacency values (first values) (λ r m. keyed r (inside r m))
        (contains-first values enough)

  require_relations-IsTarget :
      IsKeyed c
      → {result : List String} → require_relations c values label ≡ ok result
      → IsTarget c values × (result ≡ sorted name_le values)
  unfolding require_relations
  require_relations-IsTarget keyed h =
      let enough : min_join_relations ≤ length values = ground arith in
      let none_left : length (without values c.relations) ≤ 0 = ground arith in
      let known = no_unknown values c.relations none_left in
      let (t, e, visits) = searched keyed enough known in
      let same : same_set t values ≡ true = ground arith in
      (
        record {
          enough = enough;
          distinct = ground arith;
          known = (is_subset_iff values c.relations).0 known;
          connected = λ r m. (visits r).0 (ground (arith, (same_set_iff t values).0 same r));
        },
        ground arith,
      )

  IsTarget-require_relations :
      IsKeyed c → IsTarget c values → require_relations c values label ≡ ok (sorted name_le values)
  unfolding require_relations
  IsTarget-require_relations keyed target =
      let known = (is_subset_iff values c.relations).1 target.known in
      let (t, e, visits) = searched keyed target.enough known in
      let same : same_set t values ≡ true = (same_set_iff t values).1 λ r.
        elim (Bool-cases (contains values r)) [
          | inl m ↦ ground (arith, (visits r).1 (target.connected r m))
          | inr n ↦ elim (Bool-cases (contains t r)) [
            | inl m ↦ ground (
              arith,
              Walk-inside c.adjacency values (first values) (λ r m. keyed r (target.known r m))
                  (contains-first values target.enough) ((visits r).0 m),
            )
            | inr n' ↦ ground arith
          ]
        ] in
      ground (arith, target.enough, target.distinct, all_known values c.relations known)

-- On a catalog with an adjacency entry for each relation, `require_relations` returns exactly for
-- the targets of joins, and what it returns is the target in alphabetical order.
pub require_relations_iff :
    (c : TaskCatalog) (values : List String) (label : String) (result : List String)
    → IsKeyed c
    → (require_relations c values label ≡ ok result)
      ↔ (IsTarget c values × (result ≡ sorted name_le values))
require_relations_iff c values label result keyed = (
  require_relations-IsTarget c values label keyed,
  λ (target, e). rw e (IsTarget-require_relations c values label keyed target),
)
