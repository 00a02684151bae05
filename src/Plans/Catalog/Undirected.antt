-- ===== src/Plans/Catalog/Undirected.antt =====
-- In an undirected join graph a target may be listed in any order.
use qorl.Prelude.{
  ◌≤◌, String, ◌≡◌, sym, ap, ◌∙◌, true, not, List, arith, leb, leb→le, le→leb, nat_eq, string_eq,
  length, contains, without, sorted, length-sorted, some_of-sorted, codes, name_le, name_le_total,
  contains-sorted, is_distinct-sorted, ok, Dict, sorted_twice, sorted-is_subset,
}
use qorl.Plans.Catalog.{
  TaskCatalog, require_relations, require_relation, require_indexes, indexes_of, is_identifier,
  first, min_join_relations,
}
use qorl.Plans.Catalog.Connected.{Walk, here, step, neighbours}
use qorl.Plans.Catalog.Targets.{
  IsKeyed, IsTarget, contains-first, no_unknown, all_known, require_relations_iff,
}

-- If joins are recorded at one end they are recorded at the other.
abbrev pub IsSymmetric : Dict (List String) → Type 0
IsSymmetric adjacency =
    (u v : String) → contains (neighbours adjacency u) v ≡ contains (neighbours adjacency v) u

-- What every catalog that `from_task` builds is.
pub record IsGraph (c : TaskCatalog) : Type 0 where
  pub keyed : IsKeyed c
  pub symmetric : IsSymmetric c.adjacency

module _ {adjacency : Dict (List String)} {selected : List String} where
  Walk-trans :
      {a b c : String}
      → Walk adjacency selected a b
      → Walk adjacency selected b c
      → Walk adjacency selected a c
  Walk-trans w here = w
  Walk-trans w (step v near inner) = step (Walk-trans w v) near inner

  Walk-symm :
      {a b : String}
      → IsSymmetric adjacency
      → contains selected a ≡ true
      → Walk adjacency selected a b
      → Walk adjacency selected b a
  Walk-symm sym_edges member here = here
  Walk-symm {a} sym_edges member (step {u} {v} w near inner) =
      let back : contains (neighbours adjacency v) u ≡ true = sym (sym_edges u v) ∙ near in
      let there : contains selected u ≡ true = inside w in
      Walk-trans (step here back there) (Walk-symm sym_edges member w)
    where
      inside : {x : String} → Walk adjacency selected a x → contains selected x ≡ true
      inside here = member
      inside (step w near inner) = inner

Walk-selected :
    {adjacency : Dict (List String)} {xs ys : List String} {a b : String}
    → ((r : String) → contains xs r ≡ contains ys r)
    → Walk adjacency xs a b
    → Walk adjacency ys a b
Walk-selected same here = here
Walk-selected same (step {u} {v} w near inner) =
    step (Walk-selected same w) near (sym (same v) ∙ inner)

IsTarget-sorted :
    (c : TaskCatalog) (values : List String)
    → IsGraph c
    → IsTarget c values
    → IsTarget c (sorted name_le values)
IsTarget-sorted c values graph target = record {
  enough = enough;
  distinct = is_distinct-sorted name_le values ∙ target.distinct;
  known = λ r m. target.known r (sym (same r) ∙ m);
  connected = λ r m.
      Walk-selected (λ x. sym (same x))
        (Walk-trans (Walk-symm graph.symmetric start (target.connected next within))
          (target.connected r (sym (same r) ∙ m)));
}
  where
    same : (r : String) → contains (sorted name_le values) r ≡ contains values r
    same = contains-sorted name_le values

    enough : min_join_relations ≤ length (sorted name_le values)
    enough = omega (arith, length-sorted name_le values, target.enough)

    next : String
    next = first (sorted name_le values)

    within : contains values next ≡ true
    within = sym (same next) ∙ contains-first (sorted name_le values) enough

    start : contains values (first values) ≡ true
    start = contains-first values target.enough

-- On the catalog of a task, reading a target again changes nothing.
pub require_relations_idem :
    (c : TaskCatalog) (values : List String) (label : String) (result : List String)
    → IsGraph c
    → require_relations c values label ≡ ok result
    → require_relations c result label ≡ ok result
require_relations_idem c values label result graph h =
    let (target, made) = (require_relations_iff c values label result graph.keyed).0 h in
    let again = (require_relations_iff c result label result graph.keyed).1 (
      rw made (IsTarget-sorted c values graph target),
      rw made (sym (sorted_twice name_le name_le_total values)),
    ) in
    again

pub require_relation_idem :
    (c : TaskCatalog) (value label result : String)
    → require_relation c value label ≡ ok result
    → require_relation c result label ≡ ok result
unfolding require_relation
require_relation_idem c value label result h =
    let same : value ≡ result = ground arith in ground (arith, ap (contains c.relations) same)

-- A sorted list has nothing outside a set if the list has nothing outside it.
all_known_sorted :
    (xs ys : List String)
    → leb (length (without xs ys)) 0 ≡ true
    → leb (length (without (sorted name_le xs) ys)) 0 ≡ true
all_known_sorted xs ys h =
    let inside = no_unknown xs ys (leb→le _ _ h) in
    le→leb _ _ (all_known (sorted name_le xs) ys (sorted-is_subset name_le xs ys ∙ inside))

-- Reading the indexes of a relation again changes nothing.
pub require_indexes_idem :
    (c : TaskCatalog) (values : List String) (relation label : String) (result : List String)
    → require_indexes c values relation label ≡ ok result
    → require_indexes c result relation label ≡ ok result
unfolding require_indexes
require_indexes_idem c values relation label result h =
    let made : result ≡ sorted name_le values = ground arith in
    rw made (
      ground (
        arith,
        made,
        some_of-sorted name_le (λ i. not (is_identifier (codes i))) values,
        is_distinct-sorted name_le values,
        all_known_sorted values (indexes_of c relation),
        sorted_twice name_le name_le_total values,
      ))
