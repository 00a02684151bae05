-- ===== src/Plans/Catalog/Building.antt =====
-- The catalogs that `from_task` builds.
use qorl.Prelude.{
  ◌≡◌, refl, String, ◌&&◌, ◌||◌, List, [], ◌∷◌, none, some, Dict, lookup, assign, lookup-assign, ok,
  or_raise, string_eq, ◌==◌, arith, contains, inl, inr, Option-cases, Bool-cases, if◌then◌else◌,
  map, >>=-eq-ok,
}
use qorl.Plans.Errors.{malformed_edge}
use qorl.Plans.Catalog.{
  TaskCatalog, Relation, from_task, add_edge, add_join_edge, add_join_edges, no_edges, split_once,
}
use qorl.Plans.Catalog.Connected.{neighbours}
use qorl.Plans.Catalog.Undirected.{IsSymmetric, IsGraph}

abbrev pub HasKey : Dict (List String) → String → Type 0
HasKey adjacency r = (near : List String) × (lookup r adjacency ≡ some near)

lookup-no_edges :
    (rs : List String) (r : String)
    → lookup r (no_edges rs) ≡ (if contains rs r then some [] else none)
unfolding no_edges lookup
lookup-no_edges [] r = refl
lookup-no_edges (x ∷ xs) r =
    ground (arith, lookup-assign x r [] (no_edges xs), lookup-no_edges xs r)

-- add_edge succeeds only at a key, and then only that entry changes.
add_edge-lookup :
    (left right : String) (before after : Dict (List String))
    → add_edge left right before ≡ ok after
    → (known : List String) × (lookup left before ≡ some known)
      × ((u : String)
          → lookup u after ≡ (
              if left == u
              then some (if contains known right then known else right ∷ known)
              else lookup u before))
unfolding add_edge
add_edge-lookup left right before after h = elim (Option-cases (lookup left before)) [
  | inl e ↦ cc (e, h)
  | inr (known, e) ↦
      let made : after
          ≡ assign left (if contains known right then known else right ∷ known) before =
        ground arith in
      (known, e, λ u. rw made (lookup-assign left u _ before))
]

module _ (left right : String) (before after : Dict (List String))
    (h : add_edge left right before ≡ ok after) where
  add_edge-neighbours :
      (u v : String)
      → contains (neighbours after u) v
        ≡ (contains (neighbours before u) v || (left == u && right == v))
  add_edge-neighbours u v =
      let (known, e, at) = add_edge-lookup left right before after h in
      ground (arith, e, at u, string_eq.beq_iff left u, string_eq.beq_iff right v)

  add_edge-HasKey : (r : String) → HasKey before r → HasKey after r
  add_edge-HasKey r (near, found) =
      let (known, e, at) = add_edge-lookup left right before after h in
      elim (Bool-cases (left == r)) [
        | inl same ↦ ((if contains known right then known else right ∷ known), rw (at r, same) refl)
        | inr other ↦ (near, rw (at r, other) found)
      ]

  add_edge-HasKey_left : HasKey before left
  add_edge-HasKey_left =
      let (known, e, at) = add_edge-lookup left right before after h in (known, e)

-- What the loop over the join edges keeps.
record Keeps (before after : Dict (List String)) : Type 0 where
  keys : (r : String) → HasKey before r → HasKey after r
  symmetric : IsSymmetric before → IsSymmetric after

add_join_edge-Keeps :
    (before after : Dict (List String)) (edge : String)
    → add_join_edge before edge ≡ ok after
    → Keeps before after
unfolding add_join_edge
add_join_edge-Keeps before after edge h =
    let (right, _, h₁) = >>=-eq-ok (or_raise (split_once b'=' edge).1 (malformed_edge edge)) _ h in
    let l = (split_once b':' (split_once b'=' edge).0).0 in
    let r = (split_once b':' right).0 in
    let (mid, e₁, e₂) = >>=-eq-ok (add_edge l r before) _ h₁ in
    record {
      keys = λ k key. add_edge-HasKey r l mid after e₂ k (add_edge-HasKey l r before mid e₁ k key);
      symmetric = λ sym_before u v. ground (
        arith,
        sym_before u v,
        add_edge-neighbours l r before mid e₁ u v,
        add_edge-neighbours l r before mid e₁ v u,
        add_edge-neighbours r l mid after e₂ u v,
        add_edge-neighbours r l mid after e₂ v u,
      );
    }

add_join_edges-Keeps :
    (before after : Dict (List String)) (edges : List String)
    → add_join_edges before edges ≡ ok after
    → Keeps before after
unfolding add_join_edges
add_join_edges-Keeps before after [] h =
    let same : before ≡ after = cc in
    record { keys = λ r key. rw same at key; symmetric = λ s. rw same at s }
add_join_edges-Keeps before after (edge ∷ edges) h =
    let (mid, e, rest) = >>=-eq-ok (add_join_edge before edge) _ h in
    let first = add_join_edge-Keeps before mid edge e in
    let later = add_join_edges-Keeps mid after edges rest in
    record {
      keys = λ r key. later.keys r (first.keys r key);
      symmetric = λ s. later.symmetric (first.symmetric s);
    }

-- A catalog that `from_task` builds has an adjacency entry for each relation of the task, and its
-- join graph is undirected.
pub from_task-IsGraph :
    (relations : List Relation) (join_edges : List String) (indexes : Dict (List String))
    (c : TaskCatalog)
    → from_task relations join_edges indexes ≡ ok c
    → IsGraph c
unfolding from_task
from_task-IsGraph relations join_edges indexes c h =
    let aliases = map (λ (r : Relation). r.alias) relations in
    let (adjacency, e, made) = >>=-eq-ok (add_join_edges (no_edges aliases) join_edges) _ h in
    let kept = add_join_edges-Keeps (no_edges aliases) adjacency join_edges e in
    record {
      keyed = λ r m.
          let (near, found) = kept.keys r ([], ground (arith, lookup-no_edges aliases r)) in
          (near, ground arith);
      symmetric = λ u v.
          let s =
            kept.symmetric
              (λ x y. ground (arith, lookup-no_edges aliases x, lookup-no_edges aliases y)) u v in
          ground (arith, s);
    }
