-- ===== src/Plans/Schemas/Leading.antt =====
-- The join order of a plan action: `validate_leading`, `_leading_subtrees` and `_render_leading` of
-- src/qorl/plans/schemas.py.
pub mod Order
use Prim.Native.String.{◌++◌ as join}
use qorl.Prelude.{
  ℕ, zero, suc, ◌+◌, ◌-◌, ◌*◌, ◌/◌, ◌%◌, ◌^◌, ◌≤◌, ◌<◌, String, ◌≡◌, refl, sym, ap, ◌∙◌, ◌≢◌, ◌↔◌,
  ◌⊎◌, inl, inr, Bool, true, false, not, ◌&&◌, ◌||◌, Option, none, some, List, [], ◌∷◌, ◌++◌, map,
  arith, ltb, leb, nat_beq, if◌then◌else◌, nat_beq_iff, ltb→lt, lt→ltb, leb→le, le→leb, Bool-cases,
  Option-cases, Eq, ◌==◌, nat_eq, string_eq, length, get_elem?, length-append, keep, length-keep_le,
  some_of, all_of, first_of?, contains, is_distinct, intersect, without, is_subset, same_set,
  beq_self, contains-append, contains-keep, is_subset_iff, same_set_iff, sorted, is_sorted,
  sorted-perm, length-sorted, some_of-sorted, sorted-is_sorted, sorted_of_is_sorted, codes, name_le,
  names_le, name_le_total, names_le_total, contains-sorted, is_distinct-sorted, Result, ok, err,
  ◌>>=◌, ◌>>◌, raise_if, or_raise, >>=-eq-ok, Dict, lookup, assign, lookup-assign, set_default,
  lookup-set_default, lookup_or, is_none, is_empty,
}
use qorl.Json.{Json, null, bool, number, str, arr, obj, Fields, end, field, keys}
use qorl.Plans.Errors.{
  Error, missing_key, unknown_fields, single_relation, leading_duplicates, leading_incomplete,
  not_a_join_object, disconnected_subtrees, missing_side,
}
use qorl.Plans.Catalog.{TaskCatalog, require_relation}

-- str | JoinNode
pub data JoinTree : Type 0 where
  leaf : String → JoinTree
  node : JoinTree → JoinTree → JoinTree

abbrev pub leaves : JoinTree → List String
leaves (leaf relation) = relation ∷ []
leaves (node left right) = leaves left ++ leaves right

-- _leading_subtrees(tree): the relations beneath each internal node
unfoldable pub leading_subtrees : JoinTree → List (List String)
leading_subtrees (leaf relation) = []
leading_subtrees (node left right) =
    (leaves left ++ leaves right) ∷ (leading_subtrees left ++ leading_subtrees right)

infixl 65 ◌<>◌
abbrev pub ◌<>◌ : String → String → String
s <> t = join s t

-- _render_leading(tree)
unfoldable pub render_leading : JoinTree → String
render_leading (leaf relation) = relation
render_leading (node left right) = "(" <> render_leading left <> " " <> render_leading right <> ")"

-- any(adjacency[relation] & right for relation in left)
unfoldable pub any_joined : Dict (List String) → List String → List String → Result Error Bool
any_joined adjacency [] right = ok false
any_joined adjacency (relation ∷ left) right =
    or_raise (lookup relation adjacency) (missing_key relation) >>= λ near.
    let rest = any_joined adjacency left right in
    if is_empty (intersect near right) then rest else ok true

abbrev pub side_fields : List String
side_fields = "left" ∷ "right" ∷ []

-- What `visit` does at an internal node, given the visits of its two sides.
unfoldable pub visit_node :
    TaskCatalog
    → String
    → Option (Result Error (List String))
    → Option (Result Error (List String))
    → Result Error (List String)
unfolding any_joined
visit_node catalog path none right = err (missing_side path "left")
visit_node catalog path (some left) none = err (missing_side path "right")
visit_node catalog path (some left) (some right) = do
  l ← left
  r ← right
  joined ← any_joined catalog.adjacency l r
  raise_if (not joined) (disconnected_subtrees path)
  ok (l ++ r)

-- `visit(node, path)`, which returns the leaves that it appends to `leaves`; their set is what the
-- source returns. `visit_side` visits `node[side]`, if it is there.
unfoldable mutual
  unfolding visit_node require_relation

  pub visit : TaskCatalog → Json → String → Result Error (List String)
  visit catalog (str s) path = do relation ← require_relation catalog s path; ok (relation ∷ [])
  visit catalog (obj fields) path =
      let unknown = without (keys fields) side_fields in
      let visited =
        visit_node catalog path (visit_side catalog fields "left" (path <> ".left"))
          (visit_side catalog fields "right" (path <> ".right")) in
      if is_empty unknown then visited else err (unknown_fields path (sorted name_le unknown))
  visit catalog null path = err (not_a_join_object path)
  visit catalog (bool b) path = err (not_a_join_object path)
  visit catalog (number n) path = err (not_a_join_object path)
  visit catalog (arr items) path = err (not_a_join_object path)

  pub visit_side : TaskCatalog → Fields → String → String → Option (Result Error (List String))
  visit_side catalog end side path = none
  visit_side catalog (field k v fields) side path =
      let here = visit catalog v path in
      let later = visit_side catalog fields side path in if k == side then some here else later

unfoldable pub validate_leading : TaskCatalog → Json → Result Error Json
unfolding visit
validate_leading catalog null = ok null
validate_leading catalog (str s) = err single_relation
validate_leading catalog value = do
  visited ← visit catalog value "leading"
  raise_if (not (is_distinct visited)) leading_duplicates
  raise_if (not (same_set visited catalog.relations)) leading_incomplete
  ok value

abbrev pub both : Option JoinTree → Option JoinTree → Option JoinTree
both (some left) (some right) = some (node left right)
both _ _ = none

-- The `JoinNode` that pydantic reads from an object with the two fields, and from nothing else.
unfoldable mutual
  pub join_tree : Json → Option JoinTree
  join_tree (str s) = some (leaf s)
  join_tree (obj fields) =
      let read = both (join_side fields "left") (join_side fields "right") in
      if is_empty (without (keys fields) side_fields) then read else none
  join_tree null = none
  join_tree (bool b) = none
  join_tree (number n) = none
  join_tree (arr items) = none

  pub join_side : Fields → String → Option JoinTree
  join_side end side = none
  join_side (field k v fields) side =
      let here = join_tree v in
      let later = join_side fields side in if k == side then here else later
