-- ===== src/Plans/Nodes.antt =====
-- A plan of src/qorl/plans/verify.py and what the verification reads of it. A node is its entries
-- and its children, the list under "Plans".
use qorl.Prelude.{
  ℕ, String, Bool, true, false, not, ◌&&◌, ◌||◌, Option, none, some, List, [], ◌∷◌, ◌++◌, nat_beq,
  if◌then◌else◌, ◌==◌, nat_eq, string_eq, keep, first_of?, contains, same_set, is_none,
}
use qorl.Numbers.{int, float}
use qorl.Json.{Json, null, bool, number, str, arr, obj, nil, Fields, end, get}
use qorl.Plans.Methods.{
  JoinMethod, ScanMethod, hash, merge, nestloop, seq, index, index_only, bitmap, join_eq, scan_eq,
}
use qorl.Plans.Schemas.Leading.{JoinTree, leaf, node as branch}

mutual
  pub data Plan : Type 0 where
    node : Fields → Plans → Plan

  pub data Plans : Type 0 where
    no_plans : Plans
    more : Plan → Plans → Plans

abbrev pub entries : Plan → Fields
entries (node fields _) = fields

-- value if isinstance(value, str)
abbrev pub text_of : Option Json → Option String
text_of (some (str s)) = some s
text_of _ = none

unfoldable mutual
  pub nodes : Plan → List Plan
  nodes (node fields plans) = node fields plans ∷ nodes_of plans

  pub nodes_of : Plans → List Plan
  nodes_of no_plans = []
  nodes_of (more plan plans) = nodes plan ++ nodes_of plans

abbrev pub with_text : Option String → List String → List String
with_text none texts = texts
with_text (some s) texts = s ∷ texts

-- The values of a key, where they are strings.
unfoldable pub texts_at : String → List Plan → List String
texts_at key [] = []
texts_at key (plan ∷ plans) = with_text (text_of (get key (entries plan))) (texts_at key plans)

unfoldable pub relation_set : Plan → List String
unfolding nodes texts_at
relation_set plan = texts_at "Alias" (nodes plan)

unfoldable pub index_names : Plan → List String
unfolding nodes texts_at
index_names plan = texts_at "Index Name" (nodes plan)

-- JOIN_METHODS.get(node_type)
abbrev pub join_methods_get : Option String → Option JoinMethod
join_methods_get none = none
join_methods_get (some s) =
    if s == "Hash Join"
    then some hash
    else if s == "Merge Join"
    then some merge
    else if s == "Nested Loop"
    then some nestloop
    else none

-- SCAN_METHODS.get(node_type)
abbrev pub scan_methods_get : Option String → Option ScanMethod
scan_methods_get none = none
scan_methods_get (some s) =
    if s == "Seq Scan"
    then some seq
    else if s == "Index Scan"
    then some index
    else if s == "Index Only Scan"
    then some index_only
    else if s == "Bitmap Heap Scan"
    then some bitmap
    else none

abbrev pub node_type : Plan → Option String
node_type plan = text_of (get "Node Type" (entries plan))

unfoldable pub join_method_of : Plan → Option JoinMethod
join_method_of plan = join_methods_get (node_type plan)

unfoldable pub scan_method_of : Plan → Option ScanMethod
scan_method_of plan = scan_methods_get (node_type plan)

-- node.get(key) == text
abbrev pub has_text : String → String → Plan → Bool
has_text key text plan = elim (text_of (get key (entries plan))) [
  | none ↦ false
  | some s ↦ s == text
]

unfoldable pub matching_join : Plan → List String → Option Plan
unfolding nodes relation_set join_method_of
matching_join plan relations =
    first_of? (λ n. not (is_none (join_method_of n)) && same_set (relation_set n) relations)
      (nodes plan)

unfoldable pub matching_scan : Plan → String → Option Plan
unfolding nodes scan_method_of
matching_scan plan relation =
    first_of? (λ n. has_text "Alias" relation n && not (is_none (scan_method_of n))) (nodes plan)

-- str | tuple | None: what `plan_join_tree` finds
pub data Shape : Type 0 where
  nothing : Shape
  alone : String → Shape
  pair : Shape → Shape → Shape

abbrev pub is_something : Shape → Bool
is_something nothing = false
is_something _ = true

abbrev pub single : List Shape → Shape
single (s ∷ []) = s
single _ = nothing

-- Python's `tree` where the node is no join of two children.
abbrev pub scan_shape : Option ScanMethod → Option String → List Shape → Shape
scan_shape (some _) (some relation) children = alone relation
scan_shape _ _ children = single (keep is_something children)

abbrev pub join_shape : Option JoinMethod → List Shape → Shape → Shape
join_shape (some _) (left ∷ right ∷ _) otherwise = pair left right
join_shape _ _ otherwise = otherwise

unfoldable mutual
  unfolding join_method_of scan_method_of

  pub plan_join_tree : Plan → Shape
  plan_join_tree (node fields plans) =
      let children = plan_join_trees plans in
      let this = node fields plans in
      join_shape (join_method_of this) children
        (scan_shape (scan_method_of this) (text_of (get "Alias" fields)) children)

  pub plan_join_trees : Plans → List Shape
  plan_join_trees no_plans = []
  plan_join_trees (more plan plans) = plan_join_tree plan ∷ plan_join_trees plans

unfoldable pub action_join_tree : JoinTree → Shape
action_join_tree (leaf relation) = alone relation
action_join_tree (branch left right) = pair (action_join_tree left) (action_join_tree right)

abbrev pub shape_beq : Shape → Shape → Bool
shape_beq nothing nothing = true
shape_beq (alone s) (alone t) = s == t
shape_beq (pair a b) (pair c d) = shape_beq a c && shape_beq b d
shape_beq _ _ = false

unfoldable pub memoized_inner : Plan → Bool
memoized_inner (node fields (more _ (more inner _))) = has_text "Node Type" "Memoize" inner
memoized_inner (node fields _) = false

-- bool(value)
abbrev pub truthy : Option Json → Bool
truthy none = false
truthy (some null) = false
truthy (some (bool b)) = b
truthy (some (number (int _ n))) = not (nat_beq n 0)
truthy (some (number (float _ n _))) = not (nat_beq n 0)
truthy (some (number _)) = true
truthy (some (str s)) = not (s == "")
truthy (some (arr nil)) = false
truthy (some (arr _)) = true
truthy (some (obj end)) = false
truthy (some (obj _)) = true

abbrev pub is_parallel : Plan → Bool
is_parallel plan = truthy (get "Parallel Aware" (entries plan))

-- An `int` that is not negative; Python's booleans are the integers 0 and 1.
abbrev pub count_of : Option Json → Option ℕ
count_of (some (number (int false n))) = some n
count_of (some (bool true)) = some 1
count_of (some (bool false)) = some 0
count_of _ = none

-- Whether a Gather over the relation plans this many workers.
abbrev pub plans_workers : String → ℕ → Plan → Bool
plans_workers relation workers plan =
    (has_text "Node Type" "Gather" plan || has_text "Node Type" "Gather Merge" plan)
    && elim (count_of (get "Workers Planned" (entries plan))) [
      | none ↦ false
      | some n ↦ nat_beq n workers
    ]
    && contains (relation_set plan) relation
