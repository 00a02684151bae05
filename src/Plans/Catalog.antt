-- ===== src/Plans/Catalog.antt =====
-- src/qorl/plans/catalog.py: the join graph and the indexes that a query's plan actions may name.
-- A set is a list, in whatever order Python iterates over it; the laws hold for every order.
pub mod Connected
pub mod Targets
pub mod Ends
pub mod Undirected
pub mod Building
use Prim.Native.Char.{code}
use qorl.Prelude.{
  ℕ, zero, suc, String, Bool, true, false, not, ◌&&◌, ◌||◌, List, [], ◌∷◌, ◌++◌, map, Option, none,
  some, Dict, lookup, lookup_or, assign, Result, ok, err, ◌>>=◌, ◌>>◌, raise_if, or_raise, ◌==◌,
  string_eq, nat_eq, if◌then◌else◌, leb, ltb, length, contains, is_distinct, intersect, without,
  same_set, some_of, sorted, name_le, codes,
}
use qorl.Plans.Errors.{
  Error, not_a_relation, too_few_relations, duplicate_relations, not_connected, unknown_relations,
  invalid_index_name, duplicate_indexes, unknown_indexes, missing_key, malformed_edge, out_of_fuel,
}

pub record TaskCatalog : Type 0 where
  pub relations : List String
  pub adjacency : Dict (List String)
  pub indexes : Dict (List String)

-- A relation of the task: the table that the query reads, and its alias.
pub record Relation : Type 0 where
  pub alias : String
  pub table : String

abbrev pub min_join_relations : ℕ
min_join_relations = 2

-- s.split(sep, 1): the text before the first `sep`, and what follows it
pub split_once : ℕ → String → String × Option String
split_once sep String.[] = (String.[], none)
split_once sep (String.◌∷◌ c s) =
    let (before, after) = split_once sep s in
    if code c == sep then (String.[], some s) else (String.◌∷◌ c before, after)

-- adjacency[left].add(right)
pub add_edge : String → String → Dict (List String) → Result Error (Dict (List String))
add_edge left right adjacency = do
  known ← or_raise (lookup left adjacency) (missing_key left)
  ok (assign left (if contains known right then known else right ∷ known) adjacency)

pub add_join_edge : Dict (List String) → String → Result Error (Dict (List String))
unfolding split_once add_edge
add_join_edge adjacency edge = do
  right ← or_raise (split_once b'=' edge).1 (malformed_edge edge)
  let left_alias = (split_once b':' (split_once b'=' edge).0).0
  let right_alias = (split_once b':' right).0
  adjacency' ← add_edge left_alias right_alias adjacency
  add_edge right_alias left_alias adjacency'

pub add_join_edges : Dict (List String) → List String → Result Error (Dict (List String))
unfolding add_join_edge
add_join_edges adjacency [] = ok adjacency
add_join_edges adjacency (edge ∷ edges) = do
  adjacency' ← add_join_edge adjacency edge
  add_join_edges adjacency' edges

-- `relations` is a set, so that an alias is entered once
pub no_edges : List String → Dict (List String)
no_edges [] = []
no_edges (relation ∷ relations) = assign relation [] (no_edges relations)

unfoldable pub from_task :
    List Relation → List String → Dict (List String) → Result Error TaskCatalog
unfolding add_join_edges no_edges
from_task relations join_edges indexes = do
  let aliases = map (λ r. r.alias) relations
  adjacency ← add_join_edges (no_edges aliases) join_edges
  ok (record { relations = aliases; adjacency = adjacency; indexes = indexes })

-- {relation.alias: by_table.get(relation.table, frozenset()) for relation in task.relations}
pub indexes_by_alias : Dict (List String) → List Relation → Dict (List String) → Dict (List String)
indexes_by_alias entered [] by_table = entered
indexes_by_alias entered (r ∷ rs) by_table =
    indexes_by_alias (assign r.alias (lookup_or r.table [] by_table) entered) rs by_table

unfoldable pub from_postgres :
    List Relation → List String → Dict (List String) → Result Error TaskCatalog
unfolding from_task indexes_by_alias
from_postgres relations join_edges by_table =
    from_task relations join_edges (indexes_by_alias [] relations by_table)

unfoldable pub require_relation : TaskCatalog → String → String → Result Error String
require_relation c value label = do
  raise_if (not (contains c.relations value)) (not_a_relation label)
  ok value

-- The `while frontier` loop of `require_relations`: `frontier` holds its last entry first. `fuel`
-- bounds the number of relations that are still to be visited.
unfoldable pub explore :
    Dict (List String) → List String → ℕ → List String → List String → Result Error (List String)
explore adjacency selected fuel [] visited = ok visited
explore adjacency selected zero (relation ∷ frontier) visited = elim (contains visited relation) [
  | true ↦ explore adjacency selected zero frontier visited
  | false ↦ err out_of_fuel
]
explore adjacency selected (suc fuel) (relation ∷ frontier) visited =
    elim (contains visited relation) [
      | true ↦ explore adjacency selected (suc fuel) frontier visited
      | false ↦ or_raise (lookup relation adjacency) (missing_key relation) >>= λ near.
          explore adjacency selected fuel
            (without (intersect near selected) (relation ∷ visited) ++ frontier)
            (relation ∷ visited)
    ]

abbrev pub first : List String → String
first [] = ""
first (x ∷ xs) = x

unfoldable pub require_relations : TaskCatalog → List String → String → Result Error (List String)
unfolding explore
require_relations c values label = do
  raise_if (ltb (length values) min_join_relations) (too_few_relations label)
  raise_if (not (is_distinct values)) (duplicate_relations label)
  let unknown = without values c.relations
  raise_if (not (leb (length unknown) 0)) (unknown_relations label (sorted name_le unknown))
  visited ← explore c.adjacency values (length values) (first values ∷ []) []
  raise_if (not (same_set visited values)) (not_connected label)
  ok (sorted name_le values)

-- ^[a-z_][a-z0-9_]*$, matched against the whole text
abbrev is_lower : ℕ → Bool
is_lower c = (leb b'a' c && leb c b'z') || c == b'_'

abbrev is_word : ℕ → Bool
is_word c = is_lower c || (leb b'0' c && leb c b'9')

pub all_word : List ℕ → Bool
all_word [] = true
all_word (c ∷ cs) = is_word c && all_word cs

unfoldable pub is_identifier : List ℕ → Bool
unfolding all_word
is_identifier [] = false
is_identifier (c ∷ cs) = is_lower c && all_word cs

-- self.indexes.get(relation, frozenset())
pub indexes_of : TaskCatalog → String → List String
indexes_of c relation = lookup_or relation [] c.indexes

unfoldable pub require_indexes :
    TaskCatalog → List String → String → String → Result Error (List String)
unfolding is_identifier indexes_of
require_indexes c indexes relation label = do
  raise_if (some_of (λ i. not (is_identifier (codes i))) indexes) (invalid_index_name label)
  raise_if (not (is_distinct indexes)) (duplicate_indexes label)
  let unknown = without indexes (indexes_of c relation)
  raise_if (not (leb (length unknown) 0)) (unknown_indexes label (sorted name_le unknown))
  ok (sorted name_le indexes)
