-- ===== src/Plans/Schemas/Leading/Order.antt =====
-- What join orders `validate_leading` accepts.
use qorl.Prelude.{
  String, ◌≡◌, refl, sym, ap, ◌∙◌, ◌↔◌, inl, inr, true, false, Option, none, some, List, [], ◌∷◌,
  ◌++◌, arith, Bool-cases, ◌==◌, nat_eq, string_eq, contains, is_distinct, intersect, same_set,
  beq_self, contains-append, contains-keep, same_set_iff, Result, ok, err, or_raise, >>=-eq-ok,
  Dict, lookup, is_empty,
}
use mathlib.Core.Path.{subst}
use qorl.Json.{Json, null, bool, number, str, arr, obj, Fields, end, field}
use qorl.Plans.Errors.{Error, missing_key}
use qorl.Plans.Catalog.{TaskCatalog}
use qorl.Plans.Catalog.Connected.{neighbours}
use qorl.Plans.Catalog.Targets.{IsKeyed}
use qorl.Plans.Schemas.Leading.{
  JoinTree, leaf, node, leaves, any_joined, visit_node, visit, visit_side, validate_leading,
  join_tree, join_side, both, ◌<>◌,
}

-- Some join of the query has one end on each side.
pub record Joins (adjacency : Dict (List String)) (left right : List String) : Type 0 where
  pub from : String
  pub to : String
  pub from_left : contains left from ≡ true
  pub to_right : contains right to ≡ true
  pub edge : contains (neighbours adjacency from) to ≡ true

-- Every leaf is a relation of the query, and every internal node joins its two sides.
abbrev pub IsJoined : TaskCatalog → JoinTree → Type 0
IsJoined c (leaf r) = contains c.relations r ≡ true
IsJoined c (node l r) = IsJoined c l × IsJoined c r × Joins c.adjacency (leaves l) (leaves r)

some_contained :
    (near right : List String)
    → is_empty (intersect near right) ≡ false
    → (v : String) × (contains near v ≡ true) × (contains right v ≡ true)
some_contained [] right h = cc
some_contained (v ∷ near) right h = elim (Bool-cases (contains right v)) [
  | inl m ↦ (v, ground (arith, beq_self v), m)
  | inr other ↦ let (w, m, n) = some_contained near right (ground arith) in (w, ground arith, n)
]

not_disjoint :
    (near right : List String) (v : String)
    → contains near v ≡ true
    → contains right v ≡ true
    → is_empty (intersect near right) ≡ false
not_disjoint near right v m n = ground (arith, contains-keep (contains right) near v)

any_joined-Joins :
    (adjacency : Dict (List String)) (left right : List String)
    → any_joined adjacency left right ≡ ok true
    → Joins adjacency left right
unfolding any_joined
any_joined-Joins adjacency [] right h = cc
any_joined-Joins adjacency (u ∷ left) right h =
    let (near, found, h₁) = >>=-eq-ok (or_raise (lookup u adjacency) (missing_key u)) _ h in
    let here : lookup u adjacency ≡ some near = ground arith in
    elim (Bool-cases (is_empty (intersect near right))) [
      | inl none_here ↦
          let j = any_joined-Joins adjacency left right (ground arith) in
          record {
            from = j.from;
            to = j.to;
            from_left = ground (arith, j.from_left);
            to_right = j.to_right;
            edge = j.edge;
          }
      | inr some_here ↦
          let (v, m, n) = some_contained near right some_here in
          record {
            from = u;
            to = v;
            from_left = ground (arith, beq_self u);
            to_right = n;
            edge = ground arith;
          }
    ]

Joins-any_joined :
    (adjacency : Dict (List String)) (left right : List String)
    → ((r : String)
        → contains left r ≡ true
        → (near : List String) × (lookup r adjacency ≡ some near))
    → Joins adjacency left right
    → any_joined adjacency left right ≡ ok true
unfolding any_joined
Joins-any_joined adjacency [] right keyed j = ground (arith, j.from_left)
Joins-any_joined adjacency (u ∷ left) right keyed j =
    let (near, here) = keyed u (ground (arith, beq_self u)) in
    elim (Bool-cases (is_empty (intersect near right))) [
      | inl none_here ↦ elim (Bool-cases (u == j.from)) [
        | inl same ↦
            let edge : contains near j.to ≡ true =
              ground (arith, j.edge, (string_eq.beq_iff u j.from).0 same) in
            cc (not_disjoint near right j.to edge j.to_right, none_here)
        | inr other ↦
            let later =
              Joins-any_joined adjacency left right (λ r m. keyed r (ground arith))
                (record {
                  from = j.from;
                  to = j.to;
                  from_left = ground arith;
                  to_right = j.to_right;
                  edge = j.edge;
                }) in
            ground arith
      ]
      | inr some_here ↦ ground arith
    ]

visit_node-ok :
    (c : TaskCatalog) (path : String) (a b : Option (Result Error (List String))) (ls : List String)
    → visit_node c path a b ≡ ok ls
    → (l r : List String) × (a ≡ some (ok l))
      × (b ≡ some (ok r))
      × (l ++ r ≡ ls)
      × Joins c.adjacency l r
unfolding visit_node
visit_node-ok c path none b ls h = cc
visit_node-ok c path (some a) none ls h = cc
visit_node-ok c path (some (err e)) (some b) ls h = cc
visit_node-ok c path (some (ok l)) (some (err e)) ls h = cc
visit_node-ok c path (some (ok l)) (some (ok r)) ls h =
    let (joined, e, h₁) = >>=-eq-ok (any_joined c.adjacency l r) _ h in
    let yes_joined : joined ≡ true = ground arith in
    (l, r, refl, refl, ground arith, any_joined-Joins c.adjacency l r (e ∙ ap ok yes_joined))

mutual
  unfolding visit join_tree

  visit-ok :
      (c : TaskCatalog) (value : Json) (path : String) (ls : List String)
      → visit c value path ≡ ok ls
      → (t : JoinTree) × (join_tree value ≡ some t) × (leaves t ≡ ls) × IsJoined c t
  visit-ok c (str s) path ls h = (leaf s, refl, ground arith, ground arith)
  visit-ok c (obj fields) path ls h =
      let (l, r, at_left, at_right, sum, joins) =
        visit_node-ok c path (visit_side c fields "left" (path <> ".left"))
          (visit_side c fields "right" (path <> ".right")) ls (ground arith) in
      let (t, e, tl, tj) = visit_side-ok c fields "left" (path <> ".left") l at_left in
      let (u, f, ul, uj) = visit_side-ok c fields "right" (path <> ".right") r at_right in
      (node t u, ground arith, cc, (tj, uj, rw (tl, ul) joins))
  visit-ok c null path ls h = cc
  visit-ok c (bool b) path ls h = cc
  visit-ok c (number n) path ls h = cc
  visit-ok c (arr items) path ls h = cc

  visit_side-ok :
      (c : TaskCatalog) (fields : Fields) (side path : String) (ls : List String)
      → visit_side c fields side path ≡ some (ok ls)
      → (t : JoinTree) × (join_side fields side ≡ some t) × (leaves t ≡ ls) × IsJoined c t
  visit_side-ok c end side path ls h = cc
  visit_side-ok c (field k v fields) side path ls h = elim (Bool-cases (k == side)) [
    | inl here ↦ let (t, e, l, j) = visit-ok c v path ls (ground arith) in (t, ground arith, l, j)
    | inr other ↦
        let (t, e, l, j) = visit_side-ok c fields side path ls (ground arith) in
        (t, ground arith, l, j)
  ]

-- What the visit of a side is, for a side that reads as `t`.
visit_node-Joins :
    (c : TaskCatalog) (path : String) (l r : List String)
    → IsKeyed c
    → ((x : String) → contains l x ≡ true → contains c.relations x ≡ true)
    → Joins c.adjacency l r
    → visit_node c path (some (ok l)) (some (ok r)) ≡ ok (l ++ r)
unfolding visit_node
visit_node-Joins c path l r keyed known joins =
    ground (arith, Joins-any_joined c.adjacency l r (λ x m. keyed x (known x m)) joins)

IsJoined-known :
    (c : TaskCatalog) (t : JoinTree)
    → IsJoined c t
    → (x : String) → contains (leaves t) x ≡ true
    → contains c.relations x ≡ true
IsJoined-known c (leaf r) j x m = ground (arith, string_eq.beq_iff r x)
IsJoined-known c (node l r) j x m = ground (
  arith,
  contains-append (leaves l) (leaves r) x,
  IsJoined-known c l j.0 x,
  IsJoined-known c r j.1 x,
)

both-eq-some :
    (a b : Option JoinTree) (t : JoinTree)
    → both a b ≡ some t
    → (l r : JoinTree) × (a ≡ some l) × (b ≡ some r) × (t ≡ node l r)
both-eq-some none b t h = cc
both-eq-some (some l) none t h = cc
both-eq-some (some l) (some r) t h = (l, r, refl, refl, cc)

module _ (c : TaskCatalog) (keyed : IsKeyed c) where
  mutual
    unfolding visit join_tree

    join_tree-visit :
        (value : Json) (path : String) (t : JoinTree)
        → join_tree value ≡ some t
        → IsJoined c t
        → visit c value path ≡ ok (leaves t)
    join_tree-visit (str s) path t h j =
        let same : leaf s ≡ t = cc in rw (← same) (ground (arith, subst (IsJoined c) (sym same) j))
    join_tree-visit (obj fields) path t h j =
        let (l, r, a, b, e) =
          both-eq-some (join_side fields "left") (join_side fields "right") t (ground arith) in
        let (jl, jr, joins) = subst (IsJoined c) e j in
        let at_left = join_side-visit fields "left" (path <> ".left") l a jl in
        let at_right = join_side-visit fields "right" (path <> ".right") r b jr in
        rw e (
          ground (
            arith,
            at_left,
            at_right,
            visit_node-Joins c path (leaves l) (leaves r) keyed (IsJoined-known c l jl) joins,
          ))
    join_tree-visit null path t h j = cc
    join_tree-visit (bool b) path t h j = cc
    join_tree-visit (number n) path t h j = cc
    join_tree-visit (arr items) path t h j = cc

    join_side-visit :
        (fields : Fields) (side path : String) (t : JoinTree)
        → join_side fields side ≡ some t
        → IsJoined c t
        → visit_side c fields side path ≡ some (ok (leaves t))
    join_side-visit end side path t h j = cc
    join_side-visit (field k v fields) side path t h j = elim (Bool-cases (k == side)) [
      | inl here ↦ ground (arith, join_tree-visit v path t (ground arith) j)
      | inr other ↦ ground (arith, join_side-visit fields side path t (ground arith) j)
    ]

-- A whole join order: every relation of the query is a leaf, once, and every join has a condition.
pub record IsOrder (c : TaskCatalog) (t : JoinTree) : Type 0 where
  pub once : is_distinct (leaves t) ≡ true
  pub every : (r : String) → contains (leaves t) r ≡ contains c.relations r
  pub joined : IsJoined c t

module _ (c : TaskCatalog) (fields : Fields) (result : Json) where
  validate_leading-IsOrder :
      validate_leading c (obj fields) ≡ ok result
      → (t : JoinTree) × (join_tree (obj fields) ≡ some t) × IsOrder c t × (result ≡ obj fields)
  unfolding validate_leading
  validate_leading-IsOrder h =
      let (ls, visited, h₁) = >>=-eq-ok (visit c (obj fields) "leading") _ h in
      let (t, e, same, j) = visit-ok c (obj fields) "leading" ls visited in
      let once : is_distinct ls ≡ true = ground arith in
      let every : same_set ls c.relations ≡ true = ground arith in
      (
        t,
        e,
        record {
          once = rw same once;
          every = rw same ((same_set_iff ls c.relations).0 every);
          joined = j;
        },
        ground arith,
      )

  IsOrder-validate_leading :
      IsKeyed c
      → (t : JoinTree) × (join_tree (obj fields) ≡ some t) × IsOrder c t × (result ≡ obj fields)
      → validate_leading c (obj fields) ≡ ok result
  unfolding validate_leading
  IsOrder-validate_leading keyed (t, e, order, made) =
      let visited = join_tree-visit c keyed (obj fields) "leading" t e order.joined in
      let every = (same_set_iff (leaves t) c.relations).1 order.every in ground (arith, order.once)

-- An object is accepted as the join order, and returned as it is, exactly if it reads as a binary
-- tree whose leaves are the relations of the query, each once, and whose every internal node has a
-- join of the query between its two sides.
pub validate_leading_iff :
    (c : TaskCatalog) (fields : Fields) (result : Json)
    → IsKeyed c
    → (validate_leading c (obj fields) ≡ ok result)
      ↔ ((t : JoinTree) × (join_tree (obj fields) ≡ some t) × IsOrder c t × (result ≡ obj fields))
validate_leading_iff c fields result keyed =
    (validate_leading-IsOrder c fields result, IsOrder-validate_leading c fields result keyed)
