-- ===== src/Plans/Catalog/Connected.antt =====
-- The search of `require_relations` visits exactly the relations that walks inside the selection reach.
use qorl.Prelude.{
  ℕ, zero, suc, ◌≤◌, ◌<◌, ◌≡◌, ◌↔◌, refl, String, true, false, not, ◌&&◌, ◌||◌, List, [], ◌∷◌, ◌++◌,
  some, Dict, lookup, lookup_or, ok, string_eq, ◌==◌, inl, inr, arith, length, contains, intersect,
  without, contains-append, contains-keep, length-keep_le, beq_self, Bool-cases, Eq, sym,
}
use mathlib.Core.Path.{subst}
use qorl.Plans.Catalog.{explore}

-- adjacency[relation], read where the key is there
abbrev pub neighbours : Dict (List String) → String → List String
neighbours adjacency r = lookup_or r [] adjacency

-- The walks from `start` that stay inside `selected`.
pub data Walk (adjacency : Dict (List String)) (selected : List String) (start : String)
    : String → Type 0 where
  here : Walk adjacency selected start start
  step :
      {u v : String}
      → Walk adjacency selected start u
      → contains (neighbours adjacency u) v ≡ true
      → contains selected v ≡ true
      → Walk adjacency selected start v

module _ {ℓ} {A : Type ℓ} ⦃e : Eq A⦄ where
  length-without_le :
      (xs ys : List A) (a : A) → length (without xs (a ∷ ys)) ≤ length (without xs ys)
  length-without_le [] ys a = omega arith
  length-without_le (x ∷ xs) ys a = ground (arith, length-without_le xs ys a)

  -- One more visited entry is one entry fewer to visit.
  pub length-without_lt :
      (xs ys : List A) (a : A)
      → contains xs a ≡ true
      → contains ys a ≡ false
      → length (without xs (a ∷ ys)) < length (without xs ys)
  length-without_lt [] ys a m fresh = ground arith
  length-without_lt (x ∷ xs) ys a m fresh = ground (
    arith,
    length-without_le xs ys a,
    length-without_lt xs ys a,
    e.beq_iff x a,
    e.beq_iff a x,
    beq_self a,
  )

module _ (adjacency : Dict (List String)) (selected : List String) (start : String)
    (keyed : (r : String)
      → contains selected r ≡ true
      → (near : List String) × (lookup r adjacency ≡ some near)) where
  abbrev Reaches : String → Type 0
  Reaches = Walk adjacency selected start

  record Inv (frontier visited : List String) : Type 0 where
    inside : (v : String) → contains frontier v ≡ true → contains selected v ≡ true
    queued : (v : String) → contains frontier v ≡ true → Reaches v
    sound : (v : String) → contains visited v ≡ true → Reaches v
    closed :
        (u v : String)
        → contains visited u ≡ true
        → contains (neighbours adjacency u) v ≡ true
        → contains selected v ≡ true
        → (contains visited v || contains frontier v) ≡ true
    source : (contains visited start || contains frontier start) ≡ true

  Inv-skip :
      (r : String) (frontier visited : List String)
      → contains visited r ≡ true
      → Inv (r ∷ frontier) visited
      → Inv frontier visited
  Inv-skip r frontier visited old h = record {
    inside = λ v m. h.inside v (ground arith);
    queued = λ v m. h.queued v (ground arith);
    sound = h.sound;
    closed = λ u v m near inner. ground (arith, h.closed u v m near inner, string_eq.beq_iff r v);
    source = ground (arith, h.source, string_eq.beq_iff r start);
  }

  -- What the visit of `r` adds to the frontier.
  abbrev fresh : String → List String → List String
  fresh r visited = without (intersect (neighbours adjacency r) selected) (r ∷ visited)

  contains-fresh :
      (r : String) (visited frontier : List String) (v : String)
      → contains (fresh r visited ++ frontier) v ≡ (
          (contains (neighbours adjacency r) v && contains selected v)
            && not (contains (r ∷ visited) v)
          || contains frontier v)
  contains-fresh r visited frontier v = ground (
    arith,
    contains-append (fresh r visited) frontier v,
    contains-keep (λ x. not (contains (r ∷ visited) x))
        (intersect (neighbours adjacency r) selected) v,
    contains-keep (contains selected) (neighbours adjacency r) v,
  )

  Inv-visit :
      (r : String) (frontier visited : List String)
      → Inv (r ∷ frontier) visited
      → Inv (fresh r visited ++ frontier) (r ∷ visited)
  Inv-visit r frontier visited h = record {
    inside = λ v m. ground (arith, contains-fresh r visited frontier v, h.inside v);
    queued = λ v m. elim (Bool-cases (contains frontier v)) [
      | inl old ↦ h.queued v (ground arith)
      | inr new ↦
          step (h.queued r (ground (arith, beq_self r)))
            (ground (arith, contains-fresh r visited frontier v))
            (ground (arith, contains-fresh r visited frontier v))
    ];
    sound = λ v m. elim (Bool-cases (r == v)) [
      | inl same ↦
          subst Reaches ((string_eq.beq_iff r v).0 same) (h.queued r (ground (arith, beq_self r)))
      | inr other ↦ h.sound v (ground arith)
    ];
    closed = λ u v m near inner. elim (Bool-cases (r == u)) [
      | inl same ↦
          let near' =
            subst (λ w. contains (neighbours adjacency w) v ≡ true)
              (sym ((string_eq.beq_iff r u).0 same)) near in
          ground (arith, contains-fresh r visited frontier v)
      | inr other ↦
          ground
            (arith, contains-fresh r visited frontier v, h.closed u v (ground arith) near inner)
    ];
    source = ground (arith, contains-fresh r visited frontier start, h.source);
  }

  -- With a unit of fuel for each relation still to be visited the search ends.
  explore_ends :
      (fuel : ℕ) (frontier visited : List String)
      → length (without selected visited) ≤ fuel
      → Inv frontier visited
      → (t : List String) × (explore adjacency selected fuel frontier visited ≡ ok t) × Inv [] t
  unfolding explore
  explore_ends fuel [] visited room h = (visited, refl, h)
  explore_ends zero (r ∷ frontier) visited room h = elim (Bool-cases (contains visited r)) [
    | inl old ↦
        let (t, e, i) =
          explore_ends zero frontier visited room (Inv-skip r frontier visited old h) in
        (t, rw (old, explore) e, i)
    | inr new ↦ absurd (
        ground
          (arith, length-without_lt selected visited r, h.inside r (ground (arith, beq_self r))))
  ]
  explore_ends (suc fuel) (r ∷ frontier) visited room h = elim (Bool-cases (contains visited r)) [
    | inl old ↦
        let (t, e, i) =
          explore_ends (suc fuel) frontier visited room (Inv-skip r frontier visited old h) in
        (t, rw (old, explore) e, i)
    | inr new ↦
        let member = h.inside r (ground (arith, beq_self r)) in
        let (near, found) = keyed r member in
        let (t, e, i) =
          explore_ends fuel (fresh r visited ++ frontier) (r ∷ visited)
            (omega (arith, length-without_lt selected visited r member new))
            (Inv-visit r frontier visited h) in
        (t, ground arith, i)
  ]

  pub Walk-inside :
      contains selected start ≡ true → {v : String} → Reaches v → contains selected v ≡ true
  Walk-inside member here = member
  Walk-inside member (step w near inner) = inner

  complete : (t : List String) → Inv [] t → {v : String} → Reaches v → contains t v ≡ true
  complete t h here = ground (arith, h.source)
  complete t h (step {u} {v} w near inner) =
      ground (arith, h.closed u v (complete t h w) near inner)

  -- The search ends, and it has visited exactly the relations that some walk reaches.
  pub explore_visits :
      contains selected start ≡ true
      → (t : List String) × (explore adjacency selected (length selected) (start ∷ []) [] ≡ ok t)
        × ((v : String) → (contains t v ≡ true) ↔ Reaches v)
  explore_visits member =
      let (t, e, i) =
        explore_ends (length selected) (start ∷ []) []
          (length-keep_le (λ x. not (contains [] x)) selected)
          (record {
            inside = λ v m. ground (arith, string_eq.beq_iff start v);
            queued = λ v m. subst Reaches ((string_eq.beq_iff start v).0 (ground arith)) here;
            sound = λ v m. ground arith;
            closed = λ u v m near inner. ground arith;
            source = ground (arith, beq_self start);
          }) in
      (t, e, λ v. (i.sound v, complete t i))
