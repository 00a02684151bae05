-- ===== src/Plans/Catalog/Ends.antt =====
-- The search of `require_relations`, of src/qorl/plans/catalog.py, ends on every catalog.
use qorl.Prelude.{
  ℕ, zero, suc, ◌≤◌, String, ◌≡◌, refl, sym, ap, ◌∙◌, ◌≢◌, inl, inr, Bool, true, false, not, List,
  [], ◌∷◌, ◌++◌, arith, ltb, leb, Bool-cases, Option-cases, nat_eq, string_eq, length,
  length-keep_le, contains, is_distinct, intersect, without, same_set, beq_self, contains-append,
  contains-keep, sorted, name_le, Result, ok, err, ◌>>=◌, ◌>>◌, raise_if, Dict, lookup,
}
use qorl.Plans.Errors.{
  Error, too_few_relations, duplicate_relations, unknown_relations, not_connected, out_of_fuel,
}
use qorl.Plans.Catalog.{TaskCatalog, explore, require_relations, min_join_relations, first}
use qorl.Plans.Catalog.Connected.{length-without_lt}
use qorl.Plans.Catalog.Targets.{contains-first}

abbrev runs_out : {A : Type 0} → Result Error A → Bool
runs_out (err out_of_fuel) = true
runs_out _ = false

runs_out-then :
    {A : Type 0} (b : Bool) (e : Error) (rest : Result Error A)
    → runs_out {A = A} (err e) ≡ false
    → (b ≡ false → runs_out rest ≡ false)
    → runs_out (raise_if b e >> rest) ≡ false
runs_out-then true e rest h later = h
runs_out-then false e rest h later = later refl

module _ (adjacency : Dict (List String)) (selected : List String) where
  inside-fresh :
      (near frontier visited : List String) (r v : String)
      → ((w : String) → contains (r ∷ frontier) w ≡ true → contains selected w ≡ true)
      → contains (without (intersect near selected) (r ∷ visited) ++ frontier) v ≡ true
      → contains selected v ≡ true
  inside-fresh near frontier visited r v inside m = ground (
    arith,
    contains-append (without (intersect near selected) (r ∷ visited)) frontier v,
    contains-keep (λ x. not (contains (r ∷ visited) x)) (intersect near selected) v,
    contains-keep (contains selected) near v,
    inside v,
  )

  -- With a unit of fuel for each relation still to be visited the search does not run out of it.
  explore-ends :
      (fuel : ℕ) (frontier visited : List String)
      → length (without selected visited) ≤ fuel
      → ((v : String) → contains frontier v ≡ true → contains selected v ≡ true)
      → runs_out (explore adjacency selected fuel frontier visited) ≡ false
  unfolding explore
  explore-ends fuel [] visited room inside = refl
  explore-ends zero (r ∷ frontier) visited room inside = elim (Bool-cases (contains visited r)) [
    | inl old ↦
        rw (old, explore) (explore-ends zero frontier visited room (λ v m. inside v (ground arith)))
    | inr new ↦ absurd (
        ground (arith, length-without_lt selected visited r, inside r (ground (arith, beq_self r))))
  ]
  explore-ends (suc fuel) (r ∷ frontier) visited room inside =
      elim (Bool-cases (contains visited r)) [
        | inl old ↦
            rw (old, explore)
              (explore-ends (suc fuel) frontier visited room (λ v m. inside v (ground arith)))
        | inr new ↦
            let member = inside r (ground (arith, beq_self r)) in
            elim (Option-cases (lookup r adjacency)) [
              | inl missing ↦ rw (new, missing, explore) refl
              | inr (near, found) ↦
                  rw (new, found, explore)
                    (explore-ends fuel (without (intersect near selected) (r ∷ visited) ++ frontier)
                      (r ∷ visited) (omega (arith, length-without_lt selected visited r member new))
                      (λ v m. inside-fresh near frontier visited r v inside m))
            ]
      ]

out_of_fuel-runs_out : {A : Type 0} (r : Result Error A) → runs_out r ≡ false → r ≢ err out_of_fuel
out_of_fuel-runs_out r h e = cc (sym h ∙ ap runs_out e)

searched-ends :
    (c : TaskCatalog) (values : List String)
    → min_join_relations ≤ length values
    → runs_out (explore c.adjacency values (length values) (first values ∷ []) []) ≡ false
searched-ends c values enough =
    explore-ends c.adjacency values (length values) (first values ∷ []) []
      (length-keep_le (λ x. not (contains [] x)) values)
      (λ v m. ground (arith, string_eq.beq_iff (first values) v, contains-first values enough))

then-ends :
    {A B : Type 0} (r : Result Error A) (next : A → Result Error B)
    → runs_out r ≡ false
    → ((a : A) → runs_out (next a) ≡ false)
    → runs_out (r >>= next) ≡ false
then-ends (ok a) next h later = later a
then-ends (err out_of_fuel) next h later = cc
then-ends (err e) next h later = h

at_least : (n k : ℕ) → ltb n k ≡ false → k ≤ n
at_least n k h = ground arith

-- The search that `require_relations` makes ends within its fuel, whatever the catalog and the
-- relations are.
pub require_relations-ends :
    (c : TaskCatalog) (values : List String) (label : String)
    → require_relations c values label ≢ err out_of_fuel
unfolding require_relations
require_relations-ends c values label =
    let few = ltb (length values) min_join_relations in
    let unknown = without values c.relations in
    out_of_fuel-runs_out (require_relations c values label) (
      runs_out-then few (too_few_relations label) _ refl (λ enough.
        runs_out-then (not (is_distinct values)) (duplicate_relations label) _ refl (λ _.
          runs_out-then (not (leb (length unknown) 0))
            (unknown_relations label (sorted name_le unknown)) _ refl
            (λ _.
              then-ends (explore c.adjacency values (length values) (first values ∷ []) []) _
                (searched-ends c values (at_least (length values) min_join_relations enough))
                (λ t.
                  runs_out-then (not (same_set t values)) (not_connected label)
                    (ok (sorted name_le values)) refl (λ _. refl))))))
