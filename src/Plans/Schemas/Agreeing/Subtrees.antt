-- ===== src/Plans/Schemas/Agreeing/Subtrees.antt =====
-- What `validate_action` of src/qorl/plans/schemas.py accepts as the joins beside a join order.
use qorl.Prelude.{
  ℕ, ◌+◌, String, ◌≡◌, refl, ◌↔◌, inl, inr, Bool, true, false, ◌||◌, Option, none, some, List, [],
  ◌∷◌, ◌++◌, arith, Bool-cases, nat_eq, string_eq, some_of, all_of, same_set, ok,
}
use qorl.Plans.Schemas.{JoinConstraint}
use qorl.Plans.Schemas.Leading.{JoinTree, leaf, node, leaves, leading_subtrees}
use qorl.Plans.Schemas.Action.{require_subtrees, require_targets}
use qorl.Plans.Schemas.Distinct.{err-ok}

-- Whether the relations are those beneath an internal node of the join order.
abbrev pub joins_just : List String → JoinTree → Bool
joins_just relations (leaf relation) = false
joins_just relations (node left right) =
    same_set relations (leaves left ++ leaves right)
    || (joins_just relations left || joins_just relations right)

abbrev pub are_subtrees : Option JoinTree → List JoinConstraint → Bool
are_subtrees none joins = true
are_subtrees (some tree) joins = all_of (λ j. joins_just j.relations tree) joins

some_of-append :
    (p : List String → Bool) (xs ys : List (List String))
    → some_of p (xs ++ ys) ≡ (some_of p xs || some_of p ys)
some_of-append p [] ys = refl
some_of-append p (x ∷ xs) ys = ground (arith, some_of-append p xs ys)

leading_subtrees-joins_just :
    (relations : List String) (tree : JoinTree)
    → some_of (same_set relations) (leading_subtrees tree) ≡ joins_just relations tree
unfolding leading_subtrees
leading_subtrees-joins_just relations (leaf relation) = refl
leading_subtrees-joins_just relations (node left right) =
    rw
      (
        some_of-append (same_set relations) (leading_subtrees left) (leading_subtrees right),
        leading_subtrees-joins_just relations left,
        leading_subtrees-joins_just relations right,
      )
      refl

require_subtrees-all_of :
    (tree : JoinTree) (i : ℕ) (joins : List JoinConstraint)
    → (require_subtrees (leading_subtrees tree) i joins ≡ ok tt)
      ↔ (all_of (λ j. joins_just j.relations tree) joins ≡ true)
unfolding require_subtrees
require_subtrees-all_of tree i [] = (λ _. refl, λ _. refl)
require_subtrees-all_of tree i (join ∷ joins) =
    let (to, from) = require_subtrees-all_of tree (i + 1) joins in
    let same = leading_subtrees-joins_just join.relations tree in
    elim (Bool-cases (joins_just join.relations tree)) [
      | inl found ↦ rw (same, found) (to, from)
      | inr missing ↦ rw (same, missing) (λ h. absurd (err-ok _ h), λ h. ground arith)
    ]

pub require_targets-are_subtrees :
    (tree : Option JoinTree) (joins : List JoinConstraint)
    → (require_targets tree joins ≡ ok tt) ↔ (are_subtrees tree joins ≡ true)
unfolding require_targets
require_targets-are_subtrees none joins = (λ _. refl, λ _. refl)
require_targets-are_subtrees (some tree) joins = require_subtrees-all_of tree 0 joins
