-- ===== src/Taskset/Selection/Disjoint.antt =====
-- What `validate_splits` accepts: selections whose splits have disjoint topologies.
use qorl.Prelude.{
  String, ◌≡◌, refl, sym, ap, ◌∙◌, ◌↔◌, Bool, true, false, not, ◌||◌, Option, none, some, List, [],
  ◌∷◌, arith, if◌then◌else◌, ◌==◌, nat_eq, string_eq, some_of, contains, ok, >>=-eq-ok, Dict,
  lookup,
}
use mathlib.Core.Path.{subst}
use qorl.Taskset.Schemas.{TaskRole, train, validation, test, role_eq, TaskSet, TaskSelection}
use qorl.Taskset.Selection.{TopologyOwner, is_foreign, claim_role, validate_splits}
use qorl.Taskset.Selection.Claims.{
  split_topologies, Claimed, or_role, is_foreign-owner_of, or-false, claim_role-Claimed,
  split_topologies-claim_role, some_of-cong, some_of-or,
}

abbrev pub disjoint : List String → List String → Bool
disjoint xs ys = not (some_of (contains xs) ys)

by_case :
    (b : Bool)
    → elim (or_role none (if b then some train else none)) [
      | none ↦ false
      | some r ↦ not (r == validation)
    ]
      ≡ b
by_case b = ground arith

by_cases :
    (a b : Bool)
    → elim (or_role
        (or_role none (if a then some train else none))
        (if b then some validation else none)) [ none ↦ false | some r ↦ not (r == test) ]
      ≡ (a || b)
by_cases a b = ground arith

unowned :
    (role : TaskRole) (owners owners' : Dict TopologyOwner) (hashes : List String)
    → Claimed role owners hashes owners'
    → some_of (λ h. is_foreign role (lookup h owners)) hashes ≡ false
unfolding Claimed
unowned role owners owners' hashes (free, _) = free

nobody : (xs : List String) → some_of (λ h. is_foreign train (lookup h [])) xs ≡ false
unfolding lookup
nobody [] = refl
nobody (x ∷ xs) = nobody xs

-- After the training split, what is foreign to validation is what training has.
train-foreign :
    (owners : Dict TopologyOwner) (hashes : List String)
    → Claimed train [] hashes owners
    → (k : String) → is_foreign validation (lookup k owners) ≡ contains hashes k
unfolding Claimed lookup
train-foreign owners hashes (_, owned) k =
    is_foreign-owner_of validation owners k
    ∙ ap (λ o. elim o [ none ↦ false | some r ↦ not (r == validation) ]) (owned k)
    ∙ by_case (contains hashes k)

-- After both, what is foreign to test is what either of them has.
validation-foreign :
    (owners owners' : Dict TopologyOwner) (xs ys : List String)
    → Claimed train [] xs owners
    → Claimed validation owners ys owners'
    → (k : String) → is_foreign test (lookup k owners') ≡ (contains xs k || contains ys k)
unfolding Claimed lookup
validation-foreign owners owners' xs ys (_, first) (_, second) k =
    is_foreign-owner_of test owners' k
    ∙ ap (λ o. elim o [ none ↦ false | some r ↦ not (r == test) ])
        (second k ∙ ap (λ o. or_role o (if contains ys k then some validation else none)) (first k))
    ∙ by_cases (contains xs k) (contains ys k)

claim_role-known :
    (task_sets : Dict TaskSet) (owners owners' : Dict TopologyOwner) (role : TaskRole)
    (selection : Option TaskSelection) (hashes : List String)
    → split_topologies task_sets selection ≡ ok hashes
    → claim_role task_sets owners role selection ≡ ok owners'
    → Claimed role owners hashes owners'
claim_role-known task_sets owners owners' role selection hashes listed h =
    let (found, listed', claimed) = claim_role-Claimed task_sets owners owners' role selection h in
    let same : found ≡ hashes = cc in subst (λ x. Claimed role owners x owners') same claimed

undisjoint : (b : Bool) → not b ≡ true → b ≡ false
undisjoint b h = ground arith

neither : (a b : Bool) → a ≡ false → b ≡ false → (a || b) ≡ false
neither a b h j = ground arith

validate_splits-ok :
    (selections : TaskRole → Option TaskSelection) (task_sets : Dict TaskSet)
    (owners owners' owners'' : Dict TopologyOwner)
    → claim_role task_sets [] train (selections train) ≡ ok owners
    → claim_role task_sets owners validation (selections validation) ≡ ok owners'
    → claim_role task_sets owners' test (selections test) ≡ ok owners''
    → validate_splits selections task_sets ≡ ok tt
unfolding validate_splits
validate_splits-ok selections task_sets owners owners' owners'' h₁ h₂ h₃ =
    rw (validate_splits, h₁) (rw h₂ (rw h₃ refl))

-- `validate_splits` accepts exactly the selections whose tasks and templates are in the catalogs and
-- whose training, validation and test queries have pairwise disjoint topologies.
pub validate_splits_iff :
    (selections : TaskRole → Option TaskSelection) (task_sets : Dict TaskSet)
    → (validate_splits selections task_sets ≡ ok tt) ↔ (
        (xs ys zs : List String) × (split_topologies task_sets (selections train) ≡ ok xs)
        × (split_topologies task_sets (selections validation) ≡ ok ys)
        × (split_topologies task_sets (selections test) ≡ ok zs)
        × (disjoint xs ys ≡ true)
        × (disjoint xs zs ≡ true)
        × (disjoint ys zs ≡ true))
unfolding validate_splits
validate_splits_iff selections task_sets = (
  λ h.
      let (owners, h₁, k₁) = >>=-eq-ok (claim_role task_sets [] train (selections train)) _ h in
      let (owners', h₂, k₂) =
        >>=-eq-ok (claim_role task_sets owners validation (selections validation)) _ k₁ in
      let (owners'', h₃, k₃) =
        >>=-eq-ok (claim_role task_sets owners' test (selections test)) _ k₂ in
      let (xs, trained, c₁) = claim_role-Claimed task_sets [] owners train (selections train) h₁ in
      let (ys, validated, c₂) =
        claim_role-Claimed task_sets owners owners' validation (selections validation) h₂ in
      let (zs, tested, c₃) =
        claim_role-Claimed task_sets owners' owners'' test (selections test) h₃ in
      let free₂ =
        sym (some_of-cong _ _ ys (train-foreign owners xs c₁))
        ∙ unowned validation owners owners' ys c₂ in
      let free₃ =
        sym (some_of-cong _ _ zs (validation-foreign owners owners' xs ys c₁ c₂))
        ∙ unowned test owners' owners'' zs c₃ in
      let (no_train, no_validation) =
        or-false (some_of (contains xs) zs) (some_of (contains ys) zs)
          (sym (some_of-or (contains xs) (contains ys) zs) ∙ free₃) in
      (
        xs,
        ys,
        zs,
        trained,
        validated,
        tested,
        rw free₂ refl,
        rw no_train refl,
        rw no_validation refl,
      ),
  λ (xs, ys, zs, trained, validated, tested, xy, xz, yz).
      let (owners, h₁) =
        split_topologies-claim_role task_sets [] train (selections train) xs trained (nobody xs) in
      let c₁ = claim_role-known task_sets [] owners train (selections train) xs trained h₁ in
      let free₂ = some_of-cong _ _ ys (train-foreign owners xs c₁) ∙ undisjoint _ xy in
      let (owners', h₂) =
        split_topologies-claim_role task_sets owners validation (selections validation) ys validated
          free₂ in
      let c₂ =
        claim_role-known task_sets owners owners' validation (selections validation) ys validated
          h₂ in
      let free₃ =
        some_of-cong _ _ zs (validation-foreign owners owners' xs ys c₁ c₂)
        ∙ some_of-or (contains xs) (contains ys) zs
        ∙ neither _ _ (undisjoint _ xz) (undisjoint _ yz) in
      let (owners'', h₃) =
        split_topologies-claim_role task_sets owners' test (selections test) zs tested free₃ in
      validate_splits-ok selections task_sets owners owners' owners'' h₁ h₂ h₃,
)
