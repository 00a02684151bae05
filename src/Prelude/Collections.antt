-- ===== src/Prelude/Collections.antt =====
-- Python's lists and sets. A set is a list that only tests of membership read.
use Prim.Native.Nat.{ℕ, zero, suc, ◌+◌, ◌≤◌}
use mathlib.Core.Path.{◌≡◌, refl}
use mathlib.Core.Logic.{◌↔◌, ◌⊎◌, inl, inr}
use mathlib.Core.Bool.{Bool, true, false, not, ◌&&◌, ◌||◌}
use mathlib.Core.List.{List, [], ◌∷◌, ◌++◌}
use mathlib.Core.Option.{Option, none, some}
use native.Mathlib.Omega.{arith}
use qorl.Prelude.Tests.{Eq, ◌==◌, if◌then◌else◌, Bool-cases}

module _ {ℓ} {A : Type ℓ} where
  abbrev pub length : List A → ℕ
  length [] = 0
  length (x ∷ xs) = suc (length xs)

  abbrev pub get_elem? : List A → ℕ → Option A
  get_elem? [] i = none
  get_elem? (x ∷ xs) zero = some x
  get_elem? (x ∷ xs) (suc i) = get_elem? xs i

  -- not xs
  abbrev pub is_empty : List A → Bool
  is_empty [] = true
  is_empty (x ∷ xs) = false

  pub length-append : (xs ys : List A) → length (xs ++ ys) ≡ length xs + length ys
  length-append [] ys = omega arith
  length-append (x ∷ xs) ys = omega (arith, length-append xs ys)

  -- [x for x in xs if p(x)]
  abbrev pub keep : (A → Bool) → List A → List A
  keep p [] = []
  keep p (x ∷ xs) = let rest = keep p xs in if p x then x ∷ rest else rest

  pub length-keep_le : (p : A → Bool) (xs : List A) → length (keep p xs) ≤ length xs
  length-keep_le p [] = omega arith
  length-keep_le p (x ∷ xs) = ground (arith, length-keep_le p xs)

  -- any(p(x) for x in xs)
  abbrev pub some_of : (A → Bool) → List A → Bool
  some_of p [] = false
  some_of p (x ∷ xs) = p x || some_of p xs

  -- all(p(x) for x in xs)
  abbrev pub all_of : (A → Bool) → List A → Bool
  all_of p [] = true
  all_of p (x ∷ xs) = p x && all_of p xs

  -- next((x for x in xs if p(x)), None)
  abbrev pub first_of? : (A → Bool) → List A → Option A
  first_of? p [] = none
  first_of? p (x ∷ xs) = let rest = first_of? p xs in if p x then some x else rest

module _ {ℓ} {A : Type ℓ} ⦃e : Eq A⦄ where
  -- a in xs
  abbrev pub contains : List A → A → Bool
  contains [] a = false
  contains (x ∷ xs) a = x == a || contains xs a

  -- len(xs) == len(set(xs))
  abbrev pub is_distinct : List A → Bool
  is_distinct [] = true
  is_distinct (x ∷ xs) = not (contains xs x) && is_distinct xs

  -- set(xs) & set(ys)
  abbrev pub intersect : List A → List A → List A
  intersect xs ys = keep (contains ys) xs

  -- set(xs) - set(ys)
  abbrev pub without : List A → List A → List A
  without xs ys = keep (λ x. not (contains ys x)) xs

  -- set(xs) <= set(ys)
  abbrev pub is_subset : List A → List A → Bool
  is_subset xs ys = all_of (contains ys) xs

  -- set(xs) == set(ys)
  abbrev pub same_set : List A → List A → Bool
  same_set xs ys = is_subset xs ys && is_subset ys xs

  pub beq_self : (a : A) → (a == a) ≡ true
  beq_self a = (e.beq_iff a a).1 refl

  pub contains-cons :
      (x : A) (xs : List A) (a : A)
      → (contains (x ∷ xs) a ≡ true) ↔ ((x ≡ a) ⊎ (contains xs a ≡ true))
  contains-cons x xs a = ground (arith, e.beq_iff x a)

  pub contains-append :
      (xs ys : List A) (a : A) → contains (xs ++ ys) a ≡ (contains xs a || contains ys a)
  contains-append [] ys a = refl
  contains-append (x ∷ xs) ys a = ground (arith, contains-append xs ys a)

  pub contains-keep :
      (p : A → Bool) (xs : List A) (a : A) → contains (keep p xs) a ≡ (contains xs a && p a)
  contains-keep p [] a = refl
  contains-keep p (x ∷ xs) a = elim (Bool-cases (x == a)) [
    | inl same ↦ rw ((e.beq_iff x a).0 same) (ground (arith, contains-keep p xs a, beq_self a))
    | inr other ↦ ground (arith, contains-keep p xs a)
  ]

  subset_at :
      (xs ys : List A) (a : A)
      → is_subset xs ys ≡ true
      → contains xs a ≡ true
      → contains ys a ≡ true
  subset_at [] ys a h m = ground arith
  subset_at (x ∷ xs) ys a h m = elim (Bool-cases (x == a)) [
    | inl same ↦ rw (← (e.beq_iff x a).0 same) (ground arith)
    | inr other ↦ subset_at xs ys a (ground arith) (ground arith)
  ]

  subset_of :
      (xs ys : List A)
      → ((a : A) → contains xs a ≡ true → contains ys a ≡ true)
      → is_subset xs ys ≡ true
  subset_of [] ys h = refl
  subset_of (x ∷ xs) ys h =
      ground (arith, h x, beq_self x, subset_of xs ys (λ a m. h a (ground arith)))

  pub is_subset_iff :
      (xs ys : List A)
      → (is_subset xs ys ≡ true) ↔ ((a : A) → contains xs a ≡ true → contains ys a ≡ true)
  is_subset_iff xs ys = (λ h a. subset_at xs ys a h, subset_of xs ys)

  pub same_set_iff :
      (xs ys : List A) → (same_set xs ys ≡ true) ↔ ((a : A) → contains xs a ≡ contains ys a)
  same_set_iff xs ys = (
    λ h a. ground (arith, subset_at xs ys a, subset_at ys xs a),
    λ h. ground (
      arith,
      subset_of xs ys (λ a m. ground (arith, h a)),
      subset_of ys xs (λ a m. ground (arith, h a)),
    ),
  )
