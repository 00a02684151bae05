-- ===== src/Prelude/Sorting.antt =====
-- Python's `sorted(xs, key=…)`: a stable sort by a test `le` on the keys.
use Prim.Native.Char.{code}
use Prim.Native.String.{String}
use Prim.Native.Nat.{ℕ}
use mathlib.Core.Path.{◌≡◌, refl}
use mathlib.Core.Logic.{inl, inr}
use mathlib.Core.Bool.{Bool, true, false, ◌&&◌, ◌||◌}
use mathlib.Core.List.{List, [], ◌∷◌, Perm}
use mathlib.Core.List.Perm
use native.Mathlib.Omega.{arith}
use qorl.Prelude.Tests.{Eq, ◌==◌, string_eq, if◌then◌else◌, Bool-cases, ltb, nat_beq}
use qorl.Prelude.Collections.{contains, is_distinct, is_subset, is_empty, without, some_of, length}

module _ {ℓ} {A : Type ℓ} (le : A → A → Bool) where
  pub insert : A → List A → List A
  insert x [] = x ∷ []
  insert x (y ∷ ys) = let rest = insert x ys in if le x y then x ∷ y ∷ ys else y ∷ rest

  unfoldable pub sorted : List A → List A
  unfolding insert
  sorted [] = []
  sorted (x ∷ xs) = insert x (sorted xs)

  -- Each entry is at most its successor.
  abbrev pub is_sorted : List A → Bool
  is_sorted [] = true
  is_sorted (x ∷ []) = true
  is_sorted (x ∷ y ∷ ys) = le x y && is_sorted (y ∷ ys)

  insert-perm : (x : A) (xs : List A) → Perm (insert x xs) (x ∷ xs)
  unfolding insert
  insert-perm x [] = Perm.refl (x ∷ [])
  insert-perm x (y ∷ ys) = elim (Bool-cases (le x y)) [
    | inl low ↦ rw low (Perm.refl (x ∷ y ∷ ys))
    | inr high ↦ rw high (Perm.trans (Perm.cons y (insert-perm x ys)) (Perm.swap x y ys))
  ]

  pub sorted-perm : (xs : List A) → Perm (sorted xs) xs
  unfolding sorted
  sorted-perm [] = Perm.refl []
  sorted-perm (x ∷ xs) = Perm.trans (insert-perm x (sorted xs)) (Perm.cons x (sorted-perm xs))

  length-insert : (x : A) (xs : List A) → length (insert x xs) ≡ length (x ∷ xs)
  unfolding insert
  length-insert x [] = refl
  length-insert x (y ∷ ys) = ground (arith, length-insert x ys)

  pub length-sorted : (xs : List A) → length (sorted xs) ≡ length xs
  unfolding sorted
  length-sorted [] = refl
  length-sorted (x ∷ xs) = ground (arith, length-insert x (sorted xs), length-sorted xs)

  is_empty-insert : (x : A) (xs : List A) → is_empty (insert x xs) ≡ false
  unfolding insert
  is_empty-insert x [] = refl
  is_empty-insert x (y ∷ ys) = ground arith

  pub is_empty-sorted : (xs : List A) → is_empty (sorted xs) ≡ is_empty xs
  unfolding sorted
  is_empty-sorted [] = refl
  is_empty-sorted (x ∷ xs) = is_empty-insert x (sorted xs)

  some_of-insert :
      (p : A → Bool) (x : A) (xs : List A) → some_of p (insert x xs) ≡ (p x || some_of p xs)
  unfolding insert
  some_of-insert p x [] = refl
  some_of-insert p x (y ∷ ys) = ground (arith, some_of-insert p x ys)

  -- Sorting changes no test that asks whether some entry passes.
  pub some_of-sorted : (p : A → Bool) (xs : List A) → some_of p (sorted xs) ≡ some_of p xs
  unfolding sorted
  some_of-sorted p [] = refl
  some_of-sorted p (x ∷ xs) = ground (arith, some_of-insert p x (sorted xs), some_of-sorted p xs)

  module _ (total : (x y : A) → le x y ≡ false → le y x ≡ true) where
    insert_below :
        (x y : A) (ys : List A)
        → le y x ≡ true
        → is_sorted (y ∷ ys) ≡ true
        → is_sorted (y ∷ insert x ys) ≡ true
    unfolding insert
    insert_below x y [] h s = ground arith
    insert_below x y (z ∷ zs) h s = ground (arith, total x z, insert_below x z zs)

    insert-is_sorted : (x : A) (xs : List A) → is_sorted xs ≡ true → is_sorted (insert x xs) ≡ true
    unfolding insert
    insert-is_sorted x [] s = refl
    insert-is_sorted x (y ∷ ys) s = ground (arith, total x y, insert_below x y ys)

    pub sorted-is_sorted : (xs : List A) → is_sorted (sorted xs) ≡ true
    unfolding sorted
    sorted-is_sorted [] = refl
    sorted-is_sorted (x ∷ xs) = insert-is_sorted x (sorted xs) (sorted-is_sorted xs)

  pub sorted_of_is_sorted : (xs : List A) → is_sorted xs ≡ true → sorted xs ≡ xs
  unfolding sorted
  sorted_of_is_sorted [] s = refl
  sorted_of_is_sorted (x ∷ []) s = refl
  sorted_of_is_sorted (x ∷ y ∷ ys) s = ground (arith, sorted_of_is_sorted (y ∷ ys))

  pub sorted_twice :
      ((x y : A) → le x y ≡ false → le y x ≡ true) → (xs : List A) → sorted (sorted xs) ≡ sorted xs
  sorted_twice total xs = sorted_of_is_sorted (sorted xs) (sorted-is_sorted total xs)

-- Names are compared by code points, and tuples of names from the left.
abbrev pub codes : String → List ℕ
codes String.[] = []
codes (String.◌∷◌ c s) = code c ∷ codes s

unfoldable pub codes_le : List ℕ → List ℕ → Bool
codes_le [] ys = true
codes_le (x ∷ xs) [] = false
codes_le (x ∷ xs) (y ∷ ys) = ltb x y || (nat_beq x y && codes_le xs ys)

unfoldable pub name_le : String → String → Bool
unfolding codes_le
name_le s t = codes_le (codes s) (codes t)

unfoldable pub names_le : List String → List String → Bool
unfolding name_le
names_le [] ys = true
names_le (x ∷ xs) [] = false
names_le (x ∷ xs) (y ∷ ys) = if x == y then names_le xs ys else name_le x y

codes_le_total : (xs ys : List ℕ) → codes_le xs ys ≡ false → codes_le ys xs ≡ true
unfolding codes_le
codes_le_total [] ys h = ground arith
codes_le_total (x ∷ xs) [] h = refl
codes_le_total (x ∷ xs) (y ∷ ys) h = ground (arith, codes_le_total xs ys)

pub name_le_total : (s t : String) → name_le s t ≡ false → name_le t s ≡ true
unfolding name_le
name_le_total s t h = codes_le_total (codes s) (codes t) h

pub names_le_total : (ss ts : List String) → names_le ss ts ≡ false → names_le ts ss ≡ true
unfolding names_le
names_le_total [] ts h = ground arith
names_le_total (s ∷ ss) [] h = refl
names_le_total (s ∷ ss) (t ∷ ts) h =
    ground
      (arith, string_eq.beq_iff s t, string_eq.beq_iff t s, names_le_total ss ts, name_le_total s t)

module _ {ℓ} {A : Type ℓ} ⦃e : Eq A⦄ (le : A → A → Bool) where
  contains-insert :
      (x : A) (xs : List A) (a : A) → contains (insert le x xs) a ≡ contains (x ∷ xs) a
  unfolding insert
  contains-insert x [] a = refl
  contains-insert x (y ∷ ys) a = ground (arith, contains-insert x ys a)

  pub contains-sorted : (xs : List A) (a : A) → contains (sorted le xs) a ≡ contains xs a
  unfolding sorted
  contains-sorted [] a = refl
  contains-sorted (x ∷ xs) a =
      ground (arith, contains-insert x (sorted le xs) a, contains-sorted xs a)

  is_distinct-insert : (x : A) (xs : List A) → is_distinct (insert le x xs) ≡ is_distinct (x ∷ xs)
  unfolding insert
  is_distinct-insert x [] = refl
  is_distinct-insert x (y ∷ ys) =
      ground (arith, is_distinct-insert x ys, contains-insert x ys y, e.beq_iff x y, e.beq_iff y x)

  pub is_distinct-sorted : (xs : List A) → is_distinct (sorted le xs) ≡ is_distinct xs
  unfolding sorted
  is_distinct-sorted [] = refl
  is_distinct-sorted (x ∷ xs) =
      ground
        (arith, is_distinct-insert x (sorted le xs), contains-sorted xs x, is_distinct-sorted xs)

  pub is_subset-sorted : (xs ys : List A) → is_subset xs (sorted le ys) ≡ is_subset xs ys
  is_subset-sorted [] ys = refl
  is_subset-sorted (x ∷ xs) ys = ground (arith, contains-sorted ys x, is_subset-sorted xs ys)

  is_subset-insert :
      (x : A) (xs ys : List A) → is_subset (insert le x xs) ys ≡ is_subset (x ∷ xs) ys
  unfolding insert
  is_subset-insert x [] ys = refl
  is_subset-insert x (y ∷ xs) ys = ground (arith, is_subset-insert x xs ys)

  pub sorted-is_subset : (xs ys : List A) → is_subset (sorted le xs) ys ≡ is_subset xs ys
  unfolding sorted
  sorted-is_subset [] ys = refl
  sorted-is_subset (x ∷ xs) ys =
      ground (arith, is_subset-insert x (sorted le xs) ys, sorted-is_subset xs ys)

  pub without-sorted : (xs ys : List A) → without xs (sorted le ys) ≡ without xs ys
  without-sorted [] ys = refl
  without-sorted (x ∷ xs) ys = ground (arith, contains-sorted ys x, without-sorted xs ys)
