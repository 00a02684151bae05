-- ===== src/Prelude/Names.antt =====
-- The order of names by code points: total, transitive and antisymmetric.
use Prim.Native.Char.{code}
use Prim.Native.String.{String}
use Prim.Native.Nat.{ℕ}
use mathlib.Core.Path.{◌≡◌, refl}
use mathlib.Core.Logic.{inl, inr, ◌≢◌}
use mathlib.Core.Bool.{true, false}
use mathlib.Core.List.{List, [], ◌∷◌}
use native.Mathlib.Omega.{arith}
use text.Mathlib.TextEquality.{Char-path}
use qorl.Prelude.Tests.{Bool-cases}
use qorl.Prelude.Sorting.{codes, codes_le, name_le}

codes_le_refl : (xs : List ℕ) → codes_le xs xs ≡ true
unfolding codes_le
codes_le_refl [] = refl
codes_le_refl (x ∷ xs) = ground (arith, codes_le_refl xs)

codes_le_antisym : (xs ys : List ℕ) → codes_le xs ys ≡ true → codes_le ys xs ≡ true → xs ≡ ys
unfolding codes_le
codes_le_antisym [] [] h k = refl
codes_le_antisym [] (y ∷ ys) h k = cc
codes_le_antisym (x ∷ xs) [] h k = cc
codes_le_antisym (x ∷ xs) (y ∷ ys) h k =
    let same : x ≡ y = ground arith in
    let later : xs ≡ ys = codes_le_antisym xs ys (ground arith) (ground arith) in cc

codes_le_trans :
    (xs ys zs : List ℕ) → codes_le xs ys ≡ true → codes_le ys zs ≡ true → codes_le xs zs ≡ true
unfolding codes_le
codes_le_trans [] ys zs h k = refl
codes_le_trans (x ∷ xs) [] zs h k = cc
codes_le_trans (x ∷ xs) (y ∷ ys) [] h k = cc
codes_le_trans (x ∷ xs) (y ∷ ys) (z ∷ zs) h k = ground (arith, codes_le_trans xs ys zs)

codes-injective : (s t : String) → codes s ≡ codes t → s ≡ t
codes-injective String.[] String.[] h = refl
codes-injective String.[] (String.◌∷◌ d t) h = cc
codes-injective (String.◌∷◌ c s) String.[] h = cc
codes-injective (String.◌∷◌ c s) (String.◌∷◌ d t) h =
    let first : code c ≡ code d = cc in
    let rest : codes s ≡ codes t = cc in
    let same = Char-path c d first in let later = codes-injective s t rest in cc

pub name_le_refl : (s : String) → name_le s s ≡ true
unfolding name_le
name_le_refl s = codes_le_refl (codes s)

pub name_le_trans : (s t u : String) → name_le s t ≡ true → name_le t u ≡ true → name_le s u ≡ true
unfolding name_le
name_le_trans s t u h k = codes_le_trans (codes s) (codes t) (codes u) h k

name_le_antisym : (s t : String) → name_le s t ≡ true → name_le t s ≡ true → s ≡ t
unfolding name_le
name_le_antisym s t h k = codes-injective s t (codes_le_antisym (codes s) (codes t) h k)

pub name_le_strict : (s t : String) → s ≢ t → name_le s t ≡ true → name_le t s ≡ false
name_le_strict s t other h = elim (Bool-cases (name_le t s)) [
  | inl back ↦ absurd (other (name_le_antisym s t h back))
  | inr no_back ↦ no_back
]
