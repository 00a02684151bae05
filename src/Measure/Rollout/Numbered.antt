-- ===== src/Measure/Rollout/Numbered.antt =====
-- The identifiers of the attempts, which src/qorl/measure/validation.py numbers from 1 on.
use qorl.Prelude.{
  ℕ, zero, suc, ◌<◌, String, ◌≡◌, refl, sym, ap, ◌∙◌, inl, inr, true, false, List, [], ◌∷◌, ◌++◌,
  arith, Bool-cases, ◌==◌, nat_eq, string_eq, contains, is_distinct, contains-append, two_digits,
  two_digits-inj, join-inj,
}
use qorl.Plans.Schemas.Leading.{◌<>◌}

-- The identifier of the `n`-th attempt.
abbrev pub name : ℕ → String
name n = "candidate-" <> two_digits n

-- Those of the first `n` attempts.
unfoldable pub names : ℕ → List String
names zero = []
names (suc n) = names n ++ name (suc n) ∷ []

name-inj : (m n : ℕ) → name m ≡ name n → m ≡ n
name-inj m n h = two_digits-inj m n (join-inj "candidate-" (two_digits m) (two_digits n) h)

names_differ : (m n : ℕ) → m < n → (name m == name n) ≡ false
names_differ m n h = elim (Bool-cases (name m == name n)) [
  | inr other ↦ other
  | inl same ↦ ground (arith, name-inj m n ((string_eq.beq_iff (name m) (name n)).0 same))
]

contains-names : (n k : ℕ) → n < k → contains (names n) (name k) ≡ false
unfolding names
contains-names zero k h = refl
contains-names (suc n) k h =
    contains-append (names n) (name (suc n) ∷ []) (name k)
    ∙ ground (arith, contains-names n k (omega (arith, h)), names_differ (suc n) k h)

other_way : (x y : String) → (x == y) ≡ false → (y == x) ≡ false
other_way x y h = elim (Bool-cases (y == x)) [
  | inr other ↦ other
  | inl same ↦
      let e : y ≡ x = (string_eq.beq_iff y x).0 same in
      ap (λ z. z == x) e ∙ (ap (λ z. x == z) (sym e) ∙ h)
]

is_distinct-append_one :
    (xs : List String) (x : String)
    → is_distinct xs ≡ true
    → contains xs x ≡ false
    → is_distinct (xs ++ x ∷ []) ≡ true
is_distinct-append_one [] x h k = refl
is_distinct-append_one (y ∷ xs) x h k =
    ground (arith, contains-append xs (x ∷ []) y, is_distinct-append_one xs x, other_way y x)

pub is_distinct-names : (n : ℕ) → is_distinct (names n) ≡ true
unfolding names
is_distinct-names zero = refl
is_distinct-names (suc n) =
    is_distinct-append_one (names n) (name (suc n)) (is_distinct-names n)
      (contains-names n (suc n) (omega arith))
