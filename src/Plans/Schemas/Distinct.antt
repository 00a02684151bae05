-- ===== src/Plans/Schemas/Distinct.antt =====
-- What `_reject_duplicate_targets` and `_reject_duplicate_relations` accept: keys that all differ.
use qorl.Prelude.{
  ℕ, ◌+◌, String, ◌≡◌, refl, sym, ap, ◌∙◌, ◌≢◌, ◌↔◌, inl, inr, Bool, true, false, not, ◌&&◌, ◌||◌,
  none, some, List, [], ◌∷◌, arith, Option-cases, nat_eq, string_eq, some_of, Result, ok, err,
  is_none,
}
use qorl.Plans.Errors.{Error, duplicate_target}
use qorl.Plans.Methods.{memoize_eq}
use qorl.Plans.Schemas.Action.{seen_at, reject_duplicates}

-- No two members are the same.
abbrev pub all_differ {ℓ} : {K : Type ℓ} → (K → K → Bool) → List K → Bool
all_differ same [] = true
all_differ same (k ∷ ks) = not (some_of (same k) ks) && all_differ same ks

unnot : (b : Bool) → true ≡ not b → b ≡ false
unnot b h = ground arith

unnot_false : (b : Bool) → false ≡ not b → b ≡ true
unnot_false b h = ground arith

pub err-ok : (e : Error) → ◌≢◌ {A = Result Error (Unit {0})} (err e) (ok tt)
err-ok e h = cc

true-or : (a b : Bool) → a ≡ true → (a || b) ≢ false
true-or a b h k = ground arith

differ-step :
    (a b c d : Bool)
    → a ≡ false
    → (b || c) ≡ false
    → d ≡ true
    → ((a || c) ≡ false) × (not b && d ≡ true)
differ-step a b c d h k l = ground arith

differ-back :
    (a b c d : Bool) → (a || c) ≡ false → not b && d ≡ true → (b ≡ false) × (c ≡ false) × (d ≡ true)
differ-back a b c d h k = ground arith

pub both : (a b : Bool) → a ≡ true → b ≡ true → (a && b) ≡ true
both a b h k = ground arith

pub split : (a b : Bool) → (a && b) ≡ true → (a ≡ true) × (b ≡ true)
split a b h = ground arith

or_swap : (a b c d : Bool) → ((a || b) || (c || d)) ≡ ((a || c) || (b || d))
or_swap a b c d = ground arith

module _ {ℓ} {K : Type ℓ} (same : K → K → Bool) where
  -- Whether a key is among those seen.
  is_seen : List (K × ℕ) → K → Bool
  is_seen seen k = some_of (λ s. same s.0 k) seen

  seen_at-is_seen :
      (k : K) (seen : List (K × ℕ)) → is_none (seen_at same k seen) ≡ not (is_seen seen k)
  unfolding seen_at is_seen
  seen_at-is_seen k [] = refl
  seen_at-is_seen k ((j, i) ∷ seen) = ground (arith, seen_at-is_seen k seen)

  some_of-seen :
      (j : K) (i : ℕ) (seen : List (K × ℕ)) (ks : List K)
      → some_of (is_seen ((j, i) ∷ seen)) ks ≡ (some_of (same j) ks || some_of (is_seen seen) ks)
  unfolding is_seen
  some_of-seen j i seen [] = refl
  some_of-seen j i seen (k ∷ ks) = rw (some_of-seen j i seen ks) (or_swap (same j k) _ _ _)

  reject_duplicates-unseen :
      (family : String) (seen : List (K × ℕ)) (i : ℕ) (k : K) (ks : List K)
      → seen_at same k seen ≡ none
      → reject_duplicates same family seen i (k ∷ ks)
        ≡ reject_duplicates same family ((k, i) ∷ seen) (i + 1) ks
  unfolding reject_duplicates
  reject_duplicates-unseen family seen i k ks new = rw (new, reject_duplicates) refl

  reject_duplicates-seen :
      (family : String) (seen : List (K × ℕ)) (i first : ℕ) (k : K) (ks : List K)
      → seen_at same k seen ≡ some first
      → reject_duplicates same family seen i (k ∷ ks) ≡ err (duplicate_target family i first)
  unfolding reject_duplicates
  reject_duplicates-seen family seen i first k ks old = rw (old, reject_duplicates) refl

  none_seen : (ks : List K) → some_of (is_seen []) ks ≡ false
  unfolding is_seen
  none_seen [] = refl
  none_seen (k ∷ ks) = none_seen ks

  reject_duplicates-none :
      (family : String) (seen : List (K × ℕ)) (i : ℕ)
      → reject_duplicates same family seen i [] ≡ ok tt
  unfolding reject_duplicates
  reject_duplicates-none family seen i = refl

  reject_duplicates-all_differ :
      (family : String) (seen : List (K × ℕ)) (i : ℕ) (ks : List K)
      → (reject_duplicates same family seen i ks ≡ ok tt)
        ↔ ((some_of (is_seen seen) ks ≡ false) × (all_differ same ks ≡ true))
  reject_duplicates-all_differ family seen i [] =
      (λ _. (refl, refl), λ _. reject_duplicates-none family seen i)
  reject_duplicates-all_differ family seen i (k ∷ ks) = elim (Option-cases (seen_at same k seen)) [
    | inl new ↦
        let step = reject_duplicates-unseen family seen i k ks new in
        let fresh : is_seen seen k ≡ false =
          unnot _ (sym (ap is_none new) ∙ seen_at-is_seen k seen) in
        let (to, from) = reject_duplicates-all_differ family ((k, i) ∷ seen) (i + 1) ks in
        (
          λ h.
              let (unseen, differ) = to (sym step ∙ h) in
              differ-step _ _ _ _ fresh (sym (some_of-seen k i seen ks) ∙ unseen) differ,
          λ (unseen, differ).
              let (apart, rest, later) =
                differ-back (is_seen seen k) (some_of (same k) ks) (some_of (is_seen seen) ks) _
                  unseen differ in
              step ∙ from (some_of-seen k i seen ks ∙ rw (apart, rest) refl, later),
        )
    | inr (first, old) ↦
        let step = reject_duplicates-seen family seen i first k ks old in
        let known : is_seen seen k ≡ true =
          unnot_false _ (sym (ap is_none old) ∙ seen_at-is_seen k seen) in
        (
          λ h. absurd (err-ok _ (sym step ∙ h)),
          λ (unseen, differ). absurd (true-or _ _ known unseen),
        )
  ]

  pub reject_duplicates-start :
      (family : String) (ks : List K)
      → (reject_duplicates same family [] 0 ks ≡ ok tt) ↔ (all_differ same ks ≡ true)
  reject_duplicates-start family ks =
      let (to, from) = reject_duplicates-all_differ family [] 0 ks in
      (λ h. (to h).1, λ differ. from (none_seen ks, differ))
