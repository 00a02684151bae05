-- ===== src/Measure/Query/WarmUp.antt =====
-- The runs of a measurement: when its warm-up ends, and how many trials follow.
use qorl.Prelude.{
  ℕ, zero, suc, ◌+◌, ◌≤◌, String, ◌≡◌, refl, sym, ap, inl, inr, Bool, true, false, Option, none,
  some, List, [], ◌∷◌, ◌++◌, map, arith, ltb, nat_beq, if◌then◌else◌, Bool-cases, nat_eq, string_eq,
  length, Result, ok, err, raise_if, >>=-eq-ok, >>-eq-ok, is_empty,
}
use mathlib.Core.Path.{subst}
use qorl.Measure.Query.{
  as_run, QueryObservation, QueryRun, MeasureError, too_few_warmups, too_few_trials,
  min_warmup_runs, is_stable, observe, warm_up, trials, measure_query,
}

-- Whether the warm-up of at most `most` runs, after `previous`, may be these: no two runs in a row
-- agree but for the last two, and these do if there are fewer runs than `most`.
unfoldable pub is_warm_up : ℕ → Option QueryObservation → List QueryObservation → Bool
is_warm_up most previous [] = nat_beq most 0
is_warm_up zero previous (o ∷ os) = false
is_warm_up (suc most) previous (o ∷ os) =
    let rest = is_warm_up most (some o) os in if is_stable previous o then is_empty os else rest

-- The numbers of `n` runs, from `i` on.
unfoldable pub numbers : ℕ → ℕ → List ℕ
numbers i zero = []
numbers i (suc n) = i ∷ numbers (i + 1) n

ok-inj :
    (x y : List QueryObservation)
    → ◌≡◌ {A = Result MeasureError (List QueryObservation)} (ok x) (ok y)
    → x ≡ y
ok-inj x y h = cc

ok-inj-runs :
    (x y : List QueryRun) → ◌≡◌ {A = Result MeasureError (List QueryRun)} (ok x) (ok y) → x ≡ y
ok-inj-runs x y h = cc

if-true :
    (b : Bool) (x : List QueryObservation) (r : Result MeasureError (List QueryObservation))
    (y : List QueryObservation)
    → b ≡ true
    → (if b then ok x else r) ≡ ok y
    → x ≡ y
if-true true x r y h k = ok-inj x y k
if-true false x r y h k = cc

if-false :
    (b : Bool) (x r : Result MeasureError (List QueryObservation)) (y : List QueryObservation)
    → b ≡ false
    → (if b then x else r) ≡ ok y
    → r ≡ ok y
if-false true x r y h k = cc
if-false false x r y h k = k

at_least : (most : ℕ) → raise_if (ltb most min_warmup_runs) too_few_warmups ≡ ok tt → 2 ≤ most
at_least most h = ground arith

is_warm_up-at_most :
    (most : ℕ) (previous : Option QueryObservation) (os : List QueryObservation)
    → is_warm_up most previous os ≡ true
    → length os ≤ most
unfolding is_warm_up
is_warm_up-at_most most previous [] h = omega arith
is_warm_up-at_most zero previous (o ∷ os) h = cc
is_warm_up-at_most (suc most) previous (o ∷ os) h =
    ground (arith, is_warm_up-at_most most (some o) os)

is_warm_up-at_least :
    (most : ℕ) (os : List QueryObservation)
    → 2 ≤ most
    → is_warm_up most none os ≡ true
    → 2 ≤ length os
unfolding is_warm_up
is_warm_up-at_least most [] enough h = ground arith
is_warm_up-at_least zero (o ∷ os) enough h = cc
is_warm_up-at_least (suc zero) (o ∷ os) enough h = omega arith
is_warm_up-at_least (suc (suc most)) (o ∷ []) enough h = ground arith
is_warm_up-at_least (suc (suc most)) (o ∷ p ∷ os) enough h = omega arith

as_run-run :
    (run : ℕ) (r : Result String QueryObservation) (o : QueryObservation)
    → as_run run r ≡ ok o
    → o.run ≡ run
as_run-run run (err text) o h = cc
as_run-run run (ok x) o h = let same : record x { run = run } ≡ o = cc in ap (λ t. t.run) (sym same)

module _ (execute : ℕ → Result String QueryObservation) where
  warm_up-is_warm_up :
      (left run : ℕ) (previous : Option QueryObservation) (os : List QueryObservation)
      → warm_up execute left run previous ≡ ok os
      → is_warm_up left previous os ≡ true
  unfolding warm_up is_warm_up
  warm_up-is_warm_up zero run previous os h = let same : [] ≡ os = cc in rw (sym same) refl
  warm_up-is_warm_up (suc left) run previous os h =
      let (current, seen, h₁) = >>=-eq-ok (observe execute run (run + 1)) _ h in
      elim (Bool-cases (is_stable previous current)) [
        | inl stable ↦
            let same : current ∷ [] ≡ os = if-true _ _ _ _ stable h₁ in
            subst (λ t. is_warm_up (suc left) previous t ≡ true) same (rw (is_warm_up, stable) refl)
        | inr unstable ↦
            let (later, h₂, made) =
              >>=-eq-ok (warm_up execute left (run + 1) (some current)) _
                (if-false _ _ _ _ unstable h₁) in
            let same : current ∷ later ≡ os = ok-inj _ _ made in
            subst (λ t. is_warm_up (suc left) previous t ≡ true) same
              (rw (is_warm_up, unstable)
                (warm_up-is_warm_up left (run + 1) (some current) later h₂))
      ]

  warm_up-numbers :
      (left run : ℕ) (previous : Option QueryObservation) (os : List QueryObservation)
      → warm_up execute left run previous ≡ ok os
      → map (λ o. o.run) os ≡ numbers (run + 1) (length os)
  unfolding warm_up numbers observe
  warm_up-numbers zero run previous os h = let same : [] ≡ os = cc in rw (sym same) refl
  warm_up-numbers (suc left) run previous os h =
      let (current, seen, h₁) = >>=-eq-ok (observe execute run (run + 1)) _ h in
      let number = as_run-run (run + 1) (execute run) current seen in
      elim (Bool-cases (is_stable previous current)) [
        | inl stable ↦
            let same : current ∷ [] ≡ os = if-true _ _ _ _ stable h₁ in
            subst (λ t. map (λ o. o.run) t ≡ numbers (run + 1) (length t)) same
              (ap (λ n. n ∷ []) number)
        | inr unstable ↦
            let (later, h₂, made) =
              >>=-eq-ok (warm_up execute left (run + 1) (some current)) _
                (if-false _ _ _ _ unstable h₁) in
            let same : current ∷ later ≡ os = ok-inj _ _ made in
            subst (λ t. map (λ o. o.run) t ≡ numbers (run + 1) (length t)) same
              (rw number
                (ap (λ t. (run + 1) ∷ t) (warm_up-numbers left (run + 1) (some current) later h₂)))
      ]

  trials-numbers :
      (left calls run : ℕ) (os : List QueryObservation)
      → trials execute left calls run ≡ ok os
      → map (λ o. o.run) os ≡ numbers (run + 1) left
  unfolding trials numbers observe
  trials-numbers zero calls run os h = let same : [] ≡ os = cc in rw (sym same) refl
  trials-numbers (suc left) calls run os h =
      let (current, seen, h₁) = >>=-eq-ok (observe execute (calls + run) (run + 1)) _ h in
      let number = as_run-run (run + 1) (execute (calls + run)) current seen in
      let (later, h₂, made) = >>=-eq-ok (trials execute left calls (run + 1)) _ h₁ in
      let same : current ∷ later ≡ os = ok-inj _ _ made in
      subst (λ t. map (λ o. o.run) t ≡ numbers (run + 1) (suc left)) same
        (rw number (ap (λ t. (run + 1) ∷ t) (trials-numbers left calls (run + 1) later h₂)))

  -- A measurement that runs to its end gives a warm-up of at least two and at most the allowed number
  -- of runs, that ends early exactly after the first two runs in a row that agree, and then the
  -- requested trials; both are numbered from 1.
  pub measure_query-runs :
      (most num_trials : ℕ) (runs : List QueryRun)
      → measure_query execute most num_trials ≡ ok runs
      → (warm timed : List QueryObservation) × (runs
          ≡ map (λ o. record { is_warmup = true; observation = o }) warm
            ++ map (λ o. record { is_warmup = false; observation = o }) timed)
        × (is_warm_up most none warm ≡ true)
        × (2 ≤ length warm)
        × (length warm ≤ most)
        × (map (λ o. o.run) warm ≡ numbers 1 (length warm))
        × (map (λ o. o.run) timed ≡ numbers 1 num_trials)
  unfolding measure_query
  measure_query-runs most num_trials runs h =
      let (enough, h₁) = >>-eq-ok (raise_if (ltb most min_warmup_runs) too_few_warmups) _ h in
      let (_, h₂) = >>-eq-ok (raise_if (ltb num_trials 1) too_few_trials) _ h₁ in
      let (warm, warmed, h₃) = >>=-eq-ok (warm_up execute most 0 none) _ h₂ in
      let (timed, ran, made) = >>=-eq-ok (trials execute num_trials (length warm) 0) _ h₃ in
      let shape = warm_up-is_warm_up most 0 none warm warmed in
      (
        warm,
        timed,
        sym (ok-inj-runs _ _ made),
        shape,
        is_warm_up-at_least most warm (at_least most enough) shape,
        is_warm_up-at_most most none warm shape,
        warm_up-numbers most 0 none warm warmed,
        trials-numbers num_trials (length warm) 0 timed ran,
      )
