-- ===== src/Measure/Rollout/Gathered.antt =====
-- The pairs that a run of `execute_pair` after another adds.
use qorl.Prelude.{
  ℕ, ◌+◌, String, ◌≡◌, refl, sym, ap, ◌∙◌, Bool, true, false, ◌&&◌, Option, none, some, List, [],
  ◌∷◌, ◌++◌, arith, nat_eq, string_eq, length, length-append, all_of,
}
use mathlib.Core.List.{append-nil, append_assoc}
use qorl.Measure.Schemas.{Measurement, Baseline, Candidate}
use qorl.Measure.Planner.{World, timed_out}
use qorl.Measure.Evidence.{
  MeasuredPlan, default, candidate, MeasurementPair, PairedMeasurements, same_plan,
}
use qorl.Measure.Rollout.{Rollout}
use qorl.Measure.Rollout.Pairing.{
  set_paired, on_pairs, add_pair, with_half, change_last, expected_plan, count_paired,
  pair_operation,
}
use qorl.Measure.Rollout.Steps.{SameFacts, SameFacts-trans, SameFacts-refl}
use qorl.Measure.Rollout.Pairs.{is_run, both_true, Ran, set_paired-SameFacts}

abbrev pub ReportsLimit : World → Type 0
ReportsLimit world =
    (call limit reported : ℕ) (sql hint : String) (analyze : Bool)
    → world.explain call sql limit analyze hint ≡ timed_out reported
    → reported ≡ limit

abbrev pub counted : Bool → MeasuredPlan → Rollout → Rollout
counted warmup role s = count_paired (record s { operation = pair_operation warmup role })

pub counted-SameFacts :
    (warmup : Bool) (role : MeasuredPlan) (s : Rollout) → SameFacts s (counted warmup role s)
counted-SameFacts warmup role s = record {
  same_default = refl;
  same_candidates = refl;
  same_limit = refl;
  same_selection = refl;
  same_settings = refl;
}

-- A pair in which both plans have run, the default and the candidate's.
abbrev pub pair_ran : Option String → Option String → MeasurementPair → Bool
pair_ran default_plan plan p = is_run default_plan p.default && is_run plan p.candidate

abbrev unfilled : MeasuredPlan × MeasuredPlan → MeasurementPair
unfilled order = record { order = order; default = none; candidate = none }

change_last-append :
    (change : MeasurementPair → MeasurementPair) (ps : List MeasurementPair) (p : MeasurementPair)
    → change_last change (ps ++ p ∷ []) ≡ ps ++ change p ∷ []
change_last-append change [] p = refl
change_last-append change (q ∷ []) p = refl
change_last-append change (q ∷ r ∷ ps) p = ap (λ xs. q ∷ xs) (change_last-append change (r ∷ ps) p)

added_twice :
    (order : MeasuredPlan × MeasuredPlan) (first second : MeasurementPair → MeasurementPair)
    (ps : List MeasurementPair)
    → change_last second (change_last first (add_pair order ps))
      ≡ ps ++ second (first (unfilled order)) ∷ []
added_twice order first second ps =
    ap (change_last second) (change_last-append first ps (unfilled order))
    ∙ change_last-append second ps (first (unfilled order))

on_pairs-added :
    (warmup : Bool) (order : MeasuredPlan × MeasuredPlan)
    (first second : MeasurementPair → MeasurementPair) (p : PairedMeasurements)
    → on_pairs warmup
        (change_last second)
        (on_pairs warmup (change_last first) (on_pairs warmup (add_pair order) p))
      ≡ on_pairs warmup (λ ps. ps ++ second (first (unfilled order)) ∷ []) p
on_pairs-added true order first second p =
    ap (λ ps. record p { warmups = ps }) (added_twice order first second p.warmups)
on_pairs-added false order first second p =
    ap (λ ps. record p { measurements = ps }) (added_twice order first second p.measurements)

on_pairs-nil : (warmup : Bool) (p : PairedMeasurements) → on_pairs warmup (λ xs. xs ++ []) p ≡ p
on_pairs-nil true p = ap (λ xs. record p { warmups = xs }) (append-nil p.warmups)
on_pairs-nil false p = ap (λ xs. record p { measurements = xs }) (append-nil p.measurements)

pair_ran-both :
    (order : MeasuredPlan × MeasuredPlan) (d : Option Baseline) (c : Candidate) (x y : Measurement)
    → same_plan order.0 order.1 ≡ false
    → is_run (expected_plan order.0 d c) (some x) ≡ true
    → is_run (expected_plan order.1 d c) (some y) ≡ true
    → pair_ran
        (expected_plan default d c)
        c.plan_sha256
        (with_half order.1 y (with_half order.0 x (unfilled order)))
      ≡ true
pair_ran-both (default, default) d c x y differ h k = cc
pair_ran-both (candidate, candidate) d c x y differ h k = cc
pair_ran-both (default, candidate) d c x y differ h k = both_true _ _ h k
pair_ran-both (candidate, default) d c x y differ h k = both_true _ _ k h

-- Pairs that have all run are added at the end of their list.
pub record AllRan (warmup : Bool) (c : Candidate) (n : ℕ) (s s' : Rollout) : Type 0 where
  pub pairs : List MeasurementPair
  pub many : length pairs ≡ n
  pub all_ran :
      all_of (pair_ran (expected_plan default (s.evaluator).default c) c.plan_sha256) pairs ≡ true
  pub all_recorded : s'.paired ≡ on_pairs warmup (λ ps. ps ++ pairs) s.paired
  pub all_same : SameFacts s s'

abbrev pub added : Bool → MeasuredPlan × MeasuredPlan → Rollout → Rollout
added warmup order s = set_paired (on_pairs warmup (add_pair order)) s

pub Ran-AllRan :
    (warmup : Bool) (c : Candidate) (order : MeasuredPlan × MeasuredPlan) (s s₂ s' : Rollout)
    → same_plan order.0 order.1 ≡ false
    → Ran warmup c order.0 (added warmup order s) s₂
    → Ran warmup c order.1 s₂ s'
    → AllRan warmup c 1 s s'
Ran-AllRan warmup c order s s₂ s' differ a b =
    let first = with_half order.0 a.observation in
    let second = with_half order.1 b.observation in
    let second_ran =
      sym (
        ap (λ d. is_run (expected_plan order.1 d c) (some b.observation)) (a.ran_same).same_default)
      ∙ b.ran in
    let both =
      pair_ran-both order (s.evaluator).default c a.observation b.observation differ a.ran
        second_ran in
    record {
      pairs = second (first (unfilled order)) ∷ [];
      many = refl;
      all_ran = both_true _ true both refl;
      all_recorded =
          b.recorded
          ∙ (ap (on_pairs warmup (change_last second)) a.recorded
              ∙ on_pairs-added warmup order first second s.paired);
      all_same =
          SameFacts-trans s (added warmup order s) s'
            (set_paired-SameFacts (on_pairs warmup (add_pair order)) s)
            (SameFacts-trans (added warmup order s) s₂ s' a.ran_same b.ran_same);
    }

pub AllRan-none : (warmup : Bool) (c : Candidate) (s s' : Rollout) → s ≡ s' → AllRan warmup c 0 s s'
AllRan-none warmup c s s' e = rw (sym e) (record {
  pairs = [];
  many = refl;
  all_ran = refl;
  all_recorded = sym (on_pairs-nil warmup s.paired);
  all_same = SameFacts-refl s;
})

all_of-cons :
    (p : MeasurementPair → Bool) (xs ys : List MeasurementPair)
    → all_of p xs ≡ true
    → all_of p ys ≡ true
    → all_of p (xs ++ ys) ≡ true
all_of-cons p [] ys h k = k
all_of-cons p (x ∷ xs) ys h k = ground (arith, all_of-cons p xs ys)

on_pairs-then :
    (warmup : Bool) (xs ys : List MeasurementPair) (p : PairedMeasurements)
    → on_pairs warmup (λ ps. ps ++ ys) (on_pairs warmup (λ ps. ps ++ xs) p)
      ≡ on_pairs warmup (λ ps. ps ++ (xs ++ ys)) p
on_pairs-then true xs ys p = ap (λ ps. record p { warmups = ps }) (append_assoc p.warmups xs ys)
on_pairs-then false xs ys p =
    ap (λ ps. record p { measurements = ps }) (append_assoc p.measurements xs ys)

pub AllRan-then :
    (warmup : Bool) (c : Candidate) (k n : ℕ) (s t s' : Rollout)
    → AllRan warmup c k s t
    → AllRan warmup c n t s'
    → AllRan warmup c (k + n) s s'
AllRan-then warmup c k n s t s' a b = record {
  pairs = a.pairs ++ b.pairs;
  many = omega (arith, length-append a.pairs b.pairs, a.many, b.many);
  all_ran = all_of-cons _ a.pairs b.pairs a.all_ran (
      sym (
        ap (λ d. all_of (pair_ran (expected_plan default d c) c.plan_sha256) b.pairs)
          (a.all_same).same_default)
      ∙ b.all_ran);
  all_recorded =
      b.all_recorded
      ∙ (ap (on_pairs warmup (λ ps. ps ++ b.pairs)) a.all_recorded
          ∙ on_pairs-then warmup a.pairs b.pairs s.paired);
  all_same = SameFacts-trans s t s' a.all_same b.all_same;
}
