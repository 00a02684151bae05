-- ===== src/Measure/Rollout/Pairs.antt =====
-- The halves of a pair, of src/qorl/measure/rollout.py: those that run, and those that are cut off.
use qorl.Prelude.{
  ℕ, String, ◌≡◌, refl, sym, ap, ◌∙◌, ◌≢◌, inl, inr, Bool, true, false, ◌&&◌, Option, none, some,
  arith, Bool-cases, nat_eq, string_eq, Result, ok, err, is_empty,
}
use qorl.Numbers.{Number}
use qorl.Measure.Schemas.{Measurement, Candidate}
use qorl.Measure.Planner.{Reply, Explained, explained, timed_out, broken}
use qorl.Measure.Evidence.{MeasuredPlan, default, candidate, PairedMeasurements, same_option}
use qorl.Measure.Rollout.{
  RolloutError, Rollout, Machine, ◌>>◌, require, check_cancelled, measured, measurement_of,
  as_number, entry_of, lift, hints_changed, pure, plan_changed, checked_time, is_time,
}
use qorl.Measure.Rollout.Attempts.{
  or_invalid_action, verify_execution, update_id, with_timeout, set_candidates, mark_timeout,
}
use qorl.Measure.Rollout.Pairing.{
  set_paired, on_pairs, with_half, change_last, expected_plan, verify_role, keep_half, half_reply,
}
use qorl.Measure.Rollout.Steps.{
  after-ok, require-ok, ok-inj, SameFacts, SameFacts-trans, check_cancelled-Quiet,
}

-- A measurement of the plan, with a time.
abbrev pub is_run : Option String → Option Measurement → Bool
is_run sha none = false
is_run sha (some x) = same_option (some x.plan_sha256) sha && is_time x.execution_time_ms

checked_time-is_time : (o : Option Number) (t : Number) → checked_time o ≡ some t → is_time t ≡ true
checked_time-is_time none t h = cc
checked_time-is_time (some x) t h = elim (Bool-cases (is_time x)) [
  | inl good ↦ ground (arith, rw good at h)
  | inr bad ↦ ground (arith, rw bad at h)
]

pub both_true : (a b : Bool) → a ≡ true → b ≡ true → a && b ≡ true
both_true a b h k = ground arith

pub set_paired-SameFacts :
    (change : PairedMeasurements → PairedMeasurements) (s : Rollout)
    → SameFacts s (set_paired change s)
set_paired-SameFacts change s = record {
  same_default = refl;
  same_candidates = refl;
  same_limit = refl;
  same_selection = refl;
  same_settings = refl;
}

SameFacts-step :
    (s s' s₁ s₂ : Rollout) (t : Rollout)
    → s ≡ s₁
    → SameFacts t s₂
    → SameFacts s₁ t
    → s₂ ≡ s'
    → SameFacts s s'
SameFacts-step s s' s₁ s₂ t start middle first end =
    rw (start, sym end) (SameFacts-trans s₁ t s₂ first middle)

-- One half that has run, and is recorded in the last pair.
pub record Ran (warmup : Bool) (c : Candidate) (role : MeasuredPlan) (s s' : Rollout) : Type 0 where
  pub observation : Measurement
  pub ran : is_run (expected_plan role (s.evaluator).default c) (some observation) ≡ true
  pub recorded : s'.paired ≡ on_pairs warmup (change_last (with_half role observation)) s.paired
  pub ran_same : SameFacts s s'

-- The candidate has timed out at `limit`, and is recorded so.
pub record Cut (c : Candidate) (limit : ℕ) (s s' : Rollout) : Type 0 where
  pub cut :
      (s'.evaluator).candidates
      ≡ update_id c.candidate_id (λ _. with_timeout limit c) (s.evaluator).candidates
  pub cut_default : (s'.evaluator).default ≡ (s.evaluator).default
  pub cut_limit : (s'.evaluator).timeout_ms ≡ (s.evaluator).timeout_ms
  pub cut_selection : (s'.evaluator).selection ≡ (s.evaluator).selection
  pub cut_settings : s'.measurement ≡ s.measurement

pub Ran-after :
    (warmup : Bool) (c : Candidate) (role : MeasuredPlan) (s t s' : Rollout)
    → SameFacts s t
    → t.paired ≡ s.paired
    → Ran warmup c role t s'
    → Ran warmup c role s s'
Ran-after warmup c role s t s' same paired r = record {
  observation = r.observation;
  ran =
      sym (ap (λ d. is_run (expected_plan role d c) (some r.observation)) same.same_default)
      ∙ r.ran;
  recorded = r.recorded ∙ ap (on_pairs warmup (change_last (with_half role r.observation))) paired;
  ran_same = SameFacts-trans s t s' same r.ran_same;
}

pub Cut-after :
    (c : Candidate) (limit : ℕ) (s t s' : Rollout)
    → SameFacts s t
    → Cut c limit t s'
    → Cut c limit s s'
Cut-after c limit s t s' same k = record {
  cut = k.cut ∙ ap (update_id c.candidate_id (λ _. with_timeout limit c)) same.same_candidates;
  cut_default = k.cut_default ∙ same.same_default;
  cut_limit = k.cut_limit ∙ same.same_limit;
  cut_selection = k.cut_selection ∙ same.same_selection;
  cut_settings = k.cut_settings ∙ same.same_settings;
}

mark-Cut :
    (c : Candidate) (limit : ℕ) (s s' : Rollout)
    → SameFacts (set_candidates (update_id c.candidate_id (λ _. with_timeout limit c)) s) s'
    → Cut c limit s s'
mark-Cut c limit s s' same = record {
  cut = same.same_candidates;
  cut_default = same.same_default;
  cut_limit = same.same_limit;
  cut_selection = same.same_selection;
  cut_settings = same.same_settings;
}

true-false :
    (s s' : Rollout) → ◌≢◌ {A = Result RolloutError Bool × Rollout} (ok true, s) (ok false, s')
true-false s s' h = cc (ap (λ y. y.0) h)

err-ok :
    (e : RolloutError) (r : Bool) (s s' : Rollout)
    → ◌≢◌ {A = Result RolloutError Bool × Rollout} (err e, s) (ok r, s')
err-ok e r s s' h = cc (ap (λ y. y.0) h)

module _ (m : Machine) where
  measurement_of-time :
      (result : Explained) (a b : Option Number) (c d : Option ℕ) (x : Measurement)
      → measurement_of m result a b c d ≡ ok x
      → a ≡ some x.execution_time_ms
  unfolding measurement_of
  measurement_of-time result (some a) (some b) (some c) (some d) x h =
      ap (λ y. some y.execution_time_ms) (ok-inj _ _ h)
  measurement_of-time result _ _ _ _ x h = ground arith

  pub measured-time :
      (result : Explained) (x : Measurement)
      → measured m result ≡ ok x
      → is_time x.execution_time_ms ≡ true
  unfolding measured
  measured-time result x h =
      checked_time-is_time (as_number (entry_of "Execution Time" result.document))
        x.execution_time_ms (measurement_of-time result _ _ _ _ x h)

  pub verify_execution-state :
      (c : Candidate) (result : Explained) (x : Measurement) (s s' : Rollout)
      → verify_execution m c result x s ≡ (ok tt, s')
      → s ≡ s'
  unfolding verify_execution
  verify_execution-state c result x s s' h =
      let (action, s₁, read, h₁) =
        after-ok (lift (or_invalid_action ((m.planner).from_raw c.action)) s) _ tt s' h in
      let errors = (m.planner).verify_action action result.plan result.hint_diagnostics in
      let (_, s₂, unhinted, h₂) =
        after-ok (require (is_empty errors) (hints_changed errors) s₁) _ tt s' h₁ in
      ap (λ y. y.1) read ∙ (require-ok _ _ s₁ s₂ unhinted).1 ∙ (require-ok _ _ s₂ s' h₂).1

  verify_role-state :
      (role : MeasuredPlan) (c : Candidate) (result : Explained) (x : Measurement) (s s' : Rollout)
      → verify_role m role c result x s ≡ (ok tt, s')
      → s ≡ s'
  unfolding verify_role
  verify_role-state default c result x s s' h = ap (λ y. y.1) h
  verify_role-state candidate c result x s s' h = verify_execution-state c result x s s' h

  pub keep_half-ok :
      (warmup : Bool) (c : Candidate) (role : MeasuredPlan) (result : Explained) (r : Bool)
      (s s' : Rollout)
      → keep_half m warmup c role result s ≡ (ok r, s')
      → (r ≡ true)
        × (x : Measurement) × (is_run (expected_plan role (s.evaluator).default c) (some x) ≡ true)
        × (s'.paired ≡ on_pairs warmup (change_last (with_half role x)) s.paired)
        × (s'.execution_counts ≡ s.execution_counts)
        × SameFacts s s'
  unfolding keep_half
  keep_half-ok warmup c role result r s s' h =
      let (x, s₁, read, h₁) = after-ok (lift (measured m result) s) _ r s' h in
      let start = ap (λ y. y.1) read in
      let added = set_paired (on_pairs warmup (change_last (with_half role x))) s₁ in
      let (_, s₂, unset, h₂) = after-ok (check_cancelled m added) _ r s' h₁ in
      let quiet = check_cancelled-Quiet m (ok tt) added s₂ unset in
      let (_, s₃, verified, h₃) = after-ok (verify_role m role c result x s₂) _ r s' h₂ in
      let same = verify_role-state role c result x s₂ s₃ verified in
      let (_, s₄, expected, h₄) =
        after-ok
          (require (same_option (some x.plan_sha256) (expected_plan role (s₃.evaluator).default c))
            plan_changed s₃)
          _ r s' h₃ in
      let (ran, kept) = require-ok _ _ s₃ s₄ expected in
      let timed = measured-time result x (ap (λ y. y.0) read) in
      let end : s₂ ≡ s' = same ∙ kept ∙ ap (λ y. y.1) h₄ in
      let before : (s₃.evaluator).default ≡ (s.evaluator).default =
        ap (λ y. (y.evaluator).default) (sym same)
        ∙ quiet.same_facts.same_default
        ∙ ap (λ y. (y.evaluator).default) (sym start) in
      (
        sym (ok-inj _ _ (ap (λ y. y.0) h₄)),
        x,
        both_true _ _
            (sym (ap (λ d. same_option (some x.plan_sha256) (expected_plan role d c)) before) ∙ ran)
            timed,
        ap (λ y. y.paired) (sym end)
            ∙ quiet.same_paired
            ∙ ap (λ y. on_pairs warmup (change_last (with_half role x)) y.paired) (sym start),
        ap (λ y. y.execution_counts) (sym end)
            ∙ quiet.same_counts
            ∙ ap (λ y. y.execution_counts) (sym start),
        SameFacts-step s s' s₁ s₂ added start quiet.same_facts
            (set_paired-SameFacts (on_pairs warmup (change_last (with_half role x))) s₁) end,
      )

  keep_half-Ran :
      (warmup : Bool) (c : Candidate) (role : MeasuredPlan) (result : Explained) (s s' : Rollout)
      → keep_half m warmup c role result s ≡ (ok true, s')
      → Ran warmup c role s s'
  keep_half-Ran warmup c role result s s' h =
      let (_, x, ran, recorded, _, same) = keep_half-ok warmup c role result true s s' h in
      record { observation = x; ran = ran; recorded = recorded; ran_same = same }

  keep_half-never_false :
      (warmup : Bool) (c : Candidate) (role : MeasuredPlan) (result : Explained) (s s' : Rollout)
      → keep_half m warmup c role result s ≢ (ok false, s')
  keep_half-never_false warmup c role result s s' h =
      let (never, _, _, _, _, _) = keep_half-ok warmup c role result false s s' h in cc

  timeout-Cut :
      (c : Candidate) (limit : ℕ) (r : Bool) (s s' : Rollout)
      → (mark_timeout c limit >> (check_cancelled m >> pure false)) s ≡ (ok r, s')
      → (r ≡ false) × Cut c limit s s'
  unfolding mark_timeout
  timeout-Cut c limit r s s' h =
      let marked = set_candidates (update_id c.candidate_id (λ _. with_timeout limit c)) s in
      let (_, t, unset, h₁) = after-ok (check_cancelled m marked) _ r s' h in
      let same = check_cancelled-Quiet m (ok tt) marked t unset in
      let end : t ≡ s' = ap (λ y. y.1) h₁ in
      (sym (ok-inj _ _ (ap (λ y. y.0) h₁)), rw (sym end) (mark-Cut c limit s t same.same_facts))

  pub half_reply-Ran :
      (warmup : Bool) (c : Candidate) (role : MeasuredPlan) (reply : Reply) (s s' : Rollout)
      → half_reply m warmup c role reply s ≡ (ok true, s')
      → Ran warmup c role s s'
  unfolding half_reply
  half_reply-Ran warmup c role (explained result) s s' h = keep_half-Ran warmup c role result s s' h
  half_reply-Ran warmup c candidate (timed_out limit) s s' h =
      let (never, _) = timeout-Cut c limit true s s' h in cc
  half_reply-Ran warmup c default (timed_out limit) s s' h = absurd (err-ok _ _ s s' h)
  half_reply-Ran warmup c default (broken text) s s' h = absurd (err-ok _ _ s s' h)
  half_reply-Ran warmup c candidate (broken text) s s' h = absurd (err-ok _ _ s s' h)

  pub half_reply-Cut :
      (warmup : Bool) (c : Candidate) (role : MeasuredPlan) (reply : Reply) (s s' : Rollout)
      → half_reply m warmup c role reply s ≡ (ok false, s')
      → (limit : ℕ) × (reply ≡ timed_out limit) × (role ≡ candidate) × Cut c limit s s'
  unfolding half_reply
  half_reply-Cut warmup c role (explained result) s s' h =
      absurd (keep_half-never_false warmup c role result s s' h)
  half_reply-Cut warmup c candidate (timed_out limit) s s' h =
      (limit, refl, refl, (timeout-Cut c limit false s s' h).1)
  half_reply-Cut warmup c default (timed_out limit) s s' h = absurd (err-ok _ _ s s' h)
  half_reply-Cut warmup c default (broken text) s s' h = absurd (err-ok _ _ s s' h)
  half_reply-Cut warmup c candidate (broken text) s s' h = absurd (err-ok _ _ s s' h)
