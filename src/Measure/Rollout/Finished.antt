-- ===== src/Measure/Rollout/Finished.antt =====
-- `finish` of src/qorl/measure/rollout.py, and the checks of the record that it leads to.
use qorl.Prelude.{
  String, ◌≡◌, refl, sym, ap, ◌∙◌, inl, inr, Bool, true, false, not, ◌&&◌, Option, none, some,
  Option-cases, nat_eq, string_eq, some_of, ok, err, is_none,
}
use mathlib.Core.Path.{subst}
use qorl.Numbers.{Number}
use qorl.Measure.Schemas.{Baseline, Candidate, selection_eligible}
use qorl.Measure.Evidence
use qorl.Measure.Evidence.{
  Outcome, RolloutRecord, RolloutMeasurementSettings, same_option, EvidenceError,
}
use qorl.Measure.Evidence.Matches.{check_identity, check_kind, evidence_matches_outcome}
use qorl.Measure.Validation.Selection.{select, accept_selection, is_default}
use qorl.Measure.Rollout.{
  Rollout, Machine, Run, ◌>>=◌, ◌>>◌, pure, lift, on_evaluator, finalizing, not_measured, require,
  keep_default_selects, check_cancelled,
}
use qorl.Measure.Rollout.Attempts.{either}
use qorl.Measure.Rollout.Finish.{
  outcome_of, kept_outcome, conclude, begin_finalization, fail, or_selected, choose,
  finish_selection, finish_default, finish, with_baseline, rollout_record, is_refused,
}
use qorl.Measure.Rollout.Steps.{after-ok, ok-inj, require-ok, check_cancelled-Quiet, Quiet}
use qorl.Measure.Rollout.Paired.{either-true}
use qorl.Measure.Rollout.Gathered.{ReportsLimit}
use qorl.Measure.Rollout.Chosen.{select-chosen, select-none}
use qorl.Measure.Rollout.Support.{check_default-ok, evidence-ok}
use qorl.Measure.Rollout.Kinds.{no_valid_candidate-Checks, nothing_selected}
use qorl.Measure.Rollout.Ready.{IsReady, Settled}
use qorl.Measure.Rollout.Supported.{IsReference, no_outcome, same-Settled, chosen-Settled}
use qorl.Measure.Rollout.Concluding.{
  SameEvidence, SameEvidence-IsReady, timed_reference-parts, is_timed-number, IsSupported,
  raised_as-ok, kept-Settled, begun, begun-same, failed_state, accepted-same, conclude-IsSupported,
}

-- What the checks of a ready rollout read.
module _ (m : Machine) (reports : ReportsLimit m.world) (task template : String) where
  none-Settled :
      (b : Baseline) (x : Number) (final : Outcome) (s s' : Rollout)
      → some_of selection_eligible (s.evaluator).candidates ≡ false
      → outcome_of m b none s ≡ (ok final, s')
      → Settled b x s s' final
  unfolding outcome_of
  none-Settled b x final s s' unusable h = subst (Settled b x s s') (ok-inj _ _ (ap (λ y. y.0) h)) (
      same-Settled b x s s' Evidence.no_valid_candidate (ap (λ y. y.1) h) (λ r candidates settings.
        no_valid_candidate-Checks r b x _ (nothing_selected (s.evaluator).candidates)
          (ap (some_of selection_eligible) candidates ∙ unusable)))

  selection-Settled :
      (b : Baseline) (x : Number) (id : Option String) (selected : Option Candidate)
      (final : Outcome) (s s' : Rollout)
      → IsReady m.floats s
      → IsReference b x s
      → select id s.evaluator ≡ ok selected
      → outcome_of m b selected s ≡ (ok final, s')
      → Settled b x s s' final
  selection-Settled b x id none final s s' ready reference found h =
      none-Settled b x final s s' (select-none id s.evaluator found) h
  selection-Settled b x id (some c) final s s' ready reference found h =
      let (recorded, is_eligible) = select-chosen id s.evaluator c ready.distinct found in
      chosen-Settled m reports b x c final s s' ready reference
        (record { recorded = recorded; is_eligible = is_eligible }) h

  selected_outcome-IsSupported :
      (b : Baseline) (x : Number) (id : Option String) (selected : Option Candidate)
      (given final : Outcome) (s s₁ t s' : Rollout)
      → s ≡ s₁
      → IsReady m.floats s
      → IsReference b x s
      → select id s.evaluator ≡ ok selected
      → outcome_of m b selected (begun s₁) ≡ (ok given, t)
      → conclude given t ≡ (ok final, s')
      → IsSupported m.floats task template s'
  selected_outcome-IsSupported b x id selected given final s s₁ t s' same ready reference found h
        k =
      let ready' = SameEvidence-IsReady m.floats s (begun s) (begun-same s) ready in
      let reference' : IsReference b x (begun s) = record {
        has_default = reference.has_default;
        has_median = reference.has_median;
        number = reference.number;
      } in
      let h' : outcome_of m b selected (begun s) ≡ (ok given, t) =
        ap (λ y. outcome_of m b selected (begun y)) same ∙ h in
      conclude-IsSupported m.floats task template b x (begun s) t s' given final ready'
        reference.has_default reference.has_median
        (selection-Settled b x id selected given (begun s) t ready' reference' found h') k

  -- The choice of an outcome, where the default is kept or not.
  chosen_outcome-IsSupported :
      (b : Baseline) (x : Number) (kept : Bool) (id : Option String) (final : Outcome)
      (s s' : Rollout)
      → IsReady m.floats s
      → IsReference b x s
      → (either kept (pure none) (on_evaluator (λ e. (select id e, e))) >>= λ selected.
            (begin_finalization
              >> (either kept (kept_outcome b b.timing_reuse_key) (outcome_of m b selected)
                  >>= conclude)))
          s
        ≡ (ok final, s')
      → IsSupported m.floats task template s'
  chosen_outcome-IsSupported b x true id final s s' ready reference h =
      let (given, t, settled, h₁) =
        after-ok (kept_outcome b b.timing_reuse_key (begun s)) conclude final s' h in
      conclude-IsSupported m.floats task template b x (begun s) t s' given final
        (SameEvidence-IsReady m.floats s (begun s) (begun-same s) ready) reference.has_default
        reference.has_median (kept-Settled b x given (begun s) t settled) h₁
  chosen_outcome-IsSupported b x false id final s s' ready reference h =
      let (selected, s₁, found, h₁) =
        after-ok (on_evaluator (λ e. (select id e, e)) s) _ final s' h in
      let is_selected = raised_as-ok (select id s.evaluator) selected (ap (λ y. y.0) found) in
      let same : s ≡ s₁ = ap (λ y. y.1) found in
      let (given, t, settled, h₂) =
        after-ok (outcome_of m b selected (begun s₁)) conclude final s' h₁ in
      selected_outcome-IsSupported b x id selected given final s s₁ t s' same ready reference
        is_selected settled h₂

  choose-IsSupported :
      (b : Baseline) (x : Number) (asked : Option String) (final : Outcome) (s s' : Rollout)
      → IsReady m.floats s
      → IsReference b x s
      → choose m b asked s ≡ (ok final, s')
      → IsSupported m.floats task template s'
  unfolding choose
  choose-IsSupported b x asked final s s' ready reference h =
      chosen_outcome-IsSupported b x (s.evaluator).kept_default (or_selected asked s) final s s'
        ready reference h

  -- A selection that has failed.
  fail-IsSupported :
      (b : Baseline) (x : Number) (final : Outcome) (s s' : Rollout)
      → IsReady m.floats s
      → IsReference b x s
      → fail s ≡ (ok final, s')
      → IsSupported m.floats task template s'
  unfolding fail rollout_record check_identity check_kind
  fail-IsSupported b x final s s' ready reference h =
      subst (IsSupported m.floats task template) (ap (λ y. y.1) h) (
        let r = rollout_record task template none (failed_state s) in
        evidence-ok m.floats r b x Evidence.selection_failed refl refl ready.distinct
          reference.has_default reference.has_median
          (check_default-ok m.floats s.measurement b x (
            timed_reference-parts m.floats s.measurement _ b x reference.has_default
              reference.has_median ready.timed))
          (ap (check_identity Evidence.selection_failed)
            (nothing_selected (s.evaluator).candidates))
          refl)

  finish_selection-IsSupported :
      (b : Baseline) (x : Number) (asked : Option String) (final : Outcome) (s s' : Rollout)
      → IsReady m.floats s
      → IsReference b x s
      → finish_selection m b asked s ≡ (ok final, s')
      → IsSupported m.floats task template s'
  unfolding finish_selection
  finish_selection-IsSupported b x asked final s s' ready reference h =
      let (_, s₁, allowed, h₁) =
        after-ok
          (require (not ((s.evaluator).kept_default && not (is_none asked))) keep_default_selects s)
          _ final s' h in
      let (_, same) = require-ok _ _ s s₁ allowed in
      let h₂ : either (is_refused ((s.evaluator).selection).status) fail (choose m b asked) s
          ≡ (ok final, s') =
        ap (λ y. either (is_refused ((y.evaluator).selection).status) fail (choose m b asked) y)
          same
        ∙ h₁ in
      elim (either-true m (is_refused ((s.evaluator).selection).status) fail _ s _ h₂) [
        | inl (refused, ended) ↦ fail-IsSupported b x final s s' ready reference ended
        | inr (open_choice, ended) ↦ choose-IsSupported b x asked final s s' ready reference ended
      ]

  finish_default-IsSupported :
      (b : Baseline) (x : Number) (asked : Option String) (final : Outcome) (s s' : Rollout)
      → IsReady m.floats s
      → IsReference b x s
      → finish_default m b asked s ≡ (ok final, s')
      → IsSupported m.floats task template s'
  unfolding finish_default
  finish_default-IsSupported b x asked final s s' ready reference h =
      elim (either-true m (is_default asked) _ _ s _ h) [
        | inr (other, h₁) ↦ finish_selection-IsSupported b x asked final s s' ready reference h₁
        | inl (is_asked, h₁) ↦
            let (_, t, accepted, h₂) =
              after-ok (on_evaluator (accept_selection asked) s) _ final s' h₁ in
            let same = accepted-same asked s t is_asked accepted in
            finish_selection-IsSupported b x none final t s'
              (SameEvidence-IsReady m.floats s t same ready)
              (record {
                has_default = same.same_default ∙ reference.has_default;
                has_median = reference.has_median;
                number = reference.number;
              })
              h₂
      ]

  with_baseline-ok :
      (d : Option Baseline) (next : Baseline → Run Outcome) (final : Outcome) (s s' : Rollout)
      → with_baseline d next s ≡ (ok final, s')
      → (b : Baseline) × (x : Number) × (d ≡ some b)
        × (b.median_execution_time_ms ≡ some x)
        × (next b s ≡ (ok final, s'))
  with_baseline-ok none next final s s' h = absurd (no_outcome _ final s s' h)
  with_baseline-ok (some b) next final s s' h =
      let test = λ (o : Option Number). either (is_none o) (lift (err not_measured)) (next b) s in
      elim (Option-cases b.median_execution_time_ms) [
        | inl missing ↦ absurd (no_outcome not_measured final s s' (sym (ap test missing) ∙ h))
        | inr (x, found) ↦ (b, x, refl, found, sym (ap test found) ∙ h)
      ]

Quiet-SameEvidence : (s t : Rollout) → Quiet s t → SameEvidence s t
Quiet-SameEvidence s t q = record {
  same_default = (q.same_facts).same_default;
  same_candidates = (q.same_facts).same_candidates;
  same_settings = (q.same_facts).same_settings;
  same_paired = q.same_paired;
}

-- Where a rollout is ready and the worker reports the limit that a query has exceeded, the record of
-- a rollout that `finish` has ended without raising passes the checks of its evidence.
pub finish-evidence_matches_outcome :
    (m : Machine) (task_id template_id : String) (asked : Option String) (s s' : Rollout)
    (final : Outcome)
    → ReportsLimit m.world
    → IsReady m.floats s
    → finish m asked s ≡ (ok final, s')
    → evidence_matches_outcome m.floats (rollout_record task_id template_id none s') ≡ ok tt
unfolding finish
finish-evidence_matches_outcome m task_id template_id asked s s' final reports ready h =
    let (_, t, unset, h₁) = after-ok (check_cancelled m s) _ final s' h in
    let quiet = Quiet-SameEvidence s t (check_cancelled-Quiet m (ok tt) s t unset) in
    let ready' = SameEvidence-IsReady m.floats s t quiet ready in
    let (b, x, has_default, has_median, h₂) =
      with_baseline-ok m reports task_id template_id (t.evaluator).default _ final t s' h₁ in
    let (_, u, allowed, h₃) =
      after-ok (require (not t.finalization_started) finalizing t) _ final s' h₂ in
    let (_, same) = require-ok _ _ t u allowed in
    finish_default-IsSupported m reports task_id template_id b x asked final t s' ready'
      (record {
        has_default = has_default;
        has_median = has_median;
        number = is_timed-number m.floats t.measurement b x (
            timed_reference-parts m.floats t.measurement _ b x has_default has_median ready'.timed);
      })
      (ap (finish_default m b asked) same ∙ h₃)
