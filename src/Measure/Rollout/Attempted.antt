-- ===== src/Measure/Rollout/Attempted.antt =====
-- Attempts of a rollout, of src/qorl/measure/rollout.py, and what a finish of it asks for: `evaluate` and
-- `reject_attempt`.
use qorl.Prelude.{String, ◌≡◌, ap, ◌∙◌, not, Option, none, some, List, nat_eq, string_eq, ok, err}
use qorl.Json.{Json}
use qorl.Measure.Schemas.{Baseline, Candidate}
use qorl.Measure.Validation
use qorl.Measure.Validation.{Evaluator, Outcome}
use qorl.Measure.Rollout.{
  Rollout, Machine, pure, require, of_evaluator, on_evaluator, finalizing, not_measured,
}
use qorl.Measure.Rollout.Attempts.{
  replace_last, set_candidates, attempt_allowed, reject_attempt, probe_all, give_feedback, evaluate,
  is_reused, all_but_last, with_feedback,
}
use qorl.Measure.Rollout.Ready.{has_cutoff, default_timed}
use qorl.Measure.Rollout.Sound.{KeysTell, IsSound, Leaves}
use qorl.Measure.Rollout.Issued.{
  Recorded, evaluate-Leaves, evaluate-default, reject_attempt-Leaves, reject_attempt-default,
}
use qorl.Measure.Rollout.Prepared.{
  IsPrepared, Working, replace_last-Working, with_feedback-Given, all_of-all_but_last,
}
use qorl.Measure.Rollout.Probed.{probe_all-Ends}
use qorl.Measure.Rollout.Triples.{Ends, weaken-Ends, after-Ends, either-Ends, require-Ends}

module _ (m : Machine) where
  give_feedback-Ends :
      (c : Candidate) (o : Option Baseline) (s : Rollout)
      → Working m c s
      → Ends (IsPrepared m) (λ _. IsPrepared m) (give_feedback m c o s)
  unfolding give_feedback
  give_feedback-Ends c none s w = w.0
  give_feedback-Ends c (some b) s w =
      let cs = (s.evaluator).candidates in
      let (same, fits) =
        with_feedback-Given (s.evaluator).default b (all_but_last cs) c
          (all_of-all_but_last has_cutoff cs ((w.0).sound).cutoffs) (w.1).fits in
      let d = with_feedback b (all_but_last cs) c in
      let t = set_candidates (replace_last d) s in
      let given = replace_last-Working m c d s w same fits in
      either-Ends (IsPrepared m) (λ _. IsPrepared m) (is_reused d) (pure d) (probe_all m d) t
        (λ _. given.0) (λ _. probe_all-Ends m d t given)

  pub attempt_allowed-Ends :
      (P : Rollout → Type 0) (s : Rollout) → P s → Ends P (λ _. P) (attempt_allowed m s)
  unfolding attempt_allowed
  attempt_allowed-Ends P s h =
      after-Ends P (λ _. P) (λ _. P) (require (not s.finalization_started) finalizing s) _
        (require-Ends P P _ finalizing s (λ _. h) h)
        (λ _ t k. require-Ends P P _ not_measured t (λ _. k) k)

  of_evaluator-Working :
      (s : Rollout) (o : Outcome Candidate)
      → IsPrepared m s
      → (o.1).default ≡ (s.evaluator).default
      → Leaves (IsSound m.planner) (Recorded m.planner) o
      → Ends (IsPrepared m) (Working m) (of_evaluator s o)
  of_evaluator-Working s (ok c, e) k same (sound, last) = (
    record {
      sound = sound;
      unpaired = k.unpaired;
      timed = ap (default_timed m.floats s.measurement) same ∙ k.timed;
    },
    last,
  )
  of_evaluator-Working s (err f, e) k same sound = record {
    sound = sound;
    unpaired = k.unpaired;
    timed = ap (default_timed m.floats s.measurement) same ∙ k.timed;
  }

  pub evaluate-Ends :
      (raw : Json) (s : Rollout)
      → KeysTell m.planner
      → IsPrepared m s
      → Ends (IsPrepared m) (λ _. IsPrepared m) (evaluate m raw s)
  unfolding evaluate
  evaluate-Ends raw s tell k =
      after-Ends (IsPrepared m) (λ _. IsPrepared m) (λ _. IsPrepared m) (attempt_allowed m s) _
        (attempt_allowed-Ends (IsPrepared m) s k)
        (λ _ t l.
          after-Ends (IsPrepared m) (Working m) (λ _. IsPrepared m)
            (on_evaluator (Validation.evaluate m.planner m.world raw) t) _
            (of_evaluator-Working t (Validation.evaluate m.planner m.world raw t.evaluator) l
              (evaluate-default m.planner m.world raw t.evaluator)
              (evaluate-Leaves m.planner m.world raw t.evaluator tell l.sound))
            (λ c u w.
              either-Ends (IsPrepared m) (λ _. IsPrepared m) _ (pure c)
                (give_feedback m c (u.evaluator).default) u (λ _. w.0)
                (λ _. give_feedback-Ends c (u.evaluator).default u w)))

  pub reject_attempt-Ends :
      (arguments : Json) (diagnostics : List String) (s : Rollout)
      → KeysTell m.planner
      → IsPrepared m s
      → Ends (IsPrepared m) (λ _. IsPrepared m) (reject_attempt m arguments diagnostics s)
  unfolding reject_attempt
  reject_attempt-Ends arguments diagnostics s tell k =
      after-Ends (IsPrepared m) (λ _. IsPrepared m) (λ _. IsPrepared m) (attempt_allowed m s) _
        (attempt_allowed-Ends (IsPrepared m) s k)
        (λ _ t l.
          weaken-Ends (IsPrepared m) (IsPrepared m) (Working m) (λ _. IsPrepared m)
            (on_evaluator (Validation.reject_attempt m.planner m.world arguments diagnostics) t)
            (λ u b. b) (λ _ u w. w.0)
            (of_evaluator-Working t
              (Validation.reject_attempt m.planner m.world arguments diagnostics t.evaluator) l
              (reject_attempt-default m.planner m.world arguments diagnostics t.evaluator)
              (reject_attempt-Leaves m.planner m.world arguments diagnostics t.evaluator tell
                l.sound)))
