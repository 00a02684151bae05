-- ===== src/Measure/Rollout/Probed.antt =====
-- The probes of an attempt, of src/qorl/measure/rollout.py, and what a finish asks for.
use qorl.Prelude.{
  ℕ, zero, suc, String, refl, true, not, Option, none, some, nat_eq, string_eq, is_empty,
}
use qorl.Measure.Schemas
use qorl.Measure.Schemas.{Measurement, Baseline, Candidate, ExecutionFeedback}
use qorl.Measure.Planner.{Explained, Reply, explained, timed_out, broken}
use qorl.Numbers.{whole, number_le}
use qorl.Measure.Rollout.{
  Rollout, Machine, Run, ◌>>◌, require, measured, execute, median_of, median_not_positive,
  in_operation, plan_changed, hints_changed,
}
use qorl.Measure.Rollout.Attempts.{
  replace_last, set_candidates, map_feedback, mark_timeout, keep_probe_warmup, keep_probe,
  count_feedback, verify_execution, or_invalid_action, probe_timed_out, probe_reply, probe, probes,
  go_on, complete_feedback, probe_all, feedback_measurements,
}
use qorl.Measure.Rollout.Sound.{SameAttempts, SameAttempts-IsLast}
use qorl.Measure.Rollout.Prepared.{
  IsPrepared, same-IsPrepared, Working, IsPrepared-still, Working-still, replace_last-Working,
  with_timeout-IsPrepared, map_feedback-Fits,
}
use qorl.Measure.Rollout.Triples.{
  Ends, weaken-Ends, after-Ends, require-Ends, lift-then, check_cancelled-then,
}

module _ (m : Machine) where
  change_feedback-Working :
      (change : ExecutionFeedback → ExecutionFeedback) (c : Candidate) (s : Rollout)
      → Working m c s
      → Working m (map_feedback change c) (set_candidates (replace_last (map_feedback change c)) s)
  change_feedback-Working change c s w =
      replace_last-Working m c (map_feedback change c) s w refl
        (map_feedback-Fits change (s.evaluator).default c (w.1).fits)

  pub verify_execution-Ends :
      (c : Candidate) (result : Explained) (x : Measurement) (P : Rollout → Type 0) (s : Rollout)
      → P s
      → Ends P (λ _. P) (verify_execution m c result x s)
  unfolding verify_execution
  verify_execution-Ends c result x P s h =
      lift-then P (λ _. P) (or_invalid_action ((m.planner).from_raw c.action)) s _ h
        (λ action.
          let errors = (m.planner).verify_action action result.plan result.hint_diagnostics in
          after-Ends P (λ _. P) (λ _. P) (require (is_empty errors) (hints_changed errors) s) _
            (require-Ends P P (is_empty errors) (hints_changed errors) s (λ _. h) h)
            (λ _ t k. require-Ends P P _ plan_changed t (λ _. k) k))

  probe_timed_out-Ends :
      (c : Candidate) (limit : ℕ) (s : Rollout)
      → Working m c s
      → Ends (IsPrepared m) (λ _. IsPrepared m) (probe_timed_out m c limit s)
  unfolding probe_timed_out mark_timeout
  probe_timed_out-Ends c limit s w =
      let change = λ (f : ExecutionFeedback). (record f {
        status = Schemas.timed_out;
        timeout_ms = some limit;
      }) in
      let cut = map_feedback change c in
      check_cancelled-then m (IsPrepared m) (IsPrepared m) (λ _. IsPrepared m) _ _
        (IsPrepared-still m) (λ t k. k)
        (with_timeout-IsPrepared m cut limit _ (change_feedback-Working change c s w))
        (λ t k. record { sound = k.sound; unpaired = k.unpaired; timed = k.timed })

  -- A candidate that goes on is the last attempt.
  abbrev Going : Option Candidate → Rollout → Type 0
  Going none s = IsPrepared m s
  Going (some c) s = Working m c s

  go_on-Ends :
      (next : Candidate → Run (Option Candidate))
      → ((c : Candidate) (s : Rollout) → Working m c s → Ends (IsPrepared m) Going (next c s))
      → (o : Option Candidate) (s : Rollout) → Going o s
      → Ends (IsPrepared m) Going (go_on m next o s)
  go_on-Ends next later none s k = k
  go_on-Ends next later (some c) s k = later c s k

  probe_reply-Ends :
      (keep_run : Measurement → ExecutionFeedback → ExecutionFeedback) (c : Candidate)
      (reply : Reply) (s : Rollout)
      → Working m c s
      → Ends (IsPrepared m) Going (probe_reply m keep_run c reply s)
  unfolding probe_reply
  probe_reply-Ends keep_run c (broken text) s w = w.0
  probe_reply-Ends keep_run c (timed_out limit) s w =
      after-Ends (IsPrepared m) (λ _. IsPrepared m) Going (probe_timed_out m c limit s) _
        (probe_timed_out-Ends c limit s w) (λ _ t k. k)
  probe_reply-Ends keep_run c (explained result) s w =
      lift-then (IsPrepared m) Going (measured m result) s _ w.0 (λ x.
        let d = map_feedback (keep_run x) c in
        check_cancelled-then m (Working m d) (IsPrepared m) Going _ _ (Working-still m d)
          (λ t k. k.0) (change_feedback-Working (keep_run x) c s w)
          (λ t k.
            after-Ends (IsPrepared m) (λ _. Working m d) Going (verify_execution m d result x t) _
              (weaken-Ends (Working m d) (IsPrepared m) (λ _. Working m d) (λ _. Working m d)
                (verify_execution m d result x t) (λ u l. l.0) (λ _ u l. l)
                (verify_execution-Ends d result x (Working m d) t k))
              (λ _ u l. l)))

  called-Working :
      (c : Candidate) (s : Rollout)
      → Working m c s
      → Working m c (execute m (s.evaluator).timeout_ms c.compiled_hint (count_feedback s)).1
  unfolding execute
  called-Working c s (k, l) =
      let same : SameAttempts s.evaluator
          (execute m (s.evaluator).timeout_ms c.compiled_hint (count_feedback s)).1.evaluator =
        record { same_candidates = refl; same_default = refl } in
      (same-IsPrepared m s _ same refl refl k, SameAttempts-IsLast c s.evaluator _ same l)

  probe-Ends :
      (keep_run : Measurement → ExecutionFeedback → ExecutionFeedback) (c : Candidate) (s : Rollout)
      → Working m c s
      → Ends (IsPrepared m) Going (probe m keep_run c s)
  unfolding probe
  probe-Ends keep_run c s w =
      check_cancelled-then m (Working m c) (IsPrepared m) Going s _ (Working-still m c) (λ t k. k.0)
        w
        (λ t k.
          probe_reply-Ends keep_run c
            ((m.world).explain (t.evaluator).calls (m.world).sql (t.evaluator).timeout_ms true
              c.compiled_hint)
            _ (called-Working c t k))

  probes-Ends :
      (keep_run : Measurement → ExecutionFeedback → ExecutionFeedback) (n : ℕ) (c : Candidate)
      (s : Rollout)
      → Working m c s
      → Ends (IsPrepared m) Going (probes m keep_run n c s)
  unfolding probes
  probes-Ends keep_run zero c s w = w
  probes-Ends keep_run (suc n) c s w =
      after-Ends (IsPrepared m) Going Going (probe m keep_run c s) _ (probe-Ends keep_run c s w)
        (go_on-Ends (λ d. probes m keep_run n d) (λ d t k. probes-Ends keep_run n d t k))

  abbrev pub measuring_probes : ℕ → Candidate → Run (Option Candidate)
  measuring_probes n d = in_operation "candidate_feedback_measurement" >> probes m keep_probe n d

  complete_feedback-Ends :
      (c : Candidate) (o : Option Candidate) (s : Rollout)
      → Going o s
      → Ends (IsPrepared m) (λ _. IsPrepared m) (complete_feedback m c o s)
  unfolding complete_feedback
  complete_feedback-Ends c none s k = k
  complete_feedback-Ends c (some d) s w =
      lift-then (IsPrepared m) (λ _. IsPrepared m) (median_of m.floats (feedback_measurements d)) s
        _ w.0
        (λ x.
          after-Ends (IsPrepared m) (λ _. Working m d) (λ _. IsPrepared m)
            (require (not (number_le x (whole 0))) median_not_positive s) _
            (weaken-Ends (Working m d) (IsPrepared m) (λ _. Working m d) (λ _. Working m d)
              (require (not (number_le x (whole 0))) median_not_positive s) (λ u l. l.0)
              (λ _ u l. l)
              (require-Ends (Working m d) (Working m d) _ median_not_positive s (λ _. w) w))
            (λ _ t k.
              let change = λ (f : ExecutionFeedback). (record f { status = Schemas.completed }) in
              let done = (change_feedback-Working change d t k).0 in
              record { sound = done.sound; unpaired = done.unpaired; timed = done.timed }))

  in_operation-Working :
      (operation : String) (c : Candidate) (s : Rollout)
      → Working m c s
      → Working m c (record s { operation = operation })
  in_operation-Working operation c s (k, l) =
      (record { sound = k.sound; unpaired = k.unpaired; timed = k.timed }, l)

  pub probe_all-Ends :
      (c : Candidate) (s : Rollout)
      → Working m c s
      → Ends (IsPrepared m) (λ _. IsPrepared m) (probe_all m c s)
  unfolding probe_all
  probe_all-Ends c s w =
      let n = (s.measurement).candidate_feedback_measurements in
      let warming = record s { operation = "candidate_feedback_warmup" } in
      after-Ends (IsPrepared m) Going (λ _. IsPrepared m)
        (probes m keep_probe_warmup (s.measurement).candidate_feedback_warmups c warming) _
        (probes-Ends keep_probe_warmup (s.measurement).candidate_feedback_warmups c warming
          (in_operation-Working "candidate_feedback_warmup" c s w))
        (λ o t k.
          after-Ends (IsPrepared m) Going (λ _. IsPrepared m) (go_on m (measuring_probes n) o t) _
            (go_on-Ends (measuring_probes n)
              (λ d u l.
                probes-Ends keep_probe n d _
                  (in_operation-Working "candidate_feedback_measurement" d u l))
              o t k)
            (λ p u l. complete_feedback-Ends c p u l))
