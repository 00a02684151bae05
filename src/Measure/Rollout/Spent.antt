-- ===== src/Measure/Rollout/Spent.antt =====
-- The probes that an attempt runs, where it returns and where it raises.
use qorl.Prelude.{
  ℕ, zero, suc, ◌+◌, ◌≤◌, ◌≡◌, refl, ap, ◌∙◌, true, not, Option, none, some, arith, nat_eq,
  string_eq,
}
use qorl.Json.{Json}
use qorl.Numbers.{whole, number_le}
use qorl.Measure.Schemas.{Measurement, Baseline, Candidate, ExecutionFeedback}
use qorl.Measure.Planner.{Reply, explained, timed_out, broken}
use qorl.Measure.Evidence.{RolloutMeasurementSettings}
use qorl.Measure.Validation
use qorl.Measure.Rollout.{
  Rollout, Machine, Run, pure, require, on_evaluator, measured, execute, median_of,
  median_not_positive,
}
use qorl.Measure.Rollout.Attempts.{
  replace_last, set_candidates, map_feedback, mark_timeout, keep_probe_warmup, keep_probe,
  count_feedback, verify_execution, attempt_allowed, probe_timed_out, probe_reply, probe, probes,
  go_on, complete_feedback, probe_all, give_feedback, evaluate, is_reused, all_but_last,
  with_feedback, feedback_measurements,
}
use qorl.Measure.Rollout.Steps.{Quiet}
use qorl.Measure.Rollout.Probed.{verify_execution-Ends, measuring_probes}
use qorl.Measure.Rollout.Attempted.{attempt_allowed-Ends}
use qorl.Measure.Rollout.Triples.{
  Ends, weaken-Ends, after-Ends, either-Ends, require-Ends, lift-then, check_cancelled-then,
  of_evaluator-Ends,
}

-- At most `n` probes after a count of `c`, with these settings.
abbrev pub IsWithin : RolloutMeasurementSettings → ℕ → ℕ → Rollout → Type 0
IsWithin settings c n s =
    (s.measurement ≡ settings) × ((s.execution_counts).candidate_feedback ≤ c + n)

module _ (m : Machine) (settings : RolloutMeasurementSettings) (c most : ℕ) where
  abbrev Within : ℕ → Rollout → Type 0
  Within = IsWithin settings c

  more : (n k : ℕ) (s : Rollout) → n ≤ k → Within n s → Within k s
  more n k s h (same, bound) = (same, omega (arith, h, bound))

  still : (n : ℕ) (s s' : Rollout) → Quiet s s' → Within n s → Within n s'
  still n s s' q (same, bound) = (
    (q.same_facts).same_settings ∙ same,
    omega (arith, ap (λ y. y.candidate_feedback) q.same_counts, bound),
  )

  probe_reply-Within :
      (keep_run : Measurement → ExecutionFeedback → ExecutionFeedback) (d : Candidate)
      (reply : Reply) (n : ℕ) (s : Rollout)
      → Within n s
      → Ends (Within n) (λ _. Within n) (probe_reply m keep_run d reply s)
  unfolding probe_reply probe_timed_out mark_timeout
  probe_reply-Within keep_run d (broken text) n s w = w
  probe_reply-Within keep_run d (timed_out limit) n s w =
      after-Ends (Within n) (λ _. Within n) (λ _. Within n) (probe_timed_out m d limit s) _
        (check_cancelled-then m (Within n) (Within n) (λ _. Within n) _ _ (still n) (λ t k. k) w
          (λ t k. k))
        (λ _ t k. k)
  probe_reply-Within keep_run d (explained result) n s w =
      lift-then (Within n) (λ _. Within n) (measured m result) s _ w
        (λ x.
          let seen = map_feedback (keep_run x) d in
          check_cancelled-then m (Within n) (Within n) (λ _. Within n)
            (set_candidates (replace_last seen) s) _ (still n) (λ t k. k) w
            (λ t k.
              after-Ends (Within n) (λ _. Within n) (λ _. Within n)
                (verify_execution m seen result x t) _
                (verify_execution-Ends m seen result x (Within n) t k) (λ _ u l. l)))

  probe-Within :
      (keep_run : Measurement → ExecutionFeedback → ExecutionFeedback) (d : Candidate) (n : ℕ)
      (s : Rollout)
      → Within n s
      → Ends (Within (n + 1)) (λ _. Within (n + 1)) (probe m keep_run d s)
  unfolding probe
  probe-Within keep_run d n s w =
      check_cancelled-then m (Within n) (Within (n + 1)) (λ _. Within (n + 1)) s _ (still n)
        (λ t k. more n (n + 1) t (omega arith) k) w
        (λ t k.
          probe_reply-Within keep_run d
            ((m.world).explain (t.evaluator).calls (m.world).sql (t.evaluator).timeout_ms true
              d.compiled_hint)
            (n + 1) (execute m (t.evaluator).timeout_ms d.compiled_hint (count_feedback t)).1
            (k.0, omega (arith, k.1)))

  go_on-Within :
      (next : Candidate → Run (Option Candidate)) (n k : ℕ)
      → n ≤ k
      → ((d : Candidate) (s : Rollout) → Within n s → Ends (Within most) (λ _. Within k) (next d s))
      → (o : Option Candidate) (s : Rollout) → Within n s
      → Ends (Within most) (λ _. Within k) (go_on m next o s)
  go_on-Within next n k h later none s w = more n k s h w
  go_on-Within next n k h later (some d) s w = later d s w

  probes-Within :
      (keep_run : Measurement → ExecutionFeedback → ExecutionFeedback) (k n l : ℕ) (d : Candidate)
      (s : Rollout)
      → n + k ≤ l
      → l ≤ most
      → Within n s
      → Ends (Within most) (λ _. Within l) (probes m keep_run k d s)
  unfolding probes
  probes-Within keep_run zero n l d s h j w = more n l s (omega (arith, h)) w
  probes-Within keep_run (suc k) n l d s h j w =
      after-Ends (Within most) (λ _. Within (n + 1)) (λ _. Within l) (probe m keep_run d s) _
        (weaken-Ends (Within (n + 1)) (Within most) (λ _. Within (n + 1)) (λ _. Within (n + 1))
          (probe m keep_run d s) (λ t. more (n + 1) most t (omega (arith, h, j))) (λ _ t v. v)
          (probe-Within keep_run d n s w))
        (go_on-Within (λ x. probes m keep_run k x) (n + 1) l (omega (arith, h))
          (λ x t v. probes-Within keep_run k (n + 1) l x t (omega (arith, h)) j v))

  complete_feedback-Within :
      (d : Candidate) (o : Option Candidate) (s : Rollout)
      → Within most s
      → Ends (Within most) (λ _. Within most) (complete_feedback m d o s)
  unfolding complete_feedback
  complete_feedback-Within d none s w = w
  complete_feedback-Within d (some x) s w =
      lift-then (Within most) (λ _. Within most) (median_of m.floats (feedback_measurements x)) s _
        w
        (λ y.
          after-Ends (Within most) (λ _. Within most) (λ _. Within most)
            (require (not (number_le y (whole 0))) median_not_positive s) _
            (require-Ends (Within most) (Within most) _ median_not_positive s (λ _. w) w)
            (λ _ t v. v))

  probe_all-Within :
      (d : Candidate) (s : Rollout)
      → settings.candidate_feedback_warmups + settings.candidate_feedback_measurements ≤ most
      → Within 0 s
      → Ends (Within most) (λ _. Within most) (probe_all m d s)
  unfolding probe_all
  probe_all-Within d s h w =
      let warm = (s.measurement).candidate_feedback_warmups in
      let timed = (s.measurement).candidate_feedback_measurements in
      let room : warm + timed ≤ most = omega (
        arith,
        h,
        ap (λ y. y.candidate_feedback_warmups) w.0,
        ap (λ y. y.candidate_feedback_measurements) w.0,
      ) in
      after-Ends (Within most) (λ _. Within warm) (λ _. Within most)
        (probes m keep_probe_warmup warm d (record s { operation = "candidate_feedback_warmup" })) _
        (probes-Within keep_probe_warmup warm 0 warm d _ (omega arith) (omega (arith, room)) w)
        (λ o t v.
          after-Ends (Within most) (λ _. Within most) (λ _. Within most)
            (go_on m (measuring_probes m timed) o t) _
            (go_on-Within (measuring_probes m timed) warm most (omega (arith, room))
              (λ x u y. probes-Within keep_probe timed warm most x _ room (omega arith) y) o t v)
            (λ p u y. complete_feedback-Within d p u y))

  give_feedback-Within :
      (d : Candidate) (o : Option Baseline) (s : Rollout)
      → settings.candidate_feedback_warmups + settings.candidate_feedback_measurements ≤ most
      → Within 0 s
      → Ends (Within most) (λ _. Within most) (give_feedback m d o s)
  unfolding give_feedback
  give_feedback-Within d none s h w = more 0 most s (omega arith) w
  give_feedback-Within d (some b) s h w =
      let x = with_feedback b (all_but_last (s.evaluator).candidates) d in
      either-Ends (Within most) (λ _. Within most) (is_reused x) (pure x) (probe_all m x)
        (set_candidates (replace_last x) s) (λ _. more 0 most s (omega arith) w)
        (λ _. probe_all-Within x (set_candidates (replace_last x) s) h w)

-- Whether it returns or raises, an attempt runs at most the probes that the settings ask for.
pub evaluate-IsWithin :
    (m : Machine) (raw : Json) (s : Rollout)
    → Ends
        (IsWithin s.measurement (s.execution_counts).candidate_feedback (
          (s.measurement).candidate_feedback_warmups
          + (s.measurement).candidate_feedback_measurements))
        (λ c. IsWithin s.measurement (s.execution_counts).candidate_feedback (
          (s.measurement).candidate_feedback_warmups
          + (s.measurement).candidate_feedback_measurements))
        (evaluate m raw s)
unfolding evaluate
evaluate-IsWithin m raw s =
    let n = (s.execution_counts).candidate_feedback in
    let most =
      (s.measurement).candidate_feedback_warmups
      + (s.measurement).candidate_feedback_measurements in
    let P : ℕ → Rollout → Type 0 = IsWithin s.measurement n in
    let enough : (t : Rollout) → P 0 t → P most t =
      λ t. more m s.measurement n most 0 most t (omega arith) in
    after-Ends (P most) (λ _. P 0) (λ _. P most) (attempt_allowed m s) _
      (weaken-Ends (P 0) (P most) (λ _. P 0) (λ _. P 0) (attempt_allowed m s) enough (λ _ t v. v)
        (attempt_allowed-Ends m (P 0) s (refl, omega arith)))
      (λ _ t v.
        after-Ends (P most) (λ _. P 0) (λ _. P most)
          (on_evaluator (Validation.evaluate m.planner m.world raw) t) _
          (weaken-Ends (P 0) (P most) (λ _. P 0) (λ _. P 0)
            (on_evaluator (Validation.evaluate m.planner m.world raw) t) enough (λ _ u y. y)
            (of_evaluator-Ends (P 0) t (Validation.evaluate m.planner m.world raw t.evaluator) v))
          (λ d u y.
            either-Ends (P most) (λ _. P most) _ (pure d) (give_feedback m d (u.evaluator).default)
              u (λ _. enough u y)
              (λ _.
                give_feedback-Within m s.measurement n most d (u.evaluator).default u (omega arith)
                  y)))
