-- ===== src/Measure/Rollout/Paired.antt =====
-- Where `execute_pair` of src/qorl/measure/rollout.py returns, and its loops.
use qorl.Prelude.{
  ℕ, zero, suc, ◌+◌, ◌≡◌, refl, ap, ◌∙◌, ◌⊎◌, inl, inr, Bool, true, false, arith, nat_eq, string_eq,
  Result, ok,
}
use mathlib.Core.Path.{subst}
use qorl.Measure.Schemas.{Candidate}
use qorl.Measure.Planner.{Reply, timed_out}
use qorl.Measure.Evidence.{MeasuredPlan, default, candidate, same_plan}
use qorl.Measure.Rollout.{RolloutError, Rollout, Machine, Run, check_cancelled, execute}
use qorl.Measure.Rollout.Attempts.{either}
use qorl.Measure.Rollout.Pairing.{
  on_pairs, add_pair, half_reply, half_timeout, half_hint, run_half, execute_pair, execute_pairs,
}
use qorl.Measure.Rollout.Steps.{
  after-ok, SameFacts, SameFacts-trans, check_cancelled-Quiet, execute-Quiet,
}
use qorl.Measure.Rollout.Pairs.{
  Ran, Ran-after, Cut, Cut-after, half_reply-Ran, half_reply-Cut, set_paired-SameFacts,
}
use qorl.Measure.Rollout.Gathered.{
  ReportsLimit, counted, counted-SameFacts, AllRan, added, Ran-AllRan, AllRan-none, AllRan-then,
}

-- The worker reports the limit that a query has exceeded.
module _ (m : Machine) where
  run_half-steps :
      (warmup : Bool) (c : Candidate) (role : MeasuredPlan) (r : Bool) (s s' : Rollout)
      → run_half m warmup c role s ≡ (ok r, s')
      → (reply : Reply) × (t u : Rollout) × SameFacts s t
        × SameFacts s u
        × (u.paired ≡ s.paired)
        × ((m.world).explain
              (t.evaluator).calls
              (m.world).sql
              (half_timeout m role t)
              true
              (half_hint m role c)
            ≡ reply)
        × (half_reply m warmup c role reply u ≡ (ok r, s'))
  unfolding run_half
  run_half-steps warmup c role r s s' h =
      let (_, s₁, unset, h₁) = after-ok (check_cancelled m s) _ r s' h in
      let quiet = check_cancelled-Quiet m (ok tt) s s₁ unset in
      let t = counted warmup role s₁ in
      let (reply, u, answered, h₂) =
        after-ok (execute m (half_timeout m role t) (half_hint m role c) t)
          (half_reply m warmup c role) r s' h₁ in
      let (quiet', reply_is) = execute-Quiet m _ _ reply t u answered in
      let same = SameFacts-trans s s₁ t quiet.same_facts (counted-SameFacts warmup role s₁) in
      (
        reply,
        t,
        u,
        same,
        SameFacts-trans s t u same quiet'.same_facts,
        quiet'.same_paired ∙ quiet.same_paired,
        reply_is,
        h₂,
      )

  run_half-Ran :
      (warmup : Bool) (c : Candidate) (role : MeasuredPlan) (s s' : Rollout)
      → run_half m warmup c role s ≡ (ok true, s')
      → Ran warmup c role s s'
  run_half-Ran warmup c role s s' h =
      let (reply, _, u, _, same, paired, _, ended) = run_half-steps warmup c role true s s' h in
      Ran-after warmup c role s u s' same paired (half_reply-Ran m warmup c role reply u s' ended)

  timeout_is :
      (role : MeasuredPlan) (c : Candidate) (limit : ℕ) (reply : Reply) (t : Rollout)
      → ReportsLimit m.world
      → role ≡ candidate
      → reply ≡ timed_out limit
      → (m.world).explain
          (t.evaluator).calls
          (m.world).sql
          (half_timeout m role t)
          true
          (half_hint m role c)
        ≡ reply
      → limit ≡ (t.evaluator).timeout_ms
  timeout_is candidate c limit reply t reports is_candidate is_timeout answered =
      reports _ _ _ _ _ _ (answered ∙ is_timeout)
  timeout_is default c limit reply t reports is_candidate is_timeout answered = cc

  run_half-Cut :
      (warmup : Bool) (c : Candidate) (role : MeasuredPlan) (s s' : Rollout)
      → ReportsLimit m.world
      → run_half m warmup c role s ≡ (ok false, s')
      → Cut c (s.evaluator).timeout_ms s s'
  run_half-Cut warmup c role s s' reports h =
      let (reply, t, u, same_t, same, paired, answered, ended) =
        run_half-steps warmup c role false s s' h in
      let (limit, is_timeout, is_candidate, k) = half_reply-Cut m warmup c role reply u s' ended in
      let at =
        timeout_is role c limit reply t reports is_candidate is_timeout answered
        ∙ same_t.same_limit in
      subst (λ l. Cut c l s s') at (Cut-after c limit s u s' same k)

  pub either-true :
      {A : Type 0} (b : Bool) (first second : Run A) (s : Rollout)
      (r : Result RolloutError A × Rollout)
      → either b first second s ≡ r
      → ((b ≡ true) × (first s ≡ r)) ⊎ ((b ≡ false) × (second s ≡ r))
  either-true true first second s r h = inl (refl, h)
  either-true false first second s r h = inr (refl, h)

  execute_pair-AllRan :
      (warmup : Bool) (c : Candidate) (order : MeasuredPlan × MeasuredPlan) (s s' : Rollout)
      → same_plan order.0 order.1 ≡ false
      → execute_pair m warmup c order s ≡ (ok true, s')
      → AllRan warmup c 1 s s'
  unfolding execute_pair
  execute_pair-AllRan warmup c order s s' differ h =
      let s₁ = added warmup order s in
      let (went, s₂, first_half, h₁) = after-ok (run_half m warmup c order.0 s₁) _ true s' h in
      elim (either-true went _ _ s₂ _ h₁) [
        | inr (stopped, h₂) ↦ cc (ap (λ y. y.0) h₂)
        | inl (on, h₂) ↦
            Ran-AllRan warmup c order s s₂ s' differ
              (run_half-Ran warmup c order.0 s₁ s₂ (first_half ∙ ap (λ b. (ok b, s₂)) on))
              (run_half-Ran warmup c order.1 s₂ s' h₂)
      ]

  pub execute_pairs-AllRan :
      (warmup : Bool) (c : Candidate) (order : ℕ → MeasuredPlan × MeasuredPlan) (i n : ℕ)
      (s s' : Rollout)
      → ((j : ℕ) → same_plan (order j).0 (order j).1 ≡ false)
      → execute_pairs m warmup c order i n s ≡ (ok true, s')
      → AllRan warmup c n s s'
  unfolding execute_pairs
  execute_pairs-AllRan warmup c order i zero s s' differ h =
      AllRan-none warmup c s s' (ap (λ y. y.1) h)
  execute_pairs-AllRan warmup c order i (suc n) s s' differ h =
      let (went, t, pair, h₁) = after-ok (execute_pair m warmup c (order i) s) _ true s' h in
      elim (either-true went _ _ t _ h₁) [
        | inr (stopped, h₂) ↦ cc (ap (λ y. y.0) h₂)
        | inl (on, h₂) ↦
            subst (λ k. AllRan warmup c k s s') (omega arith)
              (AllRan-then warmup c 1 n s t s'
                (execute_pair-AllRan warmup c (order i) s t (differ i)
                  (pair ∙ ap (λ b. (ok b, t)) on))
                (execute_pairs-AllRan warmup c order (i + 1) n t s' differ h₂))
      ]

  execute_pair-Cut :
      (warmup : Bool) (c : Candidate) (order : MeasuredPlan × MeasuredPlan) (s s' : Rollout)
      → ReportsLimit m.world
      → execute_pair m warmup c order s ≡ (ok false, s')
      → Cut c (s.evaluator).timeout_ms s s'
  unfolding execute_pair
  execute_pair-Cut warmup c order s s' reports h =
      let s₁ = added warmup order s in
      let same = set_paired-SameFacts (on_pairs warmup (add_pair order)) s in
      let (went, s₂, first_half, h₁) = after-ok (run_half m warmup c order.0 s₁) _ false s' h in
      elim (either-true went _ _ s₂ _ h₁) [
        | inr (stopped, h₂) ↦
            let ended : run_half m warmup c order.0 s₁ ≡ (ok false, s') =
              first_half ∙ ap (λ b. (ok b, s₂)) stopped ∙ h₂ in
            Cut-after c (s.evaluator).timeout_ms s s₁ s' same
              (run_half-Cut warmup c order.0 s₁ s' reports ended)
        | inl (on, h₂) ↦
            let a = run_half-Ran warmup c order.0 s₁ s₂ (first_half ∙ ap (λ b. (ok b, s₂)) on) in
            let through = SameFacts-trans s s₁ s₂ same a.ran_same in
            Cut-after c (s.evaluator).timeout_ms s s₂ s' through (
              subst (λ l. Cut c l s₂ s') through.same_limit
                (run_half-Cut warmup c order.1 s₂ s' reports h₂))
      ]

  pub execute_pairs-Cut :
      (warmup : Bool) (c : Candidate) (order : ℕ → MeasuredPlan × MeasuredPlan) (i n : ℕ)
      (s s' : Rollout)
      → ReportsLimit m.world
      → ((j : ℕ) → same_plan (order j).0 (order j).1 ≡ false)
      → execute_pairs m warmup c order i n s ≡ (ok false, s')
      → Cut c (s.evaluator).timeout_ms s s'
  unfolding execute_pairs
  execute_pairs-Cut warmup c order i zero s s' reports differ h = cc (ap (λ y. y.0) h)
  execute_pairs-Cut warmup c order i (suc n) s s' reports differ h =
      let (went, t, pair, h₁) = after-ok (execute_pair m warmup c (order i) s) _ false s' h in
      elim (either-true went _ _ t _ h₁) [
        | inr (stopped, h₂) ↦
            execute_pair-Cut warmup c (order i) s s' reports
              (pair ∙ ap (λ b. (ok b, t)) stopped ∙ h₂)
        | inl (on, h₂) ↦
            let a =
              execute_pair-AllRan warmup c (order i) s t (differ i)
                (pair ∙ ap (λ b. (ok b, t)) on) in
            Cut-after c (s.evaluator).timeout_ms s t s' a.all_same (
              subst (λ l. Cut c l t s') (a.all_same).same_limit
                (execute_pairs-Cut warmup c order (i + 1) n t s' reports differ h₂))
      ]
