-- ===== src/Measure/Validation/Issuing.antt =====
-- The operations that issue attempts keep the state of a rollout coherent.
use mathlib.Core.Path.{subst}
use qorl.Prelude.{
  ℕ, ◌+◌, ◌-◌, ◌<◌, String, ◌≡◌, refl, sym, ap, ◌∙◌, true, false, Option, none, some, List, [], ◌∷◌,
  ◌++◌, nat_eq, string_eq, length, Result, ok, err, lookup-assign, is_none,
}
use qorl.Json.{Json}
use qorl.Plans.Schemas.Action.{PlanAction}
use qorl.Measure.Schemas.{Candidate}
use qorl.Measure.Planner.{Failure, Planner, World, Reply, Explained, explained, timed_out, broken}
use qorl.Measure.Validation.{
  Evaluator, Outcome, next_id, compiled, issued, reply_candidate, read_candidate,
  validate_candidate, check_attempt, record_attempt, identify, evaluate, reject_attempt, start,
  reply_default, explain_default, check_cancelled, with_default, action_of, baseline_of,
}
use qorl.Measure.Validation.Invariant.{
  if-keeps, IsCoherent, number_of, ▷-keeps, check_attempt-state, check_attempt-allowed,
  record_attempt-state,
}
use qorl.Measure.Validation.Issue.{issue-IsCoherent}
use qorl.Measure.Validation.Attempts.{
  unsatisfied-Identified, identify-Unchanged, Identified, identify-Identified, tick-IsCoherent,
}

abbrev pub Numbered : Evaluator → Outcome Candidate → Type 0
Numbered e o =
    (calls : ℕ) × (o.1 ≡ record e { calls = calls })
    × ((c : Candidate)
        → o.0 ≡ ok c
        → number_of c ≡ (next_id e, e.max_candidates - length e.candidates - 1))

is_none-none {ℓ} : {A : Type ℓ} (o : Option A) → is_none o ≡ true → o ≡ none
is_none-none none h = refl
is_none-none (some a) h = cc

ok-inj : (x y : Candidate) → ◌≡◌ {A = Result Failure Candidate} (ok x) (ok y) → x ≡ y
ok-inj x y h = cc

module _ (planner : Planner) (world : World) where
  reply_candidate-Numbered :
      (e : Evaluator) (calls : ℕ) (x : Candidate) (action : PlanAction) (reply : Reply)
      → number_of x ≡ (next_id e, e.max_candidates - length e.candidates - 1)
      → Numbered e (reply_candidate planner world x action reply (record e { calls = calls }))
  unfolding reply_candidate
  reply_candidate-Numbered e calls x action (broken text) new = (calls, refl, λ c h. cc)
  reply_candidate-Numbered e calls x action (timed_out limit) new =
      (calls, refl, λ c h. ap number_of (sym (ok-inj _ _ h)) ∙ new)
  reply_candidate-Numbered e calls x action (explained plain) new =
      (calls, refl, λ c h. ap number_of (sym (ok-inj _ _ h)) ∙ new)

  read_candidate-Numbered :
      (raw : Json) (read : Result String PlanAction) (e : Evaluator)
      → Numbered e (read_candidate planner world raw read e)
  unfolding read_candidate
  read_candidate-Numbered raw (err text) e =
      (e.calls, refl, λ c h. ap number_of (sym (ok-inj _ _ h)))
  read_candidate-Numbered raw (ok action) e =
      reply_candidate-Numbered e (e.calls + 1) (compiled planner world (issued e raw) action) action
        _ refl

  pub validate_candidate-Numbered :
      (raw : Json) (e : Evaluator) → Numbered e (validate_candidate planner world raw e)
  unfolding validate_candidate
  validate_candidate-Numbered raw e = read_candidate-Numbered raw (planner.from_raw raw) e

  check_cancelled-IsCoherent :
      (e : Evaluator) → IsCoherent e → IsCoherent (check_cancelled planner world e).1
  unfolding check_cancelled
  check_cancelled-IsCoherent e k = tick-IsCoherent e e.calls (e.readings + 1) k

  check_attempt-IsCoherent :
      (e : Evaluator) → IsCoherent e → IsCoherent (check_attempt planner world e).1
  check_attempt-IsCoherent e k =
      rw (check_attempt-state planner world e) (tick-IsCoherent e e.calls (e.readings + 1) k)

  -- The state in which an attempt that was let through is issued.
  Open : Evaluator → Type 0
  Open e = IsCoherent e × (is_none e.default ≡ false) × (length e.candidates < e.max_candidates)

  check_attempt-Open :
      (e : Evaluator)
      → IsCoherent e
      → (check_attempt planner world e).0 ≡ ok tt
      → Open (check_attempt planner world e).1
  unfolding Open
  check_attempt-Open e k h =
      let (started, _, room) = check_attempt-allowed planner world e h in
      rw (check_attempt-state planner world e)
        (tick-IsCoherent e e.calls (e.readings + 1) k, started, room)

  -- Recording an attempt that has been identified.
  record-IsCoherent :
      (e e' : Evaluator) (c c' : Candidate)
      → Open e
      → number_of c ≡ (next_id e, e.max_candidates - length e.candidates - 1)
      → Identified e c c' e'
      → IsCoherent (record_attempt planner world c' e').1
  unfolding Open
  record-IsCoherent e e' c c' (k, started, room) new found =
      rw (record_attempt-state planner world c' e') (
        subst
          (λ x.
            IsCoherent
              (record x { candidates = x.candidates ++ c' ∷ []; readings = x.readings + 1 }))
          (sym found.left)
          (issue-IsCoherent e c' found.structures found.reuse e.calls (e.readings + 1) k started
            room (found.same_number ∙ new) found.entered found.keyed))

  called-Open : (e e' : Evaluator) (calls : ℕ) → e' ≡ record e { calls = calls } → Open e → Open e'
  unfolding Open
  called-Open e e' calls same (k, started, room) =
      subst
        (λ x. IsCoherent x × (is_none x.default ≡ false) × (length x.candidates < x.max_candidates))
        (sym same) (tick-IsCoherent e calls e.readings k, started, room)

  pub evaluate-IsCoherent :
      (raw : Json) (e : Evaluator) → IsCoherent e → IsCoherent (evaluate planner world raw e).1
  unfolding evaluate Open next_id
  evaluate-IsCoherent raw e k =
      ▷-keeps IsCoherent (check_attempt planner world e) _ (λ _ _. check_attempt-IsCoherent e k)
        (λ _ allowed.
          let e₁ = (check_attempt planner world e).1 in
          let (calls, left, new) = validate_candidate-Numbered raw e₁ in
          let open₂ =
            called-Open e₁ (validate_candidate planner world raw e₁).1 calls left
              (check_attempt-Open e k allowed) in
          ▷-keeps IsCoherent (validate_candidate planner world raw e₁) _ (λ _ _. open₂.0)
            (λ c validated.
              let e₂ = (validate_candidate planner world raw e₁).1 in
              let numbered =
                subst (λ x. number_of c ≡ (next_id x, x.max_candidates - length x.candidates - 1))
                  (sym left) (new c validated) in
              ▷-keeps IsCoherent (identify planner world c e₂) _
                (λ f raised.
                  subst IsCoherent (sym (identify-Unchanged planner world c e₂ f raised)) open₂.0)
                (λ c' found.
                  record-IsCoherent e₂ (identify planner world c e₂).1 c c' open₂ numbered
                    (identify-Identified planner world c e₂ c' found))))

  pub reject_attempt-IsCoherent :
      (arguments : Json) (diagnostics : List String) (e : Evaluator)
      → IsCoherent e
      → IsCoherent (reject_attempt planner world arguments diagnostics e).1
  unfolding reject_attempt Open
  reject_attempt-IsCoherent arguments diagnostics e k =
      ▷-keeps IsCoherent (check_attempt planner world e) _ (λ _ _. check_attempt-IsCoherent e k)
        (λ _ allowed.
          let e₁ = (check_attempt planner world e).1 in
          let c = record (issued e₁ (action_of planner world arguments)) {
            rejected_tool_arguments = arguments;
            errors_or_diagnostics = diagnostics;
          } in
          record-IsCoherent e₁ e₁ c c (check_attempt-Open e k allowed) refl
            (unsatisfied-Identified planner world c e₁ refl))

  with_default-IsCoherent :
      (plain : Explained) (e : Evaluator)
      → e.default ≡ none
      → IsCoherent e
      → IsCoherent (with_default planner world plain e)
  with_default-IsCoherent plain e none_yet k =
      let b = baseline_of planner world plain in
      record {
        bounded = k.bounded;
        numbered = k.numbered;
        started = refl;
        structures = λ key.
            rw
              (
                lookup-assign (planner.structural_plan_sha256 plain.plan) key "default"
                    e.by_structure,
                k.structures key,
                none_yet,
              )
              refl;
        reuse_keys = λ key.
            rw
              (
                lookup-assign (planner.timing_reuse_key (planner.plan_sha256 plain.plan) none) key
                    "default" e.by_reuse_key,
                k.reuse_keys key,
                none_yet,
              )
              refl;
        settled = k.settled;
        chosen = k.chosen;
      }

  reply_default-IsCoherent :
      (reply : Reply) (e : Evaluator)
      → e.default ≡ none
      → IsCoherent e
      → IsCoherent (reply_default planner world reply e).1
  unfolding reply_default
  reply_default-IsCoherent (broken text) e none_yet k = k
  reply_default-IsCoherent (timed_out limit) e none_yet k = k
  reply_default-IsCoherent (explained plain) e none_yet k =
      let kept =
        check_cancelled-IsCoherent (with_default planner world plain e)
          (with_default-IsCoherent plain e none_yet k) in
      ▷-keeps IsCoherent (check_cancelled planner world (with_default planner world plain e)) _
        (λ _ _. kept) (λ _ _. kept)

  pub start-IsCoherent : (e : Evaluator) → IsCoherent e → IsCoherent (start planner world e).1
  unfolding start explain_default check_cancelled
  start-IsCoherent e k =
      if-keeps IsCoherent (is_none e.default) _ _
        (λ none_yet.
          ▷-keeps IsCoherent (check_cancelled planner world e) _
            (λ _ _. check_cancelled-IsCoherent e k)
            (λ _ _.
              reply_default-IsCoherent _
                (record e { calls = e.calls + 1; readings = e.readings + 1 })
                (is_none-none e.default none_yet)
                (tick-IsCoherent e (e.calls + 1) (e.readings + 1) k)))
        (λ _. k)
