-- ===== src/Measure/Rollout/Issued.antt =====
-- The operations of src/qorl/measure/validation.py that issue an attempt, and the attempts they leave.
use qorl.Prelude.{
  ◌+◌, String, ◌≡◌, refl, ap, ◌∙◌, Bool, true, false, not, Option, none, some, List, [], ◌∷◌, ◌++◌,
  if◌then◌else◌, nat_eq, string_eq, ok, err, lookup, set_default,
}
use qorl.Json.{Json}
use qorl.Measure.Schemas.{Candidate}
use qorl.Measure.Planner.{no_identity, Planner, World}
use qorl.Measure.Validation.{
  Evaluator, Outcome, ◌▷◌, next_id, check_attempt, record_attempt, identify, evaluate,
  reject_attempt, validate_candidate, action_of, check_cancelled,
}
use qorl.Measure.Validation.Invariant.{check_attempt-state, record_attempt-state, ▷-keeps}
use qorl.Measure.Validation.Issuing.{validate_candidate-Numbered}
use qorl.Measure.Rollout.Sound.{
  KeysTell, IsSound, IsLast, SameAttempts, SameAttempts-IsSound, SameAttempts-refl, same-share,
  append-IsSound, Leaves, ▷-Leaves, then-Leaves, Attempt, issued-Fits, read_candidate-Leaves,
}

-- `identify`, by what it asks of the candidate.
identify_as : Bool → Option String → Option String → Candidate → Evaluator → Outcome Candidate
identify_as satisfied structure key c e = if not satisfied then (ok c, e) else elim structure [
  | none ↦ (err no_identity, e)
  | some s ↦ elim key [
    | none ↦ (err no_identity, e)
    | some k ↦ (
      ok (record c {
        structural_duplicate_of = lookup s e.by_structure;
        duplicate_of = lookup k e.by_reuse_key;
      }),
      record e {
        by_structure = set_default s c.candidate_id e.by_structure;
        by_reuse_key = set_default k c.candidate_id e.by_reuse_key;
      },
    )
  ]
]

-- An attempt that is added.
abbrev pub Recorded : Planner → Candidate → Evaluator → Type 0
Recorded planner c e = IsSound planner e × IsLast c e

identify_as-default :
    (satisfied : Bool) (structure key : Option String) (c : Candidate) (e : Evaluator)
    → ((identify_as satisfied structure key c e).1).default ≡ e.default
unfolding identify_as
identify_as-default false structure key c e = refl
identify_as-default true none key c e = refl
identify_as-default true (some s) none c e = refl
identify_as-default true (some s) (some k) c e = refl

module _ (planner : Planner) (world : World) (e : Evaluator) where
  identify_as-Leaves :
      (satisfied : Bool) (structure key : Option String) (c : Candidate) (e' : Evaluator)
      → Attempt e c e'
      → Leaves (SameAttempts e) (Attempt e) (identify_as satisfied structure key c e')
  unfolding identify_as
  identify_as-Leaves false structure key c e' a = a
  identify_as-Leaves true none key c e' a = a.0
  identify_as-Leaves true (some s) none c e' a = a.0
  identify_as-Leaves true (some s) (some k) c e' (same, new, fits) = (
    record { same_candidates = same.same_candidates; same_default = same.same_default },
    new,
    record { cutoff = fits.cutoff; share = same-share e.default c _ refl refl fits.share },
  )

  record_attempt-Leaves :
      (c : Candidate) (e' : Evaluator)
      → IsSound planner e
      → Attempt e c e'
      → Leaves (IsSound planner) (Recorded planner) (record_attempt planner world c e')
  unfolding record_attempt check_cancelled next_id
  record_attempt-Leaves c e' k (same, new, fits) =
      let added : IsSound planner _ × IsLast c _ =
        append-IsSound planner c e
          (record e' { candidates = e'.candidates ++ c ∷ []; readings = e'.readings + 1 }) k new
          fits (ap (λ cs. cs ++ c ∷ []) same.same_candidates) same.same_default in
      ▷-Leaves (IsSound planner) (Recorded planner)
        (check_cancelled planner world (record e' { candidates = e'.candidates ++ c ∷ [] })) _
        added.0 (λ _ allowed. added)

  identify-Leaves :
      (c : Candidate) (e' : Evaluator)
      → IsSound planner e
      → Attempt e c e'
      → Leaves
          (IsSound planner)
          (Recorded planner)
          (identify planner world c e' ▷ λ d e''. record_attempt planner world d e'')
  unfolding identify identify_as
  identify-Leaves c e' k a =
      then-Leaves (SameAttempts e) (IsSound planner) (Attempt e) (Recorded planner)
        (identify planner world c e') _
        (identify_as-Leaves c.constraints_satisfied c.structural_plan_sha256 c.timing_reuse_key c e'
          a)
        (λ e'' same. SameAttempts-IsSound planner e e'' same k)
        (λ d e'' b. record_attempt-Leaves d e'' k b)

module _ (planner : Planner) (world : World) where
  checked : (e : Evaluator) → SameAttempts e (check_attempt planner world e).1
  checked e = record {
    same_candidates = ap (λ y. y.candidates) (check_attempt-state planner world e);
    same_default = ap (λ y. y.default) (check_attempt-state planner world e);
  }

  pub evaluate-Leaves :
      (raw : Json) (e : Evaluator)
      → KeysTell planner
      → IsSound planner e
      → Leaves (IsSound planner) (Recorded planner) (evaluate planner world raw e)
  unfolding evaluate validate_candidate
  evaluate-Leaves raw e tell k =
      let e₁ = (check_attempt planner world e).1 in
      let k₁ = SameAttempts-IsSound planner e e₁ (checked e) k in
      ▷-Leaves (IsSound planner) (Recorded planner) (check_attempt planner world e) _ k₁
        (λ _ allowed.
          then-Leaves (SameAttempts e₁) (IsSound planner) (Attempt e₁) (Recorded planner)
            (validate_candidate planner world raw e₁) _
            (read_candidate-Leaves planner tell world raw (planner.from_raw raw) e₁ k₁)
            (λ e₂ same. SameAttempts-IsSound planner e₁ e₂ same k₁)
            (λ c e₂ a. identify-Leaves planner world e₁ c e₂ k₁ a))

  pub reject_attempt-Leaves :
      (arguments : Json) (diagnostics : List String) (e : Evaluator)
      → KeysTell planner
      → IsSound planner e
      → Leaves
          (IsSound planner)
          (Recorded planner)
          (reject_attempt planner world arguments diagnostics e)
  unfolding reject_attempt
  reject_attempt-Leaves arguments diagnostics e tell k =
      let e₁ = (check_attempt planner world e).1 in
      let k₁ = SameAttempts-IsSound planner e e₁ (checked e) k in
      let raw = action_of planner world arguments in
      let fits = issued-Fits planner tell raw e₁ diagnostics k₁ in
      ▷-Leaves (IsSound planner) (Recorded planner) (check_attempt planner world e) _ k₁
        (λ _ allowed. record_attempt-Leaves planner world e₁ _ e₁ k₁ (
          SameAttempts-refl e₁,
          refl,
          record { cutoff = fits.cutoff; share = same-share e₁.default _ _ refl refl fits.share },
        ))

  identify-default :
      (c : Candidate) (e : Evaluator) → ((identify planner world c e).1).default ≡ e.default
  unfolding identify identify_as
  identify-default c e =
      identify_as-default c.constraints_satisfied c.structural_plan_sha256 c.timing_reuse_key c e

  pub evaluate-default :
      (raw : Json) (e : Evaluator) → ((evaluate planner world raw e).1).default ≡ e.default
  unfolding evaluate
  evaluate-default raw e =
      let e₁ = (check_attempt planner world e).1 in
      let e₂ = (validate_candidate planner world raw e₁).1 in
      let same₁ = (checked e).same_default in
      let (_, left, _) = validate_candidate-Numbered planner world raw e₁ in
      let same₂ = ap (λ y. y.default) left ∙ same₁ in
      ▷-keeps (λ y. y.default ≡ e.default) (check_attempt planner world e) _ (λ _ _. same₁)
        (λ _ _.
          ▷-keeps (λ y. y.default ≡ e.default) (validate_candidate planner world raw e₁) _
            (λ _ _. same₂)
            (λ c _.
              ▷-keeps (λ y. y.default ≡ e.default) (identify planner world c e₂) _
                (λ _ _. identify-default c e₂ ∙ same₂)
                (λ d _.
                  ap (λ y. y.default) (record_attempt-state planner world d _)
                  ∙ (identify-default c e₂ ∙ same₂))))

  pub reject_attempt-default :
      (arguments : Json) (diagnostics : List String) (e : Evaluator)
      → ((reject_attempt planner world arguments diagnostics e).1).default ≡ e.default
  unfolding reject_attempt
  reject_attempt-default arguments diagnostics e =
      let same = (checked e).same_default in
      ▷-keeps (λ y. y.default ≡ e.default) (check_attempt planner world e) _ (λ _ _. same)
        (λ _ _. ap (λ y. y.default) (record_attempt-state planner world _ _) ∙ same)
