-- ===== src/Measure/Validation/Duplicates.antt =====
-- What `evaluate` says of the candidate that it returns.
use mathlib.Core.Path.{subst}
use qorl.Prelude.{
  String, ◌≡◌, refl, sym, ap, ◌∙◌, inl, inr, Bool, true, false, Option, none, some, [], ◌∷◌, ◌++◌,
  nat_eq, string_eq, Result, ok, err, lookup, Bool-cases, Option-cases,
}
use qorl.Json.{Json}
use qorl.Measure.Schemas.{Candidate}
use qorl.Plans.Schemas.Action.{PlanAction}
use qorl.Measure.Planner.{Failure, Planner, World, Reply, explained, timed_out, broken}
use qorl.Measure.Validation.{
  Evaluator, Outcome, ◌▷◌, check_cancelled, check_attempt, validate_candidate, identify,
  record_attempt, evaluate, reply_candidate, read_candidate, issued, compiled,
}
use qorl.Measure.Validation.Invariant.{
  IsCoherent, reuse_holder, structure_holder, check_attempt-state, record_attempt-state,
}
use qorl.Measure.Validation.Issuing.{validate_candidate-Numbered}
use qorl.Measure.Validation.Attempts.{
  Identified, identify-Identified, identify-unsatisfied, identify-unstructured, identify-unkeyed,
  identify-satisfied,
}

▷-ok :
    {A B : Type 0} (o : Outcome A) (next : A → Evaluator → Outcome B) (b : B)
    → (o ▷ next).0 ≡ ok b
    → (a : A) × (o.0 ≡ ok a) × ((next a o.1).0 ≡ ok b) × ((o ▷ next).1 ≡ (next a o.1).1)
▷-ok (ok a, e) next b h = (a, refl, h, refl)
▷-ok (err f, e) next b h = cc

-- The first plan before a candidate with the key `key`, where the candidate is a plan with one.
abbrev pub first_plan : Bool → Option String → (String → Option String) → Option String
first_plan false key holding = none
first_plan true none holding = none
first_plan true (some k) holding = holding k

first_plan-cong :
    (satisfied : Bool) (key : Option String) (f g : String → Option String)
    → ((k : String) → f k ≡ g k)
    → first_plan satisfied key f ≡ first_plan satisfied key g
first_plan-cong false key f g same = refl
first_plan-cong true none f g same = refl
first_plan-cong true (some k) f g same = same k

-- A candidate that names the plans that the maps hold for its keys, and no plan where it is none.
record Named (e : Evaluator) (c : Candidate) : Type 0 where
  pub structure :
      c.structural_duplicate_of
      ≡ first_plan c.constraints_satisfied c.structural_plan_sha256 (λ k. lookup k e.by_structure)
  pub reuse :
      c.duplicate_of
      ≡ first_plan c.constraints_satisfied c.timing_reuse_key (λ k. lookup k e.by_reuse_key)

-- A candidate that names no plan, where there is one.
IsBlank : Candidate → Type 0
IsBlank c = (c.structural_duplicate_of ≡ none) × (c.duplicate_of ≡ none)

AllBlank : Outcome Candidate → Type 0
AllBlank o = (c : Candidate) → o.0 ≡ ok c → IsBlank c

ok-Blank : (x : Candidate) (e : Evaluator) → IsBlank x → AllBlank (ok x, e)
unfolding AllBlank
ok-Blank x e blank c h = let same : x ≡ c = cc in subst IsBlank same blank

module _ (planner : Planner) (world : World) where
  reply_candidate-Blank :
      (x : Candidate) (action : PlanAction) (reply : Reply) (e : Evaluator)
      → IsBlank x
      → AllBlank (reply_candidate planner world x action reply e)
  unfolding reply_candidate AllBlank IsBlank
  reply_candidate-Blank x action (broken text) e blank = λ c h. cc
  reply_candidate-Blank x action (timed_out limit) e blank = ok-Blank _ e blank
  reply_candidate-Blank x action (explained plain) e blank = ok-Blank _ e blank

  read_candidate-Blank :
      (raw : Json) (read : Result String PlanAction) (e : Evaluator)
      → AllBlank (read_candidate planner world raw read e)
  unfolding read_candidate IsBlank
  read_candidate-Blank raw (err text) e = ok-Blank _ e (refl, refl)
  read_candidate-Blank raw (ok action) e =
      reply_candidate-Blank (compiled planner world (issued e raw) action) action _ _ (refl, refl)

  validate_candidate-Blank :
      (raw : Json) (e : Evaluator) → AllBlank (validate_candidate planner world raw e)
  unfolding validate_candidate
  validate_candidate-Blank raw e = read_candidate-Blank raw (planner.from_raw raw) e

  NamesPlans : Evaluator → Outcome Candidate → Type 0
  NamesPlans e o = (c : Candidate) → o.0 ≡ ok c → Named e c

  ok-NamesPlans : (x : Candidate) (e after : Evaluator) → Named e x → NamesPlans e (ok x, after)
  unfolding NamesPlans
  ok-NamesPlans x e after named c h = let same : x ≡ c = cc in subst (Named e) same named

  raised-NamesPlans : (f : Failure) (e : Evaluator) → NamesPlans e (err f, e)
  unfolding NamesPlans
  raised-NamesPlans f e c h = cc

  identify-NamesPlans :
      (x : Candidate) (e : Evaluator) → IsBlank x → NamesPlans e (identify planner world x e)
  unfolding IsBlank
  identify-NamesPlans x e (no_structure, no_reuse) = elim (Bool-cases x.constraints_satisfied) [
    | inr no_plan ↦ subst (NamesPlans e) (sym (identify-unsatisfied planner world x e no_plan)) (
        ok-NamesPlans x e e (record {
          structure = rw (no_plan, no_structure) refl;
          reuse = rw (no_plan, no_reuse) refl;
        }))
    | inl satisfied ↦ elim (Option-cases x.structural_plan_sha256) [
      | inl missing ↦
          subst (NamesPlans e) (sym (identify-unstructured planner world x e satisfied missing))
            (raised-NamesPlans _ e)
      | inr (s, has_structure) ↦ elim (Option-cases x.timing_reuse_key) [
        | inl missing ↦
            subst (NamesPlans e)
              (sym (identify-unkeyed planner world x e s satisfied has_structure missing))
              (raised-NamesPlans _ e)
        | inr (k, has_reuse) ↦
            subst (NamesPlans e)
              (sym (identify-satisfied planner world x e s k satisfied has_structure has_reuse))
              (ok-NamesPlans _ e _ (record {
                structure = rw (satisfied, has_structure) refl;
                reuse = rw (satisfied, has_reuse) refl;
              }))
      ]
    ]
  ]

  record_attempt-ok :
      (c b : Candidate) (e : Evaluator) → (record_attempt planner world c e).0 ≡ ok b → c ≡ b
  unfolding record_attempt
  record_attempt-ok c b e h =
      let (_, _, same, _) =
        ▷-ok (check_cancelled planner world (record e { candidates = e.candidates ++ c ∷ [] })) _ b
          h in
      cc

  evaluate-parts :
      (raw : Json) (e : Evaluator) (c : Candidate)
      → (evaluate planner world raw e).0 ≡ ok c
      → (x : Candidate) × (e₂ : Evaluator) × (e₂.candidates ≡ e.candidates)
        × (e₂.default ≡ e.default)
        × (e₂.by_structure ≡ e.by_structure)
        × (e₂.by_reuse_key ≡ e.by_reuse_key)
        × Identified e₂ x c (identify planner world x e₂).1
        × Named e₂ c
        × ((evaluate planner world raw e).1
            ≡ (record_attempt planner world c (identify planner world x e₂).1).1)
  unfolding evaluate AllBlank NamesPlans
  evaluate-parts raw e c h =
      let (_, _, h₁, r₁) = ▷-ok (check_attempt planner world e) _ c h in
      let e₁ = (check_attempt planner world e).1 in
      let ticked = check_attempt-state planner world e in
      let (x, validated, h₂, r₂) = ▷-ok (validate_candidate planner world raw e₁) _ c h₁ in
      let e₂ = (validate_candidate planner world raw e₁).1 in
      let (calls, left, _) = validate_candidate-Numbered planner world raw e₁ in
      let (c', found, h₃, r₃) = ▷-ok (identify planner world x e₂) _ c h₂ in
      let same = record_attempt-ok c' c (identify planner world x e₂).1 h₃ in
      (
        x,
        e₂,
        ap (λ t. t.candidates) left ∙ ap (λ t. t.candidates) ticked,
        ap (λ t. t.default) left ∙ ap (λ t. t.default) ticked,
        ap (λ t. t.by_structure) left ∙ ap (λ t. t.by_structure) ticked,
        ap (λ t. t.by_reuse_key) left ∙ ap (λ t. t.by_reuse_key) ticked,
        subst (λ y. Identified e₂ x y (identify planner world x e₂).1) same
            (identify-Identified planner world x e₂ c' found),
        subst (Named e₂) same
            (identify-NamesPlans x e₂ (validate_candidate-Blank raw e₁ x validated) c' found),
        r₁
            ∙ r₂
            ∙ r₃
            ∙ ap (λ y. (record_attempt planner world y (identify planner world x e₂).1).1) same,
      )

  -- In a coherent state, the candidate that `evaluate` returns is the last attempt. Where it
  -- satisfies its constraints, it names as its duplicates the first plan before it with its structure
  -- and the first before it with its reuse key, if there are any; where it does not, it names none.
  pub evaluate-duplicates :
      (raw : Json) (e : Evaluator) (c : Candidate)
      → IsCoherent e
      → (evaluate planner world raw e).0 ≡ ok c
      → ((evaluate planner world raw e).1.candidates ≡ e.candidates ++ c ∷ [])
        × (c.structural_duplicate_of
            ≡ first_plan c.constraints_satisfied c.structural_plan_sha256 (structure_holder e))
        × (c.duplicate_of ≡ first_plan c.constraints_satisfied c.timing_reuse_key (reuse_holder e))
  evaluate-duplicates raw e c k h =
      let (x, e₂, candidates, _, structures, reuse, found, named, after) =
        evaluate-parts raw e c h in
      let e₃ = (identify planner world x e₂).1 in
      (
        ap (λ t. t.candidates) after
            ∙ ap (λ t. t.candidates) (record_attempt-state planner world c e₃)
            ∙ ap (λ t. t.candidates ++ c ∷ []) found.left
            ∙ ap (λ t. t ++ c ∷ []) candidates,
        named.structure
            ∙ first_plan-cong c.constraints_satisfied c.structural_plan_sha256 _ _
                (λ key. ap (lookup key) structures ∙ k.structures key),
        named.reuse
            ∙ first_plan-cong c.constraints_satisfied c.timing_reuse_key _ _
                (λ key. ap (lookup key) reuse ∙ k.reuse_keys key),
      )
