-- ===== src/Agent/ToolRuntime/Terminal.antt =====
-- A call that ends a rollout leaves an accepted selection.
use qorl.Prelude.{
  String, ◌≡◌, refl, Bool, true, false, not, ◌||◌, Option, none, some, List, [], ◌∷◌, leb,
  if◌then◌else◌, nat_eq, string_eq, length, Result, ok, err, is_none, is_empty,
}
use qorl.Json.{Json}
use qorl.Measure.Schemas.{Candidate}
use qorl.Measure.Planner.{
  not_started, kept_too_late, already_kept, Failure, Planner, World, finish_without_attempt,
}
use qorl.Measure.Validation.{Evaluator, Outcome, ◌▷◌, evaluate, reject_attempt}
use qorl.Measure.Validation.Selection.{
  is_accepted, accept_selection, accept_default, accept_selected, select, is_default,
  reject_selection, keep_default,
}
use qorl.Agent.ToolRuntime.{
  Answer, evaluated, kept, closing, has_no_eligible, is_value_error, refuse_finish, handle_finish,
  finish_request, execute_finish, candidate_request, execute_evaluate, keep_request,
  execute_keep_default, refused,
}

-- Whether an outcome ends the rollout.
abbrev pub ends : {A : Type 0} → Outcome (A × Bool) → Bool
ends (ok (a, b), e) = b
ends (err f, e) = false

-- Where an outcome ends the rollout, the selection is accepted.
abbrev pub is_settled : {A : Type 0} → Outcome (A × Bool) → Bool
is_settled o = not (ends o) || is_accepted o.1.selection.status

Settles : Outcome (Answer × Bool) → Type 0
Settles o = is_settled o ≡ true

Accepts : Outcome (Unit {0}) → Type 0
Accepts o = (a : Unit {0}) → o.0 ≡ ok a → is_accepted o.1.selection.status ≡ true

accept_selected-Accepts :
    (found : Result Failure (Option Candidate)) (e : Evaluator) → Accepts (accept_selected found e)
unfolding Accepts
accept_selected-Accepts (err f) e a h = cc
accept_selected-Accepts (ok none) e a h = refl
accept_selected-Accepts (ok (some c)) e a h = refl

if-Accepts :
    (b : Bool) (x y : Outcome (Unit {0})) → Accepts x → Accepts y → Accepts (if b then x else y)
if-Accepts true x y p q = p
if-Accepts false x y p q = q

raised-Accepts : (f : Failure) (e : Evaluator) → Accepts (err f, e)
unfolding Accepts
raised-Accepts f e a h = cc

accept_selection-Accepts : (o : Option String) (e : Evaluator) → Accepts (accept_selection o e)
unfolding accept_selection accept_default Accepts
accept_selection-Accepts o e =
    if-Accepts (is_default o) (accept_default e) (accept_selected (select o e) e)
      (if-Accepts (is_empty e.candidates) _ _ (raised-Accepts finish_without_attempt e)
        (if-Accepts (is_none e.default) _ _ (raised-Accepts not_started e) (λ a h. refl)))
      (accept_selected-Accepts (select o e) e)

keep_default-Accepts : (e : Evaluator) → Accepts (keep_default e)
unfolding keep_default Accepts
keep_default-Accepts e = if-Accepts (is_none e.default) _ _ (raised-Accepts not_started e) (
    if-Accepts (not (is_empty e.candidates)) _ _ (raised-Accepts kept_too_late e)
      (if-Accepts e.kept_default _ _ (raised-Accepts already_kept e) (λ a h. refl)))

closing-Settles :
    (b : Bool) (diagnostics : List String) (o : Outcome (Unit {0}))
    → Accepts o
    → Settles (closing b diagnostics o)
unfolding Accepts Settles
closing-Settles b diagnostics (ok a, e) h = rw (h a refl) refl
closing-Settles b diagnostics (err f, e) h = refl

if-Settles :
    (b : Bool) (x y : Outcome (Answer × Bool))
    → Settles x
    → Settles y
    → Settles (if b then x else y)
if-Settles true x y p q = p
if-Settles false x y p q = q

goes_on-Settles :
    {A : Type 0} (o : Outcome A) (answer : A → Answer)
    → Settles (o ▷ λ c e'. (ok (answer c, false), e'))
unfolding Settles
goes_on-Settles (ok c, e) answer = refl
goes_on-Settles (err f, e) answer = refl

answered-Settles : (answer : Answer) (e : Evaluator) → Settles (ok (answer, false), e)
unfolding Settles
answered-Settles answer e = refl

raised-Settles : (f : Failure) (e : Evaluator) → Settles (err f, e)
unfolding Settles
raised-Settles f e = refl

kept-Settles : (o : Outcome (Unit {0})) → Accepts o → Settles (o ▷ λ _ e'. (ok (kept, true), e'))
unfolding Accepts Settles
kept-Settles (ok a, e) h = rw (h a refl) refl
kept-Settles (err f, e) h = refl

module _ (text : Failure → String) (read_finish : Json → Result (List String) (Option String))
    (read_candidate : Json → Result (List String) Json)
    (read_nothing : Json → Result (List String) (Unit {0})) (planner : Planner)
    (world : World) where
  refuse_finish-Settles :
      (b : Bool) (arguments : Json) (diagnostics : List String) (e : Evaluator)
      → Settles (
          refuse_finish text read_finish read_candidate read_nothing planner world b arguments
            diagnostics e)
  unfolding refuse_finish
  refuse_finish-Settles b arguments diagnostics e =
      let rejected = reject_selection arguments diagnostics e in
      if-Settles b _ _
        (closing-Settles b diagnostics (accept_selection none rejected)
          (accept_selection-Accepts none rejected))
        (answered-Settles (refused diagnostics) rejected)

  handle_finish-Settles :
      (b : Bool) (arguments : Json) (o : Outcome (Unit {0}))
      → Accepts o
      → Settles
          (handle_finish text read_finish read_candidate read_nothing planner world b arguments o)
  unfolding handle_finish
  handle_finish-Settles b arguments (ok a, e) h = closing-Settles b [] (ok tt, e) h
  handle_finish-Settles b arguments (err f, e) h =
      if-Settles (is_value_error f) _ _ (refuse_finish-Settles b arguments (text f ∷ []) e)
        (raised-Settles f e)

  finish_request-Settles :
      (arguments : Json) (request : Result (List String) (Option String)) (e : Evaluator)
      → Settles (
          finish_request text read_finish read_candidate read_nothing planner world arguments
            request e)
  unfolding finish_request
  finish_request-Settles arguments (err diagnostics) e =
      refuse_finish-Settles _ arguments diagnostics e
  finish_request-Settles arguments (ok o) e =
      handle_finish-Settles (has_no_eligible e) arguments _ (
        if-Accepts (is_empty e.candidates) _ _ (raised-Accepts finish_without_attempt e)
          (accept_selection-Accepts o e))

  candidate_request-Settles :
      (arguments : Json) (request : Result (List String) Json) (e : Evaluator)
      → Settles (
          candidate_request text read_finish read_candidate read_nothing planner world arguments
            request e)
  unfolding candidate_request
  candidate_request-Settles arguments (err diagnostics) e =
      goes_on-Settles (reject_attempt planner world arguments diagnostics e) evaluated
  candidate_request-Settles arguments (ok action) e =
      goes_on-Settles (evaluate planner world action e) evaluated

  keep_request-Settles :
      (request : Result (List String) (Unit {0})) (e : Evaluator)
      → Settles (keep_request text read_finish read_candidate read_nothing planner world request e)
  unfolding keep_request
  keep_request-Settles (err diagnostics) e = answered-Settles (refused diagnostics) e
  keep_request-Settles (ok a) e =
      if-Settles (not (is_empty e.candidates)) _ _
        (answered-Settles
          (refused ("keep_default must be selected before submitting a candidate" ∷ [])) e)
        (if-Settles e.kept_default _ _
          (answered-Settles (refused ("rollout already kept the default plan" ∷ [])) e)
          (kept-Settles (keep_default e) (keep_default-Accepts e)))

  -- A call of `finish`, `keep_default` or `evaluate_candidate` that ends the rollout leaves an
  -- accepted selection, whatever it is called with.
  pub execute-ends :
      (arguments : Json) (e : Evaluator)
      → (is_settled
            (execute_finish text read_finish read_candidate read_nothing planner world arguments e)
          ≡ true)
        × (is_settled (
              execute_keep_default text read_finish read_candidate read_nothing planner world
                arguments e)
            ≡ true)
        × (is_settled (
              execute_evaluate text read_finish read_candidate read_nothing planner world arguments
                e)
            ≡ true)
  unfolding Settles execute_finish execute_keep_default execute_evaluate
  execute-ends arguments e = (
    finish_request-Settles arguments (read_finish arguments) e,
    keep_request-Settles (read_nothing arguments) e,
    if-Settles e.kept_default _ _
        (answered-Settles (refused ("rollout already kept the default plan" ∷ [])) e)
        (if-Settles (leb e.max_candidates (length e.candidates)) _ _
          (answered-Settles (refused ("rollout candidate budget is exhausted" ∷ [])) e)
          (candidate_request-Settles arguments (read_candidate arguments) e)),
  )
