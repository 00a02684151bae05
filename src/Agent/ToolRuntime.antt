-- ===== src/Agent/ToolRuntime.antt =====
-- `AgentEnvironment.execute` of src/qorl/agent/tool_runtime.py, for the tools that change a rollout.
-- The second part of an answer is whether the call ends the rollout.
pub mod Terminal
use qorl.Prelude.{
  ℕ, zero, suc, ◌+◌, ◌-◌, ◌*◌, ◌/◌, ◌%◌, ◌^◌, ◌≤◌, ◌<◌, String, ◌≡◌, refl, sym, ap, ◌∙◌, ◌≢◌, ◌↔◌,
  ◌⊎◌, inl, inr, Bool, true, false, not, ◌&&◌, ◌||◌, Option, none, some, List, [], ◌∷◌, ◌++◌, map,
  arith, ltb, leb, nat_beq, if◌then◌else◌, nat_beq_iff, ltb→lt, lt→ltb, leb→le, le→leb, Bool-cases,
  Option-cases, Eq, ◌==◌, nat_eq, string_eq, length, get_elem?, length-append, keep, length-keep_le,
  some_of, all_of, first_of?, contains, is_distinct, intersect, without, is_subset, same_set,
  beq_self, contains-append, contains-keep, is_subset_iff, same_set_iff, sorted, is_sorted,
  sorted-perm, length-sorted, some_of-sorted, sorted-is_sorted, sorted_of_is_sorted, codes, name_le,
  names_le, name_le_total, names_le_total, contains-sorted, is_distinct-sorted, Result, ok, err,
  ◌>>=◌, ◌>>◌, raise_if, or_raise, >>=-eq-ok, >>-eq-ok, >>=-total, Dict, lookup, assign,
  lookup-assign, set_default, lookup-set_default, lookup_or, is_none, is_empty, decimal, two_digits,
  sorted_twice, is_subset-sorted, sorted-is_subset, without-sorted, is_empty-sorted,
}
use qorl.Json.{Json}
use qorl.Measure.Schemas.{Candidate, selection_eligible}
use qorl.Measure.Planner.{
  Failure, Planner, World, finish_without_attempt, not_eligible, selection_required,
  limits_not_positive,
}
use qorl.Measure.Validation.{Evaluator, Outcome, ◌▷◌, evaluate, reject_attempt}
use qorl.Measure.Validation.Selection.{accept_selection, reject_selection, keep_default}

pub data Answer : Type 0 where
  -- the diagnostics of a call that is refused
  refused : List String → Answer
  no_eligible_candidate : List String → Answer
  finished : (selected_candidate_id : Option String) (kept_default : Bool) → Answer
  kept : Answer
  evaluated : Candidate → Answer

-- isinstance(error, ValueError): the others are RuntimeError, or errors of the worker
abbrev pub is_value_error : Failure → Bool
is_value_error finish_without_attempt = true
is_value_error (not_eligible _) = true
is_value_error (selection_required _) = true
is_value_error limits_not_positive = true
is_value_error _ = false

abbrev pub has_no_eligible : Evaluator → Bool
has_no_eligible e = not (is_empty e.candidates) && not (some_of selection_eligible e.candidates)

-- The answer of `finish` to a selection that is accepted.
abbrev pub finish_answer : Bool → List String → Evaluator → Answer
finish_answer no_eligible diagnostics e =
    if no_eligible && not e.kept_default
    then no_eligible_candidate diagnostics
    else finished e.selection.selected_candidate_id e.kept_default

abbrev pub closing : Bool → List String → Outcome (Unit {0}) → Outcome (Answer × Bool)
closing no_eligible diagnostics accepted =
    accepted ▷ λ _ e. (ok (finish_answer no_eligible diagnostics e, true), e)

-- `text` is str(error); the readers are pydantic's, with the messages of `argument_errors` where they
-- refuse the arguments of a call.
module _ (text : Failure → String) (read_finish : Json → Result (List String) (Option String))
    (read_candidate : Json → Result (List String) Json)
    (read_nothing : Json → Result (List String) (Unit {0})) (planner : Planner)
    (world : World) where
  -- The handler of `except (ValidationError, ValueError)` in a call of `finish`.
  unfoldable pub refuse_finish : Bool → Json → List String → Evaluator → Outcome (Answer × Bool)
  refuse_finish no_eligible arguments diagnostics e =
      let rejected = reject_selection arguments diagnostics e in
      if no_eligible
      then closing no_eligible diagnostics (accept_selection none rejected)
      else (ok (refused diagnostics, false), rejected)

  -- What `accept_selection` comes to, under that handler.
  unfoldable pub handle_finish : Bool → Json → Outcome (Unit {0}) → Outcome (Answer × Bool)
  unfolding refuse_finish
  handle_finish no_eligible arguments (ok _, e) = closing no_eligible [] (ok tt, e)
  handle_finish no_eligible arguments (err f, e) =
      if is_value_error f then refuse_finish no_eligible arguments (text f ∷ []) e else (err f, e)

  unfoldable pub finish_request :
      Json → Result (List String) (Option String) → Evaluator → Outcome (Answer × Bool)
  unfolding refuse_finish handle_finish
  finish_request arguments (err diagnostics) e =
      refuse_finish (has_no_eligible e) arguments diagnostics e
  finish_request arguments (ok candidate_id) e = handle_finish (has_no_eligible e) arguments (
      if is_empty e.candidates
      then (err finish_without_attempt, e)
      else accept_selection candidate_id e)

  unfoldable pub execute_finish : Json → Evaluator → Outcome (Answer × Bool)
  unfolding finish_request
  execute_finish arguments e = finish_request arguments (read_finish arguments) e

  unfoldable pub candidate_request :
      Json → Result (List String) Json → Evaluator → Outcome (Answer × Bool)
  candidate_request arguments (err diagnostics) e =
      reject_attempt planner world arguments diagnostics e ▷ λ c e'. (ok (evaluated c, false), e')
  candidate_request arguments (ok action) e =
      evaluate planner world action e ▷ λ c e'. (ok (evaluated c, false), e')

  unfoldable pub execute_evaluate : Json → Evaluator → Outcome (Answer × Bool)
  unfolding candidate_request
  execute_evaluate arguments e =
      if e.kept_default
      then (ok (refused ("rollout already kept the default plan" ∷ []), false), e)
      else if leb e.max_candidates (length e.candidates)
      then (ok (refused ("rollout candidate budget is exhausted" ∷ []), false), e)
      else candidate_request arguments (read_candidate arguments) e

  unfoldable pub keep_request :
      Result (List String) (Unit {0}) → Evaluator → Outcome (Answer × Bool)
  keep_request (err diagnostics) e = (ok (refused diagnostics, false), e)
  keep_request (ok _) e =
      if not (is_empty e.candidates)
      then (
        ok (refused ("keep_default must be selected before submitting a candidate" ∷ []), false),
        e,
      )
      else if e.kept_default
      then (ok (refused ("rollout already kept the default plan" ∷ []), false), e)
      else keep_default e ▷ λ _ e'. (ok (kept, true), e')

  unfoldable pub execute_keep_default : Json → Evaluator → Outcome (Answer × Bool)
  unfolding keep_request
  execute_keep_default arguments e = keep_request (read_nothing arguments) e
