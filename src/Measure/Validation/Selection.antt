-- ===== src/Measure/Validation/Selection.antt =====
-- The selection among the attempts of a rollout, of src/qorl/measure/validation.py.
use qorl.Prelude.{
  String, Bool, true, false, not, Option, none, some, List, [], ◌∷◌, ◌++◌, map, ltb, if◌then◌else◌,
  ◌==◌, nat_eq, string_eq, length, keep, first_of?, Result, ok, err, is_none, is_empty,
}
use qorl.Json.{Json}
use qorl.Measure.Schemas.{
  Candidate, SelectionState, SelectionStatus, RejectedSelection, pending, rejected, accepted,
  failed, selection_eligible,
}
use qorl.Measure.Planner.{
  Failure, kept_too_late, already_kept, not_started, finish_without_attempt, not_eligible,
  selection_required,
}
use qorl.Measure.Validation.{Evaluator, Outcome}

abbrev pub eligible : Evaluator → List Candidate
eligible e = keep selection_eligible e.candidates

-- xs[0] if xs else None
abbrev pub head? {ℓ} : {A : Type ℓ} → List A → Option A
head? [] = none
head? (x ∷ xs) = some x

abbrev pub found_or {ℓ} : {A : Type ℓ} → Option A → Failure → Result Failure (Option A)
found_or none f = err f
found_or (some a) f = ok (some a)

unfoldable pub select : Option String → Evaluator → Result Failure (Option Candidate)
select (some candidate_id) e =
    found_or (first_of? (λ c. c.candidate_id == candidate_id) (eligible e))
      (not_eligible (map (λ c. c.candidate_id) (eligible e)))
select none e =
    if ltb 1 (length (eligible e))
    then err (selection_required (map (λ c. c.candidate_id) (eligible e)))
    else ok (head? (eligible e))

abbrev pub is_accepted : SelectionStatus → Bool
is_accepted accepted = true
is_accepted _ = false

-- The selection after a rejection, which an accepted selection only records.
abbrev pub reject_as : Bool → List RejectedSelection → SelectionState → SelectionState
reject_as true rejections s = record s { rejections = rejections }
reject_as false rejections s = record {
  status = rejected;
  selected_candidate_id = none;
  rejections = rejections;
}

abbrev pub reject : Json → List String → SelectionState → SelectionState
reject arguments diagnostics s =
    reject_as (is_accepted s.status)
      (s.rejections ++ record { arguments = arguments; diagnostics = diagnostics } ∷ []) s

unfoldable pub reject_selection : Json → List String → Evaluator → Evaluator
reject_selection arguments diagnostics e = record e {
  selection = reject arguments diagnostics e.selection;
}

-- The selection, once it is accepted.
abbrev pub accept : Option String → Evaluator → Evaluator
accept selected e = record e {
  selection = record {
    status = accepted;
    selected_candidate_id = selected;
    rejections = e.selection.rejections;
  };
}

abbrev pub is_default : Option String → Bool
is_default none = false
is_default (some s) = s == "default"

unfoldable pub accept_default : Evaluator → Outcome (Unit {0})
accept_default e =
    if is_empty e.candidates
    then (err finish_without_attempt, e)
    else if is_none e.default
    then (err not_started, e)
    else (ok tt, accept none (record e { kept_default = true }))

abbrev pub accept_selected : Result Failure (Option Candidate) → Evaluator → Outcome (Unit {0})
accept_selected (err f) e = (err f, e)
accept_selected (ok none) e = (ok tt, accept none e)
accept_selected (ok (some c)) e = (ok tt, accept (some c.candidate_id) e)

unfoldable pub accept_selection : Option String → Evaluator → Outcome (Unit {0})
unfolding accept_default select
accept_selection candidate_id e =
    if is_default candidate_id then accept_default e else accept_selected (select candidate_id e) e

abbrev pub fail_selection : Evaluator → Evaluator
fail_selection e = record e { selection = record e.selection { status = failed } }

-- `except ValueError`, which the call of `accept_selection` can raise and nothing else
abbrev pub or_fail : Outcome (Unit {0}) → Evaluator
or_fail (ok _, e) = e
or_fail (err _, e) = fail_selection e

unfoldable pub resolve_status : SelectionStatus → Evaluator → Evaluator
unfolding accept_selection
resolve_status rejected e = fail_selection e
resolve_status pending e = if e.kept_default then e else or_fail (accept_selection none e)
resolve_status _ e = e

unfoldable pub resolve_selection : Evaluator → Evaluator
unfolding resolve_status
resolve_selection e = resolve_status e.selection.status e

unfoldable pub keep_default : Evaluator → Outcome (Unit {0})
keep_default e =
    if is_none e.default
    then (err not_started, e)
    else if not (is_empty e.candidates)
    then (err kept_too_late, e)
    else if e.kept_default
    then (err already_kept, e)
    else (ok tt, accept none (record e { kept_default = true }))
