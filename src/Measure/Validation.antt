-- ===== src/Measure/Validation.antt =====
-- src/qorl/measure/validation.py: the attempts of a rollout and the selection among them. An
-- operation gives its result or the exception it raises, and in either case the state it leaves.
pub mod Selection
pub mod Steps
pub mod Invariant
pub mod Issue
pub mod Attempts
pub mod Issuing
pub mod Choosing
pub mod Reachable
pub mod Duplicates
use qorl.Prelude.{
  ℕ, zero, suc, ◌+◌, ◌-◌, ◌*◌, ◌/◌, ◌%◌, ◌^◌, ◌≤◌, ◌<◌, String, ◌≡◌, refl, sym, ap, ◌∙◌, ◌≢◌, ◌↔◌,
  ◌⊎◌, inl, inr, Bool, true, false, not, ◌&&◌, ◌||◌, Option, none, some, List, [], ◌∷◌, ◌++◌, map,
  arith, ltb, leb, nat_beq, if◌then◌else◌, nat_beq_iff, ltb→lt, lt→ltb, leb→le, le→leb, Bool-cases,
  Option-cases, Eq, ◌==◌, nat_eq, string_eq, length, get_elem?, length-append, keep, length-keep_le,
  some_of, all_of, first_of?, contains, is_distinct, intersect, without, is_subset, same_set,
  beq_self, contains-append, contains-keep, is_subset_iff, same_set_iff, sorted, is_sorted,
  sorted-perm, length-sorted, some_of-sorted, sorted-is_sorted, sorted_of_is_sorted, codes, name_le,
  names_le, name_le_total, names_le_total, contains-sorted, is_distinct-sorted, Result, ok, err,
  ◌>>=◌, ◌>>◌, raise_if, or_raise, >>=-eq-ok, >>-eq-ok, >>=-total, Dict, lookup, assign,
  lookup-assign, set_default, lookup-set_default, lookup_or, is_none, is_empty, decimal, two_digits,
  sorted_twice, is_subset-sorted, sorted-is_subset, without-sorted, is_empty-sorted,
}
use qorl.Json.{Json, null, obj, get}
use qorl.Plans.Schemas.Leading.{◌<>◌}
use qorl.Plans.Schemas.Action.{PlanAction}
use qorl.Measure.Schemas.{
  Candidate, Baseline, SelectionState, SelectionStatus, RejectedSelection, pending, rejected,
  accepted, failed, selection_eligible, not_measured,
}
use qorl.Measure.Planner.{
  Failure, Planner, World, Explained, Reply, explained, timed_out, broken, cancelled,
  already_started, not_started, already_kept, budget_exhausted, no_identity, kept_too_late,
  finish_without_attempt, limits_not_positive, not_eligible, selection_required, infrastructure,
}

abbrev pub plan_fingerprint_version : ℕ
plan_fingerprint_version = 4

pub record Evaluator : Type 0 where
  pub timeout_ms : ℕ
  pub max_candidates : ℕ
  pub default : Option Baseline
  pub candidates : List Candidate
  pub kept_default : Bool
  pub selection : SelectionState
  pub by_structure : Dict String
  pub by_reuse_key : Dict String
  -- how many calls of the worker and readings of the cancel event there have been
  pub calls : ℕ
  pub readings : ℕ

-- A result or an exception, and the state afterwards.
abbrev pub Outcome : Type 0 → Type 0
Outcome A = Result Failure A × Evaluator

infixl 5 ◌▷◌
abbrev pub ◌▷◌ : {A B : Type 0} → Outcome A → (A → Evaluator → Outcome B) → Outcome B
(ok a, e) ▷ next = next a e
(err f, e) ▷ next = (err f, e)

-- PlanValidationEvaluator(…)
unfoldable pub new_evaluator : ℕ → ℕ → Result Failure Evaluator
new_evaluator default_timeout_ms max_candidates = do
  raise_if (ltb default_timeout_ms 1 || ltb max_candidates 1) limits_not_positive
  ok (record {
    timeout_ms = default_timeout_ms;
    max_candidates = max_candidates;
    default = none;
    candidates = [];
    kept_default = false;
    selection = record { status = pending; selected_candidate_id = none; rejections = [] };
    by_structure = [];
    by_reuse_key = [];
    calls = 0;
    readings = 0;
  })

abbrev pub unvalidated_candidate : Json → String → ℕ → Candidate
unvalidated_candidate raw_action candidate_id attempts_remaining = record {
  candidate_id = candidate_id;
  action = raw_action;
  rejected_tool_arguments = null;
  action_valid = false;
  constraints_satisfied = false;
  compiled_hint = "";
  duplicate_of = none;
  plan_sha256 = none;
  structural_plan_sha256 = none;
  structural_duplicate_of = none;
  timing_reuse_key = none;
  plan_fingerprint_version = some plan_fingerprint_version;
  errors_or_diagnostics = [];
  pg_hint_plan = none;
  attempts_remaining = attempts_remaining;
  plain_explain = none;
  compact_plan = none;
  execution_timed_out = false;
  timeout_ms = none;
  measurement_status = some not_measured;
  execution_feedback = none;
}

-- str(QueryTimeoutError(timeout_ms))
abbrev pub timeout_text : ℕ → String
timeout_text timeout_ms = "query exceeded statement_timeout=" <> decimal timeout_ms <> " ms"

-- The identifier of the attempt that is issued next.
unfoldable pub next_id : Evaluator → String
next_id e = "candidate-" <> two_digits (length e.candidates + 1)

-- The attempt that is issued next, before it is validated.
abbrev pub issued : Evaluator → Json → Candidate
issued e raw_action =
    unvalidated_candidate raw_action (next_id e) (e.max_candidates - length e.candidates - 1)

module _ (planner : Planner) (world : World) where
  -- What a plan says of the candidate that it was explained for.
  abbrev pub observed : Candidate → PlanAction → Explained → Candidate
  observed candidate action plain =
      let fingerprint = planner.plan_sha256 plain.plan in
      let errors = planner.verify_action action plain.plan plain.hint_diagnostics in
      record candidate {
        constraints_satisfied = is_empty errors;
        plan_sha256 = some fingerprint;
        structural_plan_sha256 = some (planner.structural_plan_sha256 plain.plan);
        timing_reuse_key = some (planner.timing_reuse_key fingerprint (some action));
        plain_explain = some plain.document;
        compact_plan = some (planner.compact_plan plain.plan);
        pg_hint_plan = planner.hint_status plain.hint_diagnostics;
        errors_or_diagnostics = errors;
      }

  -- The candidate whose action is read, before its plan is explained.
  abbrev pub compiled : Candidate → PlanAction → Candidate
  compiled candidate action = record candidate {
    action = planner.to_wire action;
    action_valid = true;
    compiled_hint = planner.compile action;
  }

  -- What the call of `explain` makes of a candidate.
  unfoldable pub reply_candidate : Candidate → PlanAction → Reply → Evaluator → Outcome Candidate
  reply_candidate candidate action (broken text) e = (err (infrastructure text), e)
  reply_candidate candidate action (timed_out limit) e = (
    ok (record candidate {
      execution_timed_out = true;
      timeout_ms = some limit;
      errors_or_diagnostics = timeout_text limit ∷ [];
    }),
    e,
  )
  reply_candidate candidate action (explained plain) e = (ok (observed candidate action plain), e)

  -- `validate_candidate` once the action is read, or refused
  unfoldable pub read_candidate : Json → Result String PlanAction → Evaluator → Outcome Candidate
  unfolding reply_candidate
  read_candidate raw_action (err text) e =
      (ok (record (issued e raw_action) { errors_or_diagnostics = text ∷ [] }), e)
  read_candidate raw_action (ok action) e =
      reply_candidate (compiled (issued e raw_action) action) action
        (world.explain e.calls world.sql e.timeout_ms false (planner.compile action))
        (record e { calls = e.calls + 1 })

  unfoldable pub validate_candidate : Json → Evaluator → Outcome Candidate
  unfolding read_candidate
  validate_candidate raw_action e = read_candidate raw_action (planner.from_raw raw_action) e

  unfoldable pub check_cancelled : Evaluator → Outcome (Unit {0})
  check_cancelled e =
      (raise_if (world.is_set e.readings) cancelled, record e { readings = e.readings + 1 })

  abbrev pub baseline_of : Explained → Baseline
  baseline_of plain =
      let fingerprint = planner.plan_sha256 plain.plan in
      record {
        plan_sha256 = fingerprint;
        structural_plan_sha256 = some (planner.structural_plan_sha256 plain.plan);
        timing_reuse_key = some (planner.timing_reuse_key fingerprint none);
        plan_fingerprint_version = some plan_fingerprint_version;
        plain_explain = plain.document;
        median_execution_time_ms = none;
        warmups = [];
        measurements = [];
        candidate_timeout_ms = none;
        compact_plan = planner.compact_plan plain.plan;
      }

  -- The state once the default plan is known.
  abbrev pub with_default : Explained → Evaluator → Evaluator
  with_default plain e =
      let fingerprint = planner.plan_sha256 plain.plan in
      record e {
        default = some (baseline_of plain);
        by_structure = assign (planner.structural_plan_sha256 plain.plan) "default" e.by_structure;
        by_reuse_key = assign (planner.timing_reuse_key fingerprint none) "default" e.by_reuse_key;
      }

  -- What the call of `explain` makes of the default.
  unfoldable pub reply_default : Reply → Evaluator → Outcome Baseline
  unfolding check_cancelled
  reply_default (broken text) e = (err (infrastructure text), e)
  reply_default (timed_out limit) e = (err (infrastructure (timeout_text limit)), e)
  reply_default (explained plain) e =
      check_cancelled (with_default plain e) ▷ λ _ e'. (ok (baseline_of plain), e')

  unfoldable pub explain_default : Evaluator → Outcome Baseline
  unfolding reply_default
  explain_default e =
      reply_default (world.explain e.calls world.sql e.timeout_ms false "")
        (record e { calls = e.calls + 1 })

  unfoldable pub start : Evaluator → Outcome Baseline
  unfolding check_cancelled explain_default
  start e =
      if is_none e.default
      then (check_cancelled e ▷ λ _ e'. explain_default e')
      else (err already_started, e)

  unfoldable pub check_attempt : Evaluator → Outcome (Unit {0})
  unfolding check_cancelled
  check_attempt e = check_cancelled e ▷ λ _ e'. (
    do
      raise_if (is_none e'.default) not_started
      raise_if e'.kept_default already_kept
      raise_if (leb e'.max_candidates (length e'.candidates)) budget_exhausted,
    e',
  )

  -- self.candidates.append(candidate), and the reading of the cancel event that follows it
  unfoldable pub record_attempt : Candidate → Evaluator → Outcome Candidate
  unfolding check_cancelled
  record_attempt candidate e =
      check_cancelled (record e { candidates = e.candidates ++ candidate ∷ [] }) ▷ λ _ e'.
      (ok candidate, e')

  -- arguments.get("action") if isinstance(arguments, dict) else None
  abbrev pub action_of : Json → Json
  action_of (obj fields) = elim (get "action" fields) [ none ↦ null | some action ↦ action ]
  action_of _ = null

  unfoldable pub reject_attempt : Json → List String → Evaluator → Outcome Candidate
  unfolding check_attempt record_attempt
  reject_attempt arguments diagnostics e = check_attempt e ▷ λ _ e'.
      record_attempt
        (record (issued e' (action_of arguments)) {
          rejected_tool_arguments = arguments;
          errors_or_diagnostics = diagnostics;
        })
        e'

  -- The duplicates of a candidate whose plan satisfies it, and its entries among the plans.
  unfoldable pub identify : Candidate → Evaluator → Outcome Candidate
  identify candidate e =
      if not candidate.constraints_satisfied
      then (ok candidate, e)
      else elim candidate.structural_plan_sha256 [
        | none ↦ (err no_identity, e)
        | some structure ↦ elim candidate.timing_reuse_key [
          | none ↦ (err no_identity, e)
          | some reuse_key ↦ (
            ok (record candidate {
              structural_duplicate_of = lookup structure e.by_structure;
              duplicate_of = lookup reuse_key e.by_reuse_key;
            }),
            record e {
              by_structure = set_default structure candidate.candidate_id e.by_structure;
              by_reuse_key = set_default reuse_key candidate.candidate_id e.by_reuse_key;
            },
          )
        ]
      ]

  unfoldable pub evaluate : Json → Evaluator → Outcome Candidate
  unfolding check_attempt validate_candidate identify record_attempt
  evaluate raw_action e = check_attempt e ▷ λ _ e₁.
      validate_candidate raw_action e₁ ▷ λ candidate e₂.
      identify candidate e₂ ▷ λ identified e₃. record_attempt identified e₃
