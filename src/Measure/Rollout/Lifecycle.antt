-- ===== src/Measure/Rollout/Lifecycle.antt =====
-- A rollout from its start to its record: what it can reach by attempts and by a choice among them.
use qorl.Prelude.{
  ℕ, String, ◌≡◌, refl, sym, ap, ◌∙◌, ◌||◌, Option, none, List, [], ltb, nat_eq, string_eq, length,
  all_of, Result, ok, err, raise_if, >>-eq-ok,
}
use mathlib.Core.Path.{subst}
use qorl.Json.{Json}
use qorl.Measure.Schemas.{Baseline, Candidate}
use qorl.Measure.Planner.{Failure, limits_not_positive}
use qorl.Measure.Timeouts.{Floats, TimeoutError, seconds_to_ms}
use qorl.Measure.Evidence.{RolloutMeasurementSettings, Outcome}
use qorl.Measure.Evidence.Matches.{evidence_matches_outcome}
use qorl.Measure.Validation.{Evaluator, new_evaluator}
use qorl.Measure.Validation.Selection.{
  accept_selection, reject_selection, resolve_selection, keep_default,
}
use qorl.Measure.Rollout.{Rollout, RolloutError, Machine, new_with, new_after, new_rollout, start}
use qorl.Measure.Rollout.Attempts.{evaluate, reject_attempt}
use qorl.Measure.Rollout.Finish.{finish, rollout_record}
use qorl.Measure.Rollout.Ready.{has_cutoff, shares_plan, default_timed, timed_reference, IsReady}
use qorl.Measure.Rollout.Support.{is_timed}
use qorl.Measure.Rollout.Chosen.{ids}
use qorl.Measure.Rollout.Numbered.{names}
use qorl.Measure.Rollout.Starting.{start-IsStarted}
use qorl.Measure.Rollout.Sound.{KeysTell, SameAttempts, is_keyed}
use qorl.Measure.Rollout.Prepared.{IsPrepared, same-IsPrepared, IsPrepared-IsReady}
use qorl.Measure.Rollout.Attempted.{evaluate-Ends, reject_attempt-Ends}
use qorl.Measure.Rollout.Gathered.{ReportsLimit}
use qorl.Measure.Rollout.Finished.{finish-evidence_matches_outcome}
use qorl.Measure.Rollout.Triples.{Ends}
use qorl.Measure.Rollout.Choices.{
  accept_selection-same, resolve_selection-same, reject_selection-same, keep_default-same,
}

-- The rollout once an operation of its evaluator has been run.
abbrev pub with_evaluator : Rollout → Evaluator → Rollout
with_evaluator s e = record s { evaluator = e }

-- An operation between `start` and `finish`, whether it returns or raises.
pub data Step (m : Machine) (s s' : Rollout) : Type 0 where
  evaluates : (raw_action : Json) → (evaluate m raw_action s).1 ≡ s' → Step m s s'
  rejects_attempt :
      (arguments : Json) (diagnostics : List String)
      → (reject_attempt m arguments diagnostics s).1 ≡ s'
      → Step m s s'
  accepts :
      (candidate_id : Option String)
      → with_evaluator s (accept_selection candidate_id s.evaluator).1 ≡ s'
      → Step m s s'
  rejects :
      (arguments : Json) (diagnostics : List String)
      → with_evaluator s (reject_selection arguments diagnostics s.evaluator) ≡ s'
      → Step m s s'
  resolves : with_evaluator s (resolve_selection s.evaluator) ≡ s' → Step m s s'
  keeps_default : with_evaluator s (keep_default s.evaluator).1 ≡ s' → Step m s s'

-- What a rollout reaches from a `start` that has returned.
pub data Reached (m : Machine) : Rollout → Type 0 where
  begun :
      (settings : RolloutMeasurementSettings) (max_candidates : ℕ) (s : Rollout)
      (d : Option Baseline) {s' : Rollout}
      → new_rollout m.floats settings max_candidates ≡ ok s
      → start m s ≡ (ok d, s')
      → Reached m s'
  next : {s s' : Rollout} → Reached m s → Step m s s' → Reached m s'

-- A new rollout has no attempts and no pairs.
record IsNew (s : Rollout) : Type 0 where
  no_attempts : (s.evaluator).candidates ≡ []
  no_pairs : s.paired ≡ record { warmups = []; measurements = [] }

new_evaluator-empty :
    (timeout most : ℕ) (e : Evaluator) → new_evaluator timeout most ≡ ok e → e.candidates ≡ []
unfolding new_evaluator
new_evaluator-empty timeout most e h =
    let (_, made) = >>-eq-ok (raise_if (ltb timeout 1 || ltb most 1) limits_not_positive) _ h in
    sym (ap candidates_of made)
  where
    candidates_of : Result Failure Evaluator → List Candidate
    candidates_of (ok e) = e.candidates
    candidates_of (err f) = []

ok_rollout : (s t : Rollout) → ◌≡◌ {A = Result RolloutError Rollout} (ok s) (ok t) → s ≡ t
ok_rollout s t h = cc

new_with-IsNew :
    (settings : RolloutMeasurementSettings) (timeout : ℕ) (r : Result Failure Evaluator)
    (s : Rollout)
    → ((e : Evaluator) → r ≡ ok e → e.candidates ≡ [])
    → new_with settings timeout r ≡ ok s
    → IsNew s
new_with-IsNew settings timeout (err f) s empty h = cc
new_with-IsNew settings timeout (ok e) s empty h =
    subst IsNew (ok_rollout _ s h) (record { no_attempts = empty e refl; no_pairs = refl })

new_after-IsNew :
    (settings : RolloutMeasurementSettings) (most : ℕ) (r : Result TimeoutError ℕ) (s : Rollout)
    → new_after settings most r ≡ ok s
    → IsNew s
new_after-IsNew settings most (err e) s h = cc
new_after-IsNew settings most (ok timeout) s h =
    new_with-IsNew settings timeout (new_evaluator timeout most) s
      (new_evaluator-empty timeout most) h

new_rollout-IsNew :
    (floats : Floats) (settings : RolloutMeasurementSettings) (most : ℕ) (s : Rollout)
    → new_rollout floats settings most ≡ ok s
    → IsNew s
unfolding new_rollout
new_rollout-IsNew floats settings most s h =
    new_after-IsNew settings most (seconds_to_ms floats settings.default_timeout_seconds) s h

module _ (m : Machine) where
  with_evaluator-IsPrepared :
      (s : Rollout) (e : Evaluator)
      → SameAttempts s.evaluator e
      → IsPrepared m s
      → IsPrepared m (with_evaluator s e)
  with_evaluator-IsPrepared s e same k = same-IsPrepared m s (with_evaluator s e) same refl refl k

  ended :
      {A : Type 0} (r : Result RolloutError A × Rollout)
      → Ends (IsPrepared m) (λ (a : A) s. IsPrepared m s) r
      → IsPrepared m r.1
  ended (ok a, s) h = h
  ended (err e, s) h = h

  Step-IsPrepared :
      (s s' : Rollout) → KeysTell m.planner → Step m s s' → IsPrepared m s → IsPrepared m s'
  Step-IsPrepared s s' tell (evaluates raw h) k =
      subst (IsPrepared m) h (ended (evaluate m raw s) (evaluate-Ends m raw s tell k))
  Step-IsPrepared s s' tell (rejects_attempt arguments diagnostics h) k = subst (IsPrepared m) h (
      ended (reject_attempt m arguments diagnostics s)
        (reject_attempt-Ends m arguments diagnostics s tell k))
  Step-IsPrepared s s' tell (accepts candidate_id h) k =
      subst (IsPrepared m) h
        (with_evaluator-IsPrepared s _ (accept_selection-same candidate_id s.evaluator) k)
  Step-IsPrepared s s' tell (rejects arguments diagnostics h) k =
      subst (IsPrepared m) h
        (with_evaluator-IsPrepared s _ (reject_selection-same arguments diagnostics s.evaluator) k)
  Step-IsPrepared s s' tell (resolves h) k =
      subst (IsPrepared m) h (with_evaluator-IsPrepared s _ (resolve_selection-same s.evaluator) k)
  Step-IsPrepared s s' tell (keeps_default h) k =
      subst (IsPrepared m) h (with_evaluator-IsPrepared s _ (keep_default-same s.evaluator) k)

  start-IsPrepared :
      (s s' : Rollout) (d : Option Baseline) → IsNew s → start m s ≡ (ok d, s') → IsPrepared m s'
  unfolding names
  start-IsPrepared s s' d new h =
      let (b, x, _, k) = start-IsStarted m s s' d h in
      let none_left : (s'.evaluator).candidates ≡ [] = k.same_candidates ∙ new.no_attempts in
      record {
        sound = record {
          numbered = ap ids none_left ∙ ap (λ cs. names (length cs)) (sym none_left);
          cutoffs = ap (all_of has_cutoff) none_left;
          shared = ap (all_of (shares_plan (s'.evaluator).default)) none_left;
          keyed = ap (is_keyed m.planner) k.is_default ∙ k.has_key;
        };
        unpaired = k.same_paired ∙ new.no_pairs;
        timed =
            ap (default_timed m.floats s'.measurement) k.is_default
            ∙ (ap (timed_reference m.floats s'.measurement b) k.is_median
                ∙ (ap (λ y. is_timed m.floats y b x) k.same_settings ∙ k.is_enough));
      }

  pub Reached-IsPrepared : (s : Rollout) → KeysTell m.planner → Reached m s → IsPrepared m s
  Reached-IsPrepared s tell (begun settings most s₀ d new h) =
      start-IsPrepared s₀ s d (new_rollout-IsNew m.floats settings most s₀ new) h
  Reached-IsPrepared s tell (next {s = t} before step) =
      Step-IsPrepared t s tell step (Reached-IsPrepared t tell before)

-- Where equal keys for the reuse of timings belong to one plan: in every state that a rollout reaches
-- between `start` and `finish`, whether its operations return or raise, the identifiers of the
-- attempts differ, no pair has been run, an attempt that has timed out has its cutoff, one with the
-- default's key has the default's plan, and the default has been run as often as the settings ask for
-- and has their median.
pub Reached-IsReady :
    (m : Machine) (s : Rollout) → KeysTell m.planner → Reached m s → IsReady m.floats s
Reached-IsReady m s tell reached = IsPrepared-IsReady m s (Reached-IsPrepared m s tell reached)

-- Where equal keys for the reuse of timings belong to one plan, and the worker reports the limit that a
-- query has exceeded: for every rollout that is started and then runs any attempts and choices, the
-- record after a `finish` that returns passes the checks of its evidence.
pub Reached-evidence_matches_outcome :
    (m : Machine) (task_id template_id : String) (asked : Option String) (s s' : Rollout)
    (final : Outcome)
    → KeysTell m.planner
    → ReportsLimit m.world
    → Reached m s
    → finish m asked s ≡ (ok final, s')
    → evidence_matches_outcome m.floats (rollout_record task_id template_id none s') ≡ ok tt
Reached-evidence_matches_outcome m task_id template_id asked s s' final tell reports reached =
    finish-evidence_matches_outcome m task_id template_id asked s s' final reports
      (Reached-IsReady m s tell reached)
