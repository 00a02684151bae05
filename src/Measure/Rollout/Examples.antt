-- ===== src/Measure/Rollout/Examples.antt =====
-- The properties of a rollout at one that is started, makes an attempt and is finished.
use qorl.Prelude.{ℕ, ◌+◌, ◌≡◌, refl, Option, none, some, nat_eq, string_eq, sorted, ok}
use qorl.Measure.Rollout.{start}
use qorl.Measure.Rollout.Attempts.{evaluate}
use qorl.Measure.Rollout.Finish.{finish, rollout_record}
use qorl.Measure.Evidence
use qorl.Numbers.{Number}
use qorl.Measure.Evidence.{Outcome}
use qorl.Measure.Evidence.Matches.{evidence_matches_outcome}
use qorl.Measure.Schemas.{Baseline}
use qorl.Measure.Rollout.Samples.{
  sample_machine, sample_settings, failing_machine, unprobed, unstarted, started, attempted,
  finished,
}
use qorl.Measure.Rollout.Gathered.{ReportsLimit}
use qorl.Measure.Rollout.Ready.{IsReady}
use qorl.Measure.Rollout.Starting.{start-IsStarted}
use qorl.Measure.Rollout.Assembling.{IsStarted}
use qorl.Json.{null}
use qorl.Measure.Rollout.Retained.{IsRetained, IsKept, start-Ends}
use qorl.Measure.Rollout.Spent.{IsWithin, evaluate-IsWithin}
use qorl.Measure.Rollout.Triples.{Ends}
use qorl.Measure.Rollout.Sound.{KeysTell}
use qorl.Measure.Rollout.Lifecycle.{
  Reached, begun, next, evaluates, Reached-IsReady, Reached-evidence_matches_outcome,
}
use qorl.Measure.Rollout.{new_rollout}

abbrev started_default : Option Baseline
started_default = (started.evaluator).default

started-ok : start sample_machine unstarted ≡ (ok started_default, started)
unfolding start sorted
started-ok = refl

start-IsStarted_example :
    (b : Baseline) × (x : Number) × (started_default ≡ some b)
    × IsStarted sample_machine unstarted started b x
start-IsStarted_example =
    start-IsStarted sample_machine unstarted started started_default started-ok

sample-ReportsLimit : ReportsLimit sample_machine.world
sample-ReportsLimit call limit reported sql hint analyze h = cc

abbrev kept : Outcome
kept = elim finished.final [ none ↦ Evidence.kept_default "" "" | some o ↦ o ]

finished-ok : finish sample_machine none attempted ≡ (ok kept, finished)
unfolding finish evaluate start sorted
finished-ok = refl

keys_tell : KeysTell sample_machine.planner
keys_tell plan plan' action action' h = h

created : new_rollout sample_machine.floats sample_settings 3 ≡ ok unstarted
unfolding new_rollout
created = refl

started-Reached : Reached sample_machine started
started-Reached = begun sample_settings 3 unstarted started_default created started-ok

attempted-Reached : Reached sample_machine attempted
attempted-Reached = next started-Reached (evaluates null refl)

Reached-IsReady_example : IsReady sample_machine.floats attempted
Reached-IsReady_example = Reached-IsReady sample_machine attempted keys_tell attempted-Reached

Reached-evidence_matches_outcome_example :
    evidence_matches_outcome sample_machine.floats (rollout_record "task" "template" none finished)
    ≡ ok tt
Reached-evidence_matches_outcome_example =
    Reached-evidence_matches_outcome sample_machine "task" "template" none attempted finished kept
      keys_tell sample-ReportsLimit attempted-Reached finished-ok

start-Ends_example : Ends (IsRetained 0) (λ d. IsKept 0 0) (start failing_machine unstarted)
start-Ends_example = start-Ends failing_machine unstarted refl

abbrev asked : ℕ
asked = sample_settings.candidate_feedback_warmups + sample_settings.candidate_feedback_measurements

-- The connection is lost in the third call of the worker, which is the first probe.
evaluate-IsWithin_example :
    Ends
      (IsWithin sample_settings 0 asked)
      (λ c. IsWithin sample_settings 0 asked)
      (evaluate failing_machine null unprobed)
evaluate-IsWithin_example = evaluate-IsWithin failing_machine null unprobed
