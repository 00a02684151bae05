-- ===== src/Measure/Query.antt =====
-- src/qorl/measure/query.py: the warm-up of one query, which ends once two executions in a row agree,
-- and its timed trials. `execute` gives the execution with a number, or the error that it raises.
pub mod WarmUp
use qorl.Prelude.{
  ℕ, zero, suc, ◌+◌, ◌-◌, ◌*◌, ◌/◌, ◌%◌, ◌^◌, ◌≤◌, ◌<◌, String, ◌≡◌, refl, sym, ap, ◌∙◌, ◌≢◌, ◌↔◌,
  ◌⊎◌, inl, inr, Bool, true, false, not, ◌&&◌, ◌||◌, Option, none, some, List, [], ◌∷◌, ◌++◌, map,
  arith, ltb, leb, nat_beq, if◌then◌else◌, nat_beq_iff, ltb→lt, lt→ltb, leb→le, le→leb, Bool-cases,
  Option-cases, Eq, ◌==◌, nat_eq, string_eq, length, get_elem?, length-append, keep, length-keep_le,
  some_of, all_of, first_of?, contains, is_distinct, intersect, without, is_subset, same_set,
  beq_self, contains-append, contains-keep, is_subset_iff, same_set_iff, sorted, is_sorted,
  sorted-perm, length-sorted, some_of-sorted, sorted-is_sorted, sorted_of_is_sorted, codes, name_le,
  names_le, name_le_total, names_le_total, contains-sorted, is_distinct-sorted, Result, ok, err,
  ◌>>=◌, ◌>>◌, raise_if, or_raise, >>=-eq-ok, >>-eq-ok, >>=-total, Dict, lookup, assign,
  lookup-assign, set_default, lookup-set_default, lookup_or, is_none, is_empty, decimal, two_digits,
  sorted_twice, is_subset-sorted, sorted-is_subset, without-sorted, is_empty-sorted,
}
use qorl.Numbers.{Number}

-- QueryObservation, as `observation` reads it from one execution
pub record QueryObservation : Type 0 where
  pub run : ℕ
  pub execution_time_ms : Number
  pub planning_time_ms : Number
  pub shared_hit_blocks : ℕ
  pub shared_read_blocks : ℕ
  pub plan_sha256 : String

pub record QueryRun : Type 0 where
  pub is_warmup : Bool
  pub observation : QueryObservation

pub data MeasureError : Type 0 where
  too_few_warmups too_few_trials : MeasureError
  failed : String → MeasureError

abbrev pub min_warmup_runs : ℕ
min_warmup_runs = 2

abbrev distance : ℕ → ℕ → ℕ
distance a b = (a - b) + (b - a)

abbrev max : ℕ → ℕ → ℕ
max a b = if leb a b then b else a

-- abs(left - right) / max(1, left, right) > 0.02. The quotient that Python rounds exceeds the
-- double 0.02 just where the fraction exceeds 1/50, for counts below 2^46.
abbrev pub differs : ℕ → ℕ → Bool
differs left right = ltb (max (max 1 left) right) (50 * distance left right)

unfoldable pub buffers_stable : QueryObservation → QueryObservation → Bool
buffers_stable previous current =
    previous.plan_sha256 == current.plan_sha256
    && not (differs previous.shared_hit_blocks current.shared_hit_blocks)
    && not (differs previous.shared_read_blocks current.shared_read_blocks)

-- Whether the warm-up ends with this observation.
abbrev pub is_stable : Option QueryObservation → QueryObservation → Bool
is_stable none current = false
is_stable (some previous) current = buffers_stable previous current

abbrev pub as_run : ℕ → Result String QueryObservation → Result MeasureError QueryObservation
as_run run (err text) = err (failed text)
as_run run (ok o) = ok (record o { run = run })

module _ (execute : ℕ → Result String QueryObservation) where
  -- The execution with the number `call`, as the run with the number `run`.
  unfoldable pub observe : ℕ → ℕ → Result MeasureError QueryObservation
  observe call run = as_run run (execute call)

  -- The warm-up from the run `run` on, with at most `left` runs to come.
  unfoldable pub warm_up :
      ℕ → ℕ → Option QueryObservation → Result MeasureError (List QueryObservation)
  unfolding observe
  warm_up zero run previous = ok []
  warm_up (suc left) run previous = observe run (run + 1) >>= λ current.
      let rest = warm_up left (run + 1) (some current) in
      if is_stable previous current
      then ok (current ∷ [])
      else (rest >>= λ later. ok (current ∷ later))

  -- The trials from the run `run` on, after `calls` executions of the warm-up.
  unfoldable pub trials : ℕ → ℕ → ℕ → Result MeasureError (List QueryObservation)
  unfolding observe
  trials zero calls run = ok []
  trials (suc left) calls run = do
    current ← observe (calls + run) (run + 1)
    later ← trials left calls (run + 1)
    ok (current ∷ later)

  unfoldable pub measure_query : ℕ → ℕ → Result MeasureError (List QueryRun)
  unfolding warm_up trials
  measure_query max_warmup_runs num_trials = do
    raise_if (ltb max_warmup_runs min_warmup_runs) too_few_warmups
    raise_if (ltb num_trials 1) too_few_trials
    warm ← warm_up max_warmup_runs 0 none
    timed ← trials num_trials (length warm) 0
    ok (
        map (λ o. record { is_warmup = true; observation = o }) warm
        ++ map (λ o. record { is_warmup = false; observation = o }) timed)
