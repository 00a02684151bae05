-- ===== src/Measure/Rollout/Ready.antt =====
-- A rollout that is ready to be finished, and the outcome of the candidate that it selects.
use qorl.Prelude.{
  ℕ, String, ◌≡◌, refl, sym, ap, ◌∙◌, inl, inr, Bool, true, false, not, ◌&&◌, ◌||◌, Option, none,
  some, List, [], ◌∷◌, ◌++◌, arith, nat_beq_iff, Bool-cases, Option-cases, nat_eq, string_eq,
  all_of, first_of?, is_distinct, ok, is_none,
}
use mathlib.Core.Path.{subst}
use qorl.Numbers.{Number, is_nan}
use qorl.Measure.Timeouts.{Floats}
use qorl.Measure.Schemas.{Baseline, Candidate, selection_eligible}
use qorl.Measure.Evidence.{
  default, MeasurementPair, Outcome, RolloutRecord, RolloutMeasurementSettings, same_option,
  PairedMeasurements,
}
use qorl.Measure.Evidence.Matches.{is_usable, has_id, was_cut_off}
use qorl.Measure.Rollout.{Rollout, Machine}
use qorl.Measure.Rollout.Attempts.{with_timeout}
use qorl.Measure.Rollout.Finish.{timed_out_outcome, as_measured, limit_of}
use qorl.Measure.Rollout.Pairing.{expected_plan}
use qorl.Measure.Rollout.Pairs.{Cut}
use qorl.Measure.Rollout.Gathered.{pair_ran}
use qorl.Measure.Rollout.Measured.{IsTimedOut, IsMeasuredOutcome, AllMeasured, timed_out_outcome-ok}
use qorl.Measure.Rollout.Chosen.{ids, update_id-first_of?, update_id-ids}
use qorl.Measure.Rollout.Support.{is_timed, selected_of}
use qorl.Measure.Rollout.Kinds.{Checks, timed_out-Checks, measured-Checks}

abbrev pub has_cutoff : Candidate → Bool
has_cutoff c = not c.execution_timed_out || not (is_none c.timeout_ms)

-- A candidate whose timing the default's stands for has the default's plan.
abbrev pub shares_plan : Option Baseline → Candidate → Bool
shares_plan none c = true
shares_plan (some b) c =
    not (same_option c.timing_reuse_key b.timing_reuse_key)
    || same_option c.plan_sha256 (some b.plan_sha256)

abbrev pub timed_reference : Floats → RolloutMeasurementSettings → Baseline → Option Number → Bool
timed_reference floats settings b none = false
timed_reference floats settings b (some x) = is_timed floats settings b x

abbrev pub default_timed : Floats → RolloutMeasurementSettings → Option Baseline → Bool
default_timed floats settings none = false
default_timed floats settings (some b) =
    timed_reference floats settings b b.median_execution_time_ms

pub record IsReady (floats : Floats) (s : Rollout) : Type 0 where
  -- the identifiers of the attempts differ
  pub distinct : is_distinct (ids (s.evaluator).candidates) ≡ true
  -- no pair has been run
  pub unpaired : s.paired ≡ record { warmups = []; measurements = [] }
  -- an attempt that has timed out has its cutoff
  pub cutoffs : all_of has_cutoff (s.evaluator).candidates ≡ true
  -- attempts that share the default's timing share its plan
  pub shared : all_of (shares_plan (s.evaluator).default) (s.evaluator).candidates ≡ true
  -- the default has been run as often as the settings ask for, and has their median
  pub timed : default_timed floats s.measurement (s.evaluator).default ≡ true

-- The candidate is the recorded one with its identifier, and may be selected.
pub record IsChosen (c : Candidate) (s : Rollout) : Type 0 where
  pub recorded : first_of? (has_id (some c.candidate_id)) (s.evaluator).candidates ≡ some c
  pub is_eligible : selection_eligible c ≡ true

-- The outcome stands on the evidence of the state.
pub record Settled (b : Baseline) (x : Number) (s s' : Rollout) (final : Outcome) : Type 0 where
  pub settled_default : (s'.evaluator).default ≡ (s.evaluator).default
  pub settled_settings : s'.measurement ≡ s.measurement
  pub settled_ids : ids (s'.evaluator).candidates ≡ ids (s.evaluator).candidates
  pub settled_checks :
      (r : RolloutRecord)
      → r.candidates ≡ (s'.evaluator).candidates
      → r.measurement ≡ s.measurement
      → Checks r b x (selected_of final (s'.evaluator).candidates) final

first_part : (a b : Bool) → a && b ≡ true → a ≡ true
first_part a b h = ground arith

second_part : (a b : Bool) → a && b ≡ true → b ≡ true
second_part a b h = ground arith

pub first_of?-all_of :
    (p q : Candidate → Bool) (xs : List Candidate) (c : Candidate)
    → first_of? q xs ≡ some c
    → all_of p xs ≡ true
    → p c ≡ true
first_of?-all_of p q [] c h k = cc
first_of?-all_of p q (x ∷ xs) c h k = elim (Bool-cases (q x)) [
  | inl found ↦
      let e : some x ≡ some c = rw found at h in
      let same : x ≡ c = cc in sym (ap p same) ∙ (first_part _ _ k)
  | inr other ↦ first_of?-all_of p q xs c (rw other at h) (second_part _ _ k)
]

pub usable :
    (c : Candidate)
    → selection_eligible c ≡ true
    → c.execution_timed_out ≡ false
    → is_usable (some c) ≡ true
usable c h k = ground arith

cut_limit : (c : Candidate) (limit : ℕ) → c.execution_timed_out ≡ false → limit_of c limit ≡ limit
cut_limit c limit h = rw h refl

cut_at_limit :
    (c : Candidate) (limit : ℕ)
    → c.execution_timed_out ≡ true
    → has_cutoff c ≡ true
    → was_cut_off (limit_of c limit) (some c) ≡ true
cut_at_limit c limit h k = elim (Option-cases c.timeout_ms) [
  | inl missing ↦ ground arith
  | inr (t, found) ↦ ground arith
]

IsTimedOut-selected :
    (c : Candidate) (d : Option Baseline) (limit : ℕ) (final : Outcome) (cs : List Candidate)
    → IsTimedOut c d limit final
    → selected_of final cs ≡ first_of? (has_id (some c.candidate_id)) cs
IsTimedOut-selected c d limit final cs out =
    ap (λ f. selected_of f cs) out.is_timed_out_outcome
    ∙ ap (λ id. first_of? (has_id (some id)) cs) out.cut_candidate

IsMeasuredOutcome-selected :
    (c : Candidate) (plan key : String) (p : PairedMeasurements) (final : Outcome)
    (cs : List Candidate)
    → IsMeasuredOutcome c plan key p final
    → selected_of final cs ≡ first_of? (has_id (some c.candidate_id)) cs
IsMeasuredOutcome-selected c plan key p final cs out =
    ap (λ f. selected_of f cs) out.is_measured_outcome
    ∙ ap (λ id. first_of? (has_id (some id)) cs) out.of_candidate

-- The outcome of a candidate that times out in its pairs.
pub Cut-Settled :
    (b : Baseline) (x : Number) (c : Candidate) (final : Outcome) (s s' : Rollout) (limit : ℕ)
    → (s.evaluator).default ≡ some b
    → b.median_execution_time_ms ≡ some x
    → is_nan x ≡ false
    → IsChosen c s
    → c.execution_timed_out ≡ false
    → Cut c limit s s'
    → IsTimedOut c (s.evaluator).default limit final
    → Settled b x s s' final
Cut-Settled b x c final s s' limit has_default has_median number chosen in_time k out =
    let found : selected_of final (s'.evaluator).candidates ≡ some (with_timeout limit c) =
      IsTimedOut-selected c (s.evaluator).default limit final (s'.evaluator).candidates out
      ∙ (ap (first_of? (has_id (some c.candidate_id))) k.cut
          ∙ update_id-first_of? (s.evaluator).candidates c.candidate_id c (with_timeout limit c)
              refl chosen.recorded) in
    record {
      settled_default = k.cut_default;
      settled_settings = k.cut_settings;
      settled_ids =
          ap ids k.cut
          ∙ update_id-ids (s.evaluator).candidates c.candidate_id (with_timeout limit c) refl;
      settled_checks = λ r candidates settings.
          subst (λ y. Checks r b x y final) (sym found)
            (timed_out-Checks r b x c (with_timeout limit c) limit final
              (subst (λ d. IsTimedOut c d limit final) has_default out) has_median number refl refl
              ((nat_beq_iff limit (limit_of c limit)).1 (sym (cut_limit c limit in_time))));
    }

own_pairs :
    (warmed timed : List MeasurementPair) (s : Rollout)
    → s.paired ≡ record { warmups = []; measurements = [] }
    → ◌≡◌ {A = PairedMeasurements}
        (record {
          warmups = (s.paired).warmups ++ warmed;
          measurements = (s.paired).measurements ++ timed;
        })
        (record { warmups = warmed; measurements = timed })
own_pairs warmed timed s h =
    ap
      (λ (p : PairedMeasurements).
        let q : PairedMeasurements = record {
          warmups = p.warmups ++ warmed;
          measurements = p.measurements ++ timed;
        } in
        q)
      h

default_ran :
    (d : Option Baseline) (b : Baseline) (c : Candidate) (ps : List MeasurementPair)
    → d ≡ some b
    → all_of (pair_ran (expected_plan default d c) c.plan_sha256) ps ≡ true
    → all_of (pair_ran (some b.plan_sha256) c.plan_sha256) ps ≡ true
default_ran d b c ps e h =
    sym (ap (λ y. all_of (pair_ran (expected_plan default y c) c.plan_sha256) ps) e) ∙ h

module _ (m : Machine) where
  pub measured-Settled :
      (b : Baseline) (x : Number) (c : Candidate) (plan key : String) (final : Outcome)
      (s s' : Rollout)
      → (s.evaluator).default ≡ some b
      → IsChosen c s
      → is_usable (some c) ≡ true
      → same_option c.timing_reuse_key b.timing_reuse_key ≡ false
      → c.plan_sha256 ≡ some plan
      → c.timing_reuse_key ≡ some key
      → s.paired ≡ record { warmups = []; measurements = [] }
      → AllMeasured m c plan key s s' final
      → Settled b x s s' final
  measured-Settled b x c plan key final s s' has_default chosen good own has_plan has_key empty a =
      let k = a.all_marked in
      let out =
        subst (λ p. IsMeasuredOutcome c plan key p final) (own_pairs a.warmed a.timed s empty)
          a.of_all in
      let found : selected_of final (s'.evaluator).candidates ≡ some (as_measured c) =
        IsMeasuredOutcome-selected c plan key _ final (s'.evaluator).candidates out
        ∙ (ap (first_of? (has_id (some c.candidate_id))) k.marked
            ∙ update_id-first_of? (s.evaluator).candidates c.candidate_id c (as_measured c) refl
                chosen.recorded) in
      record {
        settled_default = k.marked_default;
        settled_settings = k.marked_settings;
        settled_ids =
            ap ids k.marked
            ∙ update_id-ids (s.evaluator).candidates c.candidate_id (as_measured c) refl;
        settled_checks = λ r candidates settings.
            subst (λ y. Checks r b x y final) (sym found)
              (measured-Checks r b x c plan key a.warmed a.timed final out has_plan has_key good own
                (a.warmed_many ∙ ap (λ y. y.paired_warmups) (sym settings))
                (a.timed_many ∙ ap (λ y. y.paired_measurements) (sym settings))
                (default_ran _ b c a.warmed has_default a.warmed_ran)
                (default_ran _ b c a.timed has_default a.timed_ran));
      }

  -- The outcome of a candidate that has timed out in an attempt.
  pub late-Settled :
      (b : Baseline) (x : Number) (c : Candidate) (final : Outcome) (s s' : Rollout)
      → (s.evaluator).default ≡ some b
      → b.median_execution_time_ms ≡ some x
      → is_nan x ≡ false
      → IsChosen c s
      → has_cutoff c ≡ true
      → c.execution_timed_out ≡ true
      → timed_out_outcome m c s ≡ (ok final, s')
      → Settled b x s s' final
  late-Settled b x c final s s' has_default has_median number chosen cutoff late h =
      let (out, same) = timed_out_outcome-ok m c final s s' h in
      let o = out.cutoff in
      let found : selected_of final (s'.evaluator).candidates ≡ some c =
        IsTimedOut-selected c (s.evaluator).default (s.evaluator).timeout_ms final
          (s'.evaluator).candidates out
        ∙ (ap (λ y. first_of? (has_id (some c.candidate_id)) (y.evaluator).candidates) (sym same)
            ∙ chosen.recorded) in
      record {
        settled_default = ap (λ y. (y.evaluator).default) (sym same);
        settled_settings = ap (λ y. y.measurement) (sym same);
        settled_ids = ap (λ y. ids (y.evaluator).candidates) (sym same);
        settled_checks = λ r candidates settings.
            subst (λ y. Checks r b x y final) (sym found)
              (timed_out-Checks r b x c c (s.evaluator).timeout_ms final
                (subst (λ d. IsTimedOut c d (s.evaluator).timeout_ms final) has_default out)
                has_median number refl refl (cut_at_limit c (s.evaluator).timeout_ms late cutoff));
      }
