-- ===== src/Measure/Rollout/Kinds.antt =====
-- The checks of the outcomes that `finish` returns, kind by kind.
use qorl.Prelude.{
  ℕ, String, ◌≡◌, refl, sym, ap, ◌∙◌, Bool, true, false, not, ◌&&◌, ◌||◌, Option, none, some, List,
  [], ◌∷◌, ◌++◌, arith, nat_beq, nat_beq_iff, nat_eq, string_eq, length, some_of, all_of, first_of?,
  beq_self, ok, >>-ok, raise_if-false,
}
use mathlib.Core.Path.{subst}
use qorl.Numbers.{Number, is_nan}
use qorl.Measure.Schemas.{Measurement, Baseline, Candidate, selection_eligible}
use qorl.Measure.Evidence
use qorl.Measure.Evidence.{
  MeasuredPlan, default, candidate, MeasurementPair, PairedMeasurements, Outcome, MeasuredOutcome,
  TimedOutOutcome, RolloutRecord, RolloutMeasurementSettings, same_option, number_eq,
}
use qorl.Measure.Evidence.Matches.{
  check_identity, check_kind, has_id, selected_plan_sha256, timing_reuse_key, is_usable, ran_plans,
  ran_plan, was_cut_off,
}
use qorl.Measure.Rollout.Finish.{as_measured, limit_of}
use qorl.Measure.Rollout.Pairs.{is_run, both_true}
use qorl.Measure.Rollout.Gathered.{pair_ran}
use qorl.Measure.Rollout.Measured.{IsMeasuredOutcome, IsTimedOut}
use qorl.Measure.Rollout.Support.{same_option_self, number_eq_self}

negated : (b : Bool) → b ≡ true → not b ≡ false
negated b h = ground arith

some_inj : (a b : Number) → ◌≡◌ {A = Option Number} (some a) (some b) → a ≡ b
some_inj a b h = cc

-- The two checks of an outcome, where `selected` is its recorded attempt.
pub record Checks (r : RolloutRecord) (b : Baseline) (x : Number) (selected : Option Candidate)
    (final : Outcome) : Type 0 where
  pub identity : check_identity final selected ≡ ok tt
  pub kind : check_kind r b x selected final ≡ ok tt

pub kept_default-Checks :
    (r : RolloutRecord) (b : Baseline) (x : Number) (key : String) (selected : Option Candidate)
    → selected ≡ none
    → b.timing_reuse_key ≡ some key
    → Checks r b x selected (Evidence.kept_default b.plan_sha256 key)
unfolding check_identity check_kind
kept_default-Checks r b x key selected unselected keyed = record {
  identity = ap (check_identity (Evidence.kept_default b.plan_sha256 key)) unselected;
  kind = raise_if-false _ _ (
      negated _ (
        both_true _ _ (beq_self b.plan_sha256) (ap (same_option (some key)) keyed ∙ beq_self key)));
}

identity-some :
    (final : Outcome) (c : Candidate)
    → c.plan_sha256 ≡ selected_plan_sha256 final
    → c.timing_reuse_key ≡ timing_reuse_key final
    → check_identity final (some c) ≡ ok tt
unfolding check_identity
identity-some final c plan key = raise_if-false _ _ (
    negated _ (
      both_true _ _ (ap (same_option c.plan_sha256) (sym plan) ∙ same_option_self c.plan_sha256)
        (ap (same_option c.timing_reuse_key) (sym key) ∙ same_option_self c.timing_reuse_key)))

pub default_duplicate-Checks :
    (r : RolloutRecord) (b : Baseline) (x : Number) (c : Candidate) (plan key : String)
    → c.plan_sha256 ≡ some plan
    → c.timing_reuse_key ≡ some key
    → is_usable (some c) ≡ true
    → same_option c.timing_reuse_key b.timing_reuse_key ≡ true
    → same_option c.plan_sha256 (some b.plan_sha256) ≡ true
    → Checks r b x (some c) (Evidence.default_duplicate c.candidate_id plan key)
unfolding check_kind
default_duplicate-Checks r b x c plan key has_plan has_key usable same_key same = record {
  identity = identity-some (Evidence.default_duplicate c.candidate_id plan key) c has_plan has_key;
  kind = >>-ok _ _ (raise_if-false _ _ (negated _ usable)) (
      raise_if-false _ _ (
        negated _ (
          both_true _ _ (ap (λ o. same_option o (some b.plan_sha256)) (sym has_plan) ∙ same)
            (ap (λ o. same_option o b.timing_reuse_key) (sym has_key) ∙ same_key))));
}

pub timed_out-Checks :
    (r : RolloutRecord) (b : Baseline) (x : Number) (c d : Candidate) (limit : ℕ) (final : Outcome)
    → IsTimedOut c (some b) limit final
    → b.median_execution_time_ms ≡ some x
    → is_nan x ≡ false
    → d.plan_sha256 ≡ c.plan_sha256
    → d.timing_reuse_key ≡ c.timing_reuse_key
    → was_cut_off (limit_of c limit) (some d) ≡ true
    → Checks r b x (some d) final
unfolding check_kind
timed_out-Checks r b x c d limit final out has_median number plan key cut =
    let o = out.cutoff in
    let at : o.initial_default_median_execution_time_ms ≡ x =
      some_inj _ _ (sym out.cut_reference ∙ has_median) in
    subst (Checks r b x (some d)) (sym out.is_timed_out_outcome) (record {
      identity =
          identity-some (Evidence.timed_out o) d (plan ∙ sym out.cut_plan) (key ∙ sym out.cut_key);
      kind =
          >>-ok _ _
            (raise_if-false _ _ (negated _ (ap (λ l. was_cut_off l (some d)) out.cut_at ∙ cut)))
            (raise_if-false _ _ (negated _ (ap (λ y. number_eq y x) at ∙ number_eq_self x number)));
    })

is_run-ran_plan :
    (plan : String) (o : Option Measurement) → is_run (some plan) o ≡ true → ran_plan plan o ≡ true
is_run-ran_plan plan none h = cc
is_run-ran_plan plan (some x) h = ground arith

pair_ran-ran_plans :
    (b : Baseline) (plan : String) (p : MeasurementPair)
    → pair_ran (some b.plan_sha256) (some plan) p ≡ true
    → ran_plans b plan p ≡ true
pair_ran-ran_plans b plan p h =
    ground (arith, is_run-ran_plan b.plan_sha256 p.default, is_run-ran_plan plan p.candidate)

both_parts : (a b : Bool) → a && b ≡ true → (a ≡ true) × (b ≡ true)
both_parts a b h = ground arith

all_ran :
    (b : Baseline) (plan : String) (o : Option String) (ps : List MeasurementPair)
    → o ≡ some plan
    → all_of (pair_ran (some b.plan_sha256) o) ps ≡ true
    → all_of (ran_plans b plan) ps ≡ true
all_ran b plan o [] e h = refl
all_ran b plan o (p ∷ ps) e h =
    let (first, rest) = both_parts _ _ h in
    both_true _ _
      (pair_ran-ran_plans b plan p (sym (ap (λ q. pair_ran (some b.plan_sha256) q p) e) ∙ first))
      (all_ran b plan o ps e rest)

not_either : (a b : Bool) → a ≡ true → b ≡ true → (not a || not b) ≡ false
not_either a b h k = ground arith

all_of-append :
    (p : MeasurementPair → Bool) (xs ys : List MeasurementPair)
    → all_of p xs ≡ true
    → all_of p ys ≡ true
    → all_of p (xs ++ ys) ≡ true
all_of-append p [] ys h k = k
all_of-append p (x ∷ xs) ys h k = ground (arith, all_of-append p xs ys)

pub measured-Checks :
    (r : RolloutRecord) (b : Baseline) (x : Number) (c : Candidate) (plan key : String)
    (warmed timed : List MeasurementPair) (final : Outcome)
    → IsMeasuredOutcome c plan key (record { warmups = warmed; measurements = timed }) final
    → c.plan_sha256 ≡ some plan
    → c.timing_reuse_key ≡ some key
    → is_usable (some c) ≡ true
    → same_option c.timing_reuse_key b.timing_reuse_key ≡ false
    → length warmed ≡ (r.measurement).paired_warmups
    → length timed ≡ (r.measurement).paired_measurements
    → all_of (pair_ran (some b.plan_sha256) c.plan_sha256) warmed ≡ true
    → all_of (pair_ran (some b.plan_sha256) c.plan_sha256) timed ≡ true
    → Checks r b x (some (as_measured c)) final
unfolding check_kind
measured-Checks r b x c plan key warmed timed final out has_plan has_key usable own n k w t =
    let o = out.outcome in
    subst (Checks r b x (some (as_measured c))) (sym out.is_measured_outcome) (record {
      identity =
          identity-some (Evidence.measured o) (as_measured c)
            (has_plan ∙ sym (ap (λ y. some y) out.of_plan))
            (has_key ∙ sym (ap (λ y. some y) out.of_key));
      kind = >>-ok _ _ (raise_if-false _ _ (negated _ usable)) (
          >>-ok _ _
            (raise_if-false _ _ (
              ap (λ y. same_option (some y) b.timing_reuse_key) out.of_key
              ∙ (ap (λ y. same_option y b.timing_reuse_key) (sym has_key) ∙ own)))
            (>>-ok _ _
              (raise_if-false _ _ (
                ap
                  (λ p.
                    not (nat_beq (length p.warmups) (r.measurement).paired_warmups)
                    || not (nat_beq (length p.measurements) (r.measurement).paired_measurements))
                  out.of_pairs
                ∙ not_either _ _ ((nat_beq_iff _ _).1 n) ((nat_beq_iff _ _).1 k)))
              (raise_if-false _ _ (
                negated _ (
                  ap
                    (λ p. all_of (ran_plans b o.selected_plan_sha256) (p.warmups ++ p.measurements))
                    out.of_pairs
                  ∙ (ap (λ y. all_of (ran_plans b y) (warmed ++ timed)) out.of_plan
                      ∙ all_of-append (ran_plans b plan) warmed timed
                          (all_ran b plan c.plan_sha256 warmed has_plan w)
                          (all_ran b plan c.plan_sha256 timed has_plan t)))))));
    })

pub no_valid_candidate-Checks :
    (r : RolloutRecord) (b : Baseline) (x : Number) (selected : Option Candidate)
    → selected ≡ none
    → some_of selection_eligible r.candidates ≡ false
    → Checks r b x selected Evidence.no_valid_candidate
unfolding check_identity check_kind
no_valid_candidate-Checks r b x selected unselected unusable = record {
  identity = ap (check_identity Evidence.no_valid_candidate) unselected;
  kind = raise_if-false _ _ unusable;
}

-- No recorded attempt has no identifier.
pub nothing_selected : (cs : List Candidate) → first_of? (has_id none) cs ≡ none
nothing_selected [] = refl
nothing_selected (c ∷ cs) = nothing_selected cs
