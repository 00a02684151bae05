-- ===== src/Measure/Rollout/Support.antt =====
-- When a record's evidence supports its outcome, check by check.
use qorl.Prelude.{
  ℕ, ◌*◌, ◌^◌, String, ◌≡◌, refl, ap, ◌∙◌, Bool, true, false, not, ◌&&◌, ◌||◌, Option, none, some,
  List, map, arith, leb, nat_beq, nat_eq, string_eq, length, first_of?, is_distinct, beq_self, ok,
  >>-ok, raise_if-false, is_none,
}
use qorl.Numbers.{Number, int, float, infinite, nan, is_nan, number_le}
use qorl.Measure.Timeouts.{Floats, median}
use qorl.Measure.Schemas.{Baseline, Candidate}
use qorl.Measure.Evidence.{
  Outcome, RolloutRecord, RolloutMeasurementSettings, same_option, number_eq, is_result,
}
use qorl.Measure.Evidence.Matches.{
  same_bool, evidence_matches_outcome, check_final, check_measured, check_reference, check_default,
  check_identity, check_kind, has_id, selected_candidate_id, times_of,
}

pub same_option_self : (o : Option String) → same_option o o ≡ true
same_option_self none = refl
same_option_self (some x) = beq_self x

pub same_option-eq : (o p : Option String) → same_option o p ≡ true → o ≡ p
same_option-eq none none h = refl
same_option-eq none (some y) h = cc
same_option-eq (some x) none h = cc
same_option-eq (some x) (some y) h = ap (λ z. some z) ((string_eq.beq_iff x y).0 h)

nat_self : (n : ℕ) → nat_beq n n ≡ true
nat_self n = ground arith

leb_self : (n : ℕ) → leb n n ≡ true
leb_self n = ground arith

or_not : (b : Bool) → b || not b ≡ true
or_not b = ground arith

number_le_self : (x : Number) → is_nan x ≡ false → number_le x x ≡ true
unfolding number_le
number_le_self (int false n) h = leb_self (n * 2 ^ 0)
number_le_self (int true n) h = leb_self (n * 2 ^ 0)
number_le_self (float false n s) h = leb_self (n * 2 ^ s)
number_le_self (float true n s) h = leb_self (n * 2 ^ s)
number_le_self (infinite b) h = or_not b
number_le_self nan h = cc

pub number_eq_self : (x : Number) → is_nan x ≡ false → number_eq x x ≡ true
number_eq_self x h = ground (arith, number_le_self x h)

-- The default's executions are as many as the settings ask for, and `x` is their median.
abbrev pub is_timed : Floats → RolloutMeasurementSettings → Baseline → Number → Bool
is_timed floats settings b x =
    nat_beq (length b.warmups) settings.default_warmups
    && nat_beq (length b.measurements) settings.default_measurements
    && is_result (median floats (times_of b.measurements)) x
    && not (is_nan x)

four :
    (a b c d : Bool)
    → a && b && c && d ≡ true
    → ((not a || not b) ≡ false) × (not c ≡ false) × (d ≡ true)
four a b c d h = ground arith

pub check_default-ok :
    (floats : Floats) (settings : RolloutMeasurementSettings) (b : Baseline) (x : Number)
    → is_timed floats settings b x ≡ true
    → check_default floats settings b x ≡ ok tt
unfolding check_default
check_default-ok floats settings b x h =
    let (runs, same, _) = four _ _ _ _ h in
    >>-ok _ _ (raise_if-false _ _ runs) (raise_if-false _ _ same)

one_of : (a b : Bool) → a ≡ false → b ≡ true → same_bool a b ≡ false
one_of a b h k = ground arith

unnegated : (b : Bool) → b ≡ true → not b ≡ false
unnegated b h = ground arith

-- The recorded attempt with the outcome's identifier.
abbrev pub selected_of : Outcome → List Candidate → Option Candidate
selected_of final candidates = first_of? (has_id (selected_candidate_id final)) candidates

pub evidence-ok :
    (floats : Floats) (r : RolloutRecord) (b : Baseline) (x : Number) (final : Outcome)
    → r.final ≡ some final
    → is_none r.failure ≡ true
    → is_distinct (map (λ c. c.candidate_id) r.candidates) ≡ true
    → r.default ≡ some b
    → b.median_execution_time_ms ≡ some x
    → check_default floats r.measurement b x ≡ ok tt
    → check_identity final (selected_of final r.candidates) ≡ ok tt
    → check_kind r b x (selected_of final r.candidates) final ≡ ok tt
    → evidence_matches_outcome floats r ≡ ok tt
unfolding evidence_matches_outcome
evidence-ok floats r b x final ended unfailed distinct has_default has_median timed identity kind =
    >>-ok _ _
      (raise_if-false _ _
        (one_of (is_none r.final) (is_none r.failure) (ap is_none ended) unfailed))
      (>>-ok _ _ (raise_if-false _ _ (unnegated _ distinct)) (
        ap (check_final floats r) ended
        ∙ (ap (λ d. check_measured floats r d final) has_default
            ∙ (ap (λ o. check_reference floats r b o final) has_median
                ∙ >>-ok _ _ timed (>>-ok _ _ identity kind)))))
