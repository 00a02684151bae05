-- ===== src/Measure/Rollout/Started.antt =====
-- The timed executions of the default, of src/qorl/measure/rollout.py.
use qorl.Prelude.{
  ℕ, zero, suc, ◌+◌, String, ◌≡◌, refl, sym, ap, ◌∙◌, Bool, true, Option, none, some, List, [], ◌∷◌,
  ◌++◌, arith, ◌==◌, nat_eq, string_eq, length, length-append, all_of, ok,
}
use mathlib.Core.Path.{subst}
use mathlib.Core.List.{append-nil, append_assoc}
use qorl.Measure.Schemas.{Measurement, Baseline}
use qorl.Measure.Rollout.{
  Rollout, Machine, ◌>>=◌, ◌>>◌, require, lift, answer, measured, check_cancelled, execute,
  count_default, time_default, time_defaults, keep_warmup, keep_measurement, modify, plan_changed,
}
use qorl.Measure.Rollout.Steps.{after-ok, require-ok, check_cancelled-Quiet, execute-Quiet, Quiet}

abbrev pub add_run : (Measurement → Baseline → Baseline) → Measurement → Rollout → Rollout
add_run keep_run x s = record s {
  evaluator = record s.evaluator {
    default = elim (s.evaluator).default [ none ↦ none | some b ↦ some (keep_run x b) ];
  };
}

-- The baseline once its runs are kept.
abbrev pub keep_all : (Measurement → Baseline → Baseline) → Baseline → List Measurement → Baseline
keep_all keep_run b [] = b
keep_all keep_run b (x ∷ xs) = keep_all keep_run (keep_run x b) xs

-- The executions of the default from `s` to `s'`, whose measurements `keep_run` has recorded.
pub record Timed (keep_run : Measurement → Baseline → Baseline) (plan_sha256 : String) (n : ℕ)
    (b : Baseline) (s s' : Rollout) : Type 0 where
  pub runs : List Measurement
  pub many : length runs ≡ n
  pub ran : all_of (λ x. x.plan_sha256 == plan_sha256) runs ≡ true
  pub kept : (s'.evaluator).default ≡ some (keep_all keep_run b runs)
  pub counted : (s'.execution_counts).initial_default ≡ (s.execution_counts).initial_default + n
  pub same_candidates : (s'.evaluator).candidates ≡ (s.evaluator).candidates
  pub same_settings : s'.measurement ≡ s.measurement
  pub same_paired : s'.paired ≡ s.paired

Timed-none :
    (keep_run : Measurement → Baseline → Baseline) (plan_sha256 : String) (b : Baseline)
    (s s' : Rollout)
    → (s.evaluator).default ≡ some b
    → s ≡ s'
    → Timed keep_run plan_sha256 0 b s s'
Timed-none keep_run plan_sha256 b s s' has_default e =
    subst (Timed keep_run plan_sha256 0 b s) e (record {
      runs = [];
      many = refl;
      ran = refl;
      kept = has_default;
      counted = omega arith;
      same_candidates = refl;
      same_settings = refl;
      same_paired = refl;
    })

keep_all-append :
    (keep_run : Measurement → Baseline → Baseline) (b : Baseline) (xs ys : List Measurement)
    → keep_all keep_run b (xs ++ ys) ≡ keep_all keep_run (keep_all keep_run b xs) ys
keep_all-append keep_run b [] ys = refl
keep_all-append keep_run b (x ∷ xs) ys = keep_all-append keep_run (keep_run x b) xs ys

pub all_of-append :
    {A : Type 0} (p : A → Bool) (xs ys : List A)
    → all_of p xs ≡ true
    → all_of p ys ≡ true
    → all_of p (xs ++ ys) ≡ true
all_of-append p [] ys h k = k
all_of-append p (x ∷ xs) ys h k = ground (arith, all_of-append p xs ys)

Timed-then :
    (keep_run : Measurement → Baseline → Baseline) (plan_sha256 : String) (n : ℕ) (b : Baseline)
    (s t s' : Rollout)
    → Timed keep_run plan_sha256 1 b s t
    → ((c : Baseline) → (t.evaluator).default ≡ some c → Timed keep_run plan_sha256 n c t s')
    → Timed keep_run plan_sha256 (suc n) b s s'
Timed-then keep_run plan_sha256 n b s t s' first rest =
    let later = rest (keep_all keep_run b first.runs) first.kept in
    record {
      runs = first.runs ++ later.runs;
      many = omega (arith, length-append first.runs later.runs, first.many, later.many);
      ran = all_of-append _ first.runs later.runs first.ran later.ran;
      kept = later.kept ∙ ap (λ c. some c) (sym (keep_all-append keep_run b first.runs later.runs));
      counted = omega (arith, first.counted, later.counted);
      same_candidates = later.same_candidates ∙ first.same_candidates;
      same_settings = later.same_settings ∙ first.same_settings;
      same_paired = later.same_paired ∙ first.same_paired;
    }

pub keep_all-warmups :
    (b : Baseline) (xs : List Measurement)
    → keep_all keep_warmup b xs ≡ record b { warmups = b.warmups ++ xs }
keep_all-warmups b [] = ap (λ ws. record b { warmups = ws }) (sym (append-nil b.warmups))
keep_all-warmups b (x ∷ xs) =
    keep_all-warmups (keep_warmup x b) xs
    ∙ ap (λ ws. record b { warmups = ws }) (append_assoc b.warmups (x ∷ []) xs)

pub keep_all-measurements :
    (b : Baseline) (xs : List Measurement)
    → keep_all keep_measurement b xs ≡ record b { measurements = b.measurements ++ xs }
keep_all-measurements b [] =
    ap (λ ms. record b { measurements = ms }) (sym (append-nil b.measurements))
keep_all-measurements b (x ∷ xs) =
    keep_all-measurements (keep_measurement x b) xs
    ∙ ap (λ ms. record b { measurements = ms }) (append_assoc b.measurements (x ∷ []) xs)

module _ (m : Machine) where
  -- One execution, which `keep_run` records.
  run-Timed :
      (keep_run : Measurement → Baseline → Baseline) (plan_sha256 : String) (b : Baseline)
      (x : Measurement) (s s₁ s₂ s' : Rollout)
      → (s.evaluator).default ≡ some b
      → Quiet s s₁
      → Quiet (count_default s₁) s₂
      → (x.plan_sha256 == plan_sha256) ≡ true
      → add_run keep_run x s₂ ≡ s'
      → Timed keep_run plan_sha256 1 b s s'
  run-Timed keep_run plan_sha256 b x s s₁ s₂ s' has_default first second same_plan end =
      let before : (s₂.evaluator).default ≡ some b =
        (second.same_facts).same_default ∙ (first.same_facts).same_default ∙ has_default in
      subst (Timed keep_run plan_sha256 1 b s) end (record {
        runs = x ∷ [];
        many = refl;
        ran = ground arith;
        kept =
            ap
              (λ (d : Option Baseline).
                let e : Option Baseline = elim d [ none ↦ none | some c ↦ some (keep_run x c) ] in
                e)
              before;
        counted =
            ap (λ y. y.initial_default) second.same_counts
            ∙ ap (λ y. y.initial_default + 1) first.same_counts;
        same_candidates = (second.same_facts).same_candidates ∙ (first.same_facts).same_candidates;
        same_settings = (second.same_facts).same_settings ∙ (first.same_facts).same_settings;
        same_paired = second.same_paired ∙ first.same_paired;
      })

  time_default-Timed :
      (keep_run : Measurement → Baseline → Baseline) (plan_sha256 : String) (b : Baseline)
      (s s' : Rollout)
      → (s.evaluator).default ≡ some b
      → time_default m keep_run plan_sha256 s ≡ (ok tt, s')
      → Timed keep_run plan_sha256 1 b s s'
  unfolding time_default
  time_default-Timed keep_run plan_sha256 b s s' has_default h =
      let (_, s₁, unset, h₁) = after-ok (check_cancelled m s) _ tt s' h in
      let first = check_cancelled-Quiet m (ok tt) s s₁ unset in
      let counted = count_default s₁ in
      let (reply, s₂, answered, h₂) =
        after-ok (execute m s₁.default_timeout_ms "" counted)
          (λ reply. lift (answer reply) >>= λ result. lift (measured m result) >>= λ observation.
            (modify (add_run keep_run observation)
              >> require (observation.plan_sha256 == plan_sha256) plan_changed))
          tt s' h₁ in
      let (quiet, _) = execute-Quiet m _ _ reply counted s₂ answered in
      let (result, s₃, given, h₃) = after-ok (lift (answer reply) s₂) _ tt s' h₂ in
      let (x, s₄, read, h₄) = after-ok (lift (measured m result) s₃) _ tt s' h₃ in
      let (same_plan, end) = require-ok _ _ (add_run keep_run x s₄) s' h₄ in
      let kept : s₂ ≡ s₄ = ap (λ y. y.1) given ∙ ap (λ y. y.1) read in
      run-Timed keep_run plan_sha256 b x s s₁ s₂ s' has_default first quiet same_plan
        (ap (add_run keep_run x) kept ∙ end)

  pub time_defaults-Timed :
      (keep_run : Measurement → Baseline → Baseline) (plan_sha256 : String) (n : ℕ) (b : Baseline)
      (s s' : Rollout)
      → (s.evaluator).default ≡ some b
      → time_defaults m keep_run plan_sha256 n s ≡ (ok tt, s')
      → Timed keep_run plan_sha256 n b s s'
  unfolding time_defaults
  time_defaults-Timed keep_run plan_sha256 zero b s s' has_default h =
      Timed-none keep_run plan_sha256 b s s' has_default (ap (λ y. y.1) h)
  time_defaults-Timed keep_run plan_sha256 (suc n) b s s' has_default h =
      let (_, t, ran, h₁) = after-ok (time_default m keep_run plan_sha256 s) _ tt s' h in
      Timed-then keep_run plan_sha256 n b s t s'
        (time_default-Timed keep_run plan_sha256 b s t has_default ran)
        (λ c has. time_defaults-Timed keep_run plan_sha256 n c t s' has h₁)
