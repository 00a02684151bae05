-- ===== src/Measure/Rollout/Sound.antt =====
-- What the attempts of a rollout keep to, so that it can be finished.
use qorl.Prelude.{
  suc, ◌+◌, String, ◌≡◌, refl, sym, ap, ◌∙◌, Bool, true, false, not, ◌||◌, Option, none, some, List,
  [], ◌∷◌, ◌++◌, arith, ◌==◌, nat_eq, string_eq, length, length-append, all_of, Result, ok, err,
}
use mathlib.Core.Path.{subst}
use qorl.Plans.Schemas.Action.{PlanAction}
use qorl.Json.{Json}
use qorl.Measure.Schemas.{Baseline, Candidate}
use qorl.Measure.Planner.{Planner, World, Explained, Reply, explained, timed_out, broken}
use qorl.Measure.Evidence.{same_option}
use qorl.Measure.Validation.{
  Evaluator, Outcome, ◌▷◌, next_id, issued, read_candidate, reply_candidate, observed, compiled,
}
use qorl.Measure.Rollout.Chosen.{ids}
use qorl.Measure.Rollout.Numbered.{names, name}
use qorl.Measure.Rollout.Started.{all_of-append}
use qorl.Measure.Rollout.Support.{same_option-eq}
use qorl.Measure.Rollout.Ready.{has_cutoff, shares_plan}

-- Keys for the reuse of timings are equal only where the plans are.
abbrev pub KeysTell : Planner → Type 0
KeysTell planner =
    (plan plan' : String) (action action' : Option PlanAction)
    → planner.timing_reuse_key plan action ≡ planner.timing_reuse_key plan' action'
    → plan ≡ plan'

abbrev pub is_keyed : Planner → Option Baseline → Bool
is_keyed planner none = true
is_keyed planner (some b) =
    same_option b.timing_reuse_key (some (planner.timing_reuse_key b.plan_sha256 none))

pub record IsSound (planner : Planner) (e : Evaluator) : Type 0 where
  -- the attempts are numbered in the order of their issue
  pub numbered : ids e.candidates ≡ names (length e.candidates)
  pub cutoffs : all_of has_cutoff e.candidates ≡ true
  pub shared : all_of (shares_plan e.default) e.candidates ≡ true
  -- the default has the key of its plan
  pub keyed : is_keyed planner e.default ≡ true

-- What an attempt keeps to.
pub record Fits (d : Option Baseline) (c : Candidate) : Type 0 where
  pub cutoff : has_cutoff c ≡ true
  pub share : shares_plan d c ≡ true

abbrev pub last_id : List Candidate → Option String
last_id [] = none
last_id (c ∷ []) = some c.candidate_id
last_id (c ∷ d ∷ cs) = last_id (d ∷ cs)

-- The candidate is to be the last attempt.
pub record IsLast (c : Candidate) (e : Evaluator) : Type 0 where
  pub last : last_id e.candidates ≡ some c.candidate_id
  pub fits : Fits e.default c

-- The same attempts, and the same default.
pub record SameAttempts (e e' : Evaluator) : Type 0 where
  pub same_candidates : e'.candidates ≡ e.candidates
  pub same_default : e'.default ≡ e.default

pub SameAttempts-IsSound :
    (planner : Planner) (e e' : Evaluator)
    → SameAttempts e e'
    → IsSound planner e
    → IsSound planner e'
SameAttempts-IsSound planner e e' same k = record {
  numbered = subst (λ cs. ids cs ≡ names (length cs)) (sym same.same_candidates) k.numbered;
  cutoffs = ap (all_of has_cutoff) same.same_candidates ∙ k.cutoffs;
  shared =
      ap (λ d. all_of (shares_plan d) e'.candidates) same.same_default
      ∙ (ap (all_of (shares_plan e.default)) same.same_candidates ∙ k.shared);
  keyed = ap (is_keyed planner) same.same_default ∙ k.keyed;
}

pub SameAttempts-IsLast :
    (c : Candidate) (e e' : Evaluator) → SameAttempts e e' → IsLast c e → IsLast c e'
SameAttempts-IsLast c e e' same k = record {
  last = ap last_id same.same_candidates ∙ k.last;
  fits = subst (λ d. Fits d c) (sym same.same_default) k.fits;
}

length-ids : (cs : List Candidate) → length (ids cs) ≡ length cs
length-ids [] = refl
length-ids (c ∷ cs) = omega (arith, length-ids cs)

pub ids-append :
    (cs : List Candidate) (c : Candidate) → ids (cs ++ c ∷ []) ≡ ids cs ++ c.candidate_id ∷ []
ids-append [] c = refl
ids-append (d ∷ cs) c = ap (λ js. d.candidate_id ∷ js) (ids-append cs c)

last_id-append :
    (cs : List Candidate) (c : Candidate) → last_id (cs ++ c ∷ []) ≡ some c.candidate_id
last_id-append [] c = refl
last_id-append (d ∷ []) c = refl
last_id-append (d ∷ e ∷ cs) c = last_id-append (e ∷ cs) c

numbered-append :
    (cs : List Candidate) (c : Candidate)
    → ids cs ≡ names (length cs)
    → c.candidate_id ≡ name (length cs + 1)
    → ids (cs ++ c ∷ []) ≡ names (length (cs ++ c ∷ []))
unfolding names
numbered-append cs c h k =
    ids-append cs c
    ∙ (ap (λ js. js ++ c.candidate_id ∷ []) h
        ∙ (ap (λ j. names (length cs) ++ j ∷ []) (k ∙ ap name one_more) ∙ ap names longer))
  where
    one_more : length cs + 1 ≡ suc (length cs)
    one_more = omega arith

    longer : suc (length cs) ≡ length (cs ++ c ∷ [])
    longer = omega (arith, length-append cs (c ∷ []))

pub append-IsSound :
    (planner : Planner) (c : Candidate) (e e' : Evaluator)
    → IsSound planner e
    → c.candidate_id ≡ next_id e
    → Fits e.default c
    → e'.candidates ≡ e.candidates ++ c ∷ []
    → e'.default ≡ e.default
    → IsSound planner e' × IsLast c e'
unfolding next_id
append-IsSound planner c e e' k new fits added same = (
  SameAttempts-IsSound planner (record e { candidates = e.candidates ++ c ∷ [] }) e'
      (record { same_candidates = added; same_default = same })
      (record {
        numbered = numbered-append e.candidates c k.numbered new;
        cutoffs =
            all_of-append has_cutoff e.candidates (c ∷ []) k.cutoffs (ground (arith, fits.cutoff));
        shared =
            all_of-append (shares_plan e.default) e.candidates (c ∷ []) k.shared
              (ground (arith, fits.share));
        keyed = k.keyed;
      }),
  record {
    last = ap last_id added ∙ last_id-append e.candidates c;
    fits = subst (λ d. Fits d c) (sym same) fits;
  },
)

-- What an operation of the evaluator leaves, where it returns a candidate and where it raises.
abbrev pub Leaves :
    (Evaluator → Type 0) → (Candidate → Evaluator → Type 0) → Outcome Candidate → Type 0
Leaves Bad Good (ok c, e) = Good c e
Leaves Bad Good (err f, e) = Bad e

pub ▷-Leaves :
    {A : Type 0} (Bad : Evaluator → Type 0) (Good : Candidate → Evaluator → Type 0) (o : Outcome A)
    (next : A → Evaluator → Outcome Candidate)
    → Bad o.1
    → ((a : A) → o.0 ≡ ok a → Leaves Bad Good (next a o.1))
    → Leaves Bad Good (o ▷ next)
▷-Leaves Bad Good (ok a, e) next bad later = later a refl
▷-Leaves Bad Good (err f, e) next bad later = bad

pub then-Leaves :
    (Bad Worse : Evaluator → Type 0) (Good Last : Candidate → Evaluator → Type 0)
    (o : Outcome Candidate) (next : Candidate → Evaluator → Outcome Candidate)
    → Leaves Bad Good o
    → ((e : Evaluator) → Bad e → Worse e)
    → ((c : Candidate) (e : Evaluator) → Good c e → Leaves Worse Last (next c e))
    → Leaves Worse Last (o ▷ next)
then-Leaves Bad Worse Good Last (ok c, e) next h bad later = later c e h
then-Leaves Bad Worse Good Last (err f, e) next h bad later = bad e h

-- An attempt that may be added to the state.
abbrev pub Attempt : Evaluator → Candidate → Evaluator → Type 0
Attempt e c e' = SameAttempts e e' × (c.candidate_id ≡ next_id e) × Fits e.default c

pub SameAttempts-refl : (e : Evaluator) → SameAttempts e e
SameAttempts-refl e = record { same_candidates = refl; same_default = refl }

pub same-share :
    (d : Option Baseline) (c c' : Candidate)
    → c.timing_reuse_key ≡ c'.timing_reuse_key
    → c.plan_sha256 ≡ c'.plan_sha256
    → shares_plan d c ≡ true
    → shares_plan d c' ≡ true
same-share none c c' key plan h = refl
same-share (some b) c c' key plan h =
    ap
      (λ p.
        not (same_option c'.timing_reuse_key b.timing_reuse_key)
        || same_option p (some b.plan_sha256))
      (sym plan)
    ∙ (ap
          (λ k.
            not (same_option k b.timing_reuse_key)
            || same_option c.plan_sha256 (some b.plan_sha256))
          (sym key)
        ∙ h)

-- Without a plan, an attempt shares no key with the default.
unshared :
    (planner : Planner) (d : Option Baseline) (c : Candidate)
    → is_keyed planner d ≡ true
    → c.timing_reuse_key ≡ none
    → shares_plan d c ≡ true
unshared planner none c k h = refl
unshared planner (some b) c k h =
    let key = same_option-eq b.timing_reuse_key _ k in rw (h, key) refl

same_plan_if : (a b : Bool) → (a ≡ true → b ≡ true) → not a || b ≡ true
same_plan_if true b h = h refl
same_plan_if false b h = refl

some_inj : (s t : String) → ◌≡◌ {A = Option String} (some s) (some t) → s ≡ t
some_inj s t h = cc

module _ (planner : Planner) (tell : KeysTell planner) where
  observed-share :
      (world : World) (d : Option Baseline) (c : Candidate) (action : PlanAction)
      (plain : Explained)
      → is_keyed planner d ≡ true
      → shares_plan d (observed planner world c action plain) ≡ true
  observed-share world none c action plain k = refl
  observed-share world (some b) c action plain k =
      let plan = planner.plan_sha256 plain.plan in
      let key = planner.timing_reuse_key plan (some action) in
      same_plan_if (same_option (some key) b.timing_reuse_key) (plan == b.plan_sha256) (λ same.
        let e : some key ≡ some (planner.timing_reuse_key b.plan_sha256 none) =
          same_option-eq (some key) b.timing_reuse_key same
          ∙ same_option-eq b.timing_reuse_key _ k in
        (string_eq.beq_iff plan b.plan_sha256).1
          (tell plan b.plan_sha256 (some action) none (some_inj key _ e)))

  reply_candidate-Leaves :
      (world : World) (c : Candidate) (action : PlanAction) (reply : Reply) (e e' : Evaluator)
      → IsSound planner e
      → SameAttempts e e'
      → c.candidate_id ≡ next_id e
      → c.timing_reuse_key ≡ none
      → has_cutoff c ≡ true
      → Leaves (SameAttempts e) (Attempt e) (reply_candidate planner world c action reply e')
  unfolding reply_candidate
  reply_candidate-Leaves world c action (broken text) e e' k same new unkeyed cutoff = same
  reply_candidate-Leaves world c action (timed_out limit) e e' k same new unkeyed cutoff =
      (same, new, record { cutoff = refl; share = unshared planner e.default _ k.keyed unkeyed })
  reply_candidate-Leaves world c action (explained plain) e e' k same new unkeyed cutoff = (
    same,
    new,
    record { cutoff = cutoff; share = observed-share world e.default c action plain k.keyed },
  )

  pub issued-Fits :
      (raw : Json) (e : Evaluator) (errors : List String)
      → IsSound planner e
      → Fits e.default (record (issued e raw) { errors_or_diagnostics = errors })
  issued-Fits raw e errors k = record {
    cutoff = refl;
    share = unshared planner e.default _ k.keyed refl;
  }

  pub read_candidate-Leaves :
      (world : World) (raw : Json) (r : Result String PlanAction) (e : Evaluator)
      → IsSound planner e
      → Leaves (SameAttempts e) (Attempt e) (read_candidate planner world raw r e)
  unfolding read_candidate
  read_candidate-Leaves world raw (err text) e k =
      (SameAttempts-refl e, refl, issued-Fits raw e (text ∷ []) k)
  read_candidate-Leaves world raw (ok action) e k =
      reply_candidate-Leaves world (compiled planner world (issued e raw) action) action _ e
        (record e { calls = e.calls + 1 }) k
        (record { same_candidates = refl; same_default = refl }) refl refl refl
