-- ===== src/Measure/Rollout/Prepared.antt =====
-- What a rollout of src/qorl/measure/rollout.py asks for before it is finished, and changes of its
-- attempts.
use qorl.Prelude.{
  ℕ, String, ◌≡◌, refl, sym, ap, ◌∙◌, inl, inr, Bool, true, false, Option, none, some, List, [],
  ◌∷◌, arith, if◌then◌else◌, Bool-cases, ◌==◌, nat_eq, string_eq, length, all_of, is_distinct,
}
use qorl.Measure.Schemas.{Baseline, Candidate, ExecutionFeedback}
use qorl.Measure.Rollout.{Rollout, Machine}
use qorl.Measure.Rollout.Attempts.{
  replace_last, update_id, set_candidates, with_timeout, all_but_last, with_feedback, new_feedback,
  reuse_from, reuse, map_feedback,
}
use qorl.Measure.Evidence.{same_option}
use qorl.Measure.Rollout.Steps.{Quiet}
use qorl.Measure.Rollout.Chosen.{ids, update_id-ids}
use qorl.Measure.Rollout.Numbered.{names, is_distinct-names}
use qorl.Measure.Rollout.Ready.{has_cutoff, shares_plan, default_timed, IsReady, first_of?-all_of}
use qorl.Measure.Rollout.Sound.{
  IsSound, Fits, IsLast, last_id, SameAttempts, SameAttempts-IsSound, SameAttempts-IsLast,
  same-share,
}
use qorl.Measure.Rollout.Triples.{Still}

pub record IsPrepared (m : Machine) (s : Rollout) : Type 0 where
  pub sound : IsSound m.planner s.evaluator
  -- no pair has been run
  pub unpaired : s.paired ≡ record { warmups = []; measurements = [] }
  -- the default has been run as often as the settings ask for, and has their median
  pub timed : default_timed m.floats s.measurement (s.evaluator).default ≡ true

pub IsPrepared-IsReady : (m : Machine) (s : Rollout) → IsPrepared m s → IsReady m.floats s
IsPrepared-IsReady m s k = record {
  distinct =
      ap is_distinct (k.sound).numbered ∙ is_distinct-names (length (s.evaluator).candidates);
  unpaired = k.unpaired;
  cutoffs = (k.sound).cutoffs;
  shared = (k.sound).shared;
  timed = k.timed;
}

-- The candidate that an operation works on.
abbrev pub Working : Machine → Candidate → Rollout → Type 0
Working m c s = IsPrepared m s × IsLast c s.evaluator

Quiet-SameAttempts : (s s' : Rollout) → Quiet s s' → SameAttempts s.evaluator s'.evaluator
Quiet-SameAttempts s s' q = record {
  same_candidates = (q.same_facts).same_candidates;
  same_default = (q.same_facts).same_default;
}

pub same-IsPrepared :
    (m : Machine) (s s' : Rollout)
    → SameAttempts s.evaluator s'.evaluator
    → s'.paired ≡ s.paired
    → s'.measurement ≡ s.measurement
    → IsPrepared m s
    → IsPrepared m s'
same-IsPrepared m s s' same paired settings k = record {
  sound = SameAttempts-IsSound m.planner s.evaluator s'.evaluator same k.sound;
  unpaired = paired ∙ k.unpaired;
  timed =
      ap (λ y. default_timed m.floats y (s'.evaluator).default) settings
      ∙ (ap (default_timed m.floats s.measurement) same.same_default ∙ k.timed);
}

pub IsPrepared-still : (m : Machine) → Still (IsPrepared m)
IsPrepared-still m s s' q =
    same-IsPrepared m s s' (Quiet-SameAttempts s s' q) q.same_paired (q.same_facts).same_settings

pub Working-still : (m : Machine) (c : Candidate) → Still (Working m c)
Working-still m c s s' q (k, l) = (
  IsPrepared-still m s s' q k,
  SameAttempts-IsLast c s.evaluator s'.evaluator (Quiet-SameAttempts s s' q) l,
)

replace_last-ids :
    (c : Candidate) (xs : List Candidate)
    → last_id xs ≡ some c.candidate_id
    → ids (replace_last c xs) ≡ ids xs
replace_last-ids c [] h = refl
replace_last-ids c (x ∷ []) h = ap (λ j. j ∷ []) (some_id x c h)
  where
    some_id :
        (x c : Candidate)
        → some x.candidate_id ≡ some c.candidate_id
        → c.candidate_id ≡ x.candidate_id
    some_id x c h = cc
replace_last-ids c (x ∷ y ∷ xs) h = ap (λ js. x.candidate_id ∷ js) (replace_last-ids c (y ∷ xs) h)

last_id-replace_last :
    (c : Candidate) (xs : List Candidate)
    → last_id xs ≡ some c.candidate_id
    → last_id (replace_last c xs) ≡ some c.candidate_id
last_id-replace_last c [] h = h
last_id-replace_last c (x ∷ []) h = refl
last_id-replace_last c (x ∷ y ∷ []) h = refl
last_id-replace_last c (x ∷ y ∷ z ∷ xs) h = last_id-replace_last c (y ∷ z ∷ xs) h

all_of-replace_last :
    (p : Candidate → Bool) (c : Candidate) (xs : List Candidate)
    → p c ≡ true
    → all_of p xs ≡ true
    → all_of p (replace_last c xs) ≡ true
all_of-replace_last p c [] h k = k
all_of-replace_last p c (x ∷ []) h k = ground arith
all_of-replace_last p c (x ∷ y ∷ xs) h k = ground (arith, all_of-replace_last p c (y ∷ xs) h)

all_of-update_id :
    (p : Candidate → Bool) (id : String) (c : Candidate) (xs : List Candidate)
    → p c ≡ true
    → all_of p xs ≡ true
    → all_of p (update_id id (λ _. c) xs) ≡ true
all_of-update_id p id c [] h k = k
all_of-update_id p id c (x ∷ xs) h k = elim (Bool-cases (x.candidate_id == id)) [
  | inl same ↦ rw same (ground arith)
  | inr other ↦ rw other (ground (arith, all_of-update_id p id c xs h))
]

pub all_of-all_but_last :
    (p : Candidate → Bool) (xs : List Candidate)
    → all_of p xs ≡ true
    → all_of p (all_but_last xs) ≡ true
all_of-all_but_last p [] k = k
all_of-all_but_last p (x ∷ []) k = refl
all_of-all_but_last p (x ∷ y ∷ xs) k = ground (arith, all_of-all_but_last p (y ∷ xs))

length-ids : (cs : List Candidate) → length (ids cs) ≡ length cs
length-ids [] = refl
length-ids (c ∷ cs) = omega (arith, length-ids cs)

-- Changes of the attempts that keep their identifiers.
change-IsPrepared :
    (m : Machine) (change : List Candidate → List Candidate) (s : Rollout)
    → IsPrepared m s
    → ids (change (s.evaluator).candidates) ≡ ids (s.evaluator).candidates
    → all_of has_cutoff (change (s.evaluator).candidates) ≡ true
    → all_of (shares_plan (s.evaluator).default) (change (s.evaluator).candidates) ≡ true
    → IsPrepared m (set_candidates change s)
change-IsPrepared m change s k same cutoffs shared = record {
  sound = record {
    numbered =
        same
        ∙ ((k.sound).numbered
            ∙ ap names (
                sym (length-ids (s.evaluator).candidates)
                ∙ (ap length (sym same) ∙ length-ids (change (s.evaluator).candidates))));
    cutoffs = cutoffs;
    shared = shared;
    keyed = (k.sound).keyed;
  };
  unpaired = k.unpaired;
  timed = k.timed;
}

pub replace_last-Working :
    (m : Machine) (c d : Candidate) (s : Rollout)
    → Working m c s
    → c.candidate_id ≡ d.candidate_id
    → Fits (s.evaluator).default d
    → Working m d (set_candidates (replace_last d) s)
replace_last-Working m c d s (k, l) same fits =
    let last = l.last ∙ ap (λ j. some j) same in
    let cs = (s.evaluator).candidates in
    (
      change-IsPrepared m (replace_last d) s k (replace_last-ids d cs last)
          (all_of-replace_last has_cutoff d cs fits.cutoff (k.sound).cutoffs)
          (all_of-replace_last (shares_plan (s.evaluator).default) d cs fits.share
            (k.sound).shared),
      record { last = last_id-replace_last d cs last; fits = fits },
    )

pub with_timeout-IsPrepared :
    (m : Machine) (c : Candidate) (limit : ℕ) (s : Rollout)
    → Working m c s
    → IsPrepared m (set_candidates (update_id c.candidate_id (λ _. with_timeout limit c)) s)
with_timeout-IsPrepared m c limit s (k, l) =
    let d = with_timeout limit c in
    change-IsPrepared m (update_id c.candidate_id (λ _. d)) s k
      (update_id-ids (s.evaluator).candidates c.candidate_id d refl)
      (all_of-update_id has_cutoff c.candidate_id d _ refl (k.sound).cutoffs)
      (all_of-update_id (shares_plan (s.evaluator).default) c.candidate_id d _
        (same-share (s.evaluator).default c d refl refl (l.fits).share) (k.sound).shared)

pub map_feedback-Fits :
    (change : ExecutionFeedback → ExecutionFeedback) (d : Option Baseline) (c : Candidate)
    → Fits d c
    → Fits d (map_feedback change c)
map_feedback-Fits change d c k = record {
  cutoff = k.cutoff;
  share = same-share d c _ refl refl k.share;
}

reuse_as : Option ExecutionFeedback → Candidate → Candidate → Candidate
reuse_as f source c = elim f [
  | none ↦ record c { execution_feedback = some new_feedback }
  | some f ↦ reuse source f c
]

-- An attempt that is given feedback.
abbrev pub Given : Option Baseline → Candidate → Candidate → Type 0
Given d c c' = (c.candidate_id ≡ c'.candidate_id) × Fits d c'

reuse_as-Given :
    (d : Option Baseline) (f : Option ExecutionFeedback) (source c : Candidate)
    → has_cutoff source ≡ true
    → Fits d c
    → Given d c (reuse_as f source c)
unfolding reuse_as
reuse_as-Given d none source c h k =
    (refl, record { cutoff = k.cutoff; share = same-share d c _ refl refl k.share })
reuse_as-Given d (some f) source c h k =
    (refl, record { cutoff = h; share = same-share d c _ refl refl k.share })

reuse_from-Given :
    (d : Option Baseline) (o : Option Candidate) (c : Candidate)
    → ((source : Candidate) → o ≡ some source → has_cutoff source ≡ true)
    → Fits d c
    → Given d c (reuse_from o c)
unfolding reuse_as
reuse_from-Given d none c h k =
    (refl, record { cutoff = k.cutoff; share = same-share d c _ refl refl k.share })
reuse_from-Given d (some source) c h k =
    reuse_as-Given d source.execution_feedback source c (h source refl) k

if-Given :
    (d : Option Baseline) (b : Bool) (c x y : Candidate)
    → Given d c x
    → Given d c y
    → Given d c (if b then x else y)
if-Given d true c x y h k = h
if-Given d false c x y h k = k

pub with_feedback-Given :
    (d : Option Baseline) (b : Baseline) (earlier : List Candidate) (c : Candidate)
    → all_of has_cutoff earlier ≡ true
    → Fits d c
    → Given d c (with_feedback b earlier c)
unfolding with_feedback
with_feedback-Given d b earlier c h k =
    if-Given d (same_option c.timing_reuse_key b.timing_reuse_key) c _ _
      (refl, record { cutoff = k.cutoff; share = same-share d c _ refl refl k.share })
      (reuse_from-Given d _ c (λ source found. first_of?-all_of has_cutoff _ earlier source found h)
        k)
