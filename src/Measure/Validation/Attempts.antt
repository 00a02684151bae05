-- ===== src/Measure/Validation/Attempts.antt =====
-- The operations that issue attempts keep the state of a rollout coherent.
use qorl.Prelude.{
  ℕ, String, ◌≡◌, refl, sym, ap, ◌∙◌, ◌≢◌, inl, inr, Bool, true, false, ◌&&◌, Option, none, some,
  arith, if◌then◌else◌, Bool-cases, Option-cases, ◌==◌, nat_eq, string_eq, ok, err, Dict, lookup,
  set_default, lookup-set_default,
}
use mathlib.Core.Path.{subst}
use qorl.Measure.Schemas.{Candidate}
use qorl.Measure.Planner.{no_identity, Failure, Planner, World}
use qorl.Measure.Validation.{Evaluator, Outcome, identify}
use qorl.Measure.Validation.Invariant.{is_key, IsCoherent, number_of, has_key}
use qorl.Measure.Validation.Issue.{or_else}

-- The counts of calls and readings do not matter.
pub tick-IsCoherent :
    (e : Evaluator) (calls readings : ℕ)
    → IsCoherent e
    → IsCoherent (record e { calls = calls; readings = readings })
tick-IsCoherent e calls readings k = record {
  bounded = k.bounded;
  numbered = k.numbered;
  started = k.started;
  structures = k.structures;
  reuse_keys = k.reuse_keys;
  settled = k.settled;
  chosen = k.chosen;
}

lookup-entered :
    (j k id : String) (m : Dict String)
    → lookup k (set_default j id m) ≡ or_else (lookup k m) (if j == k then some id else none)
lookup-entered j k id m = lookup-set_default j k id m ∙ by_cases (lookup k m) _
  where
    by_cases : (o p : Option String) → elim o [ some w ↦ some w | none ↦ p ] ≡ or_else o p
    by_cases none p = refl
    by_cases (some w) p = refl

pub lookup-unentered : (o : Option String) → o ≡ or_else o none
lookup-unentered none = refl
lookup-unentered (some w) = refl

-- What `identify` leaves, where it returns.
pub record Identified (e : Evaluator) (c c' : Candidate) (after : Evaluator) : Type 0 where
  pub structures : Dict String
  pub reuse : Dict String
  pub left : after ≡ record e { by_structure = structures; by_reuse_key = reuse }
  pub same_number : number_of c' ≡ number_of c
  pub entered :
      (k : String)
      → lookup k structures
        ≡ or_else
            (lookup k e.by_structure)
            (if has_key (λ c. c.structural_plan_sha256) k c' then some c'.candidate_id else none)
  pub keyed :
      (k : String)
      → lookup k reuse
        ≡ or_else
            (lookup k e.by_reuse_key)
            (if has_key (λ c. c.timing_reuse_key) k c' then some c'.candidate_id else none)
  -- the duplicates of a candidate with keys are those of the maps
  pub same_structure :
      (k : String)
      → has_key (λ c. c.structural_plan_sha256) k c' ≡ true
      → c'.structural_duplicate_of ≡ lookup k e.by_structure
  pub same_reuse :
      (k : String)
      → has_key (λ c. c.timing_reuse_key) k c' ≡ true
      → c'.duplicate_of ≡ lookup k e.by_reuse_key

key_is : (b : Bool) (o : Option String) (s k : String) → o ≡ some s → b && is_key k o ≡ true → s ≡ k
key_is b (some t) s k h found = ground (arith, string_eq.beq_iff t k)
key_is b none s k h found = cc

no_key : (b : Bool) (o : Option String) (k : String) → b ≡ false → b && is_key k o ≢ true
no_key b o k h found = ground arith

module _ (planner : Planner) (world : World) (c : Candidate) (e : Evaluator) where
  pub identify-unsatisfied :
      c.constraints_satisfied ≡ false → identify planner world c e ≡ (ok c, e)
  unfolding identify
  identify-unsatisfied h = rw (identify, h) refl

  pub identify-unstructured :
      c.constraints_satisfied ≡ true
      → c.structural_plan_sha256 ≡ none
      → identify planner world c e ≡ (err no_identity, e)
  unfolding identify
  identify-unstructured h s = rw (identify, h, s) refl

  pub identify-unkeyed :
      (structure : String)
      → c.constraints_satisfied ≡ true
      → c.structural_plan_sha256 ≡ some structure
      → c.timing_reuse_key ≡ none
      → identify planner world c e ≡ (err no_identity, e)
  unfolding identify
  identify-unkeyed structure h s r = rw (identify, h, s, r) refl

  -- The duplicates are those of the maps as they were before the candidate.
  pub identify-satisfied :
      (structure reuse_key : String)
      → c.constraints_satisfied ≡ true
      → c.structural_plan_sha256 ≡ some structure
      → c.timing_reuse_key ≡ some reuse_key
      → identify planner world c e ≡ (
        ok (record c {
          structural_duplicate_of = lookup structure e.by_structure;
          duplicate_of = lookup reuse_key e.by_reuse_key;
        }),
        record e {
          by_structure = set_default structure c.candidate_id e.by_structure;
          by_reuse_key = set_default reuse_key c.candidate_id e.by_reuse_key;
        },
      )
  unfolding identify
  identify-satisfied structure reuse_key h s r = simp (identify, h, s, r)

  satisfied-Identified :
      (structure reuse_key : String)
      → c.constraints_satisfied ≡ true
      → c.structural_plan_sha256 ≡ some structure
      → c.timing_reuse_key ≡ some reuse_key
      → Identified e c
          (record c {
            structural_duplicate_of = lookup structure e.by_structure;
            duplicate_of = lookup reuse_key e.by_reuse_key;
          })
          (record e {
            by_structure = set_default structure c.candidate_id e.by_structure;
            by_reuse_key = set_default reuse_key c.candidate_id e.by_reuse_key;
          })
  satisfied-Identified structure reuse_key h s r = record {
    structures = set_default structure c.candidate_id e.by_structure;
    reuse = set_default reuse_key c.candidate_id e.by_reuse_key;
    left = refl;
    same_number = refl;
    entered = λ k. rw (h, s) (lookup-entered structure k c.candidate_id e.by_structure);
    keyed = λ k. rw (h, r) (lookup-entered reuse_key k c.candidate_id e.by_reuse_key);
    same_structure = λ k found.
        ap (λ x. lookup x e.by_structure)
          (key_is c.constraints_satisfied c.structural_plan_sha256 structure k s found);
    same_reuse = λ k found.
        ap (λ x. lookup x e.by_reuse_key)
          (key_is c.constraints_satisfied c.timing_reuse_key reuse_key k r found);
  }

  pub unsatisfied-Identified : c.constraints_satisfied ≡ false → Identified e c c e
  unsatisfied-Identified h = record {
    structures = e.by_structure;
    reuse = e.by_reuse_key;
    left = refl;
    same_number = refl;
    entered = λ k. rw h (lookup-unentered (lookup k e.by_structure));
    keyed = λ k. rw h (lookup-unentered (lookup k e.by_reuse_key));
    same_structure =
        λ k found. absurd (no_key c.constraints_satisfied c.structural_plan_sha256 k h found);
    same_reuse = λ k found. absurd (no_key c.constraints_satisfied c.timing_reuse_key k h found);
  }

  -- A pair that is given, where it is a result, with what the result is identified by.
  abbrev pub Says : Outcome Candidate → Type 0
  Says o = (c' : Candidate) → o.0 ≡ ok c' → Identified e c c' o.1

  ok-Says : (x : Candidate) (after : Evaluator) → Identified e c x after → Says (ok x, after)
  ok-Says x after made c' h =
      let same : x ≡ c' = cc in subst (λ y. Identified e c y after) same made

  pub identify-Identified : Says (identify planner world c e)
  identify-Identified = elim (Bool-cases c.constraints_satisfied) [
    | inr no_plan ↦
        subst Says (sym (identify-unsatisfied no_plan))
          (ok-Says c e (unsatisfied-Identified no_plan))
    | inl satisfied ↦ elim (Option-cases c.structural_plan_sha256) [
      | inl missing ↦ subst Says (sym (identify-unstructured satisfied missing)) (λ c' h. cc)
      | inr (structure, has_structure) ↦ elim (Option-cases c.timing_reuse_key) [
        | inl missing ↦
            subst Says (sym (identify-unkeyed structure satisfied has_structure missing))
              (λ c' h. cc)
        | inr (reuse_key, has_reuse) ↦
            subst Says
              (sym (identify-satisfied structure reuse_key satisfied has_structure has_reuse))
              (ok-Says _ _
                (satisfied-Identified structure reuse_key satisfied has_structure has_reuse))
      ]
    ]
  ]

  -- Where `identify` raises, it has changed nothing.
  abbrev pub Unchanged : Outcome Candidate → Type 0
  Unchanged o = (f : Failure) → o.0 ≡ err f → o.1 ≡ e

  pub identify-Unchanged : Unchanged (identify planner world c e)
  identify-Unchanged = elim (Bool-cases c.constraints_satisfied) [
    | inr no_plan ↦ subst Unchanged (sym (identify-unsatisfied no_plan)) (λ f h. cc)
    | inl satisfied ↦ elim (Option-cases c.structural_plan_sha256) [
      | inl missing ↦ subst Unchanged (sym (identify-unstructured satisfied missing)) (λ f h. refl)
      | inr (structure, has_structure) ↦ elim (Option-cases c.timing_reuse_key) [
        | inl missing ↦
            subst Unchanged (sym (identify-unkeyed structure satisfied has_structure missing))
              (λ f h. refl)
        | inr (reuse_key, has_reuse) ↦
            subst Unchanged
              (sym (identify-satisfied structure reuse_key satisfied has_structure has_reuse))
              (λ f h. cc)
      ]
    ]
  ]
