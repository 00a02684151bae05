-- ===== src/Measure/Validation/Issue.antt =====
-- Recording an attempt keeps the state of a rollout coherent.
use qorl.Prelude.{
  ℕ, zero, suc, ◌+◌, ◌-◌, ◌<◌, String, ◌≡◌, refl, sym, ap, ◌∙◌, Bool, true, false, ◌&&◌, ◌||◌,
  Option, none, some, List, [], ◌∷◌, ◌++◌, map, arith, if◌then◌else◌, ◌==◌, nat_eq, string_eq,
  length, length-append, some_of, first_of?, Dict, lookup, is_none,
}
use qorl.Measure.Schemas.{Candidate, Baseline, selection_eligible}
use qorl.Measure.Validation.{Evaluator, next_id}
use qorl.Measure.Validation.Invariant.{
  entry, IsCoherent, numbering, number_of, has_key, holder, is_eligible_id,
}

some_of-append {ℓ} :
    {A : Type ℓ} (p : A → Bool) (xs ys : List A)
    → some_of p (xs ++ ys) ≡ (some_of p xs || some_of p ys)
some_of-append p [] ys = refl
some_of-append p (x ∷ xs) ys = ground (arith, some_of-append p xs ys)

map-append {ℓ κ} :
    {A : Type ℓ} {B : Type κ} (f : A → B) (xs ys : List A) → map f (xs ++ ys) ≡ map f xs ++ map f ys
map-append f [] ys = refl
map-append f (x ∷ xs) ys = ap (λ t. f x ∷ t) (map-append f xs ys)

-- x or y
abbrev pub or_else : Option String → Option String → Option String
or_else none o = o
or_else (some s) o = some s

first_of?-append {ℓ} :
    {A : Type ℓ} (p : A → Bool) (xs : List A) (y : A)
    → first_of? p (xs ++ y ∷ [])
      ≡ elim (first_of? p xs) [ some x ↦ some x | none ↦ if p y then some y else none ]
first_of?-append p [] y = ground arith
first_of?-append p (x ∷ xs) y = ground (arith, first_of?-append p xs y)

pub holder-issued :
    (default_key : Baseline → Option String) (key : Candidate → Option String) (d : Option Baseline)
    (xs : List Candidate) (c : Candidate) (k : String)
    → holder default_key key d (xs ++ c ∷ []) k
      ≡ or_else
          (holder default_key key d xs k)
          (if has_key key k c then some c.candidate_id else none)
holder-issued default_key key none xs c k = ground (arith, first_of?-append (has_key key k) xs c)
holder-issued default_key key (some b) xs c k =
    ground (arith, first_of?-append (has_key key k) xs c)

numbering-suc :
    (most i n j : ℕ)
    → j ≡ i + n
    → numbering most i (suc n) ≡ numbering most i n ++ entry most j ∷ []
unfolding numbering
numbering-suc most i zero j h = let same : j ≡ i = omega arith in rw same refl
numbering-suc most i (suc n) j h =
    ap (λ t. entry most i ∷ t) (numbering-suc most (i + 1) n j (omega arith))

length-snoc {ℓ} : {A : Type ℓ} (xs : List A) (y : A) → length (xs ++ y ∷ []) ≡ suc (length xs)
length-snoc xs y = omega (arith, length-append xs (y ∷ []))

pub numbering-issued :
    (e : Evaluator) (c : Candidate)
    → map number_of e.candidates ≡ numbering e.max_candidates 0 (length e.candidates)
    → number_of c ≡ (next_id e, e.max_candidates - length e.candidates - 1)
    → map number_of (e.candidates ++ c ∷ [])
      ≡ numbering e.max_candidates 0 (length (e.candidates ++ c ∷ []))
unfolding next_id
numbering-issued e c old new =
    let last =
      numbering-suc e.max_candidates 0 (length e.candidates) (length e.candidates) (omega arith) in
    rw (map-append number_of e.candidates (c ∷ []), length-snoc e.candidates c, last, old)
      (ap (λ t. numbering e.max_candidates 0 (length e.candidates) ++ t ∷ []) new)

pub is_eligible_id-issued :
    (xs : List Candidate) (c : Candidate) (o : Option String)
    → is_eligible_id xs o ≡ true
    → is_eligible_id (xs ++ c ∷ []) o ≡ true
is_eligible_id-issued xs c none h = refl
is_eligible_id-issued xs c (some k) h =
    rw (some_of-append (λ c. selection_eligible c && c.candidate_id == k) xs (c ∷ []), h) refl

-- An attempt that is allowed, numbered as the next one, and entered in the maps if it satisfies its
-- constraints.
pub issue-IsCoherent :
    (e : Evaluator) (c : Candidate) (structures reuse : Dict String) (calls readings : ℕ)
    → IsCoherent e
    → is_none e.default ≡ false
    → length e.candidates < e.max_candidates
    → number_of c ≡ (next_id e, e.max_candidates - length e.candidates - 1)
    → ((k : String)
        → lookup k structures
          ≡ or_else
              (lookup k e.by_structure)
              (if has_key (λ c. c.structural_plan_sha256) k c then some c.candidate_id else none))
    → ((k : String)
        → lookup k reuse
          ≡ or_else
              (lookup k e.by_reuse_key)
              (if has_key (λ c. c.timing_reuse_key) k c then some c.candidate_id else none))
    → IsCoherent (record e {
      candidates = e.candidates ++ c ∷ [];
      by_structure = structures;
      by_reuse_key = reuse;
      calls = calls;
      readings = readings;
    })
issue-IsCoherent e c structures reuse calls readings k started room new s r = record {
  bounded = omega (arith, length-snoc e.candidates c);
  numbered = numbering-issued e c k.numbered new;
  started = rw started refl;
  structures = λ key.
      s key
      ∙ ap
          (λ o.
            or_else o
              (if has_key (λ c. c.structural_plan_sha256) key c then some c.candidate_id else none))
          (k.structures key)
      ∙ sym (
          holder-issued (λ b. b.structural_plan_sha256) (λ c. c.structural_plan_sha256) e.default
            e.candidates c key);
  reuse_keys = λ key.
      r key
      ∙ ap
          (λ o.
            or_else o
              (if has_key (λ c. c.timing_reuse_key) key c then some c.candidate_id else none))
          (k.reuse_keys key)
      ∙ sym (
          holder-issued (λ b. b.timing_reuse_key) (λ c. c.timing_reuse_key) e.default e.candidates c
            key);
  settled = k.settled;
  chosen = is_eligible_id-issued e.candidates c e.selection.selected_candidate_id k.chosen;
}
