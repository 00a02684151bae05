-- ===== src/Measure/Validation/Invariant.antt =====
-- What holds of the state of a rollout between its operations.
use qorl.Prelude.{
  ℕ, zero, suc, ◌+◌, ◌-◌, ◌≤◌, ◌<◌, String, ◌≡◌, refl, inl, inr, Bool, true, false, not, ◌&&◌,
  Option, none, some, List, [], ◌∷◌, ◌++◌, map, arith, leb, if◌then◌else◌, Bool-cases, ◌==◌, nat_eq,
  string_eq, length, some_of, first_of?, ok, err, ◌>>◌, raise_if, lookup, is_none, is_empty,
  two_digits,
}
use qorl.Plans.Schemas.Leading.{◌<>◌}
use qorl.Measure.Schemas.{Candidate, Baseline, selection_eligible}
use qorl.Measure.Planner.{Failure, not_started, already_kept, budget_exhausted, Planner, World}
use qorl.Measure.Validation.{
  Evaluator, Outcome, ◌▷◌, check_cancelled, check_attempt, record_attempt,
}
use qorl.Measure.Validation.Selection.{is_accepted}

-- The identifier of the `i`-th attempt, from 0, and how many attempts remain after it.
abbrev pub entry : ℕ → ℕ → String × ℕ
entry most i = ("candidate-" <> two_digits (i + 1), most - i - 1)

-- The entries of `n` attempts, from the `i`-th on.
unfoldable pub numbering : ℕ → ℕ → ℕ → List (String × ℕ)
numbering most i zero = []
numbering most i (suc n) = entry most i ∷ numbering most (i + 1) n

abbrev pub number_of : Candidate → String × ℕ
number_of c = (c.candidate_id, c.attempts_remaining)

-- Whether the key is there and is `k`.
abbrev pub is_key : String → Option String → Bool
is_key k none = false
is_key k (some j) = j == k

-- Whether a candidate that satisfies its constraints has the key `k`.
abbrev pub has_key : (Candidate → Option String) → String → Candidate → Bool
has_key key k c = c.constraints_satisfied && is_key k (key c)

abbrev pub id_of : Option Candidate → Option String
id_of none = none
id_of (some c) = some c.candidate_id

-- The first plan with the key `k`: the default, or the first candidate that satisfies its
-- constraints.
abbrev pub holder :
    (Baseline → Option String)
    → (Candidate → Option String)
    → Option Baseline
    → List Candidate
    → String
    → Option String
holder default_key key none candidates k = id_of (first_of? (has_key key k) candidates)
holder default_key key (some b) candidates k =
    if is_key k (default_key b)
    then some "default"
    else id_of (first_of? (has_key key k) candidates)

-- The first plan with this structure, and the first whose timing can be reused for this key.
abbrev pub structure_holder : Evaluator → String → Option String
structure_holder e =
    holder (λ b. b.structural_plan_sha256) (λ c. c.structural_plan_sha256) e.default e.candidates

abbrev pub reuse_holder : Evaluator → String → Option String
reuse_holder e = holder (λ b. b.timing_reuse_key) (λ c. c.timing_reuse_key) e.default e.candidates

abbrev pub is_eligible_id : List Candidate → Option String → Bool
is_eligible_id candidates none = true
is_eligible_id candidates (some k) =
    some_of (λ c. selection_eligible c && c.candidate_id == k) candidates

pub record IsCoherent (e : Evaluator) : Type 0 where
  -- no more attempts than the limit, numbered from 1 in the order in which they were issued
  pub bounded : length e.candidates ≤ e.max_candidates
  pub numbered : map number_of e.candidates ≡ numbering e.max_candidates 0 (length e.candidates)
  -- no attempt before the default is explained
  pub started : is_none e.default && not (is_empty e.candidates) ≡ false
  -- the maps name the first plan of each structure and of each reuse key
  pub structures : (k : String) → lookup k e.by_structure ≡ structure_holder e k
  pub reuse_keys : (k : String) → lookup k e.by_reuse_key ≡ reuse_holder e k
  -- a kept default is an accepted selection
  pub settled : e.kept_default && not (is_accepted e.selection.status) ≡ false
  -- what is selected is an eligible attempt
  pub chosen : is_eligible_id e.candidates e.selection.selected_candidate_id ≡ true

pub ▷-keeps :
    {A B : Type 0} (P : Evaluator → Type 0) (o : Outcome A) (next : A → Evaluator → Outcome B)
    → ((f : Failure) → o.0 ≡ err f → P o.1)
    → ((a : A) → o.0 ≡ ok a → P (next a o.1).1)
    → P (o ▷ next).1
▷-keeps P (ok a, e) next raised later = later a refl
▷-keeps P (err f, e) next raised later = raised f refl

pub if-keeps :
    {A : Type 0} (P : Evaluator → Type 0) (b : Bool) (x y : Outcome A)
    → (b ≡ true → P x.1)
    → (b ≡ false → P y.1)
    → P (if b then x else y).1
if-keeps P true x y h j = h refl
if-keeps P false x y h j = j refl

three_allowed :
    (a b : Bool) (most n : ℕ)
    → (do raise_if a not_started; raise_if b already_kept; raise_if (leb most n) budget_exhausted)
      ≡ ok tt
    → (a ≡ false) × (b ≡ false) × (n < most)
three_allowed a b most n h = ground arith

module _ (planner : Planner) (world : World) where
  pub check_cancelled-state :
      (e : Evaluator) → (check_cancelled planner world e).1 ≡ record e { readings = e.readings + 1 }
  unfolding check_cancelled
  check_cancelled-state e = refl

  pub check_attempt-state :
      (e : Evaluator) → (check_attempt planner world e).1 ≡ record e { readings = e.readings + 1 }
  unfolding check_attempt check_cancelled
  check_attempt-state e = elim (Bool-cases (world.is_set e.readings)) [
    | inl set ↦ rw (check_attempt, set) refl
    | inr unset ↦ rw (check_attempt, unset) refl
  ]

  pub record_attempt-state :
      (c : Candidate) (e : Evaluator)
      → (record_attempt planner world c e).1
        ≡ record e { candidates = e.candidates ++ c ∷ []; readings = e.readings + 1 }
  unfolding record_attempt check_cancelled
  record_attempt-state c e = elim (Bool-cases (world.is_set e.readings)) [
    | inl set ↦ rw (record_attempt, set) refl
    | inr unset ↦ rw (record_attempt, unset) refl
  ]

  -- What `check_attempt` lets through.
  pub check_attempt-allowed :
      (e : Evaluator)
      → (check_attempt planner world e).0 ≡ ok tt
      → (is_none e.default ≡ false)
        × (e.kept_default ≡ false)
        × (length e.candidates < e.max_candidates)
  unfolding check_attempt check_cancelled
  check_attempt-allowed e h = elim (Bool-cases (world.is_set e.readings)) [
    | inl set ↦ ground (arith, rw (check_attempt, set) at h)
    | inr unset ↦ three_allowed _ _ _ _ (rw (check_attempt, unset) at h)
  ]
