-- ===== src/Measure/Rollout/Chosen.antt =====
-- Candidates by their identifiers, which differ: the one that is chosen, and updates of it.
use qorl.Prelude.{
  String, ◌≡◌, refl, sym, ap, ◌∙◌, ◌≢◌, inl, inr, Bool, true, false, not, ◌&&◌, Option, none, some,
  List, [], ◌∷◌, map, arith, ltb, if◌then◌else◌, Bool-cases, ◌==◌, nat_eq, string_eq, length, keep,
  some_of, first_of?, contains, is_distinct, beq_self, Result, ok,
}
use mathlib.Core.Path.{subst}
use qorl.Measure.Schemas.{Candidate, selection_eligible}
use qorl.Measure.Evidence.Matches.{has_id}
use qorl.Measure.Rollout.Attempts.{update_id}
use qorl.Measure.Validation.{Evaluator}
use qorl.Measure.Planner.{Failure}
use qorl.Measure.Validation.Selection.{eligible, head?, found_or, select}

data Among (c : Candidate) : List Candidate → Type 0 where
  here : {x : Candidate} {xs : List Candidate} → x ≡ c → Among c (x ∷ xs)
  there : {x : Candidate} {xs : List Candidate} → Among c xs → Among c (x ∷ xs)

abbrev pub ids : List Candidate → List String
ids cs = map (λ c. c.candidate_id) cs

ok_option :
    (a b : Option Candidate) → ◌≡◌ {A = Result Failure (Option Candidate)} (ok a) (ok b) → a ≡ b
ok_option a b h = cc

first_of?-Among :
    (q : Candidate → Bool) (xs : List Candidate) (c : Candidate)
    → first_of? q xs ≡ some c
    → Among c xs
first_of?-Among q [] c h = cc
first_of?-Among q (x ∷ xs) c h = elim (Bool-cases (q x)) [
  | inl yes_x ↦ let e : some x ≡ some c = sym (rw yes_x refl) ∙ h in here (cc)
  | inr no_x ↦
      let e : first_of? q xs ≡ some c = sym (rw no_x refl) ∙ h in there (first_of?-Among q xs c e)
]

head?-Among : (xs : List Candidate) (c : Candidate) → head? xs ≡ some c → Among c xs
head?-Among [] c h = cc
head?-Among (x ∷ xs) c h = here (cc)

kept-Among :
    (p : Candidate → Bool) (x : Candidate) (xs ys : List Candidate) (c : Candidate)
    → p x ≡ true
    → (Among c ys → Among c xs × (p c ≡ true))
    → Among c (x ∷ ys)
    → Among c (x ∷ xs) × (p c ≡ true)
kept-Among p x xs ys c k rest (here e) = (here e, sym (ap p e) ∙ k)
kept-Among p x xs ys c k rest (there h) = let (among, holds) = rest h in (there among, holds)

keep-Among :
    (p : Candidate → Bool) (xs : List Candidate) (c : Candidate)
    → Among c (keep p xs)
    → Among c xs × (p c ≡ true)
keep-Among p [] c h = elim h [ ]
keep-Among p (x ∷ xs) c h = elim (Bool-cases (p x)) [
  | inl holds ↦
      kept-Among p x xs (keep p xs) c holds (keep-Among p xs c) (subst (Among c) (rw holds refl) h)
  | inr fails ↦
      let (among, holds) = keep-Among p xs c (subst (Among c) (rw fails refl) h) in
      (there among, holds)
]

Among-contains :
    (xs : List Candidate) (c : Candidate) → Among c xs → contains (ids xs) c.candidate_id ≡ true
Among-contains [] c h = elim h [ ]
Among-contains (x ∷ xs) c (here e) =
    ground (arith, beq_self c.candidate_id, ap (λ y. y.candidate_id) e)
Among-contains (x ∷ xs) c (there h) = ground (arith, Among-contains xs c h)

first_is :
    (x : Candidate) (xs : List Candidate) (c : Candidate)
    → x ≡ c
    → first_of? (has_id (some c.candidate_id)) (x ∷ xs) ≡ some c
first_is x xs c e =
    let same : (x.candidate_id == c.candidate_id) ≡ true =
      ap (λ y. y.candidate_id == c.candidate_id) e ∙ beq_self c.candidate_id in
    rw same (ap (λ y. some y) e)

later_is :
    (b : Bool) (x c : Candidate) (o : Option Candidate)
    → b ≡ false
    → o ≡ some c
    → (if b then some x else o) ≡ some c
later_is true x c o h k = cc
later_is false x c o h k = k

ids_differ :
    (j k : String) (ks : List String)
    → not (contains ks j) && is_distinct ks ≡ true
    → contains ks k ≡ true
    → (j == k) ≡ false
ids_differ j k ks distinct held = elim (Bool-cases (j == k)) [
  | inr other ↦ other
  | inl same ↦
      let e : j ≡ k = (string_eq.beq_iff j k).0 same in
      let held' : contains ks j ≡ true = ap (contains ks) e ∙ held in ground arith
]

Among-first_of? :
    (xs : List Candidate) (c : Candidate)
    → is_distinct (ids xs) ≡ true
    → Among c xs
    → first_of? (has_id (some c.candidate_id)) xs ≡ some c
Among-first_of? [] c distinct h = elim h [ ]
Among-first_of? (x ∷ xs) c distinct (here e) = first_is x xs c e
Among-first_of? (x ∷ xs) c distinct (there h) =
    later_is _ x c _
      (ids_differ x.candidate_id c.candidate_id (ids xs) distinct (Among-contains xs c h))
      (Among-first_of? xs c (ground arith) h)

found_or-some :
    (o : Option Candidate) (f : Failure) (r : Option Candidate) → found_or o f ≡ ok r → o ≡ r
found_or-some none f r h = cc
found_or-some (some c) f r h = cc

found_or-none :
    (o : Option Candidate) (f : Failure)
    → ◌≢◌ {A = Result Failure (Option Candidate)} (found_or o f) (ok none)
found_or-none none f h = cc
found_or-none (some c) f h = cc

keep-none :
    (p : Candidate → Bool) (xs : List Candidate) → head? (keep p xs) ≡ none → some_of p xs ≡ false
keep-none p [] h = refl
keep-none p (x ∷ xs) h = elim (Bool-cases (p x)) [
  | inl holds ↦ ground (arith, rw holds at h)
  | inr fails ↦ rw fails (keep-none p xs (rw fails at h))
]

-- What `select` gives is an eligible candidate, the recorded one with its identifier.
pub select-chosen :
    (asked : Option String) (e : Evaluator) (c : Candidate)
    → is_distinct (ids e.candidates) ≡ true
    → select asked e ≡ ok (some c)
    → (first_of? (has_id (some c.candidate_id)) e.candidates ≡ some c)
      × (selection_eligible c ≡ true)
unfolding select
select-chosen (some id) e c distinct h =
    let among = first_of?-Among _ (eligible e) c (found_or-some _ _ _ h) in
    let (recorded, is_eligible) = keep-Among selection_eligible e.candidates c among in
    (Among-first_of? e.candidates c distinct recorded, is_eligible)
select-chosen none e c distinct h = elim (Bool-cases (ltb 1 (length (eligible e)))) [
  | inl many ↦ ground (arith, rw many at h)
  | inr few ↦
      let found : head? (eligible e) ≡ some c = ok_option _ _ (rw few at h) in
      let (recorded, is_eligible) =
        keep-Among selection_eligible e.candidates c (head?-Among (eligible e) c found) in
      (Among-first_of? e.candidates c distinct recorded, is_eligible)
]

-- Nothing is selected only where nothing is eligible.
pub select-none :
    (asked : Option String) (e : Evaluator)
    → select asked e ≡ ok none
    → some_of selection_eligible e.candidates ≡ false
unfolding select
select-none (some id) e h = absurd (found_or-none _ _ h)
select-none none e h = elim (Bool-cases (ltb 1 (length (eligible e)))) [
  | inl many ↦ ground (arith, rw many at h)
  | inr few ↦ keep-none selection_eligible e.candidates (ok_option _ _ (rw few at h))
]

-- An update of the recorded candidate is found in its place.
pub update_id-first_of? :
    (xs : List Candidate) (id : String) (c d : Candidate)
    → d.candidate_id ≡ id
    → first_of? (has_id (some id)) xs ≡ some c
    → first_of? (has_id (some id)) (update_id id (λ _. d) xs) ≡ some d
update_id-first_of? [] id c d e h = cc
update_id-first_of? (x ∷ xs) id c d e h = elim (Bool-cases (x.candidate_id == id)) [
  | inl same ↦ rw same (rw (e, beq_self id) refl)
  | inr other ↦ rw (other, other) (update_id-first_of? xs id c d e (rw other at h))
]

pub update_id-ids :
    (xs : List Candidate) (id : String) (d : Candidate)
    → d.candidate_id ≡ id
    → ids (update_id id (λ _. d) xs) ≡ ids xs
update_id-ids [] id d e = refl
update_id-ids (x ∷ xs) id d e = elim (Bool-cases (x.candidate_id == id)) [
  | inl same ↦ rw same (ap (λ j. j ∷ ids xs) (e ∙ sym ((string_eq.beq_iff _ _).0 same)))
  | inr other ↦ rw other (ap (λ js. x.candidate_id ∷ js) (update_id-ids xs id d e))
]
