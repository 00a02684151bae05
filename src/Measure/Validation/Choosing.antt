-- ===== src/Measure/Validation/Choosing.antt =====
-- The operations that select an attempt keep the state of a rollout coherent.
use mathlib.Core.Path.{subst}
use qorl.Prelude.{
  String, ◌≡◌, refl, sym, ◌∙◌, inl, inr, Bool, true, false, not, ◌&&◌, Option, none, some, List, [],
  ◌∷◌, arith, ltb, if◌then◌else◌, Bool-cases, ◌==◌, nat_eq, string_eq, length, keep, some_of,
  first_of?, beq_self, Result, ok, err, is_none, is_empty,
}
use qorl.Json.{Json}
use qorl.Measure.Schemas.{
  RejectedSelection, Candidate, SelectionState, SelectionStatus, pending, rejected, accepted,
  failed, selection_eligible,
}
use qorl.Measure.Planner.{Failure}
use qorl.Measure.Validation.{Evaluator, Outcome}
use qorl.Measure.Validation.Selection.{
  reject_as, resolve_status, eligible, head?, found_or, select, is_accepted, reject,
  reject_selection, accept, accept_default, accept_selected, accept_selection, fail_selection,
  or_fail, resolve_selection, keep_default, is_default,
}
use qorl.Measure.Validation.Invariant.{if-keeps, IsCoherent, is_eligible_id}

-- What the selection of a coherent state is free to be.
select-IsCoherent :
    (e : Evaluator) (kept : Bool) (selection : SelectionState)
    → kept && not (is_accepted selection.status) ≡ false
    → is_eligible_id e.candidates selection.selected_candidate_id ≡ true
    → IsCoherent e
    → IsCoherent (record e { kept_default = kept; selection = selection })
select-IsCoherent e kept selection settled chosen k = record {
  bounded = k.bounded;
  numbered = k.numbered;
  started = k.started;
  structures = k.structures;
  reuse_keys = k.reuse_keys;
  settled = settled;
  chosen = chosen;
}

-- The candidate that a search among the candidates with `q` finds is one of them.
first_of?-chosen :
    (q p : Candidate → Bool) (xs : List Candidate) (c : Candidate)
    → first_of? p (keep q xs) ≡ some c
    → some_of (λ y. q y && y.candidate_id == c.candidate_id) xs ≡ true
first_of?-chosen q p [] c h = cc
first_of?-chosen q p (x ∷ xs) c h =
    let later = first_of?-chosen q p xs c in
    elim (Bool-cases (q x)) [
      | inr dropped ↦ ground (arith, later)
      | inl kept ↦ elim (Bool-cases (p x)) [
        | inr unmet ↦ ground (arith, later)
        | inl met ↦ let same : x ≡ c = ground arith in rw (kept, same, beq_self c.candidate_id) refl
      ]
    ]

head?-first_of? {ℓ} : {A : Type ℓ} (xs : List A) → head? xs ≡ first_of? (λ _. true) xs
head?-first_of? [] = refl
head?-first_of? (x ∷ xs) = refl

if-ok :
    (b : Bool) (f : Failure) (o : Option Candidate) (c : Candidate)
    → (if b then err f else ok o) ≡ ok (some c)
    → o ≡ some c
if-ok true f o c h = cc
if-ok false f o c h = cc

found_or-ok :
    (o : Option Candidate) (f : Failure) (c : Candidate) → found_or o f ≡ ok (some c) → o ≡ some c
found_or-ok none f c h = cc
found_or-ok (some a) f c h = cc

-- What `select` returns is an eligible attempt.
pub select-eligible :
    (o : Option String) (e : Evaluator) (c : Candidate)
    → select o e ≡ ok (some c)
    → is_eligible_id e.candidates (some c.candidate_id) ≡ true
unfolding select
select-eligible none e c h =
    first_of?-chosen selection_eligible (λ _. true) e.candidates c
      (sym (head?-first_of? (eligible e))
        ∙ if-ok (ltb 1 (length (eligible e))) _ (head? (eligible e)) c h)
select-eligible (some k) e c h =
    first_of?-chosen selection_eligible (λ c. c.candidate_id == k) e.candidates c
      (found_or-ok _ _ c h)

and_true : (b : Bool) → b && not true ≡ false
and_true b = ground arith

accept-IsCoherent :
    (o : Option String) (e : Evaluator) (kept : Bool)
    → is_eligible_id e.candidates o ≡ true
    → IsCoherent e
    → IsCoherent (accept o (record e { kept_default = kept }))
accept-IsCoherent o e kept h k = select-IsCoherent e kept _ (and_true kept) h k

accept_selected-IsCoherent :
    (found : Result Failure (Option Candidate)) (e : Evaluator)
    → ((c : Candidate)
        → found ≡ ok (some c)
        → is_eligible_id e.candidates (some c.candidate_id) ≡ true)
    → IsCoherent e
    → IsCoherent (accept_selected found e).1
accept_selected-IsCoherent (err f) e h k = k
accept_selected-IsCoherent (ok none) e h k = accept-IsCoherent none e e.kept_default refl k
accept_selected-IsCoherent (ok (some c)) e h k =
    accept-IsCoherent (some c.candidate_id) e e.kept_default (h c refl) k

pub accept_selection-IsCoherent :
    (o : Option String) (e : Evaluator) → IsCoherent e → IsCoherent (accept_selection o e).1
unfolding accept_selection accept_default
accept_selection-IsCoherent o e k =
    if-keeps IsCoherent (is_default o) _ _
      (λ _.
        if-keeps IsCoherent (is_empty e.candidates) _ _ (λ _. k)
          (λ _.
            if-keeps IsCoherent (is_none e.default) _ _ (λ _. k)
              (λ _. accept-IsCoherent none e true refl k)))
      (λ _. accept_selected-IsCoherent (select o e) e (select-eligible o e) k)

pub keep_default-IsCoherent : (e : Evaluator) → IsCoherent e → IsCoherent (keep_default e).1
unfolding keep_default
keep_default-IsCoherent e k =
    if-keeps IsCoherent (is_none e.default) _ _ (λ _. k)
      (λ _.
        if-keeps IsCoherent (not (is_empty e.candidates)) _ _ (λ _. k)
          (λ _.
            if-keeps IsCoherent e.kept_default _ _ (λ _. k)
              (λ _. accept-IsCoherent none e true refl k)))

reject-settled :
    (b kept : Bool) (rejections : List RejectedSelection) (s : SelectionState)
    → is_accepted s.status ≡ b
    → kept && not (is_accepted s.status) ≡ false
    → kept && not (is_accepted (reject_as b rejections s).status) ≡ false
reject-settled true kept rejections s same h = h
reject-settled false kept rejections s same h = subst (λ b. kept && not b ≡ false) same h

reject-chosen :
    (b : Bool) (rejections : List RejectedSelection) (xs : List Candidate) (s : SelectionState)
    → is_eligible_id xs s.selected_candidate_id ≡ true
    → is_eligible_id xs (reject_as b rejections s).selected_candidate_id ≡ true
reject-chosen true rejections xs s h = h
reject-chosen false rejections xs s h = refl

pub reject_selection-IsCoherent :
    (arguments : Json) (diagnostics : List String) (e : Evaluator)
    → IsCoherent e
    → IsCoherent (reject_selection arguments diagnostics e)
unfolding reject_selection
reject_selection-IsCoherent arguments diagnostics e k =
    select-IsCoherent e e.kept_default (reject arguments diagnostics e.selection)
      (reject-settled (is_accepted e.selection.status) e.kept_default _ e.selection refl k.settled)
      (reject-chosen (is_accepted e.selection.status) _ e.candidates e.selection k.chosen) k

fail-IsCoherent :
    (e : Evaluator) → e.kept_default ≡ false → IsCoherent e → IsCoherent (fail_selection e)
fail-IsCoherent e unkept k = select-IsCoherent e e.kept_default _ (rw unkept refl) k.chosen k

not_kept : (kept : Bool) → kept && not false ≡ false → kept ≡ false
not_kept kept h = ground arith

or_fail-IsCoherent :
    (o : Outcome (Unit {0}))
    → ((f : Failure) → o.0 ≡ err f → o.1.kept_default ≡ false)
    → IsCoherent o.1
    → IsCoherent (or_fail o)
or_fail-IsCoherent (ok a, e) h k = k
or_fail-IsCoherent (err f, e) h k = fail-IsCoherent e (h f refl) k

-- Where no identifier is given, `accept_selection` that raises changes nothing.
accept_selected-raised :
    (found : Result Failure (Option Candidate)) (e : Evaluator) (f : Failure)
    → (accept_selected found e).0 ≡ err f
    → (accept_selected found e).1 ≡ e
accept_selected-raised (err g) e f h = refl
accept_selected-raised (ok none) e f h = cc
accept_selected-raised (ok (some c)) e f h = cc

resolve-IsCoherent :
    (status : SelectionStatus) (e : Evaluator)
    → e.selection.status ≡ status
    → IsCoherent e
    → IsCoherent (resolve_status status e)
unfolding resolve_status accept_selection
resolve-IsCoherent rejected e h k =
    fail-IsCoherent e
      (not_kept e.kept_default
        (subst (λ s. e.kept_default && not (is_accepted s) ≡ false) h k.settled))
      k
resolve-IsCoherent pending e h k =
    let selected = accept_selected (select none e) e in
    let after = accept_selected-IsCoherent (select none e) e (select-eligible none e) k in
    let unkept =
      not_kept e.kept_default
        (subst (λ s. e.kept_default && not (is_accepted s) ≡ false) h k.settled) in
    subst (λ b. IsCoherent (if b then e else or_fail selected)) (sym unkept)
      (or_fail-IsCoherent selected
        (λ f raised.
          subst (λ x. x.kept_default ≡ false)
            (sym (accept_selected-raised (select none e) e f raised)) unkept)
        after)
resolve-IsCoherent accepted e h k = k
resolve-IsCoherent failed e h k = k

pub resolve_selection-IsCoherent : (e : Evaluator) → IsCoherent e → IsCoherent (resolve_selection e)
unfolding resolve_selection
resolve_selection-IsCoherent e k = resolve-IsCoherent e.selection.status e refl k

unfoldable pub is_final : SelectionStatus → Bool
is_final accepted = true
is_final failed = true
is_final _ = false

or_fail-is_final :
    (found : Result Failure (Option Candidate)) (e : Evaluator)
    → is_final (or_fail (accept_selected found e)).selection.status ≡ true
unfolding is_final
or_fail-is_final (err f) e = refl
or_fail-is_final (ok none) e = refl
or_fail-is_final (ok (some c)) e = refl

resolve_status-is_final :
    (status : SelectionStatus) (e : Evaluator)
    → e.selection.status ≡ status
    → IsCoherent e
    → is_final (resolve_status status e).selection.status ≡ true
unfolding resolve_status accept_selection is_final
resolve_status-is_final rejected e h k = refl
resolve_status-is_final pending e h k =
    let unkept =
      not_kept e.kept_default
        (subst (λ s. e.kept_default && not (is_accepted s) ≡ false) h k.settled) in
    subst
      (λ b.
        is_final (if b then e else or_fail (accept_selected (select none e) e)).selection.status
        ≡ true)
      (sym unkept) (or_fail-is_final (select none e) e)
resolve_status-is_final accepted e h k = rw h refl
resolve_status-is_final failed e h k = rw h refl

-- Resolving the selection of a coherent state leaves it accepted or failed.
pub resolve_selection-is_final :
    (e : Evaluator) → IsCoherent e → is_final (resolve_selection e).selection.status ≡ true
unfolding resolve_selection
resolve_selection-is_final e k = resolve_status-is_final e.selection.status e refl k
