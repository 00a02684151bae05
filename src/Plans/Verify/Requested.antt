-- ===== src/Plans/Verify/Requested.antt =====
-- The errors of one request, against what the request asks of the plan.
use qorl.Prelude.{
  ℕ, String, ◌≡◌, refl, sym, ◌≢◌, ◌↔◌, inl, inr, Bool, true, false, not, ◌&&◌, ◌||◌, Option, none,
  some, List, [], ◌∷◌, ◌++◌, arith, ltb, nat_beq, if◌then◌else◌, Bool-cases, Option-cases, Eq, ◌==◌,
  nat_eq, string_eq, first_of?, contains, intersect, is_subset, same_set, contains-keep, sorted,
  name_le, is_none, is_empty,
}
use qorl.Plans.Methods.{
  JoinMethod, ScanMethod, MemoizeMode, force, join_methods, scan_methods, join_eq, scan_eq,
  allowed_methods,
}
use qorl.Plans.Schemas.{
  JoinConstraint, ScanConstraint, DisabledIndexes, ParallelRequest, join_allowed, scan_allowed,
}
use qorl.Plans.Nodes.{
  Plan, nodes, index_names, matching_join, matching_scan, join_method_of, scan_method_of,
  memoized_inner, has_text, relation_set,
}
use qorl.Plans.Verify.{
  unexpected_indexes, Mismatch, note, join_errors, scan_errors, disabled_errors, parallel_errors,
  errors_of,
}
use qorl.Plans.Verify.Satisfied.{
  Each, nobody, both, JoinMet, ScanMet, DisabledMet, ParallelMet, memoized_as, uses_only, runs_as,
}

pub append-empty {ℓ} : {A : Type ℓ} (xs ys : List A) → (xs ++ ys ≡ []) ↔ ((xs ≡ []) × (ys ≡ []))
append-empty [] ys = ground arith
append-empty (x ∷ xs) ys = ground arith

pub note-empty : (b : Bool) (e : Mismatch) → (note b e ≡ []) ↔ (b ≡ false)
note-empty b e = ground arith

module _ {ℓ κ} {A : Type ℓ} (check : A → List Mismatch) (P : A → Type κ)
    (each : (x : A) → (check x ≡ []) ↔ P x) where
  pub errors_of-Each : (xs : List A) → errors_of check xs ≡ [] → Each P xs
  unfolding errors_of
  errors_of-Each [] h = nobody
  errors_of-Each (x ∷ xs) h =
      let (here, later) = (append-empty (check x) (errors_of check xs)).0 h in
      both ((each x).0 here) (errors_of-Each xs later)

  pub Each-errors_of : (xs : List A) → Each P xs → errors_of check xs ≡ []
  unfolding errors_of
  Each-errors_of [] nobody = refl
  Each-errors_of (x ∷ xs) (both here later) =
      (append-empty (check x) (errors_of check xs)).1 ((each x).1 here, Each-errors_of xs later)

first_of?-holds {ℓ} :
    {A : Type ℓ} (p : A → Bool) (xs : List A) (x : A) → first_of? p xs ≡ some x → p x ≡ true
first_of?-holds p [] x h = cc
first_of?-holds p (y ∷ xs) x h = elim (Bool-cases (p y)) [
  | inl met ↦ ground arith
  | inr unmet ↦ first_of?-holds p xs x (ground arith)
]

is_none-some {ℓ} : {A : Type ℓ} (o : Option A) → is_none o ≡ false → (a : A) × (o ≡ some a)
is_none-some none h = cc
is_none-some (some a) h = (a, refl)

matching_join-method :
    (plan : Plan) (relations : List String) (join : Plan)
    → matching_join plan relations ≡ some join
    → (m : JoinMethod) × (join_method_of join ≡ some m)
unfolding matching_join
matching_join-method plan relations join h = is_none-some (join_method_of join) (
    ground (
      arith,
      first_of?-holds (λ n. not (is_none (join_method_of n)) && same_set (relation_set n) relations)
          (nodes plan) join h,
    ))

matching_scan-method :
    (plan : Plan) (relation : String) (scan : Plan)
    → matching_scan plan relation ≡ some scan
    → (m : ScanMethod) × (scan_method_of scan ≡ some m)
unfolding matching_scan
matching_scan-method plan relation scan h = is_none-some (scan_method_of scan) (
    ground (
      arith,
      first_of?-holds (λ n. has_text "Alias" relation n && not (is_none (scan_method_of n)))
          (nodes plan) scan h,
    ))

module _ {ℓ} {A : Type ℓ} ⦃e : Eq A⦄ where
  allowed_methods-contains :
      (members : List A) (forced : Option A) (forbidden : List A) (m : A)
      → contains members m ≡ true
      → contains (allowed_methods members forced forbidden) m
        ≡ (not (elim forced [ none ↦ false | some f ↦ not (m == f) ]) && not (contains forbidden m))
  unfolding allowed_methods
  allowed_methods-contains members none forbidden m known =
      ground (arith, contains-keep (λ x. not (contains forbidden x)) members m)
  allowed_methods-contains members (some f) forbidden m known = ground (
    arith,
    contains-keep (λ x. not (contains forbidden x)) (f ∷ []) m,
    e.beq_iff f m,
    e.beq_iff m f,
  )

notes-empty :
    (a b c d : Bool) (p q r s : Mismatch)
    → (note a p ++ note b q ++ note c r ++ note d s ≡ [])
      ↔ (((not a && not b) ≡ true) × ((not c && not d) ≡ true))
notes-empty a b c d p q r s = ground arith

three-empty :
    (a b i u s : Bool) (p q r : Mismatch)
    → (note a p ++ note b q ++ note (not i && (u || not s)) r ≡ [])
      ↔ (((not a && not b) ≡ true) × ((i || (not u && s)) ≡ true))
three-empty a b i u s p q r = ground arith

scan_notes-empty :
    (a b : Bool) (indexes used : List String) (p q r : Mismatch)
    → (note a p
          ++ note b q
          ++ note (not (is_empty indexes) && (is_empty used || not (is_subset used indexes))) r
        ≡ [])
      ↔ (((not a && not b) ≡ true) × (uses_only indexes used ≡ true))
scan_notes-empty a b indexes used p q r =
    three-empty a b (is_empty indexes) (is_empty used) (is_subset used indexes) p q r

unused_notes-empty :
    (forbidden : List String) (e : Mismatch)
    → (note (not (is_empty forbidden)) e ≡ []) ↔ (forbidden ≡ [])
unused_notes-empty [] e = ground arith
unused_notes-empty (x ∷ xs) e = ground arith

parallel_notes-empty :
    (workers : ℕ) (hard_mode parallel planned : Bool) (p q r : Mismatch)
    → (note (nat_beq workers 0 && parallel) p
          ++ note (ltb 0 workers && hard_mode && not parallel) q
          ++ note (ltb 0 workers && hard_mode && parallel && not planned) r
        ≡ [])
      ↔ ((if nat_beq workers 0 then not parallel else not hard_mode || (parallel && planned))
          ≡ true)
parallel_notes-empty workers h b w p q r = ground arith

memoize_noted :
    (mode : MemoizeMode) (b : Bool)
    → (not (elim mode [ force ↦ not b | _ ↦ false ])
        && not (elim mode [ MemoizeMode.forbid ↦ b | _ ↦ false ]))
      ≡ memoized_as mode b
memoize_noted mode b = ground arith

join_known : (m : JoinMethod) → contains join_methods m ≡ true
join_known m = ground arith

scan_known : (m : ScanMethod) → contains scan_methods m ≡ true
scan_known m = ground arith

join_errors-found :
    (plan : Plan) (item : JoinConstraint) (join : Plan) (m : JoinMethod)
    → matching_join plan item.relations ≡ some join
    → join_method_of join ≡ some m
    → (join_errors plan item ≡ []) ↔ (
        (contains (join_allowed item) m ≡ true)
        × (memoized_as item.memoize (memoized_inner join) ≡ true))
unfolding join_errors
join_errors-found plan item join m found method =
    rw
      (
        join_errors,
        found,
        method,
        sym (memoize_noted item.memoize (memoized_inner join)),
        allowed_methods-contains join_methods item.force item.forbid m (join_known m),
      )
      (notes-empty _ _ _ _ _ _ _ _)

join_errors-missing :
    (plan : Plan) (item : JoinConstraint)
    → matching_join plan item.relations ≡ none
    → join_errors plan item ≢ []
unfolding join_errors
join_errors-missing plan item missing = rw (join_errors, missing) (λ h. cc)

pub join_errors_iff :
    (plan : Plan) (item : JoinConstraint) → (join_errors plan item ≡ []) ↔ JoinMet plan item
join_errors_iff plan item = elim (Option-cases (matching_join plan item.relations)) [
  | inl missing ↦
      (λ h. absurd (join_errors-missing plan item missing h), λ (join, m, found, _, _, _). cc)
  | inr (join, found) ↦
      let (m, method) = matching_join-method plan item.relations join found in
      let (to, from) = join_errors-found plan item join m found method in
      (
        λ h. let (allowed, memo) = to h in (join, m, found, method, allowed, memo),
        λ (join', m', found', method', allowed, memo).
            (join_errors-found plan item join' m' found' method').1 (allowed, memo),
      )
]

scan_errors-found :
    (plan : Plan) (item : ScanConstraint) (scan : Plan) (m : ScanMethod)
    → matching_scan plan item.relation ≡ some scan
    → scan_method_of scan ≡ some m
    → (scan_errors plan item ≡ []) ↔ (
        (contains (scan_allowed item) m ≡ true)
        × (uses_only item.indexes (index_names scan) ≡ true))
unfolding scan_errors
scan_errors-found plan item scan m found method =
    rw
      (
        scan_errors,
        found,
        method,
        allowed_methods-contains scan_methods item.force item.forbid m (scan_known m),
      )
      (scan_notes-empty _ _ item.indexes (index_names scan) _ _
        (unexpected_indexes item.relation (sorted name_le (index_names scan))))

scan_errors-missing :
    (plan : Plan) (item : ScanConstraint)
    → matching_scan plan item.relation ≡ none
    → scan_errors plan item ≢ []
unfolding scan_errors
scan_errors-missing plan item missing = rw (scan_errors, missing) (λ h. cc)

pub scan_errors_iff :
    (plan : Plan) (item : ScanConstraint) → (scan_errors plan item ≡ []) ↔ ScanMet plan item
scan_errors_iff plan item = elim (Option-cases (matching_scan plan item.relation)) [
  | inl missing ↦
      (λ h. absurd (scan_errors-missing plan item missing h), λ (scan, m, found, _, _, _). cc)
  | inr (scan, found) ↦
      let (m, method) = matching_scan-method plan item.relation scan found in
      (
        λ h.
            let (allowed, used) = (scan_errors-found plan item scan m found method).0 h in
            (scan, m, found, method, allowed, used),
        λ (scan', m', found', method', allowed, used).
            (scan_errors-found plan item scan' m' found' method').1 (allowed, used),
      )
]

disabled_errors-found :
    (plan : Plan) (item : DisabledIndexes) (scan : Plan)
    → matching_scan plan item.relation ≡ some scan
    → (disabled_errors plan item ≡ []) ↔ (intersect (index_names scan) item.indexes ≡ [])
unfolding disabled_errors
disabled_errors-found plan item scan found = rw (disabled_errors, found) (unused_notes-empty _ _)

disabled_errors-missing :
    (plan : Plan) (item : DisabledIndexes)
    → matching_scan plan item.relation ≡ none
    → disabled_errors plan item ≢ []
unfolding disabled_errors
disabled_errors-missing plan item missing = rw (disabled_errors, missing) (λ h. cc)

pub disabled_errors_iff :
    (plan : Plan) (item : DisabledIndexes)
    → (disabled_errors plan item ≡ []) ↔ DisabledMet plan item
disabled_errors_iff plan item = elim (Option-cases (matching_scan plan item.relation)) [
  | inl missing ↦
      (λ h. absurd (disabled_errors-missing plan item missing h), λ (scan, found, _). cc)
  | inr (scan, found) ↦ (
    λ h. (scan, found, (disabled_errors-found plan item scan found).0 h),
    λ (scan', found', unused). (disabled_errors-found plan item scan' found').1 unused,
  )
]

parallel_errors-found :
    (plan : Plan) (item : ParallelRequest) (scan : Plan)
    → matching_scan plan item.relation ≡ some scan
    → (parallel_errors plan item ≡ []) ↔ (runs_as plan scan item ≡ true)
unfolding parallel_errors
parallel_errors-found plan item scan found =
    rw (parallel_errors, found) (parallel_notes-empty item.workers _ _ _ _ _ _)

parallel_errors-missing :
    (plan : Plan) (item : ParallelRequest)
    → matching_scan plan item.relation ≡ none
    → parallel_errors plan item ≢ []
unfolding parallel_errors
parallel_errors-missing plan item missing = rw (parallel_errors, missing) (λ h. cc)

pub parallel_errors_iff :
    (plan : Plan) (item : ParallelRequest)
    → (parallel_errors plan item ≡ []) ↔ ParallelMet plan item
parallel_errors_iff plan item = elim (Option-cases (matching_scan plan item.relation)) [
  | inl missing ↦
      (λ h. absurd (parallel_errors-missing plan item missing h), λ (scan, found, _). cc)
  | inr (scan, found) ↦ (
    λ h. (scan, found, (parallel_errors-found plan item scan found).0 h),
    λ (scan', found', runs). (parallel_errors-found plan item scan' found').1 runs,
  )
]
