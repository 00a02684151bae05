-- ===== src/Plans/Fingerprint/Observed.antt =====
-- The keys of a plan that an execution observes, and those of its estimates, which `canonical_plan` of
-- src/qorl/plans/fingerprint.py names.
use Prim.Native.String.{◌++◌ as join}
use text.Mathlib.Text.{starts_with}
use text.Mathlib.TextEquality.{starts_with_iff}
use text.Mathlib.TextLemmas.{nil-append, cons-append}
use qorl.Prelude.{
  String, ◌≡◌, refl, sym, ap, ◌∙◌, ◌⊎◌, inl, inr, Bool, true, false, not, ◌&&◌, ◌||◌, arith,
  Bool-cases, ◌==◌, nat_eq, string_eq, contains, beq_self,
}
use mathlib.Core.Path.{subst}
use qorl.Plans.Fingerprint.{ends_with, is_kept, runtime_plan_keys, estimate_plan_keys}

pub data IsObserved (structural : Bool) (key : String) : Type 0 where
  listed : contains runtime_plan_keys key ≡ true → IsObserved structural key
  actual : (rest : String) → join "Actual " rest ≡ key → IsObserved structural key
  rows_removed : (rest : String) → join "Rows Removed by " rest ≡ key → IsObserved structural key
  wal : (rest : String) → join "WAL " rest ≡ key → IsObserved structural key
  blocks : (rest : String) → join rest " Blocks" ≡ key → IsObserved structural key
  estimated : structural ≡ true → contains estimate_plan_keys key ≡ true → IsObserved structural key

ends_with_self : (t : String) → ends_with t t ≡ true
unfolding ends_with
ends_with_self String.[] = beq_self {A = String} ""
ends_with_self (String.◌∷◌ c t) = ground (arith, beq_self {A = String} (String.◌∷◌ c t))

ends_with-join : (r t : String) → ends_with (join r t) t ≡ true
unfolding ends_with
ends_with-join String.[] t =
    subst (λ s. ends_with s t ≡ true) (sym (nil-append t)) (ends_with_self t)
ends_with-join (String.◌∷◌ c r) t =
    subst (λ s. ends_with s t ≡ true) (sym (cons-append c r t)) (ground (arith, ends_with-join r t))

ends_with-rest : (s t : String) → ends_with s t ≡ true → (r : String) × (join r t ≡ s)
unfolding ends_with
ends_with-rest String.[] t h = ("", nil-append t ∙ sym ((string_eq.beq_iff "" t).0 h))
ends_with-rest (String.◌∷◌ c s) t h = elim (Bool-cases (String.◌∷◌ c s == t)) [
  | inl same ↦ ("", nil-append t ∙ sym ((string_eq.beq_iff (String.◌∷◌ c s) t).0 same))
  | inr other ↦
      let (r, made) = ends_with-rest s t (ground arith) in
      (String.◌∷◌ c r, cons-append c r t ∙ ap (String.◌∷◌ c) made)
]

-- The four Reasons for which an entry is left out.
left_out :
    (a b c d s e f : Bool)
    → (not a && not (b || (c || (d || false))) && not e && not (s && f)) ≡ false
    → (a ≡ true) ⊎ (b ≡ true) ⊎ (c ≡ true) ⊎ (d ≡ true) ⊎ (e ≡ true) ⊎ ((s ≡ true) × (f ≡ true))
left_out true b c d s e f h = inl refl
left_out false true c d s e f h = inr (inl refl)
left_out false false true d s e f h = inr (inr (inl refl))
left_out false false false true s e f h = inr (inr (inr (inl refl)))
left_out false false false false s true f h = inr (inr (inr (inr (inl refl))))
left_out false false false false true false true h = inr (inr (inr (inr (inr (refl, refl)))))
left_out false false false false true false false h = cc
left_out false false false false false false f h = cc

left_out_back :
    (a b c d s e f : Bool)
    → ((a ≡ true) ⊎ (b ≡ true) ⊎ (c ≡ true) ⊎ (d ≡ true) ⊎ (e ≡ true) ⊎ ((s ≡ true) × (f ≡ true)))
    → (not a && not (b || (c || (d || false))) && not e && not (s && f)) ≡ false
left_out_back a b c d s e f h = ground arith

pub is_kept-IsObserved :
    (structural : Bool) (key : String) → is_kept structural key ≡ false → IsObserved structural key
unfolding is_kept
is_kept-IsObserved structural key h =
    elim (left_out (contains runtime_plan_keys key) (starts_with key "Actual ")
      (starts_with key "Rows Removed by ") (starts_with key "WAL ") structural
      (ends_with key " Blocks") (contains estimate_plan_keys key) h) [
        | inl a ↦ listed a
        | inr (inl b) ↦ let (r, made) = (starts_with_iff key "Actual ").0 b in actual r made
        | inr (inr (inl c)) ↦
            let (r, made) = (starts_with_iff key "Rows Removed by ").0 c in rows_removed r made
        | inr (inr (inr (inl d))) ↦ let (r, made) = (starts_with_iff key "WAL ").0 d in wal r made
        | inr (inr (inr (inr (inl e)))) ↦
            let (r, made) = ends_with-rest key " Blocks" e in blocks r made
        | inr (inr (inr (inr (inr (s, f))))) ↦ estimated s f
      ]

Reasons : Bool → String → Type 0
Reasons structural key =
    (contains runtime_plan_keys key ≡ true)
    ⊎ (starts_with key "Actual " ≡ true)
    ⊎ (starts_with key "Rows Removed by " ≡ true)
    ⊎ (starts_with key "WAL " ≡ true)
    ⊎ (ends_with key " Blocks" ≡ true)
    ⊎ ((structural ≡ true) × (contains estimate_plan_keys key ≡ true))

IsObserved-Reasons :
    (structural : Bool) (key : String) → IsObserved structural key → Reasons structural key
unfolding Reasons
IsObserved-Reasons structural key (listed h) = inl h
IsObserved-Reasons structural key (actual r made) =
    inr (inl ((starts_with_iff key "Actual ").1 (r, made)))
IsObserved-Reasons structural key (rows_removed r made) =
    inr (inr (inl ((starts_with_iff key "Rows Removed by ").1 (r, made))))
IsObserved-Reasons structural key (wal r made) =
    inr (inr (inr (inl ((starts_with_iff key "WAL ").1 (r, made)))))
IsObserved-Reasons structural key (blocks r made) = inr (
    inr (
      inr
        (inr (inl (subst (λ k. ends_with k " Blocks" ≡ true) made (ends_with-join r " Blocks"))))))
IsObserved-Reasons structural key (estimated s h) = inr (inr (inr (inr (inr (s, h)))))

pub IsObserved-is_kept :
    (structural : Bool) (key : String) → IsObserved structural key → is_kept structural key ≡ false
unfolding is_kept Reasons
IsObserved-is_kept structural key h =
    left_out_back (contains runtime_plan_keys key) (starts_with key "Actual ")
      (starts_with key "Rows Removed by ") (starts_with key "WAL ") structural
      (ends_with key " Blocks") (contains estimate_plan_keys key)
      (IsObserved-Reasons structural key h)

-- What an execution observes is left out of the structure too.
pub IsObserved-structural : (key : String) → IsObserved false key → IsObserved true key
IsObserved-structural key (listed h) = listed h
IsObserved-structural key (actual r made) = actual r made
IsObserved-structural key (rows_removed r made) = rows_removed r made
IsObserved-structural key (wal r made) = wal r made
IsObserved-structural key (blocks r made) = blocks r made
IsObserved-structural key (estimated s h) = cc
