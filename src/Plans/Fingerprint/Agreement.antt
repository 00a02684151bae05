-- ===== src/Plans/Fingerprint/Agreement.antt =====
-- The canonical forms of two plans: what the full one tells of the structural one.
use qorl.Prelude.{
  String, ◌≡◌, refl, ap, ◌↔◌, inl, inr, Bool, true, false, not, ◌&&◌, arith, Bool-cases, nat_eq,
  string_eq,
}
use mathlib.Core.Path.{subst}
use qorl.Json.{Json, null, bool, number, str, arr, obj, Items, nil, cons, Fields, end, field}
use qorl.Numbers.{Number}
use qorl.Plans.Fingerprint.{is_kept, canonical_plan, canonical_items, canonical_fields}

-- Agreement of two values, of two lists and of two objects, up to the entries that `is_kept` drops.
mutual
  data Agree (structural : Bool) : Json → Json → Type 0 where
    nulls : Agree structural null null
    bools : {b : Bool} → Agree structural (bool b) (bool b)
    numbers : {n : Number} → Agree structural (number n) (number n)
    strs : {s : String} → Agree structural (str s) (str s)
    arrs : {xs ys : Items} → AgreeItems structural xs ys → Agree structural (arr xs) (arr ys)
    objs : {fs gs : Fields} → AgreeFields structural fs gs → Agree structural (obj fs) (obj gs)

  data AgreeItems (structural : Bool) : Items → Items → Type 0 where
    nils : AgreeItems structural nil nil
    conses :
        {x y : Json} {xs ys : Items}
        → Agree structural x y
        → AgreeItems structural xs ys
        → AgreeItems structural (cons x xs) (cons y ys)

  data AgreeFields (structural : Bool) : Fields → Fields → Type 0 where
    ends : AgreeFields structural end end
    kept :
        {k : String} {v w : Json} {fs gs : Fields}
        → is_kept structural k ≡ true
        → Agree structural v w
        → AgreeFields structural fs gs
        → AgreeFields structural (field k v fs) (field k w gs)
    drop_left :
        {k : String} {v : Json} {fs gs : Fields}
        → is_kept structural k ≡ false
        → AgreeFields structural fs gs
        → AgreeFields structural (field k v fs) gs
    drop_right :
        {k : String} {v : Json} {fs gs : Fields}
        → is_kept structural k ≡ false
        → AgreeFields structural fs gs
        → AgreeFields structural fs (field k v gs)

mutual
  unfolding canonical_plan canonical_items canonical_fields

  Agree-canonical : (s : Bool) {v w : Json} → Agree s v w → canonical_plan s v ≡ canonical_plan s w
  Agree-canonical s nulls = refl
  Agree-canonical s bools = refl
  Agree-canonical s numbers = refl
  Agree-canonical s strs = refl
  Agree-canonical s (arrs a) = ap arr (AgreeItems-canonical s a)
  Agree-canonical s (objs a) = ap obj (AgreeFields-canonical s a)

  AgreeItems-canonical :
      (s : Bool) {v w : Items} → AgreeItems s v w → canonical_items s v ≡ canonical_items s w
  AgreeItems-canonical s nils = refl
  AgreeItems-canonical s (conses a b) = rw (Agree-canonical s a, AgreeItems-canonical s b) refl

  AgreeFields-canonical :
      (s : Bool) {v w : Fields} → AgreeFields s v w → canonical_fields s v ≡ canonical_fields s w
  AgreeFields-canonical s ends = refl
  AgreeFields-canonical s (kept k a b) = rw (k, Agree-canonical s a, AgreeFields-canonical s b) refl
  AgreeFields-canonical s (drop_left k b) = rw k (AgreeFields-canonical s b)
  AgreeFields-canonical s (drop_right k b) = rw k (AgreeFields-canonical s b)

mutual
  Agree-sym : (s : Bool) {v w : Json} → Agree s v w → Agree s w v
  Agree-sym s nulls = nulls
  Agree-sym s bools = bools
  Agree-sym s numbers = numbers
  Agree-sym s strs = strs
  Agree-sym s (arrs a) = arrs (AgreeItems-sym s a)
  Agree-sym s (objs a) = objs (AgreeFields-sym s a)

  AgreeItems-sym : (s : Bool) {v w : Items} → AgreeItems s v w → AgreeItems s w v
  AgreeItems-sym s nils = nils
  AgreeItems-sym s (conses a b) = conses (Agree-sym s a) (AgreeItems-sym s b)

  AgreeFields-sym : (s : Bool) {v w : Fields} → AgreeFields s v w → AgreeFields s w v
  AgreeFields-sym s ends = ends
  AgreeFields-sym s (kept k a b) = kept k (Agree-sym s a) (AgreeFields-sym s b)
  AgreeFields-sym s (drop_left k b) = drop_right k (AgreeFields-sym s b)
  AgreeFields-sym s (drop_right k b) = drop_left k (AgreeFields-sym s b)

mutual
  Agree-trans : (s : Bool) {u v w : Json} → Agree s u v → Agree s v w → Agree s u w
  Agree-trans s nulls q = q
  Agree-trans s bools q = q
  Agree-trans s numbers q = q
  Agree-trans s strs q = q
  Agree-trans s (arrs a) (arrs b) = arrs (AgreeItems-trans s a b)
  Agree-trans s (objs a) (objs b) = objs (AgreeFields-trans s a b)

  AgreeItems-trans :
      (s : Bool) {u v w : Items} → AgreeItems s u v → AgreeItems s v w → AgreeItems s u w
  AgreeItems-trans s nils q = q
  AgreeItems-trans s (conses a b) (conses c d) = conses (Agree-trans s a c) (AgreeItems-trans s b d)

  AgreeFields-trans :
      (s : Bool) {u v w : Fields} → AgreeFields s u v → AgreeFields s v w → AgreeFields s u w
  AgreeFields-trans s ends q = q
  AgreeFields-trans s (kept k a b) (kept j c d) =
      kept k (Agree-trans s a c) (AgreeFields-trans s b d)
  AgreeFields-trans s (kept k a b) (drop_left j d) = cc
  AgreeFields-trans s (kept k a b) (drop_right j d) =
      drop_right j (AgreeFields-trans s (kept k a b) d)
  AgreeFields-trans s (drop_left k b) q = drop_left k (AgreeFields-trans s b q)
  AgreeFields-trans s (drop_right k b) (kept j c d) = cc
  AgreeFields-trans s (drop_right k b) (drop_left j d) = AgreeFields-trans s b d
  AgreeFields-trans s (drop_right k b) (drop_right j d) =
      drop_right j (AgreeFields-trans s (drop_right k b) d)

mutual
  unfolding canonical_plan canonical_items canonical_fields

  canonical_plan-Agree : (s : Bool) (v : Json) → Agree s v (canonical_plan s v)
  canonical_plan-Agree s null = nulls
  canonical_plan-Agree s (bool b) = bools
  canonical_plan-Agree s (number n) = numbers
  canonical_plan-Agree s (str t) = strs
  canonical_plan-Agree s (arr items) = arrs (canonical_items-Agree s items)
  canonical_plan-Agree s (obj fields) = objs (canonical_fields-Agree s fields)

  canonical_items-Agree : (s : Bool) (v : Items) → AgreeItems s v (canonical_items s v)
  canonical_items-Agree s nil = nils
  canonical_items-Agree s (cons item items) =
      conses (canonical_plan-Agree s item) (canonical_items-Agree s items)

  canonical_fields-Agree : (s : Bool) (v : Fields) → AgreeFields s v (canonical_fields s v)
  canonical_fields-Agree s end = ends
  canonical_fields-Agree s (field k item fields) =
      let here = canonical_plan-Agree s item in
      let later = canonical_fields-Agree s fields in
      elim (Bool-cases (is_kept s k)) [
        | inl stays ↦ rw stays (kept stays here later)
        | inr goes ↦ rw goes (drop_left goes later)
      ]

canonical_plan_iff :
    (structural : Bool) (v w : Json)
    → (canonical_plan structural v ≡ canonical_plan structural w) ↔ Agree structural v w
canonical_plan_iff s v w = (
  λ same.
      Agree-trans s (subst (Agree s v) same (canonical_plan-Agree s v))
        (Agree-sym s (canonical_plan-Agree s w)),
  Agree-canonical s,
)

kept_either : (a b : Bool) → a && not (true && b) ≡ true → a && not (false && b) ≡ true
kept_either a b h = ground arith

is_kept-estimates : (k : String) → is_kept true k ≡ true → is_kept false k ≡ true
unfolding is_kept
is_kept-estimates k h = kept_either _ _ h

is_kept-dropped : (k : String) → is_kept false k ≡ false → is_kept true k ≡ false
is_kept-dropped k h = ground (arith, is_kept-estimates k)

-- What a plan loses for `structural` beyond what it loses in either case.
mutual
  Agree-structural : {v w : Json} → Agree false v w → Agree true v w
  Agree-structural nulls = nulls
  Agree-structural bools = bools
  Agree-structural numbers = numbers
  Agree-structural strs = strs
  Agree-structural (arrs a) = arrs (AgreeItems-structural a)
  Agree-structural (objs a) = objs (AgreeFields-structural a)

  AgreeItems-structural : {v w : Items} → AgreeItems false v w → AgreeItems true v w
  AgreeItems-structural nils = nils
  AgreeItems-structural (conses a b) = conses (Agree-structural a) (AgreeItems-structural b)

  AgreeFields-structural : {v w : Fields} → AgreeFields false v w → AgreeFields true v w
  AgreeFields-structural ends = ends
  AgreeFields-structural (kept {k} h a b) =
      let here = Agree-structural a in
      let later = AgreeFields-structural b in
      elim (Bool-cases (is_kept true k)) [
        | inl stays ↦ kept stays here later
        | inr goes ↦ drop_left goes (drop_right goes later)
      ]
  AgreeFields-structural (drop_left {k} h b) =
      drop_left (is_kept-dropped k h) (AgreeFields-structural b)
  AgreeFields-structural (drop_right {k} h b) =
      drop_right (is_kept-dropped k h) (AgreeFields-structural b)

-- Plans with the same full canonical form have the same structural one.
pub canonical_plan-structural :
    (v w : Json)
    → canonical_plan false v ≡ canonical_plan false w
    → canonical_plan true v ≡ canonical_plan true w
canonical_plan-structural v w same =
    (canonical_plan_iff true v w).1 (Agree-structural ((canonical_plan_iff false v w).0 same))
