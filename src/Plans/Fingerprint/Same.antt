-- ===== src/Plans/Fingerprint/Same.antt =====
-- Plans that are the same for src/qorl/plans/fingerprint.py.
use qorl.Prelude.{String, ◌≢◌, Bool, true, false, nat_eq, string_eq}
use qorl.Json.{Json, arr, obj, Items, nil, cons, Fields, field}
use qorl.Plans.Fingerprint.Observed.{IsObserved, IsObserved-structural}

-- The least equivalence of plans that exchanges neighbouring entries of an object with different keys
-- and drops the entries that are observed, at any depth.
mutual
  pub data Same (structural : Bool) : Json → Json → Type 0 where
    unchanged : {v : Json} → Same structural v v
    back : {v w : Json} → Same structural v w → Same structural w v
    onward : {u v w : Json} → Same structural u v → Same structural v w → Same structural u w
    items : {xs ys : Items} → SameItems structural xs ys → Same structural (arr xs) (arr ys)
    entries : {fs gs : Fields} → SameFields structural fs gs → Same structural (obj fs) (obj gs)

  pub data SameItems (structural : Bool) : Items → Items → Type 0 where
    no_items : SameItems structural nil nil
    next :
        {x y : Json} {xs ys : Items}
        → Same structural x y
        → SameItems structural xs ys
        → SameItems structural (cons x xs) (cons y ys)

  pub data SameFields (structural : Bool) : Fields → Fields → Type 0 where
    alike : {fs : Fields} → SameFields structural fs fs
    undo : {fs gs : Fields} → SameFields structural fs gs → SameFields structural gs fs
    series :
        {es fs gs : Fields}
        → SameFields structural es fs
        → SameFields structural fs gs
        → SameFields structural es gs
    entry :
        {k : String} {v w : Json} {fs gs : Fields}
        → Same structural v w
        → SameFields structural fs gs
        → SameFields structural (field k v fs) (field k w gs)
    swapped :
        {j k : String} {v w : Json} {fs : Fields}
        → j ≢ k
        → SameFields structural (field j v (field k w fs)) (field k w (field j v fs))
    dropped :
        {k : String} {v : Json} {fs : Fields}
        → IsObserved structural k
        → SameFields structural (field k v fs) fs

mutual
  pub Same-structural : {v w : Json} → Same false v w → Same true v w
  Same-structural unchanged = unchanged
  Same-structural (back h) = back (Same-structural h)
  Same-structural (onward h k) = onward (Same-structural h) (Same-structural k)
  Same-structural (items h) = items (SameItems-structural h)
  Same-structural (entries h) = entries (SameFields-structural h)

  SameItems-structural : {xs ys : Items} → SameItems false xs ys → SameItems true xs ys
  SameItems-structural no_items = no_items
  SameItems-structural (next h k) = next (Same-structural h) (SameItems-structural k)

  SameFields-structural : {fs gs : Fields} → SameFields false fs gs → SameFields true fs gs
  SameFields-structural alike = alike
  SameFields-structural (undo h) = undo (SameFields-structural h)
  SameFields-structural (series h k) = series (SameFields-structural h) (SameFields-structural k)
  SameFields-structural (entry h k) = entry (Same-structural h) (SameFields-structural k)
  SameFields-structural (swapped other) = swapped other
  SameFields-structural (dropped {k} h) = dropped (IsObserved-structural k h)
