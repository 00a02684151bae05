-- ===== src/Prelude/Mapping.antt =====
-- Python's `dict` with string keys, as its items in the order of insertion.
use Prim.Native.String.{String}
use mathlib.Core.Path.{◌≡◌, refl}
use mathlib.Core.Option.{Option, none, some}
use mathlib.Core.List.{List, [], ◌∷◌}
use native.Mathlib.Omega.{arith}
use qorl.Prelude.Tests.{◌==◌, string_eq, if◌then◌else◌}

abbrev pub Dict {ℓ} : Type ℓ → Type ℓ
Dict V = List (String × V)

module _ {ℓ} {V : Type ℓ} where
  -- d.get(k)
  unfoldable pub lookup : String → Dict V → Option V
  lookup k [] = none
  lookup k ((j, v) ∷ m) = if j == k then some v else lookup k m

  -- d[k] = v
  unfoldable pub assign : String → V → Dict V → Dict V
  assign k v [] = (k, v) ∷ []
  assign k v ((j, w) ∷ m) = if j == k then (k, v) ∷ m else (j, w) ∷ assign k v m

  pub lookup-assign :
      (k j : String) (v : V) (m : Dict V)
      → lookup j (assign k v m) ≡ (if k == j then some v else lookup j m)
  unfolding lookup assign
  lookup-assign k j v [] = refl
  lookup-assign k j v ((i, w) ∷ m) = ground (
    arith,
    string_eq.beq_iff k j,
    string_eq.beq_iff i k,
    string_eq.beq_iff i j,
    lookup-assign k j v m,
  )

  -- d.setdefault(k, v)
  unfoldable pub set_default : String → V → Dict V → Dict V
  set_default k v m = elim (lookup k m) [ none ↦ assign k v m | some _ ↦ m ]

  pub lookup-set_default :
      (k j : String) (v : V) (m : Dict V)
      → lookup j (set_default k v m)
        ≡ elim (lookup j m) [ some w ↦ some w | none ↦ if k == j then some v else none ]
  unfolding set_default
  lookup-set_default k j v m = ground (arith, lookup-assign k j v m, string_eq.beq_iff k j)

  -- d.get(k, default)
  abbrev pub lookup_or : String → V → Dict V → V
  lookup_or k default m = elim (lookup k m) [ none ↦ default | some v ↦ v ]
