-- ===== src/Prelude/Raising.antt =====
-- A computation that may raise: the exception is a value, and `do` stops at the first one.
use mathlib.Core.Path.{◌≡◌, refl, ap}
use mathlib.Core.Bool.{Bool, true, false}
use mathlib.Core.Option.{Option, none, some}

pub data Result {ℓ κ} (E : Type ℓ) (A : Type κ) : Type (ℓ ⊔ κ) where
  ok : A → Result E A
  err : E → Result E A

infixl 5 ◌>>=◌ ◌>>◌
abbrev pub ◌>>=◌ {ℓ κ μ} :
    {E : Type ℓ} {A : Type κ} {B : Type μ} → Result E A → (A → Result E B) → Result E B
ok a >>= f = f a
err e >>= f = err e

abbrev pub ◌>>◌ {ℓ κ} : {E : Type ℓ} {B : Type κ} → Result E (Unit {0}) → Result E B → Result E B
m >> k = m >>= λ _. k

-- if b: raise e
abbrev pub raise_if {ℓ} : {E : Type ℓ} → Bool → E → Result E (Unit {0})
raise_if true e = err e
raise_if false e = ok tt

-- d[k], where a missing key raises
abbrev pub or_raise {ℓ κ} : {E : Type ℓ} {A : Type κ} → Option A → E → Result E A
or_raise none e = err e
or_raise (some a) e = ok a

pub >>=-eq-ok {ℓ κ μ} :
    {E : Type ℓ} {A : Type κ} {B : Type μ} (r : Result E A) (next : A → Result E B) {y : B}
    → (r >>= next) ≡ ok y
    → (x : A) × (r ≡ ok x) × (next x ≡ ok y)
>>=-eq-ok (ok x) next made = (x, refl, made)
>>=-eq-ok (err raised) next made = cc

pub >>-eq-ok {ℓ κ} :
    {E : Type ℓ} {B : Type κ} (r : Result E (Unit {0})) (next : Result E B) {y : B}
    → (r >> next) ≡ ok y
    → (r ≡ ok tt) × (next ≡ ok y)
>>-eq-ok (ok tt) next made = (refl, made)
>>-eq-ok (err raised) next made = cc

pub >>=-total {ℓ κ μ} :
    {E : Type ℓ} {A : Type κ} {B : Type μ} (r : Result E A) (next : A → Result E B) (x : A)
    → r ≡ ok x
    → (y : B) × (next x ≡ ok y)
    → (y : B) × ((r >>= next) ≡ ok y)
>>=-total (ok z) next x h (y, made) = (y, cc)
>>=-total (err raised) next x h made = cc

-- A sequence of checks that all pass.
pub >>-ok {ℓ κ} :
    {E : Type ℓ} {B : Type κ} (r : Result E (Unit {0})) (next : Result E B) {y : B}
    → r ≡ ok tt
    → next ≡ ok y
    → (r >> next) ≡ ok y
>>-ok (ok tt) next h k = k
>>-ok (err raised) next h k = cc

pub raise_if-false {ℓ} : {E : Type ℓ} (b : Bool) (e : E) → b ≡ false → raise_if b e ≡ ok tt
raise_if-false b e h = ap (λ c. raise_if c e) h
