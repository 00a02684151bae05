-- ===== src/Measure/Rollout/Triples.antt =====
-- What a method leaves on each branch: rules for its steps, of which each starts where the one before
-- it ends.
use qorl.Prelude.{ℕ, String, ◌≡◌, refl, Bool, true, false, nat_eq, string_eq, Result, ok, err}
use qorl.Measure.Planner.{Failure}
use qorl.Measure.Validation.{Evaluator}
use qorl.Measure.Rollout.{
  Rollout, RolloutError, Machine, Run, after, require, check_cancelled, execute, of_evaluator,
}
use qorl.Measure.Rollout.Attempts.{either}
use qorl.Measure.Rollout.Steps.{Quiet, check_cancelled-Quiet, execute-Quiet}

-- Where a method returns, its result and state satisfy `Good`; where it raises, its state `Bad`.
abbrev pub Ends :
    {A : Type 0}
    → (Rollout → Type 0)
    → (A → Rollout → Type 0)
    → Result RolloutError A × Rollout
    → Type 0
Ends Bad Good (ok a, s) = Good a s
Ends Bad Good (err e, s) = Bad s

pub after-Ends :
    {A B : Type 0} (Bad : Rollout → Type 0) (Good : A → Rollout → Type 0)
    (Last : B → Rollout → Type 0) (r : Result RolloutError A × Rollout) (next : A → Run B)
    → Ends Bad Good r
    → ((a : A) (s : Rollout) → Good a s → Ends Bad Last (next a s))
    → Ends Bad Last (after r next)
after-Ends Bad Good Last (ok a, s) next h later = later a s h
after-Ends Bad Good Last (err e, s) next h later = h

pub weaken-Ends :
    {A : Type 0} (Bad Worse : Rollout → Type 0) (Good Weak : A → Rollout → Type 0)
    (r : Result RolloutError A × Rollout)
    → ((s : Rollout) → Bad s → Worse s)
    → ((a : A) (s : Rollout) → Good a s → Weak a s)
    → Ends Bad Good r
    → Ends Worse Weak r
weaken-Ends Bad Worse Good Weak (ok a, s) bad good h = good a s h
weaken-Ends Bad Worse Good Weak (err e, s) bad good h = bad s h

pub either-Ends :
    {A : Type 0} (Bad : Rollout → Type 0) (Good : A → Rollout → Type 0) (b : Bool)
    (first second : Run A) (s : Rollout)
    → (b ≡ true → Ends Bad Good (first s))
    → (b ≡ false → Ends Bad Good (second s))
    → Ends Bad Good (either b first second s)
either-Ends Bad Good true first second s h k = h refl
either-Ends Bad Good false first second s h k = k refl

pub require-Ends :
    (Bad Good : Rollout → Type 0) (b : Bool) (e : RolloutError) (s : Rollout)
    → (b ≡ true → Good s)
    → Bad s
    → Ends Bad (λ _. Good) (require b e s)
require-Ends Bad Good true e s h k = h refl
require-Ends Bad Good false e s h k = k

-- A result that was computed without the state.
pub lift-Ends :
    {A : Type 0} (P : Rollout → Type 0) (r : Result RolloutError A) (s : Rollout)
    → P s
    → Ends P (λ (a : A) t. P t) (r, s)
lift-Ends P (ok a) s h = h
lift-Ends P (err e) s h = h

pub of_evaluator-Ends :
    {A : Type 0} (P : Rollout → Type 0) (s : Rollout) (o : Result Failure A × Evaluator)
    → P (record s { evaluator = o.1 })
    → Ends P (λ (a : A) t. P t) (of_evaluator s o)
of_evaluator-Ends P s (ok a, e) h = h
of_evaluator-Ends P s (err f, e) h = h

-- Whether neither the worker nor the cancel event can spoil a property.
abbrev pub Still : (Rollout → Type 0) → Type 0
Still P = (s s' : Rollout) → Quiet s s' → P s → P s'

pub check_cancelled-Ends :
    (m : Machine) (P : Rollout → Type 0) (s : Rollout)
    → Still P
    → P s
    → Ends P (λ _. P) (check_cancelled m s)
check_cancelled-Ends m P s still h =
    let r = check_cancelled m s in
    let (a, t) = r in
    let kept = still s t (check_cancelled-Quiet m a s t refl) h in lift-Ends P a t kept

pub execute-Ends :
    (m : Machine) (P : Rollout → Type 0) (timeout_ms : ℕ) (hint : String) (s : Rollout)
    → Still P
    → P s
    → Ends P (λ _. P) (execute m timeout_ms hint s)
unfolding execute
execute-Ends m P timeout_ms hint s still h =
    let (a, t) = execute m timeout_ms hint s in
    let (quiet, _) = execute-Quiet m timeout_ms hint _ s t refl in still s t quiet h

-- The cancel event is read, and the method goes on.
pub check_cancelled-then :
    {B : Type 0} (m : Machine) (P Bad : Rollout → Type 0) (Last : B → Rollout → Type 0)
    (s : Rollout) (next : Unit {0} → Run B)
    → Still P
    → ((t : Rollout) → P t → Bad t)
    → P s
    → ((t : Rollout) → P t → Ends Bad Last (next tt t))
    → Ends Bad Last (after (check_cancelled m s) next)
check_cancelled-then m P Bad Last s next still bad h later =
    after-Ends Bad (λ _. P) Last (check_cancelled m s) next
      (weaken-Ends P Bad (λ _. P) (λ _. P) (check_cancelled m s) bad (λ _ t k. k)
        (check_cancelled-Ends m P s still h))
      (λ _ t k. later t k)

-- A result is raised or used.
pub lift-then :
    {A B : Type 0} (Bad : Rollout → Type 0) (Last : B → Rollout → Type 0)
    (r : Result RolloutError A) (s : Rollout) (next : A → Run B)
    → Bad s
    → ((a : A) → Ends Bad Last (next a s))
    → Ends Bad Last (after (r, s) next)
lift-then Bad Last (ok a) s next bad later = later a
lift-then Bad Last (err e) s next bad later = bad
