-- ===== src/Base/Fallible.antt =====
-- Code that can stop the simulator: a result, or the fault that ended the run.
use mathlib.Core.Path.{◌≡◌, refl}
use mathlib.Core.Bool.{Bool}
use fused_checkmate.Base.Tests.{if◌then◌else◌}
use mathlib.Core.Option.{Option, none, some}

-- `assertion`: an `assert` or `sc_assert` fails. `fatal`: `SC_REPORT_FATAL` or `exit(1)`.
pub data Fault : Type 0 where
  assertion fatal : Fault

pub data Result {ℓ} (A : Type ℓ) : Type ℓ where
  err : Fault → Result A
  ok : A → Result A

-- An assertion, or another test that stops the run.
abbrev pub guard : Bool → Fault → Result (Unit {0})
guard holds fault = if holds then ok tt else err fault

abbrev pub or_fault {ℓ} : {A : Type ℓ} → Option A → Fault → Result A
or_fault none e = err e
or_fault (some a) e = ok a

infixl 5 ◌>>=◌ ◌>>◌
abbrev pub ◌>>=◌ {ℓ κ} :
    {A : Type ℓ} {B : Type κ} (first : Result A) (next : A → Result B) → Result B
err fault >>= next = err fault
ok x >>= next = next x

abbrev pub ◌>>◌ {κ} : {B : Type κ} (first : Result (Unit {0})) (next : Result B) → Result B
first >> next = first >>= λ (_ : Unit {0}). next

-- What came before a success.
pub >>=-eq-ok {ℓ κ} :
    {A : Type ℓ} {B : Type κ} (first : Result A) (next : A → Result B) {y : B}
    → (first >>= next) ≡ ok y
    → (x : A) × (first ≡ ok x) × (next x ≡ ok y)
>>=-eq-ok (err fault) next h = cc
>>=-eq-ok (ok x) next h = (x, refl, h)
