-- ===== src/Base/Results.antt =====
-- The result of code that can fail (`None`, or an `anyhow` error) or panic.
use mathlib.Core.Path.{◌≡◌, refl}
use mathlib.Core.Logic.{◌⊎◌, inl, inr}
use mathlib.Core.Bool.{Bool, true, false}
use mathlib.Core.Option.{Option, none, some}
use stm32_usbfloppy_tracer.Base.Tests.{if◌then◌else◌}

pub data Outcome {ℓ} (A : Type ℓ) : Type ℓ where
  done : A → Outcome A
  fail : Outcome A
  panic : Outcome A

infixl 5 ◌>>=◌
abbrev pub ◌>>=◌ {ℓ κ} : {A : Type ℓ} {B : Type κ} → Outcome A → (A → Outcome B) → Outcome B
done a >>= f = f a
fail >>= f = fail
panic >>= f = panic

-- `context(…)?`, and a look-up that is an error out of bounds.
abbrev pub expect_some {ℓ} : {A : Type ℓ} → Option A → Outcome A
expect_some none = fail
expect_some (some a) = done a

pub Outcome-cases {ℓ} :
    {A : Type ℓ} (o : Outcome A) → ((a : A) × (o ≡ done a)) ⊎ ((o ≡ fail) ⊎ (o ≡ panic))
Outcome-cases (done a) = inl (a, refl)
Outcome-cases fail = inr (inl refl)
Outcome-cases panic = inr (inr refl)

-- The code returned, with a value or an error.
abbrev pub NoPanic {ℓ} : {A : Type ℓ} → Outcome A → Type 0
NoPanic (done a) = Unit
NoPanic fail = Unit
NoPanic panic = ⊥

pub NoPanic-then {ℓ κ} :
    {A : Type ℓ} {B : Type κ} (o : Outcome A) (f : A → Outcome B)
    → NoPanic o
    → ((a : A) → NoPanic (f a))
    → NoPanic (o >>= f)
NoPanic-then (done a) f h k = k a
NoPanic-then fail f h k = tt
NoPanic-then panic f h k = h

pub NoPanic-expect_some {ℓ} : {A : Type ℓ} (o : Option A) → NoPanic (expect_some o)
NoPanic-expect_some none = tt
NoPanic-expect_some (some a) = tt

pub NoPanic-if {ℓ} :
    {A : Type ℓ} (b : Bool) (o q : Outcome A) → NoPanic o → NoPanic q → NoPanic (if b then o else q)
NoPanic-if true o q h k = h
NoPanic-if false o q h k = k
