-- ===== src/Base/Fault.antt =====
-- What C leaves undefined, as values. A model function that can reach such a point returns a
-- `Result`.
use mathlib.Core.Path.{◌≡◌, refl}
use mathlib.Core.Option.{Option, none, some}

pub data Fault : Type 0 where
  -- a NULL pointer is dereferenced
  null_pointer : Fault
  -- a local pointer is used that no branch has set
  uninitialised : Fault
  -- an access past the end of an array
  out_of_bounds : Fault
  -- the bound on the rounds of a loop of the model is used up
  out_of_fuel : Fault
  -- g_assert, of a condition that does not hold
  assertion : Fault
  -- a slice is freed that is not allocated
  not_allocated : Fault

pub data Result {ℓ} (A : Type ℓ) : Type ℓ where
  ok : A → Result A
  fault : Fault → Result A

infixl 5 ◌>>=◌
abbrev pub ◌>>=◌ {ℓ κ} : {A : Type ℓ} {B : Type κ} → Result A → (A → Result B) → Result B
ok a >>= f = f a
fault e >>= f = fault e

-- A pointer that may be NULL, at its dereference.
abbrev pub deref {ℓ} : {A : Type ℓ} → Option A → Result A
deref none = fault null_pointer
deref (some a) = ok a

pub ok-injective {ℓ} : {A : Type ℓ} {a b : A} → ok a ≡ ok b → a ≡ b
ok-injective e = cc

-- Where a step and what follows it return, the step has returned some value, and what follows it
-- returns from there.
pub bind-returns {ℓ κ} :
    {Got : Type ℓ} {Out : Type κ} (step : Result Got) (rest : Got → Result Out) {out : Out}
    → (step >>= rest) ≡ ok out
    → (got : Got) × (step ≡ ok got) × (rest got ≡ ok out)
bind-returns (fault why) rest returned = cc
bind-returns (ok got) rest returned = (got, refl, returned)
