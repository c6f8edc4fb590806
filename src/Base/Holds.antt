-- ===== src/Base/Holds.antt =====
-- What holds of each result that is not a fault, one rule for each way to build a `do` block.
use mathlib.Core.Path.{◌≡◌, subst}
use mathlib.Core.Bool.{Bool, true, false}
use mathlib.Core.Option.{Option, none, some}
use sptsmuxer.Base.Test.{if◌then◌else◌}
use sptsmuxer.Base.Fault.{Fault, Result, ok, fault, ◌>>=◌, deref}

abbrev HoldsAt {ℓ κ} : {A : Type ℓ} → (A → Type κ) → Result A → Type κ
HoldsAt P (ok a) = P a
HoldsAt P (fault e) = Unit

pub record Holds {ℓ κ} {A : Type ℓ} (P : A → Type κ) (r : Result A) : Type κ where
  pub at : HoldsAt P r

module _ {ℓ κ} {A : Type ℓ} {P : A → Type κ} where
  pub Holds-ok : {a : A} → P a → Holds P (ok a)
  Holds-ok p = record { at = p }

  pub Holds-fault : (e : Fault) → Holds P (fault e)
  Holds-fault e = record { at = tt }

  pub Holds-if : (b : Bool) {x y : Result A} → Holds P x → Holds P y → Holds P (if b then x else y)
  Holds-if true hx hy = hx
  Holds-if false hx hy = hy

  pub Holds-bind {μ ν} :
      {B : Type μ} {Q : B → Type ν} {m : Result A} {f : A → Result B}
      → Holds P m
      → ((a : A) → P a → Holds Q (f a))
      → Holds Q (m >>= f)
  Holds-bind {m = ok a} hm hf = hf a hm.at
  Holds-bind {m = fault e} hm hf = record { at = tt }

pub Holds-result {ℓ κ} :
    {A : Type ℓ} {P : A → Type κ} {m : Result A} {a : A} → Holds P m → m ≡ ok a → P a
Holds-result {P} h e = Holds.at (subst (Holds P) e h)

-- A predicate of what an Option holds.
abbrev pub AnyOf {ℓ κ} : {A : Type ℓ} → (A → Type κ) → Option A → Type κ
AnyOf P none = Unit
AnyOf P (some a) = P a

pub Holds-deref {ℓ κ} : {A : Type ℓ} (P : A → Type κ) (o : Option A) → AnyOf P o → Holds P (deref o)
Holds-deref P none h = record { at = tt }
Holds-deref P (some a) h = record { at = h }

pub Holds-any {ℓ} : {A : Type ℓ} (m : Result A) → Holds (λ _. Unit {0}) m
Holds-any (ok a) = record { at = tt }
Holds-any (fault e) = record { at = tt }
