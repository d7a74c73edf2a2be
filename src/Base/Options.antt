-- ===== src/Base/Options.antt =====
-- Chains of fallible steps: the bind of `Option`, and a result with an error.
use mathlib.Core.Option.{Option, none, some}
use native.Mathlib.Omega.{arith}
use mathlib.Core.Path.{◌≡◌, refl, ap}

infixl 5 ◌>>=◌
abbrev pub ◌>>=◌ {ℓ κ} : {A : Type ℓ} {B : Type κ} → Option A → (A → Option B) → Option B
none >>= f = none
some a >>= f = f a

pub data Result {ℓ κ} (E : Type ℓ) (A : Type κ) : Type (ℓ ⊔ κ) where
  ok : A → Result E A
  err : E → Result E A

-- A step that succeeds goes on with its value.
pub >>=-some {ℓ κ} :
    {A : Type ℓ} {B : Type κ} {m : Option A} {a : A} (f : A → Option B)
    → m ≡ some a
    → (m >>= f) ≡ f a
>>=-some f h = ap (λ o. o >>= f) h

-- A chain that succeeds has a first step that does.
pub >>=-inv {ℓ κ} :
    {A : Type ℓ} {B : Type κ} (m : Option A) (f : A → Option B) {b : B}
    → (m >>= f) ≡ some b
    → (a : A) × (m ≡ some a) × (f a ≡ some b)
>>=-inv none f e = absurd (ground arith)
>>=-inv (some a) f e = (a, refl, e)

pub some_inj {ℓ} : {A : Type ℓ} {a b : A} → ◌≡◌ {A = Option A} (some a) (some b) → a ≡ b
some_inj {A} {a} e = ap (λ (o : Option A). elim o [ some x ↦ x | none ↦ a ]) e
