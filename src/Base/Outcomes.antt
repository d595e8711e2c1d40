-- ===== src/Base/Outcomes.antt =====
-- A call that returns a value or raises an exception.
use mathlib.Core.Path.{◌≡◌, refl, ap}
use mathlib.Core.Logic.{◌⊎◌, inl, inr}
use native.Mathlib.Omega.{arith}

pub data Outcome {ℓ κ} (E : Type ℓ) (A : Type κ) : Type (ℓ ⊔ κ) where
  returns : A → Outcome E A
  raises : E → Outcome E A

infixl 5 ◌>>=◌ ◌>>◌
abbrev pub ◌>>=◌ {ℓ κ μ} :
    {E : Type ℓ} {A : Type κ} {B : Type μ} → Outcome E A → (A → Outcome E B) → Outcome E B
returns a >>= f = f a
raises x >>= f = raises x

abbrev pub ◌>>◌ {ℓ κ μ} :
    {E : Type ℓ} {A : Type κ} {B : Type μ} → Outcome E A → Outcome E B → Outcome E B
m >> n = m >>= λ _. n

module _ {ℓ κ μ} {E : Type ℓ} {A : Type κ} {B : Type μ} where
  -- A chain of calls that returns: each of its calls returned.
  pub >>=-returns :
      (m : Outcome E A) (f : A → Outcome E B) (b : B)
      → m >>= f ≡ returns b
      → (a : A) × (m ≡ returns a) × (f a ≡ returns b)
  >>=-returns (returns a) f b h = (a, refl, h)
  >>=-returns (raises x) f b h = absurd (ground arith)

value_or {ℓ κ} : {E : Type ℓ} {A : Type κ} → A → Outcome E A → A
value_or default (returns a) = a
value_or default (raises x) = default

pub returns-injective {ℓ κ} :
    {E : Type ℓ} {A : Type κ} (a b : A) → ◌≡◌ {A = Outcome E A} (returns a) (returns b) → a ≡ b
unfolding value_or
returns-injective a b h = ap (value_or a) h

pub Outcome-cases {ℓ κ} :
    {E : Type ℓ} {A : Type κ} (o : Outcome E A)
    → ((a : A) × (o ≡ returns a)) ⊎ ((x : E) × (o ≡ raises x))
Outcome-cases (returns a) = inl (a, refl)
Outcome-cases (raises x) = inr (x, refl)
