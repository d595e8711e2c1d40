-- ===== src/Base/Equality.antt =====
-- Python's `==` on the keys and values that the program compares, as an interface.
use Prim.Native.Nat.{ℕ}
use Prim.Native.String.{String}
use mathlib.Core.Path.{◌≡◌, refl}
use mathlib.Core.Logic.{◌↔◌, ◌≢◌}
use mathlib.Core.Bool.{Bool, true, false, ◌&&◌}
use native.Mathlib.Omega.{arith}
use text.Mathlib.Text.{◌==◌ as str_eq}
use text.Mathlib.TextEquality.{eq_iff}
use azure_functions_langgrap.Base.Tests.{nat_beq}

pub record Eq {ℓ} (A : Type ℓ) : Type ℓ where
  pub equals : A → A → Bool
  -- The test decides whether the two are the same.
  pub equals_iff : (x y : A) → (equals x y ≡ true) ↔ (x ≡ y)

infix 50 ◌==◌
abbrev pub ◌==◌ {ℓ} : {A : Type ℓ} ⦃test : Eq A⦄ → A → A → Bool
◌==◌ ⦃test⦄ = test.equals

module _ {ℓ} {A : Type ℓ} ⦃e : Eq A⦄ where
  pub ==_iff : (a b : A) → (a == b ≡ true) ↔ (a ≡ b)
  ==_iff = e.equals_iff

  pub ==-refl : (a : A) → a == a ≡ true
  ==-refl a = (e.equals_iff a a).1 refl

  pub ==-false_of_ne : (a b : A) → a ≢ b → a == b ≡ false
  ==-false_of_ne a b h = ground (arith, e.equals_iff a b)

module _ {ℓ} {A : Type ℓ} ⦃e : Eq A⦄ where
  pub ==-ne : (a b : A) → a == b ≡ false → a ≢ b
  ==-ne a b h same = ground (arith, e.equals_iff a b)

pub nat_beq_iff : (a b : ℕ) → (nat_beq a b ≡ true) ↔ (a ≡ b)
nat_beq_iff a b = (λ h. ground arith, λ h. ground arith)

instance abbrev pub nat_eq : Eq ℕ
nat_eq = record { equals = nat_beq; equals_iff = nat_beq_iff }

instance abbrev pub string_eq : Eq String
string_eq = record { equals = str_eq; equals_iff = eq_iff }

abbrev pub pair_beq : String × String → String × String → Bool
pair_beq (a, b) (c, d) = str_eq a c && str_eq b d

pub pair_beq_iff : (p q : String × String) → (pair_beq p q ≡ true) ↔ (p ≡ q)
pair_beq_iff (a, b) (c, d) =
    (λ h. ground (arith, eq_iff a c, eq_iff b d), λ h. ground (arith, eq_iff a c, eq_iff b d))

-- A key of the locks: `(graph_name, thread_id)`.
instance abbrev pub pair_eq : Eq (String × String)
pair_eq = record { equals = pair_beq; equals_iff = pair_beq_iff }
