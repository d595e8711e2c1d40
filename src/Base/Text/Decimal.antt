-- ===== src/Base/Text/Decimal.antt =====
-- `str(n)` of a natural number, with the digits that Python writes.
use Prim.Native.Nat.{ℕ, zero, suc, ◌+◌, ◌-◌, ◌*◌, ◌/◌, ◌%◌, ◌<◌}
use Prim.Native.Char.{Char, code}
use Prim.Native.String.{String, [], ◌∷◌}
use mathlib.Core.Path.{◌≡◌, refl, sym, ap, ◌∙◌}
use mathlib.Core.Logic.{inl, inr}
use mathlib.Core.Bool.{Bool, true, ◌&&◌}
use native.Mathlib.Omega.{arith}
use azure_functions_langgrap.Base.Tests.{ltb, leb, Bool-cases, ltb→lt, if◌then◌else◌}

-- `texts[n]`, or 0 out of range.
char_at : String → ℕ → Char
char_at [] n = "0"
char_at (c ∷ text) zero = c
char_at (c ∷ text) (suc n) = char_at text n

digit : ℕ → Char
unfolding char_at
digit n = char_at "0123456789" n

-- The digits of `n` before those that are written.
digits_before : ℕ → ℕ → String → String
unfolding digit
digits_before zero n written = written
digits_before (suc fuel) n written =
    let more = digits_before fuel (n / 10) (digit (n % 10) ∷ written) in
    if ltb n 10 then digit n ∷ written else more

unfoldable pub str : ℕ → String
unfolding digits_before
str n = digits_before (suc n) n []

-- The number that a text of digits continues.
number_from : ℕ → String → ℕ
number_from n [] = n
number_from n (c ∷ text) = number_from (n * 10 + (code c - 48)) text

digit-code : (n : ℕ) → n < 10 → code (digit n) - 48 ≡ n
unfolding digit
digit-code zero small = refl
digit-code (suc zero) small = refl
digit-code (suc (suc zero)) small = refl
digit-code (suc (suc (suc zero))) small = refl
digit-code (suc (suc (suc (suc zero)))) small = refl
digit-code (suc (suc (suc (suc (suc zero))))) small = refl
digit-code (suc (suc (suc (suc (suc (suc zero)))))) small = refl
digit-code (suc (suc (suc (suc (suc (suc (suc zero))))))) small = refl
digit-code (suc (suc (suc (suc (suc (suc (suc (suc zero)))))))) small = refl
digit-code (suc (suc (suc (suc (suc (suc (suc (suc (suc zero))))))))) small = refl
digit-code (suc (suc (suc (suc (suc (suc (suc (suc (suc (suc n)))))))))) small =
    absurd (omega arith)

number_from-digits_before :
    (fuel n : ℕ) (written : String)
    → n < fuel
    → number_from 0 (digits_before fuel n written) ≡ number_from n written
unfolding digits_before number_from
number_from-digits_before zero n written enough = absurd (omega arith)
number_from-digits_before (suc fuel) n written enough = elim (Bool-cases (ltb n 10)) [
  | inl small ↦
      rw small
        (ap (λ (m : ℕ). number_from m written) (omega (arith, digit-code n (ltb→lt n 10 small))))
  | inr large ↦ rw large (
      number_from-digits_before fuel (n / 10) (digit (n % 10) ∷ written) (ground arith)
      ∙ ap (λ (m : ℕ). number_from m written) (omega (arith, digit-code (n % 10) (omega arith))))
]

number_from-str : (n : ℕ) → number_from 0 (str n) ≡ n
unfolding str number_from
number_from-str n = number_from-digits_before (suc n) n [] (omega arith)

-- Different numbers are written differently.
pub str-injective : (m n : ℕ) → str m ≡ str n → m ≡ n
str-injective m n same = sym (number_from-str m) ∙ ap (number_from 0) same ∙ number_from-str n

-- Every character is a digit.
abbrev pub is_decimal : String → Bool
is_decimal [] = true
is_decimal (c ∷ text) = leb 48 (code c) && leb (code c) 57 && is_decimal text

digit-is_decimal : (n : ℕ) → leb 48 (code (digit n)) && leb (code (digit n)) 57 ≡ true
unfolding digit char_at
digit-is_decimal zero = refl
digit-is_decimal (suc zero) = refl
digit-is_decimal (suc (suc zero)) = refl
digit-is_decimal (suc (suc (suc zero))) = refl
digit-is_decimal (suc (suc (suc (suc zero)))) = refl
digit-is_decimal (suc (suc (suc (suc (suc zero))))) = refl
digit-is_decimal (suc (suc (suc (suc (suc (suc zero)))))) = refl
digit-is_decimal (suc (suc (suc (suc (suc (suc (suc zero))))))) = refl
digit-is_decimal (suc (suc (suc (suc (suc (suc (suc (suc zero)))))))) = refl
digit-is_decimal (suc (suc (suc (suc (suc (suc (suc (suc (suc zero))))))))) = refl
digit-is_decimal (suc (suc (suc (suc (suc (suc (suc (suc (suc (suc n)))))))))) = refl

digits_before-is_decimal :
    (fuel n : ℕ) (written : String)
    → is_decimal written ≡ true
    → is_decimal (digits_before fuel n written) ≡ true
unfolding digits_before
digits_before-is_decimal zero n written h = h
digits_before-is_decimal (suc fuel) n written h = elim (Bool-cases (ltb n 10)) [
  | inl small ↦ rw (small, digit-is_decimal n) h
  | inr large ↦ rw large (
      digits_before-is_decimal fuel (n / 10) (digit (n % 10) ∷ written)
        (rw (digit-is_decimal (n % 10)) h))
]

pub str-is_decimal : (n : ℕ) → is_decimal (str n) ≡ true
unfolding str
str-is_decimal n = digits_before-is_decimal (suc n) n [] refl
