-- ===== src/Base/Text/Slices.antt =====
-- Python's slices, prefixes and sizes of a `str`, whose characters are code points.
use Prim.Native.Char.{code}
use Prim.Native.String.{String, [], ◌∷◌}
use Prim.Native.Nat.{ℕ, zero, suc, ◌+◌, ◌≤◌}
use mathlib.Core.Path.{◌≡◌, refl, ap, ◌∙◌}
use mathlib.Core.Bool.{Bool, true, false, ◌&&◌}
use mathlib.Core.List.{List}
use mathlib.Core.Logic.{inl, inr, ◌≢◌}
use native.Mathlib.Omega.{arith}
use azure_functions_langgrap.Base.Lists.{length}
use azure_functions_langgrap.Base.Tests.{if◌then◌else◌, leb, ltb, nat_beq, Bool-cases}

-- `s + t`
infixr 60 ◌+++◌
abbrev pub ◌+++◌ : String → String → String
[] +++ t = t
(c ∷ s) +++ t = c ∷ (s +++ t)

-- `len(text)`
abbrev pub count : String → ℕ
count [] = 0
count (c ∷ text) = suc (count text)

-- `text[:n]` and `text[n:]` for n ≥ 0.
abbrev pub take : ℕ → String → String
take zero text = []
take (suc n) [] = []
take (suc n) (c ∷ text) = c ∷ take n text

abbrev pub drop : ℕ → String → String
drop zero text = text
drop (suc n) [] = []
drop (suc n) (c ∷ text) = drop n text

-- `text.startswith(prefix)`
abbrev pub starts_with : String → String → Bool
starts_with text [] = true
starts_with [] (p ∷ prefix) = false
starts_with (c ∷ text) (p ∷ prefix) = nat_beq (code c) (code p) && starts_with text prefix

-- Two texts differ at a place that both have.
abbrev pub diverge : String → String → Bool
diverge [] t = false
diverge (c ∷ s) [] = false
diverge (c ∷ s) (d ∷ t) = if nat_beq (code c) (code d) then diverge s t else true

-- `len(text.encode("utf-16-le"))`
unfoldable pub utf16_size : String → ℕ
utf16_size [] = 0
utf16_size (c ∷ text) = (if ltb (code c) 65536 then 2 else 4) + utf16_size text

-- `[text[i : i + width] for i in range(0, len(text), width)]`; the fuel is the length.
slices_of : ℕ → ℕ → String → List String
slices_of zero width text = List.[]
slices_of (suc fuel) width [] = List.[]
slices_of (suc fuel) width (c ∷ text) =
    List.◌∷◌ (take width (c ∷ text)) (slices_of fuel width (drop width (c ∷ text)))

unfoldable pub slices : ℕ → String → List String
unfolding slices_of
slices width text = slices_of (count text) width text

-- `"".join(texts)`
abbrev pub concat : List String → String
concat List.[] = []
concat (List.◌∷◌ text texts) = text +++ concat texts

pub take-drop : (n : ℕ) (text : String) → take n text +++ drop n text ≡ text
take-drop zero text = refl
take-drop (suc n) [] = refl
take-drop (suc n) (c ∷ text) = ap (λ (t : String). c ∷ t) (take-drop n text)

count-drop : (n : ℕ) (text : String) → count (drop n text) ≤ count text
count-drop zero text = omega arith
count-drop (suc n) [] = omega arith
count-drop (suc n) (c ∷ text) = omega (arith, count-drop n text)

concat-slices_of :
    (fuel width : ℕ) (text : String)
    → 1 ≤ width
    → count text ≤ fuel
    → concat (slices_of fuel width text) ≡ text
unfolding slices_of
concat-slices_of zero width [] positive enough = refl
concat-slices_of zero width (c ∷ text) positive enough = absurd (omega arith)
concat-slices_of (suc fuel) width [] positive enough = refl
concat-slices_of (suc fuel) zero (c ∷ text) positive enough = absurd (omega arith)
concat-slices_of (suc fuel) (suc w) (c ∷ text) positive enough =
    ap (λ (t : String). c ∷ (take w text +++ t))
      (concat-slices_of fuel (suc w) (drop w text) positive (omega (arith, count-drop w text)))
    ∙ ap (λ (t : String). c ∷ t) (take-drop w text)

-- The slices of a text are all of it, in order.
pub concat-slices : (width : ℕ) (text : String) → 1 ≤ width → concat (slices width text) ≡ text
unfolding slices
concat-slices width text positive = concat-slices_of (count text) width text positive (omega arith)

-- What stands behind a place where two texts differ does not matter.
pub starts_with-diverge :
    (s t x y : String) → diverge s t ≡ true → starts_with (s +++ x) (t +++ y) ≡ false
starts_with-diverge [] t x y apart = absurd (ground arith)
starts_with-diverge (c ∷ s) [] x y apart = absurd (ground arith)
starts_with-diverge (c ∷ s) (d ∷ t) x y apart = elim (Bool-cases (nat_beq (code c) (code d))) [
  | inl same ↦ rw same (starts_with-diverge s t x y (ground (arith, same, apart)))
  | inr other ↦ rw other refl
]

pub starts_with-append : (s x : String) → starts_with (s +++ x) s ≡ true
starts_with-append [] x = refl
starts_with-append (c ∷ s) x = rw (starts_with-append s x) ground arith

pub starts_with-cancel : (p s t : String) → starts_with (p +++ s) (p +++ t) ≡ starts_with s t
starts_with-cancel [] s t = refl
starts_with-cancel (c ∷ p) s t = rw (starts_with-cancel p s t) ground arith

pub append_nil : (s : String) → s +++ [] ≡ s
append_nil [] = refl
append_nil (c ∷ s) = ap (λ (t : String). c ∷ t) (append_nil s)

pub append-cancel : (p s t : String) → p +++ s ≡ p +++ t → s ≡ t
append-cancel [] s t same = same
append-cancel (c ∷ p) s t same = append-cancel p s t (ground arith)

pub diverge-ne : (s t x y : String) → diverge s t ≡ true → s +++ x ≢ t +++ y
diverge-ne [] t x y apart same = absurd (ground arith)
diverge-ne (c ∷ s) [] x y apart same = absurd (ground arith)
diverge-ne (c ∷ s) (d ∷ t) x y apart same = elim (Bool-cases (nat_beq (code c) (code d))) [
  | inl heads ↦ diverge-ne s t x y (ground (arith, heads, apart)) (ground arith)
  | inr other ↦ absurd (ground arith)
]

-- A text of more than `limit` bytes has a slice.
pub length-slices_pos :
    (limit width : ℕ) (text : String)
    → leb (utf16_size text) limit ≡ false
    → 1 ≤ length (slices width text)
unfolding slices slices_of utf16_size
length-slices_pos limit width [] large = ground arith
length-slices_pos limit width (c ∷ text) large = omega arith
