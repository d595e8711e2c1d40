-- ===== src/Base/Lists.antt =====
-- Lists measured by native numbers, under the library's names, and predicates on lists.
use Prim.Native.Nat.{ℕ, zero, suc, ◌+◌, ◌≤◌}
use mathlib.Core.Path.{◌≡◌, refl}
use mathlib.Core.Logic.{◌⊎◌, inl, inr}
use mathlib.Core.Bool.{Bool, true, false, ◌&&◌}
use mathlib.Core.Option.{Option, none, some}
use mathlib.Core.List.{List, [], ◌∷◌, ◌++◌}
use native.Mathlib.Omega.{arith}
use azure_functions_langgrap.Base.Tests.{if◌then◌else◌, to_nat}

module _ {ℓ} {A : Type ℓ} where
  abbrev pub length : List A → ℕ
  length [] = 0
  length (x ∷ xs) = suc (length xs)

  abbrev pub get_elem? : List A → ℕ → Option A
  get_elem? [] i = none
  get_elem? (x ∷ xs) zero = some x
  get_elem? (x ∷ xs) (suc i) = get_elem? xs i

  -- A write out of bounds changes nothing.
  abbrev pub set : List A → ℕ → A → List A
  set [] i v = []
  set (x ∷ xs) zero v = v ∷ xs
  set (x ∷ xs) (suc i) v = x ∷ set xs i v

  -- `xs[n:]` and `xs[:n]` for n ≥ 0.
  abbrev pub drop : List A → ℕ → List A
  drop xs zero = xs
  drop [] (suc n) = []
  drop (x ∷ xs) (suc n) = drop xs n

  abbrev pub take : List A → ℕ → List A
  take xs zero = []
  take [] (suc n) = []
  take (x ∷ xs) (suc n) = x ∷ take xs n

  -- `[x for x in xs if p(x)]`
  abbrev pub filter : (A → Bool) → List A → List A
  filter p [] = []
  filter p (x ∷ xs) = let rest = filter p xs in if p x then x ∷ rest else rest

  -- `all(p(x) for x in xs)`
  abbrev pub all : (A → Bool) → List A → Bool
  all p [] = true
  all p (x ∷ xs) = p x && all p xs

  -- How many elements pass the test.
  abbrev pub count_if : (A → Bool) → List A → ℕ
  count_if p [] = 0
  count_if p (x ∷ xs) = to_nat (p x) + count_if p xs

module _ {ℓ} {A : Type ℓ} where
  pub length-append : (xs ys : List A) → length (xs ++ ys) ≡ length xs + length ys
  length-append [] ys = omega arith
  length-append (x ∷ xs) ys = omega (arith, length-append xs ys)

  -- A write at an index that holds `old` moves one element from its test to that of `v`.
  pub count_if-set :
      (p : A → Bool) (xs : List A) (i : ℕ) (old v : A)
      → get_elem? xs i ≡ some old
      → count_if p (set xs i v) + to_nat (p old) ≡ count_if p xs + to_nat (p v)
  count_if-set p [] i old v h = ground arith
  count_if-set p (x ∷ xs) zero old v h = ground arith
  count_if-set p (x ∷ xs) (suc i) old v h = omega (arith, count_if-set p xs i old v h)

  pub count_if_pos :
      (p : A → Bool) (xs : List A) (i : ℕ) (a : A)
      → get_elem? xs i ≡ some a
      → p a ≡ true
      → 1 ≤ count_if p xs
  count_if_pos p [] i a h t = ground arith
  count_if_pos p (x ∷ xs) zero a h t = ground arith
  count_if_pos p (x ∷ xs) (suc i) a h t = omega (arith, count_if_pos p xs i a h t)

  -- What a list holds after a write is the new value or was there.
  pub get_elem?-set_cases :
      (xs : List A) (i j : ℕ) (v a : A)
      → get_elem? (set xs i v) j ≡ some a
      → (a ≡ v) ⊎ (get_elem? xs j ≡ some a)
  get_elem?-set_cases [] i j v a h = inr h
  get_elem?-set_cases (x ∷ xs) zero zero v a h = inl (ground arith)
  get_elem?-set_cases (x ∷ xs) zero (suc j) v a h = inr h
  get_elem?-set_cases (x ∷ xs) (suc i) zero v a h = inr h
  get_elem?-set_cases (x ∷ xs) (suc i) (suc j) v a h = get_elem?-set_cases xs i j v a h

  pub count_if_mono :
      (p q : A → Bool) (xs : List A)
      → ((a : A) → to_nat (p a) ≤ to_nat (q a))
      → count_if p xs ≤ count_if q xs
  count_if_mono p q [] h = omega arith
  count_if_mono p q (x ∷ xs) h = omega (arith, h x, count_if_mono p q xs h)

  -- Two places that pass a test count twice.
  pub count_if_two :
      (p : A → Bool) (xs : List A) (i j : ℕ) (a b : A)
      → get_elem? xs i ≡ some a
      → get_elem? xs j ≡ some b
      → p a ≡ true
      → p b ≡ true
      → (i ≡ j) ⊎ (2 ≤ count_if p xs)
  count_if_two p [] i j a b h k s t = ground arith
  count_if_two p (x ∷ xs) zero zero a b h k s t = inl refl
  count_if_two p (x ∷ xs) zero (suc j) a b h k s t = inr (ground (arith, count_if_pos p xs j b k t))
  count_if_two p (x ∷ xs) (suc i) zero a b h k s t = inr (ground (arith, count_if_pos p xs i a h s))
  count_if_two p (x ∷ xs) (suc i) (suc j) a b h k s t =
      ground (arith, count_if_two p xs i j a b h k s t)

  pub count_if_zero :
      (p : A → Bool) (xs : List A)
      → ((i : ℕ) (a : A) → get_elem? xs i ≡ some a → p a ≡ false)
      → count_if p xs ≡ 0
  count_if_zero p [] h = refl
  count_if_zero p (x ∷ xs) h =
      ground (arith, h 0 x refl, count_if_zero p xs (λ i a e. h (suc i) a e))
