-- ===== src/Base/Dict.antt =====
-- Python's `dict`: an association list in insertion order; assignment to a key that is there keeps
-- its place.
use mathlib.Core.Path.{◌≡◌, refl, ap}
use mathlib.Core.Bool.{Bool}
use mathlib.Core.Option.{Option, none, some}
use mathlib.Core.List.{List, [], ◌∷◌}
use native.Mathlib.Omega.{arith}
use azure_functions_langgrap.Base.Tests.{if◌then◌else◌, Bool-cases}
use azure_functions_langgrap.Base.Lists.{filter}
use mathlib.Core.Logic.{inl, inr}
use azure_functions_langgrap.Base.Equality.{Eq, ◌==◌, ==_iff, ==-refl}

abbrev pub Dict {ℓ κ} : Type ℓ → Type κ → Type (ℓ ⊔ κ)
Dict K V = List (K × V)

module _ {ℓ κ} {K : Type ℓ} {V : Type κ} ⦃e : Eq K⦄ where
  -- `d.get(key)`
  unfoldable pub lookup : K → Dict K V → Option V
  lookup key [] = none
  lookup key ((at, v) ∷ rest) = if at == key then some v else lookup key rest

  -- `d.pop(key, None)`; `{k: v for k, v in d.items() if k != key}` is the same dictionary.
  unfoldable pub remove : K → Dict K V → Dict K V
  remove key [] = []
  remove key ((at, v) ∷ rest) =
      let others = remove key rest in if at == key then others else (at, v) ∷ others

  -- `d[key] = value`
  unfoldable pub insert : K → V → Dict K V → Dict K V
  insert key value [] = (key, value) ∷ []
  insert key value ((at, v) ∷ rest) =
      if at == key then (at, value) ∷ rest else (at, v) ∷ insert key value rest

  pub lookup-insert :
      (key other : K) (value : V) (d : Dict K V)
      → lookup other (insert key value d) ≡ (if key == other then some value else lookup other d)
  unfolding lookup insert
  lookup-insert key other value [] = refl
  lookup-insert key other value ((at, v) ∷ rest) =
      ground (
        arith,
        lookup-insert key other value rest,
        ==_iff at key,
        ==_iff at other,
        ==_iff key other,
      )

  pub lookup-remove :
      (k j : K) (m : Dict K V) → lookup j (remove k m) ≡ (if k == j then none else lookup j m)
  unfolding lookup remove
  lookup-remove k j [] = ground arith
  lookup-remove k j ((i, w) ∷ m) =
      ground (arith, ==_iff k j, ==_iff i k, ==_iff i j, lookup-remove k j m)

  pub lookup-insert_self : (k : K) (v : V) (m : Dict K V) → lookup k (insert k v m) ≡ some v
  lookup-insert_self k v m = simp (lookup-insert, ==-refl)

  pub lookup-remove_self : (k : K) (m : Dict K V) → lookup k (remove k m) ≡ none
  lookup-remove_self k m = simp (lookup-remove, ==-refl)

  -- A comprehension that keeps some of the keys.
  pub lookup-filter_key :
      (p : K → Bool) (k : K) (m : Dict K V)
      → lookup k (filter (λ entry. p entry.0) m) ≡ (if p k then lookup k m else none)
  unfolding lookup
  lookup-filter_key p k [] = ground arith
  lookup-filter_key p k ((j, w) ∷ m) = elim (Bool-cases (j == k)) [
    | inl same ↦ ground (arith, same, lookup-filter_key p k m, ap p ((==_iff j k).0 same))
    | inr other ↦ ground (arith, other, lookup-filter_key p k m)
  ]

pub ruleset dict_laws = (lookup-insert, lookup-remove, ==-refl)

-- A dictionary that was built by assignments: no key stands twice.
module _ {ℓ κ} {K : Type ℓ} {V : Type κ} ⦃e : Eq K⦄ where
  abbrev pub Unique : Dict K V → Type κ
  Unique [] = Unit
  Unique ((k, v) ∷ m) = (lookup k m ≡ none) × Unique m

  pub Unique-insert : (k : K) (v : V) (m : Dict K V) → Unique m → Unique (insert k v m)
  unfolding insert lookup
  Unique-insert k v [] u = (refl, tt)
  Unique-insert k v ((j, w) ∷ m) u = elim (Bool-cases (j == k)) [
    | inl same ↦ rw same u
    | inr other ↦ rw other (
      ground (arith, other, lookup-insert k j v m, u.0, ==_iff j k, ==_iff k j),
      Unique-insert k v m u.1,
    )
  ]

  pub Unique-remove : (k : K) (m : Dict K V) → Unique m → Unique (remove k m)
  unfolding remove lookup
  Unique-remove k [] u = tt
  Unique-remove k ((j, w) ∷ m) u = elim (Bool-cases (j == k)) [
    | inl same ↦ rw same (Unique-remove k m u.1)
    | inr other ↦ rw other (ground (arith, lookup-remove k j m, u.0), Unique-remove k m u.1)
  ]

  -- A filter on values keeps the entries that pass.
  pub lookup-filter :
      (p : V → Bool) (k : K) (m : Dict K V)
      → Unique m
      → lookup k (filter (λ entry. p entry.1) m)
        ≡ (elim (lookup k m) [ none ↦ none | some v ↦ if p v then some v else none ])
  unfolding lookup
  lookup-filter p k [] u = refl
  lookup-filter p k ((j, w) ∷ m) u = ground (arith, lookup-filter p k m u.1, u.0, ==_iff j k)

  pub Unique-filter :
      (p : V → Bool) (m : Dict K V) → Unique m → Unique (filter (λ entry. p entry.1) m)
  unfolding lookup
  Unique-filter p [] u = tt
  Unique-filter p ((j, w) ∷ m) u = elim (Bool-cases (p w)) [
    | inl in_it ↦ rw in_it (ground (arith, lookup-filter p j m u.1, u.0), Unique-filter p m u.1)
    | inr out ↦ rw out (Unique-filter p m u.1)
  ]
