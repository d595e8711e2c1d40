-- ===== src/Validation/NativeConfig.antt =====
-- What a client config that `validate_native_config` of _validation.py accepts can hold.
use text.Mathlib.Text.{starts_with}
use azure_functions_langgrap.Base.{
  String, Bool, true, false, not, Option, none, some, List, [], ◌∷◌, ◌==◌, string_eq, all, ◌≡◌, ◌≢◌,
  refl, sym, arith, ==-false_of_ne, ==-ne, ==_iff, inl, inr, ◌⊎◌,
}
use azure_functions_langgrap.Base.Dict.{Dict, lookup}
use azure_functions_langgrap.Locks.Guard.{
  Item, Config, as_mapping, in_mapping, configurable_key, guard_key, config_with_ownership_guard,
}
use azure_functions_langgrap.Validation.{validate_native_config, check_configurable, keys, contains}

-- A key that fails a test that every key passes is not there.
lookup_absent :
    {A : Type 0} (p : String → Bool) (k : String) (m : Dict String A)
    → all p (keys m) ≡ true
    → p k ≡ false
    → lookup k m ≡ none
unfolding lookup
lookup_absent p k [] h f = refl
lookup_absent p k ((j, v) ∷ m) h f = ground (arith, lookup_absent p k m, ==_iff j k, h, f)

check_configurable-accepts :
    {V G : Type 0} (allowed : List String) (m : Dict String (Item V G))
    → check_configurable allowed (some m) ≡ none
    → (all (λ k. not (starts_with k "__")) (keys m) ≡ true)
      × (all (contains ("thread_id" ∷ allowed)) (keys m) ≡ true)
unfolding check_configurable
check_configurable-accepts allowed m h = (ground (arith, h), ground (arith, h))

validate_native_config-accepts :
    {V G : Type 0} (config : Config V G) (allowed : List String)
    → validate_native_config config allowed ≡ none
    → (all (λ k. k == configurable_key) (keys config) ≡ true)
      × (check_configurable allowed (as_mapping (lookup configurable_key config)) ≡ none)
unfolding validate_native_config
validate_native_config-accepts config allowed h = (ground (arith, h), ground (arith, h))

module _ {V G : Type 0} (config : Config V G) (allowed : List String)
    (accepted : validate_native_config config allowed ≡ none) where
  tests :
      (m : Dict String (Item V G))
      → as_mapping (lookup configurable_key config) ≡ some m
      → (all (λ k. not (starts_with k "__")) (keys m) ≡ true)
        × (all (contains ("thread_id" ∷ allowed)) (keys m) ≡ true)
  tests m at =
      check_configurable-accepts allowed m
        (rw (sym at) (validate_native_config-accepts config allowed accepted).1)

  -- In a config that is accepted every key is `configurable`, and every key under it is `thread_id`
  -- or one that the registration allows, and none begins with two underscores.
  pub accepted_keys :
      (key : String)
      → (key ≢ configurable_key → lookup key config ≡ none)
        × ((m : Dict String (Item V G))
            → as_mapping (lookup configurable_key config) ≡ some m
            → ((starts_with key "__" ≡ true) ⊎ (contains ("thread_id" ∷ allowed) key ≡ false))
            → lookup key m ≡ none)
  accepted_keys key = (
    λ ne.
        lookup_absent (λ k. k == configurable_key) key config
          (validate_native_config-accepts config allowed accepted).0
          (==-false_of_ne key configurable_key ne),
    λ m at why. elim why [
      | inl internal ↦
          lookup_absent (λ k. not (starts_with k "__")) key m (tests m at).0
            (ground (arith, internal))
      | inr unapproved ↦
          lookup_absent (contains ("thread_id" ∷ allowed)) key m (tests m at).1 unapproved
    ],
  )

  no_stray_mapping :
      (configurable : Option (Dict String (Item V G)))
      → as_mapping (lookup configurable_key config) ≡ configurable
      → in_mapping configurable ≡ false
  no_stray_mapping none at = refl
  no_stray_mapping (some m) at = ground (arith, (accepted_keys guard_key).1 m at (inl refl))

  -- No client forges an ownership guard: a config that is accepted reaches the graph as it is where
  -- the lock has no guard.
  pub accepted_unforged : config_with_ownership_guard (some config) none ≡ some config
  unfolding config_with_ownership_guard
  accepted_unforged = ground (
    arith,
    no_stray_mapping (as_mapping (lookup configurable_key config)) refl,
    (accepted_keys guard_key).0 (==-ne guard_key configurable_key refl),
  )
