-- ===== src/Locks/Guard/Travel.antt =====
-- The guard that locks/guard.py injects is the one that a checkpoint write resolves, and no value of
-- a client is ever taken for one.
use azure_functions_langgrap.Base.{
  String, ◌≡◌, ◌≢◌, refl, false, Option, none, some, ◌==◌, string_eq, arith, ==_iff, Option-cases,
  inl, inr,
}
use azure_functions_langgrap.Base.Dict.{Dict, lookup, insert, remove, lookup-insert, lookup-remove}
use azure_functions_langgrap.Locks.Guard.{
  guard_key, configurable_key, Item, guard, Entry, mapping, Config, as_mapping, entries, items,
  config_with_ownership_guard, resolve_ownership_guard,
}

keys_differ : guard_key == configurable_key ≡ false
keys_differ = refl

keys_differ' : configurable_key == guard_key ≡ false
keys_differ' = refl

module _ {V G : Type 0} where
  abbrev pub injected : Option G → Option (Item V G)
  injected none = none
  injected (some x) = some (guard x)

  -- What stands under the private key in a `configurable` that is a mapping.
  abbrev pub carried : Option (Config V G) → Option (Item V G)
  carried config = lookup guard_key (items (as_mapping (lookup configurable_key (entries config))))

  carried-config_with_ownership_guard :
      (config : Option (Config V G)) (g : Option G)
      → carried (config_with_ownership_guard config g) ≡ injected g
  unfolding config_with_ownership_guard
  carried-config_with_ownership_guard none none = unfold lookup in refl
  carried-config_with_ownership_guard none (some x) = simp lookup-insert
  carried-config_with_ownership_guard (some c) (some x) = simp lookup-insert
  carried-config_with_ownership_guard (some c) none =
      elim (Option-cases (as_mapping (lookup configurable_key c))) [
        | inl absent ↦
            unfold lookup in
            ground (arith, absent, lookup-remove guard_key configurable_key c, keys_differ)
        | inr (m, there) ↦ ground (
          arith,
          there,
          lookup-remove guard_key guard_key m,
          ==_iff guard_key guard_key,
          lookup-insert {V = Entry V G} configurable_key configurable_key
              (mapping (remove guard_key m)) (remove guard_key c),
          ==_iff configurable_key configurable_key,
        )
      ]

  resolved :
      (config : Option (Config V G)) (g : Option G)
      → resolve_ownership_guard none (config_with_ownership_guard config g) ≡ g
  unfolding resolve_ownership_guard config_with_ownership_guard
  resolved none none = refl
  resolved none (some x) = simp lookup-insert
  resolved (some c) (some x) = simp lookup-insert
  resolved (some c) none = elim (Option-cases (as_mapping (lookup configurable_key c))) [
    | inl absent ↦ ground (arith, absent, lookup-remove guard_key configurable_key c, keys_differ)
    | inr (m, there) ↦ ground (
      arith,
      there,
      lookup-remove guard_key guard_key m,
      ==_iff guard_key guard_key,
      lookup-insert {V = Entry V G} configurable_key configurable_key (mapping (remove guard_key m))
          (remove guard_key c),
      ==_iff configurable_key configurable_key,
    )
  ]

  -- No stray value stays at the top level.
  pub guard_key-config_with_ownership_guard :
      (config : Option (Config V G)) (g : Option G)
      → lookup guard_key (entries (config_with_ownership_guard config g)) ≡ none
  unfolding config_with_ownership_guard
  guard_key-config_with_ownership_guard none none = unfold lookup in refl
  guard_key-config_with_ownership_guard none (some x) = simp (lookup-insert, lookup-remove)
  guard_key-config_with_ownership_guard (some c) (some x) = simp (lookup-insert, lookup-remove)
  guard_key-config_with_ownership_guard (some c) none =
      elim (Option-cases (as_mapping (lookup configurable_key c))) [
        | inl absent ↦
            ground (arith, absent, lookup-remove guard_key guard_key c, ==_iff guard_key guard_key)
        | inr (m, there) ↦ ground (
          arith,
          there,
          lookup-remove guard_key guard_key c,
          ==_iff guard_key guard_key,
          keys_differ',
          lookup-insert {V = Entry V G} configurable_key guard_key (mapping (remove guard_key m))
              (remove guard_key c),
        )
      ]

  -- Outside a binding, the guard that a checkpoint write finds in a run's config is exactly the one
  -- that was injected, or none if none was. Whatever stood under the private key before does not
  -- survive: at the top level there is nothing under it, and under `configurable` only the guard
  -- that was injected.
  pub resolve-config_with_ownership_guard :
      (config : Option (Config V G)) (g : Option G)
      → (resolve_ownership_guard none (config_with_ownership_guard config g) ≡ g)
        × (lookup guard_key (entries (config_with_ownership_guard config g)) ≡ none)
        × (carried (config_with_ownership_guard config g) ≡ injected g)
  resolve-config_with_ownership_guard config g = (
    resolved config g,
    guard_key-config_with_ownership_guard config g,
    carried-config_with_ownership_guard config g,
  )

  -- Nothing else of the caller's config changes: neither the other keys of the top level, nor those
  -- under a `configurable` that is a mapping.
  pub config_with_ownership_guard_keeps :
      (config : Option (Config V G)) (g : Option G) (key : String)
      → key ≢ guard_key
      → (key ≢ configurable_key
          → lookup key (entries (config_with_ownership_guard config g))
            ≡ lookup key (entries config))
        × (lookup key (
              items (
                as_mapping
                  (lookup configurable_key (entries (config_with_ownership_guard config g)))))
            ≡ lookup key (items (as_mapping (lookup configurable_key (entries config)))))
  unfolding config_with_ownership_guard
  config_with_ownership_guard_keeps none none key ne = (λ _. refl, refl)
  config_with_ownership_guard_keeps none (some x) key ne = (
    λ n. unfold remove lookup insert in ground (arith, ==_iff configurable_key key),
    unfold remove lookup insert in ground (arith, ==_iff guard_key key),
  )
  config_with_ownership_guard_keeps (some c) (some x) key ne =
      let m : Dict String (Item V G) =
        remove guard_key (items (as_mapping (lookup configurable_key c))) in
      (
        λ n. ground (
          arith,
          lookup-remove guard_key key c,
          ==_iff guard_key key,
          ==_iff configurable_key key,
          lookup-insert {V = Entry V G} configurable_key key
              (mapping (insert guard_key (guard x) m)) (remove guard_key c),
        ),
        ground (
          arith,
          lookup-remove guard_key key (items (as_mapping (lookup configurable_key c))),
          ==_iff guard_key key,
          lookup-insert {V = Entry V G} configurable_key configurable_key
              (mapping (insert guard_key (guard x) m)) (remove guard_key c),
          lookup-insert {V = Item V G} guard_key key (guard x) m,
        ),
      )
  config_with_ownership_guard_keeps (some c) none key ne =
      elim (Option-cases (as_mapping (lookup configurable_key c))) [
        | inl absent ↦ (
          λ n. ground (arith, absent, lookup-remove guard_key key c, ==_iff guard_key key),
          ground (arith, absent, lookup-remove guard_key configurable_key c, keys_differ),
        )
        | inr (m, there) ↦ (
          λ n. ground (
            arith,
            there,
            lookup-remove guard_key key c,
            ==_iff guard_key key,
            ==_iff configurable_key key,
            lookup-insert {V = Entry V G} configurable_key key (mapping (remove guard_key m))
                (remove guard_key c),
          ),
          ground (
            arith,
            there,
            lookup-remove guard_key key m,
            ==_iff guard_key key,
            lookup-insert {V = Entry V G} configurable_key configurable_key
                (mapping (remove guard_key m)) (remove guard_key c),
          ),
        )
      ]
