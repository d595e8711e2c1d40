-- ===== src/Locks/Guard.antt =====
-- locks/guard.py: how an ownership guard travels in the config of a run. `V` are the values that
-- are neither guards nor mappings, `G` the guards.
pub mod Travel
mod Tests
use azure_functions_langgrap.Base.{
  String, Bool, true, false, not, ◌>>=◌, ◌&&◌, ◌||◌, Option, none, some, is_none, is_some, List, [],
  ◌∷◌, ◌==◌, string_eq, if◌then◌else◌, Outcome, returns, raises,
}
use azure_functions_langgrap.Base.Dict.{Dict, lookup, insert, remove}

-- `OWNERSHIP_GUARD_CONFIG_KEY`
abbrev pub guard_key : String
guard_key = "__pregel_azfunc_ownership_guard"

abbrev pub configurable_key : String
configurable_key = "configurable"

pub data Item (V G : Type 0) : Type 0 where
  plain : V → Item V G
  guard : G → Item V G

pub data Entry (V G : Type 0) : Type 0 where
  mapping : Dict String (Item V G) → Entry V G
  other : Item V G → Entry V G

abbrev pub Config : Type 0 → Type 0 → Type 0
Config V G = Dict String (Entry V G)

-- What a provider's `ownership_guard` returns, or the type and the text of an `Exception` of it.
pub data Provided (G : Type 0) : Type 0 where
  a_guard : G → Provided G
  no_guard : Provided G
  not_a_guard : Provided G
  raising : String → String → Provided G

pub data GuardError : Type 0 where
  type_error : GuardError
  provider_error : String → String → GuardError

module _ {V G : Type 0} where
  abbrev pub as_mapping : Option (Entry V G) → Option (Dict String (Item V G))
  as_mapping (some (mapping m)) = some m
  as_mapping _ = none

  abbrev pub in_mapping : Option (Dict String (Item V G)) → Bool
  in_mapping none = false
  in_mapping (some m) = is_some (lookup guard_key m)

  abbrev pub entries : Option (Config V G) → Config V G
  entries none = []
  entries (some c) = c

  abbrev pub items : Option (Dict String (Item V G)) → Dict String (Item V G)
  items none = []
  items (some m) = m

  -- `has_stray_key`
  abbrev pub has_stray_key : Option (Config V G) → Bool
  has_stray_key none = false
  has_stray_key (some c) =
      is_some (lookup guard_key c) || in_mapping (as_mapping (lookup configurable_key c))

  with_guard :
      Option G → Option (Dict String (Item V G)) → Config V G → Dict String (Item V G) → Config V G
  with_guard (some g) configurable result cleaned =
      insert configurable_key (mapping (insert guard_key (guard g) cleaned)) result
  with_guard none (some m) result cleaned = insert configurable_key (mapping cleaned) result
  with_guard none none result cleaned = result

  -- `config_with_ownership_guard`
  unfoldable pub config_with_ownership_guard : Option (Config V G) → Option G → Option (Config V G)
  unfolding with_guard
  config_with_ownership_guard config g =
      let configurable = as_mapping (lookup configurable_key (entries config)) in
      if is_none g && not (has_stray_key config)
      then config
      else some (
          with_guard g configurable (remove guard_key (entries config))
            (remove guard_key (items configurable)))

  candidate : Option (Item V G) → Option G
  candidate (some (guard g)) = some g
  candidate _ = none

  in_configurable : Option (Dict String (Item V G)) → Option G
  unfolding candidate
  in_configurable none = none
  in_configurable (some m) = candidate (lookup guard_key m)

  in_config : Option (Config V G) → Option G
  unfolding in_configurable
  in_config none = none
  in_config (some c) = in_configurable (as_mapping (lookup configurable_key c))

  -- `resolve_ownership_guard`; `scoped` is what `bind_ownership_guard` bound.
  unfoldable pub resolve_ownership_guard : Option G → Option (Config V G) → Option G
  unfolding in_config
  resolve_ownership_guard (some g) config = some g
  resolve_ownership_guard none config = in_config config

module _ {G : Type 0} where
  provided : Provided G → Outcome GuardError (Option G)
  provided (a_guard g) = returns (some g)
  provided no_guard = returns none
  provided not_a_guard = raises type_error
  provided (raising type message) = raises (provider_error type message)

  ask :
      Option (String → String → String → Provided G)
      → String
      → String
      → String
      → Outcome GuardError (Option G)
  unfolding provided
  ask none graph thread token = returns none
  ask (some provider) graph thread token =
      if token == "" then returns none else provided (provider graph thread token)

  -- `ownership_guard_for`; `provider` is the lock's `ownership_guard`, if it has one.
  unfoldable pub ownership_guard_for :
      Option (String → String → String → Provided G)
      → String
      → Option String
      → Option String
      → Outcome GuardError (Option G)
  unfolding ask
  ownership_guard_for provider graph (some thread) (some token) = ask provider graph thread token
  ownership_guard_for provider graph _ _ = returns none

module _ {V G : Type 0} where
  -- `guard_run_config`
  unfoldable pub guard_run_config :
      Option (String → String → String → Provided G)
      → String
      → Option String
      → Option String
      → Option (Config V G)
      → Outcome GuardError (Option (Config V G) × Option G)
  guard_run_config provider graph thread token config = do
    g ← ownership_guard_for provider graph thread token
    returns (config_with_ownership_guard config g, g)
