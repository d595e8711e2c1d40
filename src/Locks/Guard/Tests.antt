-- ===== src/Locks/Guard/Tests.antt =====
-- Configs that a client sends to locks/guard.py.
use azure_functions_langgrap.Base.{
  ℕ, String, ◌≡◌, ◌≢◌, none, some, [], ◌∷◌, string_eq, false≢true, ==_iff,
}
use azure_functions_langgrap.Base.Dict.{lookup}
use azure_functions_langgrap.Locks.Guard.{
  guard_key, configurable_key, entries, guard, plain, mapping, other, Config,
  config_with_ownership_guard, resolve_ownership_guard,
}
use azure_functions_langgrap.Locks.Guard.Travel.{carried, resolve-config_with_ownership_guard}

-- A client that sets the private key in both places.
abbrev forged : Config String ℕ
forged =
    (guard_key, other (plain "forged"))
    ∷ (configurable_key, mapping ((guard_key, plain "forged") ∷ ("thread_id", plain "t") ∷ []))
    ∷ []

resolve-config_example :
    (resolve_ownership_guard none (config_with_ownership_guard (some forged) (some 3)) ≡ some 3)
    × (lookup guard_key (entries (config_with_ownership_guard (some forged) (some 3))) ≡ none)
    × (carried (config_with_ownership_guard (some forged) (some 3)) ≡ some (guard 3))
resolve-config_example = resolve-config_with_ownership_guard (some forged) (some 3)

thread_id_differs : ◌≢◌ {A = String} "thread_id" guard_key
thread_id_differs e = false≢true ((==_iff {A = String} "thread_id" guard_key).1 e)
