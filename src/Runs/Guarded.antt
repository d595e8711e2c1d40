-- ===== src/Runs/Guarded.antt =====
-- The body that the drivers share: what they call of locks/guard.py around the graph.
use azure_functions_langgrap.Base.{String, Option, none, some, Outcome, returns, raises}
use azure_functions_langgrap.Base.Json.{Value}
use azure_functions_langgrap.Locks.Guard.{Config, GuardError, guard_run_config}
use azure_functions_langgrap.Runs.Effects.{
  Fault, guard_fault, Event, invoked, Effect, pure, lift, emit, ◌>>=◌, ◌>>◌,
}
use azure_functions_langgrap.Runs.AsyncLock.{ThreadLock}

unfoldable pub or_fault : {A : Type 0} → Outcome GuardError A → Outcome Fault A
or_fault (returns a) = returns a
or_fault (raises x) = raises (guard_fault x)

module _ {G : Type 0} (check : G → Outcome {0, 0} Fault Unit) where
  -- `check_ownership_guard`; `check` is the guard's own.
  unfoldable pub check_ownership_guard : Option G → Outcome {0, 0} Fault Unit
  check_ownership_guard none = returns tt
  check_ownership_guard (some g) = check g

  -- The statements of a `try` from `guard_run_config` to `check_ownership_guard`.
  unfoldable pub guarded_run :
      {R : Type 0}
      → ThreadLock G
      → String
      → Option String
      → Option String
      → Option (Config Value G)
      → Value
      → (Value → Option (Config Value G) → Outcome Fault R)
      → Effect (Event G R) R
  unfolding or_fault check_ownership_guard
  guarded_run lock name thread token config graph_input invoke = do
    (run_config, guard) ←
        lift (or_fault (guard_run_config lock.ownership_guard name thread token config))
    result ← emit (invoked graph_input run_config) (invoke graph_input run_config)
    lift (check_ownership_guard guard)
    pure result
