-- ===== src/Durable/Activity.antt =====
-- durable/_activity.py: one graph run of a durable orchestration. `encode` is the round trip
-- `json.loads(dumps(result))`, which has no answer where it raises.
pub mod Outcomes
pub mod Endings
mod Tests
use azure_functions_langgrap.Base.{
  ℕ, String, Bool, true, false, not, ◌&&◌, ◌||◌, Option, none, some, List, [], ◌∷◌, ◌++◌, ◌==◌,
  string_eq, if◌then◌else◌, Outcome, returns, raises,
}
use azure_functions_langgrap.Base.Dict.{Dict, lookup, insert}
use azure_functions_langgrap.Base.Json.{Value, Fields, scalar, arr, obj, end, field, text}
use azure_functions_langgrap.Locks.Guard.{
  Item, Entry, Config, plain, mapping, other, configurable_key,
}
use azure_functions_langgrap.Runs.Effects.{
  Fault, exception, base_exception, is_exception, Event, on_run_started, on_run_completed,
  on_run_failed, on_run_rejected, Effect, pure, lift, emit, ◌>>=◌, ◌>>◌,
}
use azure_functions_langgrap.Runs.Guarded.{guarded_run}
use azure_functions_langgrap.Runs.AsyncLock.{
  ThreadLock, Wait, run_sync_retaining_ownership, async_thread_lock,
}
use azure_functions_langgrap.Durable.State.{
  DurableRunPayload, DurableRunResult, succeeded, failed, was_rejected,
}

-- `GraphRegistrationLike`; `invocable` is `isinstance(reg.graph, InvocableGraph)`.
pub record GraphRegistration (G R : Type 0) : Type 0 where
  pub name : String
  pub has_checkpointer : Bool
  pub async_mode : Bool
  pub invocable : Bool
  pub invoke : Value → Option (Config Value G) → Outcome Fault R
  pub ainvoke : Value → Option (Config Value G) → Outcome Fault R

-- How the event loop cancels the activity in its three waits.
pub record Waits : Type 0 where
  pub for_token : Wait
  pub for_release : Wait
  pub for_graph : Wait

module _ {G R : Type 0} (reg : GraphRegistration G R) where
  -- `_is_async`
  abbrev pub is_async : Bool
  is_async = reg.async_mode || not reg.invocable

  -- `_invoke_graph`
  unfoldable pub invoke_graph : Wait → Value → Option (Config Value G) → Outcome Fault R
  invoke_graph w graph_input config =
      if is_async
      then reg.ainvoke graph_input config
      else run_sync_retaining_ownership w (reg.invoke graph_input config)

-- The same dictionary, as the config of a run.
module _ {G : Type 0} where
  items_of : Fields → Dict String (Item Value G)
  items_of end = []
  items_of (field k v fs) = (k, plain v) ∷ items_of fs

  entry_of : Value → Entry Value G
  unfolding items_of
  entry_of (obj fs) = mapping (items_of fs)
  entry_of v = other (plain v)

  unfoldable pub config_of : Fields → Config Value G
  unfolding entry_of
  config_of end = []
  config_of (field k v fs) = (k, entry_of v) ∷ config_of fs

  -- `payload.config or None`
  or_none : Config Value G → Option (Config Value G)
  or_none [] = none
  or_none (e ∷ c) = some (e ∷ c)

  merged :
      String → Config Value G → Option (Entry Value G) → Outcome Fault (Option (Config Value G))
  merged thread config none = returns (
      some (
        insert configurable_key (mapping (("thread_id", plain (scalar (text thread))) ∷ []))
          config))
  merged thread config (some (mapping m)) = returns (
      some (
        insert configurable_key (mapping (insert "thread_id" (plain (scalar (text thread))) m))
          config))
  merged thread config (some (other i)) = raises (exception "TypeError" "object is not a mapping")

  -- The config of the run, from that of the payload and its thread.
  unfoldable pub prepare_config :
      Option String → Config Value G → Outcome Fault (Option (Config Value G))
  unfolding or_none merged
  prepare_config none config = returns (or_none config)
  prepare_config (some thread) config = merged thread config (lookup configurable_key config)

-- `_OutputSerializationError`
abbrev pub not_serialized : Fault
not_serialized =
    exception "_OutputSerializationError" "Graph output could not be serialized as JSON"

encoded : Option Value → Outcome Fault Value
encoded none = raises not_serialized
encoded (some v) = returns v

-- `except BaseException as exc`
captured : String → Fault → Outcome Fault DurableRunResult
captured run_id x = if is_exception x then returns (failed run_id x) else raises x

module _ {G R : Type 0} where
  concluded : String → List (Event G R) → Outcome Fault Value → Effect (Event G R) DurableRunResult
  unfolding captured
  concluded run_id log (returns v) = (log ++ on_run_completed ∷ [], returns (succeeded run_id v))
  concluded run_id log (raises x) = (log ++ on_run_failed x ∷ [], captured run_id x)

abbrev pub usable_thread : Option String → Bool → Option String
usable_thread none has_checkpointer = none
usable_thread (some t) has_checkpointer = if not (t == "") && has_checkpointer then some t else none

-- The reason of a rejection and the message of a `KeyError` are texts made of names.
abbrev pub in_use : String
in_use = "Thread is currently in use"

abbrev pub no_graph : Fault
no_graph = exception "KeyError" "No graph registered under the payload's name"

module _ {G R : Type 0} (check : G → Outcome {0, 0} Fault Unit) (encode : R → Option Value)
    (lock : ThreadLock G) (waits : Waits) where
  -- The statements of the `try`.
  attempt :
      GraphRegistration G R
      → Value
      → Option String
      → Option String
      → Option (Config Value G)
      → Effect (Event G R) Value
  unfolding encoded
  attempt reg graph_input thread token config = do
    result ←
        guarded_run check lock reg.name thread token config graph_input
          (invoke_graph reg waits.for_graph)
    lift (encoded (encode result))

  run_with_config :
      GraphRegistration G R
      → DurableRunPayload
      → Option String
      → Option String
      → Option (Config Value G)
      → Effect (Event G R) DurableRunResult
  unfolding attempt concluded
  run_with_config reg payload thread token config =
      let run = attempt reg payload.input thread token config in
      emit on_run_started (returns tt) >> concluded payload.run_id run.0 run.1

  under_lock :
      GraphRegistration G R
      → DurableRunPayload
      → Option String
      → Option String
      → Effect (Event G R) DurableRunResult
  unfolding run_with_config
  under_lock reg payload (some thread) none =
      emit on_run_rejected (returns (was_rejected payload.run_id in_use))
  under_lock reg payload thread token = do
    config ← lift (prepare_config payload.thread_id (config_of payload.config))
    run_with_config reg payload thread token config

  run_registered :
      Option (GraphRegistration G R) → DurableRunPayload → Effect (Event G R) DurableRunResult
  unfolding under_lock
  run_registered none payload = pure (failed payload.run_id no_graph)
  run_registered (some reg) payload =
      let thread = usable_thread payload.thread_id reg.has_checkpointer in
      async_thread_lock lock waits.for_token waits.for_release reg.name thread
        (λ token. under_lock reg payload thread token)

  -- `execute_langgraph_run_impl`
  unfoldable pub execute_langgraph_run_impl :
      Dict String (GraphRegistration G R) → DurableRunPayload → Effect (Event G R) DurableRunResult
  unfolding run_registered
  execute_langgraph_run_impl registry payload =
      run_registered (lookup payload.graph_name registry) payload
