-- ===== src/Runs/ServiceBus.antt =====
-- triggers/service_bus.py: one graph run per Service Bus message. `M` are the messages; what an
-- operator supplies (mapper, factory, handler) and the graph are fields of the registration.
pub mod Lifecycle
pub mod Agreement
pub mod Held
mod Tests
use azure_functions_langgrap.Base.{
  ℕ, String, Bool, true, false, not, ◌&&◌, ◌||◌, Option, none, some, is_some, is_none, List, [],
  ◌∷◌, ◌++◌, ◌==◌, string_eq, if◌then◌else◌, Outcome, returns, raises,
}
use azure_functions_langgrap.Base.Json.{Value, scalar, arr, obj, nil, cons, end, field, text}
use azure_functions_langgrap.Base.Text.{strip}
use azure_functions_langgrap.Locks.Guard.{
  Config, Provided, GuardError, plain, mapping, configurable_key, guard_run_config,
}
use azure_functions_langgrap.Runs.Effects.{
  Fault, exception, guard_fault, Event, acquire_called, release_called, on_run_started,
  on_run_completed, on_run_failed, invoked, handled, Effect, pure, lift, emit, finally, observed,
  ◌>>=◌, ◌>>◌,
}
use azure_functions_langgrap.Runs.Guarded.{guarded_run}
use azure_functions_langgrap.Runs.AsyncLock.{ThreadLock, Wait, async_thread_lock}

-- `_ServiceBusRegistration`; `invoke` and `ainvoke` are the graph's methods.
pub record Registration (M G R : Type 0) : Type 0 where
  pub name : String
  pub has_checkpointer : Bool
  pub session : Bool
  pub session_exclusive : Bool
  pub input_mapper : M → Outcome Fault Value
  pub thread_id_factory : Option (M → Outcome Fault (Option String))
  pub result_handler : Option (R → M → Outcome {0, 0} Fault Unit)
  pub invoke : Value → Option (Config Value G) → Outcome Fault R
  pub ainvoke : Value → Option (Config Value G) → Outcome Fault R

-- `default_message_mapper`, on the decoded body; `loads` is `json.loads`, `none` where it raises.
human_message : String → Value
human_message content = obj (
    field "messages"
      (arr (
        cons
          (obj (field "role" (scalar (text "human")) (field "content" (scalar (text content)) end)))
          nil))
      end)

object_or_message : String → Option Value → Value
unfolding human_message
object_or_message content (some (obj fields)) = obj fields
object_or_message content _ = human_message content

unfoldable pub default_message_mapper : (String → Option Value) → String → Value
unfolding object_or_message
default_message_mapper loads body = object_or_message body (loads body)

module _ {M : Type 0} where
  pub factory_thread_id :
      Option (M → Outcome Fault (Option String)) → M → Outcome Fault (Option String)
  factory_thread_id none msg = returns none
  factory_thread_id (some factory) msg = factory msg

abbrev same_thread : Option String → String → Bool
same_thread none s = false
same_thread (some t) s = t == s

-- The tests of session mode; `factory` says whether there is a factory.
session_thread_id : Bool → Option String → Option String → Outcome Fault (Option String)
session_thread_id factory thread_id none =
    raises (exception "ValueError" "session mode requires a nonempty message session_id")
session_thread_id factory thread_id (some session_id) =
    if strip session_id == ""
    then raises (exception "ValueError" "session mode requires a nonempty message session_id")
    else if factory && not (same_thread thread_id session_id)
    then raises
        (exception "ValueError" "thread_id_factory must match message session_id in session mode")
    else returns (some session_id)

checked_thread_id :
    Bool → Bool → Option String → Outcome Fault (Option String) → Outcome Fault (Option String)
unfolding session_thread_id
checked_thread_id session factory session_id (raises x) = raises x
checked_thread_id session factory session_id (returns thread_id) =
    if not session then returns thread_id else session_thread_id factory thread_id session_id

-- `bool(thread_id)`
abbrev pub is_truthy : Option String → Bool
is_truthy none = false
is_truthy (some s) = not (s == "")

abbrev pub contention : Fault
contention =
    exception "ThreadContentionError"
      "Thread is currently in use; message will be retried by the broker"

module _ {M G R : Type 0} (session_id : M → Option String) (reg : Registration M G R) where
  -- `_message_thread_id`; `session_id` is `getattr(msg, "session_id", None)` where it is a `str`.
  unfoldable pub message_thread_id : M → Outcome Fault (Option String)
  unfolding checked_thread_id factory_thread_id
  message_thread_id msg =
      checked_thread_id reg.session (is_some reg.thread_id_factory) (session_id msg)
        (factory_thread_id reg.thread_id_factory msg)

  abbrev pub use_lock : Option String → Bool
  use_lock thread = is_truthy thread && (reg.has_checkpointer && not reg.session_exclusive)

pub thread_config : {G : Type 0} → Option String → Option (Config Value G)
thread_config none = none
thread_config (some thread) =
    if thread == ""
    then none
    else some ((configurable_key, mapping (("thread_id", plain (scalar (text thread))) ∷ [])) ∷ [])

-- `if not lock_token: raise ThreadContentionError`
held_or_contention : Option String → Outcome Fault (Option String)
held_or_contention token = if is_truthy token then returns token else raises contention

acquired_token : Outcome Fault (Option String) → Outcome Fault (Option String)
unfolding held_or_contention
acquired_token (returns token) = held_or_contention token
acquired_token (raises x) = raises x

module _ {G R : Type 0} where
  failed_event : Fault → List (Event G R)
  failed_event x = on_run_failed x ∷ []

  -- The release in the `finally`.
  release_held : ThreadLock G → String → Option String → Option String → Effect (Event G R) Unit
  release_held lock name (some thread) (some token) =
      emit (release_called name thread token) (lock.release name thread token)
  release_held lock name _ _ = pure tt

  take_lock : ThreadLock G → String → Bool → Option String → Effect (Event G R) (Option String)
  unfolding acquired_token
  take_lock lock name true (some thread) =
      emit (acquire_called name thread) (acquired_token (lock.acquire name thread))
  take_lock lock name _ _ = pure none

  handle_result :
      {M : Type 0} → Option (R → M → Outcome {0, 0} Fault Unit) → M → R → Effect (Event G R) R
  handle_result none msg result = pure result
  handle_result (some handler) msg result = do
    emit (handled result) (handler result msg)
    pure result

module _ {M G R : Type 0} (check : G → Outcome {0, 0} Fault Unit) (session_id : M → Option String)
    (reg : Registration M G R) (lock : ThreadLock G) where
  -- What stands between `on_run_started` and the end of the `try`.
  observed_run :
      (Value → Option (Config Value G) → Outcome Fault R)
      → Value
      → Option String
      → Option String
      → Option String
      → Effect (Event G R) R
  unfolding thread_config failed_event
  observed_run invoke graph_input thread lock_thread token =
      emit on_run_started (returns tt)
      >> observed
          (guarded_run check lock reg.name lock_thread token (thread_config thread) graph_input
            invoke)
          failed_event on_run_completed

  locked_run : Value → Option String → Effect (Event G R) R
  unfolding take_lock observed_run release_held
  locked_run graph_input thread = do
    token ← take_lock lock reg.name (use_lock session_id reg thread) thread
    finally (observed_run reg.invoke graph_input thread thread token)
        (release_held lock reg.name thread token)

  -- `process_service_bus_message`
  unfoldable pub process_service_bus_message : M → Effect (Event G R) R
  unfolding locked_run handle_result
  process_service_bus_message msg = do
    graph_input ← lift (reg.input_mapper msg)
    thread ← lift (message_thread_id session_id reg msg)
    result ← locked_run graph_input thread
    handle_result reg.result_handler msg result

  async_body : Value → Option String → Option String → Option String → Effect (Event G R) R
  unfolding observed_run
  async_body graph_input thread (some lock_thread) none = lift (raises contention)
  async_body graph_input thread lock_thread token =
      observed_run reg.ainvoke graph_input thread lock_thread token

  async_locked_run : Wait → Wait → Value → Option String → Effect (Event G R) R
  unfolding async_body
  async_locked_run w back graph_input thread =
      let lock_thread = if use_lock session_id reg thread then thread else none in
      async_thread_lock lock w back reg.name lock_thread
        (λ token. async_body graph_input thread lock_thread token)

  -- `process_service_bus_message_async`; `w` and `back` are the waits for the lock's worker threads.
  unfoldable pub process_service_bus_message_async : Wait → Wait → M → Effect (Event G R) R
  unfolding async_locked_run handle_result
  process_service_bus_message_async w back msg = do
    graph_input ← lift (reg.input_mapper msg)
    thread ← lift (message_thread_id session_id reg msg)
    result ← async_locked_run w back graph_input thread
    handle_result reg.result_handler msg result
