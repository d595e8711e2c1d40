-- ===== src/Durable/Lifecycle.antt =====
-- durable/_lifecycle.py: the HTTP control plane. `Client` is the Durable client, of which the
-- handlers use three calls; the log of an effect lists those that change something.
pub mod Requests
mod Tests
use azure_functions_langgrap.Base.{
  ℕ, String, Bool, true, false, Option, none, some, List, [], ◌∷◌, ◌==◌, string_eq, if◌then◌else◌,
  Outcome, returns, raises,
}
use azure_functions_langgrap.Base.Json.{Value, Fields, scalar, arr, obj, end, field, text, null}
use azure_functions_langgrap.Runs.Effects.{Fault, Effect, pure, lift, emit, ◌>>=◌, ◌>>◌}
use azure_functions_langgrap.Durable.State.{
  DurableRunPayload, ill_typed, is_falsy, get, payload_to_dict, declared_text, given, config_dict,
}
use azure_functions_langgrap.Durable.State.Status.{
  DurableRunStatus, pending, running, finished, errored, cancelled, normalize_status,
}

-- `status.runtime_status`: missing, an enum's member or a plain text.
pub data RuntimeStatus : Type 0 where
  missing : RuntimeStatus
  member plain_text : String → RuntimeStatus

pub record OrchestrationStatus : Type 0 where
  pub runtime_status : RuntimeStatus
  pub output : Value

pub record Client : Type 0 where
  pub start_new : String → String → Fields → Outcome Fault String
  pub get_status : String → Outcome Fault (Option OrchestrationStatus)
  pub terminate : String → String → Outcome {0, 0} Fault Unit

pub data Call : Type 0 where
  start_called : String → String → Fields → Call
  terminate_called : String → String → Call

abbrev pub Response : Type 0
Response = ℕ × Fields

plain_status : RuntimeStatus → Option String
plain_status missing = none
plain_status (member name) = some name
plain_status (plain_text s) = some s

-- `runtime_status_str`
unfoldable pub runtime_status_str : Option OrchestrationStatus → Option String
unfolding plain_status
runtime_status_str none = none
runtime_status_str (some status) = plain_status status.runtime_status

abbrev pub status_word : DurableRunStatus → String
status_word pending = "pending"
status_word running = "running"
status_word finished = "success"
status_word errored = "error"
status_word cancelled = "cancelled"

abbrev pub run_fields : String → String → Fields → Fields
run_fields run_id status rest =
    field "run_id" (scalar (text run_id)) (field "status" (scalar (text status)) rest)

abbrev pub not_found : String → Response
not_found run_id =
    (404, field "run_id" (scalar (text run_id)) (field "error" (scalar (text "run not found")) end))

-- Python's `str` of a value that is no text, and `dict` of one that is no mapping.
pub record Builtins : Type 0 where
  pub str : Value → String
  pub dict : Value → Outcome Fault Fields

abbrev pub text_of : Builtins → Value → String
text_of b (scalar (text s)) = s
text_of b v = b.str v

-- `str(body.get("run_id") or uuid4().hex)`
run_id_or : Builtins → String → Option Value → String
run_id_or b fresh none = fresh
run_id_or b fresh (some v) = if is_falsy v then fresh else text_of b v

-- `dict(body.get("config") or {})`
config_or : Builtins → Option Value → Outcome Fault Fields
config_or b none = returns end
config_or b (some (obj fs)) = returns fs
config_or b (some v) = if is_falsy v then returns end else b.dict v

-- `configurable.get("thread_id")`, where `configurable` is a mapping.
configurable_thread : Option Value → Value
configurable_thread (some (obj fs)) = given (get "thread_id" fs)
configurable_thread _ = scalar null

-- The thread of the request, and that of its config where there is none.
thread_or : Fields → Value → Value
unfolding configurable_thread
thread_or config (scalar null) = configurable_thread (get "configurable" config)
thread_or config v = v

-- `to_dict` of the payload of the request, whose values are as they came.
abbrev pub payload_fields : String → String → Fields → Value → Fields → Fields
payload_fields run_id graph_name body thread_id config = field "run_id" (scalar (text run_id)) (
    field "graph_name" (scalar (text graph_name)) (
      field "input" (given (get "input" body)) (
        field "thread_id" thread_id (
          field "config" (obj config) (
            field "assistant_id" (given (get "assistant_id" body))
              (field "correlation_id" (given (get "correlation_id" body)) end))))))

module _ (client : Client) where
  start : String → String → Fields → Effect Call Response
  start orchestrator run_id fields = do
    emit (start_called orchestrator run_id fields) (client.start_new orchestrator run_id fields)
    pure (202, run_fields run_id "pending" end)

  -- `create_run_impl`; `fresh` is what `uuid4` gives.
  unfoldable pub create_run_impl :
      Builtins → String → Fields → String → String → Effect Call Response
  unfolding start run_id_or config_or thread_or
  create_run_impl b orchestrator body graph_name fresh =
      let run_id = run_id_or b fresh (get "run_id" body) in
      lift (config_or b (get "config" body)) >>= λ config. start orchestrator run_id (
        payload_fields run_id graph_name body (thread_or config (given (get "thread_id" body)))
          config)

-- `isinstance(output, Mapping)`
abbrev pub as_fields : Option Value → Option Fields
as_fields (some (obj fs)) = some fs
as_fields _ = none

-- `{**m, key: v}`
unfoldable pub put : String → Value → Fields → Fields
put key v end = field key v end
put key v (field k w fs) =
    let rest = put key v fs in if k == key then field k v fs else field k w rest

abbrev pub generic_error : Value
generic_error = obj (
    field "code" (scalar (text "run_failed"))
      (field "message" (scalar (text "The run failed.")) end))

hidden : Fields → Option Fields → Value
hidden output none = obj output
hidden output (some e) = obj (put "error" generic_error output)

-- The output that the client sees.
shown_output : DurableRunStatus → Value → Value
unfolding hidden
shown_output errored (obj output) = hidden output (as_fields (get "error" output))
shown_output status output = output

output_of : Option OrchestrationStatus → Value
output_of none = scalar null
output_of (some s) = s.output

shown : String → Option OrchestrationStatus → Option String → Response
unfolding shown_output output_of
shown run_id status none = not_found run_id
shown run_id status (some runtime) =
    let normalized = normalize_status (some runtime) (as_fields (some (output_of status))) in
    (
      200,
      run_fields run_id (status_word normalized)
          (field "output" (shown_output normalized (output_of status)) end),
    )

terminated :
    (String → String → Outcome {0, 0} Fault Unit)
    → String
    → String
    → Option String
    → Effect Call Response
terminated terminate run_id reason none = pure (not_found run_id)
terminated terminate run_id reason (some runtime) = do
  emit (terminate_called run_id reason) (terminate run_id reason)
  pure (202, run_fields run_id "cancelled" end)

module _ (client : Client) where
  -- `get_run_impl`
  unfoldable pub get_run_impl : String → Effect Call Response
  unfolding shown
  get_run_impl run_id = do
    status ← lift (client.get_status run_id)
    pure (shown run_id status (runtime_status_str status))

  -- `cancel_run_impl`
  unfoldable pub cancel_run_impl : String → String → Effect Call Response
  unfolding terminated
  cancel_run_impl run_id reason = do
    status ← lift (client.get_status run_id)
    terminated client.terminate run_id reason (runtime_status_str status)
