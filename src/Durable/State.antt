-- ===== src/Durable/State.antt =====
-- durable/_state.py. The fields have their declared types: where `from_dict` meets a value of
-- another type, which the code carries on unchecked, the model stops with `IllTyped`.
pub mod Status
mod Tests
use azure_functions_langgrap.Base.{
  String, Bool, true, false, ◌&&◌, ◌||◌, Option, none, some, ◌==◌, string_eq, not, is_zero,
  if◌then◌else◌, Outcome, returns, raises, ◌>>=◌, ◌>>◌,
}
use azure_functions_langgrap.Base.Json.{
  Scalar, Value, Items, Fields, scalar, arr, obj, nil, cons, end, field, null, text, boolean,
  integer, decimal,
}
use azure_functions_langgrap.Base.Text.{strip}
use azure_functions_langgrap.Runs.Effects.{Fault, exception, base_exception}

abbrev pub ill_typed : Fault
ill_typed = exception "IllTyped" ""

-- `data.get(key)`
unfoldable pub get : String → Fields → Option Value
get key end = none
get key (field k v fs) = if k == key then some v else get key fs

pub record DurableRunPayload : Type 0 where
  pub run_id : String
  pub graph_name : String
  pub input : Value
  pub thread_id : Option String
  pub config : Fields
  pub assistant_id : Option String
  pub correlation_id : Option String

pub data ActivityStatus : Type 0 where
  success error rejected : ActivityStatus

-- The error shape of `serialize_error`.
pub record SerializedError : Type 0 where
  pub type : String
  pub message : String

pub record DurableRunResult : Type 0 where
  pub run_id : String
  pub activity_status : ActivityStatus
  pub result : Value
  pub error : Option SerializedError

abbrev pub optional_text : Option String → Value
optional_text none = scalar null
optional_text (some s) = scalar (text s)

-- `DurableRunPayload.to_dict`
unfoldable pub payload_to_dict : DurableRunPayload → Fields
payload_to_dict p = field "run_id" (scalar (text p.run_id)) (
    field "graph_name" (scalar (text p.graph_name)) (
      field "input" p.input (
        field "thread_id" (optional_text p.thread_id) (
          field "config" (obj p.config) (
            field "assistant_id" (optional_text p.assistant_id)
              (field "correlation_id" (optional_text p.correlation_id) end))))))

required_text : Option Value → Outcome Fault String
required_text (some (scalar (text s))) = returns s
required_text none = raises (exception "KeyError" "")
required_text (some v) = raises ill_typed

unfoldable pub declared_text : Option Value → Outcome Fault (Option String)
declared_text none = returns none
declared_text (some (scalar null)) = returns none
declared_text (some (scalar (text s))) = returns (some s)
declared_text (some v) = raises ill_typed

unfoldable pub given : Option Value → Value
given none = scalar null
given (some v) = v

-- `not value`; a float that is zero is not told apart.
abbrev pub is_falsy : Value → Bool
is_falsy (scalar null) = true
is_falsy (scalar (boolean b)) = not b
is_falsy (scalar (integer z)) = is_zero z
is_falsy (scalar (decimal d)) = false
is_falsy (scalar (text s)) = s == ""
is_falsy (arr nil) = true
is_falsy (arr (cons x xs)) = false
is_falsy (obj end) = true
is_falsy (obj (field k v fs)) = false

-- `dict(data.get("config") or {})`
unfoldable pub config_dict : Option Value → Outcome Fault Fields
config_dict none = returns end
config_dict (some (obj fs)) = returns fs
config_dict (some v) = if is_falsy v then returns end else raises ill_typed

-- `DurableRunPayload.from_dict`
unfoldable pub payload_from_dict : Fields → Outcome Fault DurableRunPayload
unfolding required_text declared_text given config_dict
payload_from_dict fields = do
  run_id ← required_text (get "run_id" fields)
  graph_name ← required_text (get "graph_name" fields)
  thread_id ← declared_text (get "thread_id" fields)
  config ← config_dict (get "config" fields)
  assistant_id ← declared_text (get "assistant_id" fields)
  correlation_id ← declared_text (get "correlation_id" fields)
  returns (record {
    run_id = run_id;
    graph_name = graph_name;
    input = given (get "input" fields);
    thread_id = thread_id;
    config = config;
    assistant_id = assistant_id;
    correlation_id = correlation_id;
  })

status_text : ActivityStatus → String
status_text success = "success"
status_text error = "error"
status_text rejected = "rejected"

error_value : Option SerializedError → Value
error_value none = scalar null
error_value (some e) =
    obj (field "type" (scalar (text e.type)) (field "message" (scalar (text e.message)) end))

-- `DurableRunResult.to_dict`
unfoldable pub result_to_dict : DurableRunResult → Fields
unfolding status_text error_value
result_to_dict r = field "run_id" (scalar (text r.run_id)) (
    field "activity_status" (scalar (text (status_text r.activity_status)))
      (field "result" r.result (field "error" (error_value r.error) end)))

named_status : String → Outcome Fault ActivityStatus
named_status s =
    if s == "success"
    then returns success
    else if s == "error"
    then returns error
    else if s == "rejected"
    then returns rejected
    else raises ill_typed

declared_error : Option Value → Outcome Fault (Option SerializedError)
unfolding required_text
declared_error none = returns none
declared_error (some (scalar null)) = returns none
declared_error (some (obj fs)) = do
  t ← required_text (get "type" fs)
  m ← required_text (get "message" fs)
  returns (some (record { type = t; message = m }))
declared_error (some v) = raises ill_typed

-- `DurableRunResult.from_dict`
unfoldable pub result_from_dict : Fields → Outcome Fault DurableRunResult
unfolding named_status declared_error required_text given
result_from_dict fields = do
  run_id ← required_text (get "run_id" fields)
  name ← required_text (get "activity_status" fields)
  status ← named_status name
  e ← declared_error (get "error" fields)
  returns (record {
    run_id = run_id;
    activity_status = status;
    result = given (get "result" fields);
    error = e;
  })

-- `serialize_error`
unfoldable pub serialize_error : Fault → SerializedError
serialize_error (exception t m) = record { type = t; message = m }
serialize_error (base_exception t) = record { type = t; message = "" }

-- `DurableRunResult.success`, `failure`, `rejected`
unfoldable pub succeeded : String → Value → DurableRunResult
succeeded run_id result = record {
  run_id = run_id;
  activity_status = success;
  result = result;
  error = none;
}

unfoldable pub failed : String → Fault → DurableRunResult
unfolding serialize_error
failed run_id x = record {
  run_id = run_id;
  activity_status = error;
  result = scalar null;
  error = some (serialize_error x);
}

unfoldable pub was_rejected : String → String → DurableRunResult
was_rejected run_id reason = record {
  run_id = run_id;
  activity_status = rejected;
  result = scalar null;
  error = some (record { type = "ThreadContentionError"; message = reason });
}
