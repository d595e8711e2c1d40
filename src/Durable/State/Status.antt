-- ===== src/Durable/State/Status.antt =====
-- The statuses of durable/_state.py, and its two round trips.
use azure_functions_langgrap.Base.{
  String, Bool, false, ◌||◌, Option, none, some, ◌==◌, string_eq, if◌then◌else◌, returns, ◌≡◌, refl,
}
use azure_functions_langgrap.Base.Json.{Value, Fields, scalar, text}
use azure_functions_langgrap.Base.Text.{strip}
use azure_functions_langgrap.Durable.State.{
  DurableRunPayload, DurableRunResult, ActivityStatus, success, error, rejected, SerializedError,
  get, payload_to_dict, payload_from_dict, result_to_dict, result_from_dict, status_text,
  error_value, named_status, declared_error, declared_text, required_text, optional_text,
}

pub data DurableRunStatus : Type 0 where
  pending running finished errored cancelled : DurableRunStatus

is_text : Option Value → String → Bool
is_text (some (scalar (text s))) t = s == t
is_text _ t = false

-- `output.get("activity_status")`, where there is an output.
activity_status_of : Option Fields → Option Value
activity_status_of none = none
activity_status_of (some output) = get "activity_status" output

completed_status : Option Value → DurableRunStatus
unfolding is_text
completed_status status =
    if is_text status "error" || is_text status "rejected" then errored else finished

named_runtime : String → Option Fields → DurableRunStatus
unfolding completed_status activity_status_of
named_runtime status output =
    if status == "" || status == "Pending"
    then if status == "Pending" then pending else running
    else if status == "Running"
    then running
    else if status == "Suspended" || status == "ContinuedAsNew"
    then running
    else if status == "Completed"
    then completed_status (activity_status_of output)
    else if status == "Failed"
    then errored
    else if status == "Terminated" || (status == "Canceled" || status == "Cancelled")
    then cancelled
    else running

or_empty : Option String → String
or_empty none = ""
or_empty (some s) = s

-- `normalize_status`
unfoldable pub normalize_status : Option String → Option Fields → DurableRunStatus
unfolding named_runtime or_empty
normalize_status runtime_status output = named_runtime (strip (or_empty runtime_status)) output

-- What the activity wrote is what the poll reads: an orchestration that has completed is reported
-- finished exactly if its activity succeeded, and errored otherwise.
pub normalize_status-result :
    (r : DurableRunResult)
    → normalize_status (some "Completed") (some (result_to_dict r))
      ≡ (elim r.activity_status [ success ↦ finished | error ↦ errored | rejected ↦ errored ])
unfolding normalize_status result_to_dict get strip
normalize_status-result r = by_status r.activity_status
  where
    by_status :
        (s : ActivityStatus)
        → completed_status (some (scalar (text (status_text s))))
          ≡ (elim s [ success ↦ finished | error ↦ errored | rejected ↦ errored ])
    by_status success = refl
    by_status error = refl
    by_status rejected = refl

declared_text-optional_text :
    (o : Option String) → declared_text (some (optional_text o)) ≡ returns o
unfolding declared_text
declared_text-optional_text none = refl
declared_text-optional_text (some s) = refl

named_status-status_text : (s : ActivityStatus) → named_status (status_text s) ≡ returns s
unfolding named_status status_text
named_status-status_text success = refl
named_status-status_text error = refl
named_status-status_text rejected = refl

declared_error-error_value :
    (e : Option SerializedError) → declared_error (some (error_value e)) ≡ returns e
unfolding declared_error error_value get required_text
declared_error-error_value none = refl
declared_error-error_value (some e) = refl

-- `from_dict` of the `to_dict` of a payload gives that payload back.
pub payload_from_dict-payload_to_dict :
    (p : DurableRunPayload) → payload_from_dict (payload_to_dict p) ≡ returns p
unfolding payload_from_dict payload_to_dict get
payload_from_dict-payload_to_dict p = rw (declared_text-optional_text p.thread_id) (
    rw (declared_text-optional_text p.assistant_id)
      (rw (declared_text-optional_text p.correlation_id) refl))

-- `from_dict` of the `to_dict` of a result gives that result back.
pub result_from_dict-result_to_dict :
    (r : DurableRunResult) → result_from_dict (result_to_dict r) ≡ returns r
unfolding result_from_dict result_to_dict get
result_from_dict-result_to_dict r =
    rw (named_status-status_text r.activity_status, declared_error-error_value r.error) refl
