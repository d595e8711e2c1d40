-- ===== src/Durable/Lifecycle/Tests.antt =====
-- A client with one run, which failed.
use azure_functions_langgrap.Base.{
  String, false, some, [], ◌==◌, string_eq, true, pos, returns, raises, ◌≡◌, refl,
}
use azure_functions_langgrap.Base.Json.{Fields, scalar, obj, end, field, text, integer, boolean}
use azure_functions_langgrap.Base.Text.{strip}
use azure_functions_langgrap.Durable.State.{get}
use azure_functions_langgrap.Runs.Effects.{exception}
use azure_functions_langgrap.Durable.State.Status.{errored, normalize_status}
use azure_functions_langgrap.Durable.Lifecycle.{
  Builtins, Client, OrchestrationStatus, member, runtime_status_str, get_run_impl, run_fields,
  generic_error, as_fields,
}
use azure_functions_langgrap.Durable.Lifecycle.Requests.{get_run_impl-hides}

abbrev secret : Fields
secret = field "type" (scalar (text "ValueError")) (field "message" (scalar (text "secret")) end)

abbrev failure : Fields
failure = field "activity_status" (scalar (text "error")) (field "error" (obj secret) end)

abbrev done : OrchestrationStatus
done = record { runtime_status = member "Completed"; output = obj failure }

abbrev client : Client
client = record {
  start_new = λ orchestrator run_id fields. returns run_id;
  get_status = λ run_id. returns (some done);
  terminate = λ run_id reason. returns tt;
}

is_named : runtime_status_str (some done) ≡ some "Completed"
unfolding runtime_status_str
is_named = refl

is_errored : normalize_status (some "Completed") (some failure) ≡ errored
unfolding normalize_status strip get
is_errored = refl

has_error : as_fields (get "error" failure) ≡ some secret
unfolding get
has_error = refl

abbrev builtins : Builtins
builtins = record { str = λ v. "7"; dict = λ v. raises (exception "TypeError" "") }

-- A client that names its run by a number.
abbrev numbered : Fields
numbered = field "run_id" (scalar (integer (pos 7))) (field "thread_id" (scalar (boolean true)) end)

get_run_impl_example :
    (shown_to : Fields) × (get_run_impl client "r"
      ≡ ([], returns (200, run_fields "r" "error" (field "output" (obj shown_to) end))))
    × (get "error" shown_to ≡ some generic_error)
    × ((key : String) → "error" == key ≡ false → get key shown_to ≡ get key failure)
get_run_impl_example =
    get_run_impl-hides failure "r" client done refl "Completed" secret is_named refl is_errored
      has_error
