-- ===== src/Durable/State/Tests.antt =====
-- A result as Durable carries it.
use azure_functions_langgrap.Base.{some, ◌≡◌}
use azure_functions_langgrap.Base.Json.{scalar, null}
use azure_functions_langgrap.Durable.State.{
  DurableRunResult, success, error, rejected, result_to_dict,
}
use azure_functions_langgrap.Durable.State.Status.{
  finished, errored, normalize_status, normalize_status-result,
}

abbrev contended : DurableRunResult
contended = record {
  run_id = "r";
  activity_status = rejected;
  result = scalar null;
  error = some (record { type = "ThreadContentionError"; message = "in use" });
}

normalize_status_example :
    normalize_status (some "Completed") (some (result_to_dict contended))
    ≡ (elim contended.activity_status [ success ↦ finished | error ↦ errored | rejected ↦ errored ])
normalize_status_example = normalize_status-result contended
