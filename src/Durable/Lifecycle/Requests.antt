-- ===== src/Durable/Lifecycle/Requests.antt =====
-- What the requests of durable/_lifecycle.py do and show.
use azure_functions_langgrap.Base.{
  String, true, false, ◌⊎◌, Option, none, some, List, [], ◌∷◌, ◌==◌, string_eq, if◌then◌else◌,
  returns, ◌≡◌, refl, arith, ==_iff,
}
use azure_functions_langgrap.Base.Json.{Value, Fields, scalar, text, obj, end, field}
use azure_functions_langgrap.Runs.Effects.{Effect}
use azure_functions_langgrap.Durable.State.{get, given, is_falsy}
use azure_functions_langgrap.Durable.State.Status.{errored, normalize_status}
use azure_functions_langgrap.Durable.Lifecycle.{
  Client, OrchestrationStatus, Call, start_called, terminate_called, Response, runtime_status_str,
  get_run_impl, cancel_run_impl, run_fields, not_found, put, generic_error, shown_output, hidden,
  shown, as_fields, terminated, Builtins, text_of,
}

pub get-put :
    (k j : String) (v : Value) (fs : Fields)
    → get j (put k v fs) ≡ (if k == j then some v else get j fs)
unfolding get put
get-put k j v end = refl
get-put k j v (field i w fs) = ground (arith, get-put k j v fs, ==_iff k j, ==_iff i k, ==_iff i j)

-- The effect does nothing unless it returns, and then has the property.
module _ (P : List Call → Response → Type 0) where
  abbrev Ensures : Effect Call Response → Type 0
  Ensures e = (r : Response) → e.1 ≡ returns r → P e.0 r

-- The run of a request: the id that the client gave, as a text, or a fresh one where it gave none or
-- an empty one.
abbrev pub IsRun : Builtins → String → Fields → String → Type 0
IsRun b fresh body run_id =
    ((v : Value) × (get "run_id" body ≡ some v) × (is_falsy v ≡ false) × (text_of b v ≡ run_id))
    ⊎ (((get "run_id" body ≡ none)
          ⊎ ((v : Value) × (get "run_id" body ≡ some v) × (is_falsy v ≡ true)))
        × (run_id ≡ fresh))

module _ (b : Builtins) (orchestrator graph_name fresh : String) (body : Fields) where
  -- One run under one name: the orchestration's instance, the run of its payload and the response;
  -- with the graph of the route and the fields of the request.
  abbrev pub OneRun : List Call → Response → Type 0
  OneRun log response =
      (run_id : String) × (fields : Fields) × IsRun b fresh body run_id
      × (log ≡ start_called orchestrator run_id fields ∷ [])
      × (response ≡ (202, run_fields run_id "pending" end))
      × (get "run_id" fields ≡ some (scalar (text run_id)))
      × (get "graph_name" fields ≡ some (scalar (text graph_name)))
      × (get "input" fields ≡ some (given (get "input" body)))
      × (get "assistant_id" fields ≡ some (given (get "assistant_id" body)))
      × (get "correlation_id" fields ≡ some (given (get "correlation_id" body)))

module _ (output : Fields) (run_id : String) (client : Client) (status : OrchestrationStatus)
    (known : client.get_status run_id ≡ returns (some status)) where
  shown_errored :
      (e : Option Value) (m : Fields)
      → as_fields e ≡ some m
      → get "error" output ≡ e
      → shown_output errored (obj output) ≡ obj (put "error" generic_error output)
  unfolding shown_output hidden
  shown_errored e m h at = rw (at, h) refl

  -- A poll of a run that is in error and whose output has an error mapping answers with that output,
  -- the error replaced by a generic one: neither its type nor its message is shown, and every other
  -- field is as it was.
  pub get_run_impl-hides :
      (runtime : String) (m : Fields)
      → runtime_status_str (some status) ≡ some runtime
      → status.output ≡ obj output
      → normalize_status (some runtime) (some output) ≡ errored
      → as_fields (get "error" output) ≡ some m
      → (shown_to : Fields) × (get_run_impl client run_id
          ≡ ([], returns (200, run_fields run_id "error" (field "output" (obj shown_to) end))))
        × (get "error" shown_to ≡ some generic_error)
        × ((key : String) → "error" == key ≡ false → get key shown_to ≡ get key output)
  unfolding get_run_impl shown
  get_run_impl-hides runtime m named at normal mapped = (
    put "error" generic_error output,
    rw (known, named, at, normal, shown_errored (get "error" output) m mapped refl) refl,
    rw (get-put "error" "error" generic_error output) refl,
    λ key other. rw (get-put "error" key generic_error output, other) refl,
  )

module _ (client : Client) (run_id reason : String) (status : Option OrchestrationStatus)
    (answered : client.get_status run_id ≡ returns status) where
  -- A cancel terminates the run exactly if the client knows it; an unknown run is reported missing, by
  -- the poll too, and nothing is done.
  pub cancel_run_impl_lem :
      (runtime_status_str status ≡ none
        → (cancel_run_impl client run_id reason ≡ ([], returns (not_found run_id)))
          × (get_run_impl client run_id ≡ ([], returns (not_found run_id))))
      × ((runtime : String)
          → runtime_status_str status ≡ some runtime
          → client.terminate run_id reason ≡ returns tt
          → cancel_run_impl client run_id reason ≡ (
            terminate_called run_id reason ∷ [],
            returns (202, run_fields run_id "cancelled" end),
          ))
  unfolding cancel_run_impl get_run_impl terminated shown
  cancel_run_impl_lem = (
    λ unknown. (rw (answered, unknown) refl, rw (answered, unknown) refl),
    λ runtime named done. rw (answered, named, done) refl,
  )
