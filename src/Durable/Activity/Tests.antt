-- ===== src/Durable/Activity/Tests.antt =====
-- A graph that raises, and a lock that hands out one token or none.
use azure_functions_langgrap.Base.{
  ℕ, String, true, Option, none, some, [], ◌∷◌, Outcome, returns, raises, ◌≡◌, refl, sym, arith,
  string_eq,
}
use azure_functions_langgrap.Base.Dict.{Dict, lookup}
use azure_functions_langgrap.Base.Json.{Value, scalar, obj, end, null}
use azure_functions_langgrap.Locks.Guard.{Config}
use azure_functions_langgrap.Runs.Effects.{Fault, exception}
use azure_functions_langgrap.Runs.Observer.{Balanced}
use azure_functions_langgrap.Runs.AsyncLock.{ThreadLock, undisturbed}
use azure_functions_langgrap.Durable.State.{DurableRunPayload}
use azure_functions_langgrap.Durable.Activity.{
  GraphRegistration, Waits, invoke_graph, execute_langgraph_run_impl, prepare_config, config_of,
}
use azure_functions_langgrap.Durable.Activity.Outcomes.{Reports, execute_langgraph_run_impl-Reports}
use azure_functions_langgrap.Durable.Activity.Endings.{
  Mild, Returns, execute_langgraph_run_impl-Returns,
}

abbrev lock_of : Option String → ThreadLock ℕ
lock_of token = record {
  acquire = λ graph thread. returns token;
  release = λ graph thread t. returns tt;
  ownership_guard = none;
}

abbrev boom : Fault
boom = exception "ValueError" "boom"

abbrev graph : GraphRegistration ℕ ℕ
graph = record {
  name = "g";
  has_checkpointer = true;
  async_mode = true;
  invocable = true;
  invoke = λ v c. raises boom;
  ainvoke = λ v c. raises boom;
}

abbrev calm : Waits
calm = record { for_token = undisturbed; for_release = undisturbed; for_graph = undisturbed }

abbrev payload : DurableRunPayload
payload = record {
  run_id = "r";
  graph_name = "g";
  input = obj end;
  thread_id = some "t";
  config = end;
  assistant_id = none;
  correlation_id = none;
}

abbrev registry : Dict String (GraphRegistration ℕ ℕ)
registry = ("g", graph) ∷ []

abbrev always : ℕ → Outcome {0, 0} Fault Unit
always g = returns tt

abbrev as_null : ℕ → Option Value
as_null n = some (scalar null)

found : lookup "g" registry ≡ some graph
unfolding lookup
found = refl

Mild-check : (g : ℕ) → Mild (always g)
Mild-check g x e = ground (arith, e)

raised_boom : (x : Fault) → ◌≡◌ {A = Outcome Fault ℕ} (raises boom) (raises x) → boom ≡ x
raised_boom x e = ground (arith, e)

Mild-graph : (v : Value) (c : Option (Config Value ℕ)) → Mild (invoke_graph graph undisturbed v c)
unfolding invoke_graph
Mild-graph v c x e = rw (sym (raised_boom x e)) refl

usable : Returns {A = Option (Config Value ℕ)} (prepare_config (some "t") (config_of end))
unfolding prepare_config config_of lookup
usable = (_, refl)

Reports_example :
    Reports ℕ ℕ
      (execute_langgraph_run_impl always as_null (lock_of (some "k")) calm registry payload)
    × Balanced ℕ ℕ
        (execute_langgraph_run_impl always as_null (lock_of (some "k")) calm registry payload)
Reports_example =
    execute_langgraph_run_impl-Reports always as_null (lock_of (some "k")) calm registry payload

acquires : (g t : String) → Returns ((lock_of (some "k")).acquire g t)
acquires g t = (some "k", refl)

releases : (g t k : String) → (lock_of (some "k")).release g t k ≡ returns tt
releases g t k = refl

Returns_example :
    Returns (execute_langgraph_run_impl always as_null (lock_of (some "k")) calm registry payload).1
Returns_example =
    execute_langgraph_run_impl-Returns always as_null (lock_of (some "k")) calm graph Mild-check
      Mild-graph acquires releases refl refl registry payload found usable
