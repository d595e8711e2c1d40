-- ===== src/Runs/ServiceBus/Tests.antt =====
-- A session queue whose messages are their session ids, and a lock that hands out one token.
use azure_functions_langgrap.Base.{
  ℕ, String, true, false, Option, none, some, ◌∷◌, ◌++◌, string_eq, Outcome, returns, ◌≡◌, ◌≢◌,
  refl, false≢true, ==_iff, arith,
}
use azure_functions_langgrap.Base.Json.{scalar, null}
use azure_functions_langgrap.Base.Text.{strip}
use azure_functions_langgrap.Runs.Effects.{Fault, acquire_called, release_called, on_run_started}
use azure_functions_langgrap.Runs.Guarded.{guarded_run}
use azure_functions_langgrap.Runs.AsyncLock.{ThreadLock, Wait, undisturbed}
use azure_functions_langgrap.Runs.ServiceBus.{
  Registration, message_thread_id, process_service_bus_message, process_service_bus_message_async,
  thread_config,
}
use azure_functions_langgrap.Runs.Observer.{Balanced}
use azure_functions_langgrap.Runs.ServiceBus.Lifecycle.{process_service_bus_message-Balanced}
use azure_functions_langgrap.Runs.ServiceBus.Agreement.{process_service_bus_message-agrees}
use azure_functions_langgrap.Runs.ServiceBus.Held.{
  ending, handling, process_service_bus_message-held,
}

abbrev lock_of : Option String → ThreadLock ℕ
lock_of token = record {
  acquire = λ graph thread. returns token;
  release = λ graph thread t. returns tt;
  ownership_guard = none;
}

abbrev twice : Wait
twice = record { deliveries = 2; late = false }

abbrev sessions : String → Option String
sessions msg = some msg

abbrev queue : Registration String ℕ ℕ
queue = record {
  name = "g";
  has_checkpointer = true;
  session = true;
  session_exclusive = false;
  input_mapper = λ msg. returns (scalar null);
  thread_id_factory = none;
  result_handler = some (λ r msg. returns tt);
  invoke = λ v c. returns 7;
  ainvoke = λ v c. returns 7;
}

abbrev always : ℕ → Outcome {0, 0} Fault Unit
always g = returns tt

threaded : message_thread_id sessions queue "s" ≡ returns (some "s")
unfolding message_thread_id strip
threaded = refl

not_empty : ◌≢◌ {A = String} "k" ""
not_empty e = false≢true ((==_iff {A = String} "k" "").1 e)

not_empty_token :
    (graph thread : String) → (lock_of (some "k")).acquire graph thread ≢ returns (some "")
not_empty_token graph thread e = ground (arith, e, not_empty)

Balanced_example :
    Balanced ℕ ℕ (process_service_bus_message always sessions queue (lock_of (some "k")) "s")
    × Balanced ℕ ℕ (
        process_service_bus_message_async always sessions queue
          (lock_of (some "k"))
          twice
          undisturbed
          "s")
Balanced_example =
    process_service_bus_message-Balanced always sessions queue (lock_of (some "k")) "s" twice
      undisturbed

agrees_example :
    process_service_bus_message always sessions queue (lock_of (some "k")) "s"
    ≡ process_service_bus_message_async always sessions queue
        (lock_of (some "k"))
        undisturbed
        undisturbed
        "s"
agrees_example =
    process_service_bus_message-agrees always sessions queue (lock_of (some "k")) refl
      not_empty_token "s"

held_example : (process_service_bus_message always sessions queue (lock_of (some "k")) "s").0 ≡ (
    let run =
      guarded_run always
        (lock_of (some "k"))
        "g"
        (some "s")
        (some "k")
        (thread_config (some "s"))
        (scalar null)
        queue.invoke in
    acquire_called "g" "s"
    ∷ on_run_started
    ∷ (run.0
        ++ ending run.1
          ∷ release_called "g" "s" "k"
          ∷ handling queue.result_handler run.1 (returns tt)))
held_example =
    process_service_bus_message-held always sessions queue (lock_of (some "k")) "s" (scalar null)
      "s" refl threaded refl "k" refl not_empty
