-- ===== src/Runs/ServiceBus/Held.antt =====
-- The whole run of one message whose thread is locked.
use azure_functions_langgrap.Base.{
  String, true, Option, none, some, List, [], ◌∷◌, ◌++◌, string_eq, Outcome, returns, raises, ◌≡◌,
  ◌≢◌, refl, ap, ◌∙◌, ==-false_of_ne,
}
use azure_functions_langgrap.Base.Json.{Value}
use azure_functions_langgrap.Runs.Effects.{
  Fault, Event, acquire_called, release_called, on_run_started, on_run_completed, on_run_failed,
  handled, Effect, pure, emit, finally, observed, ◌>>=◌, ◌>>◌,
}
use azure_functions_langgrap.Runs.Guarded.{guarded_run}
use azure_functions_langgrap.Runs.AsyncLock.{ThreadLock}
use azure_functions_langgrap.Runs.ServiceBus.{
  Registration, use_lock, message_thread_id, locked_run, observed_run, take_lock, acquired_token,
  held_or_contention, contention, failed_event, release_held, handle_result,
  process_service_bus_message, thread_config,
}

++-assoc : {A : Type 0} (xs ys zs : List A) → (xs ++ ys) ++ zs ≡ xs ++ (ys ++ zs)
++-assoc [] ys zs = refl
++-assoc (x ∷ xs) ys zs = ap (λ (l : List _). x ∷ l) (++-assoc xs ys zs)

abbrev pub ending : {G R : Type 0} → Outcome Fault R → Event G R
ending (returns r) = on_run_completed
ending (raises x) = on_run_failed x

-- The handler is called where the run and the release have both gone well.
abbrev pub handling :
    {M G R : Type 0}
    → Option (R → M → Outcome {0, 0} Fault Unit)
    → Outcome Fault R
    → Outcome {0, 0} Fault Unit
    → List (Event G R)
handling handler (raises x) result = []
handling handler (returns r) (raises x) = []
handling none (returns r) (returns u) = []
handling (some handler) (returns r) (returns u) = handled r ∷ []

handled_log :
    {E A : Type 0} (e : E) (o : Outcome {0, 0} Fault Unit) (a : A) → (emit e o >> pure a).0 ≡ e ∷ []
handled_log e (returns u) a = refl
handled_log e (raises x) a = refl

bind_prepend :
    {E A B : Type 0} (x : E) (m : Effect E A) (f : A → Effect E B)
    → (◌>>=◌ {E = E} (x ∷ m.0, m.1) f).0 ≡ x ∷ (m >>= f).0
bind_prepend x (log, returns a) f = refl
bind_prepend x (log, raises y) f = refl

module _ {G R : Type 0} where
  held : Effect (Event G R) R → Event G R → Outcome {0, 0} Fault Unit → Effect (Event G R) R
  held e released result =
      finally (emit on_run_started (returns tt) >> observed e failed_event on_run_completed)
        (emit released result)

module _ {M G R : Type 0} where
  held_log :
      (e : Effect (Event G R) R) (released : Event G R) (result : Outcome {0, 0} Fault Unit)
      (handler : Option (R → M → Outcome {0, 0} Fault Unit)) (msg : M)
      → (finally
            (emit on_run_started (returns tt) >> observed e failed_event on_run_completed)
            (emit released result)
          >>= λ r. handle_result handler msg r).0
        ≡ on_run_started ∷ (e.0 ++ ending e.1 ∷ released ∷ handling handler e.1 result)
  unfolding failed_event handle_result
  held_log (log, returns r) released (returns u) none msg =
      rw (++-assoc log (on_run_completed ∷ []), ++-assoc log (on_run_completed ∷ released ∷ []))
        refl
  held_log (log, returns r) released (returns u) (some handler) msg =
      rw
        (
          ++-assoc log (on_run_completed ∷ []),
          ++-assoc log (on_run_completed ∷ released ∷ []),
          handled_log {E = Event G R} (handled r) (handler r msg) r,
        )
        refl
  held_log (log, returns r) released (raises x) handler msg =
      rw (++-assoc log (on_run_completed ∷ [])) refl
  held_log (log, raises x) released (returns u) handler msg =
      rw (++-assoc log (on_run_failed x ∷ [])) refl
  held_log (log, raises x) released (raises y) handler msg =
      rw (++-assoc log (on_run_failed x ∷ [])) refl

  prepended_log :
      (x : Event G R) (e : Effect (Event G R) R) (released : Event G R)
      (result : Outcome {0, 0} Fault Unit) (handler : Option (R → M → Outcome {0, 0} Fault Unit))
      (msg : M)
      → (◌>>=◌ {E = Event G R}
          (x ∷ (held e released result).0, (held e released result).1)
          (λ r. handle_result handler msg r)).0
        ≡ x ∷ on_run_started ∷ (e.0 ++ ending e.1 ∷ released ∷ handling handler e.1 result)
  unfolding held
  prepended_log x e released result handler msg =
      bind_prepend x (held e released result) (λ r. handle_result handler msg r)
      ∙ ap (λ (log : List (Event G R)). x ∷ log) (held_log e released result handler msg)

module _ {M G R : Type 0} (check : G → Outcome {0, 0} Fault Unit) (session_id : M → Option String)
    (reg : Registration M G R) (lock : ThreadLock G) (msg : M) (graph_input : Value)
    (thread : String) (mapped : reg.input_mapper msg ≡ returns graph_input)
    (threaded : message_thread_id session_id reg msg ≡ returns (some thread))
    (locks : use_lock session_id reg (some thread) ≡ true) where
  held-run :
      (token : String)
      → lock.acquire reg.name thread ≡ returns (some token)
      → token ≢ ""
      → locked_run check session_id reg lock graph_input (some thread) ≡ (
          let run =
            held
              (guarded_run check lock reg.name
                (some thread)
                (some token)
                (thread_config (some thread))
                graph_input
                reg.invoke)
              (release_called reg.name thread token)
              (lock.release reg.name thread token) in
          (acquire_called reg.name thread ∷ run.0, run.1))
  unfolding held locked_run observed_run take_lock release_held acquired_token held_or_contention
  held-run token at ne = rw (locks, at, ==-false_of_ne token "" ne) refl

  -- A message whose thread takes the lock asks for it first, starts the run, does what the guarded
  -- run does, reports its end, releases the lock's token and only then, where all went well, calls
  -- the result handler.
  pub process_service_bus_message-held :
      (token : String)
      → lock.acquire reg.name thread ≡ returns (some token)
      → token ≢ ""
      → (process_service_bus_message check session_id reg lock msg).0 ≡ (
          let run =
            guarded_run check lock reg.name
              (some thread)
              (some token)
              (thread_config (some thread))
              graph_input
              reg.invoke in
          acquire_called reg.name thread
          ∷ on_run_started
          ∷ (run.0
              ++ ending run.1
                ∷ release_called reg.name thread token
                ∷ handling reg.result_handler run.1 (lock.release reg.name thread token)))
  unfolding process_service_bus_message
  process_service_bus_message-held token at ne =
      rw (mapped, threaded, held-run token at ne)
        (prepended_log (acquire_called reg.name thread)
          (guarded_run check lock reg.name (some thread) (some token) (thread_config (some thread))
            graph_input reg.invoke)
          (release_called reg.name thread token) (lock.release reg.name thread token)
          reg.result_handler msg)

  -- A message whose thread is in use raises without a run: the broker delivers it again.
  pub process_service_bus_message-contention :
      lock.acquire reg.name thread ≡ returns none
      → process_service_bus_message check session_id reg lock msg
        ≡ (acquire_called reg.name thread ∷ [], raises contention)
  unfolding process_service_bus_message locked_run take_lock acquired_token held_or_contention
  process_service_bus_message-contention at = rw (mapped, threaded, locks, at) refl
