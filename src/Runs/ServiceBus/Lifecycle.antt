-- ===== src/Runs/ServiceBus/Lifecycle.antt =====
-- What one message makes of the run: its observer events, its lock and its handler.
use azure_functions_langgrap.Base.{
  String, Bool, true, false, Option, none, some, is_some, [], ◌∷◌, ◌==◌, string_eq, Outcome,
  returns, raises, if◌then◌else◌, ◌≡◌, refl, ap, arith, ==_iff, count_if, sym,
}
use azure_functions_langgrap.Base.Text.{strip}
use azure_functions_langgrap.Base.Json.{Value}
use azure_functions_langgrap.Runs.Effects.{
  Fault, Event, on_run_started, on_run_completed, on_run_failed, handled, Effect, lift, emit,
  observed, ◌>>=◌, ◌>>◌,
}
use azure_functions_langgrap.Runs.Observer.{
  is_started, is_terminal, count_if-append, Balanced, Balanced-bind, Balanced-finally, quiet,
}
use azure_functions_langgrap.Runs.Observer.Locked.{async_thread_lock-Balanced}
use azure_functions_langgrap.Locks.Guard.{Config}
use azure_functions_langgrap.Runs.Guarded.{guarded_run}
use azure_functions_langgrap.Runs.AsyncLock.{ThreadLock, Wait}
use azure_functions_langgrap.Runs.ServiceBus.{
  Registration, use_lock, message_thread_id, checked_thread_id, session_thread_id,
  factory_thread_id, locked_run, async_locked_run, async_body, process_service_bus_message_async,
  observed_run, take_lock, failed_event, release_held, handle_result, process_service_bus_message,
  thread_config,
}

session_thread_id_lem :
    (factory : Bool) (given sid thread : Option String)
    → session_thread_id factory given sid ≡ returns thread
    → (s : String) × (thread ≡ some s)
      × (sid ≡ some s)
      × (strip s == "" ≡ false)
      × (factory ≡ true → given ≡ some s)
unfolding session_thread_id
session_thread_id_lem factory given none thread h = ground (arith, h)
session_thread_id_lem factory none (some s) thread h =
    (s, ground (arith, h), refl, ground (arith, h), λ f. ground (arith, h, f))
session_thread_id_lem factory (some g) (some s) thread h =
    (s, ground (arith, h), refl, ground (arith, h), λ f. ground (arith, h, f, ==_iff g s))

checked_thread_id_lem :
    (factory : Bool) (sid thread : Option String) (given : Outcome Fault (Option String))
    → checked_thread_id true factory sid given ≡ returns thread
    → (s : String) × (thread ≡ some s)
      × (sid ≡ some s)
      × (strip s == "" ≡ false)
      × (factory ≡ true → given ≡ returns (some s))
unfolding checked_thread_id
checked_thread_id_lem factory sid thread (raises x) h = ground (arith, h)
checked_thread_id_lem factory sid thread (returns given) h =
    let (s, t, i, b, f) = session_thread_id_lem factory given sid thread h in
    (s, t, i, b, λ y. ap (λ (o : Option String). returns o) (f y))

module _ {M G R : Type 0} (session_id : M → Option String) (reg : Registration M G R) (msg : M)
    (thread : Option String) where
  -- In session mode the thread of a run is the message's session id, which is not blank and which a
  -- factory, if there is one, gives too.
  pub message_thread_id_lem :
      reg.session ≡ true
      → message_thread_id session_id reg msg ≡ returns thread
      → (s : String) × (thread ≡ some s)
        × (session_id msg ≡ some s)
        × (strip s == "" ≡ false)
        × (is_some reg.thread_id_factory ≡ true
            → factory_thread_id reg.thread_id_factory msg ≡ returns (some s))
  unfolding message_thread_id
  message_thread_id_lem session h =
      checked_thread_id_lem (is_some reg.thread_id_factory) (session_id msg) thread
        (factory_thread_id reg.thread_id_factory msg) (rw (sym session) h)

module _ (G R : Type 0) where
  observed-Balanced :
      (e : Effect (Event G R) R)
      → count_if is_started e.0 ≡ 0
      → count_if is_terminal e.0 ≡ 0
      → Balanced G R (emit on_run_started (returns tt) >> observed e failed_event on_run_completed)
  unfolding failed_event
  observed-Balanced (log, returns r) s t = omega (
    arith,
    count_if-append is_started log (on_run_completed ∷ []),
    count_if-append is_terminal log (on_run_completed ∷ []),
    s,
    t,
  )
  observed-Balanced (log, raises x) s t = omega (
    arith,
    count_if-append is_started log (on_run_failed x ∷ []),
    count_if-append is_terminal log (on_run_failed x ∷ []),
    s,
    t,
  )

  take_lock-Balanced :
      (lock : ThreadLock G) (name : String) (held : Bool) (thread : Option String)
      → Balanced G R (take_lock lock name held thread)
  unfolding take_lock
  take_lock-Balanced lock name true (some thread) = refl
  take_lock-Balanced lock name true none = refl
  take_lock-Balanced lock name false thread = refl

  release_held-Balanced :
      (lock : ThreadLock G) (name : String) (thread token : Option String)
      → Balanced G R (release_held lock name thread token)
  unfolding release_held
  release_held-Balanced lock name none token = refl
  release_held-Balanced lock name (some thread) none = refl
  release_held-Balanced lock name (some thread) (some token) = refl

  handle_result-Balanced :
      {M : Type 0} (handler : Option (R → M → Outcome {0, 0} Fault Unit)) (msg : M) (result : R)
      → Balanced G R (handle_result handler msg result)
  unfolding handle_result
  handle_result-Balanced none msg result = refl
  handle_result-Balanced (some handler) msg result =
      Balanced-bind G R (emit (handled result) (handler result msg)) _ refl (λ u. refl)

module _ {M G R : Type 0} (check : G → Outcome {0, 0} Fault Unit) (session_id : M → Option String)
    (reg : Registration M G R) (lock : ThreadLock G) where
  observed_run-Balanced :
      (invoke : Value → Option (Config Value G) → Outcome Fault R)
      → (graph_input : Value) (thread lock_thread token : Option String)
      → Balanced G R
          (observed_run check session_id reg lock invoke graph_input thread lock_thread token)
  unfolding observed_run
  observed_run-Balanced invoke graph_input thread lock_thread token =
      let silent =
        quiet check lock reg.name lock_thread token (thread_config thread) graph_input invoke in
      observed-Balanced G R
        (guarded_run check lock reg.name lock_thread token (thread_config thread) graph_input
          invoke)
        (silent is_started (λ v c. refl)) (silent is_terminal (λ v c. refl))

  locked_run-Balanced :
      (graph_input : Value) (thread : Option String)
      → Balanced G R (locked_run check session_id reg lock graph_input thread)
  unfolding locked_run
  locked_run-Balanced graph_input thread =
      Balanced-bind G R (take_lock lock reg.name (use_lock session_id reg thread) thread) _
        (take_lock-Balanced G R lock reg.name (use_lock session_id reg thread) thread)
        (λ token.
          Balanced-finally G R
            (observed_run check session_id reg lock reg.invoke graph_input thread thread token)
            (release_held lock reg.name thread token)
            (observed_run-Balanced reg.invoke graph_input thread thread token)
            (release_held-Balanced G R lock reg.name thread token))

  async_body-Balanced :
      (graph_input : Value) (thread lock_thread token : Option String)
      → Balanced G R (async_body check session_id reg lock graph_input thread lock_thread token)
  unfolding async_body
  async_body-Balanced graph_input thread (some t) none = refl
  async_body-Balanced graph_input thread (some t) (some k) =
      observed_run-Balanced reg.ainvoke graph_input thread (some t) (some k)
  async_body-Balanced graph_input thread none token =
      observed_run-Balanced reg.ainvoke graph_input thread none token

  async_locked_run-Balanced :
      (w back : Wait) (graph_input : Value) (thread : Option String)
      → Balanced G R (async_locked_run check session_id reg lock w back graph_input thread)
  unfolding async_locked_run
  async_locked_run-Balanced w back graph_input thread =
      let lock_thread = if use_lock session_id reg thread then thread else none in
      async_thread_lock-Balanced lock w back reg.name _
        (λ token. async_body-Balanced graph_input thread lock_thread token) lock_thread

  -- What a driver does around its run keeps the count even.
  around-Balanced :
      (run : Value → Option String → Effect (Event G R) R)
      → ((v : Value) (t : Option String) → Balanced G R (run v t))
      → (msg : M)
      → Balanced G R (
          lift (reg.input_mapper msg) >>= λ v. lift (message_thread_id session_id reg msg) >>= λ t.
          run v t >>= λ r. handle_result reg.result_handler msg r)
  around-Balanced run balanced msg = Balanced-bind G R (lift (reg.input_mapper msg)) _ refl (λ v.
      Balanced-bind G R (lift (message_thread_id session_id reg msg)) _ refl (λ t.
        Balanced-bind G R (run v t) _ (balanced v t)
          (λ r. handle_result-Balanced G R reg.result_handler msg r)))

  -- In both drivers, a message that starts a run in the eyes of the observer ends it there as often,
  -- whatever raises and, in the asynchronous one, whatever cancels the caller while it waits for the
  -- lock.
  pub process_service_bus_message-Balanced :
      (msg : M) (w back : Wait)
      → Balanced G R (process_service_bus_message check session_id reg lock msg)
        × Balanced G R (process_service_bus_message_async check session_id reg lock w back msg)
  unfolding process_service_bus_message process_service_bus_message_async
  process_service_bus_message-Balanced msg w back = (
    around-Balanced (λ v t. locked_run check session_id reg lock v t) locked_run-Balanced msg,
    around-Balanced (λ v t. async_locked_run check session_id reg lock w back v t)
        (async_locked_run-Balanced w back) msg,
  )
