-- ===== src/Durable/Activity/Endings.antt =====
-- When the activity of durable/_activity.py does not raise.
use azure_functions_langgrap.Base.{
  String, true, false, Option, none, some, List, [], ◌∷◌, string_eq, Outcome, returns, raises, ◌≡◌,
  refl, sym, ap, arith,
}
use azure_functions_langgrap.Base.Dict.{Dict, lookup}
use azure_functions_langgrap.Base.Json.{Value}
use azure_functions_langgrap.Locks.Guard.{
  Config, GuardError, type_error, provider_error, guard_run_config,
}
use azure_functions_langgrap.Runs.Effects.{
  Fault, is_exception, guard_fault, Event, acquire_called, on_run_rejected, invoked, Effect, lift,
  emit, finally, ◌>>=◌,
}
use azure_functions_langgrap.Runs.Guarded.{guarded_run, check_ownership_guard, or_fault}
use azure_functions_langgrap.Runs.AsyncLock.{
  ThreadLock, is_cancelled, scoped, async_thread_lock, acquire_thread_lock, release_thread_lock,
}
use azure_functions_langgrap.Runs.AsyncLock.Tokens.{cancellation_of_undisturbed}
use azure_functions_langgrap.Durable.State.{DurableRunPayload, failed, was_rejected}
use azure_functions_langgrap.Durable.Activity.{
  GraphRegistration, Waits, invoke_graph, execute_langgraph_run_impl, run_registered, under_lock,
  run_with_config, attempt, concluded, not_serialized, captured, encoded, prepare_config, config_of,
  usable_thread, in_use,
}

-- Only `Exception`s are raised.
abbrev pub Mild : {A : Type 0} → Outcome Fault A → Type 0
Mild o = (x : Fault) → o ≡ raises x → is_exception x ≡ true

abbrev pub Returns : {A : Type 0} → Outcome Fault A → Type 0
Returns {A} o = (a : A) × (o ≡ returns a)

raised : {A : Type 0} (y x : Fault) → ◌≡◌ {A = Outcome Fault A} (raises y) (raises x) → y ≡ x
raised y x e = ground (arith, e)

Mild-returns : {A : Type 0} (a : A) → Mild {A = A} (returns a)
Mild-returns a x e = ground (arith, e)

Mild-or_fault : {A : Type 0} (o : Outcome GuardError A) → Mild (or_fault o)
unfolding or_fault
Mild-or_fault (returns a) x e = ground (arith, e)
Mild-or_fault (raises type_error) x e = rw (sym (raised (guard_fault type_error) x e)) refl
Mild-or_fault (raises (provider_error type message)) x e =
    rw (sym (raised (guard_fault (provider_error type message)) x e)) refl

Mild-encoded : (o : Option Value) → Mild (encoded o)
unfolding encoded
Mild-encoded (some v) x e = ground (arith, e)
Mild-encoded none x e = rw (sym (raised not_serialized x e)) refl

module _ {G R : Type 0} where
  Mild-bind :
      {A B : Type 0} (m : Effect (Event G R) A) (f : A → Effect (Event G R) B)
      → Mild m.1
      → ((a : A) → Mild (f a).1)
      → Mild (m >>= f).1
  Mild-bind (log, returns a) f h k = k a
  Mild-bind (log, raises y) f h k = λ x e. h x (ap (λ (z : Fault). raises z) (raised y x e))

  Returns-bind :
      {A B : Type 0} (m : Effect (Event G R) A) (f : A → Effect (Event G R) B)
      → Returns m.1
      → ((a : A) → Returns (f a).1)
      → Returns (m >>= f).1
  Returns-bind (log, returns a) f h k = k a
  Returns-bind (log, raises y) f h k = ground (arith, h.1)

  Returns-finally :
      {A : Type 0} (e : Effect (Event G R) A) (c : Effect (Event G R) Unit)
      → Returns c.1
      → Returns e.1
      → Returns (finally e c).1
  Returns-finally e (log, returns u) h k = k
  Returns-finally e (log, raises x) h k = ground (arith, h.1)

  concluded-Returns :
      (run_id : String) (log : List (Event G R)) (o : Outcome Fault Value)
      → Mild o
      → Returns (concluded run_id log o).1
  unfolding concluded captured
  concluded-Returns run_id log (returns v) h = (_, refl)
  concluded-Returns run_id log (raises x) h = (failed run_id x, rw (h x refl) refl)

module _ {G R : Type 0} (check : G → Outcome {0, 0} Fault Unit) (encode : R → Option Value)
    (lock : ThreadLock G) (waits : Waits) (reg : GraphRegistration G R)
    (mild_check : (g : G) → Mild (check g))
    (mild_graph : (v : Value) (c : Option (Config Value G))
      → Mild (invoke_graph reg waits.for_graph v c)) where
  check-Mild : (g : Option G) → Mild (check_ownership_guard check g)
  unfolding check_ownership_guard
  check-Mild none = Mild-returns tt
  check-Mild (some g) = mild_check g

  guarded_run-Mild :
      (graph_input : Value) (thread token : Option String) (config : Option (Config Value G))
      → Mild
          (guarded_run check lock reg.name thread token config graph_input
            (invoke_graph reg waits.for_graph)).1
  unfolding guarded_run
  guarded_run-Mild graph_input thread token config =
      Mild-bind
        (lift (or_fault (guard_run_config lock.ownership_guard reg.name thread token config))) _
        (Mild-or_fault (guard_run_config lock.ownership_guard reg.name thread token config))
        (λ g.
          Mild-bind
            (emit (invoked graph_input g.0) (invoke_graph reg waits.for_graph graph_input g.0)) _
            (mild_graph graph_input g.0)
            (λ r.
              Mild-bind (lift (check_ownership_guard check g.1)) _ (check-Mild g.1)
                (λ u. Mild-returns r)))

  attempt-Mild :
      (graph_input : Value) (thread token : Option String) (config : Option (Config Value G))
      → Mild (attempt check encode lock waits reg graph_input thread token config).1
  unfolding attempt
  attempt-Mild graph_input thread token config =
      Mild-bind
        (guarded_run check lock reg.name thread token config graph_input
          (invoke_graph reg waits.for_graph))
        _ (guarded_run-Mild graph_input thread token config) (λ r. Mild-encoded (encode r))

  run_with_config-Returns :
      (payload : DurableRunPayload) (thread token : Option String)
      (config : Option (Config Value G))
      → Returns (run_with_config check encode lock waits reg payload thread token config).1
  unfolding run_with_config
  run_with_config-Returns payload thread token config =
      let run = attempt check encode lock waits reg payload.input thread token config in
      concluded-Returns payload.run_id run.0 run.1 (attempt-Mild payload.input thread token config)

  configured-Returns :
      (payload : DurableRunPayload) (thread token : Option String)
      → Returns {A = Option (Config Value G)}
          (prepare_config payload.thread_id (config_of payload.config))
      → Returns
          (lift (prepare_config payload.thread_id (config_of payload.config)) >>= λ config.
            run_with_config check encode lock waits reg payload thread token config).1
  configured-Returns payload thread token usable =
      Returns-bind (lift _) _ usable (λ c. run_with_config-Returns payload thread token c)

  under_lock-Returns :
      (payload : DurableRunPayload) (thread token : Option String)
      → Returns {A = Option (Config Value G)}
          (prepare_config payload.thread_id (config_of payload.config))
      → Returns (under_lock check encode lock waits reg payload thread token).1
  unfolding under_lock
  under_lock-Returns payload (some thread) none usable = (was_rejected payload.run_id in_use, refl)
  under_lock-Returns payload (some thread) (some token) usable =
      configured-Returns payload (some thread) (some token) usable
  under_lock-Returns payload none token usable = configured-Returns payload none token usable

  module _ (acquires : (graph thread : String) → Returns (lock.acquire graph thread))
      (releases : (graph thread token : String) → lock.release graph thread token ≡ returns tt)
      (calm : is_cancelled waits.for_token ≡ false)
      (calm_after : is_cancelled waits.for_release ≡ false) where
    acquire-Returns :
        (thread : String)
        → Returns
            (acquire_thread_lock {R = R} lock waits.for_token waits.for_release reg.name thread).1
    unfolding acquire_thread_lock
    acquire-Returns thread =
        let (token, at) = acquires reg.name thread in
        (token, rw (at, cancellation_of_undisturbed waits.for_token calm) refl)

    release-Returns :
        (graph thread token : String)
        → Returns (release_thread_lock {R = R} lock waits.for_release graph thread token).1
    unfolding release_thread_lock
    release-Returns graph thread token = (
      tt,
      rw (releases graph thread token, cancellation_of_undisturbed waits.for_release calm_after)
          refl,
    )

    scoped-Returns :
        (payload : DurableRunPayload) (thread token : Option String) (locked : String)
        → Returns {A = Option (Config Value G)}
            (prepare_config payload.thread_id (config_of payload.config))
        → Returns
            (scoped lock waits.for_release reg.name locked token
              (λ t. under_lock check encode lock waits reg payload thread t)).1
    unfolding scoped
    scoped-Returns payload thread none locked usable = under_lock-Returns payload thread none usable
    scoped-Returns payload thread (some token) locked usable =
        Returns-finally (under_lock check encode lock waits reg payload thread (some token))
          (release_thread_lock lock waits.for_release reg.name locked token)
          (release-Returns reg.name locked token)
          (under_lock-Returns payload thread (some token) usable)

    locked-Returns :
        (payload : DurableRunPayload) (thread : Option String)
        → Returns {A = Option (Config Value G)}
            (prepare_config payload.thread_id (config_of payload.config))
        → Returns
            (async_thread_lock lock waits.for_token waits.for_release reg.name thread
              (λ t. under_lock check encode lock waits reg payload thread t)).1
    unfolding async_thread_lock
    locked-Returns payload none usable = under_lock-Returns payload none none usable
    locked-Returns payload (some thread) usable =
        Returns-bind (acquire_thread_lock lock waits.for_token waits.for_release reg.name thread) _
          (acquire-Returns thread)
          (λ token. scoped-Returns payload (some thread) token thread usable)

    -- A run whose config its thread can be put into ends in a result, whatever the graph, the guard
    -- and the encoding raise, if these raise nothing but `Exception`s, the lock's own calls do not
    -- raise and nothing cancels the activity while it waits for the lock.
    pub execute_langgraph_run_impl-Returns :
        (registry : Dict String (GraphRegistration G R)) (payload : DurableRunPayload)
        → lookup payload.graph_name registry ≡ some reg
        → Returns {A = Option (Config Value G)}
            (prepare_config payload.thread_id (config_of payload.config))
        → Returns (execute_langgraph_run_impl check encode lock waits registry payload).1
    unfolding execute_langgraph_run_impl run_registered
    execute_langgraph_run_impl-Returns registry payload found usable =
        rw found
          (locked-Returns payload (usable_thread payload.thread_id reg.has_checkpointer) usable)

module _ {G R : Type 0} (check : G → Outcome {0, 0} Fault Unit) (encode : R → Option Value)
    (lock : ThreadLock G) (waits : Waits) (reg : GraphRegistration G R)
    (calm : is_cancelled waits.for_token ≡ false) where
  -- A run of a checkpointed graph whose thread is in use is rejected: the graph is not invoked and
  -- the observer hears of the rejection.
  pub execute_langgraph_run_impl-rejected :
      (registry : Dict String (GraphRegistration G R)) (payload : DurableRunPayload)
      (thread : String)
      → lookup payload.graph_name registry ≡ some reg
      → usable_thread payload.thread_id reg.has_checkpointer ≡ some thread
      → lock.acquire reg.name thread ≡ returns none
      → execute_langgraph_run_impl check encode lock waits registry payload ≡ (
        acquire_called reg.name thread ∷ on_run_rejected ∷ [],
        returns (was_rejected payload.run_id in_use),
      )
  unfolding execute_langgraph_run_impl run_registered async_thread_lock acquire_thread_lock scoped
      under_lock
  execute_langgraph_run_impl-rejected registry payload thread found usable at =
      rw (found, usable, at, cancellation_of_undisturbed waits.for_token calm) refl
