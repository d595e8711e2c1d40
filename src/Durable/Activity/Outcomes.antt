-- ===== src/Durable/Activity/Outcomes.antt =====
-- How the activity of durable/_activity.py ends.
use azure_functions_langgrap.Base.{
  String, Bool, true, false, Option, none, some, List, [], ◌∷◌, string_eq, to_nat, Outcome, returns,
  raises, ◌≡◌, refl, sym, ap, ◌∙◌, arith, count_if,
}
use azure_functions_langgrap.Base.Dict.{Dict, lookup}
use azure_functions_langgrap.Base.Json.{Value}
use azure_functions_langgrap.Locks.Guard.{Config}
use azure_functions_langgrap.Runs.Effects.{
  Fault, exception, base_exception, Event, acquire_called, release_called, on_run_started,
  on_run_completed, on_run_failed, invoked, Effect, lift, emit, finally, ◌>>=◌, ◌>>◌,
}
use azure_functions_langgrap.Runs.Observer.{
  is_started, is_terminal, count_if-append, Balanced, Balanced-bind, Balanced-finally, silent_bind,
  quiet,
}
use azure_functions_langgrap.Runs.Guarded.{guarded_run}
use azure_functions_langgrap.Runs.AsyncLock.{
  ThreadLock, scoped, async_thread_lock, acquire_thread_lock, release_thread_lock,
}
use azure_functions_langgrap.Runs.AsyncLock.Tokens.{acquire_thread_lock-silent}
use azure_functions_langgrap.Durable.State.{
  DurableRunPayload, DurableRunResult, ActivityStatus, success, succeeded, failed, was_rejected,
}
use azure_functions_langgrap.Durable.Activity.{
  GraphRegistration, Waits, invoke_graph, execute_langgraph_run_impl, run_registered, under_lock,
  run_with_config, attempt, concluded, captured, prepare_config, config_of, usable_thread, in_use,
  no_graph,
}

module _ {G R : Type 0} where
  abbrev pub is_completed : Event G R → Bool
  is_completed on_run_completed = true
  is_completed _ = false

abbrev pub is_success : ActivityStatus → Bool
is_success success = true
is_success _ = false

returned : {A : Type 0} (a b : A) → ◌≡◌ {A = Outcome Fault A} (returns a) (returns b) → a ≡ b
returned a b e = ground (arith, e)

status_of : DurableRunResult → Bool
status_of r = is_success r.activity_status

returned_status :
    (a r : DurableRunResult)
    → ◌≡◌ {A = Outcome Fault DurableRunResult} (returns a) (returns r)
    → is_success r.activity_status ≡ is_success a.activity_status
unfolding status_of
returned_status a r e = ap status_of (sym (returned a r e))

captured_status :
    (run_id : String) (x : Fault) (r : DurableRunResult)
    → captured run_id x ≡ returns r
    → is_success r.activity_status ≡ false
unfolding captured failed
captured_status run_id (exception t m) r e = returned_status (failed run_id (exception t m)) r e
captured_status run_id (base_exception t) r e = ground (arith, e)

module _ (G R : Type 0) where
  -- The call reports a completed run to the observer exactly if the result that it returns says so.
  abbrev pub Reports : Effect (Event G R) DurableRunResult → Type 0
  Reports e =
      (r : DurableRunResult)
      → e.1 ≡ returns r
      → count_if is_completed e.0 ≡ to_nat (is_success r.activity_status)

  Reports-bind :
      {A : Type 0} (m : Effect (Event G R) A) (f : A → Effect (Event G R) DurableRunResult)
      → count_if is_completed m.0 ≡ 0
      → ((a : A) → Reports (f a))
      → Reports (m >>= f)
  Reports-bind (log, returns a) f h k r e =
      omega (arith, count_if-append is_completed log (f a).0, h, k a r e)
  Reports-bind (log, raises x) f h k r e = ground (arith, e)

  Reports-finally :
      (e : Effect (Event G R) DurableRunResult) (c : Effect (Event G R) Unit)
      → count_if is_completed c.0 ≡ 0
      → Reports e
      → Reports (finally e c)
  Reports-finally e (log, returns u) h k r at =
      omega (arith, count_if-append is_completed e.0 log, h, k r at)
  Reports-finally e (log, raises x) h k r at = ground (arith, at)

  concluded-Reports :
      (run_id : String) (log : List (Event G R)) (o : Outcome Fault Value)
      → count_if is_completed log ≡ 0
      → Reports (concluded run_id log o)
  unfolding concluded captured succeeded failed
  concluded-Reports run_id log (returns v) h r e = omega (
    arith,
    count_if-append is_completed log (on_run_completed ∷ []),
    h,
    ap to_nat (returned_status (succeeded run_id v) r e),
  )
  concluded-Reports run_id log (raises x) h r e = omega (
    arith,
    count_if-append is_completed log (on_run_failed x ∷ []),
    h,
    ap to_nat (captured_status run_id x r e),
  )

  concluded-Balanced :
      (run_id : String) (log : List (Event G R)) (o : Outcome Fault Value)
      → count_if is_started log ≡ 0
      → count_if is_terminal log ≡ 0
      → Balanced G R (emit on_run_started (returns tt) >> concluded run_id log o)
  unfolding concluded
  concluded-Balanced run_id log (returns v) s t = omega (
    arith,
    count_if-append is_started log (on_run_completed ∷ []),
    count_if-append is_terminal log (on_run_completed ∷ []),
    s,
    t,
  )
  concluded-Balanced run_id log (raises x) s t = omega (
    arith,
    count_if-append is_started log (on_run_failed x ∷ []),
    count_if-append is_terminal log (on_run_failed x ∷ []),
    s,
    t,
  )

module _ {G R : Type 0} (check : G → Outcome {0, 0} Fault Unit) (encode : R → Option Value)
    (lock : ThreadLock G) (waits : Waits) where
  attempt-silent :
      (reg : GraphRegistration G R) (graph_input : Value) (thread token : Option String)
      (config : Option (Config Value G)) (p : Event G R → Bool)
      → ((v : Value) (c : Option (Config Value G)) → p (invoked v c) ≡ false)
      → count_if p (attempt check encode lock waits reg graph_input thread token config).0 ≡ 0
  unfolding attempt
  attempt-silent reg graph_input thread token config p h =
      silent_bind p
        (guarded_run check lock reg.name thread token config graph_input
          (invoke_graph reg waits.for_graph))
        _
        (quiet check lock reg.name thread token config graph_input
          (invoke_graph reg waits.for_graph) p h)
        (λ r. refl)

  -- Both facts about the body of the lock.
  abbrev Sound : Effect (Event G R) DurableRunResult → Type 0
  Sound e = Reports G R e × Balanced G R e

  run_with_config-Sound :
      (reg : GraphRegistration G R) (payload : DurableRunPayload) (thread token : Option String)
      (config : Option (Config Value G))
      → Sound (run_with_config check encode lock waits reg payload thread token config)
  unfolding run_with_config
  run_with_config-Sound reg payload thread token config =
      let run = attempt check encode lock waits reg payload.input thread token config in
      let silent = attempt-silent reg payload.input thread token config in
      (
        Reports-bind G R (emit on_run_started (returns tt)) _ refl (λ u.
            concluded-Reports G R payload.run_id run.0 run.1 (silent is_completed (λ v c. refl))),
        concluded-Balanced G R payload.run_id run.0 run.1 (silent is_started (λ v c. refl))
            (silent is_terminal (λ v c. refl)),
      )

  configured-Sound :
      (reg : GraphRegistration G R) (payload : DurableRunPayload) (thread token : Option String)
      → Sound (
          lift (prepare_config payload.thread_id (config_of payload.config)) >>= λ config.
          run_with_config check encode lock waits reg payload thread token config)
  configured-Sound reg payload thread token = (
    Reports-bind G R (lift _) _ refl (λ c. (run_with_config-Sound reg payload thread token c).0),
    Balanced-bind G R (lift _) _ refl (λ c. (run_with_config-Sound reg payload thread token c).1),
  )

  under_lock-Sound :
      (reg : GraphRegistration G R) (payload : DurableRunPayload) (thread token : Option String)
      → Sound (under_lock check encode lock waits reg payload thread token)
  unfolding under_lock was_rejected
  under_lock-Sound reg payload (some thread) none =
      (λ r e. ap to_nat (sym (returned_status (was_rejected payload.run_id in_use) r e)), refl)
  under_lock-Sound reg payload (some thread) (some token) =
      configured-Sound reg payload (some thread) (some token)
  under_lock-Sound reg payload none token = configured-Sound reg payload none token

  scoped-Sound :
      (reg : GraphRegistration G R) (payload : DurableRunPayload) (thread token : Option String)
      (graph locked : String)
      → Sound (
          scoped lock waits.for_release graph locked token
            (λ t. under_lock check encode lock waits reg payload thread t))
  unfolding scoped release_thread_lock
  scoped-Sound reg payload thread none graph locked = under_lock-Sound reg payload thread none
  scoped-Sound reg payload thread (some token) graph locked =
      let body = under_lock check encode lock waits reg payload thread (some token) in
      let sound = under_lock-Sound reg payload thread (some token) in
      (
        Reports-finally G R body (release_thread_lock lock waits.for_release graph locked token)
            refl sound.0,
        Balanced-finally G R body (release_thread_lock lock waits.for_release graph locked token)
            sound.1 refl,
      )

  acquire_silent :
      (reg : GraphRegistration G R) (thread : String) (p : Event G R → Bool)
      → ((g t : String) → p (acquire_called g t) ≡ false)
      → ((g t k : String) → p (release_called g t k) ≡ false)
      → count_if p
          (acquire_thread_lock {R = R} lock waits.for_token waits.for_release reg.name thread).0
        ≡ 0
  acquire_silent reg thread p a r =
      acquire_thread_lock-silent lock p a r waits.for_token waits.for_release reg.name thread

  locked-Sound :
      (reg : GraphRegistration G R) (payload : DurableRunPayload) (thread : Option String)
      → Sound (
          async_thread_lock lock waits.for_token waits.for_release reg.name thread
            (λ t. under_lock check encode lock waits reg payload thread t))
  unfolding async_thread_lock
  locked-Sound reg payload none = under_lock-Sound reg payload none none
  locked-Sound reg payload (some thread) =
      let acquire =
        acquire_thread_lock {R = R} lock waits.for_token waits.for_release reg.name thread in
      (
        Reports-bind G R acquire _
            (acquire_silent reg thread is_completed (λ g t. refl) (λ g t k. refl))
            (λ token. (scoped-Sound reg payload (some thread) token reg.name thread).0),
        Balanced-bind G R acquire _
            (acquire_silent reg thread is_started (λ g t. refl) (λ g t k. refl)
              ∙ sym (acquire_silent reg thread is_terminal (λ g t. refl) (λ g t k. refl)))
            (λ token. (scoped-Sound reg payload (some thread) token reg.name thread).1),
      )

  registered-Sound :
      (o : Option (GraphRegistration G R)) (payload : DurableRunPayload)
      → Sound (run_registered check encode lock waits o payload)
  unfolding run_registered failed
  registered-Sound none payload =
      (λ r e. ap to_nat (sym (returned_status (failed payload.run_id no_graph) r e)), refl)
  registered-Sound (some reg) payload =
      locked-Sound reg payload (usable_thread payload.thread_id reg.has_checkpointer)

  -- Whatever the graph, the lock, the encoding and the cancellations do: a result says success exactly
  -- if the observer heard of a completed run, and the observer hears of as many ends as of starts, also
  -- where the activity raises.
  pub execute_langgraph_run_impl-Reports :
      (registry : Dict String (GraphRegistration G R)) (payload : DurableRunPayload)
      → Reports G R (execute_langgraph_run_impl check encode lock waits registry payload)
        × Balanced G R (execute_langgraph_run_impl check encode lock waits registry payload)
  unfolding execute_langgraph_run_impl
  execute_langgraph_run_impl-Reports registry payload =
      registered-Sound (lookup payload.graph_name registry) payload
