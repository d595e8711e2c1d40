-- ===== src/Runs/ServiceBus/Agreement.antt =====
-- The two drivers of triggers/service_bus.py agree.
use azure_functions_langgrap.Base.{
  String, true, false, Option, none, some, List, [], ◌∷◌, ◌++◌, string_eq, Outcome, returns, raises,
  ◌≡◌, ◌≢◌, refl, ap, sym, ◌∙◌, ==-false_of_ne, Bool-cases, inl, inr,
}
use azure_functions_langgrap.Base.Json.{Value}
use azure_functions_langgrap.Locks.Guard.{Config, guard_run_config, ownership_guard_for}
use azure_functions_langgrap.Runs.Effects.{
  Fault, Event, acquire_called, Effect, lift, finally, pure, ◌>>=◌,
}
use azure_functions_langgrap.Runs.Guarded.{guarded_run}
use azure_functions_langgrap.Runs.AsyncLock.{
  ThreadLock, undisturbed, async_thread_lock, acquire_thread_lock, release_thread_lock,
  cancellation_of,
}
use azure_functions_langgrap.Runs.AsyncLock.Tokens.{release_undisturbed}
use azure_functions_langgrap.Runs.ServiceBus.{
  Registration, use_lock, message_thread_id, locked_run, async_locked_run, async_body, observed_run,
  take_lock, release_held, handle_result, process_service_bus_message,
  process_service_bus_message_async,
}

bind_congr :
    {E A B : Type 0} (m : Effect E A) (f g : A → Effect E B)
    → ((a : A) → f a ≡ g a)
    → m >>= f ≡ m >>= g
bind_congr (log, returns a) f g h = rw (h a) refl
bind_congr (log, raises x) f g h = refl

++-nil : {A : Type 0} (xs : List A) → xs ++ [] ≡ xs
++-nil [] = refl
++-nil (x ∷ xs) = ap (λ (ys : List _). x ∷ ys) (++-nil xs)

finally-pure : {E A : Type 0} (e : Effect E A) → finally e (pure tt) ≡ e
finally-pure (log, returns a) = rw (++-nil log) refl
finally-pure (log, raises x) = rw (++-nil log) refl

module _ {M G R : Type 0} (check : G → Outcome {0, 0} Fault Unit) (session_id : M → Option String)
    (reg : Registration M G R) (lock : ThreadLock G) (one_graph : reg.ainvoke ≡ reg.invoke)
    (tokens : (graph thread : String) → lock.acquire graph thread ≢ returns (some "")) where
  -- Without a token the guard is none, whatever the thread.
  no_token :
      (invoke : Value → Option (Config Value G) → Outcome Fault R)
      → (graph_input : Value) (thread lock_thread : Option String)
      → observed_run check session_id reg lock invoke graph_input thread lock_thread none
        ≡ observed_run check session_id reg lock invoke graph_input thread none none
  unfolding observed_run guarded_run guard_run_config ownership_guard_for
  no_token invoke graph_input thread none = refl
  no_token invoke graph_input thread (some t) = refl

  same_run :
      (graph_input : Value) (thread lock_thread token : Option String)
      → observed_run check session_id reg lock reg.invoke graph_input thread lock_thread token
        ≡ observed_run check session_id reg lock reg.ainvoke graph_input thread lock_thread token
  same_run graph_input thread lock_thread token = rw one_graph refl

  same_unlocked :
      (graph_input : Value) (thread : Option String)
      → finally
          (observed_run check session_id reg lock reg.invoke graph_input thread thread none)
          (pure tt)
        ≡ observed_run check session_id reg lock reg.ainvoke graph_input thread none none
  same_unlocked graph_input thread =
      finally-pure _
      ∙ (no_token reg.invoke graph_input thread thread ∙ same_run graph_input thread none none)

  same_release :
      (thread token : String)
      → release_held {R = R} lock reg.name (some thread) (some token)
        ≡ release_thread_lock {R = R} lock undisturbed reg.name thread token
  unfolding release_held
  same_release thread token = sym (release_undisturbed lock reg.name thread token)

  same_held :
      (graph_input : Value) (thread token : String)
      → finally
          (observed_run check session_id reg lock reg.invoke graph_input
            (some thread)
            (some thread)
            (some token))
          (release_held lock reg.name (some thread) (some token))
        ≡ finally
            (observed_run check session_id reg lock reg.ainvoke graph_input
              (some thread)
              (some thread)
              (some token))
            (release_thread_lock lock undisturbed reg.name thread token)
  same_held graph_input thread token =
      rw (same_run graph_input (some thread) (some thread) (some token), same_release thread token)
        refl

  unlocked-agrees :
      (graph_input : Value) (thread : Option String)
      → use_lock session_id reg thread ≡ false
      → locked_run check session_id reg lock graph_input thread
        ≡ async_locked_run check session_id reg lock undisturbed undisturbed graph_input thread
  unfolding locked_run async_locked_run async_thread_lock take_lock release_held async_body
  unlocked-agrees graph_input none h = same_unlocked graph_input none
  unlocked-agrees graph_input (some thread) h = rw h (same_unlocked graph_input (some thread))

  held-agrees :
      (graph_input : Value) (thread : String) (r : Outcome Fault (Option String))
      → use_lock session_id reg (some thread) ≡ true
      → lock.acquire reg.name thread ≡ r
      → locked_run check session_id reg lock graph_input (some thread)
        ≡ async_locked_run check session_id reg lock undisturbed undisturbed graph_input
            (some thread)
  unfolding locked_run async_locked_run async_thread_lock acquire_thread_lock take_lock async_body
      cancellation_of
  held-agrees graph_input thread (raises x) h at = rw (h, at) refl
  held-agrees graph_input thread (returns none) h at = rw (h, at) refl
  held-agrees graph_input thread (returns (some token)) h at =
      rw
        (
          h,
          at,
          ==-false_of_ne token ""
              (λ e. tokens reg.name thread (at ∙ ap (λ (t : String). returns (some t)) e)),
        )
        (ap (λ (e : Effect (Event G R) R). (acquire_called reg.name thread ∷ e.0, e.1))
          (same_held graph_input thread token))

  locked_run-agrees :
      (graph_input : Value) (thread : Option String)
      → locked_run check session_id reg lock graph_input thread
        ≡ async_locked_run check session_id reg lock undisturbed undisturbed graph_input thread
  locked_run-agrees graph_input none = unlocked-agrees graph_input none refl
  locked_run-agrees graph_input (some thread) =
      elim (Bool-cases (use_lock session_id reg (some thread))) [
        | inl held ↦ held-agrees graph_input thread (lock.acquire reg.name thread) held refl
        | inr free ↦ unlocked-agrees graph_input (some thread) free
      ]

  -- The synchronous and the asynchronous driver do the same and end the same, message by message,
  -- if the graph's `ainvoke` does what its `invoke` does, no token of the lock is empty and nothing
  -- cancels the caller.
  pub process_service_bus_message-agrees :
      (msg : M)
      → process_service_bus_message check session_id reg lock msg
        ≡ process_service_bus_message_async check session_id reg lock undisturbed undisturbed msg
  unfolding process_service_bus_message process_service_bus_message_async
  process_service_bus_message-agrees msg =
      bind_congr (lift (reg.input_mapper msg)) _ _ (λ graph_input.
        bind_congr (lift (message_thread_id session_id reg msg)) _ _ (λ thread.
          ap
            (λ (e : Effect (Event G R) R).
              e >>= λ result. handle_result reg.result_handler msg result)
            (locked_run-agrees graph_input thread)))
