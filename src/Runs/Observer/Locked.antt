-- ===== src/Runs/Observer/Locked.antt =====
-- A body under the lock of locks/_async.py: the lock itself is silent to the observer.
use azure_functions_langgrap.Base.{String, Option, none, some, refl, sym, ◌∙◌}
use azure_functions_langgrap.Runs.Effects.{Event, Effect}
use azure_functions_langgrap.Runs.Observer.{
  is_started, is_terminal, Balanced, Balanced-bind, Balanced-finally,
}
use azure_functions_langgrap.Runs.AsyncLock.{
  ThreadLock, Wait, scoped, async_thread_lock, acquire_thread_lock, release_thread_lock,
}
use azure_functions_langgrap.Runs.AsyncLock.Tokens.{acquire_thread_lock-silent}

module _ {G R A : Type 0} (lock : ThreadLock G) (w back : Wait) (graph : String)
    (body : Option String → Effect (Event G R) A)
    (balanced : (t : Option String) → Balanced G R (body t)) where
  scoped-Balanced :
      (thread : String) (token : Option String)
      → Balanced G R (scoped lock back graph thread token body)
  unfolding scoped release_thread_lock
  scoped-Balanced thread none = balanced none
  scoped-Balanced thread (some token) =
      Balanced-finally G R (body (some token)) (release_thread_lock lock back graph thread token)
        (balanced (some token)) refl

  pub async_thread_lock-Balanced :
      (thread : Option String) → Balanced G R (async_thread_lock lock w back graph thread body)
  unfolding async_thread_lock
  async_thread_lock-Balanced none = balanced none
  async_thread_lock-Balanced (some thread) =
      Balanced-bind G R (acquire_thread_lock lock w back graph thread) _
        (acquire_thread_lock-silent lock is_started (λ g t. refl) (λ g t k. refl) w back graph
            thread
          ∙ sym (
              acquire_thread_lock-silent lock is_terminal (λ g t. refl) (λ g t k. refl) w back graph
                thread))
        (scoped-Balanced thread)
