-- ===== src/Runs/AsyncLock.antt =====
-- locks/_async.py: synchronous thread locks for async callers. A `Wait` is how the event loop
-- cancels the caller while it awaits one worker thread.
pub mod Tokens
mod Tests
use azure_functions_langgrap.Base.{
  ℕ, zero, suc, String, Bool, true, false, ◌&&◌, ◌||◌, Option, none, some, List, [], ◌∷◌, ◌++◌,
  ◌==◌, string_eq, if◌then◌else◌, ltb, Outcome, returns, raises,
}
use azure_functions_langgrap.Locks.Guard.{Provided}
use azure_functions_langgrap.Runs.Effects.{
  Fault, exception, base_exception, cancelled_error, is_exception, Event, acquire_called,
  release_called, Effect, pure, lift, emit, finally, ◌>>=◌, ◌>>◌,
}

-- A lock that implements `ThreadLock`, as one run meets it.
pub record ThreadLock (G : Type 0) : Type 0 where
  pub acquire : String → String → Outcome Fault (Option String)
  pub release : String → String → String → Outcome {0, 0} Fault Unit
  pub ownership_guard : Option (String → String → String → Provided G)

-- `deliveries`: how many `CancelledError`s are raised in the caller before the worker is done;
-- `late`: `caller.cancelling()` has grown though none was raised.
pub record Wait : Type 0 where
  pub deliveries : ℕ
  pub late : Bool

abbrev pub undisturbed : Wait
undisturbed = record { deliveries = 0; late = false }

-- `while not task.done()`, with the exception that it keeps.
await_done : ℕ → Option Fault → Option Fault
await_done zero cancellation = cancellation
await_done (suc n) cancellation = await_done n (some cancelled_error)

cancellation_after : Bool → Option Fault → Option Fault
cancellation_after late (some c) = some c
cancellation_after true none = some cancelled_error
cancellation_after false none = none

unfoldable pub cancellation_of : Wait → Option Fault
unfolding await_done cancellation_after
cancellation_of w = cancellation_after w.late (await_done w.deliveries none)

abbrev pub is_cancelled : Wait → Bool
is_cancelled w = ltb 0 w.deliveries || w.late

-- The worker's exception: `except Exception`.
failed_worker : {A : Type 0} → Fault → Option Fault → Outcome Fault A
failed_worker x none = raises x
failed_worker x (some c) = if is_exception x then raises c else raises x

finished_worker : {A : Type 0} → A → Option Fault → Outcome Fault A
finished_worker a none = returns a
finished_worker a (some c) = raises c

-- `run_sync_retaining_ownership`, on how the function that it runs ends.
unfoldable pub run_sync_retaining_ownership :
    {A : Type 0} → Wait → Outcome Fault A → Outcome Fault A
unfolding failed_worker finished_worker
run_sync_retaining_ownership w (returns a) = finished_worker a (cancellation_of w)
run_sync_retaining_ownership w (raises x) = failed_worker x (cancellation_of w)

released : Outcome {0, 0} Fault Unit → Option Fault → Outcome {0, 0} Fault Unit
released (raises x) cancellation = raises x
released (returns u) none = returns tt
released (returns u) (some c) = raises c

module _ {G R : Type 0} (lock : ThreadLock G) where
  -- `release_thread_lock`
  unfoldable pub release_thread_lock : Wait → String → String → String → Effect (Event G R) Unit
  unfolding released
  release_thread_lock w graph thread token =
      emit (release_called graph thread token)
        (released (lock.release graph thread token) (cancellation_of w))

  -- `except asyncio.CancelledError: pass`
  swallowed : Effect (Event G R) Unit → Fault → Effect (Event G R) (Option String)
  swallowed (log, returns u) c = (log, raises c)
  swallowed (log, raises (exception type message)) c = (log, raises (exception type message))
  swallowed (log, raises (base_exception type)) c =
      (log, if type == "CancelledError" then raises c else raises (base_exception type))

  given_back : Wait → String → String → Option String → Fault → Effect (Event G R) (Option String)
  unfolding swallowed
  given_back w graph thread none c = lift (raises c)
  given_back w graph thread (some token) c = swallowed (release_thread_lock w graph thread token) c

  after_acquire :
      Wait
      → String
      → String
      → Outcome Fault (Option String)
      → Option Fault
      → Effect (Event G R) (Option String)
  unfolding given_back failed_worker
  after_acquire w graph thread (raises x) cancellation = lift (failed_worker x cancellation)
  after_acquire w graph thread (returns token) none = pure token
  after_acquire w graph thread (returns token) (some c) = given_back w graph thread token c

  -- `acquire_thread_lock`; `back` is the wait for the release of a token that comes too late.
  unfoldable pub acquire_thread_lock :
      Wait → Wait → String → String → Effect (Event G R) (Option String)
  unfolding after_acquire
  acquire_thread_lock w back graph thread =
      emit (acquire_called graph thread) (returns tt)
      >> after_acquire back graph thread (lock.acquire graph thread) (cancellation_of w)

  unfoldable pub scoped :
      {A : Type 0}
      → Wait
      → String
      → String
      → Option String
      → (Option String → Effect (Event G R) A)
      → Effect (Event G R) A
  scoped w graph thread none body = body none
  scoped w graph thread (some token) body =
      finally (body (some token)) (release_thread_lock w graph thread token)

  -- `async with async_thread_lock(...) as token: body(token)`
  unfoldable pub async_thread_lock :
      {A : Type 0}
      → Wait
      → Wait
      → String
      → Option String
      → (Option String → Effect (Event G R) A)
      → Effect (Event G R) A
  unfolding scoped
  async_thread_lock w back graph none body = body none
  async_thread_lock w back graph (some thread) body =
      acquire_thread_lock w back graph thread >>= λ token. scoped back graph thread token body
