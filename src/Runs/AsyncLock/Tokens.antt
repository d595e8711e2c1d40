-- ===== src/Runs/AsyncLock/Tokens.antt =====
-- No owner token is lost, whatever cancels the caller.
use azure_functions_langgrap.Base.{
  ℕ, zero, suc, String, Bool, true, false, ◌||◌, Option, none, some, [], ◌∷◌, ◌++◌, ◌==◌, string_eq,
  ltb, if◌then◌else◌, Outcome, returns, raises, count_if, ◌≡◌, ◌↔◌, refl, arith, Bool-cases, inl,
  inr,
}
use azure_functions_langgrap.Runs.Effects.{
  Fault, exception, base_exception, cancelled_error, Event, acquire_called, release_called, Effect,
  emit,
}
use azure_functions_langgrap.Runs.AsyncLock.{
  ThreadLock, Wait, undisturbed, await_done, cancellation_of, cancellation_after, is_cancelled,
  run_sync_retaining_ownership, released, release_thread_lock, acquire_thread_lock,
  async_thread_lock, swallowed, after_acquire, given_back,
}

await_done-some : (n : ℕ) → await_done n (some cancelled_error) ≡ some cancelled_error
unfolding await_done
await_done-some zero = refl
await_done-some (suc n) = await_done-some n

cancellation_after_lem :
    (d : ℕ) (l : Bool)
    → cancellation_after l (await_done d none)
      ≡ (if ltb 0 d || l then some cancelled_error else none)
unfolding cancellation_after await_done
cancellation_after_lem zero true = refl
cancellation_after_lem zero false = refl
cancellation_after_lem (suc n) l = rw (await_done-some n) (ground arith)

pub cancellation_of_lem :
    (w : Wait) → cancellation_of w ≡ (if is_cancelled w then some cancelled_error else none)
unfolding cancellation_of
cancellation_of_lem w = cancellation_after_lem w.deliveries w.late

module _ (w : Wait) where
  pub cancellation_of_cancelled : is_cancelled w ≡ true → cancellation_of w ≡ some cancelled_error
  cancellation_of_cancelled h = ground (arith, cancellation_of_lem w, h)

  pub cancellation_of_undisturbed : is_cancelled w ≡ false → cancellation_of w ≡ none
  cancellation_of_undisturbed h = ground (arith, cancellation_of_lem w, h)

-- Work that ran in a worker thread is reported only to a caller that nothing cancelled, and is never
-- reported before the work is done.
pub run_sync_retaining_ownership_lem :
    {A : Type 0} (w : Wait) (r : Outcome Fault A) (a : A)
    → (run_sync_retaining_ownership w r ≡ returns a) ↔ ((is_cancelled w ≡ false) × (r ≡ returns a))
unfolding run_sync_retaining_ownership
run_sync_retaining_ownership_lem w (returns b) a =
    (λ h. ground (arith, cancellation_of_lem w, h), λ h. ground (arith, cancellation_of_lem w, h))
run_sync_retaining_ownership_lem w (raises x) a =
    (λ h. ground (arith, cancellation_of_lem w, h), λ h. ground (arith, cancellation_of_lem w, h))

released_none : (r : Outcome {0, 0} Fault Unit) → released r none ≡ r
unfolding released
released_none (returns u) = refl
released_none (raises x) = refl

module _ {G R : Type 0} (lock : ThreadLock G) where
  pub release_undisturbed :
      (graph thread token : String)
      → release_thread_lock {R = R} lock undisturbed graph thread token
        ≡ emit (release_called graph thread token) (lock.release graph thread token)
  unfolding release_thread_lock cancellation_of
  release_undisturbed graph thread token = rw (released_none (lock.release graph thread token)) refl

  swallowed_lem :
      (e : Effect (Event G R) Unit) (c : Fault)
      → (x : Fault) × (swallowed {G = G} {R = R} lock e c ≡ (e.0, raises x))
  unfolding swallowed
  swallowed_lem (log, returns u) c = (c, refl)
  swallowed_lem (log, raises (exception type message)) c = (exception type message, refl)
  swallowed_lem (log, raises (base_exception type)) c =
      elim (Bool-cases (type == "CancelledError")) [
        | inl same ↦ (c, rw same refl)
        | inr other ↦ (base_exception type, rw other refl)
      ]

module _ {G R : Type 0} (lock : ThreadLock G) (w back : Wait) (graph thread token : String)
    (acquired : lock.acquire graph thread ≡ returns (some token)) where
  acquire_undisturbed :
      is_cancelled w ≡ false
      → acquire_thread_lock {G = G} {R = R} lock w back graph thread
        ≡ (acquire_called graph thread ∷ [], returns (some token))
  unfolding acquire_thread_lock
  acquire_undisturbed h = rw (acquired, cancellation_of_undisturbed w h) refl

  acquire_cancelled :
      is_cancelled w ≡ true
      → (x : Fault) × (acquire_thread_lock {G = G} {R = R} lock w back graph thread
          ≡ (acquire_called graph thread ∷ release_called graph thread token ∷ [], raises x))
  unfolding acquire_thread_lock release_thread_lock
  acquire_cancelled h =
      let (x, e) =
        swallowed_lem {R = R} lock (release_thread_lock lock back graph thread token)
          cancelled_error in
      (x, rw (acquired, cancellation_of_cancelled w h, e) refl)

  -- A token that the lock hands out is returned to a caller that nothing cancelled, and otherwise is
  -- released at once, before the call raises.
  pub acquire_thread_lock_lem :
      (is_cancelled w ≡ false
        → acquire_thread_lock {G = G} {R = R} lock w back graph thread
          ≡ (acquire_called graph thread ∷ [], returns (some token)))
      × (is_cancelled w ≡ true
          → (x : Fault) × (acquire_thread_lock {G = G} {R = R} lock w back graph thread
              ≡ (acquire_called graph thread ∷ release_called graph thread token ∷ [], raises x)))
  acquire_thread_lock_lem = (acquire_undisturbed, acquire_cancelled)

  -- Where the lock hands out a token, it is released exactly once and last, however the body ends and
  -- whatever cancels the caller, and the body runs unless the caller was cancelled while it waited for
  -- the token.
  pub async_thread_lock_lem :
      {A : Type 0} (body : Option String → Effect (Event G R) A)
      → (async_thread_lock lock w back graph (some thread) body).0
        ≡ acquire_called graph thread
          ∷ ((if is_cancelled w then [] else (body (some token)).0)
              ++ release_called graph thread token ∷ [])
  unfolding async_thread_lock release_thread_lock
  async_thread_lock_lem body = elim (Bool-cases (is_cancelled w)) [
    | inl stopped ↦ rw ((acquire_cancelled stopped).1, stopped) refl
    | inr free ↦ rw (acquire_undisturbed free, free) refl
  ]

module _ {G R : Type 0} (lock : ThreadLock G) (p : Event G R → Bool)
    (not_acquire : (g t : String) → p (acquire_called g t) ≡ false)
    (not_release : (g t k : String) → p (release_called g t k) ≡ false) where
  after_acquire-silent :
      (w : Wait) (graph thread : String) (r : Outcome Fault (Option String)) (c : Option Fault)
      → count_if p (after_acquire lock w graph thread r c).0 ≡ 0
  unfolding after_acquire given_back release_thread_lock
  after_acquire-silent w graph thread (raises x) c = refl
  after_acquire-silent w graph thread (returns token) none = refl
  after_acquire-silent w graph thread (returns none) (some c) = refl
  after_acquire-silent w graph thread (returns (some token)) (some c) =
      rw ((swallowed_lem {R = R} lock (release_thread_lock lock w graph thread token) c).1)
        (ground (arith, not_release graph thread token))

  -- The lock's own events are its calls.
  pub acquire_thread_lock-silent :
      (w back : Wait) (graph thread : String)
      → count_if p (acquire_thread_lock lock w back graph thread).0 ≡ 0
  unfolding acquire_thread_lock
  acquire_thread_lock-silent w back graph thread = ground (
    arith,
    not_acquire graph thread,
    after_acquire-silent back graph thread (lock.acquire graph thread) (cancellation_of w),
  )
