-- ===== src/Locks/AzureBlob/Acquire.antt =====
-- `acquire` of locks/azure_blob.py. Between its critical sections other threads may do anything to
-- the lock: an attempt carries what they do, with the answer of the service.
pub mod Sound
use azure_functions_langgrap.Base.{
  ℕ, String, Bool, true, false, not, ◌&&◌, ◌||◌, Option, none, some, is_some, List, [], ◌∷◌,
  pair_eq, if◌then◌else◌, Outcome, returns, raises,
}
use azure_functions_langgrap.Base.Dict.{lookup, insert}
use azure_functions_langgrap.Locks.InProcess.{Key}
use azure_functions_langgrap.Locks.AzureBlob.{
  AzureBlobLeaseThreadLock, LeaseState, new_state, call_release,
}
use azure_functions_langgrap.Locks.AzureBlob.Errors.{
  ServiceError, ErrorKind, is_http_response, is_lease_conflict, ensure_marker,
}

-- `polling`: the script of attempts ended before the call did.
pub data AcquireResult : Type 0 where
  acquired : String → AcquireResult
  unavailable : AcquireResult
  lock_closed : AcquireResult
  service_failed : ServiceError → AcquireResult
  polling : AcquireResult

-- One round of the loop: what the other threads do before the test of `_closed`, the lease or the
-- exception of `acquire_lease`, what they do meanwhile, whether `time.monotonic()` has reached
-- the deadline, the token and the clock of a new `_LeaseState`, and whether the `close` of another
-- thread, which does not take the guard for that, sets `_closed` between the last test of it and the
-- insertion.
pub record Attempt : Type 0 where
  pub before : AzureBlobLeaseThreadLock → AzureBlobLeaseThreadLock
  pub answer : Outcome ServiceError ℕ
  pub meanwhile : AzureBlobLeaseThreadLock → AzureBlobLeaseThreadLock
  pub expired : Bool
  pub token : String
  pub now : ℕ
  pub shuts : Bool

abbrev pub tracked : Key → AzureBlobLeaseThreadLock → Bool
tracked key l = is_some (lookup key l.active_leases)

-- The last section: register the lease, or give it back.
unfoldable pub register :
    Key
    → ℕ
    → String
    → ℕ
    → Bool
    → AzureBlobLeaseThreadLock
    → AcquireResult × AzureBlobLeaseThreadLock
register key lease token now shuts l =
    if tracked key l
    then (unavailable, call_release lease l)
    else if l.closed
    then (lock_closed, call_release lease l)
    else (
      acquired token,
      record l {
        active_leases = insert key (new_state lease token now) l.active_leases;
        closed = l.closed || shuts;
      },
    )

-- `acquire_lease` of one attempt, and what follows it; `retry` is the next round.
settle :
    Key
    → Bool
    → Attempt
    → AzureBlobLeaseThreadLock
    → AcquireResult × AzureBlobLeaseThreadLock
    → Outcome ServiceError ℕ
    → AcquireResult × AzureBlobLeaseThreadLock
settle key blocking a l retry (returns lease) = register key lease a.token a.now a.shuts l
settle key blocking a l retry (raises exc) =
    if not (is_http_response exc.kind && is_lease_conflict exc)
    then (service_failed exc, l)
    else if not blocking
    then (unavailable, l)
    else if a.expired
    then (unavailable, l)
    else retry

-- The `while True` loop; `blocking` is `timeout > 0.0`.
unfoldable pub acquire_loop :
    Key → Bool → List Attempt → AzureBlobLeaseThreadLock → AcquireResult × AzureBlobLeaseThreadLock
unfolding settle
acquire_loop key blocking [] l = (polling, l)
acquire_loop key blocking (a ∷ rest) l =
    let seen = a.before l in
    let after = a.meanwhile seen in
    let retry = acquire_loop key blocking rest after in
    if seen.closed then (lock_closed, seen) else settle key blocking a after retry a.answer

begin_loop :
    Key
    → Bool
    → List Attempt
    → AzureBlobLeaseThreadLock
    → Outcome ServiceError (Unit {0})
    → AcquireResult × AzureBlobLeaseThreadLock
begin_loop key blocking attempts l (returns _) = acquire_loop key blocking attempts l
begin_loop key blocking attempts l (raises exc) = (service_failed exc, l)

-- `acquire`; `marker` is what the upload of the marker blob raises.
unfoldable pub acquire :
    Key
    → Bool
    → Option ServiceError
    → List Attempt
    → AzureBlobLeaseThreadLock
    → AcquireResult × AzureBlobLeaseThreadLock
unfolding begin_loop
acquire key blocking marker attempts l =
    if l.closed
    then (lock_closed, l)
    else if tracked key l
    then (unavailable, l)
    else begin_loop key blocking attempts l (ensure_marker marker)
