-- ===== src/Locks/AzureBlob.antt =====
-- locks/azure_blob.py: the distributed lock over Azure Blob leases. The service is not modelled: its
-- answers are arguments, and the release calls that reach it are recorded in `released`. A
-- `_LeaseState` is one acquisition, so its lease handle stands for its identity.
pub mod Errors
pub mod Acquire
pub mod Renewal
pub mod Ownership
pub mod Invariant
pub mod BlobName
mod Tests
use azure_functions_langgrap.Base.{
  ℕ, zero, ◌+◌, ◌≤◌, String, Bool, true, false, ◌&&◌, ◌||◌, not, Option, none, some, is_some, List,
  [], ◌∷◌, ◌++◌, ◌==◌, pair_eq, nat_eq, string_eq, if◌then◌else◌, leb, Outcome, returns, raises,
  filter, map,
}
use azure_functions_langgrap.Base.Dict.{Dict, lookup, insert, remove}
use azure_functions_langgrap.Locks.InProcess.{Key}
use azure_functions_langgrap.Locks.AzureBlob.Errors.{ServiceError}

pub record LeaseState : Type 0 where
  pub lease : ℕ
  pub token : String
  pub consecutive_failures : ℕ
  pub last_successful_renewal : ℕ
  pub lost : Bool
  pub last_error : Option ServiceError

pub record AzureBlobLeaseThreadLock : Type 0 where
  pub active_leases : Dict Key LeaseState
  pub closed : Bool
  pub auto_renew : Bool
  pub guard_checkpoint_writes : Bool
  pub released : List ℕ  -- the leases on which `lease.release()` was called, oldest first

-- A lease duration in seconds: -1 is infinite.
pub data Duration : Type 0 where
  seconds : ℕ → Duration
  minus : ℕ → Duration  -- -(n + 1)

abbrev pub infinite : Duration → Bool
infinite (minus zero) = true
infinite _ = false

abbrev pub finite_range : Duration → Bool
finite_range (seconds n) = leb 15 n && leb n 60
finite_range (minus n) = false

pub data Warning : Type 0 where
  finite_without_renewal guard_without_renewal : Warning

pub data ConstructionError : Type 0 where
  bad_duration no_azure_blob not_a_container no_azure_core : ConstructionError

-- What the imports and the `isinstance` test of `__init__` find.
pub record Installed : Type 0 where
  pub azure_blob : Bool
  pub is_container : Bool
  pub azure_core : Bool

abbrev when : Bool → Warning → List Warning
when true w = w ∷ []
when false w = []

-- `__init__`, with the warnings that it emits.
unfoldable pub construct :
    Installed
    → Duration
    → Bool
    → Bool
    → Outcome ConstructionError (AzureBlobLeaseThreadLock × List Warning)
construct env duration auto guarded =
    if not (infinite duration) && not (finite_range duration)
    then raises bad_duration
    else if not env.azure_blob
    then raises no_azure_blob
    else if not env.is_container
    then raises not_a_container
    else if not env.azure_core
    then raises no_azure_core
    else let renews = auto && not (infinite duration) in
      returns (
        record {
          active_leases = [];
          closed = false;
          auto_renew = renews;
          guard_checkpoint_writes = guarded;
          released = [];
        },
        when (not (infinite duration) && not auto) finite_without_renewal
            ++ when (guarded && not renews) guard_without_renewal,
      )

-- A best-effort `lease.release()`; a failure is only logged.
abbrev pub call_release : ℕ → AzureBlobLeaseThreadLock → AzureBlobLeaseThreadLock
call_release lease l = record l { released = l.released ++ lease ∷ [] }

abbrev pub new_state : ℕ → String → ℕ → LeaseState
new_state lease token now = record {
  lease = lease;
  token = token;
  consecutive_failures = 0;
  last_successful_renewal = now;
  lost = false;
  last_error = none;
}

release_state :
    Key → String → Option LeaseState → AzureBlobLeaseThreadLock → AzureBlobLeaseThreadLock
release_state key token none l = l
release_state key token (some state) l =
    let popped = record l { active_leases = remove key l.active_leases } in
    if state.token == token
    then (if state.lost then popped else call_release state.lease popped)
    else l

-- `release`
unfoldable pub release : Key → String → AzureBlobLeaseThreadLock → AzureBlobLeaseThreadLock
unfolding release_state
release key token l = release_state key token (lookup key l.active_leases) l

-- `_LeaseOwnershipGuard`'s reasons; `missing` is the saver's.
pub data LeaseLossReason : Type 0 where
  lost_lease released_lease superseded missing : LeaseLossReason

problem_of : String → Option LeaseState → Option LeaseLossReason
problem_of token none = some released_lease
problem_of token (some state) =
    if not (state.token == token)
    then some superseded
    else if state.lost
    then some lost_lease
    else none

-- `_ownership_problem`
unfoldable pub ownership_problem : Key → String → AzureBlobLeaseThreadLock → Option LeaseLossReason
unfolding problem_of
ownership_problem key token l =
    if l.closed then some released_lease else problem_of token (lookup key l.active_leases)

release_all : Dict Key LeaseState → AzureBlobLeaseThreadLock → AzureBlobLeaseThreadLock
release_all [] l = l
release_all ((key, state) ∷ rest) l =
    release_all rest (if state.lost then l else call_release state.lease l)

-- `close` up to the join of the renewal thread: `_closed` is set without the guard, so that this
-- may fall within any section of another thread.
abbrev pub begin_close : AzureBlobLeaseThreadLock → AzureBlobLeaseThreadLock
begin_close l = record l { closed = true }

-- The section that takes the entries away, and the release of their leases.
unfoldable pub finish_close : AzureBlobLeaseThreadLock → AzureBlobLeaseThreadLock
unfolding release_all
finish_close l = release_all l.active_leases (record l { active_leases = [] })

-- `close`, where `meanwhile` is what the other threads do while it stops the renewal thread and its
-- pool.
unfoldable pub close_around :
    (AzureBlobLeaseThreadLock → AzureBlobLeaseThreadLock)
    → AzureBlobLeaseThreadLock
    → AzureBlobLeaseThreadLock
unfolding finish_close
close_around meanwhile l = if l.closed then l else finish_close (meanwhile (begin_close l))

-- `close` where the other threads do nothing meanwhile.
unfoldable pub close : AzureBlobLeaseThreadLock → AzureBlobLeaseThreadLock
unfolding close_around finish_close
close l = close_around (λ x. x) l
