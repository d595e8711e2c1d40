-- ===== src/Locks/AzureBlob/Renewal.antt =====
-- The renewal daemon of locks/azure_blob.py: one tick over every tracked lease. `answers` says what
-- each `renew()` does; a call past the client-side timeout is counted after those that end.
pub mod Pass
pub mod Ticks
use azure_functions_langgrap.Base.{
  ℕ, ◌+◌, String, Bool, true, false, not, Option, none, some, List, [], ◌∷◌, pair_eq, nat_eq, ◌==◌,
  if◌then◌else◌, leb, filter, ◌&&◌,
}
use azure_functions_langgrap.Base.Dict.{Dict, lookup, insert}
use azure_functions_langgrap.Locks.InProcess.{Key}
use azure_functions_langgrap.Locks.AzureBlob.{AzureBlobLeaseThreadLock, LeaseState}
use azure_functions_langgrap.Locks.AzureBlob.Errors.{
  ServiceError, ErrorKind, is_definitive_lease_loss,
}

pub data RenewAnswer : Type 0 where
  renewed : RenewAnswer
  failed : ServiceError → RenewAnswer
  timed_out : RenewAnswer

-- The `TimeoutError` that counts for a call that did not end.
abbrev pub timeout_error : ServiceError
timeout_error = record { kind = ErrorKind.other; error_code = none; status_code = none }

-- The two updates of a `_LeaseState`.
abbrev pub succeed : ℕ → LeaseState → LeaseState
succeed now state = record state {
  consecutive_failures = 0;
  last_successful_renewal = now;
  last_error = none;
}

-- `_MAX_CONSECUTIVE_RENEWAL_FAILURES` is 3.
abbrev pub fail : ServiceError → LeaseState → LeaseState
fail exc state =
    if is_definitive_lease_loss exc
    then record state { last_error = some exc; lost = true }
    else if leb 3 (state.consecutive_failures + 1)
    then record state {
      last_error = some exc;
      consecutive_failures = state.consecutive_failures + 1;
      lost = true;
    }
    else record state {
      last_error = some exc;
      consecutive_failures = state.consecutive_failures + 1;
    }

-- `if self._active_leases.get(key) is state`, and the update.
update_current :
    Key
    → ℕ
    → (LeaseState → LeaseState)
    → Option LeaseState
    → AzureBlobLeaseThreadLock
    → AzureBlobLeaseThreadLock
update_current key lease f none l = l
update_current key lease f (some state) l =
    if state.lease == lease
    then record l { active_leases = insert key (f state) l.active_leases }
    else l

-- `_record_renew_success`
pub record_renew_success : Key → ℕ → ℕ → AzureBlobLeaseThreadLock → AzureBlobLeaseThreadLock
unfolding update_current
record_renew_success key lease now l =
    update_current key lease (succeed now) (lookup key l.active_leases) l

-- `_handle_renew_failure`
pub handle_renew_failure :
    Key → ℕ → ServiceError → AzureBlobLeaseThreadLock → AzureBlobLeaseThreadLock
unfolding update_current
handle_renew_failure key lease exc l =
    update_current key lease (fail exc) (lookup key l.active_leases) l

-- The bodies of the loops over `done` and over `not_done`.
done_one : RenewAnswer → ℕ → Key → ℕ → AzureBlobLeaseThreadLock → AzureBlobLeaseThreadLock
unfolding record_renew_success handle_renew_failure
done_one renewed now key lease l = record_renew_success key lease now l
done_one (failed exc) now key lease l = handle_renew_failure key lease exc l
done_one timed_out now key lease l = l

not_done_one : RenewAnswer → Key → ℕ → AzureBlobLeaseThreadLock → AzureBlobLeaseThreadLock
unfolding handle_renew_failure
not_done_one timed_out key lease l = handle_renew_failure key lease timeout_error l
not_done_one _ key lease l = l

-- A `for key, state in …` loop over a snapshot.
for_each :
    (Key → LeaseState → AzureBlobLeaseThreadLock → AzureBlobLeaseThreadLock)
    → Dict Key LeaseState
    → AzureBlobLeaseThreadLock
    → AzureBlobLeaseThreadLock
for_each body [] l = l
for_each body ((key, state) ∷ rest) l = for_each body rest (body key state l)

abbrev pub not_lost : Dict Key LeaseState → Dict Key LeaseState
not_lost = filter (λ entry. not entry.1.lost)

module _ (answers : ℕ → RenewAnswer) (now : ℕ) where
  done_body : Key → LeaseState → AzureBlobLeaseThreadLock → AzureBlobLeaseThreadLock
  unfolding done_one
  done_body key state l = done_one (answers state.lease) now key state.lease l

  not_done_body : Key → LeaseState → AzureBlobLeaseThreadLock → AzureBlobLeaseThreadLock
  unfolding not_done_one
  not_done_body key state l = not_done_one (answers state.lease) key state.lease l

  -- `_renew_all_once`; with no pool (`auto_renew` off) a `renew()` ends before the next one.
  unfoldable pub renew_all_once : AzureBlobLeaseThreadLock → AzureBlobLeaseThreadLock
  unfolding for_each done_body not_done_body
  renew_all_once l =
      let snapshot = not_lost l.active_leases in
      let done = for_each done_body snapshot l in
      if l.auto_renew then for_each not_done_body snapshot done else done
