-- ===== src/Locks/AzureBlob/Tests.antt =====
-- Runs of locks/azure_blob.py on concrete locks.
use azure_functions_langgrap.Base.{
  ℕ, ◌≡◌, ◌≢◌, refl, Bool, true, false, not, ◌&&◌, Option, none, some, List, [], ◌∷◌, arith,
  pair_eq, string_eq, String, returns, raises,
}
use azure_functions_langgrap.Base.Dict.{lookup, insert}
use azure_functions_langgrap.Locks.InProcess.{Key}
use azure_functions_langgrap.Locks.AzureBlob.{
  AzureBlobLeaseThreadLock, LeaseState, new_state, release, ownership_problem, close, begin_close,
  finish_close, construct, seconds, released_lease,
}
use azure_functions_langgrap.Locks.AzureBlob.Errors.{
  ServiceError, ErrorKind, is_lease_conflict, is_definitive_lease_loss, ensure_marker,
}
use azure_functions_langgrap.Locks.AzureBlob.Acquire.{
  Attempt, acquire, acquire_loop, acquired, lock_closed, polling, register,
}
use azure_functions_langgrap.Locks.AzureBlob.Acquire.Sound.{
  Holds, Tracks, some_shuts, acquire-Tracks, acquire-ne-polling,
}
use azure_functions_langgrap.Locks.AzureBlob.Renewal.{renewed, failed, timed_out, renew_all_once}
use azure_functions_langgrap.Locks.AzureBlob.Renewal.Pass.{Tick, renew_all_once-Tick}
use azure_functions_langgrap.Locks.AzureBlob.Renewal.Ticks.{
  TickScript, renew_ticks, Survives, renew_ticks-lapses,
}
use azure_functions_langgrap.Locks.AzureBlob.Ownership.{close_lem}
use azure_functions_langgrap.Locks.AzureBlob.Invariant.{
  constructed, registers, releases, begins_close, finishes_close, ended, IsValid, Reachable-IsValid,
}
use azure_functions_langgrap.Locks.AzureBlob.BlobName.{blob_name-injective}

abbrev key : Key
key = ("graph", "thread-1")

abbrev new_lock : AzureBlobLeaseThreadLock
new_lock = record {
  active_leases = [];
  closed = false;
  auto_renew = true;
  guard_checkpoint_writes = true;
  released = [];
}

abbrev conflict : ServiceError
conflict = record {
  kind = ErrorKind.http_response;
  error_code = some "LeaseAlreadyPresent";
  status_code = some 409;
}

abbrev refused : Attempt
refused = record {
  before = λ l. l;
  answer = raises conflict;
  meanwhile = λ l. l;
  expired = false;
  token = "unused";
  now = 0;
  shuts = false;
}

abbrev granted : Attempt
granted = record {
  before = λ l. l;
  answer = returns 7;
  meanwhile = λ l. l;
  expired = false;
  token = "owner";
  now = 5;
  shuts = true;
}

-- The second round gets the lease, while another thread begins to close the lock.
script_acquires : (acquire key true none (refused ∷ granted ∷ []) new_lock).0 ≡ acquired "owner"
unfolding acquire acquire_loop register ensure_marker is_lease_conflict lookup insert
script_acquires = refl

acquire-Tracks_example :
    Tracks key "owner" (acquire key true none (refused ∷ granted ∷ []) new_lock).1
    × (((acquire key true none (refused ∷ granted ∷ []) new_lock).1.closed
          && not (some_shuts (refused ∷ granted ∷ [])))
        ≡ false)
acquire-Tracks_example =
    acquire-Tracks key true none (refused ∷ granted ∷ []) new_lock "owner" script_acquires

acquire-ne-polling_example : (acquire key false none (refused ∷ []) new_lock).0 ≢ polling
acquire-ne-polling_example = acquire-ne-polling key false none (refused ∷ []) new_lock refl

abbrev state : LeaseState
state = new_state 7 "owner" 5

abbrev held : AzureBlobLeaseThreadLock
held = record new_lock { active_leases = (key, state) ∷ [] }

at_held : lookup key held.active_leases ≡ some state
unfolding lookup
at_held = refl

abbrev owner_Holds : Holds key "owner" held
owner_Holds = record {
  state = state;
  current = at_held;
  owner = refl;
  live = refl;
  open_lock = refl;
}

-- Two misses, a success, and two misses again: the lease is kept.
abbrev flaky : TickScript
flaky =
    (λ _. timed_out, 1)
    ∷ (λ _. failed conflict, 2)
    ∷ (λ _. renewed, 3)
    ∷ (λ _. timed_out, 4)
    ∷ (λ _. timed_out, 5)
    ∷ []

renew_ticks-lapses_example : Survives key state false (renew_ticks flaky held)
unfolding is_definitive_lease_loss lookup
renew_ticks-lapses_example =
    renew_ticks-lapses key flaky held state (refl, tt) refl at_held refl refl

renew_all_once-Tick_example : Tick (λ _. renewed) 9 held (renew_all_once (λ _. renewed) 9 held)
unfolding lookup
renew_all_once-Tick_example = renew_all_once-Tick (λ _. renewed) 9 held (refl, tt)

closed_example :
    (close held ≡ record held { active_leases = []; closed = true; released = 7 ∷ [] })
    × (close (close held) ≡ close held)
    × ((k : Key) (blocking : Bool) (marker : Option ServiceError) (attempts : List Attempt)
        → acquire k blocking marker attempts (close held) ≡ (lock_closed, close held))
    × ((k : Key) (token : String)
        → (ownership_problem k token (close held) ≡ some released_lease)
          × (release k token (close held) ≡ close held))
closed_example = close_lem held refl

new_lock_constructed :
    construct
      (record { azure_blob = true; is_container = true; azure_core = true })
      (seconds 60)
      true
      true
    ≡ returns (new_lock, [])
unfolding construct
new_lock_constructed = refl

-- A lease is taken, the lock is closed around a release, and a late `acquire` is refused.
Reachable-IsValid_example :
    IsValid ended
      (register key 8 "late" 9 false (
        finish_close
          (release key "stale" (begin_close (register key 7 "owner" 5 false new_lock).1)))).1
Reachable-IsValid_example = Reachable-IsValid (
    registers key 8 "late" 9 (
      finishes_close (
        releases key "stale" (
          begins_close (
            registers key 7 "owner" 5
              (constructed _ (seconds 60) true true new_lock [] new_lock_constructed))))))

blob_name-injective_example :
    (◌≡◌ {A = List ℕ} (b'a' ∷ []) (b'a' ∷ [])) × (◌≡◌ {A = List ℕ} (b'/' ∷ []) (b'/' ∷ []))
blob_name-injective_example =
    blob_name-injective [] (b'a' ∷ []) (b'a' ∷ []) (b'/' ∷ []) (b'/' ∷ []) (omega arith)
      (omega arith) (omega arith) (omega arith) refl
