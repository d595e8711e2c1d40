-- ===== src/Locks/AzureBlob/Acquire/Sound.antt =====
-- What `acquire` of locks/azure_blob.py promises, whatever the other threads do meanwhile.
use azure_functions_langgrap.Base.{
  ℕ, String, ◌≡◌, ◌≢◌, refl, Bool, true, false, not, ◌||◌, ◌&&◌, Bool-cases, inl, inr, Option, some,
  List, [], ◌∷◌, pair_eq, if◌then◌else◌, Outcome, returns, raises, arith, ◌⊎◌, ==_iff,
}
use azure_functions_langgrap.Base.Dict.{lookup, insert, lookup-insert}
use azure_functions_langgrap.Locks.InProcess.{Key}
use azure_functions_langgrap.Locks.AzureBlob.{
  AzureBlobLeaseThreadLock, LeaseState, new_state, call_release,
}
use azure_functions_langgrap.Locks.AzureBlob.Errors.{
  ServiceError, is_http_response, is_lease_conflict, ensure_marker,
}
use azure_functions_langgrap.Locks.AzureBlob.Acquire.{
  AcquireResult, acquired, unavailable, lock_closed, service_failed, polling, Attempt, tracked,
  register, settle, acquire_loop, begin_loop, acquire,
}

-- `key` is tracked under `token`, by a lease that is not lost.
pub record Tracks (key : Key) (token : String) (l : AzureBlobLeaseThreadLock) : Type 0 where
  pub state : LeaseState
  pub current : lookup key l.active_leases ≡ some state
  pub owner : state.token ≡ token
  pub live : state.lost ≡ false

-- The same in an open lock.
pub record Holds (key : Key) (token : String) (l : AzureBlobLeaseThreadLock) : Type 0 where
  pub state : LeaseState
  pub current : lookup key l.active_leases ≡ some state
  pub owner : state.token ≡ token
  pub live : state.lost ≡ false
  pub open_lock : l.closed ≡ false

-- Every lease that the service grants is either registered under the token that is returned, or
-- given back by a release call, as the last of the trace.
pub register_lem :
    (key : Key) (lease : ℕ) (token : String) (now : ℕ) (shuts : Bool) (l : AzureBlobLeaseThreadLock)
    → (((register key lease token now shuts l).0 ≡ acquired token)
        × (lookup key (register key lease token now shuts l).1.active_leases
            ≡ some (new_state lease token now))
        × ((register key lease token now shuts l).1 ≡ record l {
          active_leases = insert key (new_state lease token now) l.active_leases;
          closed = l.closed || shuts;
        })
        × (tracked key l ≡ false)
        × (l.closed ≡ false))
      ⊎ (((register key lease token now shuts l).0 ≢ acquired token)
          × ((register key lease token now shuts l).1 ≡ call_release lease l))
unfolding register
register_lem key lease token now shuts l =
    ground
      (arith, lookup-insert key key (new_state lease token now) l.active_leases, ==_iff key key)

register-Tracks :
    (key : Key) (lease : ℕ) (token t : String) (now : ℕ) (shuts : Bool)
    (l : AzureBlobLeaseThreadLock)
    → (register key lease token now shuts l).0 ≡ acquired t
    → Tracks key t (register key lease token now shuts l).1
unfolding register
register-Tracks key lease token t now shuts l h = record {
  state = new_state lease token now;
  current =
      ground
        (arith, lookup-insert key key (new_state lease token now) l.active_leases, ==_iff key key);
  owner = ground arith;
  live = refl;
}

-- An outcome that every way out of the loop has, `acquire_loop` has.
module _ {ℓ} (P : AcquireResult × AzureBlobLeaseThreadLock → Type ℓ) (key : Key)
    (fails : (x : AcquireResult) (l : AzureBlobLeaseThreadLock)
      → ((token : String) → x ≢ acquired token)
      → P (x, l))
    (registers : (lease : ℕ) (token : String) (now : ℕ) (shuts : Bool)
        (l : AzureBlobLeaseThreadLock)
      → P (register key lease token now shuts l)) where
  either :
      (b : Bool) (x y : AcquireResult × AzureBlobLeaseThreadLock)
      → P x
      → P y
      → P (if b then x else y)
  either true x y p q = p
  either false x y p q = q

  settle_rule :
      (blocking : Bool) (a : Attempt) (l : AzureBlobLeaseThreadLock)
      (retry : AcquireResult × AzureBlobLeaseThreadLock) (answer : Outcome ServiceError ℕ)
      → P retry
      → P (settle key blocking a l retry answer)
  unfolding settle
  settle_rule blocking a l retry (returns lease) p = registers lease a.token a.now a.shuts l
  settle_rule blocking a l retry (raises exc) p =
      either (not (is_http_response exc.kind && is_lease_conflict exc)) _ _
        (fails (service_failed exc) l (λ t e. cc))
        (either (not blocking) _ _ (fails unavailable l (λ t e. cc))
          (either a.expired _ _ (fails unavailable l (λ t e. cc)) p))

  loop_rule :
      (blocking : Bool) (attempts : List Attempt) (l : AzureBlobLeaseThreadLock)
      → P (acquire_loop key blocking attempts l)
  unfolding acquire_loop
  loop_rule blocking [] l = fails polling l (λ t e. cc)
  loop_rule blocking (a ∷ rest) l =
      either (a.before l).closed _ _ (fails lock_closed (a.before l) (λ t e. cc)) (
        settle_rule blocking a (a.meanwhile (a.before l)) _ a.answer
          (loop_rule blocking rest (a.meanwhile (a.before l))))

  begin_rule :
      (blocking : Bool) (attempts : List Attempt) (l : AzureBlobLeaseThreadLock)
      (marker : Outcome ServiceError (Unit {0}))
      → P (begin_loop key blocking attempts l marker)
  unfolding begin_loop
  begin_rule blocking attempts l (returns _) = loop_rule blocking attempts l
  begin_rule blocking attempts l (raises exc) = fails (service_failed exc) l (λ t e. cc)

  acquire_rule :
      (blocking : Bool) (marker : Option ServiceError) (attempts : List Attempt)
      (l : AzureBlobLeaseThreadLock)
      → P (acquire key blocking marker attempts l)
  unfolding acquire
  acquire_rule blocking marker attempts l = either l.closed _ _ (fails lock_closed l (λ t e. cc)) (
      either (tracked key l) _ _ (fails unavailable l (λ t e. cc))
        (begin_rule blocking attempts l (ensure_marker marker)))

abbrev pub some_shuts : List Attempt → Bool
some_shuts [] = false
some_shuts (a ∷ rest) = a.shuts || some_shuts rest

loop_open :
    (key : Key) (blocking : Bool) (attempts : List Attempt) (l : AzureBlobLeaseThreadLock)
    (token : String)
    → some_shuts attempts ≡ false
    → (acquire_loop key blocking attempts l).0 ≡ acquired token
    → (acquire_loop key blocking attempts l).1.closed ≡ false
unfolding acquire_loop settle register
loop_open key blocking [] l token quiet h = absurd (ground (arith, h))
loop_open key blocking (a ∷ rest) l token quiet h =
    ground (arith, quiet, h, loop_open key blocking rest (a.meanwhile (a.before l)) token)

acquire_open :
    (key : Key) (blocking : Bool) (marker : Option ServiceError) (attempts : List Attempt)
    (l : AzureBlobLeaseThreadLock) (token : String)
    → some_shuts attempts ≡ false
    → (acquire key blocking marker attempts l).0 ≡ acquired token
    → (acquire key blocking marker attempts l).1.closed ≡ false
unfolding acquire begin_loop
acquire_open key blocking marker attempts l token quiet h =
    ground (arith, h, loop_open key blocking attempts l token quiet)

-- Whatever the service answers and the other threads do, a token that `acquire` returns owns its
-- key, by a lease that is not lost, and in an open lock unless the `close` of another thread set
-- `_closed` after the last test of it.
pub acquire-Tracks :
    (key : Key) (blocking : Bool) (marker : Option ServiceError) (attempts : List Attempt)
    (l : AzureBlobLeaseThreadLock) (token : String)
    → (acquire key blocking marker attempts l).0 ≡ acquired token
    → Tracks key token (acquire key blocking marker attempts l).1
      × (((acquire key blocking marker attempts l).1.closed && not (some_shuts attempts)) ≡ false)
acquire-Tracks key blocking marker attempts l token h = (
  acquire_rule (λ q. q.0 ≡ acquired token → Tracks key token q.1) key
      (λ x l' ne e. absurd (ne token e))
      (λ lease t now shuts l' e. register-Tracks key lease t token now shuts l' e) blocking marker
      attempts l h,
  elim (Bool-cases (some_shuts attempts)) [
    | inl shut ↦ ground (arith, shut)
    | inr quiet ↦ ground (arith, quiet, acquire_open key blocking marker attempts l token quiet h)
  ],
)

-- A closed lock raises and a tracked key is refused, before the service is asked and with nothing
-- changed, for every script of attempts.
pub acquire_fast :
    (key : Key) (blocking : Bool) (marker : Option ServiceError) (attempts : List Attempt)
    (l : AzureBlobLeaseThreadLock)
    → (l.closed || tracked key l) ≡ true
    → acquire key blocking marker attempts l ≡ (if l.closed then lock_closed else unavailable, l)
unfolding acquire
acquire_fast key blocking marker attempts l h = ground arith

-- A round that ends the call even if the lease is held elsewhere: the call does not block, or its
-- deadline has passed.
abbrev pub ends : Bool → Attempt → Bool
ends blocking a = not blocking || a.expired

abbrev pub some_ends : Bool → List Attempt → Bool
some_ends blocking [] = false
some_ends blocking (a ∷ rest) = ends blocking a || some_ends blocking rest

loop-ne-polling :
    (key : Key) (blocking : Bool) (attempts : List Attempt) (l : AzureBlobLeaseThreadLock)
    → some_ends blocking attempts ≡ true
    → (acquire_loop key blocking attempts l).0 ≢ polling
unfolding acquire_loop register
loop-ne-polling key blocking [] l h = cc
loop-ne-polling key blocking (a ∷ rest) l h =
    ground (arith, loop-ne-polling key blocking rest (a.meanwhile (a.before l)))

-- `acquire` ends: with one round if it does not block, and else by the first round at which the
-- deadline has passed.
pub acquire-ne-polling :
    (key : Key) (blocking : Bool) (marker : Option ServiceError) (attempts : List Attempt)
    (l : AzureBlobLeaseThreadLock)
    → some_ends blocking attempts ≡ true
    → (acquire key blocking marker attempts l).0 ≢ polling
unfolding acquire
acquire-ne-polling key blocking marker attempts l h =
    ground (arith, loop-ne-polling key blocking attempts l)
