-- ===== src/Platform/Stores.antt =====
-- `InMemoryThreadStore` of platform/stores.py. A method is a function of the dictionary; the clock,
-- the new thread id and the new lock token are arguments. A `Thread` that is returned is a deep
-- copy, which the values of this model are already.
pub mod Queries
pub mod Runs
pub mod RunLock
pub mod Invariant
mod Tests
use azure_functions_langgrap.Base.{
  ℕ, ◌+◌, String, Bool, true, false, not, ◌&&◌, ◌||◌, Option, none, some, is_none, is_some, or_else,
  List, [], ◌∷◌, ◌==◌, string_eq, Eq, if◌then◌else◌, Outcome, returns, raises, filter, all, length,
  take, drop, leb, ℤ, is_negative, to_ℕ,
}
use azure_functions_langgrap.Base.Dict.{Dict, lookup, insert, remove}
use azure_functions_langgrap.Platform.Threads.{
  Thread, ThreadStatus, idle, busy, Interrupt, status_eq,
}

pub data StoreError : Type 0 where
  key_error : String → StoreError
  duplicate_id : String → StoreError
  bound_to : String → String → StoreError  -- the thread's assistant, the run's
  busy_status : StoreError
  negative_limit : StoreError
  negative_offset : StoreError

abbrev pub Store : Type 0 → Type 0
Store V = Dict String (Thread V)

abbrev pub some_or {ℓ} : {A : Type ℓ} → Option A → Option A → Option A
some_or none old = old
some_or (some new) old = some new

-- The fields that `update` is given.
pub record Changes (V : Type 0) : Type 0 where
  pub metadata : Option (Dict String V)
  pub status : Option ThreadStatus
  pub values : Option (Dict String V)
  pub interrupts : Option (Dict String (List (Interrupt V)))
  pub assistant_id : Option String

-- The first test of `try_acquire_run_lock`: the thread's assistant, if the run has another.
abbrev pub conflicts : Option String → Option String → Bool
conflicts (some a) (some b) = not (a == b)
conflicts _ _ = false

-- `owner_token is not None and existing.lock_token != owner_token`
abbrev pub is_stale : Option String → Option String → Bool
is_stale none held = false
is_stale (some owner) none = true
is_stale (some owner) (some held) = not (held == owner)

module _ {V : Type 0} where
  abbrev pub new_thread : ℕ → String → Option (Dict String V) → Thread V
  new_thread now id metadata = record {
    thread_id = id;
    created_at = now;
    updated_at = now;
    metadata = metadata;
    status = idle;
    values = none;
    assistant_id = none;
    interrupts = [];
    lock_token = none;
    lock_expires_at = none;
  }

  -- `create`
  unfoldable pub create :
      ℕ → String → Option (Dict String V) → Store V → Outcome StoreError (Thread V) × Store V
  create now id metadata m =
      let thread = new_thread now id metadata in
      if is_some (lookup id m)
      then (raises (duplicate_id id), m)
      else (returns thread, insert id thread m)

  abbrev pub updated : ℕ → Changes V → Thread V → Thread V
  updated now c t = record t {
    updated_at = now;
    metadata = some_or c.metadata t.metadata;
    status = or_else c.status t.status;
    values = some_or c.values t.values;
    interrupts = or_else c.interrupts t.interrupts;
    assistant_id = some_or c.assistant_id t.assistant_id;
  }

  update_at :
      ℕ → String → Changes V → Option (Thread V) → Store V → Outcome StoreError (Thread V) × Store V
  update_at now id c none m = (raises (key_error id), m)
  update_at now id c (some t) m = (returns (updated now c t), insert id (updated now c t) m)

  -- `update`
  unfoldable pub update : ℕ → String → Changes V → Store V → Outcome StoreError (Thread V) × Store V
  unfolding update_at
  update now id c m = update_at now id c (lookup id m) m

  -- `delete`
  unfoldable pub delete : String → Store V → Outcome StoreError (Unit {0}) × Store V
  delete id m =
      if is_some (lookup id m) then (returns tt, remove id m) else (raises (key_error id), m)

  abbrev pub locked : ℕ → String → Option String → Thread V → Thread V
  locked now token assistant t = record t {
    status = busy;
    updated_at = now;
    lock_token = some token;
    lock_expires_at = some (now + 60);
    assistant_id = some_or t.assistant_id assistant;
  }

  try_acquire_at :
      ℕ
      → String
      → String
      → Option String
      → Option (Thread V)
      → Store V
      → Outcome StoreError (Option (Thread V)) × Store V
  try_acquire_at now token id assistant none m = (raises (key_error id), m)
  try_acquire_at now token id assistant (some t) m =
      let acquired = locked now token assistant t in
      if conflicts t.assistant_id assistant
      then (raises (bound_to (or_else t.assistant_id "") (or_else assistant "")), m)
      else if t.status == busy
      then (returns none, m)
      else (returns (some acquired), insert id acquired m)

  -- `try_acquire_run_lock`
  unfoldable pub try_acquire_run_lock :
      ℕ
      → String
      → String
      → Option String
      → Store V
      → Outcome StoreError (Option (Thread V)) × Store V
  unfolding try_acquire_at
  try_acquire_run_lock now token id assistant m =
      try_acquire_at now token id assistant (lookup id m) m

  abbrev pub unlocked : ℕ → ThreadStatus → Option (Dict String V) → Thread V → Thread V
  unlocked now status values t = record t {
    status = status;
    updated_at = now;
    lock_token = none;
    lock_expires_at = none;
    values = some_or values t.values;
  }

  release_at :
      ℕ
      → String
      → ThreadStatus
      → Option (Dict String V)
      → Option String
      → Option (Thread V)
      → Store V
      → Outcome StoreError (Thread V) × Store V
  release_at now id status values owner none m = (raises (key_error id), m)
  release_at now id status values owner (some t) m =
      let released = unlocked now status values t in
      if is_stale owner t.lock_token
      then (returns t, m)
      else (returns released, insert id released m)

  -- `release_run_lock`
  unfoldable pub release_run_lock :
      ℕ
      → String
      → ThreadStatus
      → Option (Dict String V)
      → Option String
      → Store V
      → Outcome StoreError (Thread V) × Store V
  unfolding release_at
  release_run_lock now id status values owner m =
      if status == busy
      then (raises busy_status, m)
      else release_at now id status values owner (lookup id m) m

  abbrev pub renewed : ℕ → Thread V → Thread V
  renewed now t = record t { updated_at = now; lock_expires_at = some (now + 60) }

  renew_at : ℕ → String → String → Option (Thread V) → Store V → Bool × Store V
  renew_at now id owner none m = (false, m)
  renew_at now id owner (some t) m =
      if is_stale (some owner) t.lock_token then (false, m) else (true, insert id (renewed now t) m)

  -- `renew_run_lock`
  unfoldable pub renew_run_lock : ℕ → String → String → Store V → Bool × Store V
  unfolding renew_at
  renew_run_lock now id owner m = renew_at now id owner (lookup id m) m
