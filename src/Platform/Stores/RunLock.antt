-- ===== src/Platform/Stores/RunLock.antt =====
-- The run lock of InMemoryThreadStore in platform/stores.py.
use azure_functions_langgrap.Base.{
  ℕ, String, Bool, true, false, not, ◌||◌, Option, none, some, is_none, List, [], ◌∷◌, ◌==◌,
  string_eq, ◌≡◌, ◌≢◌, refl, arith, ==_iff, Bool-cases, Option-cases, inl, inr, all, returns,
}
use azure_functions_langgrap.Base.Dict.{Dict, lookup, lookup-insert}
use azure_functions_langgrap.Platform.Threads.{Thread, ThreadStatus, busy, status_eq}
use azure_functions_langgrap.Platform.Stores.{
  Store, try_acquire_run_lock, release_run_lock, renew_run_lock, is_stale, updated, locked,
  unlocked, renewed, conflicts,
}
use azure_functions_langgrap.Platform.Stores.Runs.{
  Call, creates, updates, deletes, acquires, releases, renews, subject, perform, run,
  lookup-perform_ne,
}

module _ {V : Type 0} where
  -- A run holds the lock of the thread under `token`.
  pub record Holds (id token : String) (m : Store V) : Type 0 where
    pub thread : Thread V
    pub current : lookup id m ≡ some thread
    pub is_busy : thread.status ≡ busy
    pub owner : thread.lock_token ≡ some token

  -- A call that leaves the owner alone: it does not delete the thread or write its status, and
  -- releases it only under another token.
  abbrev pub spares : String → String → Call V → Bool
  spares id token (updates now j c) = not (j == id) || is_none c.status
  spares id token (deletes j) = not (j == id)
  spares id token (releases now j status values owner) =
      not (j == id) || is_stale owner (some token)
  spares id token _ = true

  module _ (id token : String) (m : Store V) (h : Holds id token m) where
    open h use {thread, current, is_busy, owner}

    -- What a call on the held thread itself leaves in its place.
    same-Holds :
        (c : Call V) → subject c ≡ id → spares id token c ≡ true → Holds id token (perform c m)
    unfolding perform
    same-Holds (creates now j metadata) e s = record {
      thread = thread;
      current = ground (arith, e, current);
      is_busy = is_busy;
      owner = owner;
    }
    same-Holds (updates now j c) e s = record {
      thread = updated now c thread;
      current =
          ground (arith, e, current, lookup-insert id id (updated now c thread) m, ==_iff id id);
      is_busy = ground (arith, e, s, is_busy, ==_iff j id);
      owner = owner;
    }
    same-Holds (deletes j) e s = absurd (ground (arith, e, s, ==_iff j id))
    same-Holds (acquires now token' j assistant) e s = record {
      thread = thread;
      current = ground (arith, e, current, is_busy);
      is_busy = is_busy;
      owner = owner;
    }
    same-Holds (releases now j status values by) e s = record {
      thread = thread;
      current = ground (arith, e, s, current, owner, ==_iff j id);
      is_busy = is_busy;
      owner = owner;
    }
    same-Holds (renews now j by) e s = elim (Bool-cases (is_stale (some by) thread.lock_token)) [
      | inl stale ↦ record {
        thread = thread;
        current = ground (arith, e, current, stale);
        is_busy = is_busy;
        owner = owner;
      }
      | inr mine ↦ record {
        thread = renewed now thread;
        current =
            ground
              (arith, e, current, mine, lookup-insert id id (renewed now thread) m, ==_iff id id);
        is_busy = is_busy;
        owner = owner;
      }
    ]

    perform-Holds : (c : Call V) → spares id token c ≡ true → Holds id token (perform c m)
    perform-Holds c s = elim (Bool-cases (subject c == id)) [
      | inl same ↦ same-Holds c ((==_iff (subject c) id).0 same) s
      | inr other ↦ record {
        thread = thread;
        current = rw (lookup-perform_ne c id m other) current;
        is_busy = is_busy;
        owner = owner;
      }
    ]

  -- A run that holds a thread's lock keeps it through every sequence of calls that spares it.
  pub run-Holds :
      (id token : String) (calls : List (Call V)) (m : Store V)
      → Holds id token m
      → all (spares id token) calls ≡ true
      → Holds id token (run calls m)
  unfolding run
  run-Holds id token [] m h s = h
  run-Holds id token (c ∷ cs) m h s =
      run-Holds id token cs (perform c m) (perform-Holds id token m h c (ground (arith, s)))
        (ground (arith, s))

  -- Mutual exclusion: after any sequence of calls that spares a run which holds a thread's lock, no
  -- `try_acquire_run_lock` on the thread succeeds, and the store is left as it was.
  pub run-excludes :
      (id token : String) (calls : List (Call V)) (m : Store V)
      → Holds id token m
      → all (spares id token) calls ≡ true
      → (now : ℕ) (token' : String) (assistant : Option String)
      → ((t : Thread V)
          → (try_acquire_run_lock now token' id assistant (run calls m)).0 ≢ returns (some t))
        × ((try_acquire_run_lock now token' id assistant (run calls m)).1 ≡ run calls m)
  unfolding try_acquire_run_lock
  run-excludes id token calls m h s now token' assistant =
      let held : Holds id token (run calls m) = run-Holds id token calls m h s in
      (
        λ t e. absurd (ground (arith, held.current, held.is_busy, e)),
        ground (arith, held.current, held.is_busy),
      )

  -- A successful `try_acquire_run_lock` takes a thread that was not busy and bound to no other
  -- assistant, makes the run its owner until 60 seconds from now, and returns what it stores; the
  -- thread keeps its assistant, or gets the run's.
  pub try_acquire_run_lock_lem :
      (now : ℕ) (token id : String) (assistant : Option String) (m : Store V) (t : Thread V)
      → (try_acquire_run_lock now token id assistant m).0 ≡ returns (some t)
      → (old : Thread V) × (lookup id m ≡ some old)
        × (old.status ≢ busy)
        × (conflicts old.assistant_id assistant ≡ false)
        × (t ≡ locked now token assistant old)
        × (lookup id (try_acquire_run_lock now token id assistant m).1 ≡ some t)
  unfolding try_acquire_run_lock
  try_acquire_run_lock_lem now token id assistant m t h = at (lookup id m) refl
    where
      at :
          (o : Option (Thread V))
          → lookup id m ≡ o
          → (old : Thread V) × (lookup id m ≡ some old)
            × (old.status ≢ busy)
            × (conflicts old.assistant_id assistant ≡ false)
            × (t ≡ locked now token assistant old)
            × (lookup id (try_acquire_run_lock now token id assistant m).1 ≡ some t)
      at none e = absurd (ground (arith, e, h))
      at (some old) e = (
        old,
        e,
        λ b. absurd (ground (arith, e, h, b)),
        ground (arith, e, h),
        ground (arith, e, h),
        ground (arith, e, h, lookup-insert id id (locked now token assistant old) m, ==_iff id id),
      )

  -- A release by the owner gives the thread the asked status and no lock, and the next
  -- `try_acquire_run_lock` of the same assistant, or of none, succeeds.
  pub release_run_lock_owner :
      (id token : String) (m : Store V) (h : Holds id token m) (now : ℕ) (status : ThreadStatus)
      (values : Option (Dict String V))
      → status ≢ busy
      → (lookup id (release_run_lock now id status values (some token) m).1
          ≡ some (unlocked now status values h.thread))
        × ((now' : ℕ) (token' : String)
            → (try_acquire_run_lock now' token' id h.thread.assistant_id
                (release_run_lock now id status values (some token) m).1).0
              ≡ returns (
                  some (
                    locked now' token' h.thread.assistant_id
                      (unlocked now status values h.thread))))
  unfolding release_run_lock try_acquire_run_lock
  release_run_lock_owner id token m h now status values ne = (
    free,
    λ now' token'. elim (Option-cases h.thread.assistant_id) [
      | inl unbound ↦ ground (arith, free, unbound, ne, ==_iff status busy)
      | inr (a, bound) ↦ ground (arith, free, bound, ne, ==_iff status busy, ==_iff a a)
    ],
  )
    where
      free :
          lookup id (release_run_lock now id status values (some token) m).1
          ≡ some (unlocked now status values h.thread)
      free = ground (
        arith,
        h.current,
        h.owner,
        ne,
        ==_iff status busy,
        ==_iff token token,
        lookup-insert id id (unlocked now status values h.thread) m,
        ==_iff id id,
      )

  -- A release or a renewal under a token that is not the thread's changes nothing.
  pub stale_token :
      (id token stale : String) (m : Store V) (h : Holds id token m)
      → token ≢ stale
      → (now : ℕ) (status : ThreadStatus) (values : Option (Dict String V))
      → ((release_run_lock now id status values (some stale) m).1 ≡ m)
        × (renew_run_lock now id stale m ≡ (false, m))
  unfolding release_run_lock renew_run_lock
  stale_token id token stale m h ne now status values = (
    ground (arith, h.current, h.owner, ne, ==_iff token stale),
    ground (arith, h.current, h.owner, ne, ==_iff token stale),
  )
