-- ===== src/Locks/InProcess/Sequential.antt =====
-- locks/inprocess.py with one caller at a time.
use azure_functions_langgrap.Base.{
  ℕ, ◌≡◌, ◌≢◌, none, some, [], arith, ==_iff, nat_eq, pair_eq, string_eq, inl, inr, String,
  Option-cases,
}
use azure_functions_langgrap.Base.Dict.{insert, lookup, lookup-insert, lookup-remove}
use azure_functions_langgrap.Locks.InProcess.{Key, InProcessThreadLock, acquire, release}
use azure_functions_langgrap.Locks.InProcess.System.Invariant.{Inv}

-- A lock with no call in flight.
abbrev pub IsQuiet : InProcessThreadLock → Type 0
IsQuiet l = Inv (record { lock = l; calls = [] })

module _ (k : Key) (token : String) (l : InProcessThreadLock) (quiet : IsQuiet l) where
  -- With no call in flight, `acquire` returns its fresh token exactly where the key is not in the
  -- registry, and `None` exactly where it is.
  pub acquire_result :
      (acquire k token l).0 ≡ (elim (lookup k l.states) [ none ↦ some token | some r ↦ none ])
  unfolding acquire
  acquire_result = elim (Option-cases (lookup k l.states)) [
    | inl free ↦ ground (arith, ==_iff l.next l.next)
    | inr (r, held) ↦
        ground
          (arith, quiet.core.counted r, quiet.core.exclusive r, quiet.live k r held, ==_iff r r)
  ]

  -- A failed `acquire` leaves the registry and every object as they were.
  pub acquire_failed :
      (acquire k token l).0 ≡ none
      → (j : Key) (a : ℕ)
      → (lookup j (acquire k token l).1.states ≡ lookup j l.states)
        × ((acquire k token l).1.heap a ≡ l.heap a)
  unfolding acquire
  acquire_failed failed j a = elim (Option-cases (lookup k l.states)) [
    | inl free ↦ ground (arith, ==_iff l.next l.next)
    | inr (r, held) ↦ ground (
      arith,
      quiet.core.counted r,
      quiet.core.exclusive r,
      quiet.live k r held,
      ==_iff r r,
      ==_iff r a,
    )
  ]

  -- `acquire` of a free key and `release` with its token leave every key of the registry as it
  -- was: the object that was made is collected.
  pub release-acquire :
      lookup k l.states ≡ none
      → (j : Key) → lookup j (release k token (acquire k token l).1).states ≡ lookup j l.states
  unfolding acquire release
  release-acquire free j = ground (
    arith,
    ==_iff l.next l.next,
    ==_iff k k,
    ==_iff k j,
    ==_iff token token,
    lookup-insert k k l.next l.states,
    lookup-insert k j l.next l.states,
    lookup-remove k j (insert k l.next l.states),
  )

  -- A release with a token that the key's owner does not have changes nothing.
  pub release_mismatch :
      (stale : String)
      → ((r : ℕ) → lookup k l.states ≡ some r → (l.heap r).token ≢ some stale)
      → release k stale l ≡ l
  unfolding release
  release_mismatch stale other = elim (Option-cases (lookup k l.states)) [
    | inl free ↦ ground arith
    | inr (r, held) ↦ elim (Option-cases (l.heap r).token) [
      | inl unowned ↦ ground arith
      | inr (current, owned) ↦ ground (arith, other r held, ==_iff current stale)
    ]
  ]
