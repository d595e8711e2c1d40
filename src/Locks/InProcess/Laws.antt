-- ===== src/Locks/InProcess/Laws.antt =====
-- How the sections of locks/inprocess.py act on one key of the registry and one object of the heap.
use azure_functions_langgrap.Base.{
  ℕ, ◌+◌, ◌≡◌, false, ◌&&◌, none, some, ◌==◌, pair_eq, nat_eq, ==_iff, string_eq, if◌then◌else◌,
  arith, ◌⊎◌,
}
use azure_functions_langgrap.Base.Dict.{lookup, lookup-insert, lookup-remove}
use azure_functions_langgrap.Locks.InProcess.{
  Key, InProcessThreadLock, new_key_state, maybe_gc, reserve,
}

-- The registry after collection: only an unreferenced current object goes.
pub lookup-maybe_gc :
    (k j : Key) (r : ℕ) (l : InProcessThreadLock)
    → lookup k l.states ≡ some r
    → lookup j (maybe_gc k r l).states
      ≡ (if (l.heap r).refs == 0 && k == j then none else lookup j l.states)
unfolding maybe_gc
lookup-maybe_gc k j r l h = ground (arith, lookup-remove k j l.states, ==_iff r r)

pub heap-maybe_gc :
    (k : Key) (r : ℕ) (l : InProcessThreadLock) (a : ℕ) → (maybe_gc k r l).heap a ≡ l.heap a
unfolding maybe_gc
heap-maybe_gc k r l a = ground arith

pub next-maybe_gc : (k : Key) (r : ℕ) (l : InProcessThreadLock) → (maybe_gc k r l).next ≡ l.next
unfolding maybe_gc
next-maybe_gc k r l = ground arith

-- The object of a reservation is the key's, or a new one where the key has none.
pub reserve_cases :
    (k : Key) (l : InProcessThreadLock)
    → ((lookup k l.states ≡ some (reserve k l).0) × ((reserve k l).1.next ≡ l.next))
      ⊎ ((lookup k l.states ≡ none)
          × ((reserve k l).0 ≡ l.next)
          × ((reserve k l).1.next ≡ l.next + 1))
unfolding reserve
reserve_cases k l = ground arith

pub lookup-reserve :
    (k j : Key) (l : InProcessThreadLock)
    → lookup j (reserve k l).1.states ≡ (if k == j then some (reserve k l).0 else lookup j l.states)
unfolding reserve
lookup-reserve k j l = ground (arith, lookup-insert k j l.next l.states, ==_iff k j)

pub heap-reserve_self :
    (k : Key) (l : InProcessThreadLock)
    → (reserve k l).1.heap (reserve k l).0 ≡ (elim (lookup k l.states) [
      | none ↦ record new_key_state { refs = 1 }
      | some r ↦ record (l.heap r) { refs = (l.heap r).refs + 1 }
    ])
unfolding reserve
heap-reserve_self k l = ground arith

pub heap-reserve_ne :
    (k : Key) (l : InProcessThreadLock) (a : ℕ)
    → (reserve k l).0 == a ≡ false
    → (reserve k l).1.heap a ≡ l.heap a
unfolding reserve
heap-reserve_ne k l a h = ground arith
