-- ===== src/Locks/InProcess.antt =====
-- locks/inprocess.py: the default lock. The critical sections under `self._guard` are one function
-- each, and the `_KeyState` objects stand on a heap, since `is` compares them by identity.
use azure_functions_langgrap.Base.{
  ℕ, ◌+◌, ◌-◌, String, Bool, true, false, ◌&&◌, Option, none, some, ◌==◌, pair_eq, nat_eq,
  string_eq, if◌then◌else◌, [],
}
mod Laws
pub mod Sequential
mod Tests
pub mod System
use azure_functions_langgrap.Base.Dict.{Dict, lookup, insert, remove}

-- `(graph_name, thread_id)`
abbrev pub Key : Type 0
Key = String × String

-- `refs` falls only where it is positive (`System.Invariant.refs_pos`), so `-` on ℕ is exact.
pub record KeyState : Type 0 where
  pub locked : Bool  -- the `threading.Lock`
  pub token : Option String
  pub refs : ℕ

abbrev pub new_key_state : KeyState
new_key_state = record { locked = false; token = none; refs = 0 }

pub record InProcessThreadLock : Type 0 where
  pub states : Dict Key ℕ  -- `_states`: the address of each key's object
  pub heap : ℕ → KeyState
  pub next : ℕ  -- the first address that is not in use

abbrev pub new_lock : InProcessThreadLock
new_lock = record { states = []; heap = λ _. new_key_state; next = 0 }

abbrev pub write : (ℕ → KeyState) → ℕ → KeyState → ℕ → KeyState
write heap r state a = if r == a then state else heap a

-- `self._states.get(key) is state`
is_current : Key → ℕ → InProcessThreadLock → Bool
is_current key r l = elim (lookup key l.states) [ none ↦ false | some a ↦ a == r ]

-- `_maybe_gc`
unfoldable pub maybe_gc : Key → ℕ → InProcessThreadLock → InProcessThreadLock
unfolding is_current
maybe_gc key r l =
    if (l.heap r).refs == 0 && is_current key r l
    then record l { states = remove key l.states }
    else l

-- The first section of `acquire`: find or make the key's object, and reserve a reference.
find_or_make : Key → Option ℕ → InProcessThreadLock → ℕ × InProcessThreadLock
find_or_make key (some r) l = (r, l)
find_or_make key none l = (
  l.next,
  record l {
    states = insert key l.next l.states;
    heap = write l.heap l.next new_key_state;
    next = l.next + 1;
  },
)

add_ref : ℕ × InProcessThreadLock → ℕ × InProcessThreadLock
add_ref (r, l) =
    let state = l.heap r in
    (r, record l { heap = write l.heap r (record state { refs = state.refs + 1 }) })

unfoldable pub reserve : Key → InProcessThreadLock → ℕ × InProcessThreadLock
unfolding find_or_make add_ref
reserve key l = add_ref (find_or_make key (lookup key l.states) l)

-- `state.lock.acquire(...)` where the primitive is free.
unfoldable pub take_primitive : ℕ → InProcessThreadLock → InProcessThreadLock
take_primitive r l = record l { heap = write l.heap r (record (l.heap r) { locked = true }) }

-- The section after `if not acquired`.
unfoldable pub give_up : Key → ℕ → InProcessThreadLock → InProcessThreadLock
unfolding maybe_gc
give_up key r l =
    let state = l.heap r in
    maybe_gc key r (record l { heap = write l.heap r (record state { refs = state.refs - 1 }) })

-- The last section of `acquire`.
unfoldable pub publish : ℕ → String → InProcessThreadLock → InProcessThreadLock
publish r token l = record l { heap = write l.heap r (record (l.heap r) { token = some token }) }

-- `acquire(timeout=0.0)` that runs alone; `token` is what `secrets.token_hex` returns.
unfoldable pub acquire : Key → String → InProcessThreadLock → Option String × InProcessThreadLock
unfolding reserve take_primitive give_up publish
acquire key token l =
    let (r, l') = reserve key l in
    if (l'.heap r).locked
    then (none, give_up key r l')
    else (some token, publish r token (take_primitive r l'))

-- The matching branch of `release`: a free primitive raises RuntimeError, which is caught, and
-- stays free.
free : Key → ℕ → InProcessThreadLock → InProcessThreadLock
unfolding maybe_gc
free key r l =
    let state = l.heap r in
    maybe_gc key r (record l {
      heap = write l.heap r (record { locked = false; token = none; refs = state.refs - 1 });
    })

release_at : Key → String → Option ℕ → InProcessThreadLock → InProcessThreadLock
unfolding free
release_at key token none l = l
release_at key token (some r) l =
    let freed = free key r l in
    elim (l.heap r).token [ none ↦ l | some current ↦ if current == token then freed else l ]

unfoldable pub release : Key → String → InProcessThreadLock → InProcessThreadLock
unfolding release_at
release key token l = release_at key token (lookup key l.states) l
