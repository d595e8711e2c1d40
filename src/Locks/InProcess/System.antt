-- ===== src/Locks/InProcess/System.antt =====
-- Any number of calls of `acquire` and `release` on one InProcessThreadLock, interleaved between
-- the critical sections of locks/inprocess.py. The primitive is taken outside `self._guard`, so
-- taking it is a step of its own; `release` is one section. A call outside these is `outside`.

pub mod Invariant
mod Keeps
mod Moves
mod Drops
pub mod Exclusion
pub mod Ownership
use azure_functions_langgrap.Base.{
  ℕ, zero, suc, String, ◌≡◌, Bool, true, false, Option, none, some, List, [], ◌∷◌, ◌==◌, nat_eq,
  set, get_elem?,
}
use azure_functions_langgrap.Locks.InProcess.{
  Key, InProcessThreadLock, new_lock, reserve, take_primitive, give_up, publish, release,
}

-- Where a call of `acquire` stands: before the primitive, after a failed or a successful
-- `state.lock.acquire`.
pub data Phase : Type 0 where
  outside : Phase
  reserved : Key → ℕ → Phase
  refused : Key → ℕ → Phase
  entered : Key → ℕ → Phase

-- The object that a call has reserved.
abbrev pub target : Phase → Option (Key × ℕ)
target outside = none
target (reserved k r) = some (k, r)
target (refused k r) = some (k, r)
target (entered k r) = some (k, r)

abbrev pub refers : ℕ → Phase → Bool
refers a outside = false
refers a (reserved k r) = r == a
refers a (refused k r) = r == a
refers a (entered k r) = r == a

abbrev pub inside : ℕ → Phase → Bool
inside a (entered k r) = r == a
inside a _ = false

pub record System : Type 0 where
  pub lock : InProcessThreadLock
  pub calls : List Phase

pub data Event : Type 0 where
  call : ℕ → Event
  releases : Key → String → Event

-- Call `i` moves, or anybody releases with any token.
pub data Step : System → Event → System → Type 0 where
  begin :
      (s : System) (i : ℕ) (k : Key)
      → get_elem? s.calls i ≡ some outside
      → Step s (call i) (record {
        lock = (reserve k s.lock).1;
        calls = set s.calls i (reserved k (reserve k s.lock).0);
      })
  lock_free :
      (s : System) (i : ℕ) (k : Key) (r : ℕ)
      → get_elem? s.calls i ≡ some (reserved k r)
      → (s.lock.heap r).locked ≡ false
      → Step s
          (call i)
          (record { lock = take_primitive r s.lock; calls = set s.calls i (entered k r) })
  lock_held :
      (s : System) (i : ℕ) (k : Key) (r : ℕ)
      → get_elem? s.calls i ≡ some (reserved k r)
      → (s.lock.heap r).locked ≡ true
      → Step s (call i) (record { lock = s.lock; calls = set s.calls i (refused k r) })
  leave :
      (s : System) (i : ℕ) (k : Key) (r : ℕ)
      → get_elem? s.calls i ≡ some (refused k r)
      → Step s (call i) (record { lock = give_up k r s.lock; calls = set s.calls i outside })
  returns_token :
      (s : System) (i : ℕ) (k : Key) (r : ℕ) (token : String)
      → get_elem? s.calls i ≡ some (entered k r)
      → Step s (call i) (record { lock = publish r token s.lock; calls = set s.calls i outside })
  release_call :
      (s : System) (k : Key) (token : String)
      → Step s (releases k token) (record { lock = release k token s.lock; calls = s.calls })

pub data Reach (s : System) : System → Type 0 where
  here : Reach s s
  next : {t u : System} {e : Event} → Reach s t → Step t e u → Reach s u

-- `n` callers, none of which has begun.
unfoldable pub idle_calls : ℕ → List Phase
idle_calls zero = []
idle_calls (suc n) = outside ∷ idle_calls n

unfoldable pub start : ℕ → System
unfolding idle_calls
start n = record { lock = new_lock; calls = idle_calls n }
