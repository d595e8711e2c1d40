-- ===== src/Locks/InProcess/System/Exclusion.antt =====
-- What the invariant gives the callers of locks/inprocess.py: mutual exclusion, ownership until the
-- matching release, and a registry that does not leak.
use azure_functions_langgrap.Base.{
  ℕ, ◌≡◌, refl, Option, none, some, get_elem?, arith, ==_iff, nat_eq, pair_eq, string_eq, String,
  count_if_two, count_if_zero,
}
use azure_functions_langgrap.Base.Dict.{lookup}
use azure_functions_langgrap.Locks.InProcess.{Key, InProcessThreadLock, publish}
use azure_functions_langgrap.Locks.InProcess.System.{
  Phase, outside, entered, refers, inside, System, Event, Step, begin, lock_free, lock_held, leave,
  returns_token, release_call, Reach, here, next, start,
}
use azure_functions_langgrap.Locks.InProcess.System.Invariant.{Inv, start-Inv}
use azure_functions_langgrap.Locks.InProcess.System.Keeps.{begin-Inv}
use azure_functions_langgrap.Locks.InProcess.System.Moves.{
  lock_free-Inv, lock_held-Inv, returns_token-Inv, token-entered,
}
use azure_functions_langgrap.Locks.InProcess.System.Drops.{leave-Inv, release-Inv}

pub Step-Inv : {s t : System} {e : Event} → Step s e t → Inv s → Inv t
Step-Inv (begin s i k h) inv = begin-Inv inv.core inv.live i k h
Step-Inv (lock_free s i k r h f) inv = lock_free-Inv inv.core inv.live i k r h f
Step-Inv (lock_held s i k r h f) inv = lock_held-Inv inv.core inv.live i k r h
Step-Inv (leave s i k r h) inv = leave-Inv inv.core inv.live i k r h
Step-Inv (returns_token s i k r token h) inv = returns_token-Inv inv.core inv.live i k r h token
Step-Inv (release_call s k token) inv = release-Inv inv.core inv.live k token

pub Reach-Inv : {s t : System} → Inv s → Reach s t → Inv t
Reach-Inv inv here = inv
Reach-Inv inv (next r st) = Step-Inv st (Reach-Inv inv r)

-- The owner of `k` is whoever has the token that its object records.
pub record Owns (k : Key) (token : String) (l : InProcessThreadLock) : Type 0 where
  pub object : ℕ
  pub current : lookup k l.states ≡ some object
  pub recorded : (l.heap object).token ≡ some token

-- In every state that `n` callers reach from a new lock, at most one call is between taking the
-- primitive of a key and handing out its token, and none is while the key has an owner.
pub mutual_exclusion :
    (n : ℕ) {s : System}
    → Reach (start n) s
    → (i j : ℕ) (k : Key) (r a : ℕ) → get_elem? s.calls i ≡ some (entered k r)
    → get_elem? s.calls j ≡ some (entered k a)
    → (i ≡ j) × ((token : String) → ¬ Owns k token s.lock)
mutual_exclusion n {s} run i j k r a hi hj = (same, alone)
  where
    inv : Inv s
    inv = Reach-Inv (start-Inv n) run

    one : r ≡ a
    one = ground (
      arith,
      inv.core.registered i (entered k r) k r hi refl,
      inv.core.registered j (entered k a) k a hj refl,
    )

    same : i ≡ j
    same = ground (
      arith,
      one,
      inv.core.exclusive r,
      ==_iff r r,
      ==_iff r a,
      count_if_two (inside r) s.calls i j (entered k r) (entered k a) hi hj,
    )

    alone : (token : String) → ¬ Owns k token s.lock
    alone token o = ground (
      arith,
      token-entered inv.core inv.live i k r hi,
      o.current,
      o.recorded,
      inv.core.registered i (entered k r) k r hi refl,
    )

-- A call that returns a token makes it the owner of its key.
pub returns_token-Owns :
    (n : ℕ) {s : System} (run : Reach (start n) s) (i : ℕ) (k : Key) (r : ℕ) (token : String)
    → get_elem? s.calls i ≡ some (entered k r)
    → Owns k token (publish r token s.lock)
unfolding publish
returns_token-Owns n run i k r token h = record {
  object = r;
  current = (Reach-Inv (start-Inv n) run).core.registered i (entered k r) k r h refl;
  recorded = ground (arith, ==_iff r r);
}

-- The registry keeps an entry only for a call in flight or an owner: when every call is outside
-- and no token owns `k`, the key is gone.
pub no_leak :
    (n : ℕ) {s : System} (run : Reach (start n) s) (k : Key)
    → ((i : ℕ) (p : Phase) → get_elem? s.calls i ≡ some p → p ≡ outside)
    → ((token : String) → ¬ Owns k token s.lock)
    → lookup k s.lock.states ≡ none
no_leak n {s} run k quiet free_key = at_entry (lookup k s.lock.states) refl
  where
    inv : Inv s
    inv = Reach-Inv (start-Inv n) run

    no_token :
        (r : ℕ)
        → lookup k s.lock.states ≡ some r
        → (t : Option String) → (s.lock.heap r).token ≡ t
        → t ≡ none
    no_token r e none h = refl
    no_token r e (some token) h =
        absurd (free_key token (record { object = r; current = e; recorded = h }))

    at_entry : (o : Option ℕ) → lookup k s.lock.states ≡ o → o ≡ none
    at_entry none e = refl
    at_entry (some r) e = ground (
      arith,
      inv.live k r e,
      inv.core.counted r,
      no_token r e (s.lock.heap r).token refl,
      count_if_zero (refers r) s.calls (λ i p h. ground (arith, quiet i p h)),
    )
