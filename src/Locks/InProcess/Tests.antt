-- ===== src/Locks/InProcess/Tests.antt =====
-- Runs of locks/inprocess.py on concrete callers.
use azure_functions_langgrap.Base.{
  ℕ, zero, suc, get_elem?, some, ◌≡◌, refl, none, [], ◌∷◌, arith, pair_eq, String, string_eq,
}
use azure_functions_langgrap.Base.Dict.{lookup, insert}
use azure_functions_langgrap.Locks.InProcess.{
  Key, new_lock, reserve, publish, take_primitive, give_up, maybe_gc, release, release_at,
}
use azure_functions_langgrap.Locks.InProcess.Sequential.{IsQuiet}
use azure_functions_langgrap.Locks.InProcess.System.{
  Phase, System, refused, leave, release_call, Reach, start, idle_calls, outside, reserved, entered,
  begin, lock_free, lock_held, returns_token, here, next,
}
use azure_functions_langgrap.Locks.InProcess.System.Invariant.{start-Inv}
use azure_functions_langgrap.Locks.InProcess.System.Exclusion.{
  Owns, mutual_exclusion, returns_token-Owns, no_leak,
}
use azure_functions_langgrap.Locks.InProcess.System.Ownership.{Step-Owns}

abbrev thread : Key
thread = ("graph", "thread-1")

-- Two callers: the first has taken the primitive, the second has reserved the same object.
abbrev one_begun : System
one_begun = record {
  lock = (reserve thread (start 2).lock).1;
  calls = reserved thread 0 ∷ outside ∷ [];
}

abbrev both_begun : System
both_begun = record {
  lock = (reserve thread one_begun.lock).1;
  calls = reserved thread 0 ∷ reserved thread 0 ∷ [];
}

abbrev one_inside : System
one_inside = record {
  lock = take_primitive 0 both_begun.lock;
  calls = entered thread 0 ∷ reserved thread 0 ∷ [];
}

run_inside : Reach (start 2) one_inside
unfolding start reserve take_primitive lookup insert
run_inside =
    next (next (next here (begin (start 2) 0 thread refl)) (begin one_begun 1 thread refl))
      (lock_free both_begun 0 thread 0 refl refl)

mutual_exclusion_example :
    (◌≡◌ {A = ℕ} 0 0) × ((token : String) → ¬ Owns thread token one_inside.lock)
mutual_exclusion_example = mutual_exclusion 2 run_inside 0 0 thread 0 0 refl refl

owned_by_call : Owns thread "owner" (publish 0 "owner" one_inside.lock)
owned_by_call = returns_token-Owns 2 run_inside 0 thread 0 "owner" refl

abbrev owned : System
owned = record {
  lock = publish 0 "owner" one_inside.lock;
  calls = outside ∷ reserved thread 0 ∷ [];
}

run_owned : Reach (start 2) owned
run_owned = next run_inside (returns_token one_inside 0 thread 0 "owner" refl)

-- The second caller finds the primitive taken, and the owner stays.
Step-Owns_example : Owns thread "owner" owned.lock
unfolding reserve take_primitive publish start lookup insert
Step-Owns_example =
    Step-Owns 2 run_owned owned_by_call (lock_held owned 1 thread 0 refl refl) (λ e. cc)

-- The second caller gives up, and the owner releases.
abbrev one_refused : System
one_refused = record { lock = owned.lock; calls = outside ∷ refused thread 0 ∷ [] }

abbrev one_left : System
one_left = record { lock = give_up thread 0 owned.lock; calls = outside ∷ outside ∷ [] }

abbrev finished : System
finished = record { lock = release thread "owner" one_left.lock; calls = outside ∷ outside ∷ [] }

run_finished : Reach (start 2) finished
unfolding reserve take_primitive publish start lookup insert
run_finished =
    next
      (next (next run_owned (lock_held owned 1 thread 0 refl refl))
        (leave one_refused 1 thread 0 refl))
      (release_call one_left thread "owner")

all_outside : (i : ℕ) (p : Phase) → get_elem? finished.calls i ≡ some p → p ≡ outside
all_outside zero p h = ground (arith, h)
all_outside (suc zero) p h = ground (arith, h)
all_outside (suc (suc i)) p h = absurd (ground (arith, h))

no_leak_example : lookup thread finished.lock.states ≡ none
unfolding reserve take_primitive publish give_up maybe_gc release release_at start lookup insert
no_leak_example =
    no_leak 2 run_finished thread all_outside (λ token o. absurd (ground (arith, o.current)))

new-IsQuiet : IsQuiet new_lock
unfolding start idle_calls
new-IsQuiet = start-Inv 0
