-- ===== src/Locks/InProcess/System/Invariant.antt =====
-- What holds of an InProcessThreadLock between two steps of its callers.
use azure_functions_langgrap.Base.{
  ℕ, zero, suc, ◌+◌, ◌≤◌, ◌<◌, ◌≡◌, refl, some, is_some, List, get_elem?, count_if, to_nat, arith,
  pair_eq,
}
use azure_functions_langgrap.Base.Dict.{lookup}
use azure_functions_langgrap.Locks.InProcess.{Key, InProcessThreadLock}
use azure_functions_langgrap.Locks.InProcess.System.{
  Phase, target, refers, inside, System, idle_calls, start, outside,
}

-- All of the invariant but `live`, which collection restores.
pub record Core (l : InProcessThreadLock) (calls : List Phase) : Type 0 where
  -- A reservation is of the object that the registry holds for its key.
  pub registered :
      (i : ℕ) (p : Phase) (k : Key) (r : ℕ)
      → get_elem? calls i ≡ some p
      → target p ≡ some (k, r)
      → lookup k l.states ≡ some r
  -- `refs` counts the reservations and the holder.
  pub counted :
      (a : ℕ) → (l.heap a).refs ≡ count_if (refers a) calls + to_nat (is_some (l.heap a).token)
  -- The primitive is taken exactly by the one call inside or the holder.
  pub exclusive :
      (a : ℕ)
      → to_nat (l.heap a).locked ≡ count_if (inside a) calls + to_nat (is_some (l.heap a).token)
  pub below : (k : Key) (r : ℕ) → lookup k l.states ≡ some r → r < l.next
  pub unused : (a : ℕ) → l.next ≤ a → (l.heap a).refs ≡ 0
  -- Two keys never share an object.
  pub injective :
      (k j : Key) (r : ℕ) → lookup k l.states ≡ some r → lookup j l.states ≡ some r → k ≡ j

-- Every registered object has a reference: the registry does not leak.
abbrev pub Live : InProcessThreadLock → Type 0
Live l = (k : Key) (r : ℕ) → lookup k l.states ≡ some r → 1 ≤ (l.heap r).refs

pub record Inv (s : System) : Type 0 where
  pub core : Core s.lock s.calls
  pub live : Live s.lock

get_elem?-idle_calls : (n i : ℕ) (p : Phase) → get_elem? (idle_calls n) i ≡ some p → p ≡ outside
unfolding idle_calls
get_elem?-idle_calls zero i p h = ground arith
get_elem?-idle_calls (suc n) zero p h = ground arith
get_elem?-idle_calls (suc n) (suc i) p h = get_elem?-idle_calls n i p h

refers-idle_calls : (n a : ℕ) → count_if (refers a) (idle_calls n) ≡ 0
unfolding idle_calls
refers-idle_calls zero a = refl
refers-idle_calls (suc n) a = omega (arith, refers-idle_calls n a)

inside-idle_calls : (n a : ℕ) → count_if (inside a) (idle_calls n) ≡ 0
unfolding idle_calls
inside-idle_calls zero a = refl
inside-idle_calls (suc n) a = omega (arith, inside-idle_calls n a)

pub start-Inv : (n : ℕ) → Inv (start n)
unfolding start lookup
start-Inv n = record {
  core = record {
    registered = λ i p k r h t. ground (arith, get_elem?-idle_calls n i p);
    counted = λ a. omega (arith, refers-idle_calls n a);
    exclusive = λ a. omega (arith, inside-idle_calls n a);
    below = λ k r h. ground arith;
    unused = λ a h. refl;
    injective = λ k j r h h'. ground arith;
  };
  live = λ k r h. ground arith;
}
