-- ===== src/Locks/InProcess/System/Ownership.antt =====
-- An owner of locks/inprocess.py stays the owner until a release with its own token, which ends
-- the ownership.
use azure_functions_langgrap.Base.{
  ℕ, ◌-◌, ◌≡◌, ◌≢◌, refl, false, Option, none, some, List, get_elem?, arith, ◌==◌, ==_iff, nat_eq,
  pair_eq, string_eq, inl, inr, String, count_if_pos, Bool-cases, if◌then◌else◌,
}
use azure_functions_langgrap.Base.Dict.{lookup, lookup-remove}
use azure_functions_langgrap.Locks.InProcess.{
  Key, InProcessThreadLock, reserve, take_primitive, give_up, publish, release, release_at, free,
  write,
}
use azure_functions_langgrap.Locks.InProcess.Laws.{
  lookup-maybe_gc, heap-maybe_gc, lookup-reserve, heap-reserve_self, heap-reserve_ne, reserve_cases,
}
use azure_functions_langgrap.Locks.InProcess.System.{
  Phase, refused, refers, System, Event, releases, Step, begin, lock_free, lock_held, leave,
  returns_token, release_call, Reach, start,
}
use azure_functions_langgrap.Locks.InProcess.System.Invariant.{Core, Inv, start-Inv}
use azure_functions_langgrap.Locks.InProcess.System.Moves.{token-entered}
use azure_functions_langgrap.Locks.InProcess.System.Drops.{refers_of_target}
use azure_functions_langgrap.Locks.InProcess.System.Exclusion.{Owns, Reach-Inv}

module _ {l : InProcessThreadLock} {calls : List Phase} (c : Core l calls) {k : Key}
    {token : String} (o : Owns k token l) where
  reserve-Owns : (j : Key) → Owns k token (reserve j l).1
  reserve-Owns j = record {
    object = o.object;
    current = ground (arith, o.current, reserve_cases j l, lookup-reserve j k l, ==_iff j k);
    recorded = elim (Bool-cases ((reserve j l).0 == o.object)) [
      | inl same ↦ ground (
        arith,
        o.current,
        o.recorded,
        heap-reserve_self j l,
        reserve_cases j l,
        ==_iff (reserve j l).0 o.object,
        c.below k o.object,
      )
      | inr other ↦ ground (arith, heap-reserve_ne j l o.object other, o.recorded)
    ];
  }

  take_primitive-Owns : (r : ℕ) → Owns k token (take_primitive r l)
  unfolding take_primitive
  take_primitive-Owns r = record {
    object = o.object;
    current = o.current;
    recorded = ground (arith, o.recorded, ==_iff r o.object);
  }

  publish-Owns :
      (r : ℕ) (token' : String) → (l.heap r).token ≡ none → Owns k token (publish r token' l)
  unfolding publish
  publish-Owns r token' h = record {
    object = o.object;
    current = o.current;
    recorded = ground (arith, o.recorded, ==_iff r o.object);
  }

  give_up-Owns :
      (i : ℕ) (j : Key) (r : ℕ)
      → get_elem? calls i ≡ some (refused j r)
      → Owns k token (give_up j r l)
  unfolding give_up
  give_up-Owns i j r h = record {
    object = o.object;
    current = ground (
      arith,
      o.current,
      o.recorded,
      at,
      c.counted r,
      ==_iff r o.object,
      ==_iff j k,
      count_if_pos (refers r) calls i (refused j r) h (refers_of_target (refused j r) j r refl),
      ==_iff r r,
      lookup-maybe_gc j k r dropped at,
    );
    recorded = ground (arith, heap-maybe_gc j r dropped o.object, o.recorded, ==_iff r o.object);
  }
    where
      at : lookup j l.states ≡ some r
      at = c.registered i (refused j r) j r h refl

      dropped : InProcessThreadLock
      dropped = record l {
        heap = write l.heap r (record (l.heap r) { refs = (l.heap r).refs - 1 });
      }

  release-Owns :
      (j : Key) (token' : String)
      → ((j ≡ k) × (token' ≡ token) → ⊥)
      → Owns k token (release j token' l)
  unfolding release
  release-Owns j token' other = at_entry (lookup j l.states) refl
    where
      freed : (r : ℕ) → InProcessThreadLock
      freed r = record l {
        heap = write l.heap r (record { locked = false; token = none; refs = (l.heap r).refs - 1 });
      }

      free-Owns : (r : ℕ) → lookup j l.states ≡ some r → j ≢ k → Owns k token (free j r l)
      free-Owns r at ne = record {
        object = o.object;
        current = ground (arith, o.current, ne, at, lookup-maybe_gc j k r (freed r) at, ==_iff j k);
        recorded = ground (
          arith,
          o.current,
          at,
          ne,
          heap-maybe_gc j r (freed r) o.object,
          o.recorded,
          ==_iff r o.object,
          c.injective j k r,
        );
      }

      at_token :
          (r : ℕ) (t : Option String)
          → lookup j l.states ≡ some r
          → (l.heap r).token ≡ t
          → Owns k token
              (elim t [ none ↦ l | some current ↦ if current == token' then free j r l else l ])
      at_token r none at own = o
      at_token r (some current) at own = elim (Bool-cases (current == token')) [
        | inl same ↦ rw same (
            free-Owns r at (λ e.
              other (e, ground (arith, e, at, own, o.current, o.recorded, ==_iff current token'))))
        | inr different ↦ rw different o
      ]

      at_entry : (e : Option ℕ) → lookup j l.states ≡ e → Owns k token (release_at j token' e l)
      at_entry none e = o
      at_entry (some r) e = at_token r (l.heap r).token e refl

-- Along every run from a new lock an owner stays the owner through each step of any caller, and
-- through each release but one of its own key with its own token.
pub Step-Owns :
    (n : ℕ) {s t : System} {e : Event} {k : Key} {token : String}
    → Reach (start n) s
    → Owns k token s.lock
    → Step s e t
    → e ≢ releases k token
    → Owns k token t.lock
Step-Owns n run o (begin s i k h) ne = reserve-Owns (Reach-Inv (start-Inv n) run).core o k
Step-Owns n run o (lock_free s i k r h f) ne =
    take_primitive-Owns (Reach-Inv (start-Inv n) run).core o r
Step-Owns n run o (lock_held s i k r h f) ne = o
Step-Owns n run o (leave s i k r h) ne = give_up-Owns (Reach-Inv (start-Inv n) run).core o i k r h
Step-Owns n run o (returns_token s i k r token h) ne =
    let inv : Inv s = Reach-Inv (start-Inv n) run in
    publish-Owns inv.core o r token (token-entered inv.core inv.live i k r h)
Step-Owns n run o (release_call s k token) ne =
    release-Owns (Reach-Inv (start-Inv n) run).core o k token (λ p. ne (cc (p.0, p.1)))

-- The owner's release ends its ownership and leaves the primitive free: whatever object the key
-- has afterwards, it is unlocked and has no token.
pub release-frees :
    (n : ℕ) {s : System} {k : Key} {token : String}
    → Reach (start n) s
    → Owns k token s.lock
    → (r : ℕ) → lookup k (release k token s.lock).states ≡ some r
    → (((release k token s.lock).heap r).locked ≡ false)
      × (((release k token s.lock).heap r).token ≡ none)
unfolding release
release-frees n {s} {k} {token} run o r h = ground (
  arith,
  ==_iff token token,
  ==_iff r r,
  ==_iff o.object r,
  ==_iff k k,
  lookup-remove k k s.lock.states,
)
