-- ===== src/Locks/InProcess/System/Drops.antt =====
-- The steps that drop a reference, and may collect the object, keep the invariant of an
-- InProcessThreadLock.
use azure_functions_langgrap.Base.{
  ℕ, ◌-◌, ◌≤◌, ◌≡◌, ◌≢◌, refl, true, false, Option, none, some, List, get_elem?, set, count_if,
  arith, ◌==◌, ==_iff, nat_eq, pair_eq, string_eq, inl, inr, String, count_if-set, count_if_pos,
  Bool-cases, if◌then◌else◌,
}
use azure_functions_langgrap.Base.Dict.{lookup}
use azure_functions_langgrap.Locks.InProcess.{
  Key, InProcessThreadLock, give_up, release, release_at, free, maybe_gc, write,
}
use azure_functions_langgrap.Locks.InProcess.Laws.{lookup-maybe_gc, heap-maybe_gc, next-maybe_gc}
use azure_functions_langgrap.Locks.InProcess.System.{
  Phase, outside, reserved, refused, entered, target, refers, inside,
}
use azure_functions_langgrap.Locks.InProcess.System.Invariant.{Core, Live, Inv}
use azure_functions_langgrap.Locks.InProcess.System.Moves.{registered-set}

pub refers_of_target : (p : Phase) (k : Key) (r : ℕ) → target p ≡ some (k, r) → refers r p ≡ true
refers_of_target outside k r h = ground arith
refers_of_target (reserved k' r') k r h = ground (arith, ==_iff r' r)
refers_of_target (refused k' r') k r h = ground (arith, ==_iff r' r)
refers_of_target (entered k' r') k r h = ground (arith, ==_iff r' r)

-- Collection restores `live` for the key whose object lost a reference.
module _ {l : InProcessThreadLock} {calls : List Phase} (c : Core l calls) (k : Key) (r : ℕ)
    (at : lookup k l.states ≡ some r)
    (others : (j : Key) (a : ℕ) → lookup j l.states ≡ some a → k ≢ j → 1 ≤ (l.heap a).refs) where
  kept : (j : Key) (a : ℕ) → lookup j (maybe_gc k r l).states ≡ some a → lookup j l.states ≡ some a
  kept j a h = ground (arith, lookup-maybe_gc k j r l at)

  collect-registered :
      (i : ℕ) (p : Phase) (j : Key) (a : ℕ)
      → get_elem? calls i ≡ some p
      → target p ≡ some (j, a)
      → lookup j (maybe_gc k r l).states ≡ some a
  collect-registered i p j a h t = ground (
    arith,
    lookup-maybe_gc k j r l at,
    c.registered i p j a h t,
    ==_iff k j,
    c.counted r,
    count_if_pos (refers a) calls i p h (refers_of_target p j a t),
  )

  collect-Live : Live (maybe_gc k r l)
  collect-Live j a h =
      ground (
        arith,
        heap-maybe_gc k r l a,
        lookup-maybe_gc k j r l at,
        kept j a h,
        others j a,
        ==_iff k j,
      )

  pub collect-Inv : Inv (record { lock = maybe_gc k r l; calls = calls })
  collect-Inv = record {
    core = record {
      registered = collect-registered;
      counted = λ a. rw (heap-maybe_gc k r l a) (c.counted a);
      exclusive = λ a. rw (heap-maybe_gc k r l a) (c.exclusive a);
      below = λ j a h. rw (next-maybe_gc k r l) (c.below j a (kept j a h));
      unused = λ a h. ground (arith, heap-maybe_gc k r l a, next-maybe_gc k r l, c.unused a);
      injective = λ j j' a h h'. c.injective j j' a (kept j a h) (kept j' a h');
    };
    live = collect-Live;
  }

module _ {l : InProcessThreadLock} {calls : List Phase} (c : Core l calls) (v : Live l) where
  pub leave-Inv :
      (i : ℕ) (k : Key) (r : ℕ)
      → get_elem? calls i ≡ some (refused k r)
      → Inv (record { lock = give_up k r l; calls = set calls i outside })
  unfolding give_up
  leave-Inv i k r h = collect-Inv dropped k r at others
    where
      at : lookup k l.states ≡ some r
      at = c.registered i (refused k r) k r h refl

      one : 1 ≤ count_if (refers r) calls
      one =
          count_if_pos (refers r) calls i (refused k r) h (refers_of_target (refused k r) k r refl)

      dropped :
          Core
            (record l { heap = write l.heap r (record (l.heap r) { refs = (l.heap r).refs - 1 }) })
            (set calls i outside)
      dropped = record {
        registered = registered-set c i (refused k r) outside h (λ k' r' e. ground arith);
        counted = λ a. ground (
          arith,
          c.counted a,
          ==_iff r a,
          one,
          count_if-set (refers a) calls i (refused k r) outside h,
        );
        exclusive = λ a. ground (
          arith,
          c.exclusive a,
          ==_iff r a,
          count_if-set (inside a) calls i (refused k r) outside h,
        );
        below = c.below;
        unused = λ a p. ground (arith, c.unused a, ==_iff r a);
        injective = c.injective;
      }

      others :
          (j : Key) (a : ℕ)
          → lookup j l.states ≡ some a
          → k ≢ j
          → 1 ≤ (write l.heap r (record (l.heap r) { refs = (l.heap r).refs - 1 }) a).refs
      others j a p ne = ground (arith, at, v j a p, ==_iff r a, c.injective k j a)

  free-Inv :
      (k : Key) (r : ℕ) (token : String)
      → lookup k l.states ≡ some r
      → (l.heap r).token ≡ some token
      → Inv (record { lock = free k r l; calls = calls })
  unfolding free
  free-Inv k r token at own = collect-Inv dropped k r at others
    where
      dropped :
          Core
            (record l {
              heap =
                  write l.heap r
                    (record { locked = false; token = none; refs = (l.heap r).refs - 1 });
            })
            calls
      dropped = record {
        registered = c.registered;
        counted = λ a. ground (arith, c.counted a, ==_iff r a);
        exclusive = λ a. ground (arith, c.exclusive a, ==_iff r a);
        below = c.below;
        unused = λ a p. ground (arith, c.unused a, ==_iff r a);
        injective = c.injective;
      }

      others :
          (j : Key) (a : ℕ)
          → lookup j l.states ≡ some a
          → k ≢ j
          → 1
            ≤ (write l.heap r
                (record { locked = false; token = none; refs = (l.heap r).refs - 1 })
                a).refs
      others j a p ne = ground (arith, v j a p, ==_iff r a, c.injective k j a)

  pub release-Inv :
      (k : Key) (token : String) → Inv (record { lock = release k token l; calls = calls })
  unfolding release
  release-Inv k token = at_entry (lookup k l.states) refl
    where
      unchanged : Inv (record { lock = l; calls = calls })
      unchanged = record { core = c; live = v }

      at_token :
          (r : ℕ) (t : Option String)
          → lookup k l.states ≡ some r
          → (l.heap r).token ≡ t
          → Inv (record {
            lock = elim t [ none ↦ l | some current ↦ if current == token then free k r l else l ];
            calls = calls;
          })
      at_token r none at own = unchanged
      at_token r (some current) at own = elim (Bool-cases (current == token)) [
        | inl same ↦ rw same (free-Inv k r current at own)
        | inr other ↦ rw other unchanged
      ]

      at_entry :
          (o : Option ℕ)
          → lookup k l.states ≡ o
          → Inv (record { lock = release_at k token o l; calls = calls })
      at_entry none e = unchanged
      at_entry (some r) e = at_token r (l.heap r).token e refl
