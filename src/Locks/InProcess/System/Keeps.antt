-- ===== src/Locks/InProcess/System/Keeps.antt =====
-- Every step of the callers of an InProcessThreadLock keeps its invariant.
use azure_functions_langgrap.Base.{
  ℕ, ◌+◌, ◌≤◌, ◌≡◌, some, is_some, List, get_elem?, set, count_if, to_nat, arith, ◌==◌, ==_iff,
  nat_eq, pair_eq, inl, inr, count_if-set, count_if_mono, get_elem?-set_cases, Bool-cases,
}
use azure_functions_langgrap.Base.Dict.{lookup}
use azure_functions_langgrap.Locks.InProcess.{Key, InProcessThreadLock, reserve}
use azure_functions_langgrap.Locks.InProcess.Laws.{
  reserve_cases, lookup-reserve, heap-reserve_self, heap-reserve_ne,
}
use azure_functions_langgrap.Locks.InProcess.System.{
  Phase, outside, reserved, refused, entered, target, refers, inside,
}
use azure_functions_langgrap.Locks.InProcess.System.Invariant.{Core, Live, Inv}

inside-le-refers :
    (a : ℕ) (calls : List Phase) → count_if (inside a) calls ≤ count_if (refers a) calls
inside-le-refers a calls = count_if_mono (inside a) (refers a) calls pointwise
  where
    pointwise : (p : Phase) → to_nat (inside a p) ≤ to_nat (refers a p)
    pointwise outside = omega arith
    pointwise (reserved k r) = omega arith
    pointwise (refused k r) = omega arith
    pointwise (entered k r) = omega arith

-- The registry grows by at most the key of the reservation.
grow :
    (k j : Key) (r : ℕ) (l : InProcessThreadLock)
    → lookup j l.states ≡ some r
    → lookup j (reserve k l).1.states ≡ some r
grow k j r l h = ground (arith, reserve_cases k l, lookup-reserve k j l, ==_iff k j)

next-reserve : (k : Key) (l : InProcessThreadLock) → l.next ≤ (reserve k l).1.next
next-reserve k l = ground (arith, reserve_cases k l)

module _ {l : InProcessThreadLock} {calls : List Phase} (c : Core l calls) (v : Live l) where
  module _ (i : ℕ) (k : Key) (h : get_elem? calls i ≡ some outside) where
    begin-registered :
        (j : ℕ) (p : Phase) (key : Key) (r : ℕ)
        → get_elem? (set calls i (reserved k (reserve k l).0)) j ≡ some p
        → target p ≡ some (key, r)
        → lookup key (reserve k l).1.states ≡ some r
    begin-registered j p key r at t = elim (get_elem?-set_cases calls i j _ p at) [
      | inl new ↦ ground (arith, lookup-reserve k key l, ==_iff k key)
      | inr old ↦ grow k key r l (c.registered j p key r old t)
    ]

    begin-counted :
        (a : ℕ)
        → ((reserve k l).1.heap a).refs
          ≡ count_if (refers a) (set calls i (reserved k (reserve k l).0))
            + to_nat (is_some ((reserve k l).1.heap a).token)
    begin-counted a = elim (Bool-cases ((reserve k l).0 == a)) [
      | inl same ↦ ground (
        arith,
        ==_iff (reserve k l).0 a,
        heap-reserve_self k l,
        reserve_cases k l,
        c.counted a,
        c.unused a,
        count_if-set (refers a) calls i outside (reserved k (reserve k l).0) h,
      )
      | inr other ↦ ground (
        arith,
        heap-reserve_ne k l a other,
        c.counted a,
        count_if-set (refers a) calls i outside (reserved k (reserve k l).0) h,
      )
    ]

    begin-exclusive :
        (a : ℕ)
        → to_nat ((reserve k l).1.heap a).locked
          ≡ count_if (inside a) (set calls i (reserved k (reserve k l).0))
            + to_nat (is_some ((reserve k l).1.heap a).token)
    begin-exclusive a = elim (Bool-cases ((reserve k l).0 == a)) [
      | inl same ↦ ground (
        arith,
        ==_iff (reserve k l).0 a,
        heap-reserve_self k l,
        reserve_cases k l,
        c.counted a,
        c.unused a,
        c.exclusive a,
        inside-le-refers a calls,
        count_if-set (inside a) calls i outside (reserved k (reserve k l).0) h,
      )
      | inr other ↦ ground (
        arith,
        heap-reserve_ne k l a other,
        c.exclusive a,
        count_if-set (inside a) calls i outside (reserved k (reserve k l).0) h,
      )
    ]

    begin-injective :
        (key j : Key) (r : ℕ)
        → lookup key (reserve k l).1.states ≡ some r
        → lookup j (reserve k l).1.states ≡ some r
        → key ≡ j
    begin-injective key j r p q = ground (
      arith,
      lookup-reserve k key l,
      lookup-reserve k j l,
      ==_iff k key,
      ==_iff k j,
      reserve_cases k l,
      c.below key r,
      c.below j r,
      c.injective key j r,
    )

    begin-Live : Live (reserve k l).1
    begin-Live key r p = elim (Bool-cases ((reserve k l).0 == r)) [
      | inl same ↦ ground (arith, ==_iff (reserve k l).0 r, heap-reserve_self k l)
      | inr other ↦ ground (
        arith,
        heap-reserve_ne k l r other,
        lookup-reserve k key l,
        v key r,
        ==_iff (reserve k l).0 r,
      )
    ]

    pub begin-Inv :
        Inv (record { lock = (reserve k l).1; calls = set calls i (reserved k (reserve k l).0) })
    begin-Inv = record {
      core = record {
        registered = begin-registered;
        counted = begin-counted;
        exclusive = begin-exclusive;
        below = λ key r p.
            ground (arith, lookup-reserve k key l, reserve_cases k l, c.below key r, c.below k r);
        unused = λ a p. ground (
          arith,
          heap-reserve_ne k l a,
          reserve_cases k l,
          c.unused a,
          c.below k (reserve k l).0,
          ==_iff (reserve k l).0 a,
          next-reserve k l,
        );
        injective = begin-injective;
      };
      live = begin-Live;
    }
