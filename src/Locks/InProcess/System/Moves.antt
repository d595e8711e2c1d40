-- ===== src/Locks/InProcess/System/Moves.antt =====
-- The steps that take the primitive, hand out the token or leave the registry alone keep the
-- invariant of an InProcessThreadLock.
use azure_functions_langgrap.Base.{
  ℕ, ◌≡◌, false, none, some, List, get_elem?, set, arith, ==_iff, nat_eq, pair_eq, inl, inr, String,
  count_if-set, count_if_pos, get_elem?-set_cases,
}
use azure_functions_langgrap.Base.Dict.{lookup}
use azure_functions_langgrap.Locks.InProcess.{Key, InProcessThreadLock, take_primitive, publish}
use azure_functions_langgrap.Locks.InProcess.System.{
  Phase, outside, reserved, refused, entered, target, refers, inside,
}
use azure_functions_langgrap.Locks.InProcess.System.Invariant.{Core, Live, Inv}

-- A call that keeps its object, or lets it go, leaves every reservation registered.
pub registered-set :
    {l : InProcessThreadLock} {calls : List Phase} (c : Core l calls) (i : ℕ) (old v : Phase)
    (h : get_elem? calls i ≡ some old)
    → ((k : Key) (r : ℕ) → target v ≡ some (k, r) → target old ≡ some (k, r))
    → (j : ℕ) (p : Phase) (key : Key) (r : ℕ) → get_elem? (set calls i v) j ≡ some p
    → target p ≡ some (key, r)
    → lookup key l.states ≡ some r
registered-set {calls = calls} c i old v h same j p key r at t =
    elim (get_elem?-set_cases calls i j v p at) [
      | inl new ↦ c.registered i old key r h (same key r (ground arith))
      | inr was ↦ c.registered j p key r was t
    ]

module _ {l : InProcessThreadLock} {calls : List Phase} (c : Core l calls) (v : Live l) (i : ℕ)
    (k : Key) (r : ℕ) where
  module _ (h : get_elem? calls i ≡ some (reserved k r)) where
    pub lock_free-Inv :
        (l.heap r).locked ≡ false
        → Inv (record { lock = take_primitive r l; calls = set calls i (entered k r) })
    unfolding take_primitive
    lock_free-Inv f = record {
      core = record {
        registered = registered-set c i (reserved k r) (entered k r) h (λ k' r' e. e);
        counted = λ a. ground (
          arith,
          c.counted a,
          ==_iff r a,
          count_if-set (refers a) calls i (reserved k r) (entered k r) h,
        );
        exclusive = λ a. ground (
          arith,
          c.exclusive a,
          ==_iff r a,
          count_if-set (inside a) calls i (reserved k r) (entered k r) h,
        );
        below = c.below;
        unused = λ a p. ground (arith, c.unused a, ==_iff r a);
        injective = c.injective;
      };
      live = λ key a p. ground (arith, v key a, ==_iff r a);
    }

    pub lock_held-Inv : Inv (record { lock = l; calls = set calls i (refused k r) })
    lock_held-Inv = record {
      core = record {
        registered = registered-set c i (reserved k r) (refused k r) h (λ k' r' e. e);
        counted = λ a.
            ground
              (arith, c.counted a, count_if-set (refers a) calls i (reserved k r) (refused k r) h);
        exclusive = λ a.
            ground (
              arith,
              c.exclusive a,
              count_if-set (inside a) calls i (reserved k r) (refused k r) h,
            );
        below = c.below;
        unused = c.unused;
        injective = c.injective;
      };
      live = v;
    }

  module _ (h : get_elem? calls i ≡ some (entered k r)) where
    -- While a call is inside, its object has no token yet.
    pub token-entered : (l.heap r).token ≡ none
    token-entered =
        ground (arith, c.exclusive r, ==_iff r r, count_if_pos (inside r) calls i (entered k r) h)

    pub returns_token-Inv :
        (token : String) → Inv (record { lock = publish r token l; calls = set calls i outside })
    unfolding publish
    returns_token-Inv token = record {
      core = record {
        registered = registered-set c i (entered k r) outside h (λ k' r' e. ground arith);
        counted = λ a. ground (
          arith,
          c.counted a,
          ==_iff r a,
          token-entered,
          count_if-set (refers a) calls i (entered k r) outside h,
        );
        exclusive = λ a. ground (
          arith,
          c.exclusive a,
          ==_iff r a,
          token-entered,
          count_if-set (inside a) calls i (entered k r) outside h,
        );
        below = c.below;
        unused = λ a p. ground (arith, c.unused a, ==_iff r a);
        injective = c.injective;
      };
      live = λ key a p. ground (arith, v key a, ==_iff r a);
    }
