-- ===== src/Locks/AzureBlob/Renewal/Pass.antt =====
-- What one tick of the renewal daemon of locks/azure_blob.py does to each key.
use azure_functions_langgrap.Base.{
  ℕ, Bool, true, false, not, Option, none, some, [], ◌∷◌, pair_eq, nat_eq, ◌==◌, ==_iff, ◌≡◌, refl,
  ◌∙◌, ap, if◌then◌else◌, ◌&&◌, arith,
}
use azure_functions_langgrap.Base.Dict.{
  Dict, lookup, insert, lookup-insert, Unique, Unique-insert, Unique-filter, lookup-filter,
}
use azure_functions_langgrap.Locks.InProcess.{Key}
use azure_functions_langgrap.Locks.AzureBlob.{AzureBlobLeaseThreadLock, LeaseState}
use azure_functions_langgrap.Locks.AzureBlob.Renewal.{
  RenewAnswer, renewed, failed, timed_out, timeout_error, succeed, fail, for_each, done_body,
  not_done_body, not_lost, renew_all_once,
}

-- What the two passes do to a state.
abbrev pub at_done : RenewAnswer → ℕ → LeaseState → LeaseState
at_done renewed now state = succeed now state
at_done (failed exc) now state = fail exc state
at_done timed_out now state = state

abbrev pub at_not_done : RenewAnswer → LeaseState → LeaseState
at_not_done timed_out state = fail timeout_error state
at_not_done _ state = state

module _ (relevant : LeaseState → Bool) where
  -- Every relevant entry of the snapshot is the one that the lock tracks.
  abbrev Agrees : Dict Key LeaseState → AzureBlobLeaseThreadLock → Type 0
  Agrees m l =
      (k : Key) (state : LeaseState)
      → lookup k m ≡ some state
      → relevant state ≡ true
      → lookup k l.active_leases ≡ some state

  abbrev after :
      (LeaseState → LeaseState) → Option LeaseState → Option LeaseState → Option LeaseState
  after f none old = old
  after f (some state) old = if relevant state then some (f state) else old

  -- A loop body that updates the entry of its own key, if relevant, and nothing else.
  record Updates (f : LeaseState → LeaseState)
      (body : Key → LeaseState → AzureBlobLeaseThreadLock → AzureBlobLeaseThreadLock)
      (l : AzureBlobLeaseThreadLock) (k : Key) (state : LeaseState) : Type 0 where
    entry :
        (j : Key)
        → lookup j (body k state l).active_leases ≡ (
            if k == j
            then after f (some state) (lookup j l.active_leases)
            else lookup j l.active_leases)
    unique : Unique l.active_leases → Unique (body k state l).active_leases
    same_closed : (body k state l).closed ≡ l.closed
    same_auto : (body k state l).auto_renew ≡ l.auto_renew
    same_guarding : (body k state l).guard_checkpoint_writes ≡ l.guard_checkpoint_writes
    same_released : (body k state l).released ≡ l.released

  record Passed (f : LeaseState → LeaseState) (m : Dict Key LeaseState)
      (l l' : AzureBlobLeaseThreadLock) : Type 0 where
    entries :
        (j : Key) → lookup j l'.active_leases ≡ after f (lookup j m) (lookup j l.active_leases)
    unique : Unique l.active_leases → Unique l'.active_leases
    same_closed : l'.closed ≡ l.closed
    same_auto : l'.auto_renew ≡ l.auto_renew
    same_guarding : l'.guard_checkpoint_writes ≡ l.guard_checkpoint_writes
    same_released : l'.released ≡ l.released

  module _ (f : LeaseState → LeaseState)
      (body : Key → LeaseState → AzureBlobLeaseThreadLock → AzureBlobLeaseThreadLock)
      (updates : (l : AzureBlobLeaseThreadLock) (k : Key) (state : LeaseState)
        → (relevant state ≡ true → lookup k l.active_leases ≡ some state)
        → Updates f body l k state) where
    for_each-Passed :
        (m : Dict Key LeaseState) (l : AzureBlobLeaseThreadLock)
        → Unique m
        → Agrees m l
        → Passed f m l (for_each body m l)
    unfolding for_each lookup
    for_each-Passed [] l u g = record {
      entries = λ j. refl;
      unique = λ h. h;
      same_closed = refl;
      same_auto = refl;
      same_guarding = refl;
      same_released = refl;
    }
    for_each-Passed ((k, state) ∷ rest) l u g =
        let one : Updates f body l k state =
          updates l k state (g k state (ground (arith, ==_iff k k))) in
        let more : Passed f rest (body k state l) (for_each body rest (body k state l)) =
          for_each-Passed rest (body k state l) u.1
            (λ key s h r. ground (arith, one.entry key, u.0, h, ==_iff k key, g key s, r)) in
        record {
          entries = λ j. ground (arith, more.entries j, one.entry j, u.0, ==_iff k j);
          unique = λ h. more.unique (one.unique h);
          same_closed = more.same_closed ∙ one.same_closed;
          same_auto = more.same_auto ∙ one.same_auto;
          same_guarding = more.same_guarding ∙ one.same_guarding;
          same_released = more.same_released ∙ one.same_released;
        }

  module _ {f : LeaseState → LeaseState}
      {body : Key → LeaseState → AzureBlobLeaseThreadLock → AzureBlobLeaseThreadLock}
      {l : AzureBlobLeaseThreadLock} {k : Key} {state : LeaseState} where
    writes-Updates :
        relevant state ≡ true
        → body k state l ≡ record l { active_leases = insert k (f state) l.active_leases }
        → Updates f body l k state
    writes-Updates r e = record {
      entry = λ j. rw (e, r) (lookup-insert k j (f state) l.active_leases);
      unique = λ u. rw e (Unique-insert k (f state) l.active_leases u);
      same_closed = ap (λ x. x.closed) e;
      same_auto = ap (λ x. x.auto_renew) e;
      same_guarding = ap (λ x. x.guard_checkpoint_writes) e;
      same_released = ap (λ x. x.released) e;
    }

    skips-Updates :
        (relevant state ≡ true → lookup k l.active_leases ≡ some (f state))
        → body k state l ≡ l
        → Updates f body l k state
    skips-Updates same e = record {
      entry = λ j. rw e (ground (arith, same, ==_iff k j));
      unique = λ u. rw e u;
      same_closed = ap (λ x. x.closed) e;
      same_auto = ap (λ x. x.auto_renew) e;
      same_guarding = ap (λ x. x.guard_checkpoint_writes) e;
      same_released = ap (λ x. x.released) e;
    }

abbrev always : LeaseState → Bool
always state = true

abbrev is_timed_out : RenewAnswer → Bool
is_timed_out timed_out = true
is_timed_out _ = false

module _ (answers : ℕ → RenewAnswer) (now : ℕ) where
  done_body-Updates :
      (l : AzureBlobLeaseThreadLock) (k : Key) (state : LeaseState)
      → (always state ≡ true → lookup k l.active_leases ≡ some state)
      → Updates always (λ s. at_done (answers s.lease) now s) (done_body answers now) l k state
  unfolding done_body
  done_body-Updates l k state h = at (answers state.lease) refl
    where
      at :
          (a : RenewAnswer)
          → answers state.lease ≡ a
          → Updates always (λ s. at_done (answers s.lease) now s) (done_body answers now) l k state
      at renewed e =
          writes-Updates always refl (ground (arith, h refl, e, ==_iff state.lease state.lease))
      at (failed exc) e =
          writes-Updates always refl (ground (arith, h refl, e, ==_iff state.lease state.lease))
      at timed_out e = skips-Updates always (λ _. rw e (h refl)) (rw e)

  not_done_body-Updates :
      (l : AzureBlobLeaseThreadLock) (k : Key) (state : LeaseState)
      → (is_timed_out (answers state.lease) ≡ true → lookup k l.active_leases ≡ some state)
      → Updates
          (λ s. is_timed_out (answers s.lease))
          (fail timeout_error)
          (not_done_body answers now)
          l
          k
          state
  unfolding not_done_body
  not_done_body-Updates l k state h = at (answers state.lease) refl
    where
      at :
          (a : RenewAnswer)
          → answers state.lease ≡ a
          → Updates
              (λ s. is_timed_out (answers s.lease))
              (fail timeout_error)
              (not_done_body answers now)
              l
              k
              state
      at renewed e = skips-Updates _ (λ r. ground (arith, r, e)) (rw e)
      at (failed exc) e = skips-Updates _ (λ r. ground (arith, r, e)) (rw e)
      at timed_out e =
          writes-Updates _ (rw e) (ground (arith, h, e, ==_iff state.lease state.lease))

  -- What a tick makes of one tracked state.
  abbrev pub ticked : Bool → LeaseState → LeaseState
  ticked auto state =
      if state.lost
      then state
      else if auto && is_timed_out (answers state.lease)
      then fail timeout_error state
      else at_done (answers state.lease) now state

  pub record Tick (l l' : AzureBlobLeaseThreadLock) : Type 0 where
    pub entries :
        (j : Key)
        → lookup j l'.active_leases ≡ (elim (lookup j l.active_leases) [
          | none ↦ none
          | some state ↦ some (ticked l.auto_renew state)
        ])
    pub same_closed : l'.closed ≡ l.closed
    pub same_auto : l'.auto_renew ≡ l.auto_renew
    pub same_guarding : l'.guard_checkpoint_writes ≡ l.guard_checkpoint_writes
    pub same_released : l'.released ≡ l.released
    pub unique : Unique l'.active_leases

  module _ (l : AzureBlobLeaseThreadLock) (u : Unique l.active_leases) where
    snapshot : Dict Key LeaseState
    snapshot = not_lost l.active_leases

    after_done : AzureBlobLeaseThreadLock
    after_done = for_each (done_body answers now) (not_lost l.active_leases) l

    lookup-snapshot :
        (k : Key)
        → lookup k (not_lost l.active_leases) ≡ (elim (lookup k l.active_leases) [
          | none ↦ none
          | some s ↦ if not s.lost then some s else none
        ])
    lookup-snapshot k = lookup-filter (λ s. not s.lost) k l.active_leases u

    Unique-snapshot : Unique (not_lost l.active_leases)
    Unique-snapshot = Unique-filter (λ s. not s.lost) l.active_leases u

    first :
        Passed always (λ s. at_done (answers s.lease) now s) (not_lost l.active_leases) l after_done
    unfolding after_done
    first =
        for_each-Passed always _ _ done_body-Updates (not_lost l.active_leases) l Unique-snapshot
          (λ k s h r. ground (arith, lookup-snapshot k, h))

    second :
        Passed
          (λ s. is_timed_out (answers s.lease))
          (fail timeout_error)
          (not_lost l.active_leases)
          after_done
          (for_each (not_done_body answers now) (not_lost l.active_leases) after_done)
    second =
        for_each-Passed _ _ _ not_done_body-Updates (not_lost l.active_leases) after_done
          Unique-snapshot (λ k s h r. ground (arith, first.entries k, h, r))

    -- One tick of the daemon: a lease that is not lost gets the update of its own answer, a call
    -- past the client-side timeout counts as a failure where the renewals run on the pool, and a
    -- lost lease and every other field of the lock stay as they were.
    pub renew_all_once-Tick : Tick l (renew_all_once answers now l)
    unfolding renew_all_once after_done
    renew_all_once-Tick = by_pool l.auto_renew refl
      where
        by_pool :
            (b : Bool)
            → l.auto_renew ≡ b
            → Tick l (
                if b
                then for_each (not_done_body answers now) (not_lost l.active_leases) after_done
                else after_done)
        by_pool true pool = record {
          entries = λ j. ground (arith, pool, second.entries j, first.entries j, lookup-snapshot j);
          same_closed = second.same_closed ∙ first.same_closed;
          same_auto = second.same_auto ∙ first.same_auto;
          same_guarding = second.same_guarding ∙ first.same_guarding;
          same_released = second.same_released ∙ first.same_released;
          unique = second.unique (first.unique u);
        }
        by_pool false inline = record {
          entries = λ j. ground (arith, inline, first.entries j, lookup-snapshot j);
          same_closed = first.same_closed;
          same_auto = first.same_auto;
          same_guarding = first.same_guarding;
          same_released = first.same_released;
          unique = first.unique u;
        }
