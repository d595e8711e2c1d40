-- ===== src/Locks/AzureBlob/Ownership.antt =====
-- Release, ownership checks and shutdown of locks/azure_blob.py.
use azure_functions_langgrap.Base.{
  ℕ, String, Bool, true, false, Option, none, some, List, [], ◌∷◌, ◌++◌, pair_eq, nat_eq, string_eq,
  ◌==◌, ==_iff, ◌≡◌, ◌≢◌, refl, ◌∙◌, ap, sym, if◌then◌else◌, arith, Bool-cases, inl, inr,
}
use mathlib.Core.List.{append-nil, append_assoc}
use azure_functions_langgrap.Base.Dict.{Dict, lookup, lookup-remove, lookup-insert}
use azure_functions_langgrap.Locks.InProcess.{Key}
use azure_functions_langgrap.Locks.AzureBlob.{
  AzureBlobLeaseThreadLock, LeaseState, lost_lease, released_lease, superseded, release,
  ownership_problem, close, close_around, finish_close, release_all, call_release, new_state,
}
use azure_functions_langgrap.Locks.AzureBlob.Errors.{ServiceError}
use azure_functions_langgrap.Locks.AzureBlob.Acquire.{
  acquire, acquired, lock_closed, Attempt, register,
}
use azure_functions_langgrap.Locks.AzureBlob.Acquire.Sound.{Holds, acquire_fast}

-- The ownership check has no problem exactly for the token that tracks the key in an open lock by
-- a lease that is not lost.
pub ownership_problem-Holds :
    (key : Key) (token : String) (l : AzureBlobLeaseThreadLock)
    → ownership_problem key token l ≡ none
    → Holds key token l
unfolding ownership_problem
ownership_problem-Holds key token l h = at (lookup key l.active_leases) refl
  where
    at : (o : Option LeaseState) → lookup key l.active_leases ≡ o → Holds key token l
    at none e = absurd (ground (arith, e))
    at (some s) e = record {
      state = s;
      current = e;
      owner = ground (arith, e, ==_iff s.token token);
      live = ground (arith, e);
      open_lock = ground (arith, e);
    }

pub Holds-ownership_problem :
    (key : Key) (token : String) (l : AzureBlobLeaseThreadLock)
    → Holds key token l
    → ownership_problem key token l ≡ none
unfolding ownership_problem
Holds-ownership_problem key token l h = ground (arith, ==_iff h.state.token token)

-- The owner's release: the key is free, no other key changes, the service is told once, and the
-- owner's own check reports `released` from then on.
pub release_owner :
    (key : Key) (token : String) (l : AzureBlobLeaseThreadLock) (h : Holds key token l)
    → ((j : Key)
        → lookup j (release key token l).active_leases
          ≡ (if key == j then none else lookup j l.active_leases))
      × ((release key token l).released ≡ l.released ++ h.state.lease ∷ [])
      × (ownership_problem key token (release key token l) ≡ some released_lease)
unfolding release ownership_problem
release_owner key token l h = (
  λ j. ground (arith, ==_iff h.state.token token, lookup-remove key j l.active_leases),
  ground (arith, ==_iff h.state.token token),
  ground (arith, ==_iff h.state.token token, ==_iff key key, lookup-remove key key l.active_leases),
)

-- A lost lease is dropped without a call of the service; the key is free again.
pub release_lost :
    (key : Key) (token : String) (l : AzureBlobLeaseThreadLock)
    → ownership_problem key token l ≡ some lost_lease
    → (lookup key (release key token l).active_leases ≡ none)
      × ((release key token l).released ≡ l.released)
unfolding release ownership_problem
release_lost key token l h =
    (ground (arith, lookup-remove key key l.active_leases, ==_iff key key), ground arith)

-- A release whose token does not own the key changes nothing, and calls no service: a stale caller
-- cannot free the lease of a newer owner.
pub release_stale :
    (key : Key) (token : String) (l : AzureBlobLeaseThreadLock)
    → ((state : LeaseState) → lookup key l.active_leases ≡ some state → state.token ≢ token)
    → release key token l ≡ l
unfolding release
release_stale key token l other = at (lookup key l.active_leases) refl
  where
    at : (o : Option LeaseState) → lookup key l.active_leases ≡ o → release key token l ≡ l
    at none e = rw e
    at (some s) e = ground (arith, e, other s e, ==_iff s.token token)

-- Once the key is registered again in an open lock under another token, a check for the old one reports
-- `superseded`: a stale run cannot inherit the newer owner's identity.
pub register-superseded :
    (key : Key) (lease : ℕ) (old token : String) (now : ℕ) (l : AzureBlobLeaseThreadLock)
    → old ≢ token
    → (register key lease token now false l).0 ≡ acquired token
    → ownership_problem key old (register key lease token now false l).1 ≡ some superseded
unfolding register ownership_problem
register-superseded key lease old token now l ne h = ground (
  arith,
  ==_iff key key,
  ==_iff token old,
  lookup-insert key key (new_state lease token now) l.active_leases,
)

-- The leases that are not lost, in the order of the dictionary.
abbrev pub leases : Dict Key LeaseState → List ℕ
leases [] = []
leases ((k, s) ∷ rest) = let more = leases rest in if s.lost then more else s.lease ∷ more

release_all_lem :
    (m : Dict Key LeaseState) (l : AzureBlobLeaseThreadLock)
    → release_all m l ≡ record l { released = l.released ++ leases m }
unfolding release_all
release_all_lem [] l = ap (λ (x : List ℕ). record l { released = x }) (sym (append-nil l.released))
release_all_lem ((k, s) ∷ rest) l = elim (Bool-cases s.lost) [
  | inl gone ↦ rw gone (release_all_lem rest l)
  | inr live ↦ rw live (
      release_all_lem rest (call_release s.lease l)
      ∙ ap (λ (x : List ℕ). record l { released = x })
          (append_assoc l.released (s.lease ∷ []) (leases rest)))
]

pub finish_close_lem :
    (l : AzureBlobLeaseThreadLock)
    → finish_close l
      ≡ record l { active_leases = []; released = l.released ++ leases l.active_leases }
unfolding finish_close
finish_close_lem l = release_all_lem l.active_leases (record l { active_leases = [] })

pub close_open :
    (l : AzureBlobLeaseThreadLock)
    → l.closed ≡ false
    → close l ≡ record l {
      active_leases = [];
      closed = true;
      released = l.released ++ leases l.active_leases;
    }
unfolding close close_around finish_close
close_open l h =
    ground
      (arith, h, release_all_lem l.active_leases (record l { closed = true; active_leases = [] }))

pub close_closed : (l : AzureBlobLeaseThreadLock) → l.closed ≡ true → close l ≡ l
unfolding close close_around
close_closed l h = ground arith

empty_checked :
    (key : Key) (token : String) (l : AzureBlobLeaseThreadLock)
    → l.closed ≡ true
    → l.active_leases ≡ []
    → (ownership_problem key token l ≡ some released_lease) × (release key token l ≡ l)
unfolding ownership_problem release lookup
empty_checked key token l h e = (ground arith, ground arith)

-- `close` of an open lock tells the service once for each lease that is not lost, in order, drops
-- every entry and leaves the lock closed; from then on every `acquire` raises, every check reports
-- `released`, every release is a no-op, and closing again changes nothing.
pub close_lem :
    (l : AzureBlobLeaseThreadLock)
    → l.closed ≡ false
    → (close l ≡ record l {
      active_leases = [];
      closed = true;
      released = l.released ++ leases l.active_leases;
    })
      × (close (close l) ≡ close l)
      × ((key : Key) (blocking : Bool) (marker : Option ServiceError) (attempts : List Attempt)
          → acquire key blocking marker attempts (close l) ≡ (lock_closed, close l))
      × ((key : Key) (token : String)
          → (ownership_problem key token (close l) ≡ some released_lease)
            × (release key token (close l) ≡ close l))
close_lem l h = (shut, again, refused, checked)
  where
    shut : close l ≡ record l {
      active_leases = [];
      closed = true;
      released = l.released ++ leases l.active_leases;
    }
    shut = close_open l h

    again : close (close l) ≡ close l
    again = rw shut (close_closed _ refl)

    refused :
        (key : Key) (blocking : Bool) (marker : Option ServiceError) (attempts : List Attempt)
        → acquire key blocking marker attempts (close l) ≡ (lock_closed, close l)
    refused key blocking marker attempts =
        rw shut (acquire_fast key blocking marker attempts _ refl)

    checked :
        (key : Key) (token : String)
        → (ownership_problem key token (close l) ≡ some released_lease)
          × (release key token (close l) ≡ close l)
    checked key token = rw shut (empty_checked key token _ refl refl)
