-- ===== src/Locks/AzureBlob/Invariant.antt =====
-- What holds of every lock that the methods of locks/azure_blob.py make.
use azure_functions_langgrap.Base.{
  ℕ, String, Bool, true, false, not, Option, none, some, List, [], pair_eq, nat_eq, string_eq, ◌==◌,
  ◌≡◌, ◌≢◌, refl, ◌∙◌, sym, if◌then◌else◌, ◌&&◌, ◌||◌, arith, inl, inr, returns,
}
use mathlib.Core.Path.{subst}
use azure_functions_langgrap.Base.Dict.{
  lookup, insert, remove, lookup-remove, Unique, Unique-insert, Unique-remove,
}
use azure_functions_langgrap.Locks.InProcess.{Key}
use azure_functions_langgrap.Locks.AzureBlob.{
  AzureBlobLeaseThreadLock, LeaseState, release, begin_close, finish_close, release_state,
  call_release, construct, infinite, finite_range, Installed, Duration, Warning, new_state,
}
use azure_functions_langgrap.Locks.AzureBlob.Acquire.{register}
use azure_functions_langgrap.Locks.AzureBlob.Acquire.Sound.{register_lem}
use azure_functions_langgrap.Locks.AzureBlob.Renewal.{RenewAnswer, renew_all_once}
use azure_functions_langgrap.Locks.AzureBlob.Renewal.Pass.{Tick, renew_all_once-Tick}
use azure_functions_langgrap.Locks.AzureBlob.Ownership.{finish_close_lem}

-- How far a `close` has come: it has not begun, it has set `_closed`, it has taken the entries away.
pub data Phase : Type 0 where
  opened closing ended : Phase

-- A lock and what its methods make of it, in any order. The sections of other calls fall between
-- the two sections of `close`; one that begins within the last section of an `acquire` is one that
-- begins after it.
pub data Reachable : Phase → AzureBlobLeaseThreadLock → Type 0 where
  constructed :
      (env : Installed) (d : Duration) (auto guarded : Bool) (l : AzureBlobLeaseThreadLock)
      (ws : List Warning)
      → construct env d auto guarded ≡ returns (l, ws)
      → Reachable opened l
  registers :
      {p : Phase} {l : AzureBlobLeaseThreadLock} (key : Key) (lease : ℕ) (token : String) (now : ℕ)
      → Reachable p l
      → Reachable p (register key lease token now false l).1
  releases :
      {p : Phase} {l : AzureBlobLeaseThreadLock} (key : Key) (token : String)
      → Reachable p l
      → Reachable p (release key token l)
  renews :
      {p : Phase} {l : AzureBlobLeaseThreadLock} (answers : ℕ → RenewAnswer) (now : ℕ)
      → Reachable p l
      → Reachable p (renew_all_once answers now l)
  begins_close :
      {l : AzureBlobLeaseThreadLock} → Reachable opened l → Reachable closing (begin_close l)
  finishes_close :
      {l : AzureBlobLeaseThreadLock} → Reachable closing l → Reachable ended (finish_close l)

-- From its start on a `close` shows in `_closed`, and after its end no key is tracked.
abbrev pub IsClosed : Phase → AzureBlobLeaseThreadLock → Type 0
IsClosed opened l = l.closed ≡ false
IsClosed closing l = l.closed ≡ true
IsClosed ended l = (l.closed ≡ true) × ((key : Key) → lookup key l.active_leases ≡ none)

pub record IsValid (p : Phase) (l : AzureBlobLeaseThreadLock) : Type 0 where
  pub unique : Unique l.active_leases
  pub shut : IsClosed p l

-- A step that leaves `_closed` and tracks no new key leaves how far the `close` has come.
same-IsClosed :
    (p : Phase) (l l' : AzureBlobLeaseThreadLock)
    → l'.closed ≡ l.closed
    → ((key : Key) → lookup key l.active_leases ≡ none → lookup key l'.active_leases ≡ none)
    → IsClosed p l
    → IsClosed p l'
same-IsClosed opened l l' same no_more c = same ∙ c
same-IsClosed closing l l' same no_more c = same ∙ c
same-IsClosed ended l l' same no_more c = (same ∙ c.0, λ key. no_more key (c.1 key))

either-IsValid :
    (p : Phase) (b : Bool) (x y : AzureBlobLeaseThreadLock)
    → IsValid p x
    → IsValid p y
    → IsValid p (if b then x else y)
either-IsValid p true x y v w = v
either-IsValid p false x y v w = w

removed-IsValid :
    (p : Phase) (key : Key) (l : AzureBlobLeaseThreadLock)
    → IsValid p l
    → IsValid p (record l { active_leases = remove key l.active_leases })
removed-IsValid p key l v = record {
  unique = Unique-remove key l.active_leases v.unique;
  shut =
      same-IsClosed p l (record l { active_leases = remove key l.active_leases }) refl
        (λ j none_there. ground (arith, none_there, lookup-remove key j l.active_leases)) v.shut;
}

called-IsValid :
    (p : Phase) (lease : ℕ) (l : AzureBlobLeaseThreadLock)
    → IsValid p l
    → IsValid p (call_release lease l)
called-IsValid p lease l v = record {
  unique = v.unique;
  shut = same-IsClosed p l (call_release lease l) refl (λ j h. h) v.shut;
}

release_state-IsValid :
    (p : Phase) (key : Key) (token : String) (o : Option LeaseState) (l : AzureBlobLeaseThreadLock)
    → IsValid p l
    → IsValid p (release_state key token o l)
unfolding release_state
release_state-IsValid p key token none l v = v
release_state-IsValid p key token (some s) l v =
    let popped = record l { active_leases = remove key l.active_leases } in
    let removed = removed-IsValid p key l v in
    either-IsValid p (s.token == token) _ _
      (either-IsValid p s.lost _ _ removed (called-IsValid p s.lease popped removed)) v

release-IsValid :
    (p : Phase) (key : Key) (token : String) (l : AzureBlobLeaseThreadLock)
    → IsValid p l
    → IsValid p (release key token l)
unfolding release
release-IsValid p key token l v = release_state-IsValid p key token (lookup key l.active_leases) l v

construct_fresh :
    (env : Installed) (d : Duration) (auto guarded : Bool) (l : AzureBlobLeaseThreadLock)
    (ws : List Warning)
    → construct env d auto guarded ≡ returns (l, ws)
    → (l.active_leases ≡ []) × (l.closed ≡ false)
unfolding construct
construct_fresh env d auto guarded l ws h = ground arith

construct-IsValid :
    (env : Installed) (d : Duration) (auto guarded : Bool) (l : AzureBlobLeaseThreadLock)
    (ws : List Warning)
    → construct env d auto guarded ≡ returns (l, ws)
    → IsValid opened l
construct-IsValid env d auto guarded l ws h =
    let (empty, open_lock) = construct_fresh env d auto guarded l ws h in
    record { unique = subst Unique (sym empty) tt; shut = open_lock }

-- A key that is registered was so in an open lock.
registered-IsClosed :
    (p : Phase) (l l' : AzureBlobLeaseThreadLock)
    → l.closed ≡ false
    → l'.closed ≡ false
    → IsClosed p l
    → IsClosed p l'
registered-IsClosed opened l l' was is c = is
registered-IsClosed closing l l' was is c = absurd (ground (arith, was, c))
registered-IsClosed ended l l' was is c = absurd (ground (arith, was, c.0))

register-IsValid :
    (p : Phase) (key : Key) (lease : ℕ) (token : String) (now : ℕ) (l : AzureBlobLeaseThreadLock)
    → IsValid p l
    → IsValid p (register key lease token now false l).1
register-IsValid p key lease token now l v = elim (register_lem key lease token now false l) [
  | inl new ↦
      let l' = record l {
        active_leases = insert key (new_state lease token now) l.active_leases;
        closed = l.closed || false;
      } in
      rw new.2 (record {
        unique = Unique-insert key (new_state lease token now) l.active_leases v.unique;
        shut = registered-IsClosed p l l' new.4 (ground (arith, new.4)) v.shut;
      })
  | inr back ↦ rw back.1 (called-IsValid p lease l v)
]

renew-IsValid :
    (p : Phase) (answers : ℕ → RenewAnswer) (now : ℕ) (l : AzureBlobLeaseThreadLock)
    → IsValid p l
    → IsValid p (renew_all_once answers now l)
renew-IsValid p answers now l v =
    let tick : Tick answers now l (renew_all_once answers now l) =
      renew_all_once-Tick answers now l v.unique in
    record {
      unique = tick.unique;
      shut =
          same-IsClosed p l (renew_all_once answers now l) tick.same_closed
            (λ j none_there. ground (arith, tick.entries j, none_there)) v.shut;
    }

finish-IsValid : (l : AzureBlobLeaseThreadLock) → IsValid closing l → IsValid ended (finish_close l)
finish-IsValid l v =
    rw (finish_close_lem l) (record { unique = tt; shut = (v.shut, λ j. unfold lookup in refl) })

-- A lock that the constructor returns has a duration of -1 or of 15 to 60 seconds, renews exactly
-- for `auto_renew` with a finite duration, keeps the guard setting, and comes with a warning if it
-- guards without renewing.
pub construct_lem :
    (env : Installed) (d : Duration) (auto guarded : Bool) (l : AzureBlobLeaseThreadLock)
    (ws : List Warning)
    → construct env d auto guarded ≡ returns (l, ws)
    → ((infinite d || finite_range d) ≡ true)
      × (l.auto_renew ≡ (auto && not (infinite d)))
      × (l.guard_checkpoint_writes ≡ guarded)
      × ((guarded ≡ true) → (l.auto_renew ≡ false) → (ws ≢ []))
unfolding construct
construct_lem env d auto guarded l ws h =
    (ground arith, ground arith, ground arith, λ g r. ground arith)

-- In every lock that its methods reach, no key is tracked twice; `_closed` is set from the start of
-- a `close` on, for ever; and once that `close` has taken the entries away, no key is tracked any
-- more, whichever calls were under way.
pub Reachable-IsValid : {p : Phase} {l : AzureBlobLeaseThreadLock} → Reachable p l → IsValid p l
Reachable-IsValid (constructed env d auto guarded l ws e) =
    construct-IsValid env d auto guarded l ws e
Reachable-IsValid (registers {p} {l} key lease token now r) =
    register-IsValid p key lease token now l (Reachable-IsValid r)
Reachable-IsValid (releases {p} {l} key token r) =
    release-IsValid p key token l (Reachable-IsValid r)
Reachable-IsValid (renews {p} {l} answers now r) =
    renew-IsValid p answers now l (Reachable-IsValid r)
Reachable-IsValid (begins_close r) =
    let v = Reachable-IsValid r in record { unique = v.unique; shut = refl }
Reachable-IsValid (finishes_close {l} r) = finish-IsValid l (Reachable-IsValid r)
