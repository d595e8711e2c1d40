-- ===== src/Platform/Renewal/InMemory.antt =====
-- The renewal worker of platform/_store_renewal.py on an InMemoryThreadStore.
use azure_functions_langgrap.Base.{
  ℕ, String, Bool, true, false, Option, none, some, List, [], ◌∷◌, string_eq, Outcome, returns, map,
  all, ◌≡◌, refl, arith, ==_iff,
}
use azure_functions_langgrap.Base.Dict.{lookup, lookup-insert_self}
use azure_functions_langgrap.Platform.Threads.{Thread, status_eq}
use azure_functions_langgrap.Platform.Stores.{Store, renew_run_lock, is_stale}
use azure_functions_langgrap.Platform.Stores.Runs.{Call, renews, perform, run}
use azure_functions_langgrap.Platform.Stores.RunLock.{Holds, spares, run-Holds}
use azure_functions_langgrap.Platform.Renewal.{
  Failure, lost_ownership, stop_timed_out, Round, Renewals, worker, after_renew, set_failure,
  stop_store_renewal, stopped, change_failure,
}

module _ {V : Type 0} where
  abbrev pub renew : {E : Type 0} → ℕ → String → String → Store V → Outcome E Bool × Store V
  renew now id token m =
      (returns (renew_run_lock now id token m).0, (renew_run_lock now id token m).1)

  -- A round: the calls of others, and the time at which the worker wakes up.
  abbrev pub round_of : List (Call V) × ℕ → Round (Store V)
  round_of (calls, now) = record { before = λ m. run calls m; now = now }

  abbrev pub spare : String → String → List (Call V) × ℕ → Bool
  spare id token (calls, now) = all (spares id token) calls

  renew-Holds :
      (now : ℕ) (id token : String) (m : Store V)
      → Holds id token m
      → ((renew_run_lock now id token m).0 ≡ true)
        × Holds id token (renew_run_lock now id token m).1
  unfolding renew_run_lock perform run
  renew-Holds now id token m h = (
    ground (arith, h.current, h.owner, ==_iff token token),
    run-Holds id token (renews now id token ∷ []) m h refl,
  )

module _ {E : Type 0} where
  stop-set_failure :
      (token : String) (failure old : Option (Failure E)) (blocked : Bool) (renewals : Renewals E)
      → lookup token renewals ≡ some old
      → (stop_store_renewal token blocked (set_failure token failure renewals)).0
        ≡ stopped blocked (some failure)
  unfolding stop_store_renewal set_failure change_failure
  stop-set_failure token failure old blocked renewals there =
      rw (there, lookup-insert_self token failure renewals) refl

module _ {V E : Type 0} where
  worker-Holds :
      (id token : String) (rounds : List (List (Call V) × ℕ)) (m : Store V)
      → Holds id token m
      → all (spare id token) rounds ≡ true
      → ((worker (renew {V = V} {E = E}) id token (map round_of rounds) m).0 ≡ none)
        × Holds id token (worker (renew {V = V} {E = E}) id token (map round_of rounds) m).1
  unfolding worker after_renew
  worker-Holds id token [] m h s = (refl, h)
  worker-Holds id token ((calls, now) ∷ rest) m h s =
      let held = run-Holds id token calls m h (ground (arith, s)) in
      let (answered, again) = renew-Holds now id token (run calls m) held in
      rw answered (
        worker-Holds id token rest (renew_run_lock now id token (run calls m)).1 again
          (ground (arith, s)))

  -- While others spare a run that holds its thread's lock and whose renewal is in the table without a
  -- failure, the renewals of the run keep the lock, and its cleanup, where the worker ends in time, finds no failure; where it does not end in time, the
  -- cleanup reports that.
  pub store_renewal-Holds :
      (id token : String) (rounds : List (List (Call V) × ℕ)) (m : Store V) (renewals : Renewals E)
      → Holds id token m
      → all (spare id token) rounds ≡ true
      → lookup token renewals ≡ some none
      → (let w = worker (renew {V = V} {E = E}) id token (map round_of rounds) m in
          Holds id token w.1
          × ((stop_store_renewal token false (set_failure token w.0 renewals)).0 ≡ none)
          × ((stop_store_renewal token true (set_failure token w.0 renewals)).0
              ≡ some stop_timed_out))
  unfolding stopped
  store_renewal-Holds id token rounds m renewals h s started =
      let (fine, held) = worker-Holds id token rounds m h s in
      (
        held,
        rw (fine, stop-set_failure {E = E} token none none false renewals started) refl,
        rw (fine, stop-set_failure {E = E} token none none true renewals started) refl,
      )

  -- Where others have taken the thread over, the next renewal reports the loss, leaves the store alone
  -- and ends the worker; the cleanup finds the loss, whether the worker ended in time or not.
  pub store_renewal-lost :
      (id token : String) (calls : List (Call V)) (now : ℕ) (rest : List (List (Call V) × ℕ))
      (m : Store V) (renewals : Renewals E) (t : Thread V) (blocked : Bool)
      → lookup id (run calls m) ≡ some t
      → is_stale (some token) t.lock_token ≡ true
      → lookup token renewals ≡ some none
      → (let w = worker (renew {V = V} {E = E}) id token (map round_of ((calls, now) ∷ rest)) m in
          (w ≡ (some lost_ownership, run calls m))
          × ((stop_store_renewal token blocked (set_failure token w.0 renewals)).0
              ≡ some lost_ownership))
  unfolding worker after_renew renew_run_lock stopped
  store_renewal-lost id token calls now rest m renewals t blocked there stale started = (
    rw (there, stale) refl,
    rw
        (
          there,
          stale,
          stop-set_failure {E = E} token (some lost_ownership) none blocked renewals started,
        )
        (ground arith),
  )
