-- ===== src/Locks/AzureBlob/Renewal/Ticks.antt =====
-- Many ticks of the renewal daemon of locks/azure_blob.py, seen from one tracked lease: when it
-- counts as lost.
use azure_functions_langgrap.Base.{
  ℕ, zero, suc, ◌+◌, ◌≤◌, Bool, true, false, some, List, [], ◌∷◌, pair_eq, nat_eq, ◌≡◌, refl, ◌∙◌,
  ap, sym, if◌then◌else◌, leb, ◌||◌, arith,
}
use azure_functions_langgrap.Base.Dict.{lookup, Unique}
use azure_functions_langgrap.Locks.InProcess.{Key}
use azure_functions_langgrap.Locks.AzureBlob.{AzureBlobLeaseThreadLock, LeaseState}
use azure_functions_langgrap.Locks.AzureBlob.Errors.{is_definitive_lease_loss}
use azure_functions_langgrap.Locks.AzureBlob.Renewal.{
  RenewAnswer, renewed, failed, timed_out, timeout_error, renew_all_once,
}
use azure_functions_langgrap.Locks.AzureBlob.Renewal.Pass.{ticked, Tick, renew_all_once-Tick}

-- One tick: what each lease's `renew()` does, and the clock.
abbrev pub TickScript : Type 0
TickScript = List ((ℕ → RenewAnswer) × ℕ)

pub renew_ticks : TickScript → AzureBlobLeaseThreadLock → AzureBlobLeaseThreadLock
renew_ticks [] l = l
renew_ticks ((answers, now) ∷ rest) l = renew_ticks rest (renew_all_once answers now l)

-- How an answer counts on the pool, where the daemon runs.
pub data Verdict : Type 0 where
  good transient definitive : Verdict

abbrev pub verdict : RenewAnswer → Verdict
verdict renewed = good
verdict (failed exc) = if is_definitive_lease_loss exc then definitive else transient
verdict timed_out = transient

-- The specification, by windows of the history: a definitive loss, or three transient failures in
-- a row with no success between them.
abbrev pub three_in_a_row : List Verdict → Bool
three_in_a_row (transient ∷ transient ∷ transient ∷ rest) = true
three_in_a_row _ = false

abbrev pub one_definitive : Verdict → Bool
one_definitive definitive = true
one_definitive _ = false

abbrev pub lapses : List Verdict → Bool
lapses [] = false
lapses (v ∷ rest) = one_definitive v || (three_in_a_row (v ∷ rest) || lapses rest)

abbrev pub verdicts : ℕ → TickScript → List Verdict
verdicts lease [] = []
verdicts lease ((answers, now) ∷ rest) = verdict (answers lease) ∷ verdicts lease rest

abbrev transients : ℕ → List Verdict → List Verdict
transients zero vs = vs
transients (suc n) vs = transient ∷ transients n vs

-- A success ends every window that began before it.
lapses-good : (n : ℕ) (vs : List Verdict) → n ≤ 2 → lapses (transients n (good ∷ vs)) ≡ lapses vs
lapses-good zero vs h = refl
lapses-good (suc zero) vs h = refl
lapses-good (suc (suc zero)) vs h = refl
lapses-good (suc (suc (suc n))) vs h = absurd (omega arith)

lapses-definitive :
    (n : ℕ) (vs : List Verdict) → n ≤ 2 → lapses (transients n (definitive ∷ vs)) ≡ true
lapses-definitive zero vs h = refl
lapses-definitive (suc zero) vs h = refl
lapses-definitive (suc (suc zero)) vs h = refl
lapses-definitive (suc (suc (suc n))) vs h = absurd (omega arith)

transients-transient :
    (n : ℕ) (vs : List Verdict) → transients n (transient ∷ vs) ≡ transients (suc n) vs
transients-transient zero vs = refl
transients-transient (suc n) vs = ap (λ xs. transient ∷ xs) (transients-transient n vs)

lapses_none : (n : ℕ) → n ≤ 2 → lapses (transients n []) ≡ false
lapses_none zero h = refl
lapses_none (suc zero) h = refl
lapses_none (suc (suc zero)) h = refl
lapses_none (suc (suc (suc n))) h = absurd (omega arith)

timeout_is_transient : is_definitive_lease_loss timeout_error ≡ false
unfolding is_definitive_lease_loss
timeout_is_transient = refl

-- One tick, seen from a state that is not lost.
record Ticking (v : Verdict) (state after : LeaseState) : Type 0 where
  same_token : after.token ≡ state.token
  same_lease : after.lease ≡ state.lease
  if_good : v ≡ good → (after.lost ≡ false) × (after.consecutive_failures ≡ 0)
  if_transient :
      v ≡ transient
      → (after.lost ≡ leb 3 (state.consecutive_failures + 1))
        × (after.consecutive_failures ≡ state.consecutive_failures + 1)
  if_definitive : v ≡ definitive → after.lost ≡ true

ticked-Ticking :
    (answers : ℕ → RenewAnswer) (now : ℕ) (state : LeaseState)
    → state.lost ≡ false
    → Ticking (verdict (answers state.lease)) state (ticked answers now true state)
ticked-Ticking answers now state h = record {
  same_token = ground (arith, h);
  same_lease = ground (arith, h);
  if_good = λ e. ground (arith, h, timeout_is_transient);
  if_transient = λ e. ground (arith, h, timeout_is_transient);
  if_definitive = λ e. ground (arith, h, timeout_is_transient);
}

-- The same acquisition after a run: its token and its lease, and whether it counts as lost.
pub record Survives (key : Key) (state : LeaseState) (lapsed : Bool) (l : AzureBlobLeaseThreadLock)
    : Type 0 where
  pub after : LeaseState
  pub current : lookup key l.active_leases ≡ some after
  pub same_token : after.token ≡ state.token
  pub same_lease : after.lease ≡ state.lease
  pub lost : after.lost ≡ lapsed

module _ (key : Key) where
  lost-renew_ticks :
      (ticks : TickScript) (l : AzureBlobLeaseThreadLock) (state : LeaseState)
      → Unique l.active_leases
      → lookup key l.active_leases ≡ some state
      → state.lost ≡ true
      → Survives key state true (renew_ticks ticks l)
  unfolding renew_ticks
  lost-renew_ticks [] l state u at gone = record {
    after = state;
    current = at;
    same_token = refl;
    same_lease = refl;
    lost = gone;
  }
  lost-renew_ticks ((answers, now) ∷ rest) l state u at gone =
      let tick : Tick answers now l (renew_all_once answers now l) =
        renew_all_once-Tick answers now l u in
      lost-renew_ticks rest (renew_all_once answers now l) state tick.unique
        (ground (arith, tick.entries key, at, gone)) gone

  retarget :
      {l : AzureBlobLeaseThreadLock} {state state' : LeaseState} {b b' : Bool}
      → state'.token ≡ state.token
      → state'.lease ≡ state.lease
      → b ≡ b'
      → Survives key state' b l
      → Survives key state b' l
  retarget p q r s = record {
    after = s.after;
    current = s.current;
    same_token = s.same_token ∙ p;
    same_lease = s.same_lease ∙ q;
    lost = s.lost ∙ r;
  }

  counted-renew_ticks :
      (n : ℕ) (ticks : TickScript) (l : AzureBlobLeaseThreadLock) (state : LeaseState)
      → n ≤ 2
      → Unique l.active_leases
      → l.auto_renew ≡ true
      → lookup key l.active_leases ≡ some state
      → state.lost ≡ false
      → state.consecutive_failures ≡ n
      → Survives key state
          (lapses (transients n (verdicts state.lease ticks)))
          (renew_ticks ticks l)
  unfolding renew_ticks
  counted-renew_ticks n [] l state few u auto at live count = record {
    after = state;
    current = at;
    same_token = refl;
    same_lease = refl;
    lost = live ∙ sym (lapses_none n few);
  }
  counted-renew_ticks n ((answers, now) ∷ rest) l state few u auto at live count =
      by_verdict (verdict (answers state.lease)) refl (λ m few' live' count'.
        counted-renew_ticks m rest (renew_all_once answers now l) (ticked answers now true state)
          few' tick.unique (tick.same_auto ∙ auto) at_next live' count')
    where
      facts : Ticking (verdict (answers state.lease)) state (ticked answers now true state)
      facts = ticked-Ticking answers now state live

      tick : Tick answers now l (renew_all_once answers now l)
      tick = renew_all_once-Tick answers now l u

      at_next :
          lookup key (renew_all_once answers now l).active_leases
          ≡ some (ticked answers now true state)
      at_next = tick.entries key ∙ (rw (at, auto) refl)

      same_history :
          (m : ℕ)
          → lapses (transients m (verdicts (ticked answers now true state).lease rest))
            ≡ lapses (transients m (verdicts state.lease rest))
      same_history m = ap (λ x. lapses (transients m (verdicts x rest))) facts.same_lease

      after_transient :
          (m : ℕ)
          → state.consecutive_failures ≡ m
          → m ≤ 2
          → verdict (answers state.lease) ≡ transient
          → ((m' : ℕ)
              → m' ≤ 2
              → (ticked answers now true state).lost ≡ false
              → (ticked answers now true state).consecutive_failures ≡ m'
              → Survives key
                  (ticked answers now true state)
                  (lapses (transients m' (verdicts (ticked answers now true state).lease rest)))
                  (renew_ticks rest (renew_all_once answers now l)))
          → Survives key state
              (lapses (transients (suc m) (verdicts state.lease rest)))
              (renew_ticks rest (renew_all_once answers now l))
      after_transient zero c f e ih = retarget facts.same_token facts.same_lease (same_history 1) (
          ih 1 (omega arith) (ground (arith, facts.if_transient e, c))
            (ground (arith, facts.if_transient e, c)))
      after_transient (suc zero) c f e ih =
          retarget facts.same_token facts.same_lease (same_history 2) (
            ih 2 (omega arith) (ground (arith, facts.if_transient e, c))
              (ground (arith, facts.if_transient e, c)))
      after_transient (suc (suc zero)) c f e ih = retarget facts.same_token facts.same_lease refl (
          lost-renew_ticks rest (renew_all_once answers now l) (ticked answers now true state)
            tick.unique at_next (ground (arith, facts.if_transient e, c)))
      after_transient (suc (suc (suc m))) c f e ih = absurd (omega arith)

      by_verdict :
          (v : Verdict)
          → verdict (answers state.lease) ≡ v
          → ((m' : ℕ)
              → m' ≤ 2
              → (ticked answers now true state).lost ≡ false
              → (ticked answers now true state).consecutive_failures ≡ m'
              → Survives key
                  (ticked answers now true state)
                  (lapses (transients m' (verdicts (ticked answers now true state).lease rest)))
                  (renew_ticks rest (renew_all_once answers now l)))
          → Survives key state
              (lapses (transients n (v ∷ verdicts state.lease rest)))
              (renew_ticks rest (renew_all_once answers now l))
      by_verdict good e ih =
          retarget facts.same_token facts.same_lease
            (same_history 0 ∙ sym (lapses-good n (verdicts state.lease rest) few))
            (ih 0 (omega arith) (facts.if_good e).0 (facts.if_good e).1)
      by_verdict transient e ih =
          retarget refl refl (ap lapses (sym (transients-transient n (verdicts state.lease rest))))
            (after_transient n count few e ih)
      by_verdict definitive e ih =
          retarget facts.same_token facts.same_lease (sym (lapses-definitive n _ few)) (
            lost-renew_ticks rest (renew_all_once answers now l) (ticked answers now true state)
              tick.unique at_next (facts.if_definitive e))

-- Through any run of the daemon from a freshly acquired lease, the key stays tracked under the
-- same token and lease, and counts as lost exactly when the answers that its lease got hold a
-- definitive loss or three transient failures in a row.
pub renew_ticks-lapses :
    (key : Key) (ticks : TickScript) (l : AzureBlobLeaseThreadLock) (state : LeaseState)
    → Unique l.active_leases
    → l.auto_renew ≡ true
    → lookup key l.active_leases ≡ some state
    → state.lost ≡ false
    → state.consecutive_failures ≡ 0
    → Survives key state (lapses (verdicts state.lease ticks)) (renew_ticks ticks l)
renew_ticks-lapses key ticks l state u auto at live count =
    counted-renew_ticks key 0 ticks l state (omega arith) u auto at live count
