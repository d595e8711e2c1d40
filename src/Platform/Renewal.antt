-- ===== src/Platform/Renewal.antt =====
-- platform/_store_renewal.py: the worker that renews a run's lock while the run goes on. `S` is the
-- state of the store and `E` what its `renew_run_lock` raises; a round is one wake-up of the worker,
-- with what others do to the store before it.
pub mod InMemory
mod Tests
use azure_functions_langgrap.Base.{
  ℕ, String, Bool, true, false, not, ◌&&◌, Option, none, some, is_none, List, [], ◌∷◌, ◌==◌,
  string_eq, if◌then◌else◌, Outcome, returns, raises,
}
use azure_functions_langgrap.Base.Dict.{Dict, lookup, insert, remove}

pub data Failure (E : Type 0) : Type 0 where
  lost_ownership : Failure E
  store_failed : E → Failure E
  stop_timed_out : Failure E

pub record Round (S : Type 0) : Type 0 where
  pub before : S → S
  pub now : ℕ

abbrev pub Renew : Type 0 → Type 0 → Type 0
Renew E S = ℕ → String → String → S → Outcome E Bool × S

module _ {E S : Type 0} where
  after_renew : Outcome E Bool → S → Option (Failure E) × S → Option (Failure E) × S
  after_renew (returns true) s more = more
  after_renew (returns false) s more = (some lost_ownership, s)
  after_renew (raises x) s more = (some (store_failed x), s)

  -- `worker`, for the rounds that come before the stop.
  unfoldable pub worker : Renew E S → String → String → List (Round S) → S → Option (Failure E) × S
  unfolding after_renew
  worker renew thread_id owner_token [] s = (none, s)
  worker renew thread_id owner_token (r ∷ rest) s =
      let (answer, s') = renew r.now thread_id owner_token (r.before s) in
      after_renew answer s' (worker renew thread_id owner_token rest s')

-- `_STORE_RENEWALS`, by owner token, with the failure that each renewal holds.
abbrev pub Renewals : Type 0 → Type 0
Renewals E = Dict String (Option (Failure E))

pub data StartError : Type 0 where
  no_thread : StartError

module _ {E : Type 0} where
  -- `_start_store_renewal`: whether the store renews at all, and whether the thread starts.
  unfoldable pub start_store_renewal :
      Bool → Bool → String → Renewals E → Outcome StartError (Unit {0}) × Renewals E
  start_store_renewal renews starts owner_token renewals =
      if not renews
      then (returns tt, renewals)
      else if starts
      then (returns tt, insert owner_token none renewals)
      else (raises no_thread, remove owner_token (insert owner_token none renewals))

  change_failure :
      String → Option (Failure E) → Option (Option (Failure E)) → Renewals E → Renewals E
  change_failure owner_token failure none renewals = renewals
  change_failure owner_token failure (some old) renewals = insert owner_token failure renewals

  -- `renewal.failure = …`, by the worker. What it sets while `stop_store_renewal` joins it counts as
  -- set before.
  unfoldable pub set_failure : String → Option (Failure E) → Renewals E → Renewals E
  unfolding change_failure
  set_failure owner_token failure renewals =
      change_failure owner_token failure (lookup owner_token renewals) renewals

  stopped : Bool → Option (Option (Failure E)) → Option (Failure E)
  stopped blocked none = none
  stopped blocked (some failure) =
      if blocked && is_none failure then some stop_timed_out else failure

  -- `stop_store_renewal`; `blocked` says whether the worker is alive after the join.
  unfoldable pub stop_store_renewal : String → Bool → Renewals E → Option (Failure E) × Renewals E
  unfolding stopped
  stop_store_renewal owner_token blocked renewals =
      (stopped blocked (lookup owner_token renewals), remove owner_token renewals)
