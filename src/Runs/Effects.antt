-- ===== src/Runs/Effects.antt =====
-- A call of a driver of runs: what it does to the world, in order, and how it ends.
use azure_functions_langgrap.Base.{
  String, Bool, true, false, Option, List, [], ◌∷◌, ◌++◌, Outcome, returns, raises,
}
use azure_functions_langgrap.Base.Json.{Value}
use azure_functions_langgrap.Locks.Guard.{Config, GuardError, type_error, provider_error}

-- What is raised: an `Exception`, with its type and its text, or another `BaseException`.
pub data Fault : Type 0 where
  exception : String → String → Fault
  base_exception : String → Fault

abbrev pub cancelled_error : Fault
cancelled_error = base_exception "CancelledError"

-- `isinstance(exc, Exception)`
abbrev pub is_exception : Fault → Bool
is_exception (exception type message) = true
is_exception (base_exception type) = false

-- What `ownership_guard_for` raises.
abbrev pub guard_fault : GuardError → Fault
guard_fault type_error =
    exception "TypeError" "ownership_guard() must return an OwnershipGuard or None"
guard_fault (provider_error type message) = exception type message

-- `G` are the guards, `R` the graph's results.
pub data Event (G R : Type 0) : Type 0 where
  acquire_called : String → String → Event G R
  release_called : String → String → String → Event G R
  on_run_started : Event G R
  on_run_completed : Event G R
  on_run_failed : Fault → Event G R
  on_run_rejected : Event G R
  invoked : Value → Option (Config Value G) → Event G R
  handled : R → Event G R

abbrev pub Effect : Type 0 → Type 0 → Type 0
Effect E A = List E × Outcome Fault A

abbrev after : {A : Type 0} → Outcome {0, 0} Fault Unit → Outcome Fault A → Outcome Fault A
after (returns u) r = r
after (raises x) r = raises x

module _ {E A : Type 0} where
  abbrev pub pure : A → Effect E A
  pure a = ([], returns a)

  abbrev pub lift : Outcome Fault A → Effect E A
  lift r = ([], r)

  abbrev pub emit : E → Outcome Fault A → Effect E A
  emit e r = (e ∷ [], r)

  -- `try: body; finally: cleanup`
  abbrev pub finally : Effect E A → Effect E Unit → Effect E A
  finally body cleanup = (body.0 ++ cleanup.0, after cleanup.1 body.1)

  abbrev ended : List E → Outcome Fault A → (Fault → List E) → E → Effect E A
  ended log (returns a) failed completed = (log ++ completed ∷ [], returns a)
  ended log (raises x) failed completed = (log ++ failed x, raises x)

  -- `try: body; except BaseException as exc: failed(exc); raise; else: completed`
  abbrev pub observed : Effect E A → (Fault → List E) → E → Effect E A
  observed body failed completed = ended body.0 body.1 failed completed

module _ {E A B : Type 0} where
  abbrev continued : List E → Outcome Fault A → (A → Effect E B) → Effect E B
  continued log (returns a) f = (log ++ (f a).0, (f a).1)
  continued log (raises x) f = (log, raises x)

  infixl 5 ◌>>=◌ ◌>>◌
  abbrev pub ◌>>=◌ : Effect E A → (A → Effect E B) → Effect E B
  m >>= f = continued m.0 m.1 f

  abbrev pub ◌>>◌ : Effect E A → Effect E B → Effect E B
  m >> n = m >>= λ _. n
