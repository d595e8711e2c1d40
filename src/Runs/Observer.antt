-- ===== src/Runs/Observer.antt =====
-- The events of the run's observer in a log.
pub mod Locked
use azure_functions_langgrap.Base.{
  ◌+◌, String, Bool, true, false, Option, List, [], ◌∷◌, ◌++◌, Outcome, returns, raises, ◌≡◌, refl,
  arith, count_if,
}
use azure_functions_langgrap.Base.Json.{Value}
use azure_functions_langgrap.Locks.Guard.{Config}
use azure_functions_langgrap.Runs.Effects.{
  Fault, Event, on_run_started, on_run_completed, on_run_failed, invoked, Effect, lift, emit,
  finally, ◌>>=◌,
}
use azure_functions_langgrap.Runs.Guarded.{guarded_run, check_ownership_guard}
use azure_functions_langgrap.Runs.AsyncLock.{ThreadLock}

module _ {G R : Type 0} where
  abbrev pub is_started : Event G R → Bool
  is_started on_run_started = true
  is_started _ = false

  abbrev pub is_terminal : Event G R → Bool
  is_terminal on_run_completed = true
  is_terminal (on_run_failed x) = true
  is_terminal _ = false

pub count_if-append :
    {A : Type 0} (p : A → Bool) (xs ys : List A)
    → count_if p (xs ++ ys) ≡ count_if p xs + count_if p ys
count_if-append p [] ys = omega arith
count_if-append p (x ∷ xs) ys = omega (arith, count_if-append p xs ys)

module _ (G R : Type 0) where
  -- The observer of the run hears of as many ends as of starts.
  abbrev pub Balanced : {A : Type 0} → Effect (Event G R) A → Type 0
  Balanced e = count_if is_started e.0 ≡ count_if is_terminal e.0

  pub Balanced-bind :
      {A B : Type 0} (m : Effect (Event G R) A) (f : A → Effect (Event G R) B)
      → Balanced m
      → ((a : A) → Balanced (f a))
      → Balanced (m >>= f)
  Balanced-bind (log, returns a) f h k = omega (
    arith,
    count_if-append is_started log (f a).0,
    count_if-append is_terminal log (f a).0,
    h,
    k a,
  )
  Balanced-bind (log, raises x) f h k = h

  pub Balanced-finally :
      {A : Type 0} (e : Effect (Event G R) A) (c : Effect (Event G R) Unit)
      → Balanced e
      → Balanced c
      → Balanced (finally e c)
  Balanced-finally e c h k =
      omega (arith, count_if-append is_started e.0 c.0, count_if-append is_terminal e.0 c.0, h, k)

module _ {G R : Type 0} where
  pub silent_bind :
      {A B : Type 0} (p : Event G R → Bool) (m : Effect (Event G R) A)
      (f : A → Effect (Event G R) B)
      → count_if p m.0 ≡ 0
      → ((a : A) → count_if p (f a).0 ≡ 0)
      → count_if p (m >>= f).0 ≡ 0
  silent_bind p (log, returns a) f h k = omega (arith, count_if-append p log (f a).0, h, k a)
  silent_bind p (log, raises x) f h k = h

module _ {G R : Type 0} (check : G → Outcome {0, 0} Fault Unit) (lock : ThreadLock G)
    (name : String) (thread token : Option String) (config : Option (Config Value G))
    (graph_input : Value) (invoke : Value → Option (Config Value G) → Outcome Fault R) where
  -- What runs inside the `try` emits no event of the observer.
  pub quiet :
      (p : Event G R → Bool)
      → ((v : Value) (c : Option (Config Value G)) → p (invoked v c) ≡ false)
      → count_if p (guarded_run check lock name thread token config graph_input invoke).0 ≡ 0
  unfolding guarded_run
  quiet p h = silent_bind p (lift _) _ refl (λ g.
      silent_bind p (emit (invoked graph_input g.0) (invoke graph_input g.0)) _
        (ground (arith, h graph_input g.0))
        (λ r. silent_bind p (lift (check_ownership_guard check g.1)) _ refl (λ u. refl)))
