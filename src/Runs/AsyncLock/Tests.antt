-- ===== src/Runs/AsyncLock/Tests.antt =====
-- A lock that hands out one token, and callers that are cancelled or not.
use azure_functions_langgrap.Base.{
  ℕ, String, false, Option, none, some, [], ◌∷◌, ◌++◌, if◌then◌else◌, returns, raises, ◌≡◌, refl,
}
use azure_functions_langgrap.Runs.Effects.{
  exception, Event, acquire_called, release_called, on_run_started, Effect,
}
use azure_functions_langgrap.Runs.AsyncLock.{ThreadLock, Wait, is_cancelled, async_thread_lock}
use azure_functions_langgrap.Runs.AsyncLock.Tokens.{async_thread_lock_lem}

abbrev one_token : ThreadLock ℕ
one_token = record {
  acquire = λ graph thread. returns (some "k");
  release = λ graph thread token. returns tt;
  ownership_guard = none;
}

abbrev twice : Wait
twice = record { deliveries = 2; late = false }

abbrev Log : Type 0
Log = Event ℕ ℕ

acquires : one_token.acquire "g" "t" ≡ returns (some "k")
acquires = refl

abbrev failing_body : Option String → Effect Log ℕ
failing_body token = (on_run_started ∷ [], raises (exception "ValueError" ""))

async_thread_lock_example :
    (async_thread_lock one_token twice twice "g" (some "t") failing_body).0
    ≡ acquire_called "g" "t"
      ∷ ((if is_cancelled twice then [] else (failing_body (some "k")).0)
          ++ release_called "g" "t" "k" ∷ [])
async_thread_lock_example =
    async_thread_lock_lem {R = ℕ} one_token twice twice "g" "t" "k" acquires failing_body
