-- ===== src/Authorization.antt =====
-- Policies that let a request run a graph or touch a thread, and their evaluation:
-- src/azure_functions_langgraph/authorization.py, _run_authorization.py (native routes) and
-- streaming_authorization.py. The request is part of the context, a parameter.
pub mod Closed
mod Tests
use azure_functions_langgrap.Base.{
  ℕ, String, Bool, true, false, Option, none, some, if◌then◌else◌, Outcome, returns, raises, ◌>>=◌,
}

-- What a policy raises: `UnauthenticatedError`, another `Exception`, or another `BaseException`.
pub data PolicyError : Type 0 where
  unauthenticated : PolicyError
  exception base_exception : String → PolicyError

-- What a policy comes to: a `bool`, or another value with its truth.
pub data Verdict : Type 0 where
  bool other : Bool → Verdict

abbrev pub truth : Verdict → Bool
truth (bool b) = b
truth (other b) = b

-- What a policy returns: a verdict, or an awaitable with its end.
pub data Answer : Type 0 where
  now : Verdict → Answer
  awaitable : Outcome PolicyError Verdict → Answer

abbrev pub Status : Type 0
Status = Outcome {0, 0} PolicyError (Option ℕ)

-- `return await result` of what is not a bool, by `asyncio.run` where no event loop runs.
unfoldable pub run_answer : Answer → Outcome PolicyError Verdict
run_answer (now (bool b)) = returns (bool b)
run_answer (now (other b)) = raises (exception "TypeError")
run_answer (awaitable end) = end

-- `await result if inspect.isawaitable(result) else result`
unfoldable pub await_answer : Answer → Outcome PolicyError Verdict
await_answer (now v) = returns v
await_answer (awaitable end) = end

-- The answer of both evaluations, 401 for `UnauthenticatedError`.
unfoldable pub status_of : Outcome PolicyError Verdict → Status
status_of (returns v) = returns (if truth v then none else some 403)
status_of (raises unauthenticated) = returns (some 401)
status_of (raises x) = raises x

-- `except Exception: return 500`
unfoldable pub or_500 : Status → Status
or_500 (raises unauthenticated) = returns (some 500)
or_500 (raises (exception name)) = returns (some 500)
or_500 status = status

-- `None if allowed is True else 403`
abbrev pub streamed : Verdict → Option ℕ
streamed (bool true) = none
streamed _ = some 403

unfoldable pub streaming_status_of : Outcome PolicyError Verdict → Status
streaming_status_of (returns v) = returns (streamed v)
streaming_status_of (raises unauthenticated) = returns (some 401)
streaming_status_of (raises (exception name)) = returns (some 500)
streaming_status_of (raises (base_exception name)) = raises (base_exception name)

module _ {C : Type 0} where
  unfoldable pub authorization_status : Option (C → Outcome PolicyError Answer) → C → Status
  unfolding status_of
  authorization_status none context = returns none
  authorization_status (some authorize) context = status_of (authorize context >>= run_answer)

  unfoldable pub authorization_status_async : Option (C → Outcome PolicyError Answer) → C → Status
  unfolding status_of
  authorization_status_async none context = returns none
  authorization_status_async (some authorize) context =
      status_of (authorize context >>= await_answer)

  abbrev pub native_authorization_status : Option (C → Outcome PolicyError Answer) → C → Status
  native_authorization_status authorize context = or_500 (authorization_status authorize context)

  abbrev pub native_authorization_status_async :
      Option (C → Outcome PolicyError Answer) → C → Status
  native_authorization_status_async authorize context =
      or_500 (authorization_status_async authorize context)

  -- `_authorization_status` of the streaming routes
  unfoldable pub streaming_authorization_status :
      Option (C → Outcome PolicyError Answer) → C → Status
  unfolding streaming_status_of
  streaming_authorization_status none context = returns none
  streaming_authorization_status (some authorize) context =
      streaming_status_of (authorize context >>= await_answer)
