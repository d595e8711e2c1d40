-- ===== src/Authorization/Closed.antt =====
-- The evaluations of _run_authorization.py and streaming_authorization.py fail closed.
use azure_functions_langgrap.Base.{
  Bool, true, false, Option, none, some, ◌≡◌, refl, ◌⊎◌, inl, inr, Outcome, returns, raises, ◌>>=◌,
}
use azure_functions_langgrap.Authorization.{
  PolicyError, unauthenticated, exception, base_exception, Verdict, bool, other, truth, Answer, now,
  awaitable, Status, run_answer, await_answer, status_of, or_500, streaming_status_of,
  authorization_status, authorization_status_async, native_authorization_status,
  native_authorization_status_async, streaming_authorization_status,
}

abbrev is_exception : PolicyError → Bool
is_exception (base_exception name) = false
is_exception _ = true

-- A true verdict.
abbrev Approves : Outcome PolicyError Verdict → Type 0
Approves end = (v : Verdict) × (end ≡ returns v) × (truth v ≡ true)

-- A status that lets pass only what `P` says, refuses with 401, 403 or 500, and else passes on no
-- `Exception`.
abbrev pub IsClosed : Type 0 → Status → Type 0
IsClosed P (returns none) = P
IsClosed P (returns (some code)) = (code ≡ 401) ⊎ ((code ≡ 403) ⊎ (code ≡ 500))
IsClosed P (raises x) = is_exception x ≡ false

native-IsClosed :
    (end : Outcome PolicyError Verdict) → IsClosed (Approves end) (or_500 (status_of end))
unfolding status_of or_500
native-IsClosed (returns (bool true)) = (bool true, refl, refl)
native-IsClosed (returns (bool false)) = inr (inl refl)
native-IsClosed (returns (other true)) = (other true, refl, refl)
native-IsClosed (returns (other false)) = inr (inl refl)
native-IsClosed (raises unauthenticated) = inl refl
native-IsClosed (raises (exception name)) = inr (inr refl)
native-IsClosed (raises (base_exception name)) = refl

streaming-IsClosed :
    (end : Outcome PolicyError Verdict) → IsClosed (Approves end) (streaming_status_of end)
unfolding streaming_status_of
streaming-IsClosed (returns (bool true)) = (bool true, refl, refl)
streaming-IsClosed (returns (bool false)) = inr (inl refl)
streaming-IsClosed (returns (other b)) = inr (inl refl)
streaming-IsClosed (raises unauthenticated) = inl refl
streaming-IsClosed (raises (exception name)) = inr (inr refl)
streaming-IsClosed (raises (base_exception name)) = refl

run-IsClosed :
    (answer : Outcome PolicyError Answer)
    → IsClosed (Approves (answer >>= await_answer)) (or_500 (status_of (answer >>= run_answer)))
unfolding run_answer await_answer status_of or_500
run-IsClosed (raises x) = native-IsClosed (raises x)
run-IsClosed (returns (now (bool b))) = native-IsClosed (returns (bool b))
run-IsClosed (returns (now (other b))) = inr (inr refl)
run-IsClosed (returns (awaitable end)) = native-IsClosed end

module _ {C : Type 0} where
  -- There is no policy, or it came to a true verdict on the context.
  abbrev pub IsApproved : Option (C → Outcome PolicyError Answer) → C → Type 0
  IsApproved none context = Unit {0}
  IsApproved (some authorize) context = Approves (authorize context >>= await_answer)

  -- On the native routes, synchronous or asynchronous, and on the streaming routes, a request
  -- passes only if there is no policy or the policy came to a true verdict. Whatever else the
  -- policy returns or raises, short of a `BaseException` that is no `Exception`, is answered with
  -- 401, 403 or 500.
  pub authorization-IsClosed :
      (authorize : Option (C → Outcome PolicyError Answer)) (context : C)
      → IsClosed (IsApproved authorize context) (native_authorization_status authorize context)
        × IsClosed
            (IsApproved authorize context)
            (native_authorization_status_async authorize context)
        × IsClosed (IsApproved authorize context) (streaming_authorization_status authorize context)
  unfolding or_500 authorization_status authorization_status_async streaming_authorization_status
  authorization-IsClosed none context = (tt, tt, tt)
  authorization-IsClosed (some authorize) context = (
    run-IsClosed (authorize context),
    native-IsClosed (authorize context >>= await_answer),
    streaming-IsClosed (authorize context >>= await_answer),
  )
