-- ===== src/Authorization/Tests.antt =====
-- A policy that answers 1, which is true but no `bool`.
use azure_functions_langgrap.Base.{true, some, Outcome, returns}
use azure_functions_langgrap.Authorization.{
  PolicyError, Answer, now, other, native_authorization_status, native_authorization_status_async,
  streaming_authorization_status,
}
use azure_functions_langgrap.Authorization.Closed.{IsApproved, IsClosed, authorization-IsClosed}

abbrev one : Unit {0} → Outcome PolicyError Answer
one context = returns (now (other true))

authorization-IsClosed_example :
    IsClosed (IsApproved (some one) tt) (native_authorization_status (some one) tt)
    × IsClosed (IsApproved (some one) tt) (native_authorization_status_async (some one) tt)
    × IsClosed (IsApproved (some one) tt) (streaming_authorization_status (some one) tt)
authorization-IsClosed_example = authorization-IsClosed (some one) tt
