-- ===== src/Locks/AzureBlob/Errors.antt =====
-- The exceptions of the Azure SDK, as far as locks/azure_blob.py looks at them.
use Prim.Native.Char.{code}
use Prim.Native.Nat.{ℕ, ◌+◌}
use mathlib.Core.Bool.{◌||◌}
use azure_functions_langgrap.Base.{
  String, Bool, true, false, ◌&&◌, Option, none, some, List, [], ◌∷◌, ◌==◌, nat_eq, leb,
  if◌then◌else◌, map, Outcome, returns, raises,
}

-- `ResourceExistsError` is a subclass of `HttpResponseError`.
pub data ErrorKind : Type 0 where
  resource_exists http_response other : ErrorKind

-- `getattr(exc, "error_code", None)` where it is a `str`, and `status_code`.
pub record ServiceError : Type 0 where
  pub kind : ErrorKind
  pub error_code : Option String
  pub status_code : Option ℕ

-- The code points of a text.
abbrev pub codes : String → List ℕ
codes String.[] = []
codes (String.◌∷◌ c s) = code c ∷ codes s

-- `str.lower` on the letters A to Z. No other character lowers to a letter of the codes below.
abbrev pub lower_code : ℕ → ℕ
lower_code c = if leb 65 c && leb c 90 then c + 32 else c

abbrev pub lower : String → List ℕ
lower s = map lower_code (codes s)

abbrev pub same_codes : List ℕ → List ℕ → Bool
same_codes [] [] = true
same_codes [] (y ∷ ys) = false
same_codes (x ∷ xs) [] = false
same_codes (x ∷ xs) (y ∷ ys) = x == y && same_codes xs ys

abbrev pub starts_with : List ℕ → List ℕ → Bool
starts_with xs [] = true
starts_with [] (y ∷ ys) = false
starts_with (x ∷ xs) (y ∷ ys) = x == y && starts_with xs ys

abbrev status_is : Option ℕ → ℕ → Bool
status_is none n = false
status_is (some s) n = s == n

abbrev lease_code : Option String → Bool
lease_code none = false
lease_code (some c) = starts_with (lower c) (codes "lease")

-- `_DEFINITIVE_LEASE_LOSS_ERROR_CODES`
abbrev definitive_code : Option String → Bool
definitive_code none = false
definitive_code (some c) =
    same_codes (lower c) (lower "LeaseLost")
    || (same_codes (lower c) (lower "LeaseIdMismatchWithLeaseOperation")
        || (same_codes (lower c) (lower "LeaseNotPresentWithLeaseOperation")
            || same_codes (lower c) (lower "LeaseIdMissing")))

-- `_is_lease_conflict`
unfoldable pub is_lease_conflict : ServiceError → Bool
is_lease_conflict exc = lease_code exc.error_code || status_is exc.status_code 409

-- `_is_definitive_lease_loss`
unfoldable pub is_definitive_lease_loss : ServiceError → Bool
is_definitive_lease_loss exc = definitive_code exc.error_code || status_is exc.status_code 412

-- `isinstance(exc, HttpResponseError)`
abbrev pub is_http_response : ErrorKind → Bool
is_http_response other = false
is_http_response _ = true

http_error : ServiceError → Outcome ServiceError (Unit {0})
http_error exc = if is_lease_conflict exc then returns tt else raises exc

marker_error : ErrorKind → ServiceError → Outcome ServiceError (Unit {0})
unfolding http_error
marker_error resource_exists exc = returns tt
marker_error http_response exc = http_error exc
marker_error other exc = raises exc

-- `_ensure_marker`, given what the conditional upload raises.
unfoldable pub ensure_marker : Option ServiceError → Outcome ServiceError (Unit {0})
unfolding marker_error
ensure_marker none = returns tt
ensure_marker (some exc) = marker_error exc.kind exc
