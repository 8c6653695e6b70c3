-- ===== src/Access/Guard.antt =====
-- app/api/guard.ts and lib/api-errors.ts: what a caller may do, and what is answered.
use settlementos.Base.{
  ℕ, Bool, true, false, List, [], ◌∷◌, map, if◌then◌else◌, Option, none, some, Result, ok, err,
  ◌>>=◌,
}
use settlementos.Base.Texts.{String, str_eq}
use Prim.Native.String
use settlementos.Access.Keys.{
  Role, operator, reviewer, entity, Principal, ApiKey, Headers, Platform, authenticate,
  is_platform_role,
}

-- ApiErrorCode.
pub data ApiErrorCode : Type 0 where
  unauthorized forbidden not_found invalid_request conflict : ApiErrorCode
  idempotency_conflict payload_too_large rate_limited execution_failed internal : ApiErrorCode

unfoldable pub status_of : ApiErrorCode → ℕ
status_of unauthorized = 401
status_of forbidden = 403
status_of not_found = 404
status_of invalid_request = 400
status_of conflict = 409
status_of idempotency_conflict = 422
status_of payload_too_large = 413
status_of rate_limited = 429
status_of execution_failed = 500
status_of internal = 500

unfoldable pub canned : ApiErrorCode → String
canned unauthorized = "unauthorized"
canned forbidden = "forbidden"
canned not_found = "not found"
canned invalid_request = "invalid request"
canned conflict = "the request conflicts with the current state of the resource"
canned idempotency_conflict = "this Idempotency-Key was already used for a different request"
canned payload_too_large = "request body is too large"
canned rate_limited = "too many requests"
canned execution_failed = "execution failed"
canned internal = "internal error"

pub record ApiError : Type 0 where
  pub status : ℕ
  pub error_code : ApiErrorCode
  pub message : String

unfoldable pub api_error : ApiErrorCode → Option String → ApiError
api_error code none = record { status = status_of code; error_code = code; message = canned code }
api_error code (some m) = record { status = status_of code; error_code = code; message = m }

-- What was thrown: an ApiError, with its own message, or anything else.
pub data Thrown : Type 0 where
  chosen : ApiErrorCode → String → Thrown
  unknown : String → Thrown

unfoldable pub from_thrown : Thrown → ApiErrorCode → ApiError
from_thrown (chosen code message) fallback = api_error code (some message)
from_thrown (unknown message) fallback = api_error fallback none

unfoldable pub error_response : ApiErrorCode → ApiError
error_response code = api_error code none

unfoldable pub require_principal : Platform → List ApiKey → Headers → Result ApiError Principal
require_principal platform keys headers = elim (authenticate platform keys headers) [
  | none ↦ err (error_response unauthorized)
  | some p ↦ ok p
]

abbrev pub same_role : Role → Role → Bool
same_role operator operator = true
same_role reviewer reviewer = true
same_role entity entity = true
same_role _ _ = false

abbrev pub has_role : Role → List Role → Bool
has_role r [] = false
has_role r (s ∷ roles) = if same_role r s then true else has_role r roles

unfoldable pub require_role :
    Platform → List ApiKey → Headers → List Role → Result ApiError Principal
require_role platform keys headers roles = do
  p ← require_principal platform keys headers
  if has_role p.role roles then ok p else err (error_response forbidden)

abbrev pub role_name : Role → String
role_name operator = "OPERATOR"
role_name reviewer = "REVIEWER"
role_name entity = "ENTITY"

unfoldable pub actor_of : Principal → String
actor_of p = String.◌++◌ p.label (String.◌++◌ " (" (String.◌++◌ (role_name p.role) ")"))

abbrev pub safe_failure_summary : String
safe_failure_summary = "Payment could not be completed. Contact your operator for details."

-- The failure reason of a payment, for a caller.
unfoldable pub scrub_failure_reason : Principal → Option String → Option String
scrub_failure_reason p none = none
scrub_failure_reason p (some reason) =
    if is_platform_role p then some reason else some safe_failure_summary

abbrev pub redacted_audit_detail : String
redacted_audit_detail = "{\"redacted\":true}"

-- The details of audit events, for a caller.
unfoldable pub scrub_audit_detail : Principal → List String → List String
scrub_audit_detail p details =
    if is_platform_role p then details else map (λ d. redacted_audit_detail) details

-- The columns of a payment that say whose it is.
pub record Parties : Type 0 where
  pub sender_id : String
  pub recipient_id : String

abbrev pub acts_as : Option String → String → Bool
acts_as none id = false
acts_as (some e) id = str_eq e id

-- What refuses a write, by the role of the caller.
abbrev pub refused_write : Role → Option String → Parties → Option ApiError
refused_write operator e payment = none
refused_write reviewer e payment = some (error_response forbidden)
refused_write entity e payment =
    if acts_as e payment.sender_id
    then none
    else if acts_as e payment.recipient_id
    then some (error_response forbidden)
    else some (error_response not_found)

-- `none` lets the caller proceed.
unfoldable pub authorize_payment_write : Principal → Parties → Option ApiError
authorize_payment_write p payment = refused_write p.role p.entity_id payment
