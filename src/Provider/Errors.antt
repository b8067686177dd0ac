-- ===== src/Provider/Errors.antt =====
-- internal/provider/errors.go: sentinel errors, structured errors, and their HTTP status. A chain of
-- errors is what Unwrap walks; errors.Is and errors.As of Go's library look through it from the
-- outside in.
pub mod Status
use vm_orbit.Base.{ℕ, String, Bool, true, false, Option, none, some, if◌then◌else◌}

pub data Sentinel : Type 0 where
  not_connected not_found unsupported auth_failed timeout invalid_state quota_exceeded conflict :
      Sentinel

pub data ErrorCode : Type 0 where
  code_not_connected code_not_found code_unsupported code_auth_failed code_timeout : ErrorCode
  code_invalid_state code_quota_exceeded code_conflict code_internal : ErrorCode

-- A ProviderError's fields, less its cause.
pub record Details : Type 0 where
  pub code : ErrorCode
  pub provider : String
  pub operation : String
  pub message : String

-- `new` and `wrap` are a ProviderError without and with a cause; `context` is fmt.Errorf with %w.
pub data Error : Type 0 where
  sentinel : Sentinel → Error
  other : String → Error
  context : String → Error → Error
  new : Details → Error
  wrap : Details → Error → Error

unfoldable pub unwrap : Error → Option Error
unwrap (sentinel s) = none
unwrap (other m) = none
unwrap (context m e) = some e
unwrap (new d) = none
unwrap (wrap d e) = some e

sentinel_beq : Sentinel → Sentinel → Bool
sentinel_beq not_connected not_connected = true
sentinel_beq not_found not_found = true
sentinel_beq unsupported unsupported = true
sentinel_beq auth_failed auth_failed = true
sentinel_beq timeout timeout = true
sentinel_beq invalid_state invalid_state = true
sentinel_beq quota_exceeded quota_exceeded = true
sentinel_beq conflict conflict = true
sentinel_beq _ _ = false

-- errors.Is(err, target) for a sentinel.
unfoldable pub is_error : Sentinel → Error → Bool
unfolding sentinel_beq
is_error t (sentinel s) = sentinel_beq s t
is_error t (other m) = false
is_error t (context m e) = is_error t e
is_error t (new d) = false
is_error t (wrap d e) = is_error t e

-- errors.As(err, &pe)
unfoldable pub as_provider_error : Error → Option Details
as_provider_error (sentinel s) = none
as_provider_error (other m) = none
as_provider_error (context m e) = as_provider_error e
as_provider_error (new d) = some d
as_provider_error (wrap d e) = some d

unfoldable pub http_status : ErrorCode → ℕ
http_status code_not_found = 404
http_status code_auth_failed = 401
http_status code_unsupported = 501
http_status code_conflict = 409
http_status code_invalid_state = 422
http_status code_quota_exceeded = 402
http_status code_timeout = 504
http_status code_not_connected = 503
http_status code_internal = 500

unfoldable pub http_status_for : Error → ℕ
http_status_for err = elim (as_provider_error err) [
  | some d ↦ http_status d.code
  | none ↦
      if is_error not_found err
      then 404
      else if is_error auth_failed err
      then 401
      else if is_error unsupported err
      then 501
      else if is_error timeout err
      then 504
      else if is_error not_connected err
      then 503
      else if is_error invalid_state err
      then 422
      else if is_error conflict err
      then 409
      else 500
]
