-- ===== src/Provider/Errors/Status.antt =====
-- The status of an error, in terms of what it wraps.
use vm_orbit.Base.{String, ◌≡◌, refl, ◌∙◌, Bool, true, false, List, [], ◌∷◌, if◌then◌else◌}
use vm_orbit.Provider.Errors.{
  Sentinel, not_connected, not_found, unsupported, auth_failed, timeout, invalid_state,
  quota_exceeded, conflict, ErrorCode, code_not_connected, code_not_found, code_unsupported,
  code_auth_failed, code_timeout, code_invalid_state, code_quota_exceeded, code_conflict, Details,
  Error, sentinel, context, new, wrap, is_error, as_provider_error, http_status, http_status_for,
}

-- An error under any number of messages.
unfoldable pub contexts : List String → Error → Error
contexts [] e = e
contexts (m ∷ ms) e = context m (contexts ms e)

-- The code that stands for a sentinel.
abbrev pub code_of : Sentinel → ErrorCode
code_of not_connected = code_not_connected
code_of not_found = code_not_found
code_of unsupported = code_unsupported
code_of auth_failed = code_auth_failed
code_of timeout = code_timeout
code_of invalid_state = code_invalid_state
code_of quota_exceeded = code_quota_exceeded
code_of conflict = code_conflict

contexts-http_status_for :
    (ms : List String) (e : Error) → http_status_for (contexts ms e) ≡ http_status_for e
unfolding contexts http_status_for is_error as_provider_error
contexts-http_status_for [] e = refl
contexts-http_status_for (m ∷ ms) e = contexts-http_status_for ms e

abbrev pub is_quota_exceeded : Sentinel → Bool
is_quota_exceeded quota_exceeded = true
is_quota_exceeded _ = false

sentinel_status :
    (s : Sentinel)
    → http_status_for (sentinel s) ≡ (if is_quota_exceeded s then 500 else http_status (code_of s))
unfolding http_status_for is_error as_provider_error http_status
sentinel_status not_connected = refl
sentinel_status not_found = refl
sentinel_status unsupported = refl
sentinel_status auth_failed = refl
sentinel_status timeout = refl
sentinel_status invalid_state = refl
sentinel_status quota_exceeded = refl
sentinel_status conflict = refl

-- Under any messages, a structured error has the status of its own code, whatever it wraps, and a
-- sentinel that of the code which stands for it, except that an exceeded quota, whose code is
-- answered with 402, is answered with 500.
http_status_for-contexts :
    (ms : List String) (d : Details) (cause : Error) (s : Sentinel)
    → (http_status_for (contexts ms (wrap d cause)) ≡ http_status d.code)
      × (http_status_for (contexts ms (new d)) ≡ http_status d.code)
      × (http_status_for (contexts ms (sentinel s))
          ≡ (if is_quota_exceeded s then 500 else http_status (code_of s)))
      × (http_status (code_of quota_exceeded) ≡ 402)
unfolding http_status_for is_error as_provider_error http_status
http_status_for-contexts ms d cause s = (
  contexts-http_status_for ms (wrap d cause),
  contexts-http_status_for ms (new d),
  contexts-http_status_for ms (sentinel s) ∙ sentinel_status s,
  refl,
)
