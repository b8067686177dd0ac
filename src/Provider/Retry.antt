-- ===== src/Provider/Retry.antt =====
-- internal/provider/vmware/retry.go: calls of a provider's API that are repeated after an error. The
-- copies in internal/provider/nutanix and internal/provider/proxmox have the same loop. Durations are
-- in nanoseconds. What each call answers, and when the
-- context ends, is an argument.
pub mod Calls
use vm_orbit.Base.{
  ℕ, zero, suc, ◌-◌, ◌*◌, ◌^◌, String, Bool, true, false, not, ◌||◌, Option, none, some, List, [],
  ◌∷◌, ltb, if◌then◌else◌, ◌==◌, nat_eq, string_eq, any, ℤ, pos, negsuc, pos_part, ltb_ℤ,
}

-- strings.ToLower and strings.Contains.
module _ (to_lower : String → String) (contains : String → String → Bool) where
  unfoldable pub is_auth_error : String → Bool
  is_auth_error err = any (contains (to_lower err)) (
      "invalid login" ∷ "authentication" ∷ "permission denied" ∷ "not authenticated"
      ∷ "cannot complete login" ∷ "incorrect user" ∷ [])

  unfoldable pub is_retryable_connect_error : String → Bool
  is_retryable_connect_error err =
      if is_auth_error err
      then false
      else any (contains (to_lower err)) (
          "connection refused" ∷ "connection reset" ∷ "timeout" ∷ "temporary failure"
          ∷ "no such host" ∷ "eof" ∷ "broken pipe" ∷ "i/o timeout" ∷ "network is unreachable" ∷ [])

  unfoldable pub is_retryable_operation_error : String → Bool
  is_retryable_operation_error err = any (contains (to_lower err)) (
      "resource in use" ∷ "task in progress" ∷ "concurrent access" ∷ "locked" ∷ "busy" ∷ "timeout"
      ∷ [])

-- `should_retry` of none retries every error.
pub record RetryConfig : Type 0 where
  pub max_attempts : ℤ
  pub base_delay : ℕ
  pub max_delay : ℕ
  pub should_retry : Option (String → Bool)

abbrev pub second : ℕ
second = 1000000000

abbrev pub or_default : ℕ → ℕ → ℕ
or_default n d = if n == 0 then d else n

unfoldable pub attempts_of : ℤ → ℕ
attempts_of (negsuc _) = 1
attempts_of (pos zero) = 1
attempts_of (pos (suc n)) = suc n

-- delay = min(maxDelay, baseDelay * 2^(n-1)). The product is a float64, exact for a base below
-- 2 ^ 53; `out_of_range` is what the platform converts one from 2 ^ 63 on to. A negative pause is none.
unfoldable pub backoff_delay : ℤ → ℕ → ℕ → ℕ → ℕ
backoff_delay out_of_range base max attempt =
    let d = base * 2 ^ (attempt - 1) in
    if ltb d 9223372036854775808
    then if ltb max d then max else d
    else if ltb_ℤ (pos max) out_of_range
    then max
    else pos_part out_of_range

-- A call's error, and the context's error if it has ended after the call, or during the pause.
pub data Call : Type 0 where
  call : Option String → Option String → Option String → Call

-- How many calls were made, the pauses that were waited out, and the error that is returned.
pub record Retried : Type 0 where
  pub calls : ℕ
  pub pauses : List ℕ
  pub error : Option String

abbrev pub last_call : Option String → Retried
last_call e = record { calls = 1; pauses = []; error = e }

abbrev pub after_pause : ℕ → Retried → Retried
after_pause d r = record { calls = suc r.calls; pauses = d ∷ r.pauses; error = r.error }

abbrev pub accepts : Option (String → Bool) → String → Bool
accepts none e = true
accepts (some test) e = test e

module _ (out_of_range : ℤ) (cfg : RetryConfig) (answer : ℕ → Call) where
  abbrev pub pause_of : ℕ → ℕ
  pause_of attempt =
      backoff_delay out_of_range (or_default cfg.base_delay second)
        (or_default cfg.max_delay (30 * second)) attempt

  -- After a failed call that the context outlived: `again` is the rest of the loop.
  unfoldable pub decide : Bool → ℕ → String → Option String → Retried → Retried
  decide is_last attempt e in_pause again =
      if is_last || not (accepts cfg.should_retry e) then last_call (some e) else elim in_pause [
        | some ctx ↦ last_call (some ctx)
        | none ↦ after_pause (pause_of attempt) again
      ]

  unfoldable pub after_call : Bool → ℕ → Call → Retried → Retried
  after_call is_last attempt (call none c p) again = last_call none
  after_call is_last attempt (call (some e) (some ctx) p) again = last_call (some ctx)
  after_call is_last attempt (call (some e) none p) again = decide is_last attempt e p again

  -- `left` attempts follow the one with the number `attempt`.
  unfoldable pub attempts_from : ℕ → ℕ → Retried
  attempts_from zero attempt = after_call true attempt (answer attempt) (last_call none)
  attempts_from (suc left) attempt =
      after_call false attempt (answer attempt) (attempts_from left (suc attempt))

  unfoldable pub with_retry : Retried
  with_retry = attempts_from (attempts_of cfg.max_attempts - 1) 1

-- withOperationRetry: three attempts from one second on.
unfoldable pub with_operation_retry :
    ℤ → (String → String) → (String → String → Bool) → (ℕ → Call) → Retried
with_operation_retry out_of_range to_lower contains answer =
    with_retry out_of_range
      (record {
        max_attempts = pos 3;
        base_delay = 1 * second;
        max_delay = 10 * second;
        should_retry = some (is_retryable_operation_error to_lower contains);
      })
      answer
