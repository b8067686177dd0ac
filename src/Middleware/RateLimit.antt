-- ===== src/Middleware/RateLimit.antt =====
-- internal/api/middleware/ratelimit.go, the in-memory limiter and the four middlewares that use it.
-- Time is a number of nanoseconds, handed to each call. A limit below 0 acts as 0 in every test
-- of the source, so limits are natural numbers. The mutex makes each call one step.
pub mod Window
mod Examples
use Prim.Native.String.{◌++◌}
use vm_orbit.Base.{
  ℕ, ◌+◌, ◌-◌, ◌*◌, ◌/◌, String, Bool, not, Option, none, some, ltb, leb, if◌then◌else◌, ◌==◌,
  string_eq,
}
use vm_orbit.Base.Map.{Map, lookup, insert, keep}

abbrev pub second : ℕ
second = 1000000000

abbrev pub minute : ℕ
minute = 60 * second

pub record MemBucket : Type 0 where
  pub count : ℕ
  pub reset_at : ℕ

abbrev pub MemRateLimiter : Type 0
MemRateLimiter = Map String MemBucket

-- `!now.After(b.resetAt)`
abbrev pub is_live : ℕ → MemBucket → Bool
is_live now b = not (ltb b.reset_at now)

pub cleanup : ℕ → MemRateLimiter → MemRateLimiter
unfolding keep
cleanup now m = keep (is_live now) m

pub record Verdict : Type 0 where
  pub allowed : Bool
  pub count : ℕ
  pub reset_at : ℕ

-- The bucket that a request counts in: a missing or an expired one is opened anew.
abbrev pub current_bucket : ℕ → ℕ → Option MemBucket → MemBucket
current_bucket window now none = record { count = 0; reset_at = now + window }
current_bucket window now (some b) =
    if is_live now b then b else record { count = 0; reset_at = now + window }

pub allow : String → ℕ → ℕ → ℕ → MemRateLimiter → MemRateLimiter × Verdict
allow key limit window now m =
    let b = current_bucket window now (lookup key m) in
    let counted : MemBucket = record { count = b.count + 1; reset_at = b.reset_at } in
    (
      insert key counted m,
      record {
        allowed = leb counted.count limit;
        count = counted.count;
        reset_at = counted.reset_at;
      },
    )

-- What a middleware does with the request: hand it on with no header written, hand it on with
-- the three X-RateLimit headers, or abort with 429, the headers and the seconds to wait.
pub data Outcome : Type 0 where
  passed : Outcome
  limited_next : (limit remaining reset : ℕ) → Outcome
  too_many_requests : (limit remaining reset retry_after : ℕ) → Outcome

abbrev pub answer : ℕ → ℕ → Verdict → Outcome
answer rpm now v =
    if v.allowed
    then limited_next rpm (rpm - v.count) (v.reset_at / second)
    else too_many_requests rpm (rpm - v.count) (v.reset_at / second)
        ((v.reset_at - now) / second + 1)

pub global_rate_limit : ℕ → ℕ → MemRateLimiter → MemRateLimiter × Outcome
unfolding allow
global_rate_limit rpm now m =
    let (m', v) = allow "global" rpm minute now m in (m', answer rpm now v)

pub ip_rate_limit : ℕ → String → ℕ → MemRateLimiter → MemRateLimiter × Outcome
unfolding allow
ip_rate_limit rpm ip now m =
    let (m', v) = allow ("ip:" ++ ip) rpm minute now m in (m', answer rpm now v)

-- An empty user id is a request that is not authenticated.
pub user_rate_limit : ℕ → String → ℕ → MemRateLimiter → MemRateLimiter × Outcome
unfolding allow
user_rate_limit rpm user_id now m =
    let (m', v) = allow ("user:" ++ user_id) rpm minute now m in
    if user_id == "" then (m, passed) else (m', answer rpm now v)

pub provider_rate_limit : ℕ → String → ℕ → MemRateLimiter → MemRateLimiter × Outcome
unfolding allow
provider_rate_limit rpm hypervisor_id now m =
    let (m', v) = allow ("provider:" ++ hypervisor_id) rpm minute now m in
    if hypervisor_id == "" then (m, passed) else (m', answer rpm now v)

-- What the limiter goes through: requests of any keys, and sweeps by the ticker.
pub data Event : Type 0 where
  request : String → ℕ → Event
  sweep : ℕ → Event

abbrev pub time_of : Event → ℕ
time_of (request key now) = now
time_of (sweep now) = now

pub step : ℕ → ℕ → Event → MemRateLimiter → MemRateLimiter
unfolding allow cleanup
step limit window (request key now) m = (allow key limit window now m).0
step limit window (sweep now) m = cleanup now m
