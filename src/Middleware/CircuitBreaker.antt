-- ===== src/Middleware/CircuitBreaker.antt =====
-- internal/api/middleware/ratelimit.go, the circuit breaker, the registry of breakers by
-- hypervisor and the middleware that asks them. Time is a number of nanoseconds; the zero
-- `time.Time` of a breaker that has not failed is 0. The mutex makes each method one step.
pub mod Safety
mod Examples
use vm_orbit.Base.{
  ℕ, ◌+◌, String, Bool, true, false, none, some, List, [], ◌∷◌, ltb, leb, if◌then◌else◌, ◌==◌,
  string_eq,
}
use vm_orbit.Base.Map.{Map, lookup, insert}

pub data CircuitState : Type 0 where
  closed open_ half_open : CircuitState

pub record CircuitBreaker : Type 0 where
  pub state : CircuitState
  pub failures : ℕ
  pub last_failure : ℕ
  pub max_failures : ℕ
  pub reset_timeout : ℕ

pub new_circuit_breaker : ℕ → ℕ → CircuitBreaker
new_circuit_breaker max_failures reset_timeout = record {
  state = closed;
  failures = 0;
  last_failure = 0;
  max_failures = max_failures;
  reset_timeout = reset_timeout;
}

-- `time.Since(cb.lastFailure) > cb.resetTimeout`
abbrev pub has_rested : CircuitBreaker → ℕ → Bool
has_rested cb now = ltb (cb.last_failure + cb.reset_timeout) now

allow_in : CircuitState → CircuitBreaker → ℕ → CircuitBreaker × Bool
allow_in closed cb now = (cb, true)
allow_in open_ cb now =
    if has_rested cb now then (record cb { state = half_open }, true) else (cb, false)
allow_in half_open cb now = (cb, true)

pub allow : CircuitBreaker → ℕ → CircuitBreaker × Bool
unfolding allow_in
allow cb now = allow_in cb.state cb now

pub record_success : CircuitBreaker → CircuitBreaker
record_success cb = record cb { failures = 0; state = closed }

pub record_failure : CircuitBreaker → ℕ → CircuitBreaker
record_failure cb now =
    let failed = record cb { failures = cb.failures + 1; last_failure = now } in
    if leb cb.max_failures (cb.failures + 1) then record failed { state = open_ } else failed

-- The registry: one breaker for each hypervisor, made on first use.
abbrev pub Breakers : Type 0
Breakers = Map String CircuitBreaker

abbrev pub default_breaker : CircuitBreaker
default_breaker = record {
  state = closed;
  failures = 0;
  last_failure = 0;
  max_failures = 5;
  reset_timeout = 60000000000;
}

pub get_circuit_breaker : String → Breakers → Breakers × CircuitBreaker
get_circuit_breaker id m = elim (lookup id m) [
  | some cb ↦ (m, cb)
  | none ↦ (insert id default_breaker m, default_breaker)
]

pub data Outcome : Type 0 where
  next : Outcome
  service_unavailable : (retry_after : ℕ) → Outcome

-- The breaker is a pointer: what `Allow` changes, the registry sees.
pub provider_circuit_breaker : String → ℕ → Breakers → Breakers × Outcome
unfolding get_circuit_breaker allow
provider_circuit_breaker id now m =
    let (m', cb) = get_circuit_breaker id m in
    let (cb', ok) = allow cb now in
    if id == "" then (m, next) else (insert id cb' m', if ok then next else service_unavailable 60)

-- The calls that reach one breaker.
pub data Call : Type 0 where
  asks succeeds fails : ℕ → Call

pub step : CircuitBreaker → Call → CircuitBreaker
unfolding allow record_success record_failure
step cb (asks now) = (allow cb now).0
step cb (succeeds now) = record_success cb
step cb (fails now) = record_failure cb now

pub run : CircuitBreaker → List Call → CircuitBreaker
run cb [] = cb
run cb (c ∷ cs) = run (step cb c) cs
