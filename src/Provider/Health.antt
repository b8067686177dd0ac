-- ===== src/Provider/Health.antt =====
-- internal/provider/health_tracker.go: how often calls of each hypervisor succeed. Latencies are
-- whole milliseconds, as TrackCall measures them, and the average is a quotient, kept as its two
-- numbers. Times are in nanoseconds, and the zero time is `none`. The mutex makes each method one step.
pub mod Tally
use vm_orbit.Base.{
  ℕ, suc, ◌+◌, ◌*◌, String, Bool, Option, none, some, List, map, if◌then◌else◌, or_else, ◌==◌,
  nat_eq, string_eq,
}
use vm_orbit.Base.Map.{Map, lookup, insert, remove}

pub record HealthStats : Type 0 where
  pub total_calls : ℕ
  pub success_calls : ℕ
  pub failure_calls : ℕ
  pub consec_failures : ℕ
  pub last_failure_at : Option ℕ
  pub last_success_at : Option ℕ
  pub avg_latency_ms : ℕ × ℕ
  pub latency_sum : ℕ
  pub latency_count : ℕ

unfoldable pub no_calls : HealthStats
no_calls = record {
  total_calls = 0;
  success_calls = 0;
  failure_calls = 0;
  consec_failures = 0;
  last_failure_at = none;
  last_success_at = none;
  avg_latency_ms = (0, 1);
  latency_sum = 0;
  latency_count = 0;
}

abbrev pub Tracker : Type 0
Tracker = Map String HealthStats

-- The percentage of successful calls, as a quotient.
unfoldable pub success_rate : HealthStats → ℕ × ℕ
success_rate h = if h.total_calls == 0 then (100, 1) else (h.success_calls * 100, h.total_calls)

unfoldable pub get_or_create : String → Tracker → HealthStats
get_or_create id t = or_else (lookup id t) no_calls

-- What RecordSuccess and RecordFailure do to the entry that they get or create.
unfoldable pub count_success : ℕ → ℕ → HealthStats → HealthStats
count_success latency now s =
    let sum = s.latency_sum + latency in
    let count = suc s.latency_count in
    record s {
      total_calls = suc s.total_calls;
      success_calls = suc s.success_calls;
      consec_failures = 0;
      last_success_at = some now;
      latency_sum = sum;
      latency_count = count;
      avg_latency_ms = (sum, count);
    }

unfoldable pub count_failure : ℕ → HealthStats → HealthStats
count_failure now s = record s {
  total_calls = suc s.total_calls;
  failure_calls = suc s.failure_calls;
  consec_failures = suc s.consec_failures;
  last_failure_at = some now;
}

unfoldable pub record_success : String → ℕ → ℕ → Tracker → Tracker
record_success id latency now t = insert id (count_success latency now (get_or_create id t)) t

unfoldable pub record_failure : String → ℕ → Tracker → Tracker
record_failure id now t = insert id (count_failure now (get_or_create id t)) t

unfoldable pub stats : String → Tracker → HealthStats
stats id t = or_else (lookup id t) no_calls

unfoldable pub all_stats : Tracker → List HealthStats
all_stats t = map (λ e. e.1) t

unfoldable pub reset : String → Tracker → Tracker
reset id t = remove id t

-- `ok` is whether the call returned nil, at `now`, after so many milliseconds.
unfoldable pub track_call : String → Bool → ℕ → ℕ → Tracker → Tracker
track_call id ok latency now t =
    if ok then record_success id latency now t else record_failure id now t
