-- ===== src/Provider/Score.antt =====
-- internal/service/provider_health_service.go: the health snapshot of a hypervisor's provider, its
-- score and its status. Latencies are float64 and a parameter: an interface with their average and
-- comparisons. The failure rate is compared as the fraction that it stands for, which the rounding of
-- float64 does not change below 2 ^ 50 tasks. Times are in nanoseconds. The status of the last
-- synchronisation and the age of the inventory in minutes, which no test reads, are left out.
pub mod Snapshots
use vm_orbit.Base.{
  ℕ, zero, suc, ◌+◌, ◌-◌, ◌*◌, Bool, true, false, Option, none, some, List, [], ◌∷◌, ltb, leb,
  if◌then◌else◌, ◌==◌, nat_eq, string_eq,
}

pub data HealthStatus : Type 0 where
  healthy degraded unhealthy : HealthStatus

-- `mix old new` is 0.7*old + 0.3*new.
pub record Latencies : Type 1 where
  pub Latency : Type 0
  pub zero : Latency
  pub is_zero : Latency → Bool
  pub mix : Latency → Latency → Latency
  pub exceeds : Latency → Latency → Bool
  pub exceeds_ms : Latency → ℕ → Bool

pub record ProviderHealth (L : Latencies) : Type 0 where
  pub online : Bool
  pub status : HealthStatus
  pub last_seen_at : Option ℕ
  pub last_check_at : ℕ
  pub consecutive_fails : ℕ
  pub latency : L.Latency
  pub avg_latency : L.Latency
  pub peak_latency : L.Latency
  pub last_sync_at : Option ℕ
  pub sync_failures_24h : ℕ
  pub vm_count : ℕ
  pub tasks_total_24h : ℕ
  pub tasks_failed_24h : ℕ
  pub auth_failures_24h : ℕ
  pub inventory_stale : Bool
  pub health_score : ℕ

abbrev pub minutes : ℕ
minutes = 60000000000

-- staleInventoryThreshold.
abbrev pub stale_inventory_threshold : ℕ
stale_inventory_threshold = 120 * minutes

module _ (L : Latencies) where
  unfoldable pub offline_penalty : ProviderHealth L → ℕ
  offline_penalty s = if s.online then 0 else if leb 3 s.consecutive_fails then 60 else 40

  unfoldable pub latency_penalty : ProviderHealth L → ℕ
  latency_penalty s =
      if L.exceeds_ms s.avg_latency 1000
      then 20
      else if L.exceeds_ms s.avg_latency 500
      then 10
      else 0

  unfoldable pub task_penalty : ProviderHealth L → ℕ
  task_penalty s =
      if s.tasks_total_24h == 0
      then 0
      else if ltb s.tasks_total_24h (2 * s.tasks_failed_24h)
      then 20
      else if ltb s.tasks_total_24h (5 * s.tasks_failed_24h)
      then 10
      else 0

  unfoldable pub stale_penalty : ProviderHealth L → ℕ
  stale_penalty s = if s.inventory_stale then 10 else 0

  unfoldable pub auth_penalty : ProviderHealth L → ℕ
  auth_penalty s =
      if ltb 10 s.auth_failures_24h then 10 else if ltb 3 s.auth_failures_24h then 5 else 0

  -- Subtraction stops at 0, as the last test of the function makes it.
  unfoldable pub compute_health_score : ProviderHealth L → ℕ
  compute_health_score s =
      100
      - (offline_penalty s + latency_penalty s + task_penalty s + stale_penalty s + auth_penalty s)

  unfoldable pub score_to_status : ℕ → HealthStatus
  score_to_status score =
      if leb 80 score then healthy else if leb 50 score then degraded else unhealthy

  -- The fields that an earlier snapshot hands on; the others start from their zero values.
  unfoldable pub carried : ℕ → Option (ProviderHealth L) → ProviderHealth L
  carried now none = record {
    online = false;
    status = healthy;
    last_seen_at = none;
    last_check_at = now;
    consecutive_fails = 0;
    latency = L.zero;
    avg_latency = L.zero;
    peak_latency = L.zero;
    last_sync_at = none;
    sync_failures_24h = 0;
    vm_count = 0;
    tasks_total_24h = 0;
    tasks_failed_24h = 0;
    auth_failures_24h = 0;
    inventory_stale = false;
    health_score = 0;
  }
  carried now (some old) = record {
    online = false;
    status = healthy;
    last_seen_at = none;
    last_check_at = now;
    consecutive_fails = old.consecutive_fails;
    latency = L.zero;
    avg_latency = old.avg_latency;
    peak_latency = old.peak_latency;
    last_sync_at = old.last_sync_at;
    sync_failures_24h = old.sync_failures_24h;
    vm_count = old.vm_count;
    tasks_total_24h = 0;
    tasks_failed_24h = 0;
    auth_failures_24h = old.auth_failures_24h;
    inventory_stale = false;
    health_score = 0;
  }

  -- After the connection: its latency, or none when the provider is not registered or refuses.
  unfoldable pub pinged : ℕ → Option L.Latency → ProviderHealth L → ProviderHealth L
  pinged now none s = record s { online = false; consecutive_fails = suc s.consecutive_fails }
  pinged now (some l) s = record s {
    online = true;
    latency = l;
    last_seen_at = some now;
    consecutive_fails = 0;
    avg_latency = if L.is_zero s.avg_latency then l else L.mix s.avg_latency l;
    peak_latency = if L.exceeds l s.peak_latency then l else s.peak_latency;
  }

  -- A time that lies ahead is not stale: the age is negative.
  unfoldable pub is_stale : ℕ → Option ℕ → Bool
  is_stale now none = true
  is_stale now (some last) = ltb (last + stale_inventory_threshold) now

  unfoldable pub scored : ProviderHealth L → ProviderHealth L
  scored s = record s {
    health_score = compute_health_score s;
    status = score_to_status (compute_health_score s);
  }

  -- `total` and `failed_tasks` are what the audit log counts, 0 where a query fails.
  unfoldable pub build_snapshot :
      ℕ → Option (ProviderHealth L) → Option L.Latency → ℕ → ℕ → ℕ → ProviderHealth L
  build_snapshot now existing connection total failed_tasks auth_failures =
      let s = pinged now connection (carried now existing) in
      scored (record s {
        tasks_total_24h = total;
        tasks_failed_24h = failed_tasks;
        auth_failures_24h = auth_failures;
        inventory_stale = is_stale now s.last_sync_at;
      })

  -- What a check reads: whether the hypervisor is found, the stored snapshot can be read and the new
  -- one written, the time, the connection, and what the audit log counts.
  pub record Check : Type 0 where
    pub found : Bool
    pub reads : Bool
    pub writes : Bool
    pub now : ℕ
    pub connection : Option L.Latency
    pub total : ℕ
    pub failed_tasks : ℕ
    pub auth_failures : ℕ

  -- RunCheck: the snapshot that it returns, `none` for an error, and the stored one after it. An error
  -- of the read counts as no snapshot, and one of the write is logged.
  unfoldable pub run_check :
      Check → Option (ProviderHealth L) → Option (ProviderHealth L) × Option (ProviderHealth L)
  run_check c stored =
      let snap =
        build_snapshot c.now (if c.reads then stored else none) c.connection c.total c.failed_tasks
          c.auth_failures in
      if c.found then (some snap, if c.writes then some snap else stored) else (none, stored)

  -- Checks in turn, from the stored snapshot.
  unfoldable pub run_checks : List Check → Option (ProviderHealth L) → Option (ProviderHealth L)
  run_checks [] stored = stored
  run_checks (c ∷ checks) stored = run_checks checks (run_check c stored).1
