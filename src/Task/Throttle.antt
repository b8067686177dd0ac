-- ===== src/Task/Throttle.antt =====
-- internal/task/throttle.go: the concurrency limit per hypervisor, the window against duplicates,
-- and the guard on the length of the queue. Each structure's mutex makes an operation one step.
pub mod Slots
pub mod Window
use vm_orbit.Base.{
  ℕ, suc, ◌-◌, String, Bool, true, false, not, Option, none, some, [], ltb, if◌then◌else◌, or_else,
  ◌==◌, nat_eq, string_eq,
}
use vm_orbit.Base.Map.{Map, lookup, insert, remove, keep}
use vm_orbit.Task.Model.{TaskType, type_name}
use Prim.Native.String.{◌++◌}

-- providerSemaphore: how many elements each hypervisor's channel holds.
pub record ProviderSemaphore : Type 0 where
  pub sems : Map ℕ ℕ
  pub max : ℕ

unfoldable pub new_provider_semaphore : ℕ → ProviderSemaphore
new_provider_semaphore max_concurrent = record { sems = []; max = max_concurrent }

-- The elements of a hypervisor's channel, which is made when it is missing.
unfoldable pub sem : ℕ → ProviderSemaphore → ProviderSemaphore × ℕ
sem id ps = elim (lookup id ps.sems) [
  | none ↦ (record ps { sems = insert id 0 ps.sems }, 0)
  | some used ↦ (ps, used)
]

-- `none`: no hypervisor, and so no slot to take. The Boolean is whether a slot was granted.
unfoldable pub try_acquire : Option ℕ → ProviderSemaphore → ProviderSemaphore × Bool
try_acquire none ps = (ps, true)
try_acquire (some id) ps =
    let (ps', used) = sem id ps in
    if ltb used ps'.max
    then (record ps' { sems = insert id (suc used) ps'.sems }, true)
    else (ps', false)

pub data Acquired : Type 0 where
  granted refused blocked : Acquired

-- `done` is whether the select takes the branch of the context that has ended. It blocks while
-- neither branch is open.
unfoldable pub acquire : Option ℕ → Bool → ProviderSemaphore → ProviderSemaphore × Acquired
acquire none done ps = (ps, granted)
acquire (some id) done ps =
    let (ps', used) = sem id ps in
    if done
    then (ps', refused)
    else if ltb used ps'.max
    then (record ps' { sems = insert id (suc used) ps'.sems }, granted)
    else (ps', blocked)

-- The function that a granted acquire returns: it takes one element from the channel.
unfoldable pub release_slot : Option ℕ → ProviderSemaphore → ProviderSemaphore
release_slot none ps = ps
release_slot (some id) ps = record ps {
  sems = insert id (or_else (lookup id ps.sems) 0 - 1) ps.sems;
}

-- deduplicator: when each operation was last let through, in nanoseconds.
pub record Deduplicator : Type 0 where
  pub inflight : Map String ℕ
  pub window : ℕ

unfoldable pub new_deduplicator : ℕ → Deduplicator
new_deduplicator window = record { inflight = []; window = window }

-- One tick of the cleanup loop.
unfoldable pub cleanup : ℕ → Deduplicator → Deduplicator
cleanup now d = record d { inflight = keep (λ t. not (ltb d.window (now - t))) d.inflight }

unfoldable pub dedup_key : TaskType → String → String
dedup_key type scope = type_name type ++ ":" ++ scope

unfoldable pub is_duplicate : TaskType → String → ℕ → Deduplicator → Deduplicator × Bool
is_duplicate type scope now d =
    let key = dedup_key type scope in
    let recorded = record d { inflight = insert key now d.inflight } in
    if scope == "" then (d, false) else (elim (lookup key d.inflight) [
      | none ↦ (recorded, false)
      | some t ↦ if ltb (now - t) d.window then (d, true) else (recorded, false)
    ])

unfoldable pub release : TaskType → String → Deduplicator → Deduplicator
release type scope d =
    if scope == "" then d else record d { inflight = remove (dedup_key type scope) d.inflight }

-- backpressureGuard
pub record BackpressureGuard : Type 0 where
  pub queue_size : ℕ
  pub hwm : ℕ

unfoldable pub new_backpressure_guard : ℕ → BackpressureGuard
new_backpressure_guard hwm = record { queue_size = 0; hwm = hwm }

unfoldable pub set_queue_size : ℕ → BackpressureGuard → BackpressureGuard
set_queue_size n b = record b { queue_size = n }

unfoldable pub allow : BackpressureGuard → Bool
allow b = ltb b.queue_size b.hwm
