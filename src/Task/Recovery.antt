-- ===== src/Task/Recovery.antt =====
-- internal/task/engine.go, rehydrateFromDB and queueDepthMonitor, and
-- internal/service/task_service.go, Cancel: what touches tasks besides the workers.
pub mod Effects
use vm_orbit.Base.{ℕ, ◌*◌, Bool, true, false, none, some, List, [], ◌∷◌, if◌then◌else◌}
use vm_orbit.Task.Model.{Task, TaskStatus, queued, completed, failed, cancelled, retrying}
use vm_orbit.Task.Redis.{Redis}
use vm_orbit.Task.Repository.{TaskRepository}
use vm_orbit.Task.Queue as Q
use vm_orbit.Task.Throttle.{set_queue_size}
use vm_orbit.Task.Engine.{World, TaskEngineConfig, on_store, set_status}

unfoldable pub is_under_way : TaskStatus → Bool
is_under_way queued = true
is_under_way retrying = true
is_under_way _ = false

unfoldable pub is_terminal : TaskStatus → Bool
is_terminal completed = true
is_terminal failed = true
is_terminal cancelled = true
is_terminal _ = false

module _ (redis : Redis) (repo : TaskRepository) where
  -- The body of the loop, for one row.
  unfoldable pub rehydrate_task : TaskEngineConfig → Task → World redis repo → World redis repo
  rehydrate_task config t w =
      if is_under_way t.status
      then w
      else (elim (Q.acquire_lock redis t.id config.lock_ttl w.store) [
        | none ↦ w
        | some (s, acquired) ↦
            let locked = record w { store = s } in
            let free = on_store redis repo (Q.release_lock redis t.id) locked in
            if acquired
            then (elim (Q.enqueue redis t.id t.priority free.store) [
              | none ↦ free
              | some s' ↦ set_status redis repo t.id queued "" (record free { store = s' })
            ])
            else locked
      ])

  unfoldable pub rehydrate_all : TaskEngineConfig → List Task → World redis repo → World redis repo
  rehydrate_all config [] w = w
  rehydrate_all config (t ∷ ts) w = rehydrate_all config ts (rehydrate_task config t w)

  unfoldable pub rehydrate_from_db : TaskEngineConfig → World redis repo → World redis repo
  rehydrate_from_db config w = elim (repo.list_pending (config.worker_count * 2) w.db) [
    | none ↦ w
    | some tasks ↦ rehydrate_all config tasks w
  ]

  -- One tick of the monitor.
  unfoldable pub queue_depth_monitor : World redis repo → World redis repo
  queue_depth_monitor w = record w {
    backpressure = set_queue_size (Q.total_length redis Q.priority_queues w.store) w.backpressure;
  }

  -- The task service's Cancel, and whether it returned nil. The flag lives for an hour.
  unfoldable pub cancel_task : ℕ → World redis repo → World redis repo × Bool
  cancel_task id w = elim (repo.get_by_id id w.db) [
    | none ↦ (w, false)
    | some t ↦
        if is_terminal t.status
        then (w, false)
        else (let flagged = on_store redis repo (Q.signal_cancel redis id 3600000000000) w in
            elim (repo.update_status id cancelled "cancelled by user" flagged.db) [
              | none ↦ (flagged, false)
              | some d ↦ (record flagged { db = d }, true)
            ])
  ]
