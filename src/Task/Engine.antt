-- ===== src/Task/Engine.antt =====
-- internal/task/engine.go: enqueueing, the execution of one task, the database poller and the
-- monitor of the queue's length. A worker's `processTask` is one step here: what other goroutines
-- do while its handler runs is part of what the handler does to the world. An error that the
-- source assigns to `_`, or only logs, leaves the world as it was. Times are in nanoseconds.
pub mod Outcome
pub mod Locking
pub mod Retries
use vm_orbit.Base.{
  ℕ, zero, suc, ◌*◌, ◌/◌, String, Bool, true, false, ◌||◌, Option, none, some, List, [], ◌∷◌, ltb,
  if◌then◌else◌, or_else, ℤ,
}
use Prim.Native.String.{◌++◌}
use vm_orbit.Task.Model.{
  Task, TaskStatus, TaskType, type_name, is_cancelled_status, queued, running, completed, failed,
  cancelled, retrying,
}
use vm_orbit.Task.Redis.{Redis, status, started_at, completed_at, progress}
use vm_orbit.Task.Repository.{TaskRepository}
use vm_orbit.Task.Queue as Q
use vm_orbit.Task.Backoff.{default_backoff, delay}
use vm_orbit.Task.Throttle.{
  ProviderSemaphore, acquire, granted, refused, blocked, release_slot, BackpressureGuard, allow,
}

-- config.TaskEngineConfig; what is not positive stands as 0.
pub record TaskEngineConfig : Type 0 where
  pub worker_count : ℕ
  pub queue_size : ℕ
  pub lock_ttl : ℕ
  pub task_ttl : ℕ
  pub retry_base_delay : ℕ

or_default : ℕ → ℕ → ℕ
or_default zero d = d
or_default (suc n) d = suc n

-- The part of NewEngine that fills in the configuration, and the high-water mark.
unfoldable pub with_defaults : TaskEngineConfig → TaskEngineConfig
unfolding or_default
with_defaults c = record c {
  lock_ttl = or_default c.lock_ttl 300000000000;
  retry_base_delay = or_default c.retry_base_delay 5000000000;
  queue_size = or_default c.queue_size 1000;
}

unfoldable pub high_water_mark : TaskEngineConfig → ℕ
high_water_mark c = c.queue_size * 8 / 10

pub data TaskEvent : Type 0 where
  status_changed : ℕ → TaskType → TaskStatus → ℕ → TaskEvent
  task_cancelled : ℕ → TaskType → TaskEvent

-- What a handler returns: nil, an error that wraps ErrTaskCancelled or ErrTaskPermanentFailure, or
-- another, with its text.
pub data HandlerResult : Type 0 where
  succeeded was_cancelled : HandlerResult
  permanent_failure failure : String → HandlerResult

-- A timer of EnqueueDelayed.
pub record Delayed : Type 0 where
  pub task_id : ℕ
  pub priority : ℤ
  pub after : ℕ

module _ (redis : Redis) (repo : TaskRepository) where
  pub record World : Type 0 where
    pub db : repo.Db
    pub store : redis.Store
    pub delayed : List Delayed
    pub prov_sem : ProviderSemaphore
    pub backpressure : BackpressureGuard
    pub published : List TaskEvent

module _ (redis : Redis) (repo : TaskRepository) where
  -- A store command whose error is ignored.
  abbrev pub on_store : (redis.Store → Option redis.Store) → World redis repo → World redis repo
  on_store f w = record w { store = or_else (f w.store) w.store }

  abbrev pub set_status : ℕ → TaskStatus → String → World redis repo → World redis repo
  set_status id s message w = record w { db = or_else (repo.update_status id s message w.db) w.db }

  abbrev pub set_progress : ℕ → ℕ → World redis repo → World redis repo
  set_progress id p w = record w { db = or_else (repo.update_progress id p w.db) w.db }

  unfoldable pub publish_status_event : Task → TaskStatus → World redis repo → World redis repo
  publish_status_event t s w = record w {
    published = status_changed t.id t.type s t.progress ∷ w.published;
  }

  unfoldable pub publish_event : Task → World redis repo → World redis repo
  publish_event t w = record w { published = task_cancelled t.id t.type ∷ w.published }

  -- Whether it returned nil.
  unfoldable pub enqueue : ℕ → ℤ → World redis repo → World redis repo × Bool
  enqueue id priority w =
      if allow w.backpressure
      then (elim (Q.enqueue redis id priority w.store) [
        | none ↦ (w, false)
        | some s ↦ (elim (repo.update_status id queued "" w.db) [
          | none ↦ (record w { store = s }, false)
          | some d ↦ (record w { store = s; db = d }, true)
        ])
      ])
      else (w, false)

  unfoldable pub enqueue_delayed : ℕ → ℤ → ℕ → World redis repo → World redis repo
  enqueue_delayed id p d w = record w {
    delayed = record { task_id = id; priority = p; after = d } ∷ w.delayed;
  }

  -- The function of the newest timer.
  unfoldable pub fire_delayed : World redis repo → World redis repo
  fire_delayed w = elim w.delayed [
    | [] ↦ w
    | t ∷ ts ↦ on_store (Q.enqueue redis t.task_id t.priority) (record w { delayed = ts })
  ]

  -- A handler gets the row as it was loaded.
  abbrev pub Handler : Type 0
  Handler = Task → World redis repo → World redis repo × HandlerResult

  module _ (config : TaskEngineConfig) (handlers : TaskType → Option Handler) where
    unfoldable pub mark_running : ℕ → ℕ → Task → World redis repo → World redis repo
    mark_running id now t w = publish_status_event t running (
        on_store
          (Q.set_state redis id (status running ∷ started_at now ∷ progress 0 ∷ []) config.task_ttl)
          (set_status id running "" w))

    unfoldable pub retry_or_fail : ℕ → Task → String → World redis repo → World redis repo
    retry_or_fail id t message w =
        let attempts = suc t.retry_count in
        if ltb attempts t.max_retries
        then enqueue_delayed id t.priority
            (delay (default_backoff config.retry_base_delay) attempts)
            (publish_status_event t retrying (set_status id retrying message w))
        else publish_status_event t failed (set_status id failed message w)

    -- The switch on the handler's error; `now` is when the handler returned.
    unfoldable pub settle : ℕ → ℕ → Task → HandlerResult → World redis repo → World redis repo
    settle id now t succeeded w = publish_status_event t completed (
        on_store
          (Q.set_state redis id (status completed ∷ progress 100 ∷ completed_at now ∷ [])
            config.task_ttl)
          (set_progress id 100 (set_status id completed "" w)))
    settle id now t was_cancelled w = publish_event t (
        on_store (Q.clear_cancel redis id) (set_status id cancelled "cancelled during execution" w))
    settle id now t (permanent_failure message) w =
        publish_status_event t failed (set_status id failed message w)
    settle id now t (failure message) w = retry_or_fail id t message w

    unfoldable pub run_handler : ℕ → ℕ → Task → World redis repo → World redis repo
    run_handler id now t w = elim (handlers t.type) [
      | none ↦ publish_status_event t failed (
          set_status id failed
            ("no handler registered for task type \"" ++ type_name t.type ++ "\"") w)
      | some handler ↦ let (w', r) = handler t w in settle id now t r w'
    ]

    -- What follows the loading of the row, less the deferred release of the lock. The Boolean is
    -- whether that release reaches Redis: a worker that waits for a slot has not come to it, and
    -- the one whose context ended while it waited puts the task back and releases the lock in that
    -- context, in which go-redis sends no command. The context does not end later than that.
    unfoldable pub execute : ℕ → ℕ → ℕ → Bool → Task → World redis repo → World redis repo × Bool
    execute id now ended done t w =
        if is_cancelled_status t.status || Q.is_cancelled redis id w.store
        then (
          on_store (Q.clear_cancel redis id)
              (publish_event t (set_status id cancelled "cancelled before execution" w)),
          true,
        )
        else (let (ps, slot) = acquire t.hypervisor_id done w.prov_sem in
            let w' = record w { prov_sem = ps } in
            elim slot [
              | granted ↦
                  let after = run_handler id ended t (mark_running id now t w') in
                  (record after { prov_sem = release_slot t.hypervisor_id after.prov_sem }, true)
              | refused ↦ (w', false)
              | blocked ↦ (w', false)
            ])

    -- `now` is when the worker marks the task as running, `ended` when its handler returns;
    -- `done` is whether the context ends while the worker waits for a slot.
    unfoldable pub process_task : ℕ → ℕ → ℕ → Bool → World redis repo → World redis repo
    process_task id now ended done w = elim (Q.acquire_lock redis id config.lock_ttl w.store) [
      | none ↦ w
      | some (s, acquired) ↦
          let locked = record w { store = s } in
          if acquired
          then (elim (repo.get_by_id id w.db) [
            | none ↦ on_store (Q.release_lock redis id) locked
            | some t ↦
                let (after, returns) = execute id now ended done t locked in
                if returns then on_store (Q.release_lock redis id) after else after
          ])
          else locked
    ]
