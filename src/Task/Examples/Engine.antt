-- ===== src/Task/Examples/Engine.antt =====
-- The engine on the reboot task, in memory.
use vm_orbit.Base.{
  ℕ, ◌≡◌, refl, sym, ap, [], ◌∷◌, pos, true, false, nat_eq, Option, none, some, arith,
}
use vm_orbit.Base.{some_inj}
use vm_orbit.Task.Model.{Task, TaskStatus, TaskType, retrying, running, with_status, cancelled}
use vm_orbit.Task.Redis.{lock, key_beq}
use vm_orbit.Task.Repository.{map_option}
use vm_orbit.Task.Queue as Q
use vm_orbit.Task.Throttle.{acquire, granted}
use vm_orbit.Task.Engine.{
  World, Handler, failure, mark_running, process_task, set_progress, publish_status_event,
}
use vm_orbit.Task.Engine.Outcome.{final_row, process_task-row}
use vm_orbit.Task.Engine.Locking.{
  Parts, joined, shared, process_task_excluded, process_task-unlocked,
}
use vm_orbit.Task.Engine.Retries.{failing, attempts, waits, CanRetry, attempts_forever}
use vm_orbit.Task.Recovery.{cancel_task, is_terminal}
use vm_orbit.Task.Recovery.Effects.{cancel_task-effect}
use vm_orbit.Task.Examples.{
  Memory, memory_redis, memory_repo, memory_redis_answers, memory_repo_answers, reboot, world,
  config, mark, start_store,
}

abbrev handlers : TaskType → Option (Handler memory_redis memory_repo)
handlers = failing memory_redis memory_repo config "no answer"

abbrev locked_store : Memory
locked_store = mark (lock 7) true start_store

abbrev started : World memory_redis memory_repo
started =
    mark_running memory_redis memory_repo config handlers 7 0 reboot
      (record world { store = locked_store })

process_task-row_example :
    memory_repo.get_by_id 7
      (process_task memory_redis memory_repo config handlers 7 0 9 false world).db
    ≡ some (final_row reboot (failure "no answer") (with_status running "" reboot))
unfolding Q.acquire_lock Q.is_cancelled key_beq acquire mark_running publish_status_event
process_task-row_example =
    process_task-row memory_redis memory_repo config handlers memory_repo_answers 7 0 9 world
      started locked_store world.prov_sem reboot (with_status running "" reboot)
      (λ t w. (w, failure "no answer")) (failure "no answer") refl refl refl refl refl refl refl

-- The handler writes to its task before the other worker comes, and fails afterwards.
abbrev parts : TaskType → Option (Parts memory_redis memory_repo)
parts type = some (λ t. set_progress memory_redis memory_repo 7 50, λ t w. (w, failure "no answer"))

keeps_lock :
    (type : TaskType)
    (before : Task → World memory_redis memory_repo → World memory_redis memory_repo)
    (after : Handler memory_redis memory_repo)
    → parts type ≡ some (before, after)
    → (t : Task) (w : World memory_redis memory_repo)
    → memory_redis.has (lock 7) (before t w).store ≡ memory_redis.has (lock 7) w.store
keeps_lock type before after e t w =
    ap (λ p. memory_redis.has (lock 7) (p.0 t w).store) (sym (some_inj e))

process_task_excluded_example :
    process_task memory_redis memory_repo config
      (shared memory_redis memory_repo config parts handlers 7 5 6 false)
      7
      0
      9
      false
      world
    ≡ process_task memory_redis memory_repo config
        (λ type. joined memory_redis memory_repo (parts type))
        7
        0
        9
        false
        world
process_task_excluded_example =
    process_task_excluded memory_redis memory_repo config parts handlers 7 5 6 false keeps_lock 0 9
      false world

unscoped :
    (t : Task) → some reboot ≡ some t → (acquire t.hypervisor_id false world.prov_sem).1 ≡ granted
unfolding acquire
unscoped t e = rw (sym (ap (λ x. x.hypervisor_id) (some_inj e))) refl

process_task-unlocked_example :
    memory_redis.has
      (lock 7)
      (process_task memory_redis memory_repo config handlers 7 0 9 false world).store
    ≡ false
process_task-unlocked_example =
    process_task-unlocked memory_redis memory_repo config handlers memory_redis_answers 7 0 9 false
      world refl unscoped

-- The timer of a first retry.
abbrev waiting : World memory_redis memory_repo
waiting = record world { delayed = record { task_id = 7; priority = pos 5; after = 9 } ∷ [] }

can_retry : CanRetry memory_redis memory_repo config "no answer" 7 0 waiting
can_retry = record {
  task = reboot;
  stored = refl;
  live = refl;
  count = refl;
  left = omega arith;
  unscoped = refl;
  free = refl;
  uncancelled = refl;
}

attempts_forever_example :
    let w' = attempts memory_redis memory_repo config "no answer" 0 6 waiting in
    (map_option {B = TaskStatus × ℕ}
        (λ t. (t.status, t.retry_count))
        (memory_repo.get_by_id 7 w'.db)
      ≡ some (retrying, 0))
    × (waits memory_redis memory_repo config "no answer" 7 w'.delayed ≡ true)
attempts_forever_example =
    attempts_forever memory_redis memory_repo config "no answer" memory_repo_answers
      memory_redis_answers 7 0 0 5 waiting can_retry refl

cancel_task-effect_example :
    let w' = (cancel_task memory_redis memory_repo 7 world).0 in
    ((t : Task) × (memory_repo.get_by_id 7 world.db ≡ some t)
      × (is_terminal t.status ≡ false)
      × (memory_repo.get_by_id 7 w'.db ≡ some (with_status cancelled "cancelled by user" t)))
    × (process_task memory_redis memory_repo config handlers 7 0 9 false w'
        ≡ process_task memory_redis memory_repo config (λ t. none) 7 0 9 false w')
unfolding cancel_task is_terminal
cancel_task-effect_example =
    cancel_task-effect memory_redis memory_repo config handlers (λ t. none) 7 0 9 false world refl
