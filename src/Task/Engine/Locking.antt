-- ===== src/Task/Engine/Locking.antt =====
-- The worker lock: who may execute a task, and when the lock is given back.
use vm_orbit.Base.{
  ℕ, ◌≡◌, refl, ap, ◌∙◌, ◌⊎◌, inl, inr, Bool, true, false, ◌||◌, Option, none, some, [], ◌∷◌, arith,
  Bool-cases, Option-cases, beq_refl,
}
use vm_orbit.Task.Model.{Task, TaskType, is_cancelled_status, running}
use vm_orbit.Task.Redis.{Redis, status, started_at, progress, key_beq, lock, state, AnswersLocks}
use vm_orbit.Task.Repository.{TaskRepository}
use vm_orbit.Task.Queue as Q
use vm_orbit.Task.Throttle.{acquire, granted, refused, blocked, Acquired}
use vm_orbit.Task.Engine.{
  World, TaskEngineConfig, Handler, on_store, publish_status_event, mark_running, execute,
  process_task, settle, run_handler, retry_or_fail, HandlerResult, succeeded, was_cancelled,
  permanent_failure, failure,
}

Acquired-cases : (a : Acquired) → ((a ≡ granted) ⊎ (a ≡ refused)) ⊎ (a ≡ blocked)
Acquired-cases granted = inl (inl refl)
Acquired-cases refused = inl (inr refl)
Acquired-cases blocked = inr refl

module _ (redis : Redis) (repo : TaskRepository) (config : TaskEngineConfig)
    (handlers : TaskType → Option (Handler redis repo)) where
  -- A worker that finds the lock held does nothing.
  process_task_held :
      (id now ended : ℕ) (done : Bool) (w : World redis repo)
      → redis.has (lock id) w.store ≡ true
      → process_task redis repo config handlers id now ended done w ≡ w
  unfolding process_task Q.acquire_lock
  process_task_held id now ended done w held =
      elim (Option-cases (redis.set_nx (lock id) config.lock_ttl w.store)) [
        | inl e ↦ rw (e, process_task) refl
        | inr ((s, acquired), e) ↦
            let taken : acquired ≡ false =
              ground (arith, redis.set_nx-has (lock id) config.lock_ttl w.store s acquired e) in
            rw (e, taken, process_task)
              (ap (λ s'. record w { store = s' })
                (redis.set_nx_held (lock id) config.lock_ttl w.store s (rw taken at e)))
      ]

  mark_running-lock :
      (id now : ℕ) (t : Task) (w : World redis repo)
      → redis.has (lock id) (mark_running redis repo config handlers id now t w).store
        ≡ redis.has (lock id) w.store
  unfolding mark_running publish_status_event Q.set_state key_beq
  mark_running-lock id now t w =
      let fields = status running ∷ started_at now ∷ progress 0 ∷ [] in
      elim (Option-cases (redis.hset (state id) fields config.task_ttl w.store)) [
        | inl e ↦ rw e refl
        | inr (s, e) ↦
            rw e (redis.has-hset (state id) (lock id) fields config.task_ttl w.store s e refl)
      ]

  release_lock-has :
      AnswersLocks redis
      → (id : ℕ) (w : World redis repo)
      → redis.has (lock id) (on_store redis repo (Q.release_lock redis id) w).store ≡ false
  unfolding Q.release_lock key_beq
  release_lock-has answers id w = elim (Option-cases (redis.del (lock id) w.store)) [
    | inl e ↦ ground (arith, answers.del_answers (lock id) w.store)
    | inr (s, e) ↦ rw e (redis.has-del (lock id) (lock id) w.store s e ∙ rw (beq_refl id) refl)
  ]

  execute-returns :
      (id now ended : ℕ) (done : Bool) (t : Task) (w : World redis repo)
      → (acquire t.hypervisor_id done w.prov_sem).1 ≡ granted
      → (execute redis repo config handlers id now ended done t w).1 ≡ true
  unfolding execute
  execute-returns id now ended done t w slot =
      elim (Bool-cases (is_cancelled_status t.status || Q.is_cancelled redis id w.store)) [
        | inl stopped ↦ rw stopped refl
        | inr live ↦ rw (live, slot) refl
      ]

  -- When Redis answers the commands on locks, and the worker gets the slot that its task needs, it
  -- leaves the lock free, whatever the handler did to the world, unless another worker held it.
  pub process_task-unlocked :
      AnswersLocks redis
      → (id now ended : ℕ) (done : Bool) (w : World redis repo)
      → redis.has (lock id) w.store ≡ false
      → ((t : Task)
          → repo.get_by_id id w.db ≡ some t
          → (acquire t.hypervisor_id done w.prov_sem).1 ≡ granted)
      → redis.has (lock id) (process_task redis repo config handlers id now ended done w).store
        ≡ false
  unfolding process_task Q.acquire_lock
  process_task-unlocked answers id now ended done w free slot =
      elim (Option-cases (redis.set_nx (lock id) config.lock_ttl w.store)) [
        | inl e ↦ ground (arith, answers.set_nx_answers (lock id) config.lock_ttl w.store)
        | inr ((s, acquired), e) ↦
            let fresh : acquired ≡ true =
              ground (arith, redis.set_nx-has (lock id) config.lock_ttl w.store s acquired e) in
            elim (Option-cases (repo.get_by_id id w.db)) [
              | inl missing ↦
                  rw (e, fresh, missing, process_task)
                    (release_lock-has answers id (record w { store = s }))
              | inr (t, found) ↦
                  let locked = record w { store = s } in
                  rw
                    (
                      e,
                      fresh,
                      found,
                      process_task,
                      execute-returns id now ended done t locked (slot t found),
                    )
                    (release_lock-has answers id
                      (execute redis repo config handlers id now ended done t locked).0)
            ]
      ]

-- A handler in two parts, with or without another worker's processTask for the same task between
-- them.
abbrev pub Parts : (redis : Redis) (repo : TaskRepository) → Type 0
Parts redis repo = (Task → World redis repo → World redis repo) × Handler redis repo

module _ (redis : Redis) (repo : TaskRepository) where
  abbrev pub joined : Option (Parts redis repo) → Option (Handler redis repo)
  joined none = none
  joined (some (before, after)) = some (λ t w. after t (before t w))

  abbrev pub interrupted :
      (World redis repo → World redis repo)
      → Option (Parts redis repo)
      → Option (Handler redis repo)
  interrupted other none = none
  interrupted other (some (before, after)) = some (λ t w. after t (other (before t w)))

module _ (redis : Redis) (repo : TaskRepository) (config : TaskEngineConfig)
    (parts : TaskType → Option (Parts redis repo)) (others : TaskType → Option (Handler redis repo))
    (id now' ended' : ℕ) (done' : Bool) where
  abbrev alone : TaskType → Option (Handler redis repo)
  alone type = joined redis repo (parts type)

  -- The handlers during which another worker takes up the task.
  abbrev pub shared : TaskType → Option (Handler redis repo)
  shared type =
      interrupted redis repo (process_task redis repo config others id now' ended' done')
        (parts type)

  -- The first parts of the handlers leave the lock of the task alone.
  abbrev pub KeepLock : Type 0
  KeepLock =
      (type : TaskType) (before : Task → World redis repo → World redis repo)
      (after : Handler redis repo)
      → parts type ≡ some (before, after)
      → (t : Task) (w : World redis repo)
      → redis.has (lock id) (before t w).store ≡ redis.has (lock id) w.store

  settle_same :
      (ended : ℕ) (t : Task) (r : HandlerResult) (w : World redis repo)
      → settle redis repo config shared id ended t r w
        ≡ settle redis repo config alone id ended t r w
  unfolding settle retry_or_fail
  settle_same ended t succeeded w = refl
  settle_same ended t was_cancelled w = refl
  settle_same ended t (permanent_failure message) w = refl
  settle_same ended t (failure message) w = refl

  run_handler_same :
      KeepLock
      → (ended : ℕ) (t : Task) (w : World redis repo) → redis.has (lock id) w.store ≡ true
      → run_handler redis repo config shared id ended t w
        ≡ run_handler redis repo config alone id ended t w
  unfolding run_handler
  run_handler_same keep ended t w held = elim (Option-cases (parts t.type)) [
    | inl e ↦ rw (e, run_handler) refl
    | inr ((before, after), e) ↦
        let skipped =
          process_task_held redis repo config others id now' ended' done' (before t w)
            (keep t.type before after e t w ∙ held) in
        rw (e, skipped, run_handler)
          (settle_same ended t (after t (before t w)).1 (after t (before t w)).0)
  ]

  mark_running_same :
      (now : ℕ) (t : Task) (w : World redis repo)
      → mark_running redis repo config shared id now t w
        ≡ mark_running redis repo config alone id now t w
  unfolding mark_running
  mark_running_same now t w = refl

  execute_same :
      KeepLock
      → (now ended : ℕ) (done : Bool) (t : Task) (w : World redis repo)
      → redis.has (lock id) w.store ≡ true
      → execute redis repo config shared id now ended done t w
        ≡ execute redis repo config alone id now ended done t w
  unfolding execute
  execute_same keep now ended done t w held =
      elim (Bool-cases (is_cancelled_status t.status || Q.is_cancelled redis id w.store)) [
        | inl stopped ↦ rw (stopped, execute) refl
        | inr live ↦ elim (Acquired-cases (acquire t.hypervisor_id done w.prov_sem).1) [
          | inl (inl g) ↦
              let w' = record w { prov_sem = (acquire t.hypervisor_id done w.prov_sem).0 } in
              let same =
                run_handler_same keep ended t (mark_running redis repo config shared id now t w')
                  (mark_running-lock redis repo config shared id now t w' ∙ held)
                ∙ ap (run_handler redis repo config alone id ended t)
                    (mark_running_same now t w') in
              rw (live, g, same, execute) refl
          | inl (inr r) ↦ rw (live, r, execute) refl
          | inr b ↦ rw (live, b, execute) refl
        ]
      ]

  -- A task is executed by one worker at a time: when the handlers leave the lock of the task alone
  -- up to some point, another worker that takes up the same task at that point, with whatever
  -- handlers and times, makes no difference to what the first one does.
  pub process_task_excluded :
      KeepLock
      → (now ended : ℕ) (done : Bool) (w : World redis repo)
      → process_task redis repo config shared id now ended done w
        ≡ process_task redis repo config alone id now ended done w
  unfolding process_task Q.acquire_lock key_beq
  process_task_excluded keep now ended done w =
      elim (Option-cases (redis.set_nx (lock id) config.lock_ttl w.store)) [
        | inl e ↦ rw (e, process_task) refl
        | inr ((s, false), e) ↦ rw (e, process_task) refl
        | inr ((s, true), e) ↦ elim (Option-cases (repo.get_by_id id w.db)) [
          | inl missing ↦ rw (e, missing, process_task) refl
          | inr (t, found) ↦
              let held : redis.has (lock id) s ≡ true =
                redis.has-set_nx (lock id) (lock id) config.lock_ttl w.store s e
                ∙ rw (beq_refl id) refl in
              rw
                (
                  e,
                  found,
                  execute_same keep now ended done t (record w { store = s }) held,
                  process_task,
                )
                refl
        ]
      ]
