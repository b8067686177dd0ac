-- ===== src/Task/Recovery/Effects.antt =====
-- What enqueueing, cancelling, the poller and the monitor do to tasks.
use vm_orbit.Base.{
  ℕ, zero, suc, ◌+◌, ◌≡◌, refl, ap, ◌∙◌, ◌⊎◌, inl, inr, Bool, true, false, Option, some, List, [],
  ◌∷◌, ◌++◌, arith, ltb, Bool-cases, Option-cases, is_some, beq_refl, length, length-append, ℤ,
}
use vm_orbit.Task.Model.{Task, TaskType, queued, cancelled, with_status}
use vm_orbit.Task.Redis.{Redis, Key, queue}
use vm_orbit.Task.Repository.{TaskRepository, map_option}
use vm_orbit.Task.Queue as Q
use vm_orbit.Task.Queue.Order.{view, place, enqueue-view, band, view_from}
use vm_orbit.Task.Throttle.{allow, set_queue_size}
use vm_orbit.Task.Engine.{World, TaskEngineConfig, Handler, enqueue, process_task, execute}
use vm_orbit.Task.Recovery.{cancel_task, is_terminal, queue_depth_monitor}

module _ (redis : Redis) (repo : TaskRepository) where
  -- An enqueue ends in one of three ways. At the high-water mark it fails and changes nothing.
  -- Below it, it succeeds, with the task in its place in the queue and its row, when there is one,
  -- saying queued; or Redis or the database fails, and the rows are as they were.
  enqueue-effect :
      (id : ℕ) (p : ℤ) (w : World redis repo)
      → let (w', ok) = enqueue redis repo id p w in
        ((allow w.backpressure ≡ false) × (w' ≡ w) × (ok ≡ false))
        ⊎ (((allow w.backpressure ≡ true)
              × (ok ≡ true)
              × (view redis w'.store ≡ place (Q.clamp p) id (view redis w.store))
              × (repo.get_by_id id w'.db
                  ≡ map_option (with_status queued "") (repo.get_by_id id w.db)))
            ⊎ ((allow w.backpressure ≡ true) × (ok ≡ false) × (w'.db ≡ w.db)))
  unfolding enqueue
  enqueue-effect id p w = elim (Bool-cases (allow w.backpressure)) [
    | inr full ↦ rw full (inl (refl, refl, refl))
    | inl below ↦ elim (Option-cases (Q.enqueue redis id p w.store)) [
      | inl e ↦ rw (below, e) (inr (inr (refl, refl, refl)))
      | inr (s, e) ↦ elim (Option-cases (repo.update_status id queued "" w.db)) [
        | inl f ↦ rw (below, e, f) (inr (inr (refl, refl, refl)))
        | inr (d, f) ↦
            rw (below, e, f)
              (inr (
                inl (
                  refl,
                  refl,
                  enqueue-view redis w.store s id p e,
                  repo.get-update_status id id queued "" w.db d f ∙ rw (beq_refl id) refl,
                )))
      ]
    ]
  ]

  execute_cancelled :
      (config : TaskEngineConfig) (handlers handlers' : TaskType → Option (Handler redis repo))
      (id now ended : ℕ) (done : Bool) (t : Task) (w : World redis repo)
      → t.status ≡ cancelled
      → execute redis repo config handlers id now ended done t w
        ≡ execute redis repo config handlers' id now ended done t w
  unfolding execute
  execute_cancelled config handlers handlers' id now ended done t w e = rw (e, execute) refl

  process_task_cancelled :
      (config : TaskEngineConfig) (handlers handlers' : TaskType → Option (Handler redis repo))
      (id now ended : ℕ) (done : Bool) (t : Task) (w : World redis repo)
      → repo.get_by_id id w.db ≡ some t
      → t.status ≡ cancelled
      → process_task redis repo config handlers id now ended done w
        ≡ process_task redis repo config handlers' id now ended done w
  unfolding process_task
  process_task_cancelled config handlers handlers' id now ended done t w found e =
      elim (Option-cases (Q.acquire_lock redis id config.lock_ttl w.store)) [
        | inl none_ ↦ rw (none_, process_task) refl
        | inr ((s, b), locked) ↦
            rw
              (
                locked,
                found,
                process_task,
                execute_cancelled config handlers handlers' id now ended done t
                    (record w { store = s }) e,
              )
              refl
      ]

  cancel_task-row :
      (id : ℕ) (w : World redis repo)
      → (cancel_task redis repo id w).1 ≡ true
      → (t : Task) × (repo.get_by_id id w.db ≡ some t)
        × (is_terminal t.status ≡ false)
        × (repo.get_by_id id (cancel_task redis repo id w).0.db
            ≡ some (with_status cancelled "cancelled by user" t))
  unfolding cancel_task
  cancel_task-row id w ok = elim (Option-cases (repo.get_by_id id w.db)) [
    | inl e ↦ ground arith
    | inr (t, e) ↦ elim (Bool-cases (is_terminal t.status)) [
      | inl over ↦ ground arith
      | inr live ↦ elim (Option-cases (repo.update_status id cancelled "cancelled by user" w.db)) [
        | inl f ↦ ground arith
        | inr (d, f) ↦ (
          t,
          e,
          live,
          rw (e, live, f, cancel_task)
              (repo.get-update_status id id cancelled "cancelled by user" w.db d f
                ∙ rw (beq_refl id, e) refl),
        )
      ]
    ]
  ]

  -- A cancellation that succeeds is of a task that had not ended, sets its row to cancelled, and
  -- keeps a worker that takes the task up afterwards from calling any handler: with every table of
  -- handlers the worker does the same.
  pub cancel_task-effect :
      (config : TaskEngineConfig) (handlers handlers' : TaskType → Option (Handler redis repo))
      (id now ended : ℕ) (done : Bool) (w : World redis repo)
      → (cancel_task redis repo id w).1 ≡ true
      → let w' = (cancel_task redis repo id w).0 in
        ((t : Task) × (repo.get_by_id id w.db ≡ some t)
          × (is_terminal t.status ≡ false)
          × (repo.get_by_id id w'.db ≡ some (with_status cancelled "cancelled by user" t)))
        × (process_task redis repo config handlers id now ended done w'
            ≡ process_task redis repo config handlers' id now ended done w')
  cancel_task-effect config handlers handlers' id now ended done w ok =
      let (t, found, live, row) = cancel_task-row id w ok in
      (
        (t, found, live, row),
        process_task_cancelled config handlers handlers' id now ended done
            (with_status cancelled "cancelled by user" t) (cancel_task redis repo id w).0 row refl,
      )

length-band :
    (p : ℕ) (xs : List ℕ) (r : List (ℕ × ℕ)) → length (band p xs ++ r) ≡ length xs + length r
length-band p [] r = omega arith
length-band p (x ∷ xs) r =
    length-append (band p xs ++ (p, x) ∷ []) r
    ∙ omega (
      arith,
      length-append (band p xs) ((p, x) ∷ []),
      length-append (band p xs) r,
      length-band p xs r,
    )

module _ (redis : Redis) (repo : TaskRepository) where
  total_length-view_from :
      (first n : ℕ) (s : redis.Store)
      → ((k : Key) → is_some (redis.llen k s) ≡ true)
      → Q.total_length redis (Q.queues_from first n) s
        ≡ length (view_from first n (λ k. redis.items k s))
  unfolding Q.total_length Q.queues_from
  total_length-view_from first zero s answers = refl
  total_length-view_from first (suc n) s answers =
      elim (Option-cases (redis.llen (queue first) s)) [
        | inl e ↦ ground (arith, answers (queue first))
        | inr (m, e) ↦ rw e (
            omega (
              arith,
              redis.llen-items (queue first) s m e,
              total_length-view_from (suc first) n s answers,
              length-band first (redis.items (queue first) s)
                  (view_from (suc first) n (λ k. redis.items k s)),
            ))
      ]

  -- Right after a tick of the monitor at which Redis answers, a task is let in exactly while the
  -- whole queue, over all priorities, is shorter than the high-water mark.
  queue_depth_monitor-allow :
      (w : World redis repo)
      → ((k : Key) → is_some (redis.llen k w.store) ≡ true)
      → allow (queue_depth_monitor redis repo w).backpressure
        ≡ ltb (length (view redis w.store)) w.backpressure.hwm
  unfolding queue_depth_monitor set_queue_size allow view Q.priority_queues
  queue_depth_monitor-allow w answers =
      ap (λ n. ltb n w.backpressure.hwm) (total_length-view_from 1 10 w.store answers)
