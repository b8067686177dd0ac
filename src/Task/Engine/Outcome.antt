-- ===== src/Task/Engine/Outcome.antt =====
-- What a worker leaves in the row of the task that it executed.
use vm_orbit.Base.{
  ℕ, suc, String, ◌≡◌, refl, ap, ◌∙◌, inl, inr, true, false, ◌||◌, Option, some, arith, ltb,
  if◌then◌else◌, Bool-cases, Option-cases, ◌==◌, nat_eq, beq_refl,
}
use vm_orbit.Task.Model.{
  Task, TaskStatus, TaskType, completed, failed, cancelled, retrying, with_status, with_progress,
  is_cancelled_status,
}
use vm_orbit.Task.Redis.{Redis}
use vm_orbit.Task.Repository.{TaskRepository, Answers, map_option}
use vm_orbit.Task.Queue as Q
use vm_orbit.Task.Throttle.{ProviderSemaphore, acquire, granted, release_slot}
use vm_orbit.Task.Engine.{
  World, TaskEngineConfig, HandlerResult, succeeded, was_cancelled, permanent_failure, failure,
  Handler, set_status, set_progress, on_store, publish_event, publish_status_event, enqueue_delayed,
  mark_running, retry_or_fail, settle, run_handler, execute, process_task,
}

-- What the row becomes: `loaded` is the row that the worker loaded, `row` the one that the handler
-- leaves.
unfoldable pub final_row : Task → HandlerResult → Task → Task
final_row loaded succeeded row = record row {
  status = completed;
  error_message = "";
  progress = 100;
}
final_row loaded was_cancelled row = record row {
  status = cancelled;
  error_message = "cancelled during execution";
}
final_row loaded (permanent_failure m) row = record row { status = failed; error_message = m }
final_row loaded (failure m) row = record row {
  status = if ltb (suc loaded.retry_count) loaded.max_retries then retrying else failed;
  error_message = m;
}

module _ (redis : Redis) (repo : TaskRepository) (answers : Answers repo) where
  pub set_status-row :
      (id j : ℕ) (s : TaskStatus) (m : String) (w : World redis repo)
      → repo.get_by_id j (set_status redis repo id s m w).db ≡ (
          if id == j
          then map_option (with_status s m) (repo.get_by_id j w.db)
          else repo.get_by_id j w.db)
  set_status-row id j s m w = elim (Option-cases (repo.update_status id s m w.db)) [
    | inl e ↦ ground (arith, answers.status_answers id s m w.db)
    | inr (d, e) ↦ rw e (repo.get-update_status id j s m w.db d e)
  ]

  pub set_progress-row :
      (id p j : ℕ) (w : World redis repo)
      → repo.get_by_id j (set_progress redis repo id p w).db ≡ (
          if id == j
          then map_option (with_progress p) (repo.get_by_id j w.db)
          else repo.get_by_id j w.db)
  set_progress-row id p j w = elim (Option-cases (repo.update_progress id p w.db)) [
    | inl e ↦ ground (arith, answers.progress_answers id p w.db)
    | inr (d, e) ↦ rw e (repo.get-update_progress id j p w.db d e)
  ]

  pub set_status_row :
      (id : ℕ) (s : TaskStatus) (m : String) (t : Task) (w : World redis repo)
      → repo.get_by_id id w.db ≡ some t
      → repo.get_by_id id (set_status redis repo id s m w).db ≡ some (with_status s m t)
  set_status_row id s m t w e = set_status-row id id s m w ∙ rw (beq_refl id, e) refl

  module _ (config : TaskEngineConfig) (handlers : TaskType → Option (Handler redis repo)) where
    pub settle-row :
        (id now : ℕ) (loaded row : Task) (r : HandlerResult) (w : World redis repo)
        → repo.get_by_id id w.db ≡ some row
        → repo.get_by_id id (settle redis repo config handlers id now loaded r w).db
          ≡ some (final_row loaded r row)
    unfolding settle final_row retry_or_fail publish_event publish_status_event enqueue_delayed
    settle-row id now loaded row succeeded w e =
        set_progress-row id 100 id (set_status redis repo id completed "" w)
        ∙ rw (beq_refl id, set_status_row id completed "" row w e) refl
    settle-row id now loaded row was_cancelled w e =
        set_status_row id cancelled "cancelled during execution" row w e
    settle-row id now loaded row (permanent_failure m) w e = set_status_row id failed m row w e
    settle-row id now loaded row (failure m) w e =
        elim (Bool-cases (ltb (suc loaded.retry_count) loaded.max_retries)) [
          | inl again ↦ rw again (set_status_row id retrying m row w e)
          | inr over ↦ rw over (set_status_row id failed m row w e)
        ]

module _ (redis : Redis) (repo : TaskRepository) (config : TaskEngineConfig)
    (handlers : TaskType → Option (Handler redis repo)) where
  execute_run :
      (id now ended : ℕ) (w w' : World redis repo) (ps : ProviderSemaphore) (loaded : Task)
      (handler : Handler redis repo) (r : HandlerResult)
      → (is_cancelled_status loaded.status || Q.is_cancelled redis id w.store) ≡ false
      → acquire loaded.hypervisor_id false w.prov_sem ≡ (ps, granted)
      → handlers loaded.type ≡ some handler
      → handler loaded
          (mark_running redis repo config handlers id now loaded (record w { prov_sem = ps }))
        ≡ (w', r)
      → let after = settle redis repo config handlers id ended loaded r w' in
        execute redis repo config handlers id now ended false loaded w
        ≡ (record after { prov_sem = release_slot loaded.hypervisor_id after.prov_sem }, true)
  unfolding execute run_handler
  execute_run id now ended w w' ps loaded handler r live slot known ran =
      rw (live, execute)
        (rw (ap (λ q. q.1) slot, execute)
          (rw (ap (λ q. q.0) slot, execute) (rw (known, run_handler) (rw ran refl))))

  pub process_task_run :
      (id now ended : ℕ) (w w' : World redis repo) (s : redis.Store) (ps : ProviderSemaphore)
      (loaded : Task) (handler : Handler redis repo) (r : HandlerResult)
      → Q.acquire_lock redis id config.lock_ttl w.store ≡ some (s, true)
      → repo.get_by_id id w.db ≡ some loaded
      → (is_cancelled_status loaded.status || Q.is_cancelled redis id s) ≡ false
      → acquire loaded.hypervisor_id false w.prov_sem ≡ (ps, granted)
      → handlers loaded.type ≡ some handler
      → handler loaded (
          mark_running redis repo config handlers id now loaded
            (record w { store = s; prov_sem = ps }))
        ≡ (w', r)
      → let after = settle redis repo config handlers id ended loaded r w' in
        process_task redis repo config handlers id now ended false w
        ≡ on_store redis repo
            (Q.release_lock redis id)
            (record after { prov_sem = release_slot loaded.hypervisor_id after.prov_sem })
  unfolding process_task
  process_task_run id now ended w w' s ps loaded handler r locked found live slot known ran =
      rw
        (
          locked,
          found,
          execute_run id now ended (record w { store = s }) w' ps loaded handler r live slot known
              ran,
          process_task,
        )
        refl

  -- When the database answers, a worker that gets the lock and a slot for a task that is not
  -- cancelled, and whose type has a handler, leaves the row completed at 100 percent, cancelled,
  -- failed or retrying as the handler's result says, with what else the handler left in it: a
  -- failure is retried exactly while the loaded row has attempts left, a permanent one never.
  pub process_task-row :
      Answers repo
      → (id now ended : ℕ) (w w' : World redis repo) (s : redis.Store) (ps : ProviderSemaphore)
        (loaded row : Task) (handler : Handler redis repo) (r : HandlerResult)
      → Q.acquire_lock redis id config.lock_ttl w.store ≡ some (s, true)
      → repo.get_by_id id w.db ≡ some loaded
      → (is_cancelled_status loaded.status || Q.is_cancelled redis id s) ≡ false
      → acquire loaded.hypervisor_id false w.prov_sem ≡ (ps, granted)
      → handlers loaded.type ≡ some handler
      → handler loaded (
          mark_running redis repo config handlers id now loaded
            (record w { store = s; prov_sem = ps }))
        ≡ (w', r)
      → repo.get_by_id id w'.db ≡ some row
      → repo.get_by_id id (process_task redis repo config handlers id now ended false w).db
        ≡ some (final_row loaded r row)
  process_task-row answers id now ended w w' s ps loaded row handler r locked found live slot known
        ran left =
      rw (process_task_run id now ended w w' s ps loaded handler r locked found live slot known ran)
        (settle-row redis repo answers config handlers id ended loaded row r w' left)
