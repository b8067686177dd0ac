-- ===== src/Task/Engine/Retries.antt =====
-- How often a failing task is executed again.
use vm_orbit.Base.{
  ℕ, zero, suc, ◌<◌, String, ◌≡◌, refl, sym, ap, ◌∙◌, inl, inr, true, false, ◌||◌, Option, none,
  some, List, [], ◌∷◌, arith, ltb, lt→ltb, Option-cases, ℤ, Bool, ◌==◌, nat_eq, nat_beq_iff,
  beq_refl,
}
use vm_orbit.Base.{some_inj}
use vm_orbit.Task.Model.{
  Task, TaskStatus, TaskType, retrying, running, with_status, is_cancelled_status,
}
use vm_orbit.Task.Redis.{
  Redis, lock, cancel, queue, state, key_beq, AnswersLocks, StateField, status, started_at,
  progress,
}
use vm_orbit.Task.Repository.{TaskRepository, Answers, map_option}
use vm_orbit.Task.Queue as Q
use vm_orbit.Task.Throttle.{ProviderSemaphore, acquire, granted, release_slot}
use vm_orbit.Task.Engine.{
  World, TaskEngineConfig, failure, set_status, Handler, on_store, Delayed, fire_delayed,
  mark_running, process_task, publish_status_event, settle, retry_or_fail, enqueue_delayed,
}
use vm_orbit.Task.Engine.Outcome.{final_row, process_task-row, process_task_run, set_status_row}
use vm_orbit.Task.Engine.Locking.{process_task-unlocked}

module _ (redis : Redis) (repo : TaskRepository) (config : TaskEngineConfig)
    (message : String) where
  -- A handler that always fails, and changes nothing.
  abbrev pub failing : TaskType → Option (Handler redis repo)
  failing type = some (λ t w. (w, failure message))

  -- The newest retry timer fires, if there is one, and a worker takes its task up.
  unfoldable pub attempt : ℕ → World redis repo → World redis repo
  attempt now w = elim w.delayed [
    | [] ↦ w
    | d ∷ ds ↦
        process_task redis repo config failing d.task_id now now false (fire_delayed redis repo w)
  ]

  unfoldable pub attempts : ℕ → ℕ → World redis repo → World redis repo
  attempts now zero w = w
  attempts now (suc n) w = attempts now n (attempt now w)

  -- The newest retry timer is one of the task.
  abbrev pub waits : ℕ → List Delayed → Bool
  waits id [] = false
  waits id (d ∷ ds) = d.task_id == id

  -- A task with more than one attempt left, which nobody holds or cancels.
  pub record CanRetry (id : ℕ) (retry_count : ℕ) (w : World redis repo) : Type 0 where
    pub task : Task
    pub stored : repo.get_by_id id w.db ≡ some task
    pub live : is_cancelled_status task.status ≡ false
    pub count : task.retry_count ≡ retry_count
    pub left : suc retry_count < task.max_retries
    pub unscoped : task.hypervisor_id ≡ none
    pub free : redis.has (lock id) w.store ≡ false
    pub uncancelled : redis.has (cancel id) w.store ≡ false

  is_cancelled-has :
      AnswersLocks redis
      → (id : ℕ) (s : redis.Store) → Q.is_cancelled redis id s ≡ redis.has (cancel id) s
  unfolding Q.is_cancelled
  is_cancelled-has answers id s = elim (Option-cases (redis.exists (cancel id) s)) [
    | inl e ↦ ground (arith, answers.exists_answers (cancel id) s)
    | inr (b, e) ↦ rw e (redis.exists-has (cancel id) s b e)
  ]

  enqueue-has :
      (id task_id : ℕ) (p : ℤ) (w : World redis repo)
      → (redis.has (lock id) (on_store redis repo (Q.enqueue redis task_id p) w).store
          ≡ redis.has (lock id) w.store)
        × (redis.has (cancel id) (on_store redis repo (Q.enqueue redis task_id p) w).store
            ≡ redis.has (cancel id) w.store)
  unfolding Q.enqueue key_beq
  enqueue-has id task_id p w =
      elim (Option-cases (redis.lpush (queue (Q.clamp p)) task_id w.store)) [
        | inl e ↦ rw e (refl, refl)
        | inr (s, e) ↦ rw e (
          redis.lpush-has (queue (Q.clamp p)) (lock id) task_id w.store s e refl,
          redis.lpush-has (queue (Q.clamp p)) (cancel id) task_id w.store s e refl,
        )
      ]

  fired :
      (id now : ℕ) (r : ℕ) (w : World redis repo) (ds : List Delayed)
      → w.delayed ≡ ds
      → CanRetry id r w
      → CanRetry id r (fire_delayed redis repo w)
  unfolding fire_delayed
  fired id now r w [] e c = rw (e, fire_delayed) c
  fired id now r w (d ∷ ds) e c =
      let (locks, flags) = enqueue-has id d.task_id d.priority (record w { delayed = ds }) in
      rw (e, fire_delayed)
        (record {
          task = c.task;
          stored = c.stored;
          live = c.live;
          count = c.count;
          left = c.left;
          unscoped = c.unscoped;
          free = locks ∙ c.free;
          uncancelled = flags ∙ c.uncancelled;
        })

  set_state-has :
      (id : ℕ) (fields : List StateField) (w : World redis repo)
      → redis.has
          (cancel id)
          (on_store redis repo (Q.set_state redis id fields config.task_ttl) w).store
        ≡ redis.has (cancel id) w.store
  unfolding Q.set_state key_beq
  set_state-has id fields w =
      elim (Option-cases (redis.hset (state id) fields config.task_ttl w.store)) [
        | inl e ↦ rw e refl
        | inr (s, e) ↦
            rw e (redis.has-hset (state id) (cancel id) fields config.task_ttl w.store s e refl)
      ]

  release_lock-has_cancel :
      (id : ℕ) (w : World redis repo)
      → redis.has (cancel id) (on_store redis repo (Q.release_lock redis id) w).store
        ≡ redis.has (cancel id) w.store
  unfolding Q.release_lock key_beq
  release_lock-has_cancel id w = elim (Option-cases (redis.del (lock id) w.store)) [
    | inl e ↦ rw e refl
    | inr (s, e) ↦ rw e (redis.has-del (lock id) (cancel id) w.store s e)
  ]

  acquired :
      AnswersLocks redis
      → (id : ℕ) (s : redis.Store) → redis.has (lock id) s ≡ false
      → (s' : redis.Store) × (Q.acquire_lock redis id config.lock_ttl s ≡ some (s', true))
        × (redis.has (cancel id) s' ≡ redis.has (cancel id) s)
  unfolding Q.acquire_lock key_beq
  acquired answers id s free = elim (Option-cases (redis.set_nx (lock id) config.lock_ttl s)) [
    | inl e ↦ ground (arith, answers.set_nx_answers (lock id) config.lock_ttl s)
    | inr ((s', b), e) ↦
        let fresh : b ≡ true =
          ground (arith, redis.set_nx-has (lock id) config.lock_ttl s s' b e) in
        let e' : redis.set_nx (lock id) config.lock_ttl s ≡ some (s', true) = rw fresh at e in
        (s', e', redis.has-set_nx (lock id) (cancel id) config.lock_ttl s s' e')
  ]

  unscoped-granted :
      (h : Option ℕ) (ps : ProviderSemaphore) → h ≡ none → (acquire h false ps).1 ≡ granted
  unfolding acquire
  unscoped-granted h ps e = rw e refl

  worked :
      Answers repo
      → AnswersLocks redis
      → (id now r : ℕ) (w : World redis repo) → CanRetry id r w
      → let w' = process_task redis repo config failing id now now false w in
        CanRetry id r w'
        × (map_option {B = TaskStatus × ℕ}
              (λ t. (t.status, t.retry_count))
              (repo.get_by_id id w'.db)
            ≡ some (retrying, r))
        × (waits id w'.delayed ≡ true)
  unfolding mark_running publish_status_event final_row acquire settle retry_or_fail enqueue_delayed
  worked answers locks id now r w c =
      let (s, locked, flags) = acquired locks id w.store c.free in
      let t = c.task in
      let w0 = record w { store = s } in
      let w1 = mark_running redis repo config failing id now t w0 in
      let calm : is_cancelled_status t.status || Q.is_cancelled redis id s ≡ false =
        rw (c.live, is_cancelled-has locks id s, flags, c.uncancelled) refl in
      let slot : acquire t.hypervisor_id false w.prov_sem ≡ (w.prov_sem, granted) =
        rw c.unscoped refl in
      let row = set_status_row redis repo answers id running "" t w0 c.stored in
      let after =
        process_task-row redis repo config failing answers id now now w w1 s w.prov_sem t
          (with_status running "" t) (λ t w. (w, failure message)) (failure message) locked c.stored
          calm slot refl refl row in
      let again : ltb (suc t.retry_count) t.max_retries ≡ true =
        rw (c.count) (lt→ltb (suc r) t.max_retries c.left) in
      let ends =
        process_task_run redis repo config failing id now now w w1 s w.prov_sem t
          (λ t w. (w, failure message)) (failure message) locked c.stored calm slot refl refl in
      let settled = settle redis repo config failing id now t (failure message) w1 in
      let kept : redis.has (cancel id) settled.store ≡ redis.has (cancel id) w1.store =
        rw again refl in
      (
        record {
          task = final_row t (failure message) (with_status running "" t);
          stored = after;
          live = rw again refl;
          count = c.count;
          left = c.left;
          unscoped = c.unscoped;
          free =
              process_task-unlocked redis repo config failing locks id now now false w c.free
                (λ t' e.
                  unscoped-granted t'.hypervisor_id w.prov_sem
                    (ap (λ x. x.hypervisor_id) (some_inj (sym e ∙ c.stored)) ∙ c.unscoped));
          uncancelled =
              rw ends (
                release_lock-has_cancel id
                  (record settled { prov_sem = release_slot t.hypervisor_id settled.prov_sem }))
              ∙ kept
              ∙ set_state-has id (status running ∷ started_at now ∷ progress 0 ∷ [])
                  (set_status redis repo id running "" w0)
              ∙ flags
              ∙ c.uncancelled;
        },
        rw (after, again, c.count) refl,
        rw ends (rw again (beq_refl id)),
      )

  attempt-worked :
      Answers repo
      → AnswersLocks redis
      → (id now r : ℕ) (w : World redis repo) (ds : List Delayed) → w.delayed ≡ ds
      → waits id ds ≡ true
      → CanRetry id r w
      → let w' = attempt now w in
        CanRetry id r w'
        × (map_option {B = TaskStatus × ℕ}
              (λ t. (t.status, t.retry_count))
              (repo.get_by_id id w'.db)
            ≡ some (retrying, r))
        × (waits id w'.delayed ≡ true)
  unfolding attempt
  attempt-worked answers locks id now r w [] e h c = absurd (ground arith)
  attempt-worked answers locks id now r w (d ∷ ds) e h c =
      rw (e, (nat_beq_iff d.task_id id).0 h, attempt)
        (worked answers locks id now r (fire_delayed redis repo w) (fired id now r w (d ∷ ds) e c))

  -- When the database and Redis answer, a task of no hypervisor whose handler always fails and
  -- changes nothing, which nobody holds or cancels, which waits for a retry, and which has more
  -- than one attempt left is never given up: after every number of executions its row says retrying,
  -- with the retry count that it started with, and it waits for a retry again.
  pub attempts_forever :
      Answers repo
      → AnswersLocks redis
      → (id now r n : ℕ) (w : World redis repo) → CanRetry id r w
      → waits id w.delayed ≡ true
      → let w' = attempts now (suc n) w in
        (map_option {B = TaskStatus × ℕ} (λ t. (t.status, t.retry_count)) (repo.get_by_id id w'.db)
          ≡ some (retrying, r))
        × (waits id w'.delayed ≡ true)
  unfolding attempts
  attempts_forever answers locks id now r zero w c h =
      let (c', row, h') = attempt-worked answers locks id now r w w.delayed refl h c in (row, h')
  attempts_forever answers locks id now r (suc n) w c h =
      let (c', row, h') = attempt-worked answers locks id now r w w.delayed refl h c in
      attempts_forever answers locks id now r n (attempt now w) c' h'
