-- ===== src/Task/Queue.antt =====
-- internal/task/queue.go, RedisQueue: priority lists, worker locks, cancellation flags and live
-- state of tasks. Durations are in nanoseconds. An error of a command is `none`.
pub mod Order
use vm_orbit.Base.{
  ℕ, zero, suc, ◌+◌, Bool, false, Option, List, [], ◌∷◌, ltb, if◌then◌else◌, or_else, ℤ, pos,
  negsuc,
}
use vm_orbit.Task.Redis.{Key, queue, lock, cancel, state, StateField, Redis}

-- 1, ..., 10: the lists in priority order, from `first` on.
unfoldable pub queues_from : ℕ → ℕ → List Key
queues_from first zero = []
queues_from first (suc n) = queue first ∷ queues_from (suc first) n

unfoldable pub priority_queues : List Key
priority_queues = queues_from 1 10

unfoldable pub clamp : ℤ → ℕ
clamp (negsuc _) = 1
clamp (pos p) = if ltb p 1 then 1 else if ltb 10 p then 10 else p

module _ (redis : Redis) where
  unfoldable pub enqueue : ℕ → ℤ → redis.Store → Option redis.Store
  enqueue task_id priority = redis.lpush (queue (clamp priority)) task_id

  -- `none` while the worker is blocked, or when the command fails.
  unfoldable pub dequeue : redis.Store → Option (redis.Store × ℕ)
  dequeue = redis.brpop priority_queues

  unfoldable pub acquire_lock : ℕ → ℕ → redis.Store → Option (redis.Store × Bool)
  acquire_lock task_id ttl = redis.set_nx (lock task_id) ttl

  unfoldable pub release_lock : ℕ → redis.Store → Option redis.Store
  release_lock task_id = redis.del (lock task_id)

  unfoldable pub refresh_lock : ℕ → ℕ → redis.Store → Option redis.Store
  refresh_lock task_id ttl = redis.expire (lock task_id) ttl

  unfoldable pub signal_cancel : ℕ → ℕ → redis.Store → Option redis.Store
  signal_cancel task_id ttl = redis.set (cancel task_id) ttl

  unfoldable pub is_cancelled : ℕ → redis.Store → Bool
  is_cancelled task_id s = or_else (redis.exists (cancel task_id) s) false

  unfoldable pub clear_cancel : ℕ → redis.Store → Option redis.Store
  clear_cancel task_id = redis.del (cancel task_id)

  unfoldable pub set_state : ℕ → List StateField → ℕ → redis.Store → Option redis.Store
  set_state task_id fields ttl = redis.hset (state task_id) fields ttl

  -- The engine's queue depth monitor: what it adds up, leaving out lists that it cannot read.
  unfoldable pub total_length : List Key → redis.Store → ℕ
  total_length [] s = 0
  total_length (k ∷ ks) s = or_else (redis.llen k s) 0 + total_length ks s
