-- ===== src/Task/Examples.antt =====
-- The task engine over a store and a database in memory, which always answer.
mod Engine
mod Parts
mod Bulk
use vm_orbit.Base.{
  ℕ, ◌≡◌, refl, sym, ap, ◌∙◌, inl, inr, Bool, true, false, not, Option, none, some, List, [], ◌∷◌,
  arith, if◌then◌else◌, Bool-cases, Option-cases, ◌==◌, nat_eq, length, pos,
}
use vm_orbit.Base.{some_inj}
use vm_orbit.Task.Model.{Task, vm_reboot, queued, with_status, with_progress}
use vm_orbit.Task.Redis.{
  Redis, Key, key_eq, key_beq_iff, key_beq, queue, first_filled, AnswersLocks,
}
use vm_orbit.Task.Repository.{TaskRepository, Answers, map_option}
use vm_orbit.Task.Engine.{World, TaskEngineConfig}

pub record Memory : Type 0 where
  pub lists : Key → List ℕ
  pub keys : Key → Bool

abbrev pub put : Key → List ℕ → Memory → Memory
put k xs s = record s { lists = λ j. if k == j then xs else s.lists j }

abbrev pub mark : Key → Bool → Memory → Memory
mark k b s = record s { keys = λ j. if k == j then b else s.keys j }

abbrev pub memory_brpop : List Key → Memory → Option (Memory × ℕ)
memory_brpop ks s = elim (first_filled ks s.lists) [
  | none ↦ none
  | some (k, ys, y) ↦ some (put k ys s, y)
]

abbrev pub memory_set_nx : Key → ℕ → Memory → Option (Memory × Bool)
memory_set_nx k ttl s = if s.keys k then some (s, false) else some (mark k true s, true)

pub brpop_law :
    (ks : List Key) (s s' : Memory) (v : ℕ)
    → memory_brpop ks s ≡ some (s', v)
    → (k : Key) × (ys : List ℕ) × (first_filled ks (λ j. s.lists j) ≡ some (k, ys, v))
      × ((j : Key) → s'.lists j ≡ (if k == j then ys else s.lists j))
brpop_law ks s s' v e = elim (Option-cases (first_filled ks s.lists)) [
  | inl f ↦ ground arith
  | inr ((k, ys, y), f) ↦
      let g : (put k ys s, y) ≡ (s', v) = some_inj (rw (f, memory_brpop) at e) in
      (k, ys, f ∙ rw (ap (λ q. q.1) g) refl, (λ j. ap (λ q. q.0.lists j) (sym g)))
]

pub set_nx_law :
    (k : Key) (ttl : ℕ) (s s' : Memory) (b : Bool)
    → memory_set_nx k ttl s ≡ some (s', b)
    → (b ≡ not (s.keys k))
      × (b ≡ false → s' ≡ s)
      × (b ≡ true → (j : Key) → s'.keys j ≡ (if k == j then true else s.keys j))
set_nx_law k ttl s s' b e = elim (Bool-cases (s.keys k)) [
  | inl held ↦
      let g : (s, false) ≡ (s', b) = some_inj (rw (held, memory_set_nx) at e) in
      let b_is : false ≡ b = ap (λ q. q.1) g in
      (rw (held, sym b_is) refl, (λ _. ap (λ q. q.0) (sym g)), (λ t j. ground arith))
  | inr free ↦
      let g : (mark k true s, true) ≡ (s', b) = some_inj (rw (free, memory_set_nx) at e) in
      let b_is : true ≡ b = ap (λ q. q.1) g in
      (rw (free, sym b_is) refl, (λ f. ground arith), (λ _ j. ap (λ q. q.0.keys j) (sym g)))
]

pub same_list :
    (k j : Key) (v : ℕ) (s : Memory)
    → (if k == j then v ∷ s.lists k else s.lists j) ≡ (if k == j then v ∷ s.lists j else s.lists j)
unfolding key_beq
same_list k j v s = elim (Bool-cases (k == j)) [
  | inl same ↦ rw (same) (ap (λ i. v ∷ s.lists i) ((key_beq_iff k j).0 same))
  | inr other ↦ rw other refl
]

abbrev pub memory_redis : Redis
memory_redis = record {
  Store = Memory;
  items = λ k s. s.lists k;
  has = λ k s. s.keys k;
  lpush = λ k v s. some (put k (v ∷ s.lists k) s);
  brpop = memory_brpop;
  llen = λ k s. some (length (s.lists k));
  set_nx = memory_set_nx;
  set = λ k ttl s. some (mark k true s);
  del = λ k s. some (mark k false s);
  expire = λ k ttl s. some s;
  exists = λ k s. some (s.keys k);
  hset = λ k fs ttl s. some (mark k true s);
  lpush-items = λ k j v s s' e. ap (λ t. t.lists j) (sym (some_inj e)) ∙ same_list k j v s;
  lpush-has = λ k j v s s' e other. ap (λ t. t.keys j) (sym (some_inj e));
  brpop-items = brpop_law;
  llen-items = λ k s n e. sym (some_inj e);
  set_nx-has = λ k ttl s s' b e. (set_nx_law k ttl s s' b e).0;
  set_nx_held = λ k ttl s s' e. (set_nx_law k ttl s s' false e).1 refl;
  has-set_nx = λ k j ttl s s' e. (set_nx_law k ttl s s' true e).2 refl j;
  has-del = λ k j s s' e. ap (λ t. t.keys j) (sym (some_inj e));
  has-set = λ k j ttl s s' e. ap (λ t. t.keys j) (sym (some_inj e));
  exists-has = λ k s b e. sym (some_inj e);
  has-hset = λ k j fs ttl s s' e other. ap (λ t. t.keys j) (sym (some_inj e)) ∙ rw other refl;
}

pub memory_redis_answers : AnswersLocks memory_redis
memory_redis_answers = record {
  set_nx_answers = λ k ttl s. ground arith;
  del_answers = λ k s. refl;
  exists_answers = λ k s. refl;
}

-- Rows by their id.
abbrev pub memory_repo : TaskRepository
memory_repo = record {
  Db = ℕ → Option Task;
  get_by_id = λ i d. d i;
  update_status = λ i s m d. some (λ j. if i == j then map_option (with_status s m) (d j) else d j);
  update_progress = λ i p d. some (λ j. if i == j then map_option (with_progress p) (d j) else d j);
  list_pending = λ n d. some [];
  get-update_status = λ i j s m d d' e. ap (λ r. r j) (sym (some_inj e));
  get-update_progress = λ i j p d d' e. ap (λ r. r j) (sym (some_inj e));
}

pub memory_repo_answers : Answers memory_repo
memory_repo_answers = record { status_answers = λ i s m d. refl; progress_answers = λ i p d. refl }

-- A reboot with three attempts, waiting in the third list.
abbrev pub reboot : Task
reboot = record {
  id = 7;
  type = vm_reboot;
  status = queued;
  priority = pos 3;
  progress = 0;
  error_message = "";
  retry_count = 0;
  max_retries = 3;
  hypervisor_id = none;
  vm_id = some 40;
}

abbrev pub start_store : Memory
start_store = put (queue 3) (7 ∷ []) (record { lists = λ k. []; keys = λ k. false })

abbrev pub world : World memory_redis memory_repo
world = record {
  db = λ i. if i == 7 then some reboot else none;
  store = start_store;
  delayed = [];
  prov_sem = record { sems = []; max = 3 };
  backpressure = record { queue_size = 1; hwm = 800 };
  published = [];
}

abbrev pub config : TaskEngineConfig
config = record {
  worker_count = 4;
  queue_size = 1000;
  lock_ttl = 300000000000;
  task_ttl = 60000000000;
  retry_base_delay = 5000000000;
}
