-- ===== src/Task/Redis.antt =====
-- The Redis server, as internal/task/queue.go uses it: an interface with the documented effect of
-- each command. `none` is a command that failed, and left the store as it was. Keys are the
-- formats of queue.go: task:queue:%d, task:lock:%s, task:cancel:%s and task:state:%s.
use vm_orbit.Base.{
  ℕ, ◌≡◌, ◌↔◌, Bool, true, false, not, Option, none, some, List, [], ◌∷◌, arith, if◌then◌else◌,
  is_some, Eq, ◌==◌, nat_eq, length,
}
use vm_orbit.Task.Model.{TaskStatus}

pub data Key : Type 0 where
  queue lock cancel state : ℕ → Key

unfoldable pub key_beq : Key → Key → Bool
key_beq (queue a) (queue b) = a == b
key_beq (lock a) (lock b) = a == b
key_beq (cancel a) (cancel b) = a == b
key_beq (state a) (state b) = a == b
key_beq _ _ = false

pub key_beq_iff : (a b : Key) → (key_beq a b ≡ true) ↔ (a ≡ b)
unfolding key_beq
key_beq_iff (queue a) b = ground arith
key_beq_iff (lock a) b = ground arith
key_beq_iff (cancel a) b = ground arith
key_beq_iff (state a) b = ground arith

instance abbrev pub key_eq : Eq Key
key_eq = record { same = key_beq; same_iff = key_beq_iff }

-- A field of the live state of a task; times are in nanoseconds.
pub data StateField : Type 0 where
  status : TaskStatus → StateField
  started_at completed_at progress : ℕ → StateField

-- The last element of a list and those before it: the right end, where BRPOP takes.
abbrev pub unsnoc : List ℕ → Option (List ℕ × ℕ)
unsnoc [] = none
unsnoc (x ∷ xs) = elim (unsnoc xs) [ none ↦ some ([], x) | some (ys, y) ↦ some (x ∷ ys, y) ]

-- Which list BRPOP takes from, of several: the first that has an element.
abbrev pub first_filled : List Key → (Key → List ℕ) → Option (Key × List ℕ × ℕ)
first_filled [] at = none
first_filled (k ∷ ks) at = elim (unsnoc (at k)) [
  | none ↦ first_filled ks at
  | some (ys, y) ↦ some (k, ys, y)
]

-- `items` is the list at a key, its left end first; `has` is whether a key exists.
pub record Redis : Type 1 where
  pub Store : Type 0
  pub items : Key → Store → List ℕ
  pub has : Key → Store → Bool
  pub lpush : Key → ℕ → Store → Option Store
  -- The element popped; it blocks while all lists are empty, and then `none`.
  pub brpop : List Key → Store → Option (Store × ℕ)
  pub llen : Key → Store → Option ℕ
  -- SET key 1 NX, SET key 1, DEL, EXPIRE with a time to live, EXISTS.
  pub set_nx : Key → ℕ → Store → Option (Store × Bool)
  pub set : Key → ℕ → Store → Option Store
  pub del : Key → Store → Option Store
  pub expire : Key → ℕ → Store → Option Store
  pub exists : Key → Store → Option Bool
  -- HSET and EXPIRE in one pipeline.
  pub hset : Key → List StateField → ℕ → Store → Option Store
  pub lpush-items :
      (k j : Key) (v : ℕ) (s s' : Store)
      → lpush k v s ≡ some s'
      → items j s' ≡ (if k == j then v ∷ items j s else items j s)
  pub lpush-has :
      (k j : Key) (v : ℕ) (s s' : Store)
      → lpush k v s ≡ some s'
      → (k == j) ≡ false
      → has j s' ≡ has j s
  pub brpop-items :
      (ks : List Key) (s s' : Store) (v : ℕ)
      → brpop ks s ≡ some (s', v)
      → (k : Key) × (ys : List ℕ) × (first_filled ks (λ j. items j s) ≡ some (k, ys, v))
        × ((j : Key) → items j s' ≡ (if k == j then ys else items j s))
  pub llen-items : (k : Key) (s : Store) (n : ℕ) → llen k s ≡ some n → n ≡ length (items k s)
  pub set_nx-has :
      (k : Key) (ttl : ℕ) (s s' : Store) (b : Bool)
      → set_nx k ttl s ≡ some (s', b)
      → b ≡ not (has k s)
  pub set_nx_held : (k : Key) (ttl : ℕ) (s s' : Store) → set_nx k ttl s ≡ some (s', false) → s' ≡ s
  pub has-set_nx :
      (k j : Key) (ttl : ℕ) (s s' : Store)
      → set_nx k ttl s ≡ some (s', true)
      → has j s' ≡ (if k == j then true else has j s)
  pub has-del :
      (k j : Key) (s s' : Store)
      → del k s ≡ some s'
      → has j s' ≡ (if k == j then false else has j s)
  pub has-set :
      (k j : Key) (ttl : ℕ) (s s' : Store)
      → set k ttl s ≡ some s'
      → has j s' ≡ (if k == j then true else has j s)
  pub exists-has : (k : Key) (s : Store) (b : Bool) → exists k s ≡ some b → b ≡ has k s
  pub has-hset :
      (k j : Key) (fs : List StateField) (ttl : ℕ) (s s' : Store)
      → hset k fs ttl s ≡ some s'
      → (k == j) ≡ false
      → has j s' ≡ has j s

-- A server that answers the commands on locks and flags.
pub record AnswersLocks (redis : Redis) : Type 0 where
  pub set_nx_answers : (k : Key) (ttl : ℕ) (s : redis.Store) → is_some (redis.set_nx k ttl s) ≡ true
  pub del_answers : (k : Key) (s : redis.Store) → is_some (redis.del k s) ≡ true
  pub exists_answers : (k : Key) (s : redis.Store) → is_some (redis.exists k s) ≡ true
