-- ===== src/Task/Queue/Order.antt =====
-- The priority lists as one queue: entries with their priority, the next one first.
use mathlib.Core.List.{append_assoc}
use vm_orbit.Base.{
  ℕ, zero, suc, ◌+◌, ◌≤◌, ◌<◌, ◌≡◌, refl, sym, ap, ◌∙◌, inl, inr, none, some, List, [], ◌∷◌, ◌++◌,
  arith, leb, if◌then◌else◌, nat_beq_iff, Bool-cases, Option-cases, ◌==◌, nat_eq, beq_refl, All, ℤ,
}
use vm_orbit.Base.{some_inj}
use native.Mathlib.Nat.{le_refl}
use vm_orbit.Task.Redis.{Key, queue, key_eq, key_beq, Redis, unsnoc, first_filled}
use vm_orbit.Task.Queue.{queues_from, priority_queues, clamp, enqueue, dequeue}

-- A list at one priority, with the end where it is popped first.
abbrev pub band : ℕ → List ℕ → List (ℕ × ℕ)
band p [] = []
band p (x ∷ xs) = band p xs ++ (p, x) ∷ []

abbrev pub view_from : ℕ → ℕ → (Key → List ℕ) → List (ℕ × ℕ)
view_from first zero at = []
view_from first (suc n) at = band first (at (queue first)) ++ view_from (suc first) n at

-- The abstract queue of a store.
unfoldable pub view : (redis : Redis) → redis.Store → List (ℕ × ℕ)
view redis s = view_from 1 10 (λ k. redis.items k s)

-- A new entry goes behind all whose priority is not worse.
unfoldable pub place : ℕ → ℕ → List (ℕ × ℕ) → List (ℕ × ℕ)
place p x [] = (p, x) ∷ []
place p x ((q, y) ∷ r) =
    let rest = place p x r in if leb q p then (q, y) ∷ rest else (p, x) ∷ (q, y) ∷ r

place_later :
    (p q x y : ℕ) (r : List (ℕ × ℕ)) → q ≤ p → place p x ((q, y) ∷ r) ≡ (q, y) ∷ place p x r
unfolding place
place_later p q x y r h = ground arith

place_here : (p q x y : ℕ) (r : List (ℕ × ℕ)) → p < q → place p x ((q, y) ∷ r) ≡ (p, x) ∷ (q, y) ∷ r
unfolding place
place_here p q x y r h = ground arith

place-band :
    (p q x : ℕ) (ys : List ℕ) (r : List (ℕ × ℕ))
    → q ≤ p
    → place p x (band q ys ++ r) ≡ band q ys ++ place p x r
place-band p q x [] r h = refl
place-band p q x (y ∷ ys) r h =
    ap (place p x) (append_assoc (band q ys) ((q, y) ∷ []) r)
    ∙ place-band p q x ys ((q, y) ∷ r) h
    ∙ ap (λ l. band q ys ++ l) (place_later p q x y r h)
    ∙ sym (append_assoc (band q ys) ((q, y) ∷ []) (place p x r))

-- A queue in which all entries stand at worse priorities.
abbrev AllAfter : ℕ → List (ℕ × ℕ) → Type 0
AllAfter p l = All (λ e. p < e.0) l

band-AllAfter :
    (p q : ℕ) (ys : List ℕ) (r : List (ℕ × ℕ)) → p < q → AllAfter p r → AllAfter p (band q ys ++ r)
band-AllAfter p q [] r h a = a
band-AllAfter p q (y ∷ ys) r h a =
    rw (append_assoc (band q ys) ((q, y) ∷ []) r) (band-AllAfter p q ys ((q, y) ∷ r) h (h, a))

view_from-AllAfter :
    (p first n : ℕ) (at : Key → List ℕ) → p < first → AllAfter p (view_from first n at)
view_from-AllAfter p first zero at h = tt
view_from-AllAfter p first (suc n) at h =
    band-AllAfter p first (at (queue first)) (view_from (suc first) n at) h
      (view_from-AllAfter p (suc first) n at (omega arith))

place-AllAfter : (p x : ℕ) (l : List (ℕ × ℕ)) → AllAfter p l → place p x l ≡ (p, x) ∷ l
unfolding place
place-AllAfter p x [] a = refl
place-AllAfter p x ((q, y) ∷ r) a = place_here p q x y r a.0

view_from-cong :
    (first n : ℕ) (at at' : Key → List ℕ)
    → ((j : ℕ) → first ≤ j → at' (queue j) ≡ at (queue j))
    → view_from first n at' ≡ view_from first n at
view_from-cong first zero at at' e = refl
view_from-cong first (suc n) at at' e =
    rw (e first (omega arith), view_from-cong (suc first) n at at' (λ j h. e j (omega arith))) refl

away : (p j : ℕ) (a b c : List ℕ) → a ≡ (if p == j then b else c) → p < j → a ≡ c
away p j a b c e h = ground arith

view_from-lpush :
    (p x first n : ℕ) (at at' : Key → List ℕ)
    → first ≤ p
    → p < first + n
    → ((j : ℕ) → at' (queue j) ≡ (if p == j then x ∷ at (queue j) else at (queue j)))
    → view_from first n at' ≡ place p x (view_from first n at)
view_from-lpush p x first zero at at' h k e = ground arith
view_from-lpush p x first (suc n) at at' h k e = elim (Bool-cases (p == first)) [
  | inl same ↦
      let eq : p ≡ first = (nat_beq_iff p first).0 same in
      let head : at' (queue first) ≡ x ∷ at (queue first) = rw same at (e first) in
      let tail = view_from-cong (suc first) n at at' (λ j later.
        away p j (at' (queue j)) (x ∷ at (queue j)) (at (queue j)) (e j) (omega arith)) in
      let rest = view_from (suc first) n at in
      let last = place-AllAfter p x rest (view_from-AllAfter p (suc first) n at (omega arith)) in
      rw (head, tail)
        (append_assoc (band first (at (queue first))) ((first, x) ∷ []) rest
          ∙ ap (λ q. band first (at (queue first)) ++ (q, x) ∷ rest) (sym eq)
          ∙ sym (
              place-band p first x (at (queue first)) rest (omega arith)
              ∙ ap (λ l. band first (at (queue first)) ++ l) last))
  | inr other ↦
      let head : at' (queue first) ≡ at (queue first) = rw other at (e first) in
      let later : first < p = ground arith in
      rw (head, view_from-lpush p x (suc first) n at at' later (omega arith) e)
        (sym (place-band p first x (at (queue first)) (view_from (suc first) n at) h))
]

unsnoc-none : (xs : List ℕ) → unsnoc xs ≡ none → xs ≡ []
unsnoc-none [] h = refl
unsnoc-none (x ∷ xs) h = ground arith

unsnoc-band :
    (p : ℕ) (xs ys : List ℕ) (y : ℕ) → unsnoc xs ≡ some (ys, y) → band p xs ≡ (p, y) ∷ band p ys
unsnoc-band p [] ys y h = ground arith
unsnoc-band p (x ∷ xs) ys y h = elim (Option-cases (unsnoc xs)) [
  | inl e ↦
      let g : ([], x) ≡ (ys, y) = some_inj (rw e at h) in
      rw (unsnoc-none xs e, sym (ap (λ q. q.0) g), sym (ap (λ q. q.1) g)) refl
  | inr ((zs, z), e) ↦
      let g : (x ∷ zs, z) ≡ (ys, y) = some_inj (rw e at h) in
      rw (unsnoc-band p xs zs z e, sym (ap (λ q. q.0) g), sym (ap (λ q. q.1) g)) refl
]

elsewhere : (p j : ℕ) (a b c : List ℕ) → a ≡ (if p == j then b else c) → j < p → a ≡ c
elsewhere p j a b c e h = ground arith

-- Where the next entry stands, in terms of the abstract queue.
first_filled-view :
    (first n v : ℕ) (at at' : Key → List ℕ) (k : Key) (ys : List ℕ)
    → first_filled (queues_from first n) at ≡ some (k, ys, v)
    → ((j : Key) → at' j ≡ (if k == j then ys else at j))
    → (p : ℕ) × (first ≤ p)
      × (k ≡ queue p)
      × (view_from first n at ≡ (p, v) ∷ view_from first n at')
unfolding queues_from key_beq
first_filled-view first zero v at at' k ys h e = ground arith
first_filled-view first (suc n) v at at' k ys h e =
    elim (Option-cases (unsnoc (at (queue first)))) [
      | inl none_here ↦
          let (p, later, at_p, rest) =
            first_filled-view (suc first) n v at at' k ys (rw (none_here, first_filled) at h) e in
          let untouched : at' (queue first) ≡ at (queue first) =
            elsewhere p first (at' (queue first)) ys (at (queue first))
              (rw at_p at (e (queue first))) later in
          (p, omega arith, at_p, rw (untouched, unsnoc-none (at (queue first)) none_here) rest)
      | inr ((zs, z), here) ↦
          let g : (queue first, zs, z) ≡ (k, ys, v) = some_inj (rw (here, first_filled) at h) in
          let head : at' (queue first) ≡ zs =
            rw (sym (ap (λ q. q.0) g), beq_refl first) at (e (queue first))
            ∙ sym (ap (λ q. q.1) g) in
          let tail = view_from-cong (suc first) n at at' (λ j later.
            away first j (at' (queue j)) ys (at (queue j))
              (rw (sym (ap (λ q. q.0) g)) at (e (queue j))) later) in
          (
            first,
            le_refl first,
            sym (ap (λ q. q.0) g),
            rw (unsnoc-band first (at (queue first)) zs z here, head, tail, ap (λ q. q.2) g) refl,
          )
    ]

clamp-bounds : (priority : ℤ) → (1 ≤ clamp priority) × (clamp priority ≤ 10)
unfolding clamp
clamp-bounds priority = ground arith

-- An enqueue that succeeds puts the task into the queue behind all entries whose priority, clamped
-- to 1..10, is not worse, and before all others: the priority lists are a stable priority queue.
pub enqueue-view :
    (redis : Redis) (s s' : redis.Store) (id : ℕ) (priority : ℤ)
    → enqueue redis id priority s ≡ some s'
    → view redis s' ≡ place (clamp priority) id (view redis s)
unfolding enqueue view key_beq
enqueue-view redis s s' id priority e =
    let (low, high) = clamp-bounds priority in
    view_from-lpush (clamp priority) id 1 10 (λ k. redis.items k s) (λ k. redis.items k s') low
      (omega arith) (λ j. redis.lpush-items (queue (clamp priority)) (queue j) id s s' e)

-- A task that a worker dequeues is the first entry of the queue, and nothing else is gone.
pub dequeue-view :
    (redis : Redis) (s s' : redis.Store) (id : ℕ)
    → dequeue redis s ≡ some (s', id)
    → (p : ℕ) × (view redis s ≡ (p, id) ∷ view redis s')
unfolding dequeue view priority_queues key_beq
dequeue-view redis s s' id e =
    let (k, ys, next, after) = redis.brpop-items (queues_from 1 10) s s' id e in
    let (p, _, _, v) =
      first_filled-view 1 10 id (λ j. redis.items j s) (λ j. redis.items j s') k ys next after in
    (p, v)
