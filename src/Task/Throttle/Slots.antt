-- ===== src/Task/Throttle/Slots.antt =====
-- The concurrency limit over any sequence of acquisitions and releases.
use vm_orbit.Base.{
  ℕ, suc, ◌-◌, ◌≤◌, ◌<◌, ◌≡◌, refl, true, false, some, List, [], ◌∷◌, arith, ltb, if◌then◌else◌,
  nat_beq_iff, or_else, ◌==◌, nat_eq, count_if,
}
use vm_orbit.Base.Map.{lookup, lookup-insert}
use vm_orbit.Task.Throttle.{
  ProviderSemaphore, new_provider_semaphore, sem, try_acquire, acquire, release_slot, granted,
  refused, blocked,
}

-- What a worker does; only one that holds a slot calls the release function, and once.
pub data SlotEvent : Type 0 where
  ask try_ : ℕ → SlotEvent
  give_up give_back : ℕ → SlotEvent

-- The semaphore, and the hypervisors of the slots that workers hold.
pub record Usage : Type 0 where
  pub semaphore : ProviderSemaphore
  pub held : List ℕ

unfoldable pub take_away : ℕ → List ℕ → List ℕ
take_away id [] = []
take_away id (x ∷ xs) = let rest = take_away id xs in if x == id then xs else x ∷ rest

unfoldable pub holds : ℕ → List ℕ → ℕ
holds id xs = count_if (λ x. x == id) xs

unfoldable pub slot_step : Usage → SlotEvent → Usage
unfolding take_away holds
slot_step u (ask id) =
    let (ps, r) = acquire (some id) false u.semaphore in
    record {
      semaphore = ps;
      held = elim r [ granted ↦ id ∷ u.held | refused ↦ u.held | blocked ↦ u.held ];
    }
slot_step u (give_up id) = record u { semaphore = (acquire (some id) true u.semaphore).0 }
slot_step u (try_ id) =
    let (ps, ok) = try_acquire (some id) u.semaphore in
    record { semaphore = ps; held = if ok then id ∷ u.held else u.held }
slot_step u (give_back id) =
    if ltb 0 (holds id u.held)
    then record { semaphore = release_slot (some id) u.semaphore; held = take_away id u.held }
    else u

pub slot_run : Usage → List SlotEvent → Usage
slot_run u [] = u
slot_run u (e ∷ es) = slot_run (slot_step u e) es

abbrev used : ℕ → ProviderSemaphore → ℕ
used id ps = or_else (lookup id ps.sems) 0

-- Each channel holds as many elements as workers hold slots, and at most the limit.
pub record IsBounded (max : ℕ) (u : Usage) : Type 0 where
  pub limit : u.semaphore.max ≡ max
  pub counted : (id : ℕ) → used id u.semaphore ≡ holds id u.held
  pub bounded : (id : ℕ) → holds id u.held ≤ max

holds-take_away :
    (id j : ℕ) (xs : List ℕ)
    → 0 < holds id xs
    → holds j (take_away id xs) ≡ (if id == j then holds j xs - 1 else holds j xs)
unfolding holds take_away
holds-take_away id j [] h = ground arith
holds-take_away id j (x ∷ xs) h = ground (arith, holds-take_away id j xs)

sem-used : (id j : ℕ) (ps : ProviderSemaphore) → used j (sem id ps).0 ≡ used j ps
unfolding sem
sem-used id j ps = ground (arith, lookup-insert id j 0 ps.sems)

sem-count : (id : ℕ) (ps : ProviderSemaphore) → (sem id ps).1 ≡ used id ps
unfolding sem
sem-count id ps = ground arith

sem-max : (id : ℕ) (ps : ProviderSemaphore) → (sem id ps).0.max ≡ ps.max
unfolding sem
sem-max id ps = ground arith

slot_step-IsBounded :
    (max : ℕ) (u : Usage) (e : SlotEvent) → IsBounded max u → IsBounded max (slot_step u e)
unfolding slot_step acquire try_acquire release_slot holds
slot_step-IsBounded max u (ask id) b =
    let (ps, used_here) = sem id u.semaphore in
    let raised = λ (j : ℕ). lookup-insert id j (suc used_here) ps.sems in
    record {
      limit = ground (arith, b.limit, sem-max id u.semaphore);
      counted = λ j. ground (
        arith,
        raised j,
        sem-used id j u.semaphore,
        b.counted j,
        sem-count id u.semaphore,
        b.counted id,
        nat_beq_iff id j,
      );
      bounded = λ j. ground (
        arith,
        b.bounded j,
        sem-count id u.semaphore,
        sem-max id u.semaphore,
        b.limit,
        b.counted id,
        nat_beq_iff id j,
      );
    }
slot_step-IsBounded max u (try_ id) b =
    let (ps, used_here) = sem id u.semaphore in
    let raised = λ (j : ℕ). lookup-insert id j (suc used_here) ps.sems in
    record {
      limit = ground (arith, b.limit, sem-max id u.semaphore);
      counted = λ j. ground (
        arith,
        raised j,
        sem-used id j u.semaphore,
        b.counted j,
        sem-count id u.semaphore,
        b.counted id,
        nat_beq_iff id j,
      );
      bounded = λ j. ground (
        arith,
        b.bounded j,
        sem-count id u.semaphore,
        sem-max id u.semaphore,
        b.limit,
        b.counted id,
        nat_beq_iff id j,
      );
    }
slot_step-IsBounded max u (give_up id) b = record {
  limit = ground (arith, sem-max id u.semaphore, b.limit);
  counted = λ j. ground (arith, sem-used id j u.semaphore, b.counted j);
  bounded = b.bounded;
}
slot_step-IsBounded max u (give_back id) b =
    let lowered =
      λ (j : ℕ). lookup-insert id j (or_else (lookup id u.semaphore.sems) 0 - 1) u.semaphore.sems in
    record {
      limit = ground (arith, b.limit);
      counted = λ j. ground (
        arith,
        lowered j,
        b.counted j,
        b.counted id,
        holds-take_away id j u.held,
        nat_beq_iff id j,
      );
      bounded = λ j. ground (arith, b.bounded j, holds-take_away id j u.held);
    }

run_from :
    (max : ℕ) (u : Usage) (es : List SlotEvent) → IsBounded max u → IsBounded max (slot_run u es)
unfolding slot_run
run_from max u [] b = b
run_from max u (e ∷ es) b = run_from max (slot_step u e) es (slot_step-IsBounded max u e b)

-- Whatever workers do, from the start each hypervisor has at most the given number of slots held
-- at once, and its channel holds one element for each.
pub slot_run-IsBounded :
    (max : ℕ) (es : List SlotEvent)
    → IsBounded max (slot_run (record { semaphore = new_provider_semaphore max; held = [] }) es)
unfolding new_provider_semaphore holds lookup
slot_run-IsBounded max es =
    run_from max (record { semaphore = new_provider_semaphore max; held = [] }) es
      (record { limit = refl; counted = λ id. refl; bounded = λ id. omega arith })
