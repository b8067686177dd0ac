-- ===== src/Task/Examples/Parts.antt =====
-- The queue and the parts that throttle tasks, at concrete values.
use vm_orbit.Base.{ℕ, ◌≡◌, refl, List, [], ◌∷◌, string_eq, negsuc}
use vm_orbit.Task.Model.{inventory_sync}
use vm_orbit.Task.Redis.{queue, key_beq}
use vm_orbit.Task.Queue.{clamp, enqueue, dequeue, priority_queues, queues_from}
use vm_orbit.Task.Queue.Order.{view, place, enqueue-view, dequeue-view}
use vm_orbit.Task.Throttle.{Deduplicator, new_deduplicator, new_provider_semaphore, is_duplicate}
use vm_orbit.Task.Throttle.Slots.{
  SlotEvent, ask, try_, give_back, slot_run, IsBounded, slot_run-IsBounded,
}
use vm_orbit.Task.Examples.{Memory, memory_redis, start_store, put}

abbrev urgent_store : Memory
urgent_store = put (queue 1) (9 ∷ []) start_store

-- Priority -4 counts as 1.
enqueue-view_example :
    view memory_redis urgent_store ≡ place (clamp (negsuc 3)) 9 (view memory_redis start_store)
unfolding enqueue clamp key_beq
enqueue-view_example = enqueue-view memory_redis start_store urgent_store 9 (negsuc 3) refl

dequeue-view_example :
    (p : ℕ) × (view memory_redis start_store
      ≡ (p, 7) ∷ view memory_redis (put (queue 3) [] start_store))
unfolding dequeue priority_queues queues_from key_beq
dequeue-view_example = dequeue-view memory_redis start_store (put (queue 3) [] start_store) 7 refl

abbrev slot_events : List SlotEvent
slot_events = ask 1 ∷ ask 1 ∷ try_ 1 ∷ ask 1 ∷ give_back 1 ∷ ask 2 ∷ []

slot_run-IsBounded_example :
    IsBounded 3 (slot_run (record { semaphore = new_provider_semaphore 3; held = [] }) slot_events)
slot_run-IsBounded_example = slot_run-IsBounded 3 slot_events

abbrev synced : Deduplicator
synced = (is_duplicate inventory_sync "h" 100 (new_deduplicator 30)).0
