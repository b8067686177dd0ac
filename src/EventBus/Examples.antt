-- ===== src/EventBus/Examples.antt =====
-- A bus with one subscription.
use vm_orbit.Base.Map.{insert}
use vm_orbit.Base.Map.{lookup}
use vm_orbit.EventBus.{handlers_of}
use vm_orbit.Base.{ℕ, ◌≡◌, refl, [], ◌∷◌, nat_eq, string_eq}
use vm_orbit.EventBus.{EventBus, new_event_bus, subscribe, publish}

abbrev bus : EventBus ℕ
bus = (subscribe "task.progress" 100 new_event_bus).0

published : publish "task.progress" bus ≡ 100 ∷ []
unfolding publish handlers_of lookup subscribe insert new_event_bus
published = refl
