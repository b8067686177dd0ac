-- ===== src/EventBus.antt =====
-- internal/infrastructure/messaging/eventbus.go: the event bus of one process. A handler is a value;
-- publishing starts each of them on its own goroutine, so only which handlers it starts is modelled.
pub mod Subscriptions
mod Examples
use vm_orbit.Base.{ℕ, suc, String, Option, none, some, List, [], ◌∷◌, or_else, nat_eq, string_eq}
use vm_orbit.Base.Map.{Map, lookup, insert, remove}

pub data EventType : Type 0 where
  vm_status_changed task_status_changed task_progress task_log_appended task_cancelled : EventType
  hypervisor_connected hypervisor_disconnected inventory_synced platform_event : EventType

-- The text of each constant.
unfoldable pub event_name : EventType → String
event_name vm_status_changed = "vm.status_changed"
event_name task_status_changed = "task.status_changed"
event_name task_progress = "task.progress"
event_name task_log_appended = "task.log_appended"
event_name task_cancelled = "task.cancelled"
event_name hypervisor_connected = "hypervisor.connected"
event_name hypervisor_disconnected = "hypervisor.disconnected"
event_name inventory_synced = "inventory.synced"
event_name platform_event = "platform.event"

-- The handlers by the text of an event type and by their number.
pub record EventBus (H : Type 0) : Type 0 where
  pub handlers : Map String (Map ℕ H)
  pub next_id : ℕ

module _ {H : Type 0} where
  unfoldable pub new_event_bus : EventBus H
  new_event_bus = record { handlers = []; next_id = 0 }

  -- The handlers of an event type; none for one that was never subscribed to.
  unfoldable pub handlers_of : String → EventBus H → Map ℕ H
  handlers_of t b = or_else (lookup t b.handlers) []

  abbrev values : Map ℕ H → List H
  values [] = []
  values ((id, h) ∷ m) = h ∷ values m

  -- The handlers that Publish starts.
  unfoldable pub publish : String → EventBus H → List H
  publish t b = values (handlers_of t b)

  -- The bus, and the number that the returned function unsubscribes.
  unfoldable pub subscribe : String → H → EventBus H → EventBus H × ℕ
  subscribe t h b = (
    record {
      handlers = insert t (insert b.next_id h (handlers_of t b)) b.handlers;
      next_id = suc b.next_id;
    },
    b.next_id,
  )

  -- delete on a map that is not there does nothing.
  unfoldable pub delete_handler : String → ℕ → Option (Map ℕ H) → EventBus H → EventBus H
  delete_handler t id none b = b
  delete_handler t id (some hs) b = record b { handlers = insert t (remove id hs) b.handlers }

  unfoldable pub unsubscribe : String → ℕ → EventBus H → EventBus H
  unsubscribe t id b = delete_handler t id (lookup t b.handlers) b
