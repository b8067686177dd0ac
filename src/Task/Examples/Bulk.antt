-- ===== src/Task/Examples/Bulk.antt =====
-- A bulk task with two children over two rounds of its poll.
use vm_orbit.Base.{
  ℕ, ◌*◌, ◌+◌, ◌/◌, ◌⊎◌, arith, ◌≡◌, refl, inr, String, map, true, false, ◌&&◌, some, List, [], ◌∷◌,
  if◌then◌else◌, ◌==◌, nat_eq, string_eq,
}
use vm_orbit.Base.{member}
use vm_orbit.Base.Map.{lookup}
use vm_orbit.Task.Model.{Task, TaskStatus, vm_bulk_snapshot, vm_snapshot}
use vm_orbit.Task.Payload.{Payload, text, flag}
use vm_orbit.Task.Bulk.{finished, Round, handle_bulk_parent, child_end, child_ids}
use vm_orbit.Task.Bulk.Poll.{handle_bulk_parent-finishes, ends_badly}
use vm_orbit.Task.Bulk.Enqueue.{
  BulkVm, BulkTask, BulkError, new_children, list_by_parent_id, enqueue_bulk_task, new_child,
}
use vm_orbit.Task.Bulk.Enqueue.Children.{
  enqueue_bulk_task-finishes, shown, wanted, Shown, IsApart, child_rows,
}
use vm_orbit.Task.Examples.{reboot}

-- Child 7 completes in the first round, child 8 is under way there and fails in the second.
abbrev first_round : Round
first_round = record {
  is_cancelled = false;
  row = λ id. if id == 7 then some TaskStatus.completed else some TaskStatus.running;
  context_done = false;
}

abbrev second_round : Round
second_round = record {
  is_cancelled = false;
  row = λ id. some TaskStatus.failed;
  context_done = false;
}

abbrev rounds : List Round
rounds = first_round ∷ second_round ∷ []

abbrev other : Task
other = record reboot { id = 8 }

abbrev share : ℕ → ℕ → ℕ
share done total = 85 * done / total

handle_bulk_parent-finishes_example :
    (bad : List ℕ) × ((handle_bulk_parent share
        (λ id. true)
        false
        rounds
        (inr (reboot ∷ other ∷ []))).1
      ≡ finished bad)
    × ((id : ℕ)
        → member id bad ≡ (member id (child_ids (reboot ∷ other ∷ [])) && ends_badly rounds id))
unfolding child_end child_ids
handle_bulk_parent-finishes_example =
    handle_bulk_parent-finishes share (λ id. true) rounds reboot (other ∷ []) refl refl

-- The children get the identifiers 7 and 8.
abbrev uuid : ℕ → String
uuid id = if id == 1 then "1" else "2"

abbrev show_ids : List String → String
show_ids ids = "[1 2]"

abbrev show_number : ℕ → String
show_number n = "2"

abbrev spec : Payload
spec = ("name", text "nightly") ∷ ("memory", flag false) ∷ []

abbrev machine : ℕ → BulkVm
machine i = record { id = i; hypervisor_id = 5; provider_vm_id = "vm-100" }

abbrev stored : List String → List BulkTask × (BulkError ⊎ ℕ)
stored ids =
    enqueue_bulk_task uuid show_ids show_number (λ i. i + 7) (λ t. true) 6 vm_bulk_snapshot
      vm_snapshot spec ids (some (machine 1 ∷ machine 2 ∷ []))

abbrev all_rows : List BulkTask
all_rows = (stored ("1" ∷ "2" ∷ [])).0

abbrev show : BulkTask → Shown
show = shown uuid show_ids show_number (λ i. i + 7) 6 vm_bulk_snapshot vm_snapshot spec

abbrev want : BulkVm → Shown
want = wanted uuid show_ids show_number (λ i. i + 7) 6 vm_bulk_snapshot vm_snapshot spec

spec-IsApart : IsApart spec
unfolding lookup
spec-IsApart = (refl, refl, refl)

enqueue_bulk_task-finishes_example :
    (bad : List ℕ) × ((stored ("1" ∷ "2" ∷ [])).1 ≡ inr 6)
    × (map show (child_rows 6 all_rows) ≡ want (machine 1) ∷ want (machine 2) ∷ [])
    × ((handle_bulk_parent share (λ id. true) false rounds (inr (list_by_parent_id 6 all_rows))).1
        ≡ finished bad)
    × ((id : ℕ)
        → member id bad
          ≡ (member id (child_ids (list_by_parent_id 6 all_rows)) && ends_badly rounds id))
unfolding child_end child_ids list_by_parent_id new_children new_child
enqueue_bulk_task-finishes_example =
    enqueue_bulk_task-finishes uuid show_ids show_number (λ i. i + 7) 6 vm_bulk_snapshot vm_snapshot
      spec ("1" ∷ "2" ∷ []) (machine 1) (machine 2 ∷ []) share (λ id. true) rounds spec-IsApart
      (ground arith) (ground arith) refl refl
