-- ===== src/Task/Bulk/Enqueue.antt =====
-- internal/service/vm_service.go: enqueueBulkTask, which stores the parent of a bulk operation and a
-- child for each machine, and the query for the children.
pub mod Children
use vm_orbit.Base.{
  ℕ, suc, String, ◌⊎◌, inl, inr, Bool, false, Option, none, some, List, [], ◌∷◌, ltb, if◌then◌else◌,
  ◌==◌, nat_eq, string_eq, length, pos,
}
use vm_orbit.Task.Model.{Task, TaskType, TaskStatus, type_name}
use vm_orbit.Task.Payload.{Payload, text, other}
use vm_orbit.Base.Map.{insert}

pub record BulkVm : Type 0 where
  pub id : ℕ
  pub hypervisor_id : ℕ
  pub provider_vm_id : String

-- A row of the tasks, with the parent and the payload.
pub record BulkTask : Type 0 where
  pub task : Task
  pub parent : Option ℕ
  pub payload : Payload

pub data BulkError : Type 0 where
  no_ids too_many loading_vms no_valid_vms creating_parent : BulkError

-- `uuid`, `show_ids` and `show_number` print an identifier, the named machines and a number, `fresh`
-- gives the children's identifiers, and `creates` is whether a row can be stored.
module _ (uuid : ℕ → String) (show_ids : List String → String) (show_number : ℕ → String)
    (fresh : ℕ → ℕ) (creates : BulkTask → Bool) (parent_id : ℕ) (parent_type child_type : TaskType)
    (extra : Payload) where
  -- The row as it is stored: MaxRetries is 0 here, for which GORM leaves the column its default of 3.
  unfoldable pub new_parent : List String → List BulkVm → BulkTask
  new_parent ids vms = record {
    task = record {
      id = parent_id;
      type = parent_type;
      status = TaskStatus.pending;
      priority = pos 5;
      progress = 0;
      error_message = "";
      retry_count = 0;
      max_retries = 3;
      hypervisor_id = none;
      vm_id = none;
    };
    parent = none;
    payload =
        ("vm_ids", other (show_ids ids))
        ∷ ("vm_count", other (show_number (length vms)))
        ∷ ("child_type", text (type_name child_type))
        ∷ [];
  }

  -- payload[k] = v for every entry.
  unfoldable pub with_entries : Payload → Payload → Payload
  with_entries [] payload = payload
  with_entries ((k, v) ∷ entries) payload = with_entries entries (insert k v payload)

  unfoldable pub new_child : ℕ → BulkVm → BulkTask
  new_child i vm = record {
    task = record {
      id = fresh i;
      type = child_type;
      status = TaskStatus.pending;
      priority = pos 5;
      progress = 0;
      error_message = "";
      retry_count = 0;
      max_retries = 3;
      hypervisor_id = some vm.hypervisor_id;
      vm_id = some vm.id;
    };
    parent = some parent_id;
    payload = with_entries extra (
        ("vm_id", text (uuid vm.id))
        ∷ ("provider_vm_id", text vm.provider_vm_id)
        ∷ ("hypervisor_id", text (uuid vm.hypervisor_id))
        ∷ []);
  }

  -- A child that cannot be stored is left out.
  unfoldable pub new_children : ℕ → List BulkVm → List BulkTask
  new_children i [] = []
  new_children i (vm ∷ vms) =
      let rest = new_children (suc i) vms in
      if creates (new_child i vm) then new_child i vm ∷ rest else rest

  unfoldable pub store_bulk : List String → Option (List BulkVm) → List BulkTask × (BulkError ⊎ ℕ)
  store_bulk ids none = ([], inl loading_vms)
  store_bulk ids (some []) = ([], inl no_valid_vms)
  store_bulk ids (some (vm ∷ vms)) =
      if creates (new_parent ids (vm ∷ vms))
      then (new_parent ids (vm ∷ vms) ∷ new_children 0 (vm ∷ vms), inr parent_id)
      else ([], inl creating_parent)

  -- The rows that it stores, and the parent's identifier. `vms` is what GetByIDs answers.
  unfoldable pub enqueue_bulk_task :
      List String → Option (List BulkVm) → List BulkTask × (BulkError ⊎ ℕ)
  enqueue_bulk_task ids vms =
      if length ids == 0
      then ([], inl no_ids)
      else if ltb 100 (length ids)
      then ([], inl too_many)
      else store_bulk ids vms

-- TaskRepo.ListByParentID, in the order in which the rows were stored.
abbrev pub is_child_of : ℕ → Option ℕ → Bool
is_child_of p none = false
is_child_of p (some q) = q == p

unfoldable pub list_by_parent_id : ℕ → List BulkTask → List Task
list_by_parent_id p [] = []
list_by_parent_id p (t ∷ ts) =
    let rest = list_by_parent_id p ts in if is_child_of p t.parent then t.task ∷ rest else rest
