-- ===== src/Task/Model.antt =====
-- internal/domain/model/task.go: statuses, types and the row of a task. A UUID is the 128-bit number
-- that it encodes. The columns that the engine neither reads nor writes are left out.
use vm_orbit.Base.{ℕ, String, Bool, true, false, Option, ℤ}

pub data TaskStatus : Type 0 where
  pending queued running completed failed cancelled retrying timed_out : TaskStatus

-- `TaskTypeVMClone` and `TaskTypeVMCloneOp` are one string.
pub data TaskType : Type 0 where
  vm_power_on vm_power_off vm_reboot vm_suspend vm_create vm_delete vm_clone vm_snapshot : TaskType
  vm_snapshot_delete vm_restore vm_migrate inventory_sync hypervisor_sync : TaskType
  vm_bulk_power_on vm_bulk_power_off vm_bulk_reboot vm_bulk_snapshot : TaskType
  template_sync vm_provision : TaskType
  env_start env_stop env_restart env_snapshot env_clone : TaskType

pub record Task : Type 0 where
  pub id : ℕ
  pub type : TaskType
  pub status : TaskStatus
  pub priority : ℤ
  pub progress : ℕ
  pub error_message : String
  pub retry_count : ℕ
  pub max_retries : ℕ
  pub hypervisor_id : Option ℕ
  pub vm_id : Option ℕ

abbrev pub is_cancelled_status : TaskStatus → Bool
is_cancelled_status cancelled = true
is_cancelled_status _ = false

-- What `UpdateStatus` sets in the row, and `UpdateProgress`.
abbrev pub with_status : TaskStatus → String → Task → Task
with_status s message t = record t { status = s; error_message = message }

abbrev pub with_progress : ℕ → Task → Task
with_progress p t = record t { progress = p }

-- The text of each constant.
unfoldable pub type_name : TaskType → String
type_name vm_power_on = "vm.power_on"
type_name vm_power_off = "vm.power_off"
type_name vm_reboot = "vm.reboot"
type_name vm_suspend = "vm.suspend"
type_name vm_create = "vm.create"
type_name vm_delete = "vm.delete"
type_name vm_clone = "vm.clone"
type_name vm_snapshot = "vm.snapshot"
type_name vm_snapshot_delete = "vm.snapshot.delete"
type_name vm_restore = "vm.restore"
type_name vm_migrate = "vm.migrate"
type_name inventory_sync = "inventory.sync"
type_name hypervisor_sync = "hypervisor.sync"
type_name vm_bulk_power_on = "vm.bulk.power_on"
type_name vm_bulk_power_off = "vm.bulk.power_off"
type_name vm_bulk_reboot = "vm.bulk.reboot"
type_name vm_bulk_snapshot = "vm.bulk.snapshot"
type_name template_sync = "template.sync"
type_name vm_provision = "vm.provision"
type_name env_start = "env.start"
type_name env_stop = "env.stop"
type_name env_restart = "env.restart"
type_name env_snapshot = "env.snapshot"
type_name env_clone = "env.clone"
