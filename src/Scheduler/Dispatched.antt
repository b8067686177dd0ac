-- ===== src/Scheduler/Dispatched.antt =====
-- What a run of a schedule starts and records.
use vm_orbit.Base.{
  ℕ, suc, ◌+◌, String, ◌≡◌, ◌⊎◌, inl, inr, Bool, ◌&&◌, ◌||◌, Option, none, some, List, [], ◌∷◌,
  ◌++◌, ltb, leb, if◌then◌else◌, ◌==◌, nat_eq, string_eq, keep_if,
}
use vm_orbit.Scheduler.Fire.{
  Schedule, expired, ScheduleOperationType, inventory_sync, vm_power_on, vm_power_off, vm_reboot,
  vm_snapshot, vm_bulk_power_on, vm_bulk_power_off, vm_bulk_reboot, vm_bulk_snapshot, unsupported,
  DispatchError, World, SchedulerStore, ScheduleExecution, snapshot_spec, dispatch, is_past,
}

-- The tasks of the targets before the first one that fails.
abbrev pub started_each : (String → Option String) → List String → List String
started_each op [] = []
started_each op (target ∷ targets) = elim (op target) [
  | none ↦ []
  | some task ↦ task ∷ started_each op targets
]

abbrev pub started_bulk : (List String → Option String) → List String → List String
started_bulk op [] = []
started_bulk op (target ∷ targets) = elim (op (target ∷ targets)) [
  | none ↦ []
  | some task ↦ task ∷ []
]

-- The tasks that a schedule starts, by its operation.
abbrev pub started_by : {T : Type 0} → World → ScheduleOperationType → Schedule T → List String
started_by w inventory_sync s = started_each w.ops.sync_inventory s.target_ids
started_by w vm_power_on s = started_each w.ops.power_on s.target_ids
started_by w vm_power_off s = started_each w.ops.power_off s.target_ids
started_by w vm_reboot s = started_each w.ops.reboot s.target_ids
started_by w vm_snapshot s =
    started_each (w.ops.snapshot (snapshot_spec w w.describe s)) s.target_ids
started_by w vm_bulk_power_on s = started_bulk w.ops.bulk_power_on s.target_ids
started_by w vm_bulk_power_off s = started_bulk w.ops.bulk_power_off s.target_ids
started_by w vm_bulk_reboot s = started_bulk w.ops.bulk_reboot s.target_ids
started_by w vm_bulk_snapshot s =
    started_bulk (w.ops.bulk_snapshot (snapshot_spec w w.describe_bulk s)) s.target_ids
started_by w unsupported s = []

-- The failure of a dispatch, as a number.
abbrev pub failures : DispatchError ⊎ String → ℕ
failures (inl e) = 1
failures (inr task) = 0

abbrev pub has_ended : {T : Type 0} → World → Schedule T → Bool
has_ended w s = (ltb 0 s.max_runs && leb s.max_runs (suc s.run_count)) || is_past w s.expires_at

abbrev pub error_of : DispatchError ⊎ String → Option DispatchError
error_of (inl e) = some e
error_of (inr task) = none

-- The first task, unless the dispatch failed or gave the empty identifier.
abbrev pub task_of : DispatchError ⊎ String → Option String
task_of (inl e) = none
task_of (inr task) = if task == "" then none else some task

-- The record of a run at a time, by the result of its dispatch.
abbrev pub Recorded :
    {T : Type 0} → Schedule T → ℕ → DispatchError ⊎ String → ScheduleExecution → Type 0
Recorded s fired_at r ex =
    (ex.schedule_id ≡ s.id)
    × (ex.triggered_at ≡ fired_at)
    × (ex.error_message ≡ error_of r)
    × (ex.task_id ≡ task_of r)

-- A run whose next time is given has enqueued what it started and recorded itself once.
abbrev pub Fired :
    {T : Type 0} → World → Schedule T → ℕ → Option ℕ → SchedulerStore T → SchedulerStore T → Type 0
Fired w s fired_at next_run st st' =
    (ex : ScheduleExecution) × (st'.enqueued
      ≡ st.enqueued ++ keep_if w.enqueues (started_by w s.operation_type s))
    × (st'.executions ≡ st.executions ++ ex ∷ [])
    × Recorded s fired_at (dispatch w s st.enqueued).1 ex
    × (st'.stored.last_run_at ≡ some fired_at)
    × (st'.stored.next_run_at ≡ next_run)
    × (st'.stored.run_count ≡ suc s.run_count)
    × (st'.stored.failure_count ≡ s.failure_count + failures (dispatch w s st.enqueued).1)
    × (st'.stored.status ≡ (if has_ended w s then expired else s.status))
