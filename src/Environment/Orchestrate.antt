-- ===== src/Environment/Orchestrate.antt =====
-- internal/task/environment_handlers.go: handleEnvOperation, which takes the steps of a run in order,
-- dispatches a task per machine and waits for it. What the repositories and the queue answer during
-- a step is an argument; the writes that the handler asks for are a list, in order, since it ignores
-- whether they succeed. The percentage of done steps is computed in float64, and is a parameter.
pub mod Counts
pub mod Cancelled
use vm_orbit.Base.{
  ℕ, suc, ◌+◌, String, ◌⊎◌, inl, inr, Bool, true, false, ◌&&◌, ◌||◌, Option, none, some, List, [],
  ◌∷◌, ◌++◌, ltb, if◌then◌else◌, ◌==◌, nat_eq, string_eq, length,
}
use vm_orbit.Environment.{OrchestrationOperation, start, stop, restart, snapshot, clone}
use vm_orbit.Environment.Run.{RunStatus, StepStatus}
use vm_orbit.Task.Model.{
  TaskStatus, TaskType, vm_power_on, vm_power_off, vm_reboot, vm_snapshot, vm_clone,
}
use vm_orbit.Task.Payload.{Payload, text, flag, string_from_payload, bool_from_payload}

-- A tick of waitForTask before its timer fires: the context is done, the row cannot be read, or it
-- has a status and an error message.
pub data Tick : Type 0 where
  context_done : Tick
  unreadable : String → Tick
  seen : TaskStatus → String → Tick

pub data WaitError : Type 0 where
  wait_cancelled wait_timeout task_was_cancelled task_timed_out : WaitError
  polling_failed task_failed : String → WaitError

abbrev pub failure_message : String → String
failure_message m = if m == "" then "task failed" else m

-- When the ticks are over, the timer fires. `none` is success.
unfoldable pub wait_for_task : List Tick → Option WaitError
wait_for_task [] = some wait_timeout
wait_for_task (context_done ∷ ticks) = some wait_cancelled
wait_for_task (unreadable e ∷ ticks) = some (polling_failed e)
wait_for_task (seen TaskStatus.completed m ∷ ticks) = none
wait_for_task (seen TaskStatus.failed m ∷ ticks) = some (task_failed (failure_message m))
wait_for_task (seen TaskStatus.cancelled m ∷ ticks) = some task_was_cancelled
wait_for_task (seen TaskStatus.timed_out m ∷ ticks) = some task_timed_out
wait_for_task (seen _ m ∷ ticks) = wait_for_task ticks

pub record VmRow : Type 0 where
  pub id : ℕ
  pub name : String
  pub provider_vm_id : String
  pub hypervisor_id : ℕ

-- The child task of a step.
pub record VmTask : Type 0 where
  pub id : ℕ
  pub type : TaskType
  pub priority : ℕ
  pub max_retries : ℕ
  pub vm_id : ℕ
  pub hypervisor_id : ℕ
  pub payload : Payload

abbrev pub DispatchError : Type 0
DispatchError = String

-- What the dispatch and the wait of a step meet; `uuid` prints an identifier, and `stamp` is the
-- time that names a snapshot without a name.
pub record StepInput : Type 0 where
  pub step_id : ℕ
  pub vm_id : ℕ
  pub is_cancelled : Bool
  pub vm : String ⊎ VmRow
  pub task_id : ℕ
  pub create_error : Option String
  pub ticks : List Tick
  pub stamp : String

module _ (uuid : ℕ → String) (join : String → String → String) where
  unfoldable pub base_payload : VmRow → Payload
  base_payload vm =
      ("vm_id", text (uuid vm.id))
      ∷ ("provider_vm_id", text vm.provider_vm_id)
      ∷ ("hypervisor_id", text (uuid vm.hypervisor_id))
      ∷ []

  abbrev pub or_text : String → String → String
  or_text s fallback = if s == "" then fallback else s

  unfoldable pub child_type : OrchestrationOperation → TaskType
  child_type start = vm_power_on
  child_type stop = vm_power_off
  child_type restart = vm_reboot
  child_type snapshot = vm_snapshot
  child_type clone = vm_clone

  unfoldable pub child_payload : OrchestrationOperation → Payload → String → VmRow → Payload
  child_payload start parent stamp vm = base_payload vm
  child_payload stop parent stamp vm = base_payload vm
  child_payload restart parent stamp vm = base_payload vm
  child_payload snapshot parent stamp vm =
      base_payload vm
      ++ ((
        "name",
        text (
            join
              (join
                (or_text (string_from_payload parent "snapshot_name") (join "env-snapshot-" stamp))
                "-")
              vm.name),
      )
          ∷ ("description", text (string_from_payload parent "description"))
          ∷ ("memory", flag (bool_from_payload parent "memory"))
          ∷ [])
  child_payload clone parent stamp vm =
      base_payload vm
      ++ ((
        "name",
        text (join vm.name (or_text (string_from_payload parent "name_suffix") "-clone")),
      )
          ∷ [])

  unfoldable pub new_child : OrchestrationOperation → Payload → StepInput → VmRow → VmTask
  new_child op parent i vm = record {
    id = i.task_id;
    type = child_type op;
    priority = 5;
    max_retries = 2;
    vm_id = vm.id;
    hypervisor_id = vm.hypervisor_id;
    payload = child_payload op parent i.stamp vm;
  }

-- The run's error message.
pub data RunMessage : Type 0 where
  no_message cancelled_by_user : RunMessage
  loading_failed : String → RunMessage
  vms_failed : ℕ → ℕ → RunMessage

pub data StepError : Type 0 where
  no_error : StepError
  dispatch_failed : String → StepError
  wait_failed : WaitError → StepError

-- What the handler asks the environment service, the repository and the queue to write, and the
-- refresh of the environment's status that it starts at the end. The task's own progress, which it
-- reports beside that of the run, is left out.
pub data Write : Type 0 where
  run_status : RunStatus → RunMessage → Write
  run_progress : ℕ → ℕ → ℕ → ℕ → Write
  step_status : ℕ → StepStatus → Option ℕ → StepError → Write
  create_task : VmTask → Write
  enqueue_task : ℕ → ℕ → Write
  refresh_environment : Write

pub data EnvResult : Type 0 where
  done was_cancelled missing_payload : EnvResult
  loading_steps : String → EnvResult
  all_vms_failed : ℕ → EnvResult

-- The counters of the loop; `skipped` stays 0.
pub record Counters : Type 0 where
  pub completed : ℕ
  pub failed : ℕ

unfoldable pub final_status : Counters → RunStatus
final_status c =
    if ltb 0 c.failed && (c.completed == 0) then RunStatus.failed else RunStatus.completed

unfoldable pub final_message : Counters → ℕ → RunMessage
final_message c total = if ltb 0 c.failed then vms_failed c.failed total else no_message

unfoldable pub final_result : Counters → EnvResult
final_result c = if ltb 0 c.failed && (c.completed == 0) then all_vms_failed c.failed else done

abbrev pub counted : Bool → Counters → Counters
counted true c = record { completed = suc c.completed; failed = c.failed }
counted false c = record { completed = c.completed; failed = suc c.failed }

-- `share done total` is int(float64(done)/float64(total)*85).
module _ (uuid : ℕ → String) (join : String → String → String) (share : ℕ → ℕ → ℕ)
    (op : OrchestrationOperation) (parent : Payload) where
  -- The end of a step: its row, and whether it succeeded.
  abbrev pub StepEnd : Type 0
  StepEnd = List Write × Bool

  unfoldable pub waited : ℕ → ℕ → Option WaitError → StepEnd
  waited step task none = (step_status step StepStatus.completed (some task) no_error ∷ [], true)
  waited step task (some e) =
      (step_status step StepStatus.failed (some task) (wait_failed e) ∷ [], false)

  unfoldable pub dispatched : StepInput → Option String → VmTask → StepEnd
  dispatched i (some e) child = (
    create_task child ∷ step_status i.step_id StepStatus.failed none (dispatch_failed e) ∷ [],
    false,
  )
  dispatched i none child =
      let ended = waited i.step_id i.task_id (wait_for_task i.ticks) in
      (create_task child ∷ enqueue_task i.task_id 5 ∷ ended.0, ended.1)

  unfoldable pub dispatch_vm : StepInput → String ⊎ VmRow → StepEnd
  dispatch_vm i (inl e) =
      (step_status i.step_id StepStatus.failed none (dispatch_failed e) ∷ [], false)
  dispatch_vm i (inr vm) = dispatched i i.create_error (new_child uuid join op parent i vm)

  unfoldable pub run_step : StepInput → StepEnd
  run_step i =
      let ended = dispatch_vm i i.vm in
      (step_status i.step_id StepStatus.running none no_error ∷ ended.0, ended.1)

  unfoldable pub finish_run : ℕ → Counters → List Write × EnvResult
  finish_run total c = (
    run_status (final_status c) (final_message c total)
        ∷ run_progress 100 c.completed c.failed 0
        ∷ refresh_environment
        ∷ [],
    final_result c,
  )

  -- `k` steps are done.
  unfoldable pub run_steps : ℕ → ℕ → List StepInput → Counters → List Write × EnvResult
  run_steps total k [] c = finish_run total c
  run_steps total k (i ∷ inputs) c =
      let ended = run_step i in
      let after = counted ended.1 c in
      let rest = run_steps total (suc k) inputs after in
      if i.is_cancelled
      then (run_status RunStatus.cancelled cancelled_by_user ∷ [], was_cancelled)
      else (
        ended.0
            ++ (run_progress (10 + share (suc k) total) after.completed after.failed 0 ∷ rest.0),
        rest.1,
      )

  unfoldable pub steps_loaded : String ⊎ List StepInput → List Write × EnvResult
  steps_loaded (inl e) = (run_status RunStatus.failed (loading_failed e) ∷ [], loading_steps e)
  steps_loaded (inr []) = (run_status RunStatus.completed no_message ∷ [], done)
  steps_loaded (inr (i ∷ inputs)) =
      run_steps (length (i ∷ inputs)) 0 (i ∷ inputs) (record { completed = 0; failed = 0 })

  unfoldable pub handle_env_operation : String ⊎ List StepInput → List Write × EnvResult
  handle_env_operation steps =
      let ended = steps_loaded steps in
      if (string_from_payload parent "run_id" == "")
        || (string_from_payload parent "environment_id" == "")
      then ([], missing_payload)
      else (run_status RunStatus.running no_message ∷ ended.0, ended.1)
