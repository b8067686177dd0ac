-- ===== src/Scheduler/Fire.antt =====
-- internal/scheduler/engine.go: fire, dispatch and computeNextRun. The infrastructure operations
-- that start tasks, the clock and the repositories' answers are a parameter.
use vm_orbit.Base.{
  ℕ, suc, String, ◌⊎◌, inl, inr, Bool, false, not, ◌&&◌, ◌||◌, Option, none, some, List, [], ◌∷◌,
  ◌++◌, ltb, leb, if◌then◌else◌, or_else, ◌==◌, nat_eq, string_eq,
}
use vm_orbit.Scheduler.Cron.{CronTexts, parse_cron}
use vm_orbit.Scheduler.Next.{Calendar, next}

pub data ScheduleType : Type 0 where
  once daily weekly monthly cron : ScheduleType

pub data ScheduleStatus : Type 0 where
  active paused disabled expired : ScheduleStatus

-- The last one stands for any other text.
pub data ScheduleOperationType : Type 0 where
  inventory_sync vm_power_on vm_power_off vm_reboot vm_snapshot : ScheduleOperationType
  vm_bulk_power_on vm_bulk_power_off vm_bulk_reboot vm_bulk_snapshot : ScheduleOperationType
  unsupported : ScheduleOperationType

pub data RunOutcome : Type 0 where
  success failed : RunOutcome

pub record Schedule (T : Type 0) : Type 0 where
  pub id : ℕ
  pub name : String
  pub operation_type : ScheduleOperationType
  pub target_ids : List String
  pub schedule_type : ScheduleType
  pub cron_expression : T
  pub timezone : String
  pub status : ScheduleStatus
  pub last_run_at : Option ℕ
  pub next_run_at : Option ℕ
  pub last_task_id : Option String
  pub last_run_status : Option RunOutcome
  pub run_count : ℕ
  pub failure_count : ℕ
  pub max_runs : ℕ
  pub expires_at : Option ℕ
  pub snapshot_name : Option String

pub data ExecutionStatus : Type 0 where
  triggered failed : ExecutionStatus

pub data DispatchError : Type 0 where
  no_targets : DispatchError
  operation_failed : DispatchError
  unsupported_operation : DispatchError

pub record ScheduleExecution : Type 0 where
  pub schedule_id : ℕ
  pub task_id : Option String
  pub status : ExecutionStatus
  pub error_message : Option DispatchError
  pub triggered_at : ℕ

pub record SnapshotSpec : Type 0 where
  pub name : String
  pub description : String

-- Each operation gives the identifier of the task that it has stored, or `none` for an error.
pub record SchedulerOps : Type 0 where
  pub sync_inventory : String → Option String
  pub power_on : String → Option String
  pub power_off : String → Option String
  pub reboot : String → Option String
  pub snapshot : SnapshotSpec → String → Option String
  pub bulk_power_on : List String → Option String
  pub bulk_power_off : List String → Option String
  pub bulk_reboot : List String → Option String
  pub bulk_snapshot : SnapshotSpec → List String → Option String

-- What else a run reads: the name of a snapshot at this time, the descriptions for a schedule's
-- name, of one snapshot and of several, whether Enqueue succeeds, the time when the expiry is checked, the locations, and whether the writes succeed.
pub record World : Type 0 where
  pub ops : SchedulerOps
  pub scheduled_name : String
  pub describe : String → String
  pub describe_bulk : String → String
  pub enqueues : String → Bool
  pub now : ℕ
  pub load_location : String → Option Calendar
  pub utc : Calendar
  pub execution_created : Bool
  pub schedule_updated : Bool

-- The queue of tasks, the executions, and the schedule as it is stored, which need not be as it
-- was when it was listed.
pub record SchedulerStore (T : Type 0) : Type 0 where
  pub enqueued : List String
  pub executions : List ScheduleExecution
  pub stored : Schedule T

-- An error of Enqueue is dropped: the task is stored, and not in the queue.
abbrev pub pushed : (String → Bool) → String → List String → List String
pushed enqueues task queue = if enqueues task then queue ++ task ∷ [] else queue

module _ (enqueues : String → Bool) where
  -- The loop over the targets: a failure ends it, after the tasks before it were enqueued.
  unfoldable pub dispatch_each :
      (String → Option String)
      → List String
      → String
      → List String
      → List String × (DispatchError ⊎ String)
  dispatch_each op [] first queue = (queue, inr first)
  dispatch_each op (target ∷ targets) first queue = elim (op target) [
    | none ↦ (queue, inl operation_failed)
    | some task ↦
        dispatch_each op targets (if first == "" then task else first) (pushed enqueues task queue)
  ]

  unfoldable pub dispatch_vm_op :
      (String → Option String) → List String → List String → List String × (DispatchError ⊎ String)
  dispatch_vm_op op [] queue = (queue, inl no_targets)
  dispatch_vm_op op (target ∷ targets) queue = dispatch_each op (target ∷ targets) "" queue

  unfoldable pub dispatch_bulk_op :
      (List String → Option String)
      → List String
      → List String
      → List String × (DispatchError ⊎ String)
  dispatch_bulk_op op [] queue = (queue, inl no_targets)
  dispatch_bulk_op op (target ∷ targets) queue = elim (op (target ∷ targets)) [
    | none ↦ (queue, inl operation_failed)
    | some task ↦ (pushed enqueues task queue, inr task)
  ]

module _ {T : Type 0} (w : World) where
  -- The name in the payload, unless it is missing or empty.
  unfoldable pub snapshot_spec : (String → String) → Schedule T → SnapshotSpec
  snapshot_spec describe s =
      let given = or_else s.snapshot_name "" in
      record {
        name = if not (given == "") then given else w.scheduled_name;
        description = describe s.name;
      }

  unfoldable pub dispatch_by :
      ScheduleOperationType → Schedule T → List String → List String × (DispatchError ⊎ String)
  dispatch_by inventory_sync s queue =
      dispatch_vm_op w.enqueues w.ops.sync_inventory s.target_ids queue
  dispatch_by vm_power_on s queue = dispatch_vm_op w.enqueues w.ops.power_on s.target_ids queue
  dispatch_by vm_power_off s queue = dispatch_vm_op w.enqueues w.ops.power_off s.target_ids queue
  dispatch_by vm_reboot s queue = dispatch_vm_op w.enqueues w.ops.reboot s.target_ids queue
  dispatch_by vm_snapshot s queue =
      dispatch_vm_op w.enqueues (w.ops.snapshot (snapshot_spec w.describe s)) s.target_ids queue
  dispatch_by vm_bulk_power_on s queue =
      dispatch_bulk_op w.enqueues w.ops.bulk_power_on s.target_ids queue
  dispatch_by vm_bulk_power_off s queue =
      dispatch_bulk_op w.enqueues w.ops.bulk_power_off s.target_ids queue
  dispatch_by vm_bulk_reboot s queue =
      dispatch_bulk_op w.enqueues w.ops.bulk_reboot s.target_ids queue
  dispatch_by vm_bulk_snapshot s queue =
      dispatch_bulk_op w.enqueues (w.ops.bulk_snapshot (snapshot_spec w.describe_bulk s))
        s.target_ids queue
  dispatch_by unsupported s queue = (queue, inl unsupported_operation)

  unfoldable pub dispatch : Schedule T → List String → List String × (DispatchError ⊎ String)
  dispatch s queue = dispatch_by s.operation_type s queue

pub data NextRun : Type 0 where
  search_unfinished invalid_cron : NextRun
  next_at : Option ℕ → NextRun

abbrev pub is_past : World → Option ℕ → Bool
is_past w none = false
is_past w (some t) = ltb t w.now

abbrev pub found_run : Option (Option ℕ) → NextRun
found_run none = search_unfinished
found_run (some found) = next_at found

module _ {T : Type 0} (x : CronTexts T) (w : World) where
  -- For a schedule that runs more than once.
  unfoldable pub next_cron : Schedule T → ℕ → NextRun
  next_cron s after = elim (parse_cron x s.cron_expression) [
    | none ↦ invalid_cron
    | some cs ↦ found_run (next (or_else (w.load_location s.timezone) w.utc) cs after)
  ]

  unfoldable pub next_run_by : ScheduleType → Schedule T → ℕ → NextRun
  next_run_by once s after = next_at none
  next_run_by _ s after = next_cron s after

  unfoldable pub compute_next_run : Schedule T → ℕ → NextRun
  compute_next_run s after = next_run_by s.schedule_type s after

  unfoldable pub new_status : Schedule T → ScheduleStatus
  new_status s =
      if (ltb 0 s.max_runs && leb s.max_runs (suc s.run_count)) || is_past w s.expires_at
      then expired
      else s.status

  unfoldable pub execution_of : Schedule T → ℕ → DispatchError ⊎ String → ScheduleExecution
  execution_of s fired_at (inl e) = record {
    schedule_id = s.id;
    task_id = none;
    status = ExecutionStatus.failed;
    error_message = some e;
    triggered_at = fired_at;
  }
  execution_of s fired_at (inr task) = record {
    schedule_id = s.id;
    task_id = if not (task == "") then some task else none;
    status = triggered;
    error_message = none;
    triggered_at = fired_at;
  }

  -- UpdateAfterRun (internal/infrastructure/repository/schedule_repo.go): the columns that a run sets, over the schedule as it is stored.
  unfoldable pub after_run :
      Schedule T → ℕ → Option ℕ → DispatchError ⊎ String → Schedule T → Schedule T
  after_run s fired_at next_run r stored = record stored {
    last_run_at = some fired_at;
    next_run_at = next_run;
    last_task_id = elim (execution_of s fired_at r).task_id [
      | none ↦ stored.last_task_id
      | some task ↦ some task
    ];
    last_run_status = some (elim r [ inl e ↦ RunOutcome.failed | inr task ↦ success ]);
    run_count = suc s.run_count;
    failure_count = elim r [ inl e ↦ suc s.failure_count | inr task ↦ s.failure_count ];
    status = new_status s;
  }

  -- A run with the time of the next one: tasks, then the execution, then the schedule.
  unfoldable pub run_schedule : Schedule T → ℕ → Option ℕ → SchedulerStore T → SchedulerStore T
  run_schedule s fired_at next_run st =
      let (queue, r) = dispatch w s st.enqueued in
      record {
        enqueued = queue;
        executions =
            if w.execution_created
            then st.executions ++ execution_of s fired_at r ∷ []
            else st.executions;
        stored =
            if w.schedule_updated then after_run s fired_at next_run r st.stored else st.stored;
      }

  -- `s` is the schedule as it was listed.
  unfoldable pub fire : Schedule T → ℕ → SchedulerStore T → Option (SchedulerStore T)
  fire s fired_at st = elim (compute_next_run s fired_at) [
    | search_unfinished ↦ none
    | invalid_cron ↦ some st
    | next_at next_run ↦ some (run_schedule s fired_at next_run st)
  ]
