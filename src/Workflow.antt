-- ===== src/Workflow.antt =====
-- internal/scheduler/workflow_engine.go, with internal/domain/model/workflow.go: workflows, their
-- actions and their runs. What actions do to the world outside is a parameter.
pub mod Actions
pub mod Engine
pub mod Runs
pub mod Limit
mod Examples
use vm_orbit.Base.{ℕ, String, Bool, Option, List, nat_eq, string_eq, ℤ}

pub data WorkflowTriggerType : Type 0 where
  schedule provider_disconnected sync_failure task_failure vm_state_change manual :
      WorkflowTriggerType

pub data WorkflowRunStatus : Type 0 where
  pending running completed failed cancelled : WorkflowRunStatus

-- The last one stands for any other text.
pub data WorkflowActionType : Type 0 where
  create_snapshot power_on power_off reboot send_notification trigger_sync webhook delay :
      WorkflowActionType
  unsupported : WorkflowActionType

-- A value under target_ids: texts, values of which some are texts, or anything else.
pub data TargetIds : Type 0 where
  strings : List String → TargetIds
  items : List (Option String) → TargetIds
  unreadable : TargetIds

-- The keys of an action's configuration that are read; a text that is missing reads as empty.
pub record ActionConfig : Type 0 where
  pub target_type : String
  pub target_ids : TargetIds
  pub name_template : String
  pub description : String
  pub message : String
  pub hypervisor_id : String
  pub url : String
  pub method : String
  pub body : String
  pub seconds : ℤ

pub record WorkflowAction : Type 0 where
  pub order : ℤ
  pub action_type : WorkflowActionType
  pub name : String
  pub config : ActionConfig
  pub retry_count : ℤ
  pub continue_on_error : Option Bool

-- A rule of the conditions, over the values `V` that JSON has.
pub record Rule (V : Type 0) : Type 0 where
  pub field : String
  pub operator : String
  pub value : Option V

-- The rules are missing, or a list in which `none` is no object.
pub record Workflow (V : Type 0) : Type 0 where
  pub id : ℕ
  pub name : String
  pub enabled : Bool
  pub trigger_type : WorkflowTriggerType
  pub rules : Option (List (Option (Rule V)))
  pub continue_on_error : Bool
  pub max_concurrent_runs : ℤ
  pub run_count : ℕ
  pub failure_count : ℕ
  pub actions : List WorkflowAction

pub data ActionError : Type 0 where
  resolving_tag operation_failed dispatch_failed missing_hypervisor_id enqueue_failed : ActionError
  missing_url request_failed bad_status interrupted unsupported_action : ActionError

pub record LogEntry : Type 0 where
  pub action : String
  pub action_type : WorkflowActionType
  pub order : ℤ
  pub error : Option ActionError

pub record WorkflowRun : Type 0 where
  pub id : ℕ
  pub workflow_id : ℕ
  pub status : WorkflowRunStatus
  pub trigger_type : WorkflowTriggerType
  pub error_message : Option ActionError
  pub actions_run : ℕ
  pub actions_failed : ℕ
  pub logs : List LogEntry
