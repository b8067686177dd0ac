-- ===== src/Workflow/Actions.antt =====
-- internal/scheduler/workflow_engine.go: the actions, and how often one is tried.
use vm_orbit.Base.{
  ℕ, zero, suc, ◌*◌, String, Bool, true, ◌||◌, Option, none, some, List, [], ◌∷◌, ◌++◌, ltb, leb,
  if◌then◌else◌, ◌==◌, nat_eq, string_eq, ℤ, pos, negsuc, pos_part,
}
use vm_orbit.Workflow.{
  WorkflowActionType, create_snapshot, power_on, power_off, reboot, send_notification, trigger_sync,
  webhook, delay, unsupported, TargetIds, strings, items, unreadable, ActionConfig, WorkflowAction,
  WorkflowRun, ActionError, resolving_tag, operation_failed, dispatch_failed, missing_hypervisor_id,
  enqueue_failed, missing_url, request_failed, bad_status, interrupted, unsupported_action,
}

pub record WebhookRequest : Type 0 where
  pub method : String
  pub url : String
  pub run_id : ℕ
  pub workflow_id : ℕ
  pub message : Option String

-- What an action calls, each with its effect on the world `E`. An operation on a machine gives the
-- identifier of a task, or `none` for an error; functions that may be nil are optional. A request
-- gives the status of the answer; a pause may be interrupted.
pub record WorkflowOps (E : Type 0) : Type 0 where
  pub vm_power_on : String → E → E × Option String
  pub vm_power_off : String → E → E × Option String
  pub vm_reboot : String → E → E × Option String
  pub vm_snapshot : String → String → String → E → E × Option String
  pub sync_inventory : String → E → E × Option String
  pub list_vms_by_tag : Option (String → E → E × Option (List String))
  pub dispatch_event : Option (ℕ → String → E → E × Bool)
  pub enqueue : Option (String → E → E × Bool)
  pub request : WebhookRequest → E → E × Option ℕ
  pub pause : ℕ → E → E × Bool
  pub sleep : ℕ → E → E
  pub default_name : String
  pub executed_message : String → ℕ → String

unfoldable pub texts_of : List (Option String) → List String
texts_of [] = []
texts_of (none ∷ vs) = texts_of vs
texts_of (some s ∷ vs) = s ∷ texts_of vs

unfoldable pub extract_string_slice : TargetIds → List String
extract_string_slice (strings vs) = vs
extract_string_slice (items vs) = texts_of vs
extract_string_slice unreadable = []

module _ {E : Type 0} (ops : WorkflowOps E) where
  -- The machines that carry one of the tags; an error ends the loop.
  unfoldable pub resolve_tags :
      (String → E → E × Option (List String))
      → List String
      → List String
      → E
      → E × Option (List String)
  resolve_tags list [] vm_ids e = (e, some vm_ids)
  resolve_tags list (tag ∷ tags) vm_ids e =
      let (e', found) = list tag e in
      elim found [ none ↦ (e', none) | some ids ↦ resolve_tags list tags (vm_ids ++ ids) e' ]

  unfoldable pub target_vms : ActionConfig → E → E × Option (List String)
  target_vms cfg e = elim ops.list_vms_by_tag [
    | none ↦ (e, some (extract_string_slice cfg.target_ids))
    | some list ↦
        if cfg.target_type == "tag"
        then resolve_tags list (extract_string_slice cfg.target_ids) [] e
        else (e, some (extract_string_slice cfg.target_ids))
  ]

  unfoldable pub enqueue_task : String → E → E × Bool
  enqueue_task task e = elim ops.enqueue [ none ↦ (e, true) | some enqueue ↦ enqueue task e ]

  -- The loop over the machines, in which an error of the queue is ignored.
  unfoldable pub each_vm :
      (String → E → E × Option String) → List String → E → E × Option ActionError
  each_vm op [] e = (e, none)
  each_vm op (vm ∷ vms) e =
      let (e', task) = op vm e in
      elim task [
        | none ↦ (e', some operation_failed)
        | some id ↦ each_vm op vms (enqueue_task id e').0
      ]

  unfoldable pub action_power_op :
      ActionConfig → (String → E → E × Option String) → E → E × Option ActionError
  action_power_op cfg op e =
      let (e', vms) = target_vms cfg e in
      elim vms [ none ↦ (e', some resolving_tag) | some ids ↦ each_vm op ids e' ]

  unfoldable pub action_create_snapshot : ActionConfig → E → E × Option ActionError
  action_create_snapshot cfg e =
      let name = if cfg.name_template == "" then ops.default_name else cfg.name_template in
      action_power_op cfg (ops.vm_snapshot name cfg.description) e

  unfoldable pub action_send_notification :
      ActionConfig → String → WorkflowRun → E → E × Option ActionError
  action_send_notification cfg name run e = elim ops.dispatch_event [
    | none ↦ (e, none)
    | some dispatch ↦
        let message = if cfg.message == "" then ops.executed_message name run.id else cfg.message in
        let (e', accepted) = dispatch run.workflow_id message e in
        (e', if accepted then none else some dispatch_failed)
  ]

  unfoldable pub action_trigger_sync : ActionConfig → E → E × Option ActionError
  action_trigger_sync cfg e =
      if cfg.hypervisor_id == ""
      then (e, some missing_hypervisor_id)
      else (let (e', task) = ops.sync_inventory cfg.hypervisor_id e in
          elim task [
            | none ↦ (e', some operation_failed)
            | some id ↦
                let (e'', accepted) = enqueue_task id e' in
                (e'', if accepted then none else some enqueue_failed)
          ])

  unfoldable pub action_webhook : ActionConfig → WorkflowRun → E → E × Option ActionError
  action_webhook cfg run e =
      if cfg.url == ""
      then (e, some missing_url)
      else (let (e', status) =
            ops.request
              (record {
                method = if cfg.method == "" then "POST" else cfg.method;
                url = cfg.url;
                run_id = run.id;
                workflow_id = run.workflow_id;
                message = if cfg.body == "" then none else some cfg.body;
              })
              e in
          elim status [
            | none ↦ (e', some request_failed)
            | some code ↦ (e', if ltb code 200 || leb 300 code then some bad_status else none)
          ])

  unfoldable pub action_delay : ActionConfig → E → E × Option ActionError
  action_delay cfg e =
      if pos_part cfg.seconds == 0
      then (e, none)
      else (let (e', elapsed) = ops.pause (pos_part cfg.seconds) e in
          (e', if elapsed then none else some interrupted))

  unfoldable pub run_action_by :
      WorkflowActionType → ActionConfig → String → WorkflowRun → E → E × Option ActionError
  run_action_by create_snapshot cfg name run e = action_create_snapshot cfg e
  run_action_by power_on cfg name run e = action_power_op cfg ops.vm_power_on e
  run_action_by power_off cfg name run e = action_power_op cfg ops.vm_power_off e
  run_action_by reboot cfg name run e = action_power_op cfg ops.vm_reboot e
  run_action_by send_notification cfg name run e = action_send_notification cfg name run e
  run_action_by trigger_sync cfg name run e = action_trigger_sync cfg e
  run_action_by webhook cfg name run e = action_webhook cfg run e
  run_action_by delay cfg name run e = action_delay cfg e
  run_action_by unsupported cfg name run e = (e, some unsupported_action)

  unfoldable pub run_action : String → WorkflowRun → WorkflowAction → E → E × Option ActionError
  run_action name run a e = run_action_by a.action_type a.config name run e

  -- The attempts from the given one, with as many left; `last` is the error of the one before.
  unfoldable pub attempts :
      ℕ
      → ℕ
      → String
      → WorkflowRun
      → WorkflowAction
      → Option ActionError
      → E
      → E × Option ActionError
  attempts zero attempt name run a last e = (e, last)
  attempts (suc left) attempt name run a last e =
      let (e', error) = run_action name run a e in
      elim error [
        | none ↦ (e', none)
        | some err ↦
            attempts left (suc attempt) name run a (some err)
              (if ltb 0 left then ops.sleep (attempt * attempt) e' else e')
      ]

  -- retry_count + 1 attempts, which is none for a negative count.
  abbrev pub max_attempts : ℤ → ℕ
  max_attempts (pos n) = suc n
  max_attempts (negsuc n) = 0

  unfoldable pub execute_action : String → WorkflowRun → WorkflowAction → E → E × Option ActionError
  execute_action name run a e = attempts (max_attempts a.retry_count) 1 name run a none e
