-- ===== src/Workflow/Examples.antt =====
-- A workflow of two actions, of which the first fails, over a world that counts what is called.
use vm_orbit.Base.{
  ℕ, suc, String, ◌≡◌, refl, true, false, Option, none, some, [], ◌∷◌, or_else, nat_eq, string_eq,
  pos, negsuc,
}
use vm_orbit.Workflow.{
  task_failure, manual, power_on, trigger_sync, strings, ActionConfig, WorkflowAction, Workflow,
  WorkflowRun, operation_failed,
}
use vm_orbit.Workflow.Actions.{WorkflowOps, execute_action}
use vm_orbit.Workflow.Engine.{
  WorkflowTables, new_run, count_active, create_run, admits, check_conditions, trigger_manual,
}
use vm_orbit.Workflow.Limit.{admits_overlap}

-- The calls so far; no machine can be started, and every inventory is read.
abbrev ops : WorkflowOps ℕ
ops = record {
  vm_power_on = λ vm n. (suc n, none);
  vm_power_off = λ vm n. (suc n, none);
  vm_reboot = λ vm n. (suc n, none);
  vm_snapshot = λ name description vm n. (suc n, none);
  sync_inventory = λ h n. (suc n, some "task-1");
  list_vms_by_tag = none;
  dispatch_event = none;
  enqueue = none;
  request = λ r n. (suc n, some 200);
  pause = λ s n. (n, true);
  sleep = λ s n. n;
  default_name = "workflow";
  executed_message = λ name id. name;
}

abbrev config : ActionConfig
config = record {
  target_type = "vm";
  target_ids = strings ("vm-1" ∷ []);
  name_template = "";
  description = "";
  message = "";
  hypervisor_id = "h1";
  url = "";
  method = "";
  body = "";
  seconds = pos 0;
}

abbrev power : WorkflowAction
power = record {
  order = pos 0;
  action_type = power_on;
  name = "start";
  config = config;
  retry_count = pos 2;
  continue_on_error = none;
}

abbrev sync : WorkflowAction
sync = record power { order = pos 1; action_type = trigger_sync; name = "sync" }

abbrev nightly : Workflow String
nightly = record {
  id = 4;
  name = "nightly";
  enabled = true;
  trigger_type = task_failure;
  rules = none;
  continue_on_error = false;
  max_concurrent_runs = pos 1;
  run_count = 0;
  failure_count = 0;
  actions = power ∷ sync ∷ [];
}

abbrev first_run : WorkflowRun
first_run = new_run nightly manual 0

abbrev tables : WorkflowTables String
tables = record { workflows = nightly ∷ []; runs = first_run ∷ []; next_id = 1 }

-- Two retries make three attempts, and a negative count of retries none, without an error.
three_attempts : execute_action ops "nightly" first_run power 0 ≡ (3, some operation_failed)
unfolding execute_action vm_orbit.Workflow.Actions.attempts vm_orbit.Workflow.Actions.run_action
    vm_orbit.Workflow.Actions.run_action_by vm_orbit.Workflow.Actions.action_power_op
    vm_orbit.Workflow.Actions.target_vms vm_orbit.Workflow.Actions.extract_string_slice
    vm_orbit.Workflow.Actions.each_vm
three_attempts = refl

no_attempt :
    execute_action ops "nightly" first_run (record power { retry_count = negsuc 0 }) 0 ≡ (0, none)
unfolding execute_action vm_orbit.Workflow.Actions.attempts
no_attempt = refl

abbrev shown : Option String → String
shown v = or_else v "<nil>"

abbrev no_runs : WorkflowTables String
no_runs = record { workflows = nightly ∷ []; runs = []; next_id = 1 }

admits_overlap_example :
    let t1 = (create_run true nightly task_failure no_runs).0 in
    let t2 = (create_run true nightly task_failure t1).0 in
    (admits shown true (λ field. none) nightly no_runs ≡ true)
    × (admits shown true (λ field. some field) nightly no_runs ≡ true)
    × (count_active 4 t2.runs ≡ 2)
    × (admits shown true (λ field. some field) nightly t1 ≡ false)
unfolding count_active check_conditions
admits_overlap_example =
    admits_overlap shown task_failure task_failure (λ field. none) (λ field. some field) nightly
      no_runs 0 refl refl refl

-- A manual trigger does not look at the limit.
manual_beyond : count_active 4 (trigger_manual true (some nightly) tables).0.runs ≡ 2
unfolding trigger_manual create_run count_active new_run
manual_beyond = refl
