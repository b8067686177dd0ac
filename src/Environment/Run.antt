-- ===== src/Environment/Run.antt =====
-- internal/service/environment_service.go: createOrchestrationRun. The answers of the repositories
-- are an argument: what they hold, and whether each write succeeds.
pub mod Answered
pub mod Writes
use vm_orbit.Base.{
  ℕ, suc, String, ◌⊎◌, inl, inr, Bool, not, Option, none, some, List, [], ◌∷◌, ◌++◌, if◌then◌else◌,
  nat_eq, string_eq, length,
}
use vm_orbit.Environment.{
  EnvironmentVm, VmDependency, OrchestrationOperation, SortSlice, orchestration_task_type,
  compute_execution_order,
}
use vm_orbit.Task.Model.{TaskType}

pub data RunStatus : Type 0 where
  pending running completed failed cancelled rolling_back rolled_back : RunStatus

pub record OrchestrationRun : Type 0 where
  pub id : ℕ
  pub environment_id : ℕ
  pub operation : OrchestrationOperation
  pub status : RunStatus
  pub total_vms : ℕ

pub data StepStatus : Type 0 where
  pending running completed failed skipped : StepStatus

pub record OrchestrationStep : Type 0 where
  pub run_id : ℕ
  pub vm_id : ℕ
  pub execution_order : ℕ
  pub status : StepStatus

pub record RunTask : Type 0 where
  pub id : ℕ
  pub type : TaskType
  pub priority : ℕ
  pub max_retries : ℕ
  pub run_id : ℕ

-- The tables that the function writes.
pub record Tables : Type 0 where
  pub runs : List OrchestrationRun
  pub steps : List OrchestrationStep
  pub tasks : List RunTask
  pub audits : List ℕ

-- What the repositories answer, with `none` or `false` for an error, and the fresh identifiers.
pub record Answers : Type 0 where
  pub env : Option String
  pub env_vms : Option (List EnvironmentVm)
  pub deps : Option (List VmDependency)
  pub run_created : Bool
  pub steps_created : Bool
  pub task_created : Bool
  pub run_id : ℕ
  pub task_id : ℕ

pub data RunError : Type 0 where
  environment_not_found : RunError
  loading_vms : RunError
  no_vms : RunError
  loading_dependencies : RunError
  creating_run : RunError
  creating_steps : RunError
  creating_task : RunError

unfoldable pub steps_of : ℕ → ℕ → List EnvironmentVm → List OrchestrationStep
steps_of run i [] = []
steps_of run i (ev ∷ evs) =
    record { run_id = run; vm_id = ev.vm_id; execution_order = i; status = StepStatus.pending }
    ∷ steps_of run (suc i) evs

unfoldable pub new_run :
    Answers → ℕ → OrchestrationOperation → List EnvironmentVm → OrchestrationRun
new_run a env op ordered = record {
  id = a.run_id;
  environment_id = env;
  operation = op;
  status = RunStatus.pending;
  total_vms = length ordered;
}

unfoldable pub new_task : Answers → OrchestrationOperation → RunTask
new_task a op = record {
  id = a.task_id;
  type = orchestration_task_type op;
  priority = 5;
  max_retries = 1;
  run_id = a.run_id;
}

-- The writes, in their order; each ends the function when it fails.
unfoldable pub write_run :
    Answers → ℕ → OrchestrationOperation → List EnvironmentVm → Tables → Tables × (RunError ⊎ ℕ)
write_run a env op ordered t =
    if not a.run_created
    then (t, inl creating_run)
    else (let t1 = record t { runs = t.runs ++ new_run a env op ordered ∷ [] } in
        if not a.steps_created
        then (t1, inl creating_steps)
        else (let t2 = record t1 { steps = t1.steps ++ steps_of a.run_id 0 ordered } in
            if not a.task_created then (t2, inl creating_task) else (
              record t2 { tasks = t2.tasks ++ new_task a op ∷ []; audits = t2.audits ++ env ∷ [] },
              inr a.task_id,
            )))

-- The reads, each of which ends the function when it fails; `none` when the order has run out of
-- fuel.
unfoldable pub load_run :
    SortSlice
    → Answers
    → ℕ
    → OrchestrationOperation
    → Option String
    → Option (List EnvironmentVm)
    → Option (List VmDependency)
    → Tables
    → Option (Tables × (RunError ⊎ ℕ))
load_run s a env op none evs deps t = some (t, inl environment_not_found)
load_run s a env op (some name) none deps t = some (t, inl loading_vms)
load_run s a env op (some name) (some []) deps t = some (t, inl no_vms)
load_run s a env op (some name) (some (ev ∷ evs)) none t = some (t, inl loading_dependencies)
load_run s a env op (some name) (some (ev ∷ evs)) (some deps) t =
    elim (compute_execution_order s (ev ∷ evs) deps op) [
      | none ↦ none
      | some ordered ↦ some (write_run a env op ordered t)
    ]

unfoldable pub create_orchestration_run :
    SortSlice → Answers → ℕ → OrchestrationOperation → Tables → Option (Tables × (RunError ⊎ ℕ))
create_orchestration_run s a env op t = load_run s a env op a.env a.env_vms a.deps t
