-- ===== src/Environment/OrchestrateExamples.antt =====
-- A run of an environment over two machines.
use vm_orbit.Base.Map.{lookup}
use vm_orbit.Base.{
  ℕ, ◌*◌, ◌/◌, String, ◌≡◌, refl, inr, Bool, true, false, none, List, [], ◌∷◌, ◌++◌, nat_eq,
  string_eq,
}
use vm_orbit.Environment.{start}
use vm_orbit.Environment.Run.{RunStatus}
use vm_orbit.Task.Model.{TaskStatus}
use vm_orbit.Task.Payload.{Payload, text, string_from_payload}
use vm_orbit.Environment.Orchestrate.{
  StepInput, Tick, seen, VmRow, Write, run_status, run_progress, refresh_environment, EnvResult,
  done, vms_failed, wait_for_task, handle_env_operation,
}
use vm_orbit.Environment.Orchestrate.Counts.{handle_env_operation-ends}

abbrev machine : VmRow
machine = record { id = 1; name = "web"; provider_vm_id = "vm-1"; hypervisor_id = 5 }

abbrev step : Bool → List Tick → StepInput
step cancelled ticks = record {
  step_id = 10;
  vm_id = 1;
  is_cancelled = cancelled;
  vm = inr machine;
  task_id = 20;
  create_error = none;
  ticks = ticks;
  stamp = "20260101-000000";
}

-- The first task completes at its second tick, the second fails.
abbrev good : StepInput
good = step false (seen TaskStatus.running "" ∷ seen TaskStatus.completed "" ∷ [])

abbrev bad : StepInput
bad = step false (seen TaskStatus.failed "" ∷ [])

abbrev stopped : StepInput
stopped = step true []

abbrev payload : Payload
payload = ("run_id", text "r") ∷ ("environment_id", text "e") ∷ []

abbrev uuid : ℕ → String
uuid n = "u"

abbrev join : String → String → String
join a b = a

abbrev share : ℕ → ℕ → ℕ
share finished total = 85 * finished / total

abbrev run : List StepInput → List Write × EnvResult
run inputs = handle_env_operation uuid join share start payload (inr inputs)

handle_env_operation-ends_example :
    (ws : List Write) × (run (good ∷ bad ∷ []) ≡ (
      ws
          ++ (run_status RunStatus.completed (vms_failed 1 2)
              ∷ run_progress 100 1 1 0
              ∷ refresh_environment
              ∷ []),
      done,
    ))
unfolding string_from_payload wait_for_task lookup
handle_env_operation-ends_example =
    handle_env_operation-ends uuid join share start payload good (bad ∷ []) refl refl
