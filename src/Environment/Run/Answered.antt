-- ===== src/Environment/Run/Answered.antt =====
-- What createOrchestrationRun returns and leaves in the tables, for all answers of the repositories.
use vm_orbit.Base.{
  ℕ, sym, if_false, not, is_some, Bool-cases, String, ◌≡◌, refl, ap, ◌∙◌, ◌⊎◌, inl, inr, Bool, true,
  false, Option, none, some, List, [], ◌∷◌, ◌++◌, if◌then◌else◌, or_else, nat_eq, string_eq, length,
}
use mathlib.Core.List.{append-nil}
use vm_orbit.Base.{Distinct}
use vm_orbit.Environment.{
  EnvironmentVm, VmDependency, OrchestrationOperation, SortSlice, orchestration_task_type,
  compute_execution_order,
}
use vm_orbit.Environment.Loop.{ids}
use vm_orbit.Environment.Order.{order-rearranges}
use vm_orbit.Environment.Run.{
  RunStatus, Tables, Answers, RunError, environment_not_found, loading_vms, no_vms,
  loading_dependencies, creating_run, creating_steps, creating_task, steps_of, new_run, new_task,
  write_run, load_run, create_orchestration_run,
}

abbrev pub is_empty : List EnvironmentVm → Bool
is_empty [] = true
is_empty (ev ∷ evs) = false

-- What createOrchestrationRun returns: the first error, in the order of the reads and writes.
abbrev pub verdict_of :
    Answers
    → Option String
    → Option (List EnvironmentVm)
    → Option (List VmDependency)
    → RunError ⊎ ℕ
verdict_of a name evs deps =
    if not (is_some name)
    then inl environment_not_found
    else if not (is_some evs)
    then inl loading_vms
    else if is_empty (or_else evs [])
    then inl no_vms
    else if not (is_some deps)
    then inl loading_dependencies
    else if not a.run_created
    then inl creating_run
    else if not a.steps_created
    then inl creating_steps
    else if not a.task_created
    then inl creating_task
    else inr a.task_id

abbrev pub verdict : Answers → RunError ⊎ ℕ
verdict a = verdict_of a a.env a.env_vms a.deps

-- The tables that a result leaves changed: the run's once its own write has succeeded, whatever
-- fails behind it, the steps' in the same way, and the others only on success.
abbrev pub leaves_run : RunError ⊎ ℕ → Bool
leaves_run (inl creating_steps) = true
leaves_run (inl creating_task) = true
leaves_run (inl _) = false
leaves_run (inr task) = true

abbrev pub leaves_steps : RunError ⊎ ℕ → Bool
leaves_steps (inl creating_task) = true
leaves_steps (inl _) = false
leaves_steps (inr task) = true

abbrev pub leaves_task : RunError ⊎ ℕ → Bool
leaves_task (inl e) = false
leaves_task (inr task) = true

abbrev pub given : {A : Type 0} → Bool → List A → List A
given b xs = if b then xs else []

-- The rows for a result, for machines in some order.
abbrev pub Written :
    Answers
    → ℕ
    → OrchestrationOperation
    → List EnvironmentVm
    → Tables
    → Tables × (RunError ⊎ ℕ)
    → Type 0
Written a env op ordered t (t', r) =
    (t'.runs
      ≡ t.runs
        ++ given (leaves_run r) (
            record {
              id = a.run_id;
              environment_id = env;
              operation = op;
              status = RunStatus.pending;
              total_vms = length ordered;
            }
            ∷ []))
    × (t'.steps ≡ t.steps ++ given (leaves_steps r) (steps_of a.run_id 0 ordered))
    × (t'.tasks
        ≡ t.tasks
          ++ given (leaves_task r) (
              record {
                id = a.task_id;
                type = orchestration_task_type op;
                priority = 5;
                max_retries = 1;
                run_id = a.run_id;
              }
              ∷ []))
    × (t'.audits ≡ t.audits ++ given (leaves_task r) (env ∷ []))

unwritten :
    (a : Answers) (env : ℕ) (op : OrchestrationOperation) (ordered : List EnvironmentVm)
    (t : Tables) (r : RunError ⊎ ℕ)
    → leaves_run r ≡ false
    → leaves_steps r ≡ false
    → leaves_task r ≡ false
    → Written a env op ordered t (t, r)
unwritten a env op ordered t r no_run no_steps no_task =
    rw (no_run, no_steps, no_task)
      (
        sym (append-nil t.runs),
        sym (append-nil t.steps),
        sym (append-nil t.tasks),
        sym (append-nil t.audits),
      )

abbrev write_verdict : Answers → RunError ⊎ ℕ
write_verdict a =
    if not a.run_created
    then inl creating_run
    else if not a.steps_created
    then inl creating_steps
    else if not a.task_created
    then inl creating_task
    else inr a.task_id

write_run-Written :
    (a : Answers) (env : ℕ) (op : OrchestrationOperation) (ordered : List EnvironmentVm)
    (t : Tables)
    → ((write_run a env op ordered t).1 ≡ write_verdict a)
      × Written a env op ordered t (write_run a env op ordered t)
unfolding write_run new_run new_task
write_run-Written a env op ordered t = elim (Bool-cases a.run_created) [
  | inr b ↦ rw b (refl, unwritten a env op ordered t (inl creating_run) refl refl refl)
  | inl b ↦ elim (Bool-cases a.steps_created) [
    | inr c ↦
        rw (b, c)
          (
            refl,
            (refl, sym (append-nil t.steps), sym (append-nil t.tasks), sym (append-nil t.audits)),
          )
    | inl c ↦ elim (Bool-cases a.task_created) [
      | inr e ↦
          rw (b, c, e) (refl, (refl, refl, sym (append-nil t.tasks), sym (append-nil t.audits)))
      | inl e ↦ rw (b, c, e) (refl, (refl, refl, refl, refl))
    ]
  ]
]

abbrev pub write_ordered :
    Answers
    → ℕ
    → OrchestrationOperation
    → Tables
    → Option (List EnvironmentVm)
    → Option (Tables × (RunError ⊎ ℕ))
write_ordered a env op t none = none
write_ordered a env op t (some ordered) = some (write_run a env op ordered t)

-- The result and the tables, for the machines in the computed order once the run is stored.
abbrev pub Answered :
    SortSlice
    → Answers
    → ℕ
    → OrchestrationOperation
    → List EnvironmentVm
    → List VmDependency
    → Tables
    → RunError ⊎ ℕ
    → Option (Tables × (RunError ⊎ ℕ))
    → Type 0
Answered s a env op evs deps t r out =
    (ordered : List EnvironmentVm) × (t' : Tables) × (out ≡ some (t', r))
    × ((if leaves_run r then compute_execution_order s evs deps op else some ordered)
        ≡ some ordered)
    × Written a env op ordered t (t', r)

computed : {A : Type 0} (b : Bool) (x y : A) → x ≡ y → (if b then x else y) ≡ y
computed true x y e = e
computed false x y e = refl

load_run-stopped :
    (s : SortSlice) (a : Answers) (env : ℕ) (op : OrchestrationOperation) (evs : List EnvironmentVm)
    (deps : List VmDependency) (t : Tables) (r : RunError ⊎ ℕ)
    → leaves_run r ≡ false
    → leaves_steps r ≡ false
    → leaves_task r ≡ false
    → Answered s a env op evs deps t r (some (t, r))
load_run-stopped s a env op evs deps t r no_run no_steps no_task = (
  [],
  t,
  refl,
  if_false (leaves_run r) _ _ no_run,
  unwritten a env op [] t r no_run no_steps no_task,
)

load_run-Answered :
    (s : SortSlice) (a : Answers) (env : ℕ) (op : OrchestrationOperation) (name : Option String)
    (evs : Option (List EnvironmentVm)) (deps : Option (List VmDependency)) (t : Tables)
    → Distinct (ids (or_else evs []))
    → Answered s a env op
        (or_else evs [])
        (or_else deps [])
        t
        (verdict_of a name evs deps)
        (load_run s a env op name evs deps t)
unfolding load_run
load_run-Answered s a env op none evs deps t d =
    load_run-stopped s a env op (or_else evs []) (or_else deps []) t (inl environment_not_found)
      refl refl refl
load_run-Answered s a env op (some name) none deps t d =
    load_run-stopped s a env op [] (or_else deps []) t (inl loading_vms) refl refl refl
load_run-Answered s a env op (some name) (some []) deps t d =
    load_run-stopped s a env op [] (or_else deps []) t (inl no_vms) refl refl refl
load_run-Answered s a env op (some name) (some (ev ∷ evs)) none t d =
    load_run-stopped s a env op (ev ∷ evs) [] t (inl loading_dependencies) refl refl refl
load_run-Answered s a env op (some name) (some (ev ∷ evs)) (some deps) t d =
    let (ordered, e, _) = order-rearranges s (ev ∷ evs) deps op (λ x. true) d in
    let (result, written) = write_run-Written a env op ordered t in
    (
      ordered,
      (write_run a env op ordered t).0,
      ap (write_ordered a env op t) e ∙ ap (λ r. some ((write_run a env op ordered t).0, r)) result,
      computed (leaves_run (write_verdict a)) _ _ e,
      rw result at written,
    )

-- Whatever the repositories answer, createOrchestrationRun returns, for distinct machines, the first
-- error in the order of its reads and writes, or the identifier of the task. The tables have then
-- the pending run, when it succeeds or fails behind the write of the run, the steps of the machines in
-- the computed order, when it succeeds or fails behind the write of the steps, and the task and an
-- audit entry of the environment, when it succeeds; and nothing else.
pub create_run-Written :
    (s : SortSlice) (a : Answers) (env : ℕ) (op : OrchestrationOperation) (t : Tables)
    → Distinct (ids (or_else a.env_vms []))
    → Answered s a env op
        (or_else a.env_vms [])
        (or_else a.deps [])
        t
        (verdict a)
        (create_orchestration_run s a env op t)
unfolding create_orchestration_run
create_run-Written s a env op t d = load_run-Answered s a env op a.env a.env_vms a.deps t d
