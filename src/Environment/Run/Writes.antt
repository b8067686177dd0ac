-- ===== src/Environment/Run/Writes.antt =====
-- The steps that createOrchestrationRun writes when it succeeds.
use vm_orbit.Base.{
  ℕ, suc, String, ◌≡◌, refl, ap, ◌∙◌, inr, Bool, true, ◌&&◌, some, List, [], ◌∷◌, ◌++◌, arith,
  if◌then◌else◌, ◌==◌, nat_eq, string_eq, beq_refl, count_if,
}
use vm_orbit.Base.{member, Distinct}
use vm_orbit.Environment.Lists.{occurrences}
use vm_orbit.Environment.Machines.{occurrences-member, occurrences-Distinct}
use vm_orbit.Environment.{EnvironmentVm, VmDependency, OrchestrationOperation, SortSlice}
use vm_orbit.Environment.Loop.{ids}
use vm_orbit.Environment.Order.{order-rearranges}
use vm_orbit.Environment.Run.{
  OrchestrationStep, Tables, Answers, steps_of, new_run, new_task, write_run, load_run,
  create_orchestration_run,
}
use vm_orbit.Environment.Run.Answered.{write_ordered}

-- A step of the given run for the given machine.
abbrev pub is_step : ℕ → ℕ → OrchestrationStep → Bool
is_step run v st = (st.run_id == run) && (st.vm_id == v)

steps_of-count :
    (run i v : ℕ) (evs : List EnvironmentVm)
    → count_if (is_step run v) (steps_of run i evs) ≡ count_if (λ ev. ev.vm_id == v) evs
unfolding steps_of
steps_of-count run i v [] = refl
steps_of-count run i v (ev ∷ evs) = ground (arith, steps_of-count run (suc i) v evs, beq_refl run)

-- The places of a run's steps, counted from the given one.
abbrev pub counts_up : ℕ → List OrchestrationStep → Bool
counts_up i [] = true
counts_up i (st ∷ sts) = let rest = counts_up (suc i) sts in (st.execution_order == i) && rest

steps_of-counts_up :
    (run i : ℕ) (evs : List EnvironmentVm) → counts_up i (steps_of run i evs) ≡ true
unfolding steps_of
steps_of-counts_up run i [] = refl
steps_of-counts_up run i (ev ∷ evs) = ground (arith, steps_of-counts_up run (suc i) evs, beq_refl i)

occurrences-ids :
    (v : ℕ) (evs : List EnvironmentVm)
    → count_if (λ ev. ev.vm_id == v) evs ≡ occurrences v (ids evs)
occurrences-ids v [] = refl
occurrences-ids v (ev ∷ evs) = ground (arith, occurrences-ids v evs)

abbrev all_written : Answers → ℕ → OrchestrationOperation → List EnvironmentVm → Tables → Tables
all_written a env op ordered t = record {
  runs = t.runs ++ new_run a env op ordered ∷ [];
  steps = t.steps ++ steps_of a.run_id 0 ordered;
  tasks = t.tasks ++ new_task a op ∷ [];
  audits = t.audits ++ env ∷ [];
}

write_run-done :
    (a : Answers) (env : ℕ) (op : OrchestrationOperation) (ordered : List EnvironmentVm)
    (t : Tables)
    → (a.run_created && (a.steps_created && a.task_created)) ≡ true
    → write_run a env op ordered t ≡ (all_written a env op ordered t, inr a.task_id)
unfolding write_run
write_run-done a env op ordered t h = ground arith

-- When every read and write succeeds and the environment has machines, all distinct,
-- createOrchestrationRun returns the identifier of the task. It appends steps whose places count up
-- from 0, of which each machine of the environment has exactly one and no other machine has any.
pub create_run-steps :
    (s : SortSlice) (a : Answers) (env : ℕ) (op : OrchestrationOperation) (t : Tables)
    (name : String) (ev : EnvironmentVm) (evs : List EnvironmentVm) (deps : List VmDependency)
    (v : ℕ)
    → Distinct (ids (ev ∷ evs))
    → a.env ≡ some name
    → a.env_vms ≡ some (ev ∷ evs)
    → a.deps ≡ some deps
    → (a.run_created && (a.steps_created && a.task_created)) ≡ true
    → (t' : Tables) × (sts : List OrchestrationStep) × (create_orchestration_run s a env op t
        ≡ some (t', inr a.task_id))
      × (t'.steps ≡ t.steps ++ sts)
      × (counts_up 0 sts ≡ true)
      × (count_if (is_step a.run_id v) sts ≡ (if member v (ids (ev ∷ evs)) then 1 else 0))
unfolding create_orchestration_run load_run
create_run-steps s a env op t name ev evs deps v d e1 e2 e3 done =
    let (ordered, e, same) = order-rearranges s (ev ∷ evs) deps op (λ x. x.vm_id == v) d in
    let reads : create_orchestration_run s a env op t
        ≡ load_run s a env op (some name) (some (ev ∷ evs)) (some deps) t =
      ap (λ o. load_run s a env op o a.env_vms a.deps t) e1
      ∙ ap (λ o. load_run s a env op (some name) o a.deps t) e2
      ∙ ap (λ o. load_run s a env op (some name) (some (ev ∷ evs)) o t) e3 in
    let once = occurrences-Distinct (ids (ev ∷ evs)) d v in
    (
      all_written a env op ordered t,
      steps_of a.run_id 0 ordered,
      reads ∙ ap (write_ordered a env op t) e ∙ ap some (write_run-done a env op ordered t done),
      refl,
      steps_of-counts_up a.run_id 0 ordered,
      ground (
        arith,
        steps_of-count a.run_id 0 v ordered,
        same,
        once,
        occurrences-member v (ids (ev ∷ evs)),
        occurrences-ids v (ev ∷ evs),
      ),
    )
