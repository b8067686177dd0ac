-- ===== src/Workflow/Runs.antt =====
-- What a run of a workflow counts, logs and ends with.
use vm_orbit.Base.{
  suc, ◌+◌, ◌≡◌, Bool, true, false, not, ◌&&◌, ◌||◌, Option, none, some, List, [], ◌∷◌, ◌++◌, map,
  if◌then◌else◌, is_some, ◌==◌, nat_eq, string_eq, length, count_if,
}
use vm_orbit.Workflow.{
  WorkflowAction, Workflow, ActionError, LogEntry, WorkflowRun, completed, failed,
}
use vm_orbit.Workflow.Actions.{WorkflowOps}
use vm_orbit.Workflow.Engine.{Progress, continues, logged, run_actions}

abbrev pub is_failed : LogEntry → Bool
is_failed l = is_some l.error

-- The log has one entry for each of the first actions, in their order.
abbrev pub logs_of : List WorkflowAction → List LogEntry → Bool
logs_of acts [] = true
logs_of [] (l ∷ ls) = false
logs_of (a ∷ acts) (l ∷ ls) = let rest = logs_of acts ls in (l.action == a.name) && rest

-- All actions ran, and each that failed was one to go on after; or the last one that ran failed
-- and was not.
abbrev pub ends_well : {V : Type 0} → Workflow V → List WorkflowAction → List LogEntry → Bool
ends_well w [] ls = true
ends_well w (a ∷ acts) [] = false
ends_well w (a ∷ acts) (l ∷ ls) =
    let rest = ends_well w acts ls in (not (is_failed l) || continues w a) && rest

-- The counters and the result after actions of which the log is given, on top of an earlier
-- progress.
abbrev pub Tallied :
    {V : Type 0} → Workflow V → List WorkflowAction → Progress → List LogEntry → Progress → Type 0
Tallied w acts p ls p' =
    (p'.logs ≡ p.logs ++ ls)
    × (p'.actions_run ≡ p.actions_run + length ls)
    × (p'.actions_failed ≡ p.actions_failed + count_if is_failed ls)
    × (logs_of acts ls ≡ true)
    × (is_some p'.run_error ≡ not (ends_well w acts ls))

-- The rest of the loop by the error of an action and by whether the run goes on after it.
abbrev behind :
    {V E : Type 0}
    → WorkflowOps E
    → Workflow V
    → WorkflowRun
    → WorkflowAction
    → List WorkflowAction
    → Progress
    → E
    → Option ActionError
    → Bool
    → E × Progress
behind ops w run a acts p e none b = run_actions ops w run acts (logged p a none) e
behind ops w run a acts p e (some err) true = run_actions ops w run acts (logged p a (some err)) e
behind ops w run a acts p e (some err) false =
    (e, record (logged p a (some err)) { run_error = some err })

-- What a run leaves in the table of workflows, by whether it failed.
abbrev pub counted_by : {V : Type 0} → Bool → Workflow V → List (Workflow V) → List (Workflow V)
counted_by has_failed w rows =
    map
      (λ r.
        if r.id == w.id
        then record r {
          run_count = suc w.run_count;
          failure_count = if has_failed then suc w.failure_count else w.failure_count;
        }
        else r)
      rows

-- The result of a run is that of its row with the log, as many actions and failures as the log has,
-- and the given end.
abbrev pub Ended : {V : Type 0} → Workflow V → WorkflowRun → List LogEntry → WorkflowRun → Type 0
Ended w run ls run' =
    (run'.id ≡ run.id)
    × (run'.workflow_id ≡ run.workflow_id)
    × (run'.trigger_type ≡ run.trigger_type)
    × (run'.logs ≡ ls)
    × (run'.actions_run ≡ length ls)
    × (run'.actions_failed ≡ count_if is_failed ls)
    × (run'.status ≡ (if ends_well w w.actions ls then completed else failed))
