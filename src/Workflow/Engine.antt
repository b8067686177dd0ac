-- ===== src/Workflow/Engine.antt =====
-- internal/scheduler/workflow_engine.go: events and manual triggers that start runs, and a run.
use vm_orbit.Base.{
  ℕ, suc, String, Bool, true, false, not, ◌&&◌, ◌||◌, Option, none, some, List, [], ◌∷◌, ◌++◌, map,
  if◌then◌else◌, is_some, or_else, ◌==◌, nat_eq, string_eq, count_if, pos, ltb_ℤ, leb_ℤ,
}
use vm_orbit.Workflow.{
  WorkflowTriggerType, manual, WorkflowRunStatus, pending, running, completed, failed, cancelled,
  WorkflowAction, Rule, Workflow, ActionError, LogEntry, WorkflowRun,
}
use vm_orbit.Workflow.Actions.{WorkflowOps, execute_action}

-- The tables of workflows and runs, and the next fresh identifier.
pub record WorkflowTables (V : Type 0) : Type 0 where
  pub workflows : List (Workflow V)
  pub runs : List WorkflowRun
  pub next_id : ℕ

-- The counters of the loop over the actions.
pub record Progress : Type 0 where
  pub actions_run : ℕ
  pub actions_failed : ℕ
  pub run_error : Option ActionError
  pub logs : List LogEntry

abbrev pub no_progress : Progress
no_progress = record { actions_run = 0; actions_failed = 0; run_error = none; logs = [] }

unfoldable pub log_entry : WorkflowAction → Option ActionError → LogEntry
log_entry a error = record {
  action = a.name;
  action_type = a.action_type;
  order = a.order;
  error = error;
}

abbrev pub is_active : WorkflowRunStatus → Bool
is_active pending = true
is_active running = true
is_active completed = false
is_active failed = false
is_active cancelled = false

unfoldable pub count_active : ℕ → List WorkflowRun → ℕ
count_active id runs = count_if (λ r. (r.workflow_id == id) && is_active r.status) runs

unfoldable pub update_run : WorkflowRun → List WorkflowRun → List WorkflowRun
update_run run runs = map (λ r. if r.id == run.id then run else r) runs

-- The run after its actions.
unfoldable pub finished_run : WorkflowRun → Progress → WorkflowRun
finished_run run p = record run {
  status = if is_some p.run_error then failed else completed;
  error_message = p.run_error;
  actions_run = p.actions_run;
  actions_failed = p.actions_failed;
  logs = p.logs;
}

-- An action that succeeded or failed, in the counters and the log.
abbrev pub logged : Progress → WorkflowAction → Option ActionError → Progress
logged p a none = record p {
  actions_run = suc p.actions_run;
  logs = p.logs ++ log_entry a none ∷ [];
}
logged p a (some err) = record p {
  actions_run = suc p.actions_run;
  actions_failed = suc p.actions_failed;
  logs = p.logs ++ log_entry a (some err) ∷ [];
}

module _ {V : Type 0} where
  -- The action's own setting comes before the workflow's.
  unfoldable pub continues : Workflow V → WorkflowAction → Bool
  continues w a = or_else a.continue_on_error w.continue_on_error

  unfoldable pub new_run : Workflow V → WorkflowTriggerType → ℕ → WorkflowRun
  new_run w trigger id = record {
    id = id;
    workflow_id = w.id;
    status = pending;
    trigger_type = trigger;
    error_message = none;
    actions_run = 0;
    actions_failed = 0;
    logs = [];
  }

  unfoldable pub count_run : Workflow V → Progress → List (Workflow V) → List (Workflow V)
  count_run w p rows =
      map
        (λ r.
          if r.id == w.id
          then record r {
            run_count = suc w.run_count;
            failure_count = if is_some p.run_error then suc w.failure_count else w.failure_count;
          }
          else r)
        rows

  -- `render` is what Sprintf("%v") gives for a value, and for a missing one.
  unfoldable pub evaluate_condition : (Option V → String) → Option V → String → Option V → Bool
  evaluate_condition render actual operator expected =
      if (operator == "eq") || (operator == "equals")
      then render actual == render expected
      else (if (operator == "neq") || (operator == "not_equals")
          then not (render actual == render expected)
          else (if operator == "exists" then is_some actual else true))

  unfoldable pub check_rules :
      (Option V → String) → (String → Option V) → List (Option (Rule V)) → Bool
  check_rules render facts [] = true
  check_rules render facts (none ∷ rules) = check_rules render facts rules
  check_rules render facts (some r ∷ rules) =
      let rest = check_rules render facts rules in
      if not (evaluate_condition render (facts r.field) r.operator r.value) then false else rest

  unfoldable pub check_conditions : (Option V → String) → Workflow V → (String → Option V) → Bool
  check_conditions render w facts = elim w.rules [
    | none ↦ true
    | some rules ↦ check_rules render facts rules
  ]

  -- createRun; `stored` says whether the write succeeds.
  unfoldable pub create_run :
      Bool
      → Workflow V
      → WorkflowTriggerType
      → WorkflowTables V
      → WorkflowTables V × Option WorkflowRun
  create_run stored w trigger t =
      let run = new_run w trigger t.next_id in
      if stored
      then (record t { runs = t.runs ++ run ∷ []; next_id = suc t.next_id }, some run)
      else (record t { next_id = suc t.next_id }, none)

  -- The limit of concurrent runs is reached; the count is missing when its query fails.
  unfoldable pub at_limit : Bool → Workflow V → WorkflowTables V → Bool
  at_limit counted w t =
      counted
      && (leb_ℤ w.max_concurrent_runs (pos (count_active w.id t.runs))
          && ltb_ℤ (pos 0) w.max_concurrent_runs)

  -- A run of the workflow is to be started, by what its conditions say and the table of runs holds.
  -- Nothing locks the table between this test and the creation of the run.
  unfoldable pub admits :
      (Option V → String) → Bool → (String → Option V) → Workflow V → WorkflowTables V → Bool
  admits render counted facts w t = check_conditions render w facts && not (at_limit counted w t)

  -- The loop of handleEvent over the workflows of the trigger; the runs that it starts are executed
  -- by goroutines of their own. It is one step here; between its reads and writes, those of the
  -- goroutines of other events may come, each of which takes `admits` and `create_run` in turn.
  unfoldable pub start_runs :
      (Option V → String)
      → Bool
      → Bool
      → WorkflowTriggerType
      → (String → Option V)
      → List (Workflow V)
      → WorkflowTables V
      → WorkflowTables V × List WorkflowRun
  start_runs render counted stored trigger facts [] t = (t, [])
  start_runs render counted stored trigger facts (w ∷ ws) t =
      elim (admits render counted facts w t) [
        | false ↦ start_runs render counted stored trigger facts ws t
        | true ↦
            let (t', run) = create_run stored w trigger t in
            let (t'', started) = start_runs render counted stored trigger facts ws t' in
            (t'', elim run [ none ↦ started | some r ↦ r ∷ started ])
      ]

  unfoldable pub handle_event :
      (Option V → String)
      → Bool
      → Bool
      → WorkflowTriggerType
      → (String → Option V)
      → Option (List (Workflow V))
      → WorkflowTables V
      → WorkflowTables V × List WorkflowRun
  handle_event render counted stored trigger facts none t = (t, [])
  handle_event render counted stored trigger facts (some ws) t =
      start_runs render counted stored trigger facts ws t

  -- `none` for a workflow that is missing, disabled, or whose run cannot be stored.
  unfoldable pub trigger_manual :
      Bool → Option (Workflow V) → WorkflowTables V → WorkflowTables V × Option WorkflowRun
  trigger_manual stored none t = (t, none)
  trigger_manual stored (some w) t =
      if not w.enabled then (t, none) else create_run stored w manual t

  module _ {E : Type 0} (ops : WorkflowOps E) where
    unfoldable pub run_actions :
        Workflow V → WorkflowRun → List WorkflowAction → Progress → E → E × Progress
    run_actions w run [] p e = (e, p)
    run_actions w run (a ∷ others) p e =
        let (e', error) = execute_action ops w.name run a e in
        elim error [
          | none ↦ run_actions w run others (logged p a none) e'
          | some err ↦ elim (continues w a) [
            | true ↦ run_actions w run others (logged p a (some err)) e'
            | false ↦ (e', record (logged p a (some err)) { run_error = some err })
          ]
        ]

    -- `writes` is whether the two writes of the run and the one of the workflow succeed; their errors
    -- are dropped.
    unfoldable pub execute_run :
        Bool × Bool × Bool → Workflow V → WorkflowRun → E → WorkflowTables V → E × WorkflowTables V
    execute_run (begins, finishes, counts) w run e t =
        let begun = record run { status = running } in
        let (e', p) = run_actions w begun w.actions no_progress e in
        let rows = if begins then update_run begun t.runs else t.runs in
        (
          e',
          record t {
            runs = if finishes then update_run (finished_run begun p) rows else rows;
            workflows = if counts then count_run w p t.workflows else t.workflows;
          },
        )
