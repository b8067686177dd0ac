-- ===== src/Workflow/Limit.antt =====
-- The limit of concurrent runs of a workflow.
use vm_orbit.Base.{
  ℕ, suc, ◌∙◌, beq_refl, ◌+◌, ◌≤◌, String, ◌≡◌, ap, inl, inr, Bool, true, false, not, ◌&&◌, ◌||◌,
  Option, some, List, [], ◌∷◌, arith, if◌then◌else◌, nat_beq_iff, Bool-cases, ◌==◌, nat_eq,
  string_eq, all, pos, leb, ltb_ℤ, leb_ℤ,
}
use vm_orbit.Base.{count_if-append}
use vm_orbit.Workflow.{WorkflowTriggerType, Workflow}
use vm_orbit.Workflow.Engine.{
  WorkflowTables, new_run, count_active, is_active, check_conditions, create_run, at_limit,
  start_runs, handle_event, admits,
}

-- Each workflow of the given identifier has a positive limit of at most this number.
abbrev pub limited : {V : Type 0} → ℕ → ℕ → List (Workflow V) → Bool
limited id limit ws =
    all
      (λ w.
        not (w.id == id)
        || (leb_ℤ w.max_concurrent_runs (pos limit) && ltb_ℤ (pos 0) w.max_concurrent_runs))
      ws

module _ {V : Type 0} (render : Option V → String) (stored : Bool) (trigger : WorkflowTriggerType)
    (facts : String → Option V) where
  create_run-active :
      (id : ℕ) (w : Workflow V) (t : WorkflowTables V)
      → count_active id (create_run stored w trigger t).0.runs
        ≤ count_active id t.runs + (if w.id == id then 1 else 0)
  unfolding create_run count_active new_run
  create_run-active id w t = ground (
    arith,
    count_if-append (λ r. (r.workflow_id == id) && is_active r.status) t.runs
        (new_run w trigger t.next_id ∷ []),
  )

  room :
      (id limit : ℕ) (w : Workflow V) (ws : List (Workflow V)) (t : WorkflowTables V)
      → limited id limit (w ∷ ws) ≡ true
      → admits render true facts w t ≡ true
      → count_active id t.runs ≤ limit
      → count_active id (create_run stored w trigger t).0.runs ≤ limit
  unfolding admits at_limit
  room id limit w ws t h go below = elim (Bool-cases (w.id == id)) [
    | inl same ↦
        let count : count_active w.id t.runs ≡ count_active id t.runs =
          ap (λ i. count_active i t.runs) ((nat_beq_iff w.id id).0 same) in
        ground (arith, create_run-active id w t, h, go, same, count)
    | inr other ↦ ground (arith, create_run-active id w t, other, below)
  ]

  start_runs-limited :
      (id limit : ℕ) (ws : List (Workflow V)) (t : WorkflowTables V)
      → limited id limit ws ≡ true
      → count_active id t.runs ≤ limit
      → count_active id (start_runs render true stored trigger facts ws t).0.runs ≤ limit
  unfolding start_runs
  start_runs-limited id limit [] t h below = below
  start_runs-limited id limit (w ∷ ws) t h below =
      elim (Bool-cases (admits render true facts w t)) [
        | inr skip ↦
            rw (skip, start_runs) (start_runs-limited id limit ws t (ground (arith, h)) below)
        | inl go ↦
            let below' = room id limit w ws t h go below in
            rw (go, start_runs)
              (start_runs-limited id limit ws (create_run stored w trigger t).0 (ground (arith, h))
                below')
      ]

-- When nothing else writes runs while an event is handled, the event starts no run of a workflow
-- beyond its limit: where the runs of an identifier that are pending or running are at most a number,
-- and each workflow of the event with that identifier has a positive limit up to it, they are so
-- after the event, provided that they can be counted.
handle_event-limited :
    {V : Type 0} (render : Option V → String) (stored : Bool) (trigger : WorkflowTriggerType)
    (facts : String → Option V) (id limit : ℕ) (ws : List (Workflow V)) (t : WorkflowTables V)
    → limited id limit ws ≡ true
    → count_active id t.runs ≤ limit
    → count_active id (handle_event render true stored trigger facts (some ws) t).0.runs ≤ limit
unfolding handle_event
handle_event-limited render stored trigger facts id limit ws t h below =
    start_runs-limited render stored trigger facts id limit ws t h below

create_run-counted :
    {V : Type 0} (w : Workflow V) (trigger : WorkflowTriggerType) (t : WorkflowTables V)
    → count_active w.id (create_run true w trigger t).0.runs ≡ suc (count_active w.id t.runs)
unfolding create_run count_active new_run
create_run-counted w trigger t =
    count_if-append (λ r. (r.workflow_id == w.id) && is_active r.status) t.runs
      (new_run w trigger t.next_id ∷ [])
    ∙ ground (arith, beq_refl w.id)

admits-at :
    {V : Type 0} (render : Option V → String) (facts : String → Option V) (w : Workflow V)
    (t : WorkflowTables V) (n m : ℕ)
    → w.max_concurrent_runs ≡ pos (suc n)
    → count_active w.id t.runs ≡ m
    → check_conditions render w facts ≡ true
    → admits render true facts w t ≡ not (leb (suc n) m)
unfolding admits at_limit
admits-at render facts w t n m limit count conditions = rw conditions (
    ap (λ c. not (leb_ℤ w.max_concurrent_runs (pos c) && ltb_ℤ (pos 0) w.max_concurrent_runs)) count
    ∙ ap (λ l. not (leb_ℤ l (pos m) && ltb_ℤ (pos 0) l)) limit
    ∙ ground arith)

-- Two events that are handled at the same time exceed the limit of a workflow: when one more run
-- would reach it, the first event is let through, and the second one, which counts the runs before
-- the first has created its own, is let through with it. After both have created their runs there is
-- one more than the limit; of a second event that counts them afterwards, none is let through.
pub admits_overlap :
    {V : Type 0} (render : Option V → String) (first second : WorkflowTriggerType)
    (facts facts' : String → Option V) (w : Workflow V) (t : WorkflowTables V) (n : ℕ)
    → w.max_concurrent_runs ≡ pos (suc n)
    → count_active w.id t.runs ≡ n
    → (check_conditions render w facts && check_conditions render w facts') ≡ true
    → let t1 = (create_run true w first t).0 in
      let t2 = (create_run true w second t1).0 in
      (admits render true facts w t ≡ true)
      × (admits render true facts' w t ≡ true)
      × (count_active w.id t2.runs ≡ suc (suc n))
      × (admits render true facts' w t1 ≡ false)
admits_overlap render first second facts facts' w t n limit count conditions =
    let one = create_run-counted w first t ∙ ap suc count in
    let two = create_run-counted w second (create_run true w first t).0 in
    (
      admits-at render facts w t n n limit count (ground (arith, conditions)) ∙ ground arith,
      admits-at render facts' w t n n limit count (ground (arith, conditions)) ∙ ground arith,
      two ∙ ap suc one,
      admits-at render facts' w (create_run true w first t).0 n (suc n) limit one
            (ground (arith, conditions))
          ∙ ground arith,
    )
