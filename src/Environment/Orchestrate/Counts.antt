-- ===== src/Environment/Orchestrate/Counts.antt =====
-- How a run of an environment ends: its last writes and its result, from the ends of its steps.
use vm_orbit.Base.{
  ℕ, suc, ◌+◌, ◌-◌, ◌<◌, String, ◌≡◌, refl, ap, ◌∙◌, ◌⊎◌, inl, inr, Bool, true, false, not, ◌&&◌,
  ◌||◌, List, [], ◌∷◌, ◌++◌, arith, if◌then◌else◌, Bool-cases, Option-cases, Sum-cases, if_false,
  is_some, ◌==◌, nat_eq, string_eq, length, count_if, any,
}
use mathlib.Core.List.{append_assoc}
use vm_orbit.Environment.{OrchestrationOperation}
use vm_orbit.Environment.Run.{RunStatus}
use vm_orbit.Task.Payload.{Payload, string_from_payload}
use vm_orbit.Environment.Orchestrate.{
  StepInput, Counters, Write, run_status, run_progress, step_status, create_task, enqueue_task,
  refresh_environment, no_message, vms_failed, EnvResult, done, all_vms_failed, RunMessage,
  wait_for_task, counted, final_status, final_message, final_result, finish_run, run_step,
  run_steps, dispatch_vm, dispatched, waited, steps_loaded, handle_env_operation,
}

abbrev pub is_cancelled : StepInput → Bool
is_cancelled i = i.is_cancelled

abbrev pub has_vm : StepInput → Bool
has_vm i = elim i.vm [ inl e ↦ false | inr vm ↦ true ]

abbrev pub is_create : Write → Bool
is_create (create_task t) = true
is_create (run_status r m) = false
is_create (run_progress p c f s) = false
is_create (step_status i s t e) = false
is_create (enqueue_task i p) = false
is_create refresh_environment = false

-- A run fails only when all its steps failed.
abbrev pub status_of_run : ℕ → RunStatus
status_of_run succeeded = if succeeded == 0 then RunStatus.failed else RunStatus.completed

abbrev pub message_of_run : ℕ → ℕ → RunMessage
message_of_run succeeded total =
    if succeeded == total then no_message else vms_failed (total - succeeded) total

abbrev pub result_of_run : ℕ → ℕ → EnvResult
result_of_run succeeded total = if succeeded == 0 then all_vms_failed total else done

module _ (uuid : ℕ → String) (join : String → String → String) (share : ℕ → ℕ → ℕ)
    (op : OrchestrationOperation) (parent : Payload) where
  -- The machine is found, its task is created, and the task is the first thing that is seen to end,
  -- as completed.
  abbrev pub succeeds : StepInput → Bool
  succeeds i = has_vm i && not (is_some i.create_error) && not (is_some (wait_for_task i.ticks))

  abbrev fails : StepInput → Bool
  fails i = not (succeeds i)

  abbrev tally : List StepInput → Counters → Counters
  tally inputs c = record {
    completed = c.completed + count_if succeeds inputs;
    failed = c.failed + count_if fails inputs;
  }

  run_step-succeeds : (i : StepInput) → (run_step uuid join share op parent i).1 ≡ succeeds i
  unfolding run_step dispatch_vm dispatched waited
  run_step-succeeds i = elim (Sum-cases i.vm) [
    | inl (e, found) ↦ rw found refl
    | inr (vm, found) ↦ elim (Option-cases i.create_error) [
      | inr (e, created) ↦ rw (found, created) refl
      | inl created ↦ elim (Option-cases (wait_for_task i.ticks)) [
        | inl w ↦ rw (found, created, w) refl
        | inr (e, w) ↦ rw (found, created, w) refl
      ]
    ]
  ]

  counted-tally :
      (i : StepInput) (inputs : List StepInput) (c : Counters)
      → tally inputs (counted (succeeds i) c) ≡ tally (i ∷ inputs) c
  counted-tally i inputs c = elim (Bool-cases (succeeds i)) [
    | inl b ↦ rw b (ground arith)
    | inr b ↦ rw b (ground arith)
  ]

  tally-nil : (c : Counters) → c ≡ tally [] c
  tally-nil c = ground arith

  run_steps-finish :
      (total k : ℕ) (inputs : List StepInput) (c : Counters)
      → any is_cancelled inputs ≡ false
      → (ws : List Write) × (run_steps uuid join share op parent total k inputs c ≡ (
          let e = finish_run uuid join share op parent total (tally inputs c) in (ws ++ e.0, e.1)))
  unfolding run_steps
  run_steps-finish total k [] c ok =
      ([], ap (λ d. finish_run uuid join share op parent total d) (tally-nil c))
  run_steps-finish total k (i ∷ inputs) c ok =
      let (ws, e) = run_steps-finish total (suc k) inputs (counted (succeeds i) c) (ground arith) in
      let step = run_step uuid join share op parent i in
      let after = counted (succeeds i) c in
      (
        step.0 ++ (run_progress (10 + share (suc k) total) after.completed after.failed 0 ∷ ws),
        if_false i.is_cancelled _ _ (ground arith)
            ∙ rw (run_step-succeeds i, e, counted-tally i inputs c, append_assoc) refl,
      )

  abbrev run : String ⊎ List StepInput → List Write × EnvResult
  run = handle_env_operation uuid join share op parent

  abbrev lacks_ids : Bool
  lacks_ids =
      (string_from_payload parent "run_id" == "")
      || (string_from_payload parent "environment_id" == "")

  counts_add :
      (inputs : List StepInput) → count_if succeeds inputs + count_if fails inputs ≡ length inputs
  counts_add [] = refl
  counts_add (i ∷ inputs) = ground (arith, counts_add inputs)

  final_status_lem :
      (k f n : ℕ)
      → k + f ≡ n
      → 0 < n
      → final_status (record { completed = k; failed = f }) ≡ status_of_run k
  unfolding final_status
  final_status_lem k f n sum some_steps = ground arith

  final_message_lem :
      (k f n : ℕ)
      → k + f ≡ n
      → final_message (record { completed = k; failed = f }) n ≡ message_of_run k n
  unfolding final_message
  final_message_lem k f n sum = ground arith

  final_result_lem :
      (k f n : ℕ)
      → k + f ≡ n
      → 0 < n
      → final_result (record { completed = k; failed = f }) ≡ result_of_run k n
  unfolding final_result
  final_result_lem k f n sum some_steps = ground arith

  finish_run_lem :
      (d : Counters) (k f n : ℕ)
      → d.completed ≡ k
      → d.failed ≡ f
      → k + f ≡ n
      → 0 < n
      → finish_run uuid join share op parent n d ≡ (
        run_status (status_of_run k) (message_of_run k n)
            ∷ run_progress 100 k (n - k) 0
            ∷ refresh_environment
            ∷ [],
        result_of_run k n,
      )
  unfolding finish_run
  finish_run_lem d k f n dk df sum some_steps =
      ap (finish_run uuid join share op parent n) same
      ∙ rw
          (
            final_status_lem k f n sum some_steps,
            final_message_lem k f n sum,
            final_result_lem k f n sum some_steps,
          )
          (ap
            (λ x. (
              run_status (status_of_run k) (message_of_run k n)
                  ∷ run_progress 100 k x 0
                  ∷ refresh_environment
                  ∷ [],
              result_of_run k n,
            ))
            (ground arith))
    where
      same : d ≡ record { completed = k; failed = f }
      same = ground arith

  -- When the payload names the run and its environment, there are steps, and no step sees the task
  -- cancelled, the handler's last writes give the run its end: completed, or failed when no step
  -- succeeded, with the number of failed machines in the message if there are any, and with
  -- the number of steps that succeeded and of the others. It returns an error only when all failed.
  pub handle_env_operation-ends :
      (first : StepInput) (rest : List StepInput)
      → lacks_ids ≡ false
      → any is_cancelled (first ∷ rest) ≡ false
      → (ws : List Write) × (run (inr (first ∷ rest)) ≡ (
          let n = length (first ∷ rest) in
          let k = count_if succeeds (first ∷ rest) in
          (
            ws
                ++ (run_status (status_of_run k) (message_of_run k n)
                    ∷ run_progress 100 k (n - k) 0
                    ∷ refresh_environment
                    ∷ []),
            result_of_run k n,
          )))
  unfolding handle_env_operation steps_loaded
  handle_env_operation-ends first rest ids ok =
      let inputs = first ∷ rest in
      let (ws, e) =
        run_steps-finish (length inputs) 0 inputs (record { completed = 0; failed = 0 }) ok in
      (
        run_status RunStatus.running no_message ∷ ws,
        if_false lacks_ids _ _ ids
            ∙ rw
                (
                  e,
                  finish_run_lem (tally inputs (record { completed = 0; failed = 0 }))
                      (count_if succeeds inputs) (count_if fails inputs) (length inputs)
                      (ground arith) (ground arith) (counts_add inputs) (ground arith),
                )
                refl,
      )
