-- ===== src/Approvals/Examples.antt =====
-- A request with two steps, in memory.
use vm_orbit.Base.{
  ℕ, ◌≡◌, refl, sym, ap, ◌∙◌, Bool, true, false, not, ◌&&◌, Option, none, some, List, [], ◌∷◌,
  arith, if◌then◌else◌, is_some, ◌==◌, nat_eq, beq_refl,
}
use vm_orbit.Base.{some_inj}
use vm_orbit.Approvals.{
  ApprovalStatus, pending, is_pending, ApprovalRequest, ApprovalStep, ApprovalStepStatus,
  step_pending, step_approved, Decision, ApprovalStore, approve, approve_pending, finish_approval,
  reject, cancel, escalate, when_pending, verify_approver, resolved,
}
use vm_orbit.Approvals.Steps.{approved_if, approve-steps, escalate-settled}

record Memory : Type 0 where
  rows : ℕ → Option ApprovalRequest
  waiting : ℕ → List ApprovalStep

abbrev stays_pending : ApprovalStepStatus → Bool
stays_pending step_pending = true
stays_pending _ = false

abbrev first : List ApprovalStep → Option ApprovalStep
first [] = none
first (s ∷ ss) = some s

-- Save a step: it is no longer waiting when it stood first and is now decided.
abbrev saved : ApprovalStep → List ApprovalStep → List ApprovalStep
saved t [] = []
saved t (s ∷ ss) =
    if (s.step_id == t.step_id) && not (stays_pending t.step_status) then ss else s ∷ ss

first-waiting :
    (s : ApprovalStep) (ss : List ApprovalStep)
    → first ss ≡ some s
    → (rest : List ApprovalStep) × (ss ≡ s ∷ rest)
first-waiting s [] e = ground arith
first-waiting s (x ∷ ss) e = (ss, ap (λ y. y ∷ ss) (some_inj e))

saved_first :
    (s t : ApprovalStep) (ss rest : List ApprovalStep)
    → ss ≡ s ∷ rest
    → t.step_id ≡ s.step_id
    → t.step_status ≡ step_approved
    → saved t ss ≡ rest
saved_first s t ss rest e same decided = rw (e, same, decided, beq_refl s.step_id) refl

abbrev memory : ApprovalStore
memory = record {
  Db = Memory;
  parse_uuid = λ t. none;
  uuid_string = λ u. "ann";
  get_by_id = λ i d. d.rows i;
  update_request = λ r d. some (record d { rows = λ j. if r.id == j then some r else d.rows j });
  list_expired = λ now d. some [];
  get_current_pending_step = λ i d. first (d.waiting i);
  pending_steps = λ i d. d.waiting i;
  update_step = λ t d. some (record d { waiting = λ i. saved t (d.waiting i) });
  create_history = λ h d. d;
  audit_log = λ i a d. d;
  current-pending = λ i s d e. first-waiting s (d.waiting i) e;
  get-update_request = λ r j d d' e. ap (λ m. m.rows j) (sym (some_inj e));
  pending-update_request = λ r j d d' e. ap (λ m. m.waiting j) (sym (some_inj e));
  get-update_step = λ t j d d' e. ap (λ m. m.rows j) (sym (some_inj e));
  pending-update_step = λ i s t rest d d' c p same decided e.
      ap (λ m. m.waiting i) (sym (some_inj e)) ∙ saved_first s t (d.waiting i) rest p same decided;
  get-create_history = λ h j d. refl;
  pending-create_history = λ h j d. refl;
  get-audit_log = λ i a j d. refl;
  pending-audit_log = λ i a j d. refl;
}

abbrev step : ℕ → ApprovalStep
step n = record {
  step_id = n;
  request_id = 1;
  step_order = n;
  step_status = step_pending;
  approver_id = some 5;
  resolved_by = none;
  resolved_by_name = "";
  step_resolved_at = none;
  comment = "";
}

abbrev request : ApprovalStatus → ApprovalRequest
request s = record {
  id = 1;
  requester_id = 5;
  requester_name = "ann";
  status = s;
  resolved_at = none;
  escalated_at = none;
  escalated_to = none;
}

abbrev db : ApprovalStatus → Memory
db s = record {
  rows = λ i. if i == 1 then some (request s) else none;
  waiting = λ i. step 1 ∷ step 2 ∷ [];
}

abbrev decision : Decision
decision = record { actor_id = "ann"; actor_name = "Ann"; remark = "fine" }

approve-steps_example :
    let d' = (approve memory 1 9 decision (db pending)).0 in
    (step : ApprovalStep) × (rest : List ApprovalStep) × (d1 : Memory) × (memory.pending_steps 1
        (db pending)
      ≡ step ∷ rest)
    × (memory.update_step (resolved memory step_approved 9 decision step) (db pending) ≡ some d1)
    × (memory.pending_steps 1 d' ≡ rest)
    × (memory.get_by_id 1 d'
        ≡ some (
            approved_if memory
              (not (is_some (memory.get_current_pending_step 1 d1)))
              9
              (request pending)))
unfolding approve when_pending approve_pending finish_approval verify_approver is_pending
approve-steps_example =
    approve-steps memory 1 9 decision (request pending) (db pending) refl refl refl

escalate-settled_example :
    let d' = (escalate memory 1 9 "bob" decision (db pending)).0 in
    (approve memory 1 11 decision d' ≡ (d', false))
    × (reject memory 1 11 decision d' ≡ (d', false))
    × (cancel memory 1 11 "ann" d' ≡ (d', false))
    × (escalate memory 1 11 "eve" decision d' ≡ (d', false))
unfolding escalate when_pending is_pending
escalate-settled_example =
    escalate-settled memory 1 9 11 "bob" "eve" "ann" decision decision (request pending)
      (db pending) refl refl refl
