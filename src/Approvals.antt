-- ===== src/Approvals.antt =====
-- internal/service/approval_service.go: deciding, cancelling, escalating and expiring approval
-- requests. The log is left out.
mod Model
pub mod Steps
pub mod Create
mod Examples
use vm_orbit.Base.{
  ℕ, suc, String, Bool, true, false, Option, none, some, List, [], ◌∷◌, if◌then◌else◌, ◌==◌, nat_eq,
  string_eq,
}
pub use Model.*

unfoldable pub is_pending : ApprovalStatus → Bool
is_pending pending = true
is_pending _ = false

module _ (repo : ApprovalStore) where
  unfoldable pub verify_approver : ApprovalStep → String → Bool
  verify_approver step actor = elim step.approver_id [
    | none ↦ true
    | some a ↦ repo.uuid_string a == actor
  ]

  -- The empty actor is the system.
  unfoldable pub append_history :
      ℕ → ApprovalHistoryAction → String → String → HistoryComment → repo.Db → repo.Db
  append_history i action actor name text d =
      repo.create_history
        (record {
          of_request = i;
          action = action;
          by = if actor == "" then none else repo.parse_uuid actor;
          by_name = name;
          text = text;
        })
        d

  abbrev pub resolved : ApprovalStepStatus → ℕ → Decision → ApprovalStep → ApprovalStep
  resolved status now req step = record step {
    step_status = status;
    step_resolved_at = some now;
    comment = req.remark;
    resolved_by_name = req.actor_name;
    resolved_by = elim (repo.parse_uuid req.actor_id) [ none ↦ step.resolved_by | some u ↦ some u ];
  }

  -- What follows the update of the step. The Boolean is whether the operation returns nil.
  unfoldable pub finish_approval :
      ℕ → ℕ → Decision → ApprovalRequest → ApprovalStep → repo.Db → repo.Db × Bool
  finish_approval id now req ar step d = elim (repo.get_current_pending_step id d) [
    | none ↦
        (elim (repo.update_request (record ar { status = approved; resolved_at = some now }) d) [
          | none ↦ (d, false)
          | some d' ↦ (
            repo.audit_log id req (
                append_history ar.id was_approved req.actor_id req.actor_name (plain req.remark)
                  d'),
            true,
          )
        ])
    | some next ↦ (
      repo.audit_log id req (
          append_history ar.id was_approved req.actor_id req.actor_name
            (step_approved_with step.step_order req.remark) d),
      true,
    )
  ]

  unfoldable pub approve_pending : ℕ → ℕ → Decision → ApprovalRequest → repo.Db → repo.Db × Bool
  approve_pending id now req ar d = elim (repo.get_current_pending_step id d) [
    | none ↦ (d, false)
    | some step ↦
        if verify_approver step req.actor_id
        then (elim (repo.update_step (resolved step_approved now req step) d) [
          | none ↦ (d, false)
          | some d' ↦ finish_approval id now req ar step d'
        ])
        else (d, false)
  ]

  unfoldable pub reject_pending : ℕ → ℕ → Decision → ApprovalRequest → repo.Db → repo.Db × Bool
  reject_pending id now req ar d = elim (repo.get_current_pending_step id d) [
    | none ↦ (d, false)
    | some step ↦
        if verify_approver step req.actor_id
        then (elim (repo.update_step (resolved step_rejected now req step) d) [
          | none ↦ (d, false)
          | some d1 ↦
              (elim (repo.update_request (record ar { status = rejected; resolved_at = some now })
                d1) [
                  | none ↦ (d1, false)
                  | some d2 ↦ (
                    repo.audit_log id req (
                        append_history ar.id was_rejected req.actor_id req.actor_name
                          (plain req.remark) d2),
                    true,
                  )
                ])
        ])
        else (d, false)
  ]

  -- Load the request, and go on if it is pending.
  unfoldable pub when_pending :
      ℕ → (ApprovalRequest → repo.Db → repo.Db × Bool) → repo.Db → repo.Db × Bool
  when_pending id go d = elim (repo.get_by_id id d) [
    | none ↦ (d, false)
    | some ar ↦ if is_pending ar.status then go ar d else (d, false)
  ]

  unfoldable pub approve : ℕ → ℕ → Decision → repo.Db → repo.Db × Bool
  approve id now req = when_pending id (approve_pending id now req)

  unfoldable pub reject : ℕ → ℕ → Decision → repo.Db → repo.Db × Bool
  reject id now req = when_pending id (reject_pending id now req)

  unfoldable pub cancel : ℕ → ℕ → String → repo.Db → repo.Db × Bool
  cancel id now user = when_pending id (λ ar d.
      if repo.uuid_string ar.requester_id == user
      then (elim (repo.update_request (record ar { status = cancelled; resolved_at = some now })
          d) [
            | none ↦ (d, false)
            | some d' ↦ (
              append_history ar.id was_cancelled user ar.requester_name
                  (plain "Cancelled by requester") d',
              true,
            )
          ])
      else (d, false))

  unfoldable pub escalate : ℕ → ℕ → String → Decision → repo.Db → repo.Db × Bool
  escalate id now to req = when_pending id (λ ar d.
      elim (repo.update_request
        (record ar {
          status = escalated;
          escalated_at = some now;
          escalated_to = elim (repo.parse_uuid to) [ none ↦ ar.escalated_to | some u ↦ some u ];
        })
        d) [
          | none ↦ (d, false)
          | some d' ↦ (
            append_history ar.id was_escalated req.actor_id req.actor_name
                (escalated_with to req.remark) d',
            true,
          )
        ])

  -- The loop of ExpireStale over the rows that it loaded, and how many it expired.
  unfoldable pub expire_all : ℕ → List ApprovalRequest → repo.Db → repo.Db × ℕ
  expire_all now [] d = (d, 0)
  expire_all now (ar ∷ ars) d =
      elim (repo.update_request (record ar { status = expired; resolved_at = some now }) d) [
        | none ↦ expire_all now ars d
        | some d' ↦
            let (d'', n) =
              expire_all now ars
                (append_history ar.id was_expired "" "system" (plain "Request expired") d') in
            (d'', suc n)
      ]

  -- `none`: the query failed.
  unfoldable pub expire_stale : ℕ → repo.Db → Option (repo.Db × ℕ)
  expire_stale now d = elim (repo.list_expired now d) [
    | none ↦ none
    | some ars ↦ some (expire_all now ars d)
  ]
