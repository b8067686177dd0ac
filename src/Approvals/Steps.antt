-- ===== src/Approvals/Steps.antt =====
-- How decisions move a request through its steps.
use vm_orbit.Base.{
  ℕ, String, ◌≡◌, refl, ap, none, ◌∙◌, inl, inr, Bool, true, false, not, some, List, [], ◌∷◌, arith,
  Bool-cases, Option-cases, is_some, nat_eq, beq_refl,
}
use vm_orbit.Approvals.{
  approved, escalated, is_pending, ApprovalRequest, ApprovalStep, step_approved, Decision,
  ApprovalStore, approve, approve_pending, finish_approval, reject, reject_pending, cancel,
  escalate, when_pending, append_history, verify_approver, resolved,
}

abbrev pub is_empty : List ApprovalStep → Bool
is_empty [] = true
is_empty (s ∷ ss) = false

module _ (repo : ApprovalStore) where
  -- The request that an approval leaves, by whether another pending step was found.
  abbrev pub approved_if : Bool → ℕ → ApprovalRequest → ApprovalRequest
  approved_if true now ar = record ar { status = approved; resolved_at = some now }
  approved_if false now ar = ar

  finish_approval-request :
      (id now : ℕ) (req : Decision) (ar : ApprovalRequest) (step : ApprovalStep) (d : repo.Db)
      → repo.get_by_id id d ≡ some ar
      → ar.id ≡ id
      → (finish_approval repo id now req ar step d).1 ≡ true
      → let d' = (finish_approval repo id now req ar step d).0 in
        (repo.get_by_id id d'
          ≡ some (approved_if (not (is_some (repo.get_current_pending_step id d))) now ar))
        × (repo.pending_steps id d' ≡ repo.pending_steps id d)
  unfolding append_history finish_approval
  finish_approval-request id now req ar step d found same ok =
      elim (Option-cases (repo.get_current_pending_step id d)) [
        | inl e ↦ elim (Option-cases (repo.update_request (approved_if true now ar) d)) [
          | inl f ↦ absurd (ground arith)
          | inr (d', f) ↦
              rw (e, f, finish_approval)
                (
                  repo.get-audit_log id req id _
                      ∙ repo.get-create_history _ id d'
                      ∙ repo.get-update_request (approved_if true now ar) id d d' f
                      ∙ rw (same, beq_refl id) refl,
                  repo.pending-audit_log id req id _
                      ∙ repo.pending-create_history _ id d'
                      ∙ repo.pending-update_request (approved_if true now ar) id d d' f,
                )
        ]
        | inr (next, e) ↦
            rw (e, finish_approval)
              (
                repo.get-audit_log id req id _ ∙ repo.get-create_history _ id d ∙ found,
                repo.pending-audit_log id req id _ ∙ repo.pending-create_history _ id d,
              )
      ]

  approve_pending-steps :
      (id now : ℕ) (req : Decision) (ar : ApprovalRequest) (d : repo.Db)
      → repo.get_by_id id d ≡ some ar
      → ar.id ≡ id
      → (approve_pending repo id now req ar d).1 ≡ true
      → let d' = (approve_pending repo id now req ar d).0 in
        (step : ApprovalStep) × (rest : List ApprovalStep) × (d1 : repo.Db) × (repo.pending_steps id
            d
          ≡ step ∷ rest)
        × (repo.update_step (resolved repo step_approved now req step) d ≡ some d1)
        × (repo.pending_steps id d' ≡ rest)
        × (repo.get_by_id id d'
            ≡ some (approved_if (not (is_some (repo.get_current_pending_step id d1))) now ar))
  unfolding approve_pending
  approve_pending-steps id now req ar d found same ok =
      elim (Option-cases (repo.get_current_pending_step id d)) [
        | inl e ↦ absurd (ground arith)
        | inr (step, e) ↦ elim (Bool-cases (verify_approver repo step req.actor_id)) [
          | inr other ↦ absurd (ground arith)
          | inl own ↦
              elim (Option-cases (repo.update_step (resolved repo step_approved now req step) d)) [
                | inl f ↦ absurd (ground arith)
                | inr (d1, f) ↦
                    let ok' : (finish_approval repo id now req ar step d1).1 ≡ true =
                      rw (e, own, f, approve_pending) at ok in
                    let saved =
                      repo.get-update_step (resolved repo step_approved now req step) id d d1 f in
                    let (row, kept) =
                      finish_approval-request id now req ar step d1 (saved ∙ found) same ok' in
                    let (rest, p) = repo.current-pending id step d e in
                    let left =
                      repo.pending-update_step id step (resolved repo step_approved now req step)
                        rest d d1 e p refl refl f in
                    rw (e, own, f, approve_pending) (step, rest, d1, p, f, kept ∙ left, row)
              ]
        ]
      ]

  -- An approval that succeeds, of a request that is stored under its own id, takes exactly the
  -- first pending step away, and the request becomes approved if the query for a next pending step
  -- returns none, also when that query failed; else the row stays as it was.
  pub approve-steps :
      (id now : ℕ) (req : Decision) (ar : ApprovalRequest) (d : repo.Db)
      → repo.get_by_id id d ≡ some ar
      → ar.id ≡ id
      → (approve repo id now req d).1 ≡ true
      → let d' = (approve repo id now req d).0 in
        (step : ApprovalStep) × (rest : List ApprovalStep) × (d1 : repo.Db) × (repo.pending_steps id
            d
          ≡ step ∷ rest)
        × (repo.update_step (resolved repo step_approved now req step) d ≡ some d1)
        × (repo.pending_steps id d' ≡ rest)
        × (repo.get_by_id id d'
            ≡ some (approved_if (not (is_some (repo.get_current_pending_step id d1))) now ar))
  unfolding approve when_pending
  approve-steps id now req ar d found same ok = elim (Bool-cases (is_pending ar.status)) [
    | inl live ↦
        rw (found, live, when_pending)
          (approve_pending-steps id now req ar d found same (rw (found, live, when_pending) at ok))
    | inr over ↦ absurd (ground arith)
  ]

  when_pending_over :
      (id : ℕ) (go : ApprovalRequest → repo.Db → repo.Db × Bool) (ar : ApprovalRequest)
      (d : repo.Db)
      → repo.get_by_id id d ≡ some ar
      → is_pending ar.status ≡ false
      → when_pending repo id go d ≡ (d, false)
  unfolding when_pending
  when_pending_over id go ar d found over = rw (found, over, when_pending) refl

  -- The four operations leave a request alone that is not pending.
  settled :
      (id now : ℕ) (req : Decision) (user to : String) (ar : ApprovalRequest) (d : repo.Db)
      → repo.get_by_id id d ≡ some ar
      → is_pending ar.status ≡ false
      → (approve repo id now req d ≡ (d, false))
        × (reject repo id now req d ≡ (d, false))
        × (cancel repo id now user d ≡ (d, false))
        × (escalate repo id now to req d ≡ (d, false))
  unfolding approve reject cancel escalate
  settled id now req user to ar d found over = (
    when_pending_over id (approve_pending repo id now req) ar d found over,
    when_pending_over id (reject_pending repo id now req) ar d found over,
    when_pending_over id _ ar d found over,
    when_pending_over id _ ar d found over,
  )

  escalate-stored :
      (id now : ℕ) (to : String) (req : Decision) (ar : ApprovalRequest) (d : repo.Db)
      → repo.get_by_id id d ≡ some ar
      → ar.id ≡ id
      → (escalate repo id now to req d).1 ≡ true
      → (ar' : ApprovalRequest) × (ar'.status ≡ escalated)
        × (repo.get_by_id id (escalate repo id now to req d).0 ≡ some ar')
  unfolding escalate when_pending append_history
  escalate-stored id now to req ar d found same ok = elim (Bool-cases (is_pending ar.status)) [
    | inr over ↦ absurd (ground arith)
    | inl live ↦
        let ar' = record ar {
          status = escalated;
          escalated_at = some now;
          escalated_to = elim (repo.parse_uuid to) [ none ↦ ar.escalated_to | some u ↦ some u ];
        } in
        elim (Option-cases (repo.update_request ar' d)) [
          | inl e ↦ absurd (ground (arith, rw (found, live, e, when_pending) at ok))
          | inr (d', e) ↦ (
            ar',
            refl,
            rw (found, live, e, when_pending)
                (repo.get-create_history _ id d'
                  ∙ repo.get-update_request ar' id d d' e
                  ∙ rw (same, beq_refl id) refl),
          )
        ]
  ]

  -- An escalation that succeeds, of a request that is stored under its own id, leaves it to nobody:
  -- whoever comes later, approving, rejecting, cancelling and escalating it again are refused and
  -- change nothing.
  pub escalate-settled :
      (id now later : ℕ) (to to' user : String) (req other : Decision) (ar : ApprovalRequest)
      (d : repo.Db)
      → repo.get_by_id id d ≡ some ar
      → ar.id ≡ id
      → (escalate repo id now to req d).1 ≡ true
      → let d' = (escalate repo id now to req d).0 in
        (approve repo id later other d' ≡ (d', false))
        × (reject repo id later other d' ≡ (d', false))
        × (cancel repo id later user d' ≡ (d', false))
        × (escalate repo id later to' other d' ≡ (d', false))
  unfolding is_pending
  escalate-settled id now later to to' user req other ar d found same ok =
      let (ar', status, stored) = escalate-stored id now to req ar d found same ok in
      settled id later other user to' ar' (escalate repo id now to req d).0 stored
        (ap is_pending status)
