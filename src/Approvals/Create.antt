-- ===== src/Approvals/Create.antt =====
-- internal/service/approval_service.go: Create, which stores a request for approval with its steps.
-- Times and durations are in nanoseconds. The payload of the operation and the metadata are kept as
-- they come, in a type of their own.
use vm_orbit.Base.{
  ℕ, zero, suc, ◌+◌, String, ◌≡◌, refl, true, Option, none, some, List, [], ◌∷◌, inl, inr, ◌⊎◌,
  if◌then◌else◌, ◌==◌, nat_eq, string_eq, ℤ, pos, negsuc, Bool-cases,
}
use vm_orbit.Approvals.{
  pending, step_pending, was_created, plain, ApprovalRequest, ApprovalStep, ApprovalStore,
  append_history, verify_approver,
}

pub record CreateApprovalStepRequest : Type 0 where
  pub step_order : ℕ
  pub approver_id : String
  pub approver_role : String
  pub approver_name : String

pub record CreateApprovalRequest (J : Type 0) : Type 0 where
  pub policy_id : String
  pub policy_name : String
  pub operation : String
  pub resource_type : String
  pub resource_id : String
  pub resource_name : String
  pub requester_id : String
  pub requester_name : String
  pub justification : String
  pub operation_payload : J
  pub metadata : J
  pub steps : List CreateApprovalStepRequest
  pub expires_in : ℤ

-- The columns that only Create writes, beside the others.
pub record NewRequest (J : Type 0) : Type 0 where
  pub row : ApprovalRequest
  pub policy_id : ℕ
  pub policy_name : String
  pub operation : String
  pub resource_type : String
  pub resource_id : String
  pub resource_name : String
  pub justification : String
  pub operation_payload : J
  pub metadata : J
  pub expires_at : Option ℕ

pub record NewStep : Type 0 where
  pub step : ApprovalStep
  pub approver_role : String
  pub approver_name : String

pub data CreateError : Type 0 where
  invalid_policy_id invalid_requester_id creating : CreateError

abbrev pub expiry : ℕ → ℤ → Option ℕ
expiry now (pos zero) = none
expiry now (pos (suc n)) = some (now + suc n)
expiry now (negsuc n) = none

-- `new_id` is the identifier that the database gives the request, `step_ids` those of its steps,
-- and `audit_created` tells the audit service of the request.
module _ {J : Type 0} (repo : ApprovalStore)
    (create_request : NewRequest J → repo.Db → Option repo.Db)
    (create_step : NewStep → repo.Db → Option repo.Db) (new_id : ℕ) (step_id : ℕ → ℕ)
    (audit_created : NewRequest J → repo.Db → repo.Db) where
  unfoldable pub new_request : ℕ → ℕ → ℕ → CreateApprovalRequest J → NewRequest J
  new_request now policy requester req = record {
    row = record {
      id = new_id;
      requester_id = requester;
      requester_name = req.requester_name;
      status = pending;
      resolved_at = none;
      escalated_at = none;
      escalated_to = none;
    };
    policy_id = policy;
    policy_name = req.policy_name;
    operation = req.operation;
    resource_type = req.resource_type;
    resource_id = req.resource_id;
    resource_name = req.resource_name;
    justification = req.justification;
    operation_payload = req.operation_payload;
    metadata = req.metadata;
    expires_at = expiry now req.expires_in;
  }

  unfoldable pub new_step : ℕ → CreateApprovalStepRequest → NewStep
  new_step i r = record {
    step = record {
      step_id = step_id i;
      request_id = new_id;
      step_order = r.step_order;
      step_status = step_pending;
      approver_id = if r.approver_id == "" then none else repo.parse_uuid r.approver_id;
      resolved_by = none;
      resolved_by_name = "";
      step_resolved_at = none;
      comment = "";
    };
    approver_role = r.approver_role;
    approver_name = r.approver_name;
  }

  abbrev pub default_step : CreateApprovalStepRequest
  default_step = record {
    step_order = 1;
    approver_id = "";
    approver_role = "admin";
    approver_name = "Administrator";
  }

  abbrev pub wanted_steps : List CreateApprovalStepRequest → List CreateApprovalStepRequest
  wanted_steps [] = default_step ∷ []
  wanted_steps (r ∷ rs) = r ∷ rs

  -- A step that cannot be stored is logged and left out.
  unfoldable pub create_steps : ℕ → List CreateApprovalStepRequest → repo.Db → repo.Db
  create_steps i [] d = d
  create_steps i (r ∷ rs) d = elim (create_step (new_step i r) d) [
    | none ↦ create_steps (suc i) rs d
    | some d' ↦ create_steps (suc i) rs d'
  ]

  unfoldable pub store_request :
      ℕ → ℕ → ℕ → CreateApprovalRequest J → repo.Db → repo.Db × (CreateError ⊎ NewRequest J)
  store_request now policy requester req d =
      let ar = new_request now policy requester req in
      elim (create_request ar d) [
        | none ↦ (d, inl creating)
        | some d' ↦ (
          audit_created ar (
              append_history repo new_id was_created req.requester_id req.requester_name
                (plain "Approval request created") (create_steps 0 (wanted_steps req.steps) d')),
          inr ar,
        )
      ]

  unfoldable pub create :
      ℕ → CreateApprovalRequest J → repo.Db → repo.Db × (CreateError ⊎ NewRequest J)
  create now req d = elim (repo.parse_uuid req.policy_id) [
    | none ↦ (d, inl invalid_policy_id)
    | some policy ↦ (elim (repo.parse_uuid req.requester_id) [
      | none ↦ (d, inl invalid_requester_id)
      | some requester ↦ store_request now policy requester req d
    ])
  ]

  -- A step whose approver's identifier is not a UUID is one that everybody may decide.
  new_step-verify_approver :
      (i : ℕ) (r : CreateApprovalStepRequest) (actor : String)
      → repo.parse_uuid r.approver_id ≡ none
      → verify_approver repo (new_step i r).step actor ≡ true
  unfolding new_step verify_approver
  new_step-verify_approver i r actor bad = elim (Bool-cases (r.approver_id == "")) [
    | inl e ↦ rw e refl
    | inr e ↦ rw (e, bad) refl
  ]
