-- ===== src/Policy/Engine.antt =====
-- internal/policy/engine.go: Evaluate, the effect of the policy that matched, and what it records.
use vm_orbit.Base.{
  ℕ, String, Bool, true, false, not, Option, none, some, List, [], ◌∷◌, ◌++◌, if◌then◌else◌,
  is_some, or_else, ◌==◌, nat_eq, string_eq, ℤ, pos, negsuc, pos_part, zero, suc, ◌*◌, ◌%◌, ◌-◌,
  ltb,
}
use vm_orbit.Base.{member}
use vm_orbit.Policy.{
  PolicyEffect, allow, deny, require_approval, require_snapshot, require_justification,
  other_effect, ApprovalStep, ApprovalConfig, Policy, PolicyEvaluationRequest, TextOps, Clock,
}
use vm_orbit.Policy.Conditions.{evaluate_conditions, operation_matches}

pub data PolicyViolationStatus : Type 0 where
  blocked overridden pending_approval : PolicyViolationStatus

pub record PolicyViolation : Type 0 where
  pub policy_id : ℕ
  pub policy_name : String
  pub effect : PolicyEffect
  pub status : PolicyViolationStatus
  pub operation : String
  pub resource_type : String
  pub resource_id : String
  pub resource_name : String
  pub user_id : Option String
  pub username : String
  pub approval_request_id : Option String

-- What is asked of the approval service; the time is in nanoseconds.
pub record CreateApprovalRequest : Type 0 where
  pub policy_id : ℕ
  pub policy_name : String
  pub operation : String
  pub resource_type : String
  pub resource_id : String
  pub resource_name : String
  pub requester_id : String
  pub requester_name : String
  pub steps : List ApprovalStep
  pub expires_in : ℤ
  pub justification : String

pub data EvalMessage : Type 0 where
  unexplained engine_unavailable no_policies no_matching : EvalMessage
  allowed_by denied_by approval_required_by approval_failed snapshot_required_by :
      String → EvalMessage
  justification_required_by allowed_with_justification : String → EvalMessage

pub record EvaluationResult : Type 0 where
  pub allowed : Bool
  pub effect : Option PolicyEffect
  pub matched_policy : Option ℕ
  pub violation_id : String
  pub approval_request_id : String
  pub message : EvalMessage
  pub requires_snapshot : Bool
  pub requires_justification : Bool

pub record PolicyStore : Type 0 where
  pub violations : List PolicyViolation
  pub approvals : List CreateApprovalRequest

-- The answers of the repositories and of the approval service, `none` for an error. The second are
-- the identifiers of the policies that are assigned to one of the targets.
pub record PolicyAnswers : Type 0 where
  pub policies : Option (List Policy)
  pub assigned : List String → Option (List ℕ)
  pub violation_created : Option String
  pub approval_created : Option String

unfoldable pub build_target_ids : PolicyEvaluationRequest → List String
build_target_ids req =
    (if not (req.resource_id == "") then req.resource_id ∷ [] else [])
    ++ (if not (req.hypervisor_id == "") then req.hypervisor_id ∷ [] else [])
    ++ (if not (req.environment == "") then req.environment ∷ [] else [])
    ++ req.vm_tags
    ++ req.roles

unfoldable pub build_approval_steps : Option ApprovalConfig → List ApprovalStep
build_approval_steps none = []
build_approval_steps (some c) = elim c.approval_steps [
  | none ↦ elim c.approver_role [
    | none ↦ []
    | some role ↦
        if not (role == "")
        then record {
          step_order = pos 1;
          approver_id = "";
          approver_role = role;
          approver_name = "";
        }
          ∷ []
        else []
  ]
  | some raw ↦ or_else raw []
]

abbrev pub hour : ℕ
hour = 3600000000000

-- time.Duration(hours) * time.Hour, which wraps at 64 bits.
abbrev pub signed : ℕ → ℤ
signed n = if ltb n 9223372036854775808 then pos n else negsuc (18446744073709551615 - n)

abbrev pub hours_duration : ℕ → ℤ
hours_duration hours = signed (hours * hour % 18446744073709551616)

-- A duration of zero stands for a day.
abbrev pub or_day : ℤ → ℤ
or_day (pos zero) = pos (24 * hour)
or_day (pos (suc n)) = pos (suc n)
or_day (negsuc n) = negsuc n

unfoldable pub expires_in : Option ApprovalConfig → ℤ
expires_in none = pos (24 * hour)
expires_in (some c) = elim c.expiry_hours [
  | none ↦ pos (24 * hour)
  | some hours ↦ or_day (hours_duration (pos_part hours))
]

abbrev pub empty_result : EvaluationResult
empty_result = record {
  allowed = true;
  effect = none;
  matched_policy = none;
  violation_id = "";
  approval_request_id = "";
  message = no_matching;
  requires_snapshot = false;
  requires_justification = false;
}

module _ (o : TextOps) (a : PolicyAnswers) where
  -- The new violation's identifier, or the empty text when it could not be stored.
  unfoldable pub record_violation :
      Policy
      → PolicyEvaluationRequest
      → PolicyViolationStatus
      → String
      → PolicyStore
      → PolicyStore × String
  record_violation p req status approval_id st = elim a.violation_created [
    | none ↦ (st, "")
    | some vid ↦ (
      record st {
        violations =
            record {
              policy_id = p.id;
              policy_name = p.name;
              effect = p.effect;
              status = status;
              operation = req.operation;
              resource_type = req.resource_type;
              resource_id = req.resource_id;
              resource_name = req.resource_name;
              user_id = if not (req.user_id == "") then o.parse_uuid req.user_id else none;
              username = req.username;
              approval_request_id =
                  if not (approval_id == "") then o.parse_uuid approval_id else none;
            }
            ∷ st.violations;
      },
      vid,
    )
  ]

  unfoldable pub create_approval_request :
      Policy → PolicyEvaluationRequest → PolicyStore → PolicyStore × Option String
  create_approval_request p req st = elim a.approval_created [
    | none ↦ (st, none)
    | some aid ↦ (
      record st {
        approvals =
            record {
              policy_id = p.id;
              policy_name = p.name;
              operation = req.operation;
              resource_type = req.resource_type;
              resource_id = req.resource_id;
              resource_name = req.resource_name;
              requester_id = req.user_id;
              requester_name = req.username;
              steps = build_approval_steps p.approval_config;
              expires_in = expires_in p.approval_config;
              justification = or_else req.justification "";
            }
            ∷ st.approvals;
      },
      some aid,
    )
  ]

  -- The result for a policy that matched, with its effect and itself filled in.
  unfoldable pub started : Policy → Bool → EvalMessage → EvaluationResult
  started p allowed message = record empty_result {
    allowed = allowed;
    effect = some p.effect;
    matched_policy = some p.id;
    message = message;
  }

  unfoldable pub effect_on :
      PolicyEffect → Policy → PolicyEvaluationRequest → PolicyStore → PolicyStore × EvaluationResult
  effect_on allow p req st = (st, started p true (allowed_by p.name))
  effect_on deny p req st =
      let (st', vid) = record_violation p req blocked "" st in
      (st', record (started p false (denied_by p.name)) { violation_id = vid })
  effect_on require_approval p req st =
      let (st1, approval) = create_approval_request p req st in
      let aid = or_else approval "" in
      let message =
        if is_some approval then approval_required_by p.name else approval_failed p.name in
      let (st2, vid) = record_violation p req pending_approval aid st1 in
      (st2, record (started p false message) { violation_id = vid; approval_request_id = aid })
  effect_on require_snapshot p req st =
      (st, record (started p true (snapshot_required_by p.name)) { requires_snapshot = true })
  effect_on require_justification p req st =
      if not (or_else req.justification "" == "")
      then (let (st', vid) = record_violation p req overridden "" st in
          (
            st',
            record (started p true (allowed_with_justification p.name)) {
              violation_id = vid;
              requires_justification = true;
            },
          ))
      else (
        st,
        record (started p false (justification_required_by p.name)) {
          requires_justification = true;
        },
      )
  -- Any other text takes no branch of the switch: not allowed, and no message.
  effect_on (other_effect e) p req st = (st, started p false unexplained)

  unfoldable pub apply_effect :
      Policy → PolicyEvaluationRequest → PolicyStore → PolicyStore × EvaluationResult
  apply_effect p req st = effect_on p.effect p req st

  -- The loop over the policies, with the identifiers of the assigned ones.
  unfoldable pub evaluate_each :
      Clock
      → List ℕ
      → PolicyEvaluationRequest
      → List Policy
      → PolicyStore
      → PolicyStore × EvaluationResult
  evaluate_each c assigned req [] st = (st, empty_result)
  evaluate_each c assigned req (p ∷ ps) st =
      let rest = evaluate_each c assigned req ps st in
      if not (member p.id assigned)
      then rest
      else (if not (operation_matches o p.operations req.operation)
          then rest
          else (if not (evaluate_conditions o c p.conditions req)
              then rest
              else apply_effect p req st))

  unfoldable pub evaluate_assigned :
      Clock
      → PolicyEvaluationRequest
      → List Policy
      → Option (List ℕ)
      → PolicyStore
      → PolicyStore × EvaluationResult
  evaluate_assigned c req ps none st = (st, record empty_result { message = engine_unavailable })
  evaluate_assigned c req ps (some assigned) st = evaluate_each c assigned req ps st

  unfoldable pub evaluate_loaded :
      Clock
      → PolicyEvaluationRequest
      → Option (List Policy)
      → PolicyStore
      → PolicyStore × EvaluationResult
  evaluate_loaded c req none st = (st, record empty_result { message = engine_unavailable })
  evaluate_loaded c req (some []) st = (st, record empty_result { message = no_policies })
  evaluate_loaded c req (some (p ∷ ps)) st =
      evaluate_assigned c req (p ∷ ps) (a.assigned (build_target_ids req)) st

  unfoldable pub evaluate :
      Clock → PolicyEvaluationRequest → PolicyStore → PolicyStore × EvaluationResult
  evaluate c req st = evaluate_loaded c req a.policies st
