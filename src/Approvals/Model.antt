-- ===== src/Approvals/Model.antt =====
-- internal/domain/model/approval.go, and the interface to the repositories of approvals, to the
-- audit service and to the UUID library. UUIDs are numbers; the columns that no operation reads or
-- writes are left out. Times are in nanoseconds.
use vm_orbit.Base.{ℕ, String, ◌≡◌, Option, some, List, ◌∷◌, if◌then◌else◌, ◌==◌, nat_eq, string_eq}

pub data ApprovalStatus : Type 0 where
  pending approved rejected expired escalated cancelled : ApprovalStatus

pub data ApprovalStepStatus : Type 0 where
  step_pending step_approved step_rejected step_skipped : ApprovalStepStatus

pub data ApprovalHistoryAction : Type 0 where
  was_created was_approved was_rejected was_escalated was_expired was_cancelled was_commented :
      ApprovalHistoryAction

pub record ApprovalRequest : Type 0 where
  pub id : ℕ
  pub requester_id : ℕ
  pub requester_name : String
  pub status : ApprovalStatus
  pub resolved_at : Option ℕ
  pub escalated_at : Option ℕ
  pub escalated_to : Option ℕ

pub record ApprovalStep : Type 0 where
  pub step_id : ℕ
  pub request_id : ℕ
  pub step_order : ℕ
  pub step_status : ApprovalStepStatus
  pub approver_id : Option ℕ
  pub resolved_by : Option ℕ
  pub resolved_by_name : String
  pub step_resolved_at : Option ℕ
  pub comment : String

-- The text of a history entry, by the format that makes it.
pub data HistoryComment : Type 0 where
  plain : String → HistoryComment
  step_approved_with : ℕ → String → HistoryComment
  escalated_with : String → String → HistoryComment

pub record ApprovalHistory : Type 0 where
  pub of_request : ℕ
  pub action : ApprovalHistoryAction
  pub by : Option ℕ
  pub by_name : String
  pub text : HistoryComment

-- A decision, and an escalation.
pub record Decision : Type 0 where
  pub actor_id : String
  pub actor_name : String
  pub remark : String

-- The repositories over the database, the audit service, and the UUID library. `none` is an error:
-- for a step, that there is none, or that the query failed. `pending_steps` is what the rows say.
pub record ApprovalStore : Type 1 where
  pub Db : Type 0
  pub parse_uuid : String → Option ℕ
  pub uuid_string : ℕ → String
  pub get_by_id : ℕ → Db → Option ApprovalRequest
  pub update_request : ApprovalRequest → Db → Option Db
  pub list_expired : ℕ → Db → Option (List ApprovalRequest)
  pub get_current_pending_step : ℕ → Db → Option ApprovalStep
  pub pending_steps : ℕ → Db → List ApprovalStep
  pub update_step : ApprovalStep → Db → Option Db
  -- Their errors are logged, or ignored.
  pub create_history : ApprovalHistory → Db → Db
  pub audit_log : ℕ → Decision → Db → Db
  pub current-pending :
      (i : ℕ) (s : ApprovalStep) (d : Db)
      → get_current_pending_step i d ≡ some s
      → (rest : List ApprovalStep) × (pending_steps i d ≡ s ∷ rest)
  pub get-update_request :
      (r : ApprovalRequest) (j : ℕ) (d d' : Db)
      → update_request r d ≡ some d'
      → get_by_id j d' ≡ (if r.id == j then some r else get_by_id j d)
  pub pending-update_request :
      (r : ApprovalRequest) (j : ℕ) (d d' : Db)
      → update_request r d ≡ some d'
      → pending_steps j d' ≡ pending_steps j d
  pub get-update_step :
      (s : ApprovalStep) (j : ℕ) (d d' : Db)
      → update_step s d ≡ some d'
      → get_by_id j d' ≡ get_by_id j d
  -- Saving the first pending step with the status approved takes it out of the pending ones.
  pub pending-update_step :
      (i : ℕ) (s t : ApprovalStep) (rest : List ApprovalStep) (d d' : Db)
      → get_current_pending_step i d ≡ some s
      → pending_steps i d ≡ s ∷ rest
      → t.step_id ≡ s.step_id
      → t.step_status ≡ step_approved
      → update_step t d ≡ some d'
      → pending_steps i d' ≡ rest
  pub get-create_history :
      (h : ApprovalHistory) (j : ℕ) (d : Db) → get_by_id j (create_history h d) ≡ get_by_id j d
  pub pending-create_history :
      (h : ApprovalHistory) (j : ℕ) (d : Db)
      → pending_steps j (create_history h d) ≡ pending_steps j d
  pub get-audit_log :
      (i : ℕ) (a : Decision) (j : ℕ) (d : Db) → get_by_id j (audit_log i a d) ≡ get_by_id j d
  pub pending-audit_log :
      (i : ℕ) (a : Decision) (j : ℕ) (d : Db)
      → pending_steps j (audit_log i a d) ≡ pending_steps j d
