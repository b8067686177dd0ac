-- ===== src/Policy.antt =====
-- internal/policy/engine.go, with the types of internal/domain/model/policy.go and
-- internal/domain/port/policy.go: the policy engine. What Go's library does with texts is a
-- parameter, and so are the clock and the answers of the repositories.
pub mod Conditions
pub mod Engine
pub mod Laws
pub mod Decisions
mod Examples
use vm_orbit.Base.{ℕ, String, Bool, Option, List, nat_eq, string_eq, ℤ}

pub data PolicyEffect : Type 0 where
  allow deny require_approval require_snapshot require_justification : PolicyEffect
  other_effect : String → PolicyEffect

pub data PolicyConditionType : Type 0 where
  vm_tag environment provider user_role operation maintenance_window : PolicyConditionType
  time_schedule vm_name hypervisor bulk_size : PolicyConditionType

pub data PolicyConditionOperator : Type 0 where
  equals not_equals contains in_list not_in greater_than less_than matches : PolicyConditionOperator

pub record PolicyCondition : Type 0 where
  pub type : PolicyConditionType
  pub operator : PolicyConditionOperator
  pub value : String
  pub negate : Bool

pub record ApprovalStep : Type 0 where
  pub step_order : ℤ
  pub approver_id : String
  pub approver_role : String
  pub approver_name : String

-- The keys of the approval configuration that are read. `expiry_hours` is the whole part of the
-- number, which lies within 64 bits; `approval_steps` holds `some none` for a value that is no list of steps.
pub record ApprovalConfig : Type 0 where
  pub expiry_hours : Option ℤ
  pub approval_steps : Option (Option (List ApprovalStep))
  pub approver_role : Option String

pub record Policy : Type 0 where
  pub id : ℕ
  pub name : String
  pub effect : PolicyEffect
  pub operations : List String
  pub conditions : List PolicyCondition
  pub approval_config : Option ApprovalConfig

pub record PolicyEvaluationRequest : Type 0 where
  pub operation : String
  pub resource_type : String
  pub resource_id : String
  pub resource_name : String
  pub user_id : String
  pub username : String
  pub roles : List String
  pub vm_tags : List String
  pub provider_type : String
  pub hypervisor_id : String
  pub environment : String
  pub bulk_size : ℤ
  pub justification : Option String

pub record TimeSchedule : Type 0 where
  pub days : List String
  pub start : String
  pub end : String

-- Functions of Go's library: strings.EqualFold, Contains on lower case, TrimSpace, Split,
-- HasSuffix, TrimSuffix, HasPrefix, concatenation, json.Unmarshal, regexp, strconv.Atoi, time.Parse
-- with the layout 15:04 (in minutes), uuid.Parse.
pub record TextOps : Type 0 where
  pub equal_fold : String → String → Bool
  pub contains_fold : String → String → Bool
  pub trim_space : String → String
  pub split : String → String → List String
  pub has_suffix : String → String → Bool
  pub trim_suffix : String → String → String
  pub has_prefix : String → String → Bool
  pub join : String → String → String
  pub json_strings : String → Option (List String)
  pub json_schedule : String → Option TimeSchedule
  pub compile : String → Option (String → Bool)
  pub atoi : String → Option ℤ
  pub parse_time : String → Option ℕ
  pub parse_uuid : String → Option String

-- time.Now in UTC: the minute of the day, and the name of the day in lower case.
pub record Clock : Type 0 where
  pub minute : ℕ
  pub weekday : String
