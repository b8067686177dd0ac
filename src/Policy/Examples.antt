-- ===== src/Policy/Examples.antt =====
-- A policy that denies deletions at night, with functions on texts that compare them as they are.
use vm_orbit.Base.{
  ℕ, String, ◌≡◌, refl, false, Option, none, some, List, [], ◌∷◌, if◌then◌else◌, ◌==◌, nat_eq,
  string_eq, keep_if, pos,
}
use vm_orbit.Policy.{
  deny, operation, equals, PolicyCondition, Policy, PolicyEvaluationRequest, TextOps, Clock,
}
use vm_orbit.Policy.Engine.{PolicyStore, PolicyAnswers, evaluate}
use vm_orbit.Policy.Decisions.{applies, first_applied, evaluate-first, Recorded, evaluate-Recorded}

abbrev clock_times : String → Option ℕ
clock_times text =
    if text == "22:00" then some 1320 else (if text == "06:00" then some 360 else none)

abbrev pieces : String → String → List String
pieces text separator = if text == "22:00-06:00" then "22:00" ∷ "06:00" ∷ [] else text ∷ []

abbrev texts : TextOps
texts = record {
  equal_fold = λ a b. a == b;
  contains_fold = λ a b. a == b;
  trim_space = λ text. text;
  split = pieces;
  has_suffix = λ text suffix. false;
  trim_suffix = λ text suffix. text;
  has_prefix = λ text prefix. false;
  join = λ a b. a;
  json_strings = λ text. none;
  json_schedule = λ text. none;
  compile = λ text. none;
  atoi = λ text. none;
  parse_time = clock_times;
  parse_uuid = λ text. some text;
}

abbrev deletion : PolicyCondition
deletion = record { type = operation; operator = equals; value = "vm.delete"; negate = false }

abbrev no_deletion : Policy
no_deletion = record {
  id = 3;
  name = "no deletion";
  effect = deny;
  operations = "*" ∷ [];
  conditions = deletion ∷ [];
  approval_config = none;
}

abbrev deleting : PolicyEvaluationRequest
deleting = record {
  operation = "vm.delete";
  resource_type = "vm";
  resource_id = "17";
  resource_name = "web";
  user_id = "u1";
  username = "ann";
  roles = [];
  vm_tags = "production" ∷ [];
  provider_type = "vmware";
  hypervisor_id = "";
  environment = "";
  bulk_size = pos 1;
  justification = none;
}

abbrev answers : PolicyAnswers
answers = record {
  policies = some (no_deletion ∷ []);
  assigned = λ targets. some (3 ∷ []);
  violation_created = some "v1";
  approval_created = some "a1";
}

abbrev midnight : Clock
midnight = record { minute = 0; weekday = "monday" }

abbrev store : PolicyStore
store = record { violations = []; approvals = [] }

evaluate-first_example :
    evaluate texts answers midnight deleting store
    ≡ first_applied texts answers deleting
        (keep_if (applies texts midnight (3 ∷ []) deleting) (no_deletion ∷ []))
        store
evaluate-first_example =
    evaluate-first texts answers midnight deleting store no_deletion [] (3 ∷ []) refl refl

evaluate-Recorded_example :
    Recorded answers deleting store (evaluate texts answers midnight deleting store)
evaluate-Recorded_example = evaluate-Recorded texts answers midnight deleting store
