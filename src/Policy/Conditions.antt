-- ===== src/Policy/Conditions.antt =====
-- internal/policy/engine.go: the conditions of a policy, and the operations it is for.
use vm_orbit.Base.{
  ℕ, String, Bool, true, false, not, ◌&&◌, ◌||◌, Option, none, some, List, [], ◌∷◌, ltb,
  if◌then◌else◌, ◌==◌, nat_eq, string_eq, any, ℤ, ltb_ℤ, leb_ℤ,
}
use vm_orbit.Policy.{
  PolicyConditionType, vm_tag, environment, provider, user_role, operation, maintenance_window,
  time_schedule, vm_name, hypervisor, bulk_size, PolicyConditionOperator, equals, not_equals,
  contains, in_list, not_in, greater_than, less_than, matches, PolicyCondition,
  PolicyEvaluationRequest, TimeSchedule, TextOps, Clock,
}

module _ (o : TextOps) where
  -- The values of a list condition: JSON, else separated by commas.
  unfoldable pub list_values : String → List String
  list_values cond_value = elim (o.json_strings cond_value) [
    | none ↦ o.split cond_value ","
    | some values ↦ values
  ]

  -- The loop that ends with the given result at the first value that is equal.
  unfoldable pub scan : Bool → String → List String → Bool
  scan found actual [] = not found
  scan found actual (v ∷ vs) =
      let rest = scan found actual vs in
      if o.equal_fold (o.trim_space v) actual then found else rest

  unfoldable pub match_string : PolicyConditionOperator → String → String → Bool
  match_string equals cond_value actual = o.equal_fold actual cond_value
  match_string not_equals cond_value actual = not (o.equal_fold actual cond_value)
  match_string contains cond_value actual = o.contains_fold actual cond_value
  match_string in_list cond_value actual = scan true actual (list_values cond_value)
  match_string not_in cond_value actual = scan false actual (list_values cond_value)
  match_string matches cond_value actual = elim (o.compile cond_value) [
    | none ↦ false
    | some re ↦ re actual
  ]
  match_string greater_than cond_value actual = false
  match_string less_than cond_value actual = false

  -- The inner loop of a list condition: whether a value is equal to an actual one.
  unfoldable pub scan_actuals : String → List String → Bool
  scan_actuals v [] = false
  scan_actuals v (a ∷ actuals) =
      let rest = scan_actuals v actuals in if o.equal_fold (o.trim_space v) a then true else rest

  unfoldable pub scan_slice : Bool → List String → List String → Bool
  scan_slice found actuals [] = not found
  scan_slice found actuals (v ∷ vs) =
      let rest = scan_slice found actuals vs in if scan_actuals v actuals then found else rest

  unfoldable pub holds_tag : String → List String → Bool
  holds_tag cond_value [] = false
  holds_tag cond_value (a ∷ actuals) =
      let rest = holds_tag cond_value actuals in if o.equal_fold a cond_value then true else rest

  unfoldable pub match_string_slice : PolicyConditionOperator → String → List String → Bool
  match_string_slice contains cond_value actuals = holds_tag cond_value actuals
  match_string_slice equals cond_value actuals = holds_tag cond_value actuals
  match_string_slice in_list cond_value actuals = scan_slice true actuals (list_values cond_value)
  match_string_slice not_in cond_value actuals = scan_slice false actuals (list_values cond_value)
  match_string_slice _ cond_value actuals = false

  -- A time of the day is in the window from the first, which belongs to it, to the last, which does
  -- not.
  unfoldable pub in_window : Option ℕ → Option ℕ → ℕ → Bool
  in_window (some start) (some end) now = not (ltb now start) && ltb now end
  in_window _ _ now = false

  unfoldable pub is_in_maintenance_window : Clock → String → Bool
  is_in_maintenance_window c cond_value = elim (o.split cond_value "-") [
    | [] ↦ false
    | first ∷ others ↦ elim others [
      | [] ↦ false
      | last ∷ more ↦ elim more [
        | [] ↦
            in_window (o.parse_time (o.trim_space first)) (o.parse_time (o.trim_space last))
              c.minute
        | _ ∷ _ ↦ false
      ]
    ]
  ]

  unfoldable pub schedule_matches : Clock → TimeSchedule → Bool
  schedule_matches c s =
      if not (any (λ d. o.equal_fold d c.weekday) s.days)
      then false
      else (if not (s.start == "") && not (s.end == "")
          then in_window (o.parse_time s.start) (o.parse_time s.end) c.minute
          else true)

  unfoldable pub is_in_time_schedule : Clock → String → Bool
  is_in_time_schedule c cond_value = elim (o.json_schedule cond_value) [
    | none ↦ false
    | some s ↦ schedule_matches c s
  ]

  unfoldable pub match_bulk : PolicyConditionOperator → ℤ → Option ℤ → Bool
  match_bulk op size none = false
  match_bulk greater_than size (some threshold) = ltb_ℤ threshold size
  match_bulk less_than size (some threshold) = ltb_ℤ size threshold
  match_bulk equals size (some threshold) = leb_ℤ size threshold && leb_ℤ threshold size
  match_bulk _ size (some threshold) = false

  unfoldable pub match_type :
      Clock
      → PolicyConditionType
      → PolicyConditionOperator
      → String
      → PolicyEvaluationRequest
      → Bool
  match_type c vm_tag op value req = match_string_slice op value req.vm_tags
  match_type c environment op value req = match_string op value req.environment
  match_type c provider op value req = match_string op value req.provider_type
  match_type c user_role op value req = match_string_slice op value req.roles
  match_type c operation op value req = match_string op value req.operation
  match_type c vm_name op value req = match_string op value req.resource_name
  match_type c hypervisor op value req = match_string op value req.hypervisor_id
  match_type c bulk_size op value req = match_bulk op req.bulk_size (o.atoi value)
  match_type c maintenance_window op value req = is_in_maintenance_window c value
  match_type c time_schedule op value req = is_in_time_schedule c value

  unfoldable pub evaluate_condition : Clock → PolicyCondition → PolicyEvaluationRequest → Bool
  evaluate_condition c d req = match_type c d.type d.operator d.value req

  unfoldable pub evaluate_conditions : Clock → List PolicyCondition → PolicyEvaluationRequest → Bool
  evaluate_conditions c [] req = true
  evaluate_conditions c (d ∷ ds) req =
      let rest = evaluate_conditions c ds req in
      let matched = evaluate_condition c d req in
      if not (if d.negate then not matched else matched) then false else rest

  unfoldable pub operation_in : List String → String → Bool
  operation_in [] asked = false
  operation_in (op ∷ ops) asked =
      let rest = operation_in ops asked in
      let prefix = o.trim_suffix op ".*" in
      if (op == "*") || o.equal_fold op asked
      then true
      else (if o.has_suffix op ".*"
            && (o.has_prefix asked (o.join prefix ".") || o.equal_fold asked prefix)
          then true
          else rest)

  unfoldable pub operation_matches : List String → String → Bool
  operation_matches [] asked = true
  operation_matches (op ∷ ops) asked = operation_in (op ∷ ops) asked
