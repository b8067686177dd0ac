-- ===== src/Policy/Laws.antt =====
-- The conditions of a policy: lists and their negations, and windows of time.
use vm_orbit.Base.{
  ℕ, ◌≤◌, String, ◌≡◌, refl, Bool, true, false, not, some, List, [], ◌∷◌, arith, if◌then◌else◌,
  nat_eq, string_eq, any, all,
}
use vm_orbit.Policy.{
  equals, not_equals, in_list, not_in, PolicyCondition, PolicyEvaluationRequest, TextOps, Clock,
}
use vm_orbit.Policy.Conditions.{
  list_values, scan, match_string, scan_actuals, scan_slice, match_string_slice, in_window,
  is_in_maintenance_window, evaluate_condition, evaluate_conditions,
}

scan-not :
    (o : TextOps) (actual : String) (vs : List String)
    → (scan o true actual vs ≡ any (λ v. o.equal_fold (o.trim_space v) actual) vs)
      × (scan o false actual vs ≡ not (any (λ v. o.equal_fold (o.trim_space v) actual) vs))
unfolding scan
scan-not o actual [] = (refl, refl)
scan-not o actual (v ∷ vs) = ground (arith, scan-not o actual vs)

scan_actuals-any :
    (o : TextOps) (v : String) (actuals : List String)
    → scan_actuals o v actuals ≡ any (λ a. o.equal_fold (o.trim_space v) a) actuals
unfolding scan_actuals
scan_actuals-any o v [] = refl
scan_actuals-any o v (a ∷ actuals) = ground (arith, scan_actuals-any o v actuals)

abbrev pub shares : TextOps → List String → List String → Bool
shares o actuals vs = any (λ v. any (λ a. o.equal_fold (o.trim_space v) a) actuals) vs

scan_slice-not :
    (o : TextOps) (actuals vs : List String)
    → (scan_slice o true actuals vs ≡ shares o actuals vs)
      × (scan_slice o false actuals vs ≡ not (shares o actuals vs))
unfolding scan_slice
scan_slice-not o actuals [] = (refl, refl)
scan_slice-not o actuals (v ∷ vs) =
    ground (arith, scan_slice-not o actuals vs, scan_actuals-any o v actuals)

-- The operators "in" and "not_in" of a condition are the negations of each other, on one value and
-- on a list of values, and "in" says that some value of the condition, without its blanks, is equal
-- to an actual one up to case. So are "equals" and "not_equals" on one value.
pub match_in-not_in :
    (o : TextOps) (value actual : String) (actuals : List String)
    → (match_string o in_list value actual
        ≡ any (λ v. o.equal_fold (o.trim_space v) actual) (list_values o value))
      × (match_string o not_in value actual ≡ not (match_string o in_list value actual))
      × (match_string o not_equals value actual ≡ not (match_string o equals value actual))
      × (match_string_slice o in_list value actuals ≡ shares o actuals (list_values o value))
      × (match_string_slice o not_in value actuals
          ≡ not (match_string_slice o in_list value actuals))
unfolding match_string match_string_slice
match_in-not_in o value actual actuals =
    ground (
      arith,
      scan-not o actual (list_values o value),
      scan_slice-not o actuals (list_values o value),
    )

in_window_late :
    (o : TextOps) (start end now : ℕ)
    → end ≤ start
    → in_window o (some start) (some end) now ≡ false
unfolding in_window
in_window_late o start end now h = ground arith

-- A maintenance window whose end is not behind its start, as one over midnight, contains no
-- time of the day: isInMaintenanceWindow is false at every clock.
pub maintenance_window_midnight :
    (o : TextOps) (c : Clock) (value first last : String) (start end : ℕ)
    → o.split value "-" ≡ first ∷ last ∷ []
    → o.parse_time (o.trim_space first) ≡ some start
    → o.parse_time (o.trim_space last) ≡ some end
    → end ≤ start
    → is_in_maintenance_window o c value ≡ false
unfolding is_in_maintenance_window
maintenance_window_midnight o c value first last start end parts e1 e2 h =
    rw (parts, is_in_maintenance_window) (rw (e1, e2) (in_window_late o start end c.minute h))

-- Every condition holds, a negated one by not matching.
abbrev pub holds : TextOps → Clock → PolicyEvaluationRequest → PolicyCondition → Bool
holds o c req d =
    if d.negate then not (evaluate_condition o c d req) else evaluate_condition o c d req

pub evaluate_conditions-all :
    (o : TextOps) (c : Clock) (ds : List PolicyCondition) (req : PolicyEvaluationRequest)
    → evaluate_conditions o c ds req ≡ all (holds o c req) ds
unfolding evaluate_conditions
evaluate_conditions-all o c [] req = refl
evaluate_conditions-all o c (d ∷ ds) req = ground (arith, evaluate_conditions-all o c ds req)
