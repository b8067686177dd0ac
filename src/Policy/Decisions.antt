-- ===== src/Policy/Decisions.antt =====
-- The decisions of the policy engine: which policy decides, and what is recorded of it.
use vm_orbit.Base.{
  ℕ, ◌+◌, String, ◌≡◌, refl, ap, ◌∙◌, inl, inr, Bool, true, false, not, ◌&&◌, Option, none, some,
  List, [], ◌∷◌, arith, if◌then◌else◌, Bool-cases, Option-cases, is_some, or_else, ◌==◌, nat_eq,
  string_eq, length, keep_if, all,
}
use vm_orbit.Base.{member}
use vm_orbit.Policy.{
  PolicyEffect, allow, deny, require_approval, require_snapshot, require_justification,
  other_effect, Policy, PolicyEvaluationRequest, TextOps, Clock,
}
use vm_orbit.Policy.Conditions.{operation_matches}
use vm_orbit.Policy.Laws.{holds, evaluate_conditions-all}
use vm_orbit.Policy.Engine.{
  PolicyStore, PolicyAnswers, EvaluationResult, empty_result, build_target_ids, record_violation,
  create_approval_request, effect_on, started, PolicyViolationStatus, blocked, overridden,
  pending_approval, apply_effect, evaluate_each, evaluate_assigned, evaluate_loaded, evaluate,
}

-- The policy is assigned to the request, is for its operation, and all its conditions hold.
abbrev pub applies : TextOps → Clock → List ℕ → PolicyEvaluationRequest → Policy → Bool
applies o c assigned req p =
    member p.id assigned
    && (operation_matches o p.operations req.operation && all (holds o c req) p.conditions)

-- The decision of the first policy that applies, or leave when none does.
abbrev pub first_applied :
    TextOps
    → PolicyAnswers
    → PolicyEvaluationRequest
    → List Policy
    → PolicyStore
    → PolicyStore × EvaluationResult
first_applied o a req [] st = (st, empty_result)
first_applied o a req (p ∷ ps) st = apply_effect o a p req st

evaluate_each-first :
    (o : TextOps) (a : PolicyAnswers) (c : Clock) (assigned : List ℕ)
    (req : PolicyEvaluationRequest) (ps : List Policy) (st : PolicyStore)
    → evaluate_each o a c assigned req ps st
      ≡ first_applied o a req (keep_if (applies o c assigned req) ps) st
unfolding evaluate_each
evaluate_each-first o a c assigned req [] st = refl
evaluate_each-first o a c assigned req (p ∷ ps) st = ground (
  arith,
  evaluate_each-first o a c assigned req ps st,
  evaluate_conditions-all o c p.conditions req,
)

-- When policies are stored and both repositories answer, Evaluate applies the effect of the
-- first policy, in the order of the repository, that is assigned, is for the operation and has only
-- conditions that hold. Without such a policy it allows and records nothing.
pub evaluate-first :
    (o : TextOps) (a : PolicyAnswers) (c : Clock) (req : PolicyEvaluationRequest) (st : PolicyStore)
    (p : Policy) (ps : List Policy) (assigned : List ℕ)
    → a.policies ≡ some (p ∷ ps)
    → a.assigned (build_target_ids req) ≡ some assigned
    → evaluate o a c req st ≡ first_applied o a req (keep_if (applies o c assigned req) (p ∷ ps)) st
unfolding evaluate evaluate_loaded evaluate_assigned
evaluate-first o a c req st p ps assigned e1 e2 =
    ap (λ x. evaluate_loaded o a c req x st) e1
    ∙ ap (λ x. evaluate_assigned o a c req (p ∷ ps) x st) e2
    ∙ evaluate_each-first o a c assigned req (p ∷ ps) st

evaluate_loaded-unavailable :
    (o : TextOps) (a : PolicyAnswers) (c : Clock) (req : PolicyEvaluationRequest)
    (ps : Option (List Policy)) (st : PolicyStore)
    → (is_some ps && is_some (a.assigned (build_target_ids req))) ≡ false
    → ((evaluate_loaded o a c req ps st).0 ≡ st)
      × ((evaluate_loaded o a c req ps st).1.allowed ≡ true)
unfolding evaluate_loaded evaluate_assigned
evaluate_loaded-unavailable o a c req none st h = (refl, refl)
evaluate_loaded-unavailable o a c req (some []) st h = (refl, refl)
evaluate_loaded-unavailable o a c req (some (p ∷ ps)) st h =
    elim (Option-cases (a.assigned (build_target_ids req))) [
      | inl e ↦ rw (e, evaluate_assigned) (refl, refl)
      | inr (l, e) ↦ absurd (ground (arith, e, h))
    ]

-- A failure of either repository allows the operation and records nothing.
evaluate-unavailable :
    (o : TextOps) (a : PolicyAnswers) (c : Clock) (req : PolicyEvaluationRequest) (st : PolicyStore)
    → (is_some a.policies && is_some (a.assigned (build_target_ids req))) ≡ false
    → ((evaluate o a c req st).0 ≡ st) × ((evaluate o a c req st).1.allowed ≡ true)
unfolding evaluate
evaluate-unavailable o a c req st h = evaluate_loaded-unavailable o a c req a.policies st h

-- The violations that a decision asks for.
abbrev pub violations_of : Option PolicyEffect → Bool → ℕ
violations_of none b = 0
violations_of (some allow) b = 0
violations_of (some deny) b = 1
violations_of (some require_approval) b = 1
violations_of (some require_snapshot) b = 0
violations_of (some require_justification) b = if b then 1 else 0
violations_of (some (other_effect e)) b = 0

abbrev pub approvals_of : Option PolicyEffect → ℕ
approvals_of (some require_approval) = 1
approvals_of _ = 0

-- Whether a decision lets the operation through.
abbrev pub allows : Option PolicyEffect → PolicyEvaluationRequest → Bool
allows (some deny) req = false
allows (some (other_effect e)) req = false
allows (some require_approval) req = false
allows (some require_justification) req = not (or_else req.justification "" == "")
allows _ req = true

abbrev pub Recorded :
    PolicyAnswers → PolicyEvaluationRequest → PolicyStore → PolicyStore × EvaluationResult → Type 0
Recorded a req st (st', r) =
    (r.allowed ≡ allows r.effect req)
    × (length st'.violations
        ≡ length st.violations
          + (if is_some a.violation_created then violations_of r.effect r.allowed else 0))
    × (length st'.approvals
        ≡ length st.approvals + (if is_some a.approval_created then approvals_of r.effect else 0))

record_violation-length :
    (o : TextOps) (a : PolicyAnswers) (p : Policy) (req : PolicyEvaluationRequest)
    (status : PolicyViolationStatus) (aid : String) (st : PolicyStore)
    → let st' = (record_violation o a p req status aid st).0 in
      (length st'.violations
        ≡ length st.violations + (if is_some a.violation_created then 1 else 0))
      × (length st'.approvals ≡ length st.approvals)
unfolding record_violation
record_violation-length o a p req status aid st = elim (Option-cases a.violation_created) [
  | inl e ↦ rw e (omega arith)
  | inr (vid, e) ↦ rw e (omega arith)
]

create_approval-length :
    (o : TextOps) (a : PolicyAnswers) (p : Policy) (req : PolicyEvaluationRequest)
    (st : PolicyStore)
    → let st' = (create_approval_request o a p req st).0 in
      (length st'.violations ≡ length st.violations)
      × (length st'.approvals ≡ length st.approvals + (if is_some a.approval_created then 1 else 0))
unfolding create_approval_request
create_approval-length o a p req st = elim (Option-cases a.approval_created) [
  | inl e ↦ rw e (omega arith)
  | inr (vid, e) ↦ rw e (omega arith)
]

effect_on-Recorded :
    (o : TextOps) (a : PolicyAnswers) (e : PolicyEffect) (p : Policy)
    (req : PolicyEvaluationRequest) (st : PolicyStore)
    → p.effect ≡ e
    → Recorded a req st (effect_on o a e p req st)
unfolding effect_on started
effect_on-Recorded o a allow p req st h = rw h (ground arith)
effect_on-Recorded o a deny p req st h =
    rw h (ground (arith, record_violation-length o a p req blocked "" st))
effect_on-Recorded o a require_approval p req st h =
    let (st1, approval) = create_approval_request o a p req st in
    rw h (
      ground (
        arith,
        create_approval-length o a p req st,
        record_violation-length o a p req pending_approval (or_else approval "") st1,
      ))
effect_on-Recorded o a require_snapshot p req st h = rw h (ground arith)
effect_on-Recorded o a (other_effect e) p req st h = rw h (ground arith)
effect_on-Recorded o a require_justification p req st h =
    elim (Bool-cases (or_else req.justification "" == "")) [
      | inl e ↦ rw (h, e) (ground arith)
      | inr e ↦ rw (h, e) (ground (arith, record_violation-length o a p req overridden "" st))
    ]

first_applied-Recorded :
    (o : TextOps) (a : PolicyAnswers) (req : PolicyEvaluationRequest) (ps : List Policy)
    (st : PolicyStore)
    → Recorded a req st (first_applied o a req ps st)
unfolding apply_effect
first_applied-Recorded o a req [] st = ground arith
first_applied-Recorded o a req (p ∷ ps) st = effect_on-Recorded o a p.effect p req st refl

evaluate_loaded-Recorded :
    (o : TextOps) (a : PolicyAnswers) (c : Clock) (req : PolicyEvaluationRequest)
    (ps : Option (List Policy)) (st : PolicyStore)
    → Recorded a req st (evaluate_loaded o a c req ps st)
unfolding evaluate_loaded evaluate_assigned
evaluate_loaded-Recorded o a c req none st = ground arith
evaluate_loaded-Recorded o a c req (some []) st = ground arith
evaluate_loaded-Recorded o a c req (some (p ∷ ps)) st =
    elim (Option-cases (a.assigned (build_target_ids req))) [
      | inl e ↦ rw e (ground arith)
      | inr (l, e) ↦
          rw (e, evaluate_each-first o a c l req (p ∷ ps) st)
            (first_applied-Recorded o a req (keep_if (applies o c l req) (p ∷ ps)) st)
    ]

-- Whatever the repositories answer, the result of Evaluate refuses the operation exactly when its
-- effect is to deny, to ask for an approval, to ask for a justification that the request does not
-- bring, or none that the code knows. It stores one violation for a refusal by the first two and for a
-- justified operation, and one approval request when it asks for an approval, if the services accept
-- them; nothing else is stored.
pub evaluate-Recorded :
    (o : TextOps) (a : PolicyAnswers) (c : Clock) (req : PolicyEvaluationRequest) (st : PolicyStore)
    → Recorded a req st (evaluate o a c req st)
unfolding evaluate
evaluate-Recorded o a c req st = evaluate_loaded-Recorded o a c req a.policies st
