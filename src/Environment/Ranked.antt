-- ===== src/Environment/Ranked.antt =====
-- Dependencies without a cycle: the order has each machine behind those that it depends on.
use vm_orbit.Base.{
  ℕ, zero, suc, ◌<◌, ◌≡◌, refl, sym, ap, ◌∙◌, ◌≢◌, inl, inr, Bool, true, false, not, some, List, [],
  ◌∷◌, ◌++◌, arith, ltb, nat_beq_iff, Bool-cases, nat_eq, string_eq, beq_refl, count_if, keep_if,
  all,
}
use mathlib.Core.List.{append-nil}
use vm_orbit.Base.{member, Distinct}
use vm_orbit.Environment.{
  EnvironmentVm, VmDependency, OrchestrationOperation, stop, SortSlice, Edge, edges_of,
  starts_before, left_over, compute_execution_order,
}
use vm_orbit.Environment.Edges.{is_local, local_edges, waiting}
use vm_orbit.Environment.Loop.{respects, ids, Ended}
use vm_orbit.Environment.Order.{vms, known, among, known-ids, ids-result, kahn-Ended, finish}

-- Each edge leads from a lower rank to a higher one.
abbrev pub upward : (ℕ → ℕ) → List Edge → Bool
upward rank es = all (λ e. ltb (rank e.from) (rank e.to)) es

waiting-ranked :
    (known : ℕ → Bool) (rank : ℕ → ℕ) (taken : List ℕ) (v : ℕ) (es : List Edge)
    → upward rank (local_edges known es) ≡ true
    → ((u : ℕ) → known u ≡ true → rank u < rank v → member u taken ≡ true)
    → waiting taken v (local_edges known es) ≡ 0
waiting-ranked known rank taken v [] h lower = refl
waiting-ranked known rank taken v (e ∷ es) h lower = elim (Bool-cases (is_local known e)) [
  | inl near ↦ rw near (
      ground (
        arith,
        waiting-ranked known rank taken v es,
        lower e.from,
        h,
        near,
        ap rank,
        nat_beq_iff e.to v,
      ))
  | inr far ↦ rw far (waiting-ranked known rank taken v es (rw far at h) lower)
]

keep_if-none :
    (p : EnvironmentVm → Bool) (evs : List EnvironmentVm)
    → ((ev : EnvironmentVm) → member ev.vm_id (ids evs) ≡ true → p ev ≡ false)
    → keep_if p evs ≡ []
unfolding member
keep_if-none p [] h = refl
keep_if-none p (ev ∷ evs) h =
    rw (h ev (ground (arith, beq_refl ev.vm_id))) (keep_if-none p evs (λ x m. h x (ground arith)))

empty_of : (xs : List EnvironmentVm) → count_if (λ x. true) xs ≡ 0 → xs ≡ []
empty_of [] h = refl
empty_of (x ∷ xs) h = absurd (omega (arith, h))

local_edges-known :
    (p q : ℕ → Bool) (es : List Edge) → ((i : ℕ) → p i ≡ q i) → local_edges p es ≡ local_edges q es
local_edges-known p q [] h = refl
local_edges-known p q (e ∷ es) h = rw (h e.from, h e.to, local_edges-known p q es h) refl

module _ (s : SortSlice) (evs : List EnvironmentVm) (deps : List VmDependency)
    (d : Distinct (ids evs)) where
  all_taken :
      (rank : ℕ → ℕ) (result : List EnvironmentVm) (taken : List ℕ)
      → upward rank (among evs d s deps) ≡ true
      → Ended (known evs d s deps) (among evs d s deps) (vms evs d) result taken
      → (n v : ℕ) → rank v < n
      → known evs d s deps v ≡ true
      → member v taken ≡ true
  all_taken rank result taken h done zero v below k = absurd (omega (arith, below))
  all_taken rank result taken h done (suc n) v below k =
      let no_wait =
        waiting-ranked (known evs d s deps) rank taken v (edges_of deps) h
          (λ u ku less. all_taken rank result taken h done n u (omega (arith, below, less)) ku) in
      ground (arith, done.known_taken v, no_wait, k)

  result_whole :
      (rank : ℕ → ℕ) (result : List EnvironmentVm) (taken : List ℕ)
      → upward rank (among evs d s deps) ≡ true
      → Ended (known evs d s deps) (among evs d s deps) (vms evs d) result taken
      → ids (result ++ s.sort starts_before (left_over s evs result)) ≡ taken
  unfolding left_over
  result_whole rank result taken h done =
      let same = ids-result evs d s deps taken result done in
      let no_left : left_over s evs result ≡ [] =
        keep_if-none (λ ev. not (member ev.vm_id (ids result))) evs
          (λ ev m. ground (
            arith,
            ap (λ l. member ev.vm_id l) same,
            known-ids evs d s deps ev.vm_id,
            all_taken rank result taken h done (suc (rank ev.vm_id)) ev.vm_id (omega arith),
          )) in
      let none_sorted = empty_of (s.sort starts_before (left_over s evs result)) (
        s.count-sort starts_before (λ x. true) (left_over s evs result)
        ∙ ap (count_if (λ x. true)) no_left) in
      rw none_sorted (ap ids (append-nil result) ∙ same)

-- For every operation but stop, and dependencies without a cycle (some rank rises along each
-- dependency between machines of the environment), computeExecutionOrder gives an order in which
-- each machine stands behind all machines of the environment that it has to wait for.
pub order-respects :
    (s : SortSlice) (evs : List EnvironmentVm) (deps : List VmDependency)
    (op : OrchestrationOperation) (rank : ℕ → ℕ)
    → Distinct (ids evs)
    → op ≢ stop
    → upward rank (local_edges (λ i. member i (ids evs)) (edges_of deps)) ≡ true
    → (order : List EnvironmentVm) × (compute_execution_order s evs deps op ≡ some order)
      × (respects (local_edges (λ i. member i (ids evs)) (edges_of deps)) [] (ids order) ≡ true)
unfolding compute_execution_order
order-respects s evs deps stop rank d other h = absurd (other refl)
order-respects s evs deps _ rank d other h =
    let same =
      local_edges-known (λ i. member i (ids evs)) (known evs d s deps) (edges_of deps)
        (λ i. sym (known-ids evs d s deps i)) in
    let (result, taken, e, done) = kahn-Ended evs d s deps in
    let whole = result_whole s evs deps d rank result taken (rw same at h) done in
    (
      _,
      ap (finish s evs) e,
      ap (λ l. respects l [] (ids (result ++ s.sort starts_before (left_over s evs result)))) same
          ∙ ap (respects (among evs d s deps) []) whole
          ∙ done.ordered_taken,
    )
