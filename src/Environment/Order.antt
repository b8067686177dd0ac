-- ===== src/Environment/Order.antt =====
-- What the order of an environment's machines keeps: the machines, and the dependencies between them.
use vm_orbit.Base.{
  ℕ, suc, ◌+◌, ◌≡◌, refl, sym, ap, ◌∙◌, inl, inr, Bool, true, false, not, ◌&&◌, Option, none, some,
  List, [], ◌∷◌, ◌++◌, map, arith, if◌then◌else◌, nat_beq_iff, Bool-cases, is_some, ◌==◌, nat_eq,
  string_eq, beq_refl, length, count_if, keep_if,
}
use vm_orbit.Base.{member, Distinct, count_if-append}
use vm_orbit.Environment.{
  EnvironmentVm, VmDependency, OrchestrationOperation, stop, SortSlice, Edge, Graph, edges_of,
  vm_map, vm_at, add_edges, starts_before, stops_before, kahn, left_over, compute_execution_order,
}
use vm_orbit.Environment.Lists.{occurrences}
use vm_orbit.Environment.Edges.{local_edges, adj-add_edges, in_degree-add_edges, waiting-known}
use vm_orbit.Environment.Loop.{respects, Fair, ids, Ended, take_all-Ended}
use vm_orbit.Environment.Machines.{
  occurrences-member, occurrences-Distinct, Distinct-occurrences, occurrences-keep_if,
  count_if-split, vm_map-known, vm_map-vm_id, count_if-vm_at,
}

length-ids : (evs : List EnvironmentVm) → length (ids evs) ≡ length evs
length-ids [] = refl
length-ids (ev ∷ evs) = ap suc (length-ids evs)

-- A test on elements that are in one of two lists, but in no list twice, counts them list by list.
count_if-member :
    (p : EnvironmentVm → Bool) (x : ℕ) (xs : List ℕ) (evs : List EnvironmentVm)
    → member x xs ≡ false
    → count_if (λ ev. p ev && member ev.vm_id (x ∷ xs)) evs
      ≡ count_if (λ ev. p ev && (ev.vm_id == x)) evs
        + count_if (λ ev. p ev && member ev.vm_id xs) evs
unfolding member
count_if-member p x xs [] h = refl
count_if-member p x xs (ev ∷ evs) h = elim (Bool-cases (ev.vm_id == x)) [
  | inl same ↦ ground (
    arith,
    count_if-member p x xs evs h,
    nat_beq_iff x ev.vm_id,
    ap (λ y. member y xs) ((nat_beq_iff ev.vm_id x).0 same),
    (nat_beq_iff ev.vm_id x).0 same,
  )
  | inr other ↦
      ground (arith, count_if-member p x xs evs h, nat_beq_iff x ev.vm_id, nat_beq_iff ev.vm_id x)
]

count_if-none :
    (evs : List EnvironmentVm) (p : EnvironmentVm → Bool)
    → count_if (λ ev. p ev && member ev.vm_id []) evs ≡ 0
unfolding member
count_if-none [] p = refl
count_if-none (ev ∷ evs) p = ground (arith, count_if-none evs p)

abbrev empty : Graph
empty = record { adj = λ i. []; in_degree = λ i. 0 }

module _ (evs : List EnvironmentVm) (d : Distinct (ids evs)) where
  abbrev pub vms : ℕ → Option EnvironmentVm
  vms = vm_map evs (λ i. none)

  count_if-taken :
      (p : EnvironmentVm → Bool) (taken : List ℕ)
      → Distinct taken
      → ((v : ℕ) → member v taken ≡ true → member v (ids evs) ≡ true)
      → count_if p (map (vm_at vms) taken) ≡ count_if (λ ev. p ev && member ev.vm_id taken) evs
  unfolding member
  count_if-taken p [] e among = sym (count_if-none evs p)
  count_if-taken p (x ∷ xs) e among = ground (
    arith,
    count_if-taken p xs e.1 (λ v m. among v (ground arith)),
    count_if-member p x xs evs e.0,
    count_if-vm_at evs (λ i. none) p x d,
    among x (ground (arith, beq_refl x)),
  )

  ids-taken :
      (taken : List ℕ)
      → ((v : ℕ) → member v taken ≡ true → member v (ids evs) ≡ true)
      → ids (map (vm_at vms) taken) ≡ taken
  unfolding member
  ids-taken [] among = refl
  ids-taken (x ∷ xs) among =
      rw (vm_map-vm_id evs (λ i. none) x (among x (ground (arith, beq_refl x))))
        (ap (λ l. x ∷ l) (ids-taken xs (λ v m. among v (ground arith))))

  module _ (s : SortSlice) (deps : List VmDependency) where
    abbrev pub known : ℕ → Bool
    known i = is_some (vms i)

    abbrev pub among : List Edge
    among = local_edges known (edges_of deps)

    abbrev graph : Graph
    graph = add_edges known (edges_of deps) empty

    abbrev less : ℕ → ℕ → Bool
    less i j = starts_before (vm_at vms i) (vm_at vms j)

    pub known-ids : (v : ℕ) → known v ≡ member v (ids evs)
    known-ids v = ground (arith, vm_map-known evs (λ i. none) v)

    ready-Fair :
        Fair known among []
          (s.sort less (keep_if (λ i. graph.in_degree i == 0) (ids evs)))
          graph.in_degree
    unfolding respects
    ready-Fair =
        let ready = keep_if (λ i. graph.in_degree i == 0) (ids evs) in
        let queue = s.sort less ready in
        let times : (v : ℕ)
            → occurrences v queue
              ≡ (if graph.in_degree v == 0 then occurrences v (ids evs) else 0) =
          λ v.
            s.count-sort less (λ x. x == v) ready
            ∙ occurrences-keep_if (λ i. graph.in_degree i == 0) v (ids evs) in
        record {
          distinct =
              Distinct-occurrences queue
                (λ v. ground (arith, times v, occurrences-Distinct (ids evs) d v));
          degrees = λ v. omega (arith, in_degree-add_edges known (edges_of deps) empty v);
          ready = λ v. ground (
            arith,
            times v,
            occurrences-member v queue,
            occurrences-member v (ids evs),
            known-ids v,
          );
          ordered = refl;
        }

    pub kahn-Ended :
        (result : List EnvironmentVm) × (taken : List ℕ) × (kahn s evs deps ≡ some result)
        × Ended known among vms result taken
    unfolding kahn
    kahn-Ended =
        take_all-Ended s known among graph.adj vms (ids evs)
          (λ u v. omega (arith, adj-add_edges known (edges_of deps) empty u v))
          (λ taken v h. waiting-known known taken v (edges_of deps) h)
          (λ v h. ground (arith, known-ids v)) (length evs) []
          (s.sort less (keep_if (λ i. graph.in_degree i == 0) (ids evs))) graph.in_degree
          (omega (arith, length-ids evs)) ready-Fair

    known-among :
        (v : ℕ) (taken : List ℕ) (result : List EnvironmentVm)
        → Ended known among vms result taken
        → member v taken ≡ true
        → member v (ids evs) ≡ true
    known-among v taken result done m = ground (arith, done.known_taken v, known-ids v)

    pub ids-result :
        (taken : List ℕ) (result : List EnvironmentVm)
        → Ended known among vms result taken
        → ids result ≡ taken
    ids-result taken result done =
        ap ids done.is_result ∙ ids-taken taken (λ v. known-among v taken result done)

    count_if-kahn :
        (p : EnvironmentVm → Bool) (taken : List ℕ) (result : List EnvironmentVm)
        → Ended known among vms result taken
        → count_if p (result ++ s.sort starts_before (left_over s evs result)) ≡ count_if p evs
    unfolding left_over
    count_if-kahn p taken result done =
        let front =
          ap (count_if p) done.is_result
          ∙ count_if-taken p taken done.distinct_taken (λ v. known-among v taken result done) in
        let behind =
          s.count-sort starts_before p (left_over s evs result)
          ∙ ap (λ l. count_if p (keep_if (λ ev. not (member ev.vm_id l)) evs))
              (ids-result taken result done) in
        omega (
          arith,
          front,
          behind,
          count_if-append p result (s.sort starts_before (left_over s evs result)),
          count_if-split p (λ ev. member ev.vm_id taken) evs,
        )

-- What stands behind the loop: the machines that it left over, if it has ended.
abbrev pub finish :
    SortSlice → List EnvironmentVm → Option (List EnvironmentVm) → Option (List EnvironmentVm)
finish s evs none = none
finish s evs (some result) = some (result ++ s.sort starts_before (left_over s evs result))

-- computeExecutionOrder ends for every operation and all dependencies, those on a cycle
-- included, and its result is a rearrangement of the machines: a test holds for as many
-- machines of the result as of the environment, whatever the test. The machines of the environment are distinct, as
-- the unique index of the table says.
pub order-rearranges :
    (s : SortSlice) (evs : List EnvironmentVm) (deps : List VmDependency)
    (op : OrchestrationOperation) (p : EnvironmentVm → Bool)
    → Distinct (ids evs)
    → (order : List EnvironmentVm) × (compute_execution_order s evs deps op ≡ some order)
      × (count_if p order ≡ count_if p evs)
unfolding compute_execution_order
order-rearranges s evs deps stop p d =
    (s.sort stops_before evs, refl, s.count-sort stops_before p evs)
order-rearranges s evs deps _ p d =
    let (result, taken, e, done) = kahn-Ended evs d s deps in
    (_, ap (finish s evs) e, count_if-kahn evs d s deps p taken result done)
