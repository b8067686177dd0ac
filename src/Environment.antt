-- ===== src/Environment.antt =====
-- internal/service/environment_service.go: in which order the machines of an environment are taken,
-- and the status of an environment. Identifiers are numbers. `sort.Slice` of Go's library is a
-- parameter.
pub mod Lists
pub mod Release
pub mod Edges
pub mod Loop
pub mod Machines
pub mod Order
pub mod Ranked
pub mod Status
pub mod Run
pub mod Orchestrate
mod Examples
mod OrchestrateExamples
use vm_orbit.Base.{
  ℕ, zero, suc, ◌-◌, ◌≡◌, Bool, true, false, not, ◌&&◌, Option, none, some, List, [], ◌∷◌, ◌++◌,
  map, if◌then◌else◌, is_some, or_else, ◌==◌, nat_eq, string_eq, length, count_if, keep_if, ℤ, pos,
  ltb_ℤ,
}
use vm_orbit.Base.{member}
use vm_orbit.Task.Model.{TaskType, env_start, env_stop, env_restart, env_snapshot, env_clone}

pub record EnvironmentVm : Type 0 where
  pub vm_id : ℕ
  pub start_order : ℤ
  pub stop_order : ℤ

pub data DependencyType : Type 0 where
  start_before stop_after requires : DependencyType

pub record VmDependency : Type 0 where
  pub source_vm_id : ℕ
  pub target_vm_id : ℕ
  pub type : DependencyType

pub data OrchestrationOperation : Type 0 where
  start stop restart snapshot clone : OrchestrationOperation

unfoldable pub orchestration_task_type : OrchestrationOperation → TaskType
orchestration_task_type start = env_start
orchestration_task_type stop = env_stop
orchestration_task_type restart = env_restart
orchestration_task_type snapshot = env_snapshot
orchestration_task_type clone = env_clone

-- sort.Slice with a test "stands before": it moves elements, and neither adds nor drops any.
pub record SortSlice : Type 1 where
  pub sort : {A : Type 0} → (A → A → Bool) → List A → List A
  pub count-sort :
      {A : Type 0} (less : A → A → Bool) (p : A → Bool) (xs : List A)
      → count_if p (sort less xs) ≡ count_if p xs

-- The second must wait for the first.
pub record Edge : Type 0 where
  pub from : ℕ
  pub to : ℕ

abbrev pub orders_start : DependencyType → Bool
orders_start start_before = true
orders_start stop_after = false
orders_start requires = true

unfoldable pub edges_of : List VmDependency → List Edge
edges_of deps =
    map (λ d. record { from = d.target_vm_id; to = d.source_vm_id })
      (keep_if (λ d. orders_start d.type) deps)

-- A Go map whose missing entries read as a zero value is a function.
abbrev pub set {ℓ} : {V : Type ℓ} → ℕ → V → (ℕ → V) → ℕ → V
set k v m j = if k == j then v else m j

-- vmMap: a later entry of the same machine replaces an earlier one.
unfoldable pub vm_map : List EnvironmentVm → (ℕ → Option EnvironmentVm) → ℕ → Option EnvironmentVm
vm_map [] m = m
vm_map (ev ∷ evs) m = vm_map evs (set ev.vm_id (some ev) m)

-- `adj` and `inDegree`. A degree below 0 stands as 0: both are never reached again by a decrement
-- from 1 to 0.
pub record Graph : Type 0 where
  pub adj : ℕ → List ℕ
  pub in_degree : ℕ → ℕ

-- The loop over the edges, of which those between machines of the environment count.
unfoldable pub add_edges : (ℕ → Bool) → List Edge → Graph → Graph
add_edges known [] g = g
add_edges known (e ∷ es) g = add_edges known es (
    if known e.from && known e.to
    then record {
      adj = set e.from (g.adj e.from ++ e.to ∷ []) g.adj;
      in_degree = set e.to (suc (g.in_degree e.to)) g.in_degree;
    }
    else g)

-- The loop over the neighbours of a machine that was taken: the degrees and the queue that it leaves.
unfoldable pub release : List ℕ → (ℕ → ℕ) → List ℕ → (ℕ → ℕ) × List ℕ
release [] d q = (d, q)
release (next ∷ ns) d q =
    release ns (set next (d next - 1) d) (if d next == 1 then q ++ next ∷ [] else q)

abbrev pub zero_vm : EnvironmentVm
zero_vm = record { vm_id = 0; start_order = pos 0; stop_order = pos 0 }

abbrev pub vm_at : (ℕ → Option EnvironmentVm) → ℕ → EnvironmentVm
vm_at vms i = or_else (vms i) zero_vm

abbrev pub starts_before : EnvironmentVm → EnvironmentVm → Bool
starts_before a b = ltb_ℤ a.start_order b.start_order

abbrev pub stops_before : EnvironmentVm → EnvironmentVm → Bool
stops_before a b = ltb_ℤ b.stop_order a.stop_order

module _ (s : SortSlice) where
  -- The loop `for len(queue) > 0`; `none` when the fuel has run out before.
  unfoldable pub take_all :
      ℕ
      → (ℕ → Option EnvironmentVm)
      → (ℕ → List ℕ)
      → List ℕ
      → (ℕ → ℕ)
      → List EnvironmentVm
      → Option (List EnvironmentVm)
  take_all zero vms adj queue degree result = elim queue [ [] ↦ some result | _ ∷ _ ↦ none ]
  take_all (suc fuel) vms adj queue degree result = elim queue [
    | [] ↦ some result
    | cur ∷ rest ↦
        let neighbors = s.sort (λ i j. starts_before (vm_at vms i) (vm_at vms j)) (adj cur) in
        let (degree', queue') = release neighbors degree rest in
        take_all fuel vms adj queue' degree' (result ++ vm_at vms cur ∷ [])
  ]

  -- Kahn's algorithm: what the loop takes, with as much fuel as there are machines.
  unfoldable pub kahn : List EnvironmentVm → List VmDependency → Option (List EnvironmentVm)
  kahn evs deps =
      let vms = vm_map evs (λ i. none) in
      let ids = map (λ ev. ev.vm_id) evs in
      let g =
        add_edges (λ i. is_some (vms i)) (edges_of deps)
          (record { adj = λ i. []; in_degree = λ i. 0 }) in
      let ready = keep_if (λ i. g.in_degree i == 0) ids in
      take_all (length evs) vms g.adj
        (s.sort (λ i j. starts_before (vm_at vms i) (vm_at vms j)) ready) g.in_degree []

  -- The machines that the loop did not take, which are on a cycle or behind one.
  unfoldable pub left_over : List EnvironmentVm → List EnvironmentVm → List EnvironmentVm
  left_over evs result = keep_if (λ ev. not (member ev.vm_id (map (λ r. r.vm_id) result))) evs

  unfoldable pub compute_execution_order :
      List EnvironmentVm → List VmDependency → OrchestrationOperation → Option (List EnvironmentVm)
  compute_execution_order evs deps stop = some (s.sort stops_before evs)
  compute_execution_order evs deps _ = elim (kahn evs deps) [
    | none ↦ none
    | some result ↦ some (result ++ s.sort starts_before (left_over evs result))
  ]
