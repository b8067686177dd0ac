-- ===== src/Environment/Examples.antt =====
-- Concrete environments, with an insertion sort for sort.Slice.
use vm_orbit.Base.{
  ℕ, ◌%◌, ◌≡◌, refl, inr, Bool, true, false, some, List, [], ◌∷◌, arith, if◌then◌else◌, ◌==◌,
  nat_eq, string_eq, count_if, pos, inl, or_else,
}
use vm_orbit.Base.{member, Distinct}
use vm_orbit.Environment.{
  EnvironmentVm, VmDependency, start_before, stop_after, requires, start, stop, SortSlice,
  compute_execution_order, edges_of, kahn, left_over, vm_map, add_edges, release,
}
use vm_orbit.Environment.Loop.{ids, respects}
use vm_orbit.Environment.Edges.{local_edges}
use vm_orbit.Environment.Order.{order-rearranges}
use vm_orbit.Environment.Ranked.{order-respects}
use vm_orbit.Environment.Run.{
  creating_steps, Tables, Answers, OrchestrationStep, create_orchestration_run,
}
use vm_orbit.Environment.Run.Answered.{Answered, create_run-Written}
use vm_orbit.Environment.Run.Writes.{create_run-steps, counts_up, is_step}

module _ {A : Type 0} (less : A → A → Bool) where
  abbrev insert : A → List A → List A
  insert x [] = x ∷ []
  insert x (y ∷ ys) = let rest = insert x ys in if less x y then x ∷ y ∷ ys else y ∷ rest

  abbrev insertion_sort : List A → List A
  insertion_sort [] = []
  insertion_sort (x ∷ xs) = insert x (insertion_sort xs)

  count-insert :
      (p : A → Bool) (x : A) (xs : List A) → count_if p (insert x xs) ≡ count_if p (x ∷ xs)
  count-insert p x [] = refl
  count-insert p x (y ∷ ys) = ground (arith, count-insert p x ys)

  count-insertion_sort :
      (p : A → Bool) (xs : List A) → count_if p (insertion_sort xs) ≡ count_if p xs
  count-insertion_sort p [] = refl
  count-insertion_sort p (x ∷ xs) =
      ground (arith, count-insertion_sort p xs, count-insert p x (insertion_sort xs))

abbrev sort_slice : SortSlice
sort_slice = record { sort = insertion_sort; count-sort = count-insertion_sort }

abbrev vm : ℕ → ℕ → EnvironmentVm
vm i n = record { vm_id = i; start_order = pos n; stop_order = pos n }

abbrev three_vms : List EnvironmentVm
three_vms = vm 1 0 ∷ vm 2 1 ∷ vm 3 2 ∷ []

-- Machine 1 needs machine 3, and machine 3 needs machine 2.
abbrev chain : List VmDependency
chain =
    record { source_vm_id = 1; target_vm_id = 3; type = requires }
    ∷ record { source_vm_id = 3; target_vm_id = 2; type = start_before }
    ∷ []

abbrev cycle : List VmDependency
cycle = record { source_vm_id = 2; target_vm_id = 1; type = requires } ∷ chain

chain_order :
    compute_execution_order sort_slice three_vms chain start ≡ some (vm 2 1 ∷ vm 3 2 ∷ vm 1 0 ∷ [])
unfolding compute_execution_order kahn left_over vm_orbit.Environment.take_all vm_map add_edges
    edges_of release member
chain_order = refl

-- On a cycle the order is that of the start numbers.
cycle_order : compute_execution_order sort_slice three_vms cycle start ≡ some three_vms
unfolding compute_execution_order kahn left_over vm_orbit.Environment.take_all vm_map add_edges
    edges_of release member
cycle_order = refl

-- A stop pays no heed to a dependency: machine 2 is to stop after machine 1 by the dependency, and
-- before it by its number.
abbrev stop_last : List VmDependency
stop_last = record { source_vm_id = 1; target_vm_id = 2; type = stop_after } ∷ []

stop_order :
    compute_execution_order sort_slice (vm 1 0 ∷ vm 2 1 ∷ []) stop_last stop
    ≡ some (vm 2 1 ∷ vm 1 0 ∷ [])
unfolding compute_execution_order
stop_order = refl

three_vms-Distinct : Distinct (ids three_vms)
unfolding member
three_vms-Distinct = (refl, (refl, (refl, tt)))

abbrev even_id : EnvironmentVm → Bool
even_id ev = ev.vm_id % 2 == 0

order-rearranges_example :
    (order : List EnvironmentVm) × (compute_execution_order sort_slice three_vms cycle start
      ≡ some order)
    × (count_if even_id order ≡ count_if even_id three_vms)
order-rearranges_example =
    order-rearranges sort_slice three_vms cycle start even_id three_vms-Distinct

abbrev rank : ℕ → ℕ
rank i = if i == 1 then 2 else (if i == 3 then 1 else 0)

order-respects_example :
    (order : List EnvironmentVm) × (compute_execution_order sort_slice three_vms chain start
      ≡ some order)
    × (respects (local_edges (λ i. member i (ids three_vms)) (edges_of chain)) [] (ids order)
        ≡ true)
unfolding edges_of member
order-respects_example =
    order-respects sort_slice three_vms chain start rank three_vms-Distinct (λ e. ground arith) refl

abbrev tables : Tables
tables = record { runs = []; steps = []; tasks = []; audits = [] }

abbrev answers : Answers
answers = record {
  env = some "staging";
  env_vms = some three_vms;
  deps = some chain;
  run_created = true;
  steps_created = true;
  task_created = true;
  run_id = 7;
  task_id = 9;
}

create_run-Written_example :
    Answered sort_slice
      (record answers { steps_created = false })
      4
      start
      (or_else answers.env_vms [])
      (or_else answers.deps [])
      tables
      (inl creating_steps)
      (create_orchestration_run sort_slice
        (record answers { steps_created = false })
        4
        start
        tables)
create_run-Written_example =
    create_run-Written sort_slice (record answers { steps_created = false }) 4 start tables
      three_vms-Distinct

create_run-steps_example :
    (t' : Tables) × (sts : List OrchestrationStep) × (create_orchestration_run sort_slice answers 4
        start tables
      ≡ some (t', inr 9))
    × (t'.steps ≡ sts)
    × (counts_up 0 sts ≡ true)
    × (count_if (is_step 7 2) sts ≡ 1)
unfolding member
create_run-steps_example =
    create_run-steps sort_slice answers 4 start tables "staging" (vm 1 0) (vm 2 1 ∷ vm 3 2 ∷ [])
      chain 2 three_vms-Distinct refl refl refl refl
