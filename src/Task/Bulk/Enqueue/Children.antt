-- ===== src/Task/Bulk/Enqueue/Children.antt =====
-- The children that a bulk operation stores, and what the parent's handler does with them.
use vm_orbit.Base.{
  ℕ, suc, ◌≤◌, String, ◌≡◌, refl, ap, ◌∙◌, ◌⊎◌, inl, inr, Bool, true, false, ◌&&◌, Option, none,
  some, List, [], ◌∷◌, arith, ltb, if_false, if_true, ◌==◌, nat_eq, string_eq, beq_refl, length,
  all, keep_if, map, Bool-cases,
}
use vm_orbit.Base.{member}
use vm_orbit.Task.Model.{Task, TaskType, TaskStatus}
use vm_orbit.Task.Payload.{Payload, PayloadValue, text}
use vm_orbit.Base.Map.{insert, lookup, lookup-insert}
use vm_orbit.Task.Bulk.{finished, Round, child_ids, handle_bulk_parent}
use vm_orbit.Task.Bulk.Poll.{is_calm, ends, ends_badly, handle_bulk_parent-finishes}
use vm_orbit.Task.Bulk.Enqueue.{
  BulkVm, BulkTask, BulkError, new_parent, with_entries, new_child, new_children, store_bulk,
  enqueue_bulk_task, is_child_of, list_by_parent_id,
}

-- The rows of the children.
abbrev pub child_rows : ℕ → List BulkTask → List BulkTask
child_rows p ts = keep_if (λ t. is_child_of p t.parent) ts

pub record Shown : Type 0 where
  pub vm_id : Option ℕ
  pub hypervisor_id : Option ℕ
  pub type : TaskType
  pub status : TaskStatus
  pub attempts : ℕ
  pub vm_text : Option PayloadValue
  pub provider_vm_text : Option PayloadValue
  pub hypervisor_text : Option PayloadValue

-- The further entries do not touch those of the machine.
abbrev pub IsApart : Payload → Type 0
IsApart extra =
    (lookup "vm_id" extra ≡ none)
    × (lookup "provider_vm_id" extra ≡ none)
    × (lookup "hypervisor_id" extra ≡ none)

handle_bulk_parent_of :
    (share : ℕ → ℕ → ℕ) (enqueues : ℕ → Bool) (rounds : List Round) (children : List Task)
    (first : Task) (rest : List Task)
    → children ≡ first ∷ rest
    → all is_calm rounds ≡ true
    → all (ends rounds) (child_ids children) ≡ true
    → (bad : List ℕ) × ((handle_bulk_parent share enqueues false rounds (inr children)).1
        ≡ finished bad)
      × ((id : ℕ) → member id bad ≡ (member id (child_ids children) && ends_badly rounds id))
handle_bulk_parent_of share enqueues rounds children first rest e calm over =
    rw e (handle_bulk_parent-finishes share enqueues rounds first rest calm (rw e at over))

module _ (uuid : ℕ → String) (show_ids : List String → String) (show_number : ℕ → String)
    (fresh : ℕ → ℕ) (parent_id : ℕ) (parent_type child_type : TaskType) (extra : Payload) where
  abbrev rows : ℕ → List BulkVm → List BulkTask
  rows =
      new_children uuid show_ids show_number fresh (λ t. true) parent_id parent_type child_type
        extra

  abbrev entries_on : Payload → Payload → Payload
  entries_on =
      with_entries uuid show_ids show_number fresh (λ t. true) parent_id parent_type child_type
        extra

  -- What a row of a child says of its machine, and what it is to say.
  abbrev pub shown : BulkTask → Shown
  shown t = record {
    vm_id = t.task.vm_id;
    hypervisor_id = t.task.hypervisor_id;
    type = t.task.type;
    status = t.task.status;
    attempts = t.task.max_retries;
    vm_text = lookup "vm_id" t.payload;
    provider_vm_text = lookup "provider_vm_id" t.payload;
    hypervisor_text = lookup "hypervisor_id" t.payload;
  }

  abbrev pub wanted : BulkVm → Shown
  wanted vm = record {
    vm_id = some vm.id;
    hypervisor_id = some vm.hypervisor_id;
    type = child_type;
    status = TaskStatus.pending;
    attempts = 3;
    vm_text = some (text (uuid vm.id));
    provider_vm_text = some (text vm.provider_vm_id);
    hypervisor_text = some (text (uuid vm.hypervisor_id));
  }

  abbrev stored : List String → Option (List BulkVm) → List BulkTask × (BulkError ⊎ ℕ)
  stored =
      enqueue_bulk_task uuid show_ids show_number fresh (λ t. true) parent_id parent_type child_type
        extra

  abbrev parent_row : List String → List BulkVm → BulkTask
  parent_row =
      new_parent uuid show_ids show_number fresh (λ t. true) parent_id parent_type child_type extra

  stored_lem :
      (ids : List String) (vm : BulkVm) (vms : List BulkVm)
      → 1 ≤ length ids
      → length ids ≤ 100
      → stored ids (some (vm ∷ vms))
        ≡ (parent_row ids (vm ∷ vms) ∷ rows 0 (vm ∷ vms), inr parent_id)
  unfolding enqueue_bulk_task store_bulk
  stored_lem ids vm vms some_ids few =
      if_false (length ids == 0) _ _ (ground arith)
      ∙ if_false (ltb 100 (length ids)) _ _ (ground arith)

  list_by_parent_id-parent_row :
      (ids : List String) (vm : BulkVm) (vms : List BulkVm) (ts : List BulkTask)
      → list_by_parent_id parent_id (parent_row ids (vm ∷ vms) ∷ ts)
        ≡ list_by_parent_id parent_id ts
  unfolding list_by_parent_id new_parent
  list_by_parent_id-parent_row ids vm vms ts = refl

  abbrev child_row : BulkVm → Task
  child_row vm =
      (new_child uuid show_ids show_number fresh (λ t. true) parent_id parent_type child_type extra
        0 vm).task

  list_by_parent_id-rows :
      (vm : BulkVm) (vms : List BulkVm)
      → list_by_parent_id parent_id (rows 0 (vm ∷ vms))
        ≡ child_row vm ∷ list_by_parent_id parent_id (rows 1 vms)
  unfolding list_by_parent_id new_children new_child
  list_by_parent_id-rows vm vms = if_true (parent_id == parent_id) _ _ (beq_refl parent_id)

  lookup-with_entries :
      (k : String) (entries payload : Payload)
      → lookup k entries ≡ none
      → lookup k (entries_on entries payload) ≡ lookup k payload
  unfolding with_entries lookup
  lookup-with_entries k [] payload h = refl
  lookup-with_entries k ((j, v) ∷ entries) payload h = elim (Bool-cases (j == k)) [
    | inl same ↦ absurd (ground (arith, rw (same, lookup) at h))
    | inr apart ↦
        lookup-with_entries k entries (insert j v payload) (rw (apart, lookup) at h)
        ∙ lookup-insert j k v payload
        ∙ rw apart refl
  ]

  abbrev machine_entries : BulkVm → Payload
  machine_entries vm =
      ("vm_id", text (uuid vm.id))
      ∷ ("provider_vm_id", text vm.provider_vm_id)
      ∷ ("hypervisor_id", text (uuid vm.hypervisor_id))
      ∷ []

  lookup-machine_entries :
      (vm : BulkVm)
      → (lookup "vm_id" (machine_entries vm) ≡ some (text (uuid vm.id)))
        × (lookup "provider_vm_id" (machine_entries vm) ≡ some (text vm.provider_vm_id))
        × (lookup "hypervisor_id" (machine_entries vm) ≡ some (text (uuid vm.hypervisor_id)))
  unfolding lookup
  lookup-machine_entries vm = (refl, refl, refl)

  child-shown :
      (i : ℕ) (vm : BulkVm)
      → IsApart extra
      → shown (
          new_child uuid show_ids show_number fresh
            (λ t. true)
            parent_id
            parent_type
            child_type
            extra
            i
            vm)
        ≡ wanted vm
  unfolding new_child
  child-shown i vm (a, b, c) =
      let base = machine_entries vm in
      let (vm_text, provider_text, hypervisor_text) = lookup-machine_entries vm in
      rw
        (
          lookup-with_entries "vm_id" extra base a ∙ vm_text,
          lookup-with_entries "provider_vm_id" extra base b ∙ provider_text,
          lookup-with_entries "hypervisor_id" extra base c ∙ hypervisor_text,
        )
        refl

  child_rows-rows :
      (i : ℕ) (vms : List BulkVm)
      → IsApart extra
      → map shown (child_rows parent_id (rows i vms)) ≡ map wanted vms
  unfolding new_children new_child
  child_rows-rows i [] apart = refl
  child_rows-rows i (vm ∷ vms) apart = rw (beq_refl parent_id) (
      ap (λ x. x ∷ map shown (child_rows parent_id (rows (suc i) vms))) (child-shown i vm apart)
      ∙ ap (λ xs. wanted vm ∷ xs) (child_rows-rows (suc i) vms apart))

  children_wanted :
      (ids : List String) (vm : BulkVm) (vms : List BulkVm)
      → IsApart extra
      → map shown (child_rows parent_id (parent_row ids (vm ∷ vms) ∷ rows 0 (vm ∷ vms)))
        ≡ map wanted (vm ∷ vms)
  unfolding new_parent
  children_wanted ids vm vms apart = child_rows-rows 0 (vm ∷ vms) apart

  -- When a bulk operation names between 1 and 100 machines of which some are found, and its rows are
  -- stored, the parent has one child per found machine, in their order: a pending task of the child's
  -- type with three attempts for the machine and its hypervisor, whose payload names both, if the
  -- further entries do not. When nothing interrupts the parent's handler and each child is seen to
  -- have ended, the handler finishes, and calls failed exactly the children that were first seen to
  -- have ended in a status other than completed.
  pub enqueue_bulk_task-finishes :
      (ids : List String) (vm : BulkVm) (vms : List BulkVm) (share : ℕ → ℕ → ℕ)
      (enqueues : ℕ → Bool) (rounds : List Round)
      → IsApart extra
      → 1 ≤ length ids
      → length ids ≤ 100
      → all is_calm rounds ≡ true
      → all (ends rounds) (child_ids (list_by_parent_id parent_id (rows 0 (vm ∷ vms)))) ≡ true
      → let stored =
          enqueue_bulk_task uuid show_ids show_number fresh
            (λ t. true)
            parent_id
            parent_type
            child_type
            extra
            ids
            (some (vm ∷ vms)) in
        let children = list_by_parent_id parent_id stored.0 in
        (bad : List ℕ) × (stored.1 ≡ inr parent_id)
        × (map shown (child_rows parent_id stored.0) ≡ map wanted (vm ∷ vms))
        × ((handle_bulk_parent share enqueues false rounds (inr children)).1 ≡ finished bad)
        × ((id : ℕ) → member id bad ≡ (member id (child_ids children) && ends_badly rounds id))
  enqueue_bulk_task-finishes ids vm vms share enqueues rounds apart some_ids few calm over =
      let (bad, ended, who) =
        handle_bulk_parent_of share enqueues rounds
          (list_by_parent_id parent_id (rows 0 (vm ∷ vms))) (child_row vm)
          (list_by_parent_id parent_id (rows 1 vms)) (list_by_parent_id-rows vm vms) calm over in
      rw (stored_lem ids vm vms some_ids few) (
        rw (list_by_parent_id-parent_row ids vm vms (rows 0 (vm ∷ vms)))
          (bad, refl, children_wanted ids vm vms apart, ended, who))
