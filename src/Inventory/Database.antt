-- ===== src/Inventory/Database.antt =====
-- The tables of the inventory, as internal/infrastructure/repository (vm_repo.go, datastore_repo.go,
-- network_repo.go, infrastructure_repo.go, hypervisor_repo.go) uses PostgreSQL through gorm: an
-- interface with the documented effect of each statement on the rows of `vms`, and on it the
-- repositories' methods. `inl` is the text of an error, which leaves the tables as they were.
use vm_orbit.Base.{
  ℕ, String, ◌≡◌, refl, ◌⊎◌, inr, Bool, false, not, ◌&&◌, ◌||◌, Option, none, some, List, [], ◌∷◌,
  if◌then◌else◌, ◌==◌, nat_eq, string_eq,
}
use vm_orbit.Base.{member}
use vm_orbit.Inventory.{
  Hypervisor, ConnectionStatus, Vm, DataStoreInfo, NetworkInfo, ClusterInfo, HostInfo,
}

-- A row of `vms`, with whether its `deleted_at` is set.
pub record VmRow : Type 0 where
  pub vm : Vm
  pub deleted : Bool

unfoldable pub has_key : ℕ → String → Vm → Bool
has_key h p v = (v.hypervisor_id == h) && (v.provider_vm_id == p)

unfoldable pub find_vm : ℕ → String → List Vm → Option Vm
find_vm h p [] = none
find_vm h p (v ∷ vs) = if has_key h p v then some v else find_vm h p vs

-- No key of the unique index (hypervisor_id, provider_vm_id) stands twice.
abbrev pub HasDistinctKeys : List Vm → Type 0
HasDistinctKeys [] = Unit
HasDistinctKeys (v ∷ vs) = (find_vm v.hypervisor_id v.provider_vm_id vs ≡ none) × HasDistinctKeys vs

-- An assignment to columns other than those of the unique index.
abbrev pub KeepsKeys : (Vm → Vm → Vm) → Type 0
KeepsKeys assign =
    (old new : Vm)
    → ((assign old new).hypervisor_id ≡ old.hypervisor_id)
      × ((assign old new).provider_vm_id ≡ old.provider_vm_id)

-- The columns that VMRepo.BulkUpsert assigns on a conflict.
unfoldable pub assign_inventory_columns : Vm → Vm → Vm
assign_inventory_columns old new = record {
  hypervisor_id = old.hypervisor_id;
  provider_vm_id = old.provider_vm_id;
  name = new.name;
  description = old.description;
  status = new.status;
  cpu_count = new.cpu_count;
  memory_mb = new.memory_mb;
  disk_gb = new.disk_gb;
  ip_addresses = new.ip_addresses;
  mac_address = new.mac_address;
  network_name = new.network_name;
  guest_os = new.guest_os;
  guest_os_type = new.guest_os_type;
  tools_status = new.tools_status;
  tags = new.tags;
  metadata = new.metadata;
}

pub assign_inventory_columns-KeepsKeys : KeepsKeys assign_inventory_columns
unfolding assign_inventory_columns
assign_inventory_columns-KeepsKeys old new = (refl, refl)

-- INSERT ... ON CONFLICT (hypervisor_id, provider_vm_id) DO UPDATE, where `assign` gives the columns
-- of the new value to the old one. A conflict with a row whose `deleted_at` is set is one too.
unfoldable pub written : (Vm → Vm → Vm) → Option Vm → Option VmRow → Option VmRow
written assign none r = r
written assign (some v) none = some (record { vm = v; deleted = false })
written assign (some v) (some r) = some (record { vm = assign r.vm v; deleted = r.deleted })

-- gorm's Delete of a model with a DeletedAt: an UPDATE of `deleted_at` where it is not set.
unfoldable pub soft_deleted : (Vm → Bool) → Option VmRow → Option VmRow
soft_deleted q none = none
soft_deleted q (some r) = some (record { vm = r.vm; deleted = r.deleted || q r.vm })

-- A host with the cluster that its row refers to.
pub record HostRow : Type 0 where
  pub info : HostInfo
  pub cluster_id : Option ℕ

pub record ClusterRow : Type 0 where
  pub id : ℕ
  pub provider_id : String

pub record Database : Type 1 where
  pub State : Type 0
  pub row : ℕ → String → State → Option VmRow
  pub hypervisor : ℕ → State → String ⊎ Hypervisor
  pub set_connection : ℕ → ConnectionStatus → State → String ⊎ State
  pub insert_vms : (Vm → Vm → Vm) → List Vm → State → String ⊎ State
  pub delete_vms : (Vm → Bool) → State → String ⊎ (State × ℕ)
  pub insert_data_stores : ℕ → List DataStoreInfo → State → String ⊎ State
  pub insert_networks : ℕ → List NetworkInfo → State → String ⊎ State
  pub insert_clusters : ℕ → List ClusterInfo → State → String ⊎ State
  pub clusters_of : ℕ → State → String ⊎ List ClusterRow
  pub insert_hosts : ℕ → List HostRow → State → String ⊎ State
  pub count_vms_of_hosts : ℕ → State → String ⊎ State
  pub row-insert_vms :
      (assign : Vm → Vm → Vm) (vms : List Vm) (s t : State) (h : ℕ) (p : String)
      → insert_vms assign vms s ≡ inr t
      → KeepsKeys assign
      → HasDistinctKeys vms
      → row h p t ≡ written assign (find_vm h p vms) (row h p s)
  pub row-delete_vms :
      (q : Vm → Bool) (s t : State) (n h : ℕ) (p : String)
      → delete_vms q s ≡ inr (t, n)
      → row h p t ≡ soft_deleted q (row h p s)
  pub row_key :
      (s : State) (h : ℕ) (p : String) (r : VmRow)
      → row h p s ≡ some r
      → (r.vm.hypervisor_id ≡ h) × (r.vm.provider_vm_id ≡ p)
  pub row-set_connection :
      (id : ℕ) (c : ConnectionStatus) (s t : State) (h : ℕ) (p : String)
      → set_connection id c s ≡ inr t
      → row h p t ≡ row h p s
  pub row-insert_data_stores :
      (id : ℕ) (ds : List DataStoreInfo) (s t : State) (h : ℕ) (p : String)
      → insert_data_stores id ds s ≡ inr t
      → row h p t ≡ row h p s
  pub row-insert_networks :
      (id : ℕ) (ns : List NetworkInfo) (s t : State) (h : ℕ) (p : String)
      → insert_networks id ns s ≡ inr t
      → row h p t ≡ row h p s
  pub row-insert_clusters :
      (id : ℕ) (cs : List ClusterInfo) (s t : State) (h : ℕ) (p : String)
      → insert_clusters id cs s ≡ inr t
      → row h p t ≡ row h p s
  pub row-insert_hosts :
      (id : ℕ) (hs : List HostRow) (s t : State) (h : ℕ) (p : String)
      → insert_hosts id hs s ≡ inr t
      → row h p t ≡ row h p s
  pub row-count_vms_of_hosts :
      (id : ℕ) (s t : State) (h : ℕ) (p : String)
      → count_vms_of_hosts id s ≡ inr t
      → row h p t ≡ row h p s

unfoldable pub is_missing : ℕ → List String → Vm → Bool
is_missing hypervisor_id active_ids v =
    (v.hypervisor_id == hypervisor_id) && not (member v.provider_vm_id active_ids)

abbrev pub live_row : Option VmRow → Bool
live_row none = false
live_row (some r) = not r.deleted

abbrev pub retired_row : Option VmRow → Bool
retired_row none = false
retired_row (some r) = r.deleted

module _ (D : Database) where
  unfoldable pub bulk_upsert : List Vm → D.State → String ⊎ D.State
  bulk_upsert [] s = inr s
  bulk_upsert (v ∷ vs) s = D.insert_vms assign_inventory_columns (v ∷ vs) s

  -- The new tables and how many rows it deleted.
  unfoldable pub mark_deleted_by_provider_ids : ℕ → List String → D.State → String ⊎ (D.State × ℕ)
  mark_deleted_by_provider_ids hypervisor_id [] s = inr (s, 0)
  mark_deleted_by_provider_ids hypervisor_id (p ∷ ps) s =
      D.delete_vms (is_missing hypervisor_id (p ∷ ps)) s

  -- What the queries of the application see: rows that are not soft-deleted.
  unfoldable pub is_live : ℕ → String → D.State → Bool
  is_live h p s = live_row (D.row h p s)

  unfoldable pub is_retired : ℕ → String → D.State → Bool
  is_retired h p s = retired_row (D.row h p s)
