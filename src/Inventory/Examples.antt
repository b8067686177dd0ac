-- ===== src/Inventory/Examples.antt =====
-- Tests of the synchronisation on tables in memory, and the theorems at concrete inputs.
use vm_orbit.Inventory.Database.{is_retired}
use vm_orbit.Inventory.Sync.{provider_ids}
use vm_orbit.Base.{member}
use vm_orbit.Base.{
  ℕ, String, ◌≡◌, refl, sym, ◌⊎◌, inl, inr, Bool, true, false, Option, none, some, List, [], ◌∷◌,
  nat_eq, string_eq,
}
use vm_orbit.Base.Map.{lookup}
use vm_orbit.Environment.Status.{VmStatus}
use vm_orbit.Inventory.{
  Hypervisor, unknown, vmware, VmInfo, InventorySnapshot, build_hypervisor_credentials, token_of,
  map_vm_info_to_model,
}
use vm_orbit.Inventory.Database.{VmRow, is_live, has_key}
use vm_orbit.Inventory.Memory.{Tables, memory, memory-WritesVms}
use vm_orbit.Inventory.Sync.{
  Providers, World, SyncError, SyncResult, fetch_failed, sync_inventory_now, sync_loaded,
  connect_and_sync, with_connection, fetched, persist, report, report_all, announce, hang_up,
}
use vm_orbit.Inventory.Outcomes.{Reports, is_live-sync_inventory_now, row-sync_inventory_now_failed}
use vm_orbit.Inventory.Service.{
  RegisterRequest, UpdateRequest, Stored, register, register_secret, create_encrypted,
  registered_hypervisor, store_hypervisor, credentials-register,
}

abbrev info : String → VmInfo
info p = record {
  provider_vm_id = p;
  name = "web";
  status = VmStatus.running;
  cpu_count = 2;
  memory_mb = 2048;
  disk_gb = 20;
  ip_addresses = [];
  mac_address = "";
  network_name = "";
  guest_os = "";
  guest_os_type = "";
  tools_status = "";
  extra = [];
}

abbrev snapshot : List VmInfo → InventorySnapshot
snapshot vms = record {
  vms = vms;
  data_stores = [];
  networks = [];
  hosts = [];
  clusters = [];
  synced_at = 9;
}

abbrev hypervisor : ℕ → Hypervisor
hypervisor id = record {
  id = id;
  name = "h";
  description = "";
  provider = vmware;
  host = "h.example";
  port = 443;
  username = "root";
  encrypted_secret = "s";
  tls_verify = false;
  connection_status = unknown;
  tags = [];
  metadata = none;
}

-- A provider that reports one snapshot, or an error of the call.
abbrev provider : String ⊎ InventorySnapshot → Providers
provider answer = record {
  Session = Bool;
  is_registered = λ p. true;
  connect = λ p c s. (true, none);
  disconnect = λ p s. false;
  sync_inventory = λ p s. (s, answer);
}

abbrev row : ℕ → String → Bool → VmRow
row h p deleted = record { vm = map_vm_info_to_model (info p) h; deleted = deleted }

-- Hypervisor 1 has a, b and the deleted c, hypervisor 2 has a.
abbrev tables : Tables
tables = record {
  rows = row 1 "a" false ∷ row 1 "b" false ∷ row 1 "c" true ∷ row 2 "a" false ∷ [];
  hypervisors = hypervisor 1 ∷ hypervisor 2 ∷ [];
}

abbrev world : (answer : String ⊎ InventorySnapshot) → World memory (provider answer)
world answer = record {
  store = tables;
  session = false;
  progress = [];
  events = [];
  audit = [];
  health_jobs = [];
}

abbrev plain : String → Option String
plain s = some s

abbrev never : String → String → Bool
never msg part = false

abbrev after :
    (answer : String ⊎ InventorySnapshot)
    → World memory (provider answer) × (SyncError ⊎ SyncResult)
after answer =
    sync_inventory_now memory (provider answer) 1 plain plain never true true (world answer)

-- a stays, b goes, c stays deleted, d is new.
abbrev found : InventorySnapshot
found = snapshot (info "a" ∷ info "c" ∷ info "d" ∷ [])

reports :
    (snap : InventorySnapshot)
    → Reports memory
        (provider (inr snap))
        1
        plain
        plain
        never
        true
        true
        (world (inr snap))
        (hypervisor 1)
        snap
reports snap = record {
  session = true;
  after = true;
  loads = refl;
  registered = refl;
  connects = refl;
  fetches = refl;
}

is_live-sync_inventory_now_example : is_live memory 1 "d" (after (inr found)).0.store ≡ true
unfolding member provider_ids is_retired has_key map_vm_info_to_model
is_live-sync_inventory_now_example =
    is_live-sync_inventory_now memory (provider (inr found)) 1 plain plain never true true
      memory-WritesVms (world (inr found)) (hypervisor 1) found (info "a")
      (info "c" ∷ info "d" ∷ []) (reports found) refl (refl, (refl, (refl, tt))) 1 "d"

row-sync_inventory_now_failed_example :
    memory.row 1 "b" (after (inl "timeout")).0.store ≡ some (row 1 "b" false)
unfolding sync_inventory_now sync_loaded connect_and_sync with_connection fetched has_key
    map_vm_info_to_model
row-sync_inventory_now_failed_example =
    row-sync_inventory_now_failed memory (provider (inl "timeout")) 1 plain plain never true true
      (world (inl "timeout")) (fetch_failed "timeout") 1 "b" refl

-- The progress, the machines written and the provider's connection after a synchronisation.
progress_of_run :
    ((after (inr found)).0.progress ≡ 5 ∷ 15 ∷ 40 ∷ 65 ∷ 80 ∷ 85 ∷ 88 ∷ 90 ∷ 100 ∷ [])
    × ((after (inr found)).0.session ≡ false)
unfolding sync_inventory_now sync_loaded connect_and_sync with_connection fetched persist report
    report_all announce hang_up
progress_of_run = (refl, refl)

abbrev request : RegisterRequest
request = record {
  name = "h";
  description = "";
  provider = vmware;
  host = "h.example";
  port = 443;
  username = "root";
  password = "p";
  token = "t";
  tls_verify = true;
  tags = [];
  metadata = none;
}

abbrev stored : Stored
stored = record { hypervisors = []; audit = [] }

abbrev registered : Hypervisor
registered = record (hypervisor 1) { encrypted_secret = "p"; tls_verify = true }

credentials-register_example :
    (lookup 1 (register (λ p. true) plain (λ h. true) 1 request stored).0.hypervisors
      ≡ some registered)
    × (build_hypervisor_credentials plain plain registered ≡ record {
      host = "h.example";
      port = 443;
      username = "root";
      password = "p";
      token = "";
      tls_verify = true;
    })
unfolding register create_encrypted registered_hypervisor store_hypervisor register_secret token_of
credentials-register_example =
    credentials-register (λ p. true) plain plain plain (λ h. true) (λ s e eq. sym eq) 1 request
      stored registered refl

-- A token that comes with a password is not used, whatever the comment of Register says.
token_ignored : register_secret request ≡ "p"
unfolding register_secret
token_ignored = refl

abbrev new_token : UpdateRequest
new_token = record {
  name = none;
  description = none;
  host = none;
  port = none;
  username = none;
  password = none;
  token = some "t2";
  tls_verify = none;
  tags = none;
  metadata = none;
}
