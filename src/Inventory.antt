-- ===== src/Inventory.antt =====
-- Hypervisors and what a provider reports of them: internal/domain/model (hypervisor.go, vm.go,
-- infrastructure.go), the snapshot of internal/domain/port/provider.go, and the conversions and
-- credentials of internal/service/hypervisor_service.go. Identifiers are numbers. A JSON map holds
-- the text of each value; a float64 that is only copied stands for its bits.
pub mod Database
pub mod Sync
pub mod Rows
pub mod Outcomes
pub mod Service
pub mod Memory
pub mod Examples
use vm_orbit.Base.{
  ℕ, String, Bool, Option, none, some, List, [], ◌∷◌, or_else, nat_eq, string_eq, ℤ,
}
use vm_orbit.Base.Map.{Map, lookup}
use vm_orbit.Environment.Status.{VmStatus}

abbrev pub JsonMap : Type 0
JsonMap = Map String String

pub data ProviderType : Type 0 where
  vmware esxi proxmox nutanix kvm hyperv : ProviderType

pub data ConnectionStatus : Type 0 where
  connected disconnected failed unknown : ConnectionStatus

-- `metadata` is none for a nil map.
pub record Hypervisor : Type 0 where
  pub id : ℕ
  pub name : String
  pub description : String
  pub provider : ProviderType
  pub host : String
  pub port : ℕ
  pub username : String
  pub encrypted_secret : String
  pub tls_verify : Bool
  pub connection_status : ConnectionStatus
  pub tags : List String
  pub metadata : Option JsonMap

pub record Vm : Type 0 where
  pub hypervisor_id : ℕ
  pub provider_vm_id : String
  pub name : String
  pub description : String
  pub status : VmStatus
  pub cpu_count : ℕ
  pub memory_mb : ℕ
  pub disk_gb : ℕ
  pub ip_addresses : List String
  pub mac_address : String
  pub network_name : String
  pub guest_os : String
  pub guest_os_type : String
  pub tools_status : String
  pub tags : List String
  pub metadata : Option JsonMap

pub record VmInfo : Type 0 where
  pub provider_vm_id : String
  pub name : String
  pub status : VmStatus
  pub cpu_count : ℕ
  pub memory_mb : ℕ
  pub disk_gb : ℕ
  pub ip_addresses : List String
  pub mac_address : String
  pub network_name : String
  pub guest_os : String
  pub guest_os_type : String
  pub tools_status : String
  pub extra : JsonMap

-- The hypervisor's number stands beside it when it is written.
pub record DataStoreInfo : Type 0 where
  pub provider_id : String
  pub name : String
  pub type : String
  pub capacity_gb : ℕ
  pub used_gb : ℕ
  pub free_gb : ℕ
  pub accessible : Bool

pub record NetworkInfo : Type 0 where
  pub provider_id : String
  pub name : String
  pub type : String
  pub vlan : ℤ
  pub accessible : Bool

pub record ClusterInfo : Type 0 where
  pub provider_id : String
  pub name : String
  pub total_cpu : ℕ
  pub total_memory_mb : ℕ
  pub host_count : ℕ

pub record HostInfo : Type 0 where
  pub provider_id : String
  pub name : String
  pub status : String
  pub cluster_provider_id : String
  pub cpu_model : String
  pub cpu_sockets : ℕ
  pub cpu_cores : ℕ
  pub cpu_threads : ℕ
  pub cpu_usage_mhz : ℕ
  pub total_memory_mb : ℕ
  pub used_memory_mb : ℕ
  pub hypervisor_version : String
  pub uptime_seconds : ℕ

pub record InventorySnapshot : Type 0 where
  pub vms : List VmInfo
  pub data_stores : List DataStoreInfo
  pub networks : List NetworkInfo
  pub hosts : List HostInfo
  pub clusters : List ClusterInfo
  pub synced_at : ℕ

abbrev pub nil_if_empty : JsonMap → Option JsonMap
nil_if_empty [] = none
nil_if_empty (entry ∷ m) = some (entry ∷ m)

-- A nil slice of addresses and an empty one are the same list.
unfoldable pub map_vm_info_to_model : VmInfo → ℕ → Vm
map_vm_info_to_model info hypervisor_id = record {
  hypervisor_id = hypervisor_id;
  provider_vm_id = info.provider_vm_id;
  name = info.name;
  description = "";
  status = info.status;
  cpu_count = info.cpu_count;
  memory_mb = info.memory_mb;
  disk_gb = info.disk_gb;
  ip_addresses = info.ip_addresses;
  mac_address = info.mac_address;
  network_name = info.network_name;
  guest_os = info.guest_os;
  guest_os_type = info.guest_os_type;
  tools_status = info.tools_status;
  tags = [];
  metadata = nil_if_empty info.extra;
}

pub record Credentials : Type 0 where
  pub host : String
  pub port : ℕ
  pub username : String
  pub password : String
  pub token : String
  pub tls_verify : Bool

-- `text_value` reads a JSON value as a text, when it is one.
module _ (decrypt_secret : String → Option String) (text_value : String → Option String) where
  -- A secret that does not decrypt is used as it is stored.
  unfoldable pub stored_secret : Hypervisor → String
  stored_secret h = or_else (decrypt_secret h.encrypted_secret) h.encrypted_secret

  unfoldable pub api_token_id : Option JsonMap → Option String
  api_token_id none = none
  api_token_id (some m) = elim (lookup "api_token_id" m) [ none ↦ none | some v ↦ text_value v ]

  unfoldable pub token_of : ProviderType → Option JsonMap → String
  token_of proxmox m = or_else (api_token_id m) ""
  token_of _ m = ""

  unfoldable pub build_hypervisor_credentials : Hypervisor → Credentials
  build_hypervisor_credentials h = record {
    host = h.host;
    port = h.port;
    username = h.username;
    password = stored_secret h;
    token = token_of h.provider h.metadata;
    tls_verify = h.tls_verify;
  }
