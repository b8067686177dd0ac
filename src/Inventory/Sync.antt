-- ===== src/Inventory/Sync.antt =====
-- internal/service/hypervisor_service.go: SyncInventoryNow, one synchronisation of a hypervisor's
-- inventory. The providers of the registry are parameters; `Session` is the state of their
-- connections. Of a message to the progress callback only the percentage is kept.
use vm_orbit.Base.{
  ℕ, String, ◌⊎◌, inl, inr, Bool, true, false, not, ◌||◌, Option, none, some, List, [], ◌∷◌, ◌++◌,
  if◌then◌else◌, ◌==◌, nat_eq, string_eq, length,
}
use vm_orbit.Base.Map.{Map, lookup, insert}
use vm_orbit.Inventory.{
  Hypervisor, ConnectionStatus, connected, failed, ProviderType, Vm, VmInfo, DataStoreInfo,
  NetworkInfo, ClusterInfo, HostInfo, InventorySnapshot, map_vm_info_to_model, Credentials,
  build_hypervisor_credentials,
}
use vm_orbit.Inventory.Database.{
  Database, HostRow, ClusterRow, bulk_upsert, mark_deleted_by_provider_ids,
}

-- `connect` gives the error's text, when there is one.
pub record Providers : Type 1 where
  pub Session : Type 0
  pub is_registered : ProviderType → Bool
  pub connect : ProviderType → Credentials → Session → Session × Option String
  pub disconnect : ProviderType → Session → Session
  pub sync_inventory : ProviderType → Session → Session × (String ⊎ InventorySnapshot)

pub data WriteError : Type 0 where
  vm_upsert datastore_upsert network_upsert : String → WriteError

pub record SyncResult : Type 0 where
  pub hypervisor_id : ℕ
  pub vms_updated : ℕ
  pub vms_removed : ℕ
  pub stores_upserted : ℕ
  pub networks_upserted : ℕ
  pub errors : List WriteError

unfoldable pub new_result : ℕ → SyncResult
new_result id = record {
  hypervisor_id = id;
  vms_updated = 0;
  vms_removed = 0;
  stores_upserted = 0;
  networks_upserted = 0;
  errors = [];
}

-- Why a synchronisation ended early.
pub data SyncError : Type 0 where
  hypervisor_not_found : String → SyncError
  not_registered : SyncError
  tls_verification tls_or_connect : String → SyncError
  fetch_failed : String → SyncError

-- The event inventory.synced; the audit entry and the health update follow from the same values.
pub record SyncEvent : Type 0 where
  pub name : String
  pub provider : ProviderType
  pub outcome : SyncResult
  pub synced_at : ℕ

pub record AuditEntry : Type 0 where
  pub hypervisor_id : ℕ
  pub vms : ℕ
  pub removed : ℕ
  pub success : Bool

-- The goroutine that updates the provider's health: hypervisor, whether it failed, machines.
pub record HealthJob : Type 0 where
  pub hypervisor_id : ℕ
  pub sync_failed : Bool
  pub vm_count : ℕ

unfoldable pub provider_ids : List VmInfo → List String
provider_ids [] = []
provider_ids (info ∷ infos) = info.provider_vm_id ∷ provider_ids infos

unfoldable pub vm_models : List VmInfo → ℕ → List Vm
vm_models [] id = []
vm_models (info ∷ infos) id = map_vm_info_to_model info id ∷ vm_models infos id

-- The identifiers of the clusters by the provider's own; a later one replaces an earlier.
unfoldable pub cluster_ids : List ClusterRow → Map String ℕ → Map String ℕ
cluster_ids [] m = m
cluster_ids (c ∷ cs) m = cluster_ids cs (insert c.provider_id c.id m)

unfoldable pub cluster_of : String → Map String ℕ → Option ℕ
cluster_of p m = if p == "" then none else lookup p m

unfoldable pub host_models : List HostInfo → Map String ℕ → List HostRow
host_models [] m = []
host_models (h ∷ hs) m =
    record { info = h; cluster_id = cluster_of h.cluster_provider_id m } ∷ host_models hs m

module _ (D : Database) where
  -- An error of a statement that is only logged leaves the tables as they were.
  abbrev pub or_logged : D.State → String ⊎ D.State → D.State
  or_logged s (inl e) = s
  or_logged s (inr t) = t

  abbrev pub Written : Type 0
  Written = SyncResult × D.State

  unfoldable pub vms_stored : ℕ → Written → String ⊎ D.State → Written
  vms_stored n (r, s) (inl e) = (record r { errors = r.errors ++ (vm_upsert e ∷ []) }, s)
  vms_stored n (r, s) (inr t) = (record r { vms_updated = n }, t)

  unfoldable pub vms_marked : Written → String ⊎ (D.State × ℕ) → Written
  vms_marked w (inl e) = w
  vms_marked (r, s) (inr (t, n)) = (record r { vms_removed = n }, t)

  -- Machines that were not written because of an error are still compared with the snapshot.
  unfoldable pub upsert_vms : ℕ → List VmInfo → Written → Written
  upsert_vms id [] w = w
  upsert_vms id (info ∷ infos) w =
      let models = vm_models (info ∷ infos) id in
      let stored = vms_stored (length models) w (bulk_upsert D models w.1) in
      vms_marked stored (mark_deleted_by_provider_ids D id (provider_ids (info ∷ infos)) stored.1)

  unfoldable pub data_stores_stored : ℕ → Written → String ⊎ D.State → Written
  data_stores_stored n (r, s) (inl e) =
      (record r { errors = r.errors ++ (datastore_upsert e ∷ []) }, s)
  data_stores_stored n (r, s) (inr t) = (record r { stores_upserted = n }, t)

  unfoldable pub upsert_data_stores : ℕ → List DataStoreInfo → Written → Written
  upsert_data_stores id [] w = w
  upsert_data_stores id (d ∷ ds) w =
      data_stores_stored (length (d ∷ ds)) w (D.insert_data_stores id (d ∷ ds) w.1)

  unfoldable pub networks_stored : ℕ → Written → String ⊎ D.State → Written
  networks_stored n (r, s) (inl e) = (record r { errors = r.errors ++ (network_upsert e ∷ []) }, s)
  networks_stored n (r, s) (inr t) = (record r { networks_upserted = n }, t)

  unfoldable pub upsert_networks : ℕ → List NetworkInfo → Written → Written
  upsert_networks id [] w = w
  upsert_networks id (n ∷ ns) w =
      networks_stored (length (n ∷ ns)) w (D.insert_networks id (n ∷ ns) w.1)

  -- `present` is whether the service was built with a cluster repository.
  unfoldable pub upsert_clusters : Bool → ℕ → List ClusterInfo → D.State → D.State
  upsert_clusters present id [] s = s
  upsert_clusters false id (c ∷ cs) s = s
  upsert_clusters true id (c ∷ cs) s = or_logged s (D.insert_clusters id (c ∷ cs) s)

  unfoldable pub clusters_by_provider : Bool → ℕ → D.State → Map String ℕ
  clusters_by_provider false id s = []
  clusters_by_provider true id s = elim (D.clusters_of id s) [
    | inl e ↦ []
    | inr rows ↦ cluster_ids rows []
  ]

  -- The machines of the hosts are counted only after the hosts were written.
  unfoldable pub hosts_stored : ℕ → D.State → String ⊎ D.State → D.State
  hosts_stored id s (inl e) = s
  hosts_stored id s (inr t) = or_logged t (D.count_vms_of_hosts id t)

  unfoldable pub upsert_hosts : Bool → Bool → ℕ → List HostInfo → D.State → D.State
  upsert_hosts clusters present id [] s = s
  upsert_hosts clusters false id (h ∷ hs) s = s
  upsert_hosts clusters true id (h ∷ hs) s =
      hosts_stored id s
        (D.insert_hosts id (host_models (h ∷ hs) (clusters_by_provider clusters id s)) s)

  unfoldable pub write_connection : ℕ → ConnectionStatus → D.State → D.State
  write_connection id c s = or_logged s (D.set_connection id c s)

  -- Steps 4 to 8: what the snapshot writes, and the result of it.
  unfoldable pub write_snapshot :
      Bool → Bool → ℕ → InventorySnapshot → D.State → SyncResult × D.State
  write_snapshot clusters hosts id snap s =
      let w =
        upsert_networks id snap.networks
          (upsert_data_stores id snap.data_stores (upsert_vms id snap.vms (new_result id, s))) in
      (
        w.0,
        upsert_hosts clusters hosts id snap.hosts (upsert_clusters clusters id snap.clusters w.1),
      )

unfoldable pub is_empty : List WriteError → Bool
is_empty [] = true
is_empty (_ ∷ _) = false

-- isTLSError on the text of an error; `contains` is strings.Contains.
unfoldable pub is_tls_error : (String → String → Bool) → String → Bool
is_tls_error contains msg =
    contains msg "certificate" || contains msg "x509" || contains msg "tls:" || contains msg "TLS"

unfoldable pub connect_error : (String → String → Bool) → String → SyncError
connect_error contains msg =
    if is_tls_error contains msg then tls_verification msg else tls_or_connect msg

-- What the service works on: the tables, the providers' connections, and what it reports.
pub record World (D : Database) (P : Providers) : Type 0 where
  pub store : D.State
  pub session : P.Session
  pub progress : List ℕ
  pub events : List SyncEvent
  pub audit : List AuditEntry
  pub health_jobs : List HealthJob

module _ (D : Database) (P : Providers) where
  unfoldable pub report : ℕ → World D P → World D P
  report pct w = record w { progress = w.progress ++ (pct ∷ []) }

  unfoldable pub report_all : List ℕ → World D P → World D P
  report_all [] w = w
  report_all (pct ∷ pcts) w = report_all pcts (report pct w)

  -- The event, the audit entry and the job for the provider's health.
  unfoldable pub announce : Hypervisor → InventorySnapshot → SyncResult → World D P → World D P
  announce h snap r w = record {
    store = w.store;
    session = w.session;
    progress = w.progress;
    events =
        w.events
        ++ (record { name = h.name; provider = h.provider; outcome = r; synced_at = snap.synced_at }
            ∷ []);
    audit =
        w.audit
        ++ (record {
          hypervisor_id = r.hypervisor_id;
          vms = r.vms_updated;
          removed = r.vms_removed;
          success = is_empty r.errors;
        }
            ∷ []);
    health_jobs =
        w.health_jobs
        ++ (record {
          hypervisor_id = r.hypervisor_id;
          sync_failed = not (is_empty r.errors);
          vm_count = r.vms_updated;
        }
            ∷ []);
  }

  unfoldable pub hang_up : ProviderType → World D P → World D P
  hang_up p w = record w { session = P.disconnect p w.session }

  module _ (id : ℕ) where
    unfoldable pub persist :
        Bool
        → Bool
        → Hypervisor
        → InventorySnapshot
        → World D P
        → World D P × (SyncError ⊎ SyncResult)
    persist clusters hosts h snap w =
        let written = write_snapshot D clusters hosts id snap w.store in
        let stored = record w { store = written.1 } in
        (
          report 100 (announce h snap written.0 (report_all (65 ∷ 80 ∷ 85 ∷ 88 ∷ 90 ∷ []) stored)),
          inr written.0,
        )

    unfoldable pub fetched :
        Bool
        → Bool
        → Hypervisor
        → World D P
        → P.Session × (String ⊎ InventorySnapshot)
        → World D P × (SyncError ⊎ SyncResult)
    fetched clusters hosts h w (session, inl e) = (
      record w { store = write_connection D id failed w.store; session = session },
      inl (fetch_failed e),
    )
    fetched clusters hosts h w (session, inr snap) =
        persist clusters hosts h snap (report 40 (record w { session = session }))

    -- After Connect: the deferred Disconnect runs last on every path.
    unfoldable pub with_connection :
        (String → String → Bool)
        → Bool
        → Bool
        → Hypervisor
        → World D P
        → P.Session × Option String
        → World D P × (SyncError ⊎ SyncResult)
    with_connection contains clusters hosts h w (session, some e) = (
      record w { store = write_connection D id failed w.store; session = session },
      inl (connect_error contains e),
    )
    with_connection contains clusters hosts h w (session, none) =
        let ready =
          report 15
            (record w { store = write_connection D id connected w.store; session = session }) in
        let done = fetched clusters hosts h ready (P.sync_inventory h.provider ready.session) in
        (hang_up h.provider done.0, done.1)

    module _ (decrypt_secret text_value : String → Option String)
        (contains : String → String → Bool) (clusters hosts : Bool) where
      unfoldable pub connect_and_sync :
          Hypervisor → World D P → World D P × (SyncError ⊎ SyncResult)
      connect_and_sync h w =
          if P.is_registered h.provider
          then with_connection contains clusters hosts h w (
              P.connect h.provider (build_hypervisor_credentials decrypt_secret text_value h)
                w.session)
          else (w, inl not_registered)

      unfoldable pub sync_loaded :
          World D P → String ⊎ Hypervisor → World D P × (SyncError ⊎ SyncResult)
      sync_loaded w (inl e) = (w, inl (hypervisor_not_found e))
      sync_loaded w (inr h) = connect_and_sync h (report 5 w)

      unfoldable pub sync_inventory_now : World D P → World D P × (SyncError ⊎ SyncResult)
      sync_inventory_now w = sync_loaded w (D.hypervisor id w.store)
