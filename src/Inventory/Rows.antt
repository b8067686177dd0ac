-- ===== src/Inventory/Rows.antt =====
-- What a synchronisation leaves in `vms`: the row of every key after it, from the row before.
use vm_orbit.Base.{
  ℕ, String, ◌≡◌, refl, ◌∙◌, ◌⊎◌, inl, inr, Bool, true, false, Option, none, some, List, [], ◌∷◌,
  arith, if◌then◌else◌, Option-cases, is_some, ◌==◌, nat_eq, string_eq,
}
use vm_orbit.Base.{member}
use vm_orbit.Inventory.{
  ConnectionStatus, Vm, VmInfo, DataStoreInfo, NetworkInfo, ClusterInfo, HostInfo,
  InventorySnapshot, map_vm_info_to_model,
}
use vm_orbit.Inventory.Database.{
  Database, VmRow, bulk_upsert, mark_deleted_by_provider_ids, has_key, find_vm, HasDistinctKeys,
  written, soft_deleted, assign_inventory_columns, assign_inventory_columns-KeepsKeys, is_missing,
}
use vm_orbit.Inventory.Sync.{
  SyncResult, new_result, provider_ids, vm_models, upsert_vms, vms_stored, vms_marked,
  upsert_data_stores, data_stores_stored, upsert_networks, networks_stored, upsert_clusters,
  upsert_hosts, hosts_stored, or_logged, write_connection, write_snapshot,
}

abbrev pub find_info : String → List VmInfo → Option VmInfo
find_info p [] = none
find_info p (info ∷ infos) = if info.provider_vm_id == p then some info else find_info p infos

-- Each machine is reported once.
abbrev pub HasDistinctIds : List VmInfo → Type 0
HasDistinctIds [] = Unit
HasDistinctIds (info ∷ infos) =
    (member info.provider_vm_id (provider_ids infos) ≡ false) × HasDistinctIds infos

abbrev refreshed : Vm → Option VmRow → VmRow
refreshed v none = record { vm = v; deleted = false }
refreshed v (some r) = record { vm = assign_inventory_columns r.vm v; deleted = r.deleted }

abbrev retired : Option VmRow → Option VmRow
retired none = none
retired (some r) = some (record { vm = r.vm; deleted = true })

abbrev pub row_of_reported : ℕ → Option VmInfo → Option VmRow → Option VmRow
row_of_reported id none r = retired r
row_of_reported id (some info) r = some (refreshed (map_vm_info_to_model info id) r)

-- A reported machine has its row refreshed, one that is not reported has it retired, and the rows
-- of other hypervisors stay. A snapshot without machines changes nothing.
abbrev pub row_after : ℕ → List VmInfo → ℕ → String → Option VmRow → Option VmRow
row_after id [] h p r = r
row_after id (info ∷ infos) h p r =
    if h == id then row_of_reported id (find_info p (info ∷ infos)) r else r

find_vm-vm_models :
    (infos : List VmInfo) (id h : ℕ) (p : String)
    → find_vm h p (vm_models infos id) ≡ (
        if h == id
        then elim (find_info p infos) [ none ↦ none | some i ↦ some (map_vm_info_to_model i id) ]
        else none)
unfolding find_vm vm_models has_key map_vm_info_to_model
find_vm-vm_models [] id h p = ground arith
find_vm-vm_models (i ∷ infos) id h p = ground (arith, find_vm-vm_models infos id h p)

find_info-none :
    (p : String) (infos : List VmInfo)
    → member p (provider_ids infos) ≡ false
    → find_info p infos ≡ none
unfolding member provider_ids
find_info-none p [] m = refl
find_info-none p (i ∷ infos) m = ground (arith, find_info-none p infos)

find_info-filled :
    (p : String) (infos : List VmInfo)
    → member p (provider_ids infos) ≡ true
    → is_some (find_info p infos) ≡ true
unfolding member provider_ids
find_info-filled p [] m = ground arith
find_info-filled p (i ∷ infos) m = ground (arith, find_info-filled p infos)

vm_models-HasDistinctKeys :
    (infos : List VmInfo) (id : ℕ) → HasDistinctIds infos → HasDistinctKeys (vm_models infos id)
unfolding vm_models map_vm_info_to_model
vm_models-HasDistinctKeys [] id d = tt
vm_models-HasDistinctKeys (i ∷ infos) id d = (
  rw (find_vm-vm_models infos id id i.provider_vm_id, find_info-none i.provider_vm_id infos d.0)
      (ground arith),
  vm_models-HasDistinctKeys infos id d.1,
)

-- The two statements on `vms` succeed.
pub record WritesVms (D : Database) : Type 0 where
  pub inserts :
      (vms : List Vm) (s : D.State)
      → (t : D.State) × (D.insert_vms assign_inventory_columns vms s ≡ inr t)
  pub deletes : (q : Vm → Bool) (s : D.State) → (t : D.State × ℕ) × (D.delete_vms q s ≡ inr t)

module _ (D : Database) where
  row-or_logged :
      (s : D.State) (x : String ⊎ D.State) (h : ℕ) (p : String)
      → ((t : D.State) → x ≡ inr t → D.row h p t ≡ D.row h p s)
      → D.row h p (or_logged D s x) ≡ D.row h p s
  row-or_logged s (inl e) h p same = refl
  row-or_logged s (inr t) h p same = same t refl

  pub row-write_connection :
      (id : ℕ) (c : ConnectionStatus) (s : D.State) (h : ℕ) (p : String)
      → D.row h p (write_connection D id c s) ≡ D.row h p s
  unfolding write_connection
  row-write_connection id c s h p = row-or_logged s _ h p λ t e. D.row-set_connection id c s t h p e

  row-data_stores_stored :
      (n : ℕ) (w : SyncResult × D.State) (x : String ⊎ D.State) (h : ℕ) (p : String)
      → ((t : D.State) → x ≡ inr t → D.row h p t ≡ D.row h p w.1)
      → D.row h p (data_stores_stored D n w x).1 ≡ D.row h p w.1
  unfolding data_stores_stored
  row-data_stores_stored n w (inl e) h p same = refl
  row-data_stores_stored n w (inr t) h p same = same t refl

  row-upsert_data_stores :
      (id : ℕ) (ds : List DataStoreInfo) (w : SyncResult × D.State) (h : ℕ) (p : String)
      → D.row h p (upsert_data_stores D id ds w).1 ≡ D.row h p w.1
  unfolding upsert_data_stores
  row-upsert_data_stores id [] w h p = refl
  row-upsert_data_stores id (d ∷ ds) w h p =
      row-data_stores_stored _ w _ h p λ t e. D.row-insert_data_stores id (d ∷ ds) w.1 t h p e

  row-networks_stored :
      (n : ℕ) (w : SyncResult × D.State) (x : String ⊎ D.State) (h : ℕ) (p : String)
      → ((t : D.State) → x ≡ inr t → D.row h p t ≡ D.row h p w.1)
      → D.row h p (networks_stored D n w x).1 ≡ D.row h p w.1
  unfolding networks_stored
  row-networks_stored n w (inl e) h p same = refl
  row-networks_stored n w (inr t) h p same = same t refl

  row-upsert_networks :
      (id : ℕ) (ns : List NetworkInfo) (w : SyncResult × D.State) (h : ℕ) (p : String)
      → D.row h p (upsert_networks D id ns w).1 ≡ D.row h p w.1
  unfolding upsert_networks
  row-upsert_networks id [] w h p = refl
  row-upsert_networks id (n ∷ ns) w h p =
      row-networks_stored _ w _ h p λ t e. D.row-insert_networks id (n ∷ ns) w.1 t h p e

  row-upsert_clusters :
      (present : Bool) (id : ℕ) (cs : List ClusterInfo) (s : D.State) (h : ℕ) (p : String)
      → D.row h p (upsert_clusters D present id cs s) ≡ D.row h p s
  unfolding upsert_clusters
  row-upsert_clusters present id [] s h p = refl
  row-upsert_clusters false id (c ∷ cs) s h p = refl
  row-upsert_clusters true id (c ∷ cs) s h p =
      row-or_logged s _ h p λ t e. D.row-insert_clusters id (c ∷ cs) s t h p e

  row-hosts_stored :
      (id : ℕ) (s : D.State) (x : String ⊎ D.State) (h : ℕ) (p : String)
      → ((t : D.State) → x ≡ inr t → D.row h p t ≡ D.row h p s)
      → D.row h p (hosts_stored D id s x) ≡ D.row h p s
  unfolding hosts_stored
  row-hosts_stored id s (inl e) h p same = refl
  row-hosts_stored id s (inr t) h p same =
      row-or_logged t _ h p (λ u e. D.row-count_vms_of_hosts id t u h p e) ∙ same t refl

  row-upsert_hosts :
      (clusters present : Bool) (id : ℕ) (hs : List HostInfo) (s : D.State) (h : ℕ) (p : String)
      → D.row h p (upsert_hosts D clusters present id hs s) ≡ D.row h p s
  unfolding upsert_hosts
  row-upsert_hosts clusters present id [] s h p = refl
  row-upsert_hosts clusters false id (i ∷ hs) s h p = refl
  row-upsert_hosts clusters true id (i ∷ hs) s h p =
      row-hosts_stored id s _ h p λ t e. D.row-insert_hosts id _ s t h p e

module _ (D : Database) (W : WritesVms D) where
  vms_stored_row :
      (n : ℕ) (w : SyncResult × D.State) (models : List Vm) (h : ℕ) (p : String)
      → HasDistinctKeys models
      → D.row h p (vms_stored D n w (bulk_upsert D models w.1)).1
        ≡ written assign_inventory_columns (find_vm h p models) (D.row h p w.1)
  unfolding bulk_upsert vms_stored find_vm written
  vms_stored_row n w [] h p d = refl
  vms_stored_row n w (v ∷ vs) h p d =
      let (t, e) = W.inserts (v ∷ vs) w.1 in
      rw e (
        D.row-insert_vms assign_inventory_columns (v ∷ vs) w.1 t h p e
          assign_inventory_columns-KeepsKeys d)

  vms_marked_row :
      (w : SyncResult × D.State) (id : ℕ) (q : String) (qs : List String) (h : ℕ) (p : String)
      → D.row h p (vms_marked D w (mark_deleted_by_provider_ids D id (q ∷ qs) w.1)).1
        ≡ soft_deleted (is_missing id (q ∷ qs)) (D.row h p w.1)
  unfolding mark_deleted_by_provider_ids vms_marked
  vms_marked_row w id q qs h p =
      let (t, e) = W.deletes (is_missing id (q ∷ qs)) w.1 in
      rw e (D.row-delete_vms (is_missing id (q ∷ qs)) w.1 t.0 t.1 h p e)

find_info_key :
    (p : String) (infos : List VmInfo) (info : VmInfo)
    → find_info p infos ≡ some info
    → info.provider_vm_id ≡ p
find_info_key p [] info e = ground arith
find_info_key p (i ∷ infos) info e =
    ground (arith, string_eq.same_iff i.provider_vm_id p, find_info_key p infos info)

abbrev HasKey : ℕ → String → Option VmRow → Type 0
HasKey h p none = Unit
HasKey h p (some r) = (r.vm.hypervisor_id ≡ h) × (r.vm.provider_vm_id ≡ p)

settled_row :
    (id : ℕ) (ids : List String) (found : Option VmInfo) (h : ℕ) (p : String) (r : Option VmRow)
    → HasKey h p r
    → member p ids ≡ is_some found
    → ((i : VmInfo) → found ≡ some i → i.provider_vm_id ≡ p)
    → soft_deleted (is_missing id ids) (
        written assign_inventory_columns
          (if h == id
            then elim found [ none ↦ none | some i ↦ some (map_vm_info_to_model i id) ]
            else none)
          r)
      ≡ (if h == id then row_of_reported id found r else r)
unfolding soft_deleted is_missing written assign_inventory_columns map_vm_info_to_model
settled_row id ids none h p none k m f = ground arith
settled_row id ids none h p (some r) k m f = ground (arith, nat_eq.same_iff h id)
settled_row id ids (some i) h p none k m f = ground (arith, f i refl, nat_eq.same_iff h id)
settled_row id ids (some i) h p (some r) k m f = ground (arith, nat_eq.same_iff h id)

row_key_of : (D : Database) (s : D.State) (h : ℕ) (p : String) → HasKey h p (D.row h p s)
row_key_of D s h p = elim (Option-cases (D.row h p s)) [
  | inl e ↦ rw e tt
  | inr (r, e) ↦ rw e (D.row_key s h p r e)
]

pub member-is_some :
    (p : String) (infos : List VmInfo) → member p (provider_ids infos) ≡ is_some (find_info p infos)
member-is_some p infos = ground (arith, find_info-none p infos, find_info-filled p infos)

module _ (D : Database) (W : WritesVms D) where
  row-upsert_vms :
      (id : ℕ) (infos : List VmInfo) (w : SyncResult × D.State) (h : ℕ) (p : String)
      → HasDistinctIds infos
      → D.row h p (upsert_vms D id infos w).1 ≡ row_after id infos h p (D.row h p w.1)
  unfolding upsert_vms provider_ids
  row-upsert_vms id [] w h p d = refl
  row-upsert_vms id (i ∷ infos) w h p d =
      rw
        (
          vms_marked_row D W,
          vms_stored_row D W _ w _ h p (vm_models-HasDistinctKeys (i ∷ infos) id d),
          find_vm-vm_models (i ∷ infos) id h p,
        )
        (settled_row id (provider_ids (i ∷ infos)) (find_info p (i ∷ infos)) h p (D.row h p w.1)
          (row_key_of D w.1 h p) (member-is_some p (i ∷ infos)) (find_info_key p (i ∷ infos)))

  pub row-write_snapshot :
      (clusters hosts : Bool) (id : ℕ) (snap : InventorySnapshot) (s : D.State) (h : ℕ) (p : String)
      → HasDistinctIds snap.vms
      → D.row h p (write_snapshot D clusters hosts id snap s).1
        ≡ row_after id snap.vms h p (D.row h p s)
  unfolding write_snapshot
  row-write_snapshot clusters hosts id snap s h p d =
      row-upsert_hosts D clusters hosts id snap.hosts _ h p
      ∙ row-upsert_clusters D clusters id snap.clusters _ h p
      ∙ row-upsert_networks D id snap.networks _ h p
      ∙ row-upsert_data_stores D id snap.data_stores _ h p
      ∙ row-upsert_vms id snap.vms (new_result id, s) h p d
