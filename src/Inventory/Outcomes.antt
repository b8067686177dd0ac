-- ===== src/Inventory/Outcomes.antt =====
-- The ways in which a synchronisation ends, and what each leaves in the tables, in the provider's
-- connection and in the reports.
use vm_orbit.Base.{
  ℕ, String, ◌≡◌, refl, ap, ◌∙◌, ◌⊎◌, inl, inr, Bool, true, not, ◌&&◌, Option, none, some, List,
  ◌∷◌, arith, if◌then◌else◌, Bool-cases, is_some, ◌==◌, nat_eq, string_eq,
}
use vm_orbit.Base.{member}
use vm_orbit.Inventory.{
  Hypervisor, connected, failed, VmInfo, InventorySnapshot, build_hypervisor_credentials,
}
use vm_orbit.Inventory.Database.{Database, VmRow, is_live, is_retired, live_row, retired_row}
use vm_orbit.Inventory.Sync.{
  SyncResult, SyncError, Providers, World, provider_ids, write_connection, write_snapshot, report,
  report_all, announce, hang_up, persist, fetched, with_connection, connect_and_sync, sync_loaded,
  sync_inventory_now,
}
use vm_orbit.Inventory.Rows.{
  HasDistinctIds, WritesVms, row_after, row_of_reported, find_info, member-is_some,
  row-write_connection, row-write_snapshot,
}

live_row-reported :
    (id : ℕ) (found : Option VmInfo) (h : ℕ) (r : Option VmRow)
    → live_row (if h == id then row_of_reported id found r else r)
      ≡ (if h == id then is_some found && not (retired_row r) else live_row r)
live_row-reported id none h none = ground arith
live_row-reported id none h (some r) = ground arith
live_row-reported id (some i) h none = ground arith
live_row-reported id (some i) h (some r) = ground arith

live_row-row_after :
    (id : ℕ) (first : VmInfo) (rest : List VmInfo) (h : ℕ) (p : String) (r : Option VmRow)
    → live_row (row_after id (first ∷ rest) h p r) ≡ (
        if h == id
        then member p (provider_ids (first ∷ rest)) && not (retired_row r)
        else live_row r)
live_row-row_after id first rest h p r =
    rw (member-is_some p (first ∷ rest)) (live_row-reported id (find_info p (first ∷ rest)) h r)

module _ (D : Database) (P : Providers) (id : ℕ)
    (decrypt_secret text_value : String → Option String) (contains : String → String → Bool)
    (clusters hosts : Bool) where
  -- The provider accepts the hypervisor's credentials and reports `snap`.
  pub record Reports (w : World D P) (h : Hypervisor) (snap : InventorySnapshot) : Type 0 where
    pub session : P.Session
    pub after : P.Session
    pub loads : D.hypervisor id w.store ≡ inr h
    pub registered : P.is_registered h.provider ≡ true
    pub connects :
        P.connect h.provider (build_hypervisor_credentials decrypt_secret text_value h) w.session
        ≡ (session, none)
    pub fetches : P.sync_inventory h.provider session ≡ (after, inr snap)

  abbrev run : World D P → World D P × (SyncError ⊎ SyncResult)
  run = sync_inventory_now D P id decrypt_secret text_value contains clusters hosts

  run_reported :
      (w : World D P) (h : Hypervisor) (snap : InventorySnapshot) (r : Reports w h snap)
      → ((run w).0.store
          ≡ (write_snapshot D clusters hosts id snap (write_connection D id connected w.store)).1)
        × ((run w).0.session ≡ P.disconnect h.provider r.after)
        × ((run w).1
            ≡ inr
                (write_snapshot D clusters hosts id snap
                  (write_connection D id connected w.store)).0)
  unfolding sync_inventory_now sync_loaded connect_and_sync with_connection fetched persist announce
      report report_all hang_up
  run_reported w h snap r = rw (r.loads, r.registered, r.connects, r.fetches) (refl, refl, refl)

  -- The provider is left disconnected, after what it answered.
  session-sync_inventory_now :
      (w : World D P) (h : Hypervisor) (snap : InventorySnapshot) (r : Reports w h snap)
      → (run w).0.session ≡ P.disconnect h.provider r.after
  session-sync_inventory_now w h snap r = (run_reported w h snap r).1

  -- When a hypervisor's provider reports a snapshot that names each machine once, and the statements
  -- on the machines succeed, every row is what `row_after` says: the rows of reported machines are
  -- refreshed (with `deleted_at` as it was), those of its other machines are retired, the rows of
  -- other hypervisors stay, and a snapshot without machines changes no row.
  row-sync_inventory_now :
      (W : WritesVms D) (w : World D P) (h : Hypervisor) (snap : InventorySnapshot)
      → Reports w h snap
      → HasDistinctIds snap.vms
      → (other : ℕ) (p : String)
      → D.row other p (run w).0.store ≡ row_after id snap.vms other p (D.row other p w.store)
  row-sync_inventory_now W w h snap r d other p =
      ap (D.row other p) (run_reported w h snap r).0
      ∙ row-write_snapshot D W clusters hosts id snap _ other p d
      ∙ ap (row_after id snap.vms other p) (row-write_connection D id connected w.store other p)

  -- After a synchronisation with a snapshot that has machines, each once, the application sees of
  -- the hypervisor's machines exactly the reported ones that were not soft-deleted before, and of
  -- the other hypervisors' machines those that it saw before.
  pub is_live-sync_inventory_now :
      (W : WritesVms D) (w : World D P) (h : Hypervisor) (snap : InventorySnapshot) (first : VmInfo)
      (rest : List VmInfo)
      → Reports w h snap
      → snap.vms ≡ first ∷ rest
      → HasDistinctIds snap.vms
      → (other : ℕ) (p : String)
      → is_live D other p (run w).0.store ≡ (
          if other == id
          then member p (provider_ids snap.vms) && not (is_retired D other p w.store)
          else is_live D other p w.store)
  unfolding is_live is_retired
  is_live-sync_inventory_now W w h snap first rest r some_vms d other p =
      ap live_row (row-sync_inventory_now W w h snap r d other p)
      ∙ rw some_vms (live_row-row_after id first rest other p (D.row other p w.store))

  session_failed :
      (w : World D P) (h : Hypervisor) (x : P.Session × (String ⊎ InventorySnapshot))
      (e : SyncError) (other : ℕ) (p : String)
      → (fetched D P id clusters hosts h w x).1 ≡ inl e
      → D.row other p (fetched D P id clusters hosts h w x).0.store ≡ D.row other p w.store
  unfolding fetched persist
  session_failed w h (s, inl msg) e other p ends = row-write_connection D id failed w.store other p
  session_failed w h (s, inr snap) e other p ends = absurd (ground arith)

  connection_failed :
      (w : World D P) (h : Hypervisor) (x : P.Session × Option String) (e : SyncError) (other : ℕ)
      (p : String)
      → (with_connection D P id contains clusters hosts h w x).1 ≡ inl e
      → D.row other p (with_connection D P id contains clusters hosts h w x).0.store
        ≡ D.row other p w.store
  unfolding with_connection report hang_up
  connection_failed w h (s, some msg) e other p ends =
      row-write_connection D id failed w.store other p
  connection_failed w h (s, none) e other p ends =
      session_failed _ h _ e other p ends ∙ row-write_connection D id connected w.store other p

  loaded_failed :
      (w : World D P) (x : String ⊎ Hypervisor) (e : SyncError) (other : ℕ) (p : String)
      → (sync_loaded D P id decrypt_secret text_value contains clusters hosts w x).1 ≡ inl e
      → D.row other p
          (sync_loaded D P id decrypt_secret text_value contains clusters hosts w x).0.store
        ≡ D.row other p w.store
  unfolding sync_loaded connect_and_sync report
  loaded_failed w (inl msg) e other p ends = refl
  loaded_failed w (inr h) e other p ends = elim (Bool-cases (P.is_registered h.provider)) [
    | inl b ↦ rw b (connection_failed _ h _ e other p (rw b at ends))
    | inr b ↦ rw b refl
  ]

  -- A synchronisation that ends in an error leaves every row of the machines as it was.
  pub row-sync_inventory_now_failed :
      (w : World D P) (e : SyncError) (h : ℕ) (p : String)
      → (run w).1 ≡ inl e
      → D.row h p (run w).0.store ≡ D.row h p w.store
  unfolding sync_inventory_now
  row-sync_inventory_now_failed w e h p ends = loaded_failed w _ e h p ends
