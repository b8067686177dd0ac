-- ===== src/Inventory/Memory.antt =====
-- Tables in memory that answer as Inventory/Database.antt asks, for tests: a list of rows, and the
-- hypervisors with their connection status. Statements on the other tables change nothing here.
use vm_orbit.Base.{
  ℕ, String, ◌≡◌, refl, sym, ap, ◌∙◌, ◌⊎◌, inl, inr, Bool, true, false, not, ◌&&◌, ◌||◌, Option,
  none, some, List, [], ◌∷◌, arith, if◌then◌else◌, inr_inj, ◌==◌, nat_eq, string_eq, count_if,
}
use vm_orbit.Inventory.{Hypervisor, ConnectionStatus, Vm}
use vm_orbit.Inventory.Database.{
  Database, VmRow, has_key, find_vm, HasDistinctKeys, KeepsKeys, written, soft_deleted,
}
use vm_orbit.Inventory.Rows.{WritesVms}

pub record Tables : Type 0 where
  pub rows : List VmRow
  pub hypervisors : List Hypervisor

abbrev pub find_row : ℕ → String → List VmRow → Option VmRow
find_row h p [] = none
find_row h p (r ∷ rs) = if has_key h p r.vm then some r else find_row h p rs

abbrev pub put : (Vm → Vm → Vm) → Vm → List VmRow → List VmRow
put assign v [] = record { vm = v; deleted = false } ∷ []
put assign v (r ∷ rs) =
    let rest = put assign v rs in
    if has_key v.hypervisor_id v.provider_vm_id r.vm
    then record { vm = assign r.vm v; deleted = r.deleted } ∷ rs
    else r ∷ rest

abbrev pub put_all : (Vm → Vm → Vm) → List Vm → List VmRow → List VmRow
put_all assign [] rs = rs
put_all assign (v ∷ vs) rs = put_all assign vs (put assign v rs)

abbrev pub hide : (Vm → Bool) → List VmRow → List VmRow
hide q [] = []
hide q (r ∷ rs) = record { vm = r.vm; deleted = r.deleted || q r.vm } ∷ hide q rs

abbrev pub find_hypervisor : ℕ → List Hypervisor → String ⊎ Hypervisor
find_hypervisor id [] = inl "record not found"
find_hypervisor id (h ∷ hs) = if h.id == id then inr h else find_hypervisor id hs

abbrev pub set_status : ℕ → ConnectionStatus → List Hypervisor → List Hypervisor
set_status id c [] = []
set_status id c (h ∷ hs) =
    (if h.id == id then record h { connection_status = c } else h) ∷ set_status id c hs

pub find_row_key :
    (rs : List VmRow) (h : ℕ) (p : String) (r : VmRow)
    → find_row h p rs ≡ some r
    → (r.vm.hypervisor_id ≡ h) × (r.vm.provider_vm_id ≡ p)
unfolding has_key
find_row_key [] h p r e = absurd (ground arith)
find_row_key (q ∷ rs) h p r e = ground (
  arith,
  find_row_key rs h p r,
  nat_eq.same_iff q.vm.hypervisor_id h,
  string_eq.same_iff q.vm.provider_vm_id p,
)

find_row-put :
    (assign : Vm → Vm → Vm) (v : Vm) (rs : List VmRow) (h : ℕ) (p : String)
    → KeepsKeys assign
    → find_row h p (put assign v rs)
      ≡ (if has_key h p v then written assign (some v) (find_row h p rs) else find_row h p rs)
unfolding has_key written
find_row-put assign v [] h p keeps = ground arith
find_row-put assign v (r ∷ rs) h p keeps = ground (
  arith,
  find_row-put assign v rs h p keeps,
  keeps r.vm v,
  nat_eq.same_iff r.vm.hypervisor_id v.hypervisor_id,
  string_eq.same_iff r.vm.provider_vm_id v.provider_vm_id,
  nat_eq.same_iff v.hypervisor_id h,
  string_eq.same_iff v.provider_vm_id p,
  nat_eq.same_iff r.vm.hypervisor_id h,
  string_eq.same_iff r.vm.provider_vm_id p,
)

find_vm_other :
    (v : Vm) (vs : List Vm) (h : ℕ) (p : String)
    → has_key h p v ≡ true
    → find_vm v.hypervisor_id v.provider_vm_id vs ≡ none
    → find_vm h p vs ≡ none
unfolding has_key
find_vm_other v vs h p k f =
    ground (arith, nat_eq.same_iff v.hypervisor_id h, string_eq.same_iff v.provider_vm_id p)

pub find_row-put_all :
    (assign : Vm → Vm → Vm) (vs : List Vm) (rs : List VmRow) (h : ℕ) (p : String)
    → KeepsKeys assign
    → HasDistinctKeys vs
    → find_row h p (put_all assign vs rs) ≡ written assign (find_vm h p vs) (find_row h p rs)
unfolding find_vm written
find_row-put_all assign [] rs h p keeps d = refl
find_row-put_all assign (v ∷ vs) rs h p keeps d = ground (
  arith,
  find_row-put_all assign vs (put assign v rs) h p keeps d.1,
  find_row-put assign v rs h p keeps,
  find_vm_other v vs h p,
)

pub find_row-hide :
    (q : Vm → Bool) (rs : List VmRow) (h : ℕ) (p : String)
    → find_row h p (hide q rs) ≡ soft_deleted q (find_row h p rs)
unfolding has_key soft_deleted
find_row-hide q [] h p = refl
find_row-hide q (r ∷ rs) h p = ground (arith, find_row-hide q rs h p)

abbrev pub memory : Database
memory = record {
  State = Tables;
  row = λ h p s. find_row h p s.rows;
  hypervisor = λ id s. find_hypervisor id s.hypervisors;
  set_connection = λ id c s. inr (record s { hypervisors = set_status id c s.hypervisors });
  insert_vms = λ assign vms s. inr (record s { rows = put_all assign vms s.rows });
  delete_vms = λ q s.
      inr (record s { rows = hide q s.rows }, count_if (λ r. not r.deleted && q r.vm) s.rows);
  insert_data_stores = λ id ds s. inr s;
  insert_networks = λ id ns s. inr s;
  insert_clusters = λ id cs s. inr s;
  clusters_of = λ id s. inr [];
  insert_hosts = λ id hs s. inr s;
  count_vms_of_hosts = λ id s. inr s;
  row-insert_vms = λ assign vms s t h p e keeps d.
      ap (λ (x : Tables). find_row h p x.rows) (sym (inr_inj e))
      ∙ find_row-put_all assign vms s.rows h p keeps d;
  row-delete_vms = λ q s t n h p e.
      ap (λ (x : Tables × ℕ). find_row h p x.0.rows) (sym (inr_inj e)) ∙ find_row-hide q s.rows h p;
  row_key = λ s h p r e. find_row_key s.rows h p r e;
  row-set_connection = λ id c s t h p e. ap (λ (x : Tables). find_row h p x.rows) (sym (inr_inj e));
  row-insert_data_stores =
      λ id ds s t h p e. ap (λ (x : Tables). find_row h p x.rows) (sym (inr_inj e));
  row-insert_networks =
      λ id ds s t h p e. ap (λ (x : Tables). find_row h p x.rows) (sym (inr_inj e));
  row-insert_clusters =
      λ id ds s t h p e. ap (λ (x : Tables). find_row h p x.rows) (sym (inr_inj e));
  row-insert_hosts = λ id ds s t h p e. ap (λ (x : Tables). find_row h p x.rows) (sym (inr_inj e));
  row-count_vms_of_hosts =
      λ id s t h p e. ap (λ (x : Tables). find_row h p x.rows) (sym (inr_inj e));
}

pub memory-WritesVms : WritesVms memory
memory-WritesVms = record { inserts = λ vms s. (_, refl); deletes = λ q s. (_, refl) }
