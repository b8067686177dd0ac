-- ===== src/Provider/Manager.antt =====
-- internal/provider/registry.go and internal/provider/manager.go: the registry holds one provider
-- object per type, and the manager keeps a connection entry per hypervisor, which it checks and
-- reconnects. The providers are a parameter; `Session` is the state of their objects. A failed call
-- is `false`.
pub mod Attempts
use vm_orbit.Base.{
  ℕ, suc, ◌⊎◌, inl, inr, Bool, true, false, not, ◌&&◌, Option, none, some, List, [], ◌∷◌, ltb, leb,
  if◌then◌else◌, or_else, Eq, nat_eq, string_eq,
}
use vm_orbit.Base.Map.{Map, lookup, insert, remove}
use vm_orbit.Inventory.{ProviderType, Credentials}

-- Register panics on a type that is already there; `none` is the panic.
unfoldable pub register :
    {P : Type 0} ⦃e : Eq ProviderType⦄
    → ProviderType
    → P
    → Map ProviderType P
    → Option (Map ProviderType P)
register t p r = elim (lookup t r) [ none ↦ some (insert t p r) | some old ↦ none ]

-- The capability flags that the manager reads.
pub record Capabilities : Type 0 where
  pub console : Bool

pub record Drivers : Type 1 where
  pub Session : Type 0
  pub is_registered : ProviderType → Bool
  pub connect : ProviderType → Credentials → Session → Session × Bool
  pub disconnect : ProviderType → Session → Session × Bool
  pub ping : ProviderType → Session → Bool
  -- none for a provider that has no IsConnected method.
  pub is_connected : ProviderType → Session → Option Bool
  pub capabilities : ProviderType → Capabilities
  pub has_console : ProviderType → Bool

pub record ConnectionEntry : Type 0 where
  pub provider : ProviderType
  pub creds : Credentials
  pub attempts : ℕ

-- A limit of 0 attempts is none.
pub record ManagerConfig : Type 0 where
  pub max_reconnect_attempts : ℕ

pub record Manager (D : Drivers) : Type 0 where
  pub session : D.Session
  pub connections : Map ℕ ConnectionEntry

pub data ManagerError : Type 0 where
  not_registered connect_failed disconnect_failed not_connected unsupported not_implemented :
      ManagerError

module _ (D : Drivers) where
  unfoldable pub connected :
      ℕ
      → ProviderType
      → Credentials
      → Manager D
      → D.Session × Bool
      → Manager D × Option ManagerError
  connected h t creds m (s, false) = (record m { session = s }, some connect_failed)
  connected h t creds m (s, true) = (
    record {
      session = s;
      connections = insert h (record { provider = t; creds = creds; attempts = 0 }) m.connections;
    },
    none,
  )

  unfoldable pub connect :
      ℕ → ProviderType → Credentials → Manager D → Manager D × Option ManagerError
  connect h t creds m =
      if D.is_registered t
      then connected h t creds m (D.connect t creds m.session)
      else (m, some not_registered)

  unfoldable pub disconnected :
      Map ℕ ConnectionEntry → D.Session × Bool → Manager D × Option ManagerError
  disconnected rest (s, ok) =
      (record { session = s; connections = rest }, if ok then none else some disconnect_failed)

  unfoldable pub disconnect_entry :
      ℕ → Option ConnectionEntry → Manager D → Manager D × Option ManagerError
  disconnect_entry h none m = (m, none)
  disconnect_entry h (some entry) m =
      disconnected (remove h m.connections) (D.disconnect entry.provider m.session)

  unfoldable pub disconnect : ℕ → Manager D → Manager D × Option ManagerError
  disconnect h m = disconnect_entry h (lookup h m.connections) m

  unfoldable pub provider_of_entry :
      Option ConnectionEntry → D.Session → ManagerError ⊎ ProviderType
  provider_of_entry none s = inl not_connected
  provider_of_entry (some entry) s =
      if or_else (D.is_connected entry.provider s) true
      then inr entry.provider
      else inl not_connected

  unfoldable pub get_provider : ℕ → Manager D → ManagerError ⊎ ProviderType
  get_provider h m = provider_of_entry (lookup h m.connections) m.session

  unfoldable pub console_of : ManagerError ⊎ ProviderType → ManagerError ⊎ ProviderType
  console_of (inl e) = inl e
  console_of (inr t) =
      if not (D.capabilities t).console
      then inl unsupported
      else if D.has_console t
      then inr t
      else inl not_implemented

  unfoldable pub get_console_provider : ℕ → Manager D → ManagerError ⊎ ProviderType
  get_console_provider h m = console_of (get_provider h m)

  unfoldable pub capabilities_of : ManagerError ⊎ ProviderType → ManagerError ⊎ Capabilities
  capabilities_of (inl e) = inl e
  capabilities_of (inr t) = inr (D.capabilities t)

  unfoldable pub capabilities : ℕ → Manager D → ManagerError ⊎ Capabilities
  capabilities h m = capabilities_of (get_provider h m)

  unfoldable pub require : (Capabilities → Bool) → ManagerError ⊎ Capabilities → Option ManagerError
  require check (inl e) = some e
  require check (inr c) = if check c then none else some unsupported

  unfoldable pub require_capability : ℕ → (Capabilities → Bool) → Manager D → Option ManagerError
  require_capability h check m = require check (capabilities h m)

  unfoldable pub set_attempts :
      ℕ → ConnectionEntry → ℕ → Map ℕ ConnectionEntry → Map ℕ ConnectionEntry
  set_attempts h entry n connections = insert h (record entry { attempts = n }) connections

  module _ (cfg : ManagerConfig) where
    unfoldable pub at_limit : ℕ → Bool
    at_limit attempts = ltb 0 cfg.max_reconnect_attempts && leb cfg.max_reconnect_attempts attempts

    unfoldable pub reconnected : ℕ → ConnectionEntry → Manager D → D.Session × Bool → Manager D
    reconnected h entry m (s, false) = record {
      session = s;
      connections = set_attempts h entry (suc entry.attempts) m.connections;
    }
    reconnected h entry m (s, true) = record {
      session = s;
      connections = set_attempts h entry 0 m.connections;
    }

    -- `stops` is whether the context ends during the wait before the attempt.
    unfoldable pub reconnect : Bool → ℕ → ConnectionEntry → Manager D → Manager D
    reconnect stops h entry m =
        if at_limit entry.attempts
        then m
        else if stops
        then record m { connections = set_attempts h entry (suc entry.attempts) m.connections }
        else reconnected h entry m (D.connect entry.provider entry.creds m.session)

    unfoldable pub check_entry : Bool → ℕ → Option ConnectionEntry → Manager D → Manager D
    check_entry stops h none m = m
    check_entry stops h (some entry) m =
        if D.ping entry.provider m.session
        then record m { connections = set_attempts h entry 0 m.connections }
        else reconnect stops h entry m

    unfoldable pub check_one : Bool → ℕ → Manager D → Manager D
    check_one stops h m = check_entry stops h (lookup h m.connections) m

    unfoldable pub check_each : Bool → List ℕ → Manager D → Manager D
    check_each stops [] m = m
    check_each stops (h ∷ hs) m = check_each stops hs (check_one stops h m)

    abbrev pub keys : Map ℕ ConnectionEntry → List ℕ
    keys [] = []
    keys ((h, entry) ∷ m) = h ∷ keys m

    unfoldable pub check_all : Bool → Manager D → Manager D
    check_all stops m = check_each stops (keys m.connections) m
