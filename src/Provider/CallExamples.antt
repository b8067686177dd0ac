-- ===== src/Provider/CallExamples.antt =====
-- Repeated calls and the manager's connections at concrete inputs.
use vm_orbit.Base.{
  ℕ, ◌*◌, ◌≤◌, ◌≡◌, refl, inl, inr, Bool, true, false, none, some, [], ◌∷◌, arith, ltb,
  if◌then◌else◌, Bool-cases, ◌==◌, nat_eq, string_eq, pos, negsuc,
}
use vm_orbit.Base.Map.{lookup}
use vm_orbit.Inventory.{vmware, Credentials}
use vm_orbit.Provider.Retry.{RetryConfig, Call, call, with_retry, second}
use vm_orbit.Provider.Retry.Calls.{with_retry_lem}
use vm_orbit.Provider.Manager.{
  Drivers, ConnectionEntry, Manager, not_connected, disconnect, get_provider,
}
use vm_orbit.Provider.Manager.Attempts.{get_provider-disconnect, IsBounded}

abbrev config : RetryConfig
config = record {
  max_attempts = pos 3;
  base_delay = second;
  max_delay = 10 * second;
  should_retry = none;
}

-- The first two calls fail.
abbrev answer : ℕ → Call
answer n = if ltb n 3 then call (some "busy") none none else call none none none

with_retry_lem_example :
    let r = with_retry (negsuc 0) config answer in
    (r.calls ≡ 3) × (r.calls ≤ 3) × (r.error ≡ none) × (r.pauses ≡ 1 * second ∷ 2 * second ∷ [])
with_retry_lem_example = with_retry_lem (negsuc 0) config answer

-- A provider that is connected or not, and whose pings fail.
abbrev drivers : Drivers
drivers = record {
  Session = Bool;
  is_registered = λ t. true;
  connect = λ t c s. (s, false);
  disconnect = λ t s. (false, true);
  ping = λ t s. false;
  is_connected = λ t s. some s;
  capabilities = λ t. record { console = false };
  has_console = λ t. false;
}

abbrev creds : Credentials
creds = record {
  host = "h";
  port = 443;
  username = "u";
  password = "p";
  token = "";
  tls_verify = true;
}

abbrev entry : ℕ → ConnectionEntry
entry n = record { provider = vmware; creds = creds; attempts = n }

abbrev manager : Manager drivers
manager = record { session = true; connections = (1, entry 5) ∷ (2, entry 0) ∷ [] }

get_provider-disconnect_example :
    (lookup 2 (disconnect drivers 1 manager).0.connections ≡ some (entry 0))
    × (get_provider drivers 2 (disconnect drivers 1 manager).0 ≡ inl not_connected)
unfolding lookup
get_provider-disconnect_example =
    get_provider-disconnect drivers vmware 1 2 (entry 5) (entry 0) manager (λ s. refl) refl refl
      refl refl refl

abbrev empty_manager : Manager drivers
empty_manager = record { session = true; connections = (1, entry 4) ∷ [] }

four_below : IsBounded drivers (record { max_reconnect_attempts = 5 }) empty_manager
unfolding lookup
four_below h = elim (Bool-cases (1 == h)) [ inl b ↦ rw b (ground arith) | inr b ↦ rw b tt ]
