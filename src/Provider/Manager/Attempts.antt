-- ===== src/Provider/Manager/Attempts.antt =====
-- The manager's count of reconnects, and what hypervisors of one provider type share.
use vm_orbit.Base.{
  ℕ, suc, ◌≤◌, ◌<◌, ◌≡◌, refl, inl, inr, Bool, true, false, Option, none, some, List, [], ◌∷◌,
  arith, Bool-cases, ◌==◌, nat_eq, string_eq,
}
use vm_orbit.Base.Map.{lookup, lookup-insert, lookup-remove}
use vm_orbit.Inventory.{ProviderType}
use vm_orbit.Provider.Manager.{
  Drivers, ConnectionEntry, ManagerConfig, Manager, not_connected, disconnected, disconnect_entry,
  disconnect, provider_of_entry, get_provider, set_attempts, at_limit, reconnected, reconnect,
  check_entry, check_one, check_each, check_all, keys,
}

module _ (D : Drivers) (cfg : ManagerConfig) where
  abbrev IsBelow : Option ConnectionEntry → Type 0
  IsBelow none = Unit
  IsBelow (some entry) = entry.attempts ≤ cfg.max_reconnect_attempts

  -- No entry counts more reconnects than the limit.
  abbrev pub IsBounded : Manager D → Type 0
  IsBounded m = (h : ℕ) → IsBelow (lookup h m.connections)

  set_attempts-IsBounded :
      (h n : ℕ) (entry : ConnectionEntry) (m : Manager D) (s : D.Session)
      → n ≤ cfg.max_reconnect_attempts
      → IsBounded m
      → IsBounded (record { session = s; connections = set_attempts D h entry n m.connections })
  unfolding set_attempts
  set_attempts-IsBounded h n entry m s small bounded j = elim (Bool-cases (h == j)) [
    | inl b ↦ rw (lookup-insert, b) small
    | inr b ↦ rw (lookup-insert, b) (bounded j)
  ]

  reconnected-IsBounded :
      (h : ℕ) (entry : ConnectionEntry) (m : Manager D) (x : D.Session × Bool)
      → suc entry.attempts ≤ cfg.max_reconnect_attempts
      → IsBounded m
      → IsBounded (reconnected D cfg h entry m x)
  unfolding reconnected
  reconnected-IsBounded h entry m (s, false) small bounded =
      set_attempts-IsBounded h (suc entry.attempts) entry m s small bounded
  reconnected-IsBounded h entry m (s, true) small bounded =
      set_attempts-IsBounded h 0 entry m s (ground arith) bounded

  reconnect-IsBounded :
      (stops : Bool) (h : ℕ) (entry : ConnectionEntry) (m : Manager D)
      → 0 < cfg.max_reconnect_attempts
      → IsBounded m
      → IsBounded (reconnect D cfg stops h entry m)
  unfolding reconnect at_limit
  reconnect-IsBounded stops h entry m limited bounded =
      elim (Bool-cases (at_limit D cfg entry.attempts)) [
        | inl b ↦ rw b bounded
        | inr b ↦
            let small : suc entry.attempts ≤ cfg.max_reconnect_attempts = ground arith in
            elim (Bool-cases stops) [
              | inl c ↦
                  rw (b, c)
                    (set_attempts-IsBounded h (suc entry.attempts) entry m m.session small bounded)
              | inr c ↦ rw (b, c) (reconnected-IsBounded h entry m _ small bounded)
            ]
      ]

  check_entry-IsBounded :
      (stops : Bool) (h : ℕ) (o : Option ConnectionEntry) (m : Manager D)
      → 0 < cfg.max_reconnect_attempts
      → IsBounded m
      → IsBounded (check_entry D cfg stops h o m)
  unfolding check_entry
  check_entry-IsBounded stops h none m limited bounded = bounded
  check_entry-IsBounded stops h (some entry) m limited bounded =
      elim (Bool-cases (D.ping entry.provider m.session)) [
        | inl b ↦ rw b (set_attempts-IsBounded h 0 entry m m.session (ground arith) bounded)
        | inr b ↦ rw b (reconnect-IsBounded stops h entry m limited bounded)
      ]

  check_each-IsBounded :
      (stops : Bool) (hs : List ℕ) (m : Manager D)
      → 0 < cfg.max_reconnect_attempts
      → IsBounded m
      → IsBounded (check_each D cfg stops hs m)
  unfolding check_each check_one
  check_each-IsBounded stops [] m limited bounded = bounded
  check_each-IsBounded stops (h ∷ hs) m limited bounded =
      check_each-IsBounded stops hs _ limited (check_entry-IsBounded stops h _ m limited bounded)

  -- With a limit on reconnects, a round of health checks leaves no entry above it.
  check_all-IsBounded :
      (stops : Bool) (m : Manager D)
      → 0 < cfg.max_reconnect_attempts
      → IsBounded m
      → IsBounded (check_all D cfg stops m)
  unfolding check_all
  check_all-IsBounded stops m limited bounded =
      check_each-IsBounded stops (keys D cfg m.connections) m limited bounded

module _ (D : Drivers) where
  -- All hypervisors of a provider type use one provider object: when disconnecting that object
  -- leaves it disconnected, disconnecting one hypervisor leaves no other of the same type with a
  -- connected provider, although the other's entry is still there.
  pub get_provider-disconnect :
      (t : ProviderType) (a b : ℕ) (ea eb : ConnectionEntry) (m : Manager D)
      → ((s : D.Session) → D.is_connected t (D.disconnect t s).0 ≡ some false)
      → (a == b) ≡ false
      → lookup a m.connections ≡ some ea
      → lookup b m.connections ≡ some eb
      → ea.provider ≡ t
      → eb.provider ≡ t
      → (lookup b (disconnect D a m).0.connections ≡ some eb)
        × (get_provider D b (disconnect D a m).0 ≡ inl not_connected)
  unfolding disconnect disconnect_entry disconnected get_provider provider_of_entry
  get_provider-disconnect t a b ea eb m clears differ at_a at_b ta tb =
      rw at_a (rw (lookup-remove, differ, at_b) (refl, rw (ta, tb, clears m.session) refl))
