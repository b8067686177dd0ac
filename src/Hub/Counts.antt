-- ===== src/Hub/Counts.antt =====
-- The connections counted for each user: what keeps the count right, and what loses it.
use vm_orbit.Base.{some_inj}
use mathlib.Core.Path.{subst}
use vm_orbit.Hub.Safety.{unregister_known}
use vm_orbit.Base.{
  ℕ, suc, ◌≤◌, String, ◌≡◌, refl, sym, ◌∙◌, ◌⊎◌, inl, inr, true, false, some, List, [], ◌∷◌, arith,
  leb, if◌then◌else◌, Bool-cases, Option-cases, ◌==◌, nat_eq, string_eq, count_if,
}
use vm_orbit.Base.{member, add, delete, Distinct, member-delete}
use vm_orbit.Hub.{
  Client, Hub, send_capacity, register, drop_client, release_conn, unregister, send_message,
  deliver_one, deliver, disconnect, broadcast, targets, join_room, drain, Event, registers,
  unregisters, drains, joins, step,
}
use vm_orbit.Hub.Invariant.{Inv, dropped}

-- The clients of a user.
abbrev pub clients_of : (ℕ → Client) → String → List ℕ → ℕ
clients_of heap u cs = count_if (λ c. (heap c).user_id == u) cs

abbrev pub IsCounted : Hub → Type 0
IsCounted h = (u : String) → h.user_conns u ≡ clients_of h.heap u h.clients

clients_of-same :
    (heap heap' : ℕ → Client) (u : String) (cs : List ℕ)
    → ((c : ℕ) → (heap' c).user_id ≡ (heap c).user_id)
    → clients_of heap' u cs ≡ clients_of heap u cs
clients_of-same heap heap' u [] e = refl
clients_of-same heap heap' u (c ∷ cs) e = ground (arith, e c, clients_of-same heap heap' u cs e)

clients_of-delete_absent :
    (heap : ℕ → Client) (u : String) (c : ℕ) (cs : List ℕ) → member c cs ≡ false → delete c cs ≡ cs
unfolding member delete
clients_of-delete_absent heap u c [] m = refl
clients_of-delete_absent heap u c (x ∷ cs) m = ground (arith, clients_of-delete_absent heap u c cs)

clients_of-delete :
    (heap : ℕ → Client) (u : String) (c : ℕ) (cs : List ℕ)
    → Distinct cs
    → member c cs ≡ true
    → clients_of heap u cs ≡ (
        if (heap c).user_id == u
        then suc (clients_of heap u (delete c cs))
        else clients_of heap u (delete c cs))
unfolding member delete
clients_of-delete heap u c [] d m = cc
clients_of-delete heap u c (x ∷ cs) d m =
    ground (arith, clients_of-delete heap u c cs d.1, clients_of-delete_absent heap u c cs)

register-IsCounted :
    (c : ℕ) (h : Hub) → member c h.clients ≡ false → IsCounted h → IsCounted (register c h)
unfolding register add
register-IsCounted c h m k u = ground (arith, k u, string_eq.same_iff (h.heap c).user_id u)

dropped-user_id : (c j : ℕ) (h : Hub) → ((dropped c h).heap j).user_id ≡ (h.heap j).user_id
unfolding dropped
dropped-user_id c j h = ground arith

release_conn-IsCounted :
    (c : ℕ) (h : Hub)
    → Inv h
    → member c h.clients ≡ true
    → IsCounted h
    → IsCounted (release_conn (h.heap c).user_id (dropped c h))
unfolding release_conn dropped
release_conn-IsCounted c h v known k u = ground (
  arith,
  k u,
  k (h.heap c).user_id,
  clients_of-delete h.heap u c h.clients v.clients_distinct known,
  clients_of-same h.heap (dropped c h).heap u (delete c h.clients) (λ j. dropped-user_id c j h),
  string_eq.same_iff (h.heap c).user_id u,
)

unregister-IsCounted :
    (c : ℕ) (h : Hub) {h' : Hub} → Inv h → IsCounted h → unregister c h ≡ some h' → IsCounted h'
unregister-IsCounted c h {h'} v k e = elim (Bool-cases (member c h.clients)) [
  | inl known ↦
      let same : release_conn (h.heap c).user_id (dropped c h) ≡ h' =
        some_inj (sym (unregister_known c h v known) ∙ e) in
      subst IsCounted same (release_conn-IsCounted c h v known k)
  | inr unknown ↦
      let same : h ≡ h' = some_inj (unfold unregister in rw unknown at e) in subst IsCounted same k
]

-- What happens to the connections when no client is dropped as too slow.
pub data Ordinary : Event → Hub → Type 0 where
  registers_new : {c : ℕ} {h : Hub} → member c h.clients ≡ false → Ordinary (registers c) h
  unregisters_any : {c : ℕ} {h : Hub} → Ordinary (unregisters c) h
  drains_any : {c : ℕ} {h : Hub} → Ordinary (drains c) h
  joins_any : {c : ℕ} {r : String} {h : Hub} → Ordinary (joins c r) h

join_room-IsCounted : (c : ℕ) (r : String) (h : Hub) → IsCounted h → IsCounted (join_room c r h)
unfolding join_room
join_room-IsCounted c r h k u =
    k u ∙ sym (clients_of-same h.heap (join_room c r h).heap u h.clients (λ j. ground arith))

drain-IsCounted : (c : ℕ) (h : Hub) → IsCounted h → IsCounted (drain c h)
unfolding drain
drain-IsCounted c h k u =
    k u ∙ sym (clients_of-same h.heap (drain c h).heap u h.clients (λ j. ground arith))

-- Registering a new client, unregistering one, joining a room and reading a message each keep
-- every user's connection count equal to the number of that user's clients.
pub step-IsCounted :
    (e : Event) (h h' : Hub)
    → Ordinary e h
    → Inv h
    → IsCounted h
    → step e h ≡ some h'
    → IsCounted h'
unfolding step
step-IsCounted e h h' (registers_new {c = c} m) v k r =
    subst IsCounted (some_inj r) (register-IsCounted c h m k)
step-IsCounted e h h' (unregisters_any {c = c}) v k r = unregister-IsCounted c h v k r
step-IsCounted e h h' (drains_any {c = c}) v k r =
    subst IsCounted (some_inj r) (drain-IsCounted c h k)
step-IsCounted e h h' (joins_any {c = c} {r = room}) v k r =
    subst IsCounted (some_inj r) (join_room-IsCounted c room h k)

disconnect_conns :
    (cs : List ℕ) (h h' : Hub) → disconnect cs h ≡ some h' → h'.user_conns ≡ h.user_conns
unfolding disconnect drop_client dropped
disconnect_conns [] h h' e = ground arith
disconnect_conns (c ∷ cs) h h' e = ground (arith, disconnect_conns cs (dropped c h) h')

disconnect_absent :
    (j : ℕ) (cs : List ℕ) (h h' : Hub)
    → disconnect cs h ≡ some h'
    → (member j cs ≡ true) ⊎ (member j h.clients ≡ false)
    → member j h'.clients ≡ false
unfolding disconnect drop_client dropped member
disconnect_absent j [] h h' e m = ground arith
disconnect_absent j (c ∷ cs) h h' e m =
    ground (arith, disconnect_absent j cs (dropped c h) h', member-delete c j h.clients)

deliver-cons :
    (c : ℕ) (cs : List ℕ) (h h' : Hub) (slow : List ℕ)
    → deliver (c ∷ cs) h ≡ some (h', slow)
    → (rest : List ℕ) × (deliver cs (deliver_one c h) ≡ some (h', rest))
      × (slow ≡ (if leb send_capacity (h.heap c).buffered then c ∷ rest else rest))
unfolding deliver
deliver-cons c cs h h' slow e = elim (Option-cases (deliver cs (deliver_one c h))) [
  | inl failed ↦ absurd (ground arith)
  | inr ((h1, rest), ok) ↦ (rest, ground arith, ground arith)
]

deliver_conns :
    (cs : List ℕ) (h h' : Hub) (slow : List ℕ)
    → deliver cs h ≡ some (h', slow)
    → h'.user_conns ≡ h.user_conns
unfolding deliver_one send_message
deliver_conns [] h h' slow e = unfold deliver in ground arith
deliver_conns (c ∷ cs) h h' slow e =
    let (rest, ok, _) = deliver-cons c cs h h' slow e in
    ground (arith, deliver_conns cs (deliver_one c h) h' rest ok)

deliver_slow :
    (j : ℕ) (cs : List ℕ) (h h' : Hub) (slow : List ℕ)
    → deliver cs h ≡ some (h', slow)
    → member j cs ≡ true
    → leb send_capacity (h.heap j).buffered ≡ true
    → member j slow ≡ true
unfolding member deliver_one send_message
deliver_slow j [] h h' slow e m full = cc
deliver_slow j (c ∷ cs) h h' slow e m full =
    let (rest, ok, made) = deliver-cons c cs h h' slow e in
    ground (arith, ok, made, deliver_slow j cs (deliver_one c h) h' rest ok)

unregister_unknown : (c : ℕ) (h : Hub) → member c h.clients ≡ false → unregister c h ≡ some h
unfolding unregister
unregister_unknown c h m = rw m refl

-- A client whose channel is full when a broadcast reaches it is taken out of the clients, but its
-- user's connection count is not lowered, and its later unregistration changes nothing.
pub broadcast_leaks :
    (room : String) (c : ℕ) (h h' : Hub)
    → member c (targets room h) ≡ true
    → send_capacity ≤ (h.heap c).buffered
    → broadcast room h ≡ some h'
    → (member c h'.clients ≡ false) × (h'.user_conns ≡ h.user_conns) × (unregister c h' ≡ some h')
unfolding broadcast
broadcast_leaks room c h h' m full e = elim (Option-cases (deliver (targets room h) h)) [
  | inl failed ↦ absurd (ground arith)
  | inr ((h1, slow), ok) ↦
      let dropped_all : disconnect slow h1 ≡ some h' = rw (ok, broadcast) at e in
      let marked = deliver_slow c (targets room h) h h1 slow ok m (ground arith) in
      let gone = disconnect_absent c slow h1 h' dropped_all (inl marked) in
      (
        gone,
        disconnect_conns slow h1 h' dropped_all ∙ deliver_conns (targets room h) h h1 slow ok,
        unregister_unknown c h' gone,
      )
]
