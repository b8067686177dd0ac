-- ===== src/Hub/Safety.antt =====
-- Runs of the event loop: whether they end, or panic.

use vm_orbit.Base.{
  ℕ, String, ◌≡◌, refl, ◌∙◌, ◌≢◌, inl, inr, true, false, none, some, List, [], ◌∷◌, arith, ltb, leb,
  if◌then◌else◌, Bool-cases, nat_eq, string_eq, beq_refl,
}
use vm_orbit.Base.{member, Distinct, member-add}
use vm_orbit.Hub.{
  Hub, send_capacity, new_hub, register, release_conn, unregister, send_message, deliver_one,
  deliver, disconnect, broadcast, targets, join_room, drain, Event, registers, unregisters, drains,
  broadcasts, joins, step, run,
}
use vm_orbit.Hub.Invariant.{
  Inv, new_hub-Inv, register-Inv, join_room-Inv, drain-Inv, dropped, drop_client-dropped,
  dropped-Inv, dropped-is_closed,
}

send_message-Inv : (c : ℕ) (h : Hub) → Inv h → Inv (send_message c h)
unfolding send_message
send_message-Inv c h v = record {
  clients_open = λ j m. ground (arith, v.clients_open j);
  members_open = λ r j m. ground (arith, v.members_open r j);
  tracked = λ r j m. ground (arith, v.tracked r j);
  clients_distinct = v.clients_distinct;
  rooms_distinct = v.rooms_distinct;
}

send_message-is_closed :
    (c j : ℕ) (h : Hub) → ((send_message c h).heap j).is_closed ≡ (h.heap j).is_closed
unfolding send_message
send_message-is_closed c j h = ground arith

abbrev AreOpen : List ℕ → Hub → Type 0
AreOpen cs h = (c : ℕ) → member c cs ≡ true → (h.heap c).is_closed ≡ false

record Delivered (cs : List ℕ) (h : Hub) : Type 0 where
  after : Hub
  slow : List ℕ
  result : deliver cs h ≡ some (after, slow)
  inv : Inv after
  unchanged : (c : ℕ) → (after.heap c).is_closed ≡ (h.heap c).is_closed
  from_targets : (c : ℕ) → member c slow ≡ true → member c cs ≡ true
  distinct : Distinct cs → Distinct slow

deliver_one-Inv : (c : ℕ) (h : Hub) → Inv h → Inv (deliver_one c h)
unfolding deliver_one
deliver_one-Inv c h v = elim (Bool-cases (leb send_capacity (h.heap c).buffered)) [
  | inl full ↦ rw full v
  | inr room ↦ rw room (send_message-Inv c h v)
]

deliver_one-is_closed :
    (c j : ℕ) (h : Hub) → ((deliver_one c h).heap j).is_closed ≡ (h.heap j).is_closed
unfolding deliver_one
deliver_one-is_closed c j h = ground (arith, send_message-is_closed c j h)

deliver-cons :
    (c : ℕ) (cs : List ℕ) (h : Hub) {h' : Hub} {slow : List ℕ}
    → (h.heap c).is_closed ≡ false
    → deliver cs (deliver_one c h) ≡ some (h', slow)
    → deliver (c ∷ cs) h
      ≡ some (h', if leb send_capacity (h.heap c).buffered then c ∷ slow else slow)
unfolding deliver
deliver-cons c cs h o e = rw (o, e, deliver) refl

deliver-Delivered : (cs : List ℕ) (h : Hub) → AreOpen cs h → Inv h → Delivered cs h
unfolding member
deliver-Delivered [] h o v = record {
  after = h;
  slow = [];
  result = unfold deliver in refl;
  inv = v;
  unchanged = λ c. refl;
  from_targets = λ c m. m;
  distinct = λ d. tt;
}
deliver-Delivered (c ∷ cs) h o v =
    let d =
      deliver-Delivered cs (deliver_one c h)
        (λ j m. deliver_one-is_closed c j h ∙ o j (ground arith)) (deliver_one-Inv c h v) in
    record {
      after = d.after;
      slow = if leb send_capacity (h.heap c).buffered then c ∷ d.slow else d.slow;
      result = deliver-cons c cs h (o c (ground arith)) d.result;
      inv = d.inv;
      unchanged = λ j. d.unchanged j ∙ deliver_one-is_closed c j h;
      from_targets = λ j m. ground (arith, d.from_targets j);
      distinct = λ k. ground (arith, d.distinct k.1, d.from_targets c);
    }

dropped-AreOpen :
    (c : ℕ) (cs : List ℕ) (h : Hub)
    → member c cs ≡ false
    → AreOpen (c ∷ cs) h
    → AreOpen cs (dropped c h)
unfolding member
dropped-AreOpen c cs h d o j m = ground (arith, dropped-is_closed c j h, o j)

-- Distinct open clients can all be disconnected.
disconnect-Inv :
    (cs : List ℕ) (h : Hub)
    → Distinct cs
    → AreOpen cs h
    → Inv h
    → (h' : Hub) × (disconnect cs h ≡ some h') × Inv h'
unfolding disconnect
disconnect-Inv [] h d o v = (h, refl, v)
disconnect-Inv (c ∷ cs) h d o v =
    let open_c = o c (unfold member in ground arith) in
    let (h', e, v') =
      disconnect-Inv cs (dropped c h) d.1 (dropped-AreOpen c cs h d.0 o) (dropped-Inv c h v) in
    (h', rw (drop_client-dropped c h open_c, disconnect) e, v')

targets-AreOpen : (room : String) (h : Hub) → Inv h → AreOpen (targets room h) h
targets-AreOpen room h v c m = ground (arith, v.clients_open c, v.members_open room c)

targets-Distinct : (room : String) (h : Hub) → Inv h → Distinct (targets room h)
targets-Distinct room h v = ground (arith, v.clients_distinct, v.rooms_distinct room)

broadcast-Inv :
    (room : String) (h : Hub) → Inv h → (h' : Hub) × (broadcast room h ≡ some h') × Inv h'
unfolding broadcast
broadcast-Inv room h v =
    let o = targets-AreOpen room h v in
    let d = deliver-Delivered (targets room h) h o v in
    let still : AreOpen d.slow d.after = λ c m. d.unchanged c ∙ o c (d.from_targets c m) in
    let (h', e, v') =
      disconnect-Inv d.slow d.after (d.distinct (targets-Distinct room h v)) still d.inv in
    (h', rw (d.result, broadcast) e, v')

release_conn-Inv : (u : String) (h : Hub) → Inv h → Inv (release_conn u h)
unfolding release_conn
release_conn-Inv u h v = elim (Bool-cases (ltb 0 (h.user_conns u))) [
  | inl some_left ↦ rw some_left (record {
    clients_open = v.clients_open;
    members_open = v.members_open;
    tracked = v.tracked;
    clients_distinct = v.clients_distinct;
    rooms_distinct = v.rooms_distinct;
  })
  | inr none_left ↦ rw none_left v
]

unregister-Inv : (c : ℕ) (h : Hub) → Inv h → (h' : Hub) × (unregister c h ≡ some h') × Inv h'
unfolding unregister
unregister-Inv c h v = elim (Bool-cases (member c h.clients)) [
  | inl known ↦
      let u = (h.heap c).user_id in
      (
        release_conn u (dropped c h),
        rw (known, drop_client-dropped c h (v.clients_open c known)) refl,
        release_conn-Inv u (dropped c h) (dropped-Inv c h v),
      )
  | inr unknown ↦ (h, rw unknown refl, v)
]

pub unregister_known :
    (c : ℕ) (h : Hub)
    → Inv h
    → member c h.clients ≡ true
    → unregister c h ≡ some (release_conn (h.heap c).user_id (dropped c h))
unfolding unregister
unregister_known c h v known = rw (known, drop_client-dropped c h (v.clients_open c known)) refl

-- What the rest of the program owes the hub: a client is registered, and joins a room, only while
-- its channel is open.
abbrev pub IsLegal : Event → Hub → Type 0
IsLegal (registers c) h = (h.heap c).is_closed ≡ false
IsLegal (joins c room) h = (h.heap c).is_closed ≡ false
IsLegal _ h = Unit

step-Inv : (e : Event) (h : Hub) → IsLegal e h → Inv h → (h' : Hub) × (step e h ≡ some h') × Inv h'
unfolding step
step-Inv (registers c) h l v = (register c h, refl, register-Inv c h l v)
step-Inv (unregisters c) h l v = unregister-Inv c h v
step-Inv (drains c) h l v = (drain c h, refl, drain-Inv c h v)
step-Inv (broadcasts room) h l v = broadcast-Inv room h v
step-Inv (joins c room) h l v = (join_room c room h, refl, join_room-Inv c room h l v)

-- Each event of a list is legal in the hub that the ones before it leave.
abbrev pub AreLegal : List Event → Hub → Type 0
AreLegal [] h = Unit
AreLegal (e ∷ es) h = IsLegal e h × ((h' : Hub) → step e h ≡ some h' → AreLegal es h')

run-Inv :
    (es : List Event) (h : Hub) → AreLegal es h → Inv h → (h' : Hub) × (run es h ≡ some h') × Inv h'
unfolding run
run-Inv [] h l v = (h, refl, v)
run-Inv (e ∷ es) h l v =
    let (h1, e1, v1) = step-Inv e h l.0 v in
    let (h2, e2, v2) = run-Inv es h1 (l.1 h1 e1) v1 in (h2, rw (e1, run) e2, v2)

-- From a hub with no clients, every sequence of events in which clients are registered and join
-- rooms only while their channels are open runs to its end with no panic, and leaves each known
-- client and each member of a room with an open channel.
pub run-Inv_of_new :
    (user_of : ℕ → String) (es : List Event)
    → AreLegal es (new_hub user_of)
    → (h : Hub) × (run es (new_hub user_of) ≡ some h) × Inv h
run-Inv_of_new user_of es l = run-Inv es (new_hub user_of) l (new_hub-Inv user_of)

deliver_closed :
    (c : ℕ) (cs : List ℕ) (h : Hub)
    → member c cs ≡ true
    → (h.heap c).is_closed ≡ true
    → deliver cs h ≡ none
unfolding deliver member
deliver_closed c [] h m o = cc
deliver_closed c (x ∷ cs) h m o =
    ground (arith, deliver_closed c cs (deliver_one x h), deliver_one-is_closed x c h)

-- A client that has been dropped and then joins a room, as its reader still may, makes the next
-- broadcast to that room panic.
pub join-broadcast_panics :
    (c : ℕ) (room : String) (h : Hub)
    → room ≢ ""
    → (h.heap c).is_closed ≡ true
    → run (joins c room ∷ broadcasts room ∷ []) h ≡ none
unfolding run step broadcast
join-broadcast_panics c room h named o =
    let after = join_room c room h in
    let joined : member c (after.rooms room) ≡ true =
      unfold join_room in ground (arith, member-add c c (h.rooms room), beq_refl room) in
    let closed : (after.heap c).is_closed ≡ true = unfold join_room in ground arith in
    ground
      (arith, string_eq.same_iff room "", deliver_closed c (after.rooms room) after joined closed)
