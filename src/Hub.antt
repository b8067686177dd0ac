-- ===== src/Hub.antt =====
-- internal/websocket/hub.go: the hub's clients, rooms and connection counts, and the cases of its
-- event loop. A client is a reference into `heap`; `is_closed` is the state of its send channel
-- and `buffered` the messages that wait in it. A send to a closed channel and a second close are
-- panics, `none`. The hub's mutex makes each case one step; the order in which a Go map is walked
-- is the order of the list.
pub mod Invariant
pub mod Safety
pub mod Counts
mod Examples
use mathlib.Core.Option
use vm_orbit.Base.{
  ℕ, ◌+◌, ◌-◌, String, Bool, true, false, Option, none, some, List, [], ◌∷◌, map, ltb, leb,
  if◌then◌else◌, Eq, ◌==◌, nat_eq, string_eq,
}
use vm_orbit.Base.{member, add, delete}

pub record Client : Type 0 where
  pub user_id : String
  pub rooms : List String
  pub buffered : ℕ
  pub is_closed : Bool

pub record Hub : Type 0 where
  pub heap : ℕ → Client
  pub clients : List ℕ
  pub rooms : String → List ℕ
  pub user_conns : String → ℕ

-- make(chan []byte, 256)
abbrev pub send_capacity : ℕ
send_capacity = 256

abbrev pub update {ℓ κ} : {K : Type ℓ} {V : Type κ} ⦃e : Eq K⦄ → (K → V) → K → V → K → V
update m k v j = if k == j then v else m j

-- What `Hub.Register` allocates for a connection, before the hub has seen it.
abbrev pub new_client : String → Client
new_client user_id = record { user_id = user_id; rooms = []; buffered = 0; is_closed = false }

-- A hub with no clients; every reference holds the client that one future connection will use.
pub new_hub : (ℕ → String) → Hub
new_hub user_of = record {
  heap = λ c. new_client (user_of c);
  clients = [];
  rooms = λ r. [];
  user_conns = λ u. 0;
}

-- case client := <-h.register
pub register : ℕ → Hub → Hub
register c h =
    let u = (h.heap c).user_id in
    record h { clients = add c h.clients; user_conns = update h.user_conns u (h.user_conns u + 1) }

-- Close the send channel, and take the client out of `clients` and of every room that it joined.
pub drop_client : ℕ → Hub → Option Hub
drop_client c h =
    let joined = (h.heap c).rooms in
    if (h.heap c).is_closed
    then none
    else some (record h {
      heap = update h.heap c (record (h.heap c) { is_closed = true });
      clients = delete c h.clients;
      rooms = λ r. if member r joined then delete c (h.rooms r) else h.rooms r;
    })

pub release_conn : String → Hub → Hub
release_conn u h =
    if ltb 0 (h.user_conns u)
    then record h { user_conns = update h.user_conns u (h.user_conns u - 1) }
    else h

-- case client := <-h.unregister
pub unregister : ℕ → Hub → Option Hub
unregister c h =
    if member c h.clients
    then Option.map (release_conn (h.heap c).user_id) (drop_client c h)
    else some h

-- client.send <- msg.message
pub send_message : ℕ → Hub → Hub
send_message c h = record h {
  heap = update h.heap c (record (h.heap c) { buffered = (h.heap c).buffered + 1 });
}

-- select { case client.send <- msg.message: default: }
pub deliver_one : ℕ → Hub → Hub
unfolding send_message
deliver_one c h = if leb send_capacity (h.heap c).buffered then h else send_message c h

-- The first loop of a broadcast: each target gets the message, or is slow if its channel is full.
pub deliver : List ℕ → Hub → Option (Hub × List ℕ)
deliver [] h = some (h, [])
deliver (c ∷ cs) h =
    let client = h.heap c in
    let full = leb send_capacity client.buffered in
    let rest = deliver cs (deliver_one c h) in
    if client.is_closed
    then none
    else Option.map (λ (r : Hub × List ℕ). (r.0, if full then c ∷ r.1 else r.1)) rest

-- The second loop: the slow clients are disconnected.
pub disconnect : List ℕ → Hub → Option Hub
disconnect [] h = some h
disconnect (c ∷ cs) h = elim (drop_client c h) [ none ↦ none | some h' ↦ disconnect cs h' ]

-- The empty room is all clients.
abbrev pub targets : String → Hub → List ℕ
targets room h = if room == "" then h.clients else h.rooms room

-- case msg := <-h.broadcast
pub broadcast : String → Hub → Option Hub
broadcast room h = elim (deliver (targets room h) h) [ none ↦ none | some r ↦ disconnect r.1 r.0 ]

pub join_room : ℕ → String → Hub → Hub
join_room c room h = record h {
  rooms = update h.rooms room (add c (h.rooms room));
  heap = update h.heap c (record (h.heap c) { rooms = add room (h.heap c).rooms });
}

-- `WritePump` takes a message out of the client's channel.
pub drain : ℕ → Hub → Hub
drain c h = record h {
  heap = update h.heap c (record (h.heap c) { buffered = (h.heap c).buffered - 1 });
}

pub data Event : Type 0 where
  registers unregisters drains : ℕ → Event
  broadcasts : String → Event
  joins : ℕ → String → Event

pub step : Event → Hub → Option Hub
step (registers c) h = some (register c h)
step (unregisters c) h = unregister c h
step (drains c) h = some (drain c h)
step (broadcasts room) h = broadcast room h
step (joins c room) h = some (join_room c room h)

pub run : List Event → Hub → Option Hub
run [] h = some h
run (e ∷ es) h = elim (step e h) [ none ↦ none | some h' ↦ run es h' ]
