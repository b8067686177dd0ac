-- ===== src/Hub/Invariant.antt =====
-- What holds of a hub whose rooms are joined by clients with an open channel only.

use vm_orbit.Base.{
  ℕ, String, ◌≡◌, refl, true, false, some, arith, if◌then◌else◌, ◌==◌, nat_eq, string_eq,
}
use vm_orbit.Base.{
  member, delete, Distinct, member-add, member-delete, add-Distinct, delete-Distinct,
}
use vm_orbit.Hub.{Hub, update, new_hub, register, drop_client, join_room, drain}

pub record Inv (h : Hub) : Type 0 where
  pub clients_open : (c : ℕ) → member c h.clients ≡ true → (h.heap c).is_closed ≡ false
  pub members_open :
      (r : String) (c : ℕ) → member c (h.rooms r) ≡ true → (h.heap c).is_closed ≡ false
  pub tracked :
      (r : String) (c : ℕ) → member c (h.rooms r) ≡ true → member r (h.heap c).rooms ≡ true
  pub clients_distinct : Distinct h.clients
  pub rooms_distinct : (r : String) → Distinct (h.rooms r)

pub new_hub-Inv : (user_of : ℕ → String) → Inv (new_hub user_of)
unfolding new_hub member
new_hub-Inv user_of = record {
  clients_open = λ c m. refl;
  members_open = λ r c m. refl;
  tracked = λ r c m. cc;
  clients_distinct = tt;
  rooms_distinct = λ r. tt;
}

pub register-Inv : (c : ℕ) (h : Hub) → (h.heap c).is_closed ≡ false → Inv h → Inv (register c h)
unfolding register
register-Inv c h o v = record {
  clients_open = λ j m. ground (arith, member-add c j h.clients, v.clients_open j);
  members_open = v.members_open;
  tracked = v.tracked;
  clients_distinct = add-Distinct c h.clients v.clients_distinct;
  rooms_distinct = v.rooms_distinct;
}

pub join_room-Inv :
    (c : ℕ) (room : String) (h : Hub)
    → (h.heap c).is_closed ≡ false
    → Inv h
    → Inv (join_room c room h)
unfolding join_room
join_room-Inv c room h o v = record {
  clients_open = λ j m. ground (arith, v.clients_open j);
  members_open = λ r j m.
      ground (arith, member-add c j (h.rooms room), v.members_open r j, string_eq.same_iff room r);
  tracked = λ r j m. ground (
    arith,
    member-add c j (h.rooms room),
    member-add room r (h.heap c).rooms,
    v.tracked r j,
    string_eq.same_iff room r,
  );
  clients_distinct = v.clients_distinct;
  rooms_distinct = λ r.
      ground (arith, add-Distinct c (h.rooms room) (v.rooms_distinct room), v.rooms_distinct r);
}

pub drain-Inv : (c : ℕ) (h : Hub) → Inv h → Inv (drain c h)
unfolding drain
drain-Inv c h v = record {
  clients_open = λ j m. ground (arith, v.clients_open j);
  members_open = λ r j m. ground (arith, v.members_open r j);
  tracked = λ r j m. ground (arith, v.tracked r j);
  clients_distinct = v.clients_distinct;
  rooms_distinct = v.rooms_distinct;
}

-- The hub that dropping an open client leaves.
unfoldable pub dropped : ℕ → Hub → Hub
dropped c h = record h {
  heap = update h.heap c (record (h.heap c) { is_closed = true });
  clients = delete c h.clients;
  rooms = λ r. if member r (h.heap c).rooms then delete c (h.rooms r) else h.rooms r;
}

pub drop_client-dropped :
    (c : ℕ) (h : Hub) → (h.heap c).is_closed ≡ false → drop_client c h ≡ some (dropped c h)
unfolding drop_client dropped
drop_client-dropped c h o = rw o refl

pub dropped-Inv : (c : ℕ) (h : Hub) → Inv h → Inv (dropped c h)
unfolding dropped
dropped-Inv c h v = record {
  clients_open = λ j m. ground (arith, member-delete c j h.clients, v.clients_open j);
  members_open =
      λ r j m. ground (arith, member-delete c j (h.rooms r), v.members_open r j, v.tracked r j);
  tracked = λ r j m. ground (arith, member-delete c j (h.rooms r), v.tracked r j);
  clients_distinct = delete-Distinct c h.clients v.clients_distinct;
  rooms_distinct =
      λ r. ground (arith, delete-Distinct c (h.rooms r) (v.rooms_distinct r), v.rooms_distinct r);
}

pub dropped-is_closed :
    (c j : ℕ) (h : Hub)
    → ((dropped c h).heap j).is_closed ≡ (if c == j then true else (h.heap j).is_closed)
unfolding dropped
dropped-is_closed c j h = ground arith
