-- ===== src/Hub/Examples.antt =====
-- Two connections of one user.
use vm_orbit.Base.{
  ◌≡◌, refl, sym, ap, true, false, none, some, List, [], ◌∷◌, arith, if◌then◌else◌, or_else, ◌==◌,
  nat_eq, string_eq,
}
use vm_orbit.Base.{member, delete}
use vm_orbit.Hub.{
  Hub, update, new_client, new_hub, register, unregister, broadcast, deliver, deliver_one,
  disconnect, drop_client, registers, joins, broadcasts, Event, step, run,
}
use vm_orbit.Hub.Invariant.{Inv, new_hub-Inv}
use vm_orbit.Hub.Safety.{run-Inv_of_new, join-broadcast_panics, AreLegal}
use vm_orbit.Hub.Counts.{IsCounted, step-IsCounted, broadcast_leaks, registers_new}

abbrev start : Hub
start = new_hub (λ c. "ann")

abbrev events : List Event
events = registers 0 ∷ joins 0 "vm" ∷ broadcasts "vm" ∷ []

legal : AreLegal events start
unfolding step new_hub register
legal = (
  refl,
  (λ h1 e1. (ap (λ o. ((or_else o h1).heap 0).is_closed) (sym e1), (λ h2 e2. (tt, (λ h3 e3. tt))))),
)

run-Inv_of_new_example : (h : Hub) × (run events start ≡ some h) × Inv h
run-Inv_of_new_example = run-Inv_of_new (λ c. "ann") events legal

-- A connection whose channel has been closed.
abbrev gone : Hub
gone = record start { heap = λ c. record (new_client "ann") { is_closed = true } }

join-broadcast_panics_example : run (joins 0 "vm" ∷ broadcasts "vm" ∷ []) gone ≡ none
join-broadcast_panics_example =
    join-broadcast_panics 0 "vm" gone (λ e. ground (arith, (string_eq.same_iff "vm" "").1 e)) refl

step-IsCounted_example : IsCounted (register 0 start)
unfolding step member new_hub
step-IsCounted_example =
    step-IsCounted (registers 0) start (register 0 start) (registers_new refl)
      (new_hub-Inv (λ c. "ann")) (λ u. refl) refl

-- A registered connection whose channel is full.
abbrev full : Hub
full = record start {
  heap = λ c. record (new_client "ann") { buffered = 256 };
  clients = 0 ∷ [];
  user_conns = λ u. if u == "ann" then 1 else 0;
}

abbrev after_full : Hub
after_full = record full {
  heap = update full.heap 0 (record (full.heap 0) { is_closed = true });
  clients = [];
}

broadcast_leaks_example :
    (member 0 after_full.clients ≡ false)
    × (after_full.user_conns ≡ full.user_conns)
    × (unregister 0 after_full ≡ some after_full)
unfolding broadcast deliver deliver_one disconnect drop_client member delete new_hub
broadcast_leaks_example = broadcast_leaks "" 0 full after_full refl (omega arith) refl
