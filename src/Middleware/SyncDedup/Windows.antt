-- ===== src/Middleware/SyncDedup/Windows.antt =====
-- Which requests the marker of a sync keeps out, and when it is lost.
use vm_orbit.Base.{
  ℕ, ◌+◌, ◌≤◌, ◌<◌, String, ◌≡◌, ◌≢◌, none, List, ◌∷◌, arith, ltb, if◌then◌else◌, string_eq,
  beq_refl,
}
use vm_orbit.Base.Map.{Map, lookup, lookup-insert, lookup-remove}
use vm_orbit.Middleware.SyncDedup.{window, State, next, conflict, begin, finish, fire_due, fire}

-- A sync that was let through keeps out every later one of its hypervisor for the window, while
-- no timer fires.
begin_twice :
    (id : String) (first second : ℕ) (s : State)
    → id ≢ ""
    → first ≤ second
    → (begin id first s).1 ≡ next
    → (begin id second (begin id first s).0).1
      ≡ (if ltb second (first + window) then conflict else next)
unfolding begin
begin_twice id first second s named h ok =
    ground (arith, string_eq.same_iff id "", lookup-insert id id first s.inflight, beq_refl id)

-- Any timer of the hypervisor that is due takes the marker away, whoever set it.
lookup-fire_due :
    (id : String) (due now : ℕ) (ts : List (ℕ × String)) (m : Map String ℕ)
    → due ≤ now
    → lookup id (fire_due now ((due, id) ∷ ts) m) ≡ none
unfolding fire_due
lookup-fire_due id due now ts m h =
    ground (arith, lookup-remove id id (fire_due now ts m), beq_refl id)

begin-timers : (id : String) (now : ℕ) (s : State) → (begin id now s).0.timers ≡ s.timers
unfolding begin
begin-timers id now s = ground arith

lookup-fire :
    (id : String) (due now : ℕ) (ts : List (ℕ × String)) (s : State)
    → s.timers ≡ (due, id) ∷ ts
    → due ≤ now
    → lookup id (fire now s).inflight ≡ none
unfolding fire
lookup-fire id due now ts s e h = rw e (lookup-fire_due id due now ts s.inflight h)

begin_free :
    (id : String) (now : ℕ) (s : State) → lookup id s.inflight ≡ none → (begin id now s).1 ≡ next
unfolding begin
begin_free id now s e = ground arith

-- The timer of a sync that ended at `done` takes away the marker of a later sync too. A third
-- request, inside the window of the second, is refused before that timer fires, and let through
-- after it.
fire-begin :
    (id : String) (done second now : ℕ) (s : State)
    → id ≢ ""
    → second ≤ now
    → now < second + window
    → done + window ≤ now
    → (begin id second (finish id done s)).1 ≡ next
    → let running = (begin id second (finish id done s)).0 in
      ((begin id now running).1 ≡ conflict) × ((begin id now (fire now running)).1 ≡ next)
unfolding finish
fire-begin id done second now s named after inside due ok =
    let refused = begin_twice id second now (finish id done s) named after ok in
    let running = (begin id second (finish id done s)).0 in
    let kept = begin-timers id second (finish id done s) in
    let lost = lookup-fire id (done + window) now s.timers running kept due in
    (ground arith, begin_free id now (fire now running) lost)
