-- ===== src/Middleware/SyncDedup.antt =====
-- internal/api/middleware/ratelimit.go, DeduplicateSync: the marker of a sync in flight for a
-- hypervisor, and the timers that take markers away. The closure's mutex makes each part between
-- lock and unlock one step; a handler may end, and a timer fire, at any later time.
pub mod Windows
mod Examples
use vm_orbit.Base.{
  ℕ, ◌+◌, String, none, some, List, [], ◌∷◌, ltb, leb, if◌then◌else◌, ◌==◌, string_eq,
}
use vm_orbit.Base.Map.{Map, lookup, insert, remove}

-- Nanoseconds: 10 * time.Second.
abbrev pub window : ℕ
window = 10000000000

-- `inflight`, and the pending `time.AfterFunc` calls: when each is due, and for which hypervisor.
pub record State : Type 0 where
  pub inflight : Map String ℕ
  pub timers : List (ℕ × String)

pub data Outcome : Type 0 where
  next conflict : Outcome

-- The part of the middleware before `c.Next()`.
pub begin : String → ℕ → State → State × Outcome
begin id now s = if id == "" then (s, next) else (elim (lookup id s.inflight) [
  | none ↦ (record s { inflight = insert id now s.inflight }, next)
  | some at ↦
      if ltb now (at + window)
      then (s, conflict)
      else (record s { inflight = insert id now s.inflight }, next)
])

-- The deferred part, when a handler that was begun for the hypervisor has returned.
pub finish : String → ℕ → State → State
finish id now s = record s { timers = (now + window, id) ∷ s.timers }

-- The functions of all timers that are due.
fire_due : ℕ → List (ℕ × String) → Map String ℕ → Map String ℕ
fire_due now [] m = m
fire_due now ((due, id) ∷ ts) m =
    let rest = fire_due now ts m in if leb due now then remove id rest else rest

pending : ℕ → List (ℕ × String) → List (ℕ × String)
pending now [] = []
pending now ((due, id) ∷ ts) =
    let rest = pending now ts in if leb due now then rest else (due, id) ∷ rest

pub fire : ℕ → State → State
unfolding fire_due pending
fire now s = record { inflight = fire_due now s.timers s.inflight; timers = pending now s.timers }
