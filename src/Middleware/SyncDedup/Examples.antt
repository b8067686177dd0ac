-- ===== src/Middleware/SyncDedup/Examples.antt =====
-- Syncs of one hypervisor, at times in nanoseconds.
use vm_orbit.Base.{[], string_eq}
use vm_orbit.Middleware.SyncDedup.{State, begin, finish}

abbrev idle : State
idle = record { inflight = []; timers = [] }

-- The first sync ended at 0; the second began at 9 seconds; the third comes at 11 seconds.
abbrev running : State
running = (begin "h" 9000000000 (finish "h" 0 idle)).0
