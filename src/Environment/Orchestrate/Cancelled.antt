-- ===== src/Environment/Orchestrate/Cancelled.antt =====
-- A run of an environment whose task is cancelled between two steps.
use vm_orbit.Base.{List, nat_eq, string_eq}
use vm_orbit.Task.Payload.{Payload}
