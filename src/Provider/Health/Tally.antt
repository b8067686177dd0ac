-- ===== src/Provider/Health/Tally.antt =====
-- The statistics against the calls that were made.
use vm_orbit.Base.{
  ℕ, suc, ◌+◌, String, ◌≡◌, refl, ap, inl, inr, Bool, true, false, not, List, [], ◌∷◌, arith,
  if◌then◌else◌, Bool-cases, ◌==◌, string_eq, length, count_if,
}
use vm_orbit.Base.Map.{lookup, insert, lookup-insert, lookup-remove}
use vm_orbit.Provider.Health.{
  HealthStats, no_calls, Tracker, get_or_create, record_success, record_failure, stats, reset,
  track_call, count_success, count_failure,
}

pub data Event : Type 0 where
  call : String → Bool → ℕ → ℕ → Event
  reconnect : String → Event

-- The tracker after events, the newest first.
unfoldable pub after : List Event → Tracker
after [] = []
after (call id ok latency now ∷ es) = track_call id ok latency now (after es)
after (reconnect id ∷ es) = reset id (after es)

-- How the calls of a hypervisor went since it was reset, the newest first.
unfoldable pub outcomes : String → List Event → List Bool
outcomes id [] = []
outcomes id (call j ok latency now ∷ es) =
    let rest = outcomes id es in if j == id then ok ∷ rest else rest
outcomes id (reconnect j ∷ es) = let rest = outcomes id es in if j == id then [] else rest

-- How many failures stand before the first success.
unfoldable pub streak : List Bool → ℕ
streak [] = 0
streak (true ∷ os) = 0
streak (false ∷ os) = suc (streak os)

stats-insert :
    (id j : String) (f : HealthStats → HealthStats) (t : Tracker)
    → stats id (insert j (f (get_or_create j t)) t)
      ≡ (if j == id then f (stats id t) else stats id t)
unfolding stats get_or_create
stats-insert id j f t = elim (Bool-cases (j == id)) [
  | inl same ↦
      rw (lookup-insert j id (f (get_or_create j t)) t, same)
        (ap (λ k. f (get_or_create k t)) ((string_eq.same_iff j id).0 same))
  | inr other ↦ rw (lookup-insert j id (f (get_or_create j t)) t, other) refl
]

stats-reset :
    (id j : String) (t : Tracker)
    → stats id (reset j t) ≡ (if j == id then no_calls else stats id t)
unfolding stats reset
stats-reset id j t = elim (Bool-cases (j == id)) [
  | inl same ↦ rw (lookup-remove j id t, same) refl
  | inr other ↦ rw (lookup-remove j id t, other) refl
]

-- That the counts are those of a list of outcomes, the newest first.
record Tallied (s : HealthStats) (os : List Bool) : Type 0 where
  total : s.total_calls ≡ length os
  succeeded : s.success_calls ≡ count_if (λ ok. ok) os
  failed : s.failure_calls ≡ count_if not os
  consecutive : s.consec_failures ≡ streak os
  sum : s.total_calls ≡ s.success_calls + s.failure_calls

call-Tallied :
    (ok : Bool) (latency now : ℕ) (s : HealthStats) (os : List Bool)
    → Tallied s os
    → Tallied (if ok then count_success latency now s else count_failure now s) (ok ∷ os)
unfolding count_success count_failure streak
call-Tallied true latency now s os h = ground arith
call-Tallied false latency now s os h = ground arith

no_calls-Tallied : Tallied no_calls []
unfolding no_calls streak
no_calls-Tallied = record {
  total = refl;
  succeeded = refl;
  failed = refl;
  consecutive = refl;
  sum = omega arith;
}

tallied : (id : String) (es : List Event) → Tallied (stats id (after es)) (outcomes id es)
unfolding after outcomes track_call record_success record_failure stats lookup
tallied id [] = no_calls-Tallied
tallied id (call j true latency now ∷ es) = elim (Bool-cases (j == id)) [
  | inl same ↦
      rw (stats-insert id j (count_success latency now) (after es), same)
        (call-Tallied true latency now (stats id (after es)) (outcomes id es) (tallied id es))
  | inr other ↦ rw (stats-insert id j (count_success latency now) (after es), other) (tallied id es)
]
tallied id (call j false latency now ∷ es) = elim (Bool-cases (j == id)) [
  | inl same ↦
      rw (stats-insert id j (count_failure now) (after es), same)
        (call-Tallied false latency now (stats id (after es)) (outcomes id es) (tallied id es))
  | inr other ↦ rw (stats-insert id j (count_failure now) (after es), other) (tallied id es)
]
tallied id (reconnect j ∷ es) = elim (Bool-cases (j == id)) [
  | inl same ↦ rw (stats-reset id j (after es), same) no_calls-Tallied
  | inr other ↦ rw (stats-reset id j (after es), other) (tallied id es)
]

-- After any calls and resets, the statistics of a hypervisor count its calls since the last reset,
-- the successful and the failed ones, and the failures since the latest success, whatever happened
-- to other hypervisors; so successes and failures add up to all calls.
stats-after :
    (id : String) (es : List Event)
    → let s = stats id (after es) in
      let os = outcomes id es in
      (s.total_calls ≡ length os)
      × (s.success_calls ≡ count_if (λ ok. ok) os)
      × (s.failure_calls ≡ count_if not os)
      × (s.consec_failures ≡ streak os)
      × (s.total_calls ≡ s.success_calls + s.failure_calls)
stats-after id es = let t = tallied id es in (t.total, t.succeeded, t.failed, t.consecutive, t.sum)
