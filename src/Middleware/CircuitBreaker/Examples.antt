-- ===== src/Middleware/CircuitBreaker/Examples.antt =====
-- The breaker on concrete calls: three failures open it, for sixty units of time.
use vm_orbit.Base.{refl, ℕ, String, ◌≡◌, false, List, [], ◌∷◌, arith}
use vm_orbit.Middleware.CircuitBreaker.{
  CircuitBreaker, new_circuit_breaker, allow, Call, asks, succeeds, fails, run,
}
use vm_orbit.Middleware.CircuitBreaker.Safety.{fails_reject}

-- A failure and a success, then three failures with a request between them.
abbrev tripped : CircuitBreaker
tripped =
    run (new_circuit_breaker 3 60)
      (fails 1 ∷ succeeds 5 ∷ fails 10 ∷ asks 15 ∷ fails 20 ∷ fails 30 ∷ [])

fails_reject_example : allow tripped 80 ≡ (tripped, false)
fails_reject_example =
    fails_reject 3 60 (fails 1 ∷ succeeds 5 ∷ []) (fails 10 ∷ asks 15 ∷ fails 20 ∷ []) 30 80 refl
      (omega arith) (omega arith)

abbrev on_trial : List Call
on_trial = fails 10 ∷ fails 20 ∷ fails 30 ∷ asks 100 ∷ []

abbrev calls : List (String × ℕ)
calls = ("a", 10) ∷ ("b", 20) ∷ ("a", 30) ∷ []
