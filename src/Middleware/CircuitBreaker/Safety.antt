-- ===== src/Middleware/CircuitBreaker/Safety.antt =====
-- The circuit breaker over any sequence of calls.
use vm_orbit.Base.{
  ℕ, ◌+◌, ◌≤◌, ◌<◌, String, ◌≡◌, refl, ◌∙◌, ◌≢◌, ◌↔◌, inl, inr, Bool, true, false, Option, none,
  some, List, [], ◌∷◌, ◌++◌, arith, Bool-cases, Option-cases, ◌==◌, string_eq, nat_eq, any,
  count_if, if◌then◌else◌,
}
use vm_orbit.Base.Map.{lookup, insert, lookup-insert}
use vm_orbit.Middleware.CircuitBreaker.{
  CircuitState, closed, open_, half_open, CircuitBreaker, new_circuit_breaker, allow,
  record_success, record_failure, Call, asks, succeeds, fails, step, run, Breakers,
  provider_circuit_breaker, next, service_unavailable, get_circuit_breaker, default_breaker,
}

-- A closed breaker has failures to spare; one that is open or on trial has used them up.
pub record IsValid (cb : CircuitBreaker) : Type 0 where
  pub spare : cb.state ≡ closed → cb.failures < cb.max_failures
  pub spent : cb.state ≢ closed → cb.max_failures ≤ cb.failures

-- The transition diagram.
infix 40 ◌⟶◌
pub data ◌⟶◌ : CircuitState → CircuitState → Type 0 where
  stay : {s : CircuitState} → s ⟶ s
  trip : closed ⟶ open_
  probe : open_ ⟶ half_open
  reopen : half_open ⟶ open_
  reset : {s : CircuitState} → s ⟶ closed

-- A new breaker with a positive threshold satisfies the invariant.
pub new_circuit_breaker-IsValid : (n t : ℕ) → 0 < n → IsValid (new_circuit_breaker n t)
unfolding new_circuit_breaker
new_circuit_breaker-IsValid n t h = ground arith

step-IsValid :
    (cb : CircuitBreaker) (c : Call) → 0 < cb.max_failures → IsValid cb → IsValid (step cb c)
unfolding step
step-IsValid cb c h v = ground arith

step-thresholds :
    (cb : CircuitBreaker) (c : Call)
    → ((step cb c).max_failures ≡ cb.max_failures) × ((step cb c).reset_timeout ≡ cb.reset_timeout)
unfolding step
step-thresholds cb c = ground arith

run-IsValid :
    (cb : CircuitBreaker) (cs : List Call) → 0 < cb.max_failures → IsValid cb → IsValid (run cb cs)
unfolding run
run-IsValid cb [] h v = v
run-IsValid cb (c ∷ cs) h v =
    run-IsValid (step cb c) cs (omega (arith, step-thresholds cb c)) (step-IsValid cb c h v)

step-⟶ :
    (cb : CircuitBreaker) (c : Call)
    → 0 < cb.max_failures
    → IsValid cb
    → cb.state ⟶ (step cb c).state
unfolding step
step-⟶ cb c h v = grind (arith, stay, trip, probe, reopen, reset)

abbrev pub is_success : Call → Bool
is_success (asks now) = false
is_success (succeeds now) = true
is_success (fails now) = false

abbrev pub is_failure : Call → Bool
is_failure (asks now) = false
is_failure (succeeds now) = false
is_failure (fails now) = true

step-failures :
    (cb : CircuitBreaker) (c : Call)
    → is_success c ≡ false
    → (step cb c).failures ≡ cb.failures + (if is_failure c then 1 else 0)
unfolding step allow record_failure
step-failures cb c h = ground arith

-- Without a success the failures are counted, whatever is asked in between.
run-failures :
    (cb : CircuitBreaker) (cs : List Call)
    → any is_success cs ≡ false
    → (run cb cs).failures ≡ cb.failures + count_if is_failure cs
unfolding run
run-failures cb [] h = omega arith
run-failures cb (c ∷ cs) h =
    ground (
      arith,
      run-failures (step cb c) cs (ground (arith, h)),
      step-failures cb c (ground (arith, h)),
    )

run-append : (cb : CircuitBreaker) (cs ds : List Call) → run cb (cs ++ ds) ≡ run (run cb cs) ds
unfolding run
run-append cb [] ds = refl
run-append cb (c ∷ cs) ds = run-append (step cb c) cs ds

run-thresholds :
    (cb : CircuitBreaker) (cs : List Call)
    → ((run cb cs).max_failures ≡ cb.max_failures) × ((run cb cs).reset_timeout ≡ cb.reset_timeout)
unfolding run
run-thresholds cb [] = (refl, refl)
run-thresholds cb (c ∷ cs) =
    let (n, t) = run-thresholds (step cb c) cs in
    let (n', t') = step-thresholds cb c in (n ∙ n', t ∙ t')

run-one : (cb : CircuitBreaker) (c : Call) → run cb (c ∷ []) ≡ step cb c
unfolding run
run-one cb c = refl

new_circuit_breaker-thresholds :
    (n t : ℕ)
    → ((new_circuit_breaker n t).max_failures ≡ n) × ((new_circuit_breaker n t).reset_timeout ≡ t)
unfolding new_circuit_breaker
new_circuit_breaker-thresholds n t = (refl, refl)

-- The failure that uses up the threshold, or a later one, opens the breaker and sets its clock.
fails_open :
    (cb : CircuitBreaker) (last now : ℕ)
    → cb.max_failures ≤ cb.failures + 1
    → now ≤ last + cb.reset_timeout
    → allow (step cb (fails last)) now ≡ (step cb (fails last), false)
unfolding step record_failure allow
fails_open cb last now h k = ground arith

-- Whatever calls a breaker has had, once at least as many failures as its threshold have come in
-- with no success between them, whatever was asked meanwhile and however long ago they are, every
-- request up to the reset timeout after the last of them is refused, and the breaker stays as it is.
pub fails_reject :
    (threshold timeout : ℕ) (before cs : List Call) (last now : ℕ)
    → any is_success cs ≡ false
    → threshold ≤ count_if is_failure cs + 1
    → now ≤ last + timeout
    → let cb = run (new_circuit_breaker threshold timeout) (before ++ (cs ++ (fails last ∷ []))) in
      allow cb now ≡ (cb, false)
fails_reject threshold timeout before cs last now steady h k =
    let new = new_circuit_breaker threshold timeout in
    let cb = run new before in
    let (most, pause) = run-thresholds new before in
    let (most', pause') = run-thresholds cb cs in
    let (n, t) = new_circuit_breaker-thresholds threshold timeout in
    let counted = run-failures cb cs steady in
    let whole : run new (before ++ (cs ++ (fails last ∷ []))) ≡ step (run cb cs) (fails last) =
      run-append new before (cs ++ (fails last ∷ []))
      ∙ run-append cb cs (fails last ∷ [])
      ∙ run-one (run cb cs) (fails last) in
    rw whole (
      fails_open (run cb cs) last now (omega (arith, most, most', n, counted))
        (omega (arith, pause, pause', t)))

reached-IsValid :
    (threshold timeout : ℕ) (cs : List Call)
    → 0 < threshold
    → IsValid (run (new_circuit_breaker threshold timeout) cs)
unfolding new_circuit_breaker
reached-IsValid threshold timeout cs h =
    run-IsValid (new_circuit_breaker threshold timeout) cs h
      (new_circuit_breaker-IsValid threshold timeout h)

closed_of_spare :
    (cb : CircuitBreaker) (n : ℕ)
    → IsValid cb
    → cb.max_failures ≡ n
    → cb.failures < n
    → cb.state ≡ closed
closed_of_spare cb n v same h = ground arith

-- Whatever calls a breaker with a positive threshold has had, the next one moves it along the
-- transition diagram, and it is closed exactly when its failures are below the threshold.
run-⟶ :
    (threshold timeout : ℕ) (cs : List Call) (c : Call)
    → 0 < threshold
    → let cb = run (new_circuit_breaker threshold timeout) cs in
      (cb.state ⟶ (step cb c).state) × ((cb.state ≡ closed) ↔ (cb.failures < threshold))
run-⟶ threshold timeout cs c h =
    let cb = run (new_circuit_breaker threshold timeout) cs in
    let v = reached-IsValid threshold timeout cs h in
    let same : cb.max_failures ≡ threshold =
      unfold new_circuit_breaker in (run-thresholds (new_circuit_breaker threshold timeout) cs).0 in
    (
      step-⟶ cb c (omega arith) v,
      ((λ e. omega (arith, v.spare e)), closed_of_spare cb threshold v same),
    )

-- After any calls, of a breaker on trial one failure opens it again and sets its clock, and one
-- success closes it with its failures forgotten.
run-half_open :
    (threshold timeout : ℕ) (cs : List Call) (now : ℕ)
    → 0 < threshold
    → (run (new_circuit_breaker threshold timeout) cs).state ≡ half_open
    → let cb = run (new_circuit_breaker threshold timeout) cs in
      ((record_failure cb now).state ≡ open_)
      × ((record_failure cb now).last_failure ≡ now)
      × ((record_success cb).state ≡ closed)
      × ((record_success cb).failures ≡ 0)
unfolding record_failure record_success
run-half_open threshold timeout cs now h e = ground (arith, reached-IsValid threshold timeout cs h)

-- The requests of the program, a hypervisor and a time each: the registry that they leave, and
-- whether all of them were handed on.
pub serve : List (String × ℕ) → Breakers → Breakers × Bool
unfolding provider_circuit_breaker
serve [] m = (m, true)
serve ((id, now) ∷ rs) m =
    let (m', o) = provider_circuit_breaker id now m in
    let (m'', ok) = serve rs m' in (m'', elim o [ next ↦ ok | service_unavailable _ ↦ false ])

abbrev ClosedOrMissing : Option CircuitBreaker → Type 0
ClosedOrMissing none = Unit
ClosedOrMissing (some cb) = cb.state ≡ closed

abbrev AllClosed : Breakers → Type 0
AllClosed m = (id : String) → ClosedOrMissing (lookup id m)

insert-AllClosed :
    (id : String) (cb : CircuitBreaker) (m : Breakers)
    → cb.state ≡ closed
    → AllClosed m
    → AllClosed (insert id cb m)
insert-AllClosed id cb m e h j = elim (Bool-cases (id == j)) [
  | inl same ↦ rw (lookup-insert id j cb m, same) e
  | inr other ↦ rw (lookup-insert id j cb m, other) (h j)
]

get_circuit_breaker-closed :
    (id : String) (m : Breakers)
    → AllClosed m
    → AllClosed (get_circuit_breaker id m).0 × ((get_circuit_breaker id m).1.state ≡ closed)
unfolding get_circuit_breaker
get_circuit_breaker-closed id m h = elim (Option-cases (lookup id m)) [
  | inl e ↦ rw (e, get_circuit_breaker) (insert-AllClosed id default_breaker m refl h, refl)
  | inr (cb, e) ↦ rw (e, get_circuit_breaker) (h, rw e at (h id))
]

allow-closed : (cb : CircuitBreaker) (now : ℕ) → cb.state ≡ closed → allow cb now ≡ (cb, true)
unfolding allow
allow-closed cb now e = ground arith

provider_circuit_breaker-next :
    (id : String) (now : ℕ) (m : Breakers)
    → AllClosed m
    → ((provider_circuit_breaker id now m).1 ≡ next)
      × AllClosed (provider_circuit_breaker id now m).0
unfolding provider_circuit_breaker
provider_circuit_breaker-next id now m h =
    let (all', e) = get_circuit_breaker-closed id m h in
    let asked = allow-closed (get_circuit_breaker id m).1 now e in
    let kept =
      insert-AllClosed id (get_circuit_breaker id m).1 (get_circuit_breaker id m).0 e all' in
    elim (Bool-cases (id == "")) [
      | inl empty ↦ rw (asked, empty) (refl, h)
      | inr named ↦ rw (asked, named) (refl, kept)
    ]

serve-next : (rs : List (String × ℕ)) (m : Breakers) → AllClosed m → (serve rs m).1 ≡ true
unfolding serve
serve-next [] m h = refl
serve-next ((id, now) ∷ rs) m h =
    let (passed, all') = provider_circuit_breaker-next id now m h in
    rw (passed, serve) (serve-next rs (provider_circuit_breaker id now m).0 all')

-- As long as nothing records a failure, and no code of the program does, the middleware hands on
-- every request for every hypervisor, at any time.
serve_all : (rs : List (String × ℕ)) → (serve rs []).1 ≡ true
unfolding lookup
serve_all rs = serve-next rs [] (λ id. tt)
