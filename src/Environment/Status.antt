-- ===== src/Environment/Status.antt =====
-- internal/service/environment_service.go: RefreshStatus, the status of an environment from those of
-- its machines.
use vm_orbit.Base.{
  ℕ, suc, ◌+◌, ◌≤◌, ◌<◌, ◌≡◌, refl, Bool, true, false, List, [], ◌∷◌, arith, ltb, if◌then◌else◌,
  ◌==◌, nat_eq, string_eq, length, count_if, any, all,
}

pub data VmStatus : Type 0 where
  running stopped suspended paused unknown provisioning deleting error : VmStatus

pub data EnvironmentStatus : Type 0 where
  healthy degraded unhealthy unknown starting stopping : EnvironmentStatus

abbrev pub is_running : VmStatus → Bool
is_running running = true
is_running _ = false

abbrev pub is_stopped : VmStatus → Bool
is_stopped stopped = true
is_stopped _ = false

abbrev pub is_error : VmStatus → Bool
is_error error = true
is_error _ = false

-- The counters of the loop: running, stopped and failed machines.
pub record Tally : Type 0 where
  pub running : ℕ
  pub stopped : ℕ
  pub errors : ℕ

unfoldable pub tally : List VmStatus → Tally → Tally
tally [] t = t
tally (running ∷ vs) t = tally vs (record t { running = suc t.running })
tally (stopped ∷ vs) t = tally vs (record t { stopped = suc t.stopped })
tally (error ∷ vs) t = tally vs (record t { errors = suc t.errors })
tally (_ ∷ vs) t = tally vs t

-- The switch on the counters.
unfoldable pub judge : Tally → ℕ → EnvironmentStatus
judge t total =
    if ltb 0 t.errors
    then unhealthy
    else (if t.running == total
        then healthy
        else (if t.stopped == total
            then EnvironmentStatus.unknown
            else (if ltb 0 t.running then degraded else EnvironmentStatus.unknown)))

abbrev pub no_tally : Tally
no_tally = record { running = 0; stopped = 0; errors = 0 }

unfoldable pub refresh_status : List VmStatus → EnvironmentStatus
refresh_status [] = EnvironmentStatus.unknown
refresh_status (v ∷ vs) = judge (tally (v ∷ vs) no_tally) (length (v ∷ vs))

tally_counts :
    (vs : List VmStatus) (t : Tally)
    → ((tally vs t).running ≡ t.running + count_if is_running vs)
      × ((tally vs t).stopped ≡ t.stopped + count_if is_stopped vs)
      × ((tally vs t).errors ≡ t.errors + count_if is_error vs)
unfolding tally
tally_counts [] t = omega arith
tally_counts (running ∷ vs) t =
    omega (arith, tally_counts vs (record t { running = suc t.running }))
tally_counts (stopped ∷ vs) t =
    omega (arith, tally_counts vs (record t { stopped = suc t.stopped }))
tally_counts (error ∷ vs) t = omega (arith, tally_counts vs (record t { errors = suc t.errors }))
tally_counts (_ ∷ vs) t = omega (arith, tally_counts vs t)

module _ {ℓ} {A : Type ℓ} where
  count_if-all : (p : A → Bool) (xs : List A) → (count_if p xs == length xs) ≡ all p xs
  count_if-all p [] = refl
  count_if-all p (x ∷ xs) = ground (arith, count_if-all p xs, count_if_le p xs)
    where
      count_if_le : (p : A → Bool) (xs : List A) → count_if p xs ≤ length xs
      count_if_le p [] = omega arith
      count_if_le p (x ∷ xs) = ground (arith, count_if_le p xs)

  count_if-any : (p : A → Bool) (xs : List A) → ltb 0 (count_if p xs) ≡ any p xs
  count_if-any p [] = refl
  count_if-any p (x ∷ xs) = ground (arith, count_if-any p xs)

-- The status in words: unhealthy when a machine failed, healthy when all run, degraded when some do.
abbrev pub status_of : List VmStatus → EnvironmentStatus
status_of vs =
    if any is_error vs
    then unhealthy
    else (if all is_running vs
        then healthy
        else (if any is_running vs then degraded else EnvironmentStatus.unknown))

running_or_stopped :
    (vs : List VmStatus) → count_if is_running vs + count_if is_stopped vs ≤ length vs
running_or_stopped [] = omega arith
running_or_stopped (running ∷ vs) = omega (arith, running_or_stopped vs)
running_or_stopped (stopped ∷ vs) = omega (arith, running_or_stopped vs)
running_or_stopped (_ ∷ vs) = omega (arith, running_or_stopped vs)

judge_lem :
    (vs : List VmStatus) (t : Tally)
    → 0 < length vs
    → t.running ≡ count_if is_running vs
    → t.stopped ≡ count_if is_stopped vs
    → t.errors ≡ count_if is_error vs
    → judge t (length vs) ≡ status_of vs
unfolding judge
judge_lem vs t h r s e = ground (
  arith,
  r,
  s,
  e,
  count_if-any is_error vs,
  count_if-all is_running vs,
  count_if-any is_running vs,
  running_or_stopped vs,
)

-- For an environment that has machines, the counters of RefreshStatus give the status that the
-- lists say: unhealthy when a machine is in error, else healthy when all run, else degraded when one
-- runs, else unknown.
refresh_status_lem :
    (v : VmStatus) (vs : List VmStatus) → refresh_status (v ∷ vs) ≡ status_of (v ∷ vs)
unfolding refresh_status
refresh_status_lem v vs =
    let c = tally_counts (v ∷ vs) no_tally in
    judge_lem (v ∷ vs) (tally (v ∷ vs) no_tally) (omega arith) (omega (arith, c)) (omega (arith, c))
      (omega (arith, c))
