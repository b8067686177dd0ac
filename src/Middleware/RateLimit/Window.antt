-- ===== src/Middleware/RateLimit/Window.antt =====
-- What a client gets through the in-memory limiter within one window.
use mathlib.Core.Path.{subst}
use vm_orbit.Base.{
  ℕ, suc, ◌+◌, ◌-◌, ◌≤◌, min, String, ◌≡◌, refl, sym, inl, inr, ◌&&◌, Option, none, some, List, [],
  ◌∷◌, arith, leb, if◌then◌else◌, Bool-cases, ◌==◌, string_eq, beq_refl, All,
}
use vm_orbit.Base.Map.{
  lookup, lookup-insert, lookup-keep, keep_option, Unique, insert-Unique, keep-Unique,
}
use vm_orbit.Middleware.RateLimit.{
  MemBucket, MemRateLimiter, Event, request, sweep, time_of, is_live, current_bucket, allow,
  cleanup, step,
}

-- The requests of a key among the events, and those of them that are let through.
pub requests_of : String → List Event → ℕ
requests_of k [] = 0
requests_of k (request key now ∷ es) =
    let rest = requests_of k es in if key == k then suc rest else rest
requests_of k (sweep now ∷ es) = requests_of k es

pub admitted : String → ℕ → ℕ → List Event → MemRateLimiter → ℕ
admitted k limit window [] m = 0
admitted k limit window (request key now ∷ es) m =
    let (m', v) = allow key limit window now m in
    let rest = admitted k limit window es m' in if (key == k) && v.allowed then suc rest else rest
admitted k limit window (sweep now ∷ es) m = admitted k limit window es (cleanup now m)

step-Unique :
    (limit window : ℕ) (e : Event) (m : MemRateLimiter) → Unique m → Unique (step limit window e m)
unfolding step
step-Unique limit window (request key now) m u = insert-Unique key _ m u
step-Unique limit window (sweep now) m u = keep-Unique (is_live now) m u

-- A sweep drops only buckets that the next request would have replaced.
pub lookup-allow :
    (k key : String) (limit window now : ℕ) (m : MemRateLimiter)
    → lookup k (allow key limit window now m).0 ≡ (
        if key == k
        then some (
            let b = current_bucket window now (lookup key m) in
            record { count = b.count + 1; reset_at = b.reset_at })
        else lookup k m)
unfolding allow
lookup-allow k key limit window now m = lookup-insert key k _ m

lookup-cleanup :
    (k : String) (now : ℕ) (m : MemRateLimiter)
    → Unique m
    → lookup k (cleanup now m) ≡ keep_option (is_live now) (lookup k m)
unfolding cleanup
lookup-cleanup k now m u = lookup-keep (is_live now) k m u

pub allow-cleanup :
    (k : String) (limit window earlier now : ℕ) (m : MemRateLimiter)
    → Unique m
    → earlier ≤ now
    → (allow k limit window now (cleanup earlier m)).1 ≡ (allow k limit window now m).1
unfolding allow
allow-cleanup k limit window earlier now m u h = ground (arith, lookup-cleanup k earlier m u)

-- One request of the key, at a live bucket.
request-allowed :
    (k : String) (limit window now : ℕ) (m : MemRateLimiter) (b : MemBucket)
    → lookup k m ≡ some b
    → now ≤ b.reset_at
    → (allow k limit window now m).1.allowed ≡ leb (b.count + 1) limit
unfolding allow
request-allowed k limit window now m b e h = ground arith

request-lookup :
    (k : String) (limit window now : ℕ) (m : MemRateLimiter) (b : MemBucket)
    → lookup k m ≡ some b
    → now ≤ b.reset_at
    → lookup k (allow k limit window now m).0 ≡ some (record b { count = b.count + 1 })
request-lookup k limit window now m b e h =
    ground (arith, lookup-allow k k limit window now m, beq_refl k)

sweep-lookup :
    (k : String) (now : ℕ) (m : MemRateLimiter) (b : MemBucket)
    → Unique m
    → lookup k m ≡ some b
    → now ≤ b.reset_at
    → lookup k (cleanup now m) ≡ some b
sweep-lookup k now m b u e h = ground (arith, lookup-cleanup k now m u)

allow-Unique :
    (key : String) (limit window now : ℕ) (m : MemRateLimiter)
    → Unique m
    → Unique (allow key limit window now m).0
unfolding allow
allow-Unique key limit window now m u = insert-Unique key _ m u

cleanup-Unique : (now : ℕ) (m : MemRateLimiter) → Unique m → Unique (cleanup now m)
unfolding cleanup
cleanup-Unique now m u = keep-Unique (is_live now) m u

-- Within the life of a bucket the requests left of its limit are let through, and no more.
admitted_live :
    (k : String) (limit window : ℕ) (es : List Event) (m : MemRateLimiter) (b : MemBucket)
    → Unique m
    → lookup k m ≡ some b
    → All (λ e. time_of e ≤ b.reset_at) es
    → admitted k limit window es m ≡ min (requests_of k es) (limit - b.count)
unfolding admitted requests_of
admitted_live k limit window [] m b u e h = omega arith
admitted_live k limit window (request key now ∷ es) m b u e h = elim (Bool-cases (key == k)) [
  | inl same ↦
      let at_k = (string_eq.same_iff key k).0 same in
      let allowed =
        subst (λ x. (allow x limit window now m).1.allowed ≡ leb (b.count + 1) limit) (sym at_k)
          (request-allowed k limit window now m b e h.0) in
      let counted =
        subst
          (λ x. lookup k (allow x limit window now m).0 ≡ some (record b { count = b.count + 1 }))
          (sym at_k) (request-lookup k limit window now m b e h.0) in
      rw (same, allowed)
        (ground (
          arith,
          admitted_live k limit window es (allow key limit window now m).0
              (record b { count = b.count + 1 }) (allow-Unique key limit window now m u) counted
              h.1,
        ))
  | inr other ↦ rw other (
      admitted_live k limit window es (allow key limit window now m).0 b
        (allow-Unique key limit window now m u)
        (rw (lookup-allow k key limit window now m, other) e) h.1)
]
admitted_live k limit window (sweep now ∷ es) m b u e h =
    admitted_live k limit window es (cleanup now m) b (cleanup-Unique now m u)
      (sweep-lookup k now m b u e h.0) h.1

current_bucket-opened :
    (window now : ℕ) (o : Option MemBucket)
    → keep_option (is_live now) o ≡ none
    → current_bucket window now o ≡ record { count = 0; reset_at = now + window }
current_bucket-opened window now none h = refl
current_bucket-opened window now (some b) h = ground arith

-- A client that has no live bucket sends its first request at `start`; then, with any requests of
-- other keys and any sweeps between, as many of its requests up to `start + window` are let
-- through as the limit says, or all of them if they are fewer.
pub admitted_in_window :
    (k : String) (limit window start : ℕ) (es : List Event) (m : MemRateLimiter)
    → Unique m
    → keep_option (is_live start) (lookup k m) ≡ none
    → All (λ e. time_of e ≤ start + window) es
    → admitted k limit window (request k start ∷ es) m ≡ min (suc (requests_of k es)) limit
unfolding admitted
admitted_in_window k limit window start es m u fresh h =
    let opened = current_bucket-opened window start (lookup k m) fresh in
    let counted : MemBucket = record { count = 1; reset_at = start + window } in
    let found : lookup k (allow k limit window start m).0 ≡ some counted =
      ground (arith, lookup-allow k k limit window start m, beq_refl k, opened) in
    let allowed : (allow k limit window start m).1.allowed ≡ leb 1 limit =
      unfold allow in rw opened refl in
    rw (beq_refl k, allowed)
      (ground (
        arith,
        admitted_live k limit window es (allow k limit window start m).0 counted
            (allow-Unique k limit window start m u) found h,
      ))
