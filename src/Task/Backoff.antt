-- ===== src/Task/Backoff.antt =====
-- internal/task/retry.go: the delay before a retry, in nanoseconds. The multiplier is a whole
-- number, as in DefaultBackoff, the only strategy of the program; a product that float64 rounds is
-- larger than the cap of ten minutes (6 * 10^11 < 2^53), and is then replaced by it either way.
use vm_orbit.Base.{ℕ, zero, suc, ◌*◌, ◌≤◌, ◌<◌, min, ◌≡◌, arith, ltb, if◌then◌else◌}
use native.Mathlib.Nat.{mul-le-mul_left}

pub record BackoffStrategy : Type 0 where
  pub base : ℕ
  pub multiplier : ℕ
  pub max_delay : ℕ

unfoldable pub default_backoff : ℕ → BackoffStrategy
default_backoff base = record { base = base; multiplier = 5; max_delay = 600000000000 }

-- math.Pow with a whole exponent.
unfoldable pub pow : ℕ → ℕ → ℕ
pow m zero = 1
pow m (suc n) = m * pow m n

unfoldable pub delay : BackoffStrategy → ℕ → ℕ
delay b zero = 0
delay b (suc n) =
    let d = b.base * pow b.multiplier n in if ltb b.max_delay d then b.max_delay else d

pow-growth : (m n : ℕ) → 0 < m → pow m n ≤ pow m (suc n)
unfolding pow
pow-growth zero n h = elim h [ ]
pow-growth (suc k) n h = omega arith

-- With a multiplier that is not 0, a retry waits base * multiplier ^ (attempt - 1) or the cap, if
-- that is less, and no retry waits less than the one before it.
delay-bounds :
    (b : BackoffStrategy) (n : ℕ)
    → 0 < b.multiplier
    → (delay b (suc n) ≡ min (b.base * pow b.multiplier n) b.max_delay)
      × (delay b n ≤ delay b (suc n))
unfolding delay
delay-bounds b zero h = ground arith
delay-bounds b (suc n) h =
    let more = mul-le-mul_left b.base (pow-growth b.multiplier n h) in ground arith
