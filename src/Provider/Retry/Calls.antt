-- ===== src/Provider/Retry/Calls.antt =====
-- How often a call is repeated, how long the pauses are, and what is returned.
use vm_orbit.Base.{
  ℕ, zero, suc, ◌+◌, ◌-◌, ◌*◌, ◌≤◌, String, ◌≡◌, refl, sym, if_false, ap, ◌∙◌, inl, inr, Bool, true,
  false, not, ◌||◌, Option, none, some, List, [], ◌∷◌, arith, if◌then◌else◌, Bool-cases, ◌==◌,
  nat_eq, string_eq, ℤ, pos, negsuc, pos_part, ltb_ℤ, ltb, ◌^◌, ◌&&◌, if_true,
}
use native.Mathlib.Omega.{pow_step}
use vm_orbit.Provider.Retry.{
  RetryConfig, Call, call, Retried, last_call, after_pause, accepts, attempts_of, backoff_delay,
  pause_of, or_default, second, decide, after_call, attempts_from, with_retry,
}

-- A call that leads to another: it failed with an error that is retried, and the context goes on.
abbrev pub is_repeated : RetryConfig → Call → Bool
is_repeated cfg (call none c p) = false
is_repeated cfg (call (some e) (some ctx) p) = false
is_repeated cfg (call (some e) none (some ctx)) = false
is_repeated cfg (call (some e) none none) = accepts cfg.should_retry e

-- What the loop returns when it ends with a call.
abbrev pub outcome : RetryConfig → Bool → Call → Option String
outcome cfg is_last (call none c p) = none
outcome cfg is_last (call (some e) (some ctx) p) = some ctx
outcome cfg is_last (call (some e) none none) = some e
outcome cfg is_last (call (some e) none (some ctx)) =
    if is_last || not (accepts cfg.should_retry e) then some e else some ctx

-- How many calls, from the one numbered `attempt` on, are repeated in a row, of at most `left`.
abbrev pub repeats : RetryConfig → (ℕ → Call) → ℕ → ℕ → ℕ
repeats cfg answer zero attempt = 0
repeats cfg answer (suc left) attempt =
    let rest = repeats cfg answer left (suc attempt) in
    if is_repeated cfg (answer attempt) then suc rest else 0

same_suc : (a b : ℕ) → (a == b) ≡ (suc a == suc b)
same_suc a b = ground arith

not_same : (n : ℕ) → false ≡ (0 == suc n)
not_same n = ground arith

-- The number of attempts that a configuration allows.
abbrev pub allowed : ℤ → ℕ
allowed m = if ltb_ℤ (pos 0) m then pos_part m else 1

attempts_of_lem : (n : ℤ) → (attempts_of n ≡ allowed n) × (1 ≤ allowed n)
unfolding attempts_of
attempts_of_lem (negsuc n) = (ground arith, ground arith)
attempts_of_lem (pos zero) = (ground arith, ground arith)
attempts_of_lem (pos (suc n)) = (ground arith, ground arith)

-- Pauses that double from `d` on, cut off at the longest one.
abbrev pub doubling : ℕ → ℕ → ℕ → List ℕ
doubling longest zero d = []
doubling longest (suc n) d = (if ltb longest d then longest else d) ∷ doubling longest n (2 * d)

-- The doubled delays are durations.
abbrev pub fits : ℕ → ℕ → Bool
fits zero d = true
fits (suc n) d = ltb d 9223372036854775808 && fits n (2 * d)

one_more : (n : ℕ) → 1 + n ≡ suc n
one_more n = omega arith

predecessor : (n : ℕ) → suc n - 1 ≡ n
predecessor n = omega arith

double : (a x : ℕ) → a * (2 * x) ≡ 2 * (a * x)
double a x = ground arith

power : (base n : ℕ) → base * 2 ^ suc n ≡ 2 * (base * 2 ^ n)
power base n = ap (λ x. base * x) (pow_step 2 n) ∙ double base (2 ^ n)

module _ (out_of_range : ℤ) (cfg : RetryConfig) (answer : ℕ → Call) where
  -- The pauses after `n` calls from the one numbered `attempt` on.
  abbrev pub pauses_from : ℕ → ℕ → List ℕ
  pauses_from zero attempt = []
  pauses_from (suc n) attempt =
      pause_of out_of_range cfg answer attempt ∷ pauses_from n (suc attempt)

  abbrev described : ℕ → ℕ → ℕ → Retried
  described left attempt n = record {
    calls = suc n;
    pauses = pauses_from n attempt;
    error = outcome cfg (n == left) (answer (attempt + n));
  }

  abbrev pub base_delay : ℕ
  base_delay = or_default cfg.base_delay second

  abbrev pub longest : ℕ
  longest = or_default cfg.max_delay (30 * second)

  last_lem :
      (attempt : ℕ) (c : Call) (again : Retried)
      → after_call out_of_range cfg answer true attempt c again ≡ last_call (outcome cfg true c)
  unfolding after_call decide
  last_lem attempt (call none c p) again = refl
  last_lem attempt (call (some e) (some ctx) p) again = refl
  last_lem attempt (call (some e) none none) again = refl
  last_lem attempt (call (some e) none (some ctx)) again = refl

  next_lem :
      (attempt : ℕ) (c : Call) (again : Retried)
      → after_call out_of_range cfg answer false attempt c again ≡ (
          if is_repeated cfg c
          then after_pause (pause_of out_of_range cfg answer attempt) again
          else last_call (outcome cfg false c))
  unfolding after_call decide
  next_lem attempt (call none c p) again = refl
  next_lem attempt (call (some e) (some ctx) p) again = refl
  next_lem attempt (call (some e) none none) again = ground arith
  next_lem attempt (call (some e) none (some ctx)) again = ground arith

  after_pause-described :
      (left attempt n : ℕ)
      → after_pause (pause_of out_of_range cfg answer attempt) (described left (suc attempt) n)
        ≡ described (suc left) attempt (suc n)
  after_pause-described left attempt n =
      ap
        (λ b. record (described (suc left) attempt (suc n)) {
          error = outcome cfg b (answer (suc attempt + n));
        })
        (same_suc n left)
      ∙ ap
          (λ k. record (described (suc left) attempt (suc n)) {
            error = outcome cfg (suc n == suc left) (answer k);
          })
          (ground arith)

  attempts_from_lem :
      (left attempt : ℕ)
      → attempts_from out_of_range cfg answer left attempt
        ≡ described left attempt (repeats cfg answer left attempt)
  unfolding attempts_from
  attempts_from_lem zero attempt =
      last_lem attempt (answer attempt) _
      ∙ ap (λ n. last_call (outcome cfg true (answer n))) (ground arith)
  attempts_from_lem (suc left) attempt =
      next_lem attempt (answer attempt) _ ∙ elim (Bool-cases (is_repeated cfg (answer attempt))) [
        | inl b ↦ rw b (
            ap (after_pause (pause_of out_of_range cfg answer attempt))
              (attempts_from_lem left (suc attempt))
            ∙ after_pause-described left attempt (repeats cfg answer left (suc attempt)))
        | inr b ↦ rw b (
            ap (λ n. last_call (outcome cfg false (answer n))) (ground arith)
            ∙ ap (λ e. last_call (outcome cfg e (answer (attempt + 0)))) (not_same left))
      ]

  repeats_le : (left attempt : ℕ) → repeats cfg answer left attempt ≤ left
  repeats_le zero attempt = ground arith
  repeats_le (suc left) attempt = ground (arith, repeats_le left (suc attempt))

  abbrev pause_at : ℕ → ℕ
  pause_at x =
      if ltb x 9223372036854775808
      then if ltb longest x then longest else x
      else if ltb_ℤ (pos longest) out_of_range
      then longest
      else pos_part out_of_range

  pauses-doubling :
      (n attempt d : ℕ)
      → base_delay * 2 ^ attempt ≡ d
      → fits n d ≡ true
      → pauses_from n (suc attempt) ≡ doubling longest n d
  unfolding backoff_delay
  pauses-doubling zero attempt d e h = refl
  pauses-doubling (suc n) attempt d e h =
      let first : pause_of out_of_range cfg answer (suc attempt)
          ≡ (if ltb longest d then longest else d) =
        ap (λ k. pause_at (base_delay * 2 ^ k)) (predecessor attempt)
        ∙ ap pause_at e
        ∙ if_true (ltb d 9223372036854775808) _ _ (ground arith) in
      let later =
        pauses-doubling n (suc attempt) (2 * d) (power base_delay attempt ∙ ap (λ x. 2 * x) e)
          (ground arith) in
      ap (λ x. x ∷ pauses_from n (suc (suc attempt))) first
      ∙ ap (λ xs. (if ltb longest d then longest else d) ∷ xs) later

  -- The loop makes its calls up to the first that is not repeated, but no more than the configured
  -- number of attempts, one if that is not positive. It returns what the last call makes it return.
  -- Where the doubled delays fit into 64 bits, it pauses after each repeated call, for the
  -- configured delay first and then for twice as long each time, but never longer than configured.
  pub with_retry_lem :
      let n = repeats cfg answer (allowed cfg.max_attempts - 1) 1 in
      let r = with_retry out_of_range cfg answer in
      (r.calls ≡ suc n)
      × (r.calls ≤ allowed cfg.max_attempts)
      × (r.error ≡ outcome cfg (suc n == allowed cfg.max_attempts) (answer (suc n)))
      × (r.pauses ≡ (if fits n base_delay then doubling longest n base_delay else r.pauses))
  unfolding with_retry
  with_retry_lem =
      let most = allowed cfg.max_attempts - 1 in
      let n = repeats cfg answer most 1 in
      let (few, some_attempts) = attempts_of_lem cfg.max_attempts in
      let same : with_retry out_of_range cfg answer ≡ described most 1 n =
        ap (λ k. attempts_from out_of_range cfg answer (k - 1) 1) few ∙ attempts_from_lem most 1 in
      let last : (n == most) ≡ (suc n == allowed cfg.max_attempts) =
        ground (arith, some_attempts) in
      (
        ap (λ r. r.calls) same,
        rw (ap (λ r. r.calls) same) (ground (arith, repeats_le most 1, some_attempts)),
        ap (λ r. r.error) same
            ∙ ap (λ k. outcome cfg (n == most) (answer k)) (one_more n)
            ∙ ap (λ b. outcome cfg b (answer (suc n))) last,
        elim (Bool-cases (fits n base_delay)) [
          | inr long ↦ sym (if_false (fits n base_delay) _ _ long)
          | inl short ↦
              ap (λ r. r.pauses) same
              ∙ pauses-doubling n 0 base_delay (ground arith) short
              ∙ sym (if_true (fits n base_delay) _ _ short)
        ],
      )
