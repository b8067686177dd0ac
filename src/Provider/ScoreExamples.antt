-- ===== src/Provider/ScoreExamples.antt =====
-- Health snapshots with latencies in milliseconds and an average in whole numbers.
use vm_orbit.Provider.Score.{pinged}
use vm_orbit.Provider.Score.{scored}
use vm_orbit.Base.{
  ℕ, ◌+◌, ◌*◌, ◌/◌, ◌≡◌, refl, true, none, some, [], ◌∷◌, ltb, ◌==◌, nat_eq, string_eq,
}
use vm_orbit.Provider.Score.{Latencies, ProviderHealth, build_snapshot, run_checks, Check}
use vm_orbit.Provider.Score.Snapshots.{run_checks-IsDown, IsDown}

abbrev milliseconds : Latencies
milliseconds = record {
  Latency = ℕ;
  zero = 0;
  is_zero = λ l. l == 0;
  mix = λ old new. (7 * old + 3 * new) / 10;
  exceeds = λ a b. ltb b a;
  exceeds_ms = λ a ms. ltb ms a;
}

abbrev online : ProviderHealth milliseconds
online = build_snapshot milliseconds 50 none (some 20) 10 0 0

abbrev down : ℕ → Check milliseconds
down now = record {
  found = true;
  reads = true;
  writes = true;
  now = now;
  connection = none;
  total = 10;
  failed_tasks = 0;
  auth_failures = 0;
}

-- Three failed checks after a successful one.
run_checks-IsDown_example :
    (s : ProviderHealth milliseconds) × (run_checks milliseconds
        (down 60 ∷ down 70 ∷ down 80 ∷ [])
        (some online)
      ≡ some s)
    × IsDown milliseconds 3 s
unfolding build_snapshot scored pinged
run_checks-IsDown_example =
    run_checks-IsDown milliseconds (down 60 ∷ down 70 ∷ []) (down 80) (some online) refl
