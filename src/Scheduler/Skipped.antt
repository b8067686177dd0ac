-- ===== src/Scheduler/Skipped.antt =====
-- The search for the next run skips no instant that matches, where clocks are never set.
use vm_orbit.Base.{
  ℕ, zero, suc, ◌+◌, ◌*◌, ◌≤◌, ◌<◌, ◌≡◌, ap, ◌∙◌, inl, inr, false, ◌&&◌, Option, none, some, arith,
  ltb, leb, ltb→lt, leb→le, Bool-cases, Option-cases, nat_eq, string_eq,
}
use vm_orbit.Scheduler.Cron.{CronSchedule}
use vm_orbit.Scheduler.Next.{
  Calendar, four_years, month_rounds, month_after, find_month, advance_to_next_month, advance,
  search, next,
}
use vm_orbit.Scheduler.Search.{Forward, matches, Found, search-matches}

-- A location whose clocks are never set: up to the start of the next hour or day, the hour or the
-- day stays the same; months have numbers from 1 to 12, follow each other, and the start of a month
-- is not before the instants of an earlier one.
pub record Steady (c : Calendar) : Type 0 where
  pub forward : Forward c
  pub first_month : (t : ℕ) → 1 ≤ c.month t
  pub same_hour : (t n : ℕ) → t ≤ n → n < c.next_hour t → c.hour n ≡ c.hour t
  pub same_day :
      (t n : ℕ) → t ≤ n → n < c.next_day t → (c.day n ≡ c.day t) × (c.weekday n ≡ c.weekday t)
  pub months_on : (t n : ℕ) → t ≤ n → c.year t * 12 + c.month t ≤ c.year n * 12 + c.month n
  pub month_before :
      (t n y m : ℕ)
      → c.year t * 12 + c.month t < y * 12 + m
      → n < c.month_start y m
      → 1 ≤ m
      → m ≤ 12
      → c.year n * 12 + c.month n < y * 12 + m

-- No instant from the given one up to what the search finds matches.
abbrev pub Skipped : Calendar → CronSchedule → ℕ → ℕ → Option ℕ → ℕ → Type 0
Skipped c cs t limit none k = (leb t k && ltb k limit && matches c cs k) ≡ false
Skipped c cs t limit (some n) k = (leb t k && ltb k n && matches c cs k) ≡ false

module _ (c : Calendar) (cs : CronSchedule) (l : Steady c) where
  -- No month from the one of an instant up to the given one is named by the schedule.
  abbrev Passed : ℕ → ℕ → ℕ → Type 0
  Passed t y m =
      (y' m' : ℕ)
      → 1 ≤ m'
      → m' ≤ 12
      → c.year t * 12 + c.month t ≤ y' * 12 + m'
      → y' * 12 + m' ≤ y * 12 + m
      → cs.months m' ≡ false

  -- Twelve months without one that is named leave none.
  whole_year :
      (t y m k : ℕ)
      → Passed t y m
      → c.year t * 12 + 24 ≤ y * 12 + m
      → 1 ≤ k
      → k ≤ 12
      → cs.months k ≡ false
  whole_year t y m k passed h low high =
      passed (suc (c.year t)) k low high (omega (arith, l.forward.twelve_months t))
        (omega (arith, h, high))

  Passed-next :
      (t y m : ℕ)
      → 1 ≤ m
      → m ≤ 12
      → Passed t y m
      → cs.months (month_after (y, m)).1 ≡ false
      → Passed t (month_after (y, m)).0 (month_after (y, m)).1
  Passed-next t y m low high passed off y' m' low' high' from upto =
      elim (Bool-cases (leb (y' * 12 + m') (y * 12 + m))) [
        | inl e ↦ passed y' m' low' high' from (leb→le (y' * 12 + m') (y * 12 + m) e)
        | inr e ↦ let same : m' ≡ (month_after (y, m)).1 = ground arith in ap cs.months same ∙ off
      ]

  find_month-skips :
      (fuel t y m n : ℕ)
      → 1 ≤ m
      → m ≤ 12
      → c.year t * 12 + c.month t ≤ y * 12 + m
      → c.year t * 12 + 24 ≤ y * 12 + m + fuel
      → Passed t y m
      → t ≤ n
      → n < find_month c cs fuel t (y, m)
      → cs.months (c.month n) ≡ false
  unfolding find_month
  find_month-skips zero t y m n low high begun enough passed from before =
      whole_year t y m (c.month n) passed (omega (arith, enough)) (l.first_month n)
        (l.forward.twelve_months n)
  find_month-skips (suc fuel) t y m n low high begun enough passed from before =
      let (y', m') = month_after (y, m) in
      let code : y' * 12 + m' ≡ y * 12 + m + 1 = ground arith in
      let low' : 1 ≤ m' = ground arith in
      let high' : m' ≤ 12 = ground arith in
      elim (Bool-cases (cs.months m')) [
        | inl e ↦
            let b = rw e at before in
            passed (c.year n) (c.month n) (l.first_month n) (l.forward.twelve_months n)
              (l.months_on t n from)
              (omega
                (arith, code, l.month_before t n y' m' (omega (arith, code, begun)) b low' high'))
        | inr e ↦
            let p' = Passed-next t y m low high passed e in
            elim (Bool-cases (ltb (c.year t + 5) y')) [
              | inl past ↦
                  whole_year t y' m' (c.month n) p' (omega (arith, ltb→lt (c.year t + 5) y' past))
                    (l.first_month n) (l.forward.twelve_months n)
              | inr going ↦
                  find_month-skips fuel t y' m' n low' high' (omega (arith, code, begun))
                    (omega (arith, code, enough)) p' from (rw (e, going) at before)
            ]
      ]

  Passed-start : (t : ℕ) → cs.months (c.month t) ≡ false → Passed t (c.year t) (c.month t)
  Passed-start t off y' m' low high from upto =
      let high_t = l.forward.twelve_months t in
      let low_t = l.first_month t in
      let same : m' ≡ c.month t = omega arith in ap cs.months same ∙ off

  month_skips :
      (t n : ℕ)
      → cs.months (c.month t) ≡ false
      → t ≤ n
      → n < advance_to_next_month c cs t
      → cs.months (c.month n) ≡ false
  unfolding advance_to_next_month
  month_skips t n off from before =
      find_month-skips month_rounds t (c.year t) (c.month t) n (l.first_month t)
        (l.forward.twelve_months t) (omega arith) (omega (arith, l.first_month t))
        (Passed-start t off) from before

  advance-skips : (t t' n : ℕ) → advance c cs t ≡ some t' → t ≤ n → n < t' → matches c cs n ≡ false
  unfolding advance
  advance-skips t t' n h from before = elim (Bool-cases (cs.months (c.month t))) [
    | inr off ↦
        let to : advance_to_next_month c cs t ≡ t' = ground (arith, h, off) in
        ground (arith, month_skips t n off from (rw to before))
    | inl on ↦ elim (Bool-cases (cs.days (c.day t) && cs.weekdays (c.weekday t))) [
      | inr off ↦
          let to : c.next_day t ≡ t' = ground (arith, h, on, off) in
          let (day, weekday) = l.same_day t n from (rw to before) in
          ground (arith, off, ap cs.days day, ap cs.weekdays weekday)
      | inl day_on ↦ elim (Bool-cases (cs.hours (c.hour t))) [
        | inr off ↦
            let to : c.next_hour t ≡ t' = ground (arith, h, on, day_on, off) in
            ground (arith, off, ap cs.hours (l.same_hour t n from (rw to before)))
        | inl hour_on ↦
            let here : n ≡ t = ground (arith, h, on, day_on, hour_on, before) in
            ground (arith, h, ap (matches c cs) here)
      ]
    ]
  ]

  Skipped-earlier :
      (t t' limit k : ℕ) (found : Option ℕ)
      → (t ≤ k → k < t' → matches c cs k ≡ false)
      → Skipped c cs t' limit found k
      → Skipped c cs t limit found k
  Skipped-earlier t t' limit k none h s = ground (arith, h, s)
  Skipped-earlier t t' limit k (some n) h s = ground (arith, h, s)

  outside :
      (limit t k : ℕ) (found : Option ℕ)
      → ltb t limit ≡ false
      → some none ≡ some found
      → Skipped c cs t limit found k
  outside limit t k none past e = ground (arith, past)
  outside limit t k (some n) past e = absurd (ground (arith, e))

  here :
      (limit t k : ℕ) (found : Option ℕ) → some (some t) ≡ some found → Skipped c cs t limit found k
  here limit t k none e = absurd (ground (arith, e))
  here limit t k (some n) e = ground (arith, e)

  search-skips :
      (fuel limit t k : ℕ) (found : Option ℕ)
      → search c cs fuel limit t ≡ some found
      → Skipped c cs t limit found k
  unfolding search
  search-skips zero limit t k none e = ground (arith, e)
  search-skips zero limit t k (some n) e = absurd (ground (arith, e))
  search-skips (suc fuel) limit t k found e = elim (Bool-cases (ltb t limit)) [
    | inr past ↦ outside limit t k found past (rw past at e)
    | inl inside ↦ elim (Option-cases (advance c cs t)) [
      | inl stop ↦ here limit t k found (rw (inside, stop) at e)
      | inr (t', on) ↦
          Skipped-earlier t t' limit k found (advance-skips t t' k on)
            (search-skips fuel limit t' k found (rw (inside, on) at e))
    ]
  ]

-- In a location whose clocks are never set, Next skips no run: no instant between the given one
-- and the one that it finds matches the schedule, and when it finds none, no instant of the
-- four years behind the given one matches.
pub next-Skipped :
    (c : Calendar) (cs : CronSchedule) (from_time k : ℕ)
    → Steady c
    → (found : Option ℕ) × (next c cs from_time ≡ some found)
      × Found c cs (suc from_time) (suc from_time + four_years) found
      × Skipped c cs (suc from_time) (suc from_time + four_years) found k
unfolding next
next-Skipped c cs from_time k l =
    let same : from_time + 1 ≡ suc from_time = omega arith in
    let limit = suc from_time + four_years in
    let (found, e, good) =
      search-matches c cs l.forward four_years limit (suc from_time) (omega arith) in
    rw same (found, e, good, search-skips c cs l four_years limit (suc from_time) k found e)
