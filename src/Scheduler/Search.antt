-- ===== src/Scheduler/Search.antt =====
-- The search for the next run: when it ends, and what it finds.
use vm_orbit.Base.{
  ℕ, zero, suc, ◌+◌, ◌*◌, ◌≤◌, ◌<◌, ◌≡◌, refl, inl, inr, Bool, true, ◌&&◌, Option, none, some,
  arith, ltb, ltb→lt, lt→ltb, Bool-cases, Option-cases, nat_eq, string_eq,
}
use vm_orbit.Scheduler.Cron.{CronSchedule}
use vm_orbit.Scheduler.Next.{
  Calendar, four_years, month_rounds, month_after, find_month, advance_to_next_month, advance,
  search, next,
}

-- Time moves on: the starts of the next day and hour are later, and so is a month that is behind
-- the one of the instant.
pub record Forward (c : Calendar) : Type 0 where
  pub twelve_months : (t : ℕ) → c.month t ≤ 12
  pub later_day : (t : ℕ) → t < c.next_day t
  pub later_hour : (t : ℕ) → t < c.next_hour t
  pub later_month : (t y m : ℕ) → c.year t * 12 + c.month t < y * 12 + m → t < c.month_start y m

-- The instant is one that the schedule names.
abbrev pub matches : Calendar → CronSchedule → ℕ → Bool
matches c cs t =
    cs.months (c.month t)
    && (cs.days (c.day t)
        && (cs.weekdays (c.weekday t) && (cs.hours (c.hour t) && cs.minutes (c.minute t))))

-- What Next gives from an instant: the zero time, or a matching instant before the limit.
abbrev pub Found : Calendar → CronSchedule → ℕ → ℕ → Option ℕ → Type 0
Found c cs t limit none = Unit
Found c cs t limit (some n) = (t ≤ n) × (n < limit) × (matches c cs n ≡ true)

Found-earlier :
    (c : Calendar) (cs : CronSchedule) (t t' limit : ℕ) (found : Option ℕ)
    → t ≤ t'
    → Found c cs t' limit found
    → Found c cs t limit found
Found-earlier c cs t t' limit none h f = tt
Found-earlier c cs t t' limit (some n) h f = ground (arith, h, f)

module _ (c : Calendar) (cs : CronSchedule) (f : Forward c) where
  find_month-later :
      (fuel t y m : ℕ)
      → m ≤ 12
      → c.year t * 12 + c.month t ≤ y * 12 + m
      → t < find_month c cs fuel t (y, m)
  unfolding find_month
  find_month-later zero t y m b h = omega arith
  find_month-later (suc fuel) t y m b h =
      let (y', m') = month_after (y, m) in
      let on : y * 12 + m < y' * 12 + m' = ground arith in
      ground (
        arith,
        f.later_month t y' m' (omega (arith, h, on)),
        find_month-later fuel t y' m' (ground arith) (omega (arith, h, on)),
      )

  pub advance-later : (t t' : ℕ) → advance c cs t ≡ some t' → t < t'
  unfolding advance advance_to_next_month
  advance-later t t' h = ground (
    arith,
    h,
    f.later_day t,
    f.later_hour t,
    find_month-later month_rounds t (c.year t) (c.month t) (f.twelve_months t) (omega arith),
  )

  advance-none : (t : ℕ) → advance c cs t ≡ none → matches c cs t ≡ true
  unfolding advance
  advance-none t h = ground arith

  -- With fuel for the minutes up to the limit, the search ends; an instant that it finds is
  -- before the limit, not before the given one, and matches.
  pub search-matches :
      (fuel limit t : ℕ)
      → limit ≤ t + fuel
      → (found : Option ℕ) × (search c cs fuel limit t ≡ some found) × Found c cs t limit found
  unfolding search
  search-matches zero limit t h = (none, ground (arith, h), tt)
  search-matches (suc fuel) limit t h = elim (Bool-cases (ltb t limit)) [
    | inr past ↦ (none, rw past refl, tt)
    | inl inside ↦ elim (Option-cases (advance c cs t)) [
      | inl e ↦
          (some t, rw (inside, e) refl, (omega arith, ltb→lt t limit inside, advance-none t e))
      | inr (t', e) ↦
          let later = advance-later t t' e in
          let (found, s, good) = search-matches fuel limit t' (omega (arith, h, later)) in
          (found, rw (inside, e) s, Found-earlier c cs t t' limit found (omega (arith, later)) good)
    ]
  ]

-- In a location where time moves on, Next returns for every schedule and every time: either the
-- zero time, or an instant behind the given one and less than four years away, in which the
-- month, the day, the weekday, the hour and the minute are all named by the schedule.
pub next-Found :
    (c : Calendar) (cs : CronSchedule) (from_time : ℕ)
    → Forward c
    → (found : Option ℕ) × (next c cs from_time ≡ some found)
      × Found c cs (suc from_time) (suc from_time + four_years) found
unfolding next
next-Found c cs from_time f =
    let same : from_time + 1 ≡ suc from_time = omega arith in
    rw same
      (search-matches c cs f four_years (suc from_time + four_years) (suc from_time) (omega arith))

-- Where the hour that is reached after an hour starts at the instant itself, as it does on the
-- day that clocks are set back, the search for another hour does not end, whatever the fuel.
pub search_stalls :
    (c : Calendar) (cs : CronSchedule) (fuel limit t : ℕ)
    → t < limit
    → advance c cs t ≡ some t
    → search c cs fuel limit t ≡ none
unfolding search
search_stalls c cs zero limit t h e = ground (arith, h)
search_stalls c cs (suc fuel) limit t h e =
    rw (lt→ltb t limit h, e) (search_stalls c cs fuel limit t h e)
