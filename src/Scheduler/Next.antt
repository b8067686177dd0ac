-- ===== src/Scheduler/Next.antt =====
-- internal/scheduler/cron.go: Next and advanceToNextMonth. Instants are minutes; the calendar of a
-- location is a parameter.
use vm_orbit.Base.{
  ℕ, zero, suc, ◌+◌, ◌*◌, not, ◌||◌, Option, none, some, ltb, if◌then◌else◌, nat_eq, string_eq,
}
use vm_orbit.Scheduler.Cron.{CronSchedule}

-- The fields of an instant in the location, and the instants that time.Date gives: the start of
-- the next day, of the hour that is reached after an hour, and of a month.
pub record Calendar : Type 0 where
  pub year : ℕ → ℕ
  pub month : ℕ → ℕ
  pub day : ℕ → ℕ
  pub weekday : ℕ → ℕ
  pub hour : ℕ → ℕ
  pub minute : ℕ → ℕ
  pub next_day : ℕ → ℕ
  pub next_hour : ℕ → ℕ
  pub month_start : ℕ → ℕ → ℕ

abbrev pub four_years : ℕ
four_years = 4 * 365 * 24 * 60

-- The rounds that the search for a month takes at most: the year is then past the fifth one.
abbrev pub month_rounds : ℕ
month_rounds = 84

-- The month and the year behind the given ones.
abbrev pub month_after : ℕ × ℕ → ℕ × ℕ
month_after (y, m) = if ltb 12 (suc m) then (suc y, 1) else (y, suc m)

module _ (c : Calendar) (cs : CronSchedule) where
  -- The loop of advanceToNextMonth from the instant, at a year and a month.
  unfoldable pub find_month : ℕ → ℕ → ℕ × ℕ → ℕ
  find_month zero t at_month = t + four_years
  find_month (suc fuel) t at_month =
      let next = month_after at_month in
      let rest = find_month fuel t next in
      if cs.months next.1
      then c.month_start next.0 next.1
      else (if ltb (c.year t + 5) next.0 then t + four_years else rest)

  unfoldable pub advance_to_next_month : ℕ → ℕ
  advance_to_next_month t = find_month month_rounds t (c.year t, c.month t)

  -- One round of Next: `none` when the instant matches, else the instant to go on with.
  unfoldable pub advance : ℕ → Option ℕ
  advance t =
      if not (cs.months (c.month t))
      then some (advance_to_next_month t)
      else (if not (cs.days (c.day t)) || not (cs.weekdays (c.weekday t))
          then some (c.next_day t)
          else (if not (cs.hours (c.hour t))
              then some (c.next_hour t)
              else (if not (cs.minutes (c.minute t)) then some (t + 1) else none)))

  -- The loop of Next: `some none` is the zero time, and `none` that the fuel has run out.
  unfoldable pub search : ℕ → ℕ → ℕ → Option (Option ℕ)
  search zero limit t = if ltb t limit then none else some none
  search (suc fuel) limit t =
      if ltb t limit
      then (elim (advance t) [ none ↦ some (some t) | some t' ↦ search fuel limit t' ])
      else some none

  unfoldable pub next : ℕ → Option (Option ℕ)
  next from_time = search four_years (from_time + 1 + four_years) (from_time + 1)
