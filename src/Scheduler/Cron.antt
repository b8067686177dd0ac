-- ===== src/Scheduler/Cron.antt =====
-- internal/scheduler/cron.go: ParseCron and the constructors of cron expressions. Texts are a
-- parameter, with what Go's library does with them.
use vm_orbit.Base.{
  ℕ, zero, suc, ◌+◌, String, Bool, false, ◌||◌, Option, none, some, List, [], ◌∷◌, leb,
  if◌then◌else◌, ◌==◌, nat_eq, string_eq, ℤ, pos, pos_part, ltb_ℤ, ltb,
}

infixl 5 ◌>>=◌
abbrev ◌>>=◌ : {A B : Type 0} → Option A → (A → Option B) → Option B
none >>= f = none
some a >>= f = f a

-- strings.Fields, Split at a comma, the text before and behind the first slash or dash, ToLower,
-- strconv.Atoi, equality with a literal; the last three are what Sprintf puts together: %d, the
-- star, and the fields with blanks between them.
pub record CronTexts (T : Type 0) : Type 0 where
  pub fields : T → List T
  pub split_comma : T → List T
  pub cut_slash : T → Option (T × T)
  pub cut_dash : T → Option (T × T)
  pub to_lower : T → T
  pub atoi : T → Option ℤ
  pub same : T → String → Bool
  pub itoa : ℕ → T
  pub star : T
  pub spaced : List T → T

-- The bits of a field by the value that they stand for: bits[v-min] is the bit of v.
abbrev pub Bits : Type 0
Bits = ℕ → Bool

pub record CronSchedule : Type 0 where
  pub minutes : Bits
  pub hours : Bits
  pub days : Bits
  pub months : Bits
  pub weekdays : Bits

abbrev pub month_names : List (String × ℕ)
month_names =
    ("jan", 1)
    ∷ ("feb", 2)
    ∷ ("mar", 3)
    ∷ ("apr", 4)
    ∷ ("may", 5)
    ∷ ("jun", 6)
    ∷ ("jul", 7)
    ∷ ("aug", 8)
    ∷ ("sep", 9)
    ∷ ("oct", 10)
    ∷ ("nov", 11)
    ∷ ("dec", 12)
    ∷ []

abbrev pub weekday_names : List (String × ℕ)
weekday_names =
    ("sun", 0) ∷ ("mon", 1) ∷ ("tue", 2) ∷ ("wed", 3) ∷ ("thu", 4) ∷ ("fri", 5) ∷ ("sat", 6) ∷ []

abbrev pub no_bits : Bits
no_bits v = false

abbrev pub set_bit : ℕ → Bits → Bits
set_bit k bits v = (v == k) || bits v

-- The loop from a value to the last one by the step; it ends within as many rounds as values.
unfoldable pub mark : ℕ → ℕ → ℕ → ℕ → Bits → Bits
mark zero i hi step bits = bits
mark (suc fuel) i hi step bits =
    let rest = mark fuel (i + step) hi step (set_bit i bits) in if leb i hi then rest else bits

-- The same on indices of 64 bits: a first step that leaves them makes the index negative, and the
-- source panics, which is `none` like an expression that is refused. No later step can leave them, since
-- the last value of a field is small.
unfoldable pub marked : ℕ → ℕ → ℕ → ℕ → Bits → Option Bits
marked fuel lo hi step bits =
    if ltb (lo + step) 9223372036854775808 then some (mark fuel lo hi step bits) else none

module _ {T : Type 0} (x : CronTexts T) where
  unfoldable pub name_value : List (String × ℕ) → T → Option ℕ
  name_value [] s = none
  name_value ((name, v) ∷ names) s =
      let rest = name_value names s in if x.same (x.to_lower s) name then some v else rest

  unfoldable pub parse_value : List (String × ℕ) → T → Option ℤ
  parse_value names s = elim (name_value names s) [ none ↦ x.atoi s | some v ↦ some (pos v) ]

  -- A range `lo-hi` inside the bounds, marked by the step.
  unfoldable pub parse_range : ℕ → ℕ → ℕ → Bits → Option ℤ → Option ℤ → Option Bits
  parse_range min_value max_value step bits (some lo) (some hi) =
      if ltb_ℤ lo (pos min_value) || (ltb_ℤ (pos max_value) hi || ltb_ℤ hi lo)
      then none
      else marked (suc max_value) (pos_part lo) (pos_part hi) step bits
  parse_range min_value max_value step bits _ _ = none

  unfoldable pub parse_single : ℕ → ℕ → Bits → Option ℤ → Option Bits
  parse_single min_value max_value bits none = none
  parse_single min_value max_value bits (some v) =
      if ltb_ℤ v (pos min_value) || ltb_ℤ (pos max_value) v
      then none
      else some (set_bit (pos_part v) bits)

  unfoldable pub parse_stepped : ℕ → ℕ → List (String × ℕ) → ℕ → Bits → T → Option Bits
  parse_stepped min_value max_value names step bits part =
      if x.same part "*"
      then marked (suc max_value) min_value max_value step bits
      else (elim (x.cut_dash part) [
        | some (lo, hi) ↦
            parse_range min_value max_value step bits (parse_value names lo) (parse_value names hi)
        | none ↦ parse_single min_value max_value bits (parse_value names part)
      ])

  -- The step behind a slash, a number from 1.
  unfoldable pub parse_step : Option ℤ → Option ℕ
  parse_step none = none
  parse_step (some n) = if ltb_ℤ n (pos 1) then none else some (pos_part n)

  unfoldable pub parse_part : ℕ → ℕ → List (String × ℕ) → Bits → T → Option Bits
  parse_part min_value max_value names bits part = elim (x.cut_slash part) [
    | none ↦ parse_stepped min_value max_value names 1 bits part
    | some (front, behind) ↦ elim (parse_step (x.atoi behind)) [
      | none ↦ none
      | some step ↦ parse_stepped min_value max_value names step bits front
    ]
  ]

  unfoldable pub parse_parts : ℕ → ℕ → List (String × ℕ) → Bits → List T → Option Bits
  parse_parts min_value max_value names bits [] = some bits
  parse_parts min_value max_value names bits (part ∷ parts) =
      elim (parse_part min_value max_value names bits part) [
        | none ↦ none
        | some bits' ↦ parse_parts min_value max_value names bits' parts
      ]

  unfoldable pub parse_field : ℕ → ℕ → List (String × ℕ) → T → Option Bits
  parse_field min_value max_value names field =
      parse_parts min_value max_value names no_bits (x.split_comma field)

  unfoldable pub parse_five : T → T → T → T → T → Option CronSchedule
  parse_five minute hour day month weekday = do
    minutes ← parse_field 0 59 [] minute
    hours ← parse_field 0 23 [] hour
    days ← parse_field 1 31 [] day
    months ← parse_field 1 12 month_names month
    weekdays ← parse_field 0 6 weekday_names weekday
    some (record {
      minutes = minutes;
      hours = hours;
      days = days;
      months = months;
      weekdays = weekdays;
    })

  unfoldable pub parse_list : List T → Option CronSchedule
  parse_list (minute ∷ hour ∷ day ∷ month ∷ weekday ∷ []) = parse_five minute hour day month weekday
  parse_list _ = none

  unfoldable pub parse_cron : T → Option CronSchedule
  parse_cron expr = parse_list (x.fields expr)

  unfoldable pub daily_cron : ℕ → ℕ → T
  daily_cron hour minute = x.spaced (x.itoa minute ∷ x.itoa hour ∷ x.star ∷ x.star ∷ x.star ∷ [])

  unfoldable pub weekly_cron : ℕ → ℕ → ℕ → T
  weekly_cron weekday hour minute =
      x.spaced (x.itoa minute ∷ x.itoa hour ∷ x.star ∷ x.star ∷ x.itoa weekday ∷ [])

  unfoldable pub monthly_cron : ℕ → ℕ → ℕ → T
  monthly_cron day hour minute =
      x.spaced (x.itoa minute ∷ x.itoa hour ∷ x.itoa day ∷ x.star ∷ x.star ∷ [])
