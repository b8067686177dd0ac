-- ===== src/Scheduler/RoundTrip.antt =====
-- Cron expressions that the constructors print, and what parsing them gives.
use vm_orbit.Base.{
  ℕ, zero, suc, ◌+◌, ◌≤◌, ◌<◌, String, ◌≡◌, refl, ap, ◌∙◌, inl, inr, Bool, true, false, ◌&&◌, ◌||◌,
  Option, none, some, List, [], ◌∷◌, map, arith, leb, nat_beq_iff, Bool-cases, ◌==◌, nat_eq,
  string_eq, any, pos, ltb, if_true,
}
use vm_orbit.Scheduler.Cron.{
  CronTexts, Bits, CronSchedule, month_names, weekday_names, no_bits, set_bit, mark, marked,
  name_value, parse_value, parse_single, parse_stepped, parse_part, parse_parts, parse_field,
  parse_five, parse_list, parse_cron, daily_cron, weekly_cron, monthly_cron,
}

-- A field as the constructors print it.
pub data CronWord : Type 0 where
  every : CronWord
  only : ℕ → CronWord

module _ {T : Type 0} (x : CronTexts T) where
  abbrev pub word : CronWord → T
  word every = x.star
  word (only n) = x.itoa n

  -- How Go's library reads back what Sprintf prints: the fields between the blanks, a number or a
  -- star without comma, slash and dash, and the number by its digits, which are no name.
  pub record ReadsBack : Type 0 where
    pub fields-spaced : (ws : List CronWord) → x.fields (x.spaced (map word ws)) ≡ map word ws
    pub split-word : (w : CronWord) → x.split_comma (word w) ≡ word w ∷ []
    pub slash-word : (w : CronWord) → x.cut_slash (word w) ≡ none
    pub dash-number : (n : ℕ) → x.cut_dash (x.itoa n) ≡ none
    pub atoi-itoa : (n : ℕ) → x.atoi (x.itoa n) ≡ some (pos n)
    pub star-same : x.same x.star "*" ≡ true
    pub number-star : (n : ℕ) → x.same (x.itoa n) "*" ≡ false
    pub number-month : (n : ℕ) → any (λ e. x.same (x.to_lower (x.itoa n)) e.0) month_names ≡ false
    pub number-weekday :
        (n : ℕ) → any (λ e. x.same (x.to_lower (x.itoa n)) e.0) weekday_names ≡ false

-- The values that a field stands for, between its bounds.
abbrev pub means : CronWord → ℕ → ℕ → ℕ → Bool
means every min_value max_value v = leb min_value v && leb v max_value
means (only n) min_value max_value v = v == n

abbrev pub fits : CronWord → ℕ → ℕ → Bool
fits every min_value max_value = true
fits (only n) min_value max_value = leb min_value n && leb n max_value

mark-by_one :
    (fuel i hi : ℕ) (bits : Bits) (v : ℕ)
    → hi < i + fuel
    → mark fuel i hi 1 bits v ≡ ((leb i v && leb v hi) || bits v)
unfolding mark
mark-by_one zero i hi bits v h = ground arith
mark-by_one (suc fuel) i hi bits v h = elim (Bool-cases (leb i hi)) [
  | inl inside ↦
      rw inside (ground (arith, mark-by_one fuel (i + 1) hi (set_bit i bits) v, nat_beq_iff v i))
  | inr past ↦ rw past (ground arith)
]

name_value-none :
    {T : Type 0} (x : CronTexts T) (s : T) (names : List (String × ℕ))
    → any (λ e. x.same (x.to_lower s) e.0) names ≡ false
    → name_value x names s ≡ none
unfolding name_value
name_value-none x s [] h = refl
name_value-none x s (e ∷ names) h = ground (arith, name_value-none x s names)

parts-one :
    {T : Type 0} (x : CronTexts T) (min_value max_value : ℕ) (names : List (String × ℕ)) (p : T)
    (bits : Bits)
    → parse_part x min_value max_value names no_bits p ≡ some bits
    → parse_parts x min_value max_value names no_bits (p ∷ []) ≡ some bits
unfolding parse_parts
parts-one x min_value max_value names p bits h = rw (h, parse_parts) refl

abbrev pub Read : Option Bits → CronWord → ℕ → ℕ → Type 0
Read o w min_value max_value =
    (bits : Bits) × (o ≡ some bits) × ((v : ℕ) → bits v ≡ means w min_value max_value v)

module _ {T : Type 0} (x : CronTexts T) (r : ReadsBack x) where
  value-itoa :
      (n : ℕ) (names : List (String × ℕ))
      → any (λ e. x.same (x.to_lower (x.itoa n)) e.0) names ≡ false
      → parse_value x names (x.itoa n) ≡ some (pos n)
  unfolding parse_value
  value-itoa n names h = rw (name_value-none x (x.itoa n) names h, parse_value) (r.atoi-itoa n)

  single_fits :
      (min_value max_value n : ℕ)
      → fits (only n) min_value max_value ≡ true
      → parse_single x min_value max_value no_bits (some (pos n)) ≡ some (set_bit n no_bits)
  unfolding parse_single
  single_fits min_value max_value n h = ground arith

  stepped-Read :
      (min_value max_value : ℕ) (names : List (String × ℕ)) (w : CronWord)
      → fits w min_value max_value ≡ true
      → min_value ≤ 1
      → ((n : ℕ) → any (λ e. x.same (x.to_lower (x.itoa n)) e.0) names ≡ false)
      → Read (parse_stepped x min_value max_value names 1 no_bits (word x w)) w min_value max_value
  unfolding parse_stepped marked
  stepped-Read min_value max_value names every f low unnamed = rw r.star-same (
    mark (suc max_value) min_value max_value 1 no_bits,
    if_true (ltb (min_value + 1) 9223372036854775808) _ _ (ground arith),
    λ v. ground (arith, mark-by_one (suc max_value) min_value max_value no_bits v (omega arith)),
  )
  stepped-Read min_value max_value names (only n) f low unnamed =
      rw (r.number-star n, r.dash-number n, value-itoa n names (unnamed n))
        (set_bit n no_bits, single_fits min_value max_value n f, λ v. ground arith)

  part-word :
      (min_value max_value : ℕ) (names : List (String × ℕ)) (w : CronWord)
      → parse_part x min_value max_value names no_bits (word x w)
        ≡ parse_stepped x min_value max_value names 1 no_bits (word x w)
  unfolding parse_part
  part-word min_value max_value names w = rw (r.slash-word w, parse_part) refl

  field-Read :
      (min_value max_value : ℕ) (names : List (String × ℕ)) (w : CronWord)
      → fits w min_value max_value ≡ true
      → min_value ≤ 1
      → ((n : ℕ) → any (λ e. x.same (x.to_lower (x.itoa n)) e.0) names ≡ false)
      → Read (parse_field x min_value max_value names (word x w)) w min_value max_value
  unfolding parse_field
  field-Read min_value max_value names w f low unnamed =
      let (bits, e, same) = stepped-Read min_value max_value names w f low unnamed in
      (
        bits,
        ap (parse_parts x min_value max_value names no_bits) (r.split-word w)
            ∙ parts-one x min_value max_value names (word x w) bits
                (part-word min_value max_value names w ∙ e),
        same,
      )

-- Each field of the schedule holds exactly the values of its word.
abbrev pub Holds : CronSchedule → CronWord → CronWord → CronWord → CronWord → CronWord → Type 0
Holds cs minute hour day month weekday =
    (v : ℕ)
    → (cs.minutes v ≡ means minute 0 59 v)
      × (cs.hours v ≡ means hour 0 23 v)
      × (cs.days v ≡ means day 1 31 v)
      × (cs.months v ≡ means month 1 12 v)
      × (cs.weekdays v ≡ means weekday 0 6 v)

module _ {T : Type 0} (x : CronTexts T) (r : ReadsBack x) where
  cron-Holds :
      (minute hour day month weekday : CronWord)
      → fits minute 0 59 ≡ true
      → fits hour 0 23 ≡ true
      → fits day 1 31 ≡ true
      → fits month 1 12 ≡ true
      → fits weekday 0 6 ≡ true
      → (cs : CronSchedule) × (parse_cron x
            (x.spaced (map (word x) (minute ∷ hour ∷ day ∷ month ∷ weekday ∷ [])))
          ≡ some cs)
        × Holds cs minute hour day month weekday
  unfolding parse_cron parse_list parse_five
  cron-Holds minute hour day month weekday f1 f2 f3 f4 f5 =
      let (minutes, e1, s1) = field-Read x r 0 59 [] minute f1 (omega arith) (λ n. refl) in
      let (hours, e2, s2) = field-Read x r 0 23 [] hour f2 (omega arith) (λ n. refl) in
      let (days, e3, s3) = field-Read x r 1 31 [] day f3 (omega arith) (λ n. refl) in
      let (months, e4, s4) =
        field-Read x r 1 12 month_names month f4 (omega arith) r.number-month in
      let (weekdays, e5, s5) =
        field-Read x r 0 6 weekday_names weekday f5 (omega arith) r.number-weekday in
      (
        record {
          minutes = minutes;
          hours = hours;
          days = days;
          months = months;
          weekdays = weekdays;
        },
        ap (parse_list x) (r.fields-spaced (minute ∷ hour ∷ day ∷ month ∷ weekday ∷ []))
            ∙ rw (e1, e2, e3, e4, e5, parse_five) refl,
        λ v. (s1 v, s2 v, s3 v, s4 v, s5 v),
      )

-- When Go's library reads back what it prints, ParseCron reads the expressions of DailyCron,
-- WeeklyCron and MonthlyCron as schedules that hold exactly the given minute, hour and day, and
-- every value of the other fields, for arguments within the bounds.
pub parse_cron-constructors :
    {T : Type 0} (x : CronTexts T) (hour minute weekday day : ℕ)
    → ReadsBack x
    → hour < 24
    → minute < 60
    → weekday < 7
    → 1 ≤ day
    → day ≤ 31
    → (daily weekly monthly : CronSchedule) × (parse_cron x (daily_cron x hour minute) ≡ some daily)
      × Holds daily (only minute) (only hour) every every every
      × (parse_cron x (weekly_cron x weekday hour minute) ≡ some weekly)
      × Holds weekly (only minute) (only hour) every every (only weekday)
      × (parse_cron x (monthly_cron x day hour minute) ≡ some monthly)
      × Holds monthly (only minute) (only hour) (only day) every every
unfolding daily_cron weekly_cron monthly_cron
parse_cron-constructors x hour minute weekday day r h m w d1 d2 =
    let fm : fits (only minute) 0 59 ≡ true = ground arith in
    let fh : fits (only hour) 0 23 ≡ true = ground arith in
    let fw : fits (only weekday) 0 6 ≡ true = ground arith in
    let fd : fits (only day) 1 31 ≡ true = ground arith in
    let (daily, e1, s1) =
      cron-Holds x r (only minute) (only hour) every every every fm fh refl refl refl in
    let (weekly, e2, s2) =
      cron-Holds x r (only minute) (only hour) every every (only weekday) fm fh refl refl fw in
    let (monthly, e3, s3) =
      cron-Holds x r (only minute) (only hour) (only day) every every fm fh fd refl refl in
    (daily, weekly, monthly, e1, s1, e2, s2, e3, s3)
