-- ===== src/Scheduler/Examples.antt =====
-- Concrete schedules: a calendar of equal months, texts of symbols, and runs.
use vm_orbit.Base.{
  ℕ, suc, ◌+◌, ◌-◌, ◌*◌, ◌/◌, ◌%◌, String, ◌≡◌, refl, ap, Bool, true, false, Option, none, some,
  List, [], ◌∷◌, ◌++◌, map, arith, if◌then◌else◌, ◌==◌, nat_eq, string_eq, ℤ, pos,
}
use vm_orbit.Scheduler.Cron.{
  CronTexts, CronSchedule, parse_cron, daily_cron, weekly_cron, monthly_cron,
}
use vm_orbit.Scheduler.RoundTrip.{
  CronWord, every, only, word, ReadsBack, Holds, parse_cron-constructors,
}
use vm_orbit.Scheduler.Next.{Calendar, four_years, next, advance, search}
use vm_orbit.Scheduler.Search.{Forward, Found, next-Found, search_stalls}
use vm_orbit.Scheduler.Skipped.{Steady, Skipped, next-Skipped}
use vm_orbit.Scheduler.Fire.{
  vm_power_off, once, active, Schedule, SchedulerOps, World, SchedulerStore, compute_next_run, fire,
  run_schedule, after_run, new_status, execution_of, dispatch, dispatch_by, dispatch_vm_op,
  dispatch_each, ExecutionStatus, RunOutcome, operation_failed,
}

-- Texts as lists of symbols.
data Symbol : Type 0 where
  blank asterisk comma slash dash : Symbol
  number : ℕ → Symbol

abbrev words : List Symbol → List (List Symbol)
words [] = []
words (blank ∷ s) = words s
words (c ∷ s) = (c ∷ []) ∷ words s

abbrev reads_number : List Symbol → Option ℤ
reads_number (number n ∷ []) = some (pos n)
reads_number _ = none

abbrev reads_star : List Symbol → String → Bool
reads_star (asterisk ∷ []) name = name == "*"
reads_star _ name = false

abbrev print_fields : List (List Symbol) → List Symbol
print_fields [] = []
print_fields (s ∷ ss) = s ++ blank ∷ print_fields ss

abbrev texts : CronTexts (List Symbol)
texts = record {
  fields = words;
  split_comma = λ s. s ∷ [];
  cut_slash = λ s. none;
  cut_dash = λ s. none;
  to_lower = λ s. s;
  atoi = reads_number;
  same = reads_star;
  itoa = λ n. number n ∷ [];
  star = asterisk ∷ [];
  spaced = print_fields;
}

words-spaced :
    (ws : List CronWord) → words (print_fields (map (word texts) ws)) ≡ map (word texts) ws
words-spaced [] = refl
words-spaced (every ∷ ws) = ap (λ l. (asterisk ∷ []) ∷ l) (words-spaced ws)
words-spaced (only n ∷ ws) = ap (λ l. (number n ∷ []) ∷ l) (words-spaced ws)

texts-ReadsBack : ReadsBack texts
texts-ReadsBack = record {
  fields-spaced = words-spaced;
  split-word = λ w. refl;
  slash-word = λ w. refl;
  dash-number = λ n. refl;
  atoi-itoa = λ n. refl;
  star-same = refl;
  number-star = λ n. refl;
  number-month = λ n. refl;
  number-weekday = λ n. refl;
}

-- Half past two, on Mondays or on the last day of a month.
parse_cron-constructors_example :
    (daily weekly monthly : CronSchedule) × (parse_cron texts (daily_cron texts 2 30) ≡ some daily)
    × Holds daily (only 30) (only 2) every every every
    × (parse_cron texts (weekly_cron texts 1 2 30) ≡ some weekly)
    × Holds weekly (only 30) (only 2) every every (only 1)
    × (parse_cron texts (monthly_cron texts 31 2 30) ≡ some monthly)
    × Holds monthly (only 30) (only 2) (only 31) every every
parse_cron-constructors_example =
    parse_cron-constructors texts 2 30 1 31 texts-ReadsBack (omega arith) (omega arith)
      (omega arith) (omega arith) (omega arith)

-- Months of 31 days and years of 12 of them.
abbrev month_minutes : ℕ
month_minutes = 31 * 1440

abbrev calendar : Calendar
calendar = record {
  year = λ t. t / month_minutes / 12;
  month = λ t. suc (t / month_minutes % 12);
  day = λ t. suc (t / 1440 % 31);
  weekday = λ t. t / 1440 % 7;
  hour = λ t. t / 60 % 24;
  minute = λ t. t % 60;
  next_day = λ t. suc (t / 1440) * 1440;
  next_hour = λ t. suc (t / 60) * 60;
  month_start = λ y m. (y * 12 + (m - 1)) * month_minutes;
}

calendar-Forward : Forward calendar
calendar-Forward = record {
  twelve_months = λ t. ground arith;
  later_day = λ t. ground arith;
  later_hour = λ t. ground arith;
  later_month = λ t y m h. ground (arith, h);
}

calendar-Steady : Steady calendar
calendar-Steady = record {
  forward = calendar-Forward;
  first_month = λ t. ground arith;
  same_hour = λ t n from before.
      let same : n / 60 ≡ t / 60 = omega (arith, from, before) in ap (λ h. h % 24) same;
  same_day = λ t n from before.
      let same : n / 1440 ≡ t / 1440 = omega (arith, from, before) in
      (ap (λ d. suc (d % 31)) same, ap (λ d. d % 7) same);
  months_on = λ t n from. ground (arith, from);
  month_before = λ t n y m later before low high. ground (arith, later, before, low, high);
}

abbrev half_past_two : CronSchedule
half_past_two = record {
  minutes = λ v. v == 30;
  hours = λ v. v == 2;
  days = λ v. true;
  months = λ v. true;
  weekdays = λ v. true;
}

next-Skipped_example :
    (found : Option ℕ) × (next calendar half_past_two 150 ≡ some found)
    × Found calendar half_past_two 151 (151 + four_years) found
    × Skipped calendar half_past_two 151 (151 + four_years) found 1500
next-Skipped_example = next-Skipped calendar half_past_two 150 1500 calendar-Steady

next-Found_example :
    (found : Option ℕ) × (next calendar half_past_two 150 ≡ some found)
    × Found calendar half_past_two 151 (151 + four_years) found
next-Found_example = next-Found calendar half_past_two 150 calendar-Forward

-- Clocks that are set back at three: the hour that follows the hour from 60 starts at 60 again.
abbrev set_back : Calendar
set_back = record calendar { next_hour = λ t. if t == 60 then 60 else suc (t / 60) * 60 }

search_at_night : search set_back half_past_two 100 1000 60 ≡ none
unfolding advance
search_at_night = search_stalls set_back half_past_two 100 1000 60 (omega arith) stuck
  where
    stuck : advance set_back half_past_two 60 ≡ some 60
    stuck = refl

-- The second machine cannot be stopped.
abbrev stop_one : String → Option String
stop_one vm = if vm == "vm-1" then some "task-1" else none

abbrev ops : SchedulerOps
ops = record {
  sync_inventory = λ h. none;
  power_on = λ vm. none;
  power_off = stop_one;
  reboot = λ vm. none;
  snapshot = λ spec vm. none;
  bulk_power_on = λ vms. none;
  bulk_power_off = λ vms. none;
  bulk_reboot = λ vms. none;
  bulk_snapshot = λ spec vms. none;
}

abbrev world : World
world = record {
  ops = ops;
  scheduled_name = "scheduled";
  describe = λ name. name;
  describe_bulk = λ name. name;
  enqueues = λ task. true;
  now = 900;
  load_location = λ name. none;
  utc = calendar;
  execution_created = true;
  schedule_updated = true;
}

abbrev evening : Schedule (List Symbol)
evening = record {
  id = 5;
  name = "evening";
  operation_type = vm_power_off;
  target_ids = "vm-1" ∷ "vm-2" ∷ "vm-3" ∷ [];
  schedule_type = once;
  cron_expression = [];
  timezone = "UTC";
  status = active;
  last_run_at = none;
  next_run_at = some 800;
  last_task_id = none;
  last_run_status = none;
  run_count = 0;
  failure_count = 0;
  max_runs = 0;
  expires_at = none;
  snapshot_name = none;
}

abbrev evening_store : SchedulerStore (List Symbol)
evening_store = record { enqueued = []; executions = []; stored = evening }

-- The task of the first machine is started and enqueued, and the run has no task.
evening_run :
    fire texts world evening 800 evening_store
    ≡ some (record {
      enqueued = "task-1" ∷ [];
      executions =
          record {
            schedule_id = 5;
            task_id = none;
            status = ExecutionStatus.failed;
            error_message = some operation_failed;
            triggered_at = 800;
          }
          ∷ [];
      stored = record evening {
        last_run_at = some 800;
        next_run_at = none;
        last_run_status = some RunOutcome.failed;
        run_count = 1;
        failure_count = 1;
      };
    })
unfolding fire compute_next_run vm_orbit.Scheduler.Fire.next_run_by run_schedule after_run
    new_status execution_of dispatch dispatch_by dispatch_vm_op dispatch_each
evening_run = refl
