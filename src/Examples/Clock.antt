-- ===== src/Examples/Clock.antt =====
-- internal/sched/sched.go: a weekly schedule in a zone without changes of its offset.
use control_panel.Base.{
  ℕ, ◌+◌, ◌*◌, ◌/◌, ◌<◌, ◌≤◌, ◌≡◌, refl, true, false, none, some, Option, String, ℤ, pos, arith,
}
use control_panel.Sched.{Schedule, validate}
use control_panel.Sched.Next.{Calendar, on_day, next_at_time, next}
use control_panel.Sched.Next.First.{IsCalendar, next_at_time_first}
use control_panel.Sched.Next.Valid.{Later, validate-next}

abbrev pub utc : Calendar
utc = record {
  day_of = λ t. t / 86_400_000_000_000;
  date = λ d hh mm. (d * 1440 + hh * 60 + mm) * 60_000_000_000;
}

pub utc-IsCalendar : IsCalendar utc
utc-IsCalendar = record { day_mono = λ a b h. omega arith; day_date = λ d hh mm h m. omega arith }

abbrev pub new_year : ℕ
new_year = 1_767_225_600_000_000_000

next_at_time_first_example :
    (d : ℕ) × (next_at_time utc new_year 4 30 (some 0) ≡ utc.date d 4 30)
    × (new_year < utc.date d 4 30)
    × (on_day (some 0) d ≡ true)
    × ((k : ℕ) → new_year < utc.date k 4 30 → on_day (some 0) k ≡ true → d ≤ k)
next_at_time_first_example =
    next_at_time_first utc utc-IsCalendar new_year 4 30 (some 0) (omega arith) (omega arith)
      (omega arith)

abbrev pub backup : Schedule
backup = record {
  id = "";
  name = "nightly";
  enabled = true;
  every = "";
  daily = "";
  weekly = "sun 04:30";
  action = "mc.backup";
  server = "survival";
  unit = "";
  command = "";
  keep = pos 3;
  only_if_running = false;
  next_run = 0;
  last_run = 0;
  last_result = "";
  retries = 0;
  run_now = false;
}

abbrev pub no_duration : String → Option ℤ
no_duration s = none

abbrev pub as_is : String → String
as_is s = s

backup_valid : validate no_duration as_is backup ≡ (none, backup)
unfolding validate
backup_valid = refl

validate-next_example :
    Later utc utc-IsCalendar no_duration as_is new_year (next utc no_duration backup new_year)
validate-next_example =
    validate-next utc utc-IsCalendar no_duration as_is backup backup new_year backup_valid
