-- ===== src/Sched/Next.antt =====
-- internal/sched/sched.go: the next occurrence of a schedule. An instant is a count of nanoseconds
-- since 1970; Go's calendar is a parameter: the civil day of an instant, counted from 1970-01-01 in
-- the server's zone, and `time.Date` at a civil day, hour and minute.
pub mod First
pub mod Valid
use control_panel.Base.{
  ℕ, zero, suc, ◌+◌, ◌-◌, ◌*◌, ◌/◌, ◌%◌, ◌≤◌, ◌<◌, ◌≡◌, Bool, true, false, not, ◌&&◌, ◌||◌, Option,
  none, some, String, if◌then◌else◌, ltb, nat_beq, ◌==◌, string_eq, ℤ, pos_part, neg_part,
}
use control_panel.Base.Text.Numbers.{chars}
use control_panel.Sched.{Schedule, match_time, match_weekly, minute_ns}

pub record Calendar : Type 0 where
  pub day_of : ℕ → ℕ
  pub date : ℕ → ℕ → ℕ → ℕ

abbrev pub hour_ns : ℕ
hour_ns = 60 * minute_ns

-- 1970-01-01 was a Thursday.
abbrev pub weekday : ℕ → ℕ
weekday day = (day + 4) % 7

abbrev pub on_day : Option ℕ → ℕ → Bool
on_day none d = true
on_day (some w) d = nat_beq (weekday d) w

abbrev pub unix_milli : ℕ → ℕ
unix_milli t = t / 1_000_000

-- `now.Add(d)`; before 1970 is out of range.
abbrev pub add_duration : ℕ → ℤ → ℕ
add_duration t d = t + pos_part d - neg_part d

module _ (cal : Calendar) where
  -- The loop of `nextAtTime`.
  unfoldable pub next_loop : ℕ → ℕ → ℕ → ℕ → Option ℕ → ℕ → ℕ
  next_loop zero now hh mm day t = t
  next_loop (suc i) now hh mm day t =
      let rest = next_loop i now hh mm day (cal.date (cal.day_of t + 1) hh mm) in
      if ltb now t && on_day day (cal.day_of t) then t else rest

  unfoldable pub next_at_time : ℕ → ℕ → ℕ → Option ℕ → ℕ
  unfolding next_loop
  next_at_time now hh mm day = next_loop 8 now hh mm day (cal.date (cal.day_of now) hh mm)

  -- `none` is a panic: an index into a failed match.
  unfoldable pub next : (String → Option ℤ) → Schedule → ℕ → Option ℕ
  unfolding match_time match_weekly next_at_time
  next parse_duration s now =
      if not (s.every == "")
      then elim (parse_duration s.every) [ none ↦ some now | some d ↦ some (add_duration now d) ]
      else if not (s.daily == "")
      then elim (match_time (chars s.daily)) [
        | none ↦ none
        | some (hh, mm) ↦ some (next_at_time now hh mm none)
      ]
      else if not (s.weekly == "")
      then elim (match_weekly (chars s.weekly)) [
        | none ↦ none
        | some (w, hh, mm) ↦ some (next_at_time now hh mm (some w))
      ]
      else some (now + hour_ns)
