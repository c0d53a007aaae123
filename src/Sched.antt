-- ===== src/Sched.antt =====
-- internal/sched/sched.go: a schedule and its validation. The fields that only the API shows, and
-- `Describe` and `newID`, are left out. `time.ParseDuration`, which answers in nanoseconds, and
-- `strings.TrimSpace` are parameters.
pub mod Next
pub mod Engine
use Prim.Native.String.{len}
use control_panel.Base.Text.Numbers.{chars}
use control_panel.Base.{
  ℕ, zero, suc, ◌+◌, ◌-◌, ◌*◌, Bool, true, false, not, ◌&&◌, ◌||◌, Option, none, some, String, List,
  [], ◌∷◌, if◌then◌else◌, ltb, leb, nat_beq, ◌==◌, string_eq, ℤ, pos, negsuc, ltb_ℤ,
}

pub record Schedule : Type 0 where
  pub id : String
  pub name : String
  pub enabled : Bool
  pub every : String
  pub daily : String
  pub weekly : String
  pub action : String
  pub server : String
  pub unit : String
  pub command : String
  pub keep : ℤ
  pub only_if_running : Bool
  pub next_run : ℕ  -- unix ms
  pub last_run : ℕ
  pub last_result : String
  pub retries : ℕ
  pub run_now : Bool

pub data Invalid : Type 0 where
  bad_name bad_action not_one_recurrence bad_interval interval_range bad_daily bad_weekly : Invalid
  no_server no_unit no_command command_lines keep_range : Invalid

abbrev pub is_digit : ℕ → Bool
is_digit c = leb b'0' c && leb c b'9'

unfoldable pub atoi_from : ℕ → List ℕ → ℕ
atoi_from n [] = n
atoi_from n (c ∷ cs) = atoi_from (n * 10 + (c - b'0')) cs

unfoldable pub atoi : List ℕ → ℕ
unfolding atoi_from
atoi = atoi_from 0

-- `([01]\d|2[0-3])`
abbrev pub is_hour : ℕ → ℕ → Bool
is_hour a b =
    (nat_beq a b'0' || nat_beq a b'1') && is_digit b || nat_beq a b'2' && (leb b'0' b && leb b b'3')

-- `([01]\d|2[0-3]):([0-5]\d)`, the hour and the minute, up to the end of the text.
unfoldable pub match_time : List ℕ → Option (ℕ × ℕ)
unfolding atoi
match_time (a ∷ b ∷ c ∷ d ∷ e ∷ []) =
    if is_hour a b && nat_beq c b':' && (leb b'0' d && leb d b'5') && is_digit e
    then some (atoi (a ∷ b ∷ []), atoi (d ∷ e ∷ []))
    else none
match_time _ = none

unfoldable pub weekday_of : ℕ → ℕ → ℕ → Option ℕ
weekday_of a b c =
    if nat_beq a b's' && nat_beq b b'u' && nat_beq c b'n'
    then some 0
    else if nat_beq a b'm' && nat_beq b b'o' && nat_beq c b'n'
    then some 1
    else if nat_beq a b't' && nat_beq b b'u' && nat_beq c b'e'
    then some 2
    else if nat_beq a b'w' && nat_beq b b'e' && nat_beq c b'd'
    then some 3
    else if nat_beq a b't' && nat_beq b b'h' && nat_beq c b'u'
    then some 4
    else if nat_beq a b'f' && nat_beq b b'r' && nat_beq c b'i'
    then some 5
    else if nat_beq a b's' && nat_beq b b'a' && nat_beq c b't'
    then some 6
    else none

abbrev pub with_day : Option ℕ → Option (ℕ × ℕ) → Option (ℕ × ℕ × ℕ)
with_day none t = none
with_day (some w) none = none
with_day (some w) (some (h, m)) = some (w, h, m)

-- `^(sun|mon|…|sat) ([01]\d|2[0-3]):([0-5]\d)$`
unfoldable pub match_weekly : List ℕ → Option (ℕ × ℕ × ℕ)
unfolding match_time weekday_of
match_weekly (a ∷ b ∷ c ∷ s ∷ rest) =
    if nat_beq s b' ' then with_day (weekday_of a b c) (match_time rest) else none
match_weekly _ = none

abbrev pub is_some {ℓ} : {A : Type ℓ} → Option A → Bool
is_some none = false
is_some (some a) = true

unfoldable pub valid_action : String → Bool
valid_action a =
    a == "mc.backup"
    || a == "mc.restart"
    || a == "mc.command"
    || a == "service.restart"
    || a == "snapraid.sync"
    || a == "snapraid.scrub"

abbrev pub has_newline : List ℕ → Bool
has_newline [] = false
has_newline (c ∷ cs) = nat_beq c b'\r' || nat_beq c b'\n' || has_newline cs

abbrev pub minute_ns : ℕ
minute_ns = 60_000_000_000

abbrev pub is_set : String → ℕ
is_set s = if s == "" then 0 else 1

module _ (parse_duration : String → Option ℤ) (trim_space : String → String) where
  -- The `switch` on the recurrence.
  unfoldable pub check_recurrence : Schedule → Option Invalid
  unfolding match_time match_weekly
  check_recurrence s =
      if not (s.every == "")
      then elim (parse_duration s.every) [
        | none ↦ some bad_interval
        | some d ↦
            if ltb_ℤ d (pos (5 * minute_ns)) || ltb_ℤ (pos (30 * 24 * 60 * minute_ns)) d
            then some interval_range
            else none
      ]
      else if not (s.daily == "")
      then (if is_some (match_time (chars s.daily)) then none else some bad_daily)
      else if not (s.weekly == "")
      then (if is_some (match_weekly (chars s.weekly)) then none else some bad_weekly)
      else none

  -- The checks of the action's parameters and of `Keep`.
  unfoldable pub check_action : Schedule → Option Invalid
  check_action s =
      if (s.action == "mc.backup" || s.action == "mc.restart" || s.action == "mc.command")
        && s.server == ""
      then some no_server
      else if s.action == "service.restart" && s.unit == ""
      then some no_unit
      else if s.action == "mc.command" && trim_space s.command == ""
      then some no_command
      else if s.action == "mc.command" && has_newline (chars s.command)
      then some command_lines
      else if ltb_ℤ s.keep (pos 0) || ltb_ℤ (pos 100) s.keep
      then some keep_range
      else none

  -- The result is the error, if any, and the schedule with its name trimmed.
  unfoldable pub validate : Schedule → Option Invalid × Schedule
  unfolding valid_action check_recurrence check_action
  validate s =
      let s' = record s { name = trim_space s.name } in
      if s'.name == "" || ltb 60 (len s'.name)
      then (some bad_name, s')
      else if not (valid_action s'.action)
      then (some bad_action, s')
      else if not (nat_beq (is_set s'.every + is_set s'.daily + is_set s'.weekly) 1)
      then (some not_one_recurrence, s')
      else elim (check_recurrence s') [ some why ↦ (some why, s') | none ↦ (check_action s', s') ]
