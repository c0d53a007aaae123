-- ===== src/Examples/Runs.antt =====
-- internal/sched/engine.go: a schedule that fails four times, and one that is deleted as it runs.
use mathlib.Core.List.{map}
use control_panel.Base.{
  ℕ, ◌%◌, ◌+◌, ◌≡◌, refl, true, false, ◌||◌, none, some, List, [], ◌∷◌, keep, string_eq,
  if◌then◌else◌, nat_beq,
}
use control_panel.Sched.{Schedule, check_recurrence, validate}
use control_panel.Sched.Next.{unix_milli, next}
use control_panel.Sched.Engine.{
  Engine, persisted, without, delete, finish_run, start_tick, retry_later, find_item, settle,
  run_now, update, is_due,
}
use control_panel.Sched.Engine.Retries.{Outcome, streak, settle_all, plan, retries-settle_all}
use control_panel.Sched.Engine.Shared.{listed, finish_run-delete}
use control_panel.Sched.Engine.Due.{scheduled, start_tick_twice}
use control_panel.Sched.Engine.Edit.{update-run_now}
use control_panel.Examples.Clock.{utc, utc-IsCalendar, new_year, backup, no_duration, as_is}

abbrev fails_at : ℕ → Outcome
fails_at t = record { now = t; detail = ""; err = some "server not running" }

abbrev bad_night : List Outcome
bad_night =
    record { now = new_year; detail = "ok"; err = none }
    ∷ fails_at (new_year + 1_000_000)
    ∷ fails_at (new_year + 2_000_000)
    ∷ fails_at (new_year + 3_000_000)
    ∷ fails_at (new_year + 4_000_000)
    ∷ []

retries-settle_all_example :
    (s' : Schedule) × (settle_all utc utc-IsCalendar no_duration as_is bad_night backup ≡ some s')
    × (s'.retries ≡ streak 0 bad_night % 3)
    × (some s'.next_run ≡ plan utc utc-IsCalendar no_duration as_is backup 0 (some 0) bad_night)
unfolding check_recurrence
retries-settle_all_example =
    retries-settle_all utc utc-IsCalendar no_duration as_is backup bad_night refl refl

abbrev first : Schedule
first = record backup { id = "a1"; enabled = false; run_now = true }

abbrev second : Schedule
second = record backup { id = "b2"; next_run = 5 }

abbrev engine : Engine
engine = record {
  at = λ p. if nat_beq p 0 then first else second;
  fresh = 2;
  items = 0 ∷ 1 ∷ [];
  poke = true;
  file = [];
}

start_tick_twice_example :
    ((start_tick new_year engine).0
      ≡ keep
          (λ p. (engine.at p).run_now || scheduled (unix_milli new_year) (engine.at p))
          (0 ∷ 1 ∷ []))
    × ((start_tick new_year (start_tick new_year engine).1).0
        ≡ keep (λ p. scheduled (unix_milli new_year) (engine.at p)) (0 ∷ 1 ∷ []))
start_tick_twice_example = start_tick_twice new_year engine ((refl, tt), (tt, tt))

finish_run-delete_example :
    (e' : Engine) × (finish_run utc no_duration as_is 0 new_year ""
        (some "disk full")
        none
        (delete "a1" none engine).1
      ≡ some e')
    × (e'.items ≡ without "a1" engine.items engine.at)
    × (listed e' ≡ map engine.at (without "a1" engine.items engine.at))
    × (e'.file ≡ map persisted (map engine.at (without "a1" engine.items engine.at)))
unfolding find_item settle
finish_run-delete_example =
    finish_run-delete utc no_duration as_is "a1" 0 new_year "" (some "disk full") none engine
      (retry_later utc no_duration as_is new_year "disk full"
        (record first { last_run = unix_milli new_year; retries = 1 }))
      ((refl, tt), (tt, tt)) refl refl

abbrev renamed : Schedule
renamed = record backup { name = "weekly" }

abbrev next_sunday : ℕ
next_sunday = 1_767_501_000_000

update-run_now_example :
    (e' : Engine) × (update utc no_duration as_is "a1" renamed none new_year none
        (run_now "a1" engine).1
      ≡ some (none, e'))
    × (is_due 1_767_225_700_000 (e'.at 0) ≡ scheduled 1_767_225_700_000 (e'.at 0))
    × ((e'.at 0).id ≡ "a1")
    × ((e'.at 0).last_run ≡ 0)
    × ((e'.at 0).last_result ≡ "")
unfolding validate next find_item
update-run_now_example =
    update-run_now utc no_duration as_is "a1" renamed renamed new_year next_sunday 1_767_225_700_000
      engine 0 refl refl refl refl
