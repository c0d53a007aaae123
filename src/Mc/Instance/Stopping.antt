-- ===== src/Mc/Instance/Stopping.antt =====
-- internal/mc/instance.go: the end of a server's process, and the calls that bring it about. Stop and
-- Kill are what they do under the mutex; then they send signals and wait for the process to be gone.
-- The lines that the panel itself puts on the console at an exit are left out.
use control_panel.Base.{
  ℕ, ◌+◌, Bool, true, false, not, ◌||◌, ◌&&◌, Option, none, some, List, [], ◌∷◌, ◌++◌,
  if◌then◌else◌, ltb,
}
use control_panel.Base.Text.{Text, contains}
use control_panel.Base.Text.Numbers.{chars}
use control_panel.Mc.Instance.{
  State, stopped, starting, running, stopping, crashed, crashed_at, stopped_at, Instance, Refusal,
  wrong_state, not_running, single_line, no_stdin, os_error,
}

abbrev pub ten_minutes : ℕ
ten_minutes = 600_000

-- How many times are after the cutoff, ten minutes before `now`.
unfoldable pub recent_restarts : ℕ → List ℕ → ℕ
recent_restarts now [] = 0
recent_restarts now (t ∷ ts) =
    let n = recent_restarts now ts in if ltb now (t + ten_minutes) then n + 1 else n

abbrev pub is_up : State → Bool
is_up stopped = false
is_up starting = true
is_up running = true
is_up stopping = false
is_up crashed = false

abbrev pub failed : Option Text → Bool
failed none = false
failed (some e) = true

abbrev pub detail : Option Text → Text
detail none = chars "unexpected exit"
detail (some e) = e

abbrev pub has_crashed : Option Text → Instance → Bool
has_crashed err s = not s.stop_requested && (failed err || is_up s.state)

abbrev pub will_restart : Option Text → ℕ → Instance → Bool
will_restart err now s =
    has_crashed err s && s.cfg.auto_restart && ltb (recent_restarts now s.restart_times) 3

-- The error of Wait and the readings of the clock: for the message, in recentRestartsLocked, and for
-- the restart. With whether Start is called again in ten seconds.
unfoldable pub wait_for_exit : Option Text → ℕ → ℕ → ℕ → Instance → Bool × Instance
unfolding recent_restarts
wait_for_exit err at now later s =
    let crash = has_crashed err s in
    let again = will_restart err now s in
    (
      again,
      record s {
        proc = none;
        stdin = none;
        pid = 0;
        players = [];
        state = if crash then crashed else stopped;
        last_exit = some (if crash then crashed_at at (detail err) else stopped_at at);
        restart_times = if again then s.restart_times ++ later ∷ [] else s.restart_times;
      },
    )

abbrev pub write_to : Option ℕ → Option Text → Text → Instance → Option Refusal × Instance
write_to none err cmd s = (some no_stdin, s)
write_to (some p) none cmd s = (none, record s { sent = s.sent ++ (p, cmd ++ b'\n' ∷ []) ∷ [] })
write_to (some p) (some e) cmd s = (some (os_error e), s)

-- The argument after the command is the error of the write.
unfoldable pub write_command_locked : Text → Option Text → Instance → Option Refusal × Instance
write_command_locked cmd err s = write_to s.stdin err cmd s

unfoldable pub stop : Option Text → Instance → Option Refusal × Instance
unfolding write_command_locked
stop err s =
    if is_up s.state
    then (
      none,
      (write_command_locked (chars "stop") err
          (record s { stop_requested = true; state = stopping })).1,
    )
    else (some (wrong_state s.state), s)

abbrev pub kill_process : Option ℕ → Instance → Option Refusal × Instance
kill_process none s = (some not_running, s)
kill_process (some p) s = (none, record s { stop_requested = true })

unfoldable pub kill : Instance → Option Refusal × Instance
kill s = kill_process s.proc s

abbrev pub is_active : State → Bool
is_active stopped = false
is_active starting = true
is_active running = true
is_active stopping = true
is_active crashed = false

unfoldable pub command : Text → Option Text → Instance → Option Refusal × Instance
unfolding contains write_command_locked
command cmd err s =
    if contains b'\r' cmd || contains b'\n' cmd
    then (some single_line, s)
    else if is_active s.state
    then write_command_locked cmd err s
    else (some not_running, s)
