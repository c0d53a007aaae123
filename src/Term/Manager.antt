-- ===== src/Term/Manager.antt =====
-- internal/term/term.go: the manager of the sessions. A `*Session` is a number, and `at` is what each
-- points to; `proc_open` says whose process has not been closed. Ids, times in ms and the launcher's
-- results are arguments. `admit` and `insert_session` are the two critical sections of Create.
pub mod Calls
pub mod Closed
pub mod Valid
pub mod Created
pub mod Race
use control_panel.Base.{
  ℕ, ◌+◌, ◌-◌, ◌*◌, Bool, true, false, not, ◌||◌, Option, none, some, String, List, [], ◌∷◌,
  if◌then◌else◌, length, ltb, leb, lookup, insert, delete, ◌==◌, string_eq, ℤ, pos, pos_part, leb_ℤ,
}
use control_panel.Base.Store.{write}
use control_panel.Term.Session.{Session, new_session, pump, input, resize, close_session}

pub record Manager : Type 0 where
  pub launcher : Bool  -- false: the feature is unavailable
  pub max_sessions : ℕ
  pub idle_timeout : ℕ
  pub at : ℕ → Session
  pub proc_open : ℕ → Bool
  pub fresh : ℕ  -- the next number to allocate
  pub sessions : List (String × ℕ)
  pub stopped : Bool

pub data Refusal : Type 0 where
  disabled shutting_down session_limit : Refusal
  launch_failed : String → Refusal

pub record View : Type 0 where
  pub id : String
  pub started_at : ℕ
  pub last_active : ℕ

abbrev pub minute_ms : ℕ
minute_ms = 60_000

unfoldable pub new_manager : Bool → ℤ → ℤ → Manager
unfolding new_session
new_manager launcher max_sessions idle_timeout = record {
  launcher = launcher;
  max_sessions = if leb_ℤ max_sessions (pos 0) then 2 else pos_part max_sessions;
  idle_timeout = if leb_ℤ idle_timeout (pos 0) then 15 * minute_ms else pos_part idle_timeout;
  at = λ p. new_session "" 0;
  proc_open = λ p. false;
  fresh = 0;
  sessions = [];
  stopped = false;
}

abbrev pub view : Session → View
view s = record { id = s.id; started_at = s.started_at; last_active = s.last_active }

unfoldable pub views : List (String × ℕ) → (ℕ → Session) → List View
views [] at = []
views ((id, p) ∷ m) at = view (at p) ∷ views m at

unfoldable pub list_sessions : Manager → List View
unfolding views
list_sessions m = views m.sessions m.at

-- Create up to the call of the launcher.
unfoldable pub admit : Manager → Option Refusal
admit m =
    if not m.launcher
    then some disabled
    else if m.stopped
    then some shutting_down
    else if leb m.max_sessions (length m.sessions)
    then some session_limit
    else none

-- Create after the launcher has started the process.
unfoldable pub insert_session : String → ℕ → Manager → Manager
unfolding new_session
insert_session id now m = record m {
  at = write m.fresh (new_session id now) m.at;
  proc_open = write m.fresh true m.proc_open;
  fresh = m.fresh + 1;
  sessions = insert id m.fresh m.sessions;
}

abbrev pub created :
    String → ℕ → Manager → Option Refusal → Option String → Option Refusal × Manager
created id now m (some why) launch = (some why, m)
created id now m none (some why) = (some (launch_failed why), m)
created id now m none none = (none, insert_session id now m)

-- A whole Create with nothing between; the argument after the time is the launcher's error.
unfoldable pub create : String → ℕ → Option String → Manager → Option Refusal × Manager
unfolding admit insert_session
create id now launch m = created id now m (admit m) launch

-- `Session.close`: what it does to the session, to the process, and to the manager's map.
unfoldable pub close_at : ℕ → Manager → Manager
unfolding close_session
close_at p m =
    let (first, closed, s) = close_session (m.at p) in
    if first
    then record m {
      at = write p s m.at;
      proc_open = write p false m.proc_open;
      sessions = delete s.id m.sessions;
    }
    else m

unfoldable pub get : String → Manager → Option ℕ
get id m = lookup id m.sessions

unfoldable pub close : String → Manager → Bool × Manager
unfolding close_at
close id m = elim (lookup id m.sessions) [ none ↦ (false, m) | some p ↦ (true, close_at p m) ]

unfoldable pub close_each : List (String × ℕ) → Manager → Manager
unfolding close_at
close_each [] m = m
close_each ((id, p) ∷ ps) m = close_each ps (close_at p m)

unfoldable pub close_all : Manager → Manager
unfolding close_each
close_all m = close_each m.sessions (record m { stopped = true })

-- `time.Since(s.lastActive) > m.idleTimeout`
abbrev pub is_idle : ℕ → Manager → ℕ → Bool
is_idle now m p = ltb ((m.at p).last_active + m.idle_timeout) now

unfoldable pub idle_sessions : ℕ → Manager → List (String × ℕ) → List (String × ℕ)
idle_sessions now m [] = []
idle_sessions now m ((id, p) ∷ rest) =
    let idle = idle_sessions now m rest in if is_idle now m p then (id, p) ∷ idle else idle

-- One tick of `reap`.
unfoldable pub reap : ℕ → Manager → Manager
unfolding idle_sessions close_each
reap now m = if m.stopped then m else close_each (idle_sessions now m m.sessions) m

-- What a call of a session's method, or a read of its process, does.
abbrev pub at_session : ℕ → Session → Manager → Manager
at_session p s m = record m { at = write p s m.at }

unfoldable pub input_at : ℕ → ℕ → Manager → Manager
unfolding input
input_at p now m = at_session p (input now (m.at p)).1 m

unfoldable pub resize_at : ℕ → ℕ → Manager → Manager
unfolding resize
resize_at p now m = at_session p (resize now (m.at p)) m

unfoldable pub pump_at : ℕ → List ℕ → Manager → Manager
unfolding pump
pump_at p bytes m = at_session p (pump bytes (m.at p)).1 m
