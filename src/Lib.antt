-- ===== src/Lib.antt =====
-- The logic of the control panel's Go server, by component. A client's request reaches a component
-- as a call of one of its methods, which runs under the component's mutex; so a component is a
-- state and a function of it per method, and a run of the program is a sequence of calls in the
-- order in which they take the mutex.
--
--   * Base: what the components share: Boolean tests on native numbers, lists, association lists
--     for maps, subsequences, signed integers, a store for pointers. Base/Text, Base/Text/Lines and
--     Base/Text/Numbers are what the code uses of Go's strings and strconv, on code points.
--   * Channel, Channel/Hub: a buffered channel and a table of subscriber channels, which
--     internal/events/bus.go and internal/mc/ring.go each keep. A send in a `select` with a
--     default is `offer`; a receive is a step of its own.
--   * Events: internal/events/bus.go (Subscribe and the function that it returns, Publish,
--     Subscribers).
--   * Mc/Ring: internal/mc/ring.go (newLogRing, Append, Tail, Subscribe). The loop of Tail runs
--     on the number of lines it reads.
--   * Mc/Rcon: internal/mc/rcon.go (encodePacket, decodePacket). Bytes and int32 values are natural
--     numbers, the reader is a list of bytes.
--   * Mc/Properties: internal/mc/properties.go (ParseProperties, UpdateProperties, PropValue).
--   * Mc/Instance and its children: internal/mc/instance.go. Start with its checks (`start_error`) in
--     the file itself, handleLine and pumpOutput in Lines, waitForExit, Stop, Kill and Command in
--     Stopping, Info in Info; parseMem is Mc/Memory. The answers of the operating system are
--     arguments (`Launch`), the regular expressions are an interface (`Patterns`). Calls has the
--     sequences of calls, with the processes that run.
--   * Mc/Checks: internal/mc/types.go (CheckID, CreateSpec.Validate and the like).
--   * Mc/Manager and its children: internal/mc/manager.go. The layers of a server's settings are in
--     the file itself (resolveCfgLocked), the calls of one server, PlayerAction, SetProperties and
--     UpdateConfig in Actions, Rescan in Rescan; Patched describes the settings on their own. A directory is an argument (`Files`).
--   * Term/Size, Term/Session, Term/Manager: internal/term/term.go. A pointer to a session is a number
--     into a store. Create is `create`, and its two critical sections are `admit` and
--     `insert_session`, between which other calls may come (Term/Manager/Race).
--   * Jobs: internal/jobs/jobs.go. Start is `start`; the goroutine that it launches is the calls
--     `print` (appendLine) and `finish`; Cancel, Current, List and Get are `cancel`, `current`,
--     `list_jobs` and `get`.
--   * Fans/Curve: internal/fans/fans.go (Settings.Validate, CurveDuty). float64 is an interface,
--     `Float`; where an order is needed it is a hypothesis, `IsOrdered`, which holds of numbers
--     that are not NaN. `sort.Search` runs on fuel, which is the length of the curve.
--   * Fans/Controller: internal/fans/controller.go (NewController, tick, Set, SetName,
--     ReleaseAll), over a provider, which is the interface of internal/fans/fans.go: operations on
--     a machine. The controller and internal/fans/linux.go meet in
--     Fans/Hwmon/Holding, which shows linux.go's provider to be what Fans/Controller/Noted relies
--     on, and in Fans/Hwmon/Leak.
--   * Fans/Hwmon: internal/fans/linux.go (SetDuty, Release, writeSysfs), over files, of which
--     some may refuse a write.
--   * Auth/Limiter, Auth/Sessions: internal/auth/limiter.go and internal/auth/session.go.
--   * Sched, Sched/Next: internal/sched/sched.go (Validate, next, nextAtTime). Go's calendar is an
--     interface, `Calendar`, with the hypothesis `IsCalendar`; `time.ParseDuration` and
--     `strings.TrimSpace` are parameters. The loop of nextAtTime has its own bound, eight days.
--   * Sched/Engine: internal/sched/engine.go (tick, runOne, Create, Update, Delete, RunNow, Get, the
--     loop of load). A pointer to a schedule is a number into a store; `start_tick` is what tick
--     does under the mutex and `finish_run` what runOne does after the executor has returned, so
--     other calls may come between.
--   * Config: internal/config/config.go (validate, ListenIsLoopback), over the fields that it reads.
--     The checks, which come first to last as in the code, are `error_of`; the defaults and limits,
--     which no check reads, are `normalize`.
--   * Examples: the theorems at concrete inputs.
--
-- `none` is a panic where a comment says so. Times are natural numbers since 1970, in the unit of
-- the code; machine integers are not bounded where the code only counts with them. Readings of the
-- clock, random ids and the results of writing a file are arguments of the calls.
--
-- Not modelled: reading and writing the JSON files and the timer loops, since they only call the
-- operating system around the operations that are modelled; the archives, downloads, pings and
-- backups of the Minecraft servers, the clients of other services, the file browsers, the HTTP API
-- and the main program, which are mostly processes, files and network.
pub mod Base
pub mod Channel
pub mod Events
pub mod Mc
pub mod Jobs
pub mod Fans
pub mod Auth
pub mod Sched
pub mod Examples
pub mod Term
pub mod Config
