-- ===== src/Mc/Instance.antt =====
-- internal/mc/instance.go: one server, without its CPU use and its ping. A process is the number of
-- its launch, which also stands for its stdin and its `exited` channel. `console` is what has been
-- given to the ring (Mc/Ring), as level and text; `sent` is what has been written to stdins.
pub mod Lines
pub mod Stopping
pub mod Info
pub mod Calls
pub mod Same
pub mod Valid
pub mod Kept
pub mod Restarts
pub mod Players
pub mod Output
use control_panel.Base.{
  ℕ, zero, Bool, true, false, not, ◌||◌, ◌&&◌, Option, none, some, String, List, [], ◌∷◌, ◌++◌,
  if◌then◌else◌, ℤ, pos, negsuc, nat_beq,
}
use control_panel.Base.Text.{Text, text_eq, text_test, is_empty, join}
use control_panel.Base.Text.Numbers.{chars, atoi}
use control_panel.Mc.Properties.{prop_value}

pub data State : Type 0 where
  stopped starting running stopping crashed : State

pub record ResolvedCfg : Type 0 where
  pub java : Text
  pub jar : Text
  pub run_script : Text
  pub mem : Text
  pub jvm_args : List Text
  pub aikar : Bool
  pub auto_start : Bool
  pub auto_restart : Bool
  pub run_as_user : Text
  pub run_as_uid : ℤ
  pub run_as_gid : ℤ

-- `lastExit`, before it is printed; its time is in ms.
pub data Exit : Type 0 where
  crashed_at : ℕ → Text → Exit
  stopped_at : ℕ → Exit

-- What a `map[string]struct{}` holds at a key.
abbrev pub Present : Type 0
Present = Unit

pub record Instance : Type 0 where
  pub id : Text
  pub dir : Text
  pub cfg : ResolvedCfg
  pub state : State
  pub proc : Option ℕ
  pub stdin : Option ℕ
  pub pid : ℕ
  pub started_at : Option ℕ  -- none: the zero time
  pub stop_requested : Bool
  pub last_exit : Option Exit
  pub restart_times : List ℕ
  pub version : Text
  pub software : Text
  pub port : ℤ
  pub max_players : ℤ
  pub rcon_enabled : Bool
  pub players : List (Text × Present)
  pub console : List (Text × Text)
  pub sent : List (ℕ × Text)

unfoldable pub new_instance : Text → Text → ResolvedCfg → Instance
new_instance id dir cfg = record {
  id = id;
  dir = dir;
  cfg = cfg;
  state = stopped;
  proc = none;
  stdin = none;
  pid = 0;
  started_at = none;
  stop_requested = false;
  last_exit = none;
  restart_times = [];
  version = [];
  software = [];
  port = pos 0;
  max_players = pos 0;
  rcon_enabled = false;
  players = [];
  console = [];
  sent = [];
}

abbrev pub append_panel_line : Text → Instance → Instance
append_panel_line text s = record s { console = s.console ++ (chars "PANEL", text) ∷ [] }

abbrev pub or_keep : ℤ → Option ℤ → ℤ
or_keep old none = old
or_keep old (some n) = n

-- The argument is the content of server.properties, if it can be read.
unfoldable pub refresh_props : Option Text → Instance → Instance
unfolding prop_value atoi
refresh_props none s = s
refresh_props (some content) s = record s {
  port = or_keep s.port (atoi (prop_value content (chars "server-port")));
  max_players = or_keep s.max_players (atoi (prop_value content (chars "max-players")));
  rcon_enabled = text_test (prop_value content (chars "enable-rcon")) (chars "true");
}

abbrev pub aikar_flags : List Text
aikar_flags =
    chars "-XX:+UseG1GC"
    ∷ chars "-XX:+ParallelRefProcEnabled"
    ∷ chars "-XX:MaxGCPauseMillis=200"
    ∷ chars "-XX:+UnlockExperimentalVMOptions"
    ∷ chars "-XX:+DisableExplicitGC"
    ∷ chars "-XX:+AlwaysPreTouch"
    ∷ chars "-XX:G1NewSizePercent=30"
    ∷ chars "-XX:G1MaxNewSizePercent=40"
    ∷ chars "-XX:G1HeapRegionSize=8M"
    ∷ chars "-XX:G1ReservePercent=20"
    ∷ chars "-XX:G1HeapWastePercent=5"
    ∷ chars "-XX:G1MixedGCCountTarget=4"
    ∷ chars "-XX:InitiatingHeapOccupancyPercent=15"
    ∷ chars "-XX:G1MixedGCLiveThresholdPercent=90"
    ∷ chars "-XX:G1RSetUpdatingPauseTimePercent=5"
    ∷ chars "-XX:SurvivorRatio=32"
    ∷ chars "-XX:+PerfDisableSharedMem"
    ∷ chars "-XX:MaxTenuringThreshold=1"
    ∷ []

abbrev pub when : Bool → List Text → List Text
when b args = if b then args else []

unfoldable pub build_argv : ResolvedCfg → Option (List Text)
build_argv c =
    if not (is_empty c.jar)
    then some (
        c.java
          ∷ when (not (is_empty c.mem)) ((chars "-Xms" ++ c.mem) ∷ (chars "-Xmx" ++ c.mem) ∷ [])
        ++ when c.aikar aikar_flags
        ++ c.jvm_args
        ++ chars "-jar" ∷ c.jar ∷ chars "nogui" ∷ [])
    else if not (is_empty c.run_script)
    then some (chars "/bin/sh" ∷ c.run_script ∷ chars "nogui" ∷ [])
    else none

pub data Refusal : Type 0 where
  wrong_state : State → Refusal
  eula_not_accepted no_jar not_running single_line no_stdin : Refusal
  port_in_use : ℤ → Refusal
  os_error : Text → Refusal  -- an error that the operating system gave

-- What the operating system answers in a Start; an error is a text.
pub record Launch : Type 0 where
  pub properties : Option Text  -- the content of server.properties
  pub eula_accepted : Bool
  pub port_free : Bool
  pub chown_tree : Option Text
  pub apply_run_as : Option Text
  pub stdin_pipe : Option Text
  pub output_pipe : Option Text
  pub exec : Option Text
  pub pid : ℕ
  pub now : ℕ

abbrev pub refused : Option Text → Option Refusal
refused none = none
refused (some e) = some (os_error e)

-- The first error of several, which are those of calls in their order.
unfoldable pub first_of : List (Option Refusal) → Option Refusal
first_of [] = none
first_of (none ∷ rest) = first_of rest
first_of (some r ∷ rest) = some r

abbrev pub may_start : State → Bool
may_start stopped = true
may_start starting = false
may_start running = false
may_start stopping = false
may_start crashed = true

abbrev pub is_zero : ℤ → Bool
is_zero (pos n) = nat_beq n 0
is_zero (negsuc n) = false

abbrev pub no_argv : Option (List Text) → Option Refusal
no_argv none = some no_jar
no_argv (some argv) = none

-- The checks and system calls of Start that may fail, after refreshProps.
unfoldable pub start_error : Launch → Instance → Option Refusal
unfolding build_argv first_of
start_error l s =
    let as_user = not (is_empty s.cfg.run_as_user) in
    first_of (
      (if may_start s.state then none else some (wrong_state s.state))
      ∷ (if l.eula_accepted then none else some eula_not_accepted)
      ∷ no_argv (build_argv s.cfg)
      ∷ (if not (is_zero s.port) && not l.port_free then some (port_in_use s.port) else none)
      ∷ (if as_user then refused l.chown_tree else none)
      ∷ (if as_user then refused l.apply_run_as else none)
      ∷ refused l.stdin_pipe
      ∷ refused l.output_pipe
      ∷ refused l.exec
      ∷ [])

abbrev pub argv_line : Option (List Text) → Text
argv_line none = []
argv_line (some argv) = join b' ' argv

-- The state once the process number `p` runs.
abbrev pub launched : Launch → ℕ → Instance → Instance
launched l p s = append_panel_line (chars "Starting: " ++ argv_line (build_argv s.cfg)) (record s {
  proc = some p;
  stdin = some p;
  pid = l.pid;
  state = starting;
  started_at = some l.now;
  stop_requested = false;
  last_exit = none;
  players = [];
})

abbrev pub unless {ℓ} : {A : Type ℓ} → Option Refusal → A → A → Option Refusal × A
unless (some why) old new = (some why, old)
unless none old new = (none, new)

unfoldable pub start : Launch → ℕ → Instance → Option Refusal × Instance
unfolding refresh_props start_error build_argv join
start l p s =
    let s1 = refresh_props l.properties s in unless (start_error l s1) s1 (launched l p s1)
