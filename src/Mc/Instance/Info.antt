-- ===== src/Mc/Instance/Info.antt =====
-- internal/mc/instance.go: what the panel shows of a server, without its CPU and memory use and its ping.
use control_panel.Base.{ℕ, Bool, Option, none, List, [], if◌then◌else◌, ℤ}
use control_panel.Base.Text.{Text}
use control_panel.Mc.Memory.{parse_mem}
use control_panel.Mc.Properties.{sort_keys, reversed, keys_of}
use control_panel.Mc.Instance.{State, Exit, Instance}
use control_panel.Mc.Instance.Stopping.{is_active}

pub record ServerInfo : Type 0 where
  pub id : Text
  pub name : Text
  pub dir : Text
  pub state : State
  pub version : Text
  pub software : Text
  pub port : ℤ
  pub online_players : List Text
  pub max_players : ℤ
  pub started_at : Option ℕ
  pub pid : ℕ
  pub mem_max : ℕ
  pub mem : Text
  pub java : Text
  pub jar : Text
  pub jvm_args : List Text
  pub aikar : Bool
  pub auto_start : Bool
  pub auto_restart : Bool
  pub eula_accepted : Bool
  pub rcon_enabled : Bool
  pub last_exit : Option Exit

unfoldable pub sort_strings : List Text → List Text
unfolding sort_keys reversed
sort_strings names = reversed [] (sort_keys [] names)

-- The argument is what eulaAcceptedLocked reads.
unfoldable pub info : Bool → Instance → ServerInfo
unfolding parse_mem sort_strings keys_of
info eula s = record {
  id = s.id;
  name = s.id;
  dir = s.dir;
  state = s.state;
  version = s.version;
  software = s.software;
  port = s.port;
  online_players = sort_strings (keys_of s.players);
  max_players = s.max_players;
  started_at = if is_active s.state then s.started_at else none;
  pid = s.pid;
  mem_max = parse_mem s.cfg.mem;
  mem = s.cfg.mem;
  java = s.cfg.java;
  jar = s.cfg.jar;
  jvm_args = s.cfg.jvm_args;
  aikar = s.cfg.aikar;
  auto_start = s.cfg.auto_start;
  auto_restart = s.cfg.auto_restart;
  eula_accepted = eula;
  rcon_enabled = s.rcon_enabled;
  last_exit = s.last_exit;
}
