-- ===== src/Mc/Manager.antt =====
-- internal/mc/manager.go: the servers and their settings. What the files of a server's directory are is
-- an argument; the files that the manager writes of its own are not modelled.
pub mod Rescan
pub mod Actions
pub mod Patched
pub mod Settings
pub mod Players
use control_panel.Base.{
  ℕ, Bool, true, false, not, ◌||◌, ◌&&◌, Option, none, some, List, [], ◌∷◌, ◌++◌, if◌then◌else◌,
  nat_beq, lookup, insert, delete, ℤ, keep,
}
use control_panel.Base.Text.{Text, text_eq, text_test, is_empty, is_space, contains, starts_with}
use control_panel.Base.Text.Numbers.{chars}
use control_panel.Mc.Checks.{Invalid, bad_memory, check_id, check_player_name, player_actions}
use control_panel.Mc.Memory.{parse_mem}
use control_panel.Mc.Properties.{update_properties}
use control_panel.Mc.Instance.{
  State, ResolvedCfg, Instance, Refusal, Launch, new_instance, refresh_props, start, may_start,
}
use control_panel.Mc.Instance.Stopping.{stop, kill, command}

-- config.MCServer
pub record McServer : Type 0 where
  pub mem : Text
  pub java : Text
  pub jar : Text
  pub jvm_args : List Text
  pub aikar : Bool
  pub auto_start : Bool
  pub auto_restart : Bool

-- config.Minecraft, as far as a server's settings come from it.
pub record Minecraft : Type 0 where
  pub root : Text
  pub java : Text
  pub run_as : Text
  pub run_as_uid : ℤ
  pub run_as_gid : ℤ
  pub servers : List (Text × McServer)

pub record ConfigPatch : Type 0 where
  pub mem : Option Text
  pub aikar : Option Bool
  pub auto_start : Option Bool
  pub auto_restart : Option Bool
  pub jvm_args : Option Text
  pub jar : Option Text

abbrev pub empty_patch : ConfigPatch
empty_patch = record {
  mem = none;
  aikar = none;
  auto_start = none;
  auto_restart = none;
  jvm_args = none;
  jar = none;
}

abbrev pub zero_server : McServer
zero_server = record {
  mem = [];
  java = [];
  jar = [];
  jvm_args = [];
  aikar = false;
  auto_start = false;
  auto_restart = false;
}

-- A directory: which names `os.Stat` finds, the names that `*.jar` matches, and what can be read of
-- server.properties.
pub record Files : Type 0 where
  pub has : Text → Bool
  pub jars : List Text
  pub properties : Option Text

pub record Manager : Type 0 where
  pub cfg : Minecraft
  pub instances : List (Text × Instance)
  pub overrides : List (Text × ConfigPatch)

unfoldable pub first_non_empty : List Text → Text
first_non_empty [] = []
first_non_empty (v ∷ vals) = if not (is_empty v) then v else first_non_empty vals

abbrev pub or_old {ℓ} : {A : Type ℓ} → Option A → A → A
or_old none old = old
or_old (some new) old = new

abbrev pub put_char : ℕ → List Text → List Text
put_char c [] = (c ∷ []) ∷ []
put_char c (word ∷ words) = (c ∷ word) ∷ words

abbrev pub starts_word : Text → Bool
starts_word [] = false
starts_word (c ∷ s) = not (is_space c)

-- `strings.Fields`
unfoldable pub fields : Text → List Text
unfolding is_space
fields [] = []
fields (c ∷ s) =
    let rest = fields s in
    if is_space c then rest else if starts_word s then put_char c rest else (c ∷ []) ∷ rest

abbrev pub only_jar : List Text → Text
only_jar [] = []
only_jar (jar ∷ []) = jar
only_jar (jar ∷ other ∷ jars) = []

-- What the config file and the directory give.
unfoldable pub base_cfg : Minecraft → Text → Files → ResolvedCfg
unfolding first_non_empty lookup
base_cfg c id files =
    let f = or_old (lookup id c.servers) zero_server in
    let jar =
      if not (is_empty f.jar)
      then f.jar
      else if files.has (chars "server.jar")
      then chars "server.jar"
      else only_jar files.jars in
    record {
      java = first_non_empty (f.java ∷ c.java ∷ chars "java" ∷ []);
      mem = first_non_empty (f.mem ∷ chars "4G" ∷ []);
      jvm_args = f.jvm_args;
      aikar = f.aikar;
      auto_start = f.auto_start;
      auto_restart = f.auto_restart;
      run_as_user = c.run_as;
      run_as_uid = c.run_as_uid;
      run_as_gid = c.run_as_gid;
      jar = jar;
      run_script = if is_empty jar && files.has (chars "run.sh") then chars "run.sh" else [];
    }

abbrev pub or_fields : Option Text → List Text → List Text
or_fields none old = old
or_fields (some args) old = fields args

-- The panel's choice of a jar, if it is one and the file exists.
abbrev pub chosen_jar : Option Text → Files → Option Text
chosen_jar none files = none
chosen_jar (some jar) files = if not (is_empty jar) && files.has jar then some jar else none

abbrev pub use_jar : Option Text → ResolvedCfg → ResolvedCfg
use_jar none rc = rc
use_jar (some jar) rc = record rc { jar = jar; run_script = [] }

abbrev pub settings : ConfigPatch → ResolvedCfg → ResolvedCfg
settings ov rc = record rc {
  mem = or_old ov.mem rc.mem;
  aikar = or_old ov.aikar rc.aikar;
  auto_start = or_old ov.auto_start rc.auto_start;
  auto_restart = or_old ov.auto_restart rc.auto_restart;
  jvm_args = or_fields ov.jvm_args rc.jvm_args;
}

unfoldable pub layer : ConfigPatch → Files → ResolvedCfg → ResolvedCfg
unfolding fields
layer ov files rc = use_jar (chosen_jar ov.jar files) (settings ov rc)

abbrev pub layer_found : Option ConfigPatch → Files → ResolvedCfg → ResolvedCfg
layer_found none files rc = rc
layer_found (some ov) files rc = layer ov files rc

unfoldable pub resolve_cfg_locked : Text → Files → Manager → ResolvedCfg
unfolding base_cfg layer lookup
resolve_cfg_locked id files m = layer_found (lookup id m.overrides) files (base_cfg m.cfg id files)
