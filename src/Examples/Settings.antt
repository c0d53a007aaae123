-- ===== src/Examples/Settings.antt =====
-- internal/mc: the properties, the settings and the discovery of a server.
use mathlib.Core.Path.{subst}
use mathlib.Core.Option.{some-injective}
use control_panel.Base.{
  ◌≡◌, refl, true, false, none, some, List, [], ◌∷◌, ◌++◌, lookup, insert, Distinct, pos,
  Bool-cases, inl, inr, ◌==◌,
}
use control_panel.Base.Text.{Text, text_eq, text_iff, trim_right, contains}
use control_panel.Base.Text.Numbers.{chars}
use control_panel.Base.Text.Lines.{Lacks}
use control_panel.Mc.Properties.{prop_value, update_properties}
use control_panel.Mc.Properties.Entries.{IsKey, IsValue}
use control_panel.Mc.Properties.Update.{Writable}
use control_panel.Mc.Properties.Writes.{prop_value-update_properties}
use control_panel.Mc.Instance.{ResolvedCfg, new_instance, start}
use control_panel.Mc.Instance.Stopping.{is_active}
use control_panel.Mc.Memory.{parse_mem}
use control_panel.Mc.Checks.Segment.{IsSegment, check-IsSegment}
use control_panel.Mc.Checks.{check_backup_name, check_id, check_player_name, player_actions}
use control_panel.Mc.Manager.{Minecraft, ConfigPatch, empty_patch, Files, Manager}
use control_panel.Mc.Manager.Actions.{player_action, update_config, set_override, bad_mem}
use control_panel.Mc.Manager.Settings.{choices, update_config-Patched}
use control_panel.Mc.Manager.Patched.{Patched, of_entry}
use control_panel.Mc.Manager.Players.{player_action-sent}
use control_panel.Mc.Manager.Rescan.{Entry, seen, rescan, Rescanned, rescan-Rescanned}
use control_panel.Examples.Servers.{smp, launch, server}

abbrev motd : Text
motd = chars "motd"

abbrev hello : Text
hello = chars "Hello"

abbrev changes : List (Text × Text)
changes = (motd, hello) ∷ []

motd-IsKey : IsKey motd
unfolding trim_right contains
motd-IsKey = record { first = refl; trimmed = refl; no_equals = refl; no_newline = refl }

hello-IsValue : IsValue hello
unfolding trim_right contains
hello-IsValue = record { trimmed = refl; no_newline = refl }

changes-Writable : Writable changes
unfolding lookup
changes-Writable key value h = elim (Bool-cases (motd == key)) [
  | inl same ↦ (
    subst IsKey ((text_iff motd key).0 same) motd-IsKey,
    subst IsValue (some-injective hello value (rw same at h)) hello-IsValue,
  )
  | inr other ↦ absurd (clash (rw other at h))
]
  where
    clash : none ≡ some value → ⊥
    clash h = cc

prop_value-update_properties_example :
    prop_value (update_properties (chars "# comment\nmotd=A Server\n") changes) motd
    ≡ elim (lookup motd changes) [
      | none ↦ prop_value (chars "# comment\nmotd=A Server\n") motd
      | some value ↦ value
    ]
prop_value-update_properties_example =
    prop_value-update_properties (chars "# comment\nmotd=A Server\n") changes motd changes-Writable

abbrev files : Files
files = record {
  has = λ name. name == chars "server.jar";
  jars = chars "server.jar" ∷ [];
  properties = none;
}

abbrev minecraft : Minecraft
minecraft = record {
  root = chars "/srv";
  java = [];
  run_as = [];
  run_as_uid = pos 0;
  run_as_gid = pos 0;
  servers = [];
}

abbrev panel : Manager
panel = record { cfg = minecraft; instances = (smp, server) ∷ []; overrides = [] }

abbrev patch : ConfigPatch
patch = record empty_patch { mem = some (chars "6G"); aikar = some true }

id_ok : check_id smp ≡ none
unfolding check_id
id_ok = refl

here : lookup smp panel.instances ≡ some server
unfolding lookup
here = refl

mem_ok : bad_mem patch.mem ≡ false
unfolding parse_mem
mem_ok = refl

update_config-Patched_example :
    (cfg : ResolvedCfg) × (update_config smp patch files panel ≡ (
      none,
      record (set_override smp patch panel) {
        instances = insert smp (record server { cfg = cfg }) panel.instances;
      },
    ))
    × Patched minecraft
        (of_entry (lookup smp minecraft.servers))
        files
        (choices smp panel)
        patch
        cfg
update_config-Patched_example = update_config-Patched smp patch files panel server id_ok here mem_ok

abbrev started_panel : Manager
started_panel = record panel { instances = (smp, (start launch 0 server).1) ∷ [] }

name_ok : check_player_name (chars "Ann") ≡ none
unfolding check_player_name
name_ok = refl

action_ok : lookup (chars "whitelist-add") player_actions ≡ some (chars "whitelist add")
unfolding lookup
action_ok = refl

started_here : lookup smp started_panel.instances ≡ some (start launch 0 server).1
unfolding lookup
started_here = refl

active : is_active (start launch 0 server).1.state ≡ true
unfolding start new_instance
active = refl

open_stdin : (start launch 0 server).1.stdin ≡ some 0
unfolding start new_instance
open_stdin = refl

player_action-sent_example :
    let s = (start launch 0 server).1 in
    let line = chars "whitelist add" ++ b' ' ∷ chars "Ann" in
    (player_action smp (chars "Ann") (chars "whitelist-add") none started_panel ≡ (
      none,
      record started_panel {
        instances =
            insert smp
              (record s { sent = s.sent ++ (0, line ++ b'\n' ∷ []) ∷ [] })
              started_panel.instances;
      },
    ))
    × Lacks b'\n' line
player_action-sent_example =
    player_action-sent smp (chars "Ann") (chars "whitelist-add") (chars "whitelist add") 0
      started_panel (start launch 0 server).1 name_ok action_ok id_ok started_here active open_stdin

abbrev creative : Entry
creative = record { name = chars "creative"; is_dir = true; files = files }

once : Distinct panel.instances
unfolding lookup
once = (refl, tt)

rescan-Rescanned_example :
    Rescanned
      (seen smp (creative ∷ []))
      (lookup smp panel.instances)
      (lookup smp (rescan (creative ∷ []) panel).instances)
rescan-Rescanned_example = rescan-Rescanned smp (creative ∷ []) panel once

abbrev archive : Text
archive = chars "smp-20240102.tar.gz"

archive_ok : check_backup_name archive ≡ none
unfolding check_backup_name
archive_ok = refl

check-IsSegment_example : IsSegment archive
check-IsSegment_example = check-IsSegment archive (inr archive_ok)
