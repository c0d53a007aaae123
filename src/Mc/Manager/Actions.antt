-- ===== src/Mc/Manager/Actions.antt =====
-- internal/mc/manager.go: the calls that the API makes of one server.
use control_panel.Base.{
  ℕ, Bool, false, not, ◌||◌, ◌&&◌, Option, none, some, List, [], ◌∷◌, ◌++◌, if◌then◌else◌, nat_beq,
  lookup, insert,
}
use control_panel.Base.Text.{Text, text_eq, is_empty, contains}
use control_panel.Mc.Checks.{Invalid, bad_memory, check_id, check_player_name, player_actions}
use control_panel.Mc.Memory.{parse_mem}
use control_panel.Mc.Properties.{update_properties}
use control_panel.Mc.Instance.{Instance, Refusal, Launch, refresh_props, start}
use control_panel.Mc.Instance.Stopping.{stop, kill, command}
use control_panel.Mc.Manager.{Manager, ConfigPatch, empty_patch, Files, or_old, resolve_cfg_locked}

pub data ActionError : Type 0 where
  invalid : Invalid → ActionError
  unknown_server bad_action bad_characters unreadable : ActionError
  refused_by : Refusal → ActionError

abbrev pub as_error : Option Refusal → Option ActionError
as_error none = none
as_error (some why) = some (refused_by why)

-- `instErr`, and a call of the server that it finds.
unfoldable pub with_instance :
    Text → (Instance → Option ActionError × Instance) → Manager → Option ActionError × Manager
unfolding check_id lookup insert
with_instance id call m = elim (check_id id) [
  | some why ↦ (some (invalid why), m)
  | none ↦ elim (lookup id m.instances) [
    | none ↦ (some unknown_server, m)
    | some s ↦ let (err, t) = call s in (err, record m { instances = insert id t m.instances })
  ]
]

abbrev pub of_instance :
    (Instance → Option Refusal × Instance) → Instance → Option ActionError × Instance
of_instance call s = let (err, t) = call s in (as_error err, t)

unfoldable pub start_at : Text → Launch → ℕ → Manager → Option ActionError × Manager
unfolding with_instance start
start_at id l p = with_instance id (of_instance (start l p))

unfoldable pub stop_at : Text → Option Text → Manager → Option ActionError × Manager
unfolding with_instance stop
stop_at id err = with_instance id (of_instance (stop err))

unfoldable pub kill_at : Text → Manager → Option ActionError × Manager
unfolding with_instance kill
kill_at id = with_instance id (of_instance kill)

unfoldable pub command_at : Text → Text → Option Text → Manager → Option ActionError × Manager
unfolding with_instance command
command_at id cmd err = with_instance id (of_instance (command cmd err))

-- The last argument before the manager is the error of the write to the server's stdin.
unfoldable pub player_action :
    Text → Text → Text → Option Text → Manager → Option ActionError × Manager
unfolding check_player_name lookup command_at
player_action id player action err m = elim (check_player_name player) [
  | some why ↦ (some (invalid why), m)
  | none ↦ elim (lookup action player_actions) [
    | none ↦ (some bad_action, m)
    | some cmd ↦ command_at id (cmd ++ b' ' ∷ player) err m
  ]
]

unfoldable pub bad_change : List (Text × Text) → Bool
unfolding contains
bad_change [] = false
bad_change ((k, v) ∷ changes) =
    contains b'\r' k
    || contains b'\n' k
    || contains b'=' k
    || contains b'\r' v
    || contains b'\n' v
    || bad_change changes

-- The content of server.properties, if it can be read, and what is written.
unfoldable pub set_properties :
    List (Text × Text) → Option Text → Instance → (Option ActionError × Instance) × Option Text
unfolding bad_change update_properties refresh_props
set_properties changes content s =
    if bad_change changes then ((some bad_characters, s), none) else elim content [
      | none ↦ ((some unreadable, s), none)
      | some old ↦
          let new = update_properties old changes in ((none, refresh_props (some new) s), some new)
    ]

abbrev pub or_patch {ℓ} : {A : Type ℓ} → Option A → Option A → Option A
or_patch none cur = cur
or_patch (some new) cur = some new

unfoldable pub merge : ConfigPatch → ConfigPatch → ConfigPatch
merge patch cur = record {
  mem = or_patch patch.mem cur.mem;
  aikar = or_patch patch.aikar cur.aikar;
  auto_start = or_patch patch.auto_start cur.auto_start;
  auto_restart = or_patch patch.auto_restart cur.auto_restart;
  jvm_args = or_patch patch.jvm_args cur.jvm_args;
  jar = or_patch patch.jar cur.jar;
}

abbrev pub bad_mem : Option Text → Bool
bad_mem none = false
bad_mem (some mem) = not (is_empty mem) && nat_beq (parse_mem mem) 0

unfoldable pub set_override : Text → ConfigPatch → Manager → Manager
unfolding merge lookup insert
set_override id patch m = record m {
  overrides = insert id (merge patch (or_old (lookup id m.overrides) empty_patch)) m.overrides;
}

unfoldable pub update_config : Text → ConfigPatch → Files → Manager → Option ActionError × Manager
unfolding with_instance set_override resolve_cfg_locked parse_mem
update_config id patch files m = elim (check_id id) [
  | some why ↦ (some (invalid why), m)
  | none ↦ elim (lookup id m.instances) [
    | none ↦ (some unknown_server, m)
    | some s ↦
        if bad_mem patch.mem
        then (some (invalid bad_memory), m)
        else (let n = set_override id patch m in
            (
              none,
              record n {
                instances =
                    insert id (record s { cfg = resolve_cfg_locked id files n }) n.instances;
              },
            ))
  ]
]
