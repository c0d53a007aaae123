-- ===== src/Mc/Manager/Settings.antt =====
-- internal/mc/manager.go: the settings that UpdateConfig gives a server.
use mathlib.Core.Path.{subst}
use control_panel.Base.{
  sym, ◌≡◌, refl, ap, ◌∙◌, false, Option, none, some, List, lookup, insert, lookup-insert, arith,
}
use control_panel.Base.Text.{Text, text_eq, text_iff}
use control_panel.Base.Text.Numbers.{chars}
use control_panel.Mc.Checks.{check_id}
use control_panel.Mc.Instance.{ResolvedCfg, Instance}
use control_panel.Mc.Manager.Patched.{
  given, latest, latest_args, latest-or_patch, latest_args-or_patch, first_non_empty-given,
  first_non_empty-given_twice, use_jar_keeps, jar-pick, run_script-script, base_jar, base_script,
  of_entry-or_old, pick, Patched, of_entry,
}
use control_panel.Mc.Manager.Actions.{merge, set_override, update_config, bad_mem}
use control_panel.Mc.Manager.{
  settings, layer_found, Manager, McServer, Minecraft, ConfigPatch, empty_patch, zero_server, Files,
  or_old, chosen_jar, layer, base_cfg, resolve_cfg_locked,
}

layer-Patched :
    (c : Minecraft) (id : Text) (files : Files) (before patch : ConfigPatch)
    → Patched c
        (of_entry (lookup id c.servers))
        files
        before
        patch
        (layer (merge patch before) files (base_cfg c id files))
unfolding layer merge base_cfg
layer-Patched c id files before patch =
    let b = base_cfg c id files in
    let f = or_old (lookup id c.servers) zero_server in
    let g = of_entry (lookup id c.servers) in
    let e : f ≡ g = of_entry-or_old (lookup id c.servers) in
    let ov = merge patch before in
    let o = chosen_jar ov.jar files in
    let rc = settings ov b in
    record {
      java =
          use_jar_keeps (λ r. r.java) (λ r jar run. refl) o rc
          ∙ first_non_empty-given_twice f.java c.java
          ∙ ap (λ (s : McServer). given s.java (given c.java (chars "java"))) e;
      mem =
          use_jar_keeps (λ r. r.mem) (λ r jar run. refl) o rc
          ∙ latest-or_patch patch.mem before.mem b.mem
          ∙ ap (latest patch.mem before.mem) (first_non_empty-given f.mem (chars "4G"))
          ∙ ap (λ (s : McServer). latest patch.mem before.mem (given s.mem (chars "4G"))) e;
      jvm_args =
          use_jar_keeps (λ r. r.jvm_args) (λ r jar run. refl) o rc
          ∙ latest_args-or_patch patch.jvm_args before.jvm_args f.jvm_args
          ∙ ap (λ (s : McServer). latest_args patch.jvm_args before.jvm_args s.jvm_args) e;
      aikar =
          use_jar_keeps (λ r. r.aikar) (λ r jar run. refl) o rc
          ∙ latest-or_patch patch.aikar before.aikar f.aikar
          ∙ ap (λ (s : McServer). latest patch.aikar before.aikar s.aikar) e;
      auto_start =
          use_jar_keeps (λ r. r.auto_start) (λ r jar run. refl) o rc
          ∙ latest-or_patch patch.auto_start before.auto_start f.auto_start
          ∙ ap (λ (s : McServer). latest patch.auto_start before.auto_start s.auto_start) e;
      auto_restart =
          use_jar_keeps (λ r. r.auto_restart) (λ r jar run. refl) o rc
          ∙ latest-or_patch patch.auto_restart before.auto_restart f.auto_restart
          ∙ ap (λ (s : McServer). latest patch.auto_restart before.auto_restart s.auto_restart) e;
      run_as_user = use_jar_keeps (λ r. r.run_as_user) (λ r jar run. refl) o rc;
      run_as_uid = use_jar_keeps (λ r. r.run_as_uid) (λ r jar run. refl) o rc;
      run_as_gid = use_jar_keeps (λ r. r.run_as_gid) (λ r jar run. refl) o rc;
      jar =
          jar-pick patch.jar before.jar files rc
          ∙ ap (pick patch.jar before.jar files) (base_jar c id files);
      run_script = run_script-script ov.jar files rc (base_script c id files);
    }

-- The choices made in the panel before.
abbrev pub choices : Text → Manager → ConfigPatch
choices id m = elim (lookup id m.overrides) [ none ↦ empty_patch | some ov ↦ ov ]

lookup-insert_self :
    (id : Text) (ov : ConfigPatch) (m : List (Text × ConfigPatch))
    → lookup id (insert id ov m) ≡ some ov
lookup-insert_self id ov m = ground (arith, lookup-insert id id ov m, text_iff id id)

resolve-Patched :
    (id : Text) (patch : ConfigPatch) (files : Files) (m : Manager)
    → Patched m.cfg
        (of_entry (lookup id m.cfg.servers))
        files
        (choices id m)
        patch
        (resolve_cfg_locked id files (set_override id patch m))
unfolding resolve_cfg_locked set_override
resolve-Patched id patch files m =
    let before = or_old (lookup id m.overrides) empty_patch in
    let c = m.cfg in
    subst
      (λ b.
        Patched c (of_entry (lookup id c.servers)) files b patch
          (resolve_cfg_locked id files (set_override id patch m)))
      (chosen (lookup id m.overrides))
      (subst (Patched c (of_entry (lookup id c.servers)) files before patch)
        (ap (λ o. layer_found o files (base_cfg c id files))
          (sym (lookup-insert_self id (merge patch before) m.overrides)))
        (layer-Patched c id files before patch))
  where
    chosen :
        (o : Option ConfigPatch)
        → or_old o empty_patch ≡ (elim o [ none ↦ empty_patch | some ov ↦ ov ])
    chosen none = refl
    chosen (some ov) = refl

-- A change of the settings of a server that is accepted leaves of the server all but its settings
-- as it was, and every other server. Of each setting, the call's choice holds, else the one made
-- in the panel before, else what the config file and the directory give: a memory of 4G and the
-- java of the whole file, or `java`, where the server's entry has none; a chosen jar if it is
-- there, else the entry's, else server.jar, else the only jar; and run.sh where there is no jar.
pub update_config-Patched :
    (id : Text) (patch : ConfigPatch) (files : Files) (m : Manager) (s : Instance)
    → check_id id ≡ none
    → lookup id m.instances ≡ some s
    → bad_mem patch.mem ≡ false
    → (cfg : ResolvedCfg) × (update_config id patch files m ≡ (
      none,
      record (set_override id patch m) {
        instances = insert id (record s { cfg = cfg }) m.instances;
      },
    ))
      × Patched m.cfg (of_entry (lookup id m.cfg.servers)) files (choices id m) patch cfg
unfolding update_config
update_config-Patched id patch files m s ok here fits = (
  resolve_cfg_locked id files (set_override id patch m),
  rw (update_config, ok, here, fits),
  resolve-Patched id patch files m,
)
