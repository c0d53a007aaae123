-- ===== src/Mc/Instance/Kept.antt =====
-- internal/mc/instance.go: the calls and lines that do not change the restarts of a server.
use control_panel.Base.Text.Numbers.{chars}
use control_panel.Base.{if_either, ℕ, ◌≡◌, refl, true, ◌||◌, Option, none, some}
use control_panel.Base.Text.{Text, is_empty, trim_space, contains}
use control_panel.Mc.Instance.{
  Instance, stopping, Refusal, wrong_state, single_line, not_running, Launch, unless, launched,
  refresh_props,
}
use control_panel.Mc.Instance.Lines.{Patterns, handle_line, see_line, see_version, see_paper}
use control_panel.Mc.Instance.Stopping.{
  stop, kill_process, command, write_to, write_command_locked, is_up, is_active,
}
use control_panel.Mc.Instance.Calls.{Server, start_server}

-- A state with the same restarts.
abbrev pub Kept : Instance → Instance → Type 0
Kept s t = t.restart_times ≡ s.restart_times

pub seen-Kept : (a b : Option Text) (s : Instance) → Kept s (see_paper a (see_version b s))
seen-Kept none none s = refl
seen-Kept none (some v) s = refl
seen-Kept (some n) none s = refl
seen-Kept (some n) (some v) s = refl

pub handle_line-Kept : (re : Patterns) (raw : Text) (s : Instance) → Kept s (handle_line re raw s)
unfolding handle_line see_line
handle_line-Kept re raw s =
    let text = re.strip_ansi raw in
    if_either (Kept s) (is_empty (trim_space text)) s (see_line re text s) (λ h. refl)
      (λ h. seen-Kept (re.paper text) (re.version text) s)

pub write_to-Kept :
    (o : Option ℕ) (err : Option Text) (cmd : Text) (s : Instance) → Kept s (write_to o err cmd s).1
write_to-Kept none err cmd s = refl
write_to-Kept (some p) none cmd s = refl
write_to-Kept (some p) (some e) cmd s = refl

pub stop-Kept : (err : Option Text) (s : Instance) → Kept s (stop err s).1
unfolding stop write_command_locked
stop-Kept err s =
    if_either (λ (r : Option Refusal × Instance). Kept s r.1) (is_up s.state) _
      (some (wrong_state s.state), s)
      (λ up.
        write_to-Kept s.stdin err (chars "stop")
          (record s { stop_requested = true; state = stopping }))
      (λ down. refl)

pub kill_process-Kept : (o : Option ℕ) (s : Instance) → Kept s (kill_process o s).1
kill_process-Kept none s = refl
kill_process-Kept (some p) s = refl

pub command-Kept : (cmd : Text) (err : Option Text) (s : Instance) → Kept s (command cmd err s).1
unfolding command write_command_locked
command-Kept cmd err s =
    if_either (λ (r : Option Refusal × Instance). Kept s r.1)
      (contains b'\r' cmd || contains b'\n' cmd) (some single_line, s) _ (λ h. refl)
      (λ h.
        if_either (λ (r : Option Refusal × Instance). Kept s r.1) (is_active s.state)
          (write_command_locked cmd err s) (some not_running, s)
          (λ h. write_to-Kept s.stdin err cmd s) (λ h. refl))

pub refresh_props-Kept : (content : Option Text) (s : Instance) → Kept s (refresh_props content s)
unfolding refresh_props
refresh_props-Kept none s = refl
refresh_props-Kept (some content) s = refl

pub start_server-Kept :
    (o : Option Refusal) (l : Launch) (s1 : Instance) (v : Server)
    → Kept v.instance_of s1
    → Kept v.instance_of (start_server (unless o s1 (launched l v.fresh s1)) v).instance_of
start_server-Kept none l s1 v h = h
start_server-Kept (some why) l s1 v h = h
