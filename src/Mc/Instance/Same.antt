-- ===== src/Mc/Instance/Same.antt =====
-- internal/mc/instance.go: the calls that leave a server's process as it is.
use control_panel.Base.{
  if_either, ℕ, ◌≡◌, refl, sym, ap, ◌∙◌, Bool, true, false, ◌||◌, Option, none, some,
}
use control_panel.Base.Text.{Text, is_empty, trim_space, contains}
use control_panel.Base.Text.Numbers.{chars}
use control_panel.Mc.Instance.{
  State, stopped, starting, running, stopping, crashed, Instance, Refusal, wrong_state, not_running,
  single_line, refresh_props,
}
use control_panel.Mc.Instance.Lines.{
  Patterns, handle_line, see_line, see_version, see_paper, done_state, stopping_state,
}
use control_panel.Mc.Instance.Stopping.{
  stop, command, write_to, write_command_locked, kill_process, is_active, is_up,
}

-- Two states of a server with the same process and stdin, both active or neither.
pub record Same (s t : Instance) : Type 0 where
  pub proc : t.proc ≡ s.proc
  pub stdin : t.stdin ≡ s.stdin
  pub active : is_active t.state ≡ is_active s.state

pub Same-refl : (s : Instance) → Same s s
Same-refl s = record { proc = refl; stdin = refl; active = refl }

states_active :
    (a b : Bool) (st : State) → is_active (stopping_state a (done_state b st)) ≡ is_active st
states_active a b stopped = refl
states_active true true starting = refl
states_active true false starting = refl
states_active false true starting = refl
states_active false false starting = refl
states_active true b running = refl
states_active false b running = refl
states_active a b stopping = refl
states_active a b crashed = refl

seen_fields :
    (a b : Option Text) (s : Instance)
    → let t = see_paper a (see_version b s) in
      (t.proc ≡ s.proc) × (t.stdin ≡ s.stdin) × (t.state ≡ s.state)
seen_fields none none s = (refl, refl, refl)
seen_fields none (some v) s = (refl, refl, refl)
seen_fields (some n) none s = (refl, refl, refl)
seen_fields (some n) (some v) s = (refl, refl, refl)

pub see_line-Same : (re : Patterns) (text : Text) (s : Instance) → Same s (see_line re text s)
unfolding see_line
see_line-Same re text s =
    let f = seen_fields (re.paper text) (re.version text) s in
    record { proc = f.0; stdin = f.1; active = states_active _ _ _ ∙ ap is_active f.2 }

pub handle_line-Same : (re : Patterns) (raw : Text) (s : Instance) → Same s (handle_line re raw s)
unfolding handle_line
handle_line-Same re raw s =
    let text = re.strip_ansi raw in
    if_either (Same s) (is_empty (trim_space text)) s (see_line re text s) (λ h. Same-refl s)
      (λ h. see_line-Same re text s)

pub write_to-Same :
    (o : Option ℕ) (err : Option Text) (cmd : Text) (s : Instance) → Same s (write_to o err cmd s).1
write_to-Same none err cmd s = Same-refl s
write_to-Same (some p) none cmd s = record { proc = refl; stdin = refl; active = refl }
write_to-Same (some p) (some e) cmd s = Same-refl s

pub write_command-Same :
    (cmd : Text) (err : Option Text) (s : Instance) → Same s (write_command_locked cmd err s).1
unfolding write_command_locked
write_command-Same cmd err s = write_to-Same s.stdin err cmd s

pub refresh_props-Same : (content : Option Text) (s : Instance) → Same s (refresh_props content s)
unfolding refresh_props
refresh_props-Same none s = Same-refl s
refresh_props-Same (some content) s = record { proc = refl; stdin = refl; active = refl }

pub Same-trans : (s t u : Instance) → Same s t → Same t u → Same s u
Same-trans s t u a b = record {
  proc = b.proc ∙ a.proc;
  stdin = b.stdin ∙ a.stdin;
  active = b.active ∙ a.active;
}

up_active : (st : State) → is_up st ≡ true → is_active st ≡ true
up_active stopped h = cc
up_active starting h = refl
up_active running h = refl
up_active stopping h = refl
up_active crashed h = cc

pub stop-Same : (err : Option Text) (s : Instance) → Same s (stop err s).1
unfolding stop
stop-Same err s =
    let s1 = record s { stop_requested = true; state = stopping } in
    if_either (λ (r : Option Refusal × Instance). Same s r.1) (is_up s.state) _
      (some (wrong_state s.state), s)
      (λ up.
        Same-trans s s1 _
          (record { proc = refl; stdin = refl; active = sym (up_active s.state up) })
          (write_command-Same (chars "stop") err s1))
      (λ down. Same-refl s)

pub kill_process-Same : (o : Option ℕ) (s : Instance) → Same s (kill_process o s).1
kill_process-Same none s = Same-refl s
kill_process-Same (some p) s = record { proc = refl; stdin = refl; active = refl }

pub command-Same : (cmd : Text) (err : Option Text) (s : Instance) → Same s (command cmd err s).1
unfolding command
command-Same cmd err s =
    if_either (λ (r : Option Refusal × Instance). Same s r.1)
      (contains b'\r' cmd || contains b'\n' cmd) (some single_line, s) _ (λ h. Same-refl s)
      (λ h.
        if_either (λ (r : Option Refusal × Instance). Same s r.1) (is_active s.state)
          (write_command_locked cmd err s) (some not_running, s) (λ h. write_command-Same cmd err s)
          (λ h. Same-refl s))
