-- ===== src/Examples/Servers.antt =====
-- internal/mc: a server that is started, crashes and is restarted.
use control_panel.Base.{
  ◌≤◌, ◌≡◌, ◌↔◌, refl, true, false, Option, none, some, List, [], ◌∷◌, ◌++◌, pos, if◌then◌else◌,
  arith,
}
use control_panel.Base.Text.{Text, text_eq, text_test, trim_space}
use control_panel.Base.Text.Numbers.{chars}
use control_panel.Mc.Instance.{ResolvedCfg, Instance, Launch, new_instance, start}
use control_panel.Mc.Instance.Lines.{Patterns, handle_line, handle_lines, pump_output, pump_reads}
use control_panel.Mc.Instance.Stopping.{wait_for_exit, is_active}
use control_panel.Mc.Instance.Calls.{Call, starts, prints, exits, stops, new_server, run, IsValid}
use control_panel.Mc.Instance.Valid.{server_run-IsValid}
use control_panel.Mc.Instance.Restarts.{
  restarts_in_window, restarts, InOrder, restarts_in_window-run,
}
use control_panel.Mc.Instance.Players.{
  IsOnline, joins, leaves, present, handle_lines-start, handle_line-wait_for_exit,
}
use control_panel.Mc.Instance.Output.{concat, pump_output-concat}

abbrev finds : Text → Text → Text → Option Text
finds line name text = if text_test text line then some name else none

abbrev ann : Text
ann = chars "Ann"

abbrev patterns : Patterns
patterns = record {
  strip_ansi = λ text. text;
  level = λ text. none;
  version = λ text. none;
  paper = λ text. none;
  joined = finds (chars "Ann joined the game") ann;
  left = finds (chars "Ann left the game") ann;
}

abbrev pub cfg : ResolvedCfg
cfg = record {
  java = chars "java";
  jar = chars "server.jar";
  run_script = [];
  mem = chars "4G";
  jvm_args = [];
  aikar = false;
  auto_start = false;
  auto_restart = true;
  run_as_user = [];
  run_as_uid = pos 0;
  run_as_gid = pos 0;
}

abbrev pub launch : Launch
launch = record {
  properties = some (chars "server-port=25565");
  eula_accepted = true;
  port_free = true;
  chown_tree = none;
  apply_run_as = none;
  stdin_pipe = none;
  output_pipe = none;
  exec = none;
  pid = 7;
  now = 1000;
}

abbrev pub smp : Text
smp = chars "smp"

abbrev calls : List Call
calls =
    starts launch
    ∷ prints (chars "Done (3s)! For help, type \"help\"")
    ∷ exits 0 (some (chars "exit status 1")) 2000 2000 2000
    ∷ starts launch
    ∷ exits 1 (some (chars "exit status 1")) 9000 9000 9001
    ∷ starts launch
    ∷ stops none
    ∷ exits 2 none 12_000 12_000 12_000
    ∷ []

server_run-IsValid_example : IsValid (run patterns (new_server smp (chars "/srv/smp") cfg) calls)
server_run-IsValid_example = server_run-IsValid patterns smp (chars "/srv/smp") cfg calls

in_order : InOrder calls
in_order = (omega arith, (omega arith, (omega arith, tt)))

restarts_in_window-run_example :
    restarts_in_window 10_000 (restarts patterns (new_server smp (chars "/srv/smp") cfg) calls) ≤ 3
restarts_in_window-run_example =
    restarts_in_window-run patterns smp (chars "/srv/smp") cfg calls 10_000 in_order

abbrev pub server : Instance
server = new_instance smp (chars "/srv/smp") cfg

abbrev lines : List Text
lines = chars "Ann joined the game" ∷ chars "Ann left the game" ∷ chars "Ann joined the game" ∷ []

started : (start launch 0 server).0 ≡ none
unfolding start new_instance
started = refl

handle_lines-start_example :
    (present patterns ann (handle_lines patterns lines (start launch 0 server).1).players ≡ true)
    ↔ IsOnline patterns ann lines
handle_lines-start_example = handle_lines-start patterns ann launch 0 server lines started

ann-joins : joins patterns ann (chars "Ann joined the game") ≡ true
unfolding joins trim_space
ann-joins = refl

ann_stays : leaves patterns ann (chars "Ann joined the game") ≡ false
unfolding leaves trim_space
ann_stays = refl

handle_line-wait_for_exit_example :
    let t =
      handle_line patterns
        (chars "Ann joined the game")
        (wait_for_exit none 1 1 1 (start launch 0 server).1).1 in
    (present patterns ann t.players ≡ true) × (is_active t.state ≡ false)
handle_line-wait_for_exit_example =
    handle_line-wait_for_exit patterns ann none 1 1 1 (start launch 0 server).1
      (chars "Ann joined the game") ann-joins ann_stays

pump_output-concat_example :
    pump_reads patterns
      (chars "Ann joined" ∷ chars " the game\r\nAnn le" ∷ chars "ft the game\n" ∷ [])
      ([], server)
    ≡ pump_output patterns
        (chars "Ann joined" ++ concat (chars " the game\r\nAnn le" ∷ chars "ft the game\n" ∷ []))
        ([], server)
pump_output-concat_example =
    pump_output-concat patterns (chars "Ann joined")
      (chars " the game\r\nAnn le" ∷ chars "ft the game\n" ∷ []) server
