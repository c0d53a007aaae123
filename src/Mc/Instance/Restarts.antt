-- ===== src/Mc/Instance/Restarts.antt =====
-- internal/mc/instance.go: how often a server is restarted after a crash.
use mathlib.Core.Path.{subst}
use mathlib.Core.List.{append-nil, append_assoc}
use control_panel.Base.{
  if_either, Bool-cases, inl, inr, ap, ◌∙◌, ℕ, ◌+◌, ◌≤◌, ◌≡◌, sym, true, ◌&&◌, Option, List, [],
  ◌∷◌, ◌++◌, if◌then◌else◌, ltb, leb, arith,
}
use control_panel.Base.Text.{Text}
use control_panel.Mc.Instance.{
  ResolvedCfg, Instance, new_instance, start, start_error, refresh_props,
}
use control_panel.Mc.Instance.Lines.{Patterns}
use control_panel.Mc.Instance.Stopping.{recent_restarts, will_restart, wait_for_exit, kill}
use control_panel.Mc.Instance.Kept.{
  handle_line-Kept, stop-Kept, kill_process-Kept, command-Kept, refresh_props-Kept,
  start_server-Kept,
}
use control_panel.Mc.Instance.Calls.{
  Server, Call, starts, prints, exits, stops, kills, commands, new_server, is_alive, after, run,
}

-- How many of the times are in the ten minutes up to `t`.
unfoldable pub restarts_in_window : ℕ → List ℕ → ℕ
restarts_in_window t [] = 0
restarts_in_window t (u ∷ us) =
    let n = restarts_in_window t us in if ltb t (u + 600_000) && leb u t then n + 1 else n

-- An exit reads the clock for the count before it reads it for the restart.
abbrev pub InOrder : List Call → Type 0
InOrder [] = Unit
InOrder (exits p err at now later ∷ cs) = (now ≤ later) × InOrder cs
InOrder (starts l ∷ cs) = InOrder cs
InOrder (prints raw ∷ cs) = InOrder cs
InOrder (stops err ∷ cs) = InOrder cs
InOrder (kills ∷ cs) = InOrder cs
InOrder (commands cmd err ∷ cs) = InOrder cs

abbrev AtMostThree : List ℕ → Type 0
AtMostThree ts = (t : ℕ) → restarts_in_window t ts ≤ 3

window-append :
    (t u : ℕ) (ts : List ℕ)
    → restarts_in_window t (ts ++ u ∷ [])
      ≡ restarts_in_window t ts + (if ltb t (u + 600_000) && leb u t then 1 else 0)
unfolding restarts_in_window
window-append t u [] = ground arith
window-append t u (v ∷ ts) = ground (arith, window-append t u ts)

window_recent :
    (now t : ℕ) (ts : List ℕ) → now ≤ t → restarts_in_window t ts ≤ recent_restarts now ts
unfolding restarts_in_window recent_restarts
window_recent now t [] h = omega arith
window_recent now t (u ∷ ts) h = ground (arith, window_recent now t ts h)

append-AtMostThree :
    (now later : ℕ) (ts : List ℕ)
    → now ≤ later
    → ltb (recent_restarts now ts) 3 ≡ true
    → AtMostThree ts
    → AtMostThree (ts ++ later ∷ [])
append-AtMostThree now later ts o h a t =
    ground (arith, a t, window-append t later ts, window_recent now t ts)

exit-AtMostThree :
    (err : Option Text) (at now later : ℕ) (s : Instance)
    → now ≤ later
    → AtMostThree s.restart_times
    → AtMostThree (wait_for_exit err at now later s).1.restart_times
unfolding wait_for_exit
exit-AtMostThree err at now later s o a =
    if_either AtMostThree (will_restart err now s) (s.restart_times ++ later ∷ []) s.restart_times
      (λ h. append-AtMostThree now later s.restart_times o (last_test h) a) (λ h. a)
  where
    last_test : will_restart err now s ≡ true → ltb (recent_restarts now s.restart_times) 3 ≡ true
    last_test h = ground (arith, h)

after-AtMostThree :
    (re : Patterns) (v : Server) (c : Call) (cs : List Call)
    → InOrder (c ∷ cs)
    → AtMostThree v.instance_of.restart_times
    → AtMostThree (after re v c).instance_of.restart_times × InOrder cs
unfolding after kill start
after-AtMostThree re v (starts l) cs o a =
    let s1 = refresh_props l.properties v.instance_of in
    (
      subst AtMostThree
          (sym (
            start_server-Kept (start_error l s1) l s1 v
              (refresh_props-Kept l.properties v.instance_of)))
          a,
      o,
    )
after-AtMostThree re v (prints raw) cs o a =
    (subst AtMostThree (sym (handle_line-Kept re raw v.instance_of)) a, o)
after-AtMostThree re v (exits p err at now later) cs o a = (
  if_either (λ (w : Server). AtMostThree w.instance_of.restart_times) (is_alive p v.alive) _ v
      (λ h. exit-AtMostThree err at now later v.instance_of o.0 a) (λ h. a),
  o.1,
)
after-AtMostThree re v (stops err) cs o a =
    (subst AtMostThree (sym (stop-Kept err v.instance_of)) a, o)
after-AtMostThree re v kills cs o a =
    (subst AtMostThree (sym (kill_process-Kept v.instance_of.proc v.instance_of)) a, o)
after-AtMostThree re v (commands cmd err) cs o a =
    (subst AtMostThree (sym (command-Kept cmd err v.instance_of)) a, o)

run_from-AtMostThree :
    (re : Patterns) (cs : List Call) (v : Server)
    → InOrder cs
    → AtMostThree v.instance_of.restart_times
    → AtMostThree (run re v cs).instance_of.restart_times
unfolding run
run_from-AtMostThree re [] v o a = a
run_from-AtMostThree re (c ∷ cs) v o a =
    let (b, later) = after-AtMostThree re v c cs o a in
    run_from-AtMostThree re cs (after re v c) later b

-- When a call asks for a restart: an exit for which waitForExit comes to call Start again.
unfoldable pub asked : Server → Call → List ℕ
asked v (exits p err at now later) =
    if is_alive p v.alive
    then (if (wait_for_exit err at now later v.instance_of).0 then later ∷ [] else [])
    else []
asked v (starts l) = []
asked v (prints raw) = []
asked v (stops err) = []
asked v kills = []
asked v (commands cmd err) = []

-- When restarts are asked for over the calls.
unfoldable pub restarts : Patterns → Server → List Call → List ℕ
restarts re v [] = []
restarts re v (c ∷ cs) = asked v c ++ restarts re (after re v c) cs

exit-asked :
    (err : Option Text) (at now later : ℕ) (s : Instance)
    → (wait_for_exit err at now later s).1.restart_times
      ≡ s.restart_times ++ (if (wait_for_exit err at now later s).0 then later ∷ [] else [])
unfolding wait_for_exit
exit-asked err at now later s =
    if_either (λ ts. ts ≡ s.restart_times ++ (if will_restart err now s then later ∷ [] else []))
      (will_restart err now s) (s.restart_times ++ later ∷ []) s.restart_times (λ h. rw h)
      (λ h. rw h (sym (append-nil s.restart_times)))

-- What a call adds to the restarts.
after-asked :
    (re : Patterns) (v : Server) (c : Call)
    → (after re v c).instance_of.restart_times ≡ v.instance_of.restart_times ++ asked v c
unfolding after kill start asked
after-asked re v (starts l) =
    let s1 = refresh_props l.properties v.instance_of in
    start_server-Kept (start_error l s1) l s1 v (refresh_props-Kept l.properties v.instance_of)
    ∙ sym (append-nil v.instance_of.restart_times)
after-asked re v (prints raw) =
    handle_line-Kept re raw v.instance_of ∙ sym (append-nil v.instance_of.restart_times)
after-asked re v (exits p err at now later) = elim (Bool-cases (is_alive p v.alive)) [
  | inl h ↦ rw h (exit-asked err at now later v.instance_of)
  | inr h ↦ rw h (sym (append-nil v.instance_of.restart_times))
]
after-asked re v (stops err) =
    stop-Kept err v.instance_of ∙ sym (append-nil v.instance_of.restart_times)
after-asked re v kills =
    kill_process-Kept v.instance_of.proc v.instance_of
    ∙ sym (append-nil v.instance_of.restart_times)
after-asked re v (commands cmd err) =
    command-Kept cmd err v.instance_of ∙ sym (append-nil v.instance_of.restart_times)

run-restarts :
    (re : Patterns) (cs : List Call) (v : Server)
    → (run re v cs).instance_of.restart_times ≡ v.instance_of.restart_times ++ restarts re v cs
unfolding run restarts
run-restarts re [] v = sym (append-nil v.instance_of.restart_times)
run-restarts re (c ∷ cs) v =
    run-restarts re cs (after re v c)
    ∙ ap (λ ts. ts ++ restarts re (after re v c) cs) (after-asked re v c)
    ∙ append_assoc v.instance_of.restart_times (asked v c) (restarts re (after re v c) cs)

-- Over any calls, lines and exits of processes, `waitForExit` asks for the restart of a new server
-- at most three times in any ten minutes, if each exit reads the clock for the restart no earlier
-- than for the count of those before.
pub restarts_in_window-run :
    (re : Patterns) (id dir : Text) (cfg : ResolvedCfg) (cs : List Call) (t : ℕ)
    → InOrder cs
    → restarts_in_window t (restarts re (new_server id dir cfg) cs) ≤ 3
unfolding new_instance restarts_in_window
restarts_in_window-run re id dir cfg cs t o =
    subst (λ ts. restarts_in_window t ts ≤ 3) (run-restarts re cs (new_server id dir cfg))
      (run_from-AtMostThree re cs (new_server id dir cfg) o none_yet t)
  where
    none_yet : AtMostThree []
    none_yet t = omega arith
