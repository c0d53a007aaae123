-- ===== src/Mc/Instance/Valid.antt =====
-- internal/mc/instance.go: a server has at most one process, whatever is called.
use mathlib.Core.Path.{subst}
use control_panel.Base.{
  if_either, ℕ, ◌≡◌, inl, inr, refl, sym, ap, ◌∙◌, Bool, true, false, Option, none, some, List, [],
  ◌∷◌, ◌++◌, if◌then◌else◌, Option-cases, arith,
}
use control_panel.Base.Text.{Text}
use control_panel.Mc.Instance.{
  State, stopped, starting, running, stopping, crashed, ResolvedCfg, Instance, Refusal, Launch,
  wrong_state, first_of, new_instance, start, start_error, unless, launched, refresh_props,
  may_start,
}
use control_panel.Mc.Instance.Lines.{Patterns}
use control_panel.Mc.Instance.Stopping.{wait_for_exit, kill, is_active, has_crashed}
use control_panel.Mc.Instance.Calls.{
  Server, Call, starts, prints, exits, stops, kills, commands, new_server, start_server, is_alive,
  gone, after, run, only, is_some, IsValid,
}
use control_panel.Mc.Instance.Same.{
  Same, command-Same, handle_line-Same, kill_process-Same, refresh_props-Same, stop-Same,
}

Same-IsValid :
    (v : Server) (t : Instance)
    → Same v.instance_of t
    → IsValid v
    → IsValid (record v { instance_of = t })
Same-IsValid v t e i = record {
  process = i.process ∙ ap only (sym e.proc);
  active = e.active ∙ i.active ∙ ap is_some (sym e.proc);
  open_stdin = e.stdin ∙ i.open_stdin ∙ sym e.proc;
}

first_of_head :
    (r : Option Refusal) (rest : List (Option Refusal)) → first_of (r ∷ rest) ≡ none → r ≡ none
unfolding first_of
first_of_head none rest h = refl
first_of_head (some why) rest h = h

guard_true : (b : Bool) (why : Refusal) → (if b then none else some why) ≡ none → b ≡ true
guard_true true why h = refl
guard_true false why h = cc

start_error_state : (l : Launch) (s : Instance) → start_error l s ≡ none → may_start s.state ≡ true
unfolding start_error
start_error_state l s h = guard_true (may_start s.state) (wrong_state s.state) (first_of_head _ _ h)

not_active : (st : State) → may_start st ≡ true → is_active st ≡ false
not_active stopped h = refl
not_active starting h = cc
not_active running h = cc
not_active stopping h = cc
not_active crashed h = refl

start-IsValid :
    (l : Launch) (v : Server) → IsValid v → IsValid (start_server (start l v.fresh v.instance_of) v)
unfolding start
start-IsValid l v i =
    let s = v.instance_of in
    let s1 = refresh_props l.properties s in
    let same = refresh_props-Same l.properties s in
    elim (Option-cases (start_error l s1)) [
      | inr (why, e) ↦
          subst (λ o. IsValid (start_server (unless o s1 (launched l v.fresh s1)) v)) (sym e)
            (Same-IsValid v s1 same i)
      | inl e ↦
          subst (λ o. IsValid (start_server (unless o s1 (launched l v.fresh s1)) v)) (sym e)
            (record {
              process =
                  ap (λ ps. ps ++ v.fresh ∷ [])
                    (i.process
                      ∙ ap only (
                          no_process s.proc (
                            sym i.active
                            ∙ sym same.active
                            ∙ not_active s1.state (start_error_state l s1 e))));
              active = refl;
              open_stdin = refl;
            })
    ]
  where
    no_process : (o : Option ℕ) → is_some o ≡ false → o ≡ none
    no_process none h = refl
    no_process (some p) h = cc

exit_state : (b : Bool) → is_active (if b then crashed else stopped) ≡ false
exit_state true = refl
exit_state false = refl

pub exit_idle :
    (err : Option Text) (at now later : ℕ) (s : Instance)
    → is_active (wait_for_exit err at now later s).1.state ≡ false
unfolding wait_for_exit
exit_idle err at now later s = exit_state (has_crashed err s)

exit-IsValid :
    (p : ℕ) (err : Option Text) (at now later : ℕ) (v : Server)
    → IsValid v
    → is_alive p v.alive ≡ true
    → IsValid (record v {
      instance_of = (wait_for_exit err at now later v.instance_of).1;
      alive = gone p v.alive;
    })
unfolding wait_for_exit gone is_alive
exit-IsValid p err at now later v i h = record {
  process =
      ap (gone p) i.process ∙ emptied v.instance_of.proc (ap (is_alive p) (sym i.process) ∙ h);
  active = exit_idle err at now later v.instance_of;
  open_stdin = refl;
}
  where
    emptied : (o : Option ℕ) → is_alive p (only o) ≡ true → gone p (only o) ≡ []
    emptied none h = refl
    emptied (some q) h = ground arith

after-IsValid : (re : Patterns) (v : Server) (c : Call) → IsValid v → IsValid (after re v c)
unfolding after kill
after-IsValid re v (starts l) i = start-IsValid l v i
after-IsValid re v (prints raw) i = Same-IsValid v _ (handle_line-Same re raw v.instance_of) i
after-IsValid re v (exits p err at now later) i =
    if_either IsValid (is_alive p v.alive) _ v (exit-IsValid p err at now later v i) (λ h. i)
after-IsValid re v (stops err) i = Same-IsValid v _ (stop-Same err v.instance_of) i
after-IsValid re v kills i = Same-IsValid v _ (kill_process-Same v.instance_of.proc v.instance_of) i
after-IsValid re v (commands cmd err) i = Same-IsValid v _ (command-Same cmd err v.instance_of) i

run_from-IsValid : (re : Patterns) (cs : List Call) (v : Server) → IsValid v → IsValid (run re v cs)
unfolding run
run_from-IsValid re [] v i = i
run_from-IsValid re (c ∷ cs) v i = run_from-IsValid re cs (after re v c) (after-IsValid re v c i)

-- Over any calls, lines and exits of processes, a new server has at most one process that has been
-- started and not yet found to have ended; there is one exactly if its state is starting, running or
-- stopping, and then the server's stdin is open, to that process.
pub server_run-IsValid :
    (re : Patterns) (id dir : Text) (cfg : ResolvedCfg) (cs : List Call)
    → IsValid (run re (new_server id dir cfg) cs)
unfolding new_instance
server_run-IsValid re id dir cfg cs =
    run_from-IsValid re cs (new_server id dir cfg)
      (record { process = refl; active = refl; open_stdin = refl })
