-- ===== src/Examples/Terminal.antt =====
-- internal/term: two terminals, one reader, and a shutdown.
use control_panel.Base.{
  ◌≡◌, refl, true, false, none, some, List, [], ◌∷◌, ◌++◌, lookup, insert, delete, pos, nat_eq,
  string_eq,
}
use control_panel.Channel.{Chan}
use control_panel.Term.Session.{Chunk, output, new_session, subscribe}
use control_panel.Term.Session.Calls.{Call, pumps, receives, subscribes, received, sent, run, after}
use control_panel.Term.Session.Stream.{received-run}
use control_panel.Term.Manager.{new_manager, admit, insert_session, close_all}
use control_panel.Term.Manager.Valid.{IsValid}
use control_panel.Term.Manager.Calls.{creates, closes, reaps, inputs, ends, NewIds, calls-IsValid}
use control_panel.Term.Manager.Calls
use control_panel.Term.Manager.Closed.{IsQuiet, run-close_all}
use control_panel.Term.Manager.Race.{reap_all, insert_session-close_all}

abbrev earlier : List Call
earlier = pumps (1 ∷ []) ∷ subscribes ∷ []

abbrev later : List Call
later = pumps (2 ∷ 3 ∷ []) ∷ receives 1 ∷ pumps (4 ∷ []) ∷ []

abbrev left : Chan Chunk
left = record { cap = 1024; queue = output (4 ∷ []) ∷ []; closed = false }

live : (run (new_session "a" 0) earlier).exited ≡ false
unfolding run new_session after
live = refl

there :
    let s = run (new_session "a" 0) earlier in
    lookup s.hub.next (run (subscribe s).1 later).hub.subs ≡ some left
unfolding run new_session subscribe lookup after insert
there = refl

received-run_example :
    let s = run (new_session "a" 0) earlier in
    received s.hub.next (subscribe s).1 later ++ left.queue ≡ sent later
received-run_example = received-run "a" 0 earlier later left live there

abbrev calls : List Calls.Call
calls =
    creates "a" 10 none
    ∷ creates "b" 20 none
    ∷ creates "c" 30 none
    ∷ inputs 0 700_000
    ∷ reaps 1_000_000
    ∷ ends 1
    ∷ closes "a"
    ∷ []

new_ids : NewIds (new_manager true (pos 2) (pos 0)) calls
unfolding new_manager Calls.after lookup insert
new_ids = (refl, (refl, (refl, (tt, (tt, (tt, (tt, tt)))))))

calls-IsValid_example : IsValid (Calls.run (new_manager true (pos 2) (pos 0)) calls)
calls-IsValid_example = calls-IsValid true (pos 2) (pos 0) calls new_ids

run-close_all_example : IsQuiet (
    Calls.run
      (close_all (Calls.run (new_manager true (pos 2) (pos 0)) calls))
      (creates "d" 40 none ∷ []))
run-close_all_example = run-close_all true (pos 2) (pos 0) calls (creates "d" 40 none ∷ []) new_ids

let_in : admit (Calls.run (new_manager true (pos 2) (pos 0)) calls) ≡ none
unfolding admit new_manager Calls.run Calls.after lookup insert delete
let_in = refl

insert_session-close_all_example :
    let m = Calls.run (new_manager true (pos 2) (pos 0)) calls in
    let n = reap_all (5_000_000 ∷ []) (insert_session "d" 50 (close_all m)) in
    (n.stopped ≡ true)
    × (lookup "d" n.sessions ≡ some (close_all m).fresh)
    × (n.proc_open (close_all m).fresh ≡ true)
insert_session-close_all_example =
    insert_session-close_all "d" 50 (5_000_000 ∷ [])
      (Calls.run (new_manager true (pos 2) (pos 0)) calls)
      (calls-IsValid true (pos 2) (pos 0) calls new_ids) let_in
