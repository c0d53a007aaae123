-- ===== src/Term/Session/Closing.antt =====
-- internal/term/term.go: the end of a session.
use control_panel.Base.{ℕ, ◌≡◌, ap, ◌∙◌, true, false, none, [], ◌∷◌, arith}
use control_panel.Channel.{make}
use control_panel.Term.Session.{exit, Session, subscribe, input, close_session, sub_buffer}

input_ended : (now : ℕ) (s : Session) → s.exited ≡ true → (input now s).0 ≡ false
unfolding input
input_ended now s e = ground arith

subscribe_ended :
    (s : Session)
    → s.exited ≡ true
    → (subscribe s).0
      ≡ (s.replay, record { cap = sub_buffer; queue = exit ∷ []; closed = true }, none)
unfolding subscribe make
subscribe_ended s e = ground arith

pub close_exited : (s : Session) → (close_session s).2.exited ≡ true
unfolding close_session
close_exited s = ground arith

close_done :
    (s : Session) → s.exited ≡ true → ((close_session s).0 ≡ false) × ((close_session s).1 ≡ [])
unfolding close_session
close_done s e = ground arith

close_replay : (s : Session) → (close_session s).2.replay ≡ s.replay
unfolding close_session
close_replay s = ground arith

-- However often a session is closed, it ends once: after a call of `close`, another goes on to no
-- process and closes no channel, `Input` is refused, and a new subscriber gets the replay as it was
-- and a closed channel that holds the exit.
pub close_session_once :
    (s : Session) (now : ℕ)
    → let t = (close_session s).2 in
      (t.exited ≡ true)
      × ((close_session t).0 ≡ false)
      × ((close_session t).1 ≡ [])
      × ((input now t).0 ≡ false)
      × ((subscribe t).0
          ≡ (s.replay, record { cap = sub_buffer; queue = exit ∷ []; closed = true }, none))
close_session_once s now =
    let t = (close_session s).2 in
    let e = close_exited s in
    let d = close_done t e in
    (
      e,
      d.0,
      d.1,
      input_ended now t e,
      subscribe_ended t e ∙ ap (λ r. (r, _, none)) (close_replay s),
    )
