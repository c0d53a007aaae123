-- ===== src/Term/Session/Replay.antt =====
-- internal/term/term.go: the scrollback that a new subscriber is given.
use mathlib.Core.List.{append-nil, append_assoc}
use control_panel.Base.{
  ℕ, ◌≡◌, refl, sym, ap, ◌∙◌, List, [], ◌∷◌, ◌++◌, last, last-append, arith, String,
}
use control_panel.Term.Session.{Session, replay_max, new_session, pump, subscribe}

pump_replay :
    (bytes : List ℕ) (s : Session) → (pump bytes s).1.replay ≡ last replay_max (s.replay ++ bytes)
unfolding pump
pump_replay bytes s = ground arith

-- The session after some output, read by read.
pub pump_all : List (List ℕ) → Session → Session
pump_all [] s = s
pump_all (bytes ∷ reads) s = pump_all reads (pump bytes s).1

pub concat : List (List ℕ) → List ℕ
concat [] = []
concat (bytes ∷ reads) = bytes ++ concat reads

pump_all_replay :
    (reads : List (List ℕ)) (s : Session) (h : List ℕ)
    → s.replay ≡ last replay_max h
    → (pump_all reads s).replay ≡ last replay_max (h ++ concat reads)
unfolding pump_all concat
pump_all_replay [] s h e = e ∙ ap (last replay_max) (sym (append-nil h))
pump_all_replay (bytes ∷ reads) s h e =
    pump_all_replay reads (pump bytes s).1 (h ++ bytes) (
      pump_replay bytes s
      ∙ ap (λ r. last replay_max (r ++ bytes)) e
      ∙ last-append replay_max h bytes)
    ∙ ap (last replay_max) (append_assoc h bytes (concat reads))

subscribe_replay : (s : Session) → (subscribe s).0.0 ≡ s.replay
unfolding subscribe
subscribe_replay s = ground arith

-- After any reads of output on a new session, a subscriber is first given the last 256 KiB of all the
-- bytes that the terminal has put out, or all of them if they are fewer.
pub replay-pump_all :
    (id : String) (now : ℕ) (reads : List (List ℕ))
    → (subscribe (pump_all reads (new_session id now))).0.0 ≡ last replay_max (concat reads)
replay-pump_all id now reads =
    subscribe_replay (pump_all reads (new_session id now))
    ∙ pump_all_replay reads (new_session id now) [] (unfold new_session in refl)
