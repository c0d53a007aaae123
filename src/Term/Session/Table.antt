-- ===== src/Term/Session/Table.antt =====
-- internal/term/term.go: the table of subscribers, of which each has one entry.
use mathlib.Core.Path.{subst}
use control_panel.Base.{
  ℕ, ◌≡◌, refl, sym, Bool, true, false, Option, none, some, Option-cases, List, [], ◌∷◌, ◌++◌,
  if◌then◌else◌, lookup, nat_eq, nat_beq_iff, Distinct, Distinct-insert, Distinct-delete, arith,
}
use control_panel.Channel.{Chan, has_room}
use control_panel.Channel.Hub
use control_panel.Channel.Hub.{Hub}
use control_panel.Term.Session.{
  Chunk, output, Session, broadcast_locked, pump, subscribe, cancel, input, close_session,
  sub_buffer,
}
use control_panel.Term.Session.Calls.{
  take_from, receive_in, receive, Call, pumps, subscribes, cancels, receives, inputs, closes, after,
  run,
}

abbrev pub Subs : Type 0
Subs = List (ℕ × Chan Chunk)

abbrev pub after_offer : Chunk → Option (Chan Chunk) → Option (Chan Chunk)
after_offer x none = none
after_offer x (some c) = if has_room c then some (record c { queue = c.queue ++ x ∷ [] }) else none

broadcast-none :
    (x : Chunk) (id : ℕ) (m : Subs) → lookup id m ≡ none → lookup id (broadcast_locked x m) ≡ none
unfolding broadcast_locked lookup
broadcast-none x id [] h = refl
broadcast-none x id ((j, c) ∷ m) h = ground (arith, broadcast-none x id m)

pub lookup-broadcast_locked :
    (x : Chunk) (id : ℕ) (m : Subs)
    → Distinct m
    → lookup id (broadcast_locked x m) ≡ after_offer x (lookup id m)
unfolding broadcast_locked lookup
lookup-broadcast_locked x id [] d = refl
lookup-broadcast_locked x id ((j, c) ∷ m) d =
    ground (arith, lookup-broadcast_locked x id m d.1, nat_beq_iff j id, broadcast-none x j m d.0)

pub Distinct-broadcast_locked :
    (x : Chunk) (m : Subs) → Distinct m → Distinct (broadcast_locked x m)
unfolding broadcast_locked
Distinct-broadcast_locked x [] d = tt
Distinct-broadcast_locked x ((j, c) ∷ m) d =
    ground (arith, Distinct-broadcast_locked x m d.1, broadcast-none x j m d.0)

pub subscribe_hub :
    (s : Session)
    → (subscribe s).1.hub ≡ (if s.exited then s.hub else (Hub.subscribe sub_buffer s.hub).1)
unfolding subscribe
subscribe_hub s = ground arith

pub close_hub :
    (s : Session)
    → (close_session s).2.hub ≡ (if s.exited then s.hub else record s.hub { subs = [] })
unfolding close_session
close_hub s = ground arith

pub input_hub : (now : ℕ) (s : Session) → (input now s).1.hub ≡ s.hub
unfolding input
input_hub now s = ground arith

receive-Distinct : (j : ℕ) (s : Session) → Distinct s.hub.subs → Distinct (receive j s).1.hub.subs
unfolding receive
receive-Distinct j s d = go (lookup j s.hub.subs)
  where
    go : (o : Option (Chan Chunk)) → Distinct (receive_in j o s).1.hub.subs
    go none = d
    go (some c) = from c.queue
      where
        from : (q : List Chunk) → Distinct (take_from j c q s).1.hub.subs
        from [] = d
        from (x ∷ rest) = Distinct-insert j _ s.hub.subs d

cancel-Distinct : (j : ℕ) (s : Session) → Distinct s.hub.subs → Distinct (cancel j s).1.hub.subs
unfolding cancel
cancel-Distinct j s d =
    ground (arith, Distinct-delete j s.hub.subs d, Option-cases (lookup j s.hub.subs))

after-Distinct : (s : Session) (c : Call) → Distinct s.hub.subs → Distinct (after s c).hub.subs
unfolding after pump Hub.subscribe
after-Distinct s (pumps bytes) d = Distinct-broadcast_locked (output bytes) s.hub.subs d
after-Distinct s (receives j) d = receive-Distinct j s d
after-Distinct s (cancels j) d = cancel-Distinct j s d
after-Distinct s (inputs now) d = rw (input_hub now s) d
after-Distinct s subscribes d =
    subst (λ (h : Hub Chunk). Distinct h.subs) (sym (subscribe_hub s)) (go s.exited)
  where
    go : (b : Bool) → Distinct (if b then s.hub else (Hub.subscribe sub_buffer s.hub).1).subs
    go true = d
    go false = Distinct-insert s.hub.next _ s.hub.subs d
after-Distinct s closes d =
    subst (λ (h : Hub Chunk). Distinct h.subs) (sym (close_hub s)) (go s.exited)
  where
    go : (b : Bool) → Distinct (if b then s.hub else record s.hub { subs = [] }).subs
    go true = d
    go false = tt

pub run-Distinct :
    (cs : List Call) (s : Session) → Distinct s.hub.subs → Distinct (run s cs).hub.subs
unfolding run
run-Distinct [] s d = d
run-Distinct (c ∷ cs) s d = run-Distinct cs (after s c) (after-Distinct s c d)
