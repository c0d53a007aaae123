-- ===== src/Term/Session/Stream.antt =====
-- internal/term/term.go: what one subscriber receives, over any sequence of calls.
use mathlib.Core.List.{append-nil, append_assoc}
use mathlib.Core.Path.{subst}
use mathlib.Core.Option.{some-injective}
use control_panel.Base.{
  ℕ, ◌<◌, ◌≡◌, refl, sym, ap, ◌∙◌, Bool, true, false, Option, none, some, Option-cases, Bool-cases,
  inl, inr, List, [], ◌∷◌, ◌++◌, if◌then◌else◌, lookup, insert, ◌==◌, nat_eq, nat_beq_iff,
  lookup-insert, lookup-delete, String, Distinct, Distinct-insert, Distinct-delete, arith,
}
use control_panel.Channel.{Chan, make, has_room}
use control_panel.Channel.Hub
use control_panel.Channel.Hub.{Hub}
use control_panel.Term.Session.{
  Chunk, output, Session, new_session, pump, subscribe, cancel, close_session, sub_buffer,
}
use control_panel.Term.Session.Calls.{
  take_from, receive_in, receive, Call, pumps, subscribes, cancels, receives, inputs, closes, after,
  run, seen, got, received, sent_by, sent,
}
use control_panel.Term.Session.Table.{
  after_offer, lookup-broadcast_locked, Distinct-broadcast_locked, subscribe_hub, close_hub,
  input_hub, run-Distinct,
}

-- While channel `id` is in the table, what was taken from it and what it holds are all that was put out.
record Follows (id : ℕ) (out taken : List Chunk) (h : Hub Chunk) : Type 0 where
  distinct : Distinct h.subs
  below : id < h.next
  whole : (c : Chan Chunk) → lookup id h.subs ≡ some c → taken ++ c.queue ≡ out

offered :
    (out taken : List Chunk) (x : Chunk) (o : Option (Chan Chunk))
    → ((c : Chan Chunk) → o ≡ some c → taken ++ c.queue ≡ out)
    → (c : Chan Chunk) → after_offer x o ≡ some c
    → taken ++ c.queue ≡ out ++ x ∷ []
offered out taken x none w c e = cc
offered out taken x (some d) w c e = elim (Bool-cases (has_room d)) [
  | inl room ↦
      ap (λ (x : Chan Chunk). taken ++ x.queue) (sym (some-injective _ _ (rw room at e)))
      ∙ sym (append_assoc taken d.queue (x ∷ []))
      ∙ ap (λ l. l ++ x ∷ []) (w d refl)
  | inr full ↦ absurd (clash (rw full at e))
]
  where
    clash : none ≡ some c → ⊥
    clash q = cc

pump-Follows :
    (id : ℕ) (out taken : List Chunk) (s : Session) (bytes : List ℕ)
    → Follows id out taken s.hub
    → Follows id (out ++ output bytes ∷ []) taken (pump bytes s).1.hub
unfolding pump
pump-Follows id out taken s bytes v = record {
  distinct = Distinct-broadcast_locked (output bytes) s.hub.subs v.distinct;
  below = v.below;
  whole = λ c e.
      offered out taken (output bytes) (lookup id s.hub.subs) v.whole c
        (sym (lookup-broadcast_locked (output bytes) id s.hub.subs v.distinct) ∙ e);
}

subscribed-Follows :
    (id : ℕ) (out taken : List Chunk) (h : Hub Chunk)
    → Follows id out taken h
    → Follows id out taken (Hub.subscribe sub_buffer h).1
unfolding Hub.subscribe
subscribed-Follows id out taken h v = record {
  distinct = Distinct-insert h.next _ h.subs v.distinct;
  below = omega (arith, v.below);
  whole = λ c e. v.whole c (sym (other (make sub_buffer)) ∙ e);
}
  where
    other : (x : Chan Chunk) → lookup id (insert h.next x h.subs) ≡ lookup id h.subs
    other x = ground (arith, lookup-insert h.next id x h.subs, v.below, nat_beq_iff h.next id)

either-Follows :
    (id : ℕ) (out taken : List Chunk) (b : Bool) (h k : Hub Chunk)
    → Follows id out taken h
    → Follows id out taken k
    → Follows id out taken (if b then h else k)
either-Follows id out taken true h k v w = v
either-Follows id out taken false h k v w = w

subscribe-Follows :
    (id : ℕ) (out taken : List Chunk) (s : Session)
    → Follows id out taken s.hub
    → Follows id out taken (subscribe s).1.hub
subscribe-Follows id out taken s v =
    subst (Follows id out taken) (sym (subscribe_hub s))
      (either-Follows id out taken s.exited _ _ v (subscribed-Follows id out taken s.hub v))

cancel-Follows :
    (id j : ℕ) (out taken : List Chunk) (h : Hub Chunk)
    → Follows id out taken h
    → Follows id out taken (Hub.cancel j h).1
unfolding Hub.cancel
cancel-Follows id j out taken h v = elim (Option-cases (lookup j h.subs)) [
  | inl e ↦ rw (e, Hub.cancel) v
  | inr (d, e) ↦
      rw (e, Hub.cancel)
        (record {
          distinct = Distinct-delete j h.subs v.distinct;
          below = v.below;
          whole = λ c k. ground (arith, v.whole c, lookup-delete j id h.subs, k);
        })
]

close-Follows :
    (id : ℕ) (out taken : List Chunk) (s : Session)
    → Follows id out taken s.hub
    → Follows id out taken (close_session s).2.hub
unfolding lookup
close-Follows id out taken s v = subst (Follows id out taken) (sym (close_hub s)) (
    either-Follows id out taken s.exited _ _ v
      (record { distinct = tt; below = v.below; whole = λ c k. absurd (clash k) }))
  where
    clash : {c : Chan Chunk} → none ≡ some c → ⊥
    clash k = cc

receive-Follows :
    (id j : ℕ) (out taken : List Chunk) (s : Session)
    → Follows id out taken s.hub
    → Follows id out (taken ++ seen id j (receive j s).0) (receive j s).1.hub
unfolding receive
receive-Follows id j out taken s v = go (lookup j s.hub.subs) refl
  where
    stay : Follows id out (taken ++ []) s.hub
    stay = rw append-nil v

    go :
        (o : Option (Chan Chunk))
        → lookup j s.hub.subs ≡ o
        → Follows id out (taken ++ seen id j (receive_in j o s).0) (receive_in j o s).1.hub
    go none e = stay
    go (some c) e = from c.queue refl
      where
        from :
            (q : List Chunk)
            → c.queue ≡ q
            → Follows id out (taken ++ seen id j (take_from j c q s).0) (take_from j c q s).1.hub
        from [] k = stay
        from (x ∷ rest) k = record {
          distinct = Distinct-insert j _ s.hub.subs v.distinct;
          below = v.below;
          whole = λ d m. elim (Bool-cases (j == id)) [
            | inl same ↦
                let there : lookup id s.hub.subs ≡ some c =
                  ap (λ i. lookup i s.hub.subs) (sym ((nat_beq_iff j id).0 same)) ∙ e in
                let d_is : record c { queue = rest } ≡ d =
                  some-injective _ _
                    (rw (lookup-insert j id (record c { queue = rest }) s.hub.subs, same) at m) in
                rw same (
                  append_assoc taken (x ∷ []) d.queue
                  ∙ ap (λ (d : Chan Chunk). taken ++ x ∷ d.queue) (sym d_is)
                  ∙ ap (λ l. taken ++ l) (sym k)
                  ∙ v.whole c there)
            | inr other ↦
                rw (other, append-nil taken)
                  (v.whole d
                    (rw (lookup-insert j id (record c { queue = rest }) s.hub.subs, other) at m))
          ];
        }

after-Follows :
    (id : ℕ) (out taken : List Chunk) (s : Session) (c : Call)
    → Follows id out taken s.hub
    → Follows id (out ++ sent_by c) (taken ++ got id s c) (after s c).hub
unfolding after cancel
after-Follows id out taken s (pumps bytes) v =
    rw (append-nil taken) (pump-Follows id out taken s bytes v)
after-Follows id out taken s (receives j) v =
    rw (append-nil out) (receive-Follows id j out taken s v)
after-Follows id out taken s subscribes v =
    rw (append-nil taken, append-nil out) (subscribe-Follows id out taken s v)
after-Follows id out taken s (cancels j) v =
    rw (append-nil taken, append-nil out) (cancel-Follows id j out taken s.hub v)
after-Follows id out taken s (inputs now) v =
    rw (append-nil taken, append-nil out, input_hub now s) v
after-Follows id out taken s closes v =
    rw (append-nil taken, append-nil out) (close-Follows id out taken s v)

run-Follows :
    (id : ℕ) (cs : List Call) (out taken : List Chunk) (s : Session)
    → Follows id out taken s.hub
    → Follows id (out ++ sent cs) (taken ++ received id s cs) (run s cs).hub
unfolding run received sent
run-Follows id [] out taken s v = rw (append-nil taken, append-nil out) v
run-Follows id (c ∷ cs) out taken s v =
    rw
      (
        ← append_assoc taken (got id s c) (received id (after s c) cs),
        ← append_assoc out (sent_by c) (sent cs),
      )
      (run-Follows id cs (out ++ sent_by c) (taken ++ got id s c) (after s c)
        (after-Follows id out taken s c v))

fresh-Follows :
    (h : Hub Chunk) → Distinct h.subs → Follows h.next [] [] (Hub.subscribe sub_buffer h).1
unfolding Hub.subscribe make
fresh-Follows h d = record {
  distinct = Distinct-insert h.next _ h.subs d;
  below = omega arith;
  whole = λ c e. ground (
    arith,
    lookup-insert h.next h.next (make {A = Chunk} sub_buffer) h.subs,
    nat_beq_iff h.next h.next,
    e,
  );
}

-- Whoever subscribes to a session that has not ended, after any calls on a new one, misses nothing
-- while the channel stays in the session's table: over any further calls by anyone, what the reader
-- has received and what the buffer holds are together all the chunks put out since, in order.
pub received-run :
    (id : String) (now : ℕ) (earlier later : List Call) (c : Chan Chunk)
    → let s = run (new_session id now) earlier in
      s.exited ≡ false
      → lookup s.hub.next (run (subscribe s).1 later).hub.subs ≡ some c
      → received s.hub.next (subscribe s).1 later ++ c.queue ≡ sent later
received-run id now earlier later c live there =
    let s = run (new_session id now) earlier in
    let d = run-Distinct earlier (new_session id now) (unfold new_session in tt) in
    (run-Follows s.hub.next later [] [] (subscribe s).1 (
        subst (Follows s.hub.next [] []) (sym (subscribe_hub s ∙ rw live))
          (fresh-Follows s.hub d))).whole
      c there
