-- ===== src/Events/Delivery.antt =====
-- What one subscriber of the bus receives, over any sequence of calls.
use mathlib.Core.Option
use control_panel.Base.{
  ℕ, ◌≡◌, ◌≢◌, none, String, List, [], ◌∷◌, ◌++◌, if◌then◌else◌, length, arith, lookup, nat_eq,
  lookup-insert, ltb, ℤ, beq_refl, beq_ne,
}
use control_panel.Base.Subseq.{Subseq}
use control_panel.Channel.{make, close}
use control_panel.Channel.Hub
use control_panel.Channel.Hub.{Hub, lookup-offer_all, lookup_fresh}
use control_panel.Events.{Event, new_bus, buffer_size, subscribe, cancel, publish, subscribers}
use control_panel.Events.Calls.{
  Call, after, received, published, queued, after-IsValid, lookup-cancel, received-Subseq,
}

new_bus-IsValid : (D : Type 0) → Hub.IsValid (new_bus {Data = D})
unfolding new_bus
new_bus-IsValid D = tt

module _ {Data : Type 0} where
  subscribe-IsValid : (n : ℤ) (b : Hub (Event Data)) → Hub.IsValid b → Hub.IsValid (subscribe n b).1
  unfolding subscribe
  subscribe-IsValid n b v = Hub.subscribe-IsValid _ b v

  cancel_result :
      (id : ℕ) (b : Hub (Event Data)) → (cancel id b).0 ≡ Option.map close (lookup id b.subs)
  unfolding cancel
  cancel_result id b = ground arith

  cancel_gone : (id : ℕ) (b : Hub (Event Data)) → lookup id b.subs ≡ none → cancel id b ≡ (none, b)
  unfolding cancel
  cancel_gone id b e = ground arith

  -- The bus after a sequence of calls.
  pub run : Hub (Event Data) → List (Call Data) → Hub (Event Data)
  run b [] = b
  run b (c ∷ cs) = run (after b c) cs

  run-IsValid :
      (cs : List (Call Data)) (b : Hub (Event Data)) → Hub.IsValid b → Hub.IsValid (run b cs)
  unfolding run
  run-IsValid [] b v = v
  run-IsValid (c ∷ cs) b v = run-IsValid cs (after b c) (after-IsValid b c v)

  queued_fresh : (n : ℤ) (b : Hub (Event Data)) → queued (subscribe n b).0 (subscribe n b).1 ≡ []
  unfolding subscribe
  queued_fresh n b =
      ground (arith, lookup-insert b.next b.next (make {A = Event Data} (buffer_size n)) b.subs)

  -- After any calls on a new bus, whoever then subscribes receives, over any further calls by
  -- anyone, a subsequence of the events published since, in order and each at most once.
  pub received-subscribe :
      (earlier later : List (Call Data)) (n : ℤ)
      → let b = run new_bus earlier in
        Subseq (received (subscribe n b).0 (subscribe n b).1 later) (published later)
  received-subscribe earlier later n =
      let b = run new_bus earlier in
      rw queued_fresh at (
        received-Subseq (subscribe n b).0 later (subscribe n b).1
          (subscribe-IsValid n b (run-IsValid earlier new_bus (new_bus-IsValid Data))))

  -- `Publish` adds the event at the end of every buffer that has room, leaves a full buffer as it
  -- was, and neither adds nor removes a subscriber.
  pub lookup-publish :
      (name : String) (d : Data) (id : ℕ) (b : Hub (Event Data))
      → (lookup id (publish name d b).subs
          ≡ Option.map
              (λ c.
                if ltb (length c.queue) c.cap
                then record c { queue = c.queue ++ record { name = name; payload = d } ∷ [] }
                else c)
              (lookup id b.subs))
        × (subscribers (publish name d b) ≡ subscribers b)
  unfolding publish subscribers
  lookup-publish name d id b = (lookup-offer_all _ id b.subs, Hub.length-offer_all _ b.subs)

  -- The function that `Subscribe` returns closes the subscriber's channel and removes it; called
  -- again it closes nothing and changes nothing, and other subscribers keep their channels.
  pub cancel_twice :
      (id : ℕ) (b : Hub (Event Data))
      → ((cancel id b).0 ≡ Option.map close (lookup id b.subs))
        × (cancel id (cancel id b).1 ≡ (none, (cancel id b).1))
        × ((j : ℕ) → id ≢ j → lookup j (cancel id b).1.subs ≡ lookup j b.subs)
  cancel_twice id b = (
    cancel_result id b,
    cancel_gone id (cancel id b).1 (rw (lookup-cancel id id b, beq_refl id)),
    λ j ne. rw (lookup-cancel j id b, beq_ne id j ne),
  )
