-- ===== src/Examples/Bus.antt =====
-- internal/events/bus.go: three subscribers, one of them slow.
use mathlib.Core.Option
use control_panel.Base.{
  ℕ, ◌≡◌, List, [], ◌∷◌, ◌++◌, if◌then◌else◌, length, ltb, lookup, nat_eq, pos,
}
use control_panel.Base.Subseq.{Subseq}
use control_panel.Channel.Hub.{Hub}
use control_panel.Events.{Event, new_bus, subscribe, publish, subscribers}
use control_panel.Events.Calls.{Call, subscribes, cancels, publishes, receives, received, published}
use control_panel.Events.Delivery.{run, received-subscribe, lookup-publish}

abbrev before : List (Call ℕ)
before = subscribes (pos 1) ∷ publishes "metrics" 1 ∷ subscribes (pos 0) ∷ []

abbrev since : List (Call ℕ)
since =
    publishes "metrics" 2
    ∷ publishes "job" 3
    ∷ receives 2
    ∷ cancels 0
    ∷ publishes "job" 4
    ∷ receives 2
    ∷ []

abbrev bus : Hub (Event ℕ)
bus = run new_bus before

received-subscribe_example :
    Subseq (received (subscribe (pos 1) bus).0 (subscribe (pos 1) bus).1 since) (published since)
received-subscribe_example = received-subscribe before since (pos 1)

lookup-publish_example :
    (lookup 0 (publish "job" 3 bus).subs
      ≡ Option.map
          (λ c.
            if ltb (length c.queue) c.cap
            then record c { queue = c.queue ++ record { name = "job"; payload = 3 } ∷ [] }
            else c)
          (lookup 0 bus.subs))
    × (subscribers (publish "job" 3 bus) ≡ subscribers bus)
lookup-publish_example = lookup-publish "job" 3 0 bus
