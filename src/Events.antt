-- ===== src/Events.antt =====
-- internal/events/bus.go: the publish/subscribe bus that feeds the SSE stream. Every method runs
-- under the bus's mutex, so each is one step on the bus.
pub mod Calls
pub mod Delivery
use control_panel.Base.{
  ℕ, ◌+◌, Option, String, List, [], ◌∷◌, ◌++◌, if◌then◌else◌, length, lookup, ◌==◌, nat_eq, ℤ, pos,
  pos_part, leb_ℤ,
}
use control_panel.Channel.{Chan, make, offer}
use control_panel.Channel.Hub
use control_panel.Channel.Hub.{Hub}

-- `if buffer <= 0 { buffer = 64 }`
unfoldable pub buffer_size : ℤ → ℕ
buffer_size buffer = if leb_ℤ buffer (pos 0) then 64 else pos_part buffer

module _ (Data : Type 0) where
  pub record Event : Type 0 where
    pub name : String
    pub payload : Data

module _ {Data : Type 0} where
  unfoldable pub new_bus : Hub (Event Data)
  unfolding Hub.empty
  new_bus = Hub.empty

  unfoldable pub subscribe : ℤ → Hub (Event Data) → ℕ × Hub (Event Data)
  unfolding Hub.subscribe make buffer_size
  subscribe buffer b = Hub.subscribe (buffer_size buffer) b

  -- The function that `Subscribe` returns beside the channel.
  unfoldable pub cancel : ℕ → Hub (Event Data) → Option (Chan (Event Data)) × Hub (Event Data)
  unfolding Hub.cancel
  cancel id b = Hub.cancel id b

  unfoldable pub publish : String → Data → Hub (Event Data) → Hub (Event Data)
  unfolding Hub.broadcast offer
  publish name data' b = Hub.broadcast (record { name = name; payload = data' }) b

  unfoldable pub subscribers : Hub (Event Data) → ℕ
  subscribers b = length b.subs
