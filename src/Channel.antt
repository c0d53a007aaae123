-- ===== src/Channel.antt =====
-- Buffered channels, and the table of subscriber channels that the event bus
-- (internal/events/bus.go) and the console ring (internal/mc/ring.go) each keep. The components
-- define their operations by these.
pub mod Hub
use control_panel.Base.{
  ℕ, ◌+◌, ◌≤◌, ◌≡◌, Bool, true, false, List, [], ◌∷◌, ◌++◌, ltb, if◌then◌else◌, length, arith,
  length-append,
}

pub record Chan {ℓ} (A : Type ℓ) : Type ℓ where
  pub cap : ℕ
  pub queue : List A
  pub closed : Bool

module _ {ℓ} {A : Type ℓ} where
  -- `make(chan A, cap)`
  unfoldable pub make : ℕ → Chan A
  make cap = record { cap = cap; queue = []; closed = false }

  abbrev pub has_room : Chan A → Bool
  has_room c = ltb (length c.queue) c.cap

  -- `select { case c <- x: default: }`
  unfoldable pub offer : A → Chan A → Chan A
  offer x c = if has_room c then record c { queue = c.queue ++ x ∷ [] } else c

  -- `close(c)`; what the buffer holds can still be received.
  unfoldable pub close : Chan A → Chan A
  close c = record c { closed = true }

  -- The buffer never exceeds the capacity.
  abbrev pub IsBounded : Chan A → Type 0
  IsBounded c = length c.queue ≤ c.cap

  pub offer-IsBounded : (x : A) (c : Chan A) → IsBounded c → IsBounded (offer x c)
  unfolding offer
  offer-IsBounded x c h = ground (arith, length-append c.queue (x ∷ []))
