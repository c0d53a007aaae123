-- ===== src/Channel/Hub.antt =====
-- The table of subscribers: a map from a running id to a channel.
use control_panel.Base.{
  ℕ, ◌+◌, ◌≤◌, ◌<◌, ◌≡◌, refl, false, Option, none, some, List, [], ◌∷◌, length, arith, lookup,
  insert, delete, nat_eq, All,
}
use control_panel.Channel.{Chan, make, offer, close, IsBounded, offer-IsBounded}
use mathlib.Core.Option

pub record Hub {ℓ} (A : Type ℓ) : Type ℓ where
  pub subs : List (ℕ × Chan A)
  pub next : ℕ

module _ {ℓ} {A : Type ℓ} where
  unfoldable pub empty : Hub A
  empty = record { subs = []; next = 0 }

  -- The id given out, and the table with its channel.
  unfoldable pub subscribe : ℕ → Hub A → ℕ × Hub A
  subscribe cap h = (h.next, record { subs = insert h.next (make cap) h.subs; next = h.next + 1 })

  -- The channel that is closed, if the id is still there.
  unfoldable pub cancel : ℕ → Hub A → Option (Chan A) × Hub A
  cancel id h = elim (lookup id h.subs) [
    | none ↦ (none, h)
    | some c ↦ (some (close c), record h { subs = delete id h.subs })
  ]

  unfoldable pub offer_all : A → List (ℕ × Chan A) → List (ℕ × Chan A)
  offer_all x [] = []
  offer_all x ((id, c) ∷ m) = (id, offer x c) ∷ offer_all x m

  unfoldable pub broadcast : A → Hub A → Hub A
  unfolding offer_all
  broadcast x h = record h { subs = offer_all x h.subs }

  pub lookup-offer_all :
      (x : A) (id : ℕ) (m : List (ℕ × Chan A))
      → lookup id (offer_all x m) ≡ Option.map (offer x) (lookup id m)
  unfolding offer_all lookup
  lookup-offer_all x id [] = refl
  lookup-offer_all x id ((j, c) ∷ m) = ground (arith, lookup-offer_all x id m)

  pub length-offer_all : (x : A) (m : List (ℕ × Chan A)) → length (offer_all x m) ≡ length m
  unfolding offer_all
  length-offer_all x [] = refl
  length-offer_all x ((j, c) ∷ m) = omega (arith, length-offer_all x m)

  -- Ids are below the next one, buffers within capacity, and every channel in the table is open.
  abbrev pub IsEntry : ℕ → ℕ × Chan A → Type 0
  IsEntry n e = (e.0 < n) × IsBounded (e.1) × (e.1.closed ≡ false)

  abbrev pub IsValid : Hub A → Type 0
  IsValid h = All (IsEntry h.next) h.subs

  pub All-insert :
      (n k : ℕ) (c : Chan A) (m : List (ℕ × Chan A))
      → IsEntry n (k, c)
      → All (IsEntry n) m
      → All (IsEntry n) (insert k c m)
  unfolding insert
  All-insert n k c [] h v = (h, tt)
  All-insert n k c ((j, d) ∷ m) h v = ground (arith, All-insert n k c m h v.1)

  All-delete : (n k : ℕ) (m : List (ℕ × Chan A)) → All (IsEntry n) m → All (IsEntry n) (delete k m)
  unfolding delete
  All-delete n k [] v = tt
  All-delete n k ((j, d) ∷ m) v = ground (arith, All-delete n k m v.1)

  All-offer_all :
      (x : A) (n : ℕ) (m : List (ℕ × Chan A)) → All (IsEntry n) m → All (IsEntry n) (offer_all x m)
  unfolding offer_all offer
  All-offer_all x n [] v = tt
  All-offer_all x n ((j, d) ∷ m) v = ground (arith, All-offer_all x n m v.1, offer-IsBounded x d)

  All-next : (n : ℕ) (m : List (ℕ × Chan A)) → All (IsEntry n) m → All (IsEntry (n + 1)) m
  All-next n [] v = tt
  All-next n ((j, d) ∷ m) v = (ground arith, All-next n m v.1)

  pub subscribe-IsValid : (cap : ℕ) (h : Hub A) → IsValid h → IsValid (subscribe cap h).1
  unfolding subscribe make
  subscribe-IsValid cap h v =
      All-insert (h.next + 1) h.next _ h.subs (omega arith, omega arith, refl)
        (All-next h.next h.subs v)

  pub cancel-IsValid : (id : ℕ) (h : Hub A) → IsValid h → IsValid (cancel id h).1
  unfolding cancel
  cancel-IsValid id h v = ground (arith, All-delete h.next id h.subs v)

  pub broadcast-IsValid : (x : A) (h : Hub A) → IsValid h → IsValid (broadcast x h)
  unfolding broadcast
  broadcast-IsValid x h v = All-offer_all x h.next h.subs v

  -- An id at or above the next one has no channel.
  pub lookup_fresh :
      (n id : ℕ) (m : List (ℕ × Chan A)) → n ≤ id → All (IsEntry n) m → lookup id m ≡ none
  unfolding lookup
  lookup_fresh n id [] h v = refl
  lookup_fresh n id ((j, c) ∷ m) h v = ground (arith, lookup_fresh n id m h v.1)

  -- What the table holds for an id is an entry of it.
  pub lookup-IsEntry :
      (n id : ℕ) (m : List (ℕ × Chan A)) (c : Chan A)
      → All (IsEntry n) m
      → lookup id m ≡ some c
      → IsEntry n (id, c)
  unfolding lookup
  lookup-IsEntry n id [] c v e = cc
  lookup-IsEntry n id ((j, d) ∷ m) c v e = ground (arith, lookup-IsEntry n id m c v.1)
