-- ===== src/Events/Calls.antt =====
-- Calls on the bus, and what one of them does to one subscriber's buffer.
use mathlib.Core.List.{append_assoc}
use mathlib.Core.Option
use mathlib.Core.Path.{subst}
use control_panel.Base.{
  ℕ, ◌≡◌, refl, sym, ap, ◌⊎◌, inl, inr, Bool-cases, Option, none, some, Option-cases, String, List,
  [], ◌∷◌, ◌++◌, if◌then◌else◌, length, arith, lookup, insert, ◌==◌, nat_eq, lookup-insert,
  lookup-delete, nat_beq_iff, ltb, ℤ,
}
use control_panel.Base.Subseq.{Subseq, take_one, Subseq-nil, Subseq-insert, Subseq-prepend}
use control_panel.Channel.{Chan, make, offer}
use control_panel.Channel.Hub
use control_panel.Channel.Hub.{Hub, lookup-offer_all, lookup_fresh}
use control_panel.Events.{Event, buffer_size, subscribe, cancel, publish}

-- One call on the bus, or one receive by the subscriber of an id.
pub data Call (Data : Type 0) : Type 0 where
  subscribes : ℤ → Call Data
  cancels : ℕ → Call Data
  publishes : String → Data → Call Data
  receives : ℕ → Call Data

module _ {Data : Type 0} where
  -- A receive takes the oldest entry of the buffer.
  unfoldable pub take_next : Hub (Event Data) → ℕ → Option (Event Data) × Hub (Event Data)
  take_next b id = elim (lookup id b.subs) [
    | none ↦ (none, b)
    | some c ↦ elim c.queue [
      | [] ↦ (none, b)
      | x ∷ rest ↦ (some x, record b { subs = insert id (record c { queue = rest }) b.subs })
    ]
  ]

  unfoldable pub after : Hub (Event Data) → Call Data → Hub (Event Data)
  unfolding subscribe cancel publish take_next
  after b (subscribes n) = (subscribe n b).1
  after b (cancels id) = (cancel id b).1
  after b (publishes name d) = publish name d b
  after b (receives id) = (take_next b id).1

  -- What the subscriber `id` sees of a receive by `j`.
  abbrev pub seen : ℕ → ℕ → Option (Event Data) → List (Event Data)
  seen id j none = []
  seen id j (some x) = if j == id then x ∷ [] else []

  -- What the subscriber `id` takes out, call by call.
  abbrev pub got : ℕ → Hub (Event Data) → Call Data → List (Event Data)
  got id b (receives j) = seen id j (take_next b j).0
  got id b (subscribes n) = []
  got id b (cancels j) = []
  got id b (publishes name d) = []

  pub received : ℕ → Hub (Event Data) → List (Call Data) → List (Event Data)
  received id b [] = []
  received id b (c ∷ cs) = got id b c ++ received id (after b c) cs

  pub published : List (Call Data) → List (Event Data)
  published [] = []
  published (publishes name d ∷ cs) = record { name = name; payload = d } ∷ published cs
  published (subscribes n ∷ cs) = published cs
  published (cancels j ∷ cs) = published cs
  published (receives j ∷ cs) = published cs

  abbrev pub contents : Option (Chan (Event Data)) → List (Event Data)
  contents none = []
  contents (some c) = c.queue

  -- What the buffer of `id` holds.
  abbrev pub queued : ℕ → Hub (Event Data) → List (Event Data)
  queued id b = contents (lookup id b.subs)

  -- A receive finds nothing, or the first entry of the buffer.
  take_next_cases :
      (b : Hub (Event Data)) (id : ℕ)
      → (take_next b id ≡ (none, b))
        ⊎ ((c : Chan (Event Data)) × (x : Event Data) × (rest : List (Event Data)) × (lookup id
                b.subs
              ≡ some c)
            × (c.queue ≡ x ∷ rest)
            × (take_next b id
                ≡ (some x, record b { subs = insert id (record c { queue = rest }) b.subs })))
  unfolding take_next
  take_next_cases b id = elim (Option-cases (lookup id b.subs)) [
    | inl e ↦ inl (rw (e, take_next))
    | inr (c, e) ↦ go c e c.queue refl
  ]
    where
      go :
          (c : Chan (Event Data))
          → lookup id b.subs ≡ some c
          → (q : List (Event Data)) → c.queue ≡ q
          → (take_next b id ≡ (none, b))
            ⊎ ((c : Chan (Event Data)) × (x : Event Data) × (rest : List (Event Data)) × (lookup id
                    b.subs
                  ≡ some c)
                × (c.queue ≡ x ∷ rest)
                × (take_next b id
                    ≡ (some x, record b { subs = insert id (record c { queue = rest }) b.subs })))
      go c e [] h = inl (ground arith)
      go c e (x ∷ rest) h = inr (c, x, rest, e, h, ground arith)

  take_next-IsValid :
      (b : Hub (Event Data)) (id : ℕ) → Hub.IsValid b → Hub.IsValid (take_next b id).1
  take_next-IsValid b id v = elim (take_next_cases b id) [
    | inl e ↦ rw e v
    | inr (c, x, rest, found, h, e) ↦
        let w = Hub.lookup-IsEntry b.next id b.subs c v found in
        rw e (Hub.All-insert b.next id _ b.subs (w.0, omega (arith, w.1, ap length h), w.2) v)
  ]

  pub after-IsValid :
      (b : Hub (Event Data)) (c : Call Data) → Hub.IsValid b → Hub.IsValid (after b c)
  unfolding after
  after-IsValid b (subscribes n) v = Hub.subscribe-IsValid _ b v
  after-IsValid b (cancels id) v = Hub.cancel-IsValid id b v
  after-IsValid b (publishes name d) v = Hub.broadcast-IsValid _ b v
  after-IsValid b (receives id) v = take_next-IsValid b id v

  queued-publish :
      (id : ℕ) (b : Hub (Event Data)) (name : String) (d : Data) (tail rs : List (Event Data))
      → Subseq rs (queued id (publish name d b) ++ tail)
      → Subseq rs (queued id b ++ record { name = name; payload = d } ∷ tail)
  unfolding publish
  queued-publish id b name d tail rs s =
      go (lookup id b.subs)
        (rw (lookup-offer_all (record { name = name; payload = d }) id b.subs) at s)
    where
      go :
          (o : Option (Chan (Event Data)))
          → Subseq rs
              (contents (Option.map (offer (record { name = name; payload = d })) o) ++ tail)
          → Subseq rs (contents o ++ record { name = name; payload = d } ∷ tail)
      go none h = Subseq-insert [] tail _ h
      go (some c) h = elim (Bool-cases (ltb (length c.queue) c.cap)) [
        | inl room ↦ rw append_assoc at (rw room at h)
        | inr full ↦ Subseq-insert c.queue tail _ (rw full at h)
      ]

  queued-subscribe :
      (id : ℕ) (b : Hub (Event Data)) (n : ℤ)
      → Hub.IsValid b
      → queued id (subscribe n b).1 ≡ queued id b
  unfolding subscribe
  queued-subscribe id b n v = ground (
    arith,
    lookup-insert b.next id (make {A = Event Data} (buffer_size n)) b.subs,
    nat_beq_iff b.next id,
    lookup_fresh b.next id b.subs,
    v,
  )

  pub lookup-cancel :
      (id j : ℕ) (b : Hub (Event Data))
      → lookup id (cancel j b).1.subs ≡ (if j == id then none else lookup id b.subs)
  unfolding cancel
  lookup-cancel id j b = elim (Option-cases (lookup j b.subs)) [
    | inl e ↦ ground (arith, nat_beq_iff j id)
    | inr (c, e) ↦ ground (arith, lookup-delete j id b.subs)
  ]

  queued-cancel :
      (id j : ℕ) (b : Hub (Event Data)) (tail rs : List (Event Data))
      → Subseq rs (queued id (cancel j b).1 ++ tail)
      → Subseq rs (queued id b ++ tail)
  queued-cancel id j b tail rs s = elim (Bool-cases (j == id)) [
    | inl same ↦ Subseq-prepend (queued id b) (rw (lookup-cancel id j b, same) at s)
    | inr other ↦ rw (lookup-cancel id j b, other) at s
  ]

  queued-take_next :
      (id j : ℕ) (b : Hub (Event Data)) (tail rs : List (Event Data))
      → Subseq rs (queued id (take_next b j).1 ++ tail)
      → Subseq (got id b (receives j) ++ rs) (queued id b ++ tail)
  queued-take_next id j b tail rs s = elim (take_next_cases b j) [
    | inl e ↦ back e (rw e at s)
    | inr (c, x, rest, found, h, e) ↦
        let s' = rw (lookup-insert j id (record c { queue = rest }) b.subs) at (rw e at s) in
        elim (Bool-cases (j == id)) [
          | inl same ↦
              let hit : lookup id b.subs ≡ some c = rw (← (nat_beq_iff j id).0 same) found in
              back e (rw (same, hit) (rw h (take_one x (rw same at s'))))
          | inr other ↦ rw (e, other) (rw other at s')
        ]
  ]
    where
      back :
          {r : Option (Event Data) × Hub (Event Data)}
          → take_next b j ≡ r
          → Subseq (seen id j r.0 ++ rs) (queued id b ++ tail)
          → Subseq (got id b (receives j) ++ rs) (queued id b ++ tail)
      back e h = subst (λ r. Subseq (seen id j r.0 ++ rs) (queued id b ++ tail)) (sym e) h

  -- One call leaves the buffer, puts one event at its end, takes one from its front, or drops it.
  queued-after :
      (id : ℕ) (b : Hub (Event Data)) (c : Call Data) (cs : List (Call Data))
      (rs : List (Event Data))
      → Hub.IsValid b
      → Subseq rs (queued id (after b c) ++ published cs)
      → Subseq (got id b c ++ rs) (queued id b ++ published (c ∷ cs))
  unfolding after published
  queued-after id b (subscribes n) cs rs v s = rw (queued-subscribe id b n v) at s
  queued-after id b (cancels j) cs rs v s = queued-cancel id j b (published cs) rs s
  queued-after id b (publishes name d) cs rs v s = queued-publish id b name d (published cs) rs s
  queued-after id b (receives j) cs rs v s = queued-take_next id j b (published cs) rs s

  pub received-Subseq :
      (id : ℕ) (cs : List (Call Data)) (b : Hub (Event Data))
      → Hub.IsValid b
      → Subseq (received id b cs) (queued id b ++ published cs)
  unfolding received
  received-Subseq id [] b v = Subseq-nil _
  received-Subseq id (c ∷ cs) b v =
      queued-after id b c cs (received id (after b c) cs) v
        (received-Subseq id cs (after b c) (after-IsValid b c v))
