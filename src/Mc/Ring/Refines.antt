-- ===== src/Mc/Ring/Refines.antt =====
-- internal/mc/ring.go: the ring against the list of all lines appended so far.
use native.Mathlib.Nat.{mod-lt, mod-add-mod}
use mathlib.Core.List.{append-nil, append_assoc}
use control_panel.Channel.Hub
use control_panel.Base.{
  last, pos, negsuc, drop_past, ℕ, zero, suc, ◌+◌, ◌-◌, ◌%◌, ◌≤◌, ◌<◌, min, ◌≡◌, ◌≢◌, refl, Option,
  none, some, List, [], ◌∷◌, ◌++◌, if◌then◌else◌, length, get_elem?, set, ltb, Bool-cases, ltb→lt,
  ltb→ge, inl, inr, sym, ap, ◌∙◌, arith, length-set, length-append, get_elem?-set_self,
  get_elem?-set_ne, get_elem?-append_left, get_elem?-append_right, ℤ, length-replicate,
}
use control_panel.Mc.Ring.Index.{mod-once, drop-cons}
use control_panel.Mc.Ring.{
  LogLine, zero_line, LogRing, new_log_ring, cap, store, append, tail_size, read_from, tail,
}

-- Line `i` of the ring is line `length h - count + i` of the history.
pub record Holds (c : ℕ) (r : LogRing) (h : List LogLine) : Type 0 where
  pub cap_is : cap r ≡ c
  pub start_in : r.start < cap r
  pub count_is : r.count ≡ min (length h) (cap r)
  pub lines_are :
      (i : ℕ)
      → i < r.count
      → get_elem? r.buf ((r.start + i) % cap r) ≡ get_elem? h (length h - r.count + i)

module _ (c : ℕ) (r : LogRing) (h : List LogLine) (line : LogLine) (v : Holds c r h) where
  -- A slot that is not written keeps its line.
  kept :
      (i j m k : ℕ)
      → m ≡ (r.start + i) % cap r
      → m ≢ j
      → i < r.count
      → k ≡ length h - r.count + i
      → get_elem? (set r.buf j line) m ≡ get_elem? (h ++ line ∷ []) k
  kept i j m k em ne lt e =
      get_elem?-set_ne r.buf j m line (λ p. ne (sym p))
      ∙ ap (get_elem? r.buf) em
      ∙ v.lines_are i lt
      ∙ sym (get_elem?-append_left h (line ∷ []) _ (omega (arith, v.count_is)))
      ∙ ap (get_elem? (h ++ line ∷ [])) (sym e)

  -- The slot that is written holds the new line.
  written :
      (j m k : ℕ)
      → m ≡ j
      → j < cap r
      → k ≡ length h + 0
      → get_elem? (set r.buf j line) m ≡ get_elem? (h ++ line ∷ []) k
  written j m k em lt e =
      rw (em, e) (get_elem?-set_self r.buf j line lt ∙ sym (get_elem?-append_right h (line ∷ []) 0))

  slot_of :
      (i : ℕ)
      → i ≤ cap r
      → (r.start + i) % cap r
        ≡ (if ltb (r.start + i) (cap r) then r.start + i else r.start + i - cap r)
  slot_of i le = mod-once (r.start + i) (cap r) (omega (arith, v.start_in))

  store_room :
      r.count < cap r
      → (i : ℕ) → i < r.count + 1
      → get_elem? (set r.buf ((r.start + r.count) % cap r) line) ((r.start + i) % cap r)
        ≡ get_elem? (h ++ line ∷ []) (length (h ++ line ∷ []) - (r.count + 1) + i)
  store_room lt i ilt = elim (Bool-cases (ltb i r.count)) [
    | inl old ↦
        kept i _ _ _ refl (ground (arith, slot_of i, slot_of r.count, v.start_in))
          (ltb→lt i r.count old) (omega (arith, length-append h (line ∷ []), v.count_is))
    | inr new ↦
        let e : i ≡ r.count = ground arith in
        written _ _ _ (ap (λ t. (r.start + t) % cap r) e) (mod-lt (r.start + r.count) (omega arith))
          (omega (arith, length-append h (line ∷ []), v.count_is))
  ]

  store_full :
      ¬ (r.count < cap r)
      → (i : ℕ) → i < r.count
      → get_elem?
          (set r.buf ((r.start + r.count) % cap r) line)
          (((r.start + 1) % cap r + i) % cap r)
        ≡ get_elem? (h ++ line ∷ []) (length (h ++ line ∷ []) - r.count + i)
  store_full full i ilt = elim (Bool-cases (ltb (i + 1) r.count)) [
    | inl old ↦
        kept (i + 1) _ _ _ turn
          (ground (arith, turn, slot_of (i + 1), slot_of r.count, v.start_in, v.count_is))
          (ltb→lt (i + 1) r.count old) (omega (arith, length-append h (line ∷ []), v.count_is))
    | inr new ↦
        let e : i + 1 ≡ r.count = ground arith in
        written _ _ _ (turn ∙ ap (λ t. (r.start + t) % cap r) e)
          (mod-lt (r.start + r.count) (omega (arith, v.start_in)))
          (omega (arith, length-append h (line ∷ []), v.count_is))
  ]
    where
      turn : ((r.start + 1) % cap r + i) % cap r ≡ (r.start + (i + 1)) % cap r
      turn = mod-add-mod (r.start + 1) (cap r) i ∙ ap (λ t. t % cap r) (omega arith)

  pub store-Holds : Holds c (store line r) (h ++ line ∷ [])
  unfolding store
  store-Holds = elim (Bool-cases (ltb r.count (cap r))) [
    | inl room ↦ rw room (record {
      cap_is = rw length-set v.cap_is;
      start_in = rw length-set v.start_in;
      count_is = omega (
        arith,
        length-set r.buf ((r.start + r.count) % cap r) line,
        length-append h (line ∷ []),
        v.count_is,
        ltb→lt r.count (cap r) room,
      );
      lines_are = λ i lt. rw length-set (store_room (ltb→lt r.count (cap r) room) i lt);
    })
    | inr full ↦ rw full (record {
      cap_is = rw length-set v.cap_is;
      start_in = rw length-set (mod-lt (r.start + 1) (omega (arith, v.start_in)));
      count_is = omega (
        arith,
        length-set r.buf ((r.start + r.count) % cap r) line,
        length-append h (line ∷ []),
        v.count_is,
        ltb→ge r.count (cap r) full,
      );
      lines_are = λ i lt. rw length-set (store_full (ground arith) i lt);
    })
  ]

-- The lines appended one after the other.
pub append_all : List LogLine → LogRing → Option LogRing
append_all [] r = some r
append_all (line ∷ lines) r = elim (append line r) [ none ↦ none | some q ↦ append_all lines q ]

append-Holds :
    (c : ℕ) (r : LogRing) (h : List LogLine) (line : LogLine)
    → Holds c r h
    → (q : LogRing) × (append line r ≡ some q) × Holds c q (h ++ line ∷ [])
unfolding append
append-Holds c r h line v =
    let w = store-Holds c r h line v in
    (
      record (store line r) { hub = Hub.broadcast line (store line r).hub },
      ground (arith, v.start_in),
      record {
        cap_is = w.cap_is;
        start_in = w.start_in;
        count_is = w.count_is;
        lines_are = w.lines_are;
      },
    )

append_all-Holds :
    (c : ℕ) (lines : List LogLine) (r : LogRing) (h : List LogLine)
    → Holds c r h
    → (q : LogRing) × (append_all lines r ≡ some q) × Holds c q (h ++ lines)
unfolding append_all
append_all-Holds c [] r h v = (r, refl, rw append-nil v)
append_all-Holds c (line ∷ lines) r h v =
    let (q, e, w) = append-Holds c r h line v in
    let (p, d, u) = append_all-Holds c lines q (h ++ line ∷ []) w in
    (p, rw (e, append_all) d, rw append_assoc at u)

new-Holds : (c : ℕ) → 0 < c → Holds c (new_log_ring c) []
unfolding new_log_ring
new-Holds c pos_c = record {
  cap_is = length-replicate c zero_line;
  start_in = omega (arith, length-replicate c zero_line);
  count_is = omega arith;
  lines_are = λ i lt. elim lt [ ];
}

read_from-last :
    (c : ℕ) (r : LogRing) (h : List LogLine) (k at : ℕ)
    → Holds c r h
    → k ≤ r.count
    → at ≡ r.start + (r.count - k)
    → read_from r.buf at k ≡ some (last k h)
unfolding read_from
read_from-last c r h zero at v le e = rw (drop_past (length h - 0) h (omega arith))
read_from-last c r h (suc k) at v le e =
    let (x, hit, d) = drop-cons (length h - suc k) h (omega (arith, v.count_is)) in
    let here : get_elem? r.buf (at % cap r) ≡ some x =
      ap (λ t. get_elem? r.buf (t % cap r)) e
      ∙ (v.lines_are (r.count - suc k) (omega arith)
          ∙ ap (get_elem? h) (omega (arith, v.count_is))
          ∙ hit) in
    let next : suc (length h - suc k) ≡ length h - k = omega (arith, v.count_is) in
    rw (here, read_from-last c r h k (at + 1) v (omega arith) (omega arith), read_from)
      (rw next at (ap some (sym d)))

-- The size that `Tail` settles on is at most the count.
tail_size-le : (n : ℤ) (count : ℕ) → tail_size n count ≤ count
unfolding tail_size
tail_size-le n count = ground arith

tail-last :
    (c : ℕ) (r : LogRing) (h : List LogLine) (n : ℤ)
    → Holds c r h
    → tail n r ≡ some (last (tail_size n (min (length h) c)) h)
unfolding tail
tail-last c r h n v =
    let le = tail_size-le n r.count in
    read_from-last c r h (tail_size n r.count) _ v le (omega (arith, le))
    ∙ ap (λ t. some (last (tail_size n t) h)) (v.count_is ∙ ap (min (length h)) v.cap_is)

-- How many lines one who asks for `n` is to get of those that are held.
abbrev pub due : ℤ → ℕ → ℕ
due (negsuc n) held = held
due (pos zero) held = held
due (pos (suc n)) held = min (suc n) held

tail_size-due : (n : ℤ) (held : ℕ) → tail_size n held ≡ due n held
unfolding tail_size
tail_size-due (negsuc n) held = ground arith
tail_size-due (pos zero) held = ground arith
tail_size-due (pos (suc n)) held = ground arith

-- `Tail` returns, without a panic, the most recent lines of all those ever appended, oldest first:
-- `n` of them, or all that the ring holds if `n` is not positive or is more than that, which is
-- the lesser of the number appended and the capacity.
pub tail-append_all :
    (c : ℕ) (lines : List LogLine) (n : ℤ)
    → 0 < c
    → (r : LogRing) × (append_all lines (new_log_ring c) ≡ some r)
      × (tail n r ≡ some (last (due n (min (length lines) c)) lines))
tail-append_all c lines n pos_c =
    let (r, e, v) = append_all-Holds c lines (new_log_ring c) [] (new-Holds c pos_c) in
    (
      r,
      e,
      tail-last c r lines n v
          ∙ ap (λ k. some (last k lines)) (tail_size-due n (min (length lines) c)),
    )
