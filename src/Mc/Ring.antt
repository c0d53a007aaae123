-- ===== src/Mc/Ring.antt =====
-- internal/mc/ring.go: the console ring. `none` is a panic: an index out of range, or `% 0`.
pub mod Index
pub mod Refines
use control_panel.Base.{
  ℕ, zero, suc, ◌+◌, ◌-◌, ◌%◌, ◌||◌, Option, none, some, String, List, [], ◌∷◌, if◌then◌else◌,
  length, get_elem?, set, replicate, ltb, nat_beq, ℤ, pos, pos_part, leb_ℤ, ltb_ℤ, Bool,
}
use control_panel.Channel.{Chan}
use control_panel.Channel.Hub
use control_panel.Channel.Hub.{Hub}

pub record LogLine : Type 0 where
  pub ts : ℕ
  pub level : String
  pub text : String

abbrev pub zero_line : LogLine
zero_line = record { ts = 0; level = ""; text = "" }

pub record LogRing : Type 0 where
  pub buf : List LogLine
  pub start : ℕ
  pub count : ℕ
  pub hub : Hub LogLine

unfoldable pub new_log_ring : ℕ → LogRing
unfolding Hub.empty
new_log_ring capacity = record {
  buf = replicate capacity zero_line;
  start = 0;
  count = 0;
  hub = Hub.empty;
}

abbrev pub cap : LogRing → ℕ
cap r = length r.buf

-- The write of one line, before it goes out to the subscribers.
unfoldable pub store : LogLine → LogRing → LogRing
store line r =
    let r' = record r { buf = set r.buf ((r.start + r.count) % cap r) line } in
    if ltb r.count (cap r)
    then record r' { count = r.count + 1 }
    else record r' { start = (r.start + 1) % cap r }

unfoldable pub append : LogLine → LogRing → Option LogRing
unfolding store Hub.broadcast
append line r =
    let r' = store line r in
    if nat_beq (cap r) 0 then none else some (record r' { hub = Hub.broadcast line r'.hub })

-- `if n <= 0 || n > r.count { n = r.count }`
unfoldable pub tail_size : ℤ → ℕ → ℕ
tail_size n count = if leb_ℤ n (pos 0) || ltb_ℤ (pos count) n then count else pos_part n

-- The loop of `Tail`: `k` lines from index `at` on.
unfoldable pub read_from : List LogLine → ℕ → ℕ → Option (List LogLine)
read_from buf at zero = some []
read_from buf at (suc k) = elim (get_elem? buf (at % length buf)) [
  | none ↦ none
  | some line ↦ elim (read_from buf (at + 1) k) [ none ↦ none | some rest ↦ some (line ∷ rest) ]
]

unfoldable pub tail : ℤ → LogRing → Option (List LogLine)
unfolding tail_size read_from
tail n r = let k = tail_size n r.count in read_from r.buf (r.start + r.count - k) k

unfoldable pub subscribe : LogRing → ℕ × LogRing
unfolding Hub.subscribe
subscribe r = let (id, hub) = Hub.subscribe 1024 r.hub in (id, record r { hub = hub })

unfoldable pub cancel : ℕ → LogRing → Option (Chan LogLine) × LogRing
unfolding Hub.cancel
cancel id r = let (c, hub) = Hub.cancel id r.hub in (c, record r { hub = hub })
