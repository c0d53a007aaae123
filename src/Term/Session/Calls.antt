-- ===== src/Term/Session/Calls.antt =====
-- internal/term/term.go: calls on a session, and what one reader sees of them.
use control_panel.Base.{
  ℕ, Option, none, some, List, [], ◌∷◌, ◌++◌, if◌then◌else◌, lookup, insert, ◌==◌, nat_eq,
}
use control_panel.Channel.{Chan}
use control_panel.Term.Session.{
  Chunk, output, Session, pump, subscribe, cancel, input, close_session,
}

-- A receive by the reader of a channel takes the oldest entry of its buffer.
abbrev pub take_from : ℕ → Chan Chunk → List Chunk → Session → Option Chunk × Session
take_from j c [] s = (none, s)
take_from j c (x ∷ rest) s = (
  some x,
  record s { hub = record s.hub { subs = insert j (record c { queue = rest }) s.hub.subs } },
)

abbrev pub receive_in : ℕ → Option (Chan Chunk) → Session → Option Chunk × Session
receive_in j none s = (none, s)
receive_in j (some c) s = take_from j c c.queue s

unfoldable pub receive : ℕ → Session → Option Chunk × Session
receive j s = receive_in j (lookup j s.hub.subs) s

pub data Call : Type 0 where
  pumps : List ℕ → Call
  subscribes : Call
  cancels : ℕ → Call
  receives : ℕ → Call
  inputs : ℕ → Call
  closes : Call

unfoldable pub after : Session → Call → Session
unfolding pump subscribe cancel receive input close_session
after s (pumps bytes) = (pump bytes s).1
after s subscribes = (subscribe s).1
after s (cancels id) = (cancel id s).1
after s (receives id) = (receive id s).1
after s (inputs now) = (input now s).1
after s closes = (close_session s).2

unfoldable pub run : Session → List Call → Session
run s [] = s
run s (c ∷ cs) = run (after s c) cs

abbrev pub seen : ℕ → ℕ → Option Chunk → List Chunk
seen id j none = []
seen id j (some x) = if j == id then x ∷ [] else []

-- What the reader of channel `id` receives by a call.
abbrev pub got : ℕ → Session → Call → List Chunk
got id s (receives j) = seen id j (receive j s).0
got id s (pumps bytes) = []
got id s subscribes = []
got id s (cancels j) = []
got id s (inputs now) = []
got id s closes = []

unfoldable pub received : ℕ → Session → List Call → List Chunk
received id s [] = []
received id s (c ∷ cs) = got id s c ++ received id (after s c) cs

abbrev pub sent_by : Call → List Chunk
sent_by (pumps bytes) = output bytes ∷ []
sent_by (receives j) = []
sent_by subscribes = []
sent_by (cancels j) = []
sent_by (inputs now) = []
sent_by closes = []

unfoldable pub sent : List Call → List Chunk
sent [] = []
sent (c ∷ cs) = sent_by c ++ sent cs
