-- ===== src/Term/Session.antt =====
-- internal/term/term.go: one session. A chunk of output is its bytes; `lastActive` is a time in ms,
-- an argument of the calls; the terminal process is outside.
pub mod Replay
pub mod Calls
pub mod Table
pub mod Stream
pub mod Closing
use control_panel.Base.{
  ℕ, ◌+◌, ◌-◌, ◌*◌, Bool, true, false, Option, none, some, String, List, [], ◌∷◌, ◌++◌,
  if◌then◌else◌, length, drop, ltb, lookup, insert, delete, ◌==◌, nat_eq,
}
use control_panel.Channel.{Chan, make, offer, close, has_room}
use control_panel.Channel.Hub
use control_panel.Channel.Hub.{Hub}

abbrev pub replay_max : ℕ
replay_max = 256 * 1024

abbrev pub sub_buffer : ℕ
sub_buffer = 1024

pub data Chunk : Type 0 where
  output : List ℕ → Chunk
  exit : Chunk

pub record Session : Type 0 where
  pub id : String
  pub started_at : ℕ
  pub replay : List ℕ
  pub hub : Hub Chunk  -- `subs` and `nextSub`
  pub last_active : ℕ
  pub exited : Bool

unfoldable pub new_session : String → ℕ → Session
unfolding Hub.empty
new_session id now = record {
  id = id;
  started_at = now;
  replay = [];
  hub = Hub.empty;
  last_active = now;
  exited = false;
}

-- The subscribers that `broadcastLocked` keeps, each with the chunk.
unfoldable pub broadcast_locked : Chunk → List (ℕ × Chan Chunk) → List (ℕ × Chan Chunk)
broadcast_locked x [] = []
broadcast_locked x ((id, c) ∷ m) =
    let rest = broadcast_locked x m in
    if has_room c then (id, record c { queue = c.queue ++ x ∷ [] }) ∷ rest else rest

-- The channels that it closes.
unfoldable pub dropped_locked : List (ℕ × Chan Chunk) → List (ℕ × Chan Chunk)
unfolding close
dropped_locked [] = []
dropped_locked ((id, c) ∷ m) =
    let rest = dropped_locked m in if has_room c then rest else (id, close c) ∷ rest

unfoldable pub close_subs : List (ℕ × Chan Chunk) → List (ℕ × Chan Chunk)
unfolding close
close_subs [] = []
close_subs ((id, c) ∷ m) = (id, close c) ∷ close_subs m

-- One read of `pump` that gives bytes: the session, and the channels that are closed.
unfoldable pub pump : List ℕ → Session → List (ℕ × Chan Chunk) × Session
unfolding broadcast_locked dropped_locked
pump bytes s =
    let r = s.replay ++ bytes in
    let r' = if ltb replay_max (length r) then drop (length r - replay_max) r else r in
    (
      dropped_locked s.hub.subs,
      record s {
        replay = r';
        hub = record s.hub { subs = broadcast_locked (output bytes) s.hub.subs };
      },
    )

-- The replay, the channel, its id unless the session has ended, and the session.
unfoldable pub subscribe : Session → (List ℕ × Chan Chunk × Option ℕ) × Session
unfolding make Hub.subscribe
subscribe s =
    let c = make sub_buffer in
    if s.exited
    then ((s.replay, record c { queue = exit ∷ []; closed = true }, none), s)
    else ((s.replay, c, some s.hub.next), record s { hub = (Hub.subscribe sub_buffer s.hub).1 })

-- The function that `Subscribe` returns.
unfoldable pub cancel : ℕ → Session → Option (Chan Chunk) × Session
unfolding Hub.cancel
cancel id s = let (c, hub) = Hub.cancel id s.hub in (c, record s { hub = hub })

-- `Input` up to the write to the process; `false` is the error "session has ended".
unfoldable pub input : ℕ → Session → Bool × Session
input now s = if s.exited then (false, s) else (true, record s { last_active = now })

-- `Resize` up to the call of the process.
unfoldable pub resize : ℕ → Session → Session
resize now s = record s { last_active = now }

-- `close` under the session's mutex: whether it goes on to the process and the manager, the
-- channels that are closed, and the session.
unfoldable pub close_session : Session → Bool × List (ℕ × Chan Chunk) × Session
unfolding broadcast_locked dropped_locked close_subs
close_session s = if s.exited then (false, [], s) else (
  true,
  dropped_locked s.hub.subs ++ close_subs (broadcast_locked exit s.hub.subs),
  record s { exited = true; hub = record s.hub { subs = [] } },
)
