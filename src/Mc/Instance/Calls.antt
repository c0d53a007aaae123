-- ===== src/Mc/Instance/Calls.antt =====
-- internal/mc/instance.go: calls of a server in the order in which they take its mutex, with the
-- processes that have been started and whose end waitForExit has not yet recorded.
use control_panel.Base.{
  ℕ, ◌+◌, ◌≡◌, Bool, true, false, ◌||◌, Option, none, some, List, [], ◌∷◌, ◌++◌, if◌then◌else◌,
  nat_beq,
}
use control_panel.Base.Text.{Text}
use control_panel.Mc.Instance.{ResolvedCfg, Instance, Refusal, Launch, new_instance, start}
use control_panel.Mc.Instance.Lines.{Patterns, handle_line}
use control_panel.Mc.Instance.Stopping.{wait_for_exit, stop, kill, command, is_active}

pub record Server : Type 0 where
  pub instance_of : Instance
  pub alive : List ℕ
  pub fresh : ℕ

pub data Call : Type 0 where
  starts : Launch → Call
  prints : Text → Call
  exits : ℕ → Option Text → ℕ → ℕ → ℕ → Call
  stops : Option Text → Call
  kills : Call
  commands : Text → Option Text → Call

abbrev pub new_server : Text → Text → ResolvedCfg → Server
new_server id dir cfg = record { instance_of = new_instance id dir cfg; alive = []; fresh = 0 }

unfoldable pub is_alive : ℕ → List ℕ → Bool
is_alive p [] = false
is_alive p (q ∷ qs) = nat_beq p q || is_alive p qs

unfoldable pub gone : ℕ → List ℕ → List ℕ
gone p [] = []
gone p (q ∷ qs) = let rest = gone p qs in if nat_beq p q then rest else q ∷ rest

abbrev pub start_server : Option Refusal × Instance → Server → Server
start_server (none, s) v = record {
  instance_of = s;
  alive = v.alive ++ v.fresh ∷ [];
  fresh = v.fresh + 1;
}
start_server (some why, s) v = record v { instance_of = s }

module _ (re : Patterns) where
  -- A late line of any process may be printed at any time; only a process that is alive exits.
  unfoldable pub after : Server → Call → Server
  unfolding start handle_line wait_for_exit stop kill command is_alive gone
  after v (starts l) = start_server (start l v.fresh v.instance_of) v
  after v (prints raw) = record v { instance_of = handle_line re raw v.instance_of }
  after v (exits p err at now later) =
      if is_alive p v.alive
      then record v {
        instance_of = (wait_for_exit err at now later v.instance_of).1;
        alive = gone p v.alive;
      }
      else v
  after v (stops err) = record v { instance_of = (stop err v.instance_of).1 }
  after v kills = record v { instance_of = (kill v.instance_of).1 }
  after v (commands cmd err) = record v { instance_of = (command cmd err v.instance_of).1 }

  unfoldable pub run : Server → List Call → Server
  unfolding after
  run v [] = v
  run v (c ∷ cs) = run (after v c) cs

abbrev pub only : Option ℕ → List ℕ
only none = []
only (some p) = p ∷ []

abbrev pub is_some {ℓ} : {A : Type ℓ} → Option A → Bool
is_some none = false
is_some (some a) = true

-- There is a process exactly in the active states, it is the only one alive, and its stdin is open.
pub record IsValid (v : Server) : Type 0 where
  pub process : v.alive ≡ only v.instance_of.proc
  pub active : is_active v.instance_of.state ≡ is_some v.instance_of.proc
  pub open_stdin : v.instance_of.stdin ≡ v.instance_of.proc
