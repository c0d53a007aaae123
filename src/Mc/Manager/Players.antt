-- ===== src/Mc/Manager/Players.antt =====
-- internal/mc/manager.go: what PlayerAction sends to a server.
use mathlib.Core.Path.{subst}
use mathlib.Core.Option.{some-injective}
use control_panel.Base.{
  ℕ, ◌≡◌, refl, ◌∙◌, true, false, ◌||◌, none, some, List, [], ◌∷◌, ◌++◌, nat_beq, lookup, insert,
  Bool-cases, inl, inr, arith, ◌==◌, All,
}
use control_panel.Base.Text.{Text, text_eq, contains}
use control_panel.Base.Text.Lines.{Lacks, contains-append}
use control_panel.Mc.Checks.{
  check_id, check_player_name, match_player_name, player_actions, all, is_alnum,
}
use control_panel.Mc.Checks.Segment.{all-Lacks}
use control_panel.Mc.Instance.{Instance}
use control_panel.Mc.Instance.Stopping.{command, write_command_locked, is_active}
use control_panel.Mc.Manager.{Manager}
use control_panel.Mc.Manager.Actions.{player_action, command_at, with_instance}

-- A text with neither a newline nor a carriage return.
abbrev OneLine : Text → Type 0
OneLine s = Lacks b'\r' s × Lacks b'\n' s

player_word :
    (name : Text)
    → check_player_name name ≡ none
    → all (λ c. is_alnum c || nat_beq c b'_') name ≡ true
unfolding check_player_name match_player_name
player_word name h = ground (arith, h)

player-OneLine : (name : Text) → check_player_name name ≡ none → OneLine name
player-OneLine name h =
    let word = λ (c : ℕ). is_alnum c || nat_beq c b'_' in
    (
      all-Lacks word b'\r' name refl (player_word name h),
      all-Lacks word b'\n' name refl (player_word name h),
    )

action-OneLine :
    (m : List (Text × Text)) (action cmd : Text)
    → All (λ (e : Text × Text). OneLine e.1) m
    → lookup action m ≡ some cmd
    → OneLine cmd
unfolding lookup
action-OneLine [] action cmd a h = absurd (clash h)
  where
    clash : none ≡ some cmd → ⊥
    clash h = cc
action-OneLine ((j, c) ∷ m) action cmd a h = elim (Bool-cases (j == action)) [
  | inl same ↦ subst OneLine (some-injective c cmd (rw same at h)) a.0
  | inr other ↦ action-OneLine m action cmd a.1 (rw other at h)
]

actions-OneLine : All (λ (e : Text × Text). OneLine e.1) player_actions
unfolding contains
actions-OneLine =
    let one : OneLine [] = (refl, refl) in (one, (one, (one, (one, (one, (one, (one, tt)))))))

joined-Lacks :
    (d : ℕ) (cmd player : Text)
    → Lacks d cmd
    → Lacks d player
    → nat_beq b' ' d ≡ false
    → Lacks d (cmd ++ b' ' ∷ player)
unfolding contains
joined-Lacks d cmd player c p h = contains-append d cmd (b' ' ∷ player) ∙ rw (c, h, p)

-- An action on a player, with a name that is valid and on an active server whose stdin is open, is sent
-- to the server as one line, the command of the action and the name, if the write succeeds.
pub player_action-sent :
    (id player action cmd : Text) (p : ℕ) (m : Manager) (s : Instance)
    → check_player_name player ≡ none
    → lookup action player_actions ≡ some cmd
    → check_id id ≡ none
    → lookup id m.instances ≡ some s
    → is_active s.state ≡ true
    → s.stdin ≡ some p
    → let line = cmd ++ b' ' ∷ player in
      (player_action id player action none m ≡ (
        none,
        record m {
          instances =
              insert id (record s { sent = s.sent ++ (p, line ++ b'\n' ∷ []) ∷ [] }) m.instances;
        },
      ))
      × Lacks b'\n' line
unfolding player_action command_at with_instance command write_command_locked
player_action-sent id player action cmd p m s name act ok here active open_stdin =
    let c = action-OneLine player_actions action cmd actions-OneLine act in
    let n = player-OneLine player name in
    let r = joined-Lacks b'\r' cmd player c.0 n.0 refl in
    let l = joined-Lacks b'\n' cmd player c.1 n.1 refl in
    (
      rw (
        player_action, name, act, command_at, with_instance, ok, here, command, r, l, active,
        write_command_locked, open_stdin,
      ),
      l,
    )
