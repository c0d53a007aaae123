-- ===== src/Mc/Instance/Players.antt =====
-- internal/mc/instance.go: the players of a server, as its lines tell of them.
use mathlib.Core.Path.{subst}
use control_panel.Base.{
  ℕ, ◌≡◌, ◌↔◌, ◌⊎◌, inl, inr, refl, sym, ap, ◌∙◌, Bool, true, false, not, ◌||◌, ◌&&◌, Option, none,
  some, List, [], ◌∷◌, ◌++◌, if◌then◌else◌, lookup, lookup-insert, lookup-delete, ◌==◌, Bool-cases,
  arith,
}
use control_panel.Base.Text.{Text, text_eq, is_empty, trim_space}
use control_panel.Mc.Instance.{
  Instance, Refusal, Launch, Present, start, start_error, refresh_props, unless, launched,
}
use control_panel.Mc.Instance.Lines.{
  Patterns, handle_line, handle_lines, see_line, see_version, see_paper, see_joined, see_left,
}
use control_panel.Mc.Instance.Stopping.{wait_for_exit, is_active}
use control_panel.Mc.Instance.Calls.{is_some}
use control_panel.Mc.Instance.Same.{handle_line-Same}
use control_panel.Mc.Instance.Valid.{exit_idle}

abbrev is_name : Text → Option Text → Bool
is_name name none = false
is_name name (some found) = found == name

module _ (re : Patterns) (name : Text) where
  -- A line that is not blank, in which the player joins.
  unfoldable pub joins : Text → Bool
  joins raw =
      let text = re.strip_ansi raw in
      if is_empty (trim_space text) then false else is_name name (re.joined text)

  unfoldable pub leaves : Text → Bool
  leaves raw =
      let text = re.strip_ansi raw in
      if is_empty (trim_space text) then false else is_name name (re.left text)

  abbrev pub NoLeave : List Text → Type 0
  NoLeave [] = Unit
  NoLeave (raw ∷ raws) = (leaves raw ≡ false) × NoLeave raws

  -- Some line in which the player joins is followed by none in which they leave.
  abbrev pub IsOnline : List Text → Type 0
  IsOnline raws =
      (before : List Text) × (raw : Text) × (later : List Text) × (raws ≡ before ++ raw ∷ later)
      × (joins raw ≡ true)
      × NoLeave (raw ∷ later)

  abbrev pub present : List (Text × Present) → Bool
  present players = is_some (lookup name players)

  seen-players :
      (a b : Option Text) (s : Instance) → (see_paper a (see_version b s)).players ≡ s.players
  seen-players none none s = refl
  seen-players none (some v) s = refl
  seen-players (some n) none s = refl
  seen-players (some n) (some v) s = refl

  present-see_joined :
      (o : Option Text) (players : List (Text × Present))
      → present (see_joined o players) ≡ (is_name name o || present players)
  present-see_joined none players = refl
  present-see_joined (some found) players = ground (arith, lookup-insert found name tt players)

  present-see_left :
      (o : Option Text) (players : List (Text × Present))
      → present (see_left o players) ≡ (not (is_name name o) && present players)
  present-see_left none players = refl
  present-see_left (some found) players = ground (arith, lookup-delete found name players)

  present-see_line :
      (text : Text) (s : Instance)
      → present (see_line re text s).players ≡ (
          not (is_name name (re.left text)) && (is_name name (re.joined text) || present s.players))
  unfolding see_line
  present-see_line text s =
      let s1 = see_paper (re.paper text) (see_version (re.version text) s) in
      present-see_left (re.left text) (see_joined (re.joined text) s1.players)
      ∙ ap (λ b. not (is_name name (re.left text)) && b)
          (present-see_joined (re.joined text) s1.players)
      ∙ ap
          (λ ps. not (is_name name (re.left text)) && (is_name name (re.joined text) || present ps))
          (seen-players (re.paper text) (re.version text) s)

  unless_blank :
      (blank l j : Bool) (s t : Instance)
      → present t.players ≡ (not l && (j || present s.players))
      → present (if blank then s else t).players
        ≡ (not (if blank then false else l) && ((if blank then false else j) || present s.players))
  unless_blank true l j s t h = refl
  unless_blank false l j s t h = h

  present-handle_line :
      (raw : Text) (s : Instance)
      → present (handle_line re raw s).players
        ≡ (not (leaves raw) && (joins raw || present s.players))
  unfolding handle_line joins leaves
  present-handle_line raw s =
      let text = re.strip_ansi raw in
      unless_blank (is_empty (trim_space text)) _ _ s (see_line re text s) (present-see_line text s)

  -- What the lines come to for a player who is online before them or not.
  abbrev Ends : Bool → List Text → Type 0
  Ends b raws = ((b ≡ true) × NoLeave raws) ⊎ IsOnline raws

  later-Ends :
      (b : Bool) (raw : Text) (raws : List Text)
      → Ends (not (leaves raw) && (joins raw || b)) raws ↔ Ends b (raw ∷ raws)
  later-Ends b raw raws = (forth, back)
    where
      forth : Ends (not (leaves raw) && (joins raw || b)) raws → Ends b (raw ∷ raws)
      forth (inr (before, r, later, e, j, n)) =
          inr (raw ∷ before, r, later, ap (λ rs. raw ∷ rs) e, j, n)
      forth (inl (h, n)) = elim (Bool-cases (joins raw)) [
        | inl j ↦ inr ([], raw, raws, refl, j, (stays, n))
        | inr j ↦ inl (was j, (stays, n))
      ]
        where
          stays : leaves raw ≡ false
          stays = ground (arith, h)

          was : joins raw ≡ false → b ≡ true
          was j = ground (arith, h, j)

      back : Ends b (raw ∷ raws) → Ends (not (leaves raw) && (joins raw || b)) raws
      back (inl (h, (l, n))) = inl (ground (arith, h, l), n)
      back (inr ([], r, later, e, j, (l, n))) =
          let same : r ≡ raw = cc in
          let rest : later ≡ raws = cc in
          inl (ground (arith, ap leaves same, l, ap joins same, j), subst NoLeave rest n)
      back (inr (q ∷ before, r, later, e, j, n)) = inr (before, r, later, cc, j, n)

  none_online : IsOnline [] → ⊥
  none_online ([], r, later, e, j, n) = cc
  none_online (q ∷ before, r, later, e, j, n) = cc

  present-handle_lines :
      (raws : List Text) (s : Instance)
      → (present (handle_lines re raws s).players ≡ true) ↔ Ends (present s.players) raws
  unfolding handle_lines
  present-handle_lines [] s = (λ h. inl (h, tt), back)
    where
      back : Ends (present s.players) [] → present s.players ≡ true
      back (inl (h, n)) = h
      back (inr o) = absurd (none_online o)
  present-handle_lines (raw ∷ raws) s =
      let (forth, back) = present-handle_lines raws (handle_line re raw s) in
      let same = present-handle_line raw s in
      let (f, b) = later-Ends (present s.players) raw raws in
      (
        λ h. f (subst (λ b. Ends b raws) same (forth h)),
        λ h. back (subst (λ b. Ends b raws) (sym same) (b h)),
      )

  no_players :
      (l : Launch) (p : ℕ) (s : Instance) → (start l p s).0 ≡ none → (start l p s).1.players ≡ []
  unfolding start
  no_players l p s h = launched_players (start_error l (refresh_props l.properties s)) h
    where
      launched_players :
          (o : Option Refusal)
          → let s1 = refresh_props l.properties s in
            (unless o s1 (launched l p s1)).0 ≡ none
            → (unless o s1 (launched l p s1)).1.players ≡ []
      launched_players none h = refl
      launched_players (some why) h = cc

  -- After a start that succeeds and any lines, the server lists a player exactly if some line says that
  -- they joined and neither it nor a later one says that they left. Blank lines say nothing.
  pub handle_lines-start :
      (l : Launch) (p : ℕ) (s : Instance) (raws : List Text)
      → (start l p s).0 ≡ none
      → (present (handle_lines re raws (start l p s).1).players ≡ true) ↔ IsOnline raws
  unfolding lookup
  handle_lines-start l p s raws ok =
      let (forth, back) = present-handle_lines raws (start l p s).1 in
      let absent = ap present (no_players l p s ok) in
      (λ h. joined absent (forth h), λ o. back (inr o))
    where
      joined : {b : Bool} → b ≡ false → Ends b raws → IsOnline raws
      joined h (inr o) = o
      joined h (inl (t, n)) = cc

  -- A line in which a player joins that is handled after waitForExit has recorded the end of the process
  -- leaves the player listed, on a server that is not active.
  pub handle_line-wait_for_exit :
      (err : Option Text) (at now later : ℕ) (s : Instance) (raw : Text)
      → joins raw ≡ true
      → leaves raw ≡ false
      → let t = handle_line re raw (wait_for_exit err at now later s).1 in
        (present t.players ≡ true) × (is_active t.state ≡ false)
  handle_line-wait_for_exit err at now later s raw j l =
      let s1 = (wait_for_exit err at now later s).1 in
      (
        ground (arith, present-handle_line raw s1, j, l),
        (handle_line-Same re raw s1).active ∙ exit_idle err at now later s,
      )
