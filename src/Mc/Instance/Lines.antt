-- ===== src/Mc/Instance/Lines.antt =====
-- internal/mc/instance.go: the lines that a server prints. Package regexp's answers are an interface.
use control_panel.Base.{
  ℕ, Bool, ◌&&◌, Option, none, some, List, [], ◌∷◌, ◌++◌, if◌then◌else◌, insert, delete, nat_beq,
}
use control_panel.Base.Text.{Text, text_eq, is_empty, trim_space}
use control_panel.Base.Text.Numbers.{chars, has_text}
use control_panel.Mc.Instance.{
  State, stopped, starting, running, stopping, crashed, Instance, Present,
}

-- What the patterns of the file find in a line: the group, if the pattern matches.
pub record Patterns : Type 0 where
  pub strip_ansi : Text → Text  -- ReplaceAllString(raw, "")
  pub level : Text → Option Text
  pub version : Text → Option Text
  pub paper : Text → Option Text
  pub joined : Text → Option Text
  pub left : Text → Option Text

abbrev pub or_info : Option Text → Text
or_info none = chars "INFO"
or_info (some level) = level

abbrev pub see_version : Option Text → Instance → Instance
see_version none s = s
see_version (some v) s = record s { version = v; software = chars "Vanilla" }

abbrev pub see_paper : Option Text → Instance → Instance
see_paper none s = s
see_paper (some name) s = record s { software = name }

abbrev pub done_state : Bool → State → State
done_state found starting = if found then running else starting
done_state found stopped = stopped
done_state found running = running
done_state found stopping = stopping
done_state found crashed = crashed

abbrev pub stopping_state : Bool → State → State
stopping_state found running = if found then stopping else running
stopping_state found stopped = stopped
stopping_state found starting = starting
stopping_state found stopping = stopping
stopping_state found crashed = crashed

abbrev pub see_joined : Option Text → List (Text × Present) → List (Text × Present)
see_joined none players = players
see_joined (some name) players = insert name tt players

abbrev pub see_left : Option Text → List (Text × Present) → List (Text × Present)
see_left none players = players
see_left (some name) players = delete name players

module _ (re : Patterns) where
  -- A line that is not blank.
  unfoldable pub see_line : Text → Instance → Instance
  unfolding has_text
  see_line text s =
      let s1 = see_paper (re.paper text) (see_version (re.version text) s) in
      record s1 {
        console = s.console ++ (or_info (re.level text), text) ∷ [];
        state =
            stopping_state (has_text (chars "Stopping server") text)
              (done_state (has_text (chars "Done (") text) s1.state);
        players = see_left (re.left text) (see_joined (re.joined text) s1.players);
      }

  unfoldable pub handle_line : Text → Instance → Instance
  unfolding see_line trim_space
  handle_line raw s =
      let text = re.strip_ansi raw in if is_empty (trim_space text) then s else see_line text s

  unfoldable pub handle_lines : List Text → Instance → Instance
  unfolding handle_line
  handle_lines [] s = s
  handle_lines (raw ∷ raws) s = handle_lines raws (handle_line raw s)

-- `strings.TrimRight(line, "\r")`
unfoldable pub trim_cr : Text → Text
trim_cr [] = []
trim_cr (c ∷ s) = let rest = trim_cr s in if nat_beq c b'\r' && is_empty rest then [] else c ∷ rest

abbrev pub put_line : ℕ → List Text × Text → List Text × Text
put_line c ([], rest) = ([], c ∷ rest)
put_line c (line ∷ lines, rest) = ((c ∷ line) ∷ lines, rest)

-- The complete lines of a buffer, and what is left of it.
unfoldable pub take_lines : Text → List Text × Text
take_lines [] = ([], [])
take_lines (c ∷ s) =
    let (lines, rest) = take_lines s in
    if nat_beq c b'\n' then ([] ∷ lines, rest) else put_line c (lines, rest)

unfoldable pub trim_all : List Text → List Text
unfolding trim_cr
trim_all [] = []
trim_all (line ∷ lines) = trim_cr line ∷ trim_all lines

module _ (re : Patterns) where
  -- One read: what was left of the buffer, and the server.
  unfoldable pub pump_output : Text → Text × Instance → Text × Instance
  unfolding take_lines trim_all handle_lines
  pump_output chunk (buf, s) =
      let (lines, rest) = take_lines (buf ++ chunk) in (rest, handle_lines re (trim_all lines) s)

  unfoldable pub pump_reads : List Text → Text × Instance → Text × Instance
  unfolding pump_output
  pump_reads [] b = b
  pump_reads (chunk ∷ chunks) b = pump_reads chunks (pump_output chunk b)

  -- The read that fails: a last line that has not ended is handled too.
  unfoldable pub pump_end : Text × Instance → Instance
  unfolding handle_line
  pump_end (buf, s) = if is_empty buf then s else handle_line re buf s
