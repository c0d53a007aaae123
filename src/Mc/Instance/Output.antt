-- ===== src/Mc/Instance/Output.antt =====
-- internal/mc/instance.go: pumpOutput, which reads a server's output in chunks.
use mathlib.Core.List.{append_assoc, append-nil}
use control_panel.Base.{
  ℕ, ◌≡◌, refl, sym, ap, ◌∙◌, false, List, [], ◌∷◌, ◌++◌, if◌then◌else◌, nat_beq, Bool-cases, inl,
  inr,
}
use control_panel.Base.Text.{Text}
use control_panel.Mc.Instance.{Instance}
use control_panel.Mc.Instance.Lines.{
  Patterns, handle_line, handle_lines, put_line, take_lines, trim_cr, trim_all, pump_output,
  pump_reads,
}

-- All that the chunks hold.
unfoldable pub concat : List Text → Text
concat [] = []
concat (chunk ∷ chunks) = chunk ++ concat chunks

-- The lines of a text in two parts, of which the first part has some complete lines and a rest.
abbrev continue : List Text × Text → Text → List Text × Text
continue (lines, rest) more =
    (lines ++ (take_lines (rest ++ more)).0, (take_lines (rest ++ more)).1)

-- One more code point in front.
abbrev step : ℕ → List Text × Text → List Text × Text
step c parts = if nat_beq c b'\n' then ([] ∷ parts.0, parts.1) else put_line c parts

put_line-continue :
    (c : ℕ) (parts : List Text × Text) (more : Text)
    → nat_beq c b'\n' ≡ false
    → put_line c (continue parts more) ≡ continue (put_line c parts) more
unfolding take_lines
put_line-continue c ([], rest) more h = sym (
    ap
      (λ b.
        if b
        then ([] ∷ (take_lines (rest ++ more)).0, (take_lines (rest ++ more)).1)
        else put_line c (take_lines (rest ++ more)))
      h)
put_line-continue c (line ∷ lines, rest) more h = refl

step-continue :
    (c : ℕ) (parts : List Text × Text) (more : Text)
    → step c (continue parts more) ≡ continue (step c parts) more
step-continue c parts more = elim (Bool-cases (nat_beq c b'\n')) [
  | inl newline ↦ rw newline
  | inr other ↦ rw other (put_line-continue c parts more other)
]

take_lines-append : (s more : Text) → take_lines (s ++ more) ≡ continue (take_lines s) more
unfolding take_lines
take_lines-append [] more = refl
take_lines-append (c ∷ s) more =
    ap (step c) (take_lines-append s more) ∙ step-continue c (take_lines s) more

trim_all-append : (xs ys : List Text) → trim_all (xs ++ ys) ≡ trim_all xs ++ trim_all ys
unfolding trim_all
trim_all-append [] ys = refl
trim_all-append (x ∷ xs) ys = ap (λ rest. trim_cr x ∷ rest) (trim_all-append xs ys)

module _ (re : Patterns) where
  handle_lines-append :
      (xs ys : List Text) (s : Instance)
      → handle_lines re (xs ++ ys) s ≡ handle_lines re ys (handle_lines re xs s)
  unfolding handle_lines
  handle_lines-append [] ys s = refl
  handle_lines-append (x ∷ xs) ys s = handle_lines-append xs ys (handle_line re x s)

  two_reads :
      (a b : Text) (s : Instance)
      → pump_output re b (pump_output re a ([], s)) ≡ pump_output re (a ++ b) ([], s)
  unfolding pump_output
  two_reads a b s =
      let (l1, r1) = take_lines a in
      let (l2, r2) = take_lines (r1 ++ b) in
      ap (λ t. (r2, t))
        (sym (handle_lines-append (trim_all l1) (trim_all l2) s)
          ∙ ap (λ ls. handle_lines re ls s) (sym (trim_all-append l1 l2)))
      ∙ ap (λ (parts : List Text × Text). (parts.1, handle_lines re (trim_all parts.0) s))
          (sym (take_lines-append a b))

  reads_from :
      (a : Text) (chunks : List Text) (s : Instance)
      → pump_reads re chunks (pump_output re a ([], s))
        ≡ pump_output re (a ++ concat chunks) ([], s)
  unfolding pump_reads concat
  reads_from a [] s = ap (λ t. pump_output re t ([], s)) (sym (append-nil a))
  reads_from a (chunk ∷ chunks) s =
      ap (pump_reads re chunks) (two_reads a chunk s)
      ∙ reads_from (a ++ chunk) chunks s
      ∙ ap (λ t. pump_output re t ([], s)) (append_assoc a chunk (concat chunks))

  -- However a server's output is cut into reads, the lines that are handled and what is left of the
  -- buffer are as if all of it came in one.
  pub pump_output-concat :
      (first : Text) (chunks : List Text) (s : Instance)
      → pump_reads re (first ∷ chunks) ([], s) ≡ pump_output re (first ++ concat chunks) ([], s)
  unfolding pump_reads
  pump_output-concat first chunks s = reads_from first chunks s
