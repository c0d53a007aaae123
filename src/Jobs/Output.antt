-- ===== src/Jobs/Output.antt =====
-- The captured output of a job: the last 4000 lines, and a count of those before them.
use mathlib.Core.List.{append-nil, append_assoc}
use mathlib.Core.Path.{ap₂}
use control_panel.Base.{
  ℕ, ◌+◌, ◌-◌, ◌≡◌, refl, ap, ◌∙◌, String, List, [], ◌∷◌, ◌++◌, length, arith, length-append, last,
  length-last, last-append,
}
use control_panel.Jobs.{Job, append_line, max_output_lines}

-- The job holds the end of the lines `h`, and counts the others as dropped.
pub record Captures (j : Job) (h : List String) : Type 0 where
  pub kept : j.output ≡ last max_output_lines h
  pub lost : j.dropped ≡ length h - max_output_lines

append_line_output :
    (j : Job) (line : String)
    → (append_line line j).output ≡ last max_output_lines (j.output ++ line ∷ [])
unfolding append_line
append_line_output j line = ground arith

append_line_dropped :
    (j : Job) (line : String)
    → (append_line line j).dropped ≡ j.dropped + (length j.output + 1 - max_output_lines)
unfolding append_line
append_line_dropped j line = ground (arith, length-append j.output (line ∷ []))

append_line-Captures :
    (j : Job) (h : List String) (line : String)
    → Captures j h
    → Captures (append_line line j) (h ++ line ∷ [])
append_line-Captures j h line v = record {
  kept =
      append_line_output j line
      ∙ ap (λ t. last max_output_lines (t ++ line ∷ [])) v.kept
      ∙ last-append max_output_lines h (line ∷ []);
  lost = omega (
    arith,
    append_line_dropped j line,
    v.lost,
    ap length v.kept,
    length-last max_output_lines h,
    length-append h (line ∷ []),
  );
}

-- The lines that the job prints, one after the other.
unfoldable pub print_all : List String → Job → Job
print_all [] j = j
print_all (line ∷ lines) j = print_all lines (append_line line j)

print_all-Captures :
    (lines : List String) (j : Job) (h : List String)
    → Captures j h
    → Captures (print_all lines j) (h ++ lines)
unfolding print_all
print_all-Captures [] j h v = rw append-nil v
print_all-Captures (line ∷ lines) j h v =
    rw append_assoc at
      (print_all-Captures lines _ (h ++ line ∷ []) (append_line-Captures j h line v))

abbrev with_output : List String → ℕ → Job → Job
with_output o n j = record j { output = o; dropped = n }

append_line_frame :
    (j : Job) (line : String)
    → append_line line j
      ≡ record j { output = (append_line line j).output; dropped = (append_line line j).dropped }
unfolding append_line
append_line_frame j line = ground arith

print_all_frame :
    (lines : List String) (j : Job)
    → print_all lines j
      ≡ record j { output = (print_all lines j).output; dropped = (print_all lines j).dropped }
unfolding print_all
print_all_frame [] j = refl
print_all_frame (line ∷ lines) j =
    let q = print_all lines (append_line line j) in
    print_all_frame lines (append_line line j)
    ∙ ap (with_output q.output q.dropped) (append_line_frame j line)

-- A job with no output yet that prints any lines keeps exactly the last 4000 of them, in order,
-- and counts exactly the others as dropped; nothing else of the job changes.
pub print_all-fresh :
    (lines : List String) (j : Job)
    → j.output ≡ []
    → j.dropped ≡ 0
    → print_all lines j
      ≡ record j { output = last max_output_lines lines; dropped = length lines - max_output_lines }
print_all-fresh lines j e d =
    let v = print_all-Captures lines j [] (record { kept = e; lost = omega (arith, d) }) in
    print_all_frame lines j ∙ ap₂ (λ o n. with_output o n j) v.kept v.lost
