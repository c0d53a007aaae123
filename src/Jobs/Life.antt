-- ===== src/Jobs/Life.antt =====
-- One job from its start to its end.
use mathlib.Core.Path.{ap₂}
use control_panel.Base.{
  ℕ, ◌-◌, ◌≡◌, refl, ap, ◌∙◌, Bool, true, false, ◌||◌, Option, none, some, String, List, [], ◌∷◌,
  ◌++◌, length, last, arith, ◌==◌, string_eq,
}
use control_panel.Jobs.{
  State, done, failed, canceled, Job, Runner, append_line, fresh_job, start, print, end_job,
  trim_recent, finish, max_output_lines,
}
use control_panel.Jobs.Output.{print_all, print_all-fresh}
use control_panel.Jobs.History.{Call, starts, prints, ends, cancels, after, run}

-- No call of these ends the running job.
abbrev pub NoEnd : List Call → Type 0
NoEnd [] = Unit
NoEnd (ends err now ∷ cs) = ⊥
NoEnd (starts kind target id now ∷ cs) = NoEnd cs
NoEnd (prints line ∷ cs) = NoEnd cs
NoEnd (cancels id ∷ cs) = NoEnd cs

unfoldable pub printed : List Call → List String
printed [] = []
printed (prints line ∷ cs) = line ∷ printed cs
printed (starts kind target id now ∷ cs) = printed cs
printed (ends err now ∷ cs) = printed cs
printed (cancels id ∷ cs) = printed cs

unfoldable pub asks_cancel : String → List Call → Bool
asks_cancel id [] = false
asks_cancel id (cancels j ∷ cs) = id == j || asks_cancel id cs
asks_cancel id (prints line ∷ cs) = asks_cancel id cs
asks_cancel id (starts kind target j now ∷ cs) = asks_cancel id cs
asks_cancel id (ends err now ∷ cs) = asks_cancel id cs

abbrev flag : Bool → Job → Job
flag b j = record j { ctx_canceled = j.ctx_canceled || b }

append_line-flag :
    (b : Bool) (line : String) (j : Job) → append_line line (flag b j) ≡ flag b (append_line line j)
unfolding append_line
append_line-flag b line j = ground arith

print_all-flag :
    (b : Bool) (lines : List String) (j : Job)
    → print_all lines (flag b j) ≡ flag b (print_all lines j)
unfolding print_all
print_all-flag b [] j = refl
print_all-flag b (line ∷ lines) j =
    ap (print_all lines) (append_line-flag b line j) ∙ print_all-flag b lines (append_line line j)

flag-flag : (a b : Bool) (j : Job) → flag a (flag b j) ≡ flag (b || a) j
flag-flag a b j = ground arith

append_line_id : (line : String) (j : Job) → (append_line line j).id ≡ j.id
unfolding append_line
append_line_id line j = ground arith

record Runs (r : Runner) (q : Runner) (j : Job) : Type 0 where
  is_current : q.current ≡ some j
  same_recent : q.recent ≡ r.recent

after_starts :
    (kind target id : String) (now : ℕ) (r : Runner) (j : Job)
    → r.current ≡ some j
    → after r (starts kind target id now) ≡ r
unfolding after
after_starts kind target id now r j c = rw (c, start)

after_prints :
    (line : String) (r : Runner) (j : Job)
    → r.current ≡ some j
    → Runs r (after r (prints line)) (append_line line j)
unfolding after
after_prints line r j c = record { is_current = rw (c, print); same_recent = rw (c, print) }

after_cancels :
    (id : String) (r : Runner) (j : Job)
    → r.current ≡ some j
    → Runs r (after r (cancels id)) (flag (j.id == id) j)
unfolding after
after_cancels id r j c = record { is_current = ground arith; same_recent = ground arith }

run-Runs :
    (cs : List Call) (r : Runner) (j : Job)
    → NoEnd cs
    → r.current ≡ some j
    → Runs r (run r cs) (flag (asks_cancel j.id cs) (print_all (printed cs) j))
unfolding run asks_cancel printed print_all
run-Runs [] r j h c = record { is_current = ground arith; same_recent = refl }
run-Runs (ends err now ∷ cs) r j h c = absurd h
run-Runs (starts kind target id now ∷ cs) r j h c =
    rw (after_starts kind target id now r j c) (run-Runs cs r j h c)
run-Runs (prints line ∷ cs) r j h c =
    let s = after_prints line r j c in
    let u = run-Runs cs (after r (prints line)) (append_line line j) h s.is_current in
    record {
      is_current =
          u.is_current
          ∙ ap (λ t. some (flag (asks_cancel t cs) (print_all (printed cs) (append_line line j))))
              (append_line_id line j);
      same_recent = u.same_recent ∙ s.same_recent;
    }
run-Runs (cancels id ∷ cs) r j h c =
    let s = after_cancels id r j c in
    let u = run-Runs cs (after r (cancels id)) (flag (j.id == id) j) h s.is_current in
    record {
      is_current =
          u.is_current
          ∙ ap (λ t. some (flag (asks_cancel j.id cs) t))
              (print_all-flag (j.id == id) (printed cs) j)
          ∙ ap some (flag-flag (asks_cancel j.id cs) (j.id == id) (print_all (printed cs) j));
      same_recent = u.same_recent ∙ s.same_recent;
    }

-- How a job ends: a cancel request decides, then the error of its function.
abbrev pub outcome : Bool → Option String → State × String
outcome true err = (canceled, "")
outcome false none = (done, "")
outcome false (some why) = (failed, why)

after_starts_idle :
    (kind target id : String) (now : ℕ) (r : Runner)
    → r.current ≡ none
    → Runs r (after r (starts kind target id now)) (fresh_job kind target id now)
unfolding after
after_starts_idle kind target id now r c = record {
  is_current = rw (c, start);
  same_recent = rw (c, start);
}

start_busy :
    (kind target id : String) (now : ℕ) (r : Runner) (j : Job)
    → r.current ≡ some j
    → start kind target id now r ≡ (none, r)
unfolding start
start_busy kind target id now r j c = ground arith

finish_idle :
    (err : Option String) (now : ℕ) (r : Runner) (j : Job)
    → r.current ≡ some j
    → (finish err now r).current ≡ none
unfolding finish
finish_idle err now r j c = rw (c, finish)

finish_recent_busy :
    (err : Option String) (now : ℕ) (r : Runner) (j : Job)
    → r.current ≡ some j
    → (finish err now r).recent ≡ trim_recent (r.recent ++ end_job err now j ∷ [])
unfolding finish
finish_recent_busy err now r j c = rw (c, finish)

end_job_lem :
    (err : Option String) (now : ℕ) (b : Bool) (j : Job) (o : List String) (n : ℕ)
    → end_job err now
        (flag b (record (fresh_job j.kind j.target j.id j.started_at) { output = o; dropped = n }))
      ≡ record {
        id = j.id;
        kind = j.kind;
        target = j.target;
        started_at = j.started_at;
        ended_at = now;
        state = (outcome b err).0;
        err = (outcome b err).1;
        output = o;
        dropped = n;
        ctx_canceled = b;
      }
unfolding end_job
end_job_lem err now b j o n = ground arith

-- The whole life of a job. On an idle runner `Start` shows the job as running; then, whatever
-- further starts, output lines and cancel requests come before its function returns, every
-- further start is refused and the runner is idle again at the end, with one more job in the
-- history: it has its own kind, target and times, the last 4000 of the lines printed and a count
-- of the others, and it is canceled if its id was asked to be, else failed with the function's
-- error, else done.
pub finish-start :
    (r : Runner) (kind target id : String) (t0 t1 : ℕ) (cs : List Call) (err : Option String)
    → r.current ≡ none
    → NoEnd cs
    → let q = run (after r (starts kind target id t0)) cs in
      ((kind' target' id' : String) (now : ℕ) → start kind' target' id' now q ≡ (none, q))
      × ((finish err t1 q).current ≡ none)
      × ((finish err t1 q).recent
          ≡ trim_recent (
              r.recent
              ++ record {
                id = id;
                kind = kind;
                target = target;
                started_at = t0;
                ended_at = t1;
                state = (outcome (asks_cancel id cs) err).0;
                err = (outcome (asks_cancel id cs) err).1;
                output = last max_output_lines (printed cs);
                dropped = length (printed cs) - max_output_lines;
                ctx_canceled = asks_cancel id cs;
              }
                ∷ []))
finish-start r kind target id t0 t1 cs err idle h =
    let j = fresh_job kind target id t0 in
    let s = after_starts_idle kind target id t0 r idle in
    let u = run-Runs cs (after r (starts kind target id t0)) j h s.is_current in
    let e : (run (after r (starts kind target id t0)) cs).current
        ≡ some (
            flag (asks_cancel id cs) (record j {
              output = last max_output_lines (printed cs);
              dropped = length (printed cs) - max_output_lines;
            })) =
      u.is_current
      ∙ ap (λ t. some (flag (asks_cancel id cs) t)) (print_all-fresh (printed cs) j refl refl) in
    (
      λ kind' target' id' now. start_busy kind' target' id' now _ _ e,
      finish_idle err t1 _ _ e,
      finish_recent_busy err t1 _ _ e
          ∙ ap₂ (λ l t. trim_recent (l ++ t ∷ [])) (u.same_recent ∙ s.same_recent)
              (end_job_lem err t1 (asks_cancel id cs) j _ _),
    )
