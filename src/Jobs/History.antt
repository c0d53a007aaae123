-- ===== src/Jobs/History.antt =====
-- The runner over any sequence of calls: what it keeps of the jobs that have ended.
use mathlib.Core.List.{append_assoc, append-nil}
use control_panel.Base.{
  ℕ, ◌-◌, ◌≤◌, ◌≡◌, ◌≢◌, refl, ap, sym, ◌∙◌, Option, none, some, String, List, [], ◌∷◌, ◌++◌,
  length, last, arith, length-append, length-last, length-drop, last-append, All, All-append,
  All-drop,
}
use control_panel.Jobs.{
  running, Job, Runner, new_runner, append_line, start, print, end_job, trim_recent, finish, cancel,
  max_recent, max_output_lines,
}

pub data Call : Type 0 where
  starts : String → String → String → ℕ → Call
  prints : String → Call
  ends : Option String → ℕ → Call
  cancels : String → Call

unfoldable pub after : Runner → Call → Runner
unfolding start print finish cancel
after r (starts kind target id now) = (start kind target id now r).1
after r (prints line) = print line r
after r (ends err now) = finish err now r
after r (cancels id) = (cancel id r).1

unfoldable pub run : Runner → List Call → Runner
run r [] = r
run r (c ∷ cs) = run (after r c) cs

-- The job that a call ends.
abbrev pub ended_of : Option Job → Option String → ℕ → List Job
ended_of none err now = []
ended_of (some j) err now = end_job err now j ∷ []

abbrev pub ended_by : Runner → Call → List Job
ended_by r (ends err now) = ended_of r.current err now
ended_by r (starts kind target id now) = []
ended_by r (prints line) = []
ended_by r (cancels id) = []

-- All the jobs that end, oldest first.
pub ended : Runner → List Call → List Job
ended r [] = []
ended r (c ∷ cs) = ended_by r c ++ ended (after r c) cs

pub trim_recent-last : (l : List Job) → trim_recent l ≡ last max_recent l
trim_recent-last l = ground arith

pub finish_recent :
    (o : Option Job) (err : Option String) (now : ℕ) (r : Runner) (h : List Job)
    → r.current ≡ o
    → r.recent ≡ last max_recent h
    → (finish err now r).recent ≡ last max_recent (h ++ ended_of o err now)
unfolding finish
finish_recent none err now r h c e = rw (c, finish) (e ∙ ap (last max_recent) (sym (append-nil h)))
finish_recent (some j) err now r h c e =
    rw (c, finish)
      (trim_recent-last (r.recent ++ end_job err now j ∷ [])
        ∙ ap (λ t. last max_recent (t ++ end_job err now j ∷ [])) e
        ∙ last-append max_recent h (end_job err now j ∷ []))

start_recent :
    (kind target id : String) (now : ℕ) (r : Runner)
    → (start kind target id now r).1.recent ≡ r.recent
unfolding start
start_recent kind target id now r = ground arith

print_recent : (line : String) (r : Runner) → (print line r).recent ≡ r.recent
unfolding print
print_recent line r = ground arith

cancel_recent : (id : String) (r : Runner) → (cancel id r).1.recent ≡ r.recent
unfolding cancel
cancel_recent id r = ground arith

after_recent :
    (c : Call) (r : Runner) (h : List Job)
    → r.recent ≡ last max_recent h
    → (after r c).recent ≡ last max_recent (h ++ ended_by r c)
unfolding after
after_recent (starts kind target id now) r h e =
    start_recent kind target id now r ∙ e ∙ ap (last max_recent) (sym (append-nil h))
after_recent (prints line) r h e =
    print_recent line r ∙ e ∙ ap (last max_recent) (sym (append-nil h))
after_recent (cancels id) r h e = cancel_recent id r ∙ e ∙ ap (last max_recent) (sym (append-nil h))
after_recent (ends err now) r h e = finish_recent r.current err now r h refl e

run_recent :
    (cs : List Call) (r : Runner) (h : List Job)
    → r.recent ≡ last max_recent h
    → (run r cs).recent ≡ last max_recent (h ++ ended r cs)
unfolding run ended
run_recent [] r h e = e ∙ ap (last max_recent) (sym (append-nil h))
run_recent (c ∷ cs) r h e =
    run_recent cs (after r c) (h ++ ended_by r c) (after_recent c r h e)
    ∙ ap (last max_recent) (append_assoc h (ended_by r c) (ended (after r c) cs))

-- Over any calls on a new runner, the history holds the last 20 jobs that have ended, oldest
-- first, as they were when they ended.
pub recent-run :
    (cs : List Call) → (run new_runner cs).recent ≡ last max_recent (ended new_runner cs)
recent-run cs = run_recent cs new_runner [] (unfold new_runner in refl)

abbrev IsCurrent : Option Job → Type 0
IsCurrent none = Unit
IsCurrent (some j) = (j.state ≡ running) × (length j.output ≤ max_output_lines)

abbrev IsOld : Job → Type 0
IsOld j = (j.state ≢ running) × (length j.output ≤ max_output_lines)

pub record IsValid (r : Runner) : Type 0 where
  pub recent_capped : length r.recent ≤ max_recent
  pub recent_ended : All IsOld r.recent
  pub current_runs : IsCurrent r.current

end_job-IsOld :
    (err : Option String) (now : ℕ) (j : Job) → IsCurrent (some j) → IsOld (end_job err now j)
unfolding end_job
end_job-IsOld err now j h = ground arith

append_line-IsCurrent :
    (line : String) (j : Job) → IsCurrent (some j) → IsCurrent (some (append_line line j))
unfolding append_line
append_line-IsCurrent line j h = ground (
  arith,
  length-append j.output (line ∷ []),
  length-drop (length (j.output ++ line ∷ []) - max_output_lines) (j.output ++ line ∷ []),
)

finish-IsValid :
    (o : Option Job) (err : Option String) (now : ℕ) (r : Runner)
    → r.current ≡ o
    → IsValid r
    → IsValid (finish err now r)
unfolding finish
finish-IsValid none err now r c v = rw (c, finish) v
finish-IsValid (some j) err now r c v =
    let all = r.recent ++ end_job err now j ∷ [] in
    rw (c, finish)
      (record {
        recent_capped = rw (trim_recent-last all) (omega (arith, length-last max_recent all));
        recent_ended = rw (trim_recent-last all) (
            All-drop IsOld (length all - max_recent) all (
              All-append IsOld r.recent _ v.recent_ended
                (end_job-IsOld err now j (rw c at v.current_runs), tt)));
        current_runs = tt;
      })

start-IsValid :
    (kind target id : String) (now : ℕ) (r : Runner)
    → IsValid r
    → IsValid (start kind target id now r).1
unfolding start
start-IsValid kind target id now r v = ground arith

print-IsValid : (line : String) (r : Runner) → IsValid r → IsValid (print line r)
unfolding print
print-IsValid line r v = go r.current refl
  where
    go : (o : Option Job) → r.current ≡ o → IsValid (print line r)
    go none c = rw (c, print) v
    go (some j) c =
        rw (c, print)
          (record {
            recent_capped = v.recent_capped;
            recent_ended = v.recent_ended;
            current_runs = append_line-IsCurrent line j (rw c at v.current_runs);
          })

cancel-IsValid : (id : String) (r : Runner) → IsValid r → IsValid (cancel id r).1
unfolding cancel
cancel-IsValid id r v = ground arith

after-IsValid : (c : Call) (r : Runner) → IsValid r → IsValid (after r c)
unfolding after
after-IsValid (starts kind target id now) r v = start-IsValid kind target id now r v
after-IsValid (prints line) r v = print-IsValid line r v
after-IsValid (cancels id) r v = cancel-IsValid id r v
after-IsValid (ends err now) r v = finish-IsValid r.current err now r refl v

run_from-IsValid : (cs : List Call) (r : Runner) → IsValid r → IsValid (run r cs)
unfolding run
run_from-IsValid [] r v = v
run_from-IsValid (c ∷ cs) r v = run_from-IsValid cs (after r c) (after-IsValid c r v)

-- After any calls on a new runner: at most 20 jobs are kept, none of them is running, the current
-- job if any is running, and each holds at most 4000 lines of output.
pub run-IsValid : (cs : List Call) → IsValid (run new_runner cs)
run-IsValid cs = run_from-IsValid cs new_runner (
    unfold new_runner in
    record { recent_capped = omega arith; recent_ended = tt; current_runs = tt })
