-- ===== src/Examples/Runner.antt =====
-- internal/jobs: two jobs, of which the second is canceled.
use control_panel.Base.{ℕ, ◌≡◌, refl, true, none, some, String, List, [], ◌∷◌, last}
use control_panel.Jobs.{canceled, new_runner, start, trim_recent, finish, max_recent}
use control_panel.Jobs.History.{
  Call, starts, prints, ends, cancels, after, run, ended, IsValid, recent-run, run-IsValid,
}
use control_panel.Jobs.Life.{asks_cancel, printed, finish-start}

abbrev two_jobs : List Call
two_jobs =
    starts "backup" "survival" "a1" 5
    ∷ prints "fetching"
    ∷ ends none 9
    ∷ starts "update" "creative" "b2" 12
    ∷ cancels "b2"
    ∷ ends (some "context canceled") 14
    ∷ []

recent-run_example : (run new_runner two_jobs).recent ≡ last max_recent (ended new_runner two_jobs)
recent-run_example = recent-run two_jobs

run-IsValid_example : IsValid (run new_runner two_jobs)
run-IsValid_example = run-IsValid two_jobs

abbrev meanwhile : List Call
meanwhile = prints "fetching" ∷ starts "scrub" "" "c3" 6 ∷ cancels "b2" ∷ prints "stopping" ∷ []

finish-start_example :
    let q = run (after new_runner (starts "update" "creative" "b2" 5)) meanwhile in
    ((kind' target' id' : String) (now : ℕ) → start kind' target' id' now q ≡ (none, q))
    × ((finish (some "context canceled") 9 q).current ≡ none)
    × ((finish (some "context canceled") 9 q).recent
        ≡ trim_recent (
            record {
              id = "b2";
              kind = "update";
              target = "creative";
              started_at = 5;
              ended_at = 9;
              state = canceled;
              err = "";
              output = "fetching" ∷ "stopping" ∷ [];
              dropped = 0;
              ctx_canceled = true;
            }
            ∷ []))
unfolding new_runner asks_cancel printed
finish-start_example =
    finish-start new_runner "update" "creative" "b2" 5 9 meanwhile (some "context canceled") refl tt
