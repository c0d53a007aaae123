-- ===== src/Examples/Logins.antt =====
-- internal/auth/limiter.go: three failures of one address, of which one is too old.
use control_panel.Base.{◌+◌, ◌≡◌, List, [], ◌∷◌, length, ltb, keep, arith}
use control_panel.Auth.Limiter.{new_login_limiter, allow}
use control_panel.Auth.Limiter.History.{Call, allows, fails, resets, run, failures_of, allow-run}

abbrev attempts : List Call
attempts =
    fails 1 "10.0.0.7"
    ∷ fails 50 "10.0.0.7"
    ∷ resets 51 "10.0.0.9"
    ∷ allows 60 "10.0.0.7"
    ∷ fails 60 "10.0.0.7"
    ∷ []

allow-run_example :
    (allow 105 "10.0.0.7" (run (new_login_limiter 2 100) attempts)).0
    ≡ ltb (length (keep (λ t. ltb 105 (t + 100)) (failures_of "10.0.0.7" [] attempts))) 2
allow-run_example =
    allow-run 100 2 "10.0.0.7" attempts 105
      (omega arith, (omega arith, (omega arith, (omega arith, (omega arith, omega arith)))))
