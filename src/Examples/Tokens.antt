-- ===== src/Examples/Tokens.antt =====
-- internal/auth/session.go: two tokens, of which one is revoked.
use control_panel.Base.{◌≡◌, none, String, List, [], ◌∷◌, string_eq, arith}
use control_panel.Auth.Sessions.{new_sessions, valid}
use control_panel.Auth.Sessions.History.{Call, creates, revokes, run, alive, expiry_of, valid-run}

-- A digest without collisions.
abbrev digest : String → String
digest token = token

abbrev logins : List Call
logins = creates 3 "alpha" ∷ creates 5 "beta" ∷ revokes 8 "beta" ∷ []

valid-run_example :
    valid digest 20 "alpha" (run digest (new_sessions 100) logins)
    ≡ alive digest 20 (expiry_of digest 100 "alpha" none logins)
valid-run_example =
    valid-run digest 100 "alpha" logins 20 (omega arith, (omega arith, (omega arith, omega arith)))
      (λ e. e, (λ e. e, (λ e. e, tt)))
