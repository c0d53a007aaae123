-- ===== src/Examples/Console.antt =====
-- internal/mc/ring.go: a ring of two lines that wraps around.
use control_panel.Base.{◌≡◌, min, some, List, [], ◌∷◌, length, last, pos, arith}
use control_panel.Mc.Ring.{LogLine, LogRing, new_log_ring, tail}
use control_panel.Mc.Ring.Refines.{append_all, due, tail-append_all}

abbrev logged : List LogLine
logged =
    record { ts = 1; level = "info"; text = "Starting minecraft server" }
    ∷ record { ts = 2; level = "warn"; text = "Ambiguity between arguments" }
    ∷ record { ts = 3; level = "info"; text = "Done" }
    ∷ []

tail-append_all_example :
    (r : LogRing) × (append_all logged (new_log_ring 2) ≡ some r)
    × (tail (pos 1) r ≡ some (last (due (pos 1) (min (length logged) 2)) logged))
tail-append_all_example = tail-append_all 2 logged (pos 1) (omega arith)
