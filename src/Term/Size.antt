-- ===== src/Term/Size.antt =====
-- internal/term/term.go: the size of a terminal.
use control_panel.Base.{◌≡◌, if◌then◌else◌, ℤ, pos, ltb_ℤ, ◌≤ℤ◌, arith}

abbrev pub clamp_in : ℤ → ℤ → ℤ → ℤ
clamp_in preset top n =
    let n' = if ltb_ℤ n (pos 2) then preset else n in if ltb_ℤ top n' then top else n'

unfoldable pub clamp_size : ℤ → ℤ → ℤ × ℤ
clamp_size cols rows = (clamp_in (pos 80) (pos 500) cols, clamp_in (pos 24) (pos 300) rows)

-- Whatever size is asked for, the terminal has 2 to 500 columns and 2 to 300 rows, and a size within
-- these limits is left as it is: a second clamp changes nothing.
pub clamp_size_bounds :
    (cols rows : ℤ)
    → let (c, r) = clamp_size cols rows in
      (pos 2 ≤ℤ c) × (c ≤ℤ pos 500) × (pos 2 ≤ℤ r) × (r ≤ℤ pos 300) × (clamp_size c r ≡ (c, r))
unfolding clamp_size
clamp_size_bounds cols rows = (ground arith, ground arith, ground arith, ground arith, ground arith)
