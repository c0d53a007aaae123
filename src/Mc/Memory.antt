-- ===== src/Mc/Memory.antt =====
-- internal/mc/instance.go: the size of a server's heap, as a uint64.
use control_panel.Base.{ℕ, ◌*◌, ◌%◌, ◌^◌, ◌||◌, Option, none, some, [], ◌∷◌, if◌then◌else◌, nat_beq}
use control_panel.Base.Text.{Text}
use control_panel.Base.Text.Numbers.{parse_uint}

-- A text that is not empty, without its last code point, and that code point.
unfoldable pub split_last : ℕ → Text → Text × ℕ
split_last c [] = ([], c)
split_last c (d ∷ s) = let (body, last) = split_last d s in (c ∷ body, last)

abbrev pub scaled : ℕ → Option ℕ → ℕ
scaled mult none = 0
scaled mult (some v) = v * mult % 2 ^ 64

unfoldable pub parse_mem : Text → ℕ
unfolding split_last parse_uint
parse_mem [] = 0
parse_mem (c ∷ s) =
    let (body, unit) = split_last c s in
    if nat_beq unit b'G' || nat_beq unit b'g'
    then scaled (2 ^ 30) (parse_uint body)
    else if nat_beq unit b'M' || nat_beq unit b'm'
    then scaled (2 ^ 20) (parse_uint body)
    else if nat_beq unit b'K' || nat_beq unit b'k'
    then scaled (2 ^ 10) (parse_uint body)
    else scaled 1 (parse_uint (c ∷ s))
