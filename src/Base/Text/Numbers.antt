-- ===== src/Base/Text/Numbers.antt =====
-- What the code uses of Go's package strconv, and its search for a text in a text.
use control_panel.Base.Tests.{ltb, leb, nat_beq, if◌then◌else◌}
use control_panel.Base.Int.{ℤ, pos, negsuc}
use control_panel.Base.Text.{Text, is_empty}
use Prim.Native.Char.{code}
use Prim.Native.Nat.{ℕ, ◌+◌, ◌-◌, ◌*◌, ◌^◌, zero, suc}
use Prim.Native.String.{String}
use mathlib.Core.Bool.{Bool, true, false, ◌&&◌, ◌||◌}
use mathlib.Core.Option.{Option, none, some}
use mathlib.Core.List.{[], ◌∷◌}

abbrev pub chars : String → Text
chars String.[] = []
chars (String.◌∷◌ c s) = code c ∷ chars s

-- The number that digits write, after those that wrote `n`.
unfoldable pub digits : ℕ → Text → Option ℕ
digits n [] = some n
digits n (c ∷ s) =
    let later = digits (n * 10 + (c - b'0')) s in if leb b'0' c && leb c b'9' then later else none

abbrev pub below : ℕ → Option ℕ → Option ℕ
below limit none = none
below limit (some n) = if ltb n limit then some n else none

-- `strconv.ParseUint(s, 10, 64)`
unfoldable pub parse_uint : Text → Option ℕ
unfolding digits
parse_uint s = if is_empty s then none else below (2 ^ 64) (digits 0 s)

abbrev pub negative : Option ℕ → Option ℤ
negative none = none
negative (some zero) = some (pos 0)
negative (some (suc n)) = some (negsuc n)

abbrev pub positive : Option ℕ → Option ℤ
positive none = none
positive (some n) = some (pos n)

-- `strconv.Atoi`
unfoldable pub atoi : Text → Option ℤ
unfolding digits
atoi [] = none
atoi (c ∷ s) =
    if nat_beq c b'-'
    then (if is_empty s then none else negative (below (2 ^ 63 + 1) (digits 0 s)))
    else if nat_beq c b'+'
    then (if is_empty s then none else positive (below (2 ^ 63) (digits 0 s)))
    else positive (below (2 ^ 63) (digits 0 (c ∷ s)))

unfoldable pub has_prefix : Text → Text → Bool
has_prefix [] s = true
has_prefix (c ∷ p) [] = false
has_prefix (c ∷ p) (d ∷ s) = nat_beq c d && has_prefix p s

-- `strings.Contains`
unfoldable pub has_text : Text → Text → Bool
unfolding has_prefix
has_text p [] = is_empty p
has_text p (d ∷ s) = has_prefix p (d ∷ s) || has_text p s
