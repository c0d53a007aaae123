-- ===== src/Base/Text.antt =====
-- What the code uses of Go's package strings, on lists of code points.
pub mod Lines
pub mod Numbers
use control_panel.Base.Tests.{ltb, leb, nat_beq, nat_beq_iff, if◌then◌else◌}
use control_panel.Base.Eq.{HasEq}
use Prim.Native.Nat.{ℕ}
use mathlib.Core.Path.{◌≡◌, refl, ap, subst}
use mathlib.Core.Logic.{◌↔◌}
use mathlib.Core.Bool.{Bool, true, false, not, ◌&&◌, ◌||◌}
use mathlib.Core.Option.{Option, none, some}
use mathlib.Core.List.{List, [], ◌∷◌, ◌++◌}
use native.Mathlib.Omega.{arith}

abbrev pub Text : Type 0
Text = List ℕ

abbrev pub text_test : Text → Text → Bool
text_test [] [] = true
text_test [] (d ∷ t) = false
text_test (c ∷ s) [] = false
text_test (c ∷ s) (d ∷ t) = nat_beq c d && text_test s t

text_test_same : (s : Text) → text_test s s ≡ true
text_test_same [] = refl
text_test_same (c ∷ s) = ground (arith, text_test_same s, nat_beq_iff c c)

text_test_sound : (s t : Text) → text_test s t ≡ true → s ≡ t
text_test_sound [] [] h = refl
text_test_sound [] (d ∷ t) h = cc
text_test_sound (c ∷ s) [] h = cc
text_test_sound (c ∷ s) (d ∷ t) h = ground (arith, text_test_sound s t, nat_beq_iff c d)

pub text_iff : (s t : Text) → (text_test s t ≡ true) ↔ (s ≡ t)
text_iff s t =
    (text_test_sound s t, λ same. subst (λ u. text_test s u ≡ true) same (text_test_same s))

instance abbrev pub text_eq : HasEq Text
text_eq = record { test = text_test; test_iff = text_iff }

-- `unicode.IsSpace`
unfoldable pub is_space : ℕ → Bool
is_space c =
    leb 9 c && leb c 13
    || nat_beq c 32
    || nat_beq c 133
    || nat_beq c 160
    || nat_beq c 5760
    || leb 8192 c && leb c 8202
    || nat_beq c 8232
    || nat_beq c 8233
    || nat_beq c 8239
    || nat_beq c 8287
    || nat_beq c 12288

unfoldable pub trim_left : Text → Text
unfolding is_space
trim_left [] = []
trim_left (c ∷ s) = let rest = trim_left s in if is_space c then rest else c ∷ s

abbrev pub is_empty : Text → Bool
is_empty [] = true
is_empty (c ∷ s) = false

unfoldable pub trim_right : Text → Text
unfolding is_space
trim_right [] = []
trim_right (c ∷ s) = let rest = trim_right s in if is_space c && is_empty rest then [] else c ∷ rest

-- `strings.TrimSpace`
unfoldable pub trim_space : Text → Text
unfolding trim_left trim_right
trim_space s = trim_right (trim_left s)

abbrev pub put_first : ℕ → List Text → List Text
put_first c [] = (c ∷ []) ∷ []
put_first c (l ∷ ls) = (c ∷ l) ∷ ls

-- `strings.Split` at one code point
unfoldable pub split : ℕ → Text → List Text
split sep [] = [] ∷ []
split sep (c ∷ s) =
    let parts = split sep s in if nat_beq c sep then [] ∷ parts else put_first c parts

unfoldable pub join : ℕ → List Text → Text
join sep [] = []
join sep (l ∷ []) = l
join sep (l ∷ m ∷ ls) = l ++ sep ∷ join sep (m ∷ ls)

abbrev pub put_before : ℕ → Option (Text × Text) → Option (Text × Text)
put_before c none = none
put_before c (some (before, after)) = some (c ∷ before, after)

-- `strings.Cut` at one code point; `none` where it is absent
unfoldable pub cut : ℕ → Text → Option (Text × Text)
cut sep [] = none
cut sep (c ∷ s) =
    let parts = cut sep s in if nat_beq c sep then some ([], s) else put_before c parts

unfoldable pub contains : ℕ → Text → Bool
contains sep [] = false
contains sep (c ∷ s) = nat_beq c sep || contains sep s

abbrev pub starts_with : ℕ → Text → Bool
starts_with d [] = false
starts_with d (c ∷ s) = nat_beq c d

-- The order of texts, which is also that of their bytes in UTF-8.
unfoldable pub less : Text → Text → Bool
less s [] = false
less [] (d ∷ t) = true
less (c ∷ s) (d ∷ t) = ltb c d || nat_beq c d && less s t
