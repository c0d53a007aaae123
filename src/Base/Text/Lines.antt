-- ===== src/Base/Text/Lines.antt =====
-- Laws of the operations on texts.
use control_panel.Base.Tests.{Bool-cases, nat_beq, nat_beq_iff}
use control_panel.Base.Lists.{All}
use control_panel.Base.Text.{
  Text, split, join, cut, contains, put_first, trim_right, is_space, is_empty,
}
use Prim.Native.Nat.{ℕ}
use mathlib.Core.Path.{◌≡◌, refl, ap, ◌∙◌}
use mathlib.Core.Logic.{inl, inr}
use mathlib.Core.Bool.{false, ◌&&◌, ◌||◌}
use mathlib.Core.Option.{some}
use mathlib.Core.List.{List, [], ◌∷◌, ◌++◌}
use native.Mathlib.Omega.{arith}

abbrev pub Lacks : ℕ → Text → Type 0
Lacks sep s = contains sep s ≡ false

pub contains-append :
    (sep : ℕ) (s t : Text) → contains sep (s ++ t) ≡ (contains sep s || contains sep t)
unfolding contains
contains-append sep [] t = refl
contains-append sep (c ∷ s) t = ground (arith, contains-append sep s t)

put_first-Lacks :
    (sep c : ℕ) (ls : List Text)
    → nat_beq c sep ≡ false
    → All (Lacks sep) ls
    → All (Lacks sep) (put_first c ls)
unfolding contains
put_first-Lacks sep c [] h a = (rw h, tt)
put_first-Lacks sep c (l ∷ ls) h a = (rw (h, a.0), a.1)

pub split-Lacks : (sep : ℕ) (s : Text) → All (Lacks sep) (split sep s)
unfolding split contains
split-Lacks sep [] = (refl, tt)
split-Lacks sep (c ∷ s) = elim (Bool-cases (nat_beq c sep)) [
  | inl same ↦ rw same (refl, split-Lacks sep s)
  | inr other ↦ rw other (put_first-Lacks sep c (split sep s) other (split-Lacks sep s))
]

split_line : (sep : ℕ) (l : Text) → Lacks sep l → split sep l ≡ l ∷ []
unfolding split contains
split_line sep [] h = refl
split_line sep (c ∷ l) h = ground (arith, split_line sep l)

split-append : (sep : ℕ) (l s : Text) → Lacks sep l → split sep (l ++ sep ∷ s) ≡ l ∷ split sep s
unfolding split contains
split-append sep [] s h = ground (arith, nat_beq_iff sep sep)
split-append sep (c ∷ l) s h = ground (arith, split-append sep l s)

-- Lines without the separator, joined, are split into the same lines.
pub split-join :
    (sep : ℕ) (l : Text) (ls : List Text)
    → All (Lacks sep) (l ∷ ls)
    → split sep (join sep (l ∷ ls)) ≡ l ∷ ls
unfolding join
split-join sep l [] a = split_line sep l a.0
split-join sep l (m ∷ ls) a =
    split-append sep l (join sep (m ∷ ls)) a.0 ∙ ap (λ rest. l ∷ rest) (split-join sep m ls a.1)

pub cut-append : (sep : ℕ) (s t : Text) → Lacks sep s → cut sep (s ++ sep ∷ t) ≡ some (s, t)
unfolding cut contains
cut-append sep [] t h = ground (arith, nat_beq_iff sep sep)
cut-append sep (c ∷ s) t h = ground (arith, cut-append sep s t)

pub trim_right-append :
    (s : Text) (c : ℕ) (t : Text)
    → is_space c ≡ false
    → trim_right t ≡ t
    → trim_right (s ++ c ∷ t) ≡ s ++ c ∷ t
unfolding trim_right
trim_right-append [] c t h e = rw (h, e)
trim_right-append (d ∷ s) c t h e = rw (trim_right-append s c t h e, filled d s)
  where
    filled : (d : ℕ) (s : Text) → (is_space d && is_empty (s ++ c ∷ t)) ≡ false
    filled d [] = ground arith
    filled d (b ∷ s) = ground arith
