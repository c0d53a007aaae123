-- ===== src/Mc/Properties/Entries.antt =====
-- internal/mc/properties.go: the entries of lines, and of those that UpdateProperties writes.
use control_panel.Base.{
  ℕ, ◌≡◌, refl, sym, ap, ◌∙◌, Bool, true, false, not, ◌&&◌, Option, none, some, List, [], ◌∷◌, ◌++◌,
  if◌then◌else◌, lookup, Option-cases, inl, inr, arith, ◌==◌, nat_beq,
}
use control_panel.Base.Text.{Text, text_eq, trim_space, trim_left, trim_right, is_space}
use control_panel.Base.Text.Lines.{Lacks, trim_right-append, cut-append}
use control_panel.Mc.Properties.{skipped, entry, entries, assign, trim_last}

-- What a key may begin with.
abbrev pub begins : Text → Bool
begins [] = false
begins (c ∷ s) = not (is_space c) && not (nat_beq c b'#') && not (nat_beq c b'!')

-- A key that a line of the file can hold: it begins with neither white space, `#` nor `!`, does not
-- end with white space, and has neither `=` nor a newline.
pub record IsKey (key : Text) : Type 0 where
  pub first : begins key ≡ true
  pub trimmed : trim_right key ≡ key
  pub no_equals : Lacks b'=' key
  pub no_newline : Lacks b'\n' key

-- A value that a line of the file can hold.
pub record IsValue (value : Text) : Type 0 where
  pub trimmed : trim_right value ≡ value
  pub no_newline : Lacks b'\n' value

begins_solid : (c : ℕ) (s : Text) → begins (c ∷ s) ≡ true → is_space c ≡ false
begins_solid c s h = ground arith

begins_kept : (c : ℕ) (s : Text) → begins (c ∷ s) ≡ true → skipped (c ∷ s) ≡ false
begins_kept c s h = ground arith

not_begins {ℓ} : {A : Type ℓ} → begins [] ≡ true → A
not_begins h = absurd (clash h)
  where
    clash : false ≡ true → ⊥
    clash h = cc

trim_space_solid : (c : ℕ) (s : Text) → is_space c ≡ false → trim_space (c ∷ s) ≡ trim_right (c ∷ s)
unfolding trim_space trim_left
trim_space_solid c s h = ap trim_right (ap (λ b. if b then trim_left s else c ∷ s) h)

pub trim_space_key : (key : Text) → IsKey key → trim_space key ≡ key
trim_space_key [] k = not_begins k.first
trim_space_key (c ∷ s) k = trim_space_solid c s (begins_solid c s k.first) ∙ k.trimmed

equals_solid : is_space b'=' ≡ false
unfolding is_space
equals_solid = refl

trim_space-assign :
    (key value : Text)
    → IsKey key
    → IsValue value
    → trim_space (assign key value) ≡ assign key value
trim_space-assign [] value k v = not_begins k.first
trim_space-assign (c ∷ s) value k v =
    trim_space_solid c (assign s value) (begins_solid c s k.first)
    ∙ trim_right-append (c ∷ s) b'=' value equals_solid v.trimmed

skipped-assign : (key value : Text) → IsKey key → skipped (assign key value) ≡ false
skipped-assign [] value k = not_begins k.first
skipped-assign (c ∷ s) value k = begins_kept c s k.first

-- The line that is written for a key and a value holds just these.
pub entry-assign :
    (key value : Text) → IsKey key → IsValue value → entry (assign key value) ≡ some (key, value)
unfolding entry
entry-assign key value k v = rw (
  trim_space-assign key value k v,
  skipped-assign key value k,
  cut-append b'=' key value k.no_equals,
  trim_space_key key k,
)

-- The first entry of a key in lines.
abbrev pub find : Text → List Text → Option Text
find key lines = lookup key (entries lines)

abbrev pub or_else : Option Text → Option Text → Option Text
or_else none b = b
or_else (some a) b = some a

pub find_skip : (key l : Text) (ls : List Text) → entry l ≡ none → find key (l ∷ ls) ≡ find key ls
unfolding entries
find_skip key l ls h = rw (entries, h)

pub find_hit :
    (key l j v : Text) (ls : List Text)
    → entry l ≡ some (j, v)
    → find key (l ∷ ls) ≡ (if j == key then some v else find key ls)
unfolding entries lookup
find_hit key l j v ls h = rw (entries, h)

pub find_same :
    (key l : Text) (ls ms : List Text)
    → find key ls ≡ find key ms
    → find key (l ∷ ls) ≡ find key (l ∷ ms)
find_same key l ls ms h = elim (Option-cases (entry l)) [
  | inl e ↦ find_skip key l ls e ∙ h ∙ sym (find_skip key l ms e)
  | inr ((j, v), e) ↦
      find_hit key l j v ls e
      ∙ ap (λ o. if j == key then some v else o) h
      ∙ sym (find_hit key l j v ms e)
]

or_else_if :
    (b : Bool) (v : Text) (o q : Option Text)
    → (if b then some v else or_else o q) ≡ or_else (if b then some v else o) q
or_else_if true v o q = refl
or_else_if false v o q = refl

pub find-append :
    (key : Text) (ls ms : List Text) → find key (ls ++ ms) ≡ or_else (find key ls) (find key ms)
unfolding entries lookup
find-append key [] ms = refl
find-append key (l ∷ ls) ms = elim (Option-cases (entry l)) [
  | inl e ↦
      find_skip key l (ls ++ ms) e
      ∙ find-append key ls ms
      ∙ ap (λ o. or_else o (find key ms)) (sym (find_skip key l ls e))
  | inr ((j, v), e) ↦
      find_hit key l j v (ls ++ ms) e
      ∙ ap (λ o. if j == key then some v else o) (find-append key ls ms)
      ∙ or_else_if (j == key) v (find key ls) (find key ms)
      ∙ ap (λ o. or_else o (find key ms)) (sym (find_hit key l j v ls e))
]

pub empty_line : entry [] ≡ none
unfolding entry trim_space trim_left trim_right
empty_line = refl

pub find-trim_last : (key : Text) (ls : List Text) → find key (trim_last ls) ≡ find key ls
unfolding trim_last
find-trim_last key [] = refl
find-trim_last key ([] ∷ []) = sym (find_skip key [] [] empty_line)
find-trim_last key ((c ∷ l) ∷ []) = refl
find-trim_last key ([] ∷ m ∷ ls) =
    find_same key [] (trim_last (m ∷ ls)) (m ∷ ls) (find-trim_last key (m ∷ ls))
find-trim_last key ((c ∷ l) ∷ m ∷ ls) =
    find_same key (c ∷ l) (trim_last (m ∷ ls)) (m ∷ ls) (find-trim_last key (m ∷ ls))
