-- ===== src/Mc/Properties/Update.antt =====
-- internal/mc/properties.go: what UpdateProperties changes of what PropValue reads.
use mathlib.Core.Path.{subst}
use control_panel.Base.{
  ◌⊎◌, ◌≡◌, refl, sym, ap, ◌∙◌, Option, none, some, List, [], ◌∷◌, if◌then◌else◌, lookup, delete,
  Bool-cases, Option-cases, inl, inr, arith, ◌==◌, lookup-delete,
}
use control_panel.Base.Text.{Text, text_eq, text_iff}
use control_panel.Mc.Properties.{entry, entries, assign, update_lines}
use control_panel.Mc.Properties.Entries.{IsKey, IsValue, find, find_skip, find_hit, entry-assign}

-- Changes whose keys and values lines can hold.
abbrev pub Writable : List (Text × Text) → Type 0
Writable changes = (key value : Text) → lookup key changes ≡ some value → IsKey key × IsValue value

pub delete-Writable : (key : Text) (m : List (Text × Text)) → Writable m → Writable (delete key m)
delete-Writable key m w k v h = w k v (ground (arith, text_iff key k, lookup-delete key k m, h))

-- What a line's value becomes, given the change of its key if any.
abbrev pub revise : Option Text → Option Text → Option Text
revise none old = old
revise (some v) none = none
revise (some v) (some old) = some v

-- The change that is left, given the value of a line if any.
abbrev pub left_over : Option Text → Option Text → Option Text
left_over change none = change
left_over change (some old) = none

pub record Updated (key : Text) (m : List (Text × Text)) (lines : List Text)
    (r : List Text × List (Text × Text)) : Type 0 where
  pub found : find key r.0 ≡ revise (lookup key m) (find key lines)
  pub left : lookup key r.1 ≡ left_over (lookup key m) (find key lines)

pub update_skip :
    (m : List (Text × Text)) (l : Text) (ls : List Text)
    → entry l ≡ none
    → update_lines m (l ∷ ls) ≡ (l ∷ (update_lines m ls).0, (update_lines m ls).1)
unfolding update_lines
update_skip m l ls h = rw (update_lines, h)

pub update_keep :
    (m : List (Text × Text)) (l j old : Text) (ls : List Text)
    → entry l ≡ some (j, old)
    → lookup j m ≡ none
    → update_lines m (l ∷ ls) ≡ (l ∷ (update_lines m ls).0, (update_lines m ls).1)
unfolding update_lines
update_keep m l j old ls h none_for = rw (update_lines, h, none_for)

pub update_set :
    (m : List (Text × Text)) (l j old v : Text) (ls : List Text)
    → entry l ≡ some (j, old)
    → lookup j m ≡ some v
    → update_lines m (l ∷ ls)
      ≡ (assign j v ∷ (update_lines (delete j m) ls).0, (update_lines (delete j m) ls).1)
unfolding update_lines
update_set m l j old v ls h change = rw (update_lines, h, change)

-- A line that is kept.
kept-Updated :
    (key : Text) (m : List (Text × Text)) (l : Text) (ls : List Text)
    → entry l ≡ none ⊎ ((j : Text) × (old : Text) × (entry l ≡ some (j, old)) × (lookup j m ≡ none))
    → Updated key m ls (update_lines m ls)
    → Updated key m (l ∷ ls) (l ∷ (update_lines m ls).0, (update_lines m ls).1)
kept-Updated key m l ls (inl e) u = record {
  found = find_skip key l _ e ∙ u.found ∙ ap (revise (lookup key m)) (sym (find_skip key l ls e));
  left = u.left ∙ ap (left_over (lookup key m)) (sym (find_skip key l ls e));
}
kept-Updated key m l ls (inr (j, old, e, absent)) u = elim (Bool-cases (j == key)) [
  | inl same ↦
      let gone : lookup key m ≡ none = ground (arith, text_iff j key, same, absent) in
      record {
        found = ground (
          arith,
          same,
          gone,
          find_hit key l j old ls e,
          find_hit key l j old (update_lines m ls).0 e,
        );
        left = ground (arith, same, gone, u.left, find_hit key l j old ls e);
      }
  | inr other ↦ record {
    found = ground (
      arith,
      other,
      u.found,
      find_hit key l j old ls e,
      find_hit key l j old (update_lines m ls).0 e,
    );
    left = ground (arith, other, u.left, find_hit key l j old ls e);
  }
]

set-Updated :
    (key : Text) (m : List (Text × Text)) (l j old v : Text) (ls : List Text)
    → entry l ≡ some (j, old)
    → lookup j m ≡ some v
    → IsKey j × IsValue v
    → Updated key (delete j m) ls (update_lines (delete j m) ls)
    → Updated key m
        (l ∷ ls)
        (assign j v ∷ (update_lines (delete j m) ls).0, (update_lines (delete j m) ls).1)
set-Updated key m l j old v ls e change good u = elim (Bool-cases (j == key)) [
  | inl same ↦
      let here : lookup key m ≡ some v = ground (arith, text_iff j key, same, change) in
      record {
        found = ground (arith, same, here, find_hit key l j old ls e, written);
        left = ground (arith, same, here, u.left, find_hit key l j old ls e, lookup-delete j key m);
      }
  | inr other ↦ record {
    found =
        ground (arith, other, u.found, find_hit key l j old ls e, written, lookup-delete j key m);
    left = ground (arith, other, u.left, find_hit key l j old ls e, lookup-delete j key m);
  }
]
  where
    written :
        find key (assign j v ∷ (update_lines (delete j m) ls).0)
        ≡ (if j == key then some v else find key (update_lines (delete j m) ls).0)
    written =
        find_hit key (assign j v) j v (update_lines (delete j m) ls).0
          (entry-assign j v good.0 good.1)

revise-none : (change : Option Text) → revise change none ≡ none
revise-none none = refl
revise-none (some v) = refl

pub update_lines-Updated :
    (key : Text) (m : List (Text × Text)) (lines : List Text)
    → Writable m
    → Updated key m lines (update_lines m lines)
unfolding update_lines entries lookup
update_lines-Updated key m [] w = record { found = sym (revise-none (lookup key m)); left = refl }
update_lines-Updated key m (l ∷ ls) w = elim (Option-cases (entry l)) [
  | inl e ↦
      subst (Updated key m (l ∷ ls)) (sym (update_skip m l ls e))
        (kept-Updated key m l ls (inl e) (update_lines-Updated key m ls w))
  | inr ((j, old), e) ↦ elim (Option-cases (lookup j m)) [
    | inl absent ↦
        subst (Updated key m (l ∷ ls)) (sym (update_keep m l j old ls e absent))
          (kept-Updated key m l ls (inr (j, old, e, absent)) (update_lines-Updated key m ls w))
    | inr (v, change) ↦ subst (Updated key m (l ∷ ls)) (sym (update_set m l j old v ls e change)) (
        set-Updated key m l j old v ls e change (w j v change)
          (update_lines-Updated key (delete j m) ls (delete-Writable j m w)))
  ]
]
