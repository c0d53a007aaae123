-- ===== src/Mc/Properties/Writes.antt =====
-- internal/mc/properties.go: the effect of UpdateProperties on what PropValue reads.
use mathlib.Core.Path.{subst}
use control_panel.Base.{
  ◌≡◌, refl, sym, ap, ◌∙◌, true, false, Option, none, some, List, [], ◌∷◌, ◌++◌, lookup, delete,
  Option-cases, inl, inr, arith, if◌then◌else◌, All, All-append,
}
use control_panel.Base.Text.{Text, text_eq, contains, split, join}
use control_panel.Base.Text.Lines.{Lacks, contains-append, split-Lacks, split-join}
use control_panel.Mc.Properties.{
  entry, entries, assign, or_empty, assign_all, trim_last, sorted_keys, update_lines, append_new,
  parse_properties, prop_value, update_properties,
}
use control_panel.Mc.Properties.Entries.{
  IsKey, IsValue, find, find_skip, find-append, find-trim_last, or_else, empty_line,
}
use control_panel.Mc.Properties.Update.{
  Writable, delete-Writable, revise, left_over, update_lines-Updated, update_skip, update_keep,
  update_set,
}
use control_panel.Mc.Properties.Sorted.{
  is_some, listed-sorted_keys, Assignable, later-Assignable, first-Assignable, find-assign_all,
}

abbrev AllLines : List Text → Type 0
AllLines = All (Lacks b'\n')

assign-Lacks : (key value : Text) → IsKey key → IsValue value → Lacks b'\n' (assign key value)
unfolding contains
assign-Lacks key value k v =
    contains-append b'\n' key (b'=' ∷ value) ∙ ground (arith, k.no_newline, v.no_newline)

trim_last-AllLines : (ls : List Text) → AllLines ls → AllLines (trim_last ls)
unfolding trim_last
trim_last-AllLines [] a = a
trim_last-AllLines ([] ∷ []) a = tt
trim_last-AllLines ((c ∷ l) ∷ []) a = a
trim_last-AllLines ([] ∷ m ∷ ls) a = (a.0, trim_last-AllLines (m ∷ ls) a.1)
trim_last-AllLines ((c ∷ l) ∷ m ∷ ls) a = (a.0, trim_last-AllLines (m ∷ ls) a.1)

assign_all-AllLines :
    (keys : List Text) (m : List (Text × Text)) → Assignable keys m → AllLines (assign_all keys m)
unfolding assign_all
assign_all-AllLines [] m have = tt
assign_all-AllLines (j ∷ keys) m have =
    let (v, e, k, w) = first-Assignable j keys m have in
    (
      ap (λ o. contains b'\n' (assign j (or_empty o))) e ∙ assign-Lacks j v k w,
      assign_all-AllLines keys m (later-Assignable j keys m have),
    )

update_lines-AllLines :
    (m : List (Text × Text)) (ls : List Text)
    → Writable m
    → AllLines ls
    → AllLines (update_lines m ls).0
unfolding update_lines
update_lines-AllLines m [] w a = tt
update_lines-AllLines m (l ∷ ls) w a = elim (Option-cases (entry l)) [
  | inl e ↦
      subst AllLines (ap (λ r. r.0) (sym (update_skip m l ls e)))
        (a.0, update_lines-AllLines m ls w a.1)
  | inr ((j, old), e) ↦ elim (Option-cases (lookup j m)) [
    | inl absent ↦
        subst AllLines (ap (λ r. r.0) (sym (update_keep m l j old ls e absent)))
          (a.0, update_lines-AllLines m ls w a.1)
    | inr (v, change) ↦ subst AllLines (ap (λ r. r.0) (sym (update_set m l j old v ls e change))) (
      assign-Lacks j v (w j v change).0 (w j v change).1,
      update_lines-AllLines (delete j m) ls (delete-Writable j m w) a.1,
    )
  ]
]

left_over-some :
    (change old : Option Text) (v : Text) → left_over change old ≡ some v → change ≡ some v
left_over-some change none v h = h
left_over-some change (some a) v h = cc

left-Writable :
    (m : List (Text × Text)) (ls : List Text) → Writable m → Writable (update_lines m ls).1
left-Writable m ls w key v h = w key v (
    ground (
      arith,
      (update_lines-Updated key m ls w).left,
      h,
      left_over-some (lookup key m) (find key ls) v,
    ))

sorted-Assignable : (m : List (Text × Text)) → Writable m → Assignable (sorted_keys m) m
sorted-Assignable m w j h = elim (Option-cases (lookup j m)) [
  | inl absent ↦ absurd (clash (sym h ∙ listed-sorted_keys j m ∙ ap is_some absent))
  | inr (v, e) ↦ (v, e, (w j v e).0, (w j v e).1)
]
  where
    clash : true ≡ false → ⊥
    clash h = cc

find_joined :
    (key : Text) (ls : List Text)
    → AllLines ls
    → find key (split b'\n' (join b'\n' ls)) ≡ find key ls
unfolding split join
find_joined key [] a = find_skip key [] [] empty_line
find_joined key (l ∷ ls) a = ap (find key) (split-join b'\n' l ls a)

if_some : (o : Option Text) → (if is_some o then o else none) ≡ o
if_some none = refl
if_some (some v) = refl

find_assigned :
    (key : Text) (m : List (Text × Text))
    → Writable m
    → find key (assign_all (sorted_keys m) m ++ [] ∷ []) ≡ lookup key m
unfolding lookup entries
find_assigned key m w =
    find-append key (assign_all (sorted_keys m) m) ([] ∷ [])
    ∙ ap (or_else (find key (assign_all (sorted_keys m) m))) (find_skip key [] [] empty_line)
    ∙ or_else_none (find key (assign_all (sorted_keys m) m))
    ∙ find-assign_all key (sorted_keys m) m (sorted-Assignable m w)
    ∙ ap (λ b. if b then lookup key m else none) (listed-sorted_keys key m)
    ∙ if_some (lookup key m)
  where
    or_else_none : (o : Option Text) → or_else o (find key []) ≡ o
    or_else_none none = refl
    or_else_none (some v) = refl

find-append_new :
    (key : Text) (ls : List Text) (left : List (Text × Text))
    → Writable left
    → find key (append_new ls left) ≡ or_else (find key ls) (lookup key left)
unfolding lookup
find-append_new key ls [] w = or_else_none (find key ls)
  where
    or_else_none : (o : Option Text) → o ≡ or_else o none
    or_else_none none = refl
    or_else_none (some v) = refl
find-append_new key ls (change ∷ left) w =
    let m = change ∷ left in
    find-append key (trim_last ls) (assign_all (sorted_keys m) m ++ [] ∷ [])
    ∙ ap (λ o. or_else o (find key (assign_all (sorted_keys m) m ++ [] ∷ [])))
        (find-trim_last key ls)
    ∙ ap (or_else (find key ls)) (find_assigned key m w)

empty-Lacks : Lacks b'\n' []
unfolding contains
empty-Lacks = refl

append_new-AllLines :
    (ls : List Text) (left : List (Text × Text))
    → Writable left
    → AllLines ls
    → AllLines (append_new ls left)
append_new-AllLines ls [] w a = a
append_new-AllLines ls (change ∷ left) w a =
    let m = change ∷ left in
    All-append (Lacks b'\n') (trim_last ls) (assign_all (sorted_keys m) m ++ [] ∷ [])
      (trim_last-AllLines ls a)
      (All-append (Lacks b'\n') (assign_all (sorted_keys m) m) ([] ∷ [])
        (assign_all-AllLines (sorted_keys m) m (sorted-Assignable m w)) (empty-Lacks, tt))

-- Changes whose keys and values a line can hold are what is then read for their keys, and every other
-- key reads as before, whatever the content: a key begins with neither white space, `#` nor `!`, ends
-- with no white space, and has neither `=` nor a newline; a value ends with no white space and has no
-- newline.
pub prop_value-update_properties :
    (content : Text) (changes : List (Text × Text)) (key : Text)
    → Writable changes
    → prop_value (update_properties content changes) key
      ≡ elim (lookup key changes) [ none ↦ prop_value content key | some value ↦ value ]
unfolding prop_value parse_properties update_properties
prop_value-update_properties content changes key w =
    let ls = split b'\n' content in
    let (lines, left) = update_lines changes ls in
    let w1 = left-Writable changes ls w in
    let u = update_lines-Updated key changes ls w in
    ap or_empty (
      find_joined key (append_new lines left) (
        append_new-AllLines lines left w1
          (update_lines-AllLines changes ls w (split-Lacks b'\n' content)))
      ∙ find-append_new key lines left w1
      ∙ ap (λ o. or_else o (lookup key left)) u.found
      ∙ ap (or_else (revise (lookup key changes) (find key ls))) u.left)
    ∙ merged (lookup key changes) (find key ls)
  where
    merged :
        (change old : Option Text)
        → or_empty (or_else (revise change old) (left_over change old))
          ≡ elim change [ none ↦ or_empty old | some value ↦ value ]
    merged none none = refl
    merged none (some old) = refl
    merged (some v) none = refl
    merged (some v) (some old) = refl
