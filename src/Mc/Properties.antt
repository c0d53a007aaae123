-- ===== src/Mc/Properties.antt =====
-- internal/mc/properties.go: server.properties, as code points. A PropEntry is the pair of its key and
-- its value.
pub mod Entries
pub mod Update
pub mod Sorted
pub mod Writes
use control_panel.Base.{
  ℕ, Bool, true, false, ◌||◌, Option, none, some, List, [], ◌∷◌, ◌++◌, if◌then◌else◌, lookup,
  delete,
}
use control_panel.Base.Text.{
  Text, text_eq, trim_space, split, join, cut, is_empty, starts_with, less,
}

-- A line that is blank or a comment.
abbrev pub skipped : Text → Bool
skipped trimmed = is_empty trimmed || starts_with b'#' trimmed || starts_with b'!' trimmed

abbrev pub trim_key : Option (Text × Text) → Option (Text × Text)
trim_key none = none
trim_key (some (key, value)) = some (trim_space key, value)

-- The key and the value of a line, trimmed.
unfoldable pub entry : Text → Option (Text × Text)
unfolding trim_space cut
entry line =
    let trimmed = trim_space line in if skipped trimmed then none else trim_key (cut b'=' trimmed)

unfoldable pub entries : List Text → List (Text × Text)
unfolding entry
entries [] = []
entries (line ∷ lines) = elim (entry line) [ none ↦ entries lines | some e ↦ e ∷ entries lines ]

unfoldable pub parse_properties : Text → List (Text × Text)
unfolding entries split
parse_properties content = entries (split b'\n' content)

abbrev pub or_empty : Option Text → Text
or_empty none = []
or_empty (some value) = value

unfoldable pub prop_value : Text → Text → Text
unfolding parse_properties lookup
prop_value content key = or_empty (lookup key (parse_properties content))

abbrev pub assign : Text → Text → Text
assign key value = key ++ b'=' ∷ value

-- The loop over the lines: the lines, and the changes that remain.
unfoldable pub update_lines : List (Text × Text) → List Text → List Text × List (Text × Text)
unfolding entry lookup delete
update_lines remaining [] = ([], remaining)
update_lines remaining (line ∷ lines) = elim (entry line) [
  | none ↦ let (rest, left) = update_lines remaining lines in (line ∷ rest, left)
  | some (key, old) ↦ elim (lookup key remaining) [
    | none ↦ let (rest, left) = update_lines remaining lines in (line ∷ rest, left)
    | some value ↦
        let (rest, left) = update_lines (delete key remaining) lines in
        (assign key value ∷ rest, left)
  ]
]

-- The inner loop of `sortedKeys`: `key` moves down the keys before it, of which the last is first.
unfoldable pub sink : Text → List Text → List Text
unfolding less
sink key [] = key ∷ []
sink key (prev ∷ before) =
    let lower = sink key before in if less key prev then prev ∷ lower else key ∷ prev ∷ before

unfoldable pub sort_keys : List Text → List Text → List Text
unfolding sink
sort_keys sorted [] = sorted
sort_keys sorted (key ∷ keys) = sort_keys (sink key sorted) keys

unfoldable pub keys_of {ℓ} : {V : Type ℓ} → List (Text × V) → List Text
keys_of [] = []
keys_of ((key, value) ∷ m) = key ∷ keys_of m

unfoldable pub reversed : List Text → List Text → List Text
reversed done [] = done
reversed done (key ∷ keys) = reversed (key ∷ done) keys

unfoldable pub sorted_keys {ℓ} : {V : Type ℓ} → List (Text × V) → List Text
unfolding sort_keys reversed keys_of
sorted_keys m = reversed [] (sort_keys [] (keys_of m))

-- A single empty line at the end is dropped.
unfoldable pub trim_last : List Text → List Text
trim_last [] = []
trim_last ([] ∷ []) = []
trim_last ((c ∷ l) ∷ []) = (c ∷ l) ∷ []
trim_last (l ∷ m ∷ ls) = l ∷ trim_last (m ∷ ls)

unfoldable pub assign_all : List Text → List (Text × Text) → List Text
unfolding lookup
assign_all [] m = []
assign_all (key ∷ keys) m = assign key (or_empty (lookup key m)) ∷ assign_all keys m

abbrev pub append_new : List Text → List (Text × Text) → List Text
append_new lines [] = lines
append_new lines (change ∷ left) =
    trim_last lines ++ (assign_all (sorted_keys (change ∷ left)) (change ∷ left) ++ [] ∷ [])

unfoldable pub update_properties : Text → List (Text × Text) → Text
unfolding update_lines split join trim_last assign_all sorted_keys
update_properties content changes =
    let (lines, left) = update_lines changes (split b'\n' content) in
    join b'\n' (append_new lines left)
