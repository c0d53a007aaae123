-- ===== src/Mc/Properties/Sorted.antt =====
-- internal/mc/properties.go: the keys that sortedKeys gives are those of the map, in order.
use control_panel.Base.{
  ◌≡◌, refl, ap, ◌∙◌, Bool, true, false, ◌||◌, Option, none, some, List, [], ◌∷◌, lookup, arith,
  ◌==◌, if◌then◌else◌,
}
use control_panel.Base.Text.{Text, text_eq, text_iff}
use control_panel.Mc.Properties.{
  entry, entries, assign, or_empty, assign_all, sink, sort_keys, keys_of, reversed, sorted_keys,
}
use control_panel.Mc.Properties.Entries.{IsKey, IsValue, find, find_hit, entry-assign}

unfoldable pub listed : Text → List Text → Bool
listed key [] = false
listed key (j ∷ js) = j == key || listed key js

listed-sink : (key j : Text) (js : List Text) → listed key (sink j js) ≡ (j == key || listed key js)
unfolding listed sink
listed-sink key j [] = refl
listed-sink key j (i ∷ is) = ground (arith, listed-sink key j is)

listed-sort_keys :
    (key : Text) (done js : List Text)
    → listed key (sort_keys done js) ≡ (listed key done || listed key js)
unfolding listed sort_keys
listed-sort_keys key done [] = ground arith
listed-sort_keys key done (j ∷ js) =
    ground (arith, listed-sort_keys key (sink j done) js, listed-sink key j done)

listed-reversed :
    (key : Text) (done js : List Text)
    → listed key (reversed done js) ≡ (listed key done || listed key js)
unfolding listed reversed
listed-reversed key done [] = ground arith
listed-reversed key done (j ∷ js) = ground (arith, listed-reversed key (j ∷ done) js)

abbrev pub is_some {ℓ} : {A : Type ℓ} → Option A → Bool
is_some none = false
is_some (some a) = true

listed-keys_of :
    (key : Text) (m : List (Text × Text)) → listed key (keys_of m) ≡ is_some (lookup key m)
unfolding listed keys_of lookup
listed-keys_of key [] = refl
listed-keys_of key ((j, v) ∷ m) = ground (arith, listed-keys_of key m)

pub listed-sorted_keys :
    (key : Text) (m : List (Text × Text)) → listed key (sorted_keys m) ≡ is_some (lookup key m)
unfolding sorted_keys listed
listed-sorted_keys key m =
    listed-reversed key [] (sort_keys [] (keys_of m))
    ∙ listed-sort_keys key [] (keys_of m)
    ∙ listed-keys_of key m

listed_first : (j : Text) (keys : List Text) → listed j (j ∷ keys) ≡ true
unfolding listed
listed_first j keys = ground (arith, text_iff j j)

-- What `assign_all` needs: every key has a value in the map, and a line can hold both.
abbrev pub Assignable : List Text → List (Text × Text) → Type 0
Assignable keys m =
    (j : Text) → listed j keys ≡ true → (v : Text) × (lookup j m ≡ some v) × IsKey j × IsValue v

pub later-Assignable :
    (j : Text) (keys : List Text) (m : List (Text × Text))
    → Assignable (j ∷ keys) m
    → Assignable keys m
unfolding listed
later-Assignable j keys m have i h = have i (ground (arith, h))

pub first-Assignable :
    (j : Text) (keys : List Text) (m : List (Text × Text))
    → Assignable (j ∷ keys) m
    → (v : Text) × (lookup j m ≡ some v) × IsKey j × IsValue v
first-Assignable j keys m have = have j (listed_first j keys)

pub find-assign_all :
    (key : Text) (keys : List Text) (m : List (Text × Text))
    → Assignable keys m
    → find key (assign_all keys m) ≡ (if listed key keys then lookup key m else none)
unfolding listed assign_all entries lookup
find-assign_all key [] m have = refl
find-assign_all key (j ∷ keys) m have =
    let (v, e, k, w) = first-Assignable j keys m have in
    ground (
      arith,
      text_iff j key,
      find-assign_all key keys m (later-Assignable j keys m have),
      find_hit key (assign j (or_empty (lookup j m))) j v (assign_all keys m)
          (ap (λ o. entry (assign j (or_empty o))) e ∙ entry-assign j v k w),
      e,
    )
