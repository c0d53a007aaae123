-- ===== src/Base/Assoc.antt =====
-- A Go map as an association list, read at the first entry of a key.
use Prim.Native.Nat.{◌+◌, ◌≤◌}
use mathlib.Core.Path.{◌≡◌, refl}
use mathlib.Core.Logic.{◌≢◌}
use mathlib.Core.Bool.{Bool, true, false}
use mathlib.Core.Option.{Option, none, some}
use mathlib.Core.List.{List, [], ◌∷◌}
use native.Mathlib.Omega.{arith}
use control_panel.Base.Tests.{if◌then◌else◌}
use control_panel.Base.Lists.{length, keep}
use control_panel.Base.Eq.{HasEq, ◌==◌}

module _ {ℓ} {K : Type ℓ} ⦃e : HasEq K⦄ where
  pub beq_refl : (k : K) → (k == k) ≡ true
  beq_refl k = (e.test_iff k k).1 refl

  pub beq_ne : (k j : K) → k ≢ j → (k == j) ≡ false
  beq_ne k j h = ground (arith, e.test_iff k j)

module _ {ℓ κ} {K : Type ℓ} {V : Type κ} ⦃e : HasEq K⦄ where
  -- `v, ok := m[k]`
  unfoldable pub lookup : K → List (K × V) → Option V
  lookup key [] = none
  lookup key ((k, v) ∷ rest) = let later = lookup key rest in if k == key then some v else later

  -- `delete(m, k)`
  unfoldable pub delete : K → List (K × V) → List (K × V)
  delete key [] = []
  delete key ((k, v) ∷ rest) =
      let kept = delete key rest in if k == key then kept else (k, v) ∷ kept

  -- `m[k] = v`
  unfoldable pub insert : K → V → List (K × V) → List (K × V)
  insert key v [] = (key, v) ∷ []
  insert key v ((k, old) ∷ rest) =
      let put = insert key v rest in if k == key then (key, v) ∷ rest else (k, old) ∷ put

  pub lookup-delete :
      (key k : K) (m : List (K × V))
      → lookup k (delete key m) ≡ (if key == k then none else lookup k m)
  unfolding lookup delete
  lookup-delete key k [] = ground arith
  lookup-delete key k ((i, w) ∷ m) =
      ground (arith, e.test_iff key k, e.test_iff i key, e.test_iff i k, lookup-delete key k m)

  pub lookup-insert :
      (key k : K) (v : V) (m : List (K × V))
      → lookup k (insert key v m) ≡ (if key == k then some v else lookup k m)
  unfolding lookup insert
  lookup-insert key k v [] = refl
  lookup-insert key k v ((i, w) ∷ m) =
      ground (arith, e.test_iff key k, e.test_iff i key, e.test_iff i k, lookup-insert key k v m)

  pub length-delete-le : (k : K) (m : List (K × V)) → length (delete k m) ≤ length m
  unfolding delete
  length-delete-le k [] = omega arith
  length-delete-le k ((i, w) ∷ m) = ground (arith, length-delete-le k m)

  pub length-insert-le : (k : K) (v : V) (m : List (K × V)) → length (insert k v m) ≤ length m + 1
  unfolding insert
  length-insert-le k v [] = omega arith
  length-insert-le k v ((i, w) ∷ m) = ground (arith, length-insert-le k v m)

  pub length-insert_new :
      (k : K) (v : V) (m : List (K × V)) → lookup k m ≡ none → length (insert k v m) ≡ length m + 1
  unfolding lookup insert
  length-insert_new k v [] h = omega arith
  length-insert_new k v ((i, w) ∷ m) h = ground (arith, length-insert_new k v m)

module _ {ℓ κ} {K : Type ℓ} {V : Type κ} ⦃e : HasEq K⦄ where
  -- Each key has one entry.
  abbrev pub Distinct : List (K × V) → Type κ
  Distinct [] = Unit
  Distinct ((k, v) ∷ m) = (lookup k m ≡ none) × Distinct m

  pub Distinct-insert : (k : K) (v : V) (m : List (K × V)) → Distinct m → Distinct (insert k v m)
  unfolding insert lookup
  Distinct-insert k v [] d = (refl, tt)
  Distinct-insert k v ((j, w) ∷ m) d =
      ground
        (arith, e.test_iff j k, Distinct-insert k v m d.1, lookup-insert k j v m, e.test_iff k j)

  pub Distinct-delete : (k : K) (m : List (K × V)) → Distinct m → Distinct (delete k m)
  unfolding delete
  Distinct-delete k [] d = tt
  Distinct-delete k ((j, w) ∷ m) d = ground (arith, Distinct-delete k m d.1, lookup-delete k j m)

  pub lookup-keep_none :
      (p : K × V → Bool) (k : K) (m : List (K × V)) → lookup k m ≡ none → lookup k (keep p m) ≡ none
  unfolding lookup
  lookup-keep_none p k [] h = refl
  lookup-keep_none p k ((j, w) ∷ m) h = ground (arith, lookup-keep_none p k m)

  pub Distinct-keep : (p : K × V → Bool) (m : List (K × V)) → Distinct m → Distinct (keep p m)
  Distinct-keep p [] d = tt
  Distinct-keep p ((j, w) ∷ m) d = ground (arith, Distinct-keep p m d.1, lookup-keep_none p j m d.0)

  pub lookup-keep :
      (p : K × V → Bool) (k : K) (m : List (K × V))
      → Distinct m
      → lookup k (keep p m)
        ≡ elim (lookup k m) [ none ↦ none | some v ↦ if p (k, v) then some v else none ]
  unfolding lookup
  lookup-keep p k [] d = refl
  lookup-keep p k ((j, w) ∷ m) d =
      ground (arith, e.test_iff j k, lookup-keep p k m d.1, lookup-keep_none p j m d.0)
