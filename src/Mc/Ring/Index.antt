-- ===== src/Mc/Ring/Index.antt =====
-- Indices modulo the capacity, and a list read from a position.
use native.Mathlib.Nat.{mod-eq_of_lt, mod-eq-sub-mod}
use control_panel.Base.{
  ℕ, zero, suc, ◌+◌, ◌-◌, ◌%◌, ◌<◌, ◌≡◌, refl, some, List, [], ◌∷◌, if◌then◌else◌, length,
  get_elem?, drop, ltb, arith, Bool-cases, ltb→lt, inl, inr, ◌∙◌,
}

-- One turn past the end at most.
pub mod-once : (a c : ℕ) → a < c + c → a % c ≡ (if ltb a c then a else a - c)
mod-once a c h = elim (Bool-cases (ltb a c)) [
  | inl e ↦ rw e (mod-eq_of_lt (ltb→lt a c e))
  | inr e ↦ rw e (
      mod-eq-sub-mod {n = a} {m = c} (ground arith)
      ∙ mod-eq_of_lt {n = a - c} {m = c} (ground arith))
]

module _ {ℓ} {A : Type ℓ} where
  pub drop-cons :
      (k : ℕ) (xs : List A)
      → k < length xs
      → (x : A) × (get_elem? xs k ≡ some x) × (drop k xs ≡ x ∷ drop (suc k) xs)
  drop-cons k [] h = elim h [ ]
  drop-cons zero (x ∷ xs) h = (x, refl, refl)
  drop-cons (suc k) (x ∷ xs) h = drop-cons k xs (omega arith)
