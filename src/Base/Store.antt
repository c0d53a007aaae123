-- ===== src/Base/Store.antt =====
-- A store: what each pointer, a number, points to.
use Prim.Native.Nat.{ℕ}
use mathlib.Core.Path.{◌≡◌}
use mathlib.Core.Bool.{false}
use native.Mathlib.Omega.{arith}
use control_panel.Base.Tests.{nat_beq, if◌then◌else◌}

module _ {ℓ} {A : Type ℓ} where
  abbrev pub write : ℕ → A → (ℕ → A) → ℕ → A
  write p a at q = if nat_beq p q then a else at q

  pub write_self : (p : ℕ) (a : A) (at : ℕ → A) → write p a at p ≡ a
  write_self p a at = ground arith

  pub write_other : (p q : ℕ) (a : A) (at : ℕ → A) → nat_beq p q ≡ false → write p a at q ≡ at q
  write_other p q a at h = rw h
