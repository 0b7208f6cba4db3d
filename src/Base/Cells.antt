-- ===== src/Base/Cells.antt =====
-- Storage as a function from offsets to what stands there, with a write at one offset.
use Prim.Native.Nat.{ℕ}
use mathlib.Core.Path.{◌≡◌}
use mathlib.Core.Logic.{◌≢◌}
use native.Mathlib.Omega.{arith}
use sketch.Base.Tests.{◌==◌, if◌then◌else◌}

module _ {ℓ} {A : Type ℓ} where
  abbrev pub update : (ℕ → A) → ℕ → A → ℕ → A
  update f p v q = if p == q then v else f q

  pub update_self : (f : ℕ → A) (p : ℕ) (v : A) → update f p v p ≡ v
  update_self f p v = ground arith

  pub update_ne : (f : ℕ → A) (p q : ℕ) (v : A) → p ≢ q → update f p v q ≡ f q
  update_ne f p q v h = ground arith
