-- ===== src/Prelude/Maps.antt =====
-- Functions from addresses or indices, as memories and tables, with a write at one place.
use Prim.Native.Nat.{ℕ}
use mathlib.Core.Path.{◌≡◌}
use mathlib.Core.Logic.{◌≢◌}
use native.Mathlib.Omega.{arith}
use juos.Prelude.Tests.{◌==◌, if◌then◌else◌}

abbrev pub update {ℓ} : {A : Type ℓ} → (ℕ → A) → ℕ → A → ℕ → A
update f a v b = if a == b then v else f b

module _ {ℓ} {A : Type ℓ} (f : ℕ → A) (a : ℕ) (v : A) where
  pub update_self : update f a v a ≡ v
  update_self = ground arith

  pub update_ne : (b : ℕ) → a ≢ b → update f a v b ≡ f b
  update_ne b h = ground arith
