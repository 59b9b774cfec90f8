-- ===== src/Prelude/Words.antt =====
-- Words of the 32-bit machine: a word is a number below 2 ^ 32, and arithmetic wraps.
use Prim.Native.Nat.{ℕ, zero, suc, ◌≤◌, ◌+◌, ◌-◌, ◌*◌, ◌%◌, ◌^◌}
use native.Mathlib.Nat.{pow-suc}
use native.Mathlib.Omega.{arith}

abbrev pub u32_mod : ℕ
u32_mod = 2 ^ 32

abbrev pub wrap32 : ℕ → ℕ
wrap32 n = n % u32_mod

abbrev pub add32 : ℕ → ℕ → ℕ
add32 a b = (a + b) % u32_mod

-- For words a and b.
abbrev pub sub32 : ℕ → ℕ → ℕ
sub32 a b = (a + u32_mod - b) % u32_mod

abbrev pub mul32 : ℕ → ℕ → ℕ
mul32 a b = (a * b) % u32_mod

pub pow-le : (a b : ℕ) → a ≤ b → 2 ^ a ≤ 2 ^ b
pow-le zero zero h = omega arith
pow-le zero (suc b) h = omega (arith, pow-suc 2 b, pow-le zero b (omega arith))
pow-le (suc a) zero h = absurd (omega arith)
pow-le (suc a) (suc b) h = omega (arith, pow-suc 2 a, pow-suc 2 b, pow-le a b (omega arith))
