-- ===== src/StaticStack.antt =====
-- libstdcxx/static_stack.hpp: a stack in an array of `Size` elements. `m_top` and `m_size`
-- are kept as 32-bit words: -1 is `u32_mod - 1`, and a word from `2 ^ 31` on is negative.
pub mod Order
use juos.Prelude.{ℕ, ◌+◌, ◌-◌, ◌*◌, ◌%◌, ◌^◌, ◌≡◌, Bool, true, false, leb, if◌then◌else◌}
use juos.Prelude.Maps.{update}
use juos.Prelude.Words.{add32, sub32, u32_mod}

pub record StaticStack {ℓ} (A : Type ℓ) : Type ℓ where
  pub arr : ℕ → A
  pub m_size : ℕ
  pub m_top : ℕ

module _ {ℓ} {A : Type ℓ} (max_size : ℕ) (blank : A) where
  -- The constructor: `m_size` and the array keep what was there.
  unfoldable pub new_stack : (ℕ → A) → ℕ → StaticStack A
  new_stack arr size = record { arr = arr; m_size = size; m_top = u32_mod - 1 }

  -- `m_top >= (Size - 1)` compares as unsigned, since `Size` is unsigned.
  unfoldable pub push : A → StaticStack A → Bool × StaticStack A
  push item s = if leb (sub32 max_size 1) s.m_top then (false, s) else (
    true,
    record s {
      arr = update s.arr (add32 s.m_top 1) item;
      m_size = add32 s.m_size 1;
      m_top = add32 s.m_top 1;
    },
  )

  unfoldable pub is_empty : StaticStack A → Bool
  is_empty s = leb (2 ^ 31) s.m_top

  unfoldable pub pop : StaticStack A → A × StaticStack A
  unfolding is_empty
  pop s =
      if is_empty s
      then (blank, s)
      else (s.arr s.m_top, record s { m_size = sub32 s.m_size 1; m_top = sub32 s.m_top 1 })

  unfoldable pub peek : StaticStack A → A
  unfolding is_empty
  peek s = if is_empty s then blank else s.arr s.m_top
