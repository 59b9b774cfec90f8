-- ===== src/StaticStack/Order.antt =====
-- When libstdcxx/static_stack.hpp accepts an element, and what comes out again.
use juos.Prelude.{ℕ, ◌+◌, ◌^◌, ◌≤◌, ◌<◌, ◌≡◌, true, false, arith}
use juos.Prelude.Words.{u32_mod}
use juos.StaticStack.{StaticStack, new_stack, push, pop, peek, is_empty}

module _ {ℓ} {A : Type ℓ} (max_size : ℕ) (blank : A) where
  -- A stack on which nothing was pushed takes no element, whatever its size: `m_top` is then the
  -- largest word. It stays empty, and a pop returns the default element.
  pub push-new_stack :
      (arr : ℕ → A) (size : ℕ) (item : A)
      → 0 < max_size
      → max_size < u32_mod
      → let s = new_stack max_size blank arr size in
        (push max_size blank item s ≡ (false, s)) × (pop max_size blank s ≡ (blank, s))
  unfolding push pop new_stack is_empty
  push-new_stack arr size item pos fits = (ground arith, ground arith)

  -- A stack that holds an element and is not full takes one more: it can be read, it is the next
  -- one popped, and then the size and the top are those of before, as is every element up to it.
  pub pop-push :
      (item : A) (s : StaticStack A)
      → max_size < 2 ^ 31
      → s.m_top + 1 < max_size
      → s.m_size < u32_mod
      → let (pushed, t) = push max_size blank item s in
        let (popped, u) = pop max_size blank t in
        (pushed ≡ true)
        × (peek max_size blank t ≡ item)
        × (popped ≡ item)
        × (u.m_top ≡ s.m_top)
        × (u.m_size ≡ s.m_size)
        × ((i : ℕ) → i ≤ s.m_top → u.arr i ≡ s.arr i)
  unfolding push pop peek is_empty
  pop-push item s small room fits =
      (ground arith, ground arith, ground arith, ground arith, ground arith, λ i le. ground arith)
