-- ===== src/Tty/Cursor.antt =====
-- The cursor of kernel/arch/i386/tty.cpp stays on the screen, and where it does not.
use juos.Prelude.{ℕ, ◌+◌, ◌-◌, ◌*◌, ◌≤◌, ◌<◌, ◌≡◌, ◌⊎◌, ◌≢◌, inl, inr, ◌==◌, arith, Bool-cases, ◌∙◌}
use juos.Prelude.Maps.{update}
use juos.Prelude.Words.{u32_mod}
use juos.Tty.{Terminal, vga_entry, vga_entry_color, putchar}

pub record OnScreen (t : Terminal) : Type 0 where
  pub row_fits : t.row < 25
  pub column_fits : t.column < 80

-- With the cursor on the screen, any character but a backspace at the left edge keeps it there, and
-- writes no cell outside the screen.
pub putchar-OnScreen :
    (c : ℕ) (t : Terminal)
    → OnScreen t
    → (c ≢ 8) ⊎ (0 < t.column)
    → OnScreen (putchar c t) × ((i : ℕ) → 2000 ≤ i → (putchar c t).buffer i ≡ t.buffer i)
unfolding putchar
putchar-OnScreen c t on ok = (ground arith, λ i out. ground arith)

module _ (c : ℕ) (t : Terminal) (on : OnScreen t) (no_backspace : c ≢ 8) (no_newline : c ≢ 10) where
  printed_inside :
      t.column < 79
      → ((putchar c t).row ≡ t.row)
        × ((putchar c t).column ≡ t.column + 1)
        × ((i : ℕ)
            → (putchar c t).buffer i
              ≡ update t.buffer (t.row * 80 + t.column) (vga_entry c t.color) i)
  unfolding putchar
  printed_inside lt =
      let r = on.row_fits in (ground (arith, r), ground (arith, r), λ i. ground (arith, r))

  printed_at_end :
      t.column ≡ 79
      → t.row < 24
      → ((putchar c t).row ≡ t.row + 1)
        × ((putchar c t).column ≡ 0)
        × ((i : ℕ)
            → (putchar c t).buffer i
              ≡ update t.buffer (t.row * 80 + t.column) (vga_entry c t.color) i)
  unfolding putchar
  printed_at_end e lt = (ground arith, ground arith, λ i. ground arith)

  printed_last :
      t.column ≡ 79
      → t.row ≡ 24
      → ((putchar c t).row ≡ 0)
        × ((putchar c t).column ≡ 0)
        × ((i : ℕ) → i < 2000 → (putchar c t).buffer i ≡ 0)
  unfolding putchar
  printed_last e e' = (ground arith, ground arith, λ i lt. ground arith)

-- With the cursor on the screen, a character that is no newline and no backspace goes to the cell
-- under it, in the current colour, and no other cell changes; the cursor moves to the next cell in
-- reading order. Behind the last cell the screen is cleared and the cursor moves to the first one.
pub putchar_printed :
    (c : ℕ) (t : Terminal)
    → OnScreen t
    → c ≢ 8
    → c ≢ 10
    → let here = t.row * 80 + t.column in
      let u = putchar c t in
      (((here + 1 < 2000)
          × (u.row * 80 + u.column ≡ here + 1)
          × (u.buffer here ≡ vga_entry c t.color)
          × ((i : ℕ) → i ≢ here → u.buffer i ≡ t.buffer i))
        ⊎ ((here + 1 ≡ 2000)
            × (u.row ≡ 0)
            × (u.column ≡ 0)
            × ((i : ℕ) → i < 2000 → u.buffer i ≡ 0)))
putchar_printed c t on nb nl = elim (Bool-cases (t.column == 79)) [
  | inr f ↦
      let (r, k, b) = printed_inside c t on nb nl (ground arith) in
      let fits = on.row_fits in
      inl (ground arith, rw (r, k) (omega arith), b _ ∙ ground arith, λ i ne. b i ∙ ground arith)
  | inl e ↦ elim (Bool-cases (t.row == 24)) [
    | inr f ↦
        let (r, k, b) = printed_at_end c t on nb nl (ground arith) (ground arith) in
        let fits = on.row_fits in
        inl (ground arith, rw (r, k) (ground arith), b _ ∙ ground arith, λ i ne. b i ∙ ground arith)
    | inl e' ↦
        let (r, k, b) = printed_last c t on nb nl (ground arith) (ground arith) in
        inr (ground arith, r, k, b)
  ]
]

-- A backspace at the left edge of the first line writes outside the screen, at the largest index,
-- and leaves the cursor there.
pub putchar_backspace :
    (t : Terminal)
    → t.row ≡ 0
    → t.column ≡ 0
    → let u = putchar 8 t in
      (u.column ≡ u32_mod - 1)
      × (u.buffer (u32_mod - 1) ≡ vga_entry 0 (vga_entry_color 0 0))
      × ((i : ℕ) → i < u32_mod - 1 → u.buffer i ≡ t.buffer i)
unfolding putchar
putchar_backspace t r c = (ground arith, ground arith, λ i lt. ground arith)
