-- ===== src/Tty.antt =====
-- kernel/arch/i386/tty.cpp: the text screen. Row, column and the index of a cell are 32-bit words;
-- the screen is a function of that index, and indices from 2000 on lie outside it.
pub mod Cursor
use Prim.Native.Nat.{bit_or}
use juos.Prelude.{
  ℕ, zero, suc, ◌+◌, ◌*◌, ◌%◌, ◌^◌, List, [], ◌∷◌, ◌==◌, ltb, ◌&&◌, Bool, if◌then◌else◌,
}
use juos.Prelude.Maps.{update}
use juos.Prelude.Words.{add32, sub32, mul32}

abbrev pub vga_width : ℕ
vga_width = 80

abbrev pub vga_height : ℕ
vga_height = 25

pub record Terminal : Type 0 where
  pub row : ℕ
  pub column : ℕ
  pub color : ℕ
  pub buffer : ℕ → ℕ

-- `fg | bg << 4`, as a byte.
unfoldable pub vga_entry_color : ℕ → ℕ → ℕ
vga_entry_color fg bg = bit_or fg (bg * 16) % 2 ^ 8

-- `uc | color << 8`, as a 16-bit word.
unfoldable pub vga_entry : ℕ → ℕ → ℕ
vga_entry uc color = bit_or uc (color * 256) % 2 ^ 16

unfoldable pub put_entry_at : ℕ → ℕ → ℕ → ℕ → (ℕ → ℕ) → ℕ → ℕ
put_entry_at c color x y buffer = update buffer (add32 (mul32 y vga_width) x) (vga_entry c color)

-- `Clean`: the loops write every cell of the screen, and no other.
unfoldable pub clean : (ℕ → ℕ) → ℕ → ℕ
clean buffer i = if ltb i 2000 then 0 else buffer i

unfoldable pub set_color : ℕ → ℕ → Terminal → Terminal
set_color fg bg t = record t { color = vga_entry_color fg bg }

-- `Initialize`: black on white blanks; white is 15, black is 0.
unfoldable pub initialize : (ℕ → ℕ) → Terminal
initialize buffer = record {
  row = 0;
  column = 0;
  color = vga_entry_color 15 0;
  buffer = λ i. if ltb i 2000 then vga_entry b' ' (vga_entry_color 15 0) else buffer i;
}

-- The switch of `Putchar`.
unfoldable pub put_raw : ℕ → Terminal → Terminal
unfolding put_entry_at
put_raw uc t =
    if uc == 10
    then record t { column = 0; row = add32 t.row 1 }
    else (if uc == 8
        then record t {
          column = sub32 t.column 1;
          buffer = put_entry_at 0 (vga_entry_color 0 0) (sub32 t.column 1) t.row t.buffer;
        }
        else record t {
          column = add32 t.column 1;
          buffer = put_entry_at uc t.color t.column t.row t.buffer;
        })

-- The two tests after it.
unfoldable pub wrap_column : Terminal → Terminal
wrap_column t = if t.column == vga_width then record t { column = 0; row = add32 t.row 1 } else t

unfoldable pub wrap_row : Terminal → Terminal
unfolding clean
wrap_row t = if t.row == vga_height then record t { row = 0; buffer = clean t.buffer } else t

unfoldable pub putchar : ℕ → Terminal → Terminal
unfolding put_raw wrap_column wrap_row
putchar c t = wrap_row (wrap_column (put_raw c t))

unfoldable pub write : List ℕ → Terminal → Terminal
unfolding putchar
write [] t = t
write (c ∷ cs) t = write cs (putchar c t)
