-- ===== src/Printf/Pieces.antt =====
-- libc/stdio/printf.cpp: printf on a format that is put together from pieces.
use juos.Prelude.{
  ℕ, ◌+◌, ◌%◌, ◌^◌, ◌≤◌, ◌<◌, ◌≡◌, ◌≢◌, refl, ap, some, List, [], ◌∷◌, ◌++◌, ◌==◌, arith, false,
}
use juos.Printf.Format.{
  Arg, word, text, Output, put, set_color, print_s, print_n, print_word, ptr_prefix, convert,
  printf_from, printf, percent, dollar, ampersand,
}
use juos.Printf.Shown.{read_text, print_n_lem}

-- The numeric conversions.
pub data Radix : Type 0 where
  decimal hexadecimal octal binary pointer : Radix

abbrev pub letter : Radix → ℕ
letter decimal = 100
letter hexadecimal = 120
letter octal = 111
letter binary = 98
letter pointer = 112

abbrev pub base_of : Radix → ℕ
base_of decimal = 10
base_of hexadecimal = 16
base_of octal = 8
base_of binary = 2
base_of pointer = 16

abbrev pub prefix_of : Radix → List Output
prefix_of pointer = print_s ptr_prefix
prefix_of decimal = []
prefix_of hexadecimal = []
prefix_of octal = []
prefix_of binary = []

-- A character of the format, a character or a text among the arguments, a number, and a colour change.
pub data Piece : Type 0 where
  literal : ℕ → Piece
  character : ℕ → Piece
  string : List ℕ → Piece
  number : Radix → ℕ → Piece
  color : ℕ → ℕ → Piece

abbrev pub format_of : List Piece → List ℕ
format_of [] = []
format_of (literal c ∷ ps) = c ∷ format_of ps
format_of (character c ∷ ps) = percent ∷ 99 ∷ format_of ps
format_of (string s ∷ ps) = percent ∷ 115 ∷ format_of ps
format_of (number radix n ∷ ps) = percent ∷ letter radix ∷ format_of ps
format_of (color fg bg ∷ ps) = dollar ∷ ampersand ∷ fg ∷ bg ∷ format_of ps

abbrev pub args_of : List Piece → List Arg
args_of [] = []
args_of (literal c ∷ ps) = args_of ps
args_of (character c ∷ ps) = word c ∷ args_of ps
args_of (string s ∷ ps) = text s ∷ args_of ps
args_of (number radix n ∷ ps) = word n ∷ args_of ps
args_of (color fg bg ∷ ps) = args_of ps

-- How many pieces are not characters of the format.
abbrev pub count_of : List Piece → ℕ
count_of [] = 0
count_of (literal c ∷ ps) = count_of ps
count_of (character c ∷ ps) = 1 + count_of ps
count_of (string s ∷ ps) = 1 + count_of ps
count_of (number radix n ∷ ps) = 1 + count_of ps
count_of (color fg bg ∷ ps) = 1 + count_of ps

-- A character of the format is neither '%' nor '$', and a number is a word.
abbrev pub IsPiece : Piece → Type 0
IsPiece (literal c) = (c ≢ 37) × (c ≢ 36)
IsPiece (character c) = Unit
IsPiece (string s) = Unit
IsPiece (number radix n) = n < 2 ^ 32
IsPiece (color fg bg) = Unit

abbrev pub ArePieces : List Piece → Type 0
ArePieces [] = Unit
ArePieces (p ∷ ps) = IsPiece p × ArePieces ps

-- The output shows the pieces in order, a number as digits that are read back as the number.
pub data Shows : List Piece → List Output → Type 0 where
  shows_none : Shows [] []
  shows_literal :
      {ps : List Piece} {out : List Output} (c : ℕ)
      → Shows ps out
      → Shows (literal c ∷ ps) (put c ∷ out)
  shows_character :
      {ps : List Piece} {out : List Output} (c : ℕ)
      → Shows ps out
      → Shows (character c ∷ ps) (put (c % 256) ∷ out)
  shows_string :
      {ps : List Piece} {out : List Output} (s : List ℕ)
      → Shows ps out
      → Shows (string s ∷ ps) (print_s s ++ out)
  shows_number :
      {ps : List Piece} {out : List Output} (radix : Radix) (n : ℕ) (digits : List ℕ)
      → read_text (base_of radix) digits 0 ≡ n
      → Shows ps out
      → Shows (number radix n ∷ ps) ((prefix_of radix ++ print_s digits) ++ out)
  shows_color :
      {ps : List Piece} {out : List Output} (fg bg : ℕ)
      → Shows ps out
      → Shows (color fg bg ∷ ps) (set_color fg bg ∷ out)

-- A number's conversion.
converted :
    (radix : Radix) (n : ℕ) (out : List Output) (args : List Arg)
    → print_n n (base_of radix) ≡ some out
    → convert (letter radix) (word n ∷ args)
      ≡ some (record { output = prefix_of radix ++ out; printed_special = 1; args = args })
unfolding convert print_word
converted decimal n out args e = rw e refl
converted hexadecimal n out args e = rw e refl
converted octal n out args e = rw e refl
converted binary n out args e = rw e refl
converted pointer n out args e = rw e refl

base-bounds : (radix : Radix) → (2 ≤ base_of radix) × (base_of radix ≤ 16)
base-bounds decimal = (omega arith, omega arith)
base-bounds hexadecimal = (omega arith, omega arith)
base-bounds octal = (omega arith, omega arith)
base-bounds binary = (omega arith, omega arith)
base-bounds pointer = (omega arith, omega arith)

-- For pieces whose characters are neither '%' nor '$' and whose numbers are words, with their
-- arguments: printf returns, prints the pieces in order, each number as digits that are read back as
-- it, and returns how many of the pieces are not characters of the format.
pub printf-Shows :
    (ps : List Piece)
    → ArePieces ps
    → (out : List Output) × (printf (format_of ps) (args_of ps) ≡ some (out, count_of ps))
      × Shows ps out
unfolding printf printf_from
printf-Shows [] all = ([], refl, shows_none)
printf-Shows (literal c ∷ ps) (ok, all) =
    let (out, e, shows) = printf-Shows ps all in
    let a : (c == 37) ≡ false = ground arith in
    let b : (c == 36) ≡ false = ground arith in
    (
      put c ∷ out,
      rw (a, b) (rw e (ap (λ k. some (put c ∷ out, k)) (omega arith))),
      shows_literal c shows,
    )
printf-Shows (character c ∷ ps) (ok, all) =
    let (out, e, shows) = printf-Shows ps all in
    (
      put (c % 256) ∷ out,
      rw e (ap (λ k. some (put (c % 256) ∷ out, k)) (omega arith)),
      shows_character c shows,
    )
printf-Shows (string s ∷ ps) (ok, all) =
    let (out, e, shows) = printf-Shows ps all in
    (
      print_s s ++ out,
      rw e (ap (λ k. some (print_s s ++ out, k)) (omega arith)),
      shows_string s shows,
    )
printf-Shows (number radix n ∷ ps) (ok, all) =
    let (out, e, shows) = printf-Shows ps all in
    let (two, max) = base-bounds radix in
    let (digits, printed, value) = print_n_lem n (base_of radix) ok two max in
    (
      (prefix_of radix ++ print_s digits) ++ out,
      rw (converted radix n (print_s digits) (args_of ps) printed)
          (rw e (ap (λ k. some ((prefix_of radix ++ print_s digits) ++ out, k)) (omega arith))),
      shows_number radix n digits value shows,
    )
printf-Shows (color fg bg ∷ ps) (ok, all) =
    let (out, e, shows) = printf-Shows ps all in
    (
      set_color fg bg ∷ out,
      rw e (ap (λ k. some (set_color fg bg ∷ out, k)) (omega arith)),
      shows_color fg bg shows,
    )
