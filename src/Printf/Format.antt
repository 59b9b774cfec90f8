-- ===== src/Printf/Format.antt =====
-- libc/stdio/printf.cpp and puts.cpp: `print_s`, `print_n` and the loop of printf in the kernel's library. The
-- format is the list of its characters, an argument a word or the text that it leads to. The loop looks
-- at one character at a time, so what the source reads ahead is a mode here. `none` is an argument
-- that is missing or of the other kind, or a read behind the end of the format.
use juos.Prelude.{
  ℕ, zero, suc, ◌+◌, ◌%◌, true, false, Option, none, some, List, [], ◌∷◌, ◌++◌, ◌==◌, if◌then◌else◌,
  map,
}
use juos.Prelude.Options.{◌>>=◌}
use juos.Cstring.{strlen}
use juos.Printf.{convert_to_base}

pub data Arg : Type 0 where
  word : ℕ → Arg
  text : List ℕ → Arg

-- A `putchar`, or a `Tty::SetColor`.
pub data Output : Type 0 where
  put : ℕ → Output
  set_color : ℕ → ℕ → Output

abbrev pub percent : ℕ
percent = 37

abbrev pub dollar : ℕ
dollar = 36

abbrev pub ampersand : ℕ
ampersand = 38

pub data Mode : Type 0 where
  at_text after_percent after_dollar at_foreground : Mode
  at_background : ℕ → Mode

-- The cells of a buffer from an index on.
abbrev pub cells : (ℕ → ℕ) → ℕ → ℕ → List ℕ
cells buf i zero = []
cells buf i (suc n) = buf i ∷ cells buf (i + 1) n

unfoldable pub print_s : List ℕ → List Output
print_s s = map put s

-- The buffer has 64 cells.
unfoldable pub print_n : ℕ → ℕ → Option (List Output)
unfolding convert_to_base print_s
print_n n base = do
  (buf, end) ← convert_to_base 63 n base
  len ← strlen 64 buf end
  some (print_s (cells buf end len))

-- puts.cpp; the result is 1.
unfoldable pub puts : List ℕ → List Output × ℕ
puts s = (map put s, 1)

-- "0x"
abbrev pub ptr_prefix : List ℕ
ptr_prefix = 48 ∷ 120 ∷ []

-- What a conversion prints, whether it counts, and the arguments that are left.
pub record Converted : Type 0 where
  pub output : List Output
  pub printed_special : ℕ
  pub args : List Arg

abbrev pub counted : List Arg → List Output → Option Converted
counted args out = some (record { output = out; printed_special = 1; args = args })

unfoldable pub print_word : (ℕ → Option (List Output)) → List Arg → Option Converted
print_word print [] = none
print_word print (text s ∷ args) = none
print_word print (word n ∷ args) = print n >>= counted args

unfoldable pub print_text : List Arg → Option Converted
unfolding print_s
print_text [] = none
print_text (word n ∷ args) = none
print_text (text s ∷ args) = counted args (print_s s)

-- The switch on the character after '%'.
unfoldable pub convert : ℕ → List Arg → Option Converted
unfolding print_word print_text print_n print_s
convert c args =
    if c == 99
    then print_word (λ n. some (put (n % 256) ∷ [])) args
    else if c == 115
    then print_text args
    else if c == 100
    then print_word (λ n. print_n n 10) args
    else if c == 120
    then print_word (λ n. print_n n 16) args
    else if c == 111
    then print_word (λ n. print_n n 8) args
    else if c == 98
    then print_word (λ n. print_n n 2) args
    else if c == 112
    then print_word (λ n. print_n n 16 >>= λ out. some (print_s ptr_prefix ++ out)) args
    else some (record { output = put percent ∷ put c ∷ []; printed_special = 0; args = args })

-- What was printed, and the count, before the rest.
abbrev pub before : List Output → ℕ → Option (List Output × ℕ) → Option (List Output × ℕ)
before out n none = none
before out n (some (rest, args_printed)) = some (out ++ rest, n + args_printed)

abbrev pub mode_of : ℕ → Mode
mode_of c = if c == percent then after_percent else if c == dollar then after_dollar else at_text

abbrev pub plain : ℕ → List Output
plain c = if c == percent then [] else if c == dollar then [] else put c ∷ []

-- The count is a word that the loop cannot take to 2 ^ 32.
unfoldable pub printf_from : Mode → List ℕ → List Arg → Option (List Output × ℕ)
unfolding convert
printf_from at_text [] args = some ([], 0)
printf_from after_percent [] args = some ([], 0)
printf_from after_dollar [] args = none
printf_from at_foreground [] args = none
printf_from (at_background fg) [] args = none
printf_from at_text (c ∷ format) args = before (plain c) 0 (printf_from (mode_of c) format args)
printf_from after_percent (c ∷ format) args = convert c args >>= λ done.
    before done.output done.printed_special (printf_from at_text format done.args)
printf_from after_dollar (c ∷ format) args = elim (c == ampersand) [
  | true ↦ printf_from at_foreground format args
  | false ↦ before (put dollar ∷ put c ∷ []) 1 (printf_from at_text format args)
]
printf_from at_foreground (fg ∷ format) args = printf_from (at_background fg) format args
printf_from (at_background fg) (bg ∷ format) args =
    before (set_color fg bg ∷ []) 1 (printf_from at_text format args)

unfoldable pub printf : List ℕ → List Arg → Option (List Output × ℕ)
unfolding printf_from
printf format args = printf_from at_text format args
