-- ===== src/Tests/Strings.antt =====
-- The theorems on the class String at a memory that holds two strings, and on printf at one format.
use juos.Prelude.{ℕ, ◌≡◌, refl, inl, some, List, [], ◌∷◌, arith}
use juos.Prelude.Maps.{update}
use juos.KernelString.{String, add}
use juos.KernelString.Held.{Holds}
use juos.KernelString.Added.{add-Holds}
use juos.Printf.Format.{word, text, Output, printf}
use juos.Printf.Pieces.{Piece, literal, number, color, string, decimal, Shows, printf-Shows}
use juos.Cstring.Held.{IsString}

abbrev bytes : ℕ → ℕ
bytes = update (update (update (update (λ _. 0) 10 72) 11 73) 20 72) 21 74

abbrev first : List ℕ
first = 72 ∷ 73 ∷ []

abbrev second : List ℕ
second = 72 ∷ 74 ∷ []

first-IsString : IsString bytes 10 first
first-IsString = (refl, omega arith, omega arith, (refl, omega arith, omega arith, refl))

second-IsString : IsString bytes 20 second
second-IsString = (refl, omega arith, omega arith, (refl, omega arith, omega arith, refl))

-- "HI" and "HJ" as Strings.
abbrev hi : String
hi = record { data_address = 10; size = 2 }

abbrev hj : String
hj = record { data_address = 20; size = 2 }

add-Holds_example :
    (s' : String) × (m' : ℕ → ℕ) × (add 3 40 hj hi bytes ≡ some (s', m'))
    × Holds m' s' (72 ∷ 73 ∷ 72 ∷ 74 ∷ [])
add-Holds_example =
    add-Holds 3 40 bytes hi hj first second (omega arith) (omega arith)
      (record { held = first-IsString; sized = refl })
      (record { held = second-IsString; sized = refl }) (inl (omega arith)) (inl (omega arith))

-- "a%d$&xy%s" with 66 and "HI".
abbrev pieces : List Piece
pieces = literal 97 ∷ number decimal 66 ∷ color 120 121 ∷ string first ∷ []

printf-Shows_example :
    (out : List Output) × (printf
        (97 ∷ 37 ∷ 100 ∷ 36 ∷ 38 ∷ 120 ∷ 121 ∷ 37 ∷ 115 ∷ [])
        (word 66 ∷ text first ∷ [])
      ≡ some (out, 3))
    × Shows pieces out
printf-Shows_example =
    printf-Shows pieces ((omega arith, omega arith), (omega arith, (tt, (tt, tt))))
