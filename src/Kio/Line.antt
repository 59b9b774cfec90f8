-- ===== src/Kio/Line.antt =====
-- The line that GetString (kernel/kernel/kio.cpp) reads: an independent description of line editing
-- on lists, and that the buffer holds the edited line.
use juos.Prelude.{
  ℕ, suc, ◌-◌, ◌≤◌, ◌<◌, ◌≡◌, refl, ◌≢◌, List, [], ◌∷◌, ◌==◌, ltb, true, if◌then◌else◌, Option,
  none, some, arith, length, Bool-cases, inl, inr,
}
use juos.Prelude.Maps.{update}
use juos.Prelude.Words.{add32, u32_mod}
use juos.Kio.{Reading, read_keys, get_string, echoed}

-- The line without its last character.
abbrev pub tail : List ℕ → List ℕ
tail [] = []
tail (c ∷ cs) = cs

-- Line editing, newest character first: a backspace removes a character, a newline or `max_len`
-- characters end the line. The result is the line and the keys that are left.
unfoldable pub edit : ℕ → List ℕ → List ℕ → Option (List ℕ × List ℕ)
edit max_len line [] = if ltb (length line) max_len then none else some (line, [])
edit max_len line (c ∷ cs) =
    let erased = edit max_len (tail line) cs in
    let typed = edit max_len (c ∷ line) cs in
    if ltb (length line) max_len
    then (if c == 10 then some (line, cs) else (if c == 8 then erased else typed))
    else some (line, c ∷ cs)

-- The buffer holds the line from its start on.
abbrev pub Stored : (ℕ → ℕ) → List ℕ → Type 0
Stored buffer [] = Unit
Stored buffer (c ∷ line) = (buffer (length line) ≡ c) × Stored buffer line

Stored-update :
    (buffer : ℕ → ℕ) (i c : ℕ) (line : List ℕ)
    → length line ≤ i
    → Stored buffer line
    → Stored (update buffer i c) line
Stored-update buffer i c [] le s = tt
Stored-update buffer i c (x ∷ line) le s =
    (ground (arith, s.0), Stored-update buffer i c line (omega arith) s.1)

-- What a reading ends in, beside what editing ends in.
abbrev pub Reads : ℕ → (ℕ → ℕ) → Option Reading → Option (List ℕ × List ℕ) → Type 0
Reads max_len buffer none none = Unit
Reads max_len buffer none (some l) = ⊥
Reads max_len buffer (some r) none = ⊥
Reads max_len buffer (some r) (some (line, rest)) =
    (r.i ≡ length line)
    × Stored r.buffer line
    × (r.keys ≡ rest)
    × ((j : ℕ) → max_len ≤ j → r.buffer j ≡ buffer j)

Reads-echoed :
    (max_len c : ℕ) (buffer : ℕ → ℕ) (r : Option Reading) (l : Option (List ℕ × List ℕ))
    → Reads max_len buffer r l
    → Reads max_len buffer (echoed c r) l
unfolding echoed
Reads-echoed max_len c buffer none none h = tt
Reads-echoed max_len c buffer none (some l) h = h
Reads-echoed max_len c buffer (some r) none h = h
Reads-echoed max_len c buffer (some r) (some (line, rest)) h = h

-- A backspace, given what the loop does behind it.
read_erased :
    (max_len : ℕ) (start buffer : ℕ → ℕ) (line cs : List ℕ)
    → ((held : List ℕ)
        → Stored buffer held
        → Reads max_len start (read_keys max_len buffer (length held) cs) (edit max_len held cs))
    → Stored buffer line
    → Reads max_len start
        (if ltb 0 (length line)
          then echoed 8 (read_keys max_len buffer (length line - 1) cs)
          else read_keys max_len buffer (length line) cs)
        (edit max_len (tail line) cs)
read_erased max_len start buffer [] cs reads s = reads [] s
read_erased max_len start buffer (x ∷ line) cs reads s =
    let positive : ltb 0 (suc (length line)) ≡ true = ground arith in
    let before : suc (length line) - 1 ≡ length line = omega arith in
    rw positive (Reads-echoed max_len 8 start _ _ (rw before (reads line s.1)))

-- The loop, from a buffer that holds the line so far.
read_keys-edit :
    (max_len : ℕ) (start buffer : ℕ → ℕ) (line cs : List ℕ)
    → max_len < u32_mod
    → Stored buffer line
    → ((j : ℕ) → max_len ≤ j → buffer j ≡ start j)
    → Reads max_len start (read_keys max_len buffer (length line) cs) (edit max_len line cs)
unfolding read_keys edit
read_keys-edit max_len start buffer line [] fits s out =
    elim (Bool-cases (ltb (length line) max_len)) [
      | inl t ↦ rw t tt
      | inr f ↦ rw f (refl, s, refl, out)
    ]
read_keys-edit max_len start buffer line (c ∷ cs) fits s out =
    elim (Bool-cases (ltb (length line) max_len)) [
      | inr f ↦ rw f (refl, s, refl, out)
      | inl t ↦ elim (Bool-cases (c == 10)) [
        | inl newline ↦ rw (t, newline) (refl, s, refl, out)
        | inr n ↦ elim (Bool-cases (c == 8)) [
          | inl back ↦
              rw (t, n, back)
                (read_erased max_len start buffer line cs
                  (λ held stored. read_keys-edit max_len start buffer held cs fits stored out) s)
          | inr typed ↦
              let next : add32 (length line) 1 ≡ suc (length line) = ground arith in
              let stored : Stored (update buffer (length line) c) (c ∷ line) =
                (ground arith, Stored-update buffer (length line) c line (omega arith) s) in
              rw (t, n, typed)
                (Reads-echoed max_len c start _ _ (
                  rw next (
                    read_keys-edit max_len start (update buffer (length line) c) (c ∷ line) cs fits
                      stored (λ j le. ground (arith, out j le)))))
        ]
      ]
    ]

-- For every list of keys, GetString ends exactly when line editing ends: the buffer then holds the
-- edited line, the counter is its length, the keys left are the same, and no cell from `max_len` on
-- was written.
pub get_string-edit :
    (max_len : ℕ) (buffer : ℕ → ℕ) (keys : List ℕ)
    → max_len < u32_mod
    → Reads max_len buffer (get_string max_len buffer keys) (edit max_len [] keys)
unfolding get_string
get_string-edit max_len buffer keys fits =
    read_keys-edit max_len buffer buffer [] keys fits tt (λ j le. refl)

-- A character that was typed and erased stays in the buffer behind the line: the cell of the last
-- character is not cleared, and no end mark is written.
pub get_string-erased :
    (max_len c : ℕ) (buffer : ℕ → ℕ) (keys : List ℕ)
    → 1 < max_len
    → c ≢ 8
    → c ≢ 10
    → (r : Reading) × (get_string max_len buffer (c ∷ 8 ∷ 10 ∷ keys) ≡ some r)
      × (edit max_len [] (c ∷ 8 ∷ 10 ∷ keys) ≡ some ([], keys))
      × (r.i ≡ 0)
      × (r.buffer 0 ≡ c)
unfolding get_string read_keys edit
get_string-erased max_len c buffer keys more nb nl = (
  record { buffer = update buffer 0 c; i = 0; echo = c ∷ 8 ∷ 10 ∷ []; keys = keys },
  ground arith,
  ground arith,
  refl,
  ground arith,
)
