-- ===== src/Kio.antt =====
-- kernel/kernel/kio.cpp: the line reader. The keys that `GetChar` returns, one after another, are a
-- list; where the code would wait for another key the model returns `none`.
pub mod Line
use juos.Prelude.{
  ℕ, ◌+◌, ◌-◌, ◌%◌, ◌^◌, List, [], ◌∷◌, ◌==◌, ltb, Bool, if◌then◌else◌, Option, none, some,
}
use juos.Prelude.Maps.{update}
use juos.Prelude.Words.{add32, u32_mod}

-- The buffer, the counter `i` of the loop, the characters sent to the screen and the keys left.
pub record Reading : Type 0 where
  pub buffer : ℕ → ℕ
  pub i : ℕ
  pub echo : List ℕ
  pub keys : List ℕ

unfoldable pub echoed : ℕ → Option Reading → Option Reading
echoed c none = none
echoed c (some r) = some (record r { echo = c ∷ r.echo })

-- The loop of `GetString` from a counter `i` on.
unfoldable pub read_keys : ℕ → (ℕ → ℕ) → ℕ → List ℕ → Option Reading
unfolding echoed
read_keys max_len buffer i [] =
    if ltb i max_len then none else some (record { buffer = buffer; i = i; echo = []; keys = [] })
read_keys max_len buffer i (c ∷ cs) =
    let erased = read_keys max_len buffer (i - 1) cs in
    let ignored = read_keys max_len buffer i cs in
    let typed = read_keys max_len (update buffer i c) (add32 i 1) cs in
    if ltb i max_len
    then (if c == 10
        then some (record { buffer = buffer; i = i; echo = 10 ∷ []; keys = cs })
        else (if c == 8 then (if ltb 0 i then echoed 8 erased else ignored) else echoed c typed))
    else some (record { buffer = buffer; i = i; echo = []; keys = c ∷ cs })

unfoldable pub get_string : ℕ → (ℕ → ℕ) → List ℕ → Option Reading
unfolding read_keys
get_string max_len buffer keys = read_keys max_len buffer 0 keys
