-- ===== src/Cstring.antt =====
-- libc/string: strlen, strcmp, strncpy, memset and memcpy, on a memory of bytes by address. A loop
-- that runs to the end mark takes fuel. The int that strcmp returns is its 32-bit word.
pub mod Held
use juos.Prelude.{
  ℕ, zero, suc, ◌+◌, ◌-◌, ◌*◌, ◌%◌, ◌^◌, Bool, true, false, Option, none, some, ◌==◌, if◌then◌else◌,
}
use juos.Prelude.Maps.{update}
use juos.Prelude.Words.{sub32}

-- The loop of strlen, from a count `len` on.
unfoldable pub strlen_from : ℕ → (ℕ → ℕ) → ℕ → ℕ → Option ℕ
strlen_from zero m p len = none
strlen_from (suc fuel) m p len =
    let rest = strlen_from fuel m p (len + 1) in if m (p + len) == 0 then some len else rest

unfoldable pub strlen : ℕ → (ℕ → ℕ) → ℕ → Option ℕ
unfolding strlen_from
strlen fuel m p = strlen_from fuel m p 0

unfoldable pub strcmp : ℕ → (ℕ → ℕ) → ℕ → ℕ → Option ℕ
strcmp zero m p1 p2 = none
strcmp (suc fuel) m p1 p2 =
    let rest = strcmp fuel m (p1 + 1) (p2 + 1) in
    if m p1 == 0
    then some (sub32 (m p1) (m p2))
    else (if m p1 == m p2 then rest else some (sub32 (m p1) (m p2)))

-- The loop of strncpy and the end mark written after it; `num` counts down.
unfoldable pub strncpy : ℕ → (ℕ → ℕ) → ℕ → ℕ → ℕ → ℕ
strncpy zero m destination source = update m destination 0
strncpy (suc num) m destination source =
    let rest = strncpy num (update m destination (m source)) (destination + 1) (source + 1) in
    if m source == 0 then update m destination 0 else rest

-- The loop of memset, from the index `i` on; the rounds left are counted.
unfoldable pub memset_from : ℕ → ℕ → (ℕ → ℕ) → ℕ → ℕ → ℕ → ℕ
memset_from zero i m bufptr value = m
memset_from (suc rounds) i m bufptr value =
    memset_from rounds (i + 1) (update m (bufptr + i) (value % 2 ^ 8)) bufptr value

unfoldable pub memset : (ℕ → ℕ) → ℕ → ℕ → ℕ → ℕ → ℕ
unfolding memset_from
memset m bufptr value size = memset_from size 0 m bufptr value

-- The loop of memcpy, in the same way.
unfoldable pub memcpy_from : ℕ → ℕ → (ℕ → ℕ) → ℕ → ℕ → ℕ → ℕ
memcpy_from zero i m str1 str2 = m
memcpy_from (suc rounds) i m str1 str2 =
    memcpy_from rounds (i + 1) (update m (str1 + i) (m (str2 + i))) str1 str2

unfoldable pub memcpy : (ℕ → ℕ) → ℕ → ℕ → ℕ → ℕ → ℕ
unfolding memcpy_from
memcpy m str1 str2 n = memcpy_from n 0 m str1 str2
