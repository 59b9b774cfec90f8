-- ===== src/KernelString/Texts.antt =====
-- kernel/include/kernel/data_structures/string.hpp: Strings made from texts, and compared.
use juos.Prelude.{
  ℕ, ◌+◌, ◌<◌, ◌≡◌, ◌⊎◌, ◌↔◌, refl, sym, subst, Bool, true, false, some, List, ◌==◌, arith, length,
  take-length, min,
}
use juos.Cstring.{strncpy}
use juos.Cstring.Held.{IsString, strlen-IsString, strcmp-IsString, strncpy-IsString}
use juos.KernelString.{String, string_of_text, compare}
use juos.KernelString.Held.{Holds, IsString-end}

-- The constructor from a text at other, non-null addresses holds the text. Of the memory it writes
-- the cells from the allocation's address to the one after its last cell.
pub string_of_text-Holds :
    (fuel address text : ℕ) (m : ℕ → ℕ) (cs : List ℕ)
    → length cs < fuel
    → 0 < address
    → IsString m text cs
    → (address + length cs < text) ⊎ (text + length cs < address)
    → let s : String = record { data_address = address; size = length cs } in
      let m' = strncpy (length cs) m address text in
      (string_of_text fuel address text m ≡ some (s, m'))
      × Holds m' s cs
      × ((a : ℕ) → (a < address) ⊎ (address + length cs < a) → m' a ≡ m a)
      × (m' (address + length cs) ≡ 0)
unfolding string_of_text
string_of_text-Holds fuel address text m cs lt pos h apart =
    let some_address : (address == 0) ≡ false = ground arith in
    let all : min (length cs) (length cs) ≡ length cs = omega arith in
    let (written, kept) =
      strncpy-IsString (length cs) address text m cs h
        (subst (λ n. (address + n < text) ⊎ (text + length cs < address)) (sym all) apart) in
    let here = subst (IsString _ address) (take-length cs) written in
    (
      rw (strlen-IsString fuel text m cs lt h, some_address) refl,
      record { held = here; sized = refl },
      subst
          (λ n.
            (a : ℕ)
            → (a < address) ⊎ (address + n < a)
            → strncpy (length cs) m address text a ≡ m a)
          all kept,
      IsString-end _ address cs here,
    )

-- With fuel above the first length, `compare` is true exactly for equal texts.
pub compare_lem :
    (fuel : ℕ) (m : ℕ → ℕ) (s string : String) (cs ds : List ℕ)
    → length cs < fuel
    → Holds m s cs
    → Holds m string ds
    → (b : Bool) × (compare fuel string s m ≡ some b) × ((b ≡ true) ↔ (cs ≡ ds))
unfolding compare
compare_lem fuel m s string cs ds lt h g =
    let (n, e, both) =
      strcmp-IsString fuel s.data_address string.data_address m cs ds lt h.held g.held in
    (n == 0, rw e refl, (λ t. both.0 (ground arith), λ t. let z = both.1 t in ground arith))
