-- ===== src/KernelString/Added.antt =====
-- kernel/include/kernel/data_structures/string.hpp: `add` joins two texts.
use juos.Prelude.{
  ℕ, ◌+◌, ◌-◌, ◌≤◌, ◌<◌, ◌≡◌, ◌⊎◌, inl, inr, refl, ap, sym, ◌∙◌, some, List, ◌++◌, ltb, arith,
  length, length-append, Bool-cases,
}
use juos.Prelude.Maps.{update, update_self, update_ne}
use juos.Prelude.Words.{add32, u32_mod}
use juos.Cstring.Held.{IsString, strlen-IsString}
use juos.KernelString.Loops.{resize_from_lem, append_from_lem}
use juos.KernelString.{String, get_length, set_length, resize_from, append_from, add}
use juos.KernelString.Held.{Holds, IsString-moved, IsString-end, IsString-append}

-- The memory after `setLength` to the length of two texts.
module _ (old address n d : ℕ) (m : ℕ → ℕ)
    (apart : (old + n < address) ⊎ (address + (n + d) < old)) where
  abbrev grown_memory : ℕ → ℕ
  grown_memory = update (resize_from (n + d) 0 n old address m) (address + (n + d)) 0

  grown_cell : m (old + n) ≡ 0 → (k : ℕ) → k ≤ n → grown_memory (address + k) ≡ m (old + k)
  grown_cell end k le =
      let (copied, kept) = resize_from_lem (n + d) 0 n old address m (ground arith) in
      let before = resize_from (n + d) 0 n old address m in
      elim (Bool-cases (ltb k (n + d))) [
        | inl lt ↦
            update_ne before (address + (n + d)) 0 (address + k) (ground arith)
            ∙ copied k (omega arith) (ground arith)
            ∙ elim (Bool-cases (ltb k n)) [
              | inl inside ↦ rw inside refl
              | inr at_end ↦ let is : k ≡ n = ground arith in rw at_end (rw is (sym end))
            ]
        | inr ge ↦
            let is : k ≡ n = ground arith in
            let is' : k ≡ n + d = ground arith in
            ap (λ j. grown_memory (address + j)) is'
            ∙ update_self before (address + (n + d)) 0
            ∙ sym end
            ∙ ap (λ j. m (old + j)) (sym is)
      ]

  grown_kept : (a : ℕ) → (a < address) ⊎ (address + (n + d) < a) → grown_memory a ≡ m a
  grown_kept a out =
      let (copied, kept) = resize_from_lem (n + d) 0 n old address m (ground arith) in
      update_ne (resize_from (n + d) 0 n old address m) (address + (n + d)) 0 a (ground arith)
      ∙ kept a (ground arith)

-- The memory after the loop of `add`.
module _ (old text address n d : ℕ) (m : ℕ → ℕ)
    (apart : (old + n < address) ⊎ (address + (n + d) < old))
    (apart' : (text + d < address) ⊎ (address + (n + d) < text)) where
  abbrev added_memory : ℕ → ℕ
  added_memory = append_from d n n text address (grown_memory old address n d m apart)

  added_first : m (old + n) ≡ 0 → (k : ℕ) → k < n → added_memory (address + k) ≡ m (old + k)
  added_first end k lt =
      let (appended, kept) =
        append_from_lem d n n text address (grown_memory old address n d m apart) (omega arith)
          (ground arith) in
      kept (address + k) (inl (omega (arith, lt)))
      ∙ grown_cell old address n d m apart end k (omega (arith, lt))

  added_second : m (text + d) ≡ 0 → (k : ℕ) → k ≤ d → added_memory (address + n + k) ≡ m (text + k)
  added_second end k le =
      let before = grown_memory old address n d m apart in
      let (appended, kept) =
        append_from_lem d n n text address before (omega arith) (ground arith) in
      let e : address + n + k ≡ address + (n + k) = omega arith in
      elim (Bool-cases (ltb k d)) [
        | inl lt ↦
            let off : n + k - n ≡ k = omega arith in
            ap added_memory e
            ∙ appended (n + k) (omega arith) (ground arith)
            ∙ ap (λ j. before (text + j)) off
            ∙ grown_kept old address n d m apart (text + k) (ground arith)
        | inr ge ↦
            let is : k ≡ d = ground arith in
            ap added_memory e
            ∙ kept (address + (n + k)) (inr (ground arith))
            ∙ ap (λ j. before (address + (n + j))) is
            ∙ update_self (resize_from (n + d) 0 n old address m) (address + (n + d)) 0
            ∙ sym end
            ∙ ap (λ j. m (text + j)) (sym is)
      ]

-- `add` of a String to another, into new memory that meets neither: the result holds both texts, one
-- behind the other.
pub add-Holds :
    (fuel address : ℕ) (m : ℕ → ℕ) (s text : String) (cs ds : List ℕ)
    → length cs < fuel
    → length cs + length ds < u32_mod
    → Holds m s cs
    → Holds m text ds
    → (s.data_address + length cs < address) ⊎ (address + (length cs + length ds) < s.data_address)
    → (text.data_address + length ds < address)
      ⊎ (address + (length cs + length ds) < text.data_address)
    → (s' : String) × (m' : ℕ → ℕ) × (add fuel address text s m ≡ some (s', m'))
      × Holds m' s' (cs ++ ds)
unfolding add set_length get_length
add-Holds fuel address m s text cs ds lt fits h g apart apart' =
    let n = length cs in
    let d = length ds in
    let old = s.data_address in
    let total : add32 s.size text.size ≡ n + d = rw (h.sized, g.sized) (omega (arith, fits)) in
    let end = IsString-end m old cs h.held in
    let end' = IsString-end m text.data_address ds g.held in
    let grown : IsString (grown_memory old address n d m apart) address cs =
      IsString-moved m (grown_memory old address n d m apart) old address cs h.held
        (grown_cell old address n d m apart end) in
    let off : n + d - n ≡ d = omega arith in
    (
      record { data_address = address; size = n + d },
      added_memory old text.data_address address n d m apart apart',
      rw (strlen-IsString fuel old m cs lt h.held)
          (rw total (rw (strlen-IsString fuel address _ cs lt grown) (rw off refl))),
      record {
        held =
            IsString-append m (added_memory old text.data_address address n d m apart apart') old
              text.data_address address cs ds h.held g.held
              (added_first old text.data_address address n d m apart apart' end)
              (added_second old text.data_address address n d m apart apart' end');
        sized = sym (length-append cs ds);
      },
    )
