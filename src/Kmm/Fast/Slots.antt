-- ===== src/Kmm/Fast/Slots.antt =====
-- The fast bin hands out disjoint slots and takes them back.
use juos.Prelude.{
  ℕ, zero, suc, ◌+◌, ◌*◌, ◌/◌, ◌≤◌, ◌<◌, ◌≡◌, refl, ap, ◌∙◌, sym, subst, ◌≢◌, ◌⊎◌, inl, inr, false,
  some, List, [], ◌∷◌, ◌==◌, length, set, replicate, arith, Bool-cases, ==_iff, lt→ltb, length-set,
}
use juos.Prelude.Words.{sub32, u32_mod}
use juos.Kmm.Fast.{FastBin, slot_address, find_slot, malloc_fastbin, free_fastbin, init_fastbin}

-- Slot `i` and the following ones hold 0 or their own address.
abbrev pub Slots : ℕ → ℕ → List ℕ → Type 0
Slots base i [] = Unit
Slots base i (c ∷ cs) = ((c ≡ 0) ⊎ (c ≡ base + i * 64)) × Slots base (i + 1) cs

pub record IsBin (b : FastBin) : Type 0 where
  pub not_null : 0 < b.fast_bins
  pub in_memory : b.fast_bins + length b.chunks * 64 < u32_mod
  pub slot_size : b.chunk_size ≡ 64
  pub slots : Slots b.fast_bins 0 b.chunks

-- A block of 64 bytes at `a` meets no slot that is in use.
abbrev pub Apart : ℕ → List ℕ → Type 0
Apart a [] = Unit
Apart a (c ∷ cs) = ((c ≡ 0) ⊎ (c + 64 ≤ a) ⊎ (a + 64 ≤ c)) × Apart a cs

slot_address_lem :
    (b : FastBin) (i : ℕ)
    → b.chunk_size ≡ 64
    → b.fast_bins + i * 64 < u32_mod
    → slot_address b i ≡ b.fast_bins + i * 64
slot_address_lem b i e h = rw e (omega arith)

-- Slots further on lie behind.
Apart-behind : (base i a : ℕ) (cs : List ℕ) → a + 64 ≤ base + i * 64 → Slots base i cs → Apart a cs
Apart-behind base i a [] h s = tt
Apart-behind base i a (c ∷ cs) h s =
    (ground arith, Apart-behind base (i + 1) a cs (omega arith) s.1)

abbrev pub NoneFree : List ℕ → Type 0
NoneFree [] = Unit
NoneFree (c ∷ cs) = (c ≢ 0) × NoneFree cs

-- Either there was no free slot and nothing changed, or slot `i + j` was free and is taken: its
-- block meets none in use, and clearing it again gives the old slots.
abbrev pub Hands : ℕ → ℕ → List ℕ → ℕ × List ℕ → Type 0
Hands base i cs r =
    ((r.0 ≡ 0) × (r.1 ≡ cs) × NoneFree cs)
    ⊎ ((j : ℕ) × (j < length cs) × (r.0 ≡ base + (i + j) * 64) × (set r.1 j 0 ≡ cs) × Apart r.0 cs)

init-Slots : (base n i : ℕ) → Slots base i (replicate n 0)
init-Slots base zero i = tt
init-Slots base (suc n) i = (inl refl, init-Slots base n (i + 1))

in_front :
    (base i c a : ℕ)
    → (c ≡ 0) ⊎ (c ≡ base + i * 64)
    → base + i * 64 + 64 ≤ a
    → (c ≡ 0) ⊎ (c + 64 ≤ a) ⊎ (a + 64 ≤ c)
in_front base i c a h le = ground arith

find_slot_free :
    (b : FastBin) (i a c : ℕ) (cs : List ℕ)
    → c ≡ 0
    → slot_address b i ≡ a
    → find_slot b i (c ∷ cs) ≡ (a, a ∷ cs)
unfolding find_slot
find_slot_free b i a c cs z e = rw (z, e)

find_slot_used :
    (b : FastBin) (i c : ℕ) (cs : List ℕ)
    → (c == 0) ≡ false
    → find_slot b i (c ∷ cs) ≡ ((find_slot b (i + 1) cs).0, c ∷ (find_slot b (i + 1) cs).1)
unfolding find_slot
find_slot_used b i c cs u = rw u

cons-Hands :
    (b : FastBin) (i c : ℕ) (cs : List ℕ)
    → b.chunk_size ≡ 64
    → 0 < b.fast_bins
    → b.fast_bins + (i + length (c ∷ cs)) * 64 < u32_mod
    → Slots b.fast_bins i (c ∷ cs)
    → Slots b.fast_bins (i + 1) (find_slot b (i + 1) cs).1
      × Hands b.fast_bins (i + 1) cs (find_slot b (i + 1) cs)
    → Slots b.fast_bins i (find_slot b i (c ∷ cs)).1
      × Hands b.fast_bins i (c ∷ cs) (find_slot b i (c ∷ cs))
cons-Hands b i c cs e pos h s (slots, hands) = elim (Bool-cases (c == 0)) [
  | inl free ↦
      let z : c ≡ 0 = (==_iff c 0).0 free in
      let a : slot_address b i ≡ b.fast_bins + i * 64 = slot_address_lem b i e (omega arith) in
      subst (λ r. Slots b.fast_bins i r.1 × Hands b.fast_bins i (c ∷ cs) r)
        (sym (find_slot_free b i (b.fast_bins + i * 64) c cs z a))
        (
          (inr refl, s.1),
          inr (
            0,
            omega arith,
            omega arith,
            ap (λ d. d ∷ cs) (sym z),
            (inl z, Apart-behind b.fast_bins (i + 1) (b.fast_bins + i * 64) cs (omega arith) s.1),
          ),
        )
  | inr used ↦
      let nz : c ≢ 0 = ground (arith, used) in
      subst (λ r. Slots b.fast_bins i r.1 × Hands b.fast_bins i (c ∷ cs) r)
        (sym (find_slot_used b i c cs used))
        (
          (s.0, slots),
          elim hands [
            | inl (z, same, n) ↦ inl (z, ap (◌∷◌ c) same, (nz, n))
            | inr (j, lt, at, back, apart) ↦ inr (
              suc j,
              omega arith,
              omega (arith, at),
              ap (◌∷◌ c) back,
              (in_front b.fast_bins i c _ s.0 (omega (arith, at)), apart),
            )
          ],
        )
]

find_slot-Hands :
    (b : FastBin) (i : ℕ) (cs : List ℕ)
    → b.chunk_size ≡ 64
    → 0 < b.fast_bins
    → b.fast_bins + (i + length cs) * 64 < u32_mod
    → Slots b.fast_bins i cs
    → Slots b.fast_bins i (find_slot b i cs).1 × Hands b.fast_bins i cs (find_slot b i cs)
unfolding find_slot
find_slot-Hands b i [] e pos h s = (tt, inl (refl, refl, tt))
find_slot-Hands b i (c ∷ cs) e pos h s =
    cons-Hands b i c cs e pos h s (find_slot-Hands b (i + 1) cs e pos (omega arith) s.1)

init_fastbin-IsBin : (start : ℕ) → 0 < start → start + 6400 < u32_mod → IsBin (init_fastbin start)
unfolding init_fastbin
init_fastbin-IsBin start pos h = record {
  not_null = pos;
  in_memory = h;
  slot_size = refl;
  slots = init-Slots start 100 0;
}

length-Hands :
    (base i : ℕ) (cs : List ℕ) (r : ℕ × List ℕ) → Hands base i cs r → length r.1 ≡ length cs
length-Hands base i cs r (inl (z, same, n)) = ap length same
length-Hands base i cs r (inr (j, lt, at, back, apart)) = sym (length-set r.1 j 0) ∙ ap length back

freed :
    (b : FastBin) (j : ℕ)
    → IsBin b
    → j < length b.chunks
    → (find_slot b 0 b.chunks).0 ≡ b.fast_bins + (0 + j) * 64
    → set (find_slot b 0 b.chunks).1 j 0 ≡ b.chunks
    → free_fastbin (malloc_fastbin b).0 (malloc_fastbin b).1 ≡ some b
unfolding malloc_fastbin free_fastbin
freed b j h lt at back =
    let m = h.in_memory in
    let l : length (find_slot b 0 b.chunks).1 ≡ length b.chunks =
      sym (length-set (find_slot b 0 b.chunks).1 j 0) ∙ ap length back in
    let i : sub32 (find_slot b 0 b.chunks).0 b.fast_bins / 64 ≡ j = rw at (omega arith) in
    rw i (rw (lt→ltb j (length (find_slot b 0 b.chunks).1) (omega (arith, l))) (rw back))

-- Every allocation keeps a well-formed bin well formed. It returns null, and changes nothing, only
-- when no slot is free; otherwise its 64 bytes lie within the slots and meet no slot in use, and
-- freeing it restores the bin.
pub malloc_fastbin_lem :
    (b : FastBin)
    → IsBin b
    → let r = malloc_fastbin b in
      IsBin r.1
      × (((r.0 ≡ 0) × (r.1 ≡ b) × NoneFree b.chunks)
          ⊎ ((b.fast_bins ≤ r.0)
              × (r.0 + 64 ≤ b.fast_bins + length b.chunks * 64)
              × Apart r.0 b.chunks
              × (free_fastbin r.0 r.1 ≡ some b)))
unfolding malloc_fastbin
malloc_fastbin_lem b h =
    let z : b.fast_bins + (0 + length b.chunks) * 64 < u32_mod =
      let m = h.in_memory in omega (arith, m) in
    let (slots, hands) = find_slot-Hands b 0 b.chunks h.slot_size h.not_null z h.slots in
    (
      record {
        not_null = h.not_null;
        in_memory = let m = h.in_memory in rw (length-Hands _ 0 _ _ hands) m;
        slot_size = h.slot_size;
        slots = slots;
      },
      elim hands [
        | inl (null, same, n) ↦ inl (null, ap (λ cs. record b { chunks = cs }) same, n)
        | inr (j, lt, at, back, apart) ↦
            inr (omega (arith, at), omega (arith, at), apart, freed b j h lt at back)
      ],
    )
