-- ===== src/Kmm/Big/Layout.antt =====
-- The chunk list of kernel/kernel/kmm.cpp as blocks of memory in address order, and what
-- `__malloc_big` does to it while a chunk is allocated.
use juos.Prelude.{
  ℕ, zero, suc, ◌+◌, ◌≤◌, ◌<◌, ◌≡◌, refl, ap, ◌∙◌, sym, subst, ◌≢◌, ◌⊎◌, inl, inr, Bool, true,
  false, some, List, [], ◌∷◌, ◌++◌, ◌==◌, leb, ltb, if◌then◌else◌, ◌&&◌, not, length, arith,
  Bool-cases, pos-ne_zero,
}
use mathlib.Core.Path.{subst₂}
use juos.Prelude.Words.{sub32, u32_mod}
use juos.Kmm.Big.{BigChunk, Heap, Search, find_hole}

-- A chunk: where its header stands, how many bytes from there are in use, and whether it is.
pub record Block : Type 0 where
  pub addr : ℕ
  pub need : ℕ
  pub live : Bool

-- The list from the first block on: each leads to the next, which lies behind its bytes; the last
-- one's recorded size covers them.
abbrev pub IsLaid : (ℕ → BigChunk) → Block → List Block → Type 0
IsLaid m b [] =
    (0 < b.addr)
    × ((m b.addr).used ≡ b.live)
    × ((m b.addr).next ≡ 0)
    × (b.need ≤ (m b.addr).size)
    × (13 ≤ (m b.addr).size)
    × (b.addr + (m b.addr).size < u32_mod)
IsLaid m b (c ∷ bs) =
    (0 < b.addr)
    × ((m b.addr).used ≡ b.live)
    × ((m b.addr).next ≡ c.addr)
    × (b.addr + b.need ≤ c.addr)
    × (b.addr + 13 ≤ c.addr)
    × IsLaid m c bs

-- No two blocks share a byte.
abbrev pub Behind : Block → List Block → Type 0
Behind b [] = Unit
Behind b (c ∷ bs) = (b.addr + b.need ≤ c.addr) × (b.addr < c.addr) × Behind b bs

abbrev pub Separate : Block → List Block → Type 0
Separate b [] = Unit
Separate b (c ∷ bs) = Behind b (c ∷ bs) × Separate c bs

Behind-mono :
    (b c : Block) (bs : List Block)
    → b.addr + b.need ≤ c.addr
    → b.addr < c.addr
    → Behind c bs
    → Behind b bs
Behind-mono b c [] h l s = tt
Behind-mono b c (d ∷ bs) h l s = (omega arith, omega arith, Behind-mono b c bs h l s.2)

IsLaid-Behind : (m : ℕ → BigChunk) (b : Block) (bs : List Block) → IsLaid m b bs → Behind b bs
IsLaid-Behind m b [] h = tt
IsLaid-Behind m b (c ∷ bs) h =
    (h.3, omega arith, Behind-mono b c bs h.3 (omega arith) (IsLaid-Behind m c bs h.5))

pub IsLaid-Separate :
    (m : ℕ → BigChunk) (b : Block) (bs : List Block) → IsLaid m b bs → Separate b bs
IsLaid-Separate m b [] h = tt
IsLaid-Separate m b (c ∷ bs) h = (IsLaid-Behind m b (c ∷ bs) h, IsLaid-Separate m c bs h.5)

-- A change below the first header spares the list.
IsLaid-spared :
    (m m' : ℕ → BigChunk) (a : ℕ) (b : Block) (bs : List Block)
    → a < b.addr
    → ((x : ℕ) → x ≢ a → m' x ≡ m x)
    → IsLaid m b bs
    → IsLaid m' b bs
IsLaid-spared m m' a b [] lt same h = rw (same b.addr (omega arith)) h
IsLaid-spared m m' a b (c ∷ bs) lt same h =
    let e = same b.addr (omega arith) in
    (
      h.0,
      ap (λ x. x.used) e ∙ h.1,
      ap (λ x. x.next) e ∙ h.2,
      h.3,
      h.4,
      IsLaid-spared m m' a c bs (omega arith) same h.5,
    )

-- `a` is the header of an unused block, and `req` bytes fit before the next one.
abbrev pub IsHole : ℕ → ℕ → Block → List Block → Type 0
IsHole a req b [] = ⊥
IsHole a req b (c ∷ bs) = ((a ≡ b.addr) × (b.live ≡ false) × (a + req ≤ c.addr)) ⊎ IsHole a req c bs

-- The block at `a`, put to use.
abbrev pub fill : ℕ → ℕ → Block → Block
fill a req b = if b.addr == a then record { addr = a; need = req; live = true } else b

abbrev pub fill_all : ℕ → ℕ → List Block → List Block
fill_all a req [] = []
fill_all a req (b ∷ bs) = fill a req b ∷ fill_all a req bs

fill_all-Behind :
    (a req : ℕ) (b : Block) (bs : List Block) → a ≤ b.addr → Behind b bs → fill_all a req bs ≡ bs
fill_all-Behind a req b [] le h = refl
fill_all-Behind a req b (c ∷ bs) le h = ground (arith, fill_all-Behind a req b bs le h.2)

pub IsHole-le :
    (m : ℕ → BigChunk) (a req : ℕ) (b : Block) (bs : List Block)
    → IsLaid m b bs
    → IsHole a req b bs
    → b.addr ≤ a
IsHole-le m a req b [] h hole = absurd hole
IsHole-le m a req b (c ∷ bs) h (inl e) = omega arith
IsHole-le m a req b (c ∷ bs) h (inr r) = omega (arith, IsHole-le m a req c bs h.5 r)

fill_self :
    (a req : ℕ) (b : Block)
    → a ≡ b.addr
    → fill a req b ≡ record { addr = a; need = req; live = true }
fill_self a req b e = ground arith

fill_ne : (a req : ℕ) (b : Block) → b.addr ≢ a → fill a req b ≡ b
fill_ne a req b e = ground arith

pub fill_addr : (a req : ℕ) (b : Block) → (fill a req b).addr ≡ b.addr
fill_addr a req b = ground arith

-- Taking a hole lays the list out with that block in use.
pub IsLaid-fill :
    (m m' : ℕ → BigChunk) (a req : ℕ) (b : Block) (bs : List Block)
    → ((x : ℕ) → x ≢ a → m' x ≡ m x)
    → (m' a).next ≡ (m a).next
    → (m' a).used ≡ true
    → IsLaid m b bs
    → IsHole a req b bs
    → IsLaid m' (fill a req b) (fill_all a req bs)
IsLaid-fill m m' a req b [] same nx us h hole = absurd hole
IsLaid-fill m m' a req b (c ∷ bs) same nx us h (inl (e, dead, fits)) =
    subst₂ (λ d ds. IsLaid m' d ds) (sym (fill_self a req b e))
      (sym (fill_all-Behind a req b (c ∷ bs) (omega arith) (IsLaid-Behind m b (c ∷ bs) h)))
      (
        omega (arith, h.0),
        us,
        nx ∙ ap (λ x. (m x).next) e ∙ h.2,
        fits,
        omega (arith, h.4),
        IsLaid-spared m m' a c bs (omega (arith, h.4)) same h.5,
      )
IsLaid-fill m m' a req b (c ∷ bs) same nx us h (inr r) =
    let le = IsHole-le m a req c bs h.5 r in
    let e = same b.addr (omega (arith, h.4)) in
    let at = fill_addr a req c in
    subst (λ d. IsLaid m' d (fill_all a req (c ∷ bs))) (sym (fill_ne a req b (omega (arith, h.4))))
      (
        h.0,
        ap (λ x. x.used) e ∙ h.1,
        ap (λ x. x.next) e ∙ h.2 ∙ sym at,
        rw at h.3,
        rw at h.4,
        IsLaid-fill m m' a req c bs same nx us h.5 r,
      )

abbrev pub last_addr : Block → List Block → ℕ
last_addr b [] = b.addr
last_addr b (c ∷ bs) = last_addr c bs

pub last_addr-le :
    (m : ℕ → BigChunk) (b : Block) (bs : List Block) → IsLaid m b bs → b.addr ≤ last_addr b bs
last_addr-le m b [] h = omega arith
last_addr-le m b (c ∷ bs) h = omega (arith, h.4, last_addr-le m c bs h.5)

-- A new chunk behind the last one extends the list.
pub IsLaid-append :
    (m m' : ℕ → BigChunk) (req : ℕ) (b : Block) (bs : List Block) (new : ℕ)
    → new ≡ last_addr b bs + (m (last_addr b bs)).size
    → let last = last_addr b bs in
      ((x : ℕ) → x ≢ last → x ≢ new → m' x ≡ m x)
      → (m' last).used ≡ (m last).used
      → (m' last).next ≡ new
      → (m' new).used ≡ true
      → (m' new).next ≡ 0
      → (m' new).size ≡ req
      → 13 ≤ req
      → new + req < u32_mod
      → IsLaid m b bs
      → IsLaid m' b (bs ++ record { addr = new; need = req; live = true } ∷ [])
IsLaid-append m m' req b [] new at same us nx us' nx' sz min fits h = (
  h.0,
  us ∙ h.1,
  nx,
  omega (arith, h.3),
  omega (arith, h.4),
  (omega (arith, h.0), us', nx', omega (arith, sz), omega (arith, sz), omega (arith, sz)),
)
IsLaid-append m m' req b (c ∷ bs) new at same us nx us' nx' sz min fits h =
    let le = last_addr-le m c bs h.5 in
    let e = same b.addr (omega (arith, h.4)) (omega (arith, h.4)) in
    (
      h.0,
      ap (λ x. x.used) e ∙ h.1,
      ap (λ x. x.next) e ∙ h.2,
      h.3,
      h.4,
      IsLaid-append m m' req c bs new at same us nx us' nx' sz min fits h.5,
    )

pub IsLaid-lt : (m : ℕ → BigChunk) (b : Block) (bs : List Block) → IsLaid m b bs → b.addr < u32_mod
IsLaid-lt m b [] h = omega (arith, h.5)
IsLaid-lt m b (c ∷ bs) h = omega (arith, h.4, IsLaid-lt m c bs h.5)

pub IsLaid-last :
    (m : ℕ → BigChunk) (b : Block) (bs : List Block)
    → IsLaid m b bs
    → (0 < last_addr b bs) × (13 ≤ (m (last_addr b bs)).size)
IsLaid-last m b [] h = (h.0, h.4)
IsLaid-last m b (c ∷ bs) h = IsLaid-last m c bs h.5

-- The test in the loop.
abbrev fits_hole : ℕ → BigChunk → ℕ → Bool
fits_hole req c room = not c.used && (ltb room 0xffff_ffff && leb req room)

find_hole_step :
    (fuel req : ℕ) (m : ℕ → BigChunk) (a n : ℕ)
    → (m a).next ≡ n
    → 0 < n
    → find_hole (suc fuel) req m a ≡ (
        if fits_hole req (m a) (sub32 n a)
        then some (record { curr = a; found = true })
        else find_hole fuel req m n)
unfolding find_hole
find_hole_step fuel req m a n e pos = rw e (rw (pos-ne_zero n pos))

fits_hole-true :
    (req : ℕ) (c : BigChunk) (room : ℕ)
    → fits_hole req c room ≡ true
    → (c.used ≡ false) × (req ≤ room)
fits_hole-true req c room h = ground arith

-- The search ends within a round for each block: at a hole, or at the last block.
pub find_hole_lem :
    (fuel req : ℕ) (m : ℕ → BigChunk) (b : Block) (bs : List Block)
    → length bs < fuel
    → IsLaid m b bs
    → (s : Search) × (find_hole fuel req m b.addr ≡ some s)
      × (((s.found ≡ true) × IsHole s.curr req b bs)
          ⊎ ((s.found ≡ false) × (s.curr ≡ last_addr b bs)))
unfolding find_hole
find_hole_lem zero req m b bs lt h = absurd (omega arith)
find_hole_lem (suc fuel) req m b [] lt h =
    (record { curr = b.addr; found = false }, rw (h.2, find_hole), inr (refl, refl))
find_hole_lem (suc fuel) req m b (c ∷ bs) lt h =
    let lt_c = IsLaid-lt m c bs h.5 in
    let step = find_hole_step fuel req m b.addr c.addr h.2 (omega (arith, h.4)) in
    elim (Bool-cases (fits_hole req (m b.addr) (sub32 c.addr b.addr))) [
      | inl t ↦
          let (free, room) = fits_hole-true req (m b.addr) (sub32 c.addr b.addr) t in
          (
            record { curr = b.addr; found = true },
            step ∙ rw t,
            inl (refl, inl (refl, sym h.1 ∙ free, omega (arith, h.4))),
          )
      | inr f ↦
          let (s, e, r) = find_hole_lem fuel req m c bs (omega arith) h.5 in
          (
            s,
            step ∙ rw f e,
            elim r [ inl (fd, hole) ↦ inl (fd, inr hole) | inr (fd, last) ↦ inr (fd, last) ],
          )
    ]

-- The blocks of a heap.
abbrev pub Holds : Heap → Block → List Block → Type 0
Holds h b bs = (h.big_chunks ≡ b.addr) × IsLaid h.memory b bs

-- The block at `a` with its bytes, and the others, make up the list.
abbrev pub Has : ℕ → ℕ → List Block → Type 0
Has a req [] = ⊥
Has a req (b ∷ bs) = ((b.addr ≡ a) × (b.need ≡ req) × (b.live ≡ true)) ⊎ Has a req bs

pub Has-fill :
    (a req : ℕ) (b : Block) (bs : List Block)
    → IsHole a req b bs
    → Has a req (fill_all a req (b ∷ bs))
Has-fill a req b [] hole = absurd hole
Has-fill a req b (c ∷ bs) (inl (e, dead, room)) = inl (ground arith, ground arith, ground arith)
Has-fill a req b (c ∷ bs) (inr hole) = inr (Has-fill a req c bs hole)

pub Has-append :
    (a req : ℕ) (bs : List Block)
    → Has a req (bs ++ record { addr = a; need = req; live = true } ∷ [])
Has-append a req [] = inl (refl, refl, refl)
Has-append a req (b ∷ bs) = inr (Has-append a req bs)
