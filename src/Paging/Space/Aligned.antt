-- ===== src/Paging/Space/Aligned.antt =====
-- kernel/kernel/paging.cpp, the mapping of a region that makes its own page tables: it maps every
-- page where each new table starts with its first entry.
use juos.Prelude.{ℕ, zero, suc, ◌+◌, ◌*◌, ◌%◌, ◌<◌, ◌≡◌, ◌∙◌, ap, ◌⊎◌, inl, inr, arith}
use native.Mathlib.Decide.{dec_le}
use juos.Prelude.Words.{add32, u32_mod}
use juos.PrimitiveHeap.{page_size}
use juos.Paging.{Machine, map_region, mapped}
use juos.Paging.Step.{index_of, table_of, map_region_step, map_region_end}
use juos.Paging.Space.Grown.{HasRoom, InPages, Grows, Grows-none, Grows-next, map_page-Grows}

pages_split :
    (n top a : ℕ) → InPages (suc n) top a → InPages 1 top a ⊎ InPages n (top + page_size) a
pages_split n top a (lo, hi) = elim (dec_le (top + page_size) a) [
  | yes behind ↦ inr (behind, omega (arith, hi))
  | no before ↦ inl (lo, omega (arith, before))
]

pub next_HasRoom :
    (n top : ℕ) (k k₁ : Machine)
    → top % page_size ≡ 0
    → HasRoom (suc n) top k
    → Grows (InPages 1 top) 1 k k₁
    → HasRoom n (top + page_size) k₁
next_HasRoom n top k k₁ al r g = record {
  settled = elim (dec_le 1 (index_of (top + page_size))) [
    | yes same ↦
        let e : table_of (top + page_size) ≡ table_of top = omega arith in
        inl (rw e (g.pages top (omega arith, omega arith)).0)
    | no first ↦ inr (omega (arith, first))
  ];
  linked = g.linked;
  heap = let h = r.heap in let up = g.higher in omega (arith, h, up);
  room = let h = r.room in let low = g.lower in omega (arith, h, low);
  frames = let f = r.frames in let u = g.used in omega (arith, f, u);
}

-- For `n` whole pages below 2 ^ 32 from `top` on, where the first page has its table or starts one,
-- with a free frame for each page, room in the heap for the tables, all tables below the heap's top
-- and with the directory's words for them, and fuel above `n`: the call reports `n` more pages. Each
-- address of the region then has a table and is mapped, for the processor that reads the directory's
-- words, which are again those of the tables, what was mapped in a table stays mapped, no table is replaced, those of other
-- addresses and their words are as before, tables in use by no page of the region have the same entries, and each
-- page took one free frame.
pub map_region-Grows :
    (n fuel created top end : ℕ) (k : Machine)
    → n < fuel
    → end ≡ top + n * page_size
    → end < u32_mod
    → created + n < u32_mod
    → top % page_size ≡ 0
    → HasRoom n top k
    → (k' : Machine) × (map_region fuel created top end k ≡ mapped (created + n) k')
      × Grows (InPages n top) n k k'
map_region-Grows n zero created top end k lt e max count al r = absurd (omega (arith, lt))
map_region-Grows zero (suc fuel) created top end k lt e max count al r = (
  k,
  map_region_end fuel created top end k (omega (arith, e)) ∙ ap (λ c. mapped c k) (omega arith),
  Grows-none (InPages 0 top) k (λ a p. absurd (let (lo, hi) = p in omega (arith, lo, hi))) r.linked,
)
map_region-Grows (suc n) (suc fuel) created top end k lt e max count al r =
    let (k₁, one, g, _, _, _) = map_page-Grows n top k al r in
    let (k₂, rest, h) =
      map_region-Grows n fuel (created + 1) (top + page_size) end k₁ (omega (arith, lt))
        (omega (arith, e)) max (omega (arith, count)) (omega (arith, al))
        (next_HasRoom n top k k₁ al r g) in
    let first = map_region_step fuel created top end k k₁ (omega (arith, e)) one in
    let z : add32 created 1 ≡ created + 1 = omega (arith, count) in
    let y : add32 top page_size ≡ top + page_size = omega (arith, e, max) in
    (
      k₂,
      first ∙ rw (z, y) (rest ∙ ap (λ c. mapped c k₂) (omega arith)),
      Grows-next (InPages 1 top) (InPages n (top + page_size)) (InPages (suc n) top) 1 n (suc n) k
          k₁ k₂ (pages_split n top) (λ a p. (p.0, let b = p.1 in omega (arith, b)))
          (λ a p. (let b = p.0 in omega (arith, b), let b = p.1 in omega (arith, b))) (omega arith)
          r.heap g h,
    )
