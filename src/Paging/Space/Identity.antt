-- ===== src/Paging/Space/Identity.antt =====
-- kernel/kernel/paging.cpp: while the frames are given out in order, a region from 0 on is mapped to
-- itself.
use juos.Prelude.{
  ℕ, zero, suc, ◌+◌, ◌*◌, ◌/◌, ◌≤◌, ◌<◌, ◌≡◌, refl, sym, ◌∙◌, ap, subst, ◌⊎◌, inl, inr, Bool, true,
  false, some, List, ◌∷◌, ◌++◌, arith, set, replicate,
}
use native.Mathlib.Decide.{dec_le}
use juos.Prelude.Words.{add32}
use juos.PrimitiveHeap.{page_size}
use juos.Paging.{Machine, find_first, map_region, mapped}
use juos.Paging.Map.{IsMapped}
use juos.Paging.Step.{entry, table_of, map_region_step, map_region_end}
use juos.Paging.Space.Grown.{
  HasRoom, InPages, Grows, Grows-none, Grows-next, TakesFrame, map_page-Grows, kept_pos,
}
use juos.Paging.Space.Aligned.{next_HasRoom}

-- The first `i` frames are taken and the next `m` are free.
abbrev pub taken : ℕ → ℕ → List Bool
taken i m = replicate i true ++ replicate m false

find_first-taken : (i m : ℕ) → find_first (taken i (suc m)) ≡ some i
unfolding find_first
find_first-taken zero m = refl
find_first-taken (suc i) m = rw (find_first-taken i m) refl

set-taken : (i m : ℕ) → set (taken i (suc m)) i true ≡ taken (suc i) m
set-taken zero m = refl
set-taken (suc i) m = ap (◌∷◌ true) (set-taken i m)

-- The first `i` pages are mapped to themselves, and the frames are taken in order.
pub record IsIdentity (i m : ℕ) (k : Machine) : Type 0 where
  pub frames : k.frames ≡ taken i m
  pub pages :
      (a : ℕ)
      → a < i * page_size
      → (0 < k.dir.tables 0) × IsMapped a k × ((entry a k).frame_addr ≡ a / page_size)

next_IsIdentity :
    (i m f : ℕ) (k k₁ : Machine)
    → i < 1024
    → IsIdentity i (suc m) k
    → find_first k.frames ≡ some f
    → Grows (InPages 1 (i * page_size)) 1 k k₁
    → TakesFrame (i * page_size) f k k₁
    → IsIdentity (suc i) m k₁
next_IsIdentity i m f k k₁ lt is found g t =
    let e : some i ≡ some f = sym (find_first-taken i m) ∙ ap find_first (sym is.frames) ∙ found in
    let same : i ≡ f = cc e in
    record {
      frames =
          t.frames
          ∙ subst (λ x. set k.frames x true ≡ taken (suc i) m) same
              (rw (is.frames) (set-taken i m));
      pages = λ a hi. elim (dec_le (i * page_size) a) [
        | yes here ↦
            let p : InPages 1 (i * page_size) a = (here, omega (arith, hi)) in
            let z : table_of a ≡ 0 = omega (arith, lt, hi) in
            let (pos, on) = g.pages a p in
            (
              subst (λ x. 0 < k₁.dir.tables x) z pos,
              on,
              t.frame a p ∙ omega (arith, here, hi, same, lt),
            )
        | no before ↦
            let (pos, on, at) = is.pages a (omega (arith, before)) in
            let z : table_of a ≡ 0 = omega (arith, lt, hi) in
            let z' : table_of (i * page_size) ≡ 0 = omega (arith, lt) in
            let pos' : 0 < k.dir.tables (table_of a) = rw z pos in
            (
              subst (λ x. 0 < k₁.dir.tables x) z (kept_pos a k k₁ pos' (g.changed (table_of a))),
              g.kept a pos' on,
              ap (λ e. e.frame_addr)
                    (t.entries a (rw z' pos) (z ∙ sym z') (λ e. omega (arith, e, before, lt)))
                  ∙ at,
            )
      ];
    }

identity_step :
    (n i fuel : ℕ) (k₁ k₂ : Machine)
    → i + suc n ≤ 1024
    → map_region fuel (suc i) (suc i * page_size) ((suc i + n) * page_size) k₁
      ≡ mapped (suc i + n) k₂
    → map_region fuel (add32 i 1) (add32 (i * page_size) page_size) ((i + suc n) * page_size) k₁
      ≡ mapped (i + suc n) k₂
identity_step n i fuel k₁ k₂ small e =
    let a : add32 i 1 ≡ suc i = omega (arith, small) in
    let b : add32 (i * page_size) page_size ≡ suc i * page_size = omega (arith, small) in
    let c : i + suc n ≡ suc i + n = omega arith in rw (a, b, c) e

pages_split_next :
    (n i a : ℕ)
    → InPages (suc n) (i * page_size) a
    → InPages 1 (i * page_size) a ⊎ InPages n (suc i * page_size) a
pages_split_next n i a (lo, hi) = elim (dec_le (suc i * page_size) a) [
  | yes behind ↦ inr (behind, omega (arith, hi))
  | no before ↦ inl (lo, omega (arith, before))
]

pub map_region-IsIdentity :
    (n i m fuel : ℕ) (k : Machine)
    → n < fuel
    → i + n ≤ 1024
    → HasRoom n (i * page_size) k
    → IsIdentity i (n + m) k
    → (k' : Machine) × (map_region fuel i (i * page_size) ((i + n) * page_size) k
        ≡ mapped (i + n) k')
      × Grows (InPages n (i * page_size)) n k k'
      × IsIdentity (i + n) m k'
map_region-IsIdentity n i m zero k lt small r is = absurd (omega (arith, lt))
map_region-IsIdentity zero i m (suc fuel) k lt small r is = (
  k,
  map_region_end fuel i (i * page_size) ((i + 0) * page_size) k (omega arith)
      ∙ ap (λ c. mapped c k) (omega arith),
  Grows-none (InPages 0 (i * page_size)) k (λ a p. let (lo, hi) = p in omega (arith, lo, hi))
      r.linked,
  let e : 0 + m ≡ m = omega arith in
      let e' : i ≡ i + 0 = omega arith in
      subst (λ j. IsIdentity j m k) e' (subst (λ j. IsIdentity i j k) e is),
)
map_region-IsIdentity (suc n) i m (suc fuel) k lt small r is =
    let (k₁, one, g, f, found, t) = map_page-Grows n (i * page_size) k (omega arith) r in
    let up : i * page_size + page_size ≡ suc i * page_size = omega arith in
    let r' =
      subst (λ x. HasRoom n x k₁) up (next_HasRoom n (i * page_size) k k₁ (omega arith) r g) in
    let is' =
      next_IsIdentity i (n + m) f k k₁ (omega (arith, small))
        (let e : suc n + m ≡ suc (n + m) = omega arith in subst (λ j. IsIdentity i j k) e is) found
        g t in
    let (k₂, rest, h, last) =
      map_region-IsIdentity n (suc i) m fuel k₁ (omega (arith, lt)) (omega (arith, small)) r' is' in
    let sum : suc i + n ≡ i + suc n = omega arith in
    (
      k₂,
      map_region_step fuel i (i * page_size) ((i + suc n) * page_size) k k₁ (omega arith) one
          ∙ identity_step n i fuel k₁ k₂ small rest,
      Grows-next (InPages 1 (i * page_size)) (InPages n (suc i * page_size))
          (InPages (suc n) (i * page_size)) 1 n (suc n) k k₁ k₂ (pages_split_next n i)
          (λ a p. (p.0, let b = p.1 in omega (arith, b)))
          (λ a p. (let b = p.0 in omega (arith, b), let b = p.1 in omega (arith, b))) (omega arith)
          r.heap g h,
      subst (λ j. IsIdentity j m k₂) sum last,
    )
