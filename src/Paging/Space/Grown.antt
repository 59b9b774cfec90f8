-- ===== src/Paging/Space/Grown.antt =====
-- kernel/kernel/paging.cpp: what mapping a region keeps, for one page whose table may be made, and for
-- a region behind another.
use juos.Prelude.{
  ℕ, suc, ◌==◌, Bool-cases, ◌+◌, ◌*◌, ◌/◌, ◌%◌, ◌^◌, ◌≤◌, ◌<◌, ◌≡◌, ◌≢◌, refl, sym, ◌∙◌, ◌⊎◌, inl,
  inr, true, some, arith, set,
}
use native.Mathlib.Decide.{dec_le}
use Prim.Native.Nat.{bit_or}
use juos.Prelude.Maps.{update}
use juos.Prelude.Words.{u32_mod}
use juos.PrimitiveHeap.{allocate_lem, page_size}
use juos.Paging.{Machine, find_first, blank_page, map_page}
use juos.Paging.Frames.{free_count, find_first-free}
use juos.Paging.Map.{IsMapped}
use juos.Paging.Step.{
  entry, index_of, table_of, written, with_table, map_page_lem, get_page-absent, get_page-present,
}

-- The tables lie below the top of the heap, and the directory's word for a table, which the processor
-- reads, is its address with the flags.
abbrev pub IsLinked : Machine → Type 0
IsLinked k =
    (t : ℕ)
    → (k.dir.tables t < k.heap_top)
      × ((k.dir.tables t ≡ 0) ⊎ (k.dir.table_addresses t ≡ bit_or (k.dir.tables t) 7))

-- Where there is a table, its word is there.
pub linked_word :
    (t : ℕ) (k : Machine)
    → IsLinked k
    → 0 < k.dir.tables t
    → k.dir.table_addresses t ≡ bit_or (k.dir.tables t) 7
linked_word t k linked pos = elim (linked t).1 [
  | inl z ↦ absurd (omega (arith, z, pos))
  | inr e ↦ e
]

-- A page's table is there, or the page is the first one of its table.
abbrev pub IsSettled : ℕ → Machine → Type 0
IsSettled top k = (0 < k.dir.tables (table_of top)) ⊎ (index_of top ≡ 0)

-- The addresses of `n` pages from `top` on.
abbrev pub InPages : ℕ → ℕ → ℕ → Type 0
InPages n top a = (top ≤ a) × (a < top + n * page_size)

-- The addresses of a region are mapped, with `n` frames, and all that was there is kept.
pub record Grows (R : ℕ → Type 0) (n : ℕ) (k k' : Machine) : Type 0 where
  pub pages : (a : ℕ) → R a → (0 < k'.dir.tables (table_of a)) × IsMapped a k'
  pub kept : (a : ℕ) → 0 < k.dir.tables (table_of a) → IsMapped a k → IsMapped a k'
  pub linked : IsLinked k'
  pub changed :
      (t : ℕ)
      → (k'.dir.tables t ≡ k.dir.tables t) ⊎ ((k.dir.tables t ≡ 0) × (k.heap_top ≤ k'.dir.tables t))
  pub outside :
      (t : ℕ)
      → ((a : ℕ) → R a → table_of a ≢ t)
      → (k'.dir.tables t ≡ k.dir.tables t) × (k'.dir.table_addresses t ≡ k.dir.table_addresses t)
  pub memory_kept :
      (p : ℕ)
      → 0 < p
      → p < k.heap_top
      → ((a : ℕ) → R a → k.dir.tables (table_of a) ≢ p)
      → k'.memory p ≡ k.memory p
  pub higher : k.heap_top ≤ k'.heap_top
  pub lower : k'.heap_top ≤ k.heap_top + n * (2 * page_size)
  pub used : free_count k'.frames + n ≡ free_count k.frames

pub Grows-none : (R : ℕ → Type 0) (k : Machine) → ((a : ℕ) → R a → ⊥) → IsLinked k → Grows R 0 k k
Grows-none R k none_of below = record {
  pages = λ a r. absurd (none_of a r);
  kept = λ a p h. h;
  linked = below;
  changed = λ t. inl refl;
  outside = λ t h. (refl, refl);
  memory_kept = λ p pos lt h. refl;
  higher = omega arith;
  lower = omega arith;
  used = omega arith;
}

same_page :
    (top a : ℕ)
    → top % page_size ≡ 0
    → top ≤ a
    → a < top + 1 * page_size
    → a / page_size ≡ top / page_size
same_page top a al lo hi = omega arith

-- The page at `top` has the frame `i`, and the other entries of its table are as before.
pub record TakesFrame (top i : ℕ) (k k' : Machine) : Type 0 where
  pub frames : k'.frames ≡ set k.frames i true
  pub frame : (a : ℕ) → InPages 1 top a → (entry a k').frame_addr ≡ i % 2 ^ 20
  pub entries :
      (a : ℕ)
      → 0 < k.dir.tables (table_of top)
      → table_of a ≡ table_of top
      → index_of a ≢ index_of top
      → entry a k' ≡ entry a k

-- One page in a table that is there.
page_present :
    (top i : ℕ) (k : Machine)
    → top % page_size ≡ 0
    → 0 < k.dir.tables (table_of top)
    → IsLinked k
    → free_count (set k.frames i true) + 1 ≡ free_count k.frames
    → Grows
        (InPages 1 top)
        1
        k
        (written (record { table = k.dir.tables (table_of top); index = index_of top }) i k)
page_present top i k al pos below less = record {
  pages = λ a r.
      let word = linked_word (table_of top) k below pos in
      rw (same_page top a al r.0 r.1) (pos, (ground arith, word));
  kept = λ a p h. let (on, word) = h in (ground arith, word);
  linked = below;
  changed = λ t. inl refl;
  outside = λ t h. (refl, refl);
  memory_kept = λ p q lt h. let apart = h top (omega arith, omega arith) in ground arith;
  higher = omega arith;
  lower = omega arith;
  used = less;
}

-- The machine with a new table at `at`.
abbrev pub new_table : ℕ → ℕ → ℕ → Machine → Machine
new_table at heap_top top k = record k {
  heap_top = heap_top;
  memory = update k.memory at (λ _. blank_page);
  dir = record {
    tables = update k.dir.tables (table_of top) at;
    table_addresses = update k.dir.table_addresses (table_of top) (bit_or at 7);
  };
}

pub new_table-IsLinked :
    (at heap_top top : ℕ) (k : Machine)
    → k.heap_top ≤ at
    → at < heap_top
    → IsLinked k
    → IsLinked (new_table at heap_top top k)
new_table-IsLinked at heap_top top k lo above below t = elim (Bool-cases (table_of top == t)) [
  | inl e ↦ (ground arith, inr (ground arith))
  | inr ne ↦ let (b, word) = below t in (ground arith, rw ne word)
]

-- One page in a new table.
page_made :
    (at heap_top top i : ℕ) (k : Machine)
    → top % page_size ≡ 0
    → k.dir.tables (table_of top) ≡ 0
    → index_of top ≡ 0
    → 0 < k.heap_top
    → k.heap_top ≤ at
    → at % page_size ≡ 0
    → at < heap_top
    → heap_top ≤ k.heap_top + 2 * page_size
    → IsLinked k
    → free_count (set k.frames i true) + 1 ≡ free_count k.frames
    → Grows
        (InPages 1 top)
        1
        k
        (written (record { table = at; index = at % 1024 }) i (new_table at heap_top top k))
page_made at heap_top top i k al absent first heap lo aligned above low below less =
    let start : at % 1024 ≡ 0 = omega (arith, aligned) in
    record {
      pages = λ a r. rw (same_page top a al r.0 r.1) (ground arith, (ground arith, ground arith));
      kept = λ a p h.
          let (b, _) = below (table_of a) in let (on, word) = h in (ground arith, ground arith);
      linked = λ t. new_table-IsLinked at heap_top top k lo above below t;
      changed = λ t. ground arith;
      outside = λ t h. let apart = h top (omega arith, omega arith) in (ground arith, ground arith);
      memory_kept = λ p q lt h. ground arith;
      higher = omega (arith, lo, above);
      lower = omega (arith, low);
      used = less;
    }

-- What the mapping asks of a machine for `n` pages from `top` on.
pub record HasRoom (n top : ℕ) (k : Machine) : Type 0 where
  pub settled : IsSettled top k
  pub linked : IsLinked k
  pub heap : 0 < k.heap_top
  pub room : k.heap_top + (n + 1) * (2 * page_size) < u32_mod
  pub frames : n ≤ free_count k.frames

first_of :
    (top : ℕ) (k : Machine) → k.dir.tables (table_of top) ≡ 0 → IsSettled top k → index_of top ≡ 0
first_of top k absent (inl pos) = absurd (omega (arith, absent, pos))
first_of top k absent (inr first) = first

-- A table that is there stays.
pub kept_pos :
    (a : ℕ) (k k' : Machine)
    → 0 < k.dir.tables (table_of a)
    → (k'.dir.tables (table_of a) ≡ k.dir.tables (table_of a))
      ⊎ ((k.dir.tables (table_of a) ≡ 0) × (k.heap_top ≤ k'.dir.tables (table_of a)))
    → 0 < k'.dir.tables (table_of a)
kept_pos a k k' pos (inl same) = omega (arith, pos, same)
kept_pos a k k' pos (inr (z, le)) = absurd (omega (arith, pos, z))

-- Two changes in a row.
changed_next :
    (old mid new top top' : ℕ)
    → 0 < top
    → top ≤ top'
    → (mid ≡ old) ⊎ ((old ≡ 0) × (top ≤ mid))
    → (new ≡ mid) ⊎ ((mid ≡ 0) × (top' ≤ new))
    → (new ≡ old) ⊎ ((old ≡ 0) × (top ≤ new))
changed_next old mid new top top' pos le (inl e) (inl e') = inl (e' ∙ e)
changed_next old mid new top top' pos le (inl e) (inr (z, b)) =
    inr (omega (arith, e, z), omega (arith, le, b))
changed_next old mid new top top' pos le (inr (z, b)) (inl e') = inr (z, omega (arith, b, e'))
changed_next old mid new top top' pos le (inr (z, b)) (inr (z', b')) =
    absurd (omega (arith, pos, b, z'))

-- A table below the old top that is not written is not a new one either.
apart_next :
    (old mid top p : ℕ) → p < top → old ≢ p → (mid ≡ old) ⊎ ((old ≡ 0) × (top ≤ mid)) → mid ≢ p
apart_next old mid top p lt ne (inl e) is = ne (sym e ∙ is)
apart_next old mid top p lt ne (inr (z, b)) is = omega (arith, lt, b, is)

made_frame :
    (at heap_top top i : ℕ) (k : Machine)
    → top % page_size ≡ 0
    → k.dir.tables (table_of top) ≡ 0
    → index_of top ≡ 0
    → at % page_size ≡ 0
    → TakesFrame top i k
        (written (record { table = at; index = at % 1024 }) i (new_table at heap_top top k))
made_frame at heap_top top i k al absent first aligned =
    let start : at % 1024 ≡ 0 = omega (arith, aligned) in
    record {
      frames = refl;
      frame = λ a p. rw (same_page top a al p.0 p.1) (ground arith);
      entries = λ a q e ne. absurd (omega (arith, q, absent));
    }

pub map_page-Grows :
    (n top : ℕ) (k : Machine)
    → top % page_size ≡ 0
    → HasRoom (suc n) top k
    → (k' : Machine) × (map_page top k ≡ some k')
      × Grows (InPages 1 top) 1 k k'
      × (i : ℕ) × (find_first k.frames ≡ some i)
      × TakesFrame top i k k'
map_page-Grows n top k al r =
    let f = r.frames in
    let room = r.room in
    let (i, found, less) = find_first-free k.frames (omega (arith, f)) in
    elim (dec_le 1 (k.dir.tables (table_of top))) [
      | yes pos ↦ (
        written (record { table = k.dir.tables (table_of top); index = index_of top }) i k,
        map_page_lem top i _ k k (get_page-present top k pos) found,
        page_present top i k al pos r.linked less,
        i,
        found,
        record {
          frames = refl;
          frame = λ a p. rw (same_page top a al p.0 p.1) (ground arith);
          entries = λ a q e ne. rw e (ground arith);
        },
      )
      | no none_of ↦
          let absent : k.dir.tables (table_of top) ≡ 0 = omega (arith, none_of) in
          let (lo, hi, aligned, end, _) = allocate_lem page_size k.heap_top (omega (arith, room)) in
          let first = first_of top k absent r.settled in
          (
            written _ i (with_table top k),
            map_page_lem top i _ k (with_table top k) (get_page-absent top k absent) found,
            page_made _ _ top i k al absent first r.heap lo aligned (omega (arith, end))
                (omega (arith, end, hi)) r.linked less,
            i,
            found,
            made_frame _ _ top i k al absent first aligned,
          )
    ]

-- A region and then another.
pub Grows-next :
    (P Q R : ℕ → Type 0) (m n total : ℕ) (k k₁ k₂ : Machine)
    → ((a : ℕ) → R a → P a ⊎ Q a)
    → ((a : ℕ) → P a → R a)
    → ((a : ℕ) → Q a → R a)
    → m + n ≡ total
    → 0 < k.heap_top
    → Grows P m k k₁
    → Grows Q n k₁ k₂
    → Grows R total k k₂
Grows-next P Q R m n total k k₁ k₂ split left right sum heap g h = record {
  pages = λ a r. elim (split a r) [
    | inr behind ↦ h.pages a behind
    | inl before ↦
        let (pos, is) = g.pages a before in
        (kept_pos a k₁ k₂ pos (h.changed (table_of a)), h.kept a pos is)
  ];
  kept = λ a p is. h.kept a (kept_pos a k k₁ p (g.changed (table_of a))) (g.kept a p is);
  linked = h.linked;
  changed = λ t.
      changed_next (k.dir.tables t) (k₁.dir.tables t) (k₂.dir.tables t) k.heap_top k₁.heap_top heap
        g.higher (g.changed t) (h.changed t);
  outside = λ t apart.
      let (tables, words) = h.outside t (λ a q. apart a (right a q)) in
      let (tables', words') = g.outside t (λ a p. apart a (left a p)) in
      (tables ∙ tables', words ∙ words');
  memory_kept = λ p pos lt apart.
      let up = g.higher in
      h.memory_kept p pos (omega (arith, lt, up)) (λ a q.
        apart_next (k.dir.tables (table_of a)) (k₁.dir.tables (table_of a)) k.heap_top p lt
          (apart a (right a q)) (g.changed (table_of a)))
      ∙ g.memory_kept p pos lt (λ a q. apart a (left a q));
  higher = let a = g.higher in let b = h.higher in omega (arith, a, b);
  lower = let a = g.lower in let b = h.lower in omega (arith, a, b, sum);
  used = let a = g.used in let b = h.used in omega (arith, a, b, sum);
}
