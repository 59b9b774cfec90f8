-- ===== src/Paging/Space/Fault.antt =====
-- kernel/kernel/paging.cpp, page_fault_handler: when the address of a fault is mapped afterwards.
use juos.Prelude.{
  ℕ, suc, ◌+◌, ◌-◌, ◌*◌, ◌%◌, ◌≤◌, ◌<◌, ◌≡◌, ◌≢◌, sym, ◌∙◌, ap, subst, ◌⊎◌, inl, inr, true, some,
  ◌==◌, arith,
}
use native.Mathlib.Decide.{dec_le}
use juos.Prelude.Words.{add32, u32_mod}
use juos.PrimitiveHeap.{allocate_lem, page_size}
use juos.Paging.{Machine, map_region, mapped}
use juos.Paging.Frames.{free_count, find_first-free}
use juos.Paging.Map.{IsMapped}
use juos.Paging.Step.{
  index_of, table_of, written, with_table, map_region_step, map_region_end, map_page_lem,
  get_page-absent,
}
use juos.Paging.Space.{
  Space, machine_of, with_machine, map_region_in, returned_space, page_fault_handler,
}
use juos.Paging.Space.Grown.{IsLinked, IsSettled, InPages, new_table-IsLinked}
use juos.Paging.Space.Aligned.{map_region-Grows}
use juos.Paging.Space.Mappings.{machine_of-with, map_region_in_lem}

-- There is room for `n` faults.
pub record HasFaultRoom (n : ℕ) (k : Machine) : Type 0 where
  pub linked : IsLinked k
  pub heap : 0 < k.heap_top
  pub room : k.heap_top + (n + 1) * (2 * page_size) < u32_mod
  pub frames : n ≤ free_count k.frames

-- A fault leaves a table for the page, and if there was one or the page is its first, the page is
-- mapped.
record Faulted (n top : ℕ) (k k' : Machine) : Type 0 where
  table : 0 < k'.dir.tables (table_of top)
  left : HasFaultRoom n k'
  page : IsSettled top k → (a : ℕ) → InPages 1 top a → IsMapped a k'

fault_settled :
    (n fuel top : ℕ) (k : Machine)
    → top + page_size < u32_mod
    → top % page_size ≡ 0
    → HasFaultRoom (suc n) k
    → IsSettled top k
    → (k' : Machine) × (map_region (suc (suc fuel)) 0 top (top + page_size) k ≡ mapped 1 k')
      × Faulted n top k k'
fault_settled n fuel top k fits al r settled =
    let room = r.room in
    let frames = r.frames in
    let heap = r.heap in
    let (k', e, g) =
      map_region-Grows 1 (suc (suc fuel)) 0 top (top + page_size) k (omega arith) (omega arith) fits
        (omega arith) al
        (record {
          settled = settled;
          linked = r.linked;
          heap = r.heap;
          room = omega (arith, room);
          frames = omega (arith, frames);
        }) in
    let up = g.higher in
    let low = g.lower in
    let used = g.used in
    (
      k',
      e,
      record {
        table = (g.pages top (omega arith, omega arith)).0;
        left = record {
          linked = g.linked;
          heap = omega (arith, heap, up);
          room = omega (arith, room, low);
          frames = omega (arith, frames, used);
        };
        page = λ _ a p. (g.pages a p).1;
      },
    )

fault_fresh :
    (n fuel top : ℕ) (k : Machine)
    → top + page_size < u32_mod
    → top % page_size ≡ 0
    → HasFaultRoom (suc n) k
    → k.dir.tables (table_of top) ≡ 0
    → index_of top ≢ 0
    → (k' : Machine) × (map_region (suc (suc fuel)) 0 top (top + page_size) k ≡ mapped 1 k')
      × Faulted n top k k'
fault_fresh n fuel top k fits al r absent inner =
    let room = r.room in
    let frames = r.frames in
    let heap = r.heap in
    let below = r.linked in
    let (i, found, less) = find_first-free k.frames (omega (arith, frames)) in
    let (lo, hi, aligned, end, _) = allocate_lem page_size k.heap_top (omega (arith, room)) in
    let k' = written _ i (with_table top k) in
    let e : add32 top page_size ≡ top + page_size = omega (arith, fits) in
    (
      k',
      map_region_step (suc fuel) 0 top (top + page_size) k k' (omega arith)
            (map_page_lem top i _ k (with_table top k) (get_page-absent top k absent) found)
          ∙ rw e (map_region_end fuel 1 (top + page_size) (top + page_size) k' (omega arith)),
      record {
        table = ground (arith, heap, lo);
        left = record {
          linked = new_table-IsLinked _ _ top k lo (omega (arith, end)) below;
          heap = omega (arith, heap, lo, end);
          room = omega (arith, room, hi, end);
          frames = omega (arith, frames, less);
        };
        page = λ settled. elim settled [
          | inl pos ↦ absurd (omega (arith, absent, pos))
          | inr first ↦ absurd (inner first)
        ];
      },
    )

map_region-Faulted :
    (n fuel top : ℕ) (k : Machine)
    → top + page_size < u32_mod
    → top % page_size ≡ 0
    → HasFaultRoom (suc n) k
    → (k' : Machine) × (map_region (suc (suc fuel)) 0 top (top + page_size) k ≡ mapped 1 k')
      × Faulted n top k k'
map_region-Faulted n fuel top k fits al r = elim (dec_le 1 (k.dir.tables (table_of top))) [
  | yes pos ↦ fault_settled n fuel top k fits al r (inl pos)
  | no none_of ↦ elim (dec_le 1 (index_of top)) [
    | yes inner ↦
        fault_fresh n fuel top k fits al r (omega (arith, none_of)) (λ z. omega (arith, inner, z))
    | no first ↦ fault_settled n fuel top k fits al r (inr (omega (arith, first)))
  ]
]

-- The page has no table and is not the first one of its.
abbrev pub IsUnsettled : ℕ → Machine → Type 0
IsUnsettled top k = (k.dir.tables (table_of top) ≡ 0) × (0 < index_of top)

IsSettled-or_not : (top : ℕ) (k : Machine) → IsSettled top k ⊎ IsUnsettled top k
IsSettled-or_not top k = elim (dec_le 1 (k.dir.tables (table_of top))) [
  | yes pos ↦ inl (inl pos)
  | no none_of ↦ elim (dec_le 1 (index_of top)) [
    | yes inner ↦ inr (omega (arith, none_of), inner)
    | no first ↦ inl (inr (omega (arith, first)))
  ]
]

-- The start of the page of an address.
abbrev pub page_start : ℕ → ℕ
page_start addr = addr - addr % page_size

page_fault_handler_step :
    (fuel err addr d n : ℕ) (s s' : Space)
    → err % 2 ≡ 0
    → page_start addr + page_size < u32_mod
    → map_region_in fuel (page_start addr) (page_start addr + page_size) d s ≡ some (n, s')
    → page_fault_handler fuel err addr (some d) s ≡ some s'
unfolding page_fault_handler
page_fault_handler_step fuel err addr d n s s' even fits e =
    let z : add32 (page_start addr) page_size ≡ page_start addr + page_size = omega (arith, fits) in
    let b : (err % 2 == 0) ≡ true = ground (arith, even) in rw z (rw b (ap returned_space e))

-- One fault in the directory `d`.
one_fault :
    (n fuel err addr d : ℕ) (s : Space)
    → err % 2 ≡ 0
    → page_start addr + page_size < u32_mod
    → 0 < d
    → HasFaultRoom (suc n) (machine_of d s)
    → (s' : Space) × (page_fault_handler (suc (suc fuel)) err addr (some d) s ≡ some s')
      × Faulted n (page_start addr) (machine_of d s) (machine_of d s')
one_fault n fuel err addr d s even fits pos r =
    let (k, e, f) =
      map_region-Faulted n fuel (page_start addr) (machine_of d s) fits (omega arith) r in
    (
      with_machine d k s,
      page_fault_handler_step (suc (suc fuel)) err addr d 1 s (with_machine d k s) even fits (
          map_region_in_lem (suc (suc fuel)) 1 (page_start addr) (page_start addr + page_size) d k s
            pos e),
      subst (Faulted n (page_start addr) (machine_of d s)) (sym (machine_of-with d k s)) f,
    )

-- A fault for a page that is not present, at an address below the last page, in the directory of a
-- process whose tables lie below the top of the heap and have their words in it, with free frames and room in the heap for two
-- pages: the handler returns. Unless the page has no table and is not the first one of its table, the
-- address is then mapped; it is mapped after a second fault at the address in any case.
pub page_fault_handler-IsMapped :
    (fuel err err' addr d : ℕ) (s : Space)
    → err % 2 ≡ 0
    → err' % 2 ≡ 0
    → page_start addr + page_size < u32_mod
    → 0 < d
    → HasFaultRoom 2 (machine_of d s)
    → (s₁ : Space) × (s₂ : Space) × (page_fault_handler (suc (suc fuel)) err addr (some d) s
        ≡ some s₁)
      × (page_fault_handler (suc (suc fuel)) err' addr (some d) s₁ ≡ some s₂)
      × (IsUnsettled (page_start addr) (machine_of d s) ⊎ IsMapped addr (machine_of d s₁))
      × IsMapped addr (machine_of d s₂)
page_fault_handler-IsMapped fuel err err' addr d s even even' fits pos r =
    let (s₁, e, f) = one_fault 1 fuel err addr d s even fits pos r in
    let (s₂, e', f') = one_fault 0 fuel err' addr d s₁ even' fits pos f.left in
    (
      s₁,
      s₂,
      e,
      e',
      elim (IsSettled-or_not (page_start addr) (machine_of d s)) [
        | inl settled ↦ inr (f.page settled addr (omega arith, omega arith))
        | inr not ↦ inl not
      ],
      f'.page (inl f.table) addr (omega arith, omega arith),
    )
