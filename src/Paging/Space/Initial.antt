-- ===== src/Paging/Space/Initial.antt =====
-- kernel/kernel/paging.cpp, Initialize: the kernel is mapped to itself, and its heap is mapped.
use juos.Prelude.{
  ℕ, ◌+◌, ◌*◌, ◌/◌, ◌≤◌, ◌<◌, ◌≡◌, ◌≢◌, refl, sym, ◌∙◌, ap, subst, inl, inr, Bool, true, false,
  some, arith,
}
use juos.Prelude.Maps.{update_self, update_ne}
use juos.Prelude.Options.{◌>>=◌}
use juos.Prelude.Words.{add32, u32_mod}
use juos.PrimitiveHeap.{allocate, allocate_lem, page_size}
use juos.Paging.{Machine, frame_table, map_region, mapped}
use juos.Paging.Frames.{free_count, free_count-untaken}
use juos.Paging.Map.{IsMapped}
use juos.Paging.Step.{entry, index_of, table_of}
use juos.Paging.Space.{
  Space, blank_directory, unmapped, finished, machine_of, with_machine, map_region_in, map_heap,
  initialize, number_of_frames, mapped_region, heap_start, heap_initial_size,
}
use juos.Paging.Space.Grown.{IsLinked, InPages, Grows}
use juos.Paging.Space.Aligned.{map_region-Grows}
use juos.Paging.Space.Mappings.{machine_of-with, map_region_in_lem}
use juos.Paging.Space.Identity.{taken, IsIdentity, map_region-IsIdentity}

-- The heap's pages do not touch the first table.
heap_keeps :
    (a : ℕ) (k k' : Machine)
    → a < mapped_region
    → 0 < k.dir.tables 0
    → IsLinked k
    → ((b : ℕ) → InPages 4096 heap_start b → k.dir.tables (table_of b) ≡ 0)
    → Grows (InPages 4096 heap_start) 4096 k k'
    → entry a k' ≡ entry a k
heap_keeps a k k' lt pos below absent g =
    let z : table_of a ≡ 0 = omega (arith, lt) in
    let same : k'.dir.tables 0 ≡ k.dir.tables 0 =
      (g.outside 0 (λ b p e. let (lo, hi) = p in omega (arith, lo, e))).0 in
    let m : k'.memory (k.dir.tables 0) ≡ k.memory (k.dir.tables 0) =
      g.memory_kept (k.dir.tables 0) pos (below 0).0 (λ b p e. omega (arith, pos, e, absent b p)) in
    subst (λ t. k'.memory (k'.dir.tables t) (index_of a) ≡ k.memory (k.dir.tables t) (index_of a))
      (sym z) (rw (same, m) refl)

-- The addresses of the kernel's heap, where it is mapped.
abbrev pub InHeap : Bool → ℕ → Type 0
InHeap false a = ⊥
InHeap true a = (heap_start ≤ a) × (a < heap_start + heap_initial_size)

map_heap_lem :
    (fuel d : ℕ) (heap : Bool) (s : Space)
    → 4096 < fuel
    → 0 < d
    → IsLinked (machine_of d s)
    → 0 < s.heap_top
    → s.heap_top + 4097 * (2 * page_size) < u32_mod
    → 4096 ≤ free_count s.frames
    → ((b : ℕ) → InPages 4096 heap_start b → (s.directories d).tables (table_of b) ≡ 0)
    → 0 < (s.directories d).tables 0
    → (p : ℕ) × (s' : Space) × (map_heap fuel heap d (512, s) ≡ some (p, s'))
      × ((a : ℕ)
          → a < mapped_region
          → IsMapped a (machine_of d s)
          → IsMapped a (machine_of d s') × (entry a (machine_of d s') ≡ entry a (machine_of d s)))
      × ((a : ℕ) → InHeap heap a → IsMapped a (machine_of d s'))
      × (s'.current_directory ≡ s.current_directory)
      × (s'.kernel_directory ≡ s.kernel_directory)
unfolding map_heap
map_heap_lem fuel d false s lt pos below heap room frames absent here =
    (512, s, refl, (λ a h on. (on, refl)), (λ a h. absurd h), refl, refl)
map_heap_lem fuel d true s lt pos below heap room frames absent here =
    let (k, e, g) =
      map_region-Grows 4096 fuel 0 heap_start 0xC1000000 (machine_of d s) lt refl (omega arith)
        (omega arith) refl
        (record {
          settled = inr refl;
          linked = below;
          heap = heap;
          room = room;
          frames = frames;
        }) in
    let s' = with_machine d k s in
    let called = map_region_in_lem fuel 4096 heap_start 0xC1000000 d k s pos e in
    let at : machine_of d s' ≡ k = machine_of-with d k s in
    (
      add32 512 4096,
      s',
      ap (λ r. r >>= λ x. some (add32 512 x.0, x.1)) called,
      (λ a h on.
          subst (λ x. IsMapped a x × (entry a x ≡ entry a (machine_of d s))) (sym at)
            (
              g.kept a
                  (let z : 0 ≡ table_of a = omega (arith, h) in
                    subst (λ t. 0 < (s.directories d).tables t) z here)
                  on,
              heap_keeps a (machine_of d s) k h here below absent g,
            )),
      (λ a h. subst (IsMapped a) (sym at) (g.pages a h).1),
      refl,
      refl,
    )

initialize_step :
    (fuel : ℕ) (heap : Bool) (n p : ℕ) (s s₁ s₂ : Space)
    → map_region_in fuel 0 mapped_region (unmapped s).kernel_directory (unmapped s) ≡ some (n, s₁)
    → map_heap fuel heap s₁.kernel_directory (n, s₁) ≡ some (p, s₂)
    → initialize fuel heap s ≡ some (finished n s₂)
unfolding initialize
initialize_step fuel heap n p s s₁ s₂ e e' =
    ap (λ r. r >>= λ r. map_heap fuel heap r.1.kernel_directory r >>= λ t. some (finished r.0 t.1))
      e
    ∙ ap (λ r. r >>= λ t. some (finished n t.1)) e'

-- The kernel's directory is empty.
record IsUnmapped (d : ℕ) (s : Space) : Type 0 where
  frames : s.frames ≡ taken 0 (512 + 40448)
  kernel : s.kernel_directory ≡ d
  pos : 0 < d
  apart : s.current_directory ≢ d
  dir : s.directories d ≡ blank_directory
  heap : 0 < s.heap_top

unmapped-IsUnmapped :
    (s : Space)
    → 0 < s.heap_top
    → s.heap_top + 18 * page_size < u32_mod
    → IsUnmapped (unmapped s).kernel_directory (unmapped s)
      × ((unmapped s).heap_top ≤ s.heap_top + 17 * page_size)
unfolding unmapped frame_table
unmapped-IsUnmapped s heap room =
    let (lo, hi, _, end, _) = allocate_lem 8192 s.heap_top (omega (arith, room)) in
    let (lo', hi', _, end', _) =
      allocate_lem 8192 (allocate 8192 true s.heap_top).1 (omega (arith, room, hi, end)) in
    let (_, hi'', _, end'', _) =
      allocate_lem number_of_frames (allocate 8192 true (allocate 8192 true s.heap_top).1).1
        (omega (arith, room, hi, end, hi', end')) in
    (
      record {
        frames = refl;
        kernel = refl;
        pos = omega (arith, heap, lo, end, lo');
        apart = λ e. omega (arith, e, lo, end, lo');
        dir = update_self s.directories _ blank_directory;
        heap = omega (arith, end'');
      },
      omega (arith, hi, end, hi', end', hi'', end''),
    )

-- The kernel mapped in its empty directory.
first_region :
    (fuel d : ℕ) (s : Space)
    → 4096 < fuel
    → s.heap_top + 4990 * (2 * page_size) < u32_mod
    → IsUnmapped d s
    → (k : Machine) × (map_region fuel 0 0 mapped_region (machine_of d s) ≡ mapped 512 k)
      × Grows (InPages 512 0) 512 (machine_of d s) k
      × IsIdentity 512 40448 k
      × (free_count k.frames ≡ 40448)
first_region fuel d s lt room u =
    let all : free_count s.frames ≡ 40960 = ap free_count u.frames ∙ free_count-untaken 40960 in
    let empty : (t : ℕ) → (s.directories d).tables t ≡ 0 = λ t. ap (λ x. x.tables t) u.dir in
    let heap = u.heap in
    let (k, e, g, is) =
      map_region-IsIdentity 512 0 40448 fuel (machine_of d s) (omega (arith, lt)) (omega arith)
        (record {
          settled = inr refl;
          linked = λ t. (omega (arith, empty t, heap), inl (empty t));
          heap = heap;
          room = omega (arith, room);
          frames = omega (arith, all);
        })
        (record { frames = u.frames; pages = λ a h. absurd (omega (arith, h)) }) in
    let used = g.used in (k, e, g, is, omega (arith, used, all))

-- Where the directory's kernel part is the identity and the heap's is empty.
after_first :
    (fuel d : ℕ) (heap : Bool) (s : Space) (k : Machine)
    → 4096 < fuel
    → s.heap_top + 4990 * (2 * page_size) < u32_mod
    → IsUnmapped d s
    → Grows (InPages 512 0) 512 (machine_of d s) k
    → IsIdentity 512 40448 k
    → free_count k.frames ≡ 40448
    → (p : ℕ) × (s' : Space) × (map_heap fuel heap d (512, with_machine d k s) ≡ some (p, s'))
      × ((a : ℕ)
          → a < mapped_region
          → IsMapped a k
          → IsMapped a (machine_of d s') × (entry a (machine_of d s') ≡ entry a k))
      × ((a : ℕ) → InHeap heap a → IsMapped a (machine_of d s'))
      × (s'.current_directory ≡ s.current_directory)
      × (s'.kernel_directory ≡ s.kernel_directory)
after_first fuel d heap s k lt room u g is free =
    let at : machine_of d (with_machine d k s) ≡ k = machine_of-with d k s in
    let up = g.higher in
    let low = g.lower in
    let pos = u.heap in
    let (p, s', e, same, on, c, kd) =
      map_heap_lem fuel d heap (with_machine d k s) lt u.pos (subst IsLinked (sym at) g.linked)
        (omega (arith, pos, up)) (omega (arith, room, low)) (omega (arith, free))
        (λ b q.
          ap (λ m. m.dir.tables (table_of b)) at
          ∙ (g.outside (table_of b)
              (λ a r e. let hi = r.1 in let lo = q.0 in omega (arith, hi, e, lo))).0
          ∙ ap (λ x. x.tables (table_of b)) u.dir)
        (subst (λ m. 0 < m.dir.tables 0) (sym at) (is.pages 0 (omega arith)).0) in
    (
      p,
      s',
      e,
      subst
          (λ m.
            (a : ℕ)
            → a < mapped_region
            → IsMapped a m
            → IsMapped a (machine_of d s') × (entry a (machine_of d s') ≡ entry a m))
          at same,
      on,
      c,
      kd,
    )

machine_of-finished :
    (n d : ℕ) (s : Space)
    → s.current_directory ≢ s.kernel_directory
    → s.kernel_directory ≡ d
    → machine_of (finished n s).kernel_directory (finished n s) ≡ machine_of d s
machine_of-finished n d s apart kd =
    ap (λ x. record { frames = s.frames; heap_top = s.heap_top; memory = s.memory; dir = x })
      (update_ne s.directories s.current_directory _ s.kernel_directory apart ∙ ap s.directories kd)

-- With fuel for the pages of the kernel's heap and room in the primitive heap for the directories, the
-- table of frames and the page tables: Initialize returns. Each address of the kernel's first two megabytes is mapped to itself,
-- the heap's addresses are mapped if a heap mapping was given, one table is shared with processes, and
-- the current directory is a copy of the kernel's.
pub initialize-Identity :
    (fuel : ℕ) (heap : Bool) (s : Space)
    → 4096 < fuel
    → 0 < s.heap_top
    → s.heap_top + 5000 * (2 * page_size) < u32_mod
    → (t : Space) × (initialize fuel heap s ≡ some t)
      × ((a : ℕ)
          → a < mapped_region
          → IsMapped a (machine_of t.kernel_directory t)
            × ((entry a (machine_of t.kernel_directory t)).frame_addr ≡ a / page_size))
      × ((a : ℕ) → InHeap heap a → IsMapped a (machine_of t.kernel_directory t))
      × (t.base_kernel_tables_size ≡ 1)
      × (t.directories t.current_directory ≡ t.directories t.kernel_directory)
initialize-Identity fuel heap s lt pos room =
    let (u, top) = unmapped-IsUnmapped s pos (omega (arith, room)) in
    let d = (unmapped s).kernel_directory in
    let room' : (unmapped s).heap_top + 4990 * (2 * page_size) < u32_mod =
      omega (arith, room, top) in
    let (k, e, g, is, free) = first_region fuel d (unmapped s) lt room' u in
    let (p, s₂, e', same, on, c, kd) =
      after_first fuel d heap (unmapped s) k lt room' u g is free in
    let first = map_region_in_lem fuel 512 0 mapped_region d k (unmapped s) u.pos e in
    let apart : s₂.current_directory ≢ s₂.kernel_directory = λ z. u.apart (sym c ∙ z ∙ kd) in
    let kept : (finished 512 s₂).directories s₂.kernel_directory
        ≡ s₂.directories s₂.kernel_directory =
      update_ne s₂.directories s₂.current_directory _ s₂.kernel_directory apart in
    (
      finished 512 s₂,
      initialize_step fuel heap 512 p s (with_machine d k (unmapped s)) s₂ first e',
      (λ a h.
          let (_, mapped_before, at) = is.pages a h in
          let (still, entry_same) = same a h mapped_before in
          subst (λ m. IsMapped a m × ((entry a m).frame_addr ≡ a / page_size))
            (sym (machine_of-finished 512 d s₂ apart kd))
            (still, ap (λ e. e.frame_addr) entry_same ∙ at)),
      (λ a h. subst (IsMapped a) (sym (machine_of-finished 512 d s₂ apart kd)) (on a h)),
      refl,
      update_self s₂.directories s₂.current_directory _ ∙ sym kept,
    )
