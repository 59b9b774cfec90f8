-- ===== src/Paging/Space/Created.antt =====
-- kernel/kernel/paging.cpp, create_directory: a directory that shares the kernel's tables and maps
-- the regions of a process.
use juos.Prelude.{
  ℕ, zero, suc, ◌+◌, ◌*◌, ◌^◌, ◌≤◌, ◌<◌, ◌≡◌, ◌≢◌, refl, sym, ◌∙◌, ap, inl, inr, some, List, [],
  ◌∷◌, arith, ◌⊎◌,
}
use Prim.Native.Nat.{bit_or}
use native.Mathlib.Decide.{dec_le}
use juos.Prelude.Maps.{update, update_self, update_ne}
use juos.Prelude.Options.{◌>>=◌}
use juos.Prelude.Words.{u32_mod}
use juos.PrimitiveHeap.{allocate_lem, page_size}
use juos.Paging.{Directory}
use juos.Paging.Frames.{free_count}
use juos.Paging.Map.{IsMapped}
use juos.Paging.Step.{table_of}
use juos.Paging.Space.{
  Mapping, Space, machine_of, map_all, copy_tables, blank_directory, allocate_directory,
  create_directory,
}
use juos.Paging.Space.Grown.{IsLinked}
use juos.Paging.Space.Mappings.{InMappings, pages_count, AllAligned, map_all-Grows}

-- The directories have the same table at `t`, and the same word for it.
abbrev pub SameTable : ℕ → Directory → Directory → Type 0
SameTable t d d' = (d.tables t ≡ d'.tables t) × (d.table_addresses t ≡ d'.table_addresses t)

SameTable-trans :
    (t : ℕ) (d d' d'' : Directory) → SameTable t d d' → SameTable t d' d'' → SameTable t d d''
SameTable-trans t d d' d'' (e, f) (e', f') = (e ∙ e', f ∙ f')

-- The copied tables.
copy_tables_lem :
    (rounds i t : ℕ) (old dir : Directory)
    → (i ≤ t → t < i + rounds → SameTable t (copy_tables rounds i old dir) old)
      × (i + rounds ≤ t → SameTable t (copy_tables rounds i old dir) dir)
      × (t < i → SameTable t (copy_tables rounds i old dir) dir)
unfolding copy_tables
copy_tables_lem zero i t old dir =
    (λ lo hi. absurd (omega (arith, lo, hi)), λ h. (refl, refl), λ h. (refl, refl))
copy_tables_lem (suc rounds) i t old dir =
    let next : Directory = record {
      tables = update dir.tables i (old.tables i);
      table_addresses = update dir.table_addresses i (old.table_addresses i);
    } in
    let (within, behind, before) = copy_tables_lem rounds (i + 1) t old next in
    (
      λ lo hi. elim (dec_le (i + 1) t) [
        | yes later ↦ within later (omega (arith, hi))
        | no now ↦
            SameTable-trans t (copy_tables rounds (i + 1) old next) next old
              (before (omega (arith, now))) (ground arith, ground arith)
      ],
      λ h.
          SameTable-trans t (copy_tables rounds (i + 1) old next) next dir
            (behind (omega (arith, h))) (ground arith, ground arith),
      λ h.
          SameTable-trans t (copy_tables rounds (i + 1) old next) next dir
            (before (omega (arith, h))) (ground arith, ground arith),
    )

-- A new directory that shares the kernel's tables.
abbrev shared : Space → Directory
shared s =
    copy_tables s.base_kernel_tables_size 0 (s.directories s.current_directory) blank_directory

abbrev with_directory : Space → Space
with_directory s =
    let (at, s₁) = allocate_directory s in
    record s₁ { directories = update s.directories at (shared s) }

create_directory_step :
    (fuel : ℕ) (ms : List Mapping) (s s' : Space)
    → map_all fuel ms (allocate_directory s).0 (with_directory s) ≡ some s'
    → create_directory fuel ms s ≡ some ((allocate_directory s).0, s')
unfolding create_directory
create_directory_step fuel ms s s' e = ap (λ r. r >>= λ s₂. some ((allocate_directory s).0, s₂)) e

shared_behind : (t : ℕ) (s : Space) → s.base_kernel_tables_size ≤ t → (shared s).tables t ≡ 0
shared_behind t s le =
    ((copy_tables_lem s.base_kernel_tables_size 0 t (s.directories s.current_directory)
        blank_directory).1
      (omega (arith, le))).0

shared_before :
    (t : ℕ) (s : Space)
    → t < s.base_kernel_tables_size
    → SameTable t (shared s) (s.directories s.current_directory)
shared_before t s lt =
    (copy_tables_lem s.base_kernel_tables_size 0 t (s.directories s.current_directory)
        blank_directory).0
      (omega arith) (omega (arith, lt))

mappings_behind :
    (base a : ℕ) (ms : List Mapping) → AllAligned base ms → InMappings ms a → base ≤ table_of a
mappings_behind base a [] al p = absurd p
mappings_behind base a (m ∷ ms) al (inl (lo, hi)) = let le = al.0.0 in omega (arith, le, lo)
mappings_behind base a (m ∷ ms) al (inr p) = mappings_behind base a ms al.1 p

-- What a process's directory is: the kernel's tables are shared, each address of the mappings has a
-- page, and what other directories and tables say is as before.
pub record IsProcessDirectory (at : ℕ) (ms : List Mapping) (s s' : Space) : Type 0 where
  pub kernel_tables :
      (t : ℕ)
      → t < s.base_kernel_tables_size
      → SameTable t (s'.directories at) (s.directories s.current_directory)
  pub pages : (a : ℕ) → InMappings ms a → IsMapped a (machine_of at s')
  pub others : (q : ℕ) → q ≢ at → s'.directories q ≡ s.directories q
  pub memory_kept : (p : ℕ) → 0 < p → p < s.heap_top → s'.memory p ≡ s.memory p
  pub linked : IsLinked (machine_of at s')
  pub used : free_count s'.frames + pages_count ms ≡ free_count s.frames
  pub current : s'.current_directory ≡ s.current_directory
  pub base : s'.base_kernel_tables_size ≡ s.base_kernel_tables_size

new_table :
    (t : ℕ) (s : Space)
    → SameTable t ((with_directory s).directories (allocate_directory s).0) (shared s)
new_table t s =
    let is = update_self s.directories (allocate_directory s).0 (shared s) in
    (ap (λ d. d.tables t) is, ap (λ d. d.table_addresses t) is)

-- Where the table and its word are the same, so is how they are linked.
same_word :
    {t t' w w' : ℕ} → t ≡ t' → w ≡ w' → (t' ≡ 0) ⊎ (w' ≡ bit_or t' 7) → (t ≡ 0) ⊎ (w ≡ bit_or t 7)
same_word e f (inl z) = inl (e ∙ z)
same_word e f (inr is) = inr (f ∙ is ∙ ap (λ x. bit_or x 7) (sym e))

new_table_below :
    (t : ℕ) (s : Space)
    → IsLinked (machine_of s.current_directory s)
    → 0 < (with_directory s).heap_top
    → s.heap_top ≤ (with_directory s).heap_top
    → let d = (with_directory s).directories (allocate_directory s).0 in
      (d.tables t < (with_directory s).heap_top)
      × ((d.tables t ≡ 0) ⊎ (d.table_addresses t ≡ bit_or (d.tables t) 7))
new_table_below t s below pos le =
    let is = new_table t s in
    elim (dec_le s.base_kernel_tables_size t) [
      | yes behind ↦ let e = is.0 ∙ shared_behind t s behind in (omega (arith, pos, e), inl e)
      | no before ↦
          let (e, f) =
            SameTable-trans t ((with_directory s).directories (allocate_directory s).0) (shared s)
              (s.directories s.current_directory) is (shared_before t s (omega (arith, before))) in
          let (b, word) = below t in (omega (arith, le, e, b), same_word e f word)
    ]

-- For mappings of whole pages below 2 ^ 32 that start with the first page of a table behind the
-- kernel's, with the current directory's tables below the top of the heap and its words for them, room in the heap for the
-- directory and a table for each page, a free frame for each page, and fuel for each page of the
-- memory: the call returns a new directory. It shares the kernel's tables and the words for them with the
-- current one, every address of the mappings is mapped in it, for the processor that reads its words, other directories and the tables that were there are as
-- before, and each page took a free frame.
pub create_directory_lem :
    (fuel : ℕ) (ms : List Mapping) (s : Space)
    → 2 ^ 20 < fuel
    → AllAligned s.base_kernel_tables_size ms
    → IsLinked (machine_of s.current_directory s)
    → 0 < s.heap_top
    → s.heap_top + (pages_count ms + 3) * (2 * page_size) < u32_mod
    → pages_count ms ≤ free_count s.frames
    → (at : ℕ) × (s' : Space) × (create_directory fuel ms s ≡ some (at, s'))
      × (s.heap_top ≤ at)
      × IsProcessDirectory at ms s s'
create_directory_lem fuel ms s enough al below heap room frames =
    let at = (allocate_directory s).0 in
    let (lo, hi, _, end, _) = allocate_lem 8192 s.heap_top (omega (arith, room)) in
    let s₁ = with_directory s in
    let (s₂, called, g, but) =
      map_all-Grows fuel s.base_kernel_tables_size at ms s₁ enough (omega (arith, heap, lo)) al
        (record {
          linked = λ t.
              new_table_below t s below (omega (arith, heap, lo, end)) (omega (arith, lo, end));
          heap = omega (arith, heap, lo, end);
          room = omega (arith, room, hi, end);
          frames = frames;
        }) in
    (
      at,
      s₂,
      create_directory_step fuel ms s s₂ called,
      lo,
      record {
        kernel_tables = λ t lt.
            SameTable-trans t (s₂.directories at) (s₁.directories at)
              (s.directories s.current_directory)
              (g.outside t (λ a p e.
                let le = mappings_behind s.base_kernel_tables_size a ms al p in
                omega (arith, le, e, lt)))
              (SameTable-trans t (s₁.directories at) (shared s) (s.directories s.current_directory)
                (new_table t s) (shared_before t s lt));
        pages = λ a p. (g.pages a p).1;
        others =
            λ q ne. but.others q ne ∙ update_ne s.directories at (shared s) q (λ e. ne (sym e));
        memory_kept = λ p pos lt. g.memory_kept p pos (omega (arith, lt, lo, end)) (λ a q e.
            let le = mappings_behind s.base_kernel_tables_size a ms al q in
            let z = (new_table (table_of a) s).0 ∙ shared_behind (table_of a) s le in
            omega (arith, pos, z, e));
        linked = g.linked;
        used = g.used;
        current = but.current;
        base = but.base;
      },
    )
