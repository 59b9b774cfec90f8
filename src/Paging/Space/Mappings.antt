-- ===== src/Paging/Space/Mappings.antt =====
-- kernel/kernel/paging.cpp: several mappings in a row in one directory.
use juos.Prelude.{
  ℕ, ◌+◌, ◌-◌, ◌*◌, ◌/◌, ◌%◌, ◌^◌, ◌≤◌, ◌<◌, ◌≡◌, ◌≢◌, refl, sym, ◌∙◌, ap, subst, ◌⊎◌, inl, inr,
  some, List, [], ◌∷◌, arith,
}
use juos.Prelude.Maps.{update_self, update_ne}
use juos.Prelude.Words.{u32_mod}
use juos.PrimitiveHeap.{page_size}
use juos.Paging.{Machine, map_region, mapped}
use juos.Paging.Frames.{free_count}
use juos.Paging.Space.{
  Mapping, Space, machine_of, with_machine, map_region_in, map_all, directory_or_current,
  of_outcome, map_virt_to_phys,
}
use juos.Paging.Space.Grown.{IsLinked, InPages, Grows, Grows-none, Grows-next}
use juos.Paging.Space.Aligned.{map_region-Grows}

-- The addresses of the mappings.
abbrev pub InMappings : List Mapping → ℕ → Type 0
InMappings [] a = ⊥
InMappings (m ∷ ms) a = ((m.start ≤ a) × (a < m.stop)) ⊎ InMappings ms a

abbrev pub pages_of : Mapping → ℕ
pages_of m = (m.stop - m.start) / page_size

abbrev pub pages_count : List Mapping → ℕ
pages_count [] = 0
pages_count (m ∷ ms) = pages_of m + pages_count ms

-- Whole pages below 2 ^ 32, from the first one of a table on, behind the first `base` tables.
abbrev pub AllAligned : ℕ → List Mapping → Type 0
AllAligned base [] = Unit
AllAligned base (m ∷ ms) =
    ((base * 0x400000 ≤ m.start)
      × (m.start % 0x400000 ≡ 0)
      × (m.start ≤ m.stop)
      × (m.stop % page_size ≡ 0)
      × (m.stop < u32_mod))
    × AllAligned base ms

-- The space changed in its directory `d`, tables and frames.
pub record SameBut (d : ℕ) (s s' : Space) : Type 0 where
  pub others : (q : ℕ) → q ≢ d → s'.directories q ≡ s.directories q
  pub current : s'.current_directory ≡ s.current_directory
  pub kernel : s'.kernel_directory ≡ s.kernel_directory
  pub base : s'.base_kernel_tables_size ≡ s.base_kernel_tables_size

pub machine_of-with : (d : ℕ) (k : Machine) (s : Space) → machine_of d (with_machine d k s) ≡ k
machine_of-with d k s = rw (update_self s.directories d k.dir) refl

map_virt_to_phys_lem :
    (fuel n start end d : ℕ) (k : Machine) (s : Space)
    → map_region fuel 0 start end (machine_of d s) ≡ mapped n k
    → map_virt_to_phys fuel start end d s ≡ some (n, with_machine d k s)
unfolding map_virt_to_phys
map_virt_to_phys_lem fuel n start end d k s e = ap (of_outcome d s) e

pub map_region_in_lem :
    (fuel n start end d : ℕ) (k : Machine) (s : Space)
    → 0 < d
    → map_region fuel 0 start end (machine_of d s) ≡ mapped n k
    → map_region_in fuel start end d s ≡ some (n, with_machine d k s)
unfolding map_region_in
map_region_in_lem fuel n start end d k s pos e =
    let is : directory_or_current d s ≡ d = ground (arith, pos) in
    ap (λ q. map_virt_to_phys fuel start end q s) is ∙ map_virt_to_phys_lem fuel n start end d k s e

map_all_step :
    (fuel n d : ℕ) (m : Mapping) (ms : List Mapping) (s s₁ s₂ : Space)
    → map_region_in fuel m.start m.stop d s ≡ some (n, s₁)
    → map_all fuel ms d s₁ ≡ some s₂
    → map_all fuel (m ∷ ms) d s ≡ some s₂
unfolding map_all
map_all_step fuel n d m ms s s₁ s₂ e e' = rw e e'

-- What mapping them all asks for.
pub record HasAllRoom (total d : ℕ) (s : Space) : Type 0 where
  pub linked : IsLinked (machine_of d s)
  pub heap : 0 < s.heap_top
  pub room : s.heap_top + (total + 1) * (2 * page_size) < u32_mod
  pub frames : total ≤ free_count s.frames

next_room :
    (n rest d : ℕ) (m : Mapping) (k : Machine) (s : Space)
    → HasAllRoom (n + rest) d s
    → Grows (InPages n m.start) n (machine_of d s) k
    → HasAllRoom rest d (with_machine d k s)
next_room n rest d m k s r g =
    let up = g.higher in
    let low = g.lower in
    let used = g.used in
    let heap = r.heap in
    let room = r.room in
    let frames = r.frames in
    record {
      linked = subst IsLinked (sym (machine_of-with d k s)) g.linked;
      heap = omega (arith, heap, up);
      room = omega (arith, room, low);
      frames = omega (arith, frames, used);
    }

mappings_split :
    (m : Mapping) (ms : List Mapping)
    → m.stop ≡ m.start + pages_of m * page_size
    → (a : ℕ) → InMappings (m ∷ ms) a
    → InPages (pages_of m) m.start a ⊎ InMappings ms a
mappings_split m ms end a (inl (lo, hi)) = inl (lo, omega (arith, hi, end))
mappings_split m ms end a (inr p) = inr p

pub map_all-Grows :
    (fuel base d : ℕ) (ms : List Mapping) (s : Space)
    → 2 ^ 20 < fuel
    → 0 < d
    → AllAligned base ms
    → HasAllRoom (pages_count ms) d s
    → (s' : Space) × (map_all fuel ms d s ≡ some s')
      × Grows (InMappings ms) (pages_count ms) (machine_of d s) (machine_of d s')
      × SameBut d s s'
unfolding map_all
map_all-Grows fuel base d [] s enough pos al r = (
  s,
  refl,
  Grows-none (InMappings []) (machine_of d s) (λ a p. p) r.linked,
  record { others = λ q ne. refl; current = refl; kernel = refl; base = refl },
)
map_all-Grows fuel base d (m ∷ ms) s enough pos al r =
    let (lo, start, le, stop, top) = al.0 in
    let room = r.room in
    let frames = r.frames in
    let n = pages_of m in
    let end : m.stop ≡ m.start + n * page_size = omega (arith, start, le, stop) in
    let (k, one, g) =
      map_region-Grows n fuel 0 m.start m.stop (machine_of d s) (omega (arith, enough, top)) end top
        (omega (arith, top)) (omega (arith, start))
        (record {
          settled = inr (omega (arith, start));
          linked = r.linked;
          heap = r.heap;
          room = omega (arith, room);
          frames = omega (arith, frames);
        }) in
    let s₁ = with_machine d k s in
    let at : machine_of d s₁ ≡ k = machine_of-with d k s in
    let called =
      map_region_in_lem fuel n m.start m.stop d k s pos
        (one ∙ ap (λ c. mapped c k) (omega arith)) in
    let (s₂, rest, h, but) =
      map_all-Grows fuel base d ms s₁ enough pos al.1 (next_room n (pages_count ms) d m k s r g) in
    (
      s₂,
      map_all_step fuel n d m ms s s₁ s₂ called rest,
      Grows-next (InPages n m.start) (InMappings ms) (InMappings (m ∷ ms)) n (pages_count ms)
          (n + pages_count ms) (machine_of d s) k (machine_of d s₂) (mappings_split m ms end)
          (λ a p. inl (p.0, let b = p.1 in omega (arith, b, end))) (λ a p. inr p) refl r.heap g
          (subst (λ x. Grows (InMappings ms) (pages_count ms) x (machine_of d s₂)) at h),
      record {
        others = λ q ne. but.others q ne ∙ update_ne s.directories d k.dir q (λ e. ne (sym e));
        current = but.current;
        kernel = but.kernel;
        base = but.base;
      },
    )
