-- ===== src/Paging/Destroy.antt =====
-- kernel/kernel/paging.cpp, the destructor of PageDirectory: the frames that it frees.
use juos.Prelude.{
  ℕ, zero, suc, ◌+◌, ◌≤◌, ◌<◌, ◌≡◌, ◌≢◌, refl, subst, ◌∙◌, Bool, true, false, List, ◌==◌, arith,
  Bool-cases, inl, inr, length, length-set, get_or, set, get_or-set_self, get_or-set_ne,
}
use juos.Paging.{Page, Directory, Machine, free_at_index, page_table_size}

-- The inner loop, from the entry `j` on; the rounds left are counted.
unfoldable pub free_entries : ℕ → ℕ → (ℕ → Page) → List Bool → List Bool
unfolding free_at_index
free_entries zero j entries frames = frames
free_entries (suc rounds) j entries frames =
    free_entries rounds (j + 1) entries (free_at_index (entries j).frame_addr frames)

-- The outer loop. A table that is missing is read at the address 0.
unfoldable pub free_tables : ℕ → ℕ → Directory → (ℕ → ℕ → Page) → List Bool → List Bool
unfolding free_entries
free_tables zero i dir memory frames = frames
free_tables (suc rounds) i dir memory frames =
    free_tables rounds (i + 1) dir memory
      (free_entries page_table_size 0 (memory (dir.tables i)) frames)

unfoldable pub destroy_directory : Machine → Machine
unfolding free_tables
destroy_directory k = record k { frames = free_tables page_table_size 0 k.dir k.memory k.frames }

-- A frame that is in the table and free.
abbrev pub IsFree : ℕ → List Bool → Type 0
IsFree f frames = (f < length frames) × (get_or frames f true ≡ false)

set-IsFree : (f g : ℕ) (frames : List Bool) → IsFree f frames → IsFree f (set frames g false)
set-IsFree f g frames (lt, free) =
    let size = length-set frames g false in
    elim (Bool-cases (f == g)) [
      | inl same ↦
          let is : f ≡ g = ground arith in
          (
            omega (arith, size, lt),
            subst (λ x. get_or (set frames x false) f true ≡ false) is
                (get_or-set_self frames f false true lt),
          )
      | inr apart ↦
          let ne : g ≢ f = ground arith in
          (omega (arith, size, lt), get_or-set_ne frames g f false true ne ∙ free)
    ]

free_entries-kept :
    (rounds j f : ℕ) (entries : ℕ → Page) (frames : List Bool)
    → IsFree f frames
    → IsFree f (free_entries rounds j entries frames)
unfolding free_entries free_at_index
free_entries-kept zero j f entries frames free = free
free_entries-kept (suc rounds) j f entries frames free =
    free_entries-kept rounds (j + 1) f entries _ (set-IsFree f (entries j).frame_addr frames free)

free_entries-IsFree :
    (rounds j e : ℕ) (entries : ℕ → Page) (frames : List Bool)
    → j ≤ e
    → e < j + rounds
    → (entries e).frame_addr < length frames
    → IsFree (entries e).frame_addr (free_entries rounds j entries frames)
unfolding free_entries free_at_index
free_entries-IsFree zero j e entries frames lo hi lt = absurd (omega (arith, lo, hi))
free_entries-IsFree (suc rounds) j e entries frames lo hi lt =
    let f = (entries e).frame_addr in
    let size = length-set frames (entries j).frame_addr false in
    elim (Bool-cases (e == j)) [
      | inl now ↦
          let is : e ≡ j = ground arith in
          let freed : IsFree f (set frames f false) = (
            omega (arith, length-set frames f false, lt),
            get_or-set_self frames f false true lt,
          ) in
          free_entries-kept rounds (j + 1) f entries _
            (subst (λ x. IsFree f (set frames (entries x).frame_addr false)) is freed)
      | inr later ↦
          free_entries-IsFree rounds (j + 1) e entries _ (ground arith) (omega (arith, hi))
            (omega (arith, size, lt))
    ]

free_entries-other :
    (rounds j f : ℕ) (entries : ℕ → Page) (frames : List Bool)
    → ((e : ℕ) → j ≤ e → e < j + rounds → (entries e).frame_addr ≢ f)
    → get_or (free_entries rounds j entries frames) f true ≡ get_or frames f true
unfolding free_entries free_at_index
free_entries-other zero j f entries frames none_of = refl
free_entries-other (suc rounds) j f entries frames none_of =
    free_entries-other rounds (j + 1) f entries _
      (λ e lo hi. none_of e (omega (arith, lo)) (omega (arith, hi)))
    ∙ get_or-set_ne frames (entries j).frame_addr f false true
        (none_of j (omega arith) (omega arith))

length-free_entries :
    (rounds j : ℕ) (entries : ℕ → Page) (frames : List Bool)
    → length (free_entries rounds j entries frames) ≡ length frames
unfolding free_entries free_at_index
length-free_entries zero j entries frames = refl
length-free_entries (suc rounds) j entries frames =
    length-free_entries rounds (j + 1) entries _ ∙ length-set frames (entries j).frame_addr false

free_tables-kept :
    (rounds i f : ℕ) (dir : Directory) (memory : ℕ → ℕ → Page) (frames : List Bool)
    → IsFree f frames
    → IsFree f (free_tables rounds i dir memory frames)
unfolding free_tables
free_tables-kept zero i f dir memory frames free = free
free_tables-kept (suc rounds) i f dir memory frames free =
    free_tables-kept rounds (i + 1) f dir memory _
      (free_entries-kept page_table_size 0 f (memory (dir.tables i)) frames free)

free_tables-IsFree :
    (rounds i t e : ℕ) (dir : Directory) (memory : ℕ → ℕ → Page) (frames : List Bool)
    → i ≤ t
    → t < i + rounds
    → e < 1024
    → (memory (dir.tables t) e).frame_addr < length frames
    → IsFree (memory (dir.tables t) e).frame_addr (free_tables rounds i dir memory frames)
unfolding free_tables
free_tables-IsFree zero i t e dir memory frames lo hi small lt = absurd (omega (arith, lo, hi))
free_tables-IsFree (suc rounds) i t e dir memory frames lo hi small lt =
    let size = length-free_entries 1024 0 (memory (dir.tables i)) frames in
    elim (Bool-cases (t == i)) [
      | inl now ↦
          let is : t ≡ i = ground arith in
          free_tables-kept rounds (i + 1) (memory (dir.tables t) e).frame_addr dir memory _ (
            subst
              (λ x.
                IsFree (memory (dir.tables t) e).frame_addr
                  (free_entries 1024 0 (memory (dir.tables x)) frames))
              is
              (free_entries-IsFree 1024 0 e (memory (dir.tables t)) frames (omega arith)
                (omega (arith, small)) lt))
      | inr later ↦
          free_tables-IsFree rounds (i + 1) t e dir memory _ (ground arith) (omega (arith, hi))
            small (omega (arith, size, lt))
    ]

free_tables-other :
    (rounds i f : ℕ) (dir : Directory) (memory : ℕ → ℕ → Page) (frames : List Bool)
    → ((t e : ℕ) → e < 1024 → (memory (dir.tables t) e).frame_addr ≢ f)
    → get_or (free_tables rounds i dir memory frames) f true ≡ get_or frames f true
unfolding free_tables
free_tables-other zero i f dir memory frames none_of = refl
free_tables-other (suc rounds) i f dir memory frames none_of =
    free_tables-other rounds (i + 1) f dir memory _ none_of
    ∙ free_entries-other 1024 0 f (memory (dir.tables i)) frames
        (λ e lo hi. none_of i e (omega (arith, hi)))

-- The destructor frees the frame of each of the 1024 entries of each of the 1024 tables, if the frame
-- is in the table of frames, whether the entry is mapped or not and also where the table is missing;
-- a frame that stands in no entry is as before.
pub destroy_directory-IsFree :
    (k : Machine) (t e f : ℕ)
    → t < 1024
    → e < 1024
    → (k.memory (k.dir.tables t) e).frame_addr < length k.frames
    → ((t' e' : ℕ) → e' < 1024 → (k.memory (k.dir.tables t') e').frame_addr ≢ f)
    → IsFree (k.memory (k.dir.tables t) e).frame_addr (destroy_directory k).frames
      × (get_or (destroy_directory k).frames f true ≡ get_or k.frames f true)
unfolding destroy_directory
destroy_directory-IsFree k t e f t_lt e_lt inside none_of = (
  free_tables-IsFree 1024 0 t e k.dir k.memory k.frames (omega arith) (omega (arith, t_lt)) e_lt
      inside,
  free_tables-other 1024 0 f k.dir k.memory k.frames none_of,
)
