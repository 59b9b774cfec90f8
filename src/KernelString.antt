-- ===== src/KernelString.antt =====
-- kernel/include/kernel/data_structures/string.hpp: the class String, on a memory of bytes by address.
-- `new char[n]` is an address argument of the operation; the memory behind the n cells is there too, so
-- a write past an allocation is a write. `delete[]` leaves the bytes. `none` is out of fuel.
pub mod Loops
pub mod Held
pub mod Texts
pub mod Added
use juos.Prelude.{
  ℕ, zero, suc, ◌+◌, ◌-◌, ◌*◌, ◌%◌, ◌^◌, Bool, true, false, Option, none, some, ◌==◌, ltb,
  if◌then◌else◌,
}
use juos.Prelude.Maps.{update}
use juos.Prelude.Options.{◌>>=◌}
use juos.Prelude.Words.{add32}
use juos.Cstring.{strlen, strcmp, strncpy}

pub record String : Type 0 where
  pub data_address : ℕ
  pub size : ℕ

-- The loop of the constructor from a size; the rounds left are counted.
unfoldable pub zero_from : ℕ → ℕ → ℕ → (ℕ → ℕ) → ℕ → ℕ
zero_from zero i p m = m
zero_from (suc rounds) i p m = zero_from rounds (i + 1) p (update m (p + i) 0)

unfoldable pub string_of_size : ℕ → ℕ → (ℕ → ℕ) → String × (ℕ → ℕ)
unfolding zero_from
string_of_size address init_size m = (
  record { data_address = address; size = init_size },
  if address == 0 then m else zero_from init_size 0 address m,
)

-- The constructor from `const char*`.
unfoldable pub string_of_text : ℕ → ℕ → ℕ → (ℕ → ℕ) → Option (String × (ℕ → ℕ))
string_of_text fuel address text m = do
  size ← strlen fuel m text
  some (
    record { data_address = address; size = size },
    if address == 0 then m else strncpy size m address text,
  )

unfoldable pub get_length : ℕ → String → (ℕ → ℕ) → Option ℕ
get_length fuel s m = strlen fuel m s.data_address

-- The copy constructor, and the assignment of a String.
unfoldable pub copy_string : ℕ → ℕ → String → (ℕ → ℕ) → Option (String × (ℕ → ℕ))
unfolding get_length
copy_string fuel address s m = do
  size ← get_length fuel s m
  some (
    record { data_address = address; size = size },
    if address == 0 then m else strncpy size m address s.data_address,
  )

-- The move constructor and the move assignment: the new String and what is left.
unfoldable pub move_string : String → String × String
move_string s = (s, record s { data_address = 0 })

unfoldable pub set_text : ℕ → ℕ → ℕ → String → (ℕ → ℕ) → Option (String × (ℕ → ℕ))
set_text fuel address text s m = do
  size ← strlen fuel m text
  some (record { data_address = address; size = size }, strncpy size m address text)

-- The loop of `setLength`.
unfoldable pub resize_from : ℕ → ℕ → ℕ → ℕ → ℕ → (ℕ → ℕ) → ℕ → ℕ
resize_from zero i old_length old_data p m = m
resize_from (suc rounds) i old_length old_data p m =
    resize_from rounds (i + 1) old_length old_data p
      (update m (p + i) (if ltb i old_length then m (old_data + i) else 0))

-- The last write is behind the `size` cells.
unfoldable pub set_length : ℕ → ℕ → ℕ → String → (ℕ → ℕ) → Option (String × (ℕ → ℕ))
unfolding get_length resize_from
set_length fuel address size s m = do
  old_length ← get_length fuel s m
  some (
    record { data_address = address; size = size },
    update (resize_from size 0 old_length s.data_address address m) (address + size) 0,
  )

-- The loop of `add`, from the index `i` on.
unfoldable pub append_from : ℕ → ℕ → ℕ → ℕ → ℕ → (ℕ → ℕ) → ℕ → ℕ
append_from zero i length text p m = m
append_from (suc rounds) i length text p m =
    append_from rounds (i + 1) length text p (update m (p + i) (m (text + (i - length))))

unfoldable pub add : ℕ → ℕ → String → String → (ℕ → ℕ) → Option (String × (ℕ → ℕ))
unfolding set_length get_length append_from
add fuel address text s m = do
  let new_size = add32 s.size text.size
  (grown, m₁) ← set_length fuel address new_size s m
  length ← get_length fuel grown m₁
  some
      (grown, append_from (new_size - length) length length text.data_address grown.data_address m₁)

-- The end mark is not excluded by the test.
unfoldable pub get : ℕ → String → ℕ → (ℕ → ℕ) → Option ℕ
unfolding get_length
get fuel s pos m = do
  length ← get_length fuel s m
  some (if ltb length pos then 0 else m (s.data_address + pos))

unfoldable pub compare : ℕ → String → String → (ℕ → ℕ) → Option Bool
compare fuel string s m = do
  order ← strcmp fuel m s.data_address string.data_address
  some (order == 0)
