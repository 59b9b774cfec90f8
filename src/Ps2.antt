-- ===== src/Ps2.antt =====
-- kernel/drivers/ps2_keyboard.cpp: the table of keys and the key source. The explanations of the
-- table, which are only logged, and the stroke type, which nothing reads and is the same in every
-- row, are left out.
pub mod Control
use juos.Prelude.{
  ℕ, ◌+◌, ◌-◌, List, [], ◌∷◌, ◌==◌, ltb, ◌&&◌, Bool, if◌then◌else◌, Option, none, some, length,
  get_or,
}

pub data SpecialCharacterType : Type 0 where
  normal : SpecialCharacterType
  escape : SpecialCharacterType
  backspace : SpecialCharacterType
  tab : SpecialCharacterType
  enter : SpecialCharacterType
  left_control : SpecialCharacterType
  left_shift : SpecialCharacterType
  right_shift : SpecialCharacterType
  left_alt : SpecialCharacterType
  caps_lock : SpecialCharacterType
  f_key : SpecialCharacterType

pub data KeyDescriptor : Type 0 where
  key : ℕ → SpecialCharacterType → KeyDescriptor

abbrev pub keys : List KeyDescriptor
keys =
    key 96 escape
    ∷ key 49 normal
    ∷ key 50 normal
    ∷ key 51 normal
    ∷ key 52 normal
    ∷ key 53 normal
    ∷ key 54 normal
    ∷ key 55 normal
    ∷ key 56 normal
    ∷ key 57 normal
    ∷ key 48 normal
    ∷ key 45 normal
    ∷ key 43 normal
    ∷ key 0 backspace
    ∷ key 0 tab
    ∷ key 81 normal
    ∷ key 87 normal
    ∷ key 69 normal
    ∷ key 82 normal
    ∷ key 84 normal
    ∷ key 89 normal
    ∷ key 85 normal
    ∷ key 73 normal
    ∷ key 79 normal
    ∷ key 80 normal
    ∷ key 91 normal
    ∷ key 93 normal
    ∷ key 0 enter
    ∷ key 0 left_control
    ∷ key 65 normal
    ∷ key 83 normal
    ∷ key 68 normal
    ∷ key 70 normal
    ∷ key 71 normal
    ∷ key 72 normal
    ∷ key 74 normal
    ∷ key 75 normal
    ∷ key 76 normal
    ∷ key 59 normal
    ∷ key 39 normal
    ∷ key 96 normal
    ∷ key 0 left_shift
    ∷ key 92 normal
    ∷ key 90 normal
    ∷ key 88 normal
    ∷ key 67 normal
    ∷ key 86 normal
    ∷ key 66 normal
    ∷ key 78 normal
    ∷ key 77 normal
    ∷ key 44 normal
    ∷ key 46 normal
    ∷ key 47 normal
    ∷ key 0 right_shift
    ∷ key 42 normal
    ∷ key 0 left_alt
    ∷ key 32 normal
    ∷ key 0 caps_lock
    ∷ key 49 f_key
    ∷ key 50 f_key
    ∷ key 51 f_key
    ∷ key 52 f_key
    ∷ key 53 f_key
    ∷ key 54 f_key
    ∷ key 55 f_key
    ∷ key 56 f_key
    ∷ key 57 f_key
    ∷ key 48 f_key
    ∷ key 45 f_key
    ∷ []

-- The switch on the special type.
unfoldable pub character : KeyDescriptor → ℕ
character (key value normal) = value
character (key value escape) = value
character (key value backspace) = 8
character (key value tab) = value
character (key value enter) = 10
character (key value left_control) = value
character (key value left_shift) = value
character (key value right_shift) = value
character (key value left_alt) = value
character (key value caps_lock) = value
character (key value f_key) = value

-- `KeyboardSource`, on the byte read from the port; `none` is the error flag.
unfoldable pub keyboard_source : ℕ → Option ℕ
unfolding character
keyboard_source input =
    if ltb 0 input && ltb input (length keys)
    then some (character (get_or keys (input - 1) (key 0 normal)))
    else none
