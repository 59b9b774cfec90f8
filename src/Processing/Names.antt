-- ===== src/Processing/Names.antt =====
-- kernel/kernel/process.cpp: the search for a registered name, by `find_if` of
-- libstdcxx/algorithms.hpp.
use juos.Prelude.{
  ℕ, zero, suc, ◌+◌, ◌<◌, ◌≡◌, ◌≢◌, ◌↔◌, refl, ap, sym, subst, ◌∙◌, true, false, none, some, List,
  [], ◌∷◌, ◌++◌, ◌==◌, arith, Bool-cases, inl, inr, length, length-append, take, get_or,
  pos-ne_zero,
}
use juos.Cstring.{strcmp}
use juos.Cstring.Held.{IsString, strcmp-IsString}
use juos.Processing.{
  RegisteredProcess, same_name, find_if, text_of, proc_name_buffer, text_memory, is_zero,
}

-- The characters of a text.
abbrev pub AreBytes : List ℕ → Type 0
AreBytes [] = Unit
AreBytes (c ∷ cs) = (0 < c) × (c < 256) × AreBytes cs

-- The name is not among those, which are texts, registered.
abbrev pub IsUnnamed : List ℕ → List RegisteredProcess → Type 0
IsUnnamed name [] = Unit
IsUnnamed name (rp ∷ rps) = (rp.name ≢ name) × AreBytes rp.name × IsUnnamed name rps

-- A name that fits in the buffer with its end mark.
abbrev pub IsName : List ℕ → Type 0
IsName name = (length name < 128) × AreBytes name

text_of-take :
    (n : ℕ) (name : List ℕ)
    → length name < n
    → AreBytes name
    → text_of (take n (name ++ 0 ∷ [])) ≡ some name
unfolding text_of
text_of-take zero name lt b = absurd (omega (arith, lt))
text_of-take (suc n) [] lt b = refl
text_of-take (suc n) (c ∷ cs) lt (pos, byte, b) =
    rw (text_of-take n cs (omega (arith, lt)) b) (rw (pos-ne_zero c pos) refl)

-- The copy of such a name is read as the name.
pub text_of-proc_name_buffer :
    (name : List ℕ) → IsName name → text_of (proc_name_buffer name) ≡ some name
text_of-proc_name_buffer name (short, b) = text_of-take 128 name short b

get_or-append :
    (before after : List ℕ) (c : ℕ) → get_or (before ++ (c ∷ after)) (length before) 0 ≡ c
get_or-append [] after c = refl
get_or-append (x ∷ before) after c = get_or-append before after c

next_byte : (before after : List ℕ) (c : ℕ) → before ++ (c ∷ after) ≡ (before ++ (c ∷ [])) ++ after
next_byte [] after c = refl
next_byte (x ∷ before) after c = ap (◌∷◌ x) (next_byte before after c)

-- A text stands in the memory behind what comes before it.
text-IsString :
    (before text after : List ℕ)
    → AreBytes text
    → IsString (λ k. get_or (before ++ (text ++ (0 ∷ after))) k 0) (length before) text
text-IsString before [] after b = get_or-append before after 0
text-IsString before (c ∷ cs) after (pos, byte, b) =
    let rest = cs ++ (0 ∷ after) in
    let step : before ++ (c ∷ rest) ≡ (before ++ (c ∷ [])) ++ rest = next_byte before rest c in
    let size : length (before ++ (c ∷ [])) ≡ length before + 1 = length-append before (c ∷ []) in
    (
      get_or-append before rest c,
      pos,
      byte,
      subst (λ n. IsString (λ k. get_or (before ++ (c ∷ rest)) k 0) n cs) size
          (subst (λ l. IsString (λ k. get_or l k 0) (length (before ++ (c ∷ []))) cs) (sym step)
            (text-IsString (before ++ (c ∷ [])) cs after b)),
    )

-- The comparison is true exactly for equal texts.
same_name_lem :
    (text other : List ℕ)
    → AreBytes text
    → AreBytes other
    → (same_name text other ≡ true) ↔ (text ≡ other)
unfolding same_name
same_name_lem text other b b' =
    let m = text_memory text other in
    let size : length (text ++ (0 ∷ [])) ≡ length text + 1 = length-append text (0 ∷ []) in
    let at =
      subst (λ n. IsString m n other) size
        (subst (λ l. IsString (λ k. get_or l k 0) (length (text ++ (0 ∷ []))) other)
          (sym (next_byte text (other ++ (0 ∷ [])) 0))
          (text-IsString (text ++ (0 ∷ [])) other [] b')) in
    let (n, e, both) =
      strcmp-IsString (length text + 1) 0 (length text + 1) m text other (omega arith)
        (text-IsString [] text (other ++ (0 ∷ [])) b) at in
    let is : is_zero (strcmp (length text + 1) m 0 (length text + 1)) ≡ (n == 0) = ap is_zero e in
    (
      λ t. both.0 (let z : (n == 0) ≡ true = sym is ∙ t in ground (arith, z)),
      λ t. is ∙ (let z = both.1 t in ground (arith, z)),
    )

-- With names of characters from 1 to 255, compared by strcmp in memory: a name that is registered,
-- whatever stands before and behind it, is found where it was registered first; among the others it is
-- not found.
pub find_if-same_name :
    (name : List ℕ) (before after : List RegisteredProcess) (rp : RegisteredProcess)
    → AreBytes name
    → IsUnnamed name before
    → rp.name ≡ name
    → (find_if (λ r. same_name r.name name) (before ++ rp ∷ after) ≡ some rp)
      × (find_if (λ r. same_name r.name name) before ≡ none)
unfolding find_if
find_if-same_name name [] after rp b un e =
    let same : same_name rp.name name ≡ true = rw e ((same_name_lem name name b b).1 refl) in
    (rw same refl, refl)
find_if-same_name name (r ∷ before) after rp b un e =
    let no : same_name r.name name ≡ false = elim (Bool-cases (same_name r.name name)) [
      | inl y ↦ absurd (un.0 ((same_name_lem r.name name un.1 b).0 y))
      | inr n ↦ n
    ] in
    let (found, gone) = find_if-same_name name before after rp b un.2 e in (rw no found, rw no gone)
