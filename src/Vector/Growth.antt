-- ===== src/Vector/Growth.antt =====
-- The invariant of vector.hpp, and its operations as operations on lists.
use juos.Prelude.{
  ℕ, zero, suc, ◌+◌, ◌*◌, ◌^◌, ◌≤◌, ◌<◌, ◌≡◌, refl, ap, ◌∙◌, sym, ◌⊎◌, inl, inr, none, some, List,
  [], ◌∷◌, ◌++◌, leb, length, replicate, set, take, arith, length-set, length-replicate,
  take-set_next, Bool-cases, lt→ltb, gt→leb, le→ltb, leb→le,
}
use native.Mathlib.Nat.{pow-suc}
use juos.Prelude.Words.{pow-le, add32, wrap32}
use juos.Vector.{
  Vector, empty_vector, load, store, copy_from, reserve, grow, push_back, copy_vector, to_list,
  ◌>>=◌,
}

module _ {ℓ} {A : Type ℓ} where
  take-snoc :
      (xs : List A) (n : ℕ) (x : A) → load xs n ≡ some x → take (suc n) xs ≡ take n xs ++ x ∷ []
  unfolding load
  take-snoc [] n x h = cc
  take-snoc (y ∷ xs) zero x h = ground arith
  take-snoc (y ∷ xs) (suc n) x h = ap (◌∷◌ y) (take-snoc xs n x h)

  pub load-lt : (xs : List A) (n : ℕ) → n < length xs → (x : A) × (load xs n ≡ some x)
  unfolding load
  load-lt [] n h = absurd (omega arith)
  load-lt (x ∷ xs) zero h = (x, refl)
  load-lt (x ∷ xs) (suc n) h = load-lt xs n (omega arith)

  store_lt : (xs : List A) (i : ℕ) (x : A) → i < length xs → store xs i x ≡ some (set xs i x)
  unfolding store
  store_lt xs i x h = rw (lt→ltb i (length xs) h)

  -- The loop stays in both buffers, and copies the prefix.
  copy_from_lem :
      (n i : ℕ) (from to : List A)
      → i + n ≤ length from
      → i + n ≤ length to
      → take i to ≡ take i from
      → (out : List A) × (copy_from n i from to ≡ some out)
        × (length out ≡ length to)
        × (take (i + n) out ≡ take (i + n) from)
  unfolding copy_from
  copy_from_lem zero i from to f t e = (to, refl, refl, rw (let z : i + 0 ≡ i = omega arith in z) e)
  copy_from_lem (suc n) i from to f t e =
      let (x, ex) = load-lt from i (omega arith) in
      let same : take (i + 1) (set to i x) ≡ take (i + 1) from =
        rw (let z : i + 1 ≡ suc i = omega arith in z) (
          take-set_next to i x (omega arith)
          ∙ ap (λ l. l ++ x ∷ []) e
          ∙ sym (take-snoc from i x ex)) in
      let (out, c, l, tk) =
        copy_from_lem n (i + 1) from (set to i x) (omega arith) (omega (arith, length-set to i x))
          same in
      let z : i + 1 + n ≡ i + suc n = omega arith in
      (
        out,
        rw (ex, copy_from) (rw (lt→ltb i (length to) (omega arith)) c),
        l ∙ length-set to i x,
        rw z at tk,
      )

  -- The capacity is what was allocated, and a power of two once there is one.
  pub record IsValid (v : Vector A) : Type ℓ where
    pub fits : v.size ≤ v.capacity
    pub owned : length v.buffer ≡ v.capacity
    pub doubled : ((v.capacity ≡ 0) × (v.log ≡ 0)) ⊎ (v.capacity * 2 ≡ 2 ^ v.log)

  pub empty_vector-IsValid : IsValid (empty_vector {A = A})
  unfolding empty_vector
  empty_vector-IsValid = record { fits = omega arith; owned = refl; doubled = inl (refl, refl) }

  module _ (blank : A) where
    -- After the growth there is room for one more, and the contents are the same.
    abbrev Roomy : Vector A → Vector A → Type ℓ
    Roomy v w =
        IsValid w
        × (w.size < w.capacity)
        × (w.size ≡ v.size)
        × (to_list w ≡ to_list v)
        × (w.capacity ≤ 2 ^ 31)

    reserve_eq :
        (v : Vector A) (n k : ℕ) (out : List A)
        → copy_from v.size 0 v.buffer (replicate n blank) ≡ some out
        → add32 v.log 1 ≡ k
        → (reserve blank n v >>= λ w. some (record w { log = add32 w.log 1 }))
          ≡ some (record { size = v.size; capacity = n; log = k; buffer = out })
    unfolding reserve
    reserve_eq v n k out c e = rw (c, ◌>>=◌, reserve) (rw e)

    reserved :
        (v : Vector A) (n : ℕ) (out : List A)
        → n ≡ 2 ^ v.log
        → v.log < 32
        → n ≤ 2 ^ 31
        → v.size < n
        → copy_from v.size 0 v.buffer (replicate n blank) ≡ some out
        → length out ≡ length (replicate n blank)
        → take (0 + v.size) out ≡ take (0 + v.size) v.buffer
        → (w : Vector A) × ((reserve blank (wrap32 n) v >>= λ w.
              some (record w { log = add32 w.log 1 }))
            ≡ some w)
          × Roomy v w
    unfolding to_list
    reserved v n out e lt small room c len same = (
      record { size = v.size; capacity = n; log = v.log + 1; buffer = out },
      rw (let z : wrap32 n ≡ n = omega arith in z) (reserve_eq v n (v.log + 1) out c (omega arith)),
      (
        record {
          fits = omega arith;
          owned = len ∙ length-replicate n blank;
          doubled = inr (
              rw e (rw (let z : v.log + 1 ≡ suc v.log = omega arith in z) (sym (pow-suc 2 v.log))));
        },
        room,
        refl,
        rw (let z : 0 + v.size ≡ v.size = omega arith in z) at same,
        small,
      ),
    )

    reserve-Roomy :
        (v : Vector A)
        → IsValid v
        → v.log < 32
        → v.capacity ≤ v.size
        → (w : Vector A) × ((reserve blank (wrap32 (2 ^ v.log)) v >>= λ w.
              some (record w { log = add32 w.log 1 }))
            ≡ some w)
          × Roomy v w
    reserve-Roomy v h lt full =
        let low : 1 ≤ 2 ^ v.log = pow-le 0 v.log (omega arith) in
        let high : 2 ^ v.log ≤ 2 ^ 31 = pow-le v.log 31 (omega arith) in
        let d = h.doubled in
        let f = h.fits in
        let o = h.owned in
        let l = length-replicate (2 ^ v.log) blank in
        let r =
          copy_from_lem v.size 0 v.buffer (replicate (2 ^ v.log) blank) (omega arith) (omega arith)
            refl in
        reserved v (2 ^ v.log) r.0 refl lt high (omega arith) r.1 r.2 r.3

    grow-Roomy :
        (v : Vector A)
        → IsValid v
        → v.log < 32
        → v.capacity ≤ 2 ^ 31
        → (w : Vector A) × (grow blank v ≡ some w) × Roomy v w
    unfolding grow
    grow-Roomy v h lt small = elim (Bool-cases (leb v.capacity v.size)) [
      | inl full ↦ rw full (reserve-Roomy v h lt (leb→le _ _ full))
      | inr free ↦ (v, rw (free, grow), (h, ground (arith, free), refl, refl, small))
    ]

    pushed :
        (x : A) (v w : Vector A)
        → grow blank v ≡ some w
        → Roomy v w
        → (u : Vector A) × (push_back blank x v ≡ some u)
          × IsValid u
          × (to_list u ≡ to_list v ++ x ∷ [])
          × (u.size ≡ v.size + 1)
    unfolding push_back to_list
    pushed x v w g (ok, room, same, kept, small) =
        let o = ok.owned in
        (
          record w { size = w.size + 1; buffer = set w.buffer w.size x },
          rw (g, push_back)
              (rw (store_lt w.buffer w.size x (omega arith))
                (rw (let z : add32 w.size 1 ≡ w.size + 1 = omega arith in z))),
          record {
            fits = omega arith;
            owned = length-set w.buffer w.size x ∙ ok.owned;
            doubled = ok.doubled;
          },
          rw (let z : w.size + 1 ≡ suc w.size = omega arith in z)
              (take-set_next w.buffer w.size x (omega arith) ∙ ap (λ l. l ++ x ∷ []) kept),
          ap (λ n. n + 1) same,
        )

    copied :
        (x : A) (v : Vector A) (out : List A)
        → copy_from v.size 0 v.buffer (replicate v.size blank) ≡ some out
        → length out ≡ v.size
        → take (0 + v.size) out ≡ take (0 + v.size) v.buffer
        → v.size < v.capacity
        → (c : Vector A) × (copy_vector blank v ≡ some c)
          × (to_list c ≡ to_list v)
          × (push_back blank x c ≡ none)
    unfolding copy_vector to_list push_back grow store
    copied x v out c len same free = (
      record v { buffer = out },
      rw (c, copy_vector),
      rw (let z : 0 + v.size ≡ v.size = omega arith in z) at same,
      rw (gt→leb v.capacity v.size free, push_back) (rw (le→ltb v.size (length out) (omega arith))),
    )

    -- On a valid vector whose `Log` is below 32 a push stays inside the buffer, keeps the vector
    -- valid, and appends the element.
    pub push_back_lem :
        (x : A) (v : Vector A)
        → IsValid v
        → v.log < 32
        → (w : Vector A) × (push_back blank x v ≡ some w)
          × IsValid w
          × (to_list w ≡ to_list v ++ x ∷ [])
          × (w.size ≡ v.size + 1)
    push_back_lem x v h lt =
        let high : 2 ^ v.log ≤ 2 ^ 31 = pow-le v.log 31 (omega arith) in
        let d = h.doubled in let r = grow-Roomy v h lt (omega arith) in pushed x v r.0 r.1 r.2

    -- A copy of a valid vector whose size is below its capacity has the same contents, but the next
    -- push to the copy writes outside its buffer.
    pub copy_vector-overrun :
        (x : A) (v : Vector A)
        → IsValid v
        → v.size < v.capacity
        → (c : Vector A) × (copy_vector blank v ≡ some c)
          × (to_list c ≡ to_list v)
          × (push_back blank x c ≡ none)
    unfolding copy_vector to_list push_back grow
    copy_vector-overrun x v h free =
        let o = h.owned in
        let l = length-replicate v.size blank in
        let r =
          copy_from_lem v.size 0 v.buffer (replicate v.size blank) (omega arith) (omega arith)
            refl in
        copied x v r.0 r.1 (r.2 ∙ l) r.3 free
