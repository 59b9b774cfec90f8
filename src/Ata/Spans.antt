-- ===== src/Ata/Spans.antt =====
-- kernel/drivers/ata.cpp: `read_bytes` and `write_bytes` within a sector, and over its end.
use juos.Prelude.{
  ℕ, ◌+◌, ◌-◌, ◌/◌, ◌%◌, ◌^◌, ◌≤◌, ◌<◌, ◌≡◌, ◌≢◌, refl, ap, ◌∙◌, Bool, true, false, none, some, leb,
  ltb, ◌&&◌, if◌then◌else◌, arith, ◌⊎◌,
}
use juos.Ata.Drive.{Ports, IsDrive}
use juos.Ata.Polls.{on}
use juos.Ata.Sector.{sectors_of, read_bytes, write_bytes}
use juos.Ata.Transfer.{read_sectors_lem, write_sectors_lem}

sectors_of-one : (count : ℕ) → 0 < count → count ≤ 512 → sectors_of count ≡ 1
unfolding sectors_of
sectors_of-one count lo hi = omega (arith, lo, hi)

put :
    (input bytes : ℕ → ℕ) (o count k : ℕ)
    → k < count
    → (if leb o (o + k) && ltb (o + k) (o + count) then input (o + k - o) else bytes (o + k))
      ≡ input k
put input bytes o count k small =
    let at : o + k - o ≡ k = omega arith in
    let here : (leb o (o + k) && ltb (o + k) (o + count)) ≡ true = ground arith in
    rw (here, at) refl

left :
    (input bytes : ℕ → ℕ) (o count k : ℕ)
    → (k < o) ⊎ (o + count ≤ k)
    → (if leb o k && ltb k (o + count) then input (k - o) else bytes k) ≡ bytes k
left input bytes o count k outside =
    let there : (leb o k && ltb k (o + count)) ≡ false = ground arith in rw there refl

module _ (H : Ports) (d : IsDrive H) (fuel : ℕ) (p : H.State) (lt : d.patience < fuel) where
  pub read_bytes_lem :
      (fresh : ℕ → ℕ) (location count : ℕ)
      → 0 < count
      → location % 512 + count ≤ 512
      → (output : ℕ → ℕ) × (success : Bool) × (p' : H.State) × (read_bytes H fuel fresh location
            count
            (on H d p)
          ≡ some ((output, success), on H d p'))
        × ((k : ℕ)
            → k < count
            → output k ≡ d.sector p (location / 512 % 2 ^ 28) (location % 512 + k))
        × (d.sector p' ≡ d.sector p)
  unfolding read_bytes
  read_bytes_lem fresh location count some_bytes inside =
      let one = sectors_of-one count some_bytes (omega (arith, inside)) in
      let (bytes, success, p', e, right, kept) =
        read_sectors_lem H d fuel (location / 512) 1 p lt in
      let fits : leb (location % 512 + count) 512 ≡ true = ground arith in
      (
        λ k.
            if ltb (location % 512 + k) 512
            then bytes (location % 512 + k)
            else fresh (location % 512 + k),
        success,
        p',
        rw (one, e, fits) refl,
        λ k small.
            let t : ltb (location % 512 + k) 512 ≡ true = ground arith in
            rw t (right (location % 512 + k) (omega (arith, inside, small))),
        kept,
      )

  -- `read_bytes` of at most 512 bytes that lie in two sectors runs over its buffer of one sector.
  pub read_bytes_overrun :
      (fresh : ℕ → ℕ) (location count : ℕ)
      → 0 < count
      → count ≤ 512
      → 512 < location % 512 + count
      → read_bytes H fuel fresh location count (on H d p) ≡ none
  unfolding read_bytes
  read_bytes_overrun fresh location count some_bytes few over =
      let one = sectors_of-one count some_bytes few in
      let (bytes, success, p', e, right, kept) =
        read_sectors_lem H d fuel (location / 512) 1 p lt in
      let out : leb (location % 512 + count) 512 ≡ false = ground arith in rw (one, e, out) refl

  pub write_bytes_lem :
      (input : ℕ → ℕ) (location count : ℕ)
      → 0 < count
      → location % 512 + count ≤ 512
      → (success : Bool) × (p' : H.State) × (write_bytes H fuel input location count (on H d p)
          ≡ some (success, on H d p'))
        × ((k : ℕ)
            → k < count
            → d.sector p' (location / 512 % 2 ^ 28) (location % 512 + k) ≡ input k)
        × ((k : ℕ)
            → k < 512
            → (k < location % 512) ⊎ (location % 512 + count ≤ k)
            → d.sector p' (location / 512 % 2 ^ 28) k ≡ d.sector p (location / 512 % 2 ^ 28) k)
        × ((j k : ℕ) → location / 512 % 2 ^ 28 ≢ j → d.sector p' j k ≡ d.sector p j k)
  unfolding write_bytes
  write_bytes_lem input location count some_bytes inside =
      let one = sectors_of-one count some_bytes (omega (arith, inside)) in
      let o = location % 512 in
      let (bytes, success, p₁, e, right, kept) =
        read_sectors_lem H d fuel (location / 512) 1 p lt in
      let fits : leb (o + count) 512 ≡ true = ground arith in
      let buffer : ℕ → ℕ = λ k. if leb o k && ltb k (o + count) then input (k - o) else bytes k in
      let (done, p₂, e₂, written, others) =
        write_sectors_lem H d fuel buffer (location / 512) 1 p₁ lt in
      (
        done,
        p₂,
        rw (one, e, fits) e₂,
        λ k small. written (o + k) (omega (arith, inside, small)) ∙ put input bytes o count k small,
        λ k small outside. written k small ∙ left input bytes o count k outside ∙ right k small,
        λ j k ne. others j k ne ∙ ap (λ t. t j k) kept,
      )
