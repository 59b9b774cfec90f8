-- ===== src/Ata/Transfer.antt =====
-- kernel/drivers/ata.cpp: `ReadSectors` and `WriteSectors` on a drive move one sector.
use juos.Prelude.{
  ℕ, ◌+◌, ◌*◌, ◌/◌, ◌%◌, ◌^◌, ◌<◌, ◌≡◌, ◌≢◌, refl, ap, ◌∙◌, Bool, true, some, ◌==◌, not, arith,
}
use juos.Ata.Drive.{
  Ports, Job, reading, writing, IsDrive, NotBusy, IsReady, Requests, address, polled, transfers,
}
use juos.Ata.Ports.{
  Command, command_value, read_sectors_with_retry, write_sectors_with_retry, cache_flush, read_byte,
  after_read_byte, io_reg_offset, io_reg_set, out, wait_both, command, disable_interrupts, set_head,
  delay_400_ns, set_sector_count, set_lba, timer_sleep,
}
use juos.Ata.Polls.{on, Same-trans, wait_both_lem, command_lem, polled-Same}
use juos.Ata.Sector.{set_transfer, read_sectors, write_sectors}

-- The bytes in the three address registers and the low bits of the head register.
address-parts :
    (r : ℕ → ℕ) (lba : ℕ)
    → r 0x1f3 ≡ lba % 256 % 256
    → r 0x1f4 ≡ lba / 2 ^ 8 % 256 % 256
    → r 0x1f5 ≡ lba / 2 ^ 16 % 256 % 256
    → r 0x1f6 ≡ (0xe0 + 0 * 2 ^ 4 + lba / 2 ^ 24 % 16) % 256
    → (address r ≡ lba % 2 ^ 28) × (r 0x1f6 / 16 ≡ 14)
address-parts r lba a b c e = (omega (arith, a, b, c, e), omega (arith, e))

module _ (H : Ports) (d : IsDrive H) where
  -- The registers when the command is given.
  record Addressed (lba : ℕ) (p p' : H.State) : Type 0 where
    one : d.reg p' 0x1f2 ≡ 1
    lba_mode : d.reg p' 0x1f6 / 16 ≡ 14
    place : address (d.reg p') ≡ lba % 2 ^ 28
    kept : d.sector p' ≡ d.sector p

  set_transfer_lem :
      (lba : ℕ) (p : H.State)
      → (p' : H.State) × (set_transfer H lba (on H d p) ≡ on H d p') × Addressed lba p p'
  unfolding set_transfer disable_interrupts set_head delay_400_ns set_sector_count set_lba
      timer_sleep out io_reg_set after_read_byte io_reg_offset
  set_transfer_lem lba p =
      let head = (0xe0 + 0 * 2 ^ 4 + lba / 2 ^ 24 % 16) % 256 in
      let p₁ = H.outb 0x3f6 2 p in
      let p₂ = H.outb 0x1f6 head p₁ in
      let p₃ = polled H 4 p₂ in
      let p₄ = H.outb 0x1f2 1 p₃ in
      let lo = lba % 256 % 256 in
      let mid = lba / 2 ^ 8 % 256 % 256 in
      let hi = lba / 2 ^ 16 % 256 % 256 in
      let p₆ = H.outb 0x1f3 lo p₄ in
      let p₇ = H.outb 0x1f4 mid p₆ in
      let p₈ = H.outb 0x1f5 hi p₇ in
      let waited = polled-Same H d 4 p₂ in
      let below : (q : ℕ) → 0x1f3 ≢ q → 0x1f4 ≢ q → 0x1f5 ≢ q → d.reg p₈ q ≡ d.reg p₄ q =
        λ q n₃ n₄ n₅.
          d.reg-outb_ne 0x1f5 hi q p₇ n₅
          ∙ d.reg-outb_ne 0x1f4 mid q p₆ n₄
          ∙ d.reg-outb_ne 0x1f3 lo q p₄ n₃ in
      let one =
        below 0x1f2 (omega arith) (omega arith) (omega arith)
        ∙ d.reg-outb_self 0x1f2 1 p₃ (omega arith) in
      let at_head =
        below 0x1f6 (omega arith) (omega arith) (omega arith)
        ∙ d.reg-outb_ne 0x1f2 1 0x1f6 p₃ (omega arith)
        ∙ ap (λ r. r 0x1f6) waited.reg_same
        ∙ d.reg-outb_self 0x1f6 head p₁ (omega arith) in
      let at_lo =
        d.reg-outb_ne 0x1f5 hi 0x1f3 p₇ (omega arith)
        ∙ d.reg-outb_ne 0x1f4 mid 0x1f3 p₆ (omega arith)
        ∙ d.reg-outb_self 0x1f3 lo p₄ (omega arith) in
      let at_mid =
        d.reg-outb_ne 0x1f5 hi 0x1f4 p₇ (omega arith)
        ∙ d.reg-outb_self 0x1f4 mid p₆ (omega arith) in
      let at_hi = d.reg-outb_self 0x1f5 hi p₇ (omega arith) in
      let (place, lba_mode) = address-parts (d.reg p₈) lba at_lo at_mid at_hi at_head in
      (
        p₈,
        refl,
        record {
          one = one;
          lba_mode = lba_mode;
          place = place;
          kept =
              d.sector-outb 0x1f5 hi p₇
              ∙ d.sector-outb 0x1f4 mid p₆
              ∙ d.sector-outb 0x1f3 lo p₄
              ∙ d.sector-outb 0x1f2 1 p₃
              ∙ waited.sector_same
              ∙ d.sector-outb 0x1f6 head p₁
              ∙ d.sector-outb 0x3f6 2 p;
        },
      )

  -- The steps up to the transfer of the words, and the state that they end in.
  record Started (fuel lba : ℕ) (cmd : Command) (job : ℕ → Job) (p : H.State) : Type 0 where
    set : H.State
    ready : H.State
    sent : H.State
    waited : H.State
    answer : Bool
    is_set : set_transfer H lba (on H d p) ≡ on H d set
    is_ready : wait_both H fuel (on H d set) ≡ some (on H d ready)
    is_sent : command H fuel cmd (on H d ready) ≡ some (answer, on H d sent)
    is_waited : wait_both H fuel (on H d sent) ≡ some (on H d waited)
    works : d.job waited ≡ job (lba % 2 ^ 28)
    not_busy : NotBusy H waited
    requests : Requests H waited
    kept : d.sector waited ≡ d.sector p

  started_lem :
      (fuel lba : ℕ) (cmd : Command) (job : ℕ → Job) (p : H.State)
      → d.patience < fuel
      → ((i : ℕ) → transfers (job i) ≡ true)
      → ((s : H.State)
          → NotBusy H s
          → IsReady H s
          → d.reg s 0x1f2 ≡ 1
          → d.reg s 0x1f6 / 16 ≡ 14
          → d.job (H.outb 0x1f7 (command_value cmd % 256) s) ≡ job (address (d.reg s)))
      → Started fuel lba cmd job p
  started_lem fuel lba cmd job p lt moves accepts =
      let (p₀, e₀, set) = set_transfer_lem lba p in
      let (p₁, e₁, same₁, _, _) = wait_both_lem H d fuel p₀ lt in
      let (b, p₂, p₃, e₃, same₂, free, at, same₃) = command_lem H d fuel cmd p₁ lt in
      let (p₄, e₄, same₄, quiet, _) = wait_both_lem H d fuel p₃ lt in
      let before = Same-trans H d same₁ same₂ in
      let after = Same-trans H d same₃ same₄ in
      let regs = before.reg_same in
      let accepted : d.job (H.outb 0x1f7 (command_value cmd % 256) p₂) ≡ job (lba % 2 ^ 28) =
        accepts p₂ free at (ap (λ r. r 0x1f2) regs ∙ set.one)
          (ap (λ r. r 0x1f6 / 16) regs ∙ set.lba_mode)
        ∙ ap (λ r. job (address r)) regs
        ∙ ap job set.place in
      let works = after.job_same ∙ accepted in
      record {
        set = p₀;
        ready = p₁;
        sent = p₃;
        waited = p₄;
        answer = b;
        is_set = e₀;
        is_ready = e₁;
        is_sent = e₃;
        is_waited = e₄;
        works = works;
        not_busy = quiet;
        requests = d.requests p₄ (ap transfers works ∙ moves (lba % 2 ^ 28)) quiet;
        kept =
            after.sector_same
            ∙ d.sector-outb 0x1f7 (command_value cmd % 256) p₂
            ∙ before.sector_same
            ∙ set.kept;
      }

  pub read_sectors_lem :
      (fuel lba sectors : ℕ) (p : H.State)
      → d.patience < fuel
      → (bytes : ℕ → ℕ) × (success : Bool) × (p' : H.State) × (read_sectors H fuel lba sectors
            (on H d p)
          ≡ some ((bytes, success), on H d p'))
        × ((k : ℕ) → k < 512 → bytes k ≡ d.sector p (lba % 2 ^ 28) k)
        × (d.sector p' ≡ d.sector p)
  unfolding read_sectors timer_sleep read_byte after_read_byte io_reg_offset
  read_sectors_lem fuel lba sectors p lt =
      let s = started_lem fuel lba read_sectors_with_retry reading p lt (λ i. refl) d.job-read in
      let transferred = H.after_insw 0x1f0 256 s.waited in
      (
        H.insw 0x1f0 256 s.waited,
        not (H.inb 0x1f7 transferred == 0),
        H.after_inb 0x1f7 transferred,
        rw s.is_set (rw s.is_ready (rw s.is_sent (rw s.is_waited refl))),
        λ k small.
            d.insw_lem s.waited (lba % 2 ^ 28) k s.works s.not_busy s.requests small
            ∙ ap (λ t. t (lba % 2 ^ 28) k) s.kept,
        (d.inb-IsSame transferred).sector_same ∙ d.sector-insw s.waited ∙ s.kept,
      )

  pub write_sectors_lem :
      (fuel : ℕ) (buffer : ℕ → ℕ) (lba sectors : ℕ) (p : H.State)
      → d.patience < fuel
      → (success : Bool) × (p' : H.State) × (write_sectors H fuel buffer lba sectors (on H d p)
          ≡ some (success, on H d p'))
        × ((k : ℕ) → k < 512 → d.sector p' (lba % 2 ^ 28) k ≡ buffer k)
        × ((j k : ℕ) → lba % 2 ^ 28 ≢ j → d.sector p' j k ≡ d.sector p j k)
  unfolding write_sectors timer_sleep read_byte after_read_byte io_reg_offset
  write_sectors_lem fuel buffer lba sectors p lt =
      let s = started_lem fuel lba write_sectors_with_retry writing p lt (λ i. refl) d.job-write in
      let read = H.after_inb 0x1f7 s.waited in
      let kept = d.inb-IsSame s.waited in
      let job = kept.job_same ∙ s.works in
      let quiet = kept.not_busy s.not_busy in
      let asks = d.requests read (ap transfers job) quiet in
      let stored = H.outsw 0x1f0 256 buffer read in
      let (b, p₂, p₃, e₃, same₂, _, _, same₃) = command_lem H d fuel cache_flush stored lt in
      let last : d.sector (H.after_inb 0x1f7 p₃) ≡ d.sector stored =
        (d.inb-IsSame p₃).sector_same
        ∙ same₃.sector_same
        ∙ d.sector-outb 0x1f7 (0xe7 % 256) p₂
        ∙ same₂.sector_same in
      (
        not (H.inb 0x1f7 p₃ == 0),
        H.after_inb 0x1f7 p₃,
        rw s.is_set (rw s.is_ready (rw s.is_sent (rw s.is_waited (rw e₃ refl)))),
        λ k small.
            ap (λ t. t (lba % 2 ^ 28) k) last
            ∙ d.sector-outsw_self read buffer (lba % 2 ^ 28) k job quiet asks small,
        λ j k ne.
            ap (λ t. t j k) last
            ∙ d.sector-outsw_ne read buffer (lba % 2 ^ 28) j k job quiet asks ne
            ∙ ap (λ t. t j k) (kept.sector_same ∙ s.kept),
      )
