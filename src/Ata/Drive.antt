-- ===== src/Ata/Drive.antt =====
-- The ports that kernel/drivers/ata.cpp reads and writes, and what a hard disk does behind them in the
-- programmed transfer of one sector, as the ATA standard describes it.
use juos.Prelude.{ℕ, zero, suc, ◌+◌, ◌*◌, ◌/◌, ◌%◌, ◌≤◌, ◌<◌, ◌≡◌, ◌≢◌, Bool, true, false}

-- `inb`, `inw` and `rep insw` give a value and change the state. `outsw` takes the words as bytes.
pub record Ports : Type 1 where
  pub State : Type 0
  pub inb : ℕ → State → ℕ
  pub after_inb : ℕ → State → State
  pub inw : ℕ → State → ℕ
  pub after_inw : ℕ → State → State
  pub outb : ℕ → ℕ → State → State
  pub insw : ℕ → ℕ → State → ℕ → ℕ
  pub after_insw : ℕ → ℕ → State → State
  pub outsw : ℕ → ℕ → (ℕ → ℕ) → State → State

-- The command that the drive works on, with its sector.
pub data Job : Type 0 where
  idle : Job
  reading writing : ℕ → Job

-- The address in the registers of the drive: 24 bits in three, and 4 in the head register.
abbrev pub address : (ℕ → ℕ) → ℕ
address r = r 0x1f3 + 256 * r 0x1f4 + 65536 * r 0x1f5 + 16777216 * (r 0x1f6 % 16)

-- The commands with data.
abbrev pub transfers : Job → Bool
transfers idle = false
transfers (reading i) = true
transfers (writing i) = true

module _ (H : Ports) where
  abbrev pub polled : ℕ → H.State → H.State
  polled zero s = s
  polled (suc n) s = polled n (H.after_inb 0x1f7 s)

  -- BSY is clear, and DRQ is set.
  abbrev pub NotBusy : H.State → Type 0
  NotBusy s = H.inb 0x1f7 s / 128 % 2 ≡ 0

  abbrev pub Requests : H.State → Type 0
  Requests s = H.inb 0x1f7 s / 8 % 2 ≡ 1

  -- RDY is set.
  abbrev pub IsReady : H.State → Type 0
  IsReady s = H.inb 0x1f7 s / 64 % 2 ≡ 1

  -- What two states have in common: where the first is not busy, or ready, the second is so too.
  pub record IsSame (reg : H.State → ℕ → ℕ) (sector : H.State → ℕ → ℕ → ℕ) (job : H.State → Job)
      (s s' : H.State) : Type 0 where
    pub reg_same : reg s' ≡ reg s
    pub sector_same : sector s' ≡ sector s
    pub job_same : job s' ≡ job s
    pub not_busy : NotBusy s → NotBusy s'
    pub still_ready : IsReady s → IsReady s'

  -- A master drive on the primary ports.
  pub record IsDrive : Type 0 where
    -- The registers behind the ports, the sectors, and the command.
    pub reg : H.State → ℕ → ℕ
    pub sector : H.State → ℕ → ℕ → ℕ
    pub job : H.State → Job
    -- The drive is ready and not busy after so many reads of its status.
    pub patience : ℕ
    pub ready : (s : H.State) (n : ℕ) → patience ≤ n → NotBusy (polled n s) × IsReady (polled n s)
    -- Reading the status leaves the rest, and does not make the drive busy or unready.
    pub inb-IsSame : (s : H.State) → IsSame reg sector job s (H.after_inb 0x1f7 s)
    -- A register keeps the byte that is written to it.
    pub reg-outb_self : (p v : ℕ) (s : H.State) → p ≢ 0x1f7 → reg (H.outb p v s) p ≡ v
    pub reg-outb_ne : (p v q : ℕ) (s : H.State) → p ≢ q → reg (H.outb p v s) q ≡ reg s q
    pub sector-outb : (p v : ℕ) (s : H.State) → sector (H.outb p v s) ≡ sector s
    -- A drive that is not busy and ready takes the command. One sector, by its address: bits 7 to 5 of the head register select it, bit 4 is the master.
    pub job-read :
        (s : H.State)
        → NotBusy s
        → IsReady s
        → reg s 0x1f2 ≡ 1
        → reg s 0x1f6 / 16 ≡ 14
        → job (H.outb 0x1f7 0x20 s) ≡ reading (address (reg s))
    pub job-write :
        (s : H.State)
        → NotBusy s
        → IsReady s
        → reg s 0x1f2 ≡ 1
        → reg s 0x1f6 / 16 ≡ 14
        → job (H.outb 0x1f7 0x30 s) ≡ writing (address (reg s))
    -- A drive with such a command is busy until it requests the transfer of the data.
    pub requests : (s : H.State) → transfers (job s) ≡ true → NotBusy s → Requests s
    -- The words of the sector move only while the drive is not busy and requests them.
    pub insw_lem :
        (s : H.State) (i k : ℕ)
        → job s ≡ reading i
        → NotBusy s
        → Requests s
        → k < 512
        → H.insw 0x1f0 256 s k ≡ sector s i k
    pub sector-insw : (s : H.State) → sector (H.after_insw 0x1f0 256 s) ≡ sector s
    pub sector-outsw_self :
        (s : H.State) (b : ℕ → ℕ) (i k : ℕ)
        → job s ≡ writing i
        → NotBusy s
        → Requests s
        → k < 512
        → sector (H.outsw 0x1f0 256 b s) i k ≡ b k
    pub sector-outsw_ne :
        (s : H.State) (b : ℕ → ℕ) (i j k : ℕ)
        → job s ≡ writing i
        → NotBusy s
        → Requests s
        → i ≢ j
        → sector (H.outsw 0x1f0 256 b s) j k ≡ sector s j k
