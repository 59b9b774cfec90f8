-- ===== src/Tests/Drives.antt =====
-- The theorems on the ATA driver, on a drive that is busy with a command until its status was read.
use juos.Prelude.{
  ℕ, zero, suc, true, false, ◌/◌, ◌%◌, ◌+◌, ◌≤◌, ◌<◌, ◌≡◌, ◌≢◌, refl, ap, Bool, none, some, arith,
  ◌==◌, if◌then◌else◌, ◌⊎◌,
}
use juos.Prelude.Maps.{update}
use juos.Ata.Drive.{Ports, Job, idle, reading, writing, IsDrive, address, polled}
use juos.Ata.Polls.{on}
use juos.Ata.Ports.{Ata, primary, rdy}
use juos.Ata.Sector.{read_sectors, write_sectors, read_bytes, write_bytes}
use juos.Ata.Transfer.{read_sectors_lem, write_sectors_lem}
use juos.Ata.Spans.{read_bytes_lem, write_bytes_lem}
use juos.Ata.Absent.{get_device_info-unready}
use juos.Ata.Identify.{get_device_info, create_device}

-- The registers, the sectors and the command of a drive.
record Disk : Type 0 where
  registers : ℕ → ℕ
  bytes : ℕ → ℕ → ℕ
  work : Job
  busy : Bool

abbrev job_of : ℕ → (ℕ → ℕ) → Job
job_of v r =
    if v == 0x20 then reading (address r) else if v == 0x30 then writing (address r) else idle

abbrev place_of : Job → ℕ
place_of idle = 0
place_of (reading i) = i
place_of (writing i) = i

abbrev store : Job → (ℕ → ℕ) → (ℕ → ℕ → ℕ) → ℕ → ℕ → ℕ
store idle b bytes = bytes
store (reading i) b bytes = bytes
store (writing i) b bytes = update bytes i b

-- The status of a busy drive, and of one that is not. The words move only while it is not busy.
abbrev disk_ports : ℕ → ℕ → Ports
disk_ports busy_status status = record {
  State = Disk;
  inb = λ p s. if s.busy then busy_status else status;
  after_inb = λ p s. record s { busy = false };
  inw = λ p s. 0;
  after_inw = λ p s. s;
  outb = λ p v s. record s {
    registers = update s.registers p v;
    work = if p == 0x1f7 then job_of v s.registers else s.work;
    busy = p == 0x1f7;
  };
  insw = λ p n s k. if s.busy then 0 else s.bytes (place_of s.work) k;
  after_insw = λ p n s. s;
  outsw = λ p n b s. record s { bytes = if s.busy then s.bytes else store s.work b s.bytes };
}

registers_self : (r : ℕ → ℕ) (p v : ℕ) → update r p v p ≡ v
registers_self r p v = ground arith

registers_ne : (r : ℕ → ℕ) (p v q : ℕ) → p ≢ q → update r p v q ≡ r q
registers_ne r p v q ne = ground arith

stored_self :
    (j : Job) (b : ℕ → ℕ) (bytes : ℕ → ℕ → ℕ) (i k : ℕ) → j ≡ writing i → store j b bytes i k ≡ b k
stored_self j b bytes i k e = rw e (ap (λ f. f k) (bytes_self bytes i b))
  where
    bytes_self : (t : ℕ → ℕ → ℕ) (i : ℕ) (b : ℕ → ℕ) → update t i b i ≡ b
    bytes_self t i b = ground arith

stored_ne :
    (j : Job) (b : ℕ → ℕ) (bytes : ℕ → ℕ → ℕ) (i l k : ℕ)
    → j ≡ writing i
    → i ≢ l
    → store j b bytes l k ≡ bytes l k
stored_ne j b bytes i l k e ne = rw e (ap (λ f. f k) (bytes_ne bytes i l b ne))
  where
    bytes_ne : (t : ℕ → ℕ → ℕ) (i l : ℕ) (b : ℕ → ℕ) → i ≢ l → update t i b l ≡ t l
    bytes_ne t i l b ne = ground arith

not_busy-polled :
    (n : ℕ) (s : Disk) → s.busy ≡ false → (polled (disk_ports 0x80 0x58) n s).busy ≡ false
not_busy-polled zero s e = e
not_busy-polled (suc n) s e = not_busy-polled n (record s { busy = false }) refl

calm : (n : ℕ) (s : Disk) → 1 ≤ n → (polled (disk_ports 0x80 0x58) n s).busy ≡ false
calm zero s le = absurd (omega (arith, le))
calm (suc n) s le = not_busy-polled n (record s { busy = false }) refl

is_free : (b : Bool) → (if b then 0x80 else 0x58) / 128 % 2 ≡ 0 → b ≡ false
is_free false e = refl
is_free true e = absurd (omega (arith, e))

-- Busy after a command, and then ready, with data.
abbrev disk_drive : IsDrive (disk_ports 0x80 0x58)
disk_drive = record {
  reg = λ s. s.registers;
  sector = λ s. s.bytes;
  job = λ s. s.work;
  patience = 1;
  ready = λ s n le. let e = calm n s le in (rw e refl, rw e refl);
  inb-IsSame = λ s. record {
    reg_same = refl;
    sector_same = refl;
    job_same = refl;
    not_busy = λ q. refl;
    still_ready = λ q. refl;
  };
  reg-outb_self = λ p v s ne. registers_self s.registers p v;
  reg-outb_ne = λ p v q s ne. registers_ne s.registers p v q ne;
  sector-outb = λ p v s. refl;
  job-read = λ s quiet at one mode. refl;
  job-write = λ s quiet at one mode. refl;
  requests = λ s works quiet. let e = is_free s.busy quiet in rw e refl;
  insw_lem = λ s i k e quiet asks lt.
      let f = is_free s.busy quiet in rw f (ap (λ j. s.bytes (place_of j) k) e);
  sector-insw = λ s. refl;
  sector-outsw_self = λ s b i k e quiet asks lt.
      let f = is_free s.busy quiet in rw f (stored_self s.work b s.bytes i k e);
  sector-outsw_ne = λ s b i j k e quiet asks ne.
      let f = is_free s.busy quiet in rw f (stored_ne s.work b s.bytes i j k e ne);
}

-- The byte `k` of the sector `i` is i + k.
abbrev numbered : Disk
numbered = record { registers = λ p. 0; bytes = λ i k. i + k; work = idle; busy = false }

abbrev ready_ports : Ports
ready_ports = disk_ports 0x80 0x58

read_sectors_lem_example :
    (bytes : ℕ → ℕ) × (success : Bool) × (p' : Disk) × (read_sectors ready_ports 2 5 1
        (on ready_ports disk_drive numbered)
      ≡ some ((bytes, success), on ready_ports disk_drive p'))
    × ((k : ℕ) → k < 512 → bytes k ≡ 5 + k)
    × (p'.bytes ≡ numbered.bytes)
read_sectors_lem_example = read_sectors_lem ready_ports disk_drive 2 5 1 numbered (omega arith)

write_sectors_lem_example :
    (success : Bool) × (p' : Disk) × (write_sectors ready_ports 2
        (λ k. 9)
        5
        1
        (on ready_ports disk_drive numbered)
      ≡ some (success, on ready_ports disk_drive p'))
    × ((k : ℕ) → k < 512 → p'.bytes 5 k ≡ 9)
    × ((j k : ℕ) → 5 ≢ j → p'.bytes j k ≡ j + k)
write_sectors_lem_example =
    write_sectors_lem ready_ports disk_drive 2 (λ k. 9) 5 1 numbered (omega arith)

read_bytes_lem_example :
    (output : ℕ → ℕ) × (success : Bool) × (p' : Disk) × (read_bytes ready_ports 2
        (λ k. 0)
        1030
        100
        (on ready_ports disk_drive numbered)
      ≡ some ((output, success), on ready_ports disk_drive p'))
    × ((k : ℕ) → k < 100 → output k ≡ 2 + (6 + k))
    × (p'.bytes ≡ numbered.bytes)
read_bytes_lem_example =
    read_bytes_lem ready_ports disk_drive 2 numbered (omega arith) (λ k. 0) 1030 100 (omega arith)
      (omega arith)

write_bytes_lem_example :
    (success : Bool) × (p' : Disk) × (write_bytes ready_ports 2
        (λ k. 9)
        1030
        100
        (on ready_ports disk_drive numbered)
      ≡ some (success, on ready_ports disk_drive p'))
    × ((k : ℕ) → k < 100 → p'.bytes 2 (6 + k) ≡ 9)
    × ((k : ℕ) → k < 512 → (k < 6) ⊎ (106 ≤ k) → p'.bytes 2 k ≡ 2 + k)
    × ((j k : ℕ) → 2 ≢ j → p'.bytes j k ≡ j + k)
write_bytes_lem_example =
    write_bytes_lem ready_ports disk_drive 2 numbered (omega arith) (λ k. 9) 1030 100 (omega arith)
      (omega arith)

-- Ports that read as 0.
abbrev dead_ports : Ports
dead_ports = disk_ports 0 0

abbrev dead : Ata dead_ports
dead = record { selected_controller = primary; ports = numbered }

not_ready : (b : Bool) → rdy (if b then 0 else 0) ≡ false
not_ready false = refl
not_ready true = refl

get_device_info-unready_example :
    (get_device_info dead_ports 1000 primary dead ≡ none)
    × (create_device dead_ports 1000 dead ≡ none)
get_device_info-unready_example =
    get_device_info-unready dead_ports (λ port p. not_ready p.busy) 1000 primary dead
