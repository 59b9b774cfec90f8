-- ===== src/Ata/Ports.antt =====
-- kernel/drivers/ata.cpp: the operations on single ports, and the loops that poll the status.
use juos.Prelude.{
  ℕ, zero, suc, ◌+◌, ◌*◌, ◌/◌, ◌%◌, ◌^◌, Bool, Option, none, some, ◌==◌, if◌then◌else◌, not,
}
use juos.Prelude.Options.{◌>>=◌}
use juos.Ata.Drive.{Ports}

pub data Bus : Type 0 where
  primary secondary : Bus

-- The registers by one of their names; `data_words` is Data, `status_or_command` is Status and Command.
pub data IoRegister : Type 0 where
  data_words error sector_count lba_low lba_mid lba_high head status_or_command : IoRegister

abbrev pub register_number : IoRegister → ℕ
register_number data_words = 0
register_number error = 1
register_number sector_count = 2
register_number lba_low = 3
register_number lba_mid = 4
register_number lba_high = 5
register_number head = 6
register_number status_or_command = 7

-- `nothing` is the command 0 of RESET_COMMAND_REGISTER.
pub data Command : Type 0 where
  identify read_buffer write_buffer : Command
  read_sectors_with_retry write_sectors_with_retry : Command
  read_dma28 read_dma48 write_dma28 write_dma48 : Command
  cache_flush standby standby_lba28 nothing : Command

-- StandbyLBA28 is 0xe0 | 0x40.
abbrev pub command_value : Command → ℕ
command_value identify = 0xec
command_value read_buffer = 0xe4
command_value write_buffer = 0xe8
command_value read_sectors_with_retry = 0x20
command_value write_sectors_with_retry = 0x30
command_value read_dma28 = 0xc8
command_value read_dma48 = 0x25
command_value write_dma28 = 0xca
command_value write_dma48 = 0x35
command_value cache_flush = 0xe7
command_value standby = 0xe0
command_value standby_lba28 = 0xe0
command_value nothing = 0

abbrev pub io_base : Bus → ℕ
io_base primary = 0x1f0
io_base secondary = 0x170

abbrev pub select_value : Bus → ℕ
select_value primary = 0xa0
select_value secondary = 0xb0

unfoldable pub io_reg_offset : IoRegister → Bus → ℕ
io_reg_offset reg bus = register_number reg + io_base bus

-- The flags of a status byte.
abbrev pub bsy : ℕ → Bool
bsy status = status / 128 % 2 == 1

abbrev pub rdy : ℕ → Bool
rdy status = status / 64 % 2 == 1

abbrev pub drq : ℕ → Bool
drq status = status / 8 % 2 == 1

abbrev pub err : ℕ → Bool
err status = status % 2 == 1

module _ (H : Ports) where
  pub record Ata : Type 0 where
    pub selected_controller : Bus
    pub ports : H.State

  unfoldable pub out : ℕ → ℕ → Ata → Ata
  out port val s = record s { ports = H.outb port (val % 256) s.ports }

  unfoldable pub io_reg_set : IoRegister → ℕ → Ata → Ata
  unfolding out io_reg_offset
  io_reg_set reg val s = out (io_reg_offset reg s.selected_controller) val s

  -- The value goes to the data port.
  unfoldable pub select : Bus → Ata → Ata
  unfolding out
  select bus s =
      let chosen : Ata = record s { selected_controller = bus } in
      out (io_base bus) (select_value bus) chosen

  unfoldable pub read_byte : IoRegister → Ata → ℕ
  unfolding io_reg_offset
  read_byte reg s = H.inb (io_reg_offset reg s.selected_controller) s.ports

  unfoldable pub after_read_byte : IoRegister → Ata → Ata
  unfolding io_reg_offset
  after_read_byte reg s = record s {
    ports = H.after_inb (io_reg_offset reg s.selected_controller) s.ports;
  }

  unfoldable pub wait_no_busy : ℕ → Ata → Option Ata
  unfolding read_byte after_read_byte
  wait_no_busy zero s = none
  wait_no_busy (suc fuel) s =
      let s' = after_read_byte status_or_command s in
      let rest = wait_no_busy fuel s' in
      if bsy (read_byte status_or_command s) then rest else some s'

  unfoldable pub wait_until_ready : ℕ → Ata → Option Ata
  unfolding read_byte after_read_byte
  wait_until_ready zero s = none
  wait_until_ready (suc fuel) s =
      let s' = after_read_byte status_or_command s in
      let rest = wait_until_ready fuel s' in
      if rdy (read_byte status_or_command s) then some s' else rest

  -- The pair of waits that stands before each command and each transfer.
  unfoldable pub wait_both : ℕ → Ata → Option Ata
  unfolding wait_no_busy wait_until_ready
  wait_both fuel s = wait_no_busy fuel s >>= wait_until_ready fuel

  -- The result is whether the status is not 0.
  unfoldable pub command : ℕ → Command → Ata → Option (Bool × Ata)
  unfolding wait_both io_reg_set read_byte after_read_byte
  command fuel cmd s = do
    ready ← wait_both fuel s
    let sent = io_reg_set status_or_command (command_value cmd) ready
    some (not (read_byte status_or_command sent == 0), after_read_byte status_or_command sent)

  unfoldable pub reset_command_register : ℕ → Ata → Option (Bool × Ata)
  unfolding command
  reset_command_register fuel s = command fuel nothing s

  unfoldable pub disable_interrupts : Ata → Ata
  unfolding out
  disable_interrupts s = out 0x3f6 0x2 s

  -- For a slave bit of 0 or 1.
  unfoldable pub set_head : ℕ → ℕ → Ata → Ata
  unfolding out
  set_head lba slavebit s = out 0x1f6 (0xe0 + slavebit * 2 ^ 4 + lba / 2 ^ 24 % 16) s

  unfoldable pub set_sector_count : ℕ → Ata → Ata
  unfolding io_reg_set
  set_sector_count count s = io_reg_set sector_count count s

  unfoldable pub delay_400_ns : Ata → Ata
  unfolding after_read_byte
  delay_400_ns s = let read = after_read_byte status_or_command in read (read (read (read s)))

  unfoldable pub set_lba : ℕ → Ata → Ata
  unfolding io_reg_set
  set_lba lba s =
      io_reg_set lba_high (lba / 2 ^ 16 % 256)
        (io_reg_set lba_mid (lba / 2 ^ 8 % 256) (io_reg_set lba_low (lba % 256) s))

  -- `Timer::sleep` (kernel/kernel/timer.cpp), whose body is commented out.
  unfoldable pub timer_sleep : ℕ → Ata → Ata
  timer_sleep ticks s = s
