-- ===== src/Ata/Identify.antt =====
-- kernel/drivers/ata.cpp: the identification of the drive, and `create_device`.
use juos.Prelude.{
  ℕ, zero, suc, ◌+◌, ◌-◌, ◌*◌, ◌/◌, ◌%◌, ◌^◌, Bool, true, false, Option, none, some, List, [], ◌∷◌,
  ◌==◌, ◌&&◌, if◌then◌else◌, not, get_or,
}
use juos.Prelude.Options.{◌>>=◌}
use juos.Ata.Drive.{Ports}
use juos.Ata.Ports.{
  Ata, Bus, primary, secondary, data_words, lba_low, lba_mid, lba_high, status_or_command, identify,
  io_reg_offset, io_reg_set, select, read_byte, after_read_byte, command, bsy, drq, err,
}

pub record DeviceInfoResult : Type 0 where
  pub found : Bool
  pub not_ata : Bool
  pub is_hard_disk : Bool
  pub lba48_supported : Bool
  pub supported_udma_modes : ℕ
  pub conductor_cable_found : Bool
  pub lba28_sectors : ℕ
  pub lba48_sectors : ℕ

abbrev pub no_device : DeviceInfoResult
no_device = record {
  found = false;
  not_ata = false;
  is_hard_disk = false;
  lba48_supported = false;
  supported_udma_modes = 0;
  conductor_cable_found = false;
  lba28_sectors = 0;
  lba48_sectors = 0;
}

-- BIT_IS_CLEAR, which is true for a set bit, counted from 1.
abbrev pub bit_is_clear : ℕ → ℕ → Bool
bit_is_clear n k = n / 2 ^ (k - 1) % 2 == 1

abbrev pub is_primary : Bus → Bool
is_primary primary = true
is_primary secondary = false

-- The fields from the 256 words.
unfoldable pub identified : Bus → Bool → List ℕ → DeviceInfoResult
identified bus device_not_ata words =
    let word = λ (i : ℕ). get_or words i 0 in
    record {
      found = true;
      not_ata = device_not_ata;
      is_hard_disk = not (word 0 == 0);
      lba48_supported = bit_is_clear (word 82) 10;
      supported_udma_modes = word 88;
      conductor_cable_found = is_primary bus && bit_is_clear (word 93) 11;
      lba28_sectors = word 60 + 2 ^ 16 * word 61;
      lba48_sectors = word 100 + 2 ^ 16 * word 101 + 2 ^ 32 * word 102 + 2 ^ 48 * word 103;
    }

-- What `create_device` comes to: one of its two panics, or the device.
pub data Creation : Type 0 where
  no_device_panic not_ata_panic : Creation
  created : DeviceInfoResult → Creation

module _ (H : Ports) where
  -- `while (flag) { status.value = READ_BYTE(Status); }`
  unfoldable pub poll_while : ℕ → (ℕ → Bool) → ℕ → Ata H → Option (ℕ × Ata H)
  unfolding read_byte after_read_byte
  poll_while zero flag status s = none
  poll_while (suc fuel) flag status s =
      let rest =
        poll_while fuel flag (read_byte H status_or_command s)
          (after_read_byte H status_or_command s) in
      if flag status then rest else some (status, s)

  -- The loop that reads the words.
  unfoldable pub read_words : ℕ → Ata H → List ℕ × Ata H
  unfolding io_reg_offset
  read_words zero s = ([], s)
  read_words (suc n) s =
      let port = io_reg_offset data_words s.selected_controller in
      let read : Ata H = record s { ports = H.after_inw port s.ports } in
      let (words, s') = read_words n read in (H.inw port s.ports ∷ words, s')

  -- LBAhigh is read only if LBAmid is not 0.
  unfoldable pub is_not_ata : Ata H → Bool × Ata H
  unfolding read_byte after_read_byte
  is_not_ata s =
      let s₁ = after_read_byte H lba_mid s in
      if read_byte H lba_mid s == 0
      then (false, s₁)
      else (not (read_byte H lba_high s₁ == 0), after_read_byte H lba_high s₁)

  -- From the status on, for a status that is not 0.
  unfoldable pub identify_device : ℕ → Bus → ℕ → Ata H → Option (DeviceInfoResult × Ata H)
  unfolding poll_while is_not_ata read_words identified
  identify_device fuel bus status s = do
    (status₁, s₁) ← poll_while fuel bsy status s
    let (device_not_ata, s₂) = is_not_ata s₁
    (status₂, s₃) ← poll_while fuel (λ v. not device_not_ata && (drq v && err v)) status₁ s₂
    let (words, s₄) = read_words 256 s₃
    some (identified bus device_not_ata words, s₄)

  unfoldable pub get_device_info : ℕ → Bus → Ata H → Option (DeviceInfoResult × Ata H)
  unfolding select io_reg_set command read_byte after_read_byte identify_device
  get_device_info fuel bus s = do
    let cleared =
        io_reg_set H lba_high 0 (io_reg_set H lba_mid 0 (io_reg_set H lba_low 0 (select H bus s)))
    (sent, s₁) ← command H fuel identify cleared
    let status = read_byte H status_or_command s₁
    let s₂ = after_read_byte H status_or_command s₁
    let present = identify_device fuel bus status s₂
    if status == 0 then some (no_device, s₂) else present

  -- The slave is not looked for.
  unfoldable pub create_device : ℕ → Ata H → Option (Creation × Ata H)
  unfolding get_device_info
  create_device fuel s = do
    (master, s₁) ← get_device_info fuel primary s
    let slave = no_device
    some (
      if not master.found && not slave.found
          then no_device_panic
          else if master.not_ata && slave.not_ata
          then not_ata_panic
          else created master,
      s₁,
    )
