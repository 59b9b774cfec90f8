-- ===== src/Ata/Absent.antt =====
-- kernel/drivers/ata.cpp: the identification where no drive answers, and the panics of `create_device`.
use juos.Prelude.{
  ℕ, zero, suc, ◌≡◌, refl, ap, Bool, true, false, Option, none, some, ◌&&◌, if◌then◌else◌, not,
}
use juos.Prelude.Options.{◌>>=◌}
use juos.Ata.Drive.{Ports}
use juos.Ata.Ports.{
  Ata, Bus, primary, Command, rdy, read_byte, wait_no_busy, wait_until_ready, wait_both, command,
}
use juos.Ata.Identify.{
  DeviceInfoResult, Creation, no_device_panic, not_ata_panic, created, get_device_info,
  create_device,
}

bind-none {ℓ κ} :
    {A : Type ℓ} {B : Type κ} (m : Option A) (f : A → Option B)
    → ((a : A) → f a ≡ none)
    → (m >>= f) ≡ none
bind-none none f e = refl
bind-none (some a) f e = e a

module _ (H : Ports) (unready : (port : ℕ) (p : H.State) → rdy (H.inb port p) ≡ false) where
  wait_until_ready-unready : (fuel : ℕ) (s : Ata H) → wait_until_ready H fuel s ≡ none
  unfolding wait_until_ready read_byte
  wait_until_ready-unready zero s = refl
  wait_until_ready-unready (suc fuel) s = rw (unready _ s.ports) (wait_until_ready-unready fuel _)

  command-unready : (fuel : ℕ) (cmd : Command) (s : Ata H) → command H fuel cmd s ≡ none
  unfolding command wait_both
  command-unready fuel cmd s =
      let never =
        bind-none (wait_no_busy H fuel s) (wait_until_ready H fuel)
          (wait_until_ready-unready fuel) in
      rw never refl

  -- Where the ready flag is never read as set, as on ports without a drive that read as 0, the
  -- identification never ends: no fuel is enough, so the panic of `create_device` is not reached.
  pub get_device_info-unready :
      (fuel : ℕ) (bus : Bus) (s : Ata H)
      → (get_device_info H fuel bus s ≡ none) × (create_device H fuel s ≡ none)
  unfolding get_device_info create_device
  get_device_info-unready fuel bus s =
      (rw (command-unready fuel _ _) refl, rw (command-unready fuel _ _) refl)

chosen :
    (found not_ata : Bool) (made : Creation)
    → (if not found && true
        then no_device_panic
        else if not_ata && false
        then not_ata_panic
        else made)
      ≡ (if found then made else no_device_panic)
chosen true true made = refl
chosen true false made = refl
chosen false not_ata made = refl

-- Where the identification returns, `create_device` makes the device that was found, also one that is
-- not ATA, and else panics for the missing device: its second panic is never the result.
pub create_device_lem :
    (H : Ports) (fuel : ℕ) (info : DeviceInfoResult) (s s' : Ata H)
    → get_device_info H fuel primary s ≡ some (info, s')
    → create_device H fuel s ≡ some (if info.found then created info else no_device_panic, s')
unfolding create_device
create_device_lem H fuel info s s' e =
    rw e (ap (λ made. some (made, s')) (chosen info.found info.not_ata (created info)))
