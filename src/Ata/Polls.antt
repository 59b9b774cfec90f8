-- ===== src/Ata/Polls.antt =====
-- kernel/drivers/ata.cpp: the loops that poll the status end, and change nothing but the status.
use juos.Prelude.{
  ℕ, zero, suc, ◌%◌, ◌<◌, ◌≡◌, inl, inr, refl, ◌/◌, ◌∙◌, Bool, true, false, Option, some, ◌==◌, not,
  arith, Bool-cases,
}
use juos.Ata.Drive.{Ports, IsSame, IsDrive, NotBusy, IsReady, polled}
use juos.Ata.Ports.{
  Ata, Command, primary, command_value, bsy, rdy, read_byte, after_read_byte, io_reg_offset,
  io_reg_set, out, wait_no_busy, wait_until_ready, wait_both, command,
}

module _ (H : Ports) (d : IsDrive H) where
  -- The driver with the primary controller selected.
  abbrev pub on : H.State → Ata H
  on p = record { selected_controller = primary; ports = p }

  abbrev pub Same : H.State → H.State → Type 0
  Same = IsSame H d.reg d.sector d.job

  pub Same-trans : {p q r : H.State} → Same p q → Same q r → Same p r
  Same-trans s t = record {
    reg_same = t.reg_same ∙ s.reg_same;
    sector_same = t.sector_same ∙ s.sector_same;
    job_same = t.job_same ∙ s.job_same;
    not_busy = λ quiet. t.not_busy (s.not_busy quiet);
    still_ready = λ ready. t.still_ready (s.still_ready ready);
  }

  -- A result that a loop returns, with the rest of the state as it was, and with the drive not busy, or
  -- ready.
  abbrev pub Calms : Option (Ata H) → H.State → Type 0
  Calms result p = (p' : H.State) × (result ≡ some (on p')) × Same p p' × NotBusy H p'

  abbrev pub Readies : Option (Ata H) → H.State → Type 0
  Readies result p = (p' : H.State) × (result ≡ some (on p')) × Same p p' × IsReady H p'

  abbrev pub Waits : Option (Ata H) → H.State → Type 0
  Waits result p =
      (p' : H.State) × (result ≡ some (on p')) × Same p p' × NotBusy H p' × IsReady H p'

  bit_clear : (v : ℕ) → bsy v ≡ false → v / 128 % 2 ≡ 0
  unfolding bsy
  bit_clear v e = ground (arith, e)

  bit_set : (v : ℕ) → rdy v ≡ true → v / 64 % 2 ≡ 1
  unfolding rdy
  bit_set v e = ground (arith, e)

  calm_read : (p : H.State) → bsy (H.inb 0x1f7 p) ≡ false → NotBusy H (H.after_inb 0x1f7 p)
  calm_read p e = (d.inb-IsSame p).not_busy (bit_clear (H.inb 0x1f7 p) e)

  ready_read : (p : H.State) → rdy (H.inb 0x1f7 p) ≡ true → IsReady H (H.after_inb 0x1f7 p)
  ready_read p e = (d.inb-IsSame p).still_ready (bit_set (H.inb 0x1f7 p) e)

  wait_no_busy_lem :
      (fuel m : ℕ) (p : H.State)
      → bsy (H.inb 0x1f7 (polled H m p)) ≡ false
      → m < fuel
      → Calms (wait_no_busy H fuel (on p)) p
  unfolding wait_no_busy read_byte after_read_byte io_reg_offset
  wait_no_busy_lem zero m p e lt = absurd (omega (arith, lt))
  wait_no_busy_lem (suc fuel) zero p e lt =
      (H.after_inb 0x1f7 p, rw e refl, d.inb-IsSame p, calm_read p e)
  wait_no_busy_lem (suc fuel) (suc m) p e lt = elim (Bool-cases (bsy (H.inb 0x1f7 p))) [
    | inl busy ↦
        let (p', found, same, calm) =
          wait_no_busy_lem fuel m (H.after_inb 0x1f7 p) e (omega (arith, lt)) in
        (p', rw busy found, Same-trans (d.inb-IsSame p) same, calm)
    | inr free ↦ (H.after_inb 0x1f7 p, rw free refl, d.inb-IsSame p, calm_read p free)
  ]

  wait_until_ready_lem :
      (fuel m : ℕ) (p : H.State)
      → rdy (H.inb 0x1f7 (polled H m p)) ≡ true
      → m < fuel
      → Readies (wait_until_ready H fuel (on p)) p
  unfolding wait_until_ready read_byte after_read_byte io_reg_offset
  wait_until_ready_lem zero m p e lt = absurd (omega (arith, lt))
  wait_until_ready_lem (suc fuel) zero p e lt =
      (H.after_inb 0x1f7 p, rw e refl, d.inb-IsSame p, ready_read p e)
  wait_until_ready_lem (suc fuel) (suc m) p e lt = elim (Bool-cases (rdy (H.inb 0x1f7 p))) [
    | inl ready ↦ (H.after_inb 0x1f7 p, rw ready refl, d.inb-IsSame p, ready_read p ready)
    | inr not_yet ↦
        let (p', found, same, at) =
          wait_until_ready_lem fuel m (H.after_inb 0x1f7 p) e (omega (arith, lt)) in
        (p', rw not_yet found, Same-trans (d.inb-IsSame p) same, at)
  ]

  -- With more fuel than the drive's patience, the two waits end.
  pub wait_both_lem :
      (fuel : ℕ) (p : H.State) → d.patience < fuel → Waits (wait_both H fuel (on p)) p
  unfolding wait_both
  wait_both_lem fuel p lt =
      let (quiet, r) = d.ready p d.patience (omega arith) in
      let (p₁, e₁, same₁, calm) = wait_no_busy_lem fuel d.patience p (rw quiet refl) lt in
      let (q, ready) = d.ready p₁ d.patience (omega arith) in
      let (p₂, e₂, same₂, at) = wait_until_ready_lem fuel d.patience p₁ (rw ready refl) lt in
      (p₂, rw e₁ e₂, Same-trans same₁ same₂, same₂.not_busy calm, at)

  -- The command is written to the command register of a drive that is as it was.
  pub command_lem :
      (fuel : ℕ) (cmd : Command) (p : H.State)
      → d.patience < fuel
      → (b : Bool) × (p₁ : H.State) × (p₂ : H.State) × (command H fuel cmd (on p) ≡ some (b, on p₂))
        × Same p p₁
        × NotBusy H p₁
        × IsReady H p₁
        × Same (H.outb 0x1f7 (command_value cmd % 256) p₁) p₂
  unfolding command io_reg_set out read_byte after_read_byte io_reg_offset
  command_lem fuel cmd p lt =
      let (p₁, e, same, calm, at) = wait_both_lem fuel p lt in
      let sent = H.outb 0x1f7 (command_value cmd % 256) p₁ in
      (
        not (H.inb 0x1f7 sent == 0),
        p₁,
        H.after_inb 0x1f7 sent,
        rw e refl,
        same,
        calm,
        at,
        d.inb-IsSame sent,
      )

  pub polled-Same : (n : ℕ) (p : H.State) → Same p (polled H n p)
  polled-Same zero p = record {
    reg_same = refl;
    sector_same = refl;
    job_same = refl;
    not_busy = λ q. q;
    still_ready = λ q. q;
  }
  polled-Same (suc n) p = Same-trans (d.inb-IsSame p) (polled-Same n (H.after_inb 0x1f7 p))
