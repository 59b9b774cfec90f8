-- ===== src/Tests/Gates.antt =====
-- The theorems on the interrupt gates and the segment table at tables that are empty.
use juos.Prelude.{ℕ, ◌+◌, ◌*◌, ◌≡◌, arith}
use juos.Idt.{EntryStruct}
use juos.Pic.{idt_init, idt_init-LeadsTo}
use juos.Gdt.{SegmentEntry}
use juos.Idt.Gates.{LeadsTo}

abbrev isr : ℕ → ℕ
isr i = 0x100000 + i * 64

abbrev no_gates : ℕ → EntryStruct
no_gates _ = record { base_low = 0; sel = 0; flags = 0; base_high = 0 }

abbrev irq : ℕ → ℕ
irq k = 0x200000 + k * 64

idt_init-LeadsTo_example :
    let t' = idt_init isr irq no_gates in
    LeadsTo (isr 14) (t' 14) × LeadsTo (irq 1) (t' 33) × (t' 100 ≡ no_gates 100)
idt_init-LeadsTo_example =
    idt_init-LeadsTo isr irq no_gates 14 1 100 (omega arith) (omega arith) (omega arith)
      (omega arith) (omega arith)

abbrev no_segments : ℕ → SegmentEntry
no_segments _ = record {
  limit_low = 0;
  base_low = 0;
  base_middle = 0;
  access = 0;
  granularity = 0;
  base_high = 0;
}
