-- ===== src/Interrupts/Gates.antt =====
-- The gates that the processor reads back from the interrupt descriptor table.
use chud_os.Base.{ℕ, ◌+◌, ◌*◌, ◌/◌, ◌^◌, ◌<◌, ◌≡◌, ◌≢◌, ap, ◌∙◌, arith, update_self, update_ne}
use chud_os.Base.Bits.{bit_and-low_mask}
use chud_os.Interrupts.{IdtEntry, set_idt_entry}

-- The address of the handler, as the processor puts it together.
abbrev pub gate_offset : IdtEntry → ℕ
gate_offset e = e.offset_low + e.offset_middle * 2 ^ 16 + e.offset_high * 2 ^ 32

-- After SetIDTEntry the gate of that number leads to the handler, with its selector, its flags and the
-- three bits of its stack number, and every other gate is as before.
pub set_idt_entry-gate :
    (n handler selector flags ist : ℕ) (idt : ℕ → IdtEntry)
    → handler < 2 ^ 64
    → ist < 8
    → (gate_offset (set_idt_entry n handler selector flags ist idt n) ≡ handler)
      × ((set_idt_entry n handler selector flags ist idt n).selector ≡ selector)
      × ((set_idt_entry n handler selector flags ist idt n).ist ≡ ist)
      × ((set_idt_entry n handler selector flags ist idt n).flags ≡ flags)
      × ((other : ℕ) → n ≢ other → set_idt_entry n handler selector flags ist idt other ≡ idt other)
unfolding set_idt_entry
set_idt_entry-gate n handler selector flags ist idt h hi =
    let here = update_self idt n in
    (
      ap gate_offset (here _)
          ∙ rw
              (
                bit_and-low_mask 16 handler,
                bit_and-low_mask 16 (handler / 2 ^ 16),
                bit_and-low_mask 32 (handler / 2 ^ 32),
              )
              (omega arith),
      ap (λ (e : IdtEntry). e.selector) (here _),
      ap (λ (e : IdtEntry). e.ist) (here _) ∙ omega (arith, bit_and-low_mask 3 ist),
      ap (λ (e : IdtEntry). e.flags) (here _),
      λ other ne. update_ne idt n _ other ne,
    )
