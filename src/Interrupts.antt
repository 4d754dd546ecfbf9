-- ===== src/Interrupts.antt =====
-- The interrupt masks of src/kernel/drivers/Devices/PIC.c and the gates of src/kernel/drivers/LowLevel/
-- IDT.c. The data ports of the two controllers are their mask registers: a byte that is written is
-- the byte that is read next.
pub mod Gates
use chud_os.Base.{ℕ, ◌-◌, ◌^◌, bit_and, bit_or, ltb, leb, if◌then◌else◌, update, List, [], ◌∷◌}
use chud_os.Base.Words.{shr}
use chud_os.Dma.{PortWrite, outb}

pub record Pic : Type 0 where
  pub pic1_data : ℕ
  pub pic2_data : ℕ

pub pic_mask : ℕ → Pic → Pic
pic_mask irq pic =
    if ltb irq 8
    then record pic { pic1_data = bit_or pic.pic1_data (2 ^ irq) }
    else record pic { pic2_data = bit_or pic.pic2_data (2 ^ (irq - 8)) }

-- `~(1 << irq)` in the byte that is written.
abbrev pub clear_bit : ℕ → ℕ → ℕ
clear_bit value irq = bit_and value (0xff - 2 ^ irq)

-- An interrupt of the second controller also needs line 2 of the first one.
pub pic_unmask : ℕ → Pic → Pic
pic_unmask irq pic =
    if ltb irq 8 then record pic { pic1_data = clear_bit pic.pic1_data irq } else record {
      pic1_data = clear_bit pic.pic1_data 2;
      pic2_data = clear_bit pic.pic2_data (irq - 8);
    }

pub record IdtEntry : Type 0 where
  pub offset_low : ℕ
  pub selector : ℕ
  pub ist : ℕ
  pub flags : ℕ
  pub offset_middle : ℕ
  pub offset_high : ℕ
  pub zero_field : ℕ

pub set_idt_entry : ℕ → ℕ → ℕ → ℕ → ℕ → (ℕ → IdtEntry) → ℕ → IdtEntry
set_idt_entry entry_num handler_address selector flags ist kernel_idt =
    update kernel_idt entry_num (record {
      offset_low = bit_and handler_address 0xffff;
      selector = selector;
      ist = bit_and ist 0b111;
      flags = flags;
      offset_middle = bit_and (shr handler_address 16) 0xffff;
      offset_high = bit_and (shr handler_address 32) 0xffff_ffff;
      zero_field = 0;
    })

-- `pic_send_eoi` and `pic_remap`, as their `outb` calls; io_wait is left out.
pub pic_send_eoi : ℕ → List PortWrite
pic_send_eoi irq = if leb 8 irq then outb 0xA0 0x20 ∷ outb 0x20 0x20 ∷ [] else outb 0x20 0x20 ∷ []

pub pic_remap : ℕ → ℕ → List PortWrite
pic_remap offset1 offset2 =
    outb 0x20 0x11
    ∷ outb 0xA0 0x11
    ∷ outb 0x21 offset1
    ∷ outb 0xA1 offset2
    ∷ outb 0x21 (2 ^ 2)
    ∷ outb 0xA1 0x02
    ∷ outb 0x21 0x01
    ∷ outb 0xA1 0x01
    ∷ outb 0x21 0xFF
    ∷ outb 0xA1 0xFF
    ∷ []
