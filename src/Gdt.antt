-- ===== src/Gdt.antt =====
-- The descriptors of src/kernel/drivers/LowLevel/GDT.c, with `struct TSS` of include/LowLevel/Memory.h
-- and the entries of include/LowLevel/GDT.h.
pub mod Decode
use chud_os.Base.{ℕ, ◌*◌, ◌%◌, ◌^◌, bit_and, bit_or, update}
use chud_os.Base.Words.{shr}

pub record Tss : Type 0 where
  pub reserved0 : ℕ
  pub rsp0 : ℕ
  pub rsp1 : ℕ
  pub rsp2 : ℕ
  pub reserved1 : ℕ
  pub ist1 : ℕ
  pub ist2 : ℕ
  pub ist3 : ℕ
  pub ist4 : ℕ
  pub ist5 : ℕ
  pub ist6 : ℕ
  pub ist7 : ℕ
  pub reserved2 : ℕ
  pub reserved3 : ℕ
  pub reserved4 : ℕ
  pub io_map_base : ℕ

abbrev pub zero_tss : Tss
zero_tss = record {
  reserved0 = 0;
  rsp0 = 0;
  rsp1 = 0;
  rsp2 = 0;
  reserved1 = 0;
  ist1 = 0;
  ist2 = 0;
  ist3 = 0;
  ist4 = 0;
  ist5 = 0;
  ist6 = 0;
  ist7 = 0;
  reserved2 = 0;
  reserved3 = 0;
  reserved4 = 0;
  io_map_base = 0;
}

-- `struct GDT_Entry`.
pub record GdtEntry : Type 0 where
  pub limit : ℕ
  pub base_0 : ℕ
  pub base_1 : ℕ
  pub access : ℕ
  pub flags_limits : ℕ
  pub base_2 : ℕ

-- `struct TSS_GDT`.
pub record TssGdt : Type 0 where
  pub low : GdtEntry
  pub base_3 : ℕ
  pub reserved : ℕ

-- The entry that SetGDTEntry writes at its offset of Main_GDT. An assignment to a field keeps the
-- bits that the field has.
pub set_gdt_entry : ℕ → ℕ → ℕ → ℕ → GdtEntry
set_gdt_entry base limit flags access = record {
  base_0 = bit_and base 0xffff;
  base_1 = bit_and (shr base 16) 0xff;
  base_2 = bit_and (shr base 24) 0xff;
  access = access;
  flags_limits = bit_or (flags * 2 ^ 4) (bit_and (shr limit 16) 0xf) % 2 ^ 8;
  limit = bit_and limit 0xff;
}

pub set_gdt_system_entry : ℕ → ℕ → ℕ → ℕ → TssGdt
set_gdt_system_entry base limit flags access = record {
  low = record {
    base_0 = bit_and base 0xffff;
    base_1 = bit_and (shr base 16) 0xff;
    base_2 = bit_and (shr base 24) 0xff;
    access = access;
    flags_limits = bit_or (flags * 2 ^ 4) (bit_and (shr limit 16) 0xf) % 2 ^ 8;
    limit = bit_and limit 0xff;
  };
  base_3 = bit_and (shr base 32) 0xffff_ffff;
  reserved = 0;
}

-- The value of ActiveTSS after SetActiveTSS.
pub set_active_tss : ℕ → ℕ → ℕ → ℕ → ℕ → ℕ → ℕ → ℕ → ℕ → ℕ → ℕ → Tss
set_active_tss rsp0 rsp1 rsp2 ist1 ist2 ist3 ist4 ist5 ist6 ist7 io_base = record zero_tss {
  rsp0 = rsp0;
  rsp1 = rsp1;
  rsp2 = rsp2;
  ist1 = ist1;
  ist2 = ist2;
  ist3 = ist3;
  ist4 = ist4;
  ist5 = ist5;
  ist6 = ist6;
  ist7 = ist7;
  io_map_base = io_base;
}
