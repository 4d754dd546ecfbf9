-- ===== src/Gdt/Decode.antt =====
-- What the processor reads back from the descriptors that GDT.c writes.
use chud_os.Base.{ℕ, ◌+◌, ◌*◌, ◌/◌, ◌%◌, ◌^◌, ◌<◌, ◌≡◌, refl, arith}
use chud_os.Base.Bits.{bit_and-low_mask, bit_or_disjoint}
use chud_os.Gdt.{GdtEntry, TssGdt, set_gdt_entry, set_gdt_system_entry}

-- The base, the limit and the flags as the processor puts them together.
abbrev pub segment_base : GdtEntry → ℕ
segment_base e = e.base_0 + e.base_1 * 2 ^ 16 + e.base_2 * 2 ^ 24

abbrev pub segment_limit : GdtEntry → ℕ
segment_limit e = e.limit + e.flags_limits % 16 * 2 ^ 16

abbrev pub segment_flags : GdtEntry → ℕ
segment_flags e = e.flags_limits / 16

abbrev pub system_base : TssGdt → ℕ
system_base e = segment_base e.low + e.base_3 * 2 ^ 32

-- A descriptor that SetGDTEntry writes has the base, the flags and the access byte that were asked
-- for, and a limit without bits 8 to 15 of the one that was asked for.
pub set_gdt_entry-decode :
    (base limit flags access : ℕ)
    → base < 2 ^ 32
    → flags < 2 ^ 4
    → (segment_base (set_gdt_entry base limit flags access) ≡ base)
      × (segment_flags (set_gdt_entry base limit flags access) ≡ flags)
      × ((set_gdt_entry base limit flags access).access ≡ access)
      × (segment_limit (set_gdt_entry base limit flags access)
          ≡ limit % 2 ^ 8 + limit / 2 ^ 16 % 16 * 2 ^ 16)
unfolding set_gdt_entry
set_gdt_entry-decode base limit flags access hb hf =
    rw
      (
        bit_and-low_mask 16 base,
        bit_and-low_mask 8 (base / 2 ^ 16),
        bit_and-low_mask 8 (base / 2 ^ 24),
        bit_and-low_mask 4 (limit / 2 ^ 16),
        bit_and-low_mask 8 limit,
        bit_or_disjoint 4 flags (limit / 2 ^ 16 % 2 ^ 4) (omega arith),
      )
      (omega arith, omega arith, refl, omega arith)

-- A system descriptor keeps all 64 bits of its base, so the processor finds the task state segment
-- where SetGDTSystemEntry was told it is.
pub set_gdt_system_entry-decode :
    (base limit flags access : ℕ)
    → base < 2 ^ 64
    → flags < 2 ^ 4
    → (system_base (set_gdt_system_entry base limit flags access) ≡ base)
      × (segment_flags (set_gdt_system_entry base limit flags access).low ≡ flags)
      × (segment_limit (set_gdt_system_entry base limit flags access).low
          ≡ limit % 2 ^ 8 + limit / 2 ^ 16 % 16 * 2 ^ 16)
unfolding set_gdt_system_entry
set_gdt_system_entry-decode base limit flags access hb hf =
    rw
      (
        bit_and-low_mask 16 base,
        bit_and-low_mask 8 (base / 2 ^ 16),
        bit_and-low_mask 8 (base / 2 ^ 24),
        bit_and-low_mask 32 (base / 2 ^ 32),
        bit_and-low_mask 4 (limit / 2 ^ 16),
        bit_and-low_mask 8 limit,
        bit_or_disjoint 4 flags (limit / 2 ^ 16 % 2 ^ 4) (omega arith),
      )
      (omega arith, omega arith, omega arith)
