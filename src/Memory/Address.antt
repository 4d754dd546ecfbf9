-- ===== src/Memory/Address.antt =====
-- ExtractPageEntries, CalculatePageAddress and IsCanonical of
-- kernel/drivers/LowLevel/Memory.c, with `PageEntries` of include/LowLevel/Memory.h.
pub mod RoundTrip
use chud_os.Base.{ℕ, ◌*◌, ◌^◌, bit_and, bit_or, Bool, ◌||◌, ◌==◌}
use chud_os.Base.Words.{shr, shl64, sar64}

pub record PageEntries : Type 0 where
  pub pml4_entry : ℕ
  pub pdpt_entry : ℕ
  pub pd_entry : ℕ
  pub pt_entry : ℕ
  pub page_offset : ℕ

pub extract_page_entries : ℕ → PageEntries
extract_page_entries va = record {
  pml4_entry = bit_and (shr va 39) 0x1ff;
  pdpt_entry = bit_and (shr va 30) 0x1ff;
  pd_entry = bit_and (shr va 21) 0x1ff;
  pt_entry = bit_and (shr va 12) 0x1ff;
  page_offset = bit_and va 0xfff;
}

-- The `|` of the fields, before the sign extension.
join_entries : PageEntries → ℕ
join_entries e =
    bit_or
      (bit_or
        (bit_or
          (bit_or (shl64 (bit_and e.pml4_entry 0x1ff) 39) (shl64 (bit_and e.pdpt_entry 0x1ff) 30))
          (shl64 (bit_and e.pd_entry 0x1ff) 21))
        (shl64 (bit_and e.pt_entry 0x1ff) 12))
      (bit_and e.page_offset 0xfff)

pub calculate_page_address : PageEntries → ℕ
unfolding join_entries
calculate_page_address e = sar64 (shl64 (join_entries e) 16) 16

-- The statement behind the first `return` of the source is never reached.
pub is_canonical : ℕ → Bool
is_canonical addr = (shr addr 47 == 0) || (shr addr 47 == 0x1_ffff_ffff)
