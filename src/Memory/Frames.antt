-- ===== src/Memory/Frames.antt =====
-- The state of kernel/drivers/LowLevel/Memory.c and its table of physical frames: mem_SetBit,
-- mem_ClearBit, mem_GetBit, FindNextFreePhysical and FindNextFreePhysicalContinuous.
pub mod Search
use chud_os.Base.{
  ℕ, zero, suc, ◌+◌, ◌*◌, ◌/◌, ◌^◌, bit_and, bit_or, Bool, true, false, not, ◌||◌, ltb, ◌==◌,
  if◌then◌else◌, update,
}
use chud_os.Base.Words.{add64, sub64}

-- `struct Physical_Frame`. Of `flags`, bit 0 is "used", bit 1 "dirty", bit 2 "kernel".
pub record PhysicalFrame : Type 0 where
  pub refcount : ℕ
  pub flags : ℕ

-- The globals of Memory.c, and the physical memory. `word p` is the 64-bit word at the physical
-- address `p`; the kernel reaches it through the direct map, at `p + VIRTUAL_MEMORY_BARRIER`. Only
-- the page tables are read and written by words, always at multiples of eight.
pub record Memory : Type 0 where
  pub phys_frames : ℕ → PhysicalFrame
  pub total_mem : ℕ
  pub physical_pages_used : ℕ
  pub pml4_physical : ℕ
  pub word : ℕ → ℕ

abbrev pub virtual_memory_barrier : ℕ
virtual_memory_barrier = 0xffff_8000_0000_0000

abbrev pub set_flags : ℕ → ℕ → Memory → Memory
set_flags frame flags m = record m {
  phys_frames = update m.phys_frames frame (record (m.phys_frames frame) { flags = flags });
}

unfoldable pub mem_set_bit : ℕ → Memory → Memory
mem_set_bit address m =
    let frame = address / 0x1000 in
    let m' = set_flags frame (bit_or (m.phys_frames frame).flags 1) m in
    record m' { physical_pages_used = add64 m.physical_pages_used 1 }

-- `flags` is a byte, so `~1` keeps bits 1 to 7.
unfoldable pub mem_clear_bit : ℕ → Memory → Memory
mem_clear_bit address m =
    let frame = address / 0x1000 in
    let m' = set_flags frame (bit_and (m.phys_frames frame).flags 0xfe) m in
    record m' { physical_pages_used = sub64 m.physical_pages_used 1 }

unfoldable pub mem_get_bit : ℕ → Memory → Bool
mem_get_bit address m = not (bit_and (m.phys_frames (address / 0x1000)).flags 0b111 == 0)

-- The loop of FindNextFreePhysical from `phys` on, for at most that many rounds.
find_free_from : ℕ → ℕ → Memory → ℕ
find_free_from zero phys m = 0
find_free_from (suc rounds) phys m =
    let rest = find_free_from rounds (add64 phys 0x1000) m in
    if ltb phys m.total_mem then (if mem_get_bit phys m then rest else phys) else 0

pub find_next_free_physical : Memory → ℕ
find_next_free_physical m = find_free_from (m.total_mem / 0x1000 + 1) 0 m

-- The inner loop of FindNextFreePhysicalContinuous: whether one of `count` frames is used.
encountered_used : ℕ → ℕ → Memory → Bool
encountered_used zero phys m = false
encountered_used (suc count) phys m =
    mem_get_bit (add64 phys (0x1000 * count)) m || encountered_used count phys m

-- Its outer loop, for at most that many rounds.
find_block_from : ℕ → ℕ → ℕ → Memory → ℕ
find_block_from zero page_count phys m = 0
find_block_from (suc rounds) page_count phys m =
    let rest = find_block_from rounds page_count (add64 phys (0x1000 * page_count)) m in
    if ltb phys m.total_mem then (if encountered_used page_count phys m then rest else phys) else 0

pub find_next_free_physical_continuous : ℕ → Memory → ℕ
find_next_free_physical_continuous page_count m =
    find_block_from (m.total_mem / 0x1000 + 1) page_count 0 m
