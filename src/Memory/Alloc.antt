-- ===== src/Memory/Alloc.antt =====
-- alloc_page, malloc and malloc_specific of kernel/drivers/LowLevel/Memory.c, with `PageDetails`,
-- `PagePermissions` and the part of `TaskMemoryDefinition` that they use. Messages to the screen are
-- left out.
pub mod Maps
use chud_os.Base.{
  ℕ, ◌+◌, ◌-◌, ◌*◌, ◌/◌, ◌%◌, ◌^◌, ◌<◌, bit_and, bit_or, Bool, true, false, ◌&&◌, ltb, leb, ◌==◌,
  if◌then◌else◌, update,
}
use chud_os.Base.Words.{add64, sub64, shl64}
use chud_os.Memory.Address.{extract_page_entries}
use chud_os.Memory.Frames.{
  PhysicalFrame, Memory, virtual_memory_barrier, set_flags, find_next_free_physical,
}
use chud_os.Memory.Walk.{kernel_flags, calculate_page_physical_entry_address, write_word}

pub record PageDetails : Type 0 where
  pub flags : ℕ
  pub execute_disable : Bool
  pub virtual_address : ℕ
  pub physical_address : ℕ

-- How alloc_page ends: the virtual address it returns, NULL, or a stopped processor.
pub data Mapping : Type 0 where
  mapped : ℕ → Mapping
  null : Mapping
  halted : Mapping

abbrev pub bool_to_ℕ : Bool → ℕ
bool_to_ℕ b = if b then 1 else 0

unfoldable pub page_table_entry : PageDetails → ℕ
page_table_entry page =
    bit_or (bit_or page.physical_address page.flags) (shl64 (bool_to_ℕ page.execute_disable) 63)

-- The bookkeeping of the frame: only a mapping below the kernel's half counts as a reference.
unfoldable pub count_reference : PageDetails → PhysicalFrame → PhysicalFrame
count_reference page frame =
    if ltb page.virtual_address virtual_memory_barrier
    then record frame {
      flags = if frame.refcount == 0 then 1 else frame.flags;
      refcount = (frame.refcount + 1) % 2 ^ 32;
    }
    else frame

unfoldable pub count_page : PageDetails → Memory → Memory
count_page page m =
    let index = page.physical_address / 0x1000 in
    record m {
      phys_frames = update m.phys_frames index (count_reference page (m.phys_frames index));
    }

pub alloc_page : PageDetails → Memory → Mapping × Memory
alloc_page page m =
    let frame = m.phys_frames (page.physical_address / 0x1000) in
    let entries = extract_page_entries page.virtual_address in
    let (page_entry, walked) = calculate_page_physical_entry_address entries (count_page page m) in
    if leb m.total_mem page.physical_address
    then (halted, m)
    else if bit_and frame.flags 0b10 == 0b10
    then (null, m)
    else if (bit_and frame.flags 0b100 == 0b100) && ltb page.virtual_address virtual_memory_barrier
    then (null, m)
    else if add64 page_entry virtual_memory_barrier == 0
    then (null, walked)
    else (mapped page.virtual_address, write_word page_entry (page_table_entry page) walked)
