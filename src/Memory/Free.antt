-- ===== src/Memory/Free.antt =====
-- free_page, alloc_page_no_invlpg, ParsePTE and find_first_present of
-- src/kernel/drivers/LowLevel/Memory.c. The flush of the translation cache and the messages are left out.
pub mod Unmaps
pub mod Ranges
use chud_os.Base.{
  ℕ, zero, suc, ◌+◌, ◌-◌, ◌*◌, ◌/◌, ◌%◌, ◌^◌, Bool, not, ◌&&◌, ltb, leb, ◌==◌, if◌then◌else◌,
  bit_and, update, List, [], ◌∷◌,
}
use chud_os.Base.Words.{add64, sub64, shr}
use chud_os.Memory.Address.{PageEntries, extract_page_entries}
use chud_os.Memory.Frames.{
  PhysicalFrame, Memory, virtual_memory_barrier, set_flags, mem_set_bit, mem_clear_bit,
}
use chud_os.Memory.Walk.{calculate_page_physical_entry_address, entry_address, write_word}
use chud_os.Memory.Alloc.{PageDetails, Mapping, mapped, null, halted, page_table_entry}

-- The frame loses a reference, and its "used" bit with the last one. The count wraps below 0.
pub release_page : PageDetails → Memory → Memory
release_page page m =
    let index = page.physical_address / 0x1000 in
    let released =
      if (m.phys_frames index).refcount == 1 then mem_clear_bit page.physical_address m else m in
    let frame = released.phys_frames index in
    record released {
      phys_frames =
          update released.phys_frames index
            (record frame { refcount = (frame.refcount + (2 ^ 32 - 1)) % 2 ^ 32 });
    }

-- The test against VirtualMemorySize, on the product of two of the indices.
pub exceeds_bounds : ℕ → PageEntries → Bool
exceeds_bounds virtual_memory_size e =
    ltb virtual_memory_size ((e.pt_entry * e.pd_entry + 2) % 2 ^ 32)

pub free_page : ℕ → PageDetails → Memory → Mapping × Memory
free_page virtual_memory_size page m =
    let entries = extract_page_entries page.virtual_address in
    let (page_entry, walked) =
      calculate_page_physical_entry_address entries (release_page page m) in
    if exceeds_bounds virtual_memory_size entries
    then (null, m)
    else if add64 page_entry virtual_memory_barrier == 0
    then (null, walked)
    else (mapped page.virtual_address, write_word page_entry 0 walked)

-- The bookkeeping of alloc_page_no_invlpg, which sets the "used" bit through mem_SetBit.
pub take_page : PageDetails → Memory → Memory
take_page page m =
    let index = page.physical_address / 0x1000 in
    let used =
      if (m.phys_frames index).refcount == 0 then mem_set_bit page.physical_address m else m in
    let frame = used.phys_frames index in
    if ltb page.virtual_address virtual_memory_barrier
    then record used {
      phys_frames =
          update used.phys_frames index (record frame { refcount = (frame.refcount + 1) % 2 ^ 32 });
    }
    else m

pub alloc_page_no_invlpg : PageDetails → Memory → Mapping × Memory
alloc_page_no_invlpg page m =
    let frame = m.phys_frames (page.physical_address / 0x1000) in
    let entries = extract_page_entries page.virtual_address in
    let (page_entry, walked) = calculate_page_physical_entry_address entries (take_page page m) in
    if leb m.total_mem page.physical_address
    then (halted, m)
    else if bit_and frame.flags 0b10 == 0b10
    then (null, m)
    else if add64 page_entry virtual_memory_barrier == 0
    then (null, walked)
    else (mapped page.virtual_address, write_word page_entry (page_table_entry page) walked)

-- ParsePTE of an entry that is not NULL: its address, which is not that of the page, minus the PML4.
pub parse_pte : ℕ → Memory → PageDetails
parse_pte pte m = record {
  virtual_address = sub64 (add64 pte virtual_memory_barrier) m.pml4_physical;
  physical_address = entry_address (m.word pte);
  flags = bit_and (m.word pte) 0x1ff;
  execute_disable = not (shr (m.word pte) 63 == 0);
}

-- The entries that find_first_present looks at: the table's 512 and one more.
pub find_present_from : ℕ → ℕ → ℕ → Memory → ℕ
find_present_from zero i table m = i - 1
find_present_from (suc rounds) i table m =
    let rest = find_present_from rounds (suc i) table m in
    if bit_and (m.word (table + i * 8)) 1 == 1 then i else rest

pub find_first_present : ℕ → Memory → ℕ
find_first_present table m = find_present_from 513 0 table m
