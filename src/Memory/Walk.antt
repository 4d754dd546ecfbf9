-- ===== src/Memory/Walk.antt =====
-- The page tables of kernel/drivers/LowLevel/Memory.c: EnsureEntry,
-- CalculatePagePhysicalEntryAddress, phys_addr and ParsePTE. A pointer of the kernel to physical
-- memory is written as the physical address. The processor's translation cache is not modelled, so
-- FlushTLB and `invlpg` do nothing.
pub mod Entry
pub mod Strata
pub mod Extend
pub mod Route
pub mod Calculate
use chud_os.Base.{
  ℕ, ◌+◌, ◌*◌, ◌/◌, ◌<◌, bit_and, bit_or, Bool, not, ◌&&◌, ◌||◌, ltb, leb, ◌==◌, if◌then◌else◌,
  update, List, [], ◌∷◌,
}
use chud_os.Memory.Address.{PageEntries, extract_page_entries, is_canonical}
use chud_os.Memory.Frames.{Memory, find_next_free_physical, set_flags}

abbrev pub kernel_flags : ℕ
kernel_flags = 0b11

abbrev pub user_flags : ℕ
user_flags = 0b111

-- The physical address in a table entry, and its "present" bit.
abbrev pub entry_address : ℕ → ℕ
entry_address entry = bit_and entry 0x000f_ffff_ffff_f000

abbrev pub is_present : ℕ → Bool
is_present entry = not (bit_and entry 1 == 0)

-- `memset(page, 0, 0x1000)`, and a write of one word.
abbrev pub zero_page : ℕ → (ℕ → ℕ) → ℕ → ℕ
zero_page page word p = if leb page p && ltb p (page + 0x1000) then 0 else word p

abbrev pub write_word : ℕ → ℕ → Memory → Memory
write_word p value m = record m { word = update m.word p value }

-- Whether EnsureEntry makes a new table for this entry.
pub lacks_table : ℕ → Bool
lacks_table entry = not (is_present entry) || not (is_canonical (entry_address entry))

pub ensure_entry : ℕ → ℕ → Memory → Memory
ensure_entry e_addr flags m =
    let new = find_next_free_physical m in
    let marked = set_flags (new / 0x1000) 0b101 m in
    let zeroed = record marked { word = zero_page new m.word } in
    if lacks_table (m.word e_addr)
    then write_word e_addr (bit_or (bit_or new flags) 1) zeroed
    else m

-- The address of the entry for an index in the table that an entry points to.
abbrev pub slot : ℕ → ℕ → ℕ
slot table index = table + index * 8

-- The steps of the walk, one for each index: EnsureEntry on the entry, then on to the table that
-- the entry now points to. CalculatePagePhysicalEntryAddress writes three of them out.
pub walk_tables : List ℕ → ℕ → ℕ → Memory → ℕ × Memory
walk_tables [] table flags m = (table, m)
walk_tables (i ∷ is) table flags m =
    let pointer = slot table i in
    let m' = ensure_entry pointer flags m in
    walk_tables is (entry_address (m'.word pointer)) flags m'

abbrev pub table_flags : PageEntries → ℕ
table_flags entries = if ltb entries.pml4_entry 256 then user_flags else kernel_flags

abbrev pub table_indices : PageEntries → List ℕ
table_indices entries = entries.pml4_entry ∷ entries.pdpt_entry ∷ entries.pd_entry ∷ []

pub calculate_page_physical_entry_address : PageEntries → Memory → ℕ × Memory
unfolding walk_tables
calculate_page_physical_entry_address entries m =
    let (table, m') = walk_tables (table_indices entries) m.pml4_physical (table_flags entries) m in
    (slot table entries.pt_entry, m')

pub phys_addr : ℕ → Memory → ℕ × Memory
phys_addr pointer m =
    let addr = bit_and pointer 0xffff_ffff_ffff_f000 in
    let offset = bit_and pointer 0xfff in
    let (info, m') = calculate_page_physical_entry_address (extract_page_entries addr) m in
    (bit_or (entry_address (m'.word info)) offset, m')
