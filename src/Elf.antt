-- ===== src/Elf.antt =====
-- Programs in the ELF format: the headers of src/include/Userland/Tasks.h, and how LoadElf and LoadElfStrict of
-- src/kernel/drivers/Userland/Tasks.c load a segment. A disk is given by its sectors; the reads of the
-- floppy driver are those without an error, with what they lose.
pub mod Reads
pub mod Segments
pub mod Load
mod Tests
use chud_os.Base.{
  ℕ, zero, suc, ◌+◌, ◌-◌, ◌*◌, ◌/◌, ◌%◌, ◌^◌, Bool, true, false, not, ◌&&◌, ltb, ◌==◌,
  if◌then◌else◌, bit_and, bit_or, Option, none, some,
}
use chud_os.Base.Words.{add64, sub64}
use chud_os.Memory.Frames.{Memory, find_next_free_physical}
use chud_os.Memory.Alloc.{PageDetails, Mapping, mapped, null, halted, alloc_page}

pub record ElfHeader64 : Type 0 where
  pub e_type : ℕ
  pub e_machine : ℕ
  pub e_entry : ℕ
  pub e_phoff : ℕ
  pub e_phentsize : ℕ
  pub e_phnum : ℕ

pub record ProgramHeader64 : Type 0 where
  pub p_type : ℕ
  pub p_flags : ℕ
  pub p_offset : ℕ
  pub p_vaddr : ℕ
  pub p_filesz : ℕ
  pub p_memsz : ℕ

-- A little-endian number of `n` bytes.
abbrev pub little_endian : ℕ → (ℕ → ℕ) → ℕ → ℕ
little_endian zero bytes p = 0
little_endian (suc n) bytes p = bytes p + 0x100 * little_endian n bytes (p + 1)

-- The fields that the loader reads, by their offsets in the two structs.
unfoldable pub elf_header : (ℕ → ℕ) → ElfHeader64
elf_header bytes = record {
  e_type = little_endian 2 bytes 16;
  e_machine = little_endian 2 bytes 18;
  e_entry = little_endian 8 bytes 24;
  e_phoff = little_endian 8 bytes 32;
  e_phentsize = little_endian 2 bytes 54;
  e_phnum = little_endian 2 bytes 56;
}

unfoldable pub program_header : (ℕ → ℕ) → ℕ → ProgramHeader64
program_header bytes p = record {
  p_type = little_endian 4 bytes p;
  p_flags = little_endian 4 bytes (p + 4);
  p_offset = little_endian 8 bytes (p + 8);
  p_vaddr = little_endian 8 bytes (p + 16);
  p_filesz = little_endian 8 bytes (p + 32);
  p_memsz = little_endian 8 bytes (p + 40);
}

abbrev pub pt_load : ℕ
pt_load = 1

-- The test of the file's header.
pub is_program : ElfHeader64 → Bool
is_program h = (h.e_type == 2) && (h.e_machine == 0x3E) && (h.e_phentsize == 0x38)

-- `& ~0xFFF`.
abbrev pub page_start : ℕ → ℕ
page_start a = bit_and a 0xffff_ffff_ffff_f000

unfoldable pub num_pages : ProgramHeader64 → ℕ
num_pages h =
    let end_vaddr = page_start (add64 (add64 h.p_vaddr h.p_memsz) 0xFFF) in
    sub64 end_vaddr (page_start h.p_vaddr) / 0x1000

abbrev pub segment_page : ℕ → ℕ → Memory → PageDetails
segment_page virtual_address p_flags m = record {
  flags = bit_or 0b101 (bit_and p_flags 2);
  execute_disable = bit_and p_flags 1 == 0;
  virtual_address = virtual_address;
  physical_address = find_next_free_physical m;
}

-- The loop over the pages of a segment, which goes on where alloc_page returns NULL; `none` where the
-- processor is stopped.
unfoldable pub alloc_pages : ℕ → ℕ → ℕ → Memory → Option Memory
alloc_pages zero virtual_address p_flags m = some m
alloc_pages (suc rounds) virtual_address p_flags m =
    let (mapping, m') = alloc_page (segment_page virtual_address p_flags m) m in
    let rest = alloc_pages rounds (add64 virtual_address 0x1000) p_flags m' in
    elim mapping [ halted ↦ none | mapped va ↦ rest | null ↦ rest ]

-- The bytes that reach the bounce buffer, which was all 0, in a read of `transfer_count` bytes:
-- FLOPPY_Read_CHS subtracts 1 from the count, ISA_DMA_Transfer_To subtracts 1 more, and the controller
-- of the channel counts 16 bits and makes one transfer more than its count.
abbrev pub dma_bytes : ℕ → ℕ
dma_bytes transfer_count = (transfer_count % 0x10000 + 0xFFFE) % 0x10000 + 1

-- The bytes that are copied out of the bounce buffer. Above 64 KiB every round of FLOPPY_Read_CHS reads the same
-- sectors to the same place, and the last round copies no more than the ones before it.
abbrev pub copied_bytes : ℕ → ℕ
copied_bytes transfer_count = if ltb 0x10000 transfer_count then 0x10000 else transfer_count

-- The bytes of memory after FLOPPY_Read_LBA of `count` sectors, a `uint16_t`, to `dest`, where the controller
-- reports no error.
abbrev pub read_lba : (ℕ → ℕ → ℕ) → ℕ → ℕ → ℕ → (ℕ → ℕ) → ℕ → ℕ
read_lba sectors lba dest count bytes p =
    let i = sub64 p dest in
    let transfer_count = count % 2 ^ 16 * 512 in
    if ltb i (copied_bytes transfer_count)
    then (if ltb i (dma_bytes transfer_count) then sectors (add64 lba (i / 512)) (i % 512) else 0)
    else bytes p

-- The first, partial sector, through the scratch buffer.
abbrev pub read_head : (ℕ → ℕ → ℕ) → ℕ → ℕ → ℕ → (ℕ → ℕ) → ℕ → ℕ
read_head sectors lba dest head_offset bytes p =
    let i = sub64 p dest in
    if ltb i (0x200 - head_offset)
    then read_lba sectors lba 0 1 (λ q. 0) (head_offset + i)
    else bytes p

-- The contents of a segment: the reads in a round of the loop over the program headers.
unfoldable pub read_segment : (ℕ → ℕ → ℕ) → ℕ → ProgramHeader64 → (ℕ → ℕ) → ℕ → ℕ
read_segment sectors lba h bytes =
    let head_offset = h.p_offset % 512 in
    let proper_lba = add64 lba (h.p_offset / 512) in
    let has_head = ltb 0 head_offset in
    let bytes_processed = if has_head then 0x200 - head_offset else 0 in
    let next_lba = if has_head then add64 proper_lba 1 else proper_lba in
    let with_head : ℕ → ℕ =
      if has_head then read_head sectors proper_lba h.p_vaddr head_offset bytes else bytes in
    let remaining_bytes = sub64 h.p_filesz bytes_processed in
    if ltb 0 remaining_bytes
    then read_lba sectors next_lba (add64 h.p_vaddr bytes_processed)
        (add64 remaining_bytes 511 / 512) with_head
    else with_head
