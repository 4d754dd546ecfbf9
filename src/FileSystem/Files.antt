-- ===== src/FileSystem/Files.antt =====
-- Directories and files: lines 178-298 of gemfs.c.
pub mod RoundTrip
use chud_os.Base.{
  ℕ, zero, suc, ◌+◌, ◌-◌, ◌*◌, ◌/◌, ◌%◌, ◌^◌, ◌==◌, ◌||◌, ltb, if◌then◌else◌, Bool, true, false,
  List, get_or,
}
use chud_os.Base.Words.{add64}
use chud_os.Base.Run.{Run, ◌>>=◌, ◌>>◌, pure, gets, modify, fail}
use chud_os.FileSystem.{Sector, Entry, Disk, Fs, Location}
use chud_os.FileSystem.Layout.{read_bytes}
use chud_os.FileSystem.Blocks.{
  block_size_of, block_to_lba, read_sectors, write_sectors, fbb_set_block, find_free_block,
}
use chud_os.FileSystem.Entries.{read_entry, write_entry, find_free_entry}

-- `memcpy(&new_dir.Name, name, name_len)` over 128 zeros.
abbrev pub copy_name : List ℕ → ℕ → List ℕ
copy_name name name_len = read_bytes 128 0 (λ p. if ltb p name_len then get_or name p 0 else 0)

-- `(entry.Flags >> 4) & 1`.
abbrev pub is_directory : Entry → Bool
is_directory e = e.flags / 2 ^ 4 % 2 == 1

module _ {d : Disk} where
  -- The loop over the siblings, at most `rounds` of them.
  unfoldable pub last_sibling : ℕ → Location → ℕ → Entry → Run (Fs d) Entry
  last_sibling fuel l zero cur = fail
  last_sibling fuel l (suc rounds) cur =
      if cur.sibling_index == 0
      then pure cur
      else do next ← read_entry fuel l cur.sibling_index; last_sibling fuel l rounds next

  -- The constants `F0` and partition 1 are the code's. The test of the parent's flags is `flags & (16 != 16)`,
  -- which is 0, and would only print a message.
  unfoldable pub mkdir : ℕ → Location → List ℕ → ℕ → ℕ → ℕ → Run (Fs d) ℕ
  mkdir fuel l name name_len flags parent_index = do
    free ← find_free_entry fuel (record { drive = 0; partition = 1 })
    free_block ← find_free_block l
    fbb_set_block (record { drive = 0; partition = l.partition }) free_block
    read_entry fuel l free
    parent ← read_entry fuel l parent_index
    if parent.start == 0 then pure tt else do
      first ← read_entry fuel l parent.start
      last ← last_sibling fuel l fuel first
      write_entry fuel l last.index (record last { sibling_index = free })
    write_entry fuel (record { drive = 0; partition = l.partition }) free
        (record {
          start = 0;
          size = 0;
          index = free;
          parent_index = parent_index;
          sibling_index = 0;
          next_index_start = 0;
          flags = flags;
          reading_mask = 0;
          name = copy_name name name_len;
        })
    write_entry fuel l parent_index
        (if parent.start == 0 then record parent { start = free } else parent)
    pure free

  abbrev pub set_blocks : Location → ℕ → ℕ → Run (Fs d) (Unit {0})
  set_blocks l zero block = pure tt
  set_blocks l (suc n) block = do fbb_set_block l block; set_blocks l n (add64 block 1)

  unfoldable pub create_file : ℕ → Location → List ℕ → ℕ → ℕ → ℕ → ℕ → Run (Fs d) ℕ
  create_file fuel l name name_len flags parent_index size = do
    free_block ← find_free_block l
    set_blocks l size free_block
    free ← find_free_entry fuel l
    mkdir fuel l name name_len flags parent_index
    entry ← read_entry fuel l free
    write_entry fuel l free (record entry { start = free_block; size = size })
    pure free

  -- The number of sectors is a `uint16_t` of the floppy driver. Transfers that are not modelled fail.
  unfoldable pub write_file : ℕ → Location → Sector → ℕ → Run (Fs d) (Unit {0})
  write_file fuel l buffer index = do
    entry ← read_entry fuel l index
    count ← gets (λ fs. entry.size * block_size_of l fs.drives % 2 ^ 16)
    if is_directory entry then pure tt else if (count == 0) || ltb 128 count then fail else do
      modify (λ fs. write_sectors l (block_to_lba l entry.start fs.drives) count buffer fs)
      write_entry fuel l index entry

  -- What the buffer holds afterwards.
  unfoldable pub read_file : ℕ → Location → ℕ → Sector → ℕ → Run (Fs d) Sector
  read_file fuel l index buffer blocks = do
    entry ← read_entry fuel l index
    if is_directory entry
        then pure buffer
        else if ltb 128 (blocks % 2 ^ 16)
        then fail
        else gets (λ fs.
          read_sectors l (block_to_lba l entry.start fs.drives) (blocks % 2 ^ 16) buffer fs)
