-- ===== src/FileSystem/Entries.antt =====
-- The entries of a partition: lines 443-540 and 619-644 of gemfs.c. An entry's place is found by walking from
-- the main entry, and an entry that the walk misses is created, which walks again: `fuel` bounds that nesting.
pub mod Table
pub mod Requests
pub mod Extend
use chud_os.Base.{
  ℕ, zero, suc, ◌+◌, ◌-◌, ◌*◌, ◌/◌, ◌%◌, ◌^◌, ◌==◌, ltb, if◌then◌else◌, update, Bool, true, false,
}
use chud_os.Base.Run.{Run, ◌>>=◌, ◌>>◌, pure, gets, modify, fail}
use chud_os.FileSystem.{Sector, Entry, Main, Disk, Fs, Location}
use chud_os.FileSystem.Layout.{encode_entry, decode_entry, encode_main, decode_main}
use chud_os.FileSystem.Blocks.{Drives, main_of, block_to_lba, fbb_set_block, find_free_block}

-- What `memset(&x, 0, sizeof(x))` leaves.
abbrev pub blank : Sector
blank p = 0

abbrev pub set_main : Location → Main → Drives → Drives
set_main l m drives =
    let drive = drives l.drive in
    update drives l.drive (record drive { main_entries = update drive.main_entries l.partition m })

module _ {d : Disk} where
  -- `FLOPPY_Read_LBA` of one sector and `memcpy` of an entry from its front.
  unfoldable pub entry_at : Location → Fs d → ℕ → Entry
  entry_at l fs block = decode_entry 0 (d.read fs.disk l.drive (block_to_lba l block fs.drives))

  -- `DriveID < H0` is `DriveID < 4`.
  unfoldable pub read_main_entry : Location → Run (Fs d) Main
  read_main_entry l =
      if ltb l.drive 4
      then (do
        modify
            (λ fs. record fs { entry_buffer = d.read fs.disk l.drive (block_to_lba l 1 fs.drives) })
        main ← gets (λ fs. decode_main fs.entry_buffer)
        modify (λ fs. record fs { drives = set_main l main fs.drives })
        pure main)
      else (do
        modify (λ fs. record fs { drives = set_main l (decode_main blank) fs.drives })
        pure (decode_main blank))

  -- The operations below find the block of an entry by `block_of`.
  module _ (block_of : ℕ → Run (Fs d) ℕ) (l : Location) where
    unfoldable pub read_entry_by : ℕ → Run (Fs d) Entry
    read_entry_by index = do
      block ← block_of index
      if index == 0 then (do main ← read_main_entry l; pure main.entry) else (do
        modify (λ fs. record fs {
          entry_buffer = d.read fs.disk l.drive (block_to_lba l block fs.drives);
        })
        gets (λ fs. decode_entry 0 fs.entry_buffer))

    abbrev pub write_sector : ℕ → Run (Fs d) (Unit {0})
    write_sector block = modify (λ fs. record fs {
      disk = d.write l.drive (block_to_lba l block fs.drives) fs.entry_buffer fs.disk;
    })

    unfoldable pub write_entry_by : ℕ → Entry → Run (Fs d) (Unit {0})
    write_entry_by index e = do
      block ← block_of index
      if index == 0
          then (do
            main ← gets (λ fs. record (main_of l fs.drives) { entry = e })
            modify (λ fs. record fs { entry_buffer = encode_main main fs.entry_buffer })
            write_sector 1
            modify (λ fs. record fs { drives = set_main l main fs.drives }))
          else (do
            modify (λ fs. record fs { entry_buffer = encode_entry e blank })
            write_sector block)

    -- The new entry's other fields are what the stack held.
    unfoldable pub create_entry_by : ℕ → ℕ → Run (Fs d) (Unit {0})
    create_entry_by index flags = do
      free_block ← find_free_block l
      fbb_set_block l free_block
      entry ← gets (λ fs. record fs.stack { index = index; flags = flags; next_index_start = 0 })
      last_entry ← read_entry_by (index - 1)
      write_entry_by (index - 1) (record last_entry { next_index_start = free_block })
      write_entry_by index entry

  -- The loop, `steps` rounds from round `i` on.
  unfoldable pub walk : (ℕ → Run (Fs d) (Unit {0})) → Location → ℕ → ℕ → ℕ → Entry → Run (Fs d) ℕ
  walk create l zero i last_entry entry = pure last_entry
  walk create l (suc steps) i last_entry entry = do
    entry ←
        (if entry.next_index_start == 0
          then (do create i; gets (λ fs. entry_at l fs last_entry))
          else pure entry)
    next ← gets (λ fs. entry_at l fs entry.next_index_start)
    walk create l steps (suc i) entry.next_index_start next

  unfoldable pub get_entry_block : ℕ → Location → ℕ → Run (Fs d) ℕ
  get_entry_block zero l index = fail
  get_entry_block (suc fuel) l index = if index == 0 then pure 1 else (do
    entry ← gets (λ fs. (main_of l fs.drives).entry)
    walk (λ i. create_entry_by (get_entry_block fuel l) l i 0) l index 1 entry.next_index_start
        entry)

  abbrev pub read_entry : ℕ → Location → ℕ → Run (Fs d) Entry
  read_entry fuel l = read_entry_by (get_entry_block fuel l) l

  abbrev pub write_entry : ℕ → Location → ℕ → Entry → Run (Fs d) (Unit {0})
  write_entry fuel l = write_entry_by (get_entry_block fuel l) l

  -- `while(entry.Flags & 1)`, at most `rounds` times.
  unfoldable pub search_free_entry : ℕ → Location → ℕ → ℕ → Entry → Run (Fs d) ℕ
  search_free_entry fuel l zero i entry = fail
  search_free_entry fuel l (suc rounds) i entry =
      if entry.flags % 2 == 0
      then pure (i - 1)
      else (do entry ← read_entry fuel l i; search_free_entry fuel l rounds (suc i) entry)

  unfoldable pub find_free_entry : ℕ → Location → Run (Fs d) ℕ
  find_free_entry fuel l = do
    entry ← gets (λ fs. (main_of l fs.drives).entry)
    search_free_entry fuel l fuel 1 entry
