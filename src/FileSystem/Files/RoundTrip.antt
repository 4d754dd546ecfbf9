-- ===== src/FileSystem/Files/RoundTrip.antt =====
-- A file that is written and read back.
use chud_os.Base.{
  ℕ, suc, ◌+◌, ◌*◌, ◌/◌, ◌%◌, ◌^◌, ◌≤◌, ◌<◌, ◌≡◌, ◌≢◌, refl, sym, ap, ◌∙◌, arith, ◌⊎◌, inl, inr,
  ltb, ◌==◌, ==_of_ne, not-ltb, true, false, some, List, length, get_or,
}
use chud_os.FileSystem.{Sector, Entry, Disk, Fs, Location}
use chud_os.FileSystem.Layout.{IsEntry, encode_entry, decode_entry}
use chud_os.FileSystem.Blocks.{block_size_of, block_to_lba, read_sectors, write_sectors}
use chud_os.FileSystem.Blocks.Sectors.{
  write_sectors-disk, write_sectors-outside, write_sectors-inside,
}
use chud_os.FileSystem.Entries.{blank, entry_at, read_entry}
use chud_os.FileSystem.Entries.Table.{
  IsTable, entry_read, entry_written, read_entry-table, write_entry-table, entry_at-written_self,
  written-IsTable, read-IsTable,
}
use chud_os.FileSystem.Files.{is_directory, write_file, read_file}

module _ {d : Disk} where
  -- The sectors of a file whose entry is `e`.
  abbrev pub file_lba : Location → Fs d → Entry → ℕ
  file_lba l fs e = block_to_lba l e.start fs.drives

  abbrev pub file_sectors : Location → Fs d → Entry → ℕ
  file_sectors l fs e = e.size * block_size_of l fs.drives % 2 ^ 16

  -- They are on the disk, and none of them holds an entry.
  pub record IsFile (l : Location) (fs : Fs d) (blocks : List ℕ) (e : Entry) : Type 0 where
    pub regular : is_directory e ≡ false
    pub whole : IsEntry e
    pub some_sectors : 0 < file_sectors l fs e
    pub one_command : file_sectors l fs e ≤ 128
    pub fits : file_lba l fs e + file_sectors l fs e ≤ d.capacity
    pub outside :
        (j : ℕ)
        → j < length blocks
        → (block_to_lba l (get_or blocks j 0) fs.drives < file_lba l fs e)
          ⊎ (file_lba l fs e + file_sectors l fs e ≤ block_to_lba l (get_or blocks j 0) fs.drives)

  abbrev with_disk : Fs d → d.State → Fs d
  with_disk fs s = record fs { disk = s }

  -- Writing outside of the entries' sectors keeps the table.
  entry_at-outside :
      (l : Location) (fs : Fs d) (lba n : ℕ) (buffer : Sector) (block : ℕ)
      → lba + n ≤ d.capacity
      → block_to_lba l block fs.drives < d.capacity
      → (block_to_lba l block fs.drives < lba) ⊎ (lba + n ≤ block_to_lba l block fs.drives)
      → entry_at l (with_disk fs ((write_sectors l lba n buffer fs).disk)) block
        ≡ entry_at l fs block
  unfolding entry_at
  entry_at-outside l fs lba n buffer block fits hb out =
      ap (decode_entry 0)
        (write_sectors-outside l lba n buffer fs (block_to_lba l block fs.drives) fits hb out)

  outside-IsTable :
      (l : Location) (fs : Fs d) (blocks : List ℕ) (lba n : ℕ) (buffer : Sector)
      → lba + n ≤ d.capacity
      → IsTable l fs blocks
      → ((j : ℕ)
          → j < length blocks
          → (block_to_lba l (get_or blocks j 0) fs.drives < lba)
            ⊎ (lba + n ≤ block_to_lba l (get_or blocks j 0) fs.drives))
      → IsTable l (with_disk fs ((write_sectors l lba n buffer fs).disk)) blocks
  outside-IsTable l fs blocks lba n buffer fits table out = record {
    first = table.first;
    next = λ j hj.
        ap (λ x. x.next_index_start)
          (entry_at-outside l fs lba n buffer (get_or blocks j 0) fits (table.fits j (omega arith))
            (out j (omega arith)))
        ∙ table.next j hj;
    used = table.used;
    fits = table.fits;
    apart = table.apart;
  }

  -- The states that `write_file` passes through.
  abbrev file_written : Location → Fs d → ℕ → Entry → Sector → Fs d
  file_written l fs block e buffer =
      let opened = entry_read l block fs in
      with_disk opened
        ((write_sectors l (file_lba l fs e) (file_sectors l fs e) buffer opened).disk)

  module _ (fuel : ℕ) (l : Location) (fs : Fs d) (blocks : List ℕ) (i : ℕ) (e : Entry)
      (buffer : Sector) (table : IsTable l fs blocks) (inside : i < length blocks)
      (here : entry_at l fs (get_or blocks i 0) ≡ e) (file : IsFile l fs blocks e) where
    abbrev block : ℕ
    block = get_or blocks i 0

    abbrev middle : Fs d
    middle = file_written l fs block e buffer

    middle-IsTable : IsTable l middle blocks
    middle-IsTable =
        outside-IsTable l (entry_read l block fs) blocks (file_lba l fs e) (file_sectors l fs e)
          buffer file.fits (read-IsTable l fs block blocks table) file.outside

    middle-entry : entry_at l middle block ≡ e
    unfolding entry_at
    middle-entry =
        entry_at-outside l (entry_read l block fs) (file_lba l fs e) (file_sectors l fs e) buffer
          block file.fits (table.fits i inside) (file.outside i inside)
        ∙ here

    write_file-runs :
        write_file (suc fuel) l buffer (suc i) fs ≡ some (tt, entry_written l block e middle)
    unfolding write_file
    write_file-runs =
        let opened : read_entry (suc fuel) l (suc i) fs ≡ some (e, entry_read l block fs) =
          read_entry-table fuel l fs blocks i table inside
          ∙ ap (λ x. some (x, entry_read l block fs)) here in
        let stored =
          write_sectors-disk l (file_lba l fs e) (file_sectors l fs e) buffer
            (entry_read l block fs) in
        let closed = write_entry-table fuel l middle blocks i e middle-IsTable inside in
        let writes : (file_sectors l fs e == 0) ≡ false =
          ==_of_ne (file_sectors l fs e) 0
            (let positive = file.some_sectors in λ z. absurd (omega arith)) in
        let fits : ltb 128 (file_sectors l fs e) ≡ false =
          not-ltb 128 (file_sectors l fs e)
            (let few = file.one_command in λ h. absurd (omega arith)) in
        rw (opened, file.regular, writes, fits, stored) closed

    abbrev final : Fs d
    final = entry_written l block e middle

    final-IsTable : IsTable l final blocks
    final-IsTable =
        written-IsTable l middle blocks i e middle-IsTable file.whole inside
          (sym (ap (λ x. x.next_index_start) middle-entry))

    final-bytes :
        (p : ℕ)
        → p < 512 * file_sectors l fs e
        → p % 512 < d.delivered
        → d.read final.disk l.drive (file_lba l fs e + p / 512) (p % 512) ≡ buffer p
    final-bytes p hp whole =
        let clear = file.outside i inside in
        let apart : block_to_lba l block fs.drives ≢ file_lba l fs e + p / 512 = elim clear [
          | inl below ↦ omega arith
          | inr above ↦ omega arith
        ] in
        ap (λ (f : Sector). f (p % 512))
          (d.read-write_ne middle.disk l.drive (block_to_lba l block fs.drives)
            (file_lba l fs e + p / 512) (encode_entry e blank) (table.fits i inside)
            (let fits = file.fits in omega arith) apart)
        ∙ write_sectors-inside l (file_lba l fs e) (file_sectors l fs e) buffer
            (entry_read l block fs) (p / 512) (p % 512) (omega arith) whole file.fits
        ∙ ap buffer (omega arith)

    read_file-runs :
        (other : Sector)
        → read_file (suc fuel) l (suc i) other (file_sectors l fs e) final
          ≡ some (
            read_sectors l (file_lba l fs e) (file_sectors l fs e) other final,
            entry_read l block final,
          )
    unfolding read_file
    read_file-runs other =
        let entry = entry_at-written_self l middle block e file.whole (table.fits i inside) in
        let opened : read_entry (suc fuel) l (suc i) final ≡ some (e, entry_read l block final) =
          read_entry-table fuel l final blocks i final-IsTable inside
          ∙ ap (λ x. some (x, entry_read l block final)) entry in
        let count : file_sectors l fs e % 2 ^ 16 ≡ file_sectors l fs e = omega arith in
        let few : ltb 128 (file_sectors l fs e) ≡ false =
          not-ltb 128 (file_sectors l fs e)
            (let few = file.one_command in λ h. absurd (omega arith)) in
        rw (opened, file.regular, count, few) refl

  -- A file that GemFS_WriteFile has written is read back by GemFS_ReadFile, in every byte of its
  -- sectors that a read delivers, whatever the reader's buffer held: both succeed where the chain of
  -- entry blocks reaches the file's entry, the entry's fields fit their types, it is not that of a
  -- directory, and the file's sectors are 1 to 128, on the disk and apart from those of the entries. The
  -- entries are still a complete chain afterwards.
  pub read_file-write_file :
      (fuel : ℕ) (l : Location) (fs : Fs d) (blocks : List ℕ) (i : ℕ) (e : Entry)
      (buffer other : Sector)
      → IsTable l fs blocks
      → i < length blocks
      → entry_at l fs (get_or blocks i 0) ≡ e
      → IsFile l fs blocks e
      → (written : Fs d) × (contents : Sector) × (after : Fs d) × (write_file
            (suc fuel)
            l
            buffer
            (suc i)
            fs
          ≡ some (tt, written))
        × (read_file (suc fuel) l (suc i) other (file_sectors l fs e) written
            ≡ some (contents, after))
        × ((p : ℕ) → p < 512 * file_sectors l fs e → p % 512 < d.delivered → contents p ≡ buffer p)
        × IsTable l written blocks
  read_file-write_file fuel l fs blocks i e buffer other table inside here file = (
    final fuel l fs blocks i e buffer table inside here file,
    read_sectors l (file_lba l fs e) (file_sectors l fs e) other
        (final fuel l fs blocks i e buffer table inside here file),
    entry_read l (get_or blocks i 0) (final fuel l fs blocks i e buffer table inside here file),
    write_file-runs fuel l fs blocks i e buffer table inside here file,
    read_file-runs fuel l fs blocks i e buffer table inside here file other,
    (λ p hp whole.
        let within : ltb p (512 * file_sectors l fs e) ≡ true = ground arith in
        rw within (final-bytes fuel l fs blocks i e buffer table inside here file p hp whole)),
    final-IsTable fuel l fs blocks i e buffer table inside here file,
  )
