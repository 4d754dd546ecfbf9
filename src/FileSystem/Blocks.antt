-- ===== src/FileSystem/Blocks.antt =====
-- Blocks, sectors and the table of used blocks: lines 138-176 and 412-439 of gemfs.c.

pub mod Used
pub mod Sectors
use chud_os.Base.{
  ℕ, zero, suc, ◌+◌, ◌-◌, ◌*◌, ◌/◌, ◌%◌, ◌^◌, ◌==◌, ◌||◌, ltb, if◌then◌else◌, update, List, [], ◌∷◌,
  Bool, true, false, bit_or,
}
use chud_os.Base.Words.{add64, sub64}
use chud_os.Base.Run.{Run, ◌>>=◌, ◌>>◌, pure, gets, modify, fail}
use chud_os.Tasks.Bytes.{load64}
use chud_os.FileSystem.{Sector, Entry, Main, MbrPartition, DriveData, Disk, Fs, Location}

-- `Drives[16]`.
abbrev pub Drives : Type 0
Drives = ℕ → DriveData

abbrev pub main_of : Location → Drives → Main
main_of l drives = (drives l.drive).main_entries l.partition

abbrev pub partition_of : Location → Drives → MbrPartition
partition_of l drives = (drives l.drive).partition_table l.partition

abbrev pub block_size_of : Location → Drives → ℕ
block_size_of l drives = (main_of l drives).block_size

-- `if(BS == 0){ BS = 1; }`
abbrev pub sectors_per_block : ℕ → ℕ
sectors_per_block bs = if bs == 0 then 1 else bs

unfoldable pub block_to_lba : Location → ℕ → Drives → ℕ
block_to_lba l block drives =
    add64 (block * sectors_per_block (block_size_of l drives) % 2 ^ 64)
      ((partition_of l drives).lba_start)

unfoldable pub lba_to_block : Location → ℕ → Drives → ℕ
lba_to_block l lba drives =
    sub64 lba ((partition_of l drives).lba_start) / sectors_per_block (block_size_of l drives)

-- Where the table has `block`, by the block size `bs`.
abbrev pub fbb_lba : Location → ℕ → ℕ → Drives → ℕ
fbb_lba l bs block drives = block_to_lba l (add64 (block / (bs * 512)) 4) drives

module _ {d : Disk} where
  -- The disk stands for transfers of 1 to 128 sectors, which the floppy driver makes with one command. For more
  -- it repeats a command with the same place, and a write of none is programmed as one of 64 KiB: the functions
  -- below `fail` there.

  -- What `FLOPPY_Read_LBA(DriveID, lba, buffer, count)` leaves in the buffer, for at most 128 sectors.
  abbrev pub read_sectors : Location → ℕ → ℕ → Sector → Fs d → Sector
  read_sectors l lba count buffer fs p =
      if ltb p (512 * count) then d.read fs.disk l.drive (lba + p / 512) (p % 512) else buffer p

  -- `FLOPPY_Write_LBA(DriveID, lba, buffer, count)`, for 1 to 128 sectors.
  unfoldable pub write_sectors : Location → ℕ → ℕ → Sector → Fs d → Fs d
  write_sectors l lba zero buffer fs = fs
  write_sectors l lba (suc count) buffer fs =
      write_sectors l (suc lba) count (λ p. buffer (512 + p))
        (record fs { disk = d.write l.drive lba buffer fs.disk })

  pub get_fbb : Location → Run (Fs d) (Unit {0})
  unfolding block_to_lba
  get_fbb l = do
    fbb_read ← gets (λ fs. d.read fs.disk l.drive (block_to_lba l 2 fs.drives))
    modify (λ fs. record fs { fbb_size = load64 0 fbb_read })

  abbrev pub load_fbb : Location → ℕ → ℕ → Run (Fs d) (Unit {0})
  load_fbb l bs block = modify (λ fs. record fs {
    fbb_block = read_sectors l (fbb_lba l bs block fs.drives) bs fs.fbb_block fs;
  })

  -- The divisions fail where `BS` is 0, and the transfer is not modelled where it is more than 128.
  unfoldable pub fbb_get_block : Location → ℕ → Run (Fs d) Bool
  fbb_get_block l block = do
    bs ← gets (λ fs. block_size_of l fs.drives)
    if (bs == 0) || ltb 128 bs then fail else do
      load_fbb l bs block
      gets (λ fs. fs.fbb_block (block / bs) / 2 ^ (block % 8) % 2 == 1)

  unfoldable pub fbb_set_block : Location → ℕ → Run (Fs d) (Unit {0})
  fbb_set_block l block = do
    bs ← gets (λ fs. block_size_of l fs.drives)
    if (bs == 0) || ltb 128 bs then fail else do
      load_fbb l bs block
      modify (λ fs. record fs {
        fbb_block =
            update fs.fbb_block (block / bs) (bit_or (fs.fbb_block (block / bs)) (2 ^ (block % 8)));
      })
      modify (λ fs. write_sectors l (fbb_lba l bs block fs.drives) bs fs.fbb_block fs)

  unfoldable pub search_free : Location → ℕ → ℕ → Run (Fs d) ℕ
  search_free l zero i = do
    bs ← gets (λ fs. block_size_of l fs.drives)
    gets (λ fs. add64 ((partition_of l fs.drives).sector_count / bs) 1)
  search_free l (suc n) i = do
    used ← fbb_get_block l i
    if used then search_free l n (suc i) else pure i

  unfoldable pub find_free_block : Location → Run (Fs d) ℕ
  find_free_block l = do
    bs ← gets (λ fs. block_size_of l fs.drives)
    if bs == 0 then fail else search_free l 0x200 0
